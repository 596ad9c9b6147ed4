-- ===== src/Ast/Views.antt =====
-- Predicates on the types of src/ast.h, and what `type_equal` looks at of a type.
use low.Prelude.{Bool, true, false, ◌&&◌, []}
use low.Ast.LowType.{
  LowType, no_type, void_type, boolean_type, placeholder_type, integer_type, float_type, func_type,
  named_type, struct_type, array_type, slice_type, interface_type, Types, no_types, type_and,
  StructMembers, no_members, member_and, InterfaceMembers, no_interface, member_field, member_func,
  unset_field, unset_func,
}

-- Every member of an interface in the type has its kind.
unfoldable mutual
  pub all_set : LowType → Bool
  all_set (func_type p r ts) = all_set r && types_set ts
  all_set (struct_type p n ms) = members_set ms
  all_set (array_type p t n) = all_set t
  all_set (slice_type p t) = all_set t
  all_set (interface_type p ms) = interface_set ms
  all_set _ = true

  pub types_set : Types → Bool
  types_set no_types = true
  types_set (type_and t ts) = all_set t && types_set ts

  pub members_set : StructMembers → Bool
  members_set no_members = true
  members_set (member_and t n ms) = all_set t && members_set ms

  pub interface_set : InterfaceMembers → Bool
  interface_set no_interface = true
  interface_set (member_field n t ms) = all_set t && interface_set ms
  interface_set (member_func n r ts ms) = all_set r && (types_set ts && interface_set ms)
  interface_set (unset_field n t ms) = false
  interface_set (unset_func n r ts ms) = false

-- Arrays do not occur in the type.
unfoldable mutual
  pub array_free : LowType → Bool
  array_free (func_type p r ts) = array_free r && types_array_free ts
  array_free (struct_type p n ms) = members_array_free ms
  array_free (array_type p t n) = false
  array_free (slice_type p t) = array_free t
  array_free (interface_type p ms) = interface_array_free ms
  array_free _ = true

  pub types_array_free : Types → Bool
  types_array_free no_types = true
  types_array_free (type_and t ts) = array_free t && types_array_free ts

  pub members_array_free : StructMembers → Bool
  members_array_free no_members = true
  members_array_free (member_and t n ms) = array_free t && members_array_free ms

  pub interface_array_free : InterfaceMembers → Bool
  interface_array_free no_interface = true
  interface_array_free (member_field n t ms) = array_free t && interface_array_free ms
  interface_array_free (member_func n r ts ms) =
      array_free r && (types_array_free ts && interface_array_free ms)
  interface_array_free _ = true

-- The type with the names of its structs, which are not compared, left out.
unfoldable mutual
  pub nameless : LowType → LowType
  nameless (func_type p r ts) = func_type p (nameless r) (types_nameless ts)
  nameless (struct_type p n ms) = struct_type p [] (members_nameless ms)
  nameless (array_type p t n) = array_type p (nameless t) n
  nameless (slice_type p t) = slice_type p (nameless t)
  nameless (interface_type p ms) = interface_type p (interface_nameless ms)
  nameless (no_type p) = no_type p
  nameless (void_type p) = void_type p
  nameless (boolean_type p) = boolean_type p
  nameless (placeholder_type p) = placeholder_type p
  nameless (integer_type p w) = integer_type p w
  nameless (float_type p w) = float_type p w
  nameless (named_type p n) = named_type p n

  pub types_nameless : Types → Types
  types_nameless no_types = no_types
  types_nameless (type_and t ts) = type_and (nameless t) (types_nameless ts)

  pub members_nameless : StructMembers → StructMembers
  members_nameless no_members = no_members
  members_nameless (member_and t n ms) = member_and (nameless t) n (members_nameless ms)

  pub interface_nameless : InterfaceMembers → InterfaceMembers
  interface_nameless no_interface = no_interface
  interface_nameless (member_field n t ms) = member_field n (nameless t) (interface_nameless ms)
  interface_nameless (member_func n r ts ms) =
      member_func n (nameless r) (types_nameless ts) (interface_nameless ms)
  interface_nameless (unset_field n t ms) = unset_field n (nameless t) (interface_nameless ms)
  interface_nameless (unset_func n r ts ms) =
      unset_func n (nameless r) (types_nameless ts) (interface_nameless ms)
