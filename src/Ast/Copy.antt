-- ===== src/Ast/Copy.antt =====
-- src/ast.c: `type_copy`. The copy of an interface's member gets a name and types, but no `kind`,
-- and a function no number of arguments.
use low.Ast.LowType.{
  LowType, no_type, void_type, boolean_type, placeholder_type, integer_type, float_type, func_type,
  named_type, struct_type, array_type, slice_type, interface_type, Types, no_types, type_and,
  StructMembers, no_members, member_and, InterfaceMembers, no_interface, member_field, member_func,
  unset_field, unset_func,
}
use low.Prelude.{Option, none, some}

infixl 5 ◌>>=◌
abbrev pub ◌>>=◌ {ℓ κ} : {A : Type ℓ} {B : Type κ} → Option A → (A → Option B) → Option B
none >>= f = none
some a >>= f = f a

-- `none`: a read of a `kind` that was never written.
unfoldable mutual
  pub type_copy : LowType → Option LowType
  type_copy (no_type p) = some (no_type p)
  type_copy (void_type p) = some (void_type p)
  type_copy (boolean_type p) = some (boolean_type p)
  type_copy (placeholder_type p) = some (placeholder_type p)
  type_copy (integer_type p w) = some (integer_type p w)
  type_copy (float_type p w) = some (float_type p w)
  type_copy (named_type p n) = some (named_type p n)
  type_copy (func_type p r ts) = do s ← type_copy r; us ← types_copy ts; some (func_type p s us)
  type_copy (struct_type p n ms) = do ns ← members_copy ms; some (struct_type p n ns)
  type_copy (array_type p t n) = do u ← type_copy t; some (array_type p u n)
  type_copy (slice_type p t) = do u ← type_copy t; some (slice_type p u)
  type_copy (interface_type p ms) = do ns ← interface_copy ms; some (interface_type p ns)

  pub types_copy : Types → Option Types
  types_copy no_types = some no_types
  types_copy (type_and t ts) = do u ← type_copy t; us ← types_copy ts; some (type_and u us)

  pub members_copy : StructMembers → Option StructMembers
  members_copy no_members = some no_members
  members_copy (member_and t n ms) = do
    u ← type_copy t
    ns ← members_copy ms
    some (member_and u n ns)

  pub interface_copy : InterfaceMembers → Option InterfaceMembers
  interface_copy no_interface = some no_interface
  interface_copy (member_field n t ms) = do
    u ← type_copy t
    ns ← interface_copy ms
    some (unset_field n u ns)
  interface_copy (member_func n r ts ms) = do
    s ← type_copy r
    us ← types_copy ts
    ns ← interface_copy ms
    some (unset_func n s us ns)
  interface_copy (unset_field n t ms) = none
  interface_copy (unset_func n r ts ms) = none
