-- ===== src/Ast/Equal.antt =====
-- src/ast.c: `type_equal`. `none` stands for a read of a member's `kind` that was never written.
use low.Prelude.{Bool, true, false, Option, none, some, ◌==◌, str_equal}
use low.Ast.LowType.{
  LowType, no_type, void_type, boolean_type, placeholder_type, integer_type, float_type, func_type,
  named_type, struct_type, array_type, slice_type, interface_type, Types, no_types, type_and,
  StructMembers, no_members, member_and, InterfaceMembers, no_interface, member_field, member_func,
  unset_field, unset_func, num_args, num_members, num_interface_members,
}

-- `if (!x) return 0;` before the rest.
abbrev pub and_then : Option Bool → Option Bool → Option Bool
and_then none y = none
and_then (some false) y = some false
and_then (some true) y = y

-- `x || y`
abbrev pub or_else : Option Bool → Option Bool → Option Bool
or_else none y = none
or_else (some true) y = some true
or_else (some false) y = y

-- Each member after its kind, its name and its type; the counts are compared before.
unfoldable mutual
  pub type_equal : LowType → LowType → Option Bool
  type_equal (no_type p) (no_type q) = some (p == q)
  type_equal (void_type p) (void_type q) = some (p == q)
  type_equal (boolean_type p) (boolean_type q) = some (p == q)
  type_equal (placeholder_type p) (placeholder_type q) = some (p == q)
  type_equal (integer_type p w) (integer_type q v) = and_then (some (p == q)) (some (w == v))
  type_equal (float_type p w) (float_type q v) = and_then (some (p == q)) (some (w == v))
  type_equal (named_type p m) (named_type q n) = and_then (some (p == q)) (some (str_equal m n))
  type_equal (func_type p r ts) (func_type q s us) =
      and_then (some (p == q)) (
        and_then (some (num_args ts == num_args us))
          (and_then (type_equal r s) (types_equal ts us)))
  type_equal (struct_type p _ ms) (struct_type q _ ns) =
      and_then (some (p == q))
        (and_then (some (num_members ms == num_members ns)) (members_equal ms ns))
  type_equal (array_type p t m) (array_type q u n) =
      and_then (some (p == q)) (or_else (some (m == n)) (type_equal t u))
  type_equal (slice_type p t) (slice_type q u) = and_then (some (p == q)) (type_equal t u)
  type_equal (interface_type p ms) (interface_type q ns) = and_then (some (p == q)) (
      and_then (some (num_interface_members ms == num_interface_members ns))
        (interface_equal ms ns))
  type_equal _ _ = some false

  -- The loops over the arguments of functions.
  pub types_equal : Types → Types → Option Bool
  types_equal no_types no_types = some true
  types_equal (type_and t ts) (type_and u us) = and_then (type_equal t u) (types_equal ts us)
  types_equal _ _ = some false

  pub members_equal : StructMembers → StructMembers → Option Bool
  members_equal no_members no_members = some true
  members_equal (member_and t m ms) (member_and u n ns) =
      and_then (some (str_equal m n)) (and_then (type_equal t u) (members_equal ms ns))
  members_equal _ _ = some false

  pub interface_equal : InterfaceMembers → InterfaceMembers → Option Bool
  interface_equal no_interface no_interface = some true
  interface_equal (member_field m t ms) (member_field n u ns) =
      and_then (some (str_equal m n)) (and_then (type_equal t u) (interface_equal ms ns))
  interface_equal (member_func m r ts ms) (member_func n s us ns) =
      and_then (some (num_args ts == num_args us)) (
        and_then (some (str_equal m n))
          (and_then (type_equal r s) (and_then (types_equal ts us) (interface_equal ms ns))))
  interface_equal (unset_field _ _ _) ns = none
  interface_equal (unset_func _ _ _ _) ns = none
  interface_equal ms (unset_field _ _ _) = none
  interface_equal ms (unset_func _ _ _ _) = none
  interface_equal _ _ = some false
