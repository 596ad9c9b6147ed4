-- ===== src/Ast/Laws.antt =====
-- `type_equal` of src/ast.c is reflexive, where it reads no unset kind, and symmetric.
use low.Prelude.{
  ℕ, true, some, ◌==◌, ◌&&◌, str_equal_refl, str_equal_comm, ◌≡◌, refl, arith, &&-true,
}
use low.Ast.LowType.{
  LowType, no_type, void_type, boolean_type, placeholder_type, integer_type, float_type, func_type,
  named_type, struct_type, array_type, slice_type, interface_type, Types, no_types, type_and,
  StructMembers, no_members, member_and, InterfaceMembers, no_interface, member_field, member_func,
  unset_field, unset_func, num_args, num_members, num_interface_members,
}
use low.Ast.Equal.{type_equal, types_equal, members_equal, interface_equal}
use low.Ast.Views.{all_set, types_set, members_set, interface_set}

pub eq_refl : (n : ℕ) → n == n ≡ true
eq_refl n = ground arith

mutual
  unfolding type_equal all_set

  pub type_equal_self : (t : LowType) → all_set t ≡ true → type_equal t t ≡ some true
  type_equal_self (no_type p) h = ground arith
  type_equal_self (void_type p) h = ground arith
  type_equal_self (boolean_type p) h = ground arith
  type_equal_self (placeholder_type p) h = ground arith
  type_equal_self (integer_type p w) h = ground arith
  type_equal_self (float_type p w) h = ground arith
  type_equal_self (named_type p n) h = ground (arith, str_equal_refl n)
  type_equal_self (func_type p r ts) h =
      let both = &&-true (all_set r) (types_set ts) h in
      rw (eq_refl p, eq_refl (num_args ts), type_equal_self r both.0) (types_equal_self ts both.1)
  type_equal_self (struct_type p n ms) h =
      rw (eq_refl p, eq_refl (num_members ms)) (members_equal_self ms h)
  type_equal_self (array_type p t n) h = rw (eq_refl p, eq_refl n)
  type_equal_self (slice_type p t) h = rw (eq_refl p) (type_equal_self t h)
  type_equal_self (interface_type p ms) h =
      rw (eq_refl p, eq_refl (num_interface_members ms)) (interface_equal_self ms h)

  types_equal_self : (ts : Types) → types_set ts ≡ true → types_equal ts ts ≡ some true
  types_equal_self no_types h = refl
  types_equal_self (type_and t ts) h =
      let both = &&-true (all_set t) (types_set ts) h in
      rw (type_equal_self t both.0) (types_equal_self ts both.1)

  members_equal_self :
      (ms : StructMembers) → members_set ms ≡ true → members_equal ms ms ≡ some true
  members_equal_self no_members h = refl
  members_equal_self (member_and t n ms) h =
      let both = &&-true (all_set t) (members_set ms) h in
      rw (str_equal_refl n, type_equal_self t both.0) (members_equal_self ms both.1)

  interface_equal_self :
      (ms : InterfaceMembers) → interface_set ms ≡ true → interface_equal ms ms ≡ some true
  interface_equal_self no_interface h = refl
  interface_equal_self (member_field n t ms) h =
      let both = &&-true (all_set t) (interface_set ms) h in
      rw (str_equal_refl n, type_equal_self t both.0) (interface_equal_self ms both.1)
  interface_equal_self (member_func n r ts ms) h =
      let (first, rest) = &&-true (all_set r) (types_set ts && interface_set ms) h in
      let both = &&-true (types_set ts) (interface_set ms) rest in
      rw
        (
          eq_refl (num_args ts),
          str_equal_refl n,
          type_equal_self r first,
          types_equal_self ts both.0,
        )
        (interface_equal_self ms both.1)
  interface_equal_self (unset_field n t ms) h = cc
  interface_equal_self (unset_func n r ts ms) h = cc

eq_comm : (m n : ℕ) → m == n ≡ n == m
eq_comm m n = ground arith

mutual
  unfolding type_equal

  pub type_equal_swap : (t u : LowType) → type_equal t u ≡ type_equal u t
  type_equal_swap (no_type p) (no_type q) = ground arith
  type_equal_swap (void_type p) (void_type q) = ground arith
  type_equal_swap (boolean_type p) (boolean_type q) = ground arith
  type_equal_swap (placeholder_type p) (placeholder_type q) = ground arith
  type_equal_swap (integer_type p w) (integer_type q v) = ground arith
  type_equal_swap (float_type p w) (float_type q v) = ground arith
  type_equal_swap (named_type p m) (named_type q n) = ground (arith, str_equal_comm m n)
  type_equal_swap (func_type p r ts) (func_type q s us) = rw (
    eq_comm p q,
    eq_comm (num_args ts) (num_args us),
    type_equal_swap r s,
    types_equal_swap ts us,
  )
  type_equal_swap (struct_type p m ms) (struct_type q n ns) =
      rw (eq_comm p q, eq_comm (num_members ms) (num_members ns), members_equal_swap ms ns)
  type_equal_swap (array_type p t m) (array_type q u n) =
      rw (eq_comm p q, eq_comm m n, type_equal_swap t u)
  type_equal_swap (slice_type p t) (slice_type q u) = rw (eq_comm p q, type_equal_swap t u)
  type_equal_swap (interface_type p ms) (interface_type q ns) = rw (
    eq_comm p q,
    eq_comm (num_interface_members ms) (num_interface_members ns),
    interface_equal_swap ms ns,
  )
  type_equal_swap _ _ = refl

  types_equal_swap : (ts us : Types) → types_equal ts us ≡ types_equal us ts
  types_equal_swap no_types no_types = refl
  types_equal_swap (type_and t ts) (type_and u us) =
      rw (type_equal_swap t u, types_equal_swap ts us)
  types_equal_swap _ _ = refl

  members_equal_swap : (ms ns : StructMembers) → members_equal ms ns ≡ members_equal ns ms
  members_equal_swap no_members no_members = refl
  members_equal_swap (member_and t m ms) (member_and u n ns) =
      rw (str_equal_comm m n, type_equal_swap t u, members_equal_swap ms ns)
  members_equal_swap _ _ = refl

  interface_equal_swap : (ms ns : InterfaceMembers) → interface_equal ms ns ≡ interface_equal ns ms
  interface_equal_swap (member_field m t ms) (member_field n u ns) =
      rw (str_equal_comm m n, type_equal_swap t u, interface_equal_swap ms ns)
  interface_equal_swap (member_func m r ts ms) (member_func n s us ns) = rw (
    eq_comm (num_args ts) (num_args us),
    str_equal_comm m n,
    type_equal_swap r s,
    types_equal_swap ts us,
    interface_equal_swap ms ns,
  )
  interface_equal_swap (unset_field a t ns) no_interface = refl
  interface_equal_swap (unset_field a t ns) (member_field b u ms) = refl
  interface_equal_swap (unset_field a t ns) (member_func b u us ms) = refl
  interface_equal_swap (unset_field a t ns) (unset_field b u ms) = refl
  interface_equal_swap (unset_field a t ns) (unset_func b u us ms) = refl
  interface_equal_swap (unset_func a t ts ns) no_interface = refl
  interface_equal_swap (unset_func a t ts ns) (member_field b u ms) = refl
  interface_equal_swap (unset_func a t ts ns) (member_func b u us ms) = refl
  interface_equal_swap (unset_func a t ts ns) (unset_field b u ms) = refl
  interface_equal_swap (unset_func a t ts ns) (unset_func b u us ms) = refl
  interface_equal_swap no_interface no_interface = refl
  interface_equal_swap _ _ = refl
