-- ===== src/Ast/Complete.antt =====
-- `type_equal` of src/ast.c does not look at the names of structs; the decision in both directions.
use low.Prelude.{ℕ, suc, true, false, some, ◌==◌, ◌↔◌, ◌≡◌, refl, sym, ap, ◌∙◌, arith, ◌≢◌}
use low.Ast.LowType.{
  LowType, no_type, void_type, boolean_type, placeholder_type, integer_type, float_type, func_type,
  named_type, struct_type, array_type, slice_type, interface_type, Types, no_types, type_and,
  StructMembers, no_members, member_and, InterfaceMembers, no_interface, member_field, member_func,
  unset_field, unset_func, num_args, num_members, num_interface_members,
}
use low.Ast.Equal.{type_equal, types_equal, members_equal, interface_equal}
use low.Ast.Views.{
  all_set, types_set, members_set, interface_set, array_free, nameless, types_nameless,
  members_nameless, interface_nameless,
}
use low.Ast.Laws.{type_equal_self, type_equal_swap, eq_refl}
use low.Ast.Decides.{equal_sound}

count_types_nameless : (ts : Types) → num_args (types_nameless ts) ≡ num_args ts
unfolding nameless
count_types_nameless no_types = refl
count_types_nameless (type_and t ts) = ap suc (count_types_nameless ts)

count_members_nameless : (ms : StructMembers) → num_members (members_nameless ms) ≡ num_members ms
unfolding nameless
count_members_nameless no_members = refl
count_members_nameless (member_and t n ms) = ap suc (count_members_nameless ms)

count_interface_nameless :
    (ms : InterfaceMembers)
    → num_interface_members (interface_nameless ms) ≡ num_interface_members ms
unfolding nameless
count_interface_nameless no_interface = refl
count_interface_nameless (member_field n t ms) = ap suc (count_interface_nameless ms)
count_interface_nameless (member_func n r ts ms) = ap suc (count_interface_nameless ms)
count_interface_nameless (unset_field n t ms) = ap suc (count_interface_nameless ms)
count_interface_nameless (unset_func n r ts ms) = ap suc (count_interface_nameless ms)

mutual
  unfolding nameless all_set

  set_nameless : (t : LowType) → all_set (nameless t) ≡ all_set t
  set_nameless (func_type p r ts) = rw (set_nameless r, types_set_nameless ts)
  set_nameless (struct_type p n ms) = members_set_nameless ms
  set_nameless (array_type p t n) = set_nameless t
  set_nameless (slice_type p t) = set_nameless t
  set_nameless (interface_type p ms) = interface_set_nameless ms
  set_nameless _ = refl

  types_set_nameless : (ts : Types) → types_set (types_nameless ts) ≡ types_set ts
  types_set_nameless no_types = refl
  types_set_nameless (type_and t ts) = rw (set_nameless t, types_set_nameless ts)

  members_set_nameless : (ms : StructMembers) → members_set (members_nameless ms) ≡ members_set ms
  members_set_nameless no_members = refl
  members_set_nameless (member_and t n ms) = rw (set_nameless t, members_set_nameless ms)

  interface_set_nameless :
      (ms : InterfaceMembers) → interface_set (interface_nameless ms) ≡ interface_set ms
  interface_set_nameless (member_field n t ms) = rw (set_nameless t, interface_set_nameless ms)
  interface_set_nameless (member_func n r ts ms) =
      rw (set_nameless r, types_set_nameless ts, interface_set_nameless ms)
  interface_set_nameless no_interface = refl
  interface_set_nameless _ = refl

mutual
  unfolding nameless type_equal

  equal_nameless : (t u : LowType) → type_equal t (nameless u) ≡ type_equal t u
  equal_nameless (func_type p r ts) (func_type q s us) =
      rw (count_types_nameless us, equal_nameless r s, types_nameless_lem ts us)
  equal_nameless (struct_type p m ms) (struct_type q n ns) =
      rw (count_members_nameless ns, members_nameless_lem ms ns)
  equal_nameless (array_type p t m) (array_type q u n) = rw (equal_nameless t u)
  equal_nameless (slice_type p t) (slice_type q u) = rw (equal_nameless t u)
  equal_nameless (interface_type p ms) (interface_type q ns) =
      rw (count_interface_nameless ns, interface_nameless_lem ms ns)
  equal_nameless (no_type p) (no_type q) = refl
  equal_nameless (void_type p) (void_type q) = refl
  equal_nameless (boolean_type p) (boolean_type q) = refl
  equal_nameless (placeholder_type p) (placeholder_type q) = refl
  equal_nameless (integer_type p w) (integer_type q v) = refl
  equal_nameless (float_type p w) (float_type q v) = refl
  equal_nameless (named_type p m) (named_type q n) = refl
  equal_nameless _ _ = refl

  types_nameless_lem : (ts us : Types) → types_equal ts (types_nameless us) ≡ types_equal ts us
  types_nameless_lem (type_and t ts) (type_and u us) =
      rw (equal_nameless t u, types_nameless_lem ts us)
  types_nameless_lem no_types no_types = refl
  types_nameless_lem _ _ = refl

  members_nameless_lem :
      (ms ns : StructMembers) → members_equal ms (members_nameless ns) ≡ members_equal ms ns
  members_nameless_lem (member_and t m ms) (member_and u n ns) =
      rw (equal_nameless t u, members_nameless_lem ms ns)
  members_nameless_lem no_members no_members = refl
  members_nameless_lem _ _ = refl

  interface_nameless_lem :
      (ms ns : InterfaceMembers)
      → interface_equal ms (interface_nameless ns) ≡ interface_equal ms ns
  interface_nameless_lem (member_field m t ms) (member_field n u ns) =
      rw (equal_nameless t u, interface_nameless_lem ms ns)
  interface_nameless_lem (member_func m r ts ms) (member_func n s us ns) = rw (
    count_types_nameless us,
    equal_nameless r s,
    types_nameless_lem ts us,
    interface_nameless_lem ms ns,
  )
  interface_nameless_lem no_interface no_interface = refl
  interface_nameless_lem (unset_field a t ms) no_interface = refl
  interface_nameless_lem (unset_field a t ms) (member_field b u ns) = refl
  interface_nameless_lem (unset_field a t ms) (member_func b u us ns) = refl
  interface_nameless_lem (unset_field a t ms) (unset_field b u ns) = refl
  interface_nameless_lem (unset_field a t ms) (unset_func b u us ns) = refl
  interface_nameless_lem (unset_func a t ts ms) no_interface = refl
  interface_nameless_lem (unset_func a t ts ms) (member_field b u ns) = refl
  interface_nameless_lem (unset_func a t ts ms) (member_func b u us ns) = refl
  interface_nameless_lem (unset_func a t ts ms) (unset_field b u ns) = refl
  interface_nameless_lem (unset_func a t ts ms) (unset_func b u us ns) = refl
  interface_nameless_lem _ _ = refl

-- For types with every member's kind set and no arrays in the first, `type_equal` says whether
-- the two are the same up to the names of structs.
pub type_equal_iff :
    (t u : LowType)
    → all_set t ≡ true
    → array_free t ≡ true
    → (type_equal t u ≡ some true) ↔ (nameless t ≡ nameless u)
type_equal_iff t u set free = (
  equal_sound t u free,
  λ same.
      sym (equal_nameless t u)
      ∙ ap (type_equal t) (sym same)
      ∙ equal_nameless t t
      ∙ type_equal_self t set,
)

-- Whatever two types it compares, the order does not matter, and a type with every member's kind set equals itself.
pub type_equal_equivalence :
    (t u : LowType)
    → all_set t ≡ true
    → (type_equal t t ≡ some true) × (type_equal t u ≡ type_equal u t)
type_equal_equivalence t u set = (type_equal_self t set, type_equal_swap t u)

-- Arrays break transitivity, since one of length and element is enough to be equal: for any two
-- element types that differ and any two lengths that differ, `[m]t` equals `[m]u`, which equals
-- `[n]u`, which is not equal to `[m]t`.
pub type_equal_not_transitive :
    (p m n : ℕ) (t u : LowType)
    → m ≢ n
    → all_set u ≡ true
    → type_equal t u ≡ some false
    → (type_equal (array_type p t m) (array_type p u m) ≡ some true)
      × (type_equal (array_type p u m) (array_type p u n) ≡ some true)
      × (type_equal (array_type p t m) (array_type p u n) ≡ some false)
unfolding type_equal
type_equal_not_transitive p m n t u differ set apart =
    let lengths : m == n ≡ false = ground arith in
    (
      rw (eq_refl p, eq_refl m),
      rw (eq_refl p, lengths) (type_equal_self u set),
      rw (eq_refl p, lengths) apart,
    )
