-- ===== src/Ast/Decides.antt =====
-- `type_equal` of src/ast.c decides equality of types, up to the names of structs, where no arrays
-- occur.
use low.Prelude.{
  ℕ, Bool, true, false, Option, some, ◌==◌, ◌&&◌, str_equal, str_equal_iff, ◌≡◌, refl, arith,
  &&-true,
}
use low.Ast.LowType.{
  LowType, no_type, void_type, boolean_type, placeholder_type, integer_type, float_type, func_type,
  named_type, struct_type, array_type, slice_type, interface_type, Types, no_types, type_and,
  StructMembers, no_members, member_and, InterfaceMembers, no_interface, member_field, member_func,
  num_args, num_members, num_interface_members,
}
use low.Ast.Equal.{and_then, type_equal, types_equal, members_equal, interface_equal}
use low.Ast.Views.{
  array_free, types_array_free, members_array_free, interface_array_free, nameless, types_nameless,
  members_nameless, interface_nameless,
}

-- Both tests of a conjunction held.
and_then-true :
    (b : Bool) (o : Option Bool) → and_then (some b) o ≡ some true → (b ≡ true) × (o ≡ some true)
and_then-true b o h = ground arith

and_then-both : (o p : Option Bool) → and_then o p ≡ some true → (o ≡ some true) × (p ≡ some true)
and_then-both o p h = ground arith

-- A failed test of two constructors.
no_match {ℓ} : {A : Type ℓ} → ◌≡◌ {A = Option Bool} (some false) (some true) → A
no_match h = absurd (unset h)
  where
    unset : ◌≡◌ {A = Option Bool} (some false) (some true) → ⊥
    unset e = cc

eq_lem : (m n : ℕ) → m == n ≡ true → m ≡ n
eq_lem m n h = ground arith

mutual
  unfolding type_equal array_free nameless

  pub equal_sound :
      (t u : LowType) → array_free t ≡ true → type_equal t u ≡ some true → nameless t ≡ nameless u
  equal_sound (no_type p) (no_type q) a h = ground arith
  equal_sound (void_type p) (void_type q) a h = ground arith
  equal_sound (boolean_type p) (boolean_type q) a h = ground arith
  equal_sound (placeholder_type p) (placeholder_type q) a h = ground arith
  equal_sound (integer_type p w) (integer_type q v) a h = ground arith
  equal_sound (float_type p w) (float_type q v) a h = ground arith
  equal_sound (named_type p m) (named_type q n) a h = ground (arith, str_equal_iff m n)
  equal_sound (func_type p r ts) (func_type q s us) a h =
      let free = &&-true (array_free r) (types_array_free ts) a in
      let (same, rest) = and_then-true (p == q) _ h in
      let (count, both) = and_then-true (num_args ts == num_args us) _ rest in
      let parts = and_then-both (type_equal r s) (types_equal ts us) both in
      cc (eq_lem p q same, equal_sound r s free.0 parts.0, types_sound ts us free.1 parts.1)
  equal_sound (struct_type p _ ms) (struct_type q _ ns) a h =
      let (same, rest) = and_then-true (p == q) _ h in
      let (count, both) = and_then-true (num_members ms == num_members ns) _ rest in
      cc (eq_lem p q same, members_sound ms ns a both)
  equal_sound (array_type p t m) (array_type q u n) a h = cc
  equal_sound (slice_type p t) (slice_type q u) a h =
      let (same, rest) = and_then-true (p == q) _ h in cc (eq_lem p q same, equal_sound t u a rest)
  equal_sound (interface_type p ms) (interface_type q ns) a h =
      let (same, rest) = and_then-true (p == q) _ h in
      let (count, both) =
        and_then-true (num_interface_members ms == num_interface_members ns) _ rest in
      cc (eq_lem p q same, interface_sound ms ns a both)
  equal_sound _ _ a h = no_match h

  types_sound :
      (ts us : Types)
      → types_array_free ts ≡ true
      → types_equal ts us ≡ some true
      → types_nameless ts ≡ types_nameless us
  types_sound no_types no_types a h = refl
  types_sound (type_and t ts) (type_and u us) a h =
      let free = &&-true (array_free t) (types_array_free ts) a in
      let parts = and_then-both (type_equal t u) (types_equal ts us) h in
      cc (equal_sound t u free.0 parts.0, types_sound ts us free.1 parts.1)
  types_sound _ _ a h = no_match h

  members_sound :
      (ms ns : StructMembers)
      → members_array_free ms ≡ true
      → members_equal ms ns ≡ some true
      → members_nameless ms ≡ members_nameless ns
  members_sound no_members no_members a h = refl
  members_sound (member_and t m ms) (member_and u n ns) a h =
      let free = &&-true (array_free t) (members_array_free ms) a in
      let (name, rest) = and_then-true (str_equal m n) _ h in
      let parts = and_then-both (type_equal t u) (members_equal ms ns) rest in
      cc (
        (str_equal_iff m n).0 name,
        equal_sound t u free.0 parts.0,
        members_sound ms ns free.1 parts.1,
      )
  members_sound _ _ a h = no_match h

  interface_sound :
      (ms ns : InterfaceMembers)
      → interface_array_free ms ≡ true
      → interface_equal ms ns ≡ some true
      → interface_nameless ms ≡ interface_nameless ns
  interface_sound (member_field m t ms) (member_field n u ns) a h =
      let free = &&-true (array_free t) (interface_array_free ms) a in
      let (name, rest) = and_then-true (str_equal m n) _ h in
      let parts = and_then-both (type_equal t u) (interface_equal ms ns) rest in
      cc (
        (str_equal_iff m n).0 name,
        equal_sound t u free.0 parts.0,
        interface_sound ms ns free.1 parts.1,
      )
  interface_sound (member_func m r ts ms) (member_func n s us ns) a h =
      let free = &&-true (array_free r) (types_array_free ts && interface_array_free ms) a in
      let free' = &&-true (types_array_free ts) (interface_array_free ms) free.1 in
      let (count, named) = and_then-true (num_args ts == num_args us) _ h in
      let (name, rest) = and_then-true (str_equal m n) _ named in
      let parts = and_then-both (type_equal r s) _ rest in
      let parts' = and_then-both (types_equal ts us) (interface_equal ms ns) parts.1 in
      cc (
        (str_equal_iff m n).0 name,
        equal_sound r s free.0 parts.0,
        types_sound ts us free'.0 parts'.0,
        interface_sound ms ns free'.1 parts'.1,
      )
  interface_sound no_interface no_interface a h = refl
  interface_sound _ _ a h = absurd (ground arith)
