-- ===== src/Ast/CopyLaws.antt =====
-- `type_copy` of src/ast.c keeps a type with no interface members, and loses the kinds of those.
use low.Prelude.{ℕ, Bool, true, false, Option, none, some, ◌&&◌, ◌≡◌, ◌≢◌, refl, &&-true}
use mathlib.Core.Path.{subst}
use low.Ast.LowType.{
  LowType, func_type, struct_type, array_type, slice_type, interface_type, Types, no_types,
  type_and, StructMembers, no_members, member_and, InterfaceMembers, no_interface, member_field,
  member_func, unset_field, unset_func, num_interface_members,
}
use low.Ast.Equal.{type_equal, interface_equal}
use low.Ast.Copy.{type_copy, types_copy, members_copy, interface_copy, ◌>>=◌}
use low.Ast.Laws.{eq_refl}

-- No interface in the type has members.
unfoldable mutual
  pub memberless : LowType → Bool
  memberless (func_type p r ts) = memberless r && types_memberless ts
  memberless (struct_type p n ms) = members_memberless ms
  memberless (array_type p t n) = memberless t
  memberless (slice_type p t) = memberless t
  memberless (interface_type p no_interface) = true
  memberless (interface_type p ms) = false
  memberless _ = true

  pub types_memberless : Types → Bool
  types_memberless no_types = true
  types_memberless (type_and t ts) = memberless t && types_memberless ts

  pub members_memberless : StructMembers → Bool
  members_memberless no_members = true
  members_memberless (member_and t n ms) = memberless t && members_memberless ms

mutual
  unfolding memberless type_copy

  copy_same : (t : LowType) → memberless t ≡ true → type_copy t ≡ some t
  copy_same (func_type p r ts) h =
      let both = &&-true (memberless r) (types_memberless ts) h in
      rw (copy_same r both.0, types_copy_same ts both.1)
  copy_same (struct_type p n ms) h = rw (members_copy_same ms h)
  copy_same (array_type p t n) h = rw (copy_same t h)
  copy_same (slice_type p t) h = rw (copy_same t h)
  copy_same (interface_type p no_interface) h = refl
  copy_same (interface_type p (member_field n t ms)) h = cc
  copy_same (interface_type p (member_func n r ts ms)) h = cc
  copy_same (interface_type p (unset_field n t ms)) h = cc
  copy_same (interface_type p (unset_func n r ts ms)) h = cc
  copy_same _ h = refl

  types_copy_same : (ts : Types) → types_memberless ts ≡ true → types_copy ts ≡ some ts
  types_copy_same no_types h = refl
  types_copy_same (type_and t ts) h =
      let both = &&-true (memberless t) (types_memberless ts) h in
      rw (copy_same t both.0, types_copy_same ts both.1)

  members_copy_same :
      (ms : StructMembers) → members_memberless ms ≡ true → members_copy ms ≡ some ms
  members_copy_same no_members h = refl
  members_copy_same (member_and t n ms) h =
      let both = &&-true (memberless t) (members_memberless ms) h in
      rw (copy_same t both.0, members_copy_same ms both.1)

-- A type with no interface members is copied as it is.
pub type_copy-memberless : (t : LowType) → memberless t ≡ true → type_copy t ≡ some t
type_copy-memberless t h = copy_same t h

>>=-eq-some {ℓ κ} :
    {A : Type ℓ} {B : Type κ} (m : Option A) (f : A → Option B) {b : B}
    → (m >>= f) ≡ some b
    → (a : A) × (m ≡ some a) × (f a ≡ some b)
>>=-eq-some none f h = cc
>>=-eq-some (some a) f h = (a, refl, h)

unset_of_some :
    (ms ns : InterfaceMembers)
    → some ms ≡ some ns
    → interface_equal ms ms ≡ none
    → interface_equal ns ns ≡ none
unset_of_some ms ns e h = let same : ms ≡ ns = cc in subst (λ k. interface_equal k k ≡ none) same h

interface_copy-unset :
    (ms ns : InterfaceMembers)
    → ms ≢ no_interface
    → interface_copy ms ≡ some ns
    → interface_equal ns ns ≡ none
unfolding type_copy type_equal
interface_copy-unset no_interface ns ne h = absurd (ne refl)
interface_copy-unset (member_field n t ms) ns ne h =
    let (u, _, more) = >>=-eq-some (type_copy t) _ h in
    let (ks, _, made) = >>=-eq-some (interface_copy ms) _ more in
    unset_of_some (unset_field n u ks) ns made refl
interface_copy-unset (member_func n r ts ms) ns ne h =
    let (s, _, more) = >>=-eq-some (type_copy r) _ h in
    let (us, _, more') = >>=-eq-some (types_copy ts) _ more in
    let (ks, _, made) = >>=-eq-some (interface_copy ms) _ more' in
    unset_of_some (unset_func n s us ks) ns made refl
interface_copy-unset (unset_field n t ms) ns ne h = cc
interface_copy-unset (unset_func n r ts ms) ns ne h = cc

-- The copy of an interface with members cannot be used: comparing it, even with itself, reads a
-- kind that was never written.
pub type_copy_unset :
    (p : ℕ) (ms : InterfaceMembers) (t : LowType)
    → ms ≢ no_interface
    → type_copy (interface_type p ms) ≡ some t
    → type_equal t t ≡ none
unfolding type_copy type_equal
type_copy_unset p ms t ne h =
    let (ns, copied, made) = >>=-eq-some (interface_copy ms) _ h in
    let same : interface_type p ns ≡ t = cc in
    subst (λ u. type_equal u u ≡ none) same
      (rw (eq_refl p, eq_refl (num_interface_members ns)) (interface_copy-unset ms ns ne copied))
