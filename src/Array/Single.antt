-- ===== src/Array/Single.antt =====
-- The operations of src/array.c on one item and on several.
use low.Prelude.{
  ℕ, suc, ◌+◌, ◌-◌, ◌%◌, ◌<◌, true, [], ◌∷◌, some, leb, ltb, if◌then◌else◌, u32_mod, ◌≡◌, refl, inl,
  inr, Bool-cases, arith, leb→le,
}
use low.Array.Defs.{
  Result, ok, fault, hangs, ◌>>=◌, Array, array_grow, array_move_tail, array_set, array_set_many,
  array_insert, array_insert_many, array_erase, array_erase_range,
}

bind-cong {ℓ κ} :
    {A : Type ℓ} {B : Type κ} (m : Result A) (f g : A → Result B)
    → ((a : A) → f a ≡ g a)
    → (m >>= f) ≡ (m >>= g)
bind-cong (ok a) f g h = h a
bind-cong fault f g h = refl
bind-cong hangs f g h = refl

same_test : (i n : ℕ) → suc i < u32_mod → leb ((i + 1) % u32_mod) n ≡ ltb i n
same_test i n h = ground arith

module _ {ℓ} {A : Type ℓ} where
  set-many :
      (a : Array A) (index : ℕ) (x : A)
      → suc index < u32_mod
      → array_set a index x ≡ array_set_many a index (x ∷ [])
  unfolding array_set array_set_many
  set-many a index x h = rw (same_test index a.size h)

  insert-many :
      (a : Array A) (index : ℕ) (x : A)
      → suc a.size < u32_mod
      → array_insert a index (some x) ≡ array_insert_many a index 1 (some (x ∷ []))
  unfolding array_insert array_insert_many
  insert-many a index x h = elim (Bool-cases (leb index a.size)) [
    | inl e ↦
        let below = leb→le index a.size e in
        rw e (
          bind-cong (array_grow a 1) _ _ (λ g.
            bind-cong
              (if ltb index g.size then array_move_tail g index ((index + 1) % u32_mod) else ok g) _
              _ (λ b. set-many (record b { size = (b.size + 1) % u32_mod }) index x (omega arith))))
    | inr e ↦ rw e
  ]

  erase-range :
      (a : Array A) (index : ℕ) → array_erase a index ≡ array_erase_range a index (index + 1)
  unfolding array_erase array_erase_range
  erase-range a index =
      let ordered : leb index (index + 1) ≡ true = ground arith in
      let inside : leb (index + 1) a.size ≡ ltb index a.size = ground arith in
      let behind : ltb (index + 1) a.size ≡ ltb index (a.size - 1) = ground arith in
      let one : index + 1 - index ≡ 1 = omega arith in rw (ordered, inside, behind, one)

  -- Inserting and erasing one item is what it is for a range of one, on every array, failures
  -- included; for insertion the size must not be the last `unsigned`.
  pub array_single :
      (a : Array A) (index : ℕ) (x : A)
      → suc a.size < u32_mod
      → (array_insert a index (some x) ≡ array_insert_many a index 1 (some (x ∷ [])))
        × (array_erase a index ≡ array_erase_range a index (index + 1))
  array_single a index x h = (insert-many a index x h, erase-range a index)
