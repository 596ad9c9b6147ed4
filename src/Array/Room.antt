-- ===== src/Array/Room.antt =====
-- The edits of src/array.c on an array whose region has room for its capacity.
use low.Prelude.{
  ℕ, suc, ◌+◌, ◌≤◌, true, false, List, [], ◌∷◌, ◌++◌, Option, none, some, leb, ltb, length, take,
  drop, map, ◌≡◌, refl, ap, ◌∙◌, arith, length-append, length-take, length-drop, take-append_le,
  take-append_more, take-take, drop-append_length,
}
use low.Array.Defs.{ok, Array, region, put, write, read}

pub leb-true : (a b : ℕ) → a ≤ b → leb a b ≡ true
leb-true a b h = ground arith

pub ltb-false : (a b : ℕ) → b ≤ a → ltb a b ≡ false
ltb-false a b h = ground arith

module _ {ℓ} {A : Type ℓ} where
  -- The items lie in the capacity, and the region has room for the capacity.
  unfoldable pub IsValid : Array A → Type 0
  IsValid a = (a.size ≤ a.capacity) × (a.capacity ≤ length (region a.items))

  -- The items the array holds: an item that was never written is `none`.
  unfoldable pub contents : Array A → List (Option A)
  contents a = take a.size (region a.items)

  pub length-map {κ} : {B : Type κ} (f : A → B) (xs : List A) → length (map f xs) ≡ length xs
  length-map f [] = refl
  length-map f (x ∷ xs) = ap suc (length-map f xs)

  pub write-ok :
      (cells : List (Option A)) (to : ℕ) (new : List (Option A))
      → to + length new ≤ length cells
      → write cells to new ≡ ok (take to cells ++ (new ++ drop (to + length new) cells))
  unfolding write
  write-ok cells to new h = rw (leb-true (to + length new) (length cells) h)

  pub read-ok :
      (cells : List (Option A)) (from n : ℕ)
      → from + n ≤ length cells
      → read cells from n ≡ ok (take n (drop from cells))
  unfolding read
  read-ok cells from n h = rw (leb-true (from + n) (length cells) h)

  -- The region after `memcpy` of the items to index `to`.
  abbrev pub over : List (Option A) → ℕ → List (Option A) → List (Option A)
  over cells to new = take to cells ++ (new ++ drop (to + length new) cells)

  pub length-over :
      (cells : List (Option A)) (to : ℕ) (new : List (Option A))
      → to + length new ≤ length cells
      → length (over cells to new) ≡ length cells
  length-over cells to new h = omega (
    arith,
    length-append (take to cells) (new ++ drop (to + length new) cells),
    length-append new (drop (to + length new) cells),
    length-take to cells,
    length-drop (to + length new) cells,
  )

  -- The first `to` items stay.
  pub take-over :
      (cells : List (Option A)) (to : ℕ) (new : List (Option A)) (n : ℕ)
      → to ≤ length cells
      → n ≤ to
      → take n (over cells to new) ≡ take n cells
  take-over cells to new n h h' =
      take-append_le n (take to cells) (new ++ drop (to + length new) cells)
        (omega (arith, length-take to cells))
      ∙ take-take n to cells h'

  -- What is written is found up to its end.
  pub take-over_end :
      (cells : List (Option A)) (to : ℕ) (new : List (Option A)) (n k : ℕ)
      → to ≤ length cells
      → n ≡ to + (length new + k)
      → take n (over cells to new) ≡ take to cells ++ (new ++ take k (drop (to + length new) cells))
  take-over_end cells to new n k h e =
      take-append_more n (length new + k) (take to cells) (new ++ drop (to + length new) cells)
        (omega (arith, length-take to cells))
      ∙ ap (λ l. take to cells ++ l)
          (take-append_more (length new + k) k new (drop (to + length new) cells) refl
            ∙ ap (λ l. new ++ l) refl)

  pub drop-over :
      (cells : List (Option A)) (to : ℕ) (new : List (Option A))
      → to ≤ length cells
      → drop to (over cells to new) ≡ new ++ drop (to + length new) cells
  drop-over cells to new h =
      let e : to ≡ length (take to cells) = omega (arith, length-take to cells) in
      ap (λ i. drop i (over cells to new)) e
      ∙ drop-append_length (take to cells) (new ++ drop (to + length new) cells)

  region-elim :
      (o : Option (List (Option A))) (cells : List (Option A))
      → length cells ≡ length (region o)
      → region (elim o [ none ↦ none | some _ ↦ some cells ]) ≡ cells
  region-elim none [] h = refl
  region-elim none (x ∷ cells) h = absurd (omega arith)
  region-elim (some old) cells h = refl

  pub region-put :
      (a : Array A) (cells : List (Option A))
      → length cells ≡ length (region a.items)
      → region (put a cells).items ≡ cells
  region-put a cells h = region-elim a.items cells h
