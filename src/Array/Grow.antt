-- ===== src/Array/Grow.antt =====
-- `array_grow` of src/array.c.
use low.Prelude.{
  ℕ, zero, suc, ◌+◌, ◌*◌, ◌/◌, ◌%◌, ◌^◌, ◌≤◌, ◌<◌, true, List, ◌++◌, Option, none, ◌==◌, ◌⊎◌, ltb,
  if◌then◌else◌, u32_mod, length, take, replicate, ◌≡◌, refl, sym, ap, ◌∙◌, inl, inr, Bool-cases,
  arith, length-append, length-take, length-replicate, take-append_le, take-take,
}
use native.Mathlib.Nat.{pow-succ', mul_assoc, mul-le-mul, mul-div_cancel}
use low.Array.Defs.{
  ok, Array, region, room, resize_region, double_until, array_reallocate, array_grow,
}
use low.Array.Room.{IsValid, contents, ltb-false}

double_until-step :
    (fuel capacity req : ℕ)
    → ltb capacity req ≡ true
    → (capacity * 2) % u32_mod ≡ capacity * 2
    → double_until (suc fuel) capacity req ≡ double_until fuel (capacity * 2) req
unfolding double_until
double_until-step fuel capacity req e wrap = rw (e, wrap)

-- The doubling ends with a capacity that is enough, and less than twice the one asked for.
pub double_until-ok :
    (fuel capacity req : ℕ)
    → 0 < capacity
    → req ≤ capacity * 2 ^ fuel
    → 2 * req ≤ u32_mod
    → (c : ℕ) × (double_until fuel capacity req ≡ ok c)
      × (req ≤ c)
      × (0 < c)
      × ((c ≡ capacity) ⊎ (c < 2 * req))
unfolding double_until
double_until-ok zero capacity req h h' h'' =
    (capacity, rw (ltb-false capacity req (omega arith)), omega arith, h, inl refl)
double_until-ok (suc fuel) capacity req h h' h'' = elim (Bool-cases (ltb capacity req)) [
  | inl e ↦
      let wrap : (capacity * 2) % u32_mod ≡ capacity * 2 = ground arith in
      let twice : capacity * 2 * 2 ^ fuel ≡ capacity * 2 ^ suc fuel =
        mul_assoc capacity 2 (2 ^ fuel) ∙ ap (λ p. capacity * p) (sym (pow-succ' 2 fuel)) in
      let (c, found, enough, pos, least) =
        double_until-ok fuel (capacity * 2) req (omega arith) (omega arith) h'' in
      (c, double_until-step fuel capacity req e wrap ∙ found, enough, pos, inr (ground arith))
  | inr e ↦ (capacity, rw e, ground arith, h, inl refl)
]

room-exact :
    (capacity item_size : ℕ)
    → 0 < item_size
    → capacity * item_size < u32_mod
    → room capacity item_size ≡ capacity
room-exact capacity item_size h h' =
    let wrap : (capacity * item_size) % u32_mod ≡ capacity * item_size = omega arith in
    ap (λ n. n / item_size) wrap ∙ mul-div_cancel capacity h

module _ {ℓ} {A : Type ℓ} where
  -- What `array_grow` promises: room for n more items, and the same items.
  pub record Grown (a b : Array A) (n : ℕ) : Type ℓ where
    pub same_size : b.size ≡ a.size
    pub enough : a.size + n ≤ b.capacity
    pub valid : IsValid b
    pub same_contents : contents b ≡ contents a

  length-resize_region : (n : ℕ) (cells : List (Option A)) → length (resize_region n cells) ≡ n
  length-resize_region n cells = omega (
    arith,
    length-take n (cells ++ replicate n none),
    length-replicate {A = Option A} n none,
    length-append cells (replicate n none),
  )

  reallocate-Grown :
      (a : Array A) (c n : ℕ)
      → IsValid a
      → 0 < a.item_size
      → c * a.item_size < u32_mod
      → a.size + n ≤ c
      → Grown a (array_reallocate a c) n
  unfolding array_reallocate IsValid contents
  reallocate-Grown a c n h pos small enough =
      let exact = room-exact c a.item_size pos small in
      let len = length-resize_region c (region a.items) in
      let same : take a.size (resize_region c (region a.items)) ≡ take a.size (region a.items) =
        take-take a.size c (region a.items ++ replicate c none) (omega arith)
        ∙ take-append_le a.size (region a.items) (replicate c none) (omega arith) in
      record {
        same_size = refl;
        enough = enough;
        valid = rw exact (omega arith, omega arith);
        same_contents = rw exact same;
      }

  array_grow-reallocates :
      (a : Array A) (n c : ℕ)
      → (a.size + n) % u32_mod ≡ a.size + n
      → ltb a.capacity (a.size + n) ≡ true
      → double_until 32 (if a.capacity == 0 then 1 else a.capacity) (a.size + n) ≡ ok c
      → array_grow a n ≡ ok (array_reallocate a c)
  unfolding array_grow
  array_grow-reallocates a n c wrap e found = rw (wrap, e, found)

  pub array_grow-ok :
      (a : Array A) (n : ℕ)
      → IsValid a
      → 0 < a.item_size
      → 2 * (a.size + n) * a.item_size < u32_mod
      → (b : Array A) × (array_grow a n ≡ ok b) × Grown a b n
  unfolding array_grow IsValid
  array_grow-ok a n h pos small =
      let narrow : 2 * (a.size + n) * 1 ≤ 2 * (a.size + n) * a.item_size =
        mul-le-mul (omega arith) pos in
      let wrap : (a.size + n) % u32_mod ≡ a.size + n = omega arith in
      elim (Bool-cases (ltb a.capacity (a.size + n))) [
        | inl e ↦
            let start : 0 < (if a.capacity == 0 then 1 else a.capacity) = ground arith in
            let near : (if a.capacity == 0 then 1 else a.capacity) ≤ a.size + n = ground arith in
            let (c, found, enough, _, least) =
              double_until-ok 32 (if a.capacity == 0 then 1 else a.capacity) (a.size + n) start
                (omega arith) (omega arith) in
            let bytes : c * a.item_size ≤ 2 * (a.size + n) * a.item_size =
              mul-le-mul (omega arith) (omega arith) in
            (
              array_reallocate a c,
              array_grow-reallocates a n c wrap e found,
              reallocate-Grown a c n h pos (omega arith) enough,
            )
        | inr e ↦ (
          a,
          rw (wrap, e),
          record { same_size = refl; enough = ground arith; valid = h; same_contents = refl },
        )
      ]
