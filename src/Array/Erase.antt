-- ===== src/Array/Erase.antt =====
-- `array_erase_range` of src/array.c.
use low.Prelude.{
  ℕ, ◌-◌, ◌≤◌, ◌++◌, ltb, if◌then◌else◌, length, take, drop, ◌≡◌, refl, ap, ◌∙◌, inl, inr,
  Bool-cases, arith, take-take, drop-take,
}
use mathlib.Core.List.{append-nil}
use low.Array.Defs.{ok, Array, region, put, array_move_tail, array_erase_range}
use low.Array.Room.{IsValid, contents, leb-true, over, length-over, take-over_end, region-put}
use low.Array.Insert.{tail, length-tail, array_move_tail-ok}

module _ {ℓ} {A : Type ℓ} where
  tail-contents : (a : Array A) (last : ℕ) → drop last (contents a) ≡ tail a last
  unfolding contents
  tail-contents a last = drop-take last a.size (region a.items)

  erase-moves :
      (a : Array A) (first last : ℕ)
      → first ≤ last
      → last ≤ a.size
      → a.size ≤ length (region a.items)
      → (b : Array A) × ((if ltb last a.size then array_move_tail a last first else ok a) ≡ ok b)
        × (b.size ≡ a.size)
        × (b.capacity ≡ a.capacity)
        × (length (region b.items) ≡ length (region a.items))
        × (take (a.size - (last - first)) (region b.items)
            ≡ take first (contents a) ++ drop last (contents a))
  unfolding contents
  erase-moves a first last h h' room =
      let front : take first (take a.size (region a.items)) ≡ take first (region a.items) =
        take-take first a.size (region a.items) (omega arith) in
      let back = drop-take last a.size (region a.items) in
      elim (Bool-cases (ltb last a.size)) [
        | inl e ↦
            let cells = over (region a.items) first (tail a last) in
            let len : length (tail a last) ≡ a.size - last = length-tail a last h' room in
            let same : length cells ≡ length (region a.items) =
              length-over (region a.items) first (tail a last) (omega arith) in
            let reg : region (put a cells).items ≡ cells = region-put a cells same in
            (
              put a cells,
              rw (e, array_move_tail-ok a last first h' room (omega arith)),
              refl,
              refl,
              ap length reg ∙ same,
              ap (λ l. take (a.size - (last - first)) l) reg
                  ∙ take-over_end (region a.items) first (tail a last) (a.size - (last - first)) 0
                      (omega arith) (omega arith)
                  ∙ rw (front, back, append-nil (tail a last)),
            )
        | inr e ↦
            let all : last ≡ a.size = ground arith in
            let size : a.size - (last - first) ≡ first = omega arith in
            let nothing : a.size - last ≡ 0 = omega arith in
            (
              a,
              rw e,
              refl,
              refl,
              refl,
              rw (front, back, size, nothing, append-nil (take first (region a.items))),
            )
      ]

  -- An erased range of a valid array is gone from its items, and the array stays valid.
  pub array_erase_range-contents :
      (a : Array A) (first last : ℕ)
      → IsValid a
      → first ≤ last
      → last ≤ a.size
      → (b : Array A) × (array_erase_range a first last ≡ ok b)
        × IsValid b
        × (contents b ≡ take first (contents a) ++ drop last (contents a))
  unfolding array_erase_range IsValid contents
  array_erase_range-contents a first last valid h h' =
      let (b, moves, same_size, same_capacity, same_length, rest) =
        erase-moves a first last h h' (omega arith) in
      (
        record b { size = b.size - (last - first) },
        rw (leb-true first last h, leb-true last a.size h', moves),
        (omega arith, omega arith),
        ap (λ n. take (n - (last - first)) (region b.items)) same_size ∙ rest,
      )
