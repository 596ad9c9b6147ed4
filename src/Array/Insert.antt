-- ===== src/Array/Insert.antt =====
-- `array_insert_many` of src/array.c.
use low.Prelude.{
  ℕ, ◌+◌, ◌-◌, ◌*◌, ◌%◌, ◌≤◌, ◌<◌, List, ◌++◌, Option, some, ltb, if◌then◌else◌, u32_mod, length,
  take, drop, map, ◌≡◌, refl, sym, ap, ◌∙◌, inl, inr, Bool-cases, arith, length-take, length-drop,
  take-take, drop-take, take-append_le,
}
use native.Mathlib.Nat.{mul-le-mul}
use low.Array.Defs.{
  ok, Array, region, put, array_move_tail, array_set_many, array_grow, array_insert_many,
}
use low.Array.Grow.{Grown, array_grow-ok}
use low.Array.Room.{
  IsValid, contents, leb-true, over, write-ok, read-ok, length-over, take-over, take-over_end,
  drop-over, region-put, length-map,
}

module _ {ℓ} {A : Type ℓ} where
  -- The items from index `from` on.
  abbrev pub tail : Array A → ℕ → List (Option A)
  tail a from = take (a.size - from) (drop from (region a.items))

  pub length-tail :
      (a : Array A) (from : ℕ)
      → from ≤ a.size
      → a.size ≤ length (region a.items)
      → length (tail a from) ≡ a.size - from
  length-tail a from h h' = omega (
    arith,
    length-take (a.size - from) (drop from (region a.items)),
    length-drop from (region a.items),
  )

  pub array_move_tail-ok :
      (a : Array A) (from to : ℕ)
      → from ≤ a.size
      → a.size ≤ length (region a.items)
      → to + (a.size - from) ≤ length (region a.items)
      → array_move_tail a from to ≡ ok (put a (over (region a.items) to (tail a from)))
  unfolding array_move_tail
  array_move_tail-ok a from to h h' h'' = rw (
    read-ok (region a.items) from (a.size - from) (omega arith),
    write-ok (region a.items) to (tail a from) (omega (arith, length-tail a from h h')),
  )

  pub array_set_many-ok :
      (a : Array A) (index : ℕ) (new : List A)
      → index + length new ≤ a.size
      → a.size < u32_mod
      → a.size ≤ length (region a.items)
      → array_set_many a index new ≡ ok (put a (over (region a.items) index (map some new)))
  unfolding array_set_many
  array_set_many-ok a index new h h' h'' = rw (
    leb-true ((index + length new) % u32_mod) a.size (omega arith),
    write-ok (region a.items) index (map some new) (omega (arith, length-map some new)),
  )

  -- What is known of the array in which n places are made free at `index`.
  record Opened (a b : Array A) (index n : ℕ) : Type ℓ where
    same_size : b.size ≡ a.size
    same_capacity : b.capacity ≡ a.capacity
    same_length : length (region b.items) ≡ length (region a.items)
    front : take index (region b.items) ≡ take index (region a.items)
    back : take (a.size - index) (drop (index + n) (region b.items)) ≡ tail a index

  module _ (a : Array A) (index n : ℕ) (h : index ≤ a.size)
      (room : a.size + n ≤ length (region a.items)) (small : a.size + n < u32_mod) where
    put-Opened : Opened a (put a (over (region a.items) (index + n) (tail a index))) index n
    put-Opened =
        let len : length (tail a index) ≡ a.size - index = length-tail a index h (omega arith) in
        let same : length (over (region a.items) (index + n) (tail a index))
            ≡ length (region a.items) =
          length-over (region a.items) (index + n) (tail a index) (omega arith) in
        let reg = region-put a (over (region a.items) (index + n) (tail a index)) same in
        record {
          same_size = refl;
          same_capacity = refl;
          same_length = ap length reg ∙ same;
          front =
              ap (λ l. take index l) reg
              ∙ take-over (region a.items) (index + n) (tail a index) index (omega arith)
                  (omega arith);
          back =
              ap (λ l. take (a.size - index) (drop (index + n) l)) reg
              ∙ ap (λ l. take (a.size - index) l)
                  (drop-over (region a.items) (index + n) (tail a index) (omega arith))
              ∙ take-append_le (a.size - index) (tail a index)
                  (drop (index + n + length (tail a index)) (region a.items)) (omega arith)
              ∙ take-take (a.size - index) (a.size - index) (drop index (region a.items))
                  (omega arith);
        }

    move_Opened :
        (b : Array A) × ((if ltb index a.size
            then array_move_tail a index ((index + n) % u32_mod)
            else ok a)
          ≡ ok b)
        × Opened a b index n
    move_Opened = elim (Bool-cases (ltb index a.size)) [
      | inl e ↦
          let wrap : (index + n) % u32_mod ≡ index + n = omega arith in
          (
            put a (over (region a.items) (index + n) (tail a index)),
            rw (e, wrap, array_move_tail-ok a index (index + n) h (omega arith) (omega arith)),
            put-Opened,
          )
      | inr e ↦
          let none_behind : a.size - index ≡ 0 = ground arith in
          (
            a,
            rw e,
            record {
              same_size = refl;
              same_capacity = refl;
              same_length = refl;
              front = refl;
              back = rw none_behind;
            },
          )
    ]

  -- The array in which the new items are written at `index`.
  filled :
      (a g b : Array A) (index : ℕ) (new : List A)
      → index ≤ g.size
      → Grown a g (length new)
      → Opened g b index (length new)
      → g.size + length new < u32_mod
      → (c : Array A) × (array_set_many
            (record b { size = (b.size + length new) % u32_mod })
            index
            new
          ≡ ok c)
        × IsValid c
        × (contents c ≡ take index (contents a) ++ (map some new ++ drop index (contents a)))
  unfolding IsValid contents
  filled a g b index new h grown opened small =
      let valid = grown.valid in
      let size_b = opened.same_size in
      let capacity_b = opened.same_capacity in
      let length_b = opened.same_length in
      let room = grown.enough in
      let size_g = grown.same_size in
      let wrap : (b.size + length new) % u32_mod ≡ g.size + length new = omega arith in
      let sized = record b { size = (b.size + length new) % u32_mod } in
      let cells = over (region b.items) index (map some new) in
      let measure = length-map {B = Option A} some new in
      let fits : index + length (map some new) ≤ length (region b.items) = omega arith in
      let same : length cells ≡ length (region b.items) =
        length-over (region b.items) index (map some new) fits in
      let reg : region (put sized cells).items ≡ cells = region-put sized cells same in
      let start : take index (region b.items) ≡ take index (contents a) =
        opened.front
        ∙ sym (take-take index g.size (region g.items) h)
        ∙ ap (λ l. take index l) grown.same_contents in
      let rest : take (g.size - index) (drop (index + length (map some new)) (region b.items))
          ≡ drop index (contents a) =
        ap (λ i. take (g.size - index) (drop (index + i) (region b.items))) measure
        ∙ opened.back
        ∙ sym (drop-take index g.size (region g.items))
        ∙ ap (λ l. drop index l) grown.same_contents in
      (
        put sized cells,
        array_set_many-ok sized index new (omega arith) (omega arith) (omega arith),
        (omega arith, rw reg (omega arith)),
        ap (λ l. take sized.size l) reg
            ∙ take-over_end (region b.items) index (map some new) sized.size (g.size - index)
                (omega arith) (omega arith)
            ∙ rw (start, rest),
      )

  insert_many-steps :
      (a g b c : Array A) (index : ℕ) (new : List A)
      → index ≤ a.size
      → array_grow a (length new) ≡ ok g
      → (if ltb index g.size
          then array_move_tail g index ((index + length new) % u32_mod)
          else ok g)
        ≡ ok b
      → array_set_many (record b { size = (b.size + length new) % u32_mod }) index new ≡ ok c
      → array_insert_many a index (length new) (some new) ≡ ok c
  unfolding array_insert_many
  insert_many-steps a g b c index new h grown moved set =
      rw (leb-true index a.size h, grown, moved, set)

  -- Items inserted into a valid array stand at `index`, between those before and those behind, and
  -- the array stays valid, as long as twice the bytes needed are fewer than 2 ^ 32.
  pub array_insert_many-contents :
      (a : Array A) (index : ℕ) (new : List A)
      → IsValid a
      → 0 < a.item_size
      → index ≤ a.size
      → 2 * (a.size + length new) * a.item_size < u32_mod
      → (b : Array A) × (array_insert_many a index (length new) (some new) ≡ ok b)
        × IsValid b
        × (contents b ≡ take index (contents a) ++ (map some new ++ drop index (contents a)))
  unfolding IsValid
  array_insert_many-contents a index new valid pos h small =
      let (g, grows, grown) = array_grow-ok a (length new) valid pos small in
      let same = grown.same_size in
      let enough = grown.enough in
      let valid_g = grown.valid in
      let narrow : 2 * (a.size + length new) * 1 ≤ 2 * (a.size + length new) * a.item_size =
        mul-le-mul (omega arith) pos in
      let (b, moves, opened) =
        move_Opened g index (length new) (omega arith) (omega arith) (omega arith) in
      let (c, sets, valid_c, same_c) =
        filled a g b index new (omega arith) grown opened (omega arith) in
      (c, insert_many-steps a g b c index new h grows moves sets, valid_c, same_c)
