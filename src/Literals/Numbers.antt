-- ===== src/Literals/Numbers.antt =====
-- Number literals of src/grammar_rules.c.
use low.Prelude.{
  ℕ, zero, suc, ◌+◌, ◌-◌, ◌≤◌, ◌<◌, Bool, true, false, [], ◌∷◌, ◌++◌, ◌==◌, if◌then◌else◌, Bytes,
  length, replicate, ◌≡◌, refl, sym, ap, ◌∙◌, arith, inl, inr, ◌⊎◌, Bool-cases, length-append,
  length-replicate,
}
use low.Literals.Defs.{apostrophe, without_apostrophes, extract_literal}

-- Whether the bytes hold the given one.
unfoldable pub holds : ℕ → Bytes → Bool
holds b [] = false
holds b (c ∷ r) = if c == b then true else holds b r

holds-append_true : (b : ℕ) (xs ys : Bytes) → holds b ys ≡ true → holds b (xs ++ ys) ≡ true
unfolding holds
holds-append_true b [] ys h = h
holds-append_true b (x ∷ xs) ys h = elim (Bool-cases (x == b)) [
  | inl e ↦ rw e
  | inr e ↦ rw e (holds-append_true b xs ys h)
]

holds-append_nil : (b : ℕ) (xs : Bytes) → holds b (xs ++ []) ≡ holds b xs
unfolding holds
holds-append_nil b [] = refl
holds-append_nil b (x ∷ xs) = rw (holds-append_nil b xs)

without_length :
    (str : Bytes)
    → ((holds apostrophe str ≡ true) × (suc (length (without_apostrophes str)) ≤ length str))
      ⊎ ((holds apostrophe str ≡ false) × (without_apostrophes str ≡ str))
unfolding holds without_apostrophes
without_length [] = inr (refl, refl)
without_length (c ∷ r) = elim (Bool-cases (c == apostrophe)) [
  | inl e ↦ elim (without_length r) [
    | inl h ↦ inl (rw e, rw e (omega arith))
    | inr h ↦ let (none, same) = h in inl (rw e, rw (e, same) (omega arith))
  ]
  | inr e ↦ elim (without_length r) [
    | inl h ↦ let (some, shorter) = h in inl (rw (e, some), rw e (omega arith))
    | inr h ↦ let (none, same) = h in inr (rw (e, none), rw (e, same))
  ]
]

holds-replicate : (b k : ℕ) → 0 < k → holds b (replicate k b) ≡ true
unfolding holds
holds-replicate b zero h = absurd (omega arith)
holds-replicate b (suc k) h = let same : (b == b) ≡ true = ground arith in rw same

holds-append_zero : (b k : ℕ) (xs : Bytes) → k ≡ 0 → holds b (xs ++ replicate k b) ≡ holds b xs
holds-append_zero b k xs h = rw h (holds-append_nil b xs)

length-filled :
    (kept str : Bytes)
    → length (kept ++ replicate (length str - length kept) 0)
      ≡ length kept + (length str - length kept)
length-filled kept str =
    length-append kept (replicate (length str - length kept) 0)
    ∙ ap (λ k. length kept + k) (length-replicate (length str - length kept) 0)

-- The region returned for the text of a number, which has no byte 0, has a 0 at its end only if the
-- text has an apostrophe: without one, the string is not terminated.
pub extract_literal_terminated :
    (str : Bytes)
    → holds 0 str ≡ false
    → (length (extract_literal str) ≡ length str)
      × (holds 0 (extract_literal str) ≡ holds apostrophe str)
unfolding extract_literal
extract_literal_terminated str h =
    let kept = without_apostrophes str in
    let zeros = length str - length kept in
    let measure = length-filled kept str in
    elim (without_length str) [
      | inl found ↦
          let (some, shorter) = found in
          (
            omega arith,
            holds-append_true 0 kept (replicate zeros 0) (holds-replicate 0 zeros (omega arith))
                ∙ sym some,
          )
      | inr free ↦
          let (none, same) = free in
          let len : length kept ≡ length str = ap length same in
          (
            omega arith,
            holds-append_zero 0 zeros kept (omega arith) ∙ ap (λ l. holds 0 l) same ∙ h ∙ sym none,
          )
    ]
