-- ===== src/Generator/Bits.antt =====
-- src/parser_generator.c, main: the loops over the bits of a set find its tokens.
use low.Prelude.{
  ℕ, zero, suc, ◌+◌, ◌*◌, ◌/◌, ◌%◌, ◌≤◌, ◌<◌, ◌≡◌, ◌↔◌, sym, ap, ◌∙◌, arith, Bool, true, false,
  ◌==◌, ==_iff, List, [], ◌∷◌, ◌++◌, if◌then◌else◌, Bool-cases, inl, inr, ◌⊎◌,
}
use mathlib.Core.Path.{subst}
use low.Generator.Words.{bit, bit_zero}
use low.Generator.Sets.{word, Has}
use low.Generator.Members.{In, In-append_left, In-append_right}
use low.Generator.Emit.{bits_of, tokens_from}

pub In-append : {A : Type 0} (x : A) (xs ys : List A) → In x (xs ++ ys) → In x xs ⊎ In x ys
In-append x [] ys h = inr h
In-append x (y ∷ xs) ys (inl e) = inl (inl e)
In-append x (y ∷ xs) ys (inr h) = elim (In-append x xs ys h) [ inl k ↦ inl (inr k) | inr k ↦ inr k ]

abbrev Bit : ℕ → ℕ → ℕ → ℕ → ℕ → Type 0
Bit u w v count t = (j : ℕ) × (v ≤ j) × (j < v + count) × (bit j w ≡ 1) × (t ≡ u * 32 + j)

bits_of-Bit : (u w v count t : ℕ) → In t (bits_of u w v count) → Bit u w v count t
unfolding bits_of
bits_of-Bit u w v zero t h = absurd h
bits_of-Bit u w v (suc count) t h = elim (Bool-cases (bit v w == 1)) [
  | inl e ↦ elim (rw (e, bits_of) at h) [
    | inl q ↦ (v, omega arith, omega arith, (==_iff (bit v w) 1).0 e, q)
    | inr k ↦ later (bits_of-Bit u w (suc v) count t k)
  ]
  | inr e ↦ later (bits_of-Bit u w (suc v) count t (rw (e, bits_of) at h))
]
  where
    later : Bit u w (suc v) count t → Bit u w v (suc count) t
    later (j, h, h', e, q) = (j, omega (arith, h), omega (arith, h'), e, q)

Bit-bits_of :
    (u w v count j : ℕ)
    → v ≤ j
    → j < v + count
    → bit j w ≡ 1
    → In (u * 32 + j) (bits_of u w v count)
unfolding bits_of
Bit-bits_of u w v zero j h h' e = absurd (omega (arith, h, h'))
Bit-bits_of u w v (suc count) j h h' e = elim (split h) [
  | inl q ↦ here q
  | inr k ↦ there (bit v w == 1) (Bit-bits_of u w (suc v) count j k (omega (arith, h')) e)
]
  where
    split : v ≤ j → (j ≡ v) ⊎ (suc v ≤ j)
    split h = ground (arith, h)

    here : j ≡ v → In (u * 32 + j) (bits_of u w v (suc count))
    here q =
        let e' : bit v w == 1 ≡ true = (==_iff (bit v w) 1).1 (ap (λ n. bit n w) (sym q) ∙ e) in
        rw (e', bits_of) (inl (ap (λ n. u * 32 + n) q))

    there :
        (b : Bool)
        → In (u * 32 + j) (bits_of u w (suc v) count)
        → In
            (u * 32 + j)
            (if b then (u * 32 + v) ∷ bits_of u w (suc v) count else bits_of u w (suc v) count)
    there true k = inr k
    there false k = k

abbrev TokenAt : ℕ → List ℕ → ℕ → Type 0
TokenAt u bits t = (i j : ℕ) × (j < 32) × (bit j (word i bits) ≡ 1) × (t ≡ (u + i) * 32 + j)

tokens_from-TokenAt : (u : ℕ) (bits : List ℕ) (t : ℕ) → In t (tokens_from u bits) → TokenAt u bits t
unfolding tokens_from
tokens_from-TokenAt u [] t h = absurd h
tokens_from-TokenAt u (w ∷ bits) t h =
    elim (In-append t (bits_of u w 0 32) (tokens_from (suc u) bits) h) [
      | inl k ↦ let (j, _, h', e, q) = bits_of-Bit u w 0 32 t k in (0, j, h', e, q ∙ omega arith)
      | inr k ↦
          let (i, j, h', e, q) = tokens_from-TokenAt (suc u) bits t k in
          (suc i, j, h', e, q ∙ omega arith)
    ]

TokenAt-tokens_from :
    (u : ℕ) (bits : List ℕ) (i j : ℕ)
    → j < 32
    → bit j (word i bits) ≡ 1
    → In ((u + i) * 32 + j) (tokens_from u bits)
unfolding tokens_from
TokenAt-tokens_from u [] i j h e = let none : 0 ≡ 1 = sym (bit_zero j) ∙ e in absurd (cc none)
TokenAt-tokens_from u (w ∷ bits) zero j h e =
    subst (λ t. In t (tokens_from u (w ∷ bits))) (omega arith)
      (In-append_left _ (bits_of u w 0 32) (tokens_from (suc u) bits)
        (Bit-bits_of u w 0 32 j (omega arith) h e))
TokenAt-tokens_from u (w ∷ bits) (suc i) j h e =
    subst (λ t. In t (tokens_from u (w ∷ bits))) (omega arith)
      (In-append_right _ (bits_of u w 0 32) (tokens_from (suc u) bits)
        (TokenAt-tokens_from (suc u) bits i j h e))

pub tokens_from-Has : (bits : List ℕ) (t : ℕ) → In t (tokens_from 0 bits) ↔ Has bits t
tokens_from-Has bits t = (into, out)
  where
    into : In t (tokens_from 0 bits) → Has bits t
    into h =
        let (i, j, bound, e, q) = tokens_from-TokenAt 0 bits t h in
        let low : j ≡ t % 32 = omega (arith, bound, q) in
        let high : i ≡ t / 32 = omega (arith, bound, q) in
        subst (λ n. bit n (word (t / 32) bits) ≡ 1) low
          (subst (λ n. bit j (word n bits) ≡ 1) high e)

    out : Has bits t → In t (tokens_from 0 bits)
    out h =
        subst (λ n. In n (tokens_from 0 bits)) (omega arith)
          (TokenAt-tokens_from 0 bits (t / 32) (t % 32) (omega arith) h)
