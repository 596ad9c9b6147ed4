-- ===== src/Generator/Pigeonhole.antt =====
-- Lists without a member twice, for src/parser_generator.c: no longer than a list that has their members.
use low.Prelude.{suc, ◌≤◌, ◌≡◌, refl, sym, ap, ◌∙◌, arith, List, [], ◌∷◌, ◌++◌, length, inl, inr}
use mathlib.Core.Path.{subst}
use low.Generator.Members.{In}
use low.Generator.Bits.{In-append}

abbrev pub Distinct : {A : Type 0} → List A → Type 0
Distinct [] = Unit {0}
Distinct (x ∷ xs) = (¬ In x xs) × Distinct xs

pub Distinct-append_one :
    {A : Type 0} (xs : List A) (x : A) → Distinct xs → ¬ In x xs → Distinct (xs ++ (x ∷ []))
Distinct-append_one [] x h n = (λ k. k, tt)
Distinct-append_one (y ∷ xs) x (m, h) n = (
  λ k. elim (In-append y xs (x ∷ []) k) [
    | inl old ↦ m old
    | inr (inl e) ↦ n (inl (sym e))
    | inr (inr none) ↦ none
  ],
  Distinct-append_one xs x h (λ k. n (inr k)),
)

-- A list without one of its members.
abbrev without : {A : Type 0} (x : A) (ys : List A) → In x ys → List A
without x [] h = []
without x (y ∷ ys) (inl e) = ys
without x (y ∷ ys) (inr h) = y ∷ without x ys h

length-without :
    {A : Type 0} (x : A) (ys : List A) (h : In x ys) → suc (length (without x ys h)) ≡ length ys
length-without x [] h = absurd h
length-without x (y ∷ ys) (inl e) = refl
length-without x (y ∷ ys) (inr h) = ap suc (length-without x ys h)

without-In :
    {A : Type 0} (x z : A) (ys : List A) (h : In x ys) → ¬ (z ≡ x) → In z ys → In z (without x ys h)
without-In x z [] h n k = absurd k
without-In x z (y ∷ ys) (inl e) n (inl q) = absurd (n (q ∙ sym e))
without-In x z (y ∷ ys) (inl e) n (inr k) = k
without-In x z (y ∷ ys) (inr h) n (inl q) = inl q
without-In x z (y ∷ ys) (inr h) n (inr k) = inr (without-In x z ys h n k)

pub Distinct-length :
    {A : Type 0} (xs ys : List A)
    → Distinct xs
    → ((x : A) → In x xs → In x ys)
    → length xs ≤ length ys
Distinct-length [] ys h each = omega arith
Distinct-length (x ∷ xs) ys (n, h) each =
    let here = each x (inl refl) in
    let rest =
      Distinct-length xs (without x ys here) h
        (λ z k. without-In x z ys here (λ e. n (subst (λ w. In w xs) e k)) (each z (inr k))) in
    omega (arith, rest, length-without x ys here)
