-- ===== src/Generator/Named.antt =====
-- src/parser_generator.c, gather_states: the symbols of the leads, and symbols that are equal.
use low.Prelude.{
  ℕ, ◌≡◌, refl, sym, ap, ◌∙◌, arith, Bool, true, false, ◌||◌, ==_iff, List, [], ◌∷◌, Option, none,
  some, Bool-cases, inl, inr, ◌⊎◌,
}
use mathlib.Core.Path.{subst}
use low.Lexer.Token.{token_id}
use low.Grammar.Symbols.{Symbol, tkn, sub}
use low.Generator.Rules.{same_eq}
use low.Generator.Sets.{token_set_init, token_set_insert}
use low.Generator.Leads.{Lead}
use low.Generator.Members.{In}
use low.Generator.States.{LeadState, equal_symbols, next_symbol, shifts}
use low.Generator.Symbols.{with_symbol, seen, new_symbols, equal_symbols_refl}
use low.Generator.Acts.{HasToken}
use low.Generator.Handled.{HasTransition}

-- Each of the symbols is that of a lead.
pub new_symbols-each :
    (xs : List (Option Symbol)) (leads : List Lead) (x : Option Symbol)
    → In x (new_symbols xs leads)
    → (l : Lead) × In l leads × (next_symbol l ≡ x)
unfolding new_symbols
new_symbols-each xs [] x h = absurd h
new_symbols-each xs (l ∷ leads) x h = elim (Bool-cases (seen xs (next_symbol l))) [
  | inl e ↦ let (m, k, q) = new_symbols-each xs leads x (rw (e, new_symbols) at h) in (m, inr k, q)
  | inr e ↦ first (new_symbols-each (next_symbol l ∷ xs) leads x) (rw (e, new_symbols) at h)
]
  where
    first :
        (In x (new_symbols (next_symbol l ∷ xs) leads)
          → (m : Lead) × In m leads × (next_symbol m ≡ x))
        → In x (next_symbol l ∷ new_symbols (next_symbol l ∷ xs) leads)
        → (m : Lead) × In m (l ∷ leads) × (next_symbol m ≡ x)
    first rest (inl q) = (l, inl refl, sym q)
    first rest (inr k) = let (m, k', q) = rest k in (m, inr k', q)

abbrev pub Found : List (Option Symbol) → Option Symbol → Type 0
Found ys s = (y : Option Symbol) × In y ys × (equal_symbols y s ≡ true)

-- The symbol of each lead was seen, or is one of them.
pub new_symbols-Found :
    (xs : List (Option Symbol)) (leads : List Lead) (l : Lead)
    → In l leads
    → (seen xs (next_symbol l) ≡ true) ⊎ Found (new_symbols xs leads) (next_symbol l)
unfolding new_symbols seen
new_symbols-Found xs [] l h = absurd h
new_symbols-Found xs (m ∷ leads) l h = elim (Bool-cases (seen xs (next_symbol m))) [
  | inl e ↦ rw (e, new_symbols) (old (new_symbols-Found xs leads l) e h)
  | inr e ↦ rw (e, new_symbols) (new (new_symbols-Found (next_symbol m ∷ xs) leads l) h)
]
  where
    old :
        (In l leads
          → (seen xs (next_symbol l) ≡ true) ⊎ Found (new_symbols xs leads) (next_symbol l))
        → seen xs (next_symbol m) ≡ true
        → In l (m ∷ leads)
        → (seen xs (next_symbol l) ≡ true) ⊎ Found (new_symbols xs leads) (next_symbol l)
    old rest e (inl q) = inl (ap (λ n. seen xs (next_symbol n)) q ∙ e)
    old rest e (inr k) = rest k

    behind :
        (b : Bool)
        → (b || seen xs (next_symbol l) ≡ true)
        → b ≡ equal_symbols (next_symbol m) (next_symbol l)
        → (seen xs (next_symbol l) ≡ true)
          ⊎ Found (next_symbol m ∷ new_symbols (next_symbol m ∷ xs) leads) (next_symbol l)
    behind true q e = inr (next_symbol m, inl refl, sym e)
    behind false q e = inl q

    new :
        (In l leads
          → (seen (next_symbol m ∷ xs) (next_symbol l) ≡ true)
            ⊎ Found (new_symbols (next_symbol m ∷ xs) leads) (next_symbol l))
        → In l (m ∷ leads)
        → (seen xs (next_symbol l) ≡ true)
          ⊎ Found (next_symbol m ∷ new_symbols (next_symbol m ∷ xs) leads) (next_symbol l)
    new rest (inl q) = inr (
      next_symbol m,
      inl refl,
      ap (λ n. equal_symbols (next_symbol m) (next_symbol n)) q
          ∙ equal_symbols_refl (next_symbol m),
    )
    new rest (inr k) = elim (rest k) [
      | inl q ↦ behind (equal_symbols (next_symbol m) (next_symbol l)) q refl
      | inr (y, there, q) ↦ inr (y, inr there, q)
    ]

equal_symbols_left :
    (x y s : Option Symbol) → equal_symbols y x ≡ true → equal_symbols y s ≡ equal_symbols x s
equal_symbols_left none none s h = refl
equal_symbols_left none (some y) s h = absurd (cc h)
equal_symbols_left (some x) none s h = absurd (cc h)
equal_symbols_left (some (tkn t)) (some (tkn u)) none h = refl
equal_symbols_left (some (tkn t)) (some (tkn u)) (some (tkn v)) h = ground (arith, h)
equal_symbols_left (some (tkn t)) (some (tkn u)) (some (sub q)) h = refl
equal_symbols_left (some (tkn t)) (some (sub r)) s h = absurd (cc h)
equal_symbols_left (some (sub r)) (some (tkn u)) s h = absurd (cc h)
equal_symbols_left (some (sub r)) (some (sub q)) s h =
    ap (λ p. equal_symbols (some (sub p)) s) (same_eq q r h)

pub with_symbol_same :
    (x y : Option Symbol) (leads : List Lead)
    → equal_symbols y x ≡ true
    → with_symbol y leads ≡ with_symbol x leads
unfolding with_symbol
with_symbol_same x y [] h = refl
with_symbol_same x y (l ∷ leads) h =
    rw (equal_symbols_left x y (next_symbol l) h, with_symbol_same x y leads h) refl

pub HasTransition-same :
    (i : ℕ) (x y : Symbol) (k : ℕ) (states : List LeadState)
    → equal_symbols (some y) (some x) ≡ true
    → HasTransition i y k states
    → HasTransition i x k states
HasTransition-same i (tkn t) (tkn u) k states e h =
    let q : token_id u ≡ token_id t = (==_iff (token_id u) (token_id t)).0 e in
    subst
      (λ n.
        HasToken i (record { tokens = token_set_insert token_set_init n; target = shifts k })
          states)
      q h
HasTransition-same i (tkn t) (sub r) k states e h = absurd (cc e)
HasTransition-same i (sub r) (tkn u) k states e h = absurd (cc e)
HasTransition-same i (sub r) (sub q) k states e h =
    subst (λ p. HasTransition i (sub p) k states) (same_eq q r e) h
