-- ===== src/Generator/Firsts.antt =====
-- src/parser_generator.c, gather_first: what is gathered, and how deep the calls go.
use low.Prelude.{
  ℕ, zero, suc, ◌+◌, ◌≤◌, ◌<◌, ◌≡◌, refl, sym, ap, ◌∙◌, arith, ◌⊎◌, inl, inr, ◌↔◌, Bool, true,
  false, List, [], ◌∷◌, Option, some, length, get_elem?, Bool-cases, ◌||◌, if◌then◌else◌,
}
use low.Lexer.Token.{Token, token_id}
use low.Grammar.Symbols.{Rule, Reducer, Symbol, tkn, sub, Variant, variant}
use low.Grammar.Variants.{variants}
use low.Generator.Rules.{
  all_rules, rule_index, rule-get_elem, ◌same◌, all_nonempty, variants-nonempty,
}
use low.Generator.Sets.{
  Has, token_set_init, token_set_insert, token_set_insert-Has, length-or_word, no_token,
}
use low.Generator.First.{
  variant_get_symbol, on_chain, gather_variants, gather_first, First, Reaches, arrive, through,
}
use low.Generator.Tokens.{token_id_bound}
use low.Generator.Routes.{Reaches-First, First-Reaches}

-- How many rules are not on the chain.
unfoldable unseen : List Rule → List Rule → ℕ
unseen [] chain = 0
unseen (r ∷ rs) chain = (if on_chain r chain then 0 else 1) + unseen rs chain

fresh_le : (b c : Bool) → (if b || c then 0 else 1) ≤ (if c then 0 else 1)
fresh_le true true = omega arith
fresh_le true false = omega arith
fresh_le false true = omega arith
fresh_le false false = omega arith

unseen-le :
    (rs : List Rule) (r : Rule) (chain : List Rule) → unseen rs (r ∷ chain) ≤ unseen rs chain
unfolding unseen on_chain
unseen-le [] r chain = omega arith
unseen-le (q ∷ rs) r chain =
    omega (arith, unseen-le rs r chain, fresh_le (r same q) (on_chain q chain))

same_refl : (r : Rule) → r same r ≡ true
same_refl r = ground arith

unseen-lt :
    (rs : List Rule) (i : ℕ) (r : Rule) (chain : List Rule)
    → get_elem? rs i ≡ some r
    → on_chain r chain ≡ false
    → unseen rs (r ∷ chain) < unseen rs chain
unfolding unseen on_chain
unseen-lt [] i r chain h off = ground arith
unseen-lt (q ∷ rs) zero r chain h off =
    let e : q ≡ r = cc h in
    let here : r same q ≡ true = rw e (same_refl r) in
    let off' : on_chain q chain ≡ false = rw e off in
    rw (here, off') (omega (arith, unseen-le rs r chain))
unseen-lt (q ∷ rs) (suc i) r chain h off =
    omega (arith, unseen-lt rs i r chain h off, fresh_le (r same q) (on_chain q chain))

-- What gathering adds.
Adds : List ℕ → Option (List ℕ) → (ℕ → Type 0) → Type 0
Adds first result P =
    (first' : List ℕ) × (result ≡ some first')
    × (length first' ≡ 3)
    × ((t : ℕ) → Has first' t ↔ (Has first t ⊎ P t))

-- The symbols that the variants begin with.
abbrev Begins : List Rule → List Variant → ℕ → Type 0
Begins chain vs t =
    (i : ℕ) × (v : Variant) × (s : Symbol) × (get_elem? vs i ≡ some v)
    × (variant_get_symbol v 0 ≡ some s)
    × Reaches chain s t

Begins-cons :
    (chain : List Rule) (x : Symbol) (xs : List Symbol) (reducer : Option Reducer) (tag : ℕ)
    (vs : List Variant) (t : ℕ)
    → Begins chain (variant (x ∷ xs) reducer tag ∷ vs) t ↔ (Reaches chain x t ⊎ Begins chain vs t)
Begins-cons chain x xs reducer tag vs t = (to, from)
  where
    to : Begins chain (variant (x ∷ xs) reducer tag ∷ vs) t → Reaches chain x t ⊎ Begins chain vs t
    to (zero, v, s, e, e', p) =
        let here : variant (x ∷ xs) reducer tag ≡ v = cc e in
        let first : ◌≡◌ {A = Option Symbol} (some x) (some s) =
          ap (λ w. variant_get_symbol w 0) here ∙ e' in
        let head : x ≡ s = cc first in inl (rw head p)
    to (suc i, v, s, e, e', p) = inr (i, v, s, e, e', p)

    from :
        Reaches chain x t ⊎ Begins chain vs t → Begins chain (variant (x ∷ xs) reducer tag ∷ vs) t
    from (inl p) = (0, variant (x ∷ xs) reducer tag, x, refl, refl, p)
    from (inr (i, v, s, e, e', p)) = (suc i, v, s, e, e', p)

and_then : {P Q S R B N : Type 0} → (Q ↔ (P ⊎ R)) → (S ↔ (Q ⊎ B)) → (N ↔ (R ⊎ B)) → S ↔ (P ⊎ N)
and_then {P} {Q} {S} {R} {B} {N} q s n = (λ a. forth (s.0 a), back)
  where
    middle : P ⊎ R → P ⊎ N
    middle (inl p) = inl p
    middle (inr r) = inr (n.1 (inl r))

    forth : Q ⊎ B → P ⊎ N
    forth (inl a) = middle (q.0 a)
    forth (inr b) = inr (n.1 (inr b))

    last : R ⊎ B → S
    last (inl r) = s.1 (inl (q.1 (inr r)))
    last (inr b) = s.1 (inr b)

    back : P ⊎ N → S
    back (inl p) = s.1 (inl (q.1 (inl p)))
    back (inr a) = last (n.0 a)

gather_variants-Adds :
    (go : List ℕ → Option Symbol → Option (List ℕ)) (chain : List Rule)
    → ((first : List ℕ) (s : Symbol)
        → length first ≡ 3
        → Adds first (go first (some s)) (λ t. Reaches chain s t))
    → (vs : List Variant) (first : List ℕ) → all_nonempty vs ≡ true
    → length first ≡ 3
    → Adds first (gather_variants go first vs) (λ t. Begins chain vs t)
unfolding Adds gather_variants all_nonempty
gather_variants-Adds go chain each [] first h size =
    (first, refl, size, λ t. (λ a. inl a, λ a. no_begin t a))
  where
    no_begin : (t : ℕ) → (Has first t ⊎ Begins chain [] t) → Has first t
    no_begin t (inl a) = a
    no_begin t (inr (i, v, s, e, e', p)) = absurd (cc e)
gather_variants-Adds go chain each (variant [] reducer tag ∷ vs) first h size = absurd (cc h)
gather_variants-Adds go chain each (variant (x ∷ xs) reducer tag ∷ vs) first h size =
    let (first1, e1, size1, has1) = each first x size in
    let (first2, e2, size2, has2) = gather_variants-Adds go chain each vs first1 h size1 in
    (
      first2,
      rw (e1, gather_variants) e2,
      size2,
      λ t. and_then (has1 t) (has2 t) (Begins-cons chain x xs reducer tag vs t),
    )

Reaches-token :
    (chain : List Rule) (tok : Token) (t : ℕ) → Reaches chain (tkn tok) t → token_id tok ≡ t
Reaches-token chain tok t (arrive _ _) = refl

-- A symbol's side of the equivalence, for a token and for a rule that is not on the chain.
to_token :
    {P Q : Type 0} {chain : List Rule} {tok : Token} {t : ℕ}
    → (Q ↔ (P ⊎ (token_id tok ≡ t)))
    → Q ↔ (P ⊎ Reaches chain (tkn tok) t)
to_token {P} {Q} {chain} {tok} {t} q = (λ a. forth (q.0 a), back)
  where
    forth : P ⊎ (token_id tok ≡ t) → P ⊎ Reaches chain (tkn tok) t
    forth (inl p) = inl p
    forth (inr e) = inr (rw (sym e) (arrive chain tok))

    back : P ⊎ Reaches chain (tkn tok) t → Q
    back (inl p) = q.1 (inl p)
    back (inr p) = q.1 (inr (Reaches-token chain tok t p))

to_rule :
    {P Q : Type 0} {chain : List Rule} {r : Rule} {t : ℕ}
    → on_chain r chain ≡ false
    → (Q ↔ (P ⊎ Begins (r ∷ chain) (variants r) t))
    → Q ↔ (P ⊎ Reaches chain (sub r) t)
to_rule {P} {Q} {chain} {r} {t} off q = (λ a. forth (q.0 a), back)
  where
    forth : P ⊎ Begins (r ∷ chain) (variants r) t → P ⊎ Reaches chain (sub r) t
    forth (inl p) = inl p
    forth (inr (i, v, s, e, e', p)) = inr (through chain r i v s t off e e' p)

    back : P ⊎ Reaches chain (sub r) t → Q
    back (inl p) = q.1 (inl p)
    back (inr (through _ _ i v s _ _ e e' p)) = q.1 (inr (i, v, s, e, e', p))

not_through :
    {P : Type 0} {chain : List Rule} {r : Rule} {t : ℕ}
    → on_chain r chain ≡ true
    → P ⊎ Reaches chain (sub r) t
    → P
not_through on (inl p) = p
not_through on (inr (through _ _ i v s _ off e e' p)) = absurd (cc (on, off))

gather_first-Adds :
    (fuel : ℕ) (first : List ℕ) (s : Symbol) (chain : List Rule)
    → unseen all_rules chain < fuel
    → length first ≡ 3
    → Adds first (gather_first fuel first (some s) chain) (λ t. Reaches chain s t)
unfolding Adds gather_first
gather_first-Adds zero first s chain h size = absurd (omega arith)
gather_first-Adds (suc fuel) first (tkn tok) chain h size = (
  token_set_insert first (token_id tok),
  refl,
  length-or_word _ _ first ∙ size,
  λ t.
      to_token
        (token_set_insert-Has first (token_id tok) t size (omega (arith, token_id_bound tok))),
)
gather_first-Adds (suc fuel) first (sub r) chain h size = elim (Bool-cases (on_chain r chain)) [
  | inl on ↦ (first, rw (on, gather_first) refl, size, λ t. (λ a. inl a, λ a. not_through on a))
  | inr off ↦
      let less = unseen-lt all_rules (rule_index r) r chain (rule-get_elem r) off in
      let (first', e, size', has) =
        gather_variants-Adds (λ f s. gather_first fuel f s (r ∷ chain)) (r ∷ chain)
          (λ f s l. gather_first-Adds fuel f s (r ∷ chain) (omega arith) l) (variants r) first
          (variants-nonempty r) size in
      (first', rw (off, gather_first) e, size', λ t. to_rule off (has t))
]

-- For each token and rule, the calls of gather_first are at most 59 deep in one another, no assertion
-- fails, and the tokens that are gathered are those that can begin the symbol.
pub gather_first-First :
    (s : Symbol)
    → (first : List ℕ) × (gather_first 59 token_set_init (some s) [] ≡ some first)
      × ((t : ℕ) → Has first t ↔ First s t)
unfolding Adds unseen on_chain
gather_first-First s =
    let (first, e, size, has) = gather_first-Adds 59 token_set_init s [] (omega arith) refl in
    (first, e, λ t. from_nothing t (has t))
  where
    from_nothing :
        {Q : Type 0} (t : ℕ) → (Q ↔ (Has token_set_init t ⊎ Reaches [] s t)) → Q ↔ First s t
    from_nothing {Q} t q = (λ a. forth (q.0 a), λ p. q.1 (inr (First-Reaches s t p)))
      where
        forth : Has token_set_init t ⊎ Reaches [] s t → First s t
        forth (inl a) = no_token t (First s t) a
        forth (inr p) = Reaches-First [] s t p
