-- ===== src/Generator/Routes.antt =====
-- src/parser_generator.c, gather_first: the chain of rules stops no token from being found.
use low.Prelude.{
  ℕ, zero, suc, ◌≤◌, ◌≡◌, refl, ap, arith, ◌⊎◌, inl, inr, false, List, [], ◌∷◌, length, some,
  get_elem?, Bool-cases,
}
use low.Lexer.Token.{Token, token_id}
use low.Grammar.Symbols.{Rule, Symbol, tkn, sub, Variant}
use low.Grammar.Variants.{variants}
use low.Reduce.Kinds.{All}
use low.Generator.Rules.{◌same◌, same_eq}
use low.Generator.First.{
  variant_get_symbol, on_chain, First, itself, within, Reaches, arrive, through,
}

pub Reaches-First : (chain : List Rule) (s : Symbol) (t : ℕ) → Reaches chain s t → First s t
Reaches-First _ _ _ (arrive chain tok) = itself tok
Reaches-First _ _ _ (through chain r i v s' t off e e' p) =
    within r i v s' t e e' (Reaches-First (r ∷ chain) s' t p)

-- The symbol is the token, or a rule with a variant that begins with the next symbol.
abbrev Route : List Rule → Symbol → ℕ → Type 0
Route [] s t = (tok : Token) × (s ≡ tkn tok) × (t ≡ token_id tok)
Route (r ∷ rs) s t =
    (i : ℕ) × (v : Variant) × (s' : Symbol) × (s ≡ sub r)
    × (get_elem? (variants r) i ≡ some v)
    × (variant_get_symbol v 0 ≡ some s')
    × Route rs s' t

First-Route : (s : Symbol) (t : ℕ) → First s t → (rs : List Rule) × Route rs s t
First-Route _ _ (itself tok) = ([], (tok, refl, refl))
First-Route _ _ (within r i v s' t e e' p) =
    let (rs, route) = First-Route s' t p in (r ∷ rs, (i, v, s', refl, e, e', route))

abbrev Off : List Rule → List Rule → Type 0
Off chain rs = All (λ r. on_chain r chain ≡ false) rs

-- A route through a rule has a part that begins at the rule.
cut :
    (chain : List Rule) (r : Rule) (rs : List Rule) (s : Symbol) (t : ℕ)
    → Route rs s t
    → Off chain rs
    → Off (r ∷ chain) rs
      ⊎ ((rs' : List Rule) × (length rs' ≤ length rs) × Route rs' (sub r) t × Off chain rs')
unfolding on_chain
cut chain r [] s t route off = inl tt
cut chain r (q ∷ rs) s t (i, v, s', e, e', e'', route) (off, offs) = elim (Bool-cases (r same q)) [
  | inl eq ↦
      let route' : Route (q ∷ rs) (sub r) t = (i, v, s', ap sub (same_eq r q eq), e', e'', route) in
      inr (q ∷ rs, omega arith, route', (off, offs))
  | inr other ↦ elim (cut chain r rs s' t route offs) [
    | inl offs' ↦ inl (rw other off, offs')
    | inr (rs', le, route', offs') ↦ inr (rs', omega arith, route', offs')
  ]
]

Route-Reaches :
    (n : ℕ) (chain rs : List Rule) (s : Symbol) (t : ℕ)
    → length rs ≤ n
    → Route rs s t
    → Off chain rs
    → Reaches chain s t
Route-Reaches n chain [] s t le (tok, e, e') off = rw (e, e') (arrive chain tok)
Route-Reaches zero chain (r ∷ rs) s t le route off = absurd (omega arith)
Route-Reaches (suc n) chain (r ∷ rs) s t le (i, v, s', e, e', e'', route) (off, offs) =
    elim (cut chain r rs s' t route offs) [
      | inl offs' ↦ rw e (
          through chain r i v s' t off e' e''
            (Route-Reaches n (r ∷ chain) rs s' t (omega arith) route offs'))
      | inr (rs', le', route', offs') ↦
          rw e (Route-Reaches n chain rs' (sub r) t (omega arith) route' offs')
    ]

Off-nil : (rs : List Rule) → Off [] rs
unfolding on_chain
Off-nil [] = tt
Off-nil (r ∷ rs) = (refl, Off-nil rs)

pub First-Reaches : (s : Symbol) (t : ℕ) → First s t → Reaches [] s t
First-Reaches s t p =
    let (rs, route) = First-Route s t p in
    Route-Reaches (length rs) [] rs s t (omega arith) route (Off-nil rs)
