-- ===== src/Generator/First.antt =====
-- src/parser_generator.c: `symbol_t`, `variant_get_symbol` and `gather_first`.
use low.Prelude.{
  ℕ, zero, suc, Bool, true, false, List, [], ◌∷◌, Option, none, some, get_elem?, ◌≡◌, ◌||◌,
}
use low.Lexer.Token.{Token, token_id}
use low.Grammar.Symbols.{Rule, Symbol, tkn, sub, Variant, variant}
use low.Grammar.Variants.{variants}
use low.Generator.Rules.{◌same◌}
use low.Generator.Sets.{token_set_insert}

-- `none` is {0, 0}, which ends the elements.
abbrev pub variant_get_symbol : Variant → ℕ → Option Symbol
variant_get_symbol (variant elements reducer tag) index = get_elem? elements index

-- `struct rule_chain`: the rules, the newest first.
unfoldable pub on_chain : Rule → List Rule → Bool
on_chain r [] = false
on_chain r (s ∷ chain) = (s same r) || on_chain r chain

-- The loop over the variants.
unfoldable pub gather_variants :
    (List ℕ → Option Symbol → Option (List ℕ)) → List ℕ → List Variant → Option (List ℕ)
gather_variants go first [] = some first
gather_variants go first (v ∷ vs) = elim (go first (variant_get_symbol v 0)) [
  | none ↦ none
  | some first' ↦ gather_variants go first' vs
]

-- `none` if an assertion fails, or if there are more calls in one another than `fuel`.
unfoldable pub gather_first : ℕ → List ℕ → Option Symbol → List Rule → Option (List ℕ)
unfolding on_chain gather_variants
gather_first fuel first none chain = none
gather_first zero first (some s) chain = none
gather_first (suc fuel) first (some (tkn t)) chain = some (token_set_insert first (token_id t))
gather_first (suc fuel) first (some (sub r)) chain = elim (on_chain r chain) [
  | true ↦ some first
  | false ↦ gather_variants (λ f s. gather_first fuel f s (r ∷ chain)) first (variants r)
]

-- What it is to gather, without chains: the tokens that can begin what a symbol stands for.
pub data First : Symbol → ℕ → Type 0 where
  itself : (t : Token) → First (tkn t) (token_id t)
  within :
      (r : Rule) (i : ℕ) (v : Variant) (s : Symbol) (t : ℕ)
      → get_elem? (variants r) i ≡ some v
      → variant_get_symbol v 0 ≡ some s
      → First s t
      → First (sub r) t

-- The same, with no rule in itself or on the chain.
pub data Reaches : List Rule → Symbol → ℕ → Type 0 where
  arrive : (chain : List Rule) (t : Token) → Reaches chain (tkn t) (token_id t)
  through :
      (chain : List Rule) (r : Rule) (i : ℕ) (v : Variant) (s : Symbol) (t : ℕ)
      → on_chain r chain ≡ false
      → get_elem? (variants r) i ≡ some v
      → variant_get_symbol v 0 ≡ some s
      → Reaches (r ∷ chain) s t
      → Reaches chain (sub r) t
