-- ===== src/Generator/Expand.antt =====
-- src/parser_generator.c, gather_leads: the loop over the leads, without the recursion.
use low.Prelude.{
  ℕ, suc, ◌≡◌, refl, Bool, false, List, [], ◌∷◌, ◌++◌, Option, none, some, ◌||◌, if◌then◌else◌,
}
use low.Grammar.Symbols.{Rule, Symbol, sub, Variant}
use low.Grammar.Variants.{variants}
use low.Generator.Sets.{token_set_init, token_set_merge}
use low.Generator.First.{variant_get_symbol, gather_first}
use low.Generator.Firsts.{gather_first-First}
use low.Generator.Leads.{Lead, equal_leads}

-- The tokens that can follow the next symbol of a lead.
unfoldable pub follow : Lead → Option (List ℕ)
follow lead = elim (variant_get_symbol lead.variant (suc lead.position)) [
  | none ↦ some (token_set_merge token_set_init lead.terminals)
  | some s ↦ gather_first 59 token_set_init (some s) []
]

unfoldable pub has_lead : Lead → List Lead → Bool
has_lead nl [] = false
has_lead nl (lead ∷ leads) = equal_leads lead nl || has_lead nl leads

abbrev pub new_lead : Rule → List ℕ → ℕ → Variant → Lead
new_lead r terminals i v = record {
  rule = some r;
  place = i;
  variant = v;
  position = 0;
  terminals = terminals;
}

abbrev pub add_lead : List Lead → Lead → List Lead
add_lead leads nl = if has_lead nl leads then leads else leads ++ (nl ∷ [])

-- The loop over the variants, from the one at place i on.
unfoldable pub add_variants : Rule → List ℕ → ℕ → List Variant → List Lead → List Lead
add_variants r terminals i [] leads = leads
add_variants r terminals i (v ∷ vs) leads =
    add_variants r terminals (suc i) vs (add_lead leads (new_lead r terminals i v))

unfoldable pub expand_lead : List Lead → Lead → Option (List Lead)
expand_lead leads lead = elim (variant_get_symbol lead.variant lead.position) [
  | some (sub r) ↦ elim (follow lead) [
    | none ↦ none
    | some terminals ↦ some (add_variants r terminals 0 (variants r) leads)
  ]
  | _ ↦ some leads
]

-- The leads from `index` to `index + length`, which stay where they are while others are added.
-- `none` if an assertion of gather_first fails.
unfoldable pub expand_leads : List Lead → List Lead → Option (List Lead)
expand_leads leads [] = some leads
expand_leads leads (lead ∷ batch) = elim (expand_lead leads lead) [
  | none ↦ none
  | some leads' ↦ expand_leads leads' batch
]

-- No assertion fails.
pub follow-returns : (lead : Lead) → (terminals : List ℕ) × (follow lead ≡ some terminals)
unfolding follow
follow-returns lead = after (variant_get_symbol lead.variant (suc lead.position)) refl
  where
    after :
        (o : Option Symbol)
        → variant_get_symbol lead.variant (suc lead.position) ≡ o
        → (terminals : List ℕ) × (follow lead ≡ some terminals)
    after none e = (token_set_merge token_set_init lead.terminals, rw (e, follow) refl)
    after (some s) e =
        let (terminals, e', has) = gather_first-First s in (terminals, rw (e, follow) e')
