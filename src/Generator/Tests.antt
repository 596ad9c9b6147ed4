-- ===== src/Generator/Tests.antt =====
-- Runs of src/parser_generator.c on rules of the grammar.
use low.Prelude.{
  ℕ, suc, ◌≡◌, ◌≤◌, ◌-◌, ◌↔◌, refl, ap, arith, List, [], ◌∷◌, Option, none, some, get_elem?, ==_iff,
  true,
}
use mathlib.Core.List.Permᴰ.{swap}
use low.Lexer.Token.{token_id}
use low.Grammar.Symbols.{Rule, sub, rule_unit_list, rule_primary_expr, rule_unit, rule_type}
use low.Grammar.Variants.{variants}
use low.Grammar.Symbols.{variant, unit_list_reducer}
use low.Generator.Words.{bitwise_or}
use low.Generator.Sets.{or_word, Has, token_set_init}
use low.Generator.Rules.{rule_index, same_eq}
use low.Generator.First.{gather_first, gather_variants, on_chain, First}
use low.Generator.Firsts.{gather_first-First}
use low.Generator.Leads.{Lead, consolidate_leads, assign_rule_id}
use low.Generator.Ids.{assign_rule_id-lookup}
use low.Generator.Expand.{new_lead, has_lead, expand_leads}
use low.Generator.Closed.{expand_leads-closes}
use low.Generator.Order.{Ascending, compare_token_sets, consolidate_leads-Ascending}
use low.Generator.Consolidate.{Says, consolidate_leads-Says}
use low.Generator.Emit.{root_lead}

gather_first-First_example :
    (first : List ℕ) × (gather_first 59 token_set_init (some (sub rule_unit_list)) [] ≡ some first)
    × ((t : ℕ) → Has first t ↔ First (sub rule_unit_list) t)
gather_first-First_example = gather_first-First (sub rule_unit_list)

assign_rule_id-lookup_example :
    (92 ≤ (assign_rule_id (rule_unit ∷ []) rule_type).0)
    × (get_elem?
          (assign_rule_id (rule_unit ∷ []) rule_type).1
          ((assign_rule_id (rule_unit ∷ []) rule_type).0 - 92)
        ≡ some rule_type)
assign_rule_id-lookup_example = assign_rule_id-lookup (rule_unit ∷ []) rule_type

-- Identifiers, numbers, strings and the parenthesis begin a primary expression.
first_primary :
    gather_first 59 token_set_init (some (sub rule_primary_expr)) [] ≡ some (56 ∷ 32768 ∷ 0 ∷ [])
unfolding gather_first gather_variants on_chain variants or_word token_id bitwise_or
first_primary = refl

abbrev lead_of : ℕ → List ℕ → Lead
lead_of place terminals = record {
  rule = some rule_unit_list;
  place = place;
  variant = variant (sub rule_unit ∷ []) none place;
  position = 0;
  terminals = terminals;
}

-- The second variant of a rule for two tokens, with the first variant between.
abbrev three_leads : List Lead
three_leads =
    lead_of 1 (0 ∷ 2097152 ∷ 0 ∷ []) ∷ lead_of 0 (4 ∷ 0 ∷ 0 ∷ []) ∷ lead_of 1 (4 ∷ 0 ∷ 0 ∷ []) ∷ []

abbrev swap_two : List Lead → List Lead
swap_two (l ∷ m ∷ leads) = m ∷ l ∷ leads
swap_two leads = leads

abbrev place_of : Option Rule → ℕ
place_of none = 0
place_of (some r) = suc (rule_index r)

place_of_distinct : (r s : Option Rule) → place_of r ≡ place_of s → r ≡ s
place_of_distinct none none e = refl
place_of_distinct none (some s) e = absurd (omega arith)
place_of_distinct (some r) none e = absurd (omega arith)
place_of_distinct (some r) (some s) e =
    ap some (same_eq r s ((==_iff (rule_index r) (rule_index s)).1 (omega arith)))

consolidate_leads-Says_example :
    Says (consolidate_leads swap_two three_leads) (some rule_unit_list) 1 0 2
    ↔ Says three_leads (some rule_unit_list) 1 0 2
consolidate_leads-Says_example =
    consolidate_leads-Says swap_two three_leads (swap refl refl) (refl, (refl, (refl, tt)))
      (some rule_unit_list) 1 0 2

consolidate_leads-Ascending_example : Ascending place_of (consolidate_leads swap_two three_leads)
unfolding compare_token_sets
consolidate_leads-Ascending_example =
    consolidate_leads-Ascending place_of place_of_distinct swap_two three_leads
      (λ e. absurd (cc e), (λ e. absurd (cc e), tt))

expand_leads-closes_example :
    (out : List Lead) × (terminals : List ℕ) × (expand_leads (root_lead ∷ []) (root_lead ∷ [])
      ≡ some out)
    × (has_lead
          (new_lead rule_unit_list terminals 1
            (variant (sub rule_unit_list ∷ sub rule_unit ∷ []) (some unit_list_reducer) 1))
          out
        ≡ true)
    × ((t : ℕ) → Has terminals t ↔ Has root_lead.terminals t)
unfolding variants or_word
expand_leads-closes_example =
    expand_leads-closes (root_lead ∷ []) (root_lead ∷ []) 0 root_lead rule_unit_list 1
      (variant (sub rule_unit_list ∷ sub rule_unit ∷ []) (some unit_list_reducer) 1) refl refl refl
      refl
