-- ===== src/Generator/Leads.antt =====
-- src/parser_generator.c: `struct lead`, `consolidate_leads` and `assign_rule_id`.
use low.Prelude.{
  ℕ, suc, ◌+◌, Bool, true, false, List, [], ◌∷◌, ◌++◌, Option, none, some, ◌==◌, ◌&&◌, length,
}
use low.Grammar.Symbols.{Rule, Variant}
use low.Generator.Rules.{◌same◌}
use low.Generator.Sets.{token_set_merge, equal_token_sets}

-- The rule of a lead, `none` for `grammar_root`.
abbrev pub same_rule : Option Rule → Option Rule → Bool
same_rule none none = true
same_rule none (some s) = false
same_rule (some r) none = false
same_rule (some r) (some s) = r same s

-- `variant` points to the variant at this place among those of the rule.
pub record Lead : Type 0 where
  pub rule : Option Rule
  pub place : ℕ
  pub variant : Variant
  pub position : ℕ
  pub terminals : List ℕ

-- The test of `consolidate_leads`. Pointers to variants of one rule are equal if their places are.
abbrev pub same_core : Lead → Lead → Bool
same_core l m = same_rule l.rule m.rule && ((l.place == m.place) && (l.position == m.position))

abbrev pub equal_leads : Lead → Lead → Bool
equal_leads l m = same_core l m && equal_token_sets l.terminals m.terminals

abbrev pub merged : Lead → Lead → Lead
merged lo li = record lo { terminals = token_set_merge lo.terminals li.terminals }

-- The loop: `lo` is the lead that is written last.
unfoldable pub merge_leads : Lead → List Lead → List Lead
merge_leads lo [] = lo ∷ []
merge_leads lo (li ∷ leads) = elim (same_core li lo) [
  | true ↦ merge_leads (merged lo li) leads
  | false ↦ lo ∷ merge_leads li leads
]

-- One lead, or none, stays as it is.
unfoldable pub merge_sorted : List Lead → List Lead
unfolding merge_leads
merge_sorted [] = []
merge_sorted (lo ∷ leads) = merge_leads lo leads

-- With what `qsort` makes of the array.
unfoldable pub consolidate_leads : (List Lead → List Lead) → List Lead → List Lead
consolidate_leads qsort leads = merge_sorted (qsort leads)

-- One step of the search: whether the rule is here, and where it is behind.
abbrev pub here_or : Bool → Option ℕ → Option ℕ
here_or true behind = some 0
here_or false none = none
here_or false (some w) = some (suc w)

-- The place of a rule, if it has an id.
unfoldable pub find_rule : List Rule → Rule → Option ℕ
find_rule [] rule = none
find_rule (r ∷ rule_ids) rule = here_or (r same rule) (find_rule rule_ids rule)

abbrev pub id_or_add : List Rule → Rule → Option ℕ → ℕ × List Rule
id_or_add rule_ids rule (some w) = (w + 92, rule_ids)
id_or_add rule_ids rule none = (length rule_ids + 92, rule_ids ++ (rule ∷ []))

-- The id, MAX_TOKENS more than the place, and the rules that have one.
unfoldable pub assign_rule_id : List Rule → Rule → ℕ × List Rule
assign_rule_id rule_ids rule = id_or_add rule_ids rule (find_rule rule_ids rule)
