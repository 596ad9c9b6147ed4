-- ===== src/Generator/Ids.antt =====
-- src/parser_generator.c, assign_rule_id: ids are stable and lead back to their rules.
use low.Prelude.{
  ℕ, zero, suc, ◌+◌, ◌-◌, ◌≤◌, ◌≡◌, refl, ap, ◌∙◌, arith, Bool, true, false, List, [], ◌∷◌, ◌++◌,
  Option, none, some, length, get_elem?,
}
use low.Grammar.Symbols.{Rule}
use low.Generator.Rules.{◌same◌, same_eq}
use low.Generator.Leads.{here_or, id_or_add, find_rule, assign_rule_id}

-- A search that ends at a place has passed the others.
here_or-some :
    (r rule : Rule) (rules : List Rule) (b : Bool) (o : Option ℕ) (w : ℕ)
    → r same rule ≡ b
    → ((v : ℕ) → o ≡ some v → get_elem? rules v ≡ some rule)
    → here_or b o ≡ some w
    → get_elem? (r ∷ rules) w ≡ some rule
here_or-some r rule rules true o zero e behind h = ap some (same_eq r rule e)
here_or-some r rule rules true o (suc w) e behind h = absurd (cc h)
here_or-some r rule rules false none w e behind h = absurd (cc h)
here_or-some r rule rules false (some v) zero e behind h = absurd (cc h)
here_or-some r rule rules false (some v) (suc w) e behind h =
    let found : ◌≡◌ {A = Option ℕ} (some v) (some w) = cc h in behind w found

pub find_rule-some :
    (rules : List Rule) (rule : Rule) (w : ℕ)
    → find_rule rules rule ≡ some w
    → get_elem? rules w ≡ some rule
unfolding find_rule
find_rule-some [] rule w h = absurd (cc h)
find_rule-some (r ∷ rules) rule w h =
    here_or-some r rule rules (r same rule) (find_rule rules rule) w refl
      (λ v e. find_rule-some rules rule v e) h

get_elem-append :
    (rules : List Rule) (r : Rule) (more : List Rule) (j : ℕ)
    → get_elem? rules j ≡ some r
    → get_elem? (rules ++ more) j ≡ some r
get_elem-append [] r more j h = absurd (cc h)
get_elem-append (q ∷ rules) r more zero h = h
get_elem-append (q ∷ rules) r more (suc j) h = get_elem-append rules r more j h

get_elem-last :
    (rules : List Rule) (r : Rule) → get_elem? (rules ++ (r ∷ [])) (length rules) ≡ some r
get_elem-last [] r = refl
get_elem-last (q ∷ rules) r = get_elem-last rules r

-- What is claimed of an id and the rules after it.
LeadsBack : List Rule → Rule → ℕ × List Rule → Type 0
LeadsBack rules rule (id, after) =
    (92 ≤ id)
    × (get_elem? after (id - 92) ≡ some rule)
    × ((j : ℕ) (r : Rule) → get_elem? rules j ≡ some r → get_elem? after j ≡ some r)

at :
    (rules : List Rule) (rule : Rule) (w : ℕ)
    → get_elem? rules w ≡ some rule
    → get_elem? rules (w + 92 - 92) ≡ some rule
at rules rule w h = ap (get_elem? rules) (omega arith) ∙ h

id_or_add-LeadsBack :
    (rules : List Rule) (rule : Rule) (o : Option ℕ)
    → find_rule rules rule ≡ o
    → LeadsBack rules rule (id_or_add rules rule o)
unfolding LeadsBack
id_or_add-LeadsBack rules rule none e = (
  omega arith,
  at (rules ++ (rule ∷ [])) rule (length rules) (get_elem-last rules rule),
  λ j r h. get_elem-append rules r (rule ∷ []) j h,
)
id_or_add-LeadsBack rules rule (some w) e =
    (omega arith, at rules rule w (find_rule-some rules rule w e), λ j r h. h)

-- The id that a rule is given is none of a token's, and the table of names has the rule at it.
pub assign_rule_id-lookup :
    (rules : List Rule) (rule : Rule)
    → (92 ≤ (assign_rule_id rules rule).0)
      × (get_elem? (assign_rule_id rules rule).1 ((assign_rule_id rules rule).0 - 92) ≡ some rule)
unfolding assign_rule_id LeadsBack
assign_rule_id-lookup rules rule =
    let (bound, found, kept) = id_or_add-LeadsBack rules rule (find_rule rules rule) refl in
    (bound, found)

-- A rule that has a place in the table of names keeps it when another rule is given an id.
pub assign_rule_id-keeps :
    (rules : List Rule) (rule r : Rule) (j : ℕ)
    → get_elem? rules j ≡ some r
    → get_elem? (assign_rule_id rules rule).1 j ≡ some r
unfolding assign_rule_id LeadsBack
assign_rule_id-keeps rules rule r j h =
    let (bound, found, kept) = id_or_add-LeadsBack rules rule (find_rule rules rule) refl in
    kept j r h
