-- ===== src/Generator/Universe.antt =====
-- src/parser_generator.c, gather_leads: all the leads that can be new.
use low.Prelude.{
  ℕ, zero, suc, ◌+◌, ◌*◌, ◌≡◌, refl, sym, ap, ◌∙◌, arith, List, [], ◌∷◌, ◌++◌, some, get_elem?, map,
  length, length-append, inl, inr,
}
use low.Grammar.Symbols.{Rule, Variant}
use low.Grammar.Variants.{variants}
use low.Generator.Rules.{all_rules, rule_index, rule-get_elem}
use low.Generator.Leads.{Lead}
use low.Generator.Expand.{new_lead}
use low.Generator.Members.{In, In-append_left, In-append_right, In-map, In-get_elem}
use low.Generator.Terminals.{sets_from, basic_sets, copied, firsts, tokens_below}
use low.Generator.Gather.{lead_bound}

unfoldable pub for_variants : List (List ℕ) → Rule → ℕ → List Variant → List Lead
for_variants sets r i [] = []
for_variants sets r i (v ∷ vs) = map (λ t. new_lead r t i v) sets ++ for_variants sets r (suc i) vs

unfoldable pub for_rules : List (List ℕ) → List Rule → List Lead
for_rules sets [] = []
for_rules sets (r ∷ rs) = for_variants sets r 0 (variants r) ++ for_rules sets rs

abbrev pub universe : List Lead → List Lead
universe leads = for_rules (sets_from leads) all_rules

In-for_variants :
    (sets : List (List ℕ)) (r : Rule) (t : List ℕ) (vs : List Variant) (i j k : ℕ) (v : Variant)
    → In t sets
    → get_elem? vs j ≡ some v
    → k ≡ i + j
    → In (new_lead r t k v) (for_variants sets r i vs)
unfolding for_variants
In-for_variants sets r t [] i j k v h e q = absurd (cc e)
In-for_variants sets r t (w ∷ vs) i zero k v h e q =
    let here : w ≡ v = cc e in
    let place : i ≡ k = omega arith in
    In-append_left _ _ (for_variants sets r (suc i) vs)
      (rw (here, place) (In-map (λ t'. new_lead r t' k v) t sets h))
In-for_variants sets r t (w ∷ vs) i (suc j) k v h e q =
    In-append_right _ (map (λ t'. new_lead r t' i w) sets) _
      (In-for_variants sets r t vs (suc i) j k v h e (omega arith))

In-for_rules :
    (sets : List (List ℕ)) (rs : List Rule) (r : Rule) (t : List ℕ) (j : ℕ) (v : Variant)
    → In r rs
    → In t sets
    → get_elem? (variants r) j ≡ some v
    → In (new_lead r t j v) (for_rules sets rs)
unfolding for_rules
In-for_rules sets [] r t j v m h e = absurd m
In-for_rules sets (q ∷ rs) r t j v (inl here) h e =
    In-append_left _ _ (for_rules sets rs)
      (rw (sym here) (In-for_variants sets r t (variants r) 0 j j v h e (omega arith)))
In-for_rules sets (q ∷ rs) r t j v (inr m) h e =
    In-append_right _ (for_variants sets q 0 (variants q)) _ (In-for_rules sets rs r t j v m h e)

pub In-universe :
    (leads : List Lead) (r : Rule) (t : List ℕ) (j : ℕ) (v : Variant)
    → In t (sets_from leads)
    → get_elem? (variants r) j ≡ some v
    → In (new_lead r t j v) (universe leads)
In-universe leads r t j v h e =
    In-for_rules (sets_from leads) all_rules r t j v
      (In-get_elem all_rules (rule_index r) r (rule-get_elem r)) h e

length-map : {A B : Type 0} (f : A → B) (xs : List A) → length (map f xs) ≡ length xs
length-map f [] = refl
length-map f (x ∷ xs) = ap suc (length-map f xs)

unfoldable count_variants : List Rule → ℕ
count_variants [] = 0
count_variants (r ∷ rs) = length (variants r) + count_variants rs

add_mul : (a b c : ℕ) → (a + b) * c ≡ a * c + b * c
add_mul zero b c = omega arith
add_mul (suc a) b c = omega (arith, add_mul a b c)

length-for_variants :
    (sets : List (List ℕ)) (r : Rule) (i : ℕ) (vs : List Variant)
    → length (for_variants sets r i vs) ≡ length vs * length sets
unfolding for_variants
length-for_variants sets r i [] = omega arith
length-for_variants sets r i (v ∷ vs) =
    rw
      (
        length-append (map (λ t. new_lead r t i v) sets) (for_variants sets r (suc i) vs),
        length-map (λ t. new_lead r t i v) sets,
        length-for_variants sets r (suc i) vs,
      )
      (omega arith)

length-for_rules :
    (sets : List (List ℕ)) (rs : List Rule)
    → length (for_rules sets rs) ≡ count_variants rs * length sets
unfolding for_rules count_variants
length-for_rules sets [] = omega arith
length-for_rules sets (r ∷ rs) =
    rw
      (
        length-append (for_variants sets r 0 (variants r)) (for_rules sets rs),
        length-for_variants sets r 0 (variants r),
        length-for_rules sets rs,
      )
      (sym (add_mul (length (variants r)) (count_variants rs) (length sets)))

all_variants : count_variants all_rules ≡ 185
unfolding count_variants variants
all_variants = refl

length-basic_sets : (leads : List Lead) → length (basic_sets leads) ≡ length leads + 150
unfolding tokens_below
length-basic_sets leads =
    length-append (map Lead.terminals leads) firsts
    ∙ ap (λ n. n + 150) (length-map Lead.terminals leads)

length-sets_from : (leads : List Lead) → length (sets_from leads) ≡ 2 * (length leads + 150)
length-sets_from leads =
    rw
      (
        length-append (basic_sets leads) (map copied (basic_sets leads)),
        length-map copied (basic_sets leads),
        length-basic_sets leads,
      )
      (omega arith)

pub length-universe :
    (leads : List Lead) → suc (length (universe leads)) ≡ lead_bound (length leads)
length-universe leads =
    rw (length-for_rules (sets_from leads) all_rules, all_variants, length-sets_from leads) refl
