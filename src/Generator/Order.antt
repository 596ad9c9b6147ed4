-- ===== src/Generator/Order.antt =====
-- src/parser_generator.c: `compare_token_sets`, `compare_leads`, and the order of consolidated leads.
use low.Prelude.{
  ℕ, ◌<◌, ◌≡◌, ◌≢◌, refl, sym, ap, arith, ◌⊎◌, inl, inr, true, false, List, [], ◌∷◌, Option, none,
  some, Bool-cases, ◌==◌, ==_iff, &&-true,
}
use Prim.Native.Nat.{compare, Ordering}
use low.Grammar.Symbols.{Rule}
use low.Generator.Rules.{same_eq}
use low.Generator.Sets.{token_set_merge}
use low.Generator.Leads.{
  Lead, same_rule, same_core, merged, merge_leads, merge_sorted, consolidate_leads,
}

-- `if (a < b) return -1; if (a > b) return 1;` and what follows.
abbrev pub then_by : Ordering → Ordering → Ordering
then_by Ordering.lt rest = Ordering.lt
then_by Ordering.eq rest = rest
then_by Ordering.gt rest = Ordering.gt

unfoldable pub compare_token_sets : List ℕ → List ℕ → Ordering
compare_token_sets [] other = Ordering.eq
compare_token_sets (w ∷ bits) [] = Ordering.eq
compare_token_sets (w ∷ bits) (v ∷ other) = then_by (compare w v) (compare_token_sets bits other)

same_rule_eq : (r s : Option Rule) → same_rule r s ≡ true → r ≡ s
same_rule_eq none none h = refl
same_rule_eq none (some s) h = absurd (cc h)
same_rule_eq (some r) none h = absurd (cc h)
same_rule_eq (some r) (some s) h = ap some (same_eq r s h)

pub same_core_eq :
    (l m : Lead)
    → same_core l m ≡ true
    → (l.rule ≡ m.rule) × (l.place ≡ m.place) × (l.position ≡ m.position)
same_core_eq l m h =
    let (a, bc) = &&-true (same_rule l.rule m.rule) _ h in
    let (b, c) = &&-true (l.place == m.place) (l.position == m.position) bc in
    (same_rule_eq l.rule m.rule a, (==_iff l.place m.place).0 b, (==_iff l.position m.position).0 c)

-- Where the linker puts the rules.
module _ (address : Option Rule → ℕ) where
  abbrev pub compare_leads : Lead → Lead → Ordering
  compare_leads l m = then_by (compare (address l.rule) (address m.rule)) (
      then_by (compare l.place m.place)
        (then_by (compare l.position m.position) (compare_token_sets l.terminals m.terminals)))

  abbrev pub Sorted : List Lead → Type 0
  Sorted [] = Unit
  Sorted (l ∷ []) = Unit
  Sorted (l ∷ m ∷ leads) = (compare_leads l m ≢ Ordering.gt) × Sorted (m ∷ leads)

  -- The core of a lead is before that of another: no two that follow one another in this order are
  -- the same.
  abbrev pub Before : Lead → Lead → Type 0
  Before l m =
      (address l.rule < address m.rule)
      ⊎ ((address l.rule ≡ address m.rule)
          × ((l.place < m.place) ⊎ ((l.place ≡ m.place) × (l.position < m.position))))

  abbrev pub Ascending : List Lead → Type 0
  Ascending [] = Unit
  Ascending (l ∷ []) = Unit
  Ascending (l ∷ m ∷ leads) = Before l m × Ascending (m ∷ leads)

  keys_cases :
      (a b c a' b' c' : ℕ) (rest : Ordering)
      → then_by (compare a a') (then_by (compare b b') (then_by (compare c c') rest)) ≢ Ordering.gt
      → ((a ≡ a') × (b ≡ b') × (c ≡ c'))
        ⊎ ((a < a') ⊎ ((a ≡ a') × ((b < b') ⊎ ((b ≡ b') × (c < c')))))
  keys_cases a b c a' b' c' rest h = ground arith

  abbrev Upto : Lead → Lead → Type 0
  Upto l m =
      ((address l.rule ≡ address m.rule) × (l.place ≡ m.place) × (l.position ≡ m.position))
      ⊎ Before l m

  -- Sorted but for the terminals, which the loop changes.
  abbrev CoresSorted : List Lead → Type 0
  CoresSorted [] = Unit
  CoresSorted (l ∷ []) = Unit
  CoresSorted (l ∷ m ∷ leads) = Upto l m × CoresSorted (m ∷ leads)

  Sorted-CoresSorted : (leads : List Lead) → Sorted leads → CoresSorted leads
  Sorted-CoresSorted [] sorted = tt
  Sorted-CoresSorted (l ∷ []) sorted = tt
  Sorted-CoresSorted (l ∷ m ∷ leads) (h, sorted) = (
    keys_cases (address l.rule) l.place l.position (address m.rule) m.place m.position
        (compare_token_sets l.terminals m.terminals) h,
    Sorted-CoresSorted (m ∷ leads) sorted,
  )

  rejoin :
      (lo li : Lead) (terminals : List ℕ) (leads : List Lead)
      → same_core li lo ≡ true
      → CoresSorted (li ∷ leads)
      → CoresSorted (record lo { terminals = terminals } ∷ leads)
  rejoin lo li terminals [] e sorted = tt
  rejoin lo li terminals (m ∷ leads) e (h, sorted) =
      let (r, p, q) = same_core_eq li lo e in (rw (sym r, sym p, sym q) h, sorted)

  module _ (distinct : (r s : Option Rule) → address r ≡ address s → r ≡ s) where
    same_rule_refl : (r s : Option Rule) → r ≡ s → same_rule r s ≡ true
    same_rule_refl r s e = rw e (same_self s)
      where
        same_self : (s : Option Rule) → same_rule s s ≡ true
        same_self none = refl
        same_self (some s) = ground arith

    before : (lo li : Lead) → Upto lo li → same_core li lo ≡ false → Before lo li
    before lo li (inr h) e = h
    before lo li (inl (r, p, q)) e =
        absurd (
          ground
            (arith, e, p, q, same_rule_refl li.rule lo.rule (distinct li.rule lo.rule (sym r))))

    merge_leads-Ascending_after :
        (p lo : Lead) (leads : List Lead)
        → Before p lo
        → CoresSorted (lo ∷ leads)
        → Ascending (p ∷ merge_leads lo leads)
    unfolding merge_leads
    merge_leads-Ascending_after p lo [] h sorted = (h, tt)
    merge_leads-Ascending_after p lo (li ∷ leads) h (le, sorted) =
        elim (Bool-cases (same_core li lo)) [
          | inl e ↦
              rw (e, merge_leads)
                (merge_leads-Ascending_after p (merged lo li) leads h
                  (rejoin lo li (token_set_merge lo.terminals li.terminals) leads e sorted))
          | inr e ↦
              rw (e, merge_leads)
                (h, merge_leads-Ascending_after lo li leads (before lo li le e) sorted)
        ]

    merge_leads-Ascending :
        (lo : Lead) (leads : List Lead)
        → CoresSorted (lo ∷ leads)
        → Ascending (merge_leads lo leads)
    unfolding merge_leads
    merge_leads-Ascending lo [] sorted = tt
    merge_leads-Ascending lo (li ∷ leads) (le, sorted) = elim (Bool-cases (same_core li lo)) [
      | inl e ↦
          rw (e, merge_leads)
            (merge_leads-Ascending (merged lo li) leads
              (rejoin lo li (token_set_merge lo.terminals li.terminals) leads e sorted))
      | inr e ↦
          rw (e, merge_leads) (merge_leads-Ascending_after lo li leads (before lo li le e) sorted)
    ]

    merge_sorted-Ascending :
        (leads : List Lead) → CoresSorted leads → Ascending (merge_sorted leads)
    unfolding merge_sorted
    merge_sorted-Ascending [] sorted = tt
    merge_sorted-Ascending (lo ∷ leads) sorted = merge_leads-Ascending lo leads sorted

    -- If no two rules have one address and the array that qsort leaves is sorted by compare_leads,
    -- the cores of the consolidated leads strictly ascend from each lead to the next.
    pub consolidate_leads-Ascending :
        (qsort : List Lead → List Lead) (leads : List Lead)
        → Sorted (qsort leads)
        → Ascending (consolidate_leads qsort leads)
    unfolding consolidate_leads
    consolidate_leads-Ascending qsort leads sorted =
        merge_sorted-Ascending (qsort leads) (Sorted-CoresSorted (qsort leads) sorted)
