-- ===== src/Generator/Settled.antt =====
-- src/parser_generator.c, gather_states: the loop over the leads of a state handles every lead.
use low.Prelude.{
  ℕ, zero, suc, ◌+◌, ◌≤◌, ◌<◌, ◌≡◌, refl, sym, ap, ◌∙◌, arith, true, false, List, [], ◌∷◌, Option,
  none, some, get_elem?, map, length, replicate, inl, inr, ◌⊎◌,
}
use mathlib.Core.Path.{subst}
use low.Reduce.Kinds.{All}
use low.Grammar.Symbols.{Symbol}
use low.Generator.Leads.{Lead}
use low.Generator.Exact.{IsLead}
use low.Generator.Members.{In}
use low.Generator.States.{
  LeadState, equal_symbols, advanced, next_symbol, gather_state, gather_each, handle_leads,
}
use low.Generator.Handling.{handle_leads-handle_each}
use low.Generator.Symbols.{with_symbol, seen, new_symbols, handle_each}
use low.Generator.Acts.{Extends, Extends-same, Extends-Extends}
use low.Generator.Handled.{Moves}
use low.Generator.Named.{new_symbols-each, new_symbols-Found, with_symbol_same, HasTransition-same}
use low.Generator.Acted.{Acted, Acted-Extends, handle_symbol-Acted}

module _ (qsort : List Lead → List Lead) (i : ℕ) where
  Acted-same :
      (leads : List Lead) (x y : Option Symbol) (states : List LeadState)
      → equal_symbols y x ≡ true
      → Acted qsort i leads y states
      → Acted qsort i leads x states
  Acted-same leads none none states e h = h
  Acted-same leads none (some y) states e h = absurd (cc e)
  Acted-same leads (some x) none states e h = absurd (cc e)
  Acted-same leads (some x) (some y) states e (out, k, called, has, moves) =
      subst (λ ls. Moves qsort i x (map advanced ls) states)
        (with_symbol_same (some x) (some y) leads e)
        (out, k, called, has, HasTransition-same i x y k states e moves)

  handle_each-Acted :
      (leads : List Lead) (xs : List (Option Symbol)) (states : List LeadState) (s : LeadState)
      → get_elem? states i ≡ some s
      → All IsLead leads
      → length (with_symbol none leads) ≤ 1
      → ((x : Option Symbol) → In x xs → (l : Lead) × In l leads × (next_symbol l ≡ x))
      → (states' : List LeadState) × (handle_each qsort i leads xs states ≡ some states')
        × Extends states states'
        × ((x : Option Symbol) → In x xs → Acted qsort i leads x states')
  unfolding handle_each
  handle_each-Acted leads [] states s e is one each =
      (states, refl, Extends-same states, λ x h. absurd h)
  handle_each-Acted leads (x ∷ xs) states s e is one each =
      let (l, h, q) = each x (inl refl) in
      let (states', run, grown, acted) =
        handle_symbol-Acted qsort i x leads states s l e is one h q in
      let (s', e', stays) = grown.stays i s e in
      let (states'', runs, more, others) =
        handle_each-Acted leads xs states' s' e' is one (λ y k. each y (inr k)) in
      (
        states'',
        rw run runs,
        Extends-Extends states states' states'' grown more,
        λ y k. elim k [
          | inl p ↦
              subst (λ z. Acted qsort i leads z states'') (sym p)
                (Acted-Extends qsort i leads x states' states'' more acted)
          | inr there ↦ others y there
        ],
      )

  unhandled :
      (leads : List Lead)
      → map (λ l. seen [] (next_symbol l)) leads ≡ replicate (length leads) false
  unfolding seen
  unhandled [] = refl
  unhandled (l ∷ leads) = ap (λ bs. false ∷ bs) (unhandled leads)

  pub gather_state-handle_each :
      (states : List LeadState) (s : LeadState)
      → get_elem? states i ≡ some s
      → gather_state qsort i states ≡ handle_each qsort i s.leads (new_symbols [] s.leads) states
  unfolding gather_state
  gather_state-handle_each states s e =
      ap
        (λ o. elim o [
          | none ↦ none
          | some c ↦ handle_leads qsort i c.leads (replicate (length c.leads) false) states
        ])
        e
      ∙ ap (λ bs. handle_leads qsort i s.leads bs states) (sym (unhandled s.leads))
      ∙ handle_leads-handle_each qsort i [] [] s.leads states tt

-- One state, of whose leads one at most is complete.
pub gather_state-Acted :
    (qsort : List Lead → List Lead) (i : ℕ) (states : List LeadState) (s : LeadState)
    → get_elem? states i ≡ some s
    → All IsLead s.leads
    → length (with_symbol none s.leads) ≤ 1
    → (states' : List LeadState) × (gather_state qsort i states ≡ some states')
      × Extends states states'
      × ((l : Lead) → In l s.leads → Acted qsort i s.leads (next_symbol l) states')
unfolding seen
gather_state-Acted qsort i states s e is one =
    let (states', run, grown, acted) =
      handle_each-Acted qsort i s.leads (new_symbols [] s.leads) states s e is one
        (λ x h. new_symbols-each [] s.leads x h) in
    (
      states',
      gather_state-handle_each qsort i states s e ∙ run,
      grown,
      λ l h. elim (new_symbols-Found [] s.leads l h) [
        | inl q ↦ absurd (cc q)
        | inr (y, there, q) ↦ Acted-same qsort i s.leads (next_symbol l) y states' q (acted y there)
      ],
    )

-- A state with leads that can be handled: their variants are those that their pointers point to, and
-- one at most is complete.
abbrev pub Ready : ℕ → List LeadState → Type 0
Ready i states =
    (s : LeadState) × (get_elem? states i ≡ some s)
    × All IsLead s.leads
    × (length (with_symbol none s.leads) ≤ 1)

-- A state of which each lead has its action.
abbrev pub Settled : (List Lead → List Lead) → ℕ → List LeadState → Type 0
Settled qsort i states =
    (s : LeadState) × (get_elem? states i ≡ some s)
    × ((l : Lead) → In l s.leads → Acted qsort i s.leads (next_symbol l) states)

pub Ready-Extends :
    (i : ℕ) (states states' : List LeadState)
    → Extends states states'
    → Ready i states
    → Ready i states'
Ready-Extends i states states' x (s, e, is, one) =
    let (s', e', stays) = x.stays i s e in
    (
      s',
      e',
      subst (λ ls. All IsLead ls) (sym stays.leads) is,
      subst (λ ls. length (with_symbol none ls) ≤ 1) (sym stays.leads) one,
    )

pub Settled-Extends :
    (qsort : List Lead → List Lead) (i : ℕ) (states states' : List LeadState)
    → Extends states states'
    → Settled qsort i states
    → Settled qsort i states'
Settled-Extends qsort i states states' x (s, e, acted) =
    let (s', e', stays) = x.stays i s e in
    (
      s',
      e',
      subst (λ ls. (l : Lead) → In l ls → Acted qsort i ls (next_symbol l) states')
          (sym stays.leads)
          (λ l h. Acted-Extends qsort i s.leads (next_symbol l) states states' x (acted l h)),
    )

-- For `count` states from `index` on, each with leads whose variants are those that their pointers point
-- to and of which one at most is complete, with any sort: the loop of gather_states handles them without
-- a failed assertion; the leads and the actions that the states had stay; and of each of them, for each
-- of its leads, the state then moves with the next symbol of the lead, to a state with what is called
-- for by its leads with that symbol, each one element further, and merged; or, if the lead is complete,
-- reduces it on its tokens.
pub gather_each-Settled :
    (qsort : List Lead → List Lead) (index count : ℕ) (states : List LeadState)
    → ((k : ℕ) → index ≤ k → k < index + count → Ready k states)
    → (states' : List LeadState) × (gather_each qsort index count states ≡ some states')
      × Extends states states'
      × ((k : ℕ) → index ≤ k → k < index + count → Settled qsort k states')
unfolding gather_each
gather_each-Settled qsort index zero states ready =
    (states, refl, Extends-same states, λ k h h'. absurd (omega (arith, h, h')))
gather_each-Settled qsort index (suc count) states ready =
    let (s, e, is, one) = ready index (omega arith) (omega arith) in
    let (states', run, grown, acted) = gather_state-Acted qsort index states s e is one in
    let (s', e', stays) = grown.stays index s e in
    let here : Settled qsort index states' = (
      s',
      e',
      subst (λ ls. (l : Lead) → In l ls → Acted qsort index ls (next_symbol l) states')
          (sym stays.leads) acted,
    ) in
    let (states'', runs, more, rest) =
      gather_each-Settled qsort (suc index) count states' (λ k h h'.
        Ready-Extends k states states' grown (ready k (omega (arith, h)) (omega (arith, h')))) in
    (
      states'',
      rw run runs,
      Extends-Extends states states' states'' grown more,
      λ k h h'. elim (split k h) [
        | inl q ↦
            subst (λ n. Settled qsort n states'') q
              (Settled-Extends qsort index states' states'' more here)
        | inr later ↦ rest k later (omega (arith, h'))
      ],
    )
  where
    split : (k : ℕ) → index ≤ k → (index ≡ k) ⊎ (suc index ≤ k)
    split k h = ground (arith, h)
