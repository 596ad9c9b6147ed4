-- ===== src/Generator/Complete.antt =====
-- src/parser_generator.c, gather_states: it ends, and each state of the result has been handled.
use low.Prelude.{
  ℕ, zero, suc, ◌+◌, ◌-◌, ◌≤◌, ◌<◌, ◌≡◌, refl, sym, arith, true, ◌&&◌, List, [], ◌∷◌, some, length,
  ltb, leb, Bool-cases, inl, inr, ◌⊎◌,
}
use mathlib.Core.Path.{subst}
use low.Generator.Leads.{Lead}
use low.Generator.Members.{In}
use low.Generator.States.{LeadState, new_state, gather_states}
use low.Generator.Acts.{Extends, Extends-Extends}
use low.Generator.Settled.{Settled, Settled-Extends, gather_each-Settled}
use low.Generator.Pigeonhole.{Distinct-length}
use low.Generator.Preserved.{length-arrays_of, Among-Ready, gather_each-Among}
use low.Generator.Automaton.{IsAutomaton, arrays_of, Among}

-- The states before those that the loop has just handled, or one of these.
either :
    (qsort : List Lead → List Lead) (k : ℕ) (states out : List LeadState) (index count : ℕ)
    → ((j : ℕ) → j < index → Settled qsort j states)
    → Extends states out
    → ((j : ℕ) → index ≤ j → j < index + count → Settled qsort j out)
    → k < length states
    → index + count ≡ length states
    → Settled qsort k out
either qsort k states out index count settled grown done h e = elim (split k index) [
  | inl early ↦ Settled-Extends qsort k states out grown (settled k early)
  | inr late ↦ done k late (omega (arith, h, e))
]
  where
    split : (k index : ℕ) → (k < index) ⊎ (index ≤ k)
    split k index = ground arith

module _ (qsort : List Lead → List Lead) (arrays : List (List Lead))
    (automaton : IsAutomaton qsort arrays) where
  -- The states before `index` have been handled, and there is fuel for those that can still be new.
  gather_states-Settled_from :
      (fuel index count : ℕ) (states : List LeadState)
      → length arrays < fuel + length states
      → index < length states
      → index + count ≡ length states
      → Among arrays states
      → ((k : ℕ) → k < index → Settled qsort k states)
      → (out : List LeadState) × (gather_states qsort fuel states index count ≡ some out)
        × Extends states out
        × Among arrays out
        × ((k : ℕ) → k < length out → Settled qsort k out)
  unfolding gather_states
  gather_states-Settled_from zero index count states h i e a settled =
      absurd (
        omega
          (arith, h, Distinct-length (arrays_of states) arrays a.0 a.1, length-arrays_of states))
  gather_states-Settled_from (suc fuel) index count states h i e a settled =
      let ready = λ (k : ℕ) (g : index ≤ k) (g' : k < index + count).
        Among-Ready qsort arrays automaton k states (omega (arith, g', e)) a in
      let (out, run, grown, done) = gather_each-Settled qsort index count states ready in
      let a' = gather_each-Among qsort arrays automaton index count states out ready run a in
      let handled = λ (k : ℕ) (g : k < length states).
        either qsort k states out index count settled grown done g e in
      let guard : ltb index (length states) && leb (index + count) (length states) ≡ true =
        ground (arith, i, e) in
      elim (Bool-cases (ltb (length states) (length out))) [
        | inl more ↦
            let more' : length states < length out = ground (arith, more) in
            let (last, runs, grown', a'', all) =
              gather_states-Settled_from fuel (length states) (length out - length states) out
                (omega (arith, h, more')) more' (omega (arith, more')) a' handled in
            (
              last,
              rw (guard, gather_states) rw run rw more runs,
              Extends-Extends states out last grown grown',
              a'',
              all,
            )
        | inr same ↦
            let same' : length out ≤ length states = ground (arith, same) in
            (
              out,
              rw (guard, gather_states) rw run rw same refl,
              grown,
              a',
              λ k g. handled k (omega (arith, g, same')),
            )
      ]

-- For leads of an automaton, whose arrays of leads are finitely many, have variants that their pointers
-- point to and at most one complete lead each, and with any sort: from one state with such an array, and
-- with more calls in one another than there are arrays, gather_states ends without a failed assertion;
-- no two states then have the same array, and in each state each lead has its action: the state moves
-- with the next symbol of the lead, to a state with what is called for by its leads with that symbol,
-- each one element further, and merged, or reduces the lead on its tokens.
pub gather_states-Settled :
    (qsort : List Lead → List Lead) (arrays : List (List Lead)) (leads : List Lead) (fuel : ℕ)
    → IsAutomaton qsort arrays
    → In leads arrays
    → length arrays ≤ fuel
    → (out : List LeadState) × (gather_states qsort fuel (new_state leads ∷ []) 0 1 ≡ some out)
      × Extends (new_state leads ∷ []) out
      × Among arrays out
      × ((k : ℕ) → k < length out → Settled qsort k out)
gather_states-Settled qsort arrays leads fuel automaton h f =
    gather_states-Settled_from qsort arrays automaton fuel 0 1 (new_state leads ∷ [])
      (omega (arith, f)) (omega arith) refl
      (
        (λ k. k, tt),
        λ m k. elim k [ inl q ↦ subst (λ ls. In ls arrays) (sym q) h | inr none' ↦ absurd none' ],
      )
      (λ k g. absurd (omega (arith, g)))
