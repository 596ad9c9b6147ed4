-- ===== src/Generator/Automaton.antt =====
-- src/parser_generator.c, gather_states: the states are among those of the automaton, each once.
use low.Prelude.{
  ℕ, zero, suc, ◌≤◌, ◌≡◌, refl, sym, ap, ◌∙◌, Bool, true, false, List, [], ◌∷◌, ◌++◌, Option, none,
  some, map, length, inl, inr,
}
use mathlib.Core.Path.{subst}
use low.Reduce.Kinds.{All}
use low.Grammar.Symbols.{Symbol, tkn, sub}
use low.Generator.Leads.{Lead, consolidate_leads}
use low.Generator.Gather.{gather_leads, lead_bound}
use low.Generator.Exact.{IsLead}
use low.Generator.Members.{In}
use low.Generator.States.{
  LeadState, next_symbol, change_at, add_token_action, add_transition, reduction, add_reductions,
  find_state, found_or_new, equal_set_of_leads,
}
use low.Generator.Symbols.{with_symbol, shift_leads_of}
use low.Generator.Handled.{equal_set_of_leads_same}
use low.Generator.Bits.{In-append}
use low.Generator.Pigeonhole.{Distinct, Distinct-append_one}

-- Arrays of leads that the grammar allows: of each array, the variants are those that the pointers
-- point to, and one lead at most is complete; and with an array, there is what the leads with a next
-- symbol call for, one element further, sorted and merged.
pub record IsAutomaton (qsort : List Lead → List Lead) (arrays : List (List Lead)) : Type 0 where
  pub leads_IsLead : (leads : List Lead) → In leads arrays → All IsLead leads
  pub one_complete : (leads : List Lead) → In leads arrays → length (with_symbol none leads) ≤ 1
  pub next :
      (leads : List Lead) (l : Lead) (x : Symbol) (out : List Lead)
      → In leads arrays
      → In l leads
      → next_symbol l ≡ some x
      → gather_leads
          (lead_bound (length (shift_leads_of (some x) leads)))
          (shift_leads_of (some x) leads)
          0
          (length (shift_leads_of (some x) leads))
        ≡ some out
      → In (consolidate_leads qsort out) arrays

abbrev pub arrays_of : List LeadState → List (List Lead)
arrays_of states = map LeadState.leads states

abbrev pub Among : List (List Lead) → List LeadState → Type 0
Among arrays states =
    Distinct (arrays_of states)
    × ((leads : List Lead) → In leads (arrays_of states) → In leads arrays)

pub arrays_of-change_at :
    (i : ℕ) (f : LeadState → LeadState) (states : List LeadState)
    → ((c : LeadState) → LeadState.leads (f c) ≡ c.leads)
    → arrays_of (change_at i f states) ≡ arrays_of states
unfolding change_at
arrays_of-change_at i f [] h = refl
arrays_of-change_at zero f (s ∷ states) h = ap (λ ls. ls ∷ arrays_of states) (h s)
arrays_of-change_at (suc i) f (s ∷ states) h =
    ap (λ ls. s.leads ∷ ls) (arrays_of-change_at i f states h)

pub leads-add_transition :
    (x : Option Symbol) (k : ℕ) (c : LeadState) → LeadState.leads (add_transition x k c) ≡ c.leads
leads-add_transition none k c = refl
leads-add_transition (some (tkn t)) k c = refl
leads-add_transition (some (sub r)) k c = refl

pub arrays_of-add_reductions :
    (i : ℕ) (leads : List Lead) (states : List LeadState)
    → arrays_of (add_reductions i leads states) ≡ arrays_of states
unfolding add_reductions
arrays_of-add_reductions i [] states = refl
arrays_of-add_reductions i (l ∷ leads) states =
    arrays_of-add_reductions i leads _
    ∙ arrays_of-change_at i (add_token_action (reduction l)) states (λ c. refl)

find_state-none :
    (leads : List Lead) (states : List LeadState)
    → find_state leads states ≡ none
    → ¬ In leads (arrays_of states)
unfolding find_state
find_state-none leads [] e h = h
find_state-none leads (s ∷ states) e (inl q) =
    let same = ap (equal_set_of_leads leads) (sym q) ∙ equal_set_of_leads_same leads in
    let here : some 0 ≡ none = rw (same, find_state) at e in absurd (cc here)
find_state-none leads (s ∷ states) e (inr h) =
    find_state-none leads states
      (behind (equal_set_of_leads leads s.leads) (find_state leads states) refl e) h
  where
    behind :
        (b : Bool) (o : Option ℕ)
        → o ≡ find_state leads states
        → (elim b [ true ↦ some 0 | false ↦ elim o [ none ↦ none | some k ↦ some (suc k) ] ]) ≡ none
        → find_state leads states ≡ none
    behind true o q e = absurd (cc e)
    behind false none q e = sym q
    behind false (some k) q e = absurd (cc e)

arrays_of-append :
    (states : List LeadState) (s : LeadState)
    → arrays_of (states ++ (s ∷ [])) ≡ arrays_of states ++ (s.leads ∷ [])
arrays_of-append [] s = refl
arrays_of-append (c ∷ states) s = ap (λ ls. c.leads ∷ ls) (arrays_of-append states s)

pub Among-same :
    (arrays : List (List Lead)) (states states' : List LeadState)
    → arrays_of states' ≡ arrays_of states
    → Among arrays states
    → Among arrays states'
Among-same arrays states states' e h =
    subst (λ ls. Distinct ls × ((leads : List Lead) → In leads ls → In leads arrays)) (sym e) h

pub found_or_new-Among :
    (arrays : List (List Lead)) (leads : List Lead) (states : List LeadState) (o : Option ℕ)
    → find_state leads states ≡ o
    → In leads arrays
    → Among arrays states
    → Among arrays (found_or_new o leads states).1
found_or_new-Among arrays leads states (some k) e h a = a
found_or_new-Among arrays leads states none e h (distinct, each) =
    subst (λ ls. Distinct ls × ((m : List Lead) → In m ls → In m arrays))
      (sym (arrays_of-append states _))
      (
        Distinct-append_one (arrays_of states) leads distinct (find_state-none leads states e),
        λ m k. elim (In-append m (arrays_of states) (leads ∷ []) k) [
          | inl old ↦ each m old
          | inr (inl q) ↦ subst (λ ls. In ls arrays) (sym q) h
          | inr (inr none') ↦ absurd none'
        ],
      )
