-- ===== src/Generator/Preserved.antt =====
-- src/parser_generator.c, gather_states: the states stay among those of the automaton, each once.
use low.Prelude.{
  ℕ, zero, suc, ◌+◌, ◌≤◌, ◌<◌, ◌≡◌, refl, sym, ap, ◌∙◌, arith, List, [], ◌∷◌, Option, none, some,
  get_elem?, length, inl, inr,
}
use mathlib.Core.Path.{subst}
use low.Grammar.Symbols.{Symbol}
use low.Generator.Leads.{Lead, consolidate_leads}
use low.Generator.Gather.{lead_bound}
use low.Generator.Exact.{gather_leads-Called}
use low.Generator.Members.{In}
use low.Generator.States.{
  LeadState, next_symbol, change_at, add_transition, add_reductions, find_state, found_or_new,
  handle_symbol, gather_state, gather_each, after_symbol,
}
use low.Generator.Symbols.{with_symbol, shift_leads_of, reduce_leads_of, new_symbols, handle_each}
use low.Generator.Acts.{Extends}
use low.Generator.Handled.{add_shift_eq}
use low.Generator.Acted.{
  shift_leads-IsLead, some_shift_leads, some_reduce_leads, handle_shift, handle_reduce,
}
use low.Generator.Named.{new_symbols-each}
use low.Generator.Settled.{Ready, Ready-Extends, gather_state-Acted, gather_state-handle_each}
use low.Generator.Automaton.{
  IsAutomaton, arrays_of, Among, Among-same, arrays_of-change_at, leads-add_transition,
  arrays_of-add_reductions, found_or_new-Among,
}

after_symbol-some :
    (go : List LeadState → Option (List LeadState)) (o : Option (List LeadState))
    (out : List LeadState)
    → after_symbol go o ≡ some out
    → (states : List LeadState) × (o ≡ some states) × (go states ≡ some out)
after_symbol-some go none out h = absurd (cc h)
after_symbol-some go (some states) out h = (states, refl, h)

In-arrays_of :
    (states : List LeadState) (i : ℕ) (s : LeadState)
    → get_elem? states i ≡ some s
    → In s.leads (arrays_of states)
In-arrays_of [] i s e = absurd (cc e)
In-arrays_of (c ∷ states) zero s e = let q : c ≡ s = cc e in inl (ap LeadState.leads (sym q))
In-arrays_of (c ∷ states) (suc i) s e = inr (In-arrays_of states i s e)

pub length-arrays_of : (states : List LeadState) → length (arrays_of states) ≡ length states
length-arrays_of [] = refl
length-arrays_of (s ∷ states) = ap suc (length-arrays_of states)

below :
    (states : List LeadState) (i : ℕ)
    → i < length states
    → (s : LeadState) × (get_elem? states i ≡ some s)
below [] i h = absurd (omega (arith, h))
below (s ∷ states) zero h = (s, refl)
below (s ∷ states) (suc i) h = below states i (omega (arith, h))

module _ (qsort : List Lead → List Lead) (arrays : List (List Lead))
    (automaton : IsAutomaton qsort arrays) where
  handle_symbol-Among :
      (i : ℕ) (x : Option Symbol) (leads : List Lead) (states out : List LeadState) (l : Lead)
      → In leads arrays
      → In l leads
      → next_symbol l ≡ x
      → handle_symbol qsort i x (shift_leads_of x leads) (reduce_leads_of x leads) states ≡ some out
      → Among arrays states
      → Among arrays out
  handle_symbol-Among i none leads states out l h m n run a =
      let one = automaton.one_complete leads h in
      let e : ◌≡◌ {A = Option (List LeadState)}
          (some (add_reductions i (with_symbol none leads) states)) (some out) =
        sym (
          handle_reduce qsort i (with_symbol none leads) states (some_reduce_leads leads l m n) one)
        ∙ run in
      let q : add_reductions i (with_symbol none leads) states ≡ out = cc e in
      Among-same arrays states out
        (ap arrays_of (sym q) ∙ arrays_of-add_reductions i (with_symbol none leads) states) a
  handle_symbol-Among i (some x) leads states out l h m n run a =
      let shift_leads = shift_leads_of (some x) leads in
      let long = some_shift_leads x leads l m n in
      let (gathered, found, called) =
        gather_leads-Called (lead_bound (length shift_leads)) shift_leads (omega arith) long
          (shift_leads-IsLead x leads (automaton.leads_IsLead leads h)) in
      let array = consolidate_leads qsort gathered in
      let r = found_or_new (find_state array states) array states in
      let e : ◌≡◌ {A = Option (List LeadState)}
          (some (change_at i (add_transition (some x) r.0) r.1)) (some out) =
        sym (
          handle_shift qsort i (some x) shift_leads states long
          ∙ add_shift_eq qsort i (some x) shift_leads gathered states long found)
        ∙ run in
      let q : change_at i (add_transition (some x) r.0) r.1 ≡ out = cc e in
      Among-same arrays r.1 out
        (ap arrays_of (sym q)
          ∙ arrays_of-change_at i (add_transition (some x) r.0) r.1
              (leads-add_transition (some x) r.0))
        (found_or_new-Among arrays array states (find_state array states) refl
          (automaton.next leads l x gathered h m n found) a)

  handle_each-Among :
      (i : ℕ) (leads : List Lead) (xs : List (Option Symbol)) (states out : List LeadState)
      → In leads arrays
      → ((x : Option Symbol) → In x xs → (l : Lead) × In l leads × (next_symbol l ≡ x))
      → handle_each qsort i leads xs states ≡ some out
      → Among arrays states
      → Among arrays out
  unfolding handle_each
  handle_each-Among i leads [] states out h each run a =
      let q : states ≡ out = cc run in subst (Among arrays) q a
  handle_each-Among i leads (x ∷ xs) states out h each run a =
      let (between, first, rest) = after_symbol-some _ _ out run in
      let (l, m, n) = each x (inl refl) in
      handle_each-Among i leads xs between out h (λ y k. each y (inr k)) rest
        (handle_symbol-Among i x leads states between l h m n first a)

  gather_state-Among :
      (i : ℕ) (states out : List LeadState) (s : LeadState)
      → get_elem? states i ≡ some s
      → gather_state qsort i states ≡ some out
      → Among arrays states
      → Among arrays out
  gather_state-Among i states out s e run a =
      handle_each-Among i s.leads (new_symbols [] s.leads) states out
        (a.1 s.leads (In-arrays_of states i s e)) (λ x h. new_symbols-each [] s.leads x h)
        (sym (gather_state-handle_each qsort i states s e) ∙ run) a

  -- Every state of the array has leads that can be handled.
  pub Among-Ready :
      (i : ℕ) (states : List LeadState) → i < length states → Among arrays states → Ready i states
  Among-Ready i states h a =
      let (s, e) = below states i h in
      let member = a.1 s.leads (In-arrays_of states i s e) in
      (s, e, automaton.leads_IsLead s.leads member, automaton.one_complete s.leads member)

  pub gather_each-Among :
      (index count : ℕ) (states out : List LeadState)
      → ((k : ℕ) → index ≤ k → k < index + count → Ready k states)
      → gather_each qsort index count states ≡ some out
      → Among arrays states
      → Among arrays out
  unfolding gather_each
  gather_each-Among index zero states out ready run a =
      let q : states ≡ out = cc run in subst (Among arrays) q a
  gather_each-Among index (suc count) states out ready run a =
      let (s, e, is, one) = ready index (omega arith) (omega arith) in
      let (between, first, rest) = after_symbol-some _ _ out run in
      let (between', first', grown, acted) = gather_state-Acted qsort index states s e is one in
      let same : ◌≡◌ {A = Option (List LeadState)} (some between') (some between) =
        sym first' ∙ first in
      let q : between' ≡ between = cc same in
      gather_each-Among (suc index) count between out
        (λ k h h'.
          Ready-Extends k states between (subst (Extends states) q grown)
            (ready k (omega (arith, h)) (omega (arith, h'))))
        rest (gather_state-Among index states between s e first a)
