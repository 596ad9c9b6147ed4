-- ===== src/Generator/Acted.antt =====
-- src/parser_generator.c, gather_states: each lead of a state has its action.
use low.Prelude.{
  ℕ, suc, ◌≤◌, ◌<◌, ◌≡◌, refl, sym, ap, ◌∙◌, arith, Bool, true, false, List, [], ◌∷◌, Option, none,
  some, get_elem?, map, length, ltb, inl, inr,
}
use mathlib.Core.Path.{subst}
use low.Reduce.Kinds.{All}
use low.Grammar.Symbols.{Symbol}
use low.Generator.Leads.{Lead}
use low.Generator.Exact.{IsLead}
use low.Generator.Members.{In}
use low.Generator.States.{
  LeadState, equal_symbols, advanced, next_symbol, reduction, handle_symbol, add_reductions,
  add_shift,
}
use low.Generator.Symbols.{with_symbol, shift_leads_of, reduce_leads_of, equal_symbols_refl, add_if}
use low.Generator.Acts.{
  Extends, Extends-add_reductions, HasToken, HasToken-Extends, HasToken-add_reductions,
}
use low.Generator.Handled.{Moves, Moves-Extends, add_shift-Moves}

with_symbol-In :
    (x : Option Symbol) (leads : List Lead) (l : Lead)
    → In l leads
    → equal_symbols x (next_symbol l) ≡ true
    → In l (with_symbol x leads)
unfolding with_symbol
with_symbol-In x [] l h e = absurd h
with_symbol-In x (m ∷ leads) l (inl q) e =
    subst (λ b. In l (add_if b m (with_symbol x leads))) (sym e') (inl q)
  where
    e' : equal_symbols x (next_symbol m) ≡ true
    e' = ap (λ n. equal_symbols x (next_symbol n)) (sym q) ∙ e
with_symbol-In x (m ∷ leads) l (inr h) e =
    either (equal_symbols x (next_symbol m)) (with_symbol-In x leads l h e)
  where
    either : (b : Bool) → In l (with_symbol x leads) → In l (add_if b m (with_symbol x leads))
    either true k = inr k
    either false k = k

with_symbol-IsLead :
    (x : Option Symbol) (leads : List Lead) → All IsLead leads → All IsLead (with_symbol x leads)
unfolding with_symbol
with_symbol-IsLead x [] h = tt
with_symbol-IsLead x (m ∷ leads) (h, hs) =
    either (equal_symbols x (next_symbol m)) (with_symbol-IsLead x leads hs)
  where
    either :
        (b : Bool)
        → All IsLead (with_symbol x leads)
        → All IsLead (add_if b m (with_symbol x leads))
    either true k = (h, k)
    either false k = k

advanced-IsLead : (leads : List Lead) → All IsLead leads → All IsLead (map advanced leads)
advanced-IsLead [] h = tt
advanced-IsLead (l ∷ leads) (h, hs) = (h, advanced-IsLead leads hs)

some_In : (leads : List Lead) (l : Lead) → In l leads → 0 < length leads
some_In [] l h = absurd h
some_In (m ∷ leads) l h = omega arith

length-advanced : (leads : List Lead) → length (map advanced leads) ≡ length leads
length-advanced [] = refl
length-advanced (l ∷ leads) = ap suc (length-advanced leads)

pub shift_leads-IsLead :
    (x : Symbol) (leads : List Lead) → All IsLead leads → All IsLead (shift_leads_of (some x) leads)
shift_leads-IsLead x leads is =
    advanced-IsLead (with_symbol (some x) leads) (with_symbol-IsLead (some x) leads is)

pub some_shift_leads :
    (x : Symbol) (leads : List Lead) (l : Lead)
    → In l leads
    → next_symbol l ≡ some x
    → 0 < length (shift_leads_of (some x) leads)
some_shift_leads x leads l h n =
    let has =
      with_symbol-In (some x) leads l h
        (ap (equal_symbols (some x)) n ∙ equal_symbols_refl (some x)) in
    subst (λ n. 0 < n) (sym (length-advanced (with_symbol (some x) leads)))
      (some_In (with_symbol (some x) leads) l has)

pub some_reduce_leads :
    (leads : List Lead) (l : Lead)
    → In l leads
    → next_symbol l ≡ none
    → 0 < length (with_symbol none leads)
some_reduce_leads leads l h n =
    some_In (with_symbol none leads) l (with_symbol-In none leads l h (ap (equal_symbols none) n))

module _ (qsort : List Lead → List Lead) where
  -- What a state does with a symbol: it moves with the leads that have it, or reduces each lead that
  -- is complete.
  abbrev pub Acted : ℕ → List Lead → Option Symbol → List LeadState → Type 0
  Acted i leads (some x) states = Moves qsort i x (shift_leads_of (some x) leads) states
  Acted i leads none states =
      (l : Lead) → In l leads → next_symbol l ≡ none → HasToken i (reduction l) states

  pub Acted-Extends :
      (i : ℕ) (leads : List Lead) (x : Option Symbol) (states states' : List LeadState)
      → Extends states states'
      → Acted i leads x states
      → Acted i leads x states'
  Acted-Extends i leads (some x) states states' e h =
      Moves-Extends qsort i x (shift_leads_of (some x) leads) states states' e h
  Acted-Extends i leads none states states' e h =
      λ l m n. HasToken-Extends i (reduction l) states states' e (h l m n)

  abbrev Acts : ℕ → List Lead → Option Symbol → List LeadState → Type 0
  Acts i leads x states =
      (states' : List LeadState) × (handle_symbol qsort i x (shift_leads_of x leads)
          (reduce_leads_of x leads) states
        ≡ some states')
      × Extends states states'
      × Acted i leads x states'

  pub handle_shift :
      (i : ℕ) (x : Option Symbol) (leads : List Lead) (states : List LeadState)
      → 0 < length leads
      → handle_symbol qsort i x leads [] states ≡ add_shift qsort i x leads states
  unfolding add_reductions
  handle_shift i x [] states h = absurd (omega (arith, h))
  handle_shift i x (l ∷ leads) states h =
      let e : ltb 0 (suc (length leads)) ≡ true = ground arith in
      rw (e, handle_symbol, add_reductions) refl

  pub handle_reduce :
      (i : ℕ) (leads : List Lead) (states : List LeadState)
      → 0 < length leads
      → length leads ≤ 1
      → handle_symbol qsort i none [] leads states ≡ some (add_reductions i leads states)
  unfolding add_shift
  handle_reduce i [] states h k = absurd (omega (arith, h))
  handle_reduce i (l ∷ []) states h k = refl
  handle_reduce i (l ∷ (m ∷ leads)) states h k = absurd (omega (arith, k))

  -- The symbol of a lead.
  pub handle_symbol-Acted :
      (i : ℕ) (x : Option Symbol) (leads : List Lead) (states : List LeadState) (s : LeadState)
      (l : Lead)
      → get_elem? states i ≡ some s
      → All IsLead leads
      → length (with_symbol none leads) ≤ 1
      → In l leads
      → next_symbol l ≡ x
      → Acts i leads x states
  handle_symbol-Acted i (some x) leads states s l e is one h n =
      let long = some_shift_leads x leads l h n in
      let (states', run, grown, moves) =
        add_shift-Moves qsort i x (shift_leads_of (some x) leads) states s e long
          (shift_leads-IsLead x leads is) in
      (
        states',
        handle_shift i (some x) (shift_leads_of (some x) leads) states long ∙ run,
        grown,
        moves,
      )
  handle_symbol-Acted i none leads states s l e is one h n =
      let has = λ (m : Lead) (k : In m leads) (q : next_symbol m ≡ none).
        with_symbol-In none leads m k (ap (equal_symbols none) q) in
      (
        add_reductions i (with_symbol none leads) states,
        handle_reduce i (with_symbol none leads) states (some_reduce_leads leads l h n) one,
        Extends-add_reductions i (with_symbol none leads) states,
        λ m k q. HasToken-add_reductions i (with_symbol none leads) states s m e (has m k q),
      )
