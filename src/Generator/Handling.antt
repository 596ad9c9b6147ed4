-- ===== src/Generator/Handling.antt =====
-- src/parser_generator.c, gather_states: the loop over the leads goes over their symbols.
use low.Prelude.{
  ℕ, ◌≡◌, refl, sym, ap, ◌∙◌, true, false, List, [], ◌∷◌, ◌++◌, Option, none, some, map, Bool-cases,
  inl, inr,
}
use low.Grammar.Symbols.{Symbol}
use low.Generator.Leads.{Lead}
use low.Generator.States.{
  LeadState, next_symbol, advanced, ScannedLeads, scan_leads, handle_symbol, handled_behind,
  handle_leads, after_symbol,
}
use low.Generator.Symbols.{
  shift_leads_of, reduce_leads_of, seen, new_symbols, handle_each, flags, scan_leads-scanned_for,
  with_symbol-seen, AllSeen, AllSeen-next, AllSeen-old, ++_next,
}

shift_leads_of-seen :
    (xs : List (Option Symbol)) (base : Option Symbol) (before leads : List Lead)
    → seen xs base ≡ false
    → AllSeen xs before
    → shift_leads_of base (before ++ leads) ≡ shift_leads_of base leads
shift_leads_of-seen xs none before leads n h = refl
shift_leads_of-seen xs (some x) before leads n h =
    ap (map advanced) (with_symbol-seen xs (some x) before leads n h)

reduce_leads_of-seen :
    (xs : List (Option Symbol)) (base : Option Symbol) (before leads : List Lead)
    → seen xs base ≡ false
    → AllSeen xs before
    → reduce_leads_of base (before ++ leads) ≡ reduce_leads_of base leads
reduce_leads_of-seen xs none before leads n h = with_symbol-seen xs none before leads n h
reduce_leads_of-seen xs (some x) before leads n h = refl

new_symbols_old :
    (xs : List (Option Symbol)) (l : Lead) (leads : List Lead)
    → seen xs (next_symbol l) ≡ true
    → new_symbols xs (l ∷ leads) ≡ new_symbols xs leads
unfolding new_symbols
new_symbols_old xs l leads e = rw (e, new_symbols) refl

new_symbols_new :
    (xs : List (Option Symbol)) (l : Lead) (leads : List Lead)
    → seen xs (next_symbol l) ≡ false
    → new_symbols xs (l ∷ leads) ≡ next_symbol l ∷ new_symbols (next_symbol l ∷ xs) leads
unfolding new_symbols
new_symbols_new xs l leads e = rw (e, new_symbols) refl

module _ (qsort : List Lead → List Lead) (i : ℕ) where
  after_symbol_eq :
      (f g : List LeadState → Option (List LeadState)) (o : Option (List LeadState))
      → ((states : List LeadState) → f states ≡ g states)
      → after_symbol f o ≡ after_symbol g o
  after_symbol_eq f g none h = refl
  after_symbol_eq f g (some states) h = h states

  handle_new :
      (xs : List (Option Symbol)) (l : Lead) (leads : List Lead) (states : List LeadState)
      → seen xs (next_symbol l) ≡ false
      → handle_leads qsort i (l ∷ leads) (flags xs (l ∷ leads)) states
        ≡ after_symbol
            (λ states'. handle_leads qsort i leads (flags (next_symbol l ∷ xs) leads) states')
            (handle_symbol qsort i
              (next_symbol l)
              (shift_leads_of (next_symbol l) (l ∷ leads))
              (reduce_leads_of (next_symbol l) (l ∷ leads))
              states)
  unfolding handle_leads
  handle_new xs l leads states n =
      ap (λ b. handle_leads qsort i (l ∷ leads) (b ∷ flags xs leads) states) n
      ∙ ap
          (λ s.
            after_symbol (λ states'. handle_leads qsort i leads (handled_behind s.handled) states')
              (handle_symbol qsort i (next_symbol l) (ScannedLeads.shift_leads s)
                (ScannedLeads.reduce_leads s) states))
          (ap (λ b. scan_leads (next_symbol l) (l ∷ leads) (b ∷ flags xs leads)) (sym n)
            ∙ scan_leads-scanned_for xs (next_symbol l) (l ∷ leads) n)

  handle_old :
      (xs : List (Option Symbol)) (l : Lead) (leads : List Lead) (states : List LeadState)
      → seen xs (next_symbol l) ≡ true
      → handle_leads qsort i (l ∷ leads) (flags xs (l ∷ leads)) states
        ≡ handle_leads qsort i leads (flags xs leads) states
  unfolding handle_leads
  handle_old xs l leads states e =
      ap (λ b. handle_leads qsort i (l ∷ leads) (b ∷ flags xs leads) states) e

  -- One symbol, with the leads of the whole state.
  handle_all :
      (xs : List (Option Symbol)) (x : Option Symbol) (before leads : List Lead)
      (states : List LeadState)
      → seen xs x ≡ false
      → AllSeen xs before
      → handle_symbol qsort i x (shift_leads_of x leads) (reduce_leads_of x leads) states
        ≡ handle_symbol qsort i x
            (shift_leads_of x (before ++ leads))
            (reduce_leads_of x (before ++ leads))
            states
  handle_all xs x before leads states n h =
      ap (λ ls. handle_symbol qsort i x ls (reduce_leads_of x leads) states)
        (sym (shift_leads_of-seen xs x before leads n h))
      ∙ ap (λ ls. handle_symbol qsort i x (shift_leads_of x (before ++ leads)) ls states)
          (sym (reduce_leads_of-seen xs x before leads n h))

  pub handle_leads-handle_each :
      (xs : List (Option Symbol)) (before leads : List Lead) (states : List LeadState)
      → AllSeen xs before
      → handle_leads qsort i leads (flags xs leads) states
        ≡ handle_each qsort i (before ++ leads) (new_symbols xs leads) states
  unfolding handle_leads handle_each new_symbols
  handle_leads-handle_each xs before [] states h = refl
  handle_leads-handle_each xs before (l ∷ leads) states h =
      elim (Bool-cases (seen xs (next_symbol l))) [
        | inl e ↦
            handle_old xs l leads states e
            ∙ handle_leads-handle_each xs (before ++ (l ∷ [])) leads states
                (AllSeen-old xs before l h e)
            ∙ ap (λ ls. handle_each qsort i ls (new_symbols xs leads) states)
                (++_next before leads l)
            ∙ ap (λ ys. handle_each qsort i (before ++ (l ∷ leads)) ys states)
                (sym (new_symbols_old xs l leads e))
        | inr e ↦
            handle_new xs l leads states e
            ∙ after_symbol_eq _ _ _ (λ states'.
              handle_leads-handle_each (next_symbol l ∷ xs) (before ++ (l ∷ [])) leads states'
                (AllSeen-next xs before l h)
              ∙ ap (λ ls. handle_each qsort i ls (new_symbols (next_symbol l ∷ xs) leads) states')
                  (++_next before leads l))
            ∙ ap
                (after_symbol (λ states'.
                  handle_each qsort i (before ++ (l ∷ leads))
                    (new_symbols (next_symbol l ∷ xs) leads) states'))
                (handle_all xs (next_symbol l) before (l ∷ leads) states e h)
            ∙ ap (λ ys. handle_each qsort i (before ++ (l ∷ leads)) ys states)
                (sym (new_symbols_new xs l leads e))
      ]
