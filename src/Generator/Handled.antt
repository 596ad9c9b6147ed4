-- ===== src/Generator/Handled.antt =====
-- src/parser_generator.c, gather_states: what is done for each symbol of a state.
use low.Prelude.{
  ℕ, suc, ◌<◌, ◌≡◌, refl, sym, arith, Bool, true, ◌&&◌, ◌==◌, List, [], ◌∷◌, Option, none, some,
  get_elem?, length, Bool-cases, inl, inr,
}
use mathlib.Core.Path.{subst}
use low.Reduce.Kinds.{All}
use low.Lexer.Token.{token_id}
use low.Grammar.Symbols.{Rule, Symbol, tkn, sub}
use low.Generator.Sets.{token_set_init, token_set_insert, equal_token_sets}
use low.Generator.Leads.{Lead, consolidate_leads, same_rule, equal_leads}
use low.Generator.Closed.{equal_token_sets_refl}
use low.Generator.Gather.{gather_leads, lead_bound, Called}
use low.Generator.Exact.{IsLead, gather_leads-Called}
use low.Generator.Members.{In, In-append_right}
use low.Generator.States.{
  LeadState, shifts, equal_set_of_leads, all_equal, change_at, add_transition, find_state,
  found_or_new, new_state, add_shift,
}
use low.Generator.Acts.{
  Extends, Extends-same, Extends-Extends, Extends-append, Extends-change_at, Stays-add_transition,
  change_at-get_elem, get_elem-last, HasToken, HasRule, HasToken-Extends, HasRule-Extends,
}

equal_leads_same : (l : Lead) → equal_leads l l ≡ true
equal_leads_same l =
    parts (same_rule l.rule l.rule) (l.place == l.place) (l.position == l.position)
      (equal_token_sets l.terminals l.terminals) (same_rule_same l.rule) (ground arith)
      (ground arith) (equal_token_sets_refl l.terminals)
  where
    same_rule_same : (r : Option Rule) → same_rule r r ≡ true
    same_rule_same none = refl
    same_rule_same (some r) = ground arith

    parts :
        (a b c d : Bool) → a ≡ true → b ≡ true → c ≡ true → d ≡ true → (a && (b && c)) && d ≡ true
    parts a b c d ea eb ec ed = rw (ea, eb, ec, ed) refl

all_equal_same : (leads : List Lead) → all_equal leads leads ≡ true
unfolding all_equal
all_equal_same [] = refl
all_equal_same (l ∷ leads) = rw (equal_leads_same l, all_equal_same leads) refl

pub equal_set_of_leads_same : (leads : List Lead) → equal_set_of_leads leads leads ≡ true
equal_set_of_leads_same leads =
    let e : length leads == length leads ≡ true = ground arith in rw (e, all_equal_same leads) refl

-- A state with these leads.
abbrev pub HasLeads : ℕ → List Lead → List LeadState → Type 0
HasLeads k leads states =
    (c : LeadState) × (get_elem? states k ≡ some c) × (equal_set_of_leads leads c.leads ≡ true)

HasLeads-Extends :
    (k : ℕ) (leads : List Lead) (states states' : List LeadState)
    → Extends states states'
    → HasLeads k leads states
    → HasLeads k leads states'
HasLeads-Extends k leads states states' x (c, e, h) =
    let (c', e', stays) = x.stays k c e in
    (c', e', subst (λ ls. equal_set_of_leads leads ls ≡ true) (sym stays.leads) h)

find_state-HasLeads :
    (leads : List Lead) (states : List LeadState) (k : ℕ)
    → find_state leads states ≡ some k
    → HasLeads k leads states
unfolding find_state
find_state-HasLeads leads [] k e = absurd (cc e)
find_state-HasLeads leads (s ∷ states) k e = elim (Bool-cases (equal_set_of_leads leads s.leads)) [
  | inl h ↦
      let e' = rw (h, find_state) at e in
      let q : 0 ≡ k = cc e' in subst (λ n. HasLeads n leads (s ∷ states)) q (s, refl, h)
  | inr h ↦
      behind (find_state leads states) (find_state-HasLeads leads states) refl
        (rw (h, find_state) at e)
]
  where
    behind :
        (o : Option ℕ)
        → ((n : ℕ) → find_state leads states ≡ some n → HasLeads n leads states)
        → find_state leads states ≡ o
        → (elim o [ none ↦ none | some n ↦ some (suc n) ]) ≡ some k
        → HasLeads k leads (s ∷ states)
    behind none there q r = absurd (cc r)
    behind (some n) there q r =
        let m : suc n ≡ k = cc r in subst (λ j. HasLeads j leads (s ∷ states)) m (there n q)

found_or_new-HasLeads :
    (leads : List Lead) (states : List LeadState) (o : Option ℕ)
    → find_state leads states ≡ o
    → Extends states (found_or_new o leads states).1
      × HasLeads (found_or_new o leads states).0 leads (found_or_new o leads states).1
found_or_new-HasLeads leads states none e = (
  Extends-append states _,
  (new_state leads, get_elem-last states (new_state leads), equal_set_of_leads_same leads),
)
found_or_new-HasLeads leads states (some k) e =
    (Extends-same states, find_state-HasLeads leads states k e)

-- The transition of a state to another.
abbrev pub HasTransition : ℕ → Symbol → ℕ → List LeadState → Type 0
HasTransition i (tkn t) k states =
    HasToken i (record { tokens = token_set_insert token_set_init (token_id t); target = shifts k })
      states
HasTransition i (sub r) k states = HasRule i (record { rule = r; state = k }) states

HasTransition-Extends :
    (i : ℕ) (x : Symbol) (k : ℕ) (states states' : List LeadState)
    → Extends states states'
    → HasTransition i x k states
    → HasTransition i x k states'
HasTransition-Extends i (tkn t) k states states' x h = HasToken-Extends i _ states states' x h
HasTransition-Extends i (sub r) k states states' x h = HasRule-Extends i _ states states' x h

HasTransition-new :
    (i : ℕ) (x : Symbol) (k : ℕ) (states : List LeadState) (s : LeadState)
    → get_elem? states i ≡ some s
    → HasTransition i x k (change_at i (add_transition (some x) k) states)
HasTransition-new i (tkn t) k states s e =
    (_, change_at-get_elem i _ states s e, In-append_right _ s.token_actions _ (inl refl))
HasTransition-new i (sub r) k states s e =
    (_, change_at-get_elem i _ states s e, In-append_right _ s.rule_actions _ (inl refl))

module _ (qsort : List Lead → List Lead) where
  -- A state moves with a symbol: to a state that has what those leads call for, merged.
  abbrev pub Moves : ℕ → Symbol → List Lead → List LeadState → Type 0
  Moves i x leads states =
      (out : List Lead) × (k : ℕ) × ((l : Lead)
        → (In l out → Called leads l) × (Called leads l → In l out))
      × HasLeads k (consolidate_leads qsort out) states
      × HasTransition i x k states

  pub Moves-Extends :
      (i : ℕ) (x : Symbol) (leads : List Lead) (states states' : List LeadState)
      → Extends states states'
      → Moves i x leads states
      → Moves i x leads states'
  Moves-Extends i x leads states states' e (out, k, called, has, moves) = (
    out,
    k,
    called,
    HasLeads-Extends k _ states states' e has,
    HasTransition-Extends i x k states states' e moves,
  )

  pub add_shift_eq :
      (i : ℕ) (x : Option Symbol) (leads out : List Lead) (states : List LeadState)
      → 0 < length leads
      → gather_leads (lead_bound (length leads)) leads 0 (length leads) ≡ some out
      → add_shift qsort i x leads states ≡ (
          let consolidated = consolidate_leads qsort out in
          let r = found_or_new (find_state consolidated states) consolidated states in
          some (change_at i (add_transition x r.0) r.1))
  unfolding add_shift
  add_shift_eq i x [] out states h e = absurd (omega (arith, h))
  add_shift_eq i x (l ∷ leads) out states h e = rw (e, add_shift) refl

  pub add_shift-Moves :
      (i : ℕ) (x : Symbol) (leads : List Lead) (states : List LeadState) (s : LeadState)
      → get_elem? states i ≡ some s
      → 0 < length leads
      → All IsLead leads
      → (states' : List LeadState) × (add_shift qsort i (some x) leads states ≡ some states')
        × Extends states states'
        × Moves i x leads states'
  add_shift-Moves i x leads states s e h is =
      let (out, run, called) =
        gather_leads-Called (lead_bound (length leads)) leads (omega arith) h is in
      let consolidated = consolidate_leads qsort out in
      let r = found_or_new (find_state consolidated states) consolidated states in
      let (grown, has) =
        found_or_new-HasLeads consolidated states (find_state consolidated states) refl in
      let added =
        Extends-change_at i (add_transition (some x) r.0) r.1 (Stays-add_transition (some x) r.0) in
      let (c, here, stays) = grown.stays i s e in
      (
        change_at i (add_transition (some x) r.0) r.1,
        add_shift_eq i (some x) leads out states h run,
        Extends-Extends states r.1 _ grown added,
        (
          out,
          r.0,
          called,
          HasLeads-Extends r.0 consolidated r.1 _ added has,
          HasTransition-new i x r.0 r.1 c here,
        ),
      )
