-- ===== src/Generator/States.antt =====
-- src/parser_generator.c: `struct state`, the actions, and `gather_states`.
use low.Prelude.{
  ℕ, zero, suc, ◌+◌, ◌-◌, Bool, true, false, not, ◌&&◌, ◌||◌, List, [], ◌∷◌, ◌++◌, Option, none,
  some, get_elem?, length, replicate, ltb, leb, ◌==◌,
}
use low.Lexer.Token.{token_id}
use low.Grammar.Symbols.{Rule, Symbol, tkn, sub, Variant}
use low.Generator.Rules.{◌same◌}
use low.Generator.Sets.{token_set_init, token_set_insert}
use low.Generator.First.{variant_get_symbol}
use low.Generator.Leads.{Lead, equal_leads, consolidate_leads}
use low.Generator.Gather.{gather_leads, lead_bound}

-- `rule`, `variant` and `state`: an action without a rule shifts. The rule is none for `grammar_root`,
-- and the variant has its place.
pub data Target : Type 0 where
  reduces : Option Rule → ℕ → Variant → Target
  shifts : ℕ → Target

pub record TokenAction : Type 0 where
  pub tokens : List ℕ
  pub target : Target

pub record RuleAction : Type 0 where
  pub rule : Rule
  pub state : ℕ

-- `struct state`.
pub record LeadState : Type 0 where
  pub leads : List Lead
  pub token_actions : List TokenAction
  pub rule_actions : List RuleAction

-- {0, 0} is none.
abbrev pub equal_symbols : Option Symbol → Option Symbol → Bool
equal_symbols none none = true
equal_symbols none (some y) = false
equal_symbols (some x) none = false
equal_symbols (some (tkn t)) (some (tkn u)) = token_id t == token_id u
equal_symbols (some (tkn t)) (some (sub s)) = false
equal_symbols (some (sub r)) (some (tkn u)) = false
equal_symbols (some (sub r)) (some (sub s)) = r same s

-- The loop over two arrays of one size.
unfoldable pub all_equal : List Lead → List Lead → Bool
all_equal (l ∷ leads) (m ∷ others) = equal_leads l m && all_equal leads others
all_equal _ _ = true

abbrev pub equal_set_of_leads : List Lead → List Lead → Bool
equal_set_of_leads leads others = (length leads == length others) && all_equal leads others

abbrev pub next_symbol : Lead → Option Symbol
next_symbol l = variant_get_symbol l.variant l.position

abbrev pub advanced : Lead → Lead
advanced l = record l { position = suc l.position }

-- `handled`, `shift_leads` and `reduce_leads`.
pub record ScannedLeads : Type 0 where
  pub handled : List Bool
  pub shift_leads : List Lead
  pub reduce_leads : List Lead

abbrev pub pick : Bool → Option Symbol → Lead → Bool → ScannedLeads → ScannedLeads
pick false symbol l h rest = record rest { handled = h ∷ rest.handled }
pick true none l h rest = record rest {
  handled = true ∷ rest.handled;
  reduce_leads = l ∷ rest.reduce_leads;
}
pick true (some x) l h rest = record rest {
  handled = true ∷ rest.handled;
  shift_leads = advanced l ∷ rest.shift_leads;
}

-- The loop with k, from a lead on: `handled` has as many elements as there are leads.
unfoldable pub scan_leads : Option Symbol → List Lead → List Bool → ScannedLeads
scan_leads base [] handled = record { handled = handled; shift_leads = []; reduce_leads = [] }
scan_leads base (l ∷ leads) [] = record { handled = []; shift_leads = []; reduce_leads = [] }
scan_leads base (l ∷ leads) (h ∷ handled) =
    pick (not h && equal_symbols base (next_symbol l)) (next_symbol l) l h
      (scan_leads base leads handled)

-- A change of the state with a number.
unfoldable pub change_at : ℕ → (LeadState → LeadState) → List LeadState → List LeadState
change_at i f [] = []
change_at zero f (s ∷ states) = f s ∷ states
change_at (suc i) f (s ∷ states) = s ∷ change_at i f states

abbrev pub add_token_action : TokenAction → LeadState → LeadState
add_token_action a s = record s { token_actions = s.token_actions ++ (a ∷ []) }

abbrev pub add_rule_action : RuleAction → LeadState → LeadState
add_rule_action a s = record s { rule_actions = s.rule_actions ++ (a ∷ []) }

abbrev pub reduction : Lead → TokenAction
reduction l = record { tokens = l.terminals; target = reduces l.rule l.place l.variant }

unfoldable pub add_reductions : ℕ → List Lead → List LeadState → List LeadState
unfolding change_at
add_reductions i [] states = states
add_reductions i (l ∷ leads) states =
    add_reductions i leads (change_at i (add_token_action (reduction l)) states)

-- The first state that has these leads.
unfoldable pub find_state : List Lead → List LeadState → Option ℕ
unfolding all_equal
find_state leads [] = none
find_state leads (s ∷ states) = elim (equal_set_of_leads leads s.leads) [
  | true ↦ some 0
  | false ↦ elim (find_state leads states) [ none ↦ none | some k ↦ some (suc k) ]
]

abbrev pub new_state : List Lead → LeadState
new_state leads = record { leads = leads; token_actions = []; rule_actions = [] }

abbrev pub found_or_new : Option ℕ → List Lead → List LeadState → ℕ × List LeadState
found_or_new (some k) leads states = (k, states)
found_or_new none leads states = (length states, states ++ (new_state leads ∷ []))

abbrev pub add_transition : Option Symbol → ℕ → LeadState → LeadState
add_transition none k =
    add_token_action (record { tokens = token_set_insert token_set_init 0; target = shifts k })
add_transition (some (tkn t)) k =
    add_token_action
      (record { tokens = token_set_insert token_set_init (token_id t); target = shifts k })
add_transition (some (sub r)) k = add_rule_action (record { rule = r; state = k })

abbrev pub some_leads : List Lead → Bool
some_leads leads = ltb 0 (length leads)

-- The three assertions.
abbrev pub no_conflict : List Lead → List Lead → Bool
no_conflict shift_leads reduce_leads =
    (some_leads shift_leads || some_leads reduce_leads)
    && (not (some_leads shift_leads && some_leads reduce_leads) && leb (length reduce_leads) 1)

abbrev pub handled_behind : List Bool → List Bool
handled_behind [] = []
handled_behind (h ∷ handled) = handled

-- The rest of a loop, unless an assertion has failed.
abbrev pub after_symbol :
    (List LeadState → Option (List LeadState)) → Option (List LeadState) → Option (List LeadState)
after_symbol go none = none
after_symbol go (some states) = go states

module _ (qsort : List Lead → List Lead) where
  -- What follows `if (shift_leads.size > 0)`.
  unfoldable pub add_shift :
      ℕ → Option Symbol → List Lead → List LeadState → Option (List LeadState)
  unfolding gather_leads consolidate_leads find_state change_at
  add_shift i base [] states = some states
  add_shift i base (l ∷ leads) states =
      elim (gather_leads (lead_bound (length (l ∷ leads))) (l ∷ leads) 0 (length (l ∷ leads))) [
        | none ↦ none
        | some gathered ↦
            let consolidated = consolidate_leads qsort gathered in
            let r = found_or_new (find_state consolidated states) consolidated states in
            some (change_at i (add_transition base r.0) r.1)
      ]

  abbrev pub handle_symbol :
      ℕ → Option Symbol → List Lead → List Lead → List LeadState → Option (List LeadState)
  handle_symbol i base shift_leads reduce_leads states =
      elim (no_conflict shift_leads reduce_leads) [
        | false ↦ none
        | true ↦ add_shift i base shift_leads (add_reductions i reduce_leads states)
      ]

  -- The loop with n, over the leads of a state.
  unfoldable pub handle_leads : ℕ → List Lead → List Bool → List LeadState → Option (List LeadState)
  unfolding add_shift add_reductions scan_leads
  handle_leads i [] handled states = some states
  handle_leads i (l ∷ leads) [] states = some states
  handle_leads i (l ∷ leads) (true ∷ handled) states = handle_leads i leads handled states
  handle_leads i (l ∷ leads) (false ∷ handled) states =
      let scanned = scan_leads (next_symbol l) (l ∷ leads) (false ∷ handled) in
      after_symbol (λ states'. handle_leads i leads (handled_behind scanned.handled) states')
        (handle_symbol i (next_symbol l) scanned.shift_leads scanned.reduce_leads states)

  unfoldable pub gather_state : ℕ → List LeadState → Option (List LeadState)
  unfolding handle_leads
  gather_state i states = elim (get_elem? states i) [
    | none ↦ none
    | some s ↦ handle_leads i s.leads (replicate (length s.leads) false) states
  ]

  -- The states from `index` on, `count` of them.
  unfoldable pub gather_each : ℕ → ℕ → List LeadState → Option (List LeadState)
  unfolding gather_state
  gather_each index zero states = some states
  gather_each index (suc count) states =
      after_symbol (λ states'. gather_each (suc index) count states') (gather_state index states)

  -- `none` if an assertion fails, or if there are more calls in one another than `fuel`.
  unfoldable pub gather_states : ℕ → List LeadState → ℕ → ℕ → Option (List LeadState)
  unfolding gather_each
  gather_states zero states index count = none
  gather_states (suc fuel) states index count =
      elim (ltb index (length states) && leb (index + count) (length states)) [
        | false ↦ none
        | true ↦ elim (gather_each index count states) [
          | none ↦ none
          | some states' ↦ elim (ltb (length states) (length states')) [
            | false ↦ some states'
            | true ↦ gather_states fuel states' (length states) (length states' - length states)
          ]
        ]
      ]
