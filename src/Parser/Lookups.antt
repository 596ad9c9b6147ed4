-- ===== src/Parser/Lookups.antt =====
-- What src/parser.c finds in tables that are consistent with the grammar.
use low.Prelude.{
  ℕ, zero, suc, ◌+◌, ◌<◌, Bool, true, List, [], ◌∷◌, some, ◌==◌, get_elem?, length, ◌≡◌, inl, inr,
  refl, sym, arith, Bool-cases, Option-cases, ==_iff,
}
use low.Grammar.Symbols.{Rule}
use low.Reduce.Kinds.{All}
use low.Parser.Tables.{
  ParserState, ParserAction, ParserGoto, StateOrLength, state, find_action, find_goto,
}
use low.Parser.Tables
use low.Parser.Derives.{
  Leads, Lands, ActionIsValid, ActionIsValidBy, GotoIsValid, StatesAreValid, IsConsistent,
  shift_target, all_below,
}

pub get_elem?-lt {ℓ} :
    {A : Type ℓ} (xs : List A) (i : ℕ) (x : A) → get_elem? xs i ≡ some x → i < length xs
get_elem?-lt [] i x h = absurd (cc h)
get_elem?-lt (y ∷ xs) zero x h = omega arith
get_elem?-lt (y ∷ xs) (suc i) x h = let below = get_elem?-lt xs i x h in omega arith

pub get_elem?-some {ℓ} :
    {A : Type ℓ} (xs : List A) (i : ℕ) → i < length xs → (x : A) × (get_elem? xs i ≡ some x)
get_elem?-some [] i h = absurd (omega arith)
get_elem?-some (y ∷ xs) zero h = (y, refl)
get_elem?-some (y ∷ xs) (suc i) h = get_elem?-some xs i (omega arith)

pub find_action-All {ℓ} :
    (P : ParserAction → Type ℓ) (actions : List ParserAction) (token : ℕ) (a : ParserAction)
    → All P actions
    → find_action actions token ≡ some a
    → P a × (a.token ≡ token)
unfolding find_action
find_action-All P [] token a all h = absurd (cc h)
find_action-All P (b ∷ actions) token a all h = elim (Bool-cases (b.token == token)) [
  | inl e ↦ let same : b ≡ a = cc (h, e) in rw (sym same) (all.0, (==_iff b.token token).0 e)
  | inr e ↦
      let rest : find_action actions token ≡ some a = cc (h, e) in
      find_action-All P actions token a all.1 rest
]

pub find_goto-All {ℓ} :
    (P : ParserGoto → Type ℓ) (gotos : List ParserGoto) (rule s : ℕ)
    → All P gotos
    → find_goto gotos rule ≡ some s
    → (g : ParserGoto) × P g × (g.rule ≡ rule) × (g.state ≡ s)
unfolding find_goto
find_goto-All P [] rule s all h = absurd (cc h)
find_goto-All P (g ∷ gotos) rule s all h = elim (Bool-cases (g.rule == rule)) [
  | inl e ↦ let same : g.state ≡ s = cc (h, e) in (g, all.0, (==_iff g.rule rule).0 e, same)
  | inr e ↦
      let rest : find_goto gotos rule ≡ some s = cc (h, e) in
      find_goto-All P gotos rule s all.1 rest
]

pub all_below-at :
    (n : ℕ) (test : ℕ → Bool) (b : ℕ) → all_below n test ≡ true → b < n → test b ≡ true
unfolding all_below
all_below-at zero test b h below = absurd (omega arith)
all_below-at (suc n) test b h below = elim (Bool-cases (test n)) [
  | inr e ↦ absurd (cc (h, e))
  | inl e ↦ elim (Bool-cases (b == n)) [
    | inl same ↦ let eq = (==_iff b n).0 same in rw eq e
    | inr other ↦ all_below-at n test b (cc (h, e)) (ground arith)
  ]
]

module _ (number : Rule → ℕ) (parser_states : List ParserState) (past : ℕ → List ℕ) where
  StatesAreValid-at :
      (k i s : ℕ) (states : List ParserState) (st : ParserState)
      → s ≡ k + i
      → StatesAreValid number parser_states past k states
      → get_elem? states i ≡ some st
      → All (ActionIsValid number parser_states past s) st.actions
        × All (GotoIsValid number parser_states past s) st.gotos
  StatesAreValid-at k i s [] st e valid h = absurd (cc h)
  StatesAreValid-at k zero s (t ∷ states) st e valid h =
      let same : t ≡ st = cc h in
      let here : s ≡ k = omega arith in rw (here, sym same) (valid.0, valid.1)
  StatesAreValid-at k (suc i) s (t ∷ states) st e valid h =
      StatesAreValid-at (suc k) i s states st (omega arith) valid.2 h

  pub state-IsValid :
      (s : ℕ) (st : ParserState)
      → IsConsistent number parser_states past
      → get_elem? parser_states s ≡ some st
      → All (ActionIsValid number parser_states past s) st.actions
        × All (GotoIsValid number parser_states past s) st.gotos
  state-IsValid s st consistent h =
      StatesAreValid-at 0 s s parser_states st (omega arith) consistent.2 h

  shift-Lands :
      (b : ℕ) (a : ParserAction) (s : ℕ) (shape : StateOrLength)
      → shift_target shape ≡ some s
      → ActionIsValidBy number parser_states past b a shape
      → Lands number parser_states past b a.token s
  shift-Lands b a s (state t) h valid = let same : t ≡ s = cc h in rw (sym same) valid
  shift-Lands b a s (Tables.length n) h valid = absurd (cc h)

  -- A transition is one that the table says what is known of.
  pub Leads-Lands :
      (b id s : ℕ)
      → IsConsistent number parser_states past
      → Leads parser_states b id s
      → Lands number parser_states past b id s × (b < length parser_states)
  Leads-Lands b id s consistent leads = elim (Option-cases (get_elem? parser_states b)) [
    | inl e ↦ elim leads [ inl h ↦ absurd (cc (e, h)) | inr h ↦ absurd (cc (e, h)) ]
    | inr found ↦
        let (st, e) = found in
        let valid = state-IsValid b st consistent e in
        let below = get_elem?-lt parser_states b st e in
        elim leads [
          | inl h ↦ elim (Option-cases (find_action st.actions id)) [
            | inl missing ↦ absurd (cc (e, h, missing))
            | inr action ↦
                let (a, found_a) = action in
                let (a_valid, a_token) = find_action-All _ st.actions id a valid.0 found_a in
                let target : shift_target a.state_or_length ≡ some s = cc (e, h, found_a) in
                (rw (sym a_token) (shift-Lands b a s a.state_or_length target a_valid), below)
          ]
          | inr h ↦
              let found_g : find_goto st.gotos id ≡ some s = cc (e, h) in
              let (g, g_valid, g_rule, g_state) = find_goto-All _ st.gotos id s valid.1 found_g in
              (rw (sym g_rule, sym g_state) g_valid, below)
        ]
  ]
