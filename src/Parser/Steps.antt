-- ===== src/Parser/Steps.antt =====
-- Each round of the loop of src/parser.c keeps what the stack holds, or ends with what was derived.
use low.Prelude.{
  ℕ, true, List, [], ◌∷◌, ◌++◌, Option, Bytes, ◌==◌, length, take, ◌≡◌, refl, sym, ap, ◌∙◌, arith,
  length-take, ==_iff,
}
use low.Lexer.Token.{token_id}
use low.Lexer.Defs.{Lexer}
use low.Lexer.Next.{lexer_next}
use low.Lexer.Next
use low.Grammar.Symbols.{Rule, rule_unit_list}
use low.Reduce.Values.{Tok}
use low.Parser.Tables.{ParserState}
use low.Parser.Defs.{Entry, Round, again, returns, stops, fault, lexer_stops, lexer_tok, shift_step}
use low.Parser.Derives.{Reads, Derives, leaf, Leads, reach, IsConsistent, AcceptIsValid}
use low.Parser.Lookups.{Leads-Lands, all_below-at}
use low.Parser.Stack.{Holds, Holds-past, Leads-reach}

known-head : (p l : List ℕ) (id x : ℕ) → take (length p) (id ∷ l) ≡ p → take 1 p ≡ x ∷ [] → id ≡ x
known-head [] l id x h h' = absurd (cc h')
known-head (y ∷ p) l id x h h' =
    let same : id ≡ y = cc h in let same' : y ≡ x = cc h' in same ∙ same'

pub reach-here : (parser_states : List ParserState) (s : ℕ) → reach parser_states s [] s ≡ true
unfolding reach
reach-here parser_states s = (==_iff s s).1 refl

module _ (file : Bytes) (atoi : Bytes → ℕ) (beyond : Option ℕ) (number : Rule → ℕ)
    (parser_states : List ParserState) (past : ℕ → List ℕ) where
  -- What a round may lead to, from the first state of the lexer.
  abbrev pub IsSound : Lexer → Round → Type 0
  IsSound first (again stack lex) =
      (ids : List ℕ) × (toks : List Tok) × Holds file atoi number parser_states stack ids toks
      × Reads beyond first toks lex
  IsSound first (returns value) =
      (toks : List Tok) × (lex : Lexer) × (tok : Tok) × Reads beyond first toks lex
      × Derives file atoi number (number rule_unit_list) toks tok
      × (tok.value ≡ value)
  IsSound first (stops fault) = ⊥
  IsSound first (stops _) = Unit

  -- Nothing was derived below the start.
  Holds-start :
      IsConsistent number parser_states past
      → (b : Entry) (stack : List Entry) (ids : List ℕ) (toks : List Tok) → b.state ≡ 0
      → Holds file atoi number parser_states (b ∷ stack) ids toks
      → toks ≡ []
  unfolding Holds
  Holds-start consistent b [] ids toks h holds = let (_, _, empty) = holds in empty
  Holds-start consistent b (c ∷ stack) ids toks h holds =
      let (id, below, ys, zs, e_ids, e_toks, leads, derived, rest) = holds in
      let (lands, _) = Leads-Lands number parser_states past c.state id b.state consistent leads in
      absurd (omega (arith, lands.1))

  -- What follows a call of the lexer.
  shifted :
      (first lex : Lexer) (e : Entry) (stack : List Entry) (ids : List ℕ) (toks : List Tok) (s : ℕ)
      → Holds file atoi number parser_states (e ∷ stack) ids toks
      → Reads beyond first toks lex
      → Leads parser_states e.state (token_id lex.token) s
      → (o : Next.Outcome) → lexer_next beyond lex ≡ o
      → IsSound first (elim o [
        | Next.done lex' ↦ again (record { state = s; token = lexer_tok lex } ∷ e ∷ stack) lex'
        | _ ↦ stops lexer_stops
      ])
  unfolding Holds
  shifted first lex e stack ids toks s holds reads leads (Next.done lex') h = (
    token_id lex.token ∷ ids,
    toks ++ (lexer_tok lex ∷ []),
    (
      token_id lex.token,
      ids,
      toks,
      lexer_tok lex ∷ [],
      refl,
      refl,
      leads,
      leaf lex.token (lexer_tok lex) refl,
      holds,
    ),
    Reads.next reads h,
  )
  shifted first lex e stack ids toks s holds reads leads Next.past_end h = tt
  shifted first lex e stack ids toks s holds reads leads Next.out_of_fuel h = tt

  pub shift_step-IsSound :
      (first lex : Lexer) (e : Entry) (stack : List Entry) (ids : List ℕ) (toks : List Tok) (s : ℕ)
      → Holds file atoi number parser_states (e ∷ stack) ids toks
      → Reads beyond first toks lex
      → Leads parser_states e.state (token_id lex.token) s
      → IsSound first (shift_step file atoi beyond parser_states s (e ∷ stack) lex)
  unfolding shift_step Holds
  shift_step-IsSound first lex e stack ids toks s holds reads leads =
      shifted first lex e stack ids toks s holds reads leads (lexer_next beyond lex) refl

  -- The file is accepted with the root alone on the stack.
  pub accepts-IsSound :
      (first lex : Lexer) (e : Entry) (stack : List Entry) (ids : List ℕ) (toks : List Tok)
      → IsConsistent number parser_states past
      → Holds file atoi number parser_states (e ∷ stack) ids toks
      → Reads beyond first toks lex
      → AcceptIsValid number parser_states past e.state
      → IsSound first (returns e.token.value)
  unfolding Holds
  accepts-IsSound first lex e [] ids toks consistent holds reads accept =
      let (known, _) =
        Holds-past file atoi number parser_states past e [] ids toks consistent holds in
      let (_, none_above, _) = holds in
      let short : length ids ≡ 0 = ap length none_above in
      let len : length (take (length (past e.state)) ids) ≡ length (past e.state) =
        ap length known in
      absurd (omega (arith, length-take (length (past e.state)) ids))
  accepts-IsSound first lex e (b ∷ stack) ids toks consistent holds reads accept =
      let (known, _) =
        Holds-past file atoi number parser_states past e (b ∷ stack) ids toks consistent holds in
      let (id, below, ys, zs, e_ids, e_toks, leads, derived, rest) = holds in
      let is_root : id ≡ number rule_unit_list =
        known-head (past e.state) below id (number rule_unit_list)
          (ap (λ l. take (length (past e.state)) l) (sym e_ids) ∙ known) accept.1 in
      let (_, b_lt) = Leads-Lands number parser_states past b.state id e.state consistent leads in
      let reached : reach parser_states b.state (number rule_unit_list ∷ []) e.state ≡ true =
        rw (sym is_root) (
          Leads-reach parser_states b.state id e.state e.state [] leads
            (reach-here parser_states e.state)) in
      let checked = all_below-at (length parser_states) _ b.state accept.2 b_lt in
      let at_start : (b.state == 0) ≡ true = cc (checked, reached) in
      let only : ys ≡ [] =
        Holds-start consistent b stack below ys ((==_iff b.state 0).0 at_start) rest in
      let all : toks ≡ zs = e_toks ∙ ap (λ l. l ++ zs) only in
      (toks, lex, e.token, reads, rw all (rw (sym is_root) derived), refl)
