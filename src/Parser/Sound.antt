-- ===== src/Parser/Sound.antt =====
-- What `parse` of src/parser.c returns, over tables that are consistent with the grammar.
use low.Prelude.{
  ℕ, zero, suc, List, [], ◌∷◌, Option, some, Bytes, ◌≡◌, ◌≢◌, inl, inr, refl, sym, Option-cases,
}
use low.Lexer.Token.{token_id}
use low.Lexer.Defs.{Lexer}
use low.Grammar.Symbols.{Rule, rule_unit_list}
use low.Reduce.Values.{Tok, Value}
use low.Parser.Tables.{ParserState, find_action}
use low.Parser.Defs.{
  Entry, Round, again, returns, stops, syntax_error, fault, parse_step, parse_loop, parse, act,
  initial_stack,
}
use low.Parser.Derives.{Reads, start, Derives, IsConsistent}
use low.Parser.Lookups.{state-IsValid, find_action-All, get_elem?-some}
use low.Parser.Stack.{Holds, Holds-past}
use low.Parser.Reductions.{act-IsSound}
use low.Parser.Steps.{IsSound}

module _ (file : Bytes) (atoi : Bytes → ℕ) (beyond : Option ℕ) (number : Rule → ℕ)
    (parser_states : List ParserState) (past : ℕ → List ℕ) where
  pub parse_step-IsSound :
      (first lex : Lexer) (stack : List Entry) (ids : List ℕ) (toks : List Tok)
      → IsConsistent number parser_states past
      → Holds file atoi number parser_states stack ids toks
      → Reads beyond first toks lex
      → IsSound file atoi beyond number parser_states past first
          (parse_step file atoi beyond parser_states stack lex)
  unfolding Holds parse_step
  parse_step-IsSound first lex [] ids toks consistent holds reads = absurd holds
  parse_step-IsSound first lex (e ∷ stack) ids toks consistent holds reads =
      let (_, e_lt) =
        Holds-past file atoi number parser_states past e stack ids toks consistent holds in
      let (st, h) = get_elem?-some parser_states e.state e_lt in
      let (actions, gotos) = state-IsValid number parser_states past e.state st consistent h in
      elim (Option-cases (find_action st.actions (token_id lex.token))) [
        | inl missing ↦
            let to : parse_step file atoi beyond parser_states (e ∷ stack) lex
                ≡ stops syntax_error =
              rw (parse_step, h, missing) in
            rw to tt
        | inr found ↦
            let (a, found_a) = found in
            let (valid, _) = find_action-All _ st.actions (token_id lex.token) a actions found_a in
            let to : parse_step file atoi beyond parser_states (e ∷ stack) lex
                ≡ act file atoi beyond parser_states a e stack lex =
              rw (parse_step, h, found_a) in
            rw to (
              act-IsSound file atoi beyond number parser_states past first lex a a.state_or_length e
                stack ids toks refl consistent holds reads (λ s shape. inl (rw (h, found_a, shape)))
                valid)
      ]

  -- The rounds after a first one, if they are known to be sound.
  loop_after-IsSound :
      (first : Lexer) (fuel : ℕ) (round result : Round)
      → ((stack : List Entry) (lex : Lexer) (ids : List ℕ) (toks : List Tok)
          → Holds file atoi number parser_states stack ids toks
          → Reads beyond first toks lex
          → parse_loop file atoi beyond parser_states fuel stack lex ≡ some result
          → IsSound file atoi beyond number parser_states past first result)
      → IsSound file atoi beyond number parser_states past first round
      → (elim round [
        | again stack lex ↦ parse_loop file atoi beyond parser_states fuel stack lex
        | returns value ↦ some (returns value)
        | stops why ↦ some (stops why)
      ])
        ≡ some result
      → IsSound file atoi beyond number parser_states past first result
  loop_after-IsSound first fuel (again stack lex) result rest sound h =
      let (ids, toks, holds, reads) = sound in rest stack lex ids toks holds reads h
  loop_after-IsSound first fuel (returns value) result rest sound h =
      let same : returns value ≡ result = cc h in rw (sym same) sound
  loop_after-IsSound first fuel (stops why) result rest sound h =
      let same : stops why ≡ result = cc h in rw (sym same) sound

  parse_loop-IsSound :
      (fuel : ℕ) (first lex : Lexer) (stack : List Entry) (ids : List ℕ) (toks : List Tok)
      (result : Round)
      → IsConsistent number parser_states past
      → Holds file atoi number parser_states stack ids toks
      → Reads beyond first toks lex
      → parse_loop file atoi beyond parser_states fuel stack lex ≡ some result
      → IsSound file atoi beyond number parser_states past first result
  unfolding parse_loop
  parse_loop-IsSound zero first lex stack ids toks result consistent holds reads h = absurd (cc h)
  parse_loop-IsSound (suc fuel) first lex stack ids toks result consistent holds reads h =
      loop_after-IsSound first fuel (parse_step file atoi beyond parser_states stack lex) result
        (λ stack' lex' ids' toks' holds' reads' h'.
          parse_loop-IsSound fuel first lex' stack' ids' toks' result consistent holds' reads' h')
        (parse_step-IsSound first lex stack ids toks consistent holds reads) h

  parse-IsSound :
      (fuel : ℕ) (first : Lexer) (result : Round)
      → IsConsistent number parser_states past
      → parse file atoi beyond parser_states fuel first ≡ some result
      → IsSound file atoi beyond number parser_states past first result
  unfolding parse Holds
  parse-IsSound fuel first result consistent h =
      parse_loop-IsSound fuel first first initial_stack [] [] result consistent (refl, refl, refl)
        start h

  -- If the table is consistent with the grammar, and the parser returns a result, then the tokens that
  -- the lexer returned up to there are derived from the root of the grammar, and the result is what the
  -- reducers make of that derivation.
  pub parse-Derives :
      (fuel : ℕ) (first : Lexer) (value : Value)
      → IsConsistent number parser_states past
      → parse file atoi beyond parser_states fuel first ≡ some (returns value)
      → (toks : List Tok) × (lex : Lexer) × (tok : Tok) × Reads beyond first toks lex
        × Derives file atoi number (number rule_unit_list) toks tok
        × (tok.value ≡ value)
  parse-Derives fuel first value consistent h =
      parse-IsSound fuel first (returns value) consistent h

  -- If the table is consistent with the grammar, the parser meets no state outside the table and no
  -- end of its stack, whatever the lexer returns.
  pub parse-no_fault :
      (fuel : ℕ) (first : Lexer)
      → IsConsistent number parser_states past
      → parse file atoi beyond parser_states fuel first ≢ some (stops fault)
  parse-no_fault fuel first consistent h = parse-IsSound fuel first (stops fault) consistent h
