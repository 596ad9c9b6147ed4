-- ===== src/Parser/Defs.antt =====
-- src/parser.c.
use low.Prelude.{
  ℕ, zero, suc, List, [], ◌∷◌, Option, none, some, Bytes, ◌==◌, if◌then◌else◌, get_elem?,
}
use low.Lexer.Token.{token_id}
use low.Lexer.Defs.{Lexer}
use low.Lexer.Next.{lexer_next}
use low.Lexer.Next
use low.Reduce.Values.{Value, null, Tok}
use low.Reduce.Values
use low.Reduce.Run.{reduced}
use low.Parser.Tables.{ParserState, ParserAction, state, length, find_action, find_goto}

-- `struct parser_stack`.
pub record Entry : Type 0 where
  pub state : ℕ
  pub token : Tok

-- Why a parse ends without a result: `syntax_error` is a call of `derror`, which exits. `aborted`,
-- `confused` and `overrun` come from a reducer, `lexer_stops` from the lexer. `fault`: a failed
-- assertion, or a state that the table does not have.
pub data Stop : Type 0 where
  syntax_error fault aborted confused overrun lexer_stops : Stop

-- A round of the loop goes on with another stack and lexer, or ends it.
pub data Round : Type 0 where
  again : List Entry → Lexer → Round
  returns : Value → Round
  stops : Stop → Round

-- `lex->loc`, and the token that is shifted.
abbrev pub lexer_tok : Lexer → Tok
lexer_tok lex = record {
  id = token_id lex.token;
  first = lex.base;
  last = lex.ptr;
  loc = record { filename = lex.filename; line = lex.line; col = lex.col };
  value = null;
}

-- The top n entries, the lowest first, and those below.
unfoldable pub pop : ℕ → List Entry → List Entry → Option (List Entry × List Entry)
pop zero stack popped = some (popped, stack)
pop (suc n) [] popped = none
pop (suc n) (e ∷ stack) popped = pop n stack (e ∷ popped)

abbrev pub entry_toks : List Entry → List Tok
entry_toks [] = []
entry_toks (e ∷ entries) = e.token ∷ entry_toks entries

-- The state after a reduction: where the table has no goto, the lowest of the entries keeps its own.
abbrev pub goto_or : Option ℕ → ℕ → ℕ
goto_or none old = old
goto_or (some s) old = s

-- What follows a call of the reducer.
abbrev pub push_reduced : Values.Outcome Tok → ℕ → List Entry → Lexer → Round
push_reduced (Values.ok tok) s below lex = again (record { state = s; token = tok } ∷ below) lex
push_reduced Values.aborts s below lex = stops aborted
push_reduced Values.confused s below lex = stops confused
push_reduced Values.overrun s below lex = stops overrun

-- The stack at the start, with an entry of zeros.
abbrev pub initial_stack : List Entry
initial_stack =
    record {
      state = 0;
      token = record {
        id = 0;
        first = 0;
        last = 0;
        loc = record { filename = []; line = 0; col = 0 };
        value = null;
      };
    }
    ∷ []

module _ (file : Bytes) (atoi : Bytes → ℕ) (beyond : Option ℕ)
    (parser_states : List ParserState) where
  -- `target` and what stands above it, and `base` below it.
  unfoldable pub reduce_to : ParserAction → ℕ → List Entry → List Entry → Lexer → Round
  reduce_to action last [] below lex = stops fault
  reduce_to action last (target ∷ above) [] lex = stops fault
  reduce_to action last (target ∷ above) (base ∷ below) lex =
      elim (get_elem? parser_states base.state) [
        | none ↦ stops fault
        | some base_state ↦
            push_reduced
              (reduced file atoi action.reducer action.reducer_tag action.rule last
                (entry_toks (target ∷ above)))
              (goto_or (find_goto base_state.gotos action.rule) target.state) (base ∷ below) lex
      ]

  unfoldable pub reduce_step : ParserAction → ℕ → Entry → List Entry → Lexer → Round
  unfolding pop reduce_to
  reduce_step action n current stack lex = elim (pop n (current ∷ stack) []) [
    | none ↦ stops fault
    | some (popped, below) ↦ reduce_to action current.token.last popped below lex
  ]

  unfoldable pub shift_step : ℕ → List Entry → Lexer → Round
  shift_step s stack lex = elim (lexer_next beyond lex) [
    | Next.done lex' ↦ again (record { state = s; token = lexer_tok lex } ∷ stack) lex'
    | _ ↦ stops lexer_stops
  ]

  unfoldable pub act : ParserAction → Entry → List Entry → Lexer → Round
  unfolding reduce_step shift_step
  act action current stack lex = elim action.state_or_length [
    | state s ↦ shift_step s (current ∷ stack) lex
    | length n ↦
        if action.rule == 0
        then returns current.token.value
        else reduce_step action n current stack lex
  ]

  -- One round of the loop.
  unfoldable pub parse_step : List Entry → Lexer → Round
  unfolding act find_action
  parse_step [] lex = returns null
  parse_step (current ∷ stack) lex = elim (get_elem? parser_states current.state) [
    | none ↦ stops fault
    | some s ↦ elim (find_action s.actions (token_id lex.token)) [
      | none ↦ stops syntax_error
      | some action ↦ act action current stack lex
    ]
  ]

  -- The loop, with a number of rounds: `none` if they were not enough.
  unfoldable pub parse_loop : ℕ → List Entry → Lexer → Option Round
  unfolding parse_step
  parse_loop zero stack lex = none
  parse_loop (suc fuel) stack lex = elim (parse_step stack lex) [
    | again stack' lex' ↦ parse_loop fuel stack' lex'
    | returns value ↦ some (returns value)
    | stops why ↦ some (stops why)
  ]

  unfoldable pub parse : ℕ → Lexer → Option Round
  unfolding parse_loop
  parse fuel lex = parse_loop fuel initial_stack lex
