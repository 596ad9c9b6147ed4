-- ===== src/Parser/Derives.antt =====
-- What src/parser.c is to do, told without its stack: the derivations of the grammar, the tokens that
-- the lexer returns one by one, and when a table of states is consistent with the grammar.
use low.Prelude.{
  ℕ, zero, suc, ◌≤◌, ◌<◌, Bool, true, false, List, [], ◌∷◌, ◌++◌, Option, none, some, Bytes, ◌==◌,
  ◌||◌, if◌then◌else◌, get_elem?, map, length, take, ◌≡◌, ◌⊎◌,
}
use mathlib.Core.List.{reverse_aux}
use low.Lexer.Token.{Token, token_id}
use low.Lexer.Defs.{Lexer}
use low.Lexer.Next.{lexer_next, done}
use low.Grammar.Symbols.{Rule, rule_unit_list, Symbol, tkn, sub, variant, Reducer}
use low.Grammar.Variants.{variants}
use low.Reduce.Values.{Tok, ok}
use low.Reduce.Kinds.{All}
use low.Reduce.Run.{reduced}
use low.Parser.Tables.{
  ParserState, ParserAction, ParserGoto, StateOrLength, state, find_action, find_goto,
}
use low.Parser.Tables
use low.Parser.Defs.{lexer_tok}

-- The tokens that are shifted from a first state of the lexer on, and the state behind them.
pub data Reads (beyond : Option ℕ) (first : Lexer) : List Tok → Lexer → Type 0 where
  start : Reads beyond first [] first
  next :
      {toks : List Tok} {l m : Lexer}
      → Reads beyond first toks l
      → lexer_next beyond l ≡ done m
      → Reads beyond first (toks ++ (lexer_tok l ∷ [])) m

-- The number that the tables have for a symbol; `number` is what the generator gives a rule.
abbrev pub symbol_id : (Rule → ℕ) → Symbol → ℕ
symbol_id number (tkn t) = token_id t
symbol_id number (sub r) = number r

module _ (file : Bytes) (atoi : Bytes → ℕ) (number : Rule → ℕ) where
  mutual
    -- Some tokens are derived from a token or rule, and what the reducers make of them.
    pub data Derives : ℕ → List Tok → Tok → Type 0 where
      leaf : (t : Token) (tok : Tok) → tok.id ≡ token_id t → Derives (token_id t) (tok ∷ []) tok
      node :
          (r : Rule) (i : ℕ) (xs : List Symbol) (reducer : Option Reducer) (tag last : ℕ)
          (toks children : List Tok) (tok : Tok)
          → get_elem? (variants r) i ≡ some (variant xs reducer tag)
          → DerivesAll (map (symbol_id number) xs) toks children
          → reduced file atoi reducer tag (number r) last children ≡ ok tok
          → Derives (number r) toks tok

    pub data DerivesAll : List ℕ → List Tok → List Tok → Type 0 where
      nothing : DerivesAll [] [] []
      besides :
          (id : ℕ) (ids : List ℕ) (toks more : List Tok) (tok : Tok) (children : List Tok)
          → Derives id toks tok
          → DerivesAll ids more children
          → DerivesAll (id ∷ ids) (toks ++ more) (tok ∷ children)

-- The state that an action or a goto leads to.
abbrev pub shift_target : StateOrLength → Option ℕ
shift_target (state s) = some s
shift_target (Tables.length n) = none

abbrev pub action_state : Option ParserAction → Option ℕ
action_state none = none
action_state (some a) = shift_target a.state_or_length

abbrev pub action_target : Option ParserState → ℕ → Option ℕ
action_target none id = none
action_target (some s) id = action_state (find_action s.actions id)

abbrev pub goto_target : Option ParserState → ℕ → Option ℕ
goto_target none id = none
goto_target (some s) id = find_goto s.gotos id

abbrev pub reach_by : (ℕ → Bool) → Option ℕ → Bool
reach_by test none = false
reach_by test (some s) = test s

unfoldable pub all_below : ℕ → (ℕ → Bool) → Bool
all_below zero test = true
all_below (suc n) test = let rest = all_below n test in if test n then rest else false

abbrev pub given : Option ℕ → Bool
given none = false
given (some s) = true

module _ (parser_states : List ParserState) where
  abbrev pub Leads : ℕ → ℕ → ℕ → Type 0
  Leads b id s =
      (action_target (get_elem? parser_states b) id ≡ some s)
      ⊎ (goto_target (get_elem? parser_states b) id ≡ some s)

  -- Whether the symbols can lead from a state to another.
  unfoldable pub reach : ℕ → List ℕ → ℕ → Bool
  reach b [] s = b == s
  reach b (id ∷ ids) s =
      reach_by (λ t. reach t ids s) (action_target (get_elem? parser_states b) id)
      || reach_by (λ t. reach t ids s) (goto_target (get_elem? parser_states b) id)

-- `past s` are the symbols that are known to stand at the top of the stack in the state s, the
-- topmost first.
module _ (number : Rule → ℕ) (parser_states : List ParserState) (past : ℕ → List ℕ) where
  -- A transition from b to s: what is known in s follows, and s is no start.
  abbrev pub Lands : ℕ → ℕ → ℕ → Type 0
  Lands b id s =
      (take (length (past s)) (id ∷ past b) ≡ past s) × (0 < s) × (s < length parser_states)

  -- A reduction: the table names a variant of the grammar, whose symbols stand at the top of the
  -- stack, and every state below them has a goto for the rule.
  abbrev pub ReduceIsValid : ℕ → ParserAction → ℕ → Type 0
  ReduceIsValid s a n =
      (r : Rule) × (i : ℕ) × (xs : List Symbol) × (get_elem? (variants r) i
        ≡ some (variant xs a.reducer a.reducer_tag))
      × (number r ≡ a.rule)
      × (0 < n)
      × (n ≤ length (past s))
      × (reverse_aux (take n (past s)) [] ≡ map (symbol_id number) xs)
      × (all_below (length parser_states) (λ b.
            if reach parser_states b (map (symbol_id number) xs) s
            then given (goto_target (get_elem? parser_states b) a.rule)
            else true)
          ≡ true)

  -- The root of the grammar stands above the start alone.
  abbrev pub AcceptIsValid : ℕ → Type 0
  AcceptIsValid s =
      (0 < length (past s))
      × (take 1 (past s) ≡ number rule_unit_list ∷ [])
      × (all_below (length parser_states)
            (λ b. if reach parser_states b (number rule_unit_list ∷ []) s then b == 0 else true)
          ≡ true)

  abbrev pub ActionIsValidBy : ℕ → ParserAction → StateOrLength → Type 0
  ActionIsValidBy s a (state t) = Lands s a.token t
  ActionIsValidBy s a (Tables.length n) =
      if a.rule == 0 then AcceptIsValid s else ReduceIsValid s a n

  abbrev pub ActionIsValid : ℕ → ParserAction → Type 0
  ActionIsValid s a = ActionIsValidBy s a a.state_or_length

  abbrev pub GotoIsValid : ℕ → ParserGoto → Type 0
  GotoIsValid s g = Lands s g.rule g.state

  abbrev pub StatesAreValid : ℕ → List ParserState → Type 0
  StatesAreValid s [] = Unit
  StatesAreValid s (st ∷ states) =
      All (ActionIsValid s) st.actions
      × All (GotoIsValid s) st.gotos
      × StatesAreValid (suc s) states

  -- The table is consistent with the grammar.
  abbrev pub IsConsistent : Type 0
  IsConsistent = (0 < length parser_states) × (past 0 ≡ []) × StatesAreValid 0 parser_states
