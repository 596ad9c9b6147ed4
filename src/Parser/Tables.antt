-- ===== src/Parser/Tables.antt =====
-- src/parser_states.h: the tables of the parser, which src/parser_generator.c writes when the compiler
-- is built. `parser_states` is a parameter of the parser.
use low.Prelude.{ℕ, List, [], ◌∷◌, Option, none, some, ◌==◌, if◌then◌else◌}
use low.Grammar.Symbols.{Reducer}

-- `state_or_length`: a state if it is not negative, else the length of a variant, negated.
pub data StateOrLength : Type 0 where
  state : ℕ → StateOrLength
  length : ℕ → StateOrLength

-- `rule` is 0 where the file is accepted.
pub record ParserAction : Type 0 where
  pub token : ℕ
  pub state_or_length : StateOrLength
  pub reducer : Option Reducer
  pub reducer_tag : ℕ
  pub rule : ℕ

pub record ParserGoto : Type 0 where
  pub rule : ℕ
  pub state : ℕ

-- With `num_actions` and `num_gotos` as the lengths of the lists.
pub record ParserState : Type 0 where
  pub actions : List ParserAction
  pub gotos : List ParserGoto

-- The first action for a token, and the state of the first goto for a rule.
unfoldable pub find_action : List ParserAction → ℕ → Option ParserAction
find_action [] token = none
find_action (a ∷ actions) token =
    let rest = find_action actions token in if a.token == token then some a else rest

unfoldable pub find_goto : List ParserGoto → ℕ → Option ℕ
find_goto [] rule = none
find_goto (g ∷ gotos) rule =
    let rest = find_goto gotos rule in if g.rule == rule then some g.state else rest
