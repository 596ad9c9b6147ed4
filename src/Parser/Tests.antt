-- ===== src/Parser/Tests.antt =====
-- The theorems on src/parser.c with the table of a part of the grammar: packages and semicolons.
use low.Prelude.{ℕ, List, [], ◌∷◌, none, some, Bytes, codes, ◌++◌, drop, ◌≡◌, ◌≢◌, refl}
use low.Lexer.Token.{token_id, kw_package}
use low.Lexer.Defs.{Lexer, is_whitespace, lexer_step, lexer_steps, lex_string}
use low.Lexer.Next.{lexer_next, lex_round}
use low.Reduce.Run.{reduced}
use low.Ast.Tree.{package_unit}
use low.Reduce.Values.{Tok, Value, many, a_unit}
use low.Parser.Tables.{find_goto}
use low.Parser.Defs.{returns, stops, fault, parse}
use low.Parser.Derives.{Reads, Derives}
use low.Parser.Sound.{parse-Derives, parse-no_fault}
use low.Parser.TestTable.{number, states, past, states-IsConsistent}

-- `package "a";`, with a line feed.
abbrev text : Bytes
text = codes "package " ++ (34 ∷ 97 ∷ 34 ∷ 59 ∷ 10 ∷ [])

abbrev first : Lexer
first = record {
  rest = drop 7 text;
  base = 0;
  ptr = 7;
  token = kw_package;
  filename = codes "f";
  line = 0;
  col = 0;
  line_base = 0;
}

atoi : Bytes → ℕ
atoi digits = 0

-- The package that the parser returns.
abbrev result : Value
result =
    many a_unit (package_unit (record { filename = codes "f"; line = 0; col = 8 }) (codes "a") ∷ [])

first-parses : parse text atoi none states 20 first ≡ some (returns result)
unfolding parse token_id lexer_next lex_round is_whitespace lexer_step lex_string lexer_steps
    reduced find_goto
first-parses = refl

parse-Derives_example :
    (toks : List Tok) × (lex : Lexer) × (tok : Tok) × Reads none first toks lex
    × Derives text atoi number 93 toks tok
    × (tok.value ≡ result)
parse-Derives_example =
    parse-Derives text atoi none number states past 20 first result states-IsConsistent first-parses

parse-no_fault_example : parse text atoi none states 20 first ≢ some (stops fault)
parse-no_fault_example =
    parse-no_fault text atoi none number states past 20 first states-IsConsistent
