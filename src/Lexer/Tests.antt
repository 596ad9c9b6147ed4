-- ===== src/Lexer/Tests.antt =====
-- Runs of `lexer_next` of src/lexer.c, and the theorems about it at concrete inputs.
use low.Prelude.{
  ℕ, zero, suc, ◌+◌, ◌%◌, List, [], ◌∷◌, ◌++◌, Option, none, some, Bytes, codes, u32_mod, length,
  ◌≡◌, refl, arith,
}
use Prim.Native.String.{String}
use low.Lexer.Token.{Token}
use low.Lexer.Tables.{keywords}
use low.Lexer.Defs.{
  Lexer, lexer_init, lexer_step, is_whitespace, is_ident, continues_number, is_number_start,
  is_ident_start, lexer_steps, scan_loop, consume_oneline_comment, consume_multiline_comment,
  lex_string,
}
use low.Lexer.Moves.{newlines, line_start}
use low.Lexer.Total.{init, next, Lexed-position}
use low.Lexer.PastEnd.{lexer_next_returns}
use low.Lexer.Munch.{lexer_next_word, lexer_next_number, Scanned}
use low.Lexer.Words.{WordToken, lexer_next-past_end}
use low.Lexer.Skips.{lexer_next_feed, lexer_next_oneline}
use low.Lexer.Garbage.{lexer_next-stale_ident}
use low.Lexer.Next.{lexer_next, next_loop, lex_round, done, past_end, out_of_fuel, mark}

-- The tokens of a text, from `n` calls of `lexer_next` at most.
tokens : ℕ → Option ℕ → Lexer → List Token
unfolding lexer_next next_loop lex_round lexer_init lexer_step lexer_steps scan_loop is_whitespace
    is_ident continues_number is_number_start is_ident_start consume_oneline_comment
    consume_multiline_comment lex_string
tokens zero beyond l = []
tokens (suc n) beyond l = elim (lexer_next beyond l) [
  | done m ↦ m.token ∷ tokens n beyond m
  | past_end ↦ []
  | out_of_fuel ↦ []
]

statement :
    tokens 10 (some 0) (lexer_init (codes "x >>= f(0x1f); // end\nreturn\n") [])
    ≡ Token.ident ∷ Token.right_assign ∷ Token.ident ∷ Token.lparen ∷ Token.number_literal
      ∷ Token.rparen ∷ Token.semicolon ∷ Token.kw_return ∷ Token.semicolon ∷ Token.eof ∷ []
unfolding tokens
statement = refl

-- A lexer at `text` with the token before.
abbrev at : Token → String → Lexer
at t text = record {
  rest = codes text;
  base = 0;
  ptr = 4;
  token = t;
  filename = codes "a.low";
  line = 0;
  col = 0;
  line_base = 0;
}

-- A text that a first call of `lexer_next` passes to its end: the word stands in the second line.
abbrev two_lines : Bytes
two_lines = codes "\nab"

abbrev behind : Lexer
behind = record {
  rest = [];
  base = 1;
  ptr = 3;
  token = Token.ident;
  filename = codes "a.low";
  line = 1;
  col = 0;
  line_base = 1;
}

first_call : lexer_next (some 0) (lexer_init two_lines (codes "a.low")) ≡ done behind
unfolding tokens
first_call = refl

Lexed-position_example :
    (eaten : Bytes) × (two_lines ≡ eaten ++ behind.rest)
    × (behind.ptr ≡ length eaten)
    × (behind.line % u32_mod ≡ newlines eaten % u32_mod)
    × (behind.line_base ≡ line_start 0 0 eaten)
    × (behind.filename ≡ codes "a.low")
Lexed-position_example = Lexed-position (next init first_call)

lexer_next_returns_example : (m : Lexer) × (lexer_next (some 0) (at Token.comma "x") ≡ done m)
unfolding tokens
lexer_next_returns_example = lexer_next_returns 0 (at Token.comma "x") refl refl

lexer_next_word_example :
    (m : Lexer) × (lexer_next none (at Token.comma "for(") ≡ done m)
    × WordToken keywords (codes "for") m.token
    × Scanned (codes "for") (codes "(") (mark (at Token.comma "for(")) m
unfolding tokens
lexer_next_word_example =
    lexer_next_word none b'f' (codes "or") (codes "(") (at Token.comma "for(") refl refl refl refl
      refl

lexer_next_number_example :
    (m : Lexer) × (lexer_next none (at Token.comma "0x1f;") ≡ done m)
    × (m.token ≡ Token.number_literal)
    × Scanned (codes "0x1f") (codes ";") (mark (at Token.comma "0x1f;")) m
unfolding tokens
lexer_next_number_example =
    lexer_next_number none b'0' (codes "x1f") (codes ";") (at Token.comma "0x1f;") refl refl refl
      refl refl

lexer_next_feed_example :
    (m : Lexer) × (lexer_next none (at Token.rparen "\nx") ≡ done m)
    × (m.token ≡ Token.semicolon)
    × (m.rest ≡ codes "x")
    × (m.base ≡ 4)
    × (m.ptr ≡ 4 + 1)
    × (m.line ≡ (0 + 1) % u32_mod)
    × (m.col ≡ 0)
    × (m.line_base ≡ 4 + 1)
unfolding tokens
lexer_next_feed_example = lexer_next_feed none (codes "x") (at Token.rparen "\nx") refl refl

lexer_next_oneline_example :
    (m : Lexer) × (lexer_next none (at Token.rparen "// c\nx;") ≡ lexer_next none m)
    × (m.rest ≡ codes "x;")
    × (m.token ≡ Token.rparen)
unfolding tokens
lexer_next_oneline_example =
    lexer_next_oneline none (codes " c") (codes "x;") (at Token.rparen "// c\nx;") refl refl refl
      (omega arith)

lexer_next-stale_ident_example :
    (m : Lexer) × (lexer_next none (at Token.ident "@x") ≡ done m)
    × (m.token ≡ Token.ident)
    × (m.rest ≡ codes "@x")
    × (m.ptr ≡ 4)
    × (m.base ≡ m.ptr)
lexer_next-stale_ident_example =
    lexer_next-stale_ident none b'@' (codes "x") (at Token.ident "@x") refl refl refl

lexer_next-past_end_example : lexer_next none (at Token.comma "x1") ≡ past_end
unfolding tokens
lexer_next-past_end_example =
    lexer_next-past_end b'x' (codes "1") (at Token.comma "x1") refl refl refl refl
