-- ===== src/Lexer/Defs.antt =====
-- src/lexer.c: the record `lexer`, its steps and the scanners of comments, literals and words.
--
-- `rest` holds the bytes of [ptr, end), and is empty once `ptr` reaches `end`; `ptr`, `base` and
-- `line_base` count bytes from the start of the file. `char` is signed on the supported targets, so
-- a byte from 128 on is a negative number there.
use low.Prelude.{
  ℕ, zero, suc, ◌+◌, ◌%◌, Bool, true, false, ◌&&◌, ◌||◌, [], ◌∷◌, Option, none, some, ◌==◌, leb,
  if◌then◌else◌, Bytes, u32_mod,
}
use low.Lexer.Token.{Token, sof, invalid, string_literal}

pub record Lexer : Type 0 where
  pub rest : Bytes
  pub base : ℕ
  pub ptr : ℕ
  pub token : Token
  pub filename : Bytes
  pub line : ℕ
  pub col : ℕ
  pub line_base : ℕ

unfoldable pub lexer_init : Bytes → Bytes → Lexer
lexer_init text name = record {
  rest = text;
  base = 0;
  ptr = 0;
  token = sof;
  filename = name;
  line = 0;
  col = 0;
  line_base = 0;
}

unfoldable pub is_whitespace : ℕ → Bool
is_whitespace c = leb c 0x20 || leb 128 c

abbrev pub within : ℕ → ℕ → ℕ → Bool
within lo hi c = leb lo c && leb c hi

unfoldable pub is_ident_start : ℕ → Bool
is_ident_start c = within b'a' b'z' c || within b'A' b'Z' c || c == b'_'

unfoldable pub is_ident : ℕ → Bool
unfolding is_ident_start
is_ident c = is_ident_start c || within b'0' b'9' c

unfoldable pub is_number_dec : ℕ → Bool
is_number_dec c = within b'0' b'9' c

unfoldable pub is_number_start : ℕ → Bool
unfolding is_number_dec
is_number_start c = is_number_dec c || c == b'.'

unfoldable pub is_number : ℕ → Bool
unfolding is_number_start
is_number c = is_number_start c || within b'a' b'z' c || within b'A' b'Z' c

-- The test of the loop over a number literal.
unfoldable pub continues_number : ℕ → Bool
unfolding is_number
continues_number c = is_number c || c == 39

step_on : Bytes → Lexer → Lexer
step_on [] l = record l { ptr = l.ptr + 1 }
step_on (c ∷ r) l =
    if c == b'\n'
    then record l {
      rest = r;
      ptr = l.ptr + 1;
      line = (l.line + 1) % u32_mod;
      col = 0;
      line_base = l.ptr + 1;
    }
    else record l { rest = r; ptr = l.ptr + 1 }

unfoldable pub lexer_step : Lexer → Lexer
unfolding step_on
lexer_step l = step_on l.rest l

unfoldable pub lexer_steps : Lexer → ℕ → Lexer
lexer_steps l zero = l
lexer_steps l (suc steps) = lexer_steps (lexer_step l) steps

-- The loops below recur on the bytes that are left, which are `l.rest` at every call.
unfoldable pub oneline_loop : Bytes → Lexer → Lexer
oneline_loop [] l = l
oneline_loop (c ∷ r) l = if c == b'\n' then lexer_step l else oneline_loop r (lexer_step l)

unfoldable pub consume_oneline_comment : Lexer → Lexer
unfolding oneline_loop
consume_oneline_comment l = oneline_loop l.rest l

abbrev pub begins_with : ℕ → Bytes → Bool
begins_with c [] = false
begins_with c (d ∷ _) = d == c

unfoldable pub multiline_loop : Bytes → Lexer → Lexer
multiline_loop [] l = l
multiline_loop (c ∷ r) l =
    let next = lexer_step l in
    if c == b'*' && begins_with b'/' r then lexer_step next else multiline_loop r next

unfoldable pub consume_multiline_comment : Lexer → Lexer
unfolding multiline_loop
consume_multiline_comment l = multiline_loop l.rest l

-- The loop over a string literal, behind the opening quote. The flag is set behind a backslash,
-- where the next byte is stepped over unseen.
unfoldable pub string_loop : Bool → Bytes → Lexer → Lexer
string_loop escape [] l = record l { token = invalid }
string_loop true (c ∷ r) l = string_loop false r (lexer_step l)
string_loop false (c ∷ r) l =
    if c == b'"' then lexer_step l else string_loop (c == b'\\') r (lexer_step l)

unfoldable pub lex_string : Lexer → Lexer
unfolding string_loop
lex_string l =
    let opened = lexer_step (record l { token = string_literal }) in
    string_loop false opened.rest opened

-- The loops over numbers and words test `*ptr` with no test of `ptr` against `end`: at the end
-- they read `beyond`, the byte that follows the file in memory, if one is mapped there. `none`:
-- there is no such byte, or it continues the loop and `ptr` runs past `end`.
unfoldable pub scan_loop : (ℕ → Bool) → Option ℕ → Bytes → Lexer → Option Lexer
scan_loop continues none [] l = none
scan_loop continues (some b) [] l = if continues b then none else some l
scan_loop continues beyond (c ∷ r) l =
    if continues c then scan_loop continues beyond r (lexer_step l) else some l
