-- ===== src/Lexer/Next.antt =====
-- src/lexer.c: `lexer_next`. One round of its loop is `lex_round`, on a byte that is there.
use low.Prelude.{
  ℕ, zero, suc, ◌+◌, ◌-◌, ◌%◌, Bool, true, false, ◌&&◌, ◌||◌, List, [], ◌∷◌, Option, none, some,
  ◌==◌, leb, if◌then◌else◌, Bytes, codes, u32_mod, length, take, drop,
}
use low.Lexer.Token.{Token, token_equal, invalid, ident, semicolon, eof, number_literal}
use low.Lexer.Defs.{
  Lexer, is_whitespace, is_number_start, continues_number, is_ident_start, is_ident, lexer_step,
  lexer_steps, consume_oneline_comment, consume_multiline_comment, lex_string, scan_loop,
}
use low.Lexer.Tables.{terminators, symbols_1, symbols_2, symbols_3, keywords}

unfoldable pub is_terminator : List Token → Token → Bool
unfolding token_equal
is_terminator [] t = false
is_terminator (x ∷ xs) t = token_equal t x || is_terminator xs t

-- `strncmp(str, ptr, n) == 0` for a text of n bytes, none of them 0.
unfoldable pub starts_with : Bytes → Bytes → Bool
starts_with [] s = true
starts_with (x ∷ xs) [] = false
starts_with (x ∷ xs) (y ∷ ys) = x == y && starts_with xs ys

-- A sequence of `CHECK_TOKEN`s: the first entry whose text stands at `ptr`.
unfoldable pub check_tokens : List (Bytes × Token) → Bytes → Option Token
unfolding starts_with
check_tokens [] s = none
check_tokens ((text, t) ∷ table) s = if starts_with text s then some t else check_tokens table s

-- `match_keyword`: `ptr < end && *kw == *ptr` walks both texts; `kw` ends in a 0.
unfoldable pub match_keyword : Bytes → Bytes → Bool
match_keyword [] [] = true
match_keyword [] (_ ∷ _) = false
match_keyword (_ ∷ _) [] = false
match_keyword (x ∷ kw) (y ∷ s) = x == y && match_keyword kw s

-- The sequence of `CHECK_KEYWORD`s, each of which may set the token.
unfoldable pub check_keywords : List (Bytes × Token) → Bytes → Token → Token
unfolding match_keyword
check_keywords [] s t = t
check_keywords ((kw, k) ∷ table) s t = check_keywords table s (if match_keyword kw s then k else t)

-- What a round leads to: `continue`, `return`, or a read past the end of the file.
pub data Round : Type 0 where
  again : Lexer → Round
  stop : Lexer → Round
  overrun : Round

abbrev pub emit : Lexer → ℕ → Token → Round
emit l n t = stop (record (lexer_steps l n) { token = t })

-- `self->ptr += n`
abbrev pub skip : Lexer → ℕ → Lexer
skip l n = record l { rest = drop n l.rest; ptr = l.ptr + n }

-- The check of the keywords, on the bytes of [base, ptr): `from` holds those from `base` on.
unfoldable pub finish_word : Bytes → Lexer → Round
unfolding check_keywords
finish_word from l =
    stop (record l { token = check_keywords keywords (take (l.ptr - l.base) from) ident })

-- From the test for a word on. The token of the call before is still there, so that a byte that
-- begins no token is taken for a word of length 0 behind an identifier.
unfoldable pub lex_word : Option ℕ → ℕ → Lexer → Round
unfolding finish_word token_equal
lex_word beyond c l =
    if is_ident_start c
    then elim (scan_loop is_ident beyond (lexer_step l).rest (lexer_step l)) [
      | none ↦ overrun
      | some l' ↦ finish_word l.rest (record l' { token = ident })
    ]
    else if token_equal l.token ident
    then finish_word l.rest l
    else again (lexer_step l)

unfoldable pub lex_number : Option ℕ → Lexer → Round
lex_number beyond l = elim (scan_loop continues_number beyond (lexer_step l).rest (lexer_step l)) [
  | none ↦ overrun
  | some l' ↦ stop (record l' { token = number_literal })
]

-- Behind the tables of symbols.
unfoldable pub lex_literal : Option ℕ → ℕ → Lexer → Round
unfolding lex_number lex_word
lex_literal beyond c l =
    if c == b'"'
    then stop (lex_string l)
    else if is_number_start c
    then lex_number beyond l
    else lex_word beyond c l

-- `unsigned rem = end - ptr`, from a difference of 64 bits.
abbrev pub remaining : Lexer → ℕ
remaining l = length l.rest % u32_mod

unfoldable pub lex_single : Option ℕ → ℕ → Lexer → Round
unfolding check_tokens lex_literal
lex_single beyond c l = elim (if leb 1 (remaining l) then check_tokens symbols_1 l.rest else none) [
  | some t ↦ emit l 1 t
  | none ↦ lex_literal beyond c l
]

unfoldable pub lex_double : Option ℕ → ℕ → Lexer → Round
unfolding check_tokens starts_with lex_single
lex_double beyond c l =
    if leb 2 (remaining l) && starts_with (codes "//") l.rest
    then again (consume_oneline_comment (skip l 2))
    else if leb 2 (remaining l) && starts_with (codes "/*") l.rest
    then again (consume_multiline_comment (skip l 2))
    else elim (if leb 2 (remaining l) then check_tokens symbols_2 l.rest else none) [
      | some t ↦ emit l 2 t
      | none ↦ lex_single beyond c l
    ]

unfoldable pub lex_symbol : Option ℕ → ℕ → Lexer → Round
unfolding check_tokens lex_double
lex_symbol beyond c l = elim (if leb 3 (remaining l) then check_tokens symbols_3 l.rest else none) [
  | some t ↦ emit l 3 t
  | none ↦ lex_double beyond c l
]

-- `base = ptr`, and the column of the token.
abbrev pub mark : Lexer → Lexer
mark l = record l { base = l.ptr; col = (l.ptr - l.line_base) % u32_mod }

unfoldable pub lex_space : ℕ → Lexer → Round
unfolding is_terminator
lex_space c l =
    if c == b'\n' && is_terminator terminators l.token
    then stop (lexer_step (mark (record l { token = semicolon })))
    else again (lexer_step l)

unfoldable pub lex_round : Option ℕ → ℕ → Lexer → Round
unfolding lex_space lex_symbol
lex_round beyond c l = if is_whitespace c then lex_space c l else lex_symbol beyond c (mark l)

-- `past_end`: undefined behaviour, a read of bytes behind the file that goes on with the token.
pub data Outcome : Type 0 where
  done : Lexer → Outcome
  past_end out_of_fuel : Outcome

unfoldable pub next_loop : Option ℕ → ℕ → Lexer → Outcome
next_loop beyond zero l = out_of_fuel
next_loop beyond (suc fuel) l = elim l.rest [
  | [] ↦ done (record l { token = eof })
  | c ∷ _ ↦ elim (lex_round beyond c l) [
    | again l' ↦ next_loop beyond fuel l'
    | stop l' ↦ done l'
    | overrun ↦ past_end
  ]
]

-- The fuel is one round for each byte that is left, and one for the end.
unfoldable pub lexer_next : Option ℕ → Lexer → Outcome
unfolding next_loop token_equal
lexer_next beyond l =
    if token_equal l.token invalid || token_equal l.token eof
    then done l
    else next_loop beyond (suc (length l.rest)) l
