-- ===== src/Lexer/Garbage.antt =====
-- src/lexer.c on bytes that begin no token, and on a word at the very end of the file.
use low.Prelude.{
  ℕ, ◌-◌, Bool, true, false, ◌∷◌, Option, ◌==◌, if◌then◌else◌, Bytes, ◌≡◌, refl, ◌∙◌, ◌||◌, arith,
}
use low.Lexer.Token.{Token, ident, eof, invalid, token_equal}
use low.Lexer.Tables.{symbols_1, symbols_2, symbols_3}
use low.Lexer.Defs.{Lexer, is_ident_start, is_number_start, is_whitespace, lexer_step}
use low.Lexer.Next.{again, stop, lex_literal, lex_round, finish_word, mark, lexer_next, done}
use low.Lexer.Total.{lexer_next_step}
use low.Lexer.Heads.{starts_none, lex_symbol-lex_literal}

-- The printable bytes that begin no token, and DEL.
abbrev pub is_garbage : ℕ → Bool
is_garbage c = c == b'$' || c == b'@' || c == b'`' || c == b'\\' || c == 39 || c == 127

garbage-starts_none :
    (c : ℕ)
    → is_garbage c ≡ true
    → (starts_none symbols_1 c ≡ true)
      × (starts_none symbols_2 c ≡ true)
      × (starts_none symbols_3 c ≡ true)
garbage-starts_none c h = (ground arith, ground arith, ground arith)

garbage-begins :
    (c : ℕ)
    → is_garbage c ≡ true
    → (c == b'"' ≡ false) × (is_number_start c ≡ false) × (is_ident_start c ≡ false)
unfolding is_number_start is_ident_start
garbage-begins c h = (ground arith, ground arith, ground arith)

garbage-lex_literal :
    (beyond : Option ℕ) (c : ℕ) (l : Lexer)
    → is_garbage c ≡ true
    → lex_literal beyond c l
      ≡ (if token_equal l.token ident then finish_word l.rest l else again (lexer_step l))
unfolding lex_literal
garbage-lex_literal beyond c l h =
    let begins = garbage-begins c h in rw (begins.0, begins.1, begins.2)

garbage-not_space : (c : ℕ) → is_garbage c ≡ true → is_whitespace c ≡ false
unfolding is_whitespace
garbage-not_space c h = ground arith

garbage-lex_round :
    (beyond : Option ℕ) (c : ℕ) (r : Bytes) (l : Lexer)
    → l.rest ≡ c ∷ r
    → is_garbage c ≡ true
    → lex_round beyond c l ≡ (
        if token_equal l.token ident
        then finish_word l.rest (mark l)
        else again (lexer_step (mark l)))
unfolding lex_round
garbage-lex_round beyond c r l e h =
    let heads = garbage-starts_none c h in
    rw (garbage-not_space c h) (
      lex_symbol-lex_literal beyond c r (mark l) e heads.0 heads.1 heads.2
      ∙ garbage-lex_literal beyond c (mark l) h)

-- An empty word is no keyword.
finish_word_empty :
    (from : Bytes) (l : Lexer)
    → l.base ≡ l.ptr
    → finish_word from l ≡ stop (record l { token = ident })
unfolding finish_word
finish_word_empty from l h = let gap : l.ptr - l.base ≡ 0 = omega arith in rw gap

ident_stale : (t : Token) → t ≡ ident → token_equal t ident ≡ true
unfolding token_equal
ident_stale t e = rw e

pub ident_goes_on : (t : Token) → t ≡ ident → token_equal t invalid || token_equal t eof ≡ false
unfolding token_equal
ident_goes_on t e = rw e

-- Behind an identifier a byte that begins no token is never passed: `lexer_next` returns an
-- identifier of no bytes, and leaves the text and `ptr` as they were.
pub lexer_next-stale_ident :
    (beyond : Option ℕ) (c : ℕ) (r : Bytes) (l : Lexer)
    → l.token ≡ ident
    → l.rest ≡ c ∷ r
    → is_garbage c ≡ true
    → (m : Lexer) × (lexer_next beyond l ≡ done m)
      × (m.token ≡ ident)
      × (m.rest ≡ l.rest)
      × (m.ptr ≡ l.ptr)
      × (m.base ≡ m.ptr)
lexer_next-stale_ident beyond c r l t e h =
    let round : lex_round beyond c l ≡ stop (record (mark l) { token = ident }) =
      garbage-lex_round beyond c r l e h
      ∙ rw (ident_stale l.token t) (finish_word_empty l.rest (mark l) refl) in
    (
      record (mark l) { token = ident },
      lexer_next_step beyond c r l (ident_goes_on l.token t) e ∙ rw round,
      refl,
      refl,
      refl,
      refl,
    )
