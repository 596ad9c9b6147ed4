-- ===== src/Lexer/Munch.antt =====
-- src/lexer.c: a word or a number is passed whole, up to the first byte that does not continue it.
use low.Prelude.{
  ℕ, zero, suc, ◌+◌, ◌-◌, Bool, true, false, [], ◌∷◌, ◌++◌, Option, none, some, ◌==◌, Bytes, length,
  take, ◌≡◌, ◌≢◌, refl, ap, ◌∙◌, ◌||◌, arith, &&-true,
}
use low.Lexer.Token.{ident, eof, invalid, number_literal, token_equal}
use low.Lexer.Tables.{keywords, symbols_1, symbols_2, symbols_3}
use low.Lexer.Defs.{
  Lexer, is_ident_start, is_ident, is_number_start, is_number_dec, continues_number, lexer_step,
  scan_loop, is_whitespace,
}
use low.Lexer.Next.{
  lex_round, mark, lexer_next, done, check_keywords, finish_word, stop, overrun, lex_literal,
  lex_number,
}
use low.Lexer.Moves.{rest-lexer_step}
use low.Lexer.Total.{lexer_next_step}
use low.Lexer.Words.{all_bytes, lex_round_word, WordToken, check_keywords-WordToken}
use low.Lexer.Heads.{lex_symbol-lex_literal, starts_none}

-- The byte behind a text that fills the rest of the file is the one behind the file.
abbrev pub EndsWord : (ℕ → Bool) → Option ℕ → Bytes → Type 0
EndsWord test none [] = ⊥
EndsWord test (some b) [] = test b ≡ false
EndsWord test beyond (c ∷ _) = test c ≡ false

-- What passing `s`, which has no line feed, does to the lexer: `t` is left.
pub record Scanned (s t : Bytes) (l m : Lexer) : Type 0 where
  pub rest : m.rest ≡ t
  pub ptr : m.ptr ≡ l.ptr + length s
  pub base : m.base ≡ l.base
  pub line : m.line ≡ l.line
  pub col : m.col ≡ l.col

lexer_step_stays :
    (c : ℕ) (r : Bytes) (l : Lexer)
    → l.rest ≡ c ∷ r
    → c ≢ b'\n'
    → Scanned (c ∷ []) r l (lexer_step l)
unfolding lexer_step
lexer_step_stays c r l e h = ground arith

Scanned-cons :
    {c : ℕ} {s t u : Bytes} {l m n : Lexer}
    → Scanned (c ∷ []) t l m
    → Scanned s u m n
    → Scanned (c ∷ s) u l n
Scanned-cons a b = ground arith

Scanned-nil : (t : Bytes) (l : Lexer) → l.rest ≡ t → Scanned [] t l l
Scanned-nil t l e = ground arith

-- A scan passes exactly the bytes that pass its test.
pub scan_loop_exact :
    (continues : ℕ → Bool) (beyond : Option ℕ) (s t : Bytes) (l : Lexer)
    → continues b'\n' ≡ false
    → l.rest ≡ s ++ t
    → all_bytes continues s ≡ true
    → EndsWord continues beyond t
    → (m : Lexer) × (scan_loop continues beyond (s ++ t) l ≡ some m) × Scanned s t l m
unfolding scan_loop
scan_loop_exact continues none [] [] l feed e all h = absurd h
scan_loop_exact continues (some b) [] [] l feed e all h = (l, rw h, Scanned-nil [] l e)
scan_loop_exact continues beyond [] (c ∷ t) l feed e all h = (l, rw h, Scanned-nil (c ∷ t) l e)
scan_loop_exact continues beyond (c ∷ s) t l feed e all h =
    let both = &&-true (continues c) (all_bytes continues s) all in
    let no_feed : c ≢ b'\n' = λ same. cc (both.0, ap continues same) in
    let (m, scanned, at) =
      scan_loop_exact continues beyond s t (lexer_step l) feed (rest-lexer_step c (s ++ t) l e)
        both.1 h in
    (m, rw both.0 scanned, Scanned-cons (lexer_step_stays c (s ++ t) l e no_feed) at)

take-append_length : (n : ℕ) (s t : Bytes) → n ≡ length s → take n (s ++ t) ≡ s
take-append_length zero [] t e = refl
take-append_length zero (c ∷ s) t e = absurd (omega arith)
take-append_length (suc n) [] t e = absurd (omega arith)
take-append_length (suc n) (c ∷ s) t e = ap (λ r. c ∷ r) (take-append_length n s t (omega arith))

finish_word_text :
    (w t from : Bytes) (l : Lexer)
    → from ≡ w ++ t
    → l.ptr ≡ l.base + length w
    → finish_word from l ≡ stop (record l { token = check_keywords keywords w ident })
unfolding finish_word
finish_word_text w t from l e h =
    let text : take (l.ptr - l.base) from ≡ w =
      ap (take (l.ptr - l.base)) e ∙ take-append_length (l.ptr - l.base) w t (omega arith) in
    simp text

digit_lem :
    (c : ℕ)
    → is_number_dec c ≡ true
    → (starts_none symbols_1 c ≡ true)
      × (starts_none symbols_2 c ≡ true)
      × (starts_none symbols_3 c ≡ true)
      × (is_whitespace c ≡ false)
      × (c == b'"' ≡ false)
      × (is_number_start c ≡ true)
unfolding is_number_start is_whitespace
digit_lem c h = (ground arith, ground arith, ground arith, ground arith, ground arith, ground arith)

-- The round on a digit.
lex_round_number :
    (beyond : Option ℕ) (c : ℕ) (r : Bytes) (l : Lexer)
    → l.rest ≡ c ∷ r
    → is_number_dec c ≡ true
    → lex_round beyond c l
      ≡ elim (scan_loop continues_number beyond (lexer_step (mark l)).rest (lexer_step (mark l))) [
        | none ↦ overrun
        | some m ↦ stop (record m { token = number_literal })
      ]
unfolding lex_round lex_literal lex_number
lex_round_number beyond c r l e h =
    let d = digit_lem c h in
    simp d.3 (lex_symbol-lex_literal beyond c r (mark l) e d.0 d.1 d.2 ∙ simp (d.4, d.5))

module _ (beyond : Option ℕ) (c : ℕ) (s t : Bytes) (l : Lexer) (e : l.rest ≡ c ∷ (s ++ t)) where
  -- The first byte is passed unseen, and then the scan runs.
  scan_behind :
      (continues : ℕ → Bool)
      → continues b'\n' ≡ false
      → c ≢ b'\n'
      → all_bytes continues s ≡ true
      → EndsWord continues beyond t
      → (m : Lexer) × (scan_loop continues beyond (lexer_step (mark l)).rest (lexer_step (mark l))
          ≡ some m)
        × Scanned (c ∷ s) t (mark l) m
  scan_behind continues feed no_feed all h =
      let rest = rest-lexer_step c (s ++ t) (mark l) e in
      let (m, scanned, at) =
        scan_loop_exact continues beyond s t (lexer_step (mark l)) feed rest all h in
      (m, simp rest scanned, Scanned-cons (lexer_step_stays c (s ++ t) (mark l) e no_feed) at)

  -- At a byte that begins a word, `lexer_next` returns the longest word there: all of `s`, whose
  -- bytes continue it, up to `t`, which does not. The token is the keyword with that text or
  -- else an identifier; it starts at `ptr`, with the line and the column of its first byte.
  pub lexer_next_word :
      token_equal l.token invalid || token_equal l.token eof ≡ false
      → is_ident_start c ≡ true
      → all_bytes is_ident s ≡ true
      → EndsWord is_ident beyond t
      → (m : Lexer) × (lexer_next beyond l ≡ done m)
        × WordToken keywords (c ∷ s) m.token
        × Scanned (c ∷ s) t (mark l) m
  lexer_next_word more start all h =
      let no_feed : c ≢ b'\n' = unfold is_ident_start in ground arith in
      let feed : is_ident b'\n' ≡ false = unfold is_ident in refl in
      let (m, scanned, at) = scan_behind is_ident feed no_feed all h in
      let found = record m { token = ident } in
      let word = record m { token = check_keywords keywords (c ∷ s) ident } in
      let round : lex_round beyond c l ≡ stop word =
        lex_round_word beyond c (s ++ t) l e start
        ∙ simp scanned
            (finish_word_text (c ∷ s) t l.rest found e (omega (arith, at.ptr, at.base))) in
      (
        word,
        lexer_next_step beyond c (s ++ t) l more e ∙ simp round,
        check_keywords-WordToken (c ∷ s),
        record { rest = at.rest; ptr = at.ptr; base = at.base; line = at.line; col = at.col },
      )

  -- At a digit `lexer_next` returns a number literal: the longest text of letters, digits, dots
  -- and quotes there. It starts at `ptr`, with the line and the column of its first byte.
  pub lexer_next_number :
      token_equal l.token invalid || token_equal l.token eof ≡ false
      → is_number_dec c ≡ true
      → all_bytes continues_number s ≡ true
      → EndsWord continues_number beyond t
      → (m : Lexer) × (lexer_next beyond l ≡ done m)
        × (m.token ≡ number_literal)
        × Scanned (c ∷ s) t (mark l) m
  lexer_next_number more start all h =
      let no_feed : c ≢ b'\n' = unfold is_number_dec in ground arith in
      let feed : continues_number b'\n' ≡ false = unfold continues_number in refl in
      let (m, scanned, at) = scan_behind continues_number feed no_feed all h in
      let number = record m { token = number_literal } in
      let round : lex_round beyond c l ≡ stop number =
        lex_round_number beyond c (s ++ t) l e start ∙ simp scanned in
      (
        number,
        lexer_next_step beyond c (s ++ t) l more e ∙ simp round,
        refl,
        record { rest = at.rest; ptr = at.ptr; base = at.base; line = at.line; col = at.col },
      )
