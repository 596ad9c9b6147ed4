-- ===== src/Lexer/Words.antt =====
-- src/lexer.c on words: which tokens they become, and what happens at the end of the file.
use low.Prelude.{
  ℕ, Bool, true, false, List, [], ◌∷◌, Option, none, some, Bytes, Bool-cases, inl, inr, ◌≡◌, refl,
  sym, ap, ◌∙◌, ◌||◌, ◌&&◌, arith, ◌⊎◌, not, &&-true, ◌↔◌,
}
use mathlib.Core.List.{Memᴰ}
use mathlib.Core.List.Memᴰ
use low.Lexer.Token.{Token, ident, eof, invalid, token_equal}
use low.Lexer.Tables.{keywords}
use low.Lexer.Defs.{Lexer, is_ident_start, is_ident, lexer_step, scan_loop}
use low.Lexer.Next.{
  overrun, lex_literal, lex_round, lex_word, finish_word, mark, lexer_next, past_end,
  check_keywords, match_keyword,
}
use low.Lexer.Moves.{rest-lexer_step}
use low.Lexer.Total.{lexer_next_step}
use low.Lexer.Heads.{
  lex_symbol-lex_literal, is_ident_start-starts_none, is_ident_start-not_space,
  is_ident_start-not_literal,
}

-- Every byte passes the test.
abbrev pub all_bytes : (ℕ → Bool) → Bytes → Bool
all_bytes test [] = true
all_bytes test (c ∷ s) = test c && all_bytes test s

-- The text does not go on with a byte that passes the test.
abbrev pub ends : (ℕ → Bool) → Bytes → Bool
ends test [] = true
ends test (c ∷ s) = not (test c)

pub scan_loop_unmapped :
    (continues : ℕ → Bool) (s : Bytes) (l : Lexer)
    → all_bytes continues s ≡ true
    → scan_loop continues none s l ≡ none
unfolding scan_loop
scan_loop_unmapped continues [] l h = refl
scan_loop_unmapped continues (c ∷ s) l h =
    let both = &&-true (continues c) (all_bytes continues s) h in
    rw both.0 (scan_loop_unmapped continues s (lexer_step l) both.1)

-- The round on the first byte of a word.
pub lex_round_word :
    (beyond : Option ℕ) (c : ℕ) (r : Bytes) (l : Lexer)
    → l.rest ≡ c ∷ r
    → is_ident_start c ≡ true
    → lex_round beyond c l
      ≡ elim (scan_loop is_ident beyond (lexer_step (mark l)).rest (lexer_step (mark l))) [
        | none ↦ overrun
        | some m ↦ finish_word l.rest (record m { token = ident })
      ]
unfolding lex_round lex_literal lex_word
lex_round_word beyond c r l e h =
    let heads = is_ident_start-starts_none c h in
    let other = is_ident_start-not_literal c h in
    simp (is_ident_start-not_space c h) (
      lex_symbol-lex_literal beyond c r (mark l) e heads.0 heads.1 heads.2
      ∙ simp (other.0, other.1, h))

-- A file that ends in a word is read past its end, where nothing is mapped behind it: the loop
-- over the word has no bound.
pub lexer_next-past_end :
    (c : ℕ) (r : Bytes) (l : Lexer)
    → token_equal l.token invalid || token_equal l.token eof ≡ false
    → l.rest ≡ c ∷ r
    → is_ident_start c ≡ true
    → all_bytes is_ident r ≡ true
    → lexer_next none l ≡ past_end
lexer_next-past_end c r l more e start letters =
    let rest : (lexer_step (mark l)).rest ≡ r = rest-lexer_step c r (mark l) e in
    let scanned : scan_loop is_ident none (lexer_step (mark l)).rest (lexer_step (mark l)) ≡ none =
      simp rest (scan_loop_unmapped is_ident r (lexer_step (mark l)) letters) in
    let round : lex_round none c l ≡ overrun = lex_round_word none c r l e start ∙ simp scanned in
    lexer_next_step none c r l more e ∙ simp round

pub match_keyword_iff : (kw s : Bytes) → (match_keyword kw s ≡ true) ↔ (kw ≡ s)
unfolding match_keyword
match_keyword_iff [] [] = ground arith
match_keyword_iff [] (_ ∷ _) = ground arith
match_keyword_iff (_ ∷ _) [] = ground arith
match_keyword_iff (x ∷ kw) (y ∷ s) = ground (arith, match_keyword_iff kw s)

-- The token that a word stands for: that of the keyword with its text, or else `ident`.
pub data WordToken (table : List (Bytes × Token)) (s : Bytes) : Token → Type 0 where
  keyword : {k : Token} → Memᴰ (s, k) table → WordToken table s k
  plain : ((k : Token) → ¬ (Memᴰ (s, k) table)) → WordToken table s ident

check_keywords-mem :
    (table : List (Bytes × Token)) (s : Bytes) (t : Token)
    → Memᴰ (s, check_keywords table s t) table
      ⊎ ((k : Token) → ¬ (Memᴰ (s, k) table)) × (check_keywords table s t ≡ t)
unfolding check_keywords
check_keywords-mem [] s t = inr (λ k. Memᴰ.not-nil, refl)
check_keywords-mem ((kw, k) ∷ table) s t = elim (Bool-cases (match_keyword kw s)) [
  | inl same ↦ rw same (elim (check_keywords-mem table s k) [
    | inl later ↦ inl (Memᴰ.tail later)
    | inr unchanged ↦
        inl (Memᴰ.head (rw unchanged.1 (ap (λ w. (w, k)) (sym ((match_keyword_iff kw s).0 same)))))
  ])
  | inr other ↦ rw other (elim (check_keywords-mem table s t) [
    | inl later ↦ inl (Memᴰ.tail later)
    | inr unchanged ↦ inr (
      λ j m. elim (Memᴰ.cases_cons m) [
        | inl same ↦ differs (ap (λ p. p.0) same) other
        | inr later ↦ unchanged.0 j later
      ],
      unchanged.1,
    )
  ])
]
  where
    differs : s ≡ kw → match_keyword kw s ≡ false → ⊥
    differs e h = cc (h, (match_keyword_iff kw s).1 (sym e))

pub check_keywords-WordToken : (s : Bytes) → WordToken keywords s (check_keywords keywords s ident)
check_keywords-WordToken s = elim (check_keywords-mem keywords s ident) [
  | inl found ↦ keyword found
  | inr unchanged ↦ rw unchanged.1 (plain unchanged.0)
]
