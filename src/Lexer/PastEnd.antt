-- ===== src/Lexer/PastEnd.antt =====
-- When `lexer_next` of src/lexer.c reads behind the end of the file: the loops over numbers and
-- words test no bound, so it depends on the byte that follows the file in memory.
use mathlib.Core.Path.{subst}
use low.Prelude.{
  ℕ, zero, suc, Bool, false, List, [], ◌∷◌, none, some, ◌==◌, if◌then◌else◌, Bytes, codes, length,
  List-cases, Bool-cases, Option-cases, inl, inr, ◌≡◌, ◌≢◌, refl, ◌||◌, ◌&&◌, arith, ◌⊎◌, leb,
}
use low.Lexer.Token.{Token, ident, token_equal, eof, invalid}
use low.Lexer.Tables.{terminators, symbols_1, symbols_2, symbols_3}
use low.Lexer.Defs.{
  Lexer, lexer_step, scan_loop, is_whitespace, is_number_start, is_ident_start, is_ident,
  continues_number,
}
use low.Lexer.Next.{
  Round, again, stop, overrun, lex_round, Outcome, done, past_end, out_of_fuel, next_loop,
  lexer_next, lex_literal, lex_single, lex_double, lex_symbol, lex_space, mark, emit, remaining,
  check_tokens, is_terminator, starts_with,
}
use low.Lexer.Total.{Round-cases, lexer_next-ne-out_of_fuel}

abbrev IsInside : Round → Type 0
IsInside (again l) = Unit
IsInside (stop l) = Unit
IsInside overrun = ⊥

module _ (b : ℕ) (word_ends : is_ident b ≡ false) (number_ends : continues_number b ≡ false) where
  scan_loop-ne-none :
      (continues : ℕ → Bool) (s : Bytes) (l : Lexer)
      → continues b ≡ false
      → scan_loop continues (some b) s l ≢ none
  unfolding scan_loop
  scan_loop-ne-none continues [] l h = λ bad. ground arith
  scan_loop-ne-none continues (c ∷ r) l h =
      ground (arith, scan_loop-ne-none continues r (lexer_step l) h)

  -- `finish` is what a round does with the lexer behind the scanned bytes.
  scan-IsInside :
      (continues : ℕ → Bool) (finish : Lexer → Round) (s : Bytes) (l : Lexer)
      → continues b ≡ false
      → ((m : Lexer) → IsInside (finish m))
      → IsInside (elim (scan_loop continues (some b) s l) [ none ↦ overrun | some m ↦ finish m ])
  scan-IsInside continues finish s l h keep =
      elim (Option-cases (scan_loop continues (some b) s l)) [
        | inl out ↦ absurd (scan_loop-ne-none continues s l h out)
        | inr (m, found) ↦ rw found (keep m)
      ]

  lex_literal-IsInside : (c : ℕ) (l : Lexer) → IsInside (lex_literal (some b) c l)
  unfolding lex_literal
  lex_literal-IsInside c l = elim (Bool-cases (c == b'"')) [
    | inl quote ↦ rw quote tt
    | inr other ↦ rw other (elim (Bool-cases (is_number_start c)) [
      | inl number ↦ rw number (scan-IsInside continues_number _ _ _ number_ends (λ m. tt))
      | inr letter ↦ rw letter (elim (Bool-cases (is_ident_start c)) [
        | inl word ↦ rw word (scan-IsInside is_ident _ _ _ word_ends (λ m. tt))
        | inr none_of_these ↦ rw none_of_these (elim (Bool-cases (token_equal l.token ident)) [
          | inl stale ↦ rw stale tt
          | inr fresh ↦ rw fresh tt
        ])
      ])
    ])
  ]

  table-IsInside :
      (l : Lexer) (n : ℕ) (table : List (Bytes × Token)) (next : Round)
      → IsInside next
      → IsInside (elim (if leb n (remaining l) then check_tokens table l.rest else none) [
        | some t ↦ emit l n t
        | none ↦ next
      ])
  table-IsInside l n table next h =
      elim (Option-cases (if leb n (remaining l) then check_tokens table l.rest else none)) [
        | inl nothing ↦ rw nothing h
        | inr (t, found) ↦ rw found tt
      ]

  lex_double-IsInside : (c : ℕ) (l : Lexer) → IsInside (lex_double (some b) c l)
  unfolding lex_double lex_single
  lex_double-IsInside c l =
      elim (Bool-cases (leb 2 (remaining l) && starts_with (codes "//") l.rest)) [
        | inl oneline ↦ rw oneline tt
        | inr no_oneline ↦
            rw no_oneline
              (elim (Bool-cases (leb 2 (remaining l) && starts_with (codes "/*") l.rest)) [
                | inl multiline ↦ rw multiline tt
                | inr no_comment ↦ rw no_comment (
                    table-IsInside l 2 symbols_2 _
                      (table-IsInside l 1 symbols_1 _ (lex_literal-IsInside c l)))
              ])
      ]

  lex_round-IsInside : (c : ℕ) (l : Lexer) → IsInside (lex_round (some b) c l)
  unfolding lex_round lex_space lex_symbol
  lex_round-IsInside c l = elim (Bool-cases (is_whitespace c)) [
    | inl space ↦ rw space (elim (Bool-cases (c == b'\n' && is_terminator terminators l.token)) [
      | inl feed ↦ rw feed tt
      | inr other ↦ rw other tt
    ])
    | inr other ↦ rw other (table-IsInside (mark l) 3 symbols_3 _ (lex_double-IsInside c (mark l)))
  ]

  next_loop-ne-past_end : (fuel : ℕ) (l : Lexer) → next_loop (some b) fuel l ≢ past_end
  unfolding next_loop
  next_loop-ne-past_end zero l = λ bad. ground arith
  next_loop-ne-past_end (suc fuel) l = elim (List-cases l.rest) [
    | inl e ↦ λ bad. ground arith
    | inr (c, r, e) ↦ elim (Round-cases (lex_round (some b) c l)) [
      | inl (k, go) ↦ λ bad. next_loop-ne-past_end fuel k (rw (e, go, next_loop) at bad)
      | inr (inl (k, end)) ↦ λ bad. ground arith
      | inr (inr over) ↦ absurd (subst IsInside over (lex_round-IsInside c l))
    ]
  ]

Outcome-cases : (o : Outcome) → ((m : Lexer) × (o ≡ done m)) ⊎ (o ≡ past_end) ⊎ (o ≡ out_of_fuel)
Outcome-cases (done m) = inl (m, refl)
Outcome-cases past_end = inr (inl refl)
Outcome-cases out_of_fuel = inr (inr refl)

-- Where the byte behind the file continues neither a word nor a number, `lexer_next` returns, in
-- every state.
pub lexer_next_returns :
    (b : ℕ) (l : Lexer)
    → is_ident b ≡ false
    → continues_number b ≡ false
    → (m : Lexer) × (lexer_next (some b) l ≡ done m)
unfolding lexer_next
lexer_next_returns b l word_ends number_ends = elim (Outcome-cases (lexer_next (some b) l)) [
  | inl found ↦ found
  | inr (inr fuel) ↦ absurd (lexer_next-ne-out_of_fuel (some b) l fuel)
  | inr (inl over) ↦ elim (Bool-cases (token_equal l.token invalid || token_equal l.token eof)) [
    | inl ended ↦ absurd (ground arith)
    | inr more ↦ absurd (
        next_loop-ne-past_end b word_ends number_ends (suc (length l.rest)) l
          (rw (more, lexer_next) at over))
  ]
]
