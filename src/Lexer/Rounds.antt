-- ===== src/Lexer/Rounds.antt =====
-- One round of the loop of `lexer_next` in src/lexer.c: it moves forward, and a round that goes on
-- has passed at least one byte.
use low.Prelude.{
  ℕ, ◌<◌, Bool, true, List, [], ◌∷◌, Option, none, some, ◌==◌, if◌then◌else◌, Bytes, codes, length,
  Bool-cases, Option-cases, inl, inr, ◌≡◌, ◌≢◌, ◌&&◌, refl, ap, arith, leb, leb→le, &&-true,
}
use low.Lexer.Token.{Token, ident, token_equal, semicolon, number_literal}
use low.Lexer.Tables.{terminators, symbols_1, symbols_2, symbols_3}
use low.Lexer.Defs.{
  Lexer, lexer_step, lexer_steps, consume_oneline_comment, consume_multiline_comment, scan_loop,
  is_whitespace, is_number_start, is_ident_start, is_ident, continues_number,
}
use low.Lexer.Next.{
  starts_with, skip, Round, again, stop, overrun, emit, mark, remaining, finish_word, lex_word,
  lex_number, lex_literal, lex_single, lex_double, lex_symbol, lex_space, lex_round, check_tokens,
  is_terminator,
}
use low.Lexer.Moves.{
  Moves, Moves-refl, Moves-trans, Moves-stamp, lexer_step-Moves, rest-lexer_step, length-Moves,
  lexer_steps-Moves,
}
use low.Lexer.Scans.{
  consume_oneline_comment-Moves, consume_multiline_comment-Moves, lex_string-Moves, scan_loop-Moves,
  skip-Passes,
}

-- What a round does to the lexer `l`.
abbrev pub Advances : Lexer → Round → Type 0
Advances l (again m) = Moves l m × (length m.rest < length l.rest)
Advances l (stop m) = Moves l m
Advances l overrun = Unit

again-step : (c : ℕ) (r : Bytes) (l : Lexer) → l.rest ≡ c ∷ r → Advances l (again (lexer_step l))
again-step c r l e =
    (lexer_step-Moves c r l e, omega (arith, ap length e, ap length (rest-lexer_step c r l e)))

finish_word-Advances : (from : Bytes) (l m : Lexer) → Moves l m → Advances l (finish_word from m)
unfolding finish_word
finish_word-Advances from l m h = Moves-stamp m m.base m.col _ h

-- Every `emit` of n bytes stands behind the test `rem >= n`.
emit-Advances :
    (n : ℕ) (t : Token) (l : Lexer) → leb n (remaining l) ≡ true → Advances l (emit l n t)
emit-Advances n t l h =
    let m = lexer_steps l n in
    Moves-stamp m m.base m.col t (lexer_steps-Moves n l (omega (arith, leb→le n (remaining l) h)))

module _ (beyond : Option ℕ) (c : ℕ) (r : Bytes) (l : Lexer) (e : l.rest ≡ c ∷ r) where
  scan-Advances :
      (continues : ℕ → Bool) (finish : Lexer → Round)
      → ((m : Lexer) → Moves l m → Advances l (finish m))
      → Advances l (elim (scan_loop continues beyond (lexer_step l).rest (lexer_step l)) [
        | none ↦ overrun
        | some m ↦ finish m
      ])
  scan-Advances continues finish keep =
      elim (Option-cases (scan_loop continues beyond (lexer_step l).rest (lexer_step l))) [
        | inl out ↦ rw out tt
        | inr (m, found) ↦ rw found (
            keep m (
              Moves-trans (lexer_step-Moves c r l e)
                (scan_loop-Moves continues beyond (lexer_step l).rest (lexer_step l) refl found)))
      ]

  lex_number-Advances : Advances l (lex_number beyond l)
  unfolding lex_number
  lex_number-Advances =
      scan-Advances continues_number _ (λ m h. Moves-stamp m m.base m.col number_literal h)

  lex_word-Advances : Advances l (lex_word beyond c l)
  unfolding lex_word
  lex_word-Advances = elim (Bool-cases (is_ident_start c)) [
    | inl word ↦ rw word (
        scan-Advances is_ident _ (λ m h.
          finish_word-Advances l.rest l (record m { token = ident })
            (Moves-stamp m m.base m.col ident h)))
    | inr other ↦ rw other (elim (Bool-cases (token_equal l.token ident)) [
      | inl stale ↦ rw stale (finish_word-Advances l.rest l l (Moves-refl l))
      | inr fresh ↦ rw fresh (again-step c r l e)
    ])
  ]

  lex_literal-Advances : Advances l (lex_literal beyond c l)
  unfolding lex_literal
  lex_literal-Advances = elim (Bool-cases (c == b'"')) [
    | inl quote ↦ rw quote (lex_string-Moves c r l e)
    | inr other ↦ rw other (elim (Bool-cases (is_number_start c)) [
      | inl number ↦ rw number lex_number-Advances
      | inr word ↦ rw word lex_word-Advances
    ])
  ]

  -- A test of a table, and what follows where it finds nothing.
  table-Advances :
      (n : ℕ) (table : List (Bytes × Token)) (next : Round)
      → Advances l next
      → Advances l (elim (if leb n (remaining l) then check_tokens table l.rest else none) [
        | some t ↦ emit l n t
        | none ↦ next
      ])
  table-Advances n table next h = elim (Bool-cases (leb n (remaining l))) [
    | inl room ↦ rw room (elim (Option-cases (check_tokens table l.rest)) [
      | inl nothing ↦ rw nothing h
      | inr (t, found) ↦ rw found (emit-Advances n t l room)
    ])
    | inr short ↦ rw short h
  ]

  lex_single-Advances : Advances l (lex_single beyond c l)
  unfolding lex_single
  lex_single-Advances = table-Advances 1 symbols_1 _ lex_literal-Advances

  -- A comment is passed with its mark of two bytes.
  comment-Advances :
      (d : ℕ) (consume : Lexer → Lexer)
      → ((m : Lexer) → Moves m (consume m))
      → d ≢ b'\n'
      → starts_with (b'/' ∷ d ∷ []) l.rest ≡ true
      → Advances l (again (consume (skip l 2)))
  comment-Advances d consume keep hd h =
      let mark : Moves l (skip l 2) = record {
        eaten = b'/' ∷ d ∷ [];
        passes = skip-Passes b'/' d l (omega arith) hd h;
      } in
      let all = Moves-trans mark (keep (skip l 2)) in
      (all, omega (arith, length-Moves mark, length-Moves (keep (skip l 2))))

  lex_double-Advances : Advances l (lex_double beyond c l)
  unfolding lex_double
  lex_double-Advances = elim (Bool-cases (leb 2 (remaining l) && starts_with (codes "//") l.rest)) [
    | inl oneline ↦ rw oneline (
        comment-Advances b'/' consume_oneline_comment consume_oneline_comment-Moves (omega arith)
          (&&-true _ _ oneline).1)
    | inr no_oneline ↦
        rw no_oneline (elim (Bool-cases (leb 2 (remaining l) && starts_with (codes "/*") l.rest)) [
          | inl multiline ↦ rw multiline (
              comment-Advances b'*' consume_multiline_comment consume_multiline_comment-Moves
                (omega arith) (&&-true _ _ multiline).1)
          | inr no_comment ↦ rw no_comment (table-Advances 2 symbols_2 _ lex_single-Advances)
        ])
  ]

  lex_symbol-Advances : Advances l (lex_symbol beyond c l)
  unfolding lex_symbol
  lex_symbol-Advances = table-Advances 3 symbols_3 _ lex_double-Advances

  lex_space-Advances : Advances l (lex_space c l)
  unfolding lex_space
  lex_space-Advances = elim (Bool-cases (c == b'\n' && is_terminator terminators l.token)) [
    | inl feed ↦ rw feed (
        Moves-trans (Moves-stamp l l.ptr (mark l).col semicolon (Moves-refl l))
          (lexer_step-Moves c r (mark (record l { token = semicolon })) e))
    | inr other ↦ rw other (again-step c r l e)
  ]

-- A change of the token's start and column before the round.
Advances-mark : (l : Lexer) (round : Round) → Advances (mark l) round → Advances l round
Advances-mark l (again m) h =
    (Moves-trans (Moves-stamp l l.ptr (mark l).col l.token (Moves-refl l)) h.0, h.1)
Advances-mark l (stop m) h = Moves-trans (Moves-stamp l l.ptr (mark l).col l.token (Moves-refl l)) h
Advances-mark l overrun h = tt

pub lex_round-Advances :
    (beyond : Option ℕ) (c : ℕ) (r : Bytes) (l : Lexer)
    → l.rest ≡ c ∷ r
    → Advances l (lex_round beyond c l)
unfolding lex_round
lex_round-Advances beyond c r l e = elim (Bool-cases (is_whitespace c)) [
  | inl space ↦ rw space (lex_space-Advances beyond c r l e)
  | inr other ↦ rw other (Advances-mark l _ (lex_symbol-Advances beyond c r (mark l) e))
]
