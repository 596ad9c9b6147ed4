-- ===== src/Lexer/Heads.antt =====
-- Which bytes begin none of the symbols that src/lexer.c checks for.
use low.Prelude.{
  ℕ, Bool, true, false, List, [], ◌∷◌, Option, none, some, ◌==◌, if◌then◌else◌, Bytes, Bool-cases,
  inl, inr, ◌≡◌, refl, ◌∙◌, ◌&&◌, arith, leb, not,
}
use low.Lexer.Token.{Token}
use low.Lexer.Tables.{symbols_1, symbols_2, symbols_3}
use low.Lexer.Defs.{Lexer, is_ident_start, is_number_start, is_whitespace}
use low.Lexer.Next.{
  Round, lex_literal, lex_single, lex_double, lex_symbol, remaining, emit, check_tokens,
  starts_with,
}

-- No text of the table begins with `c`.
abbrev pub starts_none : List (Bytes × Token) → ℕ → Bool
starts_none [] c = true
starts_none (([], t) ∷ table) c = false
starts_none ((x ∷ _, t) ∷ table) c = not (x == c) && starts_none table c

pub check_tokens-none :
    (table : List (Bytes × Token)) (c : ℕ) (r : Bytes)
    → starts_none table c ≡ true
    → check_tokens table (c ∷ r) ≡ none
unfolding check_tokens starts_with
check_tokens-none [] c r h = refl
check_tokens-none (([], t) ∷ table) c r h = cc
check_tokens-none ((x ∷ _, t) ∷ table) c r h = ground (arith, check_tokens-none table c r)

pub table-none :
    (n c : ℕ) (r : Bytes) (l : Lexer) (table : List (Bytes × Token)) (next : Round)
    → l.rest ≡ c ∷ r
    → starts_none table c ≡ true
    → elim (if leb n (remaining l) then check_tokens table l.rest else none) [
      | some t ↦ emit l n t
      | none ↦ next
    ]
      ≡ next
table-none n c r l table next e h = elim (Bool-cases (leb n (remaining l))) [
  | inl room ↦ rw (room, e, check_tokens-none table c r h)
  | inr short ↦ rw short
]

starts_with-cons :
    (x : ℕ) (xs : Bytes) (c : ℕ) (r : Bytes) → x == c ≡ false → starts_with (x ∷ xs) (c ∷ r) ≡ false
unfolding starts_with
starts_with-cons x xs c r h = rw h

slash_lem : (c : ℕ) → starts_none symbols_2 c ≡ true → b'/' == c ≡ false
slash_lem c h = ground arith

comment-none :
    (n c : ℕ) (r : Bytes) (l : Lexer) (xs : Bytes)
    → l.rest ≡ c ∷ r
    → starts_none symbols_2 c ≡ true
    → leb n (remaining l) && starts_with (b'/' ∷ xs) l.rest ≡ false
comment-none n c r l xs e h = elim (Bool-cases (leb n (remaining l))) [
  | inl room ↦ rw (room, e) (starts_with-cons b'/' xs c r (slash_lem c h))
  | inr short ↦ rw short
]

-- Behind the tables `lex_symbol` goes on to literals, words and garbage.
pub lex_symbol-lex_literal :
    (beyond : Option ℕ) (c : ℕ) (r : Bytes) (l : Lexer)
    → l.rest ≡ c ∷ r
    → starts_none symbols_1 c ≡ true
    → starts_none symbols_2 c ≡ true
    → starts_none symbols_3 c ≡ true
    → lex_symbol beyond c l ≡ lex_literal beyond c l
unfolding lex_symbol lex_double lex_single
lex_symbol-lex_literal beyond c r l e h1 h2 h3 =
    table-none 3 c r l symbols_3 _ e h3
    ∙ rw (comment-none 2 c r l (b'/' ∷ []) e h2, comment-none 2 c r l (b'*' ∷ []) e h2)
        (table-none 2 c r l symbols_2 _ e h2 ∙ table-none 1 c r l symbols_1 _ e h1)

pub is_ident_start-starts_none :
    (c : ℕ)
    → is_ident_start c ≡ true
    → (starts_none symbols_1 c ≡ true)
      × (starts_none symbols_2 c ≡ true)
      × (starts_none symbols_3 c ≡ true)
unfolding is_ident_start
is_ident_start-starts_none c h = (ground arith, ground arith, ground arith)

pub is_ident_start-not_space : (c : ℕ) → is_ident_start c ≡ true → is_whitespace c ≡ false
unfolding is_ident_start is_whitespace
is_ident_start-not_space c h = ground arith

pub is_ident_start-not_literal :
    (c : ℕ) → is_ident_start c ≡ true → (c == b'"' ≡ false) × (is_number_start c ≡ false)
unfolding is_ident_start is_number_start
is_ident_start-not_literal c h = (ground arith, ground arith)
