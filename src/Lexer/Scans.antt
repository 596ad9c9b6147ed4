-- ===== src/Lexer/Scans.antt =====
-- The scanners of src/lexer.c only move forward through the text.
use low.Prelude.{
  ℕ, Bool, true, false, [], ◌∷◌, ◌++◌, Option, none, some, ◌==◌, Bytes, length, drop, Bool-cases,
  &&-true, inl, inr, ◌≡◌, ◌≢◌, ◌&&◌, refl, arith,
}
use mathlib.Core.Path.{subst}
use low.Lexer.Token.{invalid, string_literal}
use low.Lexer.Defs.{
  Lexer, lexer_step, oneline_loop, consume_oneline_comment, multiline_loop,
  consume_multiline_comment, string_loop, lex_string, scan_loop, begins_with,
}
use low.Lexer.Next.{starts_with, skip}
use low.Lexer.Moves.{
  Moves, Passes, Moves-refl, Moves-trans, Moves-stamp, lexer_step-Moves, rest-lexer_step,
}

oneline_loop-Moves : (s : Bytes) (l : Lexer) → l.rest ≡ s → Moves l (oneline_loop s l)
unfolding oneline_loop
oneline_loop-Moves [] l e = Moves-refl l
oneline_loop-Moves (c ∷ r) l e =
    let step = lexer_step-Moves c r l e in
    let rest = oneline_loop-Moves r (lexer_step l) (rest-lexer_step c r l e) in
    elim (Bool-cases (c == b'\n')) [
      | inl feed ↦ rw feed step
      | inr other ↦ rw other (Moves-trans step rest)
    ]

pub consume_oneline_comment-Moves : (l : Lexer) → Moves l (consume_oneline_comment l)
unfolding consume_oneline_comment
consume_oneline_comment-Moves l = oneline_loop-Moves l.rest l refl

-- The byte that `begins_with` has seen is there to be stepped over.
begins_with-step :
    (c : ℕ) (s : Bytes) (l : Lexer) → l.rest ≡ s → begins_with c s ≡ true → Moves l (lexer_step l)
begins_with-step c [] l e h = cc
begins_with-step c (d ∷ r) l e h = lexer_step-Moves d r l e

multiline_loop-Moves : (s : Bytes) (l : Lexer) → l.rest ≡ s → Moves l (multiline_loop s l)
unfolding multiline_loop
multiline_loop-Moves [] l e = Moves-refl l
multiline_loop-Moves (c ∷ r) l e =
    let step = lexer_step-Moves c r l e in
    let rest_e = rest-lexer_step c r l e in
    let rest = multiline_loop-Moves r (lexer_step l) rest_e in
    elim (Bool-cases (c == b'*' && begins_with b'/' r)) [
      | inl both ↦
          rw both
            (Moves-trans step (begins_with-step b'/' r (lexer_step l) rest_e (&&-true _ _ both).1))
      | inr other ↦ rw other (Moves-trans step rest)
    ]

pub consume_multiline_comment-Moves : (l : Lexer) → Moves l (consume_multiline_comment l)
unfolding consume_multiline_comment
consume_multiline_comment-Moves l = multiline_loop-Moves l.rest l refl

string_loop-Moves :
    (escape : Bool) (s : Bytes) (l : Lexer) → l.rest ≡ s → Moves l (string_loop escape s l)
unfolding string_loop
string_loop-Moves escape [] l e = Moves-stamp l l.base l.col invalid (Moves-refl l)
string_loop-Moves true (c ∷ r) l e =
    Moves-trans (lexer_step-Moves c r l e)
      (string_loop-Moves false r (lexer_step l) (rest-lexer_step c r l e))
string_loop-Moves false (c ∷ r) l e =
    let step = lexer_step-Moves c r l e in
    let rest = string_loop-Moves (c == b'\\') r (lexer_step l) (rest-lexer_step c r l e) in
    elim (Bool-cases (c == b'"')) [
      | inl quote ↦ rw quote step
      | inr other ↦ rw other (Moves-trans step rest)
    ]

pub lex_string-Moves : (c : ℕ) (r : Bytes) (l : Lexer) → l.rest ≡ c ∷ r → Moves l (lex_string l)
unfolding lex_string
lex_string-Moves c r l e =
    let opened = record l { token = string_literal } in
    Moves-trans (Moves-stamp l l.base l.col string_literal (Moves-refl l)) (
      Moves-trans (lexer_step-Moves c r opened e)
        (string_loop-Moves false (lexer_step opened).rest (lexer_step opened) refl))

Moves-of_some : (l m : Lexer) → some l ≡ some m → Moves l m
Moves-of_some l m h = let same : l ≡ m = cc in subst (Moves l) same (Moves-refl l)

pub scan_loop-Moves :
    (continues : ℕ → Bool) (beyond : Option ℕ) (s : Bytes) (l : Lexer) {m : Lexer}
    → l.rest ≡ s
    → scan_loop continues beyond s l ≡ some m
    → Moves l m
unfolding scan_loop
scan_loop-Moves continues none [] l {m} e h = cc
scan_loop-Moves continues (some b) [] l {m} e h = elim (Bool-cases (continues b)) [
  | inl more ↦ absurd (ground arith)
  | inr stops ↦ Moves-of_some l m (ground arith)
]
scan_loop-Moves continues beyond (c ∷ r) l {m} e h = elim (Bool-cases (continues c)) [
  | inl more ↦
      Moves-trans (lexer_step-Moves c r l e)
        (scan_loop-Moves continues beyond r (lexer_step l) (rest-lexer_step c r l e) (rw more at h))
  | inr stops ↦ Moves-of_some l m (ground arith)
]

pub starts_with-text : (x s : Bytes) → starts_with x s ≡ true → s ≡ x ++ drop (length x) s
unfolding starts_with
starts_with-text [] s h = refl
starts_with-text (x ∷ xs) [] h = cc
starts_with-text (x ∷ xs) (y ∷ ys) h = ground (arith, starts_with-text xs ys)

-- A comment mark is passed without a look at its bytes, none of which is a line feed.
pub skip-Passes :
    (a b : ℕ) (l : Lexer)
    → a ≢ b'\n'
    → b ≢ b'\n'
    → starts_with (a ∷ b ∷ []) l.rest ≡ true
    → Passes (a ∷ b ∷ []) l (skip l 2)
skip-Passes a b l ha hb h = ground (arith, starts_with-text (a ∷ b ∷ []) l.rest)
