-- ===== src/Lexer/Moves.antt =====
-- How the scanners of src/lexer.c move through the text: which bytes they pass, and what that does
-- to the pointer, the line count and the start of the line.
use mathlib.Core.List.{append_assoc}
use low.Prelude.{
  ℕ, zero, suc, ◌+◌, ◌%◌, ◌≤◌, [], ◌∷◌, ◌++◌, ◌==◌, if◌then◌else◌, Bytes, u32_mod, length,
  length-append, List-cases, inl, inr, ◌≡◌, refl, sym, ap, ◌∙◌, arith,
}
use low.Lexer.Token.{Token}
use low.Lexer.Defs.{Lexer, lexer_step, lexer_steps}

-- Line feeds.
abbrev pub newlines : Bytes → ℕ
newlines [] = 0
newlines (c ∷ s) = if c == b'\n' then suc (newlines s) else newlines s

-- Where the last line begins, for a text that stands at `pos` in a line that begins at `start`.
abbrev pub line_start : ℕ → ℕ → Bytes → ℕ
line_start pos start [] = start
line_start pos start (c ∷ s) = line_start (pos + 1) (if c == b'\n' then pos + 1 else start) s

newlines-append : (s t : Bytes) → newlines (s ++ t) ≡ newlines s + newlines t
newlines-append [] t = omega arith
newlines-append (c ∷ s) t = ground (arith, newlines-append s t)

line_start-append :
    (pos start : ℕ) (s t : Bytes)
    → line_start pos start (s ++ t) ≡ line_start (pos + length s) (line_start pos start s) t
line_start-append pos start [] t = let e : pos + 0 ≡ pos = omega arith in rw e
line_start-append pos start (c ∷ s) t =
    let e : pos + suc (length s) ≡ pos + 1 + length s = omega arith in
    line_start-append (pos + 1) (if c == b'\n' then pos + 1 else start) s t ∙ rw e

-- `l'` is `l` after passing over `eaten`.
pub record Passes (eaten : Bytes) (l l' : Lexer) : Type 0 where
  pub text : l.rest ≡ eaten ++ l'.rest
  pub offset : l'.ptr ≡ l.ptr + length eaten
  pub lines : l'.line % u32_mod ≡ (l.line + newlines eaten) % u32_mod
  pub start : l'.line_base ≡ line_start l.ptr l.line_base eaten
  pub file : l'.filename ≡ l.filename

-- `l'` is `l` after passing over some bytes.
pub record Moves (l l' : Lexer) : Type 0 where
  pub eaten : Bytes
  pub passes : Passes eaten l l'

pub Moves-refl : (l : Lexer) → Moves l l
Moves-refl l = record {
  eaten = [];
  passes = record {
    text = refl;
    offset = omega arith;
    lines = omega arith;
    start = refl;
    file = refl;
  };
}

pub Moves-trans : {l m n : Lexer} → Moves l m → Moves m n → Moves l n
Moves-trans {l} {m} {n} a b = record {
  eaten = a.eaten ++ b.eaten;
  passes = record {
    text = p.text ∙ ap (λ t. a.eaten ++ t) q.text ∙ sym (append_assoc a.eaten b.eaten n.rest);
    offset = omega (arith, length-append a.eaten b.eaten);
    lines = omega (arith, newlines-append a.eaten b.eaten);
    start =
        q.start
        ∙ ap (λ k. line_start k m.line_base b.eaten) p.offset
        ∙ ap (λ k. line_start (l.ptr + length a.eaten) k b.eaten) p.start
        ∙ sym (line_start-append l.ptr l.line_base a.eaten b.eaten);
    file = q.file ∙ p.file;
  };
}
  where
    p : Passes a.eaten l m
    p = a.passes

    q : Passes b.eaten m n
    q = b.passes

-- A change of the token, its start or its column moves nothing.
pub Moves-stamp :
    {l : Lexer} (m : Lexer) (b c : ℕ) (t : Token)
    → Moves l m
    → Moves l (record m { base = b; col = c; token = t })
Moves-stamp m b c t h = record {
  eaten = h.eaten;
  passes = record {
    text = h.passes.text;
    offset = h.passes.offset;
    lines = h.passes.lines;
    start = h.passes.start;
    file = h.passes.file;
  };
}

pub lexer_step-Passes :
    (c : ℕ) (r : Bytes) (l : Lexer) → l.rest ≡ c ∷ r → Passes (c ∷ []) l (lexer_step l)
unfolding lexer_step
lexer_step-Passes c r l e = ground arith

pub rest-lexer_step : (c : ℕ) (r : Bytes) (l : Lexer) → l.rest ≡ c ∷ r → (lexer_step l).rest ≡ r
unfolding lexer_step
rest-lexer_step c r l e = ground arith

pub token-lexer_step : (l : Lexer) → (lexer_step l).token ≡ l.token
unfolding lexer_step
token-lexer_step l = ground arith

pub lexer_step-Moves : (c : ℕ) (r : Bytes) (l : Lexer) → l.rest ≡ c ∷ r → Moves l (lexer_step l)
lexer_step-Moves c r l e = record { eaten = c ∷ []; passes = lexer_step-Passes c r l e }

pub lexer_steps-Moves : (n : ℕ) (l : Lexer) → n ≤ length l.rest → Moves l (lexer_steps l n)
unfolding lexer_steps
lexer_steps-Moves zero l h = Moves-refl l
lexer_steps-Moves (suc n) l h = elim (List-cases l.rest) [
  | inl e ↦ absurd (omega (arith, ap length e))
  | inr (c, r, e) ↦ Moves-trans (lexer_step-Moves c r l e) (
      lexer_steps-Moves n (lexer_step l)
        (omega (arith, ap length e, ap length (rest-lexer_step c r l e))))
]

-- What is left shrinks by what was passed.
pub length-Moves : {l m : Lexer} (h : Moves l m) → length l.rest ≡ length h.eaten + length m.rest
length-Moves {m = m} h = ap length h.passes.text ∙ length-append h.eaten m.rest
