-- ===== src/Lexer/Total.antt =====
-- `lexer_next` of src/lexer.c returns, and what it has passed over when it does.
use low.Prelude.{
  ℕ, zero, suc, ◌<◌, ◌%◌, false, ◌∷◌, ◌++◌, Option, Bytes, u32_mod, length, List-cases, Bool-cases,
  inl, inr, ◌≡◌, ◌≢◌, refl, ◌||◌, arith, ◌⊎◌,
}
use mathlib.Core.Path.{subst}
use low.Lexer.Token.{token_equal, eof, invalid}
use low.Lexer.Defs.{Lexer, lexer_init}
use low.Lexer.Next.{
  Round, again, stop, overrun, lex_round, done, past_end, out_of_fuel, next_loop, lexer_next,
}
use low.Lexer.Moves.{Moves, Moves-refl, Moves-trans, Moves-stamp, newlines, line_start}
use low.Lexer.Rounds.{Advances, lex_round-Advances}

pub Round-cases :
    (round : Round)
    → ((m : Lexer) × (round ≡ again m)) ⊎ ((m : Lexer) × (round ≡ stop m)) ⊎ (round ≡ overrun)
Round-cases (again m) = inl (m, refl)
Round-cases (stop m) = inr (inl (m, refl))
Round-cases overrun = inr (inr refl)

Moves-of_done : (l m n : Lexer) → Moves l m → done m ≡ done n → Moves l n
Moves-of_done l m n h e = let same : m ≡ n = cc in subst (Moves l) same h

next_loop-Moves :
    (beyond : Option ℕ) (fuel : ℕ) (l m : Lexer) → next_loop beyond fuel l ≡ done m → Moves l m
unfolding next_loop
next_loop-Moves beyond zero l m h = absurd (ground arith)
next_loop-Moves beyond (suc fuel) l m h = elim (List-cases l.rest) [
  | inl e ↦
      Moves-of_done l _ m (Moves-stamp l l.base l.col eof (Moves-refl l)) (rw (e, next_loop) at h)
  | inr (c, r, e) ↦
      let moved = lex_round-Advances beyond c r l e in
      elim (Round-cases (lex_round beyond c l)) [
        | inl (k, go) ↦
            Moves-trans (subst (Advances l) go moved).0
              (next_loop-Moves beyond fuel k m (rw (e, go, next_loop) at h))
        | inr (inl (k, end)) ↦
            Moves-of_done l k m (subst (Advances l) end moved) (rw (e, end, next_loop) at h)
        | inr (inr over) ↦ absurd (ground arith)
      ]
]

-- Rounds that go on shorten what is left, so one round for each byte and one more are enough.
next_loop-ne-out_of_fuel :
    (beyond : Option ℕ) (fuel : ℕ) (l : Lexer)
    → length l.rest < fuel
    → next_loop beyond fuel l ≢ out_of_fuel
unfolding next_loop
next_loop-ne-out_of_fuel beyond zero l h = absurd (omega arith)
next_loop-ne-out_of_fuel beyond (suc fuel) l h = elim (List-cases l.rest) [
  | inl e ↦ λ bad. ground arith
  | inr (c, r, e) ↦
      let moved = lex_round-Advances beyond c r l e in
      elim (Round-cases (lex_round beyond c l)) [
        | inl (k, go) ↦
            let shorter = (subst (Advances l) go moved).1 in
            λ bad.
              next_loop-ne-out_of_fuel beyond fuel k (omega arith) (rw (e, go, next_loop) at bad)
        | inr (inl (k, end)) ↦ λ bad. ground arith
        | inr (inr over) ↦ λ bad. ground arith
      ]
]

-- `lexer_next` ends within one round of its loop for each byte that is left, and one more.
pub lexer_next-ne-out_of_fuel : (beyond : Option ℕ) (l : Lexer) → lexer_next beyond l ≢ out_of_fuel
unfolding lexer_next
lexer_next-ne-out_of_fuel beyond l =
    elim (Bool-cases (token_equal l.token invalid || token_equal l.token eof)) [
      | inl over ↦ λ bad. ground arith
      | inr more ↦ λ bad.
          next_loop-ne-out_of_fuel beyond (suc (length l.rest)) l (omega arith)
            (rw (more, lexer_next) at bad)
    ]

pub lexer_next-Moves : (beyond : Option ℕ) (l m : Lexer) → lexer_next beyond l ≡ done m → Moves l m
unfolding lexer_next
lexer_next-Moves beyond l m h =
    elim (Bool-cases (token_equal l.token invalid || token_equal l.token eof)) [
      | inl over ↦ Moves-of_done l l m (Moves-refl l) (rw (over, lexer_next) at h)
      | inr more ↦ next_loop-Moves beyond (suc (length l.rest)) l m (rw (more, lexer_next) at h)
    ]

-- The states of a lexer over a text: the first one, and those that calls of `lexer_next` lead to.
pub data Lexed (beyond : Option ℕ) (text name : Bytes) : Lexer → Type 0 where
  init : Lexed beyond text name (lexer_init text name)
  next :
      {l m : Lexer}
      → Lexed beyond text name l
      → lexer_next beyond l ≡ done m
      → Lexed beyond text name m

Lexed-Moves :
    {beyond : Option ℕ} {text name : Bytes} {l : Lexer}
    → Lexed beyond text name l
    → Moves (lexer_init text name) l
Lexed-Moves {text = text} {name = name} init = Moves-refl (lexer_init text name)
Lexed-Moves {beyond = beyond} (next {l} {m} before e) =
    Moves-trans (Lexed-Moves before) (lexer_next-Moves beyond l m e)

-- After any number of calls the text is what was passed over, followed by what is left. `ptr` is
-- the number of bytes passed over, the line is the number of line feeds among them (mod 2^32), and
-- `line_base` is where the last line among them begins; the file name is the one given.
pub Lexed-position :
    {beyond : Option ℕ} {text name : Bytes} {l : Lexer}
    → Lexed beyond text name l
    → (eaten : Bytes) × (text ≡ eaten ++ l.rest)
      × (l.ptr ≡ length eaten)
      × (l.line % u32_mod ≡ newlines eaten % u32_mod)
      × (l.line_base ≡ line_start 0 0 eaten)
      × (l.filename ≡ name)
unfolding lexer_init
Lexed-position h =
    let m = Lexed-Moves h in
    (
      m.eaten,
      m.passes.text,
      omega (arith, m.passes.offset),
      omega (arith, m.passes.lines),
      m.passes.start,
      m.passes.file,
    )

-- The first round of a call, where the lexer has not ended and bytes are left.
pub lexer_next_step :
    (beyond : Option ℕ) (c : ℕ) (r : Bytes) (l : Lexer)
    → token_equal l.token invalid || token_equal l.token eof ≡ false
    → l.rest ≡ c ∷ r
    → lexer_next beyond l ≡ elim (lex_round beyond c l) [
      | again m ↦ next_loop beyond (length l.rest) m
      | stop m ↦ done m
      | overrun ↦ past_end
    ]
unfolding lexer_next next_loop
lexer_next_step beyond c r l more e = simp (more, e, next_loop)
