-- ===== src/Lexer/Skips.antt =====
-- What `lexer_next` of src/lexer.c passes over between tokens: spaces, line feeds and comments,
-- and where a line feed becomes a semicolon.
use low.Prelude.{
  ℕ, zero, suc, ◌+◌, ◌%◌, ◌<◌, true, false, [], ◌∷◌, ◌++◌, Option, ◌==◌, Bytes, codes, u32_mod,
  length, drop, ◌≡◌, refl, ap, ◌∙◌, ◌||◌, ◌&&◌, arith, &&-true, List-cases, inl, inr, leb, not,
}
use mathlib.Core.Path.{subst}
use low.Lexer.Token.{Token, eof, invalid, semicolon, token_equal}
use low.Lexer.Tables.{terminators, symbols_3}
use low.Lexer.Defs.{Lexer, is_whitespace, lexer_step, consume_oneline_comment, oneline_loop}
use low.Lexer.Next.{
  again, stop, lex_round, lex_symbol, lex_double, mark, next_loop, lexer_next, done, is_terminator,
  lex_space, skip, starts_with, remaining,
}
use low.Lexer.Moves.{rest-lexer_step, token-lexer_step}
use low.Lexer.Rounds.{Advances, lex_round-Advances}
use low.Lexer.Total.{lexer_next_step, Round-cases}
use low.Lexer.Words.{all_bytes}
use low.Lexer.Heads.{table-none}

-- The outcome does not depend on the fuel, if there is a round for each byte and one more.
next_loop_fuel :
    (beyond : Option ℕ) (f g : ℕ) (l : Lexer)
    → length l.rest < f
    → length l.rest < g
    → next_loop beyond f l ≡ next_loop beyond g l
unfolding next_loop
next_loop_fuel beyond zero g l hf hg = absurd (omega arith)
next_loop_fuel beyond (suc f) zero l hf hg = absurd (omega arith)
next_loop_fuel beyond (suc f) (suc g) l hf hg = elim (List-cases l.rest) [
  | inl e ↦ simp (e, next_loop)
  | inr (c, r, e) ↦
      let moved = lex_round-Advances beyond c r l e in
      elim (Round-cases (lex_round beyond c l)) [
        | inl (m, go) ↦
            let shorter = (subst (Advances l) go moved).1 in
            simp (e, go, next_loop) (next_loop_fuel beyond f g m (omega arith) (omega arith))
        | inr (inl (m, end)) ↦ simp (e, end, next_loop)
        | inr (inr over) ↦ simp (e, over, next_loop)
      ]
]

-- A round that goes on and keeps the token leaves the rest of the work to a call from there.
pub lexer_next_again :
    (beyond : Option ℕ) (c : ℕ) (r : Bytes) (l m : Lexer)
    → token_equal l.token invalid || token_equal l.token eof ≡ false
    → l.rest ≡ c ∷ r
    → lex_round beyond c l ≡ again m
    → m.token ≡ l.token
    → lexer_next beyond l ≡ lexer_next beyond m
lexer_next_again beyond c r l m more e round keeps =
    let shorter = (subst (Advances l) round (lex_round-Advances beyond c r l e)).1 in
    let goes_on : token_equal m.token invalid || token_equal m.token eof ≡ false =
      ap (λ t. token_equal t invalid || token_equal t eof) keeps ∙ more in
    lexer_next_step beyond c r l more e
    ∙ simp round (
        next_loop_fuel beyond (length l.rest) (suc (length m.rest)) m shorter (omega arith)
        ∙ unfold lexer_next in simp goes_on)

feed_step :
    (r : Bytes) (l : Lexer)
    → l.rest ≡ b'\n' ∷ r
    → lexer_step l ≡ record l {
      rest = r;
      ptr = l.ptr + 1;
      line = (l.line + 1) % u32_mod;
      col = 0;
      line_base = l.ptr + 1;
    }
unfolding lexer_step
feed_step r l e = simp e

-- A byte of white space is passed, unless it is a line feed behind a token that ends a statement.
pub lexer_next_space :
    (beyond : Option ℕ) (c : ℕ) (r : Bytes) (l : Lexer)
    → token_equal l.token invalid || token_equal l.token eof ≡ false
    → l.rest ≡ c ∷ r
    → is_whitespace c ≡ true
    → (c == b'\n' && is_terminator terminators l.token) ≡ false
    → lexer_next beyond l ≡ lexer_next beyond (lexer_step l)
lexer_next_space beyond c r l more e space other =
    lexer_next_again beyond c r l (lexer_step l) more e
      (unfold lex_round lex_space in simp (space, other)) (token-lexer_step l)

terminator_goes_on :
    (t : Token)
    → is_terminator terminators t ≡ true
    → token_equal t invalid || token_equal t eof ≡ false
unfolding is_terminator token_equal
terminator_goes_on t h = ground arith

-- A line feed behind a token that ends a statement is returned as a semicolon. It starts at the
-- line feed, but its location is the start of the next line.
pub lexer_next_feed :
    (beyond : Option ℕ) (r : Bytes) (l : Lexer)
    → is_terminator terminators l.token ≡ true
    → l.rest ≡ b'\n' ∷ r
    → (m : Lexer) × (lexer_next beyond l ≡ done m)
      × (m.token ≡ semicolon)
      × (m.rest ≡ r)
      × (m.base ≡ l.ptr)
      × (m.ptr ≡ l.ptr + 1)
      × (m.line ≡ (l.line + 1) % u32_mod)
      × (m.col ≡ 0)
      × (m.line_base ≡ l.ptr + 1)
lexer_next_feed beyond r l ends e =
    let feed = mark (record l { token = semicolon }) in
    let round : lex_round beyond b'\n' l ≡ stop (lexer_step feed) =
      unfold lex_round lex_space is_whitespace in simp ends in
    (
      lexer_step feed,
      lexer_next_step beyond b'\n' r l (terminator_goes_on l.token ends) e ∙ simp round,
      simp (feed_step r feed e),
      simp (feed_step r feed e),
      simp (feed_step r feed e),
      simp (feed_step r feed e),
      simp (feed_step r feed e),
      simp (feed_step r feed e),
      simp (feed_step r feed e),
    )

-- A comment of one line is passed with its line feed.
oneline_loop_text :
    (s t : Bytes) (l : Lexer)
    → all_bytes (λ c. not (c == b'\n')) s ≡ true
    → l.rest ≡ s ++ (b'\n' ∷ t)
    → ((oneline_loop (s ++ (b'\n' ∷ t)) l).rest ≡ t)
      × ((oneline_loop (s ++ (b'\n' ∷ t)) l).token ≡ l.token)
unfolding oneline_loop
oneline_loop_text [] t l h e = (rest-lexer_step b'\n' t l e, token-lexer_step l)
oneline_loop_text (c ∷ s) t l h e =
    let both = &&-true (not (c == b'\n')) (all_bytes (λ c. not (c == b'\n')) s) h in
    let other : c == b'\n' ≡ false = ground arith in
    let rest =
      oneline_loop_text s t (lexer_step l) both.1 (rest-lexer_step c (s ++ (b'\n' ∷ t)) l e) in
    simp other (rest.0, rest.1 ∙ token-lexer_step l)

oneline_room :
    (l : Lexer) (a b : ℕ) (s : Bytes)
    → l.rest ≡ a ∷ b ∷ s
    → length l.rest < u32_mod
    → leb 2 (remaining (mark l)) ≡ true
oneline_room l a b s e short = ground (arith, ap length e)

-- The rest of the line behind `//`, and its line feed, are passed with no look at the token before:
-- where a statement ends on that line, no semicolon is made of the line feed.
pub lexer_next_oneline :
    (beyond : Option ℕ) (s t : Bytes) (l : Lexer)
    → token_equal l.token invalid || token_equal l.token eof ≡ false
    → all_bytes (λ c. not (c == b'\n')) s ≡ true
    → l.rest ≡ b'/' ∷ b'/' ∷ (s ++ (b'\n' ∷ t))
    → length l.rest < u32_mod
    → (m : Lexer) × (lexer_next beyond l ≡ lexer_next beyond m) × (m.rest ≡ t) × (m.token ≡ l.token)
unfolding consume_oneline_comment
lexer_next_oneline beyond s t l more letters e short =
    let body = s ++ (b'\n' ∷ t) in
    let k = skip (mark l) 2 in
    let behind : k.rest ≡ body = ap (drop 2) e in
    let passed = oneline_loop_text s t k letters behind in
    let m = consume_oneline_comment k in
    let m_eq : m ≡ oneline_loop body k = ap (λ r. oneline_loop r k) behind in
    let room : leb 2 (remaining (mark l)) ≡ true = oneline_room l b'/' b'/' body e short in
    let slashes : starts_with (codes "//") (mark l).rest ≡ true = unfold starts_with in simp e in
    let round : lex_round beyond b'/' l ≡ again m =
      unfold lex_round is_whitespace lex_symbol lex_double in
      (table-none 3 b'/' (b'/' ∷ body) (mark l) symbols_3 _ e refl ∙ simp (room, slashes)) in
    let kept : m.token ≡ l.token = ap (λ n. n.token) m_eq ∙ passed.1 in
    (
      m,
      lexer_next_again beyond b'/' (b'/' ∷ body) l m more e round kept,
      ap (λ n. n.rest) m_eq ∙ passed.0,
      kept,
    )
