-- ===== src/Parser/Reductions.antt =====
-- The reductions of src/parser.c keep what the stack holds.
use low.Prelude.{
  ℕ, ◌≤◌, ◌<◌, Bool, true, false, List, [], ◌∷◌, ◌++◌, Option, Bytes, ◌==◌, if◌then◌else◌,
  get_elem?, length, take, drop, map, ◌≡◌, inl, inr, refl, sym, ap, ◌∙◌, arith, Bool-cases,
  Option-cases, take-take, length-take,
}
use mathlib.Core.List.{reverse_aux, append-nil}
use low.Lexer.Token.{token_id}
use low.Lexer.Defs.{Lexer}
use low.Grammar.Symbols.{Rule}
use low.Reduce.Values.{Tok}
use low.Reduce.Values
use low.Reduce.Run.{reduced}
use low.Parser.Tables.{ParserState, ParserAction, StateOrLength, state, find_action, find_goto}
use low.Parser.Tables
use low.Parser.Defs.{
  Entry, returns, entry_toks, push_reduced, reduce_to, reduce_step, shift_step, act,
}
use low.Parser.Derives.{
  Reads, Derives, node, nothing, Leads, reach, IsConsistent, ActionIsValidBy, AcceptIsValid,
  ReduceIsValid, symbol_id, given, goto_target,
}
use low.Parser.Lookups.{all_below-at}
use low.Parser.Stack.{Holds, Holds-past, Popped, pop-Holds}
use low.Parser.Steps.{IsSound, shift_step-IsSound, accepts-IsSound, reach-here}

branch-true : (b : Bool) (X Y : Type 0) → b ≡ true → (if b then X else Y) → X
branch-true true X Y h v = v
branch-true false X Y h v = absurd (cc h)

branch-false : (b : Bool) (X Y : Type 0) → b ≡ false → (if b then X else Y) → Y
branch-false true X Y h v = absurd (cc h)
branch-false false X Y h v = v

module _ (file : Bytes) (atoi : Bytes → ℕ) (beyond : Option ℕ) (number : Rule → ℕ)
    (parser_states : List ParserState) (past : ℕ → List ℕ) where
  -- What follows a call of the reducer.
  pushed-IsSound :
      (first lex : Lexer) (b : Entry) (below : List Entry) (ids : List ℕ) (ys zs toks : List Tok)
      (id s : ℕ) (o : Values.Outcome Tok)
      → Holds file atoi number parser_states (b ∷ below) ids ys
      → Reads beyond first toks lex
      → toks ≡ ys ++ zs
      → Leads parser_states b.state id s
      → ((tok : Tok) → o ≡ Values.ok tok → Derives file atoi number id zs tok)
      → IsSound file atoi beyond number parser_states past first (push_reduced o s (b ∷ below) lex)
  unfolding Holds
  pushed-IsSound first lex b below ids ys zs toks id s (Values.ok tok) holds reads e leads derived =
      (id ∷ ids, toks, (id, ids, ys, zs, refl, e, leads, derived tok refl, holds), reads)
  pushed-IsSound first lex b below ids ys zs toks id s Values.aborts holds reads e leads derived =
      tt
  pushed-IsSound first lex b below ids ys zs toks id s Values.confused holds reads e leads derived =
      tt
  pushed-IsSound first lex b below ids ys zs toks id s Values.overrun holds reads e leads derived =
      tt

  reduce_to-IsSound :
      (first lex : Lexer) (a : ParserAction) (last : ℕ) (popped : List Entry) (b : Entry)
      (below : List Entry) (ids : List ℕ) (ys zs toks : List Tok)
      → Holds file atoi number parser_states (b ∷ below) ids ys
      → Reads beyond first toks lex
      → toks ≡ ys ++ zs
      → 0 < length popped
      → given (goto_target (get_elem? parser_states b.state) a.rule) ≡ true
      → ((tok : Tok)
          → reduced file atoi a.reducer a.reducer_tag a.rule last (entry_toks popped)
            ≡ Values.ok tok
          → Derives file atoi number a.rule zs tok)
      → IsSound file atoi beyond number parser_states past first
          (reduce_to file atoi beyond parser_states a last popped (b ∷ below) lex)
  unfolding reduce_to
  reduce_to-IsSound first lex a last [] b below ids ys zs toks holds reads e some_popped goto
        derived =
      absurd (omega arith)
  reduce_to-IsSound first lex a last (t ∷ above) b below ids ys zs toks holds reads e some_popped
        goto derived =
      elim (Option-cases (get_elem? parser_states b.state)) [
        | inl h ↦ absurd (cc (h, goto))
        | inr found ↦
            let (st, h) = found in
            elim (Option-cases (find_goto st.gotos a.rule)) [
              | inl h' ↦ absurd (cc (h, h', goto))
              | inr found' ↦
                  let (s, h') = found' in
                  let to : reduce_to file atoi beyond parser_states a last (t ∷ above) (b ∷ below)
                        lex
                      ≡ push_reduced
                          (reduced file atoi a.reducer a.reducer_tag a.rule last
                            (entry_toks (t ∷ above)))
                          s (b ∷ below) lex =
                    rw (reduce_to, h, h') in
                  rw to (
                    pushed-IsSound first lex b below ids ys zs toks a.rule s _ holds reads e
                      (inr (rw h h')) derived)
            ]
      ]

  reduce_step-IsSound :
      (first lex : Lexer) (a : ParserAction) (n : ℕ) (e : Entry) (stack : List Entry) (ids : List ℕ)
      (toks : List Tok)
      → IsConsistent number parser_states past
      → Holds file atoi number parser_states (e ∷ stack) ids toks
      → Reads beyond first toks lex
      → ReduceIsValid number parser_states past e.state a n
      → IsSound file atoi beyond number parser_states past first
          (reduce_step file atoi beyond parser_states a n e stack lex)
  unfolding reduce_step Popped
  reduce_step-IsSound first lex a n e stack ids toks consistent holds reads valid =
      let (r, i, xs, named, is_rule, some_popped, enough, tops, gotos) = valid in
      let (known, _) =
        Holds-past file atoi number parser_states past e stack ids toks consistent holds in
      let known_len : length (take (length (past e.state)) ids) ≡ length (past e.state) =
        ap length known in
      let below_n : n ≤ length ids = omega (arith, length-take (length (past e.state)) ids) in
      let symbols : reverse_aux (take n ids) [] ≡ map (symbol_id number) xs =
        ap (λ l. reverse_aux l [])
          (sym (take-take n (length (past e.state)) ids enough) ∙ ap (λ l. take n l) known)
        ∙ tops in
      let (b, below, popped, ys, zs, popped_e, holds', all, whole, reached, len) =
        pop-Holds file atoi number parser_states n e stack [] ids toks [] [] e.state holds below_n
          nothing (reach-here parser_states e.state) in
      let (_, b_lt) =
        Holds-past file atoi number parser_states past b below (drop n ids) ys consistent holds' in
      let checked = all_below-at (length parser_states) _ b.state gotos b_lt in
      let reached' : reach parser_states b.state (map (symbol_id number) xs) e.state ≡ true =
        ap (λ l. reach parser_states b.state l e.state) (sym symbols) ∙ reached in
      let goto : given (goto_target (get_elem? parser_states b.state) a.rule) ≡ true =
        cc (checked, reached') in
      let to : reduce_step file atoi beyond parser_states a n e stack lex
          ≡ reduce_to file atoi beyond parser_states a e.token.last popped (b ∷ below) lex =
        rw (reduce_step, popped_e) in
      rw to (
        reduce_to-IsSound first lex a e.token.last popped b below (drop n ids) ys zs toks holds'
          reads (sym (append-nil toks) ∙ whole) (omega arith) goto
          (λ tok o. rw (sym is_rule) (
            node r i xs a.reducer a.reducer_tag e.token.last zs (entry_toks popped) tok named
              (rw (sym symbols) all) (rw is_rule o))))

  pub act-IsSound :
      (first lex : Lexer) (a : ParserAction) (shape : StateOrLength) (e : Entry)
      (stack : List Entry) (ids : List ℕ) (toks : List Tok)
      → a.state_or_length ≡ shape
      → IsConsistent number parser_states past
      → Holds file atoi number parser_states (e ∷ stack) ids toks
      → Reads beyond first toks lex
      → ((s : ℕ) → shape ≡ state s → Leads parser_states e.state (token_id lex.token) s)
      → ActionIsValidBy number parser_states past e.state a shape
      → IsSound file atoi beyond number parser_states past first
          (act file atoi beyond parser_states a e stack lex)
  unfolding act
  act-IsSound first lex a (state s) e stack ids toks h consistent holds reads leads valid =
      let to : act file atoi beyond parser_states a e stack lex
          ≡ shift_step file atoi beyond parser_states s (e ∷ stack) lex =
        rw h in
      rw to (
        shift_step-IsSound file atoi beyond number parser_states past first lex e stack ids toks s
          holds reads (leads s refl))
  act-IsSound first lex a (Tables.length n) e stack ids toks h consistent holds reads leads valid =
      elim (Bool-cases (a.rule == 0)) [
        | inl accept ↦
            let to : act file atoi beyond parser_states a e stack lex ≡ returns e.token.value =
              rw (h, accept) in
            let is_valid : AcceptIsValid number parser_states past e.state =
              branch-true (a.rule == 0) _ _ accept valid in
            rw to (
              accepts-IsSound file atoi beyond number parser_states past first lex e stack ids toks
                consistent holds reads is_valid)
        | inr go_on ↦
            let to : act file atoi beyond parser_states a e stack lex
                ≡ reduce_step file atoi beyond parser_states a n e stack lex =
              rw (h, go_on) in
            let is_valid : ReduceIsValid number parser_states past e.state a n =
              branch-false (a.rule == 0) _ _ go_on valid in
            rw to
              (reduce_step-IsSound first lex a n e stack ids toks consistent holds reads is_valid)
      ]
