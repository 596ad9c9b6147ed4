-- ===== src/Parser/Stack.antt =====
-- The stack of src/parser.c holds what was derived from the tokens that were shifted.
use low.Prelude.{
  ℕ, zero, suc, ◌+◌, ◌≤◌, ◌<◌, Bool, true, List, [], ◌∷◌, ◌++◌, some, Bytes, ◌||◌, length, take,
  drop, ◌≡◌, inl, inr, refl, sym, ap, ◌∙◌, arith, take-take, length-take,
}
use mathlib.Core.List.{reverse_aux, append_assoc}
use low.Grammar.Symbols.{Rule}
use low.Reduce.Values.{Tok}
use low.Parser.Tables.{ParserState}
use low.Parser.Defs.{Entry, pop, entry_toks}
use low.Parser.Derives.{Derives, DerivesAll, besides, Leads, reach, IsConsistent}
use low.Parser.Lookups.{Leads-Lands}

reach_by-or : (x : Bool) → x || true ≡ true
reach_by-or x = ground arith

pub Leads-reach :
    (parser_states : List ParserState) (b id s t : ℕ) (ids : List ℕ)
    → Leads parser_states b id s
    → reach parser_states s ids t ≡ true
    → reach parser_states b (id ∷ ids) t ≡ true
unfolding reach
Leads-reach parser_states b id s t ids (inl h) found = rw (h, found)
Leads-reach parser_states b id s t ids (inr h) found = rw (h, found) (reach_by-or _)

-- Two pieces of what is known make one.
take-prefix :
    (p q l : List ℕ) (id : ℕ)
    → take (length p) (id ∷ q) ≡ p
    → take (length q) l ≡ q
    → take (length p) (id ∷ l) ≡ p
take-prefix [] q l id h h' = refl
take-prefix (x ∷ p) q l id h h' =
    let len : suc (length (take (length p) q)) ≡ suc (length p) = ap length h in
    let short : length p ≤ length q = omega (arith, length-take (length p) q) in
    let same : take (length p) l ≡ take (length p) q =
      sym (take-take (length p) (length q) l short) ∙ ap (λ k. take (length p) k) h' in
    ap (λ k. id ∷ k) same ∙ h

module _ (file : Bytes) (atoi : Bytes → ℕ) (number : Rule → ℕ)
    (parser_states : List ParserState) where
  -- Above the start each entry is derived from tokens that were shifted, and its state is one that the
  -- symbol leads to from the state below. The symbols, the topmost first, and all the tokens.
  unfoldable pub Holds : List Entry → List ℕ → List Tok → Type 0
  Holds [] ids toks = ⊥
  Holds (e ∷ []) ids toks = (e.state ≡ 0) × (ids ≡ []) × (toks ≡ [])
  Holds (e ∷ b ∷ stack) ids toks =
      (id : ℕ) × (below : List ℕ) × (ys : List Tok) × (zs : List Tok) × (ids ≡ id ∷ below)
      × (toks ≡ ys ++ zs)
      × Leads parser_states b.state id e.state
      × Derives file atoi number id zs e.token
      × Holds (b ∷ stack) below ys

  -- The entries that are popped, and what is left.
  unfoldable pub Popped :
      ℕ → List Entry → List Entry → List ℕ → List Tok → List ℕ → List Tok → ℕ → Type 0
  Popped n stack popped ids toks xs zs top =
      (b : Entry) × (below : List Entry) × (popped' : List Entry) × (ys : List Tok) × (zs' : List
        Tok)
      × (pop n stack popped ≡ some (popped', b ∷ below))
      × Holds (b ∷ below) (drop n ids) ys
      × DerivesAll file atoi number (reverse_aux (take n ids) xs) zs' (entry_toks popped')
      × (toks ++ zs ≡ ys ++ zs')
      × (reach parser_states b.state (reverse_aux (take n ids) xs) top ≡ true)
      × (length popped' ≡ n + length popped)

  pub pop-Holds :
      (n : ℕ) (e : Entry) (stack popped : List Entry) (ids : List ℕ) (toks : List Tok) (xs : List ℕ)
      (zs : List Tok) (top : ℕ)
      → Holds (e ∷ stack) ids toks
      → n ≤ length ids
      → DerivesAll file atoi number xs zs (entry_toks popped)
      → reach parser_states e.state xs top ≡ true
      → Popped n (e ∷ stack) popped ids toks xs zs top
  unfolding pop Holds Popped
  pop-Holds zero e stack popped ids toks xs zs top holds h all found =
      (e, stack, popped, toks, zs, refl, holds, all, refl, found, omega arith)
  pop-Holds (suc n) e [] popped ids toks xs zs top holds h all found =
      let (_, none_above, _) = holds in
      let empty : length ids ≡ 0 = ap length none_above in absurd (omega arith)
  pop-Holds (suc n) e (b ∷ stack) popped ids toks xs zs top holds h all found =
      let (id, below, ys, zs_e, e_ids, e_toks, leads, derived, rest) = holds in
      let len : length ids ≡ suc (length below) = ap length e_ids in
      let (b', below', popped', ys', zs', popped_e, holds', all', toks', found', len') =
        pop-Holds n b stack (e ∷ popped) below ys (id ∷ xs) (zs_e ++ zs) top rest (omega arith)
          (besides id xs zs_e zs e.token (entry_toks popped) derived all)
          (Leads-reach parser_states b.state id e.state top xs leads found) in
      let whole : toks ++ zs ≡ ys ++ (zs_e ++ zs) =
        ap (λ l. l ++ zs) e_toks ∙ append_assoc ys zs_e zs in
      rw e_ids
        (b', below', popped', ys', zs', popped_e, holds', all', whole ∙ toks', found', omega arith)

  module _ (past : ℕ → List ℕ) where
    -- What is known to be at the top of the stack in a state is there.
    pub Holds-past :
        (e : Entry) (stack : List Entry) (ids : List ℕ) (toks : List Tok)
        → IsConsistent number parser_states past
        → Holds (e ∷ stack) ids toks
        → (take (length (past e.state)) ids ≡ past e.state) × (e.state < length parser_states)
    unfolding Holds
    Holds-past e [] ids toks consistent holds =
        let (at_start, _, _) = holds in
        let unknown : past e.state ≡ [] = ap past at_start ∙ consistent.1 in
        (rw unknown refl, rw at_start consistent.0)
    Holds-past e (b ∷ stack) ids toks consistent holds =
        let (id, below, ys, zs, e_ids, e_toks, leads, derived, rest) = holds in
        let (lands, b_lt) =
          Leads-Lands number parser_states past b.state id e.state consistent leads in
        let (b_past, _) = Holds-past b stack below ys consistent rest in
        (rw e_ids (take-prefix (past e.state) (past b.state) below id lands.0 b_past), lands.2)
