-- ===== src/Generator/Written.antt =====
-- src/parser_generator.c, main: the table that is written, state by state.
use low.Prelude.{ℕ, zero, suc, ◌≡◌, refl, sym, List, [], ◌∷◌, some, get_elem?, inl, inr}
use mathlib.Core.Path.{subst}
use low.Grammar.Symbols.{Rule}
use low.Parser.Tables.{ParserAction, ParserGoto, ParserState}
use low.Generator.Sets.{Has}
use low.Generator.Leads.{assign_rule_id}
use low.Generator.States.{LeadState, TokenAction, RuleAction}
use low.Generator.Members.{In, In-append_left, In-append_right}
use low.Generator.Emit.{tokens_from, emit_tokens, emit_actions, emit_gotos, emit_states}
use low.Generator.Bits.{In-append, tokens_from-Has}
use low.Generator.Emitted.{
  Grows, IsId, Grows-Grows, IsId-Grows, assign_rule_id-IsId, RowFor, Agrees, emit_tokens-Agrees,
}

-- A row for an action and a token of it.
abbrev pub ActionRow : List Rule → TokenAction × ℕ → ParserAction → Type 0
ActionRow ids (a, t) row = RowFor ids a.target t row

abbrev pub OfActions : List TokenAction → TokenAction × ℕ → Type 0
OfActions actions (a, t) = In a actions × Has a.tokens t

abbrev pub GotoRow : List Rule → RuleAction → ParserGoto → Type 0
GotoRow ids a row = IsId ids row.rule a.rule × (row.state ≡ a.state)

emit_actions-Agrees :
    (actions : List TokenAction) (ids : List Rule)
    → Grows ids (emit_actions actions ids).1
      × ((ids' : List Rule)
          → Grows (emit_actions actions ids).1 ids'
          → Agrees (ActionRow ids') (OfActions actions) (emit_actions actions ids).0)
unfolding emit_actions
emit_actions-Agrees [] ids = (λ r w h. h, λ ids' g. (λ row h. absurd h, λ (a, t) (h, k). absurd h))
emit_actions-Agrees (a ∷ actions) ids =
    let (grows, says) = emit_tokens-Agrees a.target (tokens_from 0 a.tokens) ids in
    let rows = emit_tokens a.target (tokens_from 0 a.tokens) ids in
    let (grows', rest) = emit_actions-Agrees actions rows.1 in
    let more = (emit_actions actions rows.1).0 in
    (
      Grows-Grows ids rows.1 _ grows grows',
      λ ids' g.
          let (sound, complete) = says ids' (Grows-Grows rows.1 _ ids' grows' g) in
          let (sound', complete') = rest ids' g in
          (
            λ row h. elim (In-append row rows.0 more h) [
              | inl k ↦
                  let (t, m, e) = sound row k in
                  ((a, t), (inl refl, (tokens_from-Has a.tokens t).0 m), e)
              | inr k ↦ let ((b, t), (m, has), e) = sound' row k in ((b, t), (inr m, has), e)
            ],
            λ (b, t) (h, has). elim h [
              | inl q ↦
                  let has' = subst (λ (c : TokenAction). Has c.tokens t) q has in
                  let (row, m, e) = complete t ((tokens_from-Has a.tokens t).1 has') in
                  (
                    row,
                    In-append_left row rows.0 more m,
                    subst (λ (c : TokenAction). RowFor ids' c.target t row) (sym q) e,
                  )
              | inr k ↦
                  let (row, m, e) = complete' (b, t) (k, has) in
                  (row, In-append_right row rows.0 more m, e)
            ],
          ),
    )

emit_gotos-Agrees :
    (actions : List RuleAction) (ids : List Rule)
    → Grows ids (emit_gotos actions ids).1
      × ((ids' : List Rule)
          → Grows (emit_gotos actions ids).1 ids'
          → Agrees (GotoRow ids') (λ a. In a actions) (emit_gotos actions ids).0)
unfolding emit_gotos
emit_gotos-Agrees [] ids = (λ r w h. h, λ ids' g. (λ row h. absurd h, λ a h. absurd h))
emit_gotos-Agrees (a ∷ actions) ids =
    let (grows, is) = assign_rule_id-IsId ids a.rule in
    let assigned = assign_rule_id ids a.rule in
    let (grows', rest) = emit_gotos-Agrees actions assigned.1 in
    (
      Grows-Grows ids assigned.1 _ grows grows',
      λ ids' g.
          let first : ParserGoto = record { rule = assigned.0; state = a.state } in
          let here : GotoRow ids' a first =
            (IsId-Grows _ ids' _ a.rule (Grows-Grows assigned.1 _ ids' grows' g) is, refl) in
          let (sound, complete) = rest ids' g in
          (
            λ row h. elim h [
              | inl q ↦ (a, inl refl, subst (GotoRow ids' a) (sym q) here)
              | inr k ↦ let (b, m, e) = sound row k in (b, inr m, e)
            ],
            λ b h. elim h [
              | inl q ↦ (first, inl refl, subst (λ c. GotoRow ids' c first) (sym q) here)
              | inr k ↦ let (row, m, e) = complete b k in (row, inr m, e)
            ],
          ),
    )

-- An entry of the table says what a state says: the rows for tokens are those of its actions and their
-- tokens, and the rows for rules those of its transitions with a rule, each by the id of the rule.
abbrev pub EntryFor : List Rule → LeadState → ParserState → Type 0
EntryFor ids s p =
    Agrees (ActionRow ids) (OfActions s.token_actions) p.actions
    × Agrees (GotoRow ids) (λ a. In a s.rule_actions) p.gotos

-- One entry more.
entry_at :
    (ids : List Rule) (c : LeadState) (entry : ParserState) (states : List LeadState)
    (table : List ParserState)
    → EntryFor ids c entry
    → ((k : ℕ) (s : LeadState)
        → get_elem? states k ≡ some s
        → (p : ParserState) × (get_elem? table k ≡ some p) × EntryFor ids s p)
    → (k : ℕ) (s : LeadState) → get_elem? (c ∷ states) k ≡ some s
    → (p : ParserState) × (get_elem? (entry ∷ table) k ≡ some p) × EntryFor ids s p
entry_at ids c entry states table here rest zero s h =
    let q : c ≡ s = cc h in (entry, refl, subst (λ d. EntryFor ids d entry) q here)
entry_at ids c entry states table here rest (suc k) s h = rest k s h

emit_states-EntryFor_from :
    (states : List LeadState) (ids : List Rule)
    → Grows ids (emit_states states ids).1
      × ((ids' : List Rule)
          → Grows (emit_states states ids).1 ids'
          → (k : ℕ) (s : LeadState) → get_elem? states k ≡ some s
          → (p : ParserState) × (get_elem? (emit_states states ids).0 k ≡ some p)
            × EntryFor ids' s p)
unfolding emit_states
emit_states-EntryFor_from [] ids = (λ r w h. h, λ ids' g k s h. absurd (cc h))
emit_states-EntryFor_from (c ∷ states) ids =
    let (grows, actions) = emit_actions-Agrees c.token_actions ids in
    let ids₁ = (emit_actions c.token_actions ids).1 in
    let (grows', gotos) = emit_gotos-Agrees c.rule_actions ids₁ in
    let ids₂ = (emit_gotos c.rule_actions ids₁).1 in
    let (grows'', rest) = emit_states-EntryFor_from states ids₂ in
    (
      Grows-Grows ids ids₁ _ grows (Grows-Grows ids₁ ids₂ _ grows' grows''),
      λ ids' g k s h.
          let late = Grows-Grows ids₂ _ ids' grows'' g in
          entry_at ids' c _ states _
            (actions ids' (Grows-Grows ids₁ ids₂ ids' grows' late), gotos ids' late) (rest ids' g) k
            s h,
    )

-- For every state, the entry of the table at the place of the state says what the state says, with the
-- rules that have an id in the end: each row for a token is one that an action of the state has with
-- that token, to shift, accept or reduce, and each action has its row for each of its tokens; each
-- transition with a rule has its row by the id of the rule, and there are no other rows.
pub emit_states-EntryFor :
    (states : List LeadState) (k : ℕ) (s : LeadState)
    → get_elem? states k ≡ some s
    → (p : ParserState) × (get_elem? (emit_states states []).0 k ≡ some p)
      × EntryFor (emit_states states []).1 s p
emit_states-EntryFor states k s h =
    let (grows, entries) = emit_states-EntryFor_from states [] in
    entries (emit_states states []).1 (λ r w e. e) k s h
