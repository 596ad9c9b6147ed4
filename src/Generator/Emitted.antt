-- ===== src/Generator/Emitted.antt =====
-- src/parser_generator.c, main: the rows that are written say what the actions of the states say.
use low.Prelude.{
  ℕ, suc, ◌+◌, ◌≡◌, refl, sym, arith, Bool, true, false, List, [], ◌∷◌, ◌++◌, Option, none, some,
  length, inl, inr,
}
use mathlib.Core.Path.{subst}
use low.Grammar.Symbols.{Rule, variant}
use low.Parser.Tables.{StateOrLength, ParserAction}
use low.Generator.Rules.{◌same◌}
use low.Generator.Leads.{find_rule, here_or, id_or_add, assign_rule_id}
use low.Generator.States.{Target, reduces, shifts}
use low.Generator.Members.{In}
use low.Generator.Emit.{negated, emit_target, emit_tokens}

-- The rules that have an id keep it.
abbrev pub Grows : List Rule → List Rule → Type 0
Grows ids ids' = (r : Rule) (w : ℕ) → find_rule ids r ≡ some w → find_rule ids' r ≡ some w

-- The id of a rule.
abbrev pub IsId : List Rule → ℕ → Rule → Type 0
IsId ids id r = (w : ℕ) × (find_rule ids r ≡ some w) × (id ≡ w + 92)

find_rule-append :
    (ids more : List Rule) (r : Rule) (w : ℕ)
    → find_rule ids r ≡ some w
    → find_rule (ids ++ more) r ≡ some w
unfolding find_rule
find_rule-append [] more r w h = absurd (cc h)
find_rule-append (q ∷ ids) more r w h =
    step (q same r) (find_rule ids r) (find_rule-append ids more r) w refl h
  where
    step :
        (b : Bool) (o : Option ℕ)
        → ((v : ℕ) → find_rule ids r ≡ some v → find_rule (ids ++ more) r ≡ some v)
        → (w : ℕ) → o ≡ find_rule ids r
        → here_or b o ≡ some w
        → here_or b (find_rule (ids ++ more) r) ≡ some w
    step true o behind w e h = h
    step false none behind w e h = absurd (cc h)
    step false (some v) behind w e h = rw (behind v (sym e)) h

find_rule-last :
    (ids : List Rule) (r : Rule)
    → find_rule ids r ≡ none
    → find_rule (ids ++ (r ∷ [])) r ≡ some (length ids)
unfolding find_rule
find_rule-last [] r h = let e : r same r ≡ true = ground arith in rw (e, find_rule) refl
find_rule-last (q ∷ ids) r h = step (q same r) (find_rule ids r) refl (find_rule-last ids r) h
  where
    step :
        (b : Bool) (o : Option ℕ)
        → o ≡ find_rule ids r
        → (find_rule ids r ≡ none → find_rule (ids ++ (r ∷ [])) r ≡ some (length ids))
        → here_or b o ≡ none
        → here_or b (find_rule (ids ++ (r ∷ [])) r) ≡ some (suc (length ids))
    step true o e behind h = absurd (cc h)
    step false none e behind h = rw (behind (sym e)) refl
    step false (some v) e behind h = absurd (cc h)

id_or_add-IsId :
    (ids : List Rule) (r : Rule) (o : Option ℕ)
    → find_rule ids r ≡ o
    → Grows ids (id_or_add ids r o).1 × IsId (id_or_add ids r o).1 (id_or_add ids r o).0 r
id_or_add-IsId ids r (some w) e = (λ q v h. h, (w, e, refl))
id_or_add-IsId ids r none e =
    (λ q v h. find_rule-append ids (r ∷ []) q v h, (length ids, find_rule-last ids r e, refl))

pub assign_rule_id-IsId :
    (ids : List Rule) (r : Rule)
    → Grows ids (assign_rule_id ids r).1 × IsId (assign_rule_id ids r).1 (assign_rule_id ids r).0 r
unfolding assign_rule_id
assign_rule_id-IsId ids r = id_or_add-IsId ids r (find_rule ids r) refl

pub IsId-Grows :
    (ids ids' : List Rule) (id : ℕ) (r : Rule) → Grows ids ids' → IsId ids id r → IsId ids' id r
IsId-Grows ids ids' id r g (w, e, q) = (w, g r w e, q)

pub Grows-Grows : (a b c : List Rule) → Grows a b → Grows b c → Grows a c
Grows-Grows a b c g h = λ r w e. h r w (g r w e)

-- What the parser is to do for a token.
pub record Does (a : ParserAction) (token : ℕ) (step : StateOrLength) : Type 0 where
  pub token_eq : a.token ≡ token
  pub step_eq : a.state_or_length ≡ step

-- A row says what an action says for a token: to shift to a state, to accept with the elements of the
-- root, or to reduce a variant, with its reducer and tag and the id of its rule.
abbrev pub RowFor : List Rule → Target → ℕ → ParserAction → Type 0
RowFor ids (shifts k) token row =
    Does row token (StateOrLength.state k) × (row.reducer ≡ none) × (row.rule ≡ 0)
RowFor ids (reduces none place (variant elements reducer tag)) token row =
    Does row token (negated (length elements)) × (row.reducer ≡ none) × (row.rule ≡ 0)
RowFor ids (reduces (some r) place (variant elements reducer tag)) token row =
    Does row token (negated (length elements))
    × (row.reducer ≡ reducer)
    × (row.reducer_tag ≡ tag)
    × IsId ids row.rule r

emit_target-RowFor :
    (target : Target) (token : ℕ) (ids : List Rule)
    → Grows ids (emit_target target token ids).1
      × ((ids' : List Rule)
          → Grows (emit_target target token ids).1 ids'
          → RowFor ids' target token (emit_target target token ids).0)
emit_target-RowFor (shifts k) token ids =
    (λ r w h. h, λ ids' g. (record { token_eq = refl; step_eq = refl }, refl, refl))
emit_target-RowFor (reduces none place (variant elements reducer tag)) token ids =
    (λ r w h. h, λ ids' g. (record { token_eq = refl; step_eq = refl }, refl, refl))
emit_target-RowFor (reduces (some r) place (variant elements reducer tag)) token ids =
    let (g, is) = assign_rule_id-IsId ids r in
    (
      g,
      λ ids' g'.
          (record { token_eq = refl; step_eq = refl }, refl, refl, IsId-Grows _ ids' _ r g' is),
    )

-- The rows say what is wanted, and no more.
abbrev pub Agrees : {A B : Type 0} → (A → B → Type 0) → (A → Type 0) → List B → Type 0
Agrees {A = A} {B = B} says Wanted rows =
    ((row : B) → In row rows → (a : A) × Wanted a × says a row)
    × ((a : A) → Wanted a → (row : B) × In row rows × says a row)

pub emit_tokens-Agrees :
    (target : Target) (tokens : List ℕ) (ids : List Rule)
    → Grows ids (emit_tokens target tokens ids).1
      × ((ids' : List Rule)
          → Grows (emit_tokens target tokens ids).1 ids'
          → Agrees (RowFor ids' target) (λ t. In t tokens) (emit_tokens target tokens ids).0)
unfolding emit_tokens
emit_tokens-Agrees target [] ids = (λ r w h. h, λ ids' g. (λ row h. absurd h, λ t h. absurd h))
emit_tokens-Agrees target (t ∷ tokens) ids =
    let (grows, says) = emit_target-RowFor target t ids in
    let ids₁ = (emit_target target t ids).1 in
    let (grows', rest) = emit_tokens-Agrees target tokens ids₁ in
    (
      Grows-Grows ids ids₁ _ grows grows',
      λ ids' g.
          let row = (emit_target target t ids).0 in
          let here : RowFor ids' target t row = says ids' (Grows-Grows ids₁ _ ids' grows' g) in
          let (sound, complete) = rest ids' g in
          (
            λ other h. elim h [
              | inl q ↦ (t, inl refl, subst (RowFor ids' target t) (sym q) here)
              | inr k ↦ let (u, m, e) = sound other k in (u, inr m, e)
            ],
            λ u h. elim h [
              | inl q ↦ (row, inl refl, subst (λ n. RowFor ids' target n row) (sym q) here)
              | inr k ↦ let (other, m, e) = complete u k in (other, inr m, e)
            ],
          ),
    )
