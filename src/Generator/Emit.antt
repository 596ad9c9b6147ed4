-- ===== src/Generator/Emit.antt =====
-- src/parser_generator.c, main: the tables of the parser, as values in place of their text.
use low.Prelude.{
  Bool, true, false, ◌&&◌, ◌||◌, ℕ, zero, suc, ◌+◌, ◌*◌, ◌==◌, List, [], ◌∷◌, ◌++◌, Option, none,
  some, map, length, replicate, if◌then◌else◌,
}
use low.Grammar.Symbols.{Rule, variant, Reducer}
use low.Generator.Rules.{◌same◌}
use low.Grammar.Variants.{root_symbol}
use low.Parser.Tables.{StateOrLength, ParserAction, ParserGoto, ParserState}
use low.Generator.Words.{bit}
use low.Generator.Sets.{token_set_init, token_set_insert}
use low.Generator.Leads.{Lead, consolidate_leads, assign_rule_id}
use low.Generator.Gather.{gather_leads, lead_bound}
use low.Generator.States.{
  LeadState, TokenAction, RuleAction, Target, reduces, shifts, new_state, gather_states,
}

-- An element of `reducers`, a pointer to a variant, and the reducer that is declared for it.
pub record Extern : Type 0 where
  pub rule : Rule
  pub place : ℕ
  pub reducer : Reducer

unfoldable pub has_extern : List Extern → Rule → ℕ → Bool
has_extern [] r place = false
has_extern (x ∷ externs) r place =
    ((x.rule same r) && (x.place == place)) || has_extern externs r place

-- One action: it counts if it reduces a rule other than the root and the variant has a reducer.
unfoldable pub declare_target : Target → List Extern → List Extern
unfolding has_extern
declare_target (shifts k) externs = externs
declare_target (reduces none place v) externs = externs
declare_target (reduces (some r) place (variant elements none tag)) externs = externs
declare_target (reduces (some r) place (variant elements (some f) tag)) externs =
    elim (has_extern externs r place) [
      | true ↦ externs
      | false ↦ externs ++ (record { rule = r; place = place; reducer = f } ∷ [])
    ]

unfoldable pub declare_actions : List TokenAction → List Extern → List Extern
unfolding declare_target
declare_actions [] externs = externs
declare_actions (a ∷ actions) externs = declare_actions actions (declare_target a.target externs)

unfoldable pub declare_states : List LeadState → List Extern → List Extern
unfolding declare_actions
declare_states [] externs = externs
declare_states (s ∷ states) externs =
    declare_states states (declare_actions s.token_actions externs)

-- The loop with v, `count` times.
unfoldable pub bits_of : ℕ → ℕ → ℕ → ℕ → List ℕ
bits_of u w v zero = []
bits_of u w v (suc count) =
    let rest = bits_of u w (suc v) count in if bit v w == 1 then (u * 32 + v) ∷ rest else rest

-- The loop with u: the tokens of a set, in order.
unfoldable pub tokens_from : ℕ → List ℕ → List ℕ
unfolding bits_of
tokens_from u [] = []
tokens_from u (w ∷ bits) = bits_of u w 0 32 ++ tokens_from (suc u) bits

-- `-length`.
abbrev pub negated : ℕ → StateOrLength
negated zero = StateOrLength.state 0
negated (suc n) = StateOrLength.length (suc n)

-- One row, with the rules that have an id after it.
abbrev pub emit_target : Target → ℕ → List Rule → ParserAction × List Rule
emit_target (reduces none place (variant elements reducer tag)) token rule_ids = (
  record {
    token = token;
    state_or_length = negated (length elements);
    reducer = none;
    reducer_tag = 0;
    rule = 0;
  },
  rule_ids,
)
emit_target (reduces (some r) place (variant elements reducer tag)) token rule_ids =
    let assigned = assign_rule_id rule_ids r in
    (
      record {
        token = token;
        state_or_length = negated (length elements);
        reducer = reducer;
        reducer_tag = tag;
        rule = assigned.0;
      },
      assigned.1,
    )
emit_target (shifts k) token rule_ids = (
  record {
    token = token;
    state_or_length = StateOrLength.state k;
    reducer = none;
    reducer_tag = 0;
    rule = 0;
  },
  rule_ids,
)

unfoldable pub emit_tokens : Target → List ℕ → List Rule → List ParserAction × List Rule
unfolding assign_rule_id
emit_tokens target [] rule_ids = ([], rule_ids)
emit_tokens target (token ∷ tokens) rule_ids =
    let row = emit_target target token rule_ids in
    let rest = emit_tokens target tokens row.1 in (row.0 ∷ rest.0, rest.1)

unfoldable pub emit_actions : List TokenAction → List Rule → List ParserAction × List Rule
unfolding emit_tokens tokens_from
emit_actions [] rule_ids = ([], rule_ids)
emit_actions (a ∷ actions) rule_ids =
    let rows = emit_tokens a.target (tokens_from 0 a.tokens) rule_ids in
    let rest = emit_actions actions rows.1 in (rows.0 ++ rest.0, rest.1)

unfoldable pub emit_gotos : List RuleAction → List Rule → List ParserGoto × List Rule
unfolding assign_rule_id
emit_gotos [] rule_ids = ([], rule_ids)
emit_gotos (a ∷ actions) rule_ids =
    let assigned = assign_rule_id rule_ids a.rule in
    let rest = emit_gotos actions assigned.1 in
    (record { rule = assigned.0; state = a.state } ∷ rest.0, rest.1)

unfoldable pub emit_states : List LeadState → List Rule → List ParserState × List Rule
unfolding emit_actions emit_gotos
emit_states [] rule_ids = ([], rule_ids)
emit_states (s ∷ states) rule_ids =
    let actions = emit_actions s.token_actions rule_ids in
    let gotos = emit_gotos s.rule_actions actions.1 in
    let rest = emit_states states gotos.1 in
    (record { actions = actions.0; gotos = gotos.0 } ∷ rest.0, rest.1)

-- `parser_token_names`: null for each token, then the name of each rule that has an id.
abbrev pub parser_token_names : List Rule → List (Option Rule)
parser_token_names rule_ids = replicate 92 none ++ map some rule_ids

abbrev pub root_lead : Lead
root_lead = record {
  rule = none;
  place = 0;
  variant = variant (root_symbol ∷ []) none 0;
  position = 0;
  terminals = token_set_insert token_set_init 2;
}

-- What is written, or none if an assertion fails or `fuel` is not enough.
unfoldable pub generate :
    (List Lead → List Lead) → ℕ → Option (List Extern × List ParserState × List (Option Rule))
unfolding gather_leads consolidate_leads gather_states declare_states emit_states
generate qsort fuel = elim (gather_leads (lead_bound 1) (root_lead ∷ []) 0 1) [
  | none ↦ none
  | some gathered ↦
      elim (gather_states qsort fuel (new_state (consolidate_leads qsort gathered) ∷ []) 0 1) [
        | none ↦ none
        | some states ↦
            let written = emit_states states [] in
            some (declare_states states [], written.0, parser_token_names written.1)
      ]
]
