-- ===== src/Generator/StateTests.antt =====
-- Runs of src/parser_generator.c that gather leads and states, and write a table.
use low.Prelude.{
  ℕ, ◌≡◌, ◌≤◌, ◌<◌, ◌↔◌, refl, sym, ap, ◌∙◌, arith, List, [], ◌∷◌, Option, none, some, get_elem?,
  length, inl, inr,
}
use mathlib.Core.Path.{subst}
use low.Lexer.Token.{token_id, ident}
use low.Grammar.Symbols.{Symbol, tkn, rule_primary_expr, variant, primary_expr_ident_reducer}
use low.Grammar.Variants.{variants}
use low.Generator.Words.{bitwise_or}
use low.Generator.Sets.{or_word, token_set_init, token_set_insert}
use low.Generator.Leads.{Lead, consolidate_leads, merge_leads, merge_sorted}
use low.Generator.Expand.{expand_leads, expand_lead}
use low.Reduce.Kinds.{All}
use low.Generator.Gather.{gather_leads, lead_bound, Called}
use low.Generator.Exact.{IsLead, gather_leads-Called}
use low.Generator.Members.{In}
use low.Generator.States.{LeadState, reduces, shifts, new_state, gather_states, next_symbol}
use low.Generator.Symbols.{with_symbol, shift_leads_of}
use low.Generator.Acts.{Extends}
use low.Generator.Settled.{Settled}
use low.Generator.Automaton.{IsAutomaton, Among}
use low.Generator.Complete.{gather_states-Settled}
use low.Generator.Externs.{Declares, declare_states-names}
use low.Generator.Leads.{assign_rule_id, find_rule}
use low.Generator.Emit.{
  declare_states, emit_actions, emit_tokens, tokens_from, bits_of, root_lead, emit_states,
}
use low.Generator.Written.{EntryFor, emit_states-EntryFor}
use low.Parser.Tables.{ParserState, ParserAction, StateOrLength}

gather_leads-Called_example :
    (out : List Lead) × (gather_leads (lead_bound 1) (root_lead ∷ []) 0 1 ≡ some out)
    × ((l : Lead) → In l out ↔ Called (root_lead ∷ []) l)
gather_leads-Called_example =
    gather_leads-Called (lead_bound 1) (root_lead ∷ []) (omega arith) (omega arith) (refl, tt)

-- An identifier as a primary expression, before it and behind it.
abbrev ident_at : ℕ → Lead
ident_at position = record {
  rule = some rule_primary_expr;
  place = 0;
  variant = variant (tkn ident ∷ []) (some primary_expr_ident_reducer) 0;
  position = position;
  terminals = token_set_insert token_set_init 2;
}

abbrev ident_arrays : List (List Lead)
ident_arrays = (ident_at 0 ∷ []) ∷ (ident_at 1 ∷ []) ∷ []

abbrev unsorted : List Lead → List Lead
unsorted leads = leads

abbrev Shifted : Symbol → Type 0
Shifted x =
    (out : List Lead)
    → gather_leads (lead_bound (length (shift_leads_of (some x) (ident_at 0 ∷ []))))
        (shift_leads_of (some x) (ident_at 0 ∷ [])) 0
        (length (shift_leads_of (some x) (ident_at 0 ∷ [])))
      ≡ some out
    → consolidate_leads unsorted out ≡ ident_at 1 ∷ []

gathered_ident :
    gather_leads
      (lead_bound (length (shift_leads_of (some (tkn ident)) (ident_at 0 ∷ []))))
      (shift_leads_of (some (tkn ident)) (ident_at 0 ∷ []))
      0
      (length (shift_leads_of (some (tkn ident)) (ident_at 0 ∷ [])))
    ≡ some (ident_at 1 ∷ [])
unfolding gather_leads expand_leads expand_lead with_symbol token_id
gathered_ident = refl

merged_ident : consolidate_leads unsorted (ident_at 1 ∷ []) ≡ ident_at 1 ∷ []
unfolding consolidate_leads merge_sorted merge_leads
merged_ident = refl

shifted : Shifted (tkn ident)
shifted out h =
    let e : ◌≡◌ {A = Option (List Lead)} (some (ident_at 1 ∷ [])) (some out) =
      sym gathered_ident ∙ h in
    let q : ident_at 1 ∷ [] ≡ out = cc e in ap (consolidate_leads unsorted) (sym q) ∙ merged_ident

ident_next :
    (leads : List Lead) (l : Lead) (x : Symbol) (out : List Lead)
    → In leads ident_arrays
    → In l leads
    → next_symbol l ≡ some x
    → gather_leads
        (lead_bound (length (shift_leads_of (some x) leads)))
        (shift_leads_of (some x) leads)
        0
        (length (shift_leads_of (some x) leads))
      ≡ some out
    → In (consolidate_leads unsorted out) ident_arrays
ident_next leads l x out (inl e) m n =
    let m' : In l (ident_at 0 ∷ []) = subst (In l) e m in
    first m' (
      subst
        (λ ls.
          gather_leads (lead_bound (length (shift_leads_of (some x) ls)))
              (shift_leads_of (some x) ls) 0 (length (shift_leads_of (some x) ls))
            ≡ some out
          → In (consolidate_leads unsorted out) ident_arrays)
        (sym e))
  where
    first :
        In l (ident_at 0 ∷ [])
        → ((gather_leads
                  (lead_bound (length (shift_leads_of (some x) (ident_at 0 ∷ []))))
                  (shift_leads_of (some x) (ident_at 0 ∷ []))
                  0
                  (length (shift_leads_of (some x) (ident_at 0 ∷ [])))
                ≡ some out
              → In (consolidate_leads unsorted out) ident_arrays)
            → gather_leads
                (lead_bound (length (shift_leads_of (some x) leads)))
                (shift_leads_of (some x) leads)
                0
                (length (shift_leads_of (some x) leads))
              ≡ some out
            → In (consolidate_leads unsorted out) ident_arrays)
        → gather_leads
            (lead_bound (length (shift_leads_of (some x) leads)))
            (shift_leads_of (some x) leads)
            0
            (length (shift_leads_of (some x) leads))
          ≡ some out
        → In (consolidate_leads unsorted out) ident_arrays
    first (inl q) back =
        let s : ◌≡◌ {A = Option Symbol} (some (tkn ident)) (some x) = ap next_symbol (sym q) ∙ n in
        let t : tkn ident ≡ x = cc s in back (λ h. inr (inl (subst Shifted t shifted out h)))
    first (inr none') back = absurd none'
ident_next leads l x out (inr (inl e)) m n = absurd (complete (subst (In l) e m))
  where
    complete : In l (ident_at 1 ∷ []) → ⊥
    complete (inl q) = let s : none ≡ some x = ap next_symbol (sym q) ∙ n in cc s
    complete (inr none') = none'
ident_next leads l x out (inr (inr none')) m n = absurd none'

ident_arrays-IsAutomaton : IsAutomaton unsorted ident_arrays
unfolding with_symbol variants
ident_arrays-IsAutomaton = record {
  leads_IsLead = λ leads h. elim h [
    | inl e ↦ subst (All IsLead) (sym e) (refl, tt)
    | inr (inl e) ↦ subst (All IsLead) (sym e) (refl, tt)
    | inr (inr none') ↦ absurd none'
  ];
  one_complete = λ leads h. elim h [
    | inl e ↦ subst (λ ls. length (with_symbol none ls) ≤ 1) (sym e) (omega arith)
    | inr (inl e) ↦ subst (λ ls. length (with_symbol none ls) ≤ 1) (sym e) (omega arith)
    | inr (inr none') ↦ absurd none'
  ];
  next = ident_next;
}

gather_states-Settled_example :
    (out : List LeadState) × (gather_states unsorted 2 (new_state (ident_at 0 ∷ []) ∷ []) 0 1
      ≡ some out)
    × Extends (new_state (ident_at 0 ∷ []) ∷ []) out
    × Among ident_arrays out
    × ((k : ℕ) → k < length out → Settled unsorted k out)
gather_states-Settled_example =
    gather_states-Settled unsorted ident_arrays (ident_at 0 ∷ []) 2 ident_arrays-IsAutomaton
      (inl refl) (omega arith)

-- A state that shifts an identifier, moves with the rule, and reduces at the end of the file.
abbrev three_actions : LeadState
three_actions = record {
  leads = [];
  token_actions =
      record { tokens = token_set_insert token_set_init 3; target = shifts 1 }
      ∷ record {
        tokens = token_set_insert token_set_init 2;
        target =
            reduces (some rule_primary_expr) 0
              (variant (tkn ident ∷ []) (some primary_expr_ident_reducer) 0);
      }
      ∷ [];
  rule_actions = record { rule = rule_primary_expr; state = 0 } ∷ [];
}

emit_states-EntryFor_example :
    (p : ParserState) × (get_elem? (emit_states (three_actions ∷ []) []).0 0 ≡ some p)
    × EntryFor (emit_states (three_actions ∷ []) []).1 three_actions p
emit_states-EntryFor_example = emit_states-EntryFor (three_actions ∷ []) 0 three_actions refl

abbrev reduce_row : ParserAction
reduce_row = record {
  token = 2;
  state_or_length = StateOrLength.length 1;
  reducer = some primary_expr_ident_reducer;
  reducer_tag = 0;
  rule = 92;
}

abbrev shift_row : ParserAction
shift_row = record {
  token = 3;
  state_or_length = StateOrLength.state 1;
  reducer = none;
  reducer_tag = 0;
  rule = 0;
}

abbrev three_rows : ParserState
three_rows = record {
  actions = shift_row ∷ reduce_row ∷ [];
  gotos = record { rule = 92; state = 0 } ∷ [];
}

declare_states-names_example :
    Declares (declare_states (three_actions ∷ []) []) primary_expr_ident_reducer
unfolding emit_states emit_actions emit_tokens tokens_from bits_of or_word bitwise_or assign_rule_id
    find_rule variants
declare_states-names_example =
    declare_states-names (three_actions ∷ []) 0 three_actions three_rows reduce_row
      primary_expr_ident_reducer ((tt, (refl, tt)), tt) refl refl (inr (inl refl)) refl
