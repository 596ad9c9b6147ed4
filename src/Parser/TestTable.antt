-- ===== src/Parser/TestTable.antt =====
-- A table of states for src/parser.c, for a part of the grammar: packages and semicolons.
use low.Prelude.{ℕ, List, [], ◌∷◌, Option, none, some, get_elem?, refl, arith}
use low.Lexer.Token.{token_id, semicolon, kw_package, string_literal}
use low.Grammar.Symbols.{
  Rule, rule_unit_list, rule_unit, rule_package_unit, tkn, sub, unit_list_reducer,
  package_unit_reducer, Reducer,
}
use low.Grammar.Variants.{variants}
use low.Parser.Tables.{ParserState, ParserAction, ParserGoto, state, length, find_action, find_goto}
use low.Parser.Derives.{IsConsistent, reach, all_below, Lands, ReduceIsValid, AcceptIsValid}

abbrev pub number : Rule → ℕ
number rule_unit = 92
number rule_unit_list = 93
number rule_package_unit = 94
number _ = 95

abbrev pub shift : ℕ → ℕ → ParserAction
shift token s = record {
  token = token;
  state_or_length = state s;
  reducer = none;
  reducer_tag = 0;
  rule = 0;
}

abbrev pub to : ℕ → ℕ → ParserGoto
to rule s = record { rule = rule; state = s }

abbrev pub reduce_by : Option Reducer → ℕ → ℕ → ℕ → ℕ → ParserAction
reduce_by reducer tag n rule token = record {
  token = token;
  state_or_length = length n;
  reducer = reducer;
  reducer_tag = tag;
  rule = rule;
}

-- 2 is the end of the file, 5 a string, 53 a semicolon and 77 `package`.
abbrev pub always : (ℕ → ParserAction) → List ParserAction
always f = f 2 ∷ f 53 ∷ f 77 ∷ []

abbrev pub states : List ParserState
states =
    record { actions = shift 53 2 ∷ shift 77 5 ∷ []; gotos = to 93 1 ∷ to 92 3 ∷ to 94 8 ∷ [] }
    ∷ record {
      actions = reduce_by none 0 1 0 2 ∷ shift 53 2 ∷ shift 77 5 ∷ [];
      gotos = to 92 4 ∷ to 94 8 ∷ [];
    }
    ∷ record { actions = always (reduce_by none 0 1 92); gotos = [] }
    ∷ record { actions = always (reduce_by (some unit_list_reducer) 0 1 93); gotos = [] }
    ∷ record { actions = always (reduce_by (some unit_list_reducer) 1 2 93); gotos = [] }
    ∷ record { actions = shift 5 6 ∷ []; gotos = [] }
    ∷ record { actions = shift 53 7 ∷ []; gotos = [] }
    ∷ record { actions = always (reduce_by (some package_unit_reducer) 0 3 94); gotos = [] }
    ∷ record { actions = always (reduce_by none 0 1 92); gotos = [] }
    ∷ []

abbrev pub pasts : List (List ℕ)
pasts =
    []
    ∷ (93 ∷ [])
    ∷ (53 ∷ [])
    ∷ (92 ∷ [])
    ∷ (92 ∷ 93 ∷ [])
    ∷ (77 ∷ [])
    ∷ (5 ∷ 77 ∷ [])
    ∷ (53 ∷ 5 ∷ 77 ∷ [])
    ∷ (94 ∷ [])
    ∷ []

abbrev pub or_nothing : Option (List ℕ) → List ℕ
or_nothing none = []
or_nothing (some symbols) = symbols

abbrev pub past : ℕ → List ℕ
past s = or_nothing (get_elem? pasts s)

reduce_2 : (token : ℕ) → ReduceIsValid number states past 2 (reduce_by none 0 1 92 token) 1
unfolding variants token_id reach all_below find_action find_goto
reduce_2 token =
    (rule_unit, 5, tkn semicolon ∷ [], refl, refl, omega arith, omega arith, refl, refl)

reduce_3 :
    (token : ℕ)
    → ReduceIsValid number states past 3 (reduce_by (some unit_list_reducer) 0 1 93 token) 1
unfolding variants token_id reach all_below find_action find_goto
reduce_3 token =
    (rule_unit_list, 0, sub rule_unit ∷ [], refl, refl, omega arith, omega arith, refl, refl)

reduce_4 :
    (token : ℕ)
    → ReduceIsValid number states past 4 (reduce_by (some unit_list_reducer) 1 2 93 token) 2
unfolding variants token_id reach all_below find_action find_goto
reduce_4 token = (
  rule_unit_list,
  1,
  sub rule_unit_list ∷ sub rule_unit ∷ [],
  refl,
  refl,
  omega arith,
  omega arith,
  refl,
  refl,
)

reduce_7 :
    (token : ℕ)
    → ReduceIsValid number states past 7 (reduce_by (some package_unit_reducer) 0 3 94 token) 3
unfolding variants token_id reach all_below find_action find_goto
reduce_7 token = (
  rule_package_unit,
  0,
  tkn kw_package ∷ tkn string_literal ∷ tkn semicolon ∷ [],
  refl,
  refl,
  omega arith,
  omega arith,
  refl,
  refl,
)

reduce_8 : (token : ℕ) → ReduceIsValid number states past 8 (reduce_by none 0 1 92 token) 1
unfolding variants token_id reach all_below find_action find_goto
reduce_8 token =
    (rule_unit, 1, sub rule_package_unit ∷ [], refl, refl, omega arith, omega arith, refl, refl)

Lands-2 : (b : ℕ) → Lands number states past b 53 2
Lands-2 b = (refl, omega arith, omega arith)

Lands-5 : (b : ℕ) → Lands number states past b 77 5
Lands-5 b = (refl, omega arith, omega arith)

Lands-8 : (b : ℕ) → Lands number states past b 94 8
Lands-8 b = (refl, omega arith, omega arith)

accept_1 : AcceptIsValid number states past 1
unfolding reach all_below find_action find_goto
accept_1 = (omega arith, refl, refl)

pub states-IsConsistent : IsConsistent number states past
states-IsConsistent = (
  omega arith,
  refl,
  (
    (Lands-2 0, (Lands-5 0, tt)),
    ((refl, omega arith, omega arith), ((refl, omega arith, omega arith), (Lands-8 0, tt))),
    (
      (accept_1, (Lands-2 1, (Lands-5 1, tt))),
      ((refl, omega arith, omega arith), (Lands-8 1, tt)),
      (
        (reduce_2 2, (reduce_2 53, (reduce_2 77, tt))),
        tt,
        (
          (reduce_3 2, (reduce_3 53, (reduce_3 77, tt))),
          tt,
          (
            (reduce_4 2, (reduce_4 53, (reduce_4 77, tt))),
            tt,
            (
              ((refl, omega arith, omega arith), tt),
              tt,
              (
                ((refl, omega arith, omega arith), tt),
                tt,
                (
                  (reduce_7 2, (reduce_7 53, (reduce_7 77, tt))),
                  tt,
                  ((reduce_8 2, (reduce_8 53, (reduce_8 77, tt))), tt, tt),
                ),
              ),
            ),
          ),
        ),
      ),
    ),
  ),
)
