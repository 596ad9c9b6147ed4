-- ===== src/Reduce/Kinds.antt =====
-- What the code relies on in src/grammar_rules.c: what the pointer of a token or rule points to.
use low.Prelude.{ℕ, List, [], ◌∷◌, Option, none, some, Bytes, ◌≡◌}
use low.Lexer.Token.{token_id}
use low.Grammar.Symbols.{
  rule_primary_expr, rule_postfix_expr, rule_argument_expr_list, rule_unary_expr, rule_builtin_func,
  rule_unary_op, rule_cast_expr, rule_multiplicative_expr, rule_additive_expr, rule_shift_expr,
  rule_relational_expr, rule_equality_expr, rule_bitwise_and_expr, rule_bitwise_xor_expr,
  rule_bitwise_or_expr, rule_and_expr, rule_or_expr, rule_conditional_expr, rule_assignment_expr,
  rule_assignment_op, rule_expr, rule_expr_stmt, rule_compound_stmt, rule_block_item_list,
  rule_block_item, rule_selection_stmt, rule_iteration_stmt, rule_iteration_stmt_for_init,
  rule_iteration_stmt_for_cond, rule_iteration_stmt_for_step, rule_iteration_stmt_for_while,
  rule_jump_stmt, rule_labeled_stmt, rule_stmt, rule_variable_decl, rule_const_decl,
  rule_implementation_decl, rule_implementation_mapping_list, rule_implementation_mapping,
  rule_decl, rule_type, rule_struct_member_list, rule_struct_member, rule_func_type_args,
  rule_interface_member_list, rule_interface_member, rule_interface_member_func_parameter_list,
  rule_interface_member_func_parameter, rule_import_unit, rule_package_unit, rule_decl_unit,
  rule_func_unit, rule_func_unit_decl, rule_parameter_list, rule_parameter, rule_type_unit,
  rule_unit_list, rule_unit,
}
use low.Grammar.Symbols.{Rule, Symbol, tkn, sub, Variant, variant}
use low.Ast.Tree.{Loc}
use low.Reduce.Values.{
  Outcome, ok, aborts, confused, overrun, Kind, an_expr, a_stmt, a_loop, a_decl, a_type, a_unit,
  a_func, an_item, a_member, an_interface_member, a_mapping, a_param, a_unary_op, an_assignment_op,
  Typed, Value, null, one, many, Tok,
}
use low.Reduce.Run.{reduced}

-- An object, one or null, an array of objects, or always null.
pub data Sort : Type 0 where
  must may array : Kind → Sort
  blank : Sort

abbrev pub rule_sort : Rule → Sort
rule_sort rule_primary_expr = must an_expr
rule_sort rule_postfix_expr = must an_expr
rule_sort rule_argument_expr_list = array an_expr
rule_sort rule_unary_expr = must an_expr
rule_sort rule_builtin_func = must an_expr
rule_sort rule_unary_op = must a_unary_op
rule_sort rule_cast_expr = must an_expr
rule_sort rule_multiplicative_expr = must an_expr
rule_sort rule_additive_expr = must an_expr
rule_sort rule_shift_expr = must an_expr
rule_sort rule_relational_expr = must an_expr
rule_sort rule_equality_expr = must an_expr
rule_sort rule_bitwise_and_expr = must an_expr
rule_sort rule_bitwise_xor_expr = must an_expr
rule_sort rule_bitwise_or_expr = must an_expr
rule_sort rule_and_expr = must an_expr
rule_sort rule_or_expr = must an_expr
rule_sort rule_conditional_expr = must an_expr
rule_sort rule_assignment_expr = must an_expr
rule_sort rule_assignment_op = must an_assignment_op
rule_sort rule_expr = must an_expr
rule_sort rule_expr_stmt = may a_stmt
rule_sort rule_compound_stmt = may a_stmt
rule_sort rule_block_item_list = array an_item
rule_sort rule_block_item = must an_item
rule_sort rule_selection_stmt = must a_stmt
rule_sort rule_iteration_stmt = must a_stmt
rule_sort rule_iteration_stmt_for_init = must a_loop
rule_sort rule_iteration_stmt_for_cond = must a_loop
rule_sort rule_iteration_stmt_for_step = must a_loop
rule_sort rule_iteration_stmt_for_while = must a_loop
rule_sort rule_jump_stmt = must a_stmt
rule_sort rule_labeled_stmt = must a_stmt
rule_sort rule_stmt = may a_stmt
rule_sort rule_variable_decl = must a_decl
rule_sort rule_const_decl = must a_decl
rule_sort rule_implementation_decl = must a_decl
rule_sort rule_implementation_mapping_list = array a_mapping
rule_sort rule_implementation_mapping = must a_mapping
rule_sort rule_decl = must a_decl
rule_sort rule_type = must a_type
rule_sort rule_struct_member_list = array a_member
rule_sort rule_struct_member = must a_member
rule_sort rule_func_type_args = array a_type
rule_sort rule_interface_member_list = array an_interface_member
rule_sort rule_interface_member = must an_interface_member
rule_sort rule_interface_member_func_parameter_list = array a_type
rule_sort rule_interface_member_func_parameter = must a_type
rule_sort rule_import_unit = must a_unit
rule_sort rule_package_unit = must a_unit
rule_sort rule_decl_unit = must a_unit
rule_sort rule_func_unit = must a_unit
rule_sort rule_func_unit_decl = must a_func
rule_sort rule_parameter_list = array a_param
rule_sort rule_parameter = must a_param
rule_sort rule_type_unit = must a_unit
rule_sort rule_unit_list = array a_unit
rule_sort rule_unit = may a_unit

abbrev pub symbol_sort : Symbol → Sort
symbol_sort (tkn t) = blank
symbol_sort (sub r) = rule_sort r

abbrev pub Sorted : Sort → Type 0
Sorted (must k) = Typed k
Sorted (may k) = Option (Typed k)
Sorted (array k) = List (Typed k)
Sorted blank = Unit

-- The value that stands for an object of the sort.
abbrev pub value_of : (s : Sort) → Sorted s → Value
value_of (must k) a = one k a
value_of (may k) none = null
value_of (may k) (some a) = one k a
value_of (array k) as' = many k as'
value_of blank u = null

-- A token of the symbol, as the lexer or a reduction leaves it: the number of a rule is any.
abbrev pub Child : Symbol → Type 0
Child x = ℕ × ℕ × ℕ × Loc × Sorted (symbol_sort x)

abbrev pub child_id : Symbol → ℕ → ℕ
child_id (tkn t) id = token_id t
child_id (sub r) id = id

abbrev pub child_tok : (x : Symbol) → Child x → Tok
child_tok x (id, first, last, loc, a) = record {
  id = child_id x id;
  first = first;
  last = last;
  loc = loc;
  value = value_of (symbol_sort x) a;
}

abbrev pub Children : List Symbol → Type 0
Children [] = Unit
Children (x ∷ xs) = Child x × Children xs

abbrev pub child_toks : (xs : List Symbol) → Children xs → List Tok
child_toks [] u = []
child_toks (x ∷ xs) (c, cs) = child_tok x c ∷ child_toks xs cs

-- The outcome of a reduction to the sort: an object of it, a call of `abort`, or a read behind a
-- text that is no literal.
abbrev pub HasSort : Sort → Outcome Tok → Type 0
HasSort s (ok t) = (a : Sorted s) × (t.value ≡ value_of s a)
HasSort s aborts = Unit
HasSort s confused = ⊥
HasSort s overrun = Unit

abbrev pub All {ℓ κ} : {A : Type ℓ} → (A → Type κ) → List A → Type κ
All P [] = Unit
All P (x ∷ xs) = P x × All P xs

module _ (file : Bytes) (atoi : Bytes → ℕ) where
  -- Whatever is reduced by the variant, the reducer reads from it only what is there.
  abbrev pub IsSafe : Rule → Variant → Type 0
  IsSafe r (variant xs reducer tag) =
      (rule last : ℕ) (cs : Children xs)
      → HasSort (rule_sort r) (reduced file atoi reducer tag rule last (child_toks xs cs))
