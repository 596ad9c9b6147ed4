-- ===== src/Grammar/Symbols.antt =====
-- src/grammar.h and the names that src/grammar_rules.h uses: rules, reducers and variants.
use low.Prelude.{ℕ, List, Option}
use low.Lexer.Token.{Token}

-- A rule is its address in the source: the constructors are the variables `grammar_...`.
pub data Rule : Type 0 where
  rule_primary_expr rule_postfix_expr rule_argument_expr_list rule_unary_expr : Rule
  rule_builtin_func rule_unary_op rule_cast_expr rule_multiplicative_expr rule_additive_expr : Rule
  rule_shift_expr rule_relational_expr rule_equality_expr rule_bitwise_and_expr : Rule
  rule_bitwise_xor_expr rule_bitwise_or_expr rule_and_expr rule_or_expr rule_conditional_expr : Rule
  rule_assignment_expr rule_assignment_op rule_expr rule_expr_stmt rule_compound_stmt : Rule
  rule_block_item_list rule_block_item rule_selection_stmt rule_iteration_stmt : Rule
  rule_iteration_stmt_for_init rule_iteration_stmt_for_cond rule_iteration_stmt_for_step : Rule
  rule_iteration_stmt_for_while rule_jump_stmt rule_labeled_stmt rule_stmt rule_variable_decl : Rule
  rule_const_decl rule_implementation_decl rule_implementation_mapping_list : Rule
  rule_implementation_mapping rule_decl rule_type rule_struct_member_list rule_struct_member : Rule
  rule_func_type_args rule_interface_member_list rule_interface_member : Rule
  rule_interface_member_func_parameter_list rule_interface_member_func_parameter : Rule
  rule_import_unit rule_package_unit rule_decl_unit rule_func_unit rule_func_unit_decl : Rule
  rule_parameter_list rule_parameter rule_type_unit rule_unit_list rule_unit : Rule

-- An element of a variant: a token, or a rule.
pub data Symbol : Type 0 where
  tkn : Token → Symbol
  sub : Rule → Symbol

-- The functions of src/grammar_rules.c that the grammar names.
pub data Reducer : Type 0 where
  primary_expr_ident_reducer primary_expr_string_reducer primary_expr_number_reducer : Reducer
  primary_expr_paren_reducer postfix_expr_index_reducer postfix_expr_slice_reducer : Reducer
  postfix_expr_call_reducer postfix_expr_member_reducer postfix_expr_incdec_reducer : Reducer
  argument_expr_list_reducer unary_expr_incdec_reducer unary_expr_op_reducer : Reducer
  unary_expr_sizeof_reducer builtin_func_new_reducer builtin_func_free_reducer : Reducer
  builtin_func_make_reducer builtin_func_lencap_reducer builtin_func_dispose_reducer : Reducer
  unary_op_reducer cast_expr_reducer cast_expr2_reducer binary_expr_reducer : Reducer
  conditional_expr_reducer assignment_expr_reducer assignment_op_reducer : Reducer
  expr_comma_reducer expr_stmt_reducer compound_stmt_reducer block_item_list_reducer : Reducer
  block_item_decl_reducer block_item_stmt_reducer selection_stmt_if_reducer : Reducer
  selection_stmt_switch_reducer iteration_stmt_do_reducer iteration_stmt_for_reducer : Reducer
  iteration_stmt_for_init_reducer iteration_stmt_for_cond_reducer : Reducer
  iteration_stmt_for_step_reducer iteration_stmt_for_while_reducer jump_stmt_goto_reducer : Reducer
  jump_stmt_continue_reducer jump_stmt_break_reducer jump_stmt_return_reducer : Reducer
  labeled_stmt_case_reducer labeled_stmt_default_reducer variable_decl_reducer : Reducer
  variable_decl2_reducer const_decl_reducer implementation_decl_reducer : Reducer
  implementation_mapping_list_reducer implementation_mapping_reducer type_void_reducer : Reducer
  type_name_reducer type_pointer_reducer type_struct_reducer type_array_reducer : Reducer
  type_slice_reducer type_func_reducer type_interface_reducer struct_member_list_reducer : Reducer
  struct_member_reducer struct_member2_reducer func_type_args_reducer : Reducer
  interface_member_list_reducer interface_member_field_reducer : Reducer
  interface_member_func_reducer interface_member_func_parameter_list_reducer : Reducer
  interface_member_func_parameter_reducer import_unit_reducer package_unit_reducer : Reducer
  decl_unit_reducer func_unit_reducer func_unit_decl_reducer func_unit_decl2_reducer : Reducer
  parameter_list_reducer parameter_reducer type_unit_reducer unit_list_reducer : Reducer

-- The elements, the reducer, null for `REDUCE_DEFAULT`, and its tag.
pub data Variant : Type 0 where
  variant : List Symbol → Option Reducer → ℕ → Variant
