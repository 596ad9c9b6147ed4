-- ===== src/Reduce/Run.antt =====
-- src/grammar_rules.c and src/parser.c: the reducer that a variant names, and one reduction.
use low.Prelude.{ℕ, List, [], ◌∷◌, Option, none, some, Bytes}
use low.Grammar.Symbols.{
  Reducer, primary_expr_ident_reducer, primary_expr_string_reducer, primary_expr_number_reducer,
  primary_expr_paren_reducer, postfix_expr_index_reducer, postfix_expr_slice_reducer,
  postfix_expr_call_reducer, postfix_expr_member_reducer, postfix_expr_incdec_reducer,
  argument_expr_list_reducer, unary_expr_incdec_reducer, unary_expr_op_reducer,
  unary_expr_sizeof_reducer, builtin_func_new_reducer, builtin_func_free_reducer,
  builtin_func_make_reducer, builtin_func_lencap_reducer, builtin_func_dispose_reducer,
  unary_op_reducer, cast_expr_reducer, cast_expr2_reducer, binary_expr_reducer,
  conditional_expr_reducer, assignment_expr_reducer, assignment_op_reducer, expr_comma_reducer,
  expr_stmt_reducer, compound_stmt_reducer, block_item_list_reducer, block_item_decl_reducer,
  block_item_stmt_reducer, selection_stmt_if_reducer, selection_stmt_switch_reducer,
  iteration_stmt_do_reducer, iteration_stmt_for_reducer, iteration_stmt_for_init_reducer,
  iteration_stmt_for_cond_reducer, iteration_stmt_for_step_reducer,
  iteration_stmt_for_while_reducer, jump_stmt_goto_reducer, jump_stmt_continue_reducer,
  jump_stmt_break_reducer, jump_stmt_return_reducer, labeled_stmt_case_reducer,
  labeled_stmt_default_reducer, variable_decl_reducer, variable_decl2_reducer, const_decl_reducer,
  implementation_decl_reducer, implementation_mapping_list_reducer, implementation_mapping_reducer,
  type_void_reducer, type_name_reducer, type_pointer_reducer, type_struct_reducer,
  type_array_reducer, type_slice_reducer, type_func_reducer, type_interface_reducer,
  struct_member_list_reducer, struct_member_reducer, struct_member2_reducer, func_type_args_reducer,
  interface_member_list_reducer, interface_member_field_reducer, interface_member_func_reducer,
  interface_member_func_parameter_list_reducer, interface_member_func_parameter_reducer,
  import_unit_reducer, package_unit_reducer, decl_unit_reducer, func_unit_reducer,
  func_unit_decl_reducer, func_unit_decl2_reducer, parameter_list_reducer, parameter_reducer,
  type_unit_reducer, unit_list_reducer,
}
use low.Reduce.Exprs.{
  reduce_argument_expr_list, reduce_postfix_expr_call, reduce_postfix_expr_incdec,
  reduce_postfix_expr_index, reduce_postfix_expr_member, reduce_postfix_expr_slice,
  reduce_primary_expr_ident, reduce_primary_expr_number, reduce_primary_expr_paren,
  reduce_primary_expr_string,
}
use low.Reduce.Operators.{
  reduce_assignment_expr, reduce_assignment_op, reduce_binary_expr, reduce_builtin_func_dispose,
  reduce_builtin_func_free, reduce_builtin_func_lencap, reduce_builtin_func_make,
  reduce_builtin_func_new, reduce_cast_expr, reduce_cast_expr2, reduce_conditional_expr,
  reduce_expr_comma, reduce_unary_expr_incdec, reduce_unary_expr_op, reduce_unary_expr_sizeof,
  reduce_unary_op,
}
use low.Reduce.Stmts.{
  reduce_block_item_decl, reduce_block_item_list, reduce_block_item_stmt, reduce_compound_stmt,
  reduce_expr_stmt, reduce_iteration_stmt_do, reduce_iteration_stmt_for,
  reduce_iteration_stmt_for_cond, reduce_iteration_stmt_for_init, reduce_iteration_stmt_for_step,
  reduce_iteration_stmt_for_while, reduce_jump_stmt_break, reduce_jump_stmt_continue,
  reduce_jump_stmt_goto, reduce_jump_stmt_return, reduce_labeled_stmt_case,
  reduce_labeled_stmt_default, reduce_selection_stmt_if, reduce_selection_stmt_switch,
}
use low.Reduce.Units.{
  reduce_const_decl, reduce_decl_unit, reduce_func_unit, reduce_func_unit_decl,
  reduce_func_unit_decl2, reduce_implementation_decl, reduce_implementation_mapping,
  reduce_implementation_mapping_list, reduce_import_unit, reduce_package_unit, reduce_parameter,
  reduce_parameter_list, reduce_type_unit, reduce_unit_list, reduce_variable_decl,
  reduce_variable_decl2,
}
use low.Reduce.Types.{
  reduce_func_type_args, reduce_interface_member_field, reduce_interface_member_func,
  reduce_interface_member_func_parameter, reduce_interface_member_func_parameter_list,
  reduce_interface_member_list, reduce_struct_member, reduce_struct_member2,
  reduce_struct_member_list, reduce_type_array, reduce_type_func, reduce_type_interface,
  reduce_type_name, reduce_type_pointer, reduce_type_slice, reduce_type_struct, reduce_type_void,
}
use low.Reduce.Values.{Outcome, ok, confused, Tok}

module _ (file : Bytes) (atoi : Bytes → ℕ) where
  -- The function that a name in the tables stands for.
  abbrev pub reduce : Reducer → Tok → List Tok → ℕ → Outcome Tok
  reduce primary_expr_ident_reducer = reduce_primary_expr_ident file
  reduce primary_expr_string_reducer = reduce_primary_expr_string file
  reduce primary_expr_number_reducer = reduce_primary_expr_number file
  reduce primary_expr_paren_reducer = reduce_primary_expr_paren
  reduce postfix_expr_index_reducer = reduce_postfix_expr_index
  reduce postfix_expr_slice_reducer = reduce_postfix_expr_slice
  reduce postfix_expr_call_reducer = reduce_postfix_expr_call
  reduce postfix_expr_member_reducer = reduce_postfix_expr_member file
  reduce postfix_expr_incdec_reducer = reduce_postfix_expr_incdec
  reduce argument_expr_list_reducer = reduce_argument_expr_list
  reduce unary_expr_incdec_reducer = reduce_unary_expr_incdec
  reduce unary_expr_op_reducer = reduce_unary_expr_op
  reduce unary_expr_sizeof_reducer = reduce_unary_expr_sizeof
  reduce builtin_func_new_reducer = reduce_builtin_func_new
  reduce builtin_func_free_reducer = reduce_builtin_func_free
  reduce builtin_func_make_reducer = reduce_builtin_func_make
  reduce builtin_func_lencap_reducer = reduce_builtin_func_lencap
  reduce builtin_func_dispose_reducer = reduce_builtin_func_dispose
  reduce unary_op_reducer = reduce_unary_op
  reduce cast_expr_reducer = reduce_cast_expr
  reduce cast_expr2_reducer = reduce_cast_expr2
  reduce binary_expr_reducer = reduce_binary_expr
  reduce conditional_expr_reducer = reduce_conditional_expr
  reduce assignment_expr_reducer = reduce_assignment_expr
  reduce assignment_op_reducer = reduce_assignment_op
  reduce expr_comma_reducer = reduce_expr_comma
  reduce expr_stmt_reducer = reduce_expr_stmt
  reduce compound_stmt_reducer = reduce_compound_stmt
  reduce block_item_list_reducer = reduce_block_item_list
  reduce block_item_decl_reducer = reduce_block_item_decl
  reduce block_item_stmt_reducer = reduce_block_item_stmt
  reduce selection_stmt_if_reducer = reduce_selection_stmt_if
  reduce selection_stmt_switch_reducer = reduce_selection_stmt_switch
  reduce iteration_stmt_do_reducer = reduce_iteration_stmt_do
  reduce iteration_stmt_for_reducer = reduce_iteration_stmt_for
  reduce iteration_stmt_for_init_reducer = reduce_iteration_stmt_for_init
  reduce iteration_stmt_for_cond_reducer = reduce_iteration_stmt_for_cond
  reduce iteration_stmt_for_step_reducer = reduce_iteration_stmt_for_step
  reduce iteration_stmt_for_while_reducer = reduce_iteration_stmt_for_while
  reduce jump_stmt_goto_reducer = reduce_jump_stmt_goto file
  reduce jump_stmt_continue_reducer = reduce_jump_stmt_continue
  reduce jump_stmt_break_reducer = reduce_jump_stmt_break
  reduce jump_stmt_return_reducer = reduce_jump_stmt_return
  reduce labeled_stmt_case_reducer = reduce_labeled_stmt_case
  reduce labeled_stmt_default_reducer = reduce_labeled_stmt_default
  reduce variable_decl_reducer = reduce_variable_decl file
  reduce variable_decl2_reducer = reduce_variable_decl2 file
  reduce const_decl_reducer = reduce_const_decl file
  reduce implementation_decl_reducer = reduce_implementation_decl
  reduce implementation_mapping_list_reducer = reduce_implementation_mapping_list
  reduce implementation_mapping_reducer = reduce_implementation_mapping file
  reduce type_void_reducer = reduce_type_void
  reduce type_name_reducer = reduce_type_name file atoi
  reduce type_pointer_reducer = reduce_type_pointer
  reduce type_struct_reducer = reduce_type_struct
  reduce type_array_reducer = reduce_type_array file atoi
  reduce type_slice_reducer = reduce_type_slice
  reduce type_func_reducer = reduce_type_func
  reduce type_interface_reducer = reduce_type_interface
  reduce struct_member_list_reducer = reduce_struct_member_list
  reduce struct_member_reducer = reduce_struct_member file
  reduce struct_member2_reducer = reduce_struct_member2 file
  reduce func_type_args_reducer = reduce_func_type_args
  reduce interface_member_list_reducer = reduce_interface_member_list
  reduce interface_member_field_reducer = reduce_interface_member_field file
  reduce interface_member_func_reducer = reduce_interface_member_func file
  reduce interface_member_func_parameter_list_reducer = reduce_interface_member_func_parameter_list
  reduce interface_member_func_parameter_reducer = reduce_interface_member_func_parameter
  reduce import_unit_reducer = reduce_import_unit file
  reduce package_unit_reducer = reduce_package_unit file
  reduce decl_unit_reducer = reduce_decl_unit
  reduce func_unit_reducer = reduce_func_unit
  reduce func_unit_decl_reducer = reduce_func_unit_decl file
  reduce func_unit_decl2_reducer = reduce_func_unit_decl2 file
  reduce parameter_list_reducer = reduce_parameter_list
  reduce parameter_reducer = reduce_parameter file
  reduce type_unit_reducer = reduce_type_unit file
  reduce unit_list_reducer = reduce_unit_list

  -- One reduction of `parse`: the first token, with the number of the rule and the end of the last,
  -- is what the reducer is given as `out`.
  abbrev pub run_reducer : Option Reducer → ℕ → Tok → List Tok → Outcome Tok
  run_reducer none tag out toks = ok out
  run_reducer (some reducer) tag out toks = reduce reducer out toks tag

  unfoldable pub reduced : Option Reducer → ℕ → ℕ → ℕ → List Tok → Outcome Tok
  reduced reducer tag rule last [] = confused
  reduced reducer tag rule last (t ∷ toks) =
      run_reducer reducer tag (record t { id = rule; last = last }) (t ∷ toks)
