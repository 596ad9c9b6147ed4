-- ===== src/Grammar/Variants.antt =====
-- src/grammar_rules.h and the definitions of src/grammar.c: the variants of every rule.
use low.Prelude.{List}
use low.Grammar.Symbols.{
  Rule, Variant, Symbol, sub, rule_primary_expr, rule_postfix_expr, rule_argument_expr_list,
  rule_unary_expr, rule_builtin_func, rule_unary_op, rule_cast_expr, rule_multiplicative_expr,
  rule_additive_expr, rule_shift_expr, rule_relational_expr, rule_equality_expr,
  rule_bitwise_and_expr, rule_bitwise_xor_expr, rule_bitwise_or_expr, rule_and_expr, rule_or_expr,
  rule_conditional_expr, rule_assignment_expr, rule_assignment_op, rule_expr, rule_expr_stmt,
  rule_compound_stmt, rule_block_item_list, rule_block_item, rule_selection_stmt,
  rule_iteration_stmt, rule_iteration_stmt_for_init, rule_iteration_stmt_for_cond,
  rule_iteration_stmt_for_step, rule_iteration_stmt_for_while, rule_jump_stmt, rule_labeled_stmt,
  rule_stmt, rule_variable_decl, rule_const_decl, rule_implementation_decl,
  rule_implementation_mapping_list, rule_implementation_mapping, rule_decl, rule_type,
  rule_struct_member_list, rule_struct_member, rule_func_type_args, rule_interface_member_list,
  rule_interface_member, rule_interface_member_func_parameter_list,
  rule_interface_member_func_parameter, rule_import_unit, rule_package_unit, rule_decl_unit,
  rule_func_unit, rule_func_unit_decl, rule_parameter_list, rule_parameter, rule_type_unit,
  rule_unit_list, rule_unit,
}
use low.Grammar.Exprs.{
  primary_expr_variants, postfix_expr_variants, argument_expr_list_variants, unary_expr_variants,
  builtin_func_variants, unary_op_variants, cast_expr_variants, multiplicative_expr_variants,
  additive_expr_variants, shift_expr_variants, relational_expr_variants, equality_expr_variants,
  bitwise_and_expr_variants, bitwise_xor_expr_variants, bitwise_or_expr_variants, and_expr_variants,
  or_expr_variants, conditional_expr_variants, assignment_expr_variants, assignment_op_variants,
  expr_variants,
}
use low.Grammar.Stmts.{
  expr_stmt_variants, compound_stmt_variants, block_item_list_variants, block_item_variants,
  selection_stmt_variants, iteration_stmt_variants, iteration_stmt_for_init_variants,
  iteration_stmt_for_cond_variants, iteration_stmt_for_step_variants,
  iteration_stmt_for_while_variants, jump_stmt_variants, labeled_stmt_variants, stmt_variants,
}
use low.Grammar.Decls.{
  variable_decl_variants, const_decl_variants, implementation_decl_variants,
  implementation_mapping_list_variants, implementation_mapping_variants, decl_variants,
}
use low.Grammar.Types.{
  type_variants, struct_member_list_variants, struct_member_variants, func_type_args_variants,
  interface_member_list_variants, interface_member_variants,
  interface_member_func_parameter_list_variants, interface_member_func_parameter_variants,
}
use low.Grammar.Units.{
  import_unit_variants, package_unit_variants, decl_unit_variants, func_unit_variants,
  func_unit_decl_variants, parameter_list_variants, parameter_variants, type_unit_variants,
  unit_list_variants, unit_variants,
}

unfoldable pub variants : Rule → List Variant
variants rule_primary_expr = primary_expr_variants
variants rule_postfix_expr = postfix_expr_variants
variants rule_argument_expr_list = argument_expr_list_variants
variants rule_unary_expr = unary_expr_variants
variants rule_builtin_func = builtin_func_variants
variants rule_unary_op = unary_op_variants
variants rule_cast_expr = cast_expr_variants
variants rule_multiplicative_expr = multiplicative_expr_variants
variants rule_additive_expr = additive_expr_variants
variants rule_shift_expr = shift_expr_variants
variants rule_relational_expr = relational_expr_variants
variants rule_equality_expr = equality_expr_variants
variants rule_bitwise_and_expr = bitwise_and_expr_variants
variants rule_bitwise_xor_expr = bitwise_xor_expr_variants
variants rule_bitwise_or_expr = bitwise_or_expr_variants
variants rule_and_expr = and_expr_variants
variants rule_or_expr = or_expr_variants
variants rule_conditional_expr = conditional_expr_variants
variants rule_assignment_expr = assignment_expr_variants
variants rule_assignment_op = assignment_op_variants
variants rule_expr = expr_variants
variants rule_expr_stmt = expr_stmt_variants
variants rule_compound_stmt = compound_stmt_variants
variants rule_block_item_list = block_item_list_variants
variants rule_block_item = block_item_variants
variants rule_selection_stmt = selection_stmt_variants
variants rule_iteration_stmt = iteration_stmt_variants
variants rule_iteration_stmt_for_init = iteration_stmt_for_init_variants
variants rule_iteration_stmt_for_cond = iteration_stmt_for_cond_variants
variants rule_iteration_stmt_for_step = iteration_stmt_for_step_variants
variants rule_iteration_stmt_for_while = iteration_stmt_for_while_variants
variants rule_jump_stmt = jump_stmt_variants
variants rule_labeled_stmt = labeled_stmt_variants
variants rule_stmt = stmt_variants
variants rule_variable_decl = variable_decl_variants
variants rule_const_decl = const_decl_variants
variants rule_implementation_decl = implementation_decl_variants
variants rule_implementation_mapping_list = implementation_mapping_list_variants
variants rule_implementation_mapping = implementation_mapping_variants
variants rule_decl = decl_variants
variants rule_type = type_variants
variants rule_struct_member_list = struct_member_list_variants
variants rule_struct_member = struct_member_variants
variants rule_func_type_args = func_type_args_variants
variants rule_interface_member_list = interface_member_list_variants
variants rule_interface_member = interface_member_variants
variants rule_interface_member_func_parameter_list = interface_member_func_parameter_list_variants
variants rule_interface_member_func_parameter = interface_member_func_parameter_variants
variants rule_import_unit = import_unit_variants
variants rule_package_unit = package_unit_variants
variants rule_decl_unit = decl_unit_variants
variants rule_func_unit = func_unit_variants
variants rule_func_unit_decl = func_unit_decl_variants
variants rule_parameter_list = parameter_list_variants
variants rule_parameter = parameter_variants
variants rule_type_unit = type_unit_variants
variants rule_unit_list = unit_list_variants
variants rule_unit = unit_variants

-- `GRAMMAR_ROOT`. The rule `grammar_root` has one variant, with this element alone, and is accepted.
abbrev pub root_symbol : Symbol
root_symbol = sub rule_unit_list
