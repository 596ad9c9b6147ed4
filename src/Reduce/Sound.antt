-- ===== src/Reduce/Sound.antt =====
-- The reducers of src/grammar_rules.c, each on the variants of the grammar that name it.
use low.Prelude.{ℕ, Bytes, ◌≢◌, refl}
use low.Grammar.Symbols.{
  Rule, rule_primary_expr, rule_postfix_expr, rule_argument_expr_list, rule_unary_expr,
  rule_builtin_func, rule_unary_op, rule_cast_expr, rule_multiplicative_expr, rule_additive_expr,
  rule_shift_expr, rule_relational_expr, rule_equality_expr, rule_bitwise_and_expr,
  rule_bitwise_xor_expr, rule_bitwise_or_expr, rule_and_expr, rule_or_expr, rule_conditional_expr,
  rule_assignment_expr, rule_assignment_op, rule_expr, rule_expr_stmt, rule_compound_stmt,
  rule_block_item_list, rule_block_item, rule_selection_stmt, rule_iteration_stmt,
  rule_iteration_stmt_for_init, rule_iteration_stmt_for_cond, rule_iteration_stmt_for_step,
  rule_iteration_stmt_for_while, rule_jump_stmt, rule_labeled_stmt, rule_stmt, rule_variable_decl,
  rule_const_decl, rule_implementation_decl, rule_implementation_mapping_list,
  rule_implementation_mapping, rule_decl, rule_type, rule_struct_member_list, rule_struct_member,
  rule_func_type_args, rule_interface_member_list, rule_interface_member,
  rule_interface_member_func_parameter_list, rule_interface_member_func_parameter, rule_import_unit,
  rule_package_unit, rule_decl_unit, rule_func_unit, rule_func_unit_decl, rule_parameter_list,
  rule_parameter, rule_type_unit, rule_unit_list, rule_unit,
}
use low.Grammar.Variants.{variants}
use low.Reduce.Kinds.{IsSafe, All}
use low.Reduce.SafeExprs.{
  primary_expr-IsSafe, postfix_expr-IsSafe, argument_expr_list-IsSafe, unary_expr-IsSafe,
  builtin_func-IsSafe, unary_op-IsSafe, cast_expr-IsSafe, multiplicative_expr-IsSafe,
  additive_expr-IsSafe, shift_expr-IsSafe, relational_expr-IsSafe, equality_expr-IsSafe,
  bitwise_and_expr-IsSafe, bitwise_xor_expr-IsSafe, bitwise_or_expr-IsSafe, and_expr-IsSafe,
  or_expr-IsSafe, conditional_expr-IsSafe, assignment_expr-IsSafe, assignment_op-IsSafe,
  expr-IsSafe,
}
use low.Reduce.SafeStmts.{
  expr_stmt-IsSafe, compound_stmt-IsSafe, block_item_list-IsSafe, block_item-IsSafe,
  selection_stmt-IsSafe, iteration_stmt-IsSafe, iteration_stmt_for_init-IsSafe,
  iteration_stmt_for_cond-IsSafe, iteration_stmt_for_step-IsSafe, iteration_stmt_for_while-IsSafe,
  jump_stmt-IsSafe, labeled_stmt-IsSafe, stmt-IsSafe,
}
use low.Reduce.SafeDecls.{
  variable_decl-IsSafe, const_decl-IsSafe, implementation_decl-IsSafe,
  implementation_mapping-IsSafe, decl-IsSafe, type-IsSafe, struct_member_list-IsSafe,
  struct_member-IsSafe, func_type_args-IsSafe, interface_member_list-IsSafe,
  interface_member-IsSafe, interface_member_func_parameter_list-IsSafe,
  interface_member_func_parameter-IsSafe,
}
use low.Reduce.SafeUnits.{
  import_unit-IsSafe, package_unit-IsSafe, decl_unit-IsSafe, func_unit-IsSafe,
  func_unit_decl-IsSafe, parameter_list-IsSafe, parameter-IsSafe, type_unit-IsSafe,
  unit_list-IsSafe, unit-IsSafe,
}

module _ (file : Bytes) (atoi : Bytes → ℕ) where
  -- In every variant of a rule other than `implementation_mapping_list`, the reducer uses the pointers
  -- of the tokens only as pointers to objects of the types that the rules of these tokens leave, has an
  -- object where it needs one, reads no token but those of the variant, and leaves an object of the type
  -- of its own rule, unless it calls `abort` or meets a literal whose text is none.
  pub reduced-IsSafe :
      (r : Rule) → r ≢ rule_implementation_mapping_list → All (IsSafe file atoi r) (variants r)
  reduced-IsSafe rule_primary_expr h = primary_expr-IsSafe file atoi
  reduced-IsSafe rule_postfix_expr h = postfix_expr-IsSafe file atoi
  reduced-IsSafe rule_argument_expr_list h = argument_expr_list-IsSafe file atoi
  reduced-IsSafe rule_unary_expr h = unary_expr-IsSafe file atoi
  reduced-IsSafe rule_builtin_func h = builtin_func-IsSafe file atoi
  reduced-IsSafe rule_unary_op h = unary_op-IsSafe file atoi
  reduced-IsSafe rule_cast_expr h = cast_expr-IsSafe file atoi
  reduced-IsSafe rule_multiplicative_expr h = multiplicative_expr-IsSafe file atoi
  reduced-IsSafe rule_additive_expr h = additive_expr-IsSafe file atoi
  reduced-IsSafe rule_shift_expr h = shift_expr-IsSafe file atoi
  reduced-IsSafe rule_relational_expr h = relational_expr-IsSafe file atoi
  reduced-IsSafe rule_equality_expr h = equality_expr-IsSafe file atoi
  reduced-IsSafe rule_bitwise_and_expr h = bitwise_and_expr-IsSafe file atoi
  reduced-IsSafe rule_bitwise_xor_expr h = bitwise_xor_expr-IsSafe file atoi
  reduced-IsSafe rule_bitwise_or_expr h = bitwise_or_expr-IsSafe file atoi
  reduced-IsSafe rule_and_expr h = and_expr-IsSafe file atoi
  reduced-IsSafe rule_or_expr h = or_expr-IsSafe file atoi
  reduced-IsSafe rule_conditional_expr h = conditional_expr-IsSafe file atoi
  reduced-IsSafe rule_assignment_expr h = assignment_expr-IsSafe file atoi
  reduced-IsSafe rule_assignment_op h = assignment_op-IsSafe file atoi
  reduced-IsSafe rule_expr h = expr-IsSafe file atoi
  reduced-IsSafe rule_expr_stmt h = expr_stmt-IsSafe file atoi
  reduced-IsSafe rule_compound_stmt h = compound_stmt-IsSafe file atoi
  reduced-IsSafe rule_block_item_list h = block_item_list-IsSafe file atoi
  reduced-IsSafe rule_block_item h = block_item-IsSafe file atoi
  reduced-IsSafe rule_selection_stmt h = selection_stmt-IsSafe file atoi
  reduced-IsSafe rule_iteration_stmt h = iteration_stmt-IsSafe file atoi
  reduced-IsSafe rule_iteration_stmt_for_init h = iteration_stmt_for_init-IsSafe file atoi
  reduced-IsSafe rule_iteration_stmt_for_cond h = iteration_stmt_for_cond-IsSafe file atoi
  reduced-IsSafe rule_iteration_stmt_for_step h = iteration_stmt_for_step-IsSafe file atoi
  reduced-IsSafe rule_iteration_stmt_for_while h = iteration_stmt_for_while-IsSafe file atoi
  reduced-IsSafe rule_jump_stmt h = jump_stmt-IsSafe file atoi
  reduced-IsSafe rule_labeled_stmt h = labeled_stmt-IsSafe file atoi
  reduced-IsSafe rule_stmt h = stmt-IsSafe file atoi
  reduced-IsSafe rule_variable_decl h = variable_decl-IsSafe file atoi
  reduced-IsSafe rule_const_decl h = const_decl-IsSafe file atoi
  reduced-IsSafe rule_implementation_decl h = implementation_decl-IsSafe file atoi
  reduced-IsSafe rule_implementation_mapping_list h = absurd (h refl)
  reduced-IsSafe rule_implementation_mapping h = implementation_mapping-IsSafe file atoi
  reduced-IsSafe rule_decl h = decl-IsSafe file atoi
  reduced-IsSafe rule_type h = type-IsSafe file atoi
  reduced-IsSafe rule_struct_member_list h = struct_member_list-IsSafe file atoi
  reduced-IsSafe rule_struct_member h = struct_member-IsSafe file atoi
  reduced-IsSafe rule_func_type_args h = func_type_args-IsSafe file atoi
  reduced-IsSafe rule_interface_member_list h = interface_member_list-IsSafe file atoi
  reduced-IsSafe rule_interface_member h = interface_member-IsSafe file atoi
  reduced-IsSafe rule_interface_member_func_parameter_list h =
      interface_member_func_parameter_list-IsSafe file atoi
  reduced-IsSafe rule_interface_member_func_parameter h =
      interface_member_func_parameter-IsSafe file atoi
  reduced-IsSafe rule_import_unit h = import_unit-IsSafe file atoi
  reduced-IsSafe rule_package_unit h = package_unit-IsSafe file atoi
  reduced-IsSafe rule_decl_unit h = decl_unit-IsSafe file atoi
  reduced-IsSafe rule_func_unit h = func_unit-IsSafe file atoi
  reduced-IsSafe rule_func_unit_decl h = func_unit_decl-IsSafe file atoi
  reduced-IsSafe rule_parameter_list h = parameter_list-IsSafe file atoi
  reduced-IsSafe rule_parameter h = parameter-IsSafe file atoi
  reduced-IsSafe rule_type_unit h = type_unit-IsSafe file atoi
  reduced-IsSafe rule_unit_list h = unit_list-IsSafe file atoi
  reduced-IsSafe rule_unit h = unit-IsSafe file atoi
