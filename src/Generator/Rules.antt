-- ===== src/Generator/Rules.antt =====
-- src/parser_generator.c and src/grammar.c: the rules as pointers, which are compared.
use low.Prelude.{
  ℕ, ◌≡◌, refl, sym, ap, ◌∙◌, Bool, true, false, ◌==◌, List, [], ◌∷◌, Option, none, some, get_elem?,
  ==_iff,
}
use low.Grammar.Symbols.{
  Rule, Variant, variant, rule_primary_expr, rule_postfix_expr, rule_argument_expr_list,
  rule_unary_expr, rule_builtin_func, rule_unary_op, rule_cast_expr, rule_multiplicative_expr,
  rule_additive_expr, rule_shift_expr, rule_relational_expr, rule_equality_expr,
  rule_bitwise_and_expr, rule_bitwise_xor_expr, rule_bitwise_or_expr, rule_and_expr, rule_or_expr,
  rule_conditional_expr, rule_assignment_expr, rule_assignment_op, rule_expr, rule_expr_stmt,
  rule_compound_stmt, rule_block_item_list, rule_block_item, rule_selection_stmt,
  rule_iteration_stmt, rule_iteration_stmt_for_init, rule_iteration_stmt_for_cond,
  rule_iteration_stmt_for_step, rule_iteration_stmt_for_while, rule_jump_stmt, rule_labeled_stmt,
  rule_stmt, rule_variable_decl, rule_const_decl, rule_implementation_decl,
  rule_implementation_mapping_list, rule_implementation_mapping, rule_decl, rule_type,
  rule_struct_member_list, rule_struct_member, rule_func_type_args, rule_interface_member_list,
  rule_interface_member, rule_interface_member_func_parameter_list,
  rule_interface_member_func_parameter, rule_import_unit, rule_package_unit, rule_decl_unit,
  rule_func_unit, rule_func_unit_decl, rule_parameter_list, rule_parameter, rule_type_unit,
  rule_unit_list, rule_unit,
}
use low.Grammar.Variants.{variants}

abbrev pub all_rules : List Rule
all_rules =
    rule_primary_expr ∷ rule_postfix_expr ∷ rule_argument_expr_list ∷ rule_unary_expr
    ∷ rule_builtin_func ∷ rule_unary_op ∷ rule_cast_expr ∷ rule_multiplicative_expr
    ∷ rule_additive_expr ∷ rule_shift_expr ∷ rule_relational_expr ∷ rule_equality_expr
    ∷ rule_bitwise_and_expr ∷ rule_bitwise_xor_expr ∷ rule_bitwise_or_expr ∷ rule_and_expr
    ∷ rule_or_expr ∷ rule_conditional_expr ∷ rule_assignment_expr ∷ rule_assignment_op ∷ rule_expr
    ∷ rule_expr_stmt ∷ rule_compound_stmt ∷ rule_block_item_list ∷ rule_block_item
    ∷ rule_selection_stmt ∷ rule_iteration_stmt ∷ rule_iteration_stmt_for_init
    ∷ rule_iteration_stmt_for_cond ∷ rule_iteration_stmt_for_step ∷ rule_iteration_stmt_for_while
    ∷ rule_jump_stmt ∷ rule_labeled_stmt ∷ rule_stmt ∷ rule_variable_decl ∷ rule_const_decl
    ∷ rule_implementation_decl ∷ rule_implementation_mapping_list ∷ rule_implementation_mapping
    ∷ rule_decl ∷ rule_type ∷ rule_struct_member_list ∷ rule_struct_member ∷ rule_func_type_args
    ∷ rule_interface_member_list ∷ rule_interface_member ∷ rule_interface_member_func_parameter_list
    ∷ rule_interface_member_func_parameter ∷ rule_import_unit ∷ rule_package_unit ∷ rule_decl_unit
    ∷ rule_func_unit ∷ rule_func_unit_decl ∷ rule_parameter_list ∷ rule_parameter ∷ rule_type_unit
    ∷ rule_unit_list ∷ rule_unit ∷ []

-- The place of a rule among them: two pointers are equal if their places are.
abbrev pub rule_index : Rule → ℕ
rule_index rule_primary_expr = 0
rule_index rule_postfix_expr = 1
rule_index rule_argument_expr_list = 2
rule_index rule_unary_expr = 3
rule_index rule_builtin_func = 4
rule_index rule_unary_op = 5
rule_index rule_cast_expr = 6
rule_index rule_multiplicative_expr = 7
rule_index rule_additive_expr = 8
rule_index rule_shift_expr = 9
rule_index rule_relational_expr = 10
rule_index rule_equality_expr = 11
rule_index rule_bitwise_and_expr = 12
rule_index rule_bitwise_xor_expr = 13
rule_index rule_bitwise_or_expr = 14
rule_index rule_and_expr = 15
rule_index rule_or_expr = 16
rule_index rule_conditional_expr = 17
rule_index rule_assignment_expr = 18
rule_index rule_assignment_op = 19
rule_index rule_expr = 20
rule_index rule_expr_stmt = 21
rule_index rule_compound_stmt = 22
rule_index rule_block_item_list = 23
rule_index rule_block_item = 24
rule_index rule_selection_stmt = 25
rule_index rule_iteration_stmt = 26
rule_index rule_iteration_stmt_for_init = 27
rule_index rule_iteration_stmt_for_cond = 28
rule_index rule_iteration_stmt_for_step = 29
rule_index rule_iteration_stmt_for_while = 30
rule_index rule_jump_stmt = 31
rule_index rule_labeled_stmt = 32
rule_index rule_stmt = 33
rule_index rule_variable_decl = 34
rule_index rule_const_decl = 35
rule_index rule_implementation_decl = 36
rule_index rule_implementation_mapping_list = 37
rule_index rule_implementation_mapping = 38
rule_index rule_decl = 39
rule_index rule_type = 40
rule_index rule_struct_member_list = 41
rule_index rule_struct_member = 42
rule_index rule_func_type_args = 43
rule_index rule_interface_member_list = 44
rule_index rule_interface_member = 45
rule_index rule_interface_member_func_parameter_list = 46
rule_index rule_interface_member_func_parameter = 47
rule_index rule_import_unit = 48
rule_index rule_package_unit = 49
rule_index rule_decl_unit = 50
rule_index rule_func_unit = 51
rule_index rule_func_unit_decl = 52
rule_index rule_parameter_list = 53
rule_index rule_parameter = 54
rule_index rule_type_unit = 55
rule_index rule_unit_list = 56
rule_index rule_unit = 57

infix 50 ◌same◌
abbrev pub ◌same◌ : Rule → Rule → Bool
r same s = rule_index r == rule_index s

pub rule-get_elem : (r : Rule) → get_elem? all_rules (rule_index r) ≡ some r
rule-get_elem rule_primary_expr = refl
rule-get_elem rule_postfix_expr = refl
rule-get_elem rule_argument_expr_list = refl
rule-get_elem rule_unary_expr = refl
rule-get_elem rule_builtin_func = refl
rule-get_elem rule_unary_op = refl
rule-get_elem rule_cast_expr = refl
rule-get_elem rule_multiplicative_expr = refl
rule-get_elem rule_additive_expr = refl
rule-get_elem rule_shift_expr = refl
rule-get_elem rule_relational_expr = refl
rule-get_elem rule_equality_expr = refl
rule-get_elem rule_bitwise_and_expr = refl
rule-get_elem rule_bitwise_xor_expr = refl
rule-get_elem rule_bitwise_or_expr = refl
rule-get_elem rule_and_expr = refl
rule-get_elem rule_or_expr = refl
rule-get_elem rule_conditional_expr = refl
rule-get_elem rule_assignment_expr = refl
rule-get_elem rule_assignment_op = refl
rule-get_elem rule_expr = refl
rule-get_elem rule_expr_stmt = refl
rule-get_elem rule_compound_stmt = refl
rule-get_elem rule_block_item_list = refl
rule-get_elem rule_block_item = refl
rule-get_elem rule_selection_stmt = refl
rule-get_elem rule_iteration_stmt = refl
rule-get_elem rule_iteration_stmt_for_init = refl
rule-get_elem rule_iteration_stmt_for_cond = refl
rule-get_elem rule_iteration_stmt_for_step = refl
rule-get_elem rule_iteration_stmt_for_while = refl
rule-get_elem rule_jump_stmt = refl
rule-get_elem rule_labeled_stmt = refl
rule-get_elem rule_stmt = refl
rule-get_elem rule_variable_decl = refl
rule-get_elem rule_const_decl = refl
rule-get_elem rule_implementation_decl = refl
rule-get_elem rule_implementation_mapping_list = refl
rule-get_elem rule_implementation_mapping = refl
rule-get_elem rule_decl = refl
rule-get_elem rule_type = refl
rule-get_elem rule_struct_member_list = refl
rule-get_elem rule_struct_member = refl
rule-get_elem rule_func_type_args = refl
rule-get_elem rule_interface_member_list = refl
rule-get_elem rule_interface_member = refl
rule-get_elem rule_interface_member_func_parameter_list = refl
rule-get_elem rule_interface_member_func_parameter = refl
rule-get_elem rule_import_unit = refl
rule-get_elem rule_package_unit = refl
rule-get_elem rule_decl_unit = refl
rule-get_elem rule_func_unit = refl
rule-get_elem rule_func_unit_decl = refl
rule-get_elem rule_parameter_list = refl
rule-get_elem rule_parameter = refl
rule-get_elem rule_type_unit = refl
rule-get_elem rule_unit_list = refl
rule-get_elem rule_unit = refl

abbrev some_or : Rule → Option Rule → Rule
some_or d none = d
some_or d (some r) = r

pub same_eq : (r s : Rule) → r same s ≡ true → r ≡ s
same_eq r s h = ap (some_or r) (
    sym (rule-get_elem r)
    ∙ ap (get_elem? all_rules) ((==_iff (rule_index r) (rule_index s)).0 h)
    ∙ rule-get_elem s)

-- "No empty rules allowed".
unfoldable pub all_nonempty : List Variant → Bool
all_nonempty [] = true
all_nonempty (variant [] reducer tag ∷ vs) = false
all_nonempty (variant (x ∷ xs) reducer tag ∷ vs) = all_nonempty vs

pub variants-nonempty : (r : Rule) → all_nonempty (variants r) ≡ true
unfolding all_nonempty variants
variants-nonempty rule_primary_expr = refl
variants-nonempty rule_postfix_expr = refl
variants-nonempty rule_argument_expr_list = refl
variants-nonempty rule_unary_expr = refl
variants-nonempty rule_builtin_func = refl
variants-nonempty rule_unary_op = refl
variants-nonempty rule_cast_expr = refl
variants-nonempty rule_multiplicative_expr = refl
variants-nonempty rule_additive_expr = refl
variants-nonempty rule_shift_expr = refl
variants-nonempty rule_relational_expr = refl
variants-nonempty rule_equality_expr = refl
variants-nonempty rule_bitwise_and_expr = refl
variants-nonempty rule_bitwise_xor_expr = refl
variants-nonempty rule_bitwise_or_expr = refl
variants-nonempty rule_and_expr = refl
variants-nonempty rule_or_expr = refl
variants-nonempty rule_conditional_expr = refl
variants-nonempty rule_assignment_expr = refl
variants-nonempty rule_assignment_op = refl
variants-nonempty rule_expr = refl
variants-nonempty rule_expr_stmt = refl
variants-nonempty rule_compound_stmt = refl
variants-nonempty rule_block_item_list = refl
variants-nonempty rule_block_item = refl
variants-nonempty rule_selection_stmt = refl
variants-nonempty rule_iteration_stmt = refl
variants-nonempty rule_iteration_stmt_for_init = refl
variants-nonempty rule_iteration_stmt_for_cond = refl
variants-nonempty rule_iteration_stmt_for_step = refl
variants-nonempty rule_iteration_stmt_for_while = refl
variants-nonempty rule_jump_stmt = refl
variants-nonempty rule_labeled_stmt = refl
variants-nonempty rule_stmt = refl
variants-nonempty rule_variable_decl = refl
variants-nonempty rule_const_decl = refl
variants-nonempty rule_implementation_decl = refl
variants-nonempty rule_implementation_mapping_list = refl
variants-nonempty rule_implementation_mapping = refl
variants-nonempty rule_decl = refl
variants-nonempty rule_type = refl
variants-nonempty rule_struct_member_list = refl
variants-nonempty rule_struct_member = refl
variants-nonempty rule_func_type_args = refl
variants-nonempty rule_interface_member_list = refl
variants-nonempty rule_interface_member = refl
variants-nonempty rule_interface_member_func_parameter_list = refl
variants-nonempty rule_interface_member_func_parameter = refl
variants-nonempty rule_import_unit = refl
variants-nonempty rule_package_unit = refl
variants-nonempty rule_decl_unit = refl
variants-nonempty rule_func_unit = refl
variants-nonempty rule_func_unit_decl = refl
variants-nonempty rule_parameter_list = refl
variants-nonempty rule_parameter = refl
variants-nonempty rule_type_unit = refl
variants-nonempty rule_unit_list = refl
variants-nonempty rule_unit = refl
