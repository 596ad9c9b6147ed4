-- ===== src/Grammar/Exprs.antt =====
-- The rules for expressions of src/grammar_rules.h.
use low.Prelude.{List, [], ◌∷◌, none, some}
use low.Lexer.Token.{
  add_assign, add_op, and_assign, and_op, assign, bitwise_and, bitwise_not, bitwise_or, bitwise_xor,
  colon, comma, dec_op, div_assign, div_op, eq_op, ge_op, gt_op, hash, ident, inc_op, kw_cap,
  kw_dispose, kw_free, kw_len, kw_make, kw_new, kw_sizeof, lbrack, le_op, left_assign, left_op,
  lparen, lt_op, mod_assign, mod_op, mul_assign, mul_op, ne_op, not_op, number_literal, or_assign,
  or_op, period, question, rbrack, right_assign, right_op, rparen, string_literal, sub_assign,
  sub_op, xor_assign,
}
use low.Grammar.Symbols.{
  Variant, variant, tkn, sub, rule_additive_expr, rule_and_expr, rule_argument_expr_list,
  rule_assignment_expr, rule_assignment_op, rule_bitwise_and_expr, rule_bitwise_or_expr,
  rule_bitwise_xor_expr, rule_builtin_func, rule_cast_expr, rule_conditional_expr,
  rule_equality_expr, rule_expr, rule_multiplicative_expr, rule_or_expr, rule_postfix_expr,
  rule_primary_expr, rule_relational_expr, rule_shift_expr, rule_type, rule_unary_expr,
  rule_unary_op, argument_expr_list_reducer, assignment_expr_reducer, assignment_op_reducer,
  binary_expr_reducer, builtin_func_dispose_reducer, builtin_func_free_reducer,
  builtin_func_lencap_reducer, builtin_func_make_reducer, builtin_func_new_reducer,
  cast_expr2_reducer, cast_expr_reducer, conditional_expr_reducer, expr_comma_reducer,
  postfix_expr_call_reducer, postfix_expr_incdec_reducer, postfix_expr_index_reducer,
  postfix_expr_member_reducer, postfix_expr_slice_reducer, primary_expr_ident_reducer,
  primary_expr_number_reducer, primary_expr_paren_reducer, primary_expr_string_reducer,
  unary_expr_incdec_reducer, unary_expr_op_reducer, unary_expr_sizeof_reducer, unary_op_reducer,
}

abbrev pub primary_expr_variants : List Variant
primary_expr_variants =
    variant (tkn ident ∷ []) (some primary_expr_ident_reducer) 0
    ∷ variant (tkn string_literal ∷ []) (some primary_expr_string_reducer) 0
    ∷ variant (tkn number_literal ∷ []) (some primary_expr_number_reducer) 0
    ∷ variant (tkn lparen ∷ sub rule_expr ∷ tkn rparen ∷ []) (some primary_expr_paren_reducer) 0
    ∷ []

abbrev pub postfix_expr_variants : List Variant
postfix_expr_variants =
    variant (sub rule_primary_expr ∷ []) none 0
    ∷ variant (sub rule_postfix_expr ∷ tkn lbrack ∷ sub rule_expr ∷ tkn rbrack ∷ [])
        (some postfix_expr_index_reducer) 0
    ∷ variant
        (sub rule_postfix_expr
          ∷ tkn lbrack
          ∷ sub rule_expr
          ∷ tkn colon
          ∷ sub rule_expr
          ∷ tkn rbrack
          ∷ [])
        (some postfix_expr_slice_reducer) 0
    ∷ variant (sub rule_postfix_expr ∷ tkn lbrack ∷ tkn colon ∷ sub rule_expr ∷ tkn rbrack ∷ [])
        (some postfix_expr_slice_reducer) 1
    ∷ variant (sub rule_postfix_expr ∷ tkn lbrack ∷ sub rule_expr ∷ tkn colon ∷ tkn rbrack ∷ [])
        (some postfix_expr_slice_reducer) 2
    ∷ variant (sub rule_postfix_expr ∷ tkn lbrack ∷ tkn colon ∷ tkn rbrack ∷ [])
        (some postfix_expr_slice_reducer) 3
    ∷ variant (sub rule_postfix_expr ∷ tkn lparen ∷ tkn rparen ∷ [])
        (some postfix_expr_call_reducer) 0
    ∷ variant (sub rule_postfix_expr ∷ tkn lparen ∷ sub rule_argument_expr_list ∷ tkn rparen ∷ [])
        (some postfix_expr_call_reducer) 1
    ∷ variant (sub rule_postfix_expr ∷ tkn period ∷ tkn ident ∷ [])
        (some postfix_expr_member_reducer) 0
    ∷ variant (sub rule_postfix_expr ∷ tkn inc_op ∷ []) (some postfix_expr_incdec_reducer) 0
    ∷ variant (sub rule_postfix_expr ∷ tkn dec_op ∷ []) (some postfix_expr_incdec_reducer) 1
    ∷ []

abbrev pub argument_expr_list_variants : List Variant
argument_expr_list_variants =
    variant (sub rule_assignment_expr ∷ []) (some argument_expr_list_reducer) 0
    ∷ variant (sub rule_argument_expr_list ∷ tkn comma ∷ sub rule_assignment_expr ∷ [])
        (some argument_expr_list_reducer) 1
    ∷ []

abbrev pub unary_expr_variants : List Variant
unary_expr_variants =
    variant (sub rule_postfix_expr ∷ []) none 0
    ∷ variant (tkn inc_op ∷ sub rule_unary_expr ∷ []) (some unary_expr_incdec_reducer) 0
    ∷ variant (tkn dec_op ∷ sub rule_unary_expr ∷ []) (some unary_expr_incdec_reducer) 1
    ∷ variant (sub rule_unary_op ∷ sub rule_cast_expr ∷ []) (some unary_expr_op_reducer) 0
    ∷ variant (tkn kw_sizeof ∷ sub rule_unary_expr ∷ []) (some unary_expr_sizeof_reducer) 0
    ∷ variant (tkn kw_sizeof ∷ tkn hash ∷ sub rule_type ∷ []) (some unary_expr_sizeof_reducer) 1
    ∷ variant (sub rule_builtin_func ∷ []) none 0
    ∷ []

abbrev pub builtin_func_variants : List Variant
builtin_func_variants =
    variant (tkn kw_new ∷ tkn lparen ∷ sub rule_type ∷ tkn rparen ∷ [])
      (some builtin_func_new_reducer) 0
    ∷ variant
        (tkn kw_new ∷ tkn lparen ∷ sub rule_type ∷ tkn comma ∷ sub rule_expr ∷ tkn rparen ∷ [])
        (some builtin_func_new_reducer) 1
    ∷ variant (tkn kw_free ∷ tkn lparen ∷ sub rule_expr ∷ tkn rparen ∷ [])
        (some builtin_func_free_reducer) 0
    ∷ variant
        (tkn kw_make ∷ tkn lparen ∷ sub rule_type ∷ tkn comma ∷ sub rule_expr ∷ tkn rparen ∷ [])
        (some builtin_func_make_reducer) 0
    ∷ variant (tkn kw_len ∷ tkn lparen ∷ sub rule_expr ∷ tkn rparen ∷ [])
        (some builtin_func_lencap_reducer) 0
    ∷ variant (tkn kw_cap ∷ tkn lparen ∷ sub rule_expr ∷ tkn rparen ∷ [])
        (some builtin_func_lencap_reducer) 1
    ∷ variant (tkn kw_dispose ∷ tkn lparen ∷ sub rule_expr ∷ tkn rparen ∷ [])
        (some builtin_func_dispose_reducer) 0
    ∷ []

abbrev pub unary_op_variants : List Variant
unary_op_variants =
    variant (tkn bitwise_and ∷ []) (some unary_op_reducer) 0
    ∷ variant (tkn mul_op ∷ []) (some unary_op_reducer) 0
    ∷ variant (tkn add_op ∷ []) (some unary_op_reducer) 0
    ∷ variant (tkn sub_op ∷ []) (some unary_op_reducer) 0
    ∷ variant (tkn bitwise_not ∷ []) (some unary_op_reducer) 0
    ∷ variant (tkn not_op ∷ []) (some unary_op_reducer) 0
    ∷ []

abbrev pub cast_expr_variants : List Variant
cast_expr_variants =
    variant (sub rule_unary_expr ∷ []) none 0
    ∷ variant (tkn hash ∷ tkn lparen ∷ sub rule_type ∷ tkn rparen ∷ sub rule_cast_expr ∷ [])
        (some cast_expr_reducer) 0
    ∷ variant (tkn hash ∷ sub rule_type ∷ tkn lparen ∷ sub rule_expr ∷ tkn rparen ∷ [])
        (some cast_expr2_reducer) 0
    ∷ []

abbrev pub multiplicative_expr_variants : List Variant
multiplicative_expr_variants =
    variant (sub rule_cast_expr ∷ []) none 0
    ∷ variant (sub rule_multiplicative_expr ∷ tkn mul_op ∷ sub rule_cast_expr ∷ [])
        (some binary_expr_reducer) 0
    ∷ variant (sub rule_multiplicative_expr ∷ tkn div_op ∷ sub rule_cast_expr ∷ [])
        (some binary_expr_reducer) 0
    ∷ variant (sub rule_multiplicative_expr ∷ tkn mod_op ∷ sub rule_cast_expr ∷ [])
        (some binary_expr_reducer) 0
    ∷ []

abbrev pub additive_expr_variants : List Variant
additive_expr_variants =
    variant (sub rule_multiplicative_expr ∷ []) none 0
    ∷ variant (sub rule_additive_expr ∷ tkn add_op ∷ sub rule_multiplicative_expr ∷ [])
        (some binary_expr_reducer) 1
    ∷ variant (sub rule_additive_expr ∷ tkn sub_op ∷ sub rule_multiplicative_expr ∷ [])
        (some binary_expr_reducer) 1
    ∷ []

abbrev pub shift_expr_variants : List Variant
shift_expr_variants =
    variant (sub rule_additive_expr ∷ []) none 0
    ∷ variant (sub rule_shift_expr ∷ tkn left_op ∷ sub rule_additive_expr ∷ [])
        (some binary_expr_reducer) 2
    ∷ variant (sub rule_shift_expr ∷ tkn right_op ∷ sub rule_additive_expr ∷ [])
        (some binary_expr_reducer) 2
    ∷ []

abbrev pub relational_expr_variants : List Variant
relational_expr_variants =
    variant (sub rule_shift_expr ∷ []) none 0
    ∷ variant (sub rule_relational_expr ∷ tkn lt_op ∷ sub rule_shift_expr ∷ [])
        (some binary_expr_reducer) 3
    ∷ variant (sub rule_relational_expr ∷ tkn gt_op ∷ sub rule_shift_expr ∷ [])
        (some binary_expr_reducer) 3
    ∷ variant (sub rule_relational_expr ∷ tkn le_op ∷ sub rule_shift_expr ∷ [])
        (some binary_expr_reducer) 3
    ∷ variant (sub rule_relational_expr ∷ tkn ge_op ∷ sub rule_shift_expr ∷ [])
        (some binary_expr_reducer) 3
    ∷ []

abbrev pub equality_expr_variants : List Variant
equality_expr_variants =
    variant (sub rule_relational_expr ∷ []) none 0
    ∷ variant (sub rule_equality_expr ∷ tkn eq_op ∷ sub rule_relational_expr ∷ [])
        (some binary_expr_reducer) 4
    ∷ variant (sub rule_equality_expr ∷ tkn ne_op ∷ sub rule_relational_expr ∷ [])
        (some binary_expr_reducer) 4
    ∷ []

abbrev pub bitwise_and_expr_variants : List Variant
bitwise_and_expr_variants =
    variant (sub rule_equality_expr ∷ []) none 0
    ∷ variant (sub rule_bitwise_and_expr ∷ tkn bitwise_and ∷ sub rule_equality_expr ∷ [])
        (some binary_expr_reducer) 5
    ∷ []

abbrev pub bitwise_xor_expr_variants : List Variant
bitwise_xor_expr_variants =
    variant (sub rule_bitwise_and_expr ∷ []) none 0
    ∷ variant (sub rule_bitwise_xor_expr ∷ tkn bitwise_xor ∷ sub rule_bitwise_and_expr ∷ [])
        (some binary_expr_reducer) 6
    ∷ []

abbrev pub bitwise_or_expr_variants : List Variant
bitwise_or_expr_variants =
    variant (sub rule_bitwise_xor_expr ∷ []) none 0
    ∷ variant (sub rule_bitwise_or_expr ∷ tkn bitwise_or ∷ sub rule_bitwise_xor_expr ∷ [])
        (some binary_expr_reducer) 7
    ∷ []

abbrev pub and_expr_variants : List Variant
and_expr_variants =
    variant (sub rule_bitwise_or_expr ∷ []) none 0
    ∷ variant (sub rule_and_expr ∷ tkn and_op ∷ sub rule_bitwise_or_expr ∷ [])
        (some binary_expr_reducer) 8
    ∷ []

abbrev pub or_expr_variants : List Variant
or_expr_variants =
    variant (sub rule_and_expr ∷ []) none 0
    ∷ variant (sub rule_or_expr ∷ tkn or_op ∷ sub rule_and_expr ∷ []) (some binary_expr_reducer) 9
    ∷ []

abbrev pub conditional_expr_variants : List Variant
conditional_expr_variants =
    variant (sub rule_or_expr ∷ []) none 0
    ∷ variant
        (sub rule_or_expr
          ∷ tkn question
          ∷ sub rule_expr
          ∷ tkn colon
          ∷ sub rule_conditional_expr
          ∷ [])
        (some conditional_expr_reducer) 0
    ∷ []

abbrev pub assignment_expr_variants : List Variant
assignment_expr_variants =
    variant (sub rule_conditional_expr ∷ []) none 0
    ∷ variant (sub rule_unary_expr ∷ sub rule_assignment_op ∷ sub rule_assignment_expr ∷ [])
        (some assignment_expr_reducer) 0
    ∷ []

abbrev pub assignment_op_variants : List Variant
assignment_op_variants =
    variant (tkn assign ∷ []) (some assignment_op_reducer) 0
    ∷ variant (tkn add_assign ∷ []) (some assignment_op_reducer) 0
    ∷ variant (tkn and_assign ∷ []) (some assignment_op_reducer) 0
    ∷ variant (tkn div_assign ∷ []) (some assignment_op_reducer) 0
    ∷ variant (tkn left_assign ∷ []) (some assignment_op_reducer) 0
    ∷ variant (tkn mod_assign ∷ []) (some assignment_op_reducer) 0
    ∷ variant (tkn mul_assign ∷ []) (some assignment_op_reducer) 0
    ∷ variant (tkn or_assign ∷ []) (some assignment_op_reducer) 0
    ∷ variant (tkn right_assign ∷ []) (some assignment_op_reducer) 0
    ∷ variant (tkn sub_assign ∷ []) (some assignment_op_reducer) 0
    ∷ variant (tkn xor_assign ∷ []) (some assignment_op_reducer) 0
    ∷ []

abbrev pub expr_variants : List Variant
expr_variants =
    variant (sub rule_assignment_expr ∷ []) none 0
    ∷ variant (sub rule_expr ∷ tkn comma ∷ sub rule_assignment_expr ∷ []) (some expr_comma_reducer)
        0
    ∷ []
