-- ===== src/Grammar/Stmts.antt =====
-- The rules for statements of src/grammar_rules.h.
use low.Prelude.{List, [], ◌∷◌, none, some}
use low.Lexer.Token.{
  colon, ident, kw_break, kw_case, kw_continue, kw_default, kw_do, kw_else, kw_for, kw_goto, kw_if,
  kw_return, kw_switch, kw_while, lbrace, lparen, rbrace, rparen, semicolon,
}
use low.Grammar.Symbols.{
  Variant, variant, tkn, sub, rule_block_item, rule_block_item_list, rule_compound_stmt, rule_decl,
  rule_expr, rule_expr_stmt, rule_iteration_stmt, rule_iteration_stmt_for_cond,
  rule_iteration_stmt_for_init, rule_iteration_stmt_for_step, rule_iteration_stmt_for_while,
  rule_jump_stmt, rule_labeled_stmt, rule_selection_stmt, rule_stmt, block_item_decl_reducer,
  block_item_list_reducer, block_item_stmt_reducer, compound_stmt_reducer, expr_stmt_reducer,
  iteration_stmt_do_reducer, iteration_stmt_for_cond_reducer, iteration_stmt_for_init_reducer,
  iteration_stmt_for_reducer, iteration_stmt_for_step_reducer, iteration_stmt_for_while_reducer,
  jump_stmt_break_reducer, jump_stmt_continue_reducer, jump_stmt_goto_reducer,
  jump_stmt_return_reducer, labeled_stmt_case_reducer, labeled_stmt_default_reducer,
  selection_stmt_if_reducer, selection_stmt_switch_reducer,
}

abbrev pub expr_stmt_variants : List Variant
expr_stmt_variants =
    variant (tkn semicolon ∷ []) none 0
    ∷ variant (sub rule_expr ∷ tkn semicolon ∷ []) (some expr_stmt_reducer) 0
    ∷ []

abbrev pub compound_stmt_variants : List Variant
compound_stmt_variants =
    variant (tkn lbrace ∷ tkn rbrace ∷ []) none 0
    ∷ variant (tkn lbrace ∷ sub rule_block_item_list ∷ tkn rbrace ∷ []) (some compound_stmt_reducer)
        0
    ∷ []

abbrev pub block_item_list_variants : List Variant
block_item_list_variants =
    variant (sub rule_block_item ∷ []) (some block_item_list_reducer) 0
    ∷ variant (sub rule_block_item_list ∷ sub rule_block_item ∷ []) (some block_item_list_reducer) 1
    ∷ []

abbrev pub block_item_variants : List Variant
block_item_variants =
    variant (sub rule_decl ∷ []) (some block_item_decl_reducer) 0
    ∷ variant (sub rule_stmt ∷ []) (some block_item_stmt_reducer) 0
    ∷ []

abbrev pub selection_stmt_variants : List Variant
selection_stmt_variants =
    variant (tkn kw_if ∷ sub rule_expr ∷ sub rule_compound_stmt ∷ [])
      (some selection_stmt_if_reducer) 0
    ∷ variant
        (tkn kw_if ∷ sub rule_expr ∷ sub rule_compound_stmt ∷ tkn kw_else ∷ sub rule_stmt ∷ [])
        (some selection_stmt_if_reducer) 1
    ∷ variant (tkn kw_switch ∷ tkn lparen ∷ sub rule_expr ∷ tkn rparen ∷ sub rule_stmt ∷ [])
        (some selection_stmt_switch_reducer) 0
    ∷ []

abbrev pub iteration_stmt_variants : List Variant
iteration_stmt_variants =
    variant
      (tkn kw_do
        ∷ sub rule_stmt
        ∷ tkn kw_while
        ∷ tkn lparen
        ∷ sub rule_expr
        ∷ tkn rparen
        ∷ tkn semicolon
        ∷ [])
      (some iteration_stmt_do_reducer) 0
    ∷ variant (sub rule_iteration_stmt_for_step ∷ sub rule_compound_stmt ∷ [])
        (some iteration_stmt_for_reducer) 0
    ∷ variant (sub rule_iteration_stmt_for_while ∷ sub rule_compound_stmt ∷ [])
        (some iteration_stmt_for_reducer) 0
    ∷ []

abbrev pub iteration_stmt_for_init_variants : List Variant
iteration_stmt_for_init_variants =
    variant (tkn kw_for ∷ tkn semicolon ∷ []) (some iteration_stmt_for_init_reducer) 0
    ∷ variant (tkn kw_for ∷ sub rule_expr ∷ tkn semicolon ∷ [])
        (some iteration_stmt_for_init_reducer) 1
    ∷ []

abbrev pub iteration_stmt_for_cond_variants : List Variant
iteration_stmt_for_cond_variants =
    variant (sub rule_iteration_stmt_for_init ∷ tkn semicolon ∷ [])
      (some iteration_stmt_for_cond_reducer) 0
    ∷ variant (sub rule_iteration_stmt_for_init ∷ sub rule_expr ∷ tkn semicolon ∷ [])
        (some iteration_stmt_for_cond_reducer) 1
    ∷ []

abbrev pub iteration_stmt_for_step_variants : List Variant
iteration_stmt_for_step_variants =
    variant (sub rule_iteration_stmt_for_cond ∷ []) (some iteration_stmt_for_step_reducer) 0
    ∷ variant (sub rule_iteration_stmt_for_cond ∷ sub rule_expr ∷ [])
        (some iteration_stmt_for_step_reducer) 1
    ∷ []

abbrev pub iteration_stmt_for_while_variants : List Variant
iteration_stmt_for_while_variants =
    variant (tkn kw_for ∷ []) (some iteration_stmt_for_while_reducer) 0
    ∷ variant (tkn kw_for ∷ sub rule_expr ∷ []) (some iteration_stmt_for_while_reducer) 1
    ∷ []

abbrev pub jump_stmt_variants : List Variant
jump_stmt_variants =
    variant (tkn kw_goto ∷ tkn ident ∷ tkn semicolon ∷ []) (some jump_stmt_goto_reducer) 0
    ∷ variant (tkn kw_continue ∷ tkn semicolon ∷ []) (some jump_stmt_continue_reducer) 0
    ∷ variant (tkn kw_break ∷ tkn semicolon ∷ []) (some jump_stmt_break_reducer) 0
    ∷ variant (tkn kw_return ∷ tkn semicolon ∷ []) (some jump_stmt_return_reducer) 0
    ∷ variant (tkn kw_return ∷ sub rule_expr ∷ tkn semicolon ∷ []) (some jump_stmt_return_reducer) 1
    ∷ []

abbrev pub labeled_stmt_variants : List Variant
labeled_stmt_variants =
    variant (tkn kw_case ∷ sub rule_expr ∷ tkn colon ∷ sub rule_stmt ∷ [])
      (some labeled_stmt_case_reducer) 0
    ∷ variant (tkn kw_default ∷ tkn colon ∷ sub rule_stmt ∷ []) (some labeled_stmt_default_reducer)
        0
    ∷ []

abbrev pub stmt_variants : List Variant
stmt_variants =
    variant (sub rule_expr_stmt ∷ []) none 0
    ∷ variant (sub rule_compound_stmt ∷ []) none 0
    ∷ variant (sub rule_selection_stmt ∷ []) none 0
    ∷ variant (sub rule_iteration_stmt ∷ []) none 0
    ∷ variant (sub rule_jump_stmt ∷ []) none 0
    ∷ variant (sub rule_labeled_stmt ∷ []) none 0
    ∷ []
