-- ===== src/Grammar/Decls.antt =====
-- The rules for declarations of src/grammar_rules.h.
use low.Prelude.{List, [], ◌∷◌, none, some}
use low.Lexer.Token.{
  assign, colon, def_assign, ident, kw_const, kw_interface, kw_var, lbrace, lparen, rbrace, rparen,
  semicolon,
}
use low.Grammar.Symbols.{
  Variant, variant, tkn, sub, rule_assignment_expr, rule_const_decl, rule_implementation_decl,
  rule_implementation_mapping, rule_implementation_mapping_list, rule_type, rule_variable_decl,
  const_decl_reducer, implementation_decl_reducer, implementation_mapping_list_reducer,
  implementation_mapping_reducer, variable_decl2_reducer, variable_decl_reducer,
}

abbrev pub variable_decl_variants : List Variant
variable_decl_variants =
    variant (tkn kw_var ∷ sub rule_type ∷ tkn ident ∷ tkn semicolon ∷ [])
      (some variable_decl_reducer) 0
    ∷ variant
        (tkn kw_var
          ∷ sub rule_type
          ∷ tkn ident
          ∷ tkn assign
          ∷ sub rule_assignment_expr
          ∷ tkn semicolon
          ∷ [])
        (some variable_decl_reducer) 1
    ∷ variant (tkn kw_var ∷ tkn ident ∷ tkn assign ∷ sub rule_assignment_expr ∷ tkn semicolon ∷ [])
        (some variable_decl_reducer) 2
    ∷ variant (tkn ident ∷ tkn colon ∷ sub rule_type ∷ tkn semicolon ∷ [])
        (some variable_decl2_reducer) 0
    ∷ variant
        (tkn ident
          ∷ tkn colon
          ∷ sub rule_type
          ∷ tkn assign
          ∷ sub rule_assignment_expr
          ∷ tkn semicolon
          ∷ [])
        (some variable_decl2_reducer) 1
    ∷ variant (tkn ident ∷ tkn def_assign ∷ sub rule_assignment_expr ∷ tkn semicolon ∷ [])
        (some variable_decl2_reducer) 2
    ∷ []

abbrev pub const_decl_variants : List Variant
const_decl_variants =
    variant (tkn kw_const ∷ tkn ident ∷ tkn assign ∷ sub rule_assignment_expr ∷ tkn semicolon ∷ [])
      (some const_decl_reducer) 0
    ∷ variant
        (tkn kw_const
          ∷ tkn ident
          ∷ sub rule_type
          ∷ tkn assign
          ∷ sub rule_assignment_expr
          ∷ tkn semicolon
          ∷ [])
        (some const_decl_reducer) 1
    ∷ []

abbrev pub implementation_decl_variants : List Variant
implementation_decl_variants =
    variant
      (tkn kw_interface
        ∷ sub rule_type
        ∷ tkn lparen
        ∷ sub rule_type
        ∷ tkn rparen
        ∷ tkn lbrace
        ∷ sub rule_implementation_mapping_list
        ∷ tkn rbrace
        ∷ [])
      (some implementation_decl_reducer) 0
    ∷ []

abbrev pub implementation_mapping_list_variants : List Variant
implementation_mapping_list_variants =
    variant (sub rule_implementation_mapping ∷ []) (some implementation_mapping_list_reducer) 0
    ∷ variant (sub rule_implementation_mapping_list ∷ sub rule_implementation_mapping ∷ [])
        (some implementation_mapping_list_reducer) 1
    ∷ []

abbrev pub implementation_mapping_variants : List Variant
implementation_mapping_variants =
    variant (tkn ident ∷ tkn assign ∷ tkn ident ∷ tkn semicolon ∷ [])
      (some implementation_mapping_reducer) 0
    ∷ []

abbrev pub decl_variants : List Variant
decl_variants =
    variant (sub rule_variable_decl ∷ []) none 0
    ∷ variant (sub rule_const_decl ∷ []) none 0
    ∷ variant (sub rule_implementation_decl ∷ []) none 0
    ∷ []
