-- ===== src/Grammar/Units.antt =====
-- The rules for units of src/grammar_rules.h.
use low.Prelude.{List, [], ◌∷◌, none, some}
use low.Lexer.Token.{
  colon, comma, ellipsis, ident, kw_func, kw_import, kw_package, kw_type, lparen, rparen, semicolon,
  string_literal,
}
use low.Grammar.Symbols.{
  Variant, variant, tkn, sub, rule_compound_stmt, rule_decl, rule_decl_unit, rule_func_unit,
  rule_func_unit_decl, rule_import_unit, rule_package_unit, rule_parameter, rule_parameter_list,
  rule_type, rule_type_unit, rule_unit, rule_unit_list, decl_unit_reducer, func_unit_decl2_reducer,
  func_unit_decl_reducer, func_unit_reducer, import_unit_reducer, package_unit_reducer,
  parameter_list_reducer, parameter_reducer, type_unit_reducer, unit_list_reducer,
}

abbrev pub import_unit_variants : List Variant
import_unit_variants =
    variant (tkn kw_import ∷ tkn string_literal ∷ tkn semicolon ∷ []) (some import_unit_reducer) 0
    ∷ []

abbrev pub package_unit_variants : List Variant
package_unit_variants =
    variant (tkn kw_package ∷ tkn string_literal ∷ tkn semicolon ∷ []) (some package_unit_reducer) 0
    ∷ []

abbrev pub decl_unit_variants : List Variant
decl_unit_variants = variant (sub rule_decl ∷ []) (some decl_unit_reducer) 0 ∷ []

abbrev pub func_unit_variants : List Variant
func_unit_variants =
    variant (sub rule_func_unit_decl ∷ tkn semicolon ∷ []) (some func_unit_reducer) 0
    ∷ variant (sub rule_func_unit_decl ∷ sub rule_compound_stmt ∷ []) (some func_unit_reducer) 1
    ∷ []

abbrev pub func_unit_decl_variants : List Variant
func_unit_decl_variants =
    variant (sub rule_type ∷ tkn ident ∷ tkn lparen ∷ tkn rparen ∷ []) (some func_unit_decl_reducer)
      0
    ∷ variant (sub rule_type ∷ tkn ident ∷ tkn lparen ∷ tkn ellipsis ∷ tkn rparen ∷ [])
        (some func_unit_decl_reducer) 1
    ∷ variant (sub rule_type ∷ tkn ident ∷ tkn lparen ∷ sub rule_parameter_list ∷ tkn rparen ∷ [])
        (some func_unit_decl_reducer) 2
    ∷ variant
        (sub rule_type
          ∷ tkn ident
          ∷ tkn lparen
          ∷ sub rule_parameter_list
          ∷ tkn comma
          ∷ tkn ellipsis
          ∷ tkn rparen
          ∷ [])
        (some func_unit_decl_reducer) 3
    ∷ variant (tkn kw_func ∷ tkn ident ∷ tkn lparen ∷ tkn rparen ∷ sub rule_type ∷ [])
        (some func_unit_decl2_reducer) 0
    ∷ variant
        (tkn kw_func ∷ tkn ident ∷ tkn lparen ∷ tkn ellipsis ∷ tkn rparen ∷ sub rule_type ∷ [])
        (some func_unit_decl2_reducer) 1
    ∷ variant
        (tkn kw_func
          ∷ tkn ident
          ∷ tkn lparen
          ∷ sub rule_parameter_list
          ∷ tkn rparen
          ∷ sub rule_type
          ∷ [])
        (some func_unit_decl2_reducer) 2
    ∷ variant
        (tkn kw_func
          ∷ tkn ident
          ∷ tkn lparen
          ∷ sub rule_parameter_list
          ∷ tkn comma
          ∷ tkn ellipsis
          ∷ tkn rparen
          ∷ sub rule_type
          ∷ [])
        (some func_unit_decl2_reducer) 3
    ∷ []

abbrev pub parameter_list_variants : List Variant
parameter_list_variants =
    variant (sub rule_parameter ∷ []) (some parameter_list_reducer) 0
    ∷ variant (sub rule_parameter_list ∷ tkn comma ∷ sub rule_parameter ∷ [])
        (some parameter_list_reducer) 1
    ∷ []

abbrev pub parameter_variants : List Variant
parameter_variants =
    variant (sub rule_type ∷ []) (some parameter_reducer) 0
    ∷ variant (tkn ident ∷ sub rule_type ∷ []) (some parameter_reducer) 1
    ∷ []

abbrev pub type_unit_variants : List Variant
type_unit_variants =
    variant (tkn kw_type ∷ tkn ident ∷ tkn colon ∷ sub rule_type ∷ tkn semicolon ∷ [])
      (some type_unit_reducer) 0
    ∷ []

abbrev pub unit_list_variants : List Variant
unit_list_variants =
    variant (sub rule_unit ∷ []) (some unit_list_reducer) 0
    ∷ variant (sub rule_unit_list ∷ sub rule_unit ∷ []) (some unit_list_reducer) 1
    ∷ []

abbrev pub unit_variants : List Variant
unit_variants =
    variant (sub rule_import_unit ∷ []) none 0
    ∷ variant (sub rule_package_unit ∷ []) none 0
    ∷ variant (sub rule_decl_unit ∷ []) none 0
    ∷ variant (sub rule_func_unit ∷ []) none 0
    ∷ variant (sub rule_type_unit ∷ []) none 0
    ∷ variant (tkn semicolon ∷ []) none 0
    ∷ []
