-- ===== src/Grammar/Types.antt =====
-- The rules for types of src/grammar_rules.h.
use low.Prelude.{List, [], ◌∷◌, none, some}
use low.Lexer.Token.{
  colon, comma, hash, ident, kw_func, kw_interface, kw_struct, kw_void, lbrace, lbrack, lparen,
  mul_op, number_literal, rbrace, rbrack, rparen, semicolon,
}
use low.Grammar.Symbols.{
  Variant, variant, tkn, sub, rule_func_type_args, rule_interface_member,
  rule_interface_member_func_parameter, rule_interface_member_func_parameter_list,
  rule_interface_member_list, rule_struct_member, rule_struct_member_list, rule_type,
  func_type_args_reducer, interface_member_field_reducer,
  interface_member_func_parameter_list_reducer, interface_member_func_parameter_reducer,
  interface_member_func_reducer, interface_member_list_reducer, struct_member2_reducer,
  struct_member_list_reducer, struct_member_reducer, type_array_reducer, type_func_reducer,
  type_interface_reducer, type_name_reducer, type_pointer_reducer, type_slice_reducer,
  type_struct_reducer, type_void_reducer,
}

abbrev pub type_variants : List Variant
type_variants =
    variant (tkn kw_void ∷ []) (some type_void_reducer) 0
    ∷ variant (tkn ident ∷ []) (some type_name_reducer) 0
    ∷ variant (tkn mul_op ∷ sub rule_type ∷ []) (some type_pointer_reducer) 0
    ∷ variant (tkn kw_struct ∷ tkn lbrace ∷ sub rule_struct_member_list ∷ tkn rbrace ∷ [])
        (some type_struct_reducer) 0
    ∷ variant (tkn lbrack ∷ tkn number_literal ∷ tkn rbrack ∷ sub rule_type ∷ [])
        (some type_array_reducer) 0
    ∷ variant (tkn lbrack ∷ tkn rbrack ∷ sub rule_type ∷ []) (some type_slice_reducer) 0
    ∷ variant (tkn kw_func ∷ tkn lparen ∷ tkn rparen ∷ sub rule_type ∷ []) (some type_func_reducer)
        0
    ∷ variant (tkn kw_func ∷ tkn lparen ∷ sub rule_func_type_args ∷ tkn rparen ∷ sub rule_type ∷ [])
        (some type_func_reducer) 1
    ∷ variant (tkn kw_interface ∷ tkn lbrace ∷ tkn rbrace ∷ []) (some type_interface_reducer) 0
    ∷ variant (tkn kw_interface ∷ tkn lbrace ∷ sub rule_interface_member_list ∷ tkn rbrace ∷ [])
        (some type_interface_reducer) 1
    ∷ []

abbrev pub struct_member_list_variants : List Variant
struct_member_list_variants =
    variant (sub rule_struct_member ∷ []) (some struct_member_list_reducer) 0
    ∷ variant (sub rule_struct_member_list ∷ sub rule_struct_member ∷ [])
        (some struct_member_list_reducer) 1
    ∷ []

abbrev pub struct_member_variants : List Variant
struct_member_variants =
    variant (sub rule_type ∷ tkn ident ∷ tkn semicolon ∷ []) (some struct_member_reducer) 0
    ∷ variant (tkn ident ∷ tkn colon ∷ sub rule_type ∷ tkn semicolon ∷ [])
        (some struct_member2_reducer) 0
    ∷ []

abbrev pub func_type_args_variants : List Variant
func_type_args_variants =
    variant (sub rule_type ∷ []) (some func_type_args_reducer) 0
    ∷ variant (sub rule_func_type_args ∷ tkn comma ∷ sub rule_type ∷ [])
        (some func_type_args_reducer) 1
    ∷ []

abbrev pub interface_member_list_variants : List Variant
interface_member_list_variants =
    variant (sub rule_interface_member ∷ []) (some interface_member_list_reducer) 0
    ∷ variant (sub rule_interface_member_list ∷ sub rule_interface_member ∷ [])
        (some interface_member_list_reducer) 1
    ∷ []

abbrev pub interface_member_variants : List Variant
interface_member_variants =
    variant (tkn ident ∷ tkn colon ∷ sub rule_type ∷ tkn semicolon ∷ [])
      (some interface_member_field_reducer) 0
    ∷ variant
        (tkn kw_func
          ∷ tkn ident
          ∷ tkn lparen
          ∷ sub rule_interface_member_func_parameter_list
          ∷ tkn rparen
          ∷ sub rule_type
          ∷ tkn semicolon
          ∷ [])
        (some interface_member_func_reducer) 0
    ∷ []

abbrev pub interface_member_func_parameter_list_variants : List Variant
interface_member_func_parameter_list_variants =
    variant (sub rule_interface_member_func_parameter ∷ [])
      (some interface_member_func_parameter_list_reducer) 0
    ∷ variant
        (sub rule_interface_member_func_parameter_list
          ∷ tkn comma
          ∷ sub rule_interface_member_func_parameter
          ∷ [])
        (some interface_member_func_parameter_list_reducer) 1
    ∷ []

abbrev pub interface_member_func_parameter_variants : List Variant
interface_member_func_parameter_variants =
    variant (tkn hash ∷ []) (some interface_member_func_parameter_reducer) 0
    ∷ variant (sub rule_type ∷ []) none 0
    ∷ []
