-- ===== src/Generator/Tokens.antt =====
-- src/lexer.h: the numbers of the tokens are below MAX_TOKENS.
use low.Prelude.{◌<◌, ◌≡◌, refl, true, ltb, ltb→lt}
use low.Lexer.Token.{
  Token, token_id, invalid, sof, eof, ident, number_literal, string_literal, add_op, and_op,
  bitwise_and, bitwise_not, bitwise_or, bitwise_xor, dec_op, div_op, eq_op, ge_op, gt_op, inc_op,
  left_op, le_op, lt_op, mapto, mod_op, mul_op, ne_op, not_op, or_op, right_op, sub_op, assign,
  add_assign, and_assign, def_assign, div_assign, left_assign, mod_assign, mul_assign, or_assign,
  right_assign, sub_assign, xor_assign, comma, colon, ellipsis, hash, lbrace, lbrack, lparen,
  period, question, rbrace, rbrack, rparen, semicolon, kw_alignas, kw_atomic, kw_break, kw_case,
  kw_const, kw_continue, kw_default, kw_do, kw_else, kw_enum, kw_extern, kw_for, kw_func, kw_goto,
  kw_if, kw_import, kw_inline, kw_interface, kw_new, kw_free, kw_make, kw_len, kw_cap, kw_package,
  kw_dispose, kw_return, kw_sizeof, kw_static, kw_struct, kw_switch, kw_type, kw_typedef, kw_union,
  kw_var, kw_void, kw_volatile, kw_while, kw_yield,
}

token_id_test : (t : Token) → ltb (token_id t) 92 ≡ true
unfolding token_id
token_id_test invalid = refl
token_id_test sof = refl
token_id_test eof = refl
token_id_test ident = refl
token_id_test number_literal = refl
token_id_test string_literal = refl
token_id_test add_op = refl
token_id_test and_op = refl
token_id_test bitwise_and = refl
token_id_test bitwise_not = refl
token_id_test bitwise_or = refl
token_id_test bitwise_xor = refl
token_id_test dec_op = refl
token_id_test div_op = refl
token_id_test eq_op = refl
token_id_test ge_op = refl
token_id_test gt_op = refl
token_id_test inc_op = refl
token_id_test left_op = refl
token_id_test le_op = refl
token_id_test lt_op = refl
token_id_test mapto = refl
token_id_test mod_op = refl
token_id_test mul_op = refl
token_id_test ne_op = refl
token_id_test not_op = refl
token_id_test or_op = refl
token_id_test right_op = refl
token_id_test sub_op = refl
token_id_test assign = refl
token_id_test add_assign = refl
token_id_test and_assign = refl
token_id_test def_assign = refl
token_id_test div_assign = refl
token_id_test left_assign = refl
token_id_test mod_assign = refl
token_id_test mul_assign = refl
token_id_test or_assign = refl
token_id_test right_assign = refl
token_id_test sub_assign = refl
token_id_test xor_assign = refl
token_id_test comma = refl
token_id_test colon = refl
token_id_test ellipsis = refl
token_id_test hash = refl
token_id_test lbrace = refl
token_id_test lbrack = refl
token_id_test lparen = refl
token_id_test period = refl
token_id_test question = refl
token_id_test rbrace = refl
token_id_test rbrack = refl
token_id_test rparen = refl
token_id_test semicolon = refl
token_id_test kw_alignas = refl
token_id_test kw_atomic = refl
token_id_test kw_break = refl
token_id_test kw_case = refl
token_id_test kw_const = refl
token_id_test kw_continue = refl
token_id_test kw_default = refl
token_id_test kw_do = refl
token_id_test kw_else = refl
token_id_test kw_enum = refl
token_id_test kw_extern = refl
token_id_test kw_for = refl
token_id_test kw_func = refl
token_id_test kw_goto = refl
token_id_test kw_if = refl
token_id_test kw_import = refl
token_id_test kw_inline = refl
token_id_test kw_interface = refl
token_id_test kw_new = refl
token_id_test kw_free = refl
token_id_test kw_make = refl
token_id_test kw_len = refl
token_id_test kw_cap = refl
token_id_test kw_package = refl
token_id_test kw_dispose = refl
token_id_test kw_return = refl
token_id_test kw_sizeof = refl
token_id_test kw_static = refl
token_id_test kw_struct = refl
token_id_test kw_switch = refl
token_id_test kw_type = refl
token_id_test kw_typedef = refl
token_id_test kw_union = refl
token_id_test kw_var = refl
token_id_test kw_void = refl
token_id_test kw_volatile = refl
token_id_test kw_while = refl
token_id_test kw_yield = refl

pub token_id_bound : (t : Token) → token_id t < 92
token_id_bound t = ltb→lt (token_id t) 92 (token_id_test t)
