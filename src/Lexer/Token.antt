-- ===== src/Lexer/Token.antt =====
-- src/lexer_tokens.h and the enumeration of src/lexer.h: the tokens, their numbers and their names.
-- A keyword's constructor begins with `kw_`, since several of the words are taken in this language.
use low.Prelude.{ℕ, Bool, Bytes, codes, ◌==◌}

pub data Token : Type 0 where
  invalid sof eof ident number_literal string_literal add_op and_op bitwise_and bitwise_not : Token
  bitwise_or bitwise_xor dec_op div_op eq_op ge_op gt_op inc_op left_op le_op lt_op mapto : Token
  mod_op mul_op ne_op not_op or_op right_op sub_op assign add_assign and_assign def_assign : Token
  div_assign left_assign mod_assign mul_assign or_assign right_assign sub_assign xor_assign : Token
  comma colon ellipsis hash lbrace lbrack lparen period question rbrace rbrack rparen : Token
  semicolon kw_alignas kw_atomic kw_break kw_case kw_const kw_continue kw_default kw_do : Token
  kw_else kw_enum kw_extern kw_for kw_func kw_goto kw_if kw_import kw_inline kw_interface : Token
  kw_new kw_free kw_make kw_len kw_cap kw_package kw_dispose kw_return kw_sizeof kw_static : Token
  kw_struct kw_switch kw_type kw_typedef kw_union kw_var kw_void kw_volatile kw_while : Token
  kw_yield : Token

-- The value that the compiler gives the enumerator.
unfoldable pub token_id : Token → ℕ
token_id invalid = 0
token_id sof = 1
token_id eof = 2
token_id ident = 3
token_id number_literal = 4
token_id string_literal = 5
token_id add_op = 6
token_id and_op = 7
token_id bitwise_and = 8
token_id bitwise_not = 9
token_id bitwise_or = 10
token_id bitwise_xor = 11
token_id dec_op = 12
token_id div_op = 13
token_id eq_op = 14
token_id ge_op = 15
token_id gt_op = 16
token_id inc_op = 17
token_id left_op = 18
token_id le_op = 19
token_id lt_op = 20
token_id mapto = 21
token_id mod_op = 22
token_id mul_op = 23
token_id ne_op = 24
token_id not_op = 25
token_id or_op = 26
token_id right_op = 27
token_id sub_op = 28
token_id assign = 29
token_id add_assign = 30
token_id and_assign = 31
token_id def_assign = 32
token_id div_assign = 33
token_id left_assign = 34
token_id mod_assign = 35
token_id mul_assign = 36
token_id or_assign = 37
token_id right_assign = 38
token_id sub_assign = 39
token_id xor_assign = 40
token_id comma = 41
token_id colon = 42
token_id ellipsis = 43
token_id hash = 44
token_id lbrace = 45
token_id lbrack = 46
token_id lparen = 47
token_id period = 48
token_id question = 49
token_id rbrace = 50
token_id rbrack = 51
token_id rparen = 52
token_id semicolon = 53
token_id kw_alignas = 54
token_id kw_atomic = 55
token_id kw_break = 56
token_id kw_case = 57
token_id kw_const = 58
token_id kw_continue = 59
token_id kw_default = 60
token_id kw_do = 61
token_id kw_else = 62
token_id kw_enum = 63
token_id kw_extern = 64
token_id kw_for = 65
token_id kw_func = 66
token_id kw_goto = 67
token_id kw_if = 68
token_id kw_import = 69
token_id kw_inline = 70
token_id kw_interface = 71
token_id kw_new = 72
token_id kw_free = 73
token_id kw_make = 74
token_id kw_len = 75
token_id kw_cap = 76
token_id kw_package = 77
token_id kw_dispose = 78
token_id kw_return = 79
token_id kw_sizeof = 80
token_id kw_static = 81
token_id kw_struct = 82
token_id kw_switch = 83
token_id kw_type = 84
token_id kw_typedef = 85
token_id kw_union = 86
token_id kw_var = 87
token_id kw_void = 88
token_id kw_volatile = 89
token_id kw_while = 90
token_id kw_yield = 91

abbrev pub max_tokens : ℕ
max_tokens = 92

-- `token_names`; the first three have no entry in the table, which is a null pointer in C.
unfoldable pub token_name : Token → Bytes
token_name invalid = codes ""
token_name sof = codes ""
token_name eof = codes ""
token_name ident = codes "identifier"
token_name number_literal = codes "number literal"
token_name string_literal = codes "string literal"
token_name add_op = codes "+"
token_name and_op = codes "&&"
token_name bitwise_and = codes "&"
token_name bitwise_not = codes "~"
token_name bitwise_or = codes "|"
token_name bitwise_xor = codes "^"
token_name dec_op = codes "--"
token_name div_op = codes "/"
token_name eq_op = codes "="
token_name ge_op = codes ">="
token_name gt_op = codes ">"
token_name inc_op = codes "++"
token_name left_op = codes "<<"
token_name le_op = codes "<="
token_name lt_op = codes "<"
token_name mapto = codes "->"
token_name mod_op = codes "%"
token_name mul_op = codes "*"
token_name ne_op = codes "!="
token_name not_op = codes "!"
token_name or_op = codes "||"
token_name right_op = codes ">>"
token_name sub_op = codes "-"
token_name assign = codes "="
token_name add_assign = codes "+="
token_name and_assign = codes "&="
token_name def_assign = codes ":="
token_name div_assign = codes "/="
token_name left_assign = codes "<<="
token_name mod_assign = codes "%="
token_name mul_assign = codes "*="
token_name or_assign = codes "|="
token_name right_assign = codes ">>="
token_name sub_assign = codes "-="
token_name xor_assign = codes "^="
token_name comma = codes ","
token_name colon = codes ":"
token_name ellipsis = codes "..."
token_name hash = codes "#"
token_name lbrace = codes "{"
token_name lbrack = codes "["
token_name lparen = codes "("
token_name period = codes "."
token_name question = codes "?"
token_name rbrace = codes "}"
token_name rbrack = codes "]"
token_name rparen = codes ")"
token_name semicolon = codes ";"
token_name kw_alignas = codes "alignas"
token_name kw_atomic = codes "atomic"
token_name kw_break = codes "break"
token_name kw_case = codes "case"
token_name kw_const = codes "const"
token_name kw_continue = codes "continue"
token_name kw_default = codes "default"
token_name kw_do = codes "do"
token_name kw_else = codes "else"
token_name kw_enum = codes "enum"
token_name kw_extern = codes "extern"
token_name kw_for = codes "for"
token_name kw_func = codes "func"
token_name kw_goto = codes "goto"
token_name kw_if = codes "if"
token_name kw_import = codes "import"
token_name kw_inline = codes "inline"
token_name kw_interface = codes "interface"
token_name kw_new = codes "new"
token_name kw_free = codes "free"
token_name kw_make = codes "make"
token_name kw_len = codes "len"
token_name kw_cap = codes "cap"
token_name kw_package = codes "package"
token_name kw_dispose = codes "dispose"
token_name kw_return = codes "return"
token_name kw_sizeof = codes "sizeof"
token_name kw_static = codes "static"
token_name kw_struct = codes "struct"
token_name kw_switch = codes "switch"
token_name kw_type = codes "type"
token_name kw_typedef = codes "typedef"
token_name kw_union = codes "union"
token_name kw_var = codes "var"
token_name kw_void = codes "void"
token_name kw_volatile = codes "volatile"
token_name kw_while = codes "while"
token_name kw_yield = codes "yield"

-- Tokens are `int`s in C, and are compared as such.
unfoldable pub token_equal : Token → Token → Bool
unfolding token_id
token_equal a b = token_id a == token_id b
