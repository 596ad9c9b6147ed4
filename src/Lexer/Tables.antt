-- ===== src/Lexer/Tables.antt =====
-- src/lexer.c: the tables of symbols, keywords and statement ends that `lexer_next` checks.
use low.Prelude.{List, [], ◌∷◌, Bytes, codes}
use low.Lexer.Token.{Token}

-- The tokens behind which a line feed ends a statement.
abbrev pub terminators : List Token
terminators =
    Token.kw_break ∷ Token.kw_continue ∷ Token.dec_op ∷ Token.ident ∷ Token.inc_op
    ∷ Token.number_literal ∷ Token.rbrace ∷ Token.kw_return ∷ Token.rparen ∷ Token.string_literal
    ∷ Token.kw_void ∷ Token.rbrack ∷ []

-- The texts of three, two and one bytes, in the order of the checks.
abbrev pub symbols_3 : List (Bytes × Token)
symbols_3 =
    (codes "...", Token.ellipsis)
    ∷ (codes ">>=", Token.right_assign)
    ∷ (codes "<<=", Token.left_assign)
    ∷ []

-- The comment marks are tested before these.
abbrev pub symbols_2 : List (Bytes × Token)
symbols_2 =
    (codes ":=", Token.def_assign)
    ∷ (codes "+=", Token.add_assign)
    ∷ (codes "-=", Token.sub_assign)
    ∷ (codes "*=", Token.mul_assign)
    ∷ (codes "/=", Token.div_assign)
    ∷ (codes "%=", Token.mod_assign)
    ∷ (codes "&=", Token.and_assign)
    ∷ (codes "^=", Token.xor_assign)
    ∷ (codes "|=", Token.or_assign)
    ∷ (codes ">>", Token.right_op)
    ∷ (codes "<<", Token.left_op)
    ∷ (codes "++", Token.inc_op)
    ∷ (codes "--", Token.dec_op)
    ∷ (codes "&&", Token.and_op)
    ∷ (codes "||", Token.or_op)
    ∷ (codes "<=", Token.le_op)
    ∷ (codes ">=", Token.ge_op)
    ∷ (codes "==", Token.eq_op)
    ∷ (codes "!=", Token.ne_op)
    ∷ (codes "->", Token.mapto)
    ∷ []

-- Single bytes.
abbrev pub symbols_1 : List (Bytes × Token)
symbols_1 =
    (codes ";", Token.semicolon)
    ∷ (codes "{", Token.lbrace)
    ∷ (codes "}", Token.rbrace)
    ∷ (codes ",", Token.comma)
    ∷ (codes ":", Token.colon)
    ∷ (codes "=", Token.assign)
    ∷ (codes "(", Token.lparen)
    ∷ (codes ")", Token.rparen)
    ∷ (codes "[", Token.lbrack)
    ∷ (codes "]", Token.rbrack)
    ∷ (codes ".", Token.period)
    ∷ (codes "&", Token.bitwise_and)
    ∷ (codes "!", Token.not_op)
    ∷ (codes "~", Token.bitwise_not)
    ∷ (codes "-", Token.sub_op)
    ∷ (codes "+", Token.add_op)
    ∷ (codes "*", Token.mul_op)
    ∷ (codes "/", Token.div_op)
    ∷ (codes "%", Token.mod_op)
    ∷ (codes "<", Token.lt_op)
    ∷ (codes ">", Token.gt_op)
    ∷ (codes "^", Token.bitwise_xor)
    ∷ (codes "|", Token.bitwise_or)
    ∷ (codes "?", Token.question)
    ∷ (codes "#", Token.hash)
    ∷ []

-- The words that are no identifiers.
abbrev pub keywords : List (Bytes × Token)
keywords =
    (codes "alignas", Token.kw_alignas)
    ∷ (codes "atomic", Token.kw_atomic)
    ∷ (codes "break", Token.kw_break)
    ∷ (codes "cap", Token.kw_cap)
    ∷ (codes "case", Token.kw_case)
    ∷ (codes "const", Token.kw_const)
    ∷ (codes "continue", Token.kw_continue)
    ∷ (codes "default", Token.kw_default)
    ∷ (codes "dispose", Token.kw_dispose)
    ∷ (codes "do", Token.kw_do)
    ∷ (codes "else", Token.kw_else)
    ∷ (codes "enum", Token.kw_enum)
    ∷ (codes "extern", Token.kw_extern)
    ∷ (codes "for", Token.kw_for)
    ∷ (codes "free", Token.kw_free)
    ∷ (codes "func", Token.kw_func)
    ∷ (codes "goto", Token.kw_goto)
    ∷ (codes "if", Token.kw_if)
    ∷ (codes "import", Token.kw_import)
    ∷ (codes "inline", Token.kw_inline)
    ∷ (codes "interface", Token.kw_interface)
    ∷ (codes "len", Token.kw_len)
    ∷ (codes "make", Token.kw_make)
    ∷ (codes "new", Token.kw_new)
    ∷ (codes "package", Token.kw_package)
    ∷ (codes "return", Token.kw_return)
    ∷ (codes "sizeof", Token.kw_sizeof)
    ∷ (codes "static", Token.kw_static)
    ∷ (codes "struct", Token.kw_struct)
    ∷ (codes "switch", Token.kw_switch)
    ∷ (codes "type", Token.kw_type)
    ∷ (codes "typedef", Token.kw_typedef)
    ∷ (codes "union", Token.kw_union)
    ∷ (codes "var", Token.kw_var)
    ∷ (codes "void", Token.kw_void)
    ∷ (codes "volatile", Token.kw_volatile)
    ∷ (codes "while", Token.kw_while)
    ∷ (codes "yield", Token.kw_yield)
    ∷ []
