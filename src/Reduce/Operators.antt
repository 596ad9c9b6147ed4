-- ===== src/Reduce/Operators.antt =====
-- src/grammar_rules.c: the reducers of operators, built-in functions and casts.
use low.Prelude.{ℕ, zero, suc, ◌∷◌, [], List, ◌==◌, if◌then◌else◌}
use low.Lexer.Token.{
  Token, mul_op, div_op, mod_op, add_op, sub_op, left_op, right_op, lt_op, gt_op, le_op, ge_op,
  eq_op, ne_op, bitwise_and, bitwise_xor, bitwise_or, bitwise_not, and_op, or_op, not_op, assign,
  add_assign, and_assign, div_assign, left_assign, mod_assign, mul_assign, or_assign, right_assign,
  sub_assign, xor_assign,
}
use low.Ast.LowType.{no_type}
use low.Ast.Tree.{
  Expr, expr_at, ExprForm, Exprs, no_exprs, expr_and, OptExpr, null_expr, expr_ptr, incdec_expr,
  pre, unary_expr, UnaryOp, op_address, op_deref, op_positive, op_negative, op_bitwise_not, op_not,
  sizeof_expr, sizeof_type, cast_expr, binary_expr, BinaryOp, op_add, op_sub, op_mul, op_div,
  op_mod, op_left, op_right, op_lt, op_gt, op_le, op_ge, op_eq, op_ne, op_bitwise_and,
  op_bitwise_xor, op_bitwise_or, op_and, op_or, conditional_expr, assignment_expr, AssignmentOp,
  op_assign, op_add_assign, op_and_assign, op_div_assign, op_left_assign, op_mod_assign,
  op_mul_assign, op_or_assign, op_right_assign, op_sub_assign, op_xor_assign, comma_expr,
  new_builtin, free_builtin, dispose_builtin, make_builtin, lencap_builtin, LencapKind, lencap_len,
  lencap_cap,
}
use low.Reduce.Values.{
  Outcome, ok, ◌>>=◌, an_expr, a_type, a_unary_op, an_assignment_op, Tok, operand,
}
use low.Reduce.Operands.{pointer, loc_of, leave, leave_expr, switch_token}
use low.Reduce.Exprs.{direction}

-- The `switch` statements of `unary_op`, `binary_expr` and `assignment_op`.
abbrev pub unary_ops : List (Token × UnaryOp)
unary_ops =
    (bitwise_and, op_address)
    ∷ (mul_op, op_deref)
    ∷ (add_op, op_positive)
    ∷ (sub_op, op_negative)
    ∷ (bitwise_not, op_bitwise_not)
    ∷ (not_op, op_not)
    ∷ []

abbrev pub binary_ops : List (Token × BinaryOp)
binary_ops =
    (mul_op, op_mul)
    ∷ (div_op, op_div)
    ∷ (mod_op, op_mod)
    ∷ (add_op, op_add)
    ∷ (sub_op, op_sub)
    ∷ (left_op, op_left)
    ∷ (right_op, op_right)
    ∷ (lt_op, op_lt)
    ∷ (gt_op, op_gt)
    ∷ (le_op, op_le)
    ∷ (ge_op, op_ge)
    ∷ (eq_op, op_eq)
    ∷ (ne_op, op_ne)
    ∷ (bitwise_and, op_bitwise_and)
    ∷ (bitwise_xor, op_bitwise_xor)
    ∷ (bitwise_or, op_bitwise_or)
    ∷ (and_op, op_and)
    ∷ (or_op, op_or)
    ∷ []

abbrev pub assignment_ops : List (Token × AssignmentOp)
assignment_ops =
    (assign, op_assign)
    ∷ (add_assign, op_add_assign)
    ∷ (and_assign, op_and_assign)
    ∷ (div_assign, op_div_assign)
    ∷ (left_assign, op_left_assign)
    ∷ (mod_assign, op_mod_assign)
    ∷ (mul_assign, op_mul_assign)
    ∷ (or_assign, op_or_assign)
    ∷ (right_assign, op_right_assign)
    ∷ (sub_assign, op_sub_assign)
    ∷ (xor_assign, op_xor_assign)
    ∷ []

-- `e->comma.exprs` with one more expression at its end.
abbrev pub exprs_add : Exprs → Expr → Exprs
exprs_add no_exprs e = expr_and e no_exprs
exprs_add (expr_and d es) e = expr_and d (exprs_add es e)

-- A list in parentheses is extended too.
abbrev pub comma : Expr → Expr → Expr
comma (expr_at loc t (comma_expr es)) e = expr_at loc t (comma_expr (exprs_add es e))
comma (expr_at loc t form) e =
    expr_at loc (no_type 0) (comma_expr (expr_and (expr_at loc t form) (expr_and e no_exprs)))

abbrev pub reduce_unary_expr_incdec : Tok → List Tok → ℕ → Outcome Tok
reduce_unary_expr_incdec out toks tag = do
  loc ← loc_of toks 0
  target ← pointer an_expr toks 1
  leave_expr out loc (incdec_expr target pre (direction tag))

abbrev pub reduce_unary_expr_op : Tok → List Tok → ℕ → Outcome Tok
reduce_unary_expr_op out toks tag = do
  loc ← loc_of toks 0
  target ← pointer an_expr toks 1
  op ← pointer a_unary_op toks 0
  leave_expr out loc (unary_expr target op)

abbrev pub reduce_unary_op : Tok → List Tok → ℕ → Outcome Tok
reduce_unary_op out toks tag = do
  t ← operand toks 0
  op ← switch_token unary_ops t.id
  leave a_unary_op out op

abbrev pub sizeof_form : List Tok → ℕ → Outcome ExprForm
sizeof_form toks zero = pointer an_expr toks 1 >>= λ e. ok (sizeof_expr e)
sizeof_form toks (suc tag) = pointer a_type toks 2 >>= λ t. ok (sizeof_type t)

abbrev pub reduce_unary_expr_sizeof : Tok → List Tok → ℕ → Outcome Tok
reduce_unary_expr_sizeof out toks tag = do
  loc ← loc_of toks 0
  form ← sizeof_form toks tag
  leave_expr out loc form

-- `newe.expr`, which stays null without the tag.
abbrev pub new_value : List Tok → ℕ → Outcome OptExpr
new_value toks tag =
    if tag == 1 then (pointer an_expr toks 4 >>= λ e. ok (expr_ptr e)) else ok null_expr

abbrev pub reduce_builtin_func_new : Tok → List Tok → ℕ → Outcome Tok
reduce_builtin_func_new out toks tag = do
  loc ← loc_of toks 0
  t ← pointer a_type toks 2
  e ← new_value toks tag
  leave_expr out loc (new_builtin t e)

abbrev pub reduce_builtin_func_dispose : Tok → List Tok → ℕ → Outcome Tok
reduce_builtin_func_dispose out toks tag = do
  loc ← loc_of toks 0
  e ← pointer an_expr toks 2
  leave_expr out loc (dispose_builtin e)

abbrev pub reduce_builtin_func_free : Tok → List Tok → ℕ → Outcome Tok
reduce_builtin_func_free out toks tag = do
  loc ← loc_of toks 0
  e ← pointer an_expr toks 2
  leave_expr out loc (free_builtin e)

abbrev pub reduce_builtin_func_make : Tok → List Tok → ℕ → Outcome Tok
reduce_builtin_func_make out toks tag = do
  loc ← loc_of toks 0
  t ← pointer a_type toks 2
  e ← pointer an_expr toks 4
  leave_expr out loc (make_builtin t e)

abbrev pub lencap_kind : ℕ → LencapKind
lencap_kind zero = lencap_len
lencap_kind (suc tag) = lencap_cap

abbrev pub reduce_builtin_func_lencap : Tok → List Tok → ℕ → Outcome Tok
reduce_builtin_func_lencap out toks tag = do
  loc ← loc_of toks 0
  e ← pointer an_expr toks 2
  leave_expr out loc (lencap_builtin (lencap_kind tag) e)

abbrev pub reduce_cast_expr : Tok → List Tok → ℕ → Outcome Tok
reduce_cast_expr out toks tag = do
  loc ← loc_of toks 0
  target ← pointer an_expr toks 4
  t ← pointer a_type toks 2
  leave_expr out loc (cast_expr target t)

abbrev pub reduce_cast_expr2 : Tok → List Tok → ℕ → Outcome Tok
reduce_cast_expr2 out toks tag = do
  loc ← loc_of toks 0
  target ← pointer an_expr toks 3
  t ← pointer a_type toks 1
  leave_expr out loc (cast_expr target t)

abbrev pub reduce_binary_expr : Tok → List Tok → ℕ → Outcome Tok
reduce_binary_expr out toks tag = do
  loc ← loc_of toks 1
  lhs ← pointer an_expr toks 0
  rhs ← pointer an_expr toks 2
  t ← operand toks 1
  op ← switch_token binary_ops t.id
  leave_expr out loc (binary_expr lhs rhs op)

abbrev pub reduce_conditional_expr : Tok → List Tok → ℕ → Outcome Tok
reduce_conditional_expr out toks tag = do
  loc ← loc_of toks 1
  condition ← pointer an_expr toks 0
  true_expr ← pointer an_expr toks 2
  false_expr ← pointer an_expr toks 4
  leave_expr out loc (conditional_expr condition true_expr false_expr)

abbrev pub reduce_assignment_expr : Tok → List Tok → ℕ → Outcome Tok
reduce_assignment_expr out toks tag = do
  loc ← loc_of toks 1
  target ← pointer an_expr toks 0
  e ← pointer an_expr toks 2
  op ← pointer an_assignment_op toks 1
  leave_expr out loc (assignment_expr target e op)

abbrev pub reduce_assignment_op : Tok → List Tok → ℕ → Outcome Tok
reduce_assignment_op out toks tag = do
  t ← operand toks 0
  op ← switch_token assignment_ops t.id
  leave an_assignment_op out op

abbrev pub reduce_expr_comma : Tok → List Tok → ℕ → Outcome Tok
reduce_expr_comma out toks tag = do
  d ← pointer an_expr toks 0
  e ← pointer an_expr toks 2
  leave an_expr out (comma d e)
