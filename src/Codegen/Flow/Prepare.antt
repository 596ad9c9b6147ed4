-- ===== src/Codegen/Flow/Prepare.antt =====
-- src/codegen_*.c: the blocks while the types of operators are determined.
use low.Prelude.{ℕ, Bool, true, false, Option, none, some, Bytes}
use low.Ast.LowType.{LowType}
use low.Ast.Tree
use low.Ast.Tree.{
  Loc, Expr, expr_at, ExprForm, OptExpr, null_expr, expr_ptr, Exprs, no_exprs, expr_and, BinaryOp,
  UnaryOp, op_address, op_deref, op_positive, op_negative, op_bitwise_not, op_not,
}
use low.Codegen.State.{M}
use low.Codegen.Prepare.Forms.{
  address_hint, deref_hint, hinted, prepare_if, prepare_binary_expr, prepare_unary_expr,
  prepare_assignment_expr, prepare_conditional_expr, prepare_incdec_expr, prepare_cast_expr,
  prepare_sizeof_expr, prepare_sizeof_type, prepare_number_literal_expr, prepare_commas, copy_last,
  prepare_comma_expr,
}
use low.Codegen.Flow.Keeps.{Keeps, Keeps-bind, Keeps-pure, Keeps-if}
use low.Codegen.Flow.Parts.{flow}

Keeps-address_hint : (hint : Option LowType) → Keeps (address_hint hint)
Keeps-address_hint none = search flow
Keeps-address_hint (some hint) = search (flow, Keeps-if) depth 8

Keeps-deref_hint : (hint : Option LowType) → Keeps (deref_hint hint)
Keeps-deref_hint none = search flow
Keeps-deref_hint (some hint) = search flow

Keeps-hinted : (old : LowType) (hint : Option LowType) → Keeps (hinted old hint)
Keeps-hinted old none = search flow
Keeps-hinted old (some hint) = search flow

Keeps-copy_last : (t : Option LowType) → Keeps (copy_last t)
Keeps-copy_last none = search flow
Keeps-copy_last (some t) = search flow

module _ (prepare : Expr → Option LowType → M Expr)
    (keeps : (e : Expr) (hint : Option LowType) → Keeps (prepare e hint)) where
  Keeps-prepare_if :
      (b : Bool) (e : Expr) (hint : Option LowType) → Keeps (prepare_if prepare b e hint)
  Keeps-prepare_if true e hint = keeps e hint
  Keeps-prepare_if false e hint = Keeps-pure e

  pub Keeps-prepare_binary_expr :
      (loc : Loc) (lhs rhs : Expr) (op : BinaryOp) (hint : Option LowType)
      → Keeps (prepare_binary_expr prepare loc lhs rhs op hint)
  Keeps-prepare_binary_expr loc lhs rhs op hint = search (flow, keeps, Keeps-prepare_if) depth 20

  pub Keeps-prepare_unary_expr :
      (loc : Loc) (target : Expr) (op : UnaryOp) (hint : Option LowType)
      → Keeps (prepare_unary_expr prepare loc target op hint)
  Keeps-prepare_unary_expr loc target op_address hint =
      search (flow, keeps, Keeps-address_hint) depth 12
  Keeps-prepare_unary_expr loc target op_deref hint =
      search (flow, keeps, Keeps-deref_hint) depth 12
  Keeps-prepare_unary_expr loc target op_not hint = search (flow, keeps) depth 12
  Keeps-prepare_unary_expr loc target op_positive hint = search (flow, keeps) depth 12
  Keeps-prepare_unary_expr loc target op_negative hint = search (flow, keeps) depth 12
  Keeps-prepare_unary_expr loc target op_bitwise_not hint = search (flow, keeps) depth 12

  pub Keeps-prepare_commas :
      (es : Exprs) (hint : Option LowType) → Keeps (prepare_commas prepare es hint)
  unfolding prepare_commas
  Keeps-prepare_commas no_exprs hint = search flow
  Keeps-prepare_commas (expr_and e es) hint =
      Keeps-bind _ _ (keeps e hint)
        (λ e'. Keeps-bind _ _ (Keeps-prepare_commas es hint) (λ es'. Keeps-pure _))

  pub Keeps-prepare_comma_expr :
      (loc : Loc) (es : Exprs) (hint : Option LowType)
      → Keeps (prepare_comma_expr prepare loc es hint)
  Keeps-prepare_comma_expr loc es hint =
      search (flow, Keeps-prepare_commas, Keeps-copy_last) depth 12

  pub Keeps-prepare_assignment_expr :
      (loc : Loc) (t v : Expr) (op : Tree.AssignmentOp) (hint : Option LowType)
      → Keeps (prepare_assignment_expr prepare loc t v op hint)
  Keeps-prepare_assignment_expr loc t v op hint = search (flow, keeps) depth 14

  pub Keeps-prepare_conditional_expr :
      (loc : Loc) (c t f : Expr) (hint : Option LowType)
      → Keeps (prepare_conditional_expr prepare loc c t f hint)
  Keeps-prepare_conditional_expr loc c t f hint = search (flow, keeps) depth 14

  pub Keeps-prepare_incdec_expr :
      (loc : Loc) (t : Expr) (o : Tree.IncdecOrder) (d : Tree.IncdecDirection)
      (hint : Option LowType)
      → Keeps (prepare_incdec_expr prepare loc t o d hint)
  Keeps-prepare_incdec_expr loc t o d hint = search (flow, keeps) depth 14

  pub Keeps-prepare_cast_expr :
      (loc : Loc) (t : Expr) (type : LowType) → Keeps (prepare_cast_expr prepare loc t type)
  Keeps-prepare_cast_expr loc t type = search (flow, keeps) depth 14

  pub Keeps-prepare_sizeof_expr :
      (loc : Loc) (old : LowType) (t : Expr) (hint : Option LowType)
      → Keeps (prepare_sizeof_expr prepare loc old t hint)
  Keeps-prepare_sizeof_expr loc old t hint = search (flow, keeps, Keeps-hinted) depth 14

  pub Keeps-prepare_sizeof_type :
      (loc : Loc) (old type : LowType) (hint : Option LowType)
      → Keeps (prepare_sizeof_type prepare loc old type hint)
  Keeps-prepare_sizeof_type loc old type hint = search (flow, Keeps-hinted) depth 14

  pub Keeps-prepare_number_literal_expr :
      (loc : Loc) (old : LowType) (s : Bytes) (radix : ℕ) (hint : Option LowType)
      → Keeps (prepare_number_literal_expr prepare loc old s radix hint)
  Keeps-prepare_number_literal_expr loc old s radix hint = search (flow, Keeps-hinted) depth 14
