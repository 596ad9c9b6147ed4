-- ===== src/Codegen/Prepare/Forms.antt =====
-- src/codegen_*.c: the functions prepare_..._expr for operators, casts and literals. Each gets
-- `prepare_expr` as an argument, and returns the expression with the types it has set.
use low.Prelude.{ℕ, Bool, true, false, ◌&&◌, not, Option, none, some, Bytes, if◌then◌else◌, ltb}
use low.Ast.LowType.{LowType, integer_type}
use low.Ast.Tree.{
  Loc, Expr, expr_at, Exprs, no_exprs, expr_and, string_literal_expr, number_literal_expr,
  incdec_expr, unary_expr, sizeof_expr, sizeof_type, cast_expr, binary_expr, conditional_expr,
  assignment_expr, comma_expr, IncdecOrder, IncdecDirection, UnaryOp, op_address, op_deref, op_not,
  BinaryOp, op_lt, op_gt, op_le, op_ge, op_eq, op_ne, op_and, op_or, AssignmentOp,
}
use low.Codegen.State.{derror, invalid, M, pure, stop, check, ◌>>=◌, ◌>>◌}
use low.Codegen.Context.{pointer_of, more_pointer, less_pointer, is_no_type, copy, equal}
use low.Codegen.Prepare.Views.{type_of, bool_type}

-- Operators whose operands may take the hint, and those whose result is a boolean.
abbrev pub takes_hint : BinaryOp → Bool
takes_hint op_lt = false
takes_hint op_gt = false
takes_hint op_le = false
takes_hint op_ge = false
takes_hint op_eq = false
takes_hint op_ne = false
takes_hint op_and = false
takes_hint op_or = false
takes_hint _ = true

abbrev pub is_test : BinaryOp → Bool
is_test op_lt = true
is_test op_gt = true
is_test op_le = true
is_test op_ge = true
is_test op_eq = true
is_test op_ne = true
is_test op_and = true
is_test op_or = true
is_test _ = false

abbrev pub untyped : Expr → Bool
untyped e = is_no_type (type_of e)

-- A hint's type, copied and with one pointer less, where it has one.
abbrev pub address_hint : Option LowType → M (Option LowType)
address_hint none = pure none
address_hint (some hint) =
    if ltb 0 (pointer_of hint) then (copy hint >>= λ t. pure (some (less_pointer t))) else pure none

abbrev pub deref_hint : Option LowType → M (Option LowType)
deref_hint none = pure none
deref_hint (some hint) = copy hint >>= λ t. pure (some (more_pointer t))

-- `if (type_hint) type_copy(&expr->type, type_hint)`
abbrev pub hinted : LowType → Option LowType → M LowType
hinted old none = pure old
hinted old (some hint) = copy hint

module _ (prepare : Expr → Option LowType → M Expr) where
  abbrev pub prepare_if : Bool → Expr → Option LowType → M Expr
  prepare_if true e hint = prepare e hint
  prepare_if false e hint = pure e

  abbrev pub prepare_binary_expr : Loc → Expr → Expr → BinaryOp → Option LowType → M Expr
  prepare_binary_expr loc lhs rhs op type_hint = do
    let hint = if takes_hint op then type_hint else none
    l1 ← prepare lhs none
    r1 ← prepare rhs none
    l2 ← prepare_if (untyped l1 && untyped r1) l1 hint
    r2 ← prepare_if (untyped l1 && untyped r1) r1 hint
    l3 ← prepare_if (untyped l2 && not (untyped r2)) l2 (some (type_of r2))
    r3 ← prepare_if (untyped r2 && not (untyped l3)) r2 (some (type_of l3))
    type ← if is_test op then pure bool_type else copy (type_of l3)
    pure (expr_at loc type (binary_expr l3 r3 op))

  abbrev pub prepare_unary_expr : Loc → Expr → UnaryOp → Option LowType → M Expr
  prepare_unary_expr loc target op_address type_hint = do
    hint ← address_hint type_hint
    e ← prepare target hint
    type ← copy (type_of e)
    pure (expr_at loc (more_pointer type) (unary_expr e op_address))
  prepare_unary_expr loc target op_deref type_hint = do
    hint ← deref_hint type_hint
    e ← prepare target hint
    type ← copy (type_of e)
    check (ltb 0 (pointer_of (type_of e))) derror
    pure (expr_at loc (less_pointer (type_of e)) (unary_expr e op_deref))
  prepare_unary_expr loc target op_not type_hint = do
    e ← prepare target (some bool_type)
    pure (expr_at loc bool_type (unary_expr e op_not))
  prepare_unary_expr loc target op type_hint = do
    e ← prepare target type_hint
    type ← copy (type_of e)
    pure (expr_at loc type (unary_expr e op))

  abbrev pub prepare_assignment_expr : Loc → Expr → Expr → AssignmentOp → Option LowType → M Expr
  prepare_assignment_expr loc target value op type_hint = do
    t ← prepare target type_hint
    v ← prepare value (some (type_of t))
    same_type ← equal (type_of t) (type_of v)
    check same_type derror
    type ← copy (type_of t)
    pure (expr_at loc type (assignment_expr t v op))

  abbrev pub prepare_conditional_expr : Loc → Expr → Expr → Expr → Option LowType → M Expr
  prepare_conditional_expr loc condition true_expr false_expr type_hint = do
    c ← prepare condition (some bool_type)
    t ← prepare true_expr type_hint
    f ← prepare false_expr type_hint
    same_type ← equal (type_of t) (type_of f)
    check same_type derror
    type ← copy (type_of t)
    pure (expr_at loc type (conditional_expr c t f))

  abbrev pub prepare_incdec_expr :
      Loc → Expr → IncdecOrder → IncdecDirection → Option LowType → M Expr
  prepare_incdec_expr loc target order direction type_hint = do
    e ← prepare target type_hint
    type ← copy (type_of e)
    pure (expr_at loc type (incdec_expr e order direction))

  abbrev pub prepare_cast_expr : Loc → Expr → LowType → M Expr
  prepare_cast_expr loc target type = do
    e ← prepare target (some type)
    copied ← copy type
    pure (expr_at loc copied (cast_expr e type))

  -- The two modes of `sizeof`.
  abbrev pub prepare_sizeof_expr : Loc → LowType → Expr → Option LowType → M Expr
  prepare_sizeof_expr loc old inner type_hint = do
    e ← prepare inner none
    type ← hinted old type_hint
    pure (expr_at loc type (sizeof_expr e))

  abbrev pub prepare_sizeof_type : Loc → LowType → LowType → Option LowType → M Expr
  prepare_sizeof_type loc old measured type_hint = do
    type ← hinted old type_hint
    pure (expr_at loc type (sizeof_type measured))

  abbrev pub prepare_number_literal_expr : Loc → LowType → Bytes → ℕ → Option LowType → M Expr
  prepare_number_literal_expr loc old literal radix type_hint = do
    type ← hinted old type_hint
    pure (expr_at loc type (number_literal_expr literal radix))

  abbrev pub prepare_string_literal_expr : Loc → Bytes → M Expr
  prepare_string_literal_expr loc literal =
      pure (expr_at loc (integer_type 1 8) (string_literal_expr literal))

  -- The loop over the expressions between commas, and the type of the last.
  unfoldable pub prepare_commas : Exprs → Option LowType → M Exprs
  prepare_commas no_exprs type_hint = pure no_exprs
  prepare_commas (expr_and e es) type_hint = do
    e' ← prepare e type_hint
    es' ← prepare_commas es type_hint
    pure (expr_and e' es')

unfoldable pub last_type : Exprs → Option LowType
last_type no_exprs = none
last_type (expr_and e no_exprs) = some (type_of e)
last_type (expr_and e (expr_and e' es)) = last_type (expr_and e' es)

abbrev pub copy_last : Option LowType → M LowType
copy_last none = stop invalid
copy_last (some t) = copy t

abbrev pub prepare_comma_expr :
    (Expr → Option LowType → M Expr) → Loc → Exprs → Option LowType → M Expr
prepare_comma_expr prepare loc exprs type_hint = do
  es ← prepare_commas prepare exprs type_hint
  type ← copy_last (last_type es)
  pure (expr_at loc type (comma_expr es))
