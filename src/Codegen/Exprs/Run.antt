-- ===== src/Codegen/Exprs/Run.antt =====
-- src/codegen.c: `codegen_expr` and `codegen_expr_top`, and src/codegen_funcs.h: `codegen_expr_fn`.
use low.Prelude.{ℕ, zero, suc, Bool, Option}
use low.Ast.LowType.{LowType}
use low.Ast.Tree.{
  Expr, expr_at, ExprForm, ident_expr, string_literal_expr, number_literal_expr, index_access_expr,
  index_slice_expr, call_expr, member_access_expr, incdec_expr, unary_expr, sizeof_expr,
  sizeof_type, cast_expr, binary_expr, conditional_expr, assignment_expr, comma_expr, new_builtin,
  free_builtin, dispose_builtin, make_builtin, lencap_builtin,
}
use low.Codegen.Llvm.{ValueRef}
use low.Codegen.State.{M, too_deep, stop, pure, ◌>>=◌}
use low.Codegen.Prepare.Run.{prepare_expr}
use low.Codegen.Exprs.Operators.{
  codegen_binary_expr, codegen_assignment_expr, codegen_unary_expr, codegen_conditional_expr,
  codegen_incdec_expr, codegen_number_literal_expr, codegen_string_literal_expr,
  codegen_sizeof_expr, codegen_sizeof_type, codegen_comma_expr,
}
use low.Codegen.Exprs.Places.{
  codegen_ident_expr, codegen_index_access_expr, codegen_member_access_expr,
}
use low.Codegen.Exprs.Slices.{codegen_index_slice_expr}
use low.Codegen.Exprs.Calls.{codegen_call_expr}
use low.Codegen.Exprs.Casts.{codegen_cast_expr}
use low.Codegen.Exprs.Builtins.{
  codegen_new_builtin_expr, codegen_free_builtin_expr, codegen_make_builtin_expr,
  codegen_lencap_builtin_expr, codegen_dispose_builtin_expr,
}

module _ (d : ℕ) (g : Expr → Bool → M ValueRef) where
  -- `own` is the type that `prepare_expr` has set.
  unfoldable pub codegen_form : LowType → ExprForm → Bool → M ValueRef
  codegen_form own (ident_expr ident) lvalue = codegen_ident_expr d g ident lvalue
  codegen_form own (string_literal_expr s) lvalue = codegen_string_literal_expr d g s lvalue
  codegen_form own (number_literal_expr s radix) lvalue =
      codegen_number_literal_expr d g own s radix lvalue
  codegen_form own (index_access_expr target index) lvalue =
      codegen_index_access_expr d g target index lvalue
  codegen_form own (index_slice_expr target start end kind) lvalue =
      codegen_index_slice_expr d g own target start end kind
  codegen_form own (call_expr target args) lvalue = codegen_call_expr d g target args lvalue
  codegen_form own (member_access_expr target name) lvalue =
      codegen_member_access_expr d g target name lvalue
  codegen_form own (incdec_expr target order direction) lvalue =
      codegen_incdec_expr d g own target order direction lvalue
  codegen_form own (unary_expr target op) lvalue = codegen_unary_expr d g target op lvalue
  codegen_form own (sizeof_expr inner) lvalue = codegen_sizeof_expr d g own inner lvalue
  codegen_form own (sizeof_type type) lvalue = codegen_sizeof_type d g own type lvalue
  codegen_form own (cast_expr target type) lvalue = codegen_cast_expr d g target type lvalue
  codegen_form own (binary_expr lhs rhs op) lvalue = codegen_binary_expr d g lhs rhs op lvalue
  codegen_form own (conditional_expr c t f) lvalue = codegen_conditional_expr d g c t f lvalue
  codegen_form own (assignment_expr target value op) lvalue =
      codegen_assignment_expr d g target value op
  codegen_form own (comma_expr exprs) lvalue = codegen_comma_expr d g exprs lvalue
  codegen_form own (new_builtin type size) lvalue = codegen_new_builtin_expr d g type size
  codegen_form own (free_builtin inner) lvalue = codegen_free_builtin_expr d g inner
  codegen_form own (dispose_builtin inner) lvalue = codegen_dispose_builtin_expr d g inner
  codegen_form own (make_builtin type size) lvalue = codegen_make_builtin_expr d g type size
  codegen_form own (lencap_builtin kind inner) lvalue = codegen_lencap_builtin_expr d g kind inner

-- With the number of calls in one another.
unfoldable pub codegen_expr : ℕ → ℕ → Expr → Bool → M ValueRef
unfolding codegen_form
codegen_expr depth zero e lvalue = stop too_deep
codegen_expr depth (suc fuel) (expr_at loc own form) lvalue =
    codegen_form depth (λ e l. codegen_expr depth fuel e l) own form lvalue

-- The value, and the expression with the types it got.
unfoldable pub codegen_expr_top : ℕ → ℕ → Expr → Bool → Option LowType → M (ValueRef × Expr)
unfolding prepare_expr codegen_expr
codegen_expr_top depth fuel expr lvalue type_hint = do
  e ← prepare_expr depth fuel expr type_hint
  v ← codegen_expr depth fuel e lvalue
  pure (v, e)
