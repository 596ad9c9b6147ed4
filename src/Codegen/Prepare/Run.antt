-- ===== src/Codegen/Prepare/Run.antt =====
-- src/codegen.c: `prepare_expr`, and src/codegen_funcs.h: the table `prepare_expr_fn`.
use low.Prelude.{ℕ, zero, suc, Option}
use low.Ast.LowType.{LowType}
use low.Ast.Tree.{
  Loc, Expr, expr_at, ExprForm, ident_expr, string_literal_expr, number_literal_expr,
  index_access_expr, index_slice_expr, call_expr, member_access_expr, incdec_expr, unary_expr,
  sizeof_expr, sizeof_type, cast_expr, binary_expr, conditional_expr, assignment_expr, comma_expr,
  new_builtin, free_builtin, dispose_builtin, make_builtin, lencap_builtin,
}
use low.Codegen.State.{M, too_deep, stop}
use low.Codegen.Prepare.Forms.{
  prepare_binary_expr, prepare_unary_expr, prepare_assignment_expr, prepare_conditional_expr,
  prepare_incdec_expr, prepare_cast_expr, prepare_sizeof_expr, prepare_sizeof_type,
  prepare_number_literal_expr, prepare_string_literal_expr, prepare_comma_expr,
}
use low.Codegen.Prepare.Calls.{
  prepare_ident_expr, prepare_call_expr, prepare_member_access_expr, prepare_index_access_expr,
  prepare_index_slice_expr, prepare_new_builtin_expr, prepare_free_builtin_expr,
  prepare_make_builtin_expr, prepare_lencap_builtin_expr, prepare_dispose_builtin_expr,
}

module _ (depth : ℕ) (prepare : Expr → Option LowType → M Expr) where
  unfoldable pub prepare_form : Loc → LowType → ExprForm → Option LowType → M Expr
  prepare_form loc old (ident_expr ident) hint = prepare_ident_expr prepare depth loc old ident hint
  prepare_form loc old (string_literal_expr s) hint = prepare_string_literal_expr prepare loc s
  prepare_form loc old (number_literal_expr s radix) hint =
      prepare_number_literal_expr prepare loc old s radix hint
  prepare_form loc old (index_access_expr target index) hint =
      prepare_index_access_expr prepare depth loc target index
  prepare_form loc old (index_slice_expr target start end kind) hint =
      prepare_index_slice_expr prepare depth loc target start end kind
  prepare_form loc old (call_expr target args) hint =
      prepare_call_expr prepare depth loc target args
  prepare_form loc old (member_access_expr target name) hint =
      prepare_member_access_expr prepare depth loc target name
  prepare_form loc old (incdec_expr target order direction) hint =
      prepare_incdec_expr prepare loc target order direction hint
  prepare_form loc old (unary_expr target op) hint = prepare_unary_expr prepare loc target op hint
  prepare_form loc old (sizeof_expr inner) hint = prepare_sizeof_expr prepare loc old inner hint
  prepare_form loc old (sizeof_type type) hint = prepare_sizeof_type prepare loc old type hint
  prepare_form loc old (cast_expr target type) hint = prepare_cast_expr prepare loc target type
  prepare_form loc old (binary_expr lhs rhs op) hint =
      prepare_binary_expr prepare loc lhs rhs op hint
  prepare_form loc old (conditional_expr c t f) hint =
      prepare_conditional_expr prepare loc c t f hint
  prepare_form loc old (assignment_expr target value op) hint =
      prepare_assignment_expr prepare loc target value op hint
  prepare_form loc old (comma_expr exprs) hint = prepare_comma_expr prepare loc exprs hint
  prepare_form loc old (new_builtin type size) hint =
      prepare_new_builtin_expr prepare depth loc type size
  prepare_form loc old (free_builtin inner) hint =
      prepare_free_builtin_expr prepare depth loc old inner
  prepare_form loc old (dispose_builtin inner) hint =
      prepare_dispose_builtin_expr prepare depth loc old inner
  prepare_form loc old (make_builtin type size) hint =
      prepare_make_builtin_expr prepare depth loc type size
  prepare_form loc old (lencap_builtin kind inner) hint =
      prepare_lencap_builtin_expr prepare depth loc kind inner

-- With the number of calls in one another; each may go through `depth` names of types.
unfoldable pub prepare_expr : ℕ → ℕ → Expr → Option LowType → M Expr
unfolding prepare_form
prepare_expr depth zero e hint = stop too_deep
prepare_expr depth (suc fuel) (expr_at loc old form) hint =
    prepare_form depth (λ e h. prepare_expr depth fuel e h) loc old form hint
