-- ===== src/Codegen/Flow/Exprs.antt =====
-- src/codegen.c: the blocks while an expression is generated.
use low.Prelude.{ℕ, zero, suc, Bool, Option}
use low.Ast.LowType.{LowType}
use low.Ast.Tree.{
  Expr, expr_at, ExprForm, ident_expr, string_literal_expr, number_literal_expr, index_access_expr,
  index_slice_expr, call_expr, member_access_expr, incdec_expr, unary_expr, sizeof_expr,
  sizeof_type, cast_expr, binary_expr, conditional_expr, assignment_expr, comma_expr, new_builtin,
  free_builtin, dispose_builtin, make_builtin, lencap_builtin,
}
use low.Codegen.Llvm.{ValueRef}
use low.Codegen.State.{too_deep, M}
use low.Codegen.Flow.Keeps.{Keeps, Keeps-bind, Keeps-pure, Keeps-stop, Fails-too_deep}
use low.Codegen.Flow.Parts.{flow}
use low.Codegen.Exprs.Run.{codegen_form, codegen_expr, codegen_expr_top}
use low.Codegen.Flow.Names.{Keeps-prepare_expr}
use low.Codegen.Flow.Operators.{
  Keeps-codegen_binary_expr, Keeps-codegen_assignment_expr, Keeps-codegen_unary_expr,
  Keeps-codegen_conditional_expr, Keeps-codegen_incdec_expr, Keeps-codegen_number_literal_expr,
  Keeps-codegen_sizeof_expr, Keeps-codegen_sizeof_type, Keeps-codegen_comma_expr,
}
use low.Codegen.Flow.Places.{
  Keeps-codegen_ident_expr, Keeps-codegen_index_access_expr, Keeps-codegen_member_access_expr,
}
use low.Codegen.Flow.Slices.{Keeps-codegen_index_slice_expr}
use low.Codegen.Flow.Calls.{Keeps-codegen_call_expr}
use low.Codegen.Flow.Casts.{
  Keeps-codegen_cast_expr, Keeps-codegen_new_builtin_expr, Keeps-codegen_free_builtin_expr,
  Keeps-codegen_make_builtin_expr, Keeps-codegen_lencap_builtin_expr,
  Keeps-codegen_dispose_builtin_expr,
}

module _ (d : ℕ) (g : Expr → Bool → M ValueRef)
    (keeps : (e : Expr) (l : Bool) → Keeps (g e l)) where
  Keeps-codegen_form : (own : LowType) (f : ExprForm) (b : Bool) → Keeps (codegen_form d g own f b)
  unfolding codegen_form
  Keeps-codegen_form own (ident_expr s) b = Keeps-codegen_ident_expr d g keeps s b
  Keeps-codegen_form own (string_literal_expr s) b = search (flow) depth 8
  Keeps-codegen_form own (number_literal_expr s r) b =
      Keeps-codegen_number_literal_expr d g keeps own s r b
  Keeps-codegen_form own (index_access_expr x i) b = Keeps-codegen_index_access_expr d g keeps x i b
  Keeps-codegen_form own (index_slice_expr x s e k) b =
      Keeps-codegen_index_slice_expr d g keeps own x s e k
  Keeps-codegen_form own (call_expr x a) b = Keeps-codegen_call_expr d g keeps x a b
  Keeps-codegen_form own (member_access_expr x s) b =
      Keeps-codegen_member_access_expr d g keeps x s b
  Keeps-codegen_form own (incdec_expr x r i) b = Keeps-codegen_incdec_expr d g keeps own x r i b
  Keeps-codegen_form own (unary_expr x op) b = Keeps-codegen_unary_expr d g keeps x op b
  Keeps-codegen_form own (sizeof_expr x) b = Keeps-codegen_sizeof_expr d g keeps own x b
  Keeps-codegen_form own (sizeof_type u) b = Keeps-codegen_sizeof_type d g keeps own u b
  Keeps-codegen_form own (cast_expr x u) b = Keeps-codegen_cast_expr d g keeps x u b
  Keeps-codegen_form own (binary_expr x y op) b = Keeps-codegen_binary_expr d g keeps x y op b
  Keeps-codegen_form own (conditional_expr c x y) b =
      Keeps-codegen_conditional_expr d g keeps c x y b
  Keeps-codegen_form own (assignment_expr x v op) b = Keeps-codegen_assignment_expr d g keeps x v op
  Keeps-codegen_form own (comma_expr xs) b = Keeps-codegen_comma_expr d g keeps xs b
  Keeps-codegen_form own (new_builtin u x) b = Keeps-codegen_new_builtin_expr d g keeps u x
  Keeps-codegen_form own (free_builtin x) b = Keeps-codegen_free_builtin_expr d g keeps x
  Keeps-codegen_form own (dispose_builtin x) b = Keeps-codegen_dispose_builtin_expr d g keeps x
  Keeps-codegen_form own (make_builtin u x) b = Keeps-codegen_make_builtin_expr d g keeps u x
  Keeps-codegen_form own (lencap_builtin k x) b = Keeps-codegen_lencap_builtin_expr d g keeps k x

pub Keeps-codegen_expr :
    (depth fuel : ℕ) (e : Expr) (lvalue : Bool) → Keeps (codegen_expr depth fuel e lvalue)
unfolding codegen_expr
Keeps-codegen_expr depth zero e lvalue = Keeps-stop too_deep Fails-too_deep
Keeps-codegen_expr depth (suc fuel) (expr_at loc own form) lvalue =
    Keeps-codegen_form depth _ (λ e' l. Keeps-codegen_expr depth fuel e' l) own form lvalue

pub Keeps-codegen_expr_top :
    (depth fuel : ℕ) (e : Expr) (lvalue : Bool) (hint : Option LowType)
    → Keeps (codegen_expr_top depth fuel e lvalue hint)
unfolding codegen_expr_top
Keeps-codegen_expr_top depth fuel e lvalue hint =
    Keeps-bind _ _ (Keeps-prepare_expr depth fuel e hint)
      (λ e'. Keeps-bind _ _ (Keeps-codegen_expr depth fuel e' lvalue) (λ v. Keeps-pure _))
