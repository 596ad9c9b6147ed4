-- ===== src/Codegen/Flow/Decls.antt =====
-- src/codegen.c: the blocks while a declaration is generated.
use low.Prelude.{ℕ, refl, [], ◌∷◌, ◌++◌, Option, none, some, Bytes, length}
use low.Ast.LowType.{LowType}
use low.Ast.Tree.{
  Expr, OptExpr, null_expr, expr_ptr, Decl, variable_decl, const_decl, implementation_decl,
}
use low.Codegen.Llvm.{ValueRef, TypeRef}
use low.Codegen.Decls.{
  add_const, store_initial, typed_variable, inferred_variable, codegen_const_decl, codegen_decl,
}
use low.Codegen.Flow.Keeps.{Keeps}
use low.Codegen.Flow.Parts.{flow, changes, Keeps-codegen_type}
use low.Codegen.Flow.Exprs.{Keeps-codegen_expr_top}

Keeps-add_const : (e : Expr) → Keeps (add_const e)
Keeps-add_const e =
    changes (λ st. length st.consts) (λ st. record st { consts = st.consts ++ (e ∷ []) })
      (λ st. (refl, refl, refl))

module _ (d f : ℕ) where
  Keeps-store_initial :
      (t : LowType) (u : TypeRef) (v : ValueRef) (e : OptExpr) → Keeps (store_initial d f t u v e)
  Keeps-store_initial t u v null_expr = search flow depth 8
  Keeps-store_initial t u v (expr_ptr e) = search (flow, Keeps-codegen_expr_top) depth 14

  Keeps-typed_variable : (t : LowType) (n : Bytes) (e : OptExpr) → Keeps (typed_variable d f t n e)
  Keeps-typed_variable t n e = search (flow, Keeps-codegen_type, Keeps-store_initial) depth 14

  Keeps-inferred_variable : (n : Bytes) (e : OptExpr) → Keeps (inferred_variable d f n e)
  Keeps-inferred_variable n null_expr = search flow
  Keeps-inferred_variable n (expr_ptr e) =
      search (flow, Keeps-codegen_expr_top, Keeps-codegen_type) depth 20

  Keeps-codegen_const_decl :
      (n : Bytes) (t : Option LowType) (e : Expr) → Keeps (codegen_const_decl d f n t e)
  Keeps-codegen_const_decl n none e = search (flow, Keeps-add_const) depth 8
  Keeps-codegen_const_decl n (some t) e =
      search (flow, Keeps-add_const, Keeps-codegen_expr_top, Keeps-codegen_type) depth 20

  pub Keeps-codegen_decl : (decl : Decl) → Keeps (codegen_decl d f decl)
  unfolding codegen_decl
  Keeps-codegen_decl (variable_decl loc t n e) =
      search (flow, Keeps-inferred_variable, Keeps-typed_variable)
  Keeps-codegen_decl (const_decl loc n t e) = Keeps-codegen_const_decl n t e
  Keeps-codegen_decl (implementation_decl loc i t ms) = search flow
