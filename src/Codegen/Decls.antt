-- ===== src/Codegen/Decls.antt =====
-- src/codegen.c: `codegen_decl`.
use low.Prelude.{
  ℕ, true, false, List, [], ◌∷◌, ◌++◌, Option, none, some, Bytes, length, if◌then◌else◌,
}
use low.Ast.LowType.{LowType}
use low.Ast.Tree.{
  Expr, OptExpr, null_expr, expr_ptr, Decl, variable_decl, const_decl, implementation_decl,
}
use low.Codegen.Llvm.{TypeRef, ValueRef, const_null, alloca, store}
use low.Codegen.State.{
  CodegenSymbol, invalid_symbol, implementation_symbol, DeclRef, a_variable, a_const,
  an_implementation, ok, derror, aborts, M, stop, check, build, do_build, ◌>>=◌, ◌>>◌,
}
use low.Codegen.Context.{is_no_type, add_symbol, copy, equal}
use low.Codegen.Types.{codegen_type}
use low.Codegen.Prepare.Views.{type_of}
use low.Codegen.Exprs.Builders.{new_global}
use low.Codegen.Exprs.Run.{codegen_expr_top}

abbrev pub symbol_of : Option Bytes → Option LowType → Option ValueRef → DeclRef → CodegenSymbol
symbol_of name type value decl = record {
  kind = invalid_symbol;
  name = name;
  type = type;
  value = value;
  decl = decl;
  interface = none;
  member = 0;
}

abbrev pub add_const : Expr → M ℕ
add_const e st = ok (length st.consts, record st { consts = st.consts ++ (e ∷ []) })

module _ (depth fuel : ℕ) where
  -- The first value of a variable whose type is given.
  abbrev pub store_initial : LowType → TypeRef → ValueRef → OptExpr → M (Unit {0})
  store_initial type var_type var null_expr = do_build (store (const_null var_type) var)
  store_initial type var_type var (expr_ptr e) = do
    r ← codegen_expr_top depth fuel e false (some type)
    same_type ← equal type (type_of r.1)
    check same_type derror
    do_build (store r.0 var)

  abbrev pub typed_variable : LowType → Bytes → OptExpr → M (Unit {0})
  typed_variable type name initial = do
    var_type ← codegen_type depth type
    var ← build (alloca var_type)
    add_symbol (symbol_of (some name) (some type) (some var) a_variable)
    store_initial type var_type var initial

  abbrev pub inferred_variable : Bytes → OptExpr → M (Unit {0})
  inferred_variable name null_expr = stop aborts
  inferred_variable name (expr_ptr e) = do
    r ← codegen_expr_top depth fuel e false none
    check (if is_no_type (type_of r.1) then false else true) derror
    type ← copy (type_of r.1)
    var_type ← codegen_type depth type
    var ← build (alloca var_type)
    do_build (store r.0 var)
    add_symbol (symbol_of (some name) (some type) (some var) a_variable)

  abbrev pub codegen_const_decl : Bytes → Option LowType → Expr → M (Unit {0})
  codegen_const_decl name none e = do
    i ← add_const e
    add_symbol (symbol_of (some name) none none (a_const i))
  codegen_const_decl name (some type) e = do
    r ← codegen_expr_top depth fuel e false (some type)
    t ← codegen_type depth type
    value ← new_global t r.0
    i ← add_const r.1
    add_symbol (symbol_of (some name) (some type) (some value) (a_const i))

  abbrev pub implementation : LowType → LowType → List (Bytes × Bytes) → CodegenSymbol
  implementation interface target mappings = record {
    kind = implementation_symbol;
    name = none;
    type = none;
    value = none;
    decl = an_implementation interface target mappings;
    interface = none;
    member = 0;
  }

  unfoldable pub codegen_decl : Decl → M (Unit {0})
  codegen_decl (variable_decl loc type name initial) =
      if is_no_type type then inferred_variable name initial else typed_variable type name initial
  codegen_decl (const_decl loc name type value) = codegen_const_decl name type value
  codegen_decl (implementation_decl loc interface target mappings) =
      add_symbol (implementation interface target mappings)
