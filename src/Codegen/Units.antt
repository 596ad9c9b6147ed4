-- ===== src/Codegen/Units.antt =====
-- src/codegen.c: units, and the order in which they are generated.
use low.Prelude.{
  ℕ, zero, suc, ◌+◌, Bool, true, false, List, [], ◌∷◌, ◌++◌, Option, none, some, Bytes, codes,
  str_equal, length, ltb, if◌then◌else◌,
}
use low.Ast.LowType.{LowType, void_type, func_type, Types, no_types, type_and}
use low.Ast.Tree.{
  null_stmt, stmt_ptr, Stmt, FuncUnit, UnitDecl, package_unit, decl_unit, func_unit, type_unit,
}
use low.Codegen.Llvm.{
  TypeRef, TypeRefs, no_refs, ref_and, llvm_function, ValueRef, function, function_param, Call,
  add_function, alloca, store, ret_void,
}
use low.Codegen.State.{
  CodegenSymbol, func_symbol, no_decl, Outcome, ok, derror, aborts, invalid, M, pure, stop, check,
  valid, build, do_build, ◌>>=◌, ◌>>◌, ◌>>>=◌,
}
use low.Codegen.Context.{add_symbol, enter_scope, leave_scope, lookup, copy}
use low.Codegen.Types.{codegen_type}
use low.Codegen.Decls.{codegen_decl, symbol_of}
use low.Codegen.Stmts.{codegen_stmt}

-- `mangle_func_name`: the name, in a buffer of 100 bytes, of a function in a package.
abbrev pub mangle_func_name : Option Bytes → Bytes → M Bytes
mangle_func_name none name = pure name
mangle_func_name (some pkg) name =
    if str_equal name (codes "main")
    then pure name
    else do check (ltb (length pkg + 1 + length name) 100) invalid; pure (pkg ++ codes "_" ++ name)

-- LLVMAddFunction.
abbrev pub new_function : Bytes → TypeRef → M ValueRef
new_function name type st = ok (
  function st.functions,
  record st { globals = st.globals ++ (add_function name type ∷ []); functions = suc st.functions },
)

-- The builder for a function begins in a new block; it is gone at the end. `verify` says whether LLVM
-- finds errors in the blocks.
abbrev pub begin_function : M (Unit {0})
begin_function st = ok (tt, record st { blocks = [] ∷ []; current = 0 })

abbrev pub end_function : (List (List Call) → Bool) → M (Unit {0})
end_function verify st =
    if verify st.blocks then derror else ok (tt, record st { blocks = []; current = 0 })

unfoldable pub copy_params : List (LowType × Option Bytes) → M Types
copy_params [] = pure no_types
copy_params ((t, name) ∷ params) = do u ← copy t; us ← copy_params params; pure (type_and u us)

unfoldable pub add_symbols : List CodegenSymbol → M (Unit {0})
add_symbols [] = pure tt
add_symbols (symbol ∷ symbols) = do add_symbol symbol; add_symbols symbols

abbrev pub is_void : LowType → Bool
is_void (void_type p) = true
is_void _ = false

module _ (depth fuel : ℕ) where
  -- The variables that hold the parameters. The code adds each to the context of the body as it comes;
  -- their types are looked up in the outer context.
  unfoldable pub store_params :
      ValueRef → ℕ → List (LowType × Option Bytes) → M (List CodegenSymbol)
  store_params func i [] = pure []
  store_params func i ((t, name) ∷ params) = do
    type ← codegen_type depth t
    var ← build (alloca type)
    do_build (store (function_param func i) var)
    symbols ← store_params func (suc i) params
    pure (symbol_of name (some t) (some var) no_decl ∷ symbols)

  -- `return` at the end of a function that returns nothing.
  abbrev pub final_return : Bool → LowType → M (Unit {0})
  final_return true type = pure tt
  final_return false type = do check (is_void type) derror; do_build ret_void

  -- What is generated between the new builder and the end.
  unfoldable pub generate_body : FuncUnit → ValueRef → Stmt → M (Unit {0})
  unfolding codegen_stmt
  generate_body func value body = do
    begin_function
    symbols ← store_params value 0 func.params
    enter_scope
    add_symbols symbols
    codegen_stmt depth fuel
        (record { break_block = none; continue_block = none; return_type = some func.return_type })
        body
    terminated ← leave_scope
    final_return terminated func.return_type

module _ (depth fuel : ℕ) (verify : List (List Call) → Bool) where
  unfoldable pub param_types : List (LowType × Option Bytes) → M TypeRefs
  param_types [] = pure no_refs
  param_types ((t, name) ∷ params) = do
    u ← codegen_type depth t
    us ← param_types params
    pure (ref_and u us)

  -- The declaration of a function.
  abbrev pub declare_func : Option Bytes → FuncUnit → M (Unit {0})
  declare_func pkg func = do
    params ← param_types func.params
    return_type ← codegen_type depth func.return_type
    fname ← mangle_func_name pkg func.name
    value ← new_function fname (llvm_function return_type params func.variadic)
    r ← copy func.return_type
    ts ← copy_params func.params
    let symbol = symbol_of (some func.name) (some (func_type 0 r ts)) (some value) no_decl
    add_symbol (record symbol { kind = func_symbol })

  abbrev pub define_body : FuncUnit → ValueRef → Stmt → M (Unit {0})
  define_body func value body = do generate_body depth fuel func value body; end_function verify

  abbrev pub func_value : Option CodegenSymbol → M (Option ValueRef)
  func_value none = stop aborts
  func_value (some symbol) = pure symbol.value

  -- A second function of one name would go on behind the first: there is one of each.
  abbrev pub define_func : FuncUnit → M (Unit {0})
  define_func func = do
    o ← lookup func.name
    value ← func_value o
    elim func.body [
      | null_stmt ↦ pure tt
      | stmt_ptr body ↦ valid value >>= λ v. define_body func v body
    ]

  -- The stages: types, declarations, and bodies.
  unfoldable pub codegen_unit : Option Bytes → ℕ → UnitDecl → M (Unit {0})
  codegen_unit pkg zero (type_unit loc t name) =
      add_symbol (symbol_of (some name) (some t) none no_decl)
  codegen_unit pkg (suc zero) (decl_unit loc d) = codegen_decl depth fuel d
  codegen_unit pkg (suc zero) (func_unit func) = declare_func pkg func
  codegen_unit pkg (suc (suc zero)) (func_unit func) = define_func func
  codegen_unit pkg stage unit = pure tt

  unfoldable pub codegen_stage : Option Bytes → ℕ → List UnitDecl → M (Unit {0})
  unfolding codegen_unit
  codegen_stage pkg stage [] = pure tt
  codegen_stage pkg stage (unit ∷ units) = do
    codegen_unit pkg stage unit
    codegen_stage pkg stage units

  unfoldable pub codegen_decls : Option Bytes → List UnitDecl → M (Unit {0})
  unfolding codegen_stage
  codegen_decls pkg units = do codegen_stage pkg 0 units; codegen_stage pkg 1 units

  unfoldable pub codegen_defs : Option Bytes → List UnitDecl → M (Unit {0})
  unfolding codegen_stage
  codegen_defs pkg units = codegen_stage pkg 2 units

  -- The package that the units name, at most once.
  unfoldable pub codegen_package : Option Bytes → List UnitDecl → Outcome (Option Bytes)
  codegen_package pkg [] = ok pkg
  codegen_package none (package_unit loc name ∷ units) = codegen_package (some name) units
  codegen_package (some pkg) (package_unit loc name ∷ units) = derror
  codegen_package pkg (unit ∷ units) = codegen_package pkg units

  unfoldable pub codegen : List UnitDecl → M (Unit {0})
  unfolding codegen_package codegen_decls codegen_defs
  codegen units st =
      codegen_package none units >>>= λ pkg. (codegen_decls pkg units >> codegen_defs pkg units) st
