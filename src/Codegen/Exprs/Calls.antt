-- ===== src/Codegen/Exprs/Calls.antt =====
-- src/codegen_call_expr.c: calls of functions and of members of interfaces.
use low.Prelude.{ℕ, suc, ◌+◌, Bool, true, false, Option, none, some, Bytes, ◌==◌, if◌then◌else◌}
use low.Ast.LowType.{
  LowType, func_type, interface_type, placeholder_type, Types, no_types, type_and, num_args,
}
use low.Ast.Tree.{Expr, expr_at, ident_expr, Exprs, no_exprs, expr_and, num_exprs}
use low.Codegen.Llvm.{
  ValueRef, ValueRefs, no_values, value_and, llvm_type_of, call, alloca, store, load, extract_value,
}
use low.Codegen.State.{
  CodegenSymbol, SymbolKind, func_symbol, interface_function_symbol, derror, aborts, invalid, M,
  pure, stop, lift, valid, check, build, do_build, ◌>>=◌, ◌>>◌,
}
use low.Codegen.Context.{resolve, lookup, equal}
use low.Codegen.Prepare.Views.{type_of, interface_func, nth_expr}

-- The place of the first placeholder.
unfoldable pub placeholder_index : ℕ → Types → Option ℕ
placeholder_index i no_types = none
placeholder_index i (type_and (placeholder_type p) ts) = some i
placeholder_index i (type_and t ts) = placeholder_index (suc i) ts

abbrev pub known_place : Option ℕ → M ℕ
known_place none = stop derror
known_place (some i) = pure i

abbrev pub is_interface : LowType → Bool
is_interface (interface_type p ms) = true
is_interface _ = false

-- `sym->type->kind`
abbrev pub is_function_symbol : Option LowType → M (Unit {0})
is_function_symbol none = stop invalid
is_function_symbol (some (func_type p r ts)) = pure tt
is_function_symbol (some t) = stop derror

abbrev pub parts_of : Option LowType → ℕ → M (Bytes × LowType × Types)
parts_of (some (interface_type p ms)) member = lift (interface_func member ms)
parts_of _ member = stop invalid

abbrev pub called : Option CodegenSymbol → M CodegenSymbol
called none = stop derror
called (some symbol) = pure symbol

-- A result that is asked for as an lvalue gets a place of its own.
abbrev pub in_memory : Bool → ValueRef → M ValueRef
in_memory false value = pure value
in_memory true value = do
  ptr ← build (alloca (llvm_type_of value))
  do_build (store value ptr)
  pure ptr

abbrev pub load_pointer : Option ValueRef → M ValueRef
load_pointer value = do v ← valid value; build (load v)

abbrev pub function_pointer : SymbolKind → Option ValueRef → M ValueRef
function_pointer func_symbol value = valid value
function_pointer _ value = load_pointer value

module _ (depth : ℕ) (generate : Expr → Bool → M ValueRef) where
  unfoldable pub codegen_args : Exprs → M ValueRefs
  codegen_args no_exprs = pure no_values
  codegen_args (expr_and e es) = do
    v ← generate e false
    vs ← codegen_args es
    pure (value_and v vs)

  -- The arguments from place i on, with the object in the place of the placeholder.
  unfoldable pub codegen_args_but : ℕ → ValueRef → ℕ → Exprs → M ValueRefs
  codegen_args_but place object_ptr i no_exprs = pure no_values
  codegen_args_but place object_ptr i (expr_and e es) = do
    v ← (if i == place then pure object_ptr else generate e false)
    vs ← codegen_args_but place object_ptr (suc i) es
    pure (value_and v vs)

  -- `ph`, which has to be an interface of the type of the symbol.
  abbrev pub check_placeholder : Expr → Option LowType → M (Unit {0})
  check_placeholder ph interface = do
    type ← resolve depth (type_of ph)
    check (is_interface type) derror
    intf ← valid interface
    same_type ← equal type intf
    check same_type derror

  abbrev pub call_member : CodegenSymbol → Exprs → M ValueRef
  call_member symbol args = do
    parts ← parts_of symbol.interface symbol.member
    check (num_args parts.2 == num_exprs args) derror
    place ← known_place (placeholder_index 0 parts.2)
    ph ← valid (nth_expr place args)
    check_placeholder ph symbol.interface
    target ← generate ph false
    table_ptr ← build (extract_value target 0)
    object_ptr ← build (extract_value target 1)
    table ← build (load table_ptr)
    member_func ← build (extract_value table (1 + symbol.member))
    vs ← codegen_args_but place object_ptr 0 args
    build (call member_func vs)

  abbrev pub call_function : CodegenSymbol → Exprs → M ValueRef
  call_function symbol args = do
    is_function_symbol symbol.type
    funcptr ← function_pointer symbol.kind symbol.value
    vs ← codegen_args args
    build (call funcptr vs)

  abbrev pub call_symbol : SymbolKind → CodegenSymbol → Exprs → M ValueRef
  call_symbol interface_function_symbol symbol args = call_member symbol args
  call_symbol _ symbol args = call_function symbol args

  abbrev pub call_named : Bytes → Exprs → Bool → M ValueRef
  call_named ident args lvalue = do
    o ← lookup ident
    symbol ← called o
    value ← call_symbol symbol.kind symbol args
    in_memory lvalue value

  abbrev pub codegen_call_expr : Expr → Exprs → Bool → M ValueRef
  codegen_call_expr (expr_at l t (ident_expr ident)) args lvalue = call_named ident args lvalue
  codegen_call_expr target args lvalue = stop aborts
