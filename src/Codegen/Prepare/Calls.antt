-- ===== src/Codegen/Prepare/Calls.antt =====
-- src/codegen_*.c: the functions prepare_..._expr for names, calls, members, indices and builtins.
use low.Prelude.{
  ℕ, Bool, true, false, ◌||◌, Option, none, some, Bytes, codes, str_equal, if◌then◌else◌, ltb,
}
use low.Ast.LowType.{
  LowType, void_type, boolean_type, func_type, struct_type, array_type, slice_type, interface_type,
  Types, no_types, type_and, InterfaceMembers,
}
use low.Ast.Tree.{
  Loc, Expr, expr_at, OptExpr, null_expr, expr_ptr, Exprs, no_exprs, expr_and, ident_expr,
  call_expr, member_access_expr, index_access_expr, index_slice_expr, IndexSliceKind, new_builtin,
  free_builtin, dispose_builtin, make_builtin, lencap_builtin, LencapKind,
}
use low.Codegen.Llvm.{ValueRef}
use low.Codegen.State.{
  CodegenSymbol, SymbolKind, func_symbol, interface_function_symbol, DeclRef, a_const, derror,
  invalid, M, pure, stop, check, lift, valid, ◌>>=◌, ◌>>◌,
}
use low.Codegen.Context.{pointer_of, more_pointer, less_pointer, resolve, lookup, copy}
use low.Codegen.Prepare.Views.{
  type_of, int_type, struct_member, interface_field, interface_func, read_const, write_const,
}

abbrev pub is_true_or_false : Bytes → Bool
is_true_or_false ident = str_equal ident (codes "true") || str_equal ident (codes "false")

-- Type and place of a member that has to be there.
abbrev pub found : Option (ℕ × LowType) → M (ℕ × LowType)
found none = stop derror
found (some m) = pure m

-- The types that an array, a slice or a pointer is indexed to, and that is sliced to.
abbrev pub indexed_kind : LowType → M LowType
indexed_kind (array_type p t n) = copy t
indexed_kind (slice_type p t) = copy t
indexed_kind _ = stop derror

abbrev pub indexed_type : LowType → M LowType
indexed_type target =
    if ltb 0 (pointer_of target)
    then (copy target >>= λ t. pure (less_pointer t))
    else indexed_kind target

-- `target` is as it is written and `resolved` what its name leads to.
abbrev pub sliced_type : LowType → LowType → M LowType
sliced_type target (slice_type p t) = copy target
sliced_type target (array_type p t n) = copy t >>= λ u. pure (slice_type 0 u)
sliced_type target _ = stop derror

abbrev pub is_slice : LowType → Bool
is_slice (slice_type p t) = true
is_slice _ = false

-- A member of what a pointer to a struct points to, or of the struct.
abbrev pub of_struct : Bytes → LowType → M LowType
of_struct name (struct_type p n ms) = do m ← found (struct_member 0 name ms); copy m.1
of_struct name _ = stop derror

abbrev pub member_of_interface : Bytes → ℕ → InterfaceMembers → M LowType
member_of_interface name p ms = do
  check (if ltb 0 p then false else true) derror
  o ← lift (interface_field 0 name ms)
  m ← found o
  copy m.1

abbrev pub member_of_struct : ℕ → Bytes → LowType → M LowType
member_of_struct depth name st =
    if ltb 0 (pointer_of st)
    then (resolve depth (less_pointer st) >>= of_struct name)
    else of_struct name st

abbrev pub member_type : ℕ → Bytes → LowType → M LowType
member_type depth name (interface_type p ms) = member_of_interface name p ms
member_type depth name st = member_of_struct depth name st

abbrev pub func_type_of : CodegenSymbol → M LowType
func_type_of symbol = do t ← valid symbol.type; u ← copy t; pure (more_pointer u)

abbrev pub known : Option CodegenSymbol → M CodegenSymbol
known none = stop derror
known (some symbol) = pure symbol

abbrev pub func_parts : Option LowType → M (LowType × Types)
func_parts (some (func_type p r ts)) = pure (r, ts)
func_parts _ = stop derror

abbrev pub interface_parts : Option LowType → ℕ → M (LowType × Types)
interface_parts (some (interface_type p ms)) member = do
  f ← lift (interface_func member ms)
  pure (f.1, f.2)
interface_parts _ member = stop invalid

abbrev pub callee : SymbolKind → CodegenSymbol → M (LowType × Types)
callee interface_function_symbol symbol = interface_parts symbol.interface symbol.member
callee _ symbol = func_parts symbol.type

module _ (prepare : Expr → Option LowType → M Expr) (depth : ℕ) where
  abbrev pub prepare_const : DeclRef → Option LowType → M LowType
  prepare_const (a_const i) type_hint = do
    e ← read_const i
    e' ← prepare e type_hint
    write_const i e'
    copy (type_of e')
  prepare_const _ type_hint = stop derror

  -- A variable, or a constant without a type.
  abbrev pub value_type : CodegenSymbol → Option ValueRef → Option LowType → M LowType
  value_type symbol (some v) type_hint = valid symbol.type >>= λ t. copy t
  value_type symbol none type_hint = prepare_const symbol.decl type_hint

  abbrev pub ident_type : SymbolKind → CodegenSymbol → Option LowType → M LowType
  ident_type func_symbol symbol type_hint = func_type_of symbol
  ident_type _ symbol type_hint = value_type symbol symbol.value type_hint

  abbrev pub prepare_ident_expr : Loc → LowType → Bytes → Option LowType → M Expr
  prepare_ident_expr loc old ident type_hint =
      if is_true_or_false ident
      then pure (expr_at loc (boolean_type (pointer_of old)) (ident_expr ident))
      else do
        o ← lookup ident
        symbol ← known o
        type ← ident_type symbol.kind symbol type_hint
        pure (expr_at loc type (ident_expr ident))

  -- Each argument with the type of its parameter; beyond the parameters the code reads past them.
  unfoldable pub prepare_args : Exprs → Types → M Exprs
  prepare_args no_exprs ts = pure no_exprs
  prepare_args (expr_and e es) no_types = stop invalid
  prepare_args (expr_and e es) (type_and t ts) = do
    e' ← prepare e (some t)
    es' ← prepare_args es ts
    pure (expr_and e' es')

  -- Only names can be called: the others end with one error or another.
  abbrev pub prepare_call_expr : Loc → Expr → Exprs → M Expr
  prepare_call_expr loc (expr_at l t (ident_expr ident)) args = do
    o ← lookup ident
    symbol ← known o
    parts ← callee symbol.kind symbol
    type ← copy parts.0
    args' ← prepare_args args parts.1
    pure (expr_at loc type (call_expr (expr_at l t (ident_expr ident)) args'))
  prepare_call_expr loc (expr_at l t (member_access_expr target name)) args = do
    e ← prepare target none
    intf ← resolve depth (type_of e)
    stop derror
  prepare_call_expr loc target args = stop derror

  abbrev pub prepare_member_access_expr : Loc → Expr → Bytes → M Expr
  prepare_member_access_expr loc target name = do
    e ← prepare target none
    st ← resolve depth (type_of e)
    type ← member_type depth name st
    pure (expr_at loc type (member_access_expr e name))

  abbrev pub prepare_index_access_expr : Loc → Expr → Expr → M Expr
  prepare_index_access_expr loc target index = do
    e ← prepare target none
    i ← prepare index (some int_type)
    t ← resolve depth (type_of e)
    type ← indexed_type t
    pure (expr_at loc type (index_access_expr e i))

  abbrev pub prepare_opt : OptExpr → M OptExpr
  prepare_opt null_expr = pure null_expr
  prepare_opt (expr_ptr e) = prepare e (some int_type) >>= λ e'. pure (expr_ptr e')

  abbrev pub prepare_index_slice_expr : Loc → Expr → OptExpr → OptExpr → IndexSliceKind → M Expr
  prepare_index_slice_expr loc target start end kind = do
    e ← prepare target none
    s ← prepare_opt start
    t ← prepare_opt end
    resolved ← resolve depth (type_of e)
    type ← sliced_type (type_of e) resolved
    pure (expr_at loc type (index_slice_expr e s t kind))

  abbrev pub prepare_new_builtin_expr : Loc → LowType → OptExpr → M Expr
  prepare_new_builtin_expr loc type size = do
    s ← prepare_opt size
    copied ← copy type
    pure (expr_at loc (more_pointer copied) (new_builtin type s))

  abbrev pub prepare_free_builtin_expr : Loc → LowType → Expr → M Expr
  prepare_free_builtin_expr loc old inner = do
    e ← prepare inner none
    check (ltb 0 (pointer_of (type_of e))) derror
    pure (expr_at loc (void_type (pointer_of old)) (free_builtin e))

  abbrev pub prepare_make_builtin_expr : Loc → LowType → Expr → M Expr
  prepare_make_builtin_expr loc type size = do
    resolved ← resolve depth type
    check (is_slice resolved) derror
    s ← prepare size (some int_type)
    copied ← copy type
    pure (expr_at loc copied (make_builtin type s))

  abbrev pub prepare_lencap_builtin_expr : Loc → LencapKind → Expr → M Expr
  prepare_lencap_builtin_expr loc kind inner = do
    e ← prepare inner none
    resolved ← resolve depth (type_of e)
    check (is_slice resolved) derror
    pure (expr_at loc int_type (lencap_builtin kind e))

  abbrev pub prepare_dispose_builtin_expr : Loc → LowType → Expr → M Expr
  prepare_dispose_builtin_expr loc old inner = do
    e ← prepare inner none
    resolved ← resolve depth (type_of e)
    check (is_slice resolved) derror
    pure (expr_at loc (void_type (pointer_of old)) (dispose_builtin e))
