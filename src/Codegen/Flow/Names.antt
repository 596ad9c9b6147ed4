-- ===== src/Codegen/Flow/Names.antt =====
-- src/codegen_*.c: the blocks while the types of names, calls, members and builtins are determined.
use low.Prelude.{ℕ, zero, suc, Option, none, some, Bytes}
use low.Ast.LowType.{
  LowType, no_type, void_type, boolean_type, placeholder_type, integer_type, float_type, func_type,
  named_type, struct_type, array_type, slice_type, interface_type, Types, no_types, type_and,
}
use low.Ast.Tree.{
  Loc, Expr, expr_at, ExprForm, OptExpr, null_expr, expr_ptr, Exprs, no_exprs, expr_and, ident_expr,
  string_literal_expr, number_literal_expr, index_access_expr, index_slice_expr, call_expr,
  member_access_expr, incdec_expr, unary_expr, sizeof_expr, sizeof_type, cast_expr, binary_expr,
  conditional_expr, assignment_expr, comma_expr, new_builtin, free_builtin, dispose_builtin,
  make_builtin, lencap_builtin,
}
use low.Codegen.Llvm.{ValueRef}
use low.Codegen.State.{
  CodegenSymbol, SymbolKind, invalid_symbol, func_symbol, implementation_symbol,
  interface_function_symbol, DeclRef, no_decl, a_variable, a_const, an_implementation, M,
}
use low.Codegen.Prepare.Calls.{
  found, indexed_type, indexed_kind, sliced_type, of_struct, member_of_struct, member_type,
  func_type_of, prepare_const, ident_type, value_type, known, prepare_ident_expr, prepare_args,
  func_parts, interface_parts, callee, prepare_call_expr, prepare_opt,
}
use low.Codegen.Prepare.Run.{prepare_form, prepare_expr}
use low.Codegen.Flow.Keeps.{Keeps, Keeps-bind, Keeps-pure, Keeps-stop, Fails-too_deep}
use low.Codegen.Flow.Parts.{flow}
use low.Codegen.Flow.Prepare

Keeps-found : (o : Option (ℕ × LowType)) → Keeps (found o)
Keeps-found none = search flow
Keeps-found (some m) = search flow

Keeps-known : (o : Option CodegenSymbol) → Keeps (known o)
Keeps-known none = search flow
Keeps-known (some s) = search flow

Keeps-of_struct : (name : Bytes) (t : LowType) → Keeps (of_struct name t)
Keeps-of_struct name (no_type p) = search flow
Keeps-of_struct name (void_type p) = search flow
Keeps-of_struct name (boolean_type p) = search flow
Keeps-of_struct name (placeholder_type p) = search flow
Keeps-of_struct name (integer_type p w) = search flow
Keeps-of_struct name (float_type p w) = search flow
Keeps-of_struct name (named_type p n) = search flow
Keeps-of_struct name (func_type p r ts) = search flow
Keeps-of_struct name (struct_type p n ms) = search (flow, Keeps-found) depth 8
Keeps-of_struct name (array_type p t n) = search flow
Keeps-of_struct name (slice_type p t) = search flow
Keeps-of_struct name (interface_type p ms) = search flow

Keeps-indexed_kind : (t : LowType) → Keeps (indexed_kind t)
Keeps-indexed_kind (no_type p) = search flow
Keeps-indexed_kind (void_type p) = search flow
Keeps-indexed_kind (boolean_type p) = search flow
Keeps-indexed_kind (placeholder_type p) = search flow
Keeps-indexed_kind (integer_type p w) = search flow
Keeps-indexed_kind (float_type p w) = search flow
Keeps-indexed_kind (named_type p n) = search flow
Keeps-indexed_kind (func_type p r ts) = search flow
Keeps-indexed_kind (struct_type p n ms) = search flow
Keeps-indexed_kind (array_type p t n) = search flow
Keeps-indexed_kind (slice_type p t) = search flow
Keeps-indexed_kind (interface_type p ms) = search flow

Keeps-indexed_type : (t : LowType) → Keeps (indexed_type t)
Keeps-indexed_type t = search (flow, Keeps-indexed_kind) depth 8

Keeps-sliced_type : (u t : LowType) → Keeps (sliced_type u t)
Keeps-sliced_type u (no_type p) = search flow
Keeps-sliced_type u (void_type p) = search flow
Keeps-sliced_type u (boolean_type p) = search flow
Keeps-sliced_type u (placeholder_type p) = search flow
Keeps-sliced_type u (integer_type p w) = search flow
Keeps-sliced_type u (float_type p w) = search flow
Keeps-sliced_type u (named_type p n) = search flow
Keeps-sliced_type u (func_type p r ts) = search flow
Keeps-sliced_type u (struct_type p n ms) = search flow
Keeps-sliced_type u (array_type p t n) = search flow
Keeps-sliced_type u (slice_type p t) = search flow
Keeps-sliced_type u (interface_type p ms) = search flow

Keeps-member_of_struct :
    (depth : ℕ) (name : Bytes) (t : LowType) → Keeps (member_of_struct depth name t)
Keeps-member_of_struct depth name t = search (flow, Keeps-of_struct) depth 8

Keeps-member_type : (depth : ℕ) (name : Bytes) (t : LowType) → Keeps (member_type depth name t)
Keeps-member_type depth name (no_type p) = Keeps-member_of_struct depth name (no_type p)
Keeps-member_type depth name (void_type p) = Keeps-member_of_struct depth name (void_type p)
Keeps-member_type depth name (boolean_type p) = Keeps-member_of_struct depth name (boolean_type p)
Keeps-member_type depth name (placeholder_type p) =
    Keeps-member_of_struct depth name (placeholder_type p)
Keeps-member_type depth name (integer_type p w) =
    Keeps-member_of_struct depth name (integer_type p w)
Keeps-member_type depth name (float_type p w) = Keeps-member_of_struct depth name (float_type p w)
Keeps-member_type depth name (named_type p n) = Keeps-member_of_struct depth name (named_type p n)
Keeps-member_type depth name (func_type p r ts) =
    Keeps-member_of_struct depth name (func_type p r ts)
Keeps-member_type depth name (struct_type p n ms) =
    Keeps-member_of_struct depth name (struct_type p n ms)
Keeps-member_type depth name (array_type p t n) =
    Keeps-member_of_struct depth name (array_type p t n)
Keeps-member_type depth name (slice_type p t) = Keeps-member_of_struct depth name (slice_type p t)
Keeps-member_type depth name (interface_type p ms) = search (flow, Keeps-found) depth 10

Keeps-func_parts : (t : Option LowType) → Keeps (func_parts t)
Keeps-func_parts none = search flow
Keeps-func_parts (some (no_type p)) = search flow
Keeps-func_parts (some (void_type p)) = search flow
Keeps-func_parts (some (boolean_type p)) = search flow
Keeps-func_parts (some (placeholder_type p)) = search flow
Keeps-func_parts (some (integer_type p w)) = search flow
Keeps-func_parts (some (float_type p w)) = search flow
Keeps-func_parts (some (named_type p n)) = search flow
Keeps-func_parts (some (func_type p r ts)) = search flow
Keeps-func_parts (some (struct_type p n ms)) = search flow
Keeps-func_parts (some (array_type p t n)) = search flow
Keeps-func_parts (some (slice_type p t)) = search flow
Keeps-func_parts (some (interface_type p ms)) = search flow

Keeps-interface_parts : (t : Option LowType) (i : ℕ) → Keeps (interface_parts t i)
Keeps-interface_parts none i = search flow
Keeps-interface_parts (some (no_type p)) i = search flow depth 8
Keeps-interface_parts (some (void_type p)) i = search flow depth 8
Keeps-interface_parts (some (boolean_type p)) i = search flow depth 8
Keeps-interface_parts (some (placeholder_type p)) i = search flow depth 8
Keeps-interface_parts (some (integer_type p w)) i = search flow depth 8
Keeps-interface_parts (some (float_type p w)) i = search flow depth 8
Keeps-interface_parts (some (named_type p n)) i = search flow depth 8
Keeps-interface_parts (some (func_type p r ts)) i = search flow depth 8
Keeps-interface_parts (some (struct_type p n ms)) i = search flow depth 8
Keeps-interface_parts (some (array_type p t n)) i = search flow depth 8
Keeps-interface_parts (some (slice_type p t)) i = search flow depth 8
Keeps-interface_parts (some (interface_type p ms)) i = search flow depth 8

Keeps-func_type_of : (symbol : CodegenSymbol) → Keeps (func_type_of symbol)
Keeps-func_type_of symbol = search flow depth 8

Keeps-callee : (k : SymbolKind) (symbol : CodegenSymbol) → Keeps (callee k symbol)
Keeps-callee invalid_symbol symbol = Keeps-func_parts symbol.type
Keeps-callee func_symbol symbol = Keeps-func_parts symbol.type
Keeps-callee implementation_symbol symbol = Keeps-func_parts symbol.type
Keeps-callee interface_function_symbol symbol = Keeps-interface_parts symbol.interface symbol.member

module _ (prepare : Expr → Option LowType → M Expr)
    (keeps : (e : Expr) (hint : Option LowType) → Keeps (prepare e hint)) (depth : ℕ) where
  Keeps-prepare_const :
      (d : DeclRef) (hint : Option LowType) → Keeps (prepare_const prepare depth d hint)
  Keeps-prepare_const no_decl hint = search flow
  Keeps-prepare_const a_variable hint = search flow
  Keeps-prepare_const (a_const i) hint = search (flow, keeps) depth 12
  Keeps-prepare_const (an_implementation i t ms) hint = search flow

  Keeps-value_type :
      (symbol : CodegenSymbol) (v : Option ValueRef) (hint : Option LowType)
      → Keeps (value_type prepare depth symbol v hint)
  Keeps-value_type symbol none hint = Keeps-prepare_const symbol.decl hint
  Keeps-value_type symbol (some v) hint = search flow depth 8

  Keeps-ident_type :
      (k : SymbolKind) (symbol : CodegenSymbol) (hint : Option LowType)
      → Keeps (ident_type prepare depth k symbol hint)
  Keeps-ident_type invalid_symbol symbol hint = Keeps-value_type symbol symbol.value hint
  Keeps-ident_type func_symbol symbol hint = Keeps-func_type_of symbol
  Keeps-ident_type implementation_symbol symbol hint = Keeps-value_type symbol symbol.value hint
  Keeps-ident_type interface_function_symbol symbol hint = Keeps-value_type symbol symbol.value hint

  Keeps-prepare_ident_expr :
      (loc : Loc) (old : LowType) (ident : Bytes) (hint : Option LowType)
      → Keeps (prepare_ident_expr prepare depth loc old ident hint)
  Keeps-prepare_ident_expr loc old ident hint =
      search (flow, Keeps-known, Keeps-ident_type) depth 12

  Keeps-prepare_args : (es : Exprs) (ts : Types) → Keeps (prepare_args prepare depth es ts)
  unfolding prepare_args
  Keeps-prepare_args no_exprs ts = search flow
  Keeps-prepare_args (expr_and e es) no_types = search flow
  Keeps-prepare_args (expr_and e es) (type_and t ts) =
      Keeps-bind _ _ (keeps e (some t))
        (λ e'. Keeps-bind _ _ (Keeps-prepare_args es ts) (λ es'. Keeps-pure _))

  Keeps-prepare_opt : (e : OptExpr) → Keeps (prepare_opt prepare depth e)
  Keeps-prepare_opt null_expr = search flow
  Keeps-prepare_opt (expr_ptr e) = search (flow, keeps)

  Keeps-prepare_call_expr :
      (loc : Loc) (target : Expr) (args : Exprs)
      → Keeps (prepare_call_expr prepare depth loc target args)
  Keeps-prepare_call_expr loc (expr_at l t form) args = call_form form
    where
      call_form :
          (form : ExprForm) → Keeps (prepare_call_expr prepare depth loc (expr_at l t form) args)
      call_form (ident_expr s) =
          search (flow, Keeps-known, Keeps-callee, Keeps-prepare_args) depth 16
      call_form (string_literal_expr s) = search flow
      call_form (number_literal_expr s radix) = search flow
      call_form (index_access_expr a b) = search flow
      call_form (index_slice_expr a b c k) = search flow
      call_form (call_expr f es) = search flow
      call_form (member_access_expr a name) = search (flow, keeps) depth 10
      call_form (incdec_expr a o d) = search flow
      call_form (unary_expr a op) = search flow
      call_form (sizeof_expr a) = search flow
      call_form (sizeof_type u) = search flow
      call_form (cast_expr a u) = search flow
      call_form (binary_expr a b op) = search flow
      call_form (conditional_expr a b c) = search flow
      call_form (assignment_expr a b op) = search flow
      call_form (comma_expr es) = search flow
      call_form (new_builtin u a) = search flow
      call_form (free_builtin a) = search flow
      call_form (dispose_builtin a) = search flow
      call_form (make_builtin u a) = search flow
      call_form (lencap_builtin k a) = search flow

  Keeps-prepare_form :
      (loc : Loc) (old : LowType) (form : ExprForm) (hint : Option LowType)
      → Keeps (prepare_form depth prepare loc old form hint)
  unfolding prepare_form
  Keeps-prepare_form loc old (ident_expr s) hint = Keeps-prepare_ident_expr loc old s hint
  Keeps-prepare_form loc old (string_literal_expr s) hint = Keeps-pure _
  Keeps-prepare_form loc old (number_literal_expr s radix) hint =
      Prepare.Keeps-prepare_number_literal_expr prepare keeps loc old s radix hint
  Keeps-prepare_form loc old (index_access_expr a b) hint =
      search (flow, keeps, Keeps-indexed_type) depth 14
  Keeps-prepare_form loc old (index_slice_expr a b c k) hint =
      search (flow, keeps, Keeps-prepare_opt, Keeps-sliced_type) depth 16
  Keeps-prepare_form loc old (call_expr f es) hint = Keeps-prepare_call_expr loc f es
  Keeps-prepare_form loc old (member_access_expr a name) hint =
      search (flow, keeps, Keeps-member_type) depth 14
  Keeps-prepare_form loc old (incdec_expr a o d) hint =
      Prepare.Keeps-prepare_incdec_expr prepare keeps loc a o d hint
  Keeps-prepare_form loc old (unary_expr a op) hint =
      Prepare.Keeps-prepare_unary_expr prepare keeps loc a op hint
  Keeps-prepare_form loc old (sizeof_expr a) hint =
      Prepare.Keeps-prepare_sizeof_expr prepare keeps loc old a hint
  Keeps-prepare_form loc old (sizeof_type u) hint =
      Prepare.Keeps-prepare_sizeof_type prepare keeps loc old u hint
  Keeps-prepare_form loc old (cast_expr a u) hint =
      Prepare.Keeps-prepare_cast_expr prepare keeps loc a u
  Keeps-prepare_form loc old (binary_expr a b op) hint =
      Prepare.Keeps-prepare_binary_expr prepare keeps loc a b op hint
  Keeps-prepare_form loc old (conditional_expr a b c) hint =
      Prepare.Keeps-prepare_conditional_expr prepare keeps loc a b c hint
  Keeps-prepare_form loc old (assignment_expr a b op) hint =
      Prepare.Keeps-prepare_assignment_expr prepare keeps loc a b op hint
  Keeps-prepare_form loc old (comma_expr es) hint =
      Prepare.Keeps-prepare_comma_expr prepare keeps loc es hint
  Keeps-prepare_form loc old (new_builtin u a) hint = search (flow, Keeps-prepare_opt) depth 14
  Keeps-prepare_form loc old (free_builtin a) hint = search (flow, keeps) depth 14
  Keeps-prepare_form loc old (dispose_builtin a) hint = search (flow, keeps) depth 14
  Keeps-prepare_form loc old (make_builtin u a) hint = search (flow, keeps) depth 14
  Keeps-prepare_form loc old (lencap_builtin k a) hint = search (flow, keeps) depth 14

pub Keeps-prepare_expr :
    (depth fuel : ℕ) (e : Expr) (hint : Option LowType) → Keeps (prepare_expr depth fuel e hint)
unfolding prepare_expr
Keeps-prepare_expr depth zero e hint = Keeps-stop _ Fails-too_deep
Keeps-prepare_expr depth (suc fuel) (expr_at loc old form) hint =
    Keeps-prepare_form (λ e h. prepare_expr depth fuel e h)
      (λ e h. Keeps-prepare_expr depth fuel e h) depth loc old form hint
