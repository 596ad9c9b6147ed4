-- ===== src/Codegen/Flow/Places.antt =====
-- src/codegen_*.c: the blocks while names, members and elements are generated.
use low.Prelude.{ℕ, Bool, Option, none, some, Bytes}
use low.Ast.LowType.{
  LowType, no_type, void_type, boolean_type, placeholder_type, integer_type, float_type, func_type,
  named_type, struct_type, array_type, slice_type, interface_type, InterfaceMembers,
}
use low.Ast.Tree.{Expr}
use low.Codegen.Llvm.{ValueRef}
use low.Codegen.State.{
  CodegenSymbol, SymbolKind, invalid_symbol, func_symbol, implementation_symbol,
  interface_function_symbol, DeclRef, no_decl, a_variable, a_const, an_implementation, M,
}
use low.Codegen.Flow.Keeps.{Keeps}
use low.Codegen.Flow.Parts.{flow, Keeps-load_unless, Keeps-build_assert}
use low.Codegen.Exprs.Places.{
  asserted, pointee, known_symbol, address_in, slice_address, kind_address, element_address,
  codegen_const, value_or_const, symbol_value, codegen_ident_expr, codegen_index_access_expr,
  interface_address, interface_member_address, struct_member_address, member_address,
  codegen_member_access_expr,
}

Keeps-asserted : (o : Option (ℕ × LowType)) → Keeps (asserted o)
Keeps-asserted none = search flow
Keeps-asserted (some m) = search flow

Keeps-pointee : (d : ℕ) (t : LowType) → Keeps (pointee d t)
Keeps-pointee d t = search flow depth 8

Keeps-known_symbol : (o : Option CodegenSymbol) → Keeps (known_symbol o)
Keeps-known_symbol none = search flow
Keeps-known_symbol (some s) = search flow

Keeps-address_in : (t : LowType) (name : Bytes) (v : ValueRef) → Keeps (address_in t name v)
Keeps-address_in (no_type p) name v = search flow
Keeps-address_in (void_type p) name v = search flow
Keeps-address_in (boolean_type p) name v = search flow
Keeps-address_in (placeholder_type p) name v = search flow
Keeps-address_in (integer_type p w) name v = search flow
Keeps-address_in (float_type p w) name v = search flow
Keeps-address_in (named_type p s) name v = search flow
Keeps-address_in (func_type p r ts) name v = search flow
Keeps-address_in (struct_type p n ms) name v = search (flow, Keeps-asserted) depth 8
Keeps-address_in (array_type p t n) name v = search flow
Keeps-address_in (slice_type p t) name v = search flow
Keeps-address_in (interface_type p ms) name v = search flow

Keeps-slice_address : (target index : ValueRef) → Keeps (slice_address target index)
Keeps-slice_address target index = search (flow, Keeps-build_assert) depth 16

Keeps-kind_address : (t : LowType) (target index : ValueRef) → Keeps (kind_address t target index)
Keeps-kind_address (no_type p) target index = search flow depth 6
Keeps-kind_address (void_type p) target index = search flow depth 6
Keeps-kind_address (boolean_type p) target index = search flow depth 6
Keeps-kind_address (placeholder_type p) target index = search flow depth 6
Keeps-kind_address (integer_type p w) target index = search flow depth 6
Keeps-kind_address (float_type p w) target index = search flow depth 6
Keeps-kind_address (named_type p n) target index = search flow depth 6
Keeps-kind_address (func_type p r ts) target index = search flow depth 6
Keeps-kind_address (struct_type p n ms) target index = search flow depth 6
Keeps-kind_address (array_type p t n) target index = search flow depth 6
Keeps-kind_address (slice_type p t) target index = Keeps-slice_address target index
Keeps-kind_address (interface_type p ms) target index = search flow depth 6

Keeps-element_address :
    (t : LowType) (target index : ValueRef) → Keeps (element_address t target index)
Keeps-element_address t target index = search (flow, Keeps-kind_address) depth 6

module _ (d : ℕ) (g : Expr → Bool → M ValueRef)
    (keeps : (e : Expr) (l : Bool) → Keeps (g e l)) where
  Keeps-codegen_const : (decl : DeclRef) (b : Bool) → Keeps (codegen_const d g decl b)
  Keeps-codegen_const no_decl b = search flow
  Keeps-codegen_const a_variable b = search flow
  Keeps-codegen_const (a_const i) b = search (flow, keeps) depth 8
  Keeps-codegen_const (an_implementation i t ms) b = search flow

  Keeps-value_or_const :
      (symbol : CodegenSymbol) (v : Option ValueRef) (b : Bool)
      → Keeps (value_or_const d g symbol v b)
  Keeps-value_or_const symbol none b = Keeps-codegen_const symbol.decl b
  Keeps-value_or_const symbol (some v) b = Keeps-load_unless b v

  Keeps-symbol_value :
      (k : SymbolKind) (symbol : CodegenSymbol) (b : Bool) → Keeps (symbol_value d g k symbol b)
  Keeps-symbol_value invalid_symbol symbol b = Keeps-value_or_const symbol symbol.value b
  Keeps-symbol_value func_symbol symbol b = search flow
  Keeps-symbol_value implementation_symbol symbol b = Keeps-value_or_const symbol symbol.value b
  Keeps-symbol_value interface_function_symbol symbol b = Keeps-value_or_const symbol symbol.value b

  pub Keeps-codegen_ident_expr : (name : Bytes) (b : Bool) → Keeps (codegen_ident_expr d g name b)
  Keeps-codegen_ident_expr name b = search (flow, Keeps-known_symbol, Keeps-symbol_value) depth 16

  pub Keeps-codegen_index_access_expr :
      (t i : Expr) (b : Bool) → Keeps (codegen_index_access_expr d g t i b)
  Keeps-codegen_index_access_expr t i b =
      search (flow, keeps, Keeps-element_address, Keeps-load_unless) depth 16

  Keeps-interface_address : (t : Expr) (i : ℕ) → Keeps (interface_address d g t i)
  Keeps-interface_address t i = search (flow, keeps) depth 20

  Keeps-interface_member_address :
      (ms : InterfaceMembers) (t : Expr) (name : Bytes)
      → Keeps (interface_member_address d g ms t name)
  Keeps-interface_member_address ms t name =
      search (flow, Keeps-asserted, Keeps-interface_address) depth 12

  Keeps-struct_member_address :
      (st stderef : LowType) (t : Expr) (name : Bytes)
      → Keeps (struct_member_address d g st stderef t name)
  Keeps-struct_member_address st stderef t name = search (flow, keeps, Keeps-address_in) depth 12

  Keeps-member_address :
      (st stderef : LowType) (t : Expr) (name : Bytes)
      → Keeps (member_address d g st stderef t name)
  Keeps-member_address (no_type p) stderef e name =
      Keeps-struct_member_address (no_type p) stderef e name
  Keeps-member_address (void_type p) stderef e name =
      Keeps-struct_member_address (void_type p) stderef e name
  Keeps-member_address (boolean_type p) stderef e name =
      Keeps-struct_member_address (boolean_type p) stderef e name
  Keeps-member_address (placeholder_type p) stderef e name =
      Keeps-struct_member_address (placeholder_type p) stderef e name
  Keeps-member_address (integer_type p w) stderef e name =
      Keeps-struct_member_address (integer_type p w) stderef e name
  Keeps-member_address (float_type p w) stderef e name =
      Keeps-struct_member_address (float_type p w) stderef e name
  Keeps-member_address (named_type p s) stderef e name =
      Keeps-struct_member_address (named_type p s) stderef e name
  Keeps-member_address (func_type p r ts) stderef e name =
      Keeps-struct_member_address (func_type p r ts) stderef e name
  Keeps-member_address (struct_type p n ms) stderef e name =
      Keeps-struct_member_address (struct_type p n ms) stderef e name
  Keeps-member_address (array_type p t n) stderef e name =
      Keeps-struct_member_address (array_type p t n) stderef e name
  Keeps-member_address (slice_type p t) stderef e name =
      Keeps-struct_member_address (slice_type p t) stderef e name
  Keeps-member_address (interface_type p ms) stderef e name =
      Keeps-interface_member_address ms e name

  pub Keeps-codegen_member_access_expr :
      (t : Expr) (name : Bytes) (b : Bool) → Keeps (codegen_member_access_expr d g t name b)
  Keeps-codegen_member_access_expr t name b =
      search (flow, Keeps-pointee, Keeps-member_address, Keeps-load_unless) depth 14
