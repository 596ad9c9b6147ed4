-- ===== src/Codegen/Flow/Calls.antt =====
-- src/codegen_call_expr.c: the blocks while calls are generated.
use low.Prelude.{ℕ, suc, Bool, true, false, Option, none, some, Bytes}
use low.Ast.LowType.{
  LowType, no_type, void_type, boolean_type, placeholder_type, integer_type, float_type, func_type,
  named_type, struct_type, array_type, slice_type, interface_type,
}
use low.Ast.Tree.{
  Expr, expr_at, Exprs, no_exprs, expr_and, ident_expr, string_literal_expr, number_literal_expr,
  index_access_expr, index_slice_expr, call_expr, member_access_expr, incdec_expr, unary_expr,
  sizeof_expr, sizeof_type, cast_expr, binary_expr, conditional_expr, assignment_expr, comma_expr,
  new_builtin, free_builtin, dispose_builtin, make_builtin, lencap_builtin,
}
use low.Codegen.Llvm.{ValueRef}
use low.Codegen.State.{
  CodegenSymbol, SymbolKind, invalid_symbol, func_symbol, implementation_symbol,
  interface_function_symbol, M,
}
use low.Codegen.Flow.Keeps.{Keeps, Keeps-bind, Keeps-pure}
use low.Codegen.Flow.Parts.{flow}
use low.Codegen.Exprs.Calls.{
  known_place, is_function_symbol, parts_of, called, in_memory, function_pointer, codegen_args,
  codegen_args_but, check_placeholder, call_member, call_function, call_symbol, call_named,
  codegen_call_expr,
}

Keeps-known_place : (o : Option ℕ) → Keeps (known_place o)
Keeps-known_place none = search flow
Keeps-known_place (some i) = search flow

Keeps-is_function_symbol : (o : Option LowType) → Keeps (is_function_symbol o)
Keeps-is_function_symbol none = search flow
Keeps-is_function_symbol (some (no_type p)) = search flow
Keeps-is_function_symbol (some (void_type p)) = search flow
Keeps-is_function_symbol (some (boolean_type p)) = search flow
Keeps-is_function_symbol (some (placeholder_type p)) = search flow
Keeps-is_function_symbol (some (integer_type p w)) = search flow
Keeps-is_function_symbol (some (float_type p w)) = search flow
Keeps-is_function_symbol (some (named_type p n)) = search flow
Keeps-is_function_symbol (some (func_type p r ts)) = search flow
Keeps-is_function_symbol (some (struct_type p n ms)) = search flow
Keeps-is_function_symbol (some (array_type p t n)) = search flow
Keeps-is_function_symbol (some (slice_type p t)) = search flow
Keeps-is_function_symbol (some (interface_type p ms)) = search flow

Keeps-parts_of : (o : Option LowType) (m : ℕ) → Keeps (parts_of o m)
Keeps-parts_of none m = search flow
Keeps-parts_of (some (no_type p)) m = search flow
Keeps-parts_of (some (void_type p)) m = search flow
Keeps-parts_of (some (boolean_type p)) m = search flow
Keeps-parts_of (some (placeholder_type p)) m = search flow
Keeps-parts_of (some (integer_type p w)) m = search flow
Keeps-parts_of (some (float_type p w)) m = search flow
Keeps-parts_of (some (named_type p n)) m = search flow
Keeps-parts_of (some (func_type p r ts)) m = search flow
Keeps-parts_of (some (struct_type p n ms)) m = search flow
Keeps-parts_of (some (array_type p t n)) m = search flow
Keeps-parts_of (some (slice_type p t)) m = search flow
Keeps-parts_of (some (interface_type p ms)) m = search flow

Keeps-called : (o : Option CodegenSymbol) → Keeps (called o)
Keeps-called none = search flow
Keeps-called (some s) = search flow

Keeps-in_memory : (b : Bool) (v : ValueRef) → Keeps (in_memory b v)
Keeps-in_memory false v = search flow
Keeps-in_memory true v = search flow depth 10

Keeps-function_pointer : (k : SymbolKind) (v : Option ValueRef) → Keeps (function_pointer k v)
Keeps-function_pointer invalid_symbol v = search flow depth 8
Keeps-function_pointer func_symbol v = search flow depth 8
Keeps-function_pointer implementation_symbol v = search flow depth 8
Keeps-function_pointer interface_function_symbol v = search flow depth 8

module _ (d : ℕ) (g : Expr → Bool → M ValueRef)
    (keeps : (e : Expr) (l : Bool) → Keeps (g e l)) where
  Keeps-codegen_args : (es : Exprs) → Keeps (codegen_args d g es)
  unfolding codegen_args
  Keeps-codegen_args no_exprs = search flow
  Keeps-codegen_args (expr_and e es) =
      Keeps-bind _ _ (keeps e false)
        (λ v. Keeps-bind _ _ (Keeps-codegen_args es) (λ vs. Keeps-pure _))

  Keeps-codegen_args_but :
      (place : ℕ) (v : ValueRef) (i : ℕ) (es : Exprs) → Keeps (codegen_args_but d g place v i es)
  unfolding codegen_args_but
  Keeps-codegen_args_but place v i no_exprs = search flow
  Keeps-codegen_args_but place v i (expr_and e es) =
      Keeps-bind _ _ (search (flow, keeps))
        (λ w. Keeps-bind _ _ (Keeps-codegen_args_but place v (suc i) es) (λ vs. Keeps-pure _))

  Keeps-check_placeholder : (e : Expr) (i : Option LowType) → Keeps (check_placeholder d g e i)
  Keeps-check_placeholder e i = search flow depth 14

  Keeps-call_member : (s : CodegenSymbol) (es : Exprs) → Keeps (call_member d g s es)
  Keeps-call_member s es =
      search
        (
          flow, keeps, Keeps-parts_of, Keeps-known_place, Keeps-check_placeholder,
          Keeps-codegen_args_but,
        )
        depth 40

  Keeps-call_function : (s : CodegenSymbol) (es : Exprs) → Keeps (call_function d g s es)
  Keeps-call_function s es =
      search (flow, Keeps-is_function_symbol, Keeps-function_pointer, Keeps-codegen_args) depth 14

  Keeps-call_symbol :
      (k : SymbolKind) (s : CodegenSymbol) (es : Exprs) → Keeps (call_symbol d g k s es)
  Keeps-call_symbol invalid_symbol s es = Keeps-call_function s es
  Keeps-call_symbol func_symbol s es = Keeps-call_function s es
  Keeps-call_symbol implementation_symbol s es = Keeps-call_function s es
  Keeps-call_symbol interface_function_symbol s es = Keeps-call_member s es

  Keeps-call_named : (name : Bytes) (es : Exprs) (b : Bool) → Keeps (call_named d g name es b)
  Keeps-call_named name es b =
      search (flow, Keeps-called, Keeps-call_symbol, Keeps-in_memory) depth 12

  pub Keeps-codegen_call_expr :
      (t : Expr) (es : Exprs) (b : Bool) → Keeps (codegen_call_expr d g t es b)
  Keeps-codegen_call_expr (expr_at l t (ident_expr name)) es b = Keeps-call_named name es b
  Keeps-codegen_call_expr (expr_at l t (string_literal_expr s)) es b = search flow
  Keeps-codegen_call_expr (expr_at l t (number_literal_expr s r)) es b = search flow
  Keeps-codegen_call_expr (expr_at l t (index_access_expr x i)) es b = search flow
  Keeps-codegen_call_expr (expr_at l t (index_slice_expr x s e k)) es b = search flow
  Keeps-codegen_call_expr (expr_at l t (call_expr x a)) es b = search flow
  Keeps-codegen_call_expr (expr_at l t (member_access_expr x n)) es b = search flow
  Keeps-codegen_call_expr (expr_at l t (incdec_expr x r i)) es b = search flow
  Keeps-codegen_call_expr (expr_at l t (unary_expr x op)) es b = search flow
  Keeps-codegen_call_expr (expr_at l t (sizeof_expr x)) es b = search flow
  Keeps-codegen_call_expr (expr_at l t (sizeof_type u)) es b = search flow
  Keeps-codegen_call_expr (expr_at l t (cast_expr x u)) es b = search flow
  Keeps-codegen_call_expr (expr_at l t (binary_expr x y op)) es b = search flow
  Keeps-codegen_call_expr (expr_at l t (conditional_expr c x y)) es b = search flow
  Keeps-codegen_call_expr (expr_at l t (assignment_expr x v op)) es b = search flow
  Keeps-codegen_call_expr (expr_at l t (comma_expr xs)) es b = search flow
  Keeps-codegen_call_expr (expr_at l t (new_builtin u x)) es b = search flow
  Keeps-codegen_call_expr (expr_at l t (free_builtin x)) es b = search flow
  Keeps-codegen_call_expr (expr_at l t (dispose_builtin x)) es b = search flow
  Keeps-codegen_call_expr (expr_at l t (make_builtin u x)) es b = search flow
  Keeps-codegen_call_expr (expr_at l t (lencap_builtin k x)) es b = search flow
