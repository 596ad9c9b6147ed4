-- ===== src/Codegen/Flow/Casts.antt =====
-- src/codegen_cast_expr.c, src/codegen_builtin_expr.c: the blocks while casts and builtins are generated.
use low.Prelude.{ℕ, refl, Bool, true, false, Option, none, some, Bytes, if◌then◌else◌, ltb}
use low.Ast.LowType.{
  LowType, no_type, void_type, boolean_type, placeholder_type, integer_type, float_type, func_type,
  named_type, struct_type, array_type, slice_type, interface_type, Types, StructMembers,
  InterfaceMembers, no_interface, member_field, member_func, unset_field, unset_func,
}
use low.Ast.Tree.{Expr, OptExpr, null_expr, expr_ptr, LencapKind}
use low.Codegen.Llvm.{
  ValueRef, TypeRef, Call, cast, ptr_to_int, int_cast, icmp, int_sgt, const_null, llvm_type_of,
  zext,
}
use low.Codegen.State.{Outcome, ok, derror, M}
use low.Codegen.Flow.Keeps.{Keeps, Keeps-bind, Keeps-pure, Keeps-lift-build, Plain}
use low.Codegen.Flow.Parts.{flow, Keeps-codegen_type, Keeps-member_args, Keeps-codegen_array_new}
use low.Codegen.Context.{pointer_of}
use low.Codegen.Exprs.Casts.{
  required, cast_call, plain_cast, table_function, table_field, table_fields, table_value,
  interface_value, cast_to_interface, cast_value, cast_unless, codegen_cast_expr,
}
use low.Codegen.Exprs.Builtins.{
  codegen_new_builtin_expr, codegen_free_builtin_expr, slice_element, codegen_make_builtin_expr,
  codegen_lencap_builtin_expr, codegen_dispose_builtin_expr,
}

Keeps-required : {A : Type 0} (o : Option A) → Keeps (required o)
Keeps-required none = search flow
Keeps-required (some a) = search flow

Plain-if : (b : Bool) (x y : Outcome Call) → Plain x → Plain y → Plain (if b then x else y)
Plain-if true x y hx hy = hx
Plain-if false x y hx hy = hy

-- What a pointer, an integer and a Boolean are cast to.
Plain-from_pointer :
    (to : LowType) (v : ValueRef) (dst : TypeRef)
    → Plain (elim to [ integer_type p w ↦ ok (cast ptr_to_int v dst) | _ ↦ derror ])
Plain-from_pointer (no_type p) v dst = tt
Plain-from_pointer (void_type p) v dst = tt
Plain-from_pointer (boolean_type p) v dst = tt
Plain-from_pointer (placeholder_type p) v dst = tt
Plain-from_pointer (integer_type p w) v dst = refl
Plain-from_pointer (float_type p w) v dst = tt
Plain-from_pointer (named_type p n) v dst = tt
Plain-from_pointer (func_type p r ts) v dst = tt
Plain-from_pointer (struct_type p n ms) v dst = tt
Plain-from_pointer (array_type p t n) v dst = tt
Plain-from_pointer (slice_type p t) v dst = tt
Plain-from_pointer (interface_type p ms) v dst = tt

Plain-from_integer :
    (to : LowType) (v : ValueRef) (dst : TypeRef)
    → Plain (elim to [
      | integer_type q w ↦ ok (cast int_cast v dst)
      | boolean_type q ↦ ok (icmp int_sgt v (const_null (llvm_type_of v)))
      | _ ↦ derror
    ])
Plain-from_integer (no_type p) v dst = tt
Plain-from_integer (void_type p) v dst = tt
Plain-from_integer (boolean_type p) v dst = refl
Plain-from_integer (placeholder_type p) v dst = tt
Plain-from_integer (integer_type p w) v dst = refl
Plain-from_integer (float_type p w) v dst = tt
Plain-from_integer (named_type p n) v dst = tt
Plain-from_integer (func_type p r ts) v dst = tt
Plain-from_integer (struct_type p n ms) v dst = tt
Plain-from_integer (array_type p t n) v dst = tt
Plain-from_integer (slice_type p t) v dst = tt
Plain-from_integer (interface_type p ms) v dst = tt

Plain-from_boolean :
    (to : LowType) (v : ValueRef) (dst : TypeRef)
    → Plain (elim to [ integer_type q w ↦ ok (cast zext v dst) | _ ↦ derror ])
Plain-from_boolean (no_type p) v dst = tt
Plain-from_boolean (void_type p) v dst = tt
Plain-from_boolean (boolean_type p) v dst = tt
Plain-from_boolean (placeholder_type p) v dst = tt
Plain-from_boolean (integer_type p w) v dst = refl
Plain-from_boolean (float_type p w) v dst = tt
Plain-from_boolean (named_type p n) v dst = tt
Plain-from_boolean (func_type p r ts) v dst = tt
Plain-from_boolean (struct_type p n ms) v dst = tt
Plain-from_boolean (array_type p t n) v dst = tt
Plain-from_boolean (slice_type p t) v dst = tt
Plain-from_boolean (interface_type p ms) v dst = tt

Plain-cast_call :
    (from to : LowType) (v : ValueRef) (dst : TypeRef) → Plain (cast_call from to v dst)
Plain-cast_call (no_type p) to v dst =
    Plain-if (ltb 0 p) _ _ (Plain-if (ltb 0 (pointer_of to)) _ _ refl (Plain-from_pointer to v dst))
      (tt)
Plain-cast_call (void_type p) to v dst =
    Plain-if (ltb 0 p) _ _ (Plain-if (ltb 0 (pointer_of to)) _ _ refl (Plain-from_pointer to v dst))
      (tt)
Plain-cast_call (boolean_type p) to v dst =
    Plain-if (ltb 0 p) _ _ (Plain-if (ltb 0 (pointer_of to)) _ _ refl (Plain-from_pointer to v dst))
      (Plain-if (ltb 0 (pointer_of to)) _ _ tt (Plain-from_boolean to v dst))
Plain-cast_call (placeholder_type p) to v dst =
    Plain-if (ltb 0 p) _ _ (Plain-if (ltb 0 (pointer_of to)) _ _ refl (Plain-from_pointer to v dst))
      (tt)
Plain-cast_call (integer_type p w) to v dst =
    Plain-if (ltb 0 p) _ _ (Plain-if (ltb 0 (pointer_of to)) _ _ refl (Plain-from_pointer to v dst))
      (Plain-if (ltb 0 (pointer_of to)) _ _ refl (Plain-from_integer to v dst))
Plain-cast_call (float_type p w) to v dst =
    Plain-if (ltb 0 p) _ _ (Plain-if (ltb 0 (pointer_of to)) _ _ refl (Plain-from_pointer to v dst))
      (tt)
Plain-cast_call (named_type p n) to v dst =
    Plain-if (ltb 0 p) _ _ (Plain-if (ltb 0 (pointer_of to)) _ _ refl (Plain-from_pointer to v dst))
      (tt)
Plain-cast_call (func_type p r ts) to v dst =
    Plain-if (ltb 0 p) _ _ (Plain-if (ltb 0 (pointer_of to)) _ _ refl (Plain-from_pointer to v dst))
      (tt)
Plain-cast_call (struct_type p n ms) to v dst =
    Plain-if (ltb 0 p) _ _ (Plain-if (ltb 0 (pointer_of to)) _ _ refl (Plain-from_pointer to v dst))
      (tt)
Plain-cast_call (array_type p t n) to v dst =
    Plain-if (ltb 0 p) _ _ (Plain-if (ltb 0 (pointer_of to)) _ _ refl (Plain-from_pointer to v dst))
      (tt)
Plain-cast_call (slice_type p t) to v dst =
    Plain-if (ltb 0 p) _ _ (Plain-if (ltb 0 (pointer_of to)) _ _ refl (Plain-from_pointer to v dst))
      (tt)
Plain-cast_call (interface_type p ms) to v dst =
    Plain-if (ltb 0 p) _ _ (Plain-if (ltb 0 (pointer_of to)) _ _ refl (Plain-from_pointer to v dst))
      (tt)

Keeps-plain_cast :
    (from to : LowType) (v : ValueRef) (dst : TypeRef) → Keeps (plain_cast from to v dst)
Keeps-plain_cast from to v dst =
    Keeps-lift-build (cast_call from to v dst) (Plain-cast_call from to v dst)

module _ (d : ℕ) (g : Expr → Bool → M ValueRef)
    (keeps : (e : Expr) (l : Bool) → Keeps (g e l)) where
  Keeps-table_function :
      (i t : LowType) (n : Bytes) (r : LowType) (ts : Types) → Keeps (table_function d g i t n r ts)
  Keeps-table_function i t n r ts =
      search (flow, Keeps-required, Keeps-member_args, Keeps-codegen_type) depth 24

  Keeps-table_field :
      (ms : StructMembers) (n : Bytes) (t : LowType) (v : ValueRef)
      → Keeps (table_field d g ms n t v)
  Keeps-table_field ms n t v = search (flow, Keeps-required) depth 14

  Keeps-table_fields :
      (i t : LowType) (ms : StructMembers) (v : ValueRef) (members : InterfaceMembers)
      → Keeps (table_fields d g i t ms v members)
  unfolding table_fields
  Keeps-table_fields i t ms v no_interface = search flow
  Keeps-table_fields i t ms v (member_func n r ts rest) =
      Keeps-bind _ _ (Keeps-table_function i t n r ts)
        (λ w. Keeps-bind _ _ (Keeps-table_fields i t ms v rest) (λ ws. Keeps-pure _))
  Keeps-table_fields i t ms v (member_field n u rest) =
      Keeps-bind _ _ (Keeps-table_field ms n u v)
        (λ w. Keeps-bind _ _ (Keeps-table_fields i t ms v rest) (λ ws. Keeps-pure _))
  Keeps-table_fields i t ms v (unset_field n u rest) = search flow
  Keeps-table_fields i t ms v (unset_func n r ts rest) = search flow

  Keeps-table_value :
      (i t : LowType) (ms : StructMembers) (v : ValueRef) (dst : TypeRef)
      (members : InterfaceMembers)
      → Keeps (table_value d g i t ms v dst members)
  Keeps-table_value i t ms v dst members = search (flow, Keeps-table_fields) depth 20

  Keeps-interface_value :
      (i u t : LowType) (v : ValueRef) (dst : TypeRef) (members : InterfaceMembers)
      → Keeps (interface_value d g i u t v dst members)
  Keeps-interface_value i u (no_type p) v dst members = search flow
  Keeps-interface_value i u (void_type p) v dst members = search flow
  Keeps-interface_value i u (boolean_type p) v dst members = search flow
  Keeps-interface_value i u (placeholder_type p) v dst members = search flow
  Keeps-interface_value i u (integer_type p w) v dst members = search flow
  Keeps-interface_value i u (float_type p w) v dst members = search flow
  Keeps-interface_value i u (named_type p n) v dst members = search flow
  Keeps-interface_value i u (func_type p r ts) v dst members = search flow
  Keeps-interface_value i u (struct_type p n ms) v dst members =
      Keeps-table_value i u ms v dst members
  Keeps-interface_value i u (array_type p t n) v dst members = search flow
  Keeps-interface_value i u (slice_type p t) v dst members = search flow
  Keeps-interface_value i u (interface_type p ms) v dst members = search flow

  Keeps-cast_to_interface :
      (i from : LowType) (v : ValueRef) (dst : TypeRef) (members : InterfaceMembers)
      → Keeps (cast_to_interface d g i from v dst members)
  Keeps-cast_to_interface i from v dst members = search (flow, Keeps-interface_value) depth 12

  Keeps-cast_value :
      (i from to : LowType) (v : ValueRef) (dst : TypeRef) → Keeps (cast_value d g i from to v dst)
  Keeps-cast_value i from (no_type p) v dst = Keeps-plain_cast from (no_type p) v dst
  Keeps-cast_value i from (void_type p) v dst = Keeps-plain_cast from (void_type p) v dst
  Keeps-cast_value i from (boolean_type p) v dst = Keeps-plain_cast from (boolean_type p) v dst
  Keeps-cast_value i from (placeholder_type p) v dst =
      Keeps-plain_cast from (placeholder_type p) v dst
  Keeps-cast_value i from (integer_type p w) v dst = Keeps-plain_cast from (integer_type p w) v dst
  Keeps-cast_value i from (float_type p w) v dst = Keeps-plain_cast from (float_type p w) v dst
  Keeps-cast_value i from (named_type p n) v dst = Keeps-plain_cast from (named_type p n) v dst
  Keeps-cast_value i from (func_type p r ts) v dst = Keeps-plain_cast from (func_type p r ts) v dst
  Keeps-cast_value i from (struct_type p n ms) v dst =
      Keeps-plain_cast from (struct_type p n ms) v dst
  Keeps-cast_value i from (array_type p t n) v dst = Keeps-plain_cast from (array_type p t n) v dst
  Keeps-cast_value i from (slice_type p t) v dst = Keeps-plain_cast from (slice_type p t) v dst
  Keeps-cast_value i from (interface_type p ms) v dst = Keeps-cast_to_interface i from v dst ms

  Keeps-cast_unless :
      (b : Bool) (i from to : LowType) (v : ValueRef) (dst : TypeRef)
      → Keeps (cast_unless d g b i from to v dst)
  Keeps-cast_unless true i from to v dst = search flow
  Keeps-cast_unless false i from to v dst = search (flow, Keeps-cast_value) depth 20

  pub Keeps-codegen_cast_expr :
      (e : Expr) (t : LowType) (b : Bool) → Keeps (codegen_cast_expr d g e t b)
  Keeps-codegen_cast_expr e t b =
      search (flow, keeps, Keeps-codegen_type, Keeps-cast_unless) depth 20

  pub Keeps-codegen_new_builtin_expr :
      (t : LowType) (e : OptExpr) → Keeps (codegen_new_builtin_expr d g t e)
  Keeps-codegen_new_builtin_expr t null_expr = search (flow, Keeps-codegen_type) depth 12
  Keeps-codegen_new_builtin_expr t (expr_ptr e) =
      search (flow, keeps, Keeps-codegen_type, Keeps-codegen_array_new) depth 12

  pub Keeps-codegen_free_builtin_expr : (e : Expr) → Keeps (codegen_free_builtin_expr d g e)
  Keeps-codegen_free_builtin_expr e = search (flow, keeps) depth 8

  Keeps-slice_element : (t : LowType) → Keeps (slice_element d g t)
  Keeps-slice_element (no_type p) = search flow
  Keeps-slice_element (void_type p) = search flow
  Keeps-slice_element (boolean_type p) = search flow
  Keeps-slice_element (placeholder_type p) = search flow
  Keeps-slice_element (integer_type p w) = search flow
  Keeps-slice_element (float_type p w) = search flow
  Keeps-slice_element (named_type p n) = search flow
  Keeps-slice_element (func_type p r ts) = search flow
  Keeps-slice_element (struct_type p n ms) = search flow
  Keeps-slice_element (array_type p t n) = search flow
  Keeps-slice_element (slice_type p t) = search flow
  Keeps-slice_element (interface_type p ms) = search flow

  pub Keeps-codegen_make_builtin_expr :
      (t : LowType) (e : Expr) → Keeps (codegen_make_builtin_expr d g t e)
  Keeps-codegen_make_builtin_expr t e =
      search (flow, keeps, Keeps-slice_element, Keeps-codegen_type, Keeps-codegen_array_new) depth
        40

  pub Keeps-codegen_lencap_builtin_expr :
      (k : LencapKind) (e : Expr) → Keeps (codegen_lencap_builtin_expr d g k e)
  Keeps-codegen_lencap_builtin_expr k e = search (flow, keeps) depth 8

  pub Keeps-codegen_dispose_builtin_expr : (e : Expr) → Keeps (codegen_dispose_builtin_expr d g e)
  Keeps-codegen_dispose_builtin_expr e = search (flow, keeps) depth 20
