-- ===== src/Codegen/Flow/Slices.antt =====
-- src/codegen_index_slice_expr.c: the blocks while slices are generated.
use low.Prelude.{ℕ, refl, Bool, false, [], ◌∷◌}
use low.Ast.LowType.{
  LowType, no_type, void_type, boolean_type, placeholder_type, integer_type, float_type, func_type,
  named_type, struct_type, array_type, slice_type, interface_type,
}
use low.Ast.Tree.{
  Expr, OptExpr, null_expr, expr_ptr, IndexSliceKind, slice_range, slice_prefix, slice_postfix,
  slice_copy,
}
use low.Codegen.Llvm.{ValueRef}
use low.Codegen.State.{M}
use low.Codegen.Flow.Keeps.{Keeps, Runs-bind, Runs-append, Runs-position, Runs-do_build, Keeps-Runs}
use low.Codegen.Flow.Parts.{flow, Keeps-codegen_type}
use low.Codegen.Exprs.Slices.{
  slice_index, with_length, slice_part, slice_slice, index_or, element_of, length_of, slice_array,
  slice_of, codegen_index_slice_expr,
}

module _ (d : ℕ) (g : Expr → Bool → M ValueRef)
    (keeps : (e : Expr) (l : Bool) → Keeps (g e l)) where
  Keeps-slice_index : (e : OptExpr) → Keeps (slice_index d g e)
  Keeps-slice_index null_expr = search flow
  Keeps-slice_index (expr_ptr e) = search (flow, keeps) depth 8

  Keeps-with_length : (target slice nlen : ValueRef) → Keeps (with_length d g target slice nlen)
  Keeps-with_length target slice nlen = record {
    runs = λ ps fs. Runs-bind _ _ (Keeps-Runs ps fs (search flow)) (λ cond.
        Runs-bind _ _ (Runs-append ps fs) (λ x. Runs-bind _ _ (Runs-append (x ∷ ps) fs) (λ y.
          Runs-bind _ _ (Runs-append (y ∷ x ∷ ps) fs) (λ z.
            Runs-bind _ _ (Runs-do_build (z ∷ y ∷ x ∷ ps) fs _ refl) (λ _.
              Runs-bind _ _ (Runs-position (z ∷ y ∷ []) ps fs x) (λ _.
                Runs-bind _ _ (Keeps-Runs (z ∷ y ∷ ps) fs (search flow)) (λ len.
                  Runs-bind _ _ (Runs-do_build (z ∷ y ∷ ps) fs _ refl) (λ _.
                    Runs-bind _ _ (Runs-position (z ∷ []) ps fs y) (λ _.
                      Runs-bind _ _ (Runs-do_build (z ∷ ps) fs _ refl) (λ _.
                        Runs-bind _ _ (Runs-position [] ps fs z)
                          (λ _. Keeps-Runs ps fs (search flow))))))))))));
  }

  Keeps-slice_part : (v : ValueRef) (s e : OptExpr) → Keeps (slice_part d g v s e)
  Keeps-slice_part v s e = search (flow, Keeps-slice_index, Keeps-with_length) depth 40

  Keeps-slice_slice :
      (t : Expr) (s e : OptExpr) (k : IndexSliceKind) → Keeps (slice_slice d g t s e k)
  Keeps-slice_slice t s e slice_copy = search (flow, keeps) depth 8
  Keeps-slice_slice t s e slice_range = search (flow, keeps, Keeps-slice_part) depth 8
  Keeps-slice_slice t s e slice_prefix = search (flow, keeps, Keeps-slice_part) depth 8
  Keeps-slice_slice t s e slice_postfix = search (flow, keeps, Keeps-slice_part) depth 8

  Keeps-index_or : (e : OptExpr) (v : ValueRef) → Keeps (index_or d g e v)
  Keeps-index_or null_expr v = search flow
  Keeps-index_or (expr_ptr e) v = keeps e false

  Keeps-element_of : (t : LowType) → Keeps (element_of d g t)
  Keeps-element_of (no_type p) = search flow
  Keeps-element_of (void_type p) = search flow
  Keeps-element_of (boolean_type p) = search flow
  Keeps-element_of (placeholder_type p) = search flow
  Keeps-element_of (integer_type p w) = search flow
  Keeps-element_of (float_type p w) = search flow
  Keeps-element_of (named_type p n) = search flow
  Keeps-element_of (func_type p r ts) = search flow
  Keeps-element_of (struct_type p n ms) = search flow
  Keeps-element_of (array_type p t n) = search flow
  Keeps-element_of (slice_type p t) = search flow
  Keeps-element_of (interface_type p ms) = search flow

  Keeps-length_of : (t : LowType) → Keeps (length_of d g t)
  Keeps-length_of (no_type p) = search flow
  Keeps-length_of (void_type p) = search flow
  Keeps-length_of (boolean_type p) = search flow
  Keeps-length_of (placeholder_type p) = search flow
  Keeps-length_of (integer_type p w) = search flow
  Keeps-length_of (float_type p w) = search flow
  Keeps-length_of (named_type p n) = search flow
  Keeps-length_of (func_type p r ts) = search flow
  Keeps-length_of (struct_type p n ms) = search flow
  Keeps-length_of (array_type p t n) = search flow
  Keeps-length_of (slice_type p t) = search flow
  Keeps-length_of (interface_type p ms) = search flow

  Keeps-slice_array : (own : LowType) (t : Expr) (s e : OptExpr) → Keeps (slice_array d g own t s e)
  Keeps-slice_array own t s e =
      search (flow, keeps, Keeps-element_of, Keeps-length_of, Keeps-codegen_type, Keeps-index_or)
        depth 40

  Keeps-slice_of :
      (type own : LowType) (t : Expr) (s e : OptExpr) (k : IndexSliceKind)
      → Keeps (slice_of d g type own t s e k)
  Keeps-slice_of (no_type p) own v s e k = search flow
  Keeps-slice_of (void_type p) own v s e k = search flow
  Keeps-slice_of (boolean_type p) own v s e k = search flow
  Keeps-slice_of (placeholder_type p) own v s e k = search flow
  Keeps-slice_of (integer_type p w) own v s e k = search flow
  Keeps-slice_of (float_type p w) own v s e k = search flow
  Keeps-slice_of (named_type p n) own v s e k = search flow
  Keeps-slice_of (func_type p r ts) own v s e k = search flow
  Keeps-slice_of (struct_type p n ms) own v s e k = search flow
  Keeps-slice_of (array_type p t n) own v s e k = Keeps-slice_array own v s e
  Keeps-slice_of (slice_type p t) own v s e k = Keeps-slice_slice v s e k
  Keeps-slice_of (interface_type p ms) own v s e k = search flow

  pub Keeps-codegen_index_slice_expr :
      (own : LowType) (t : Expr) (s e : OptExpr) (k : IndexSliceKind)
      → Keeps (codegen_index_slice_expr d g own t s e k)
  Keeps-codegen_index_slice_expr own t s e k = search (flow, Keeps-slice_of) depth 8
