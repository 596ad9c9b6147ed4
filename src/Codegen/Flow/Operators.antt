-- ===== src/Codegen/Flow/Operators.antt =====
-- src/codegen_*.c: the blocks while operators and literals are generated.
use low.Prelude.{ℕ, refl, Bool, true, false, [], ◌∷◌, Bytes}
use low.Ast.LowType.{
  LowType, no_type, void_type, boolean_type, placeholder_type, integer_type, float_type, func_type,
  named_type, struct_type, array_type, slice_type, interface_type,
}
use low.Ast.Tree.{
  Expr, Exprs, no_exprs, expr_and, BinaryOp, op_add, op_sub, op_mul, op_div, op_mod, op_left,
  op_right, op_lt, op_gt, op_le, op_ge, op_eq, op_ne, op_bitwise_and, op_bitwise_xor, op_bitwise_or,
  op_and, op_or, IncdecOrder, IncdecDirection, inc, dec, UnaryOp, op_address, op_deref, op_positive,
  op_negative, op_bitwise_not, op_not, AssignmentOp, op_assign, op_add_assign, op_and_assign,
  op_div_assign, op_left_assign, op_mod_assign, op_mul_assign, op_or_assign, op_right_assign,
  op_sub_assign, op_xor_assign,
}
use low.Codegen.Llvm.{ValueRef}
use low.Codegen.State.{M, build}
use low.Codegen.Flow.Keeps.{
  Keeps, Runs-bind, Runs-append, Runs-position, Runs-do_build, Keeps-Runs, Keeps-bind,
  Keeps-lift-build, Plain,
}
use low.Codegen.Flow.Parts.{flow, Keeps-codegen_type, Keeps-load_unless}
use low.Codegen.Prepare.Views.{type_of}
use low.Codegen.Exprs.Operators.{
  boolean_call, integer_call, float_call, binary_call, assignment_call, negate_call, incdec_call,
  codegen_binary_expr, assigned_value, codegen_assignment_expr, codegen_unary_expr,
  codegen_conditional_expr, codegen_incdec_expr, number_value, codegen_number_literal_expr,
  codegen_sizeof_expr, codegen_sizeof_type, codegen_commas, codegen_comma_expr,
}

-- The calls in the tables end no block.
Plain-boolean_call : (op : BinaryOp) (l r : ValueRef) → Plain (boolean_call op l r)
Plain-boolean_call op_add l r = tt
Plain-boolean_call op_sub l r = tt
Plain-boolean_call op_mul l r = tt
Plain-boolean_call op_div l r = tt
Plain-boolean_call op_mod l r = tt
Plain-boolean_call op_left l r = tt
Plain-boolean_call op_right l r = tt
Plain-boolean_call op_lt l r = tt
Plain-boolean_call op_gt l r = tt
Plain-boolean_call op_le l r = tt
Plain-boolean_call op_ge l r = tt
Plain-boolean_call op_eq l r = refl
Plain-boolean_call op_ne l r = refl
Plain-boolean_call op_bitwise_and l r = tt
Plain-boolean_call op_bitwise_xor l r = tt
Plain-boolean_call op_bitwise_or l r = tt
Plain-boolean_call op_and l r = refl
Plain-boolean_call op_or l r = refl

Plain-integer_call : (op : BinaryOp) (l r : ValueRef) → Plain (integer_call op l r)
Plain-integer_call op_add l r = refl
Plain-integer_call op_sub l r = refl
Plain-integer_call op_mul l r = refl
Plain-integer_call op_div l r = refl
Plain-integer_call op_mod l r = refl
Plain-integer_call op_left l r = refl
Plain-integer_call op_right l r = refl
Plain-integer_call op_lt l r = refl
Plain-integer_call op_gt l r = refl
Plain-integer_call op_le l r = refl
Plain-integer_call op_ge l r = refl
Plain-integer_call op_eq l r = refl
Plain-integer_call op_ne l r = refl
Plain-integer_call op_bitwise_and l r = refl
Plain-integer_call op_bitwise_xor l r = refl
Plain-integer_call op_bitwise_or l r = refl
Plain-integer_call op_and l r = tt
Plain-integer_call op_or l r = tt

Plain-float_call : (op : BinaryOp) (l r : ValueRef) → Plain (float_call op l r)
Plain-float_call op_add l r = refl
Plain-float_call op_sub l r = refl
Plain-float_call op_mul l r = refl
Plain-float_call op_div l r = refl
Plain-float_call op_mod l r = refl
Plain-float_call op_left l r = tt
Plain-float_call op_right l r = tt
Plain-float_call op_lt l r = refl
Plain-float_call op_gt l r = refl
Plain-float_call op_le l r = refl
Plain-float_call op_ge l r = refl
Plain-float_call op_eq l r = refl
Plain-float_call op_ne l r = refl
Plain-float_call op_bitwise_and l r = tt
Plain-float_call op_bitwise_xor l r = tt
Plain-float_call op_bitwise_or l r = tt
Plain-float_call op_and l r = tt
Plain-float_call op_or l r = tt

Plain-binary_call : (t : LowType) (op : BinaryOp) (x y : ValueRef) → Plain (binary_call t op x y)
Plain-binary_call (no_type p) op x y = tt
Plain-binary_call (void_type p) op x y = tt
Plain-binary_call (boolean_type p) op x y = Plain-boolean_call op x y
Plain-binary_call (placeholder_type p) op x y = tt
Plain-binary_call (integer_type p w) op x y = Plain-integer_call op x y
Plain-binary_call (float_type p w) op x y = Plain-float_call op x y
Plain-binary_call (named_type p n) op x y = tt
Plain-binary_call (func_type p r ts) op x y = tt
Plain-binary_call (struct_type p n ms) op x y = tt
Plain-binary_call (array_type p t n) op x y = tt
Plain-binary_call (slice_type p t) op x y = tt
Plain-binary_call (interface_type p ms) op x y = tt

Plain-assignment_call : (op : AssignmentOp) (l r : ValueRef) → Plain (assignment_call op l r)
Plain-assignment_call op_assign l r = tt
Plain-assignment_call op_add_assign l r = refl
Plain-assignment_call op_and_assign l r = tt
Plain-assignment_call op_div_assign l r = refl
Plain-assignment_call op_left_assign l r = tt
Plain-assignment_call op_mod_assign l r = tt
Plain-assignment_call op_mul_assign l r = refl
Plain-assignment_call op_or_assign l r = tt
Plain-assignment_call op_right_assign l r = tt
Plain-assignment_call op_sub_assign l r = refl
Plain-assignment_call op_xor_assign l r = tt

Plain-negate_call : (t : LowType) (v : ValueRef) → Plain (negate_call t v)
Plain-negate_call (no_type p) v = tt
Plain-negate_call (void_type p) v = tt
Plain-negate_call (boolean_type p) v = tt
Plain-negate_call (placeholder_type p) v = tt
Plain-negate_call (integer_type p w) v = refl
Plain-negate_call (float_type p w) v = refl
Plain-negate_call (named_type p n) v = tt
Plain-negate_call (func_type p r ts) v = tt
Plain-negate_call (struct_type p n ms) v = tt
Plain-negate_call (array_type p t n) v = tt
Plain-negate_call (slice_type p t) v = tt
Plain-negate_call (interface_type p ms) v = tt

Keeps-incdec_call : (o : IncdecDirection) (v w : ValueRef) → Keeps (build (incdec_call o v w))
Keeps-incdec_call inc v w = search flow
Keeps-incdec_call dec v w = search flow

module _ (d : ℕ) (g : Expr → Bool → M ValueRef)
    (keeps : (e : Expr) (l : Bool) → Keeps (g e l)) where
  pub Keeps-codegen_binary_expr :
      (l r : Expr) (op : BinaryOp) (b : Bool) → Keeps (codegen_binary_expr d g l r op b)
  Keeps-codegen_binary_expr l r op b = Keeps-bind _ _ (search flow) (λ _.
      Keeps-bind _ _ (search flow) (λ same. Keeps-bind _ _ (search flow) (λ _.
        Keeps-bind _ _ (search flow) (λ _. Keeps-bind _ _ (keeps l false) (λ x.
          Keeps-bind _ _ (keeps r false) (λ y.
            Keeps-lift-build (binary_call (type_of l) op x y)
              (Plain-binary_call (type_of l) op x y)))))))

  Keeps-assigned_value : (op : AssignmentOp) (l r : ValueRef) → Keeps (assigned_value d g op l r)
  Keeps-assigned_value op_assign l r = search flow
  Keeps-assigned_value op_add_assign l r = Keeps-bind _ _ (search flow) (λ v.
      Keeps-lift-build (assignment_call op_add_assign v r)
        (Plain-assignment_call op_add_assign v r))
  Keeps-assigned_value op_and_assign l r = Keeps-bind _ _ (search flow) (λ v.
      Keeps-lift-build (assignment_call op_and_assign v r)
        (Plain-assignment_call op_and_assign v r))
  Keeps-assigned_value op_div_assign l r = Keeps-bind _ _ (search flow) (λ v.
      Keeps-lift-build (assignment_call op_div_assign v r)
        (Plain-assignment_call op_div_assign v r))
  Keeps-assigned_value op_left_assign l r = Keeps-bind _ _ (search flow) (λ v.
      Keeps-lift-build (assignment_call op_left_assign v r)
        (Plain-assignment_call op_left_assign v r))
  Keeps-assigned_value op_mod_assign l r = Keeps-bind _ _ (search flow) (λ v.
      Keeps-lift-build (assignment_call op_mod_assign v r)
        (Plain-assignment_call op_mod_assign v r))
  Keeps-assigned_value op_mul_assign l r = Keeps-bind _ _ (search flow) (λ v.
      Keeps-lift-build (assignment_call op_mul_assign v r)
        (Plain-assignment_call op_mul_assign v r))
  Keeps-assigned_value op_or_assign l r = Keeps-bind _ _ (search flow) (λ v.
      Keeps-lift-build (assignment_call op_or_assign v r) (Plain-assignment_call op_or_assign v r))
  Keeps-assigned_value op_right_assign l r = Keeps-bind _ _ (search flow) (λ v.
      Keeps-lift-build (assignment_call op_right_assign v r)
        (Plain-assignment_call op_right_assign v r))
  Keeps-assigned_value op_sub_assign l r = Keeps-bind _ _ (search flow) (λ v.
      Keeps-lift-build (assignment_call op_sub_assign v r)
        (Plain-assignment_call op_sub_assign v r))
  Keeps-assigned_value op_xor_assign l r = Keeps-bind _ _ (search flow) (λ v.
      Keeps-lift-build (assignment_call op_xor_assign v r)
        (Plain-assignment_call op_xor_assign v r))

  pub Keeps-codegen_assignment_expr :
      (t v : Expr) (op : AssignmentOp) → Keeps (codegen_assignment_expr d g t v op)
  Keeps-codegen_assignment_expr t v op = search (flow, keeps, Keeps-assigned_value) depth 14

  pub Keeps-codegen_unary_expr :
      (t : Expr) (op : UnaryOp) (b : Bool) → Keeps (codegen_unary_expr d g t op b)
  Keeps-codegen_unary_expr t op_address b = keeps t true
  Keeps-codegen_unary_expr t op_deref b = search (flow, keeps, Keeps-load_unless) depth 8
  Keeps-codegen_unary_expr t op_positive b = keeps t false
  Keeps-codegen_unary_expr t op_negative b =
      Keeps-bind _ _ (keeps t false)
        (λ v. Keeps-lift-build (negate_call (type_of t) v) (Plain-negate_call (type_of t) v))
  Keeps-codegen_unary_expr t op_bitwise_not b = search (flow, keeps) depth 10
  Keeps-codegen_unary_expr t op_not b = search (flow, keeps) depth 10

  pub Keeps-codegen_conditional_expr :
      (c t f : Expr) (b : Bool) → Keeps (codegen_conditional_expr d g c t f b)
  Keeps-codegen_conditional_expr c t f b = record {
    runs = λ ps fs. Runs-bind _ _ (Keeps-Runs ps fs (search flow)) (λ _.
        Runs-bind _ _ (Keeps-Runs ps fs (keeps c false)) (λ cond.
          Runs-bind _ _ (Runs-append ps fs) (λ x. Runs-bind _ _ (Runs-append (x ∷ ps) fs) (λ y.
            Runs-bind _ _ (Runs-append (y ∷ x ∷ ps) fs) (λ z.
              Runs-bind _ _ (Runs-do_build (z ∷ y ∷ x ∷ ps) fs _ refl) (λ _.
                Runs-bind _ _ (Runs-position (z ∷ y ∷ []) ps fs x) (λ _.
                  Runs-bind _ _ (Keeps-Runs (z ∷ y ∷ ps) fs (keeps t false)) (λ v.
                    Runs-bind _ _ (Runs-do_build (z ∷ y ∷ ps) fs _ refl) (λ _.
                      Runs-bind _ _ (Runs-position (z ∷ []) ps fs y) (λ _.
                        Runs-bind _ _ (Keeps-Runs (z ∷ ps) fs (keeps f false)) (λ w.
                          Runs-bind _ _ (Runs-do_build (z ∷ ps) fs _ refl) (λ _.
                            Runs-bind _ _ (Runs-position [] ps fs z) (λ _.
                              Runs-bind _ _ (Keeps-Runs ps fs (Keeps-codegen_type d _))
                                (λ u. Keeps-Runs ps fs (search flow)))))))))))))));
  }

  pub Keeps-codegen_incdec_expr :
      (own : LowType) (t : Expr) (o : IncdecOrder) (i : IncdecDirection) (b : Bool)
      → Keeps (codegen_incdec_expr d g own t o i b)
  Keeps-codegen_incdec_expr own t o i b =
      search (flow, keeps, Keeps-codegen_type, Keeps-incdec_call) depth 16

  Keeps-number_value : (t : LowType) (s : Bytes) (n : ℕ) → Keeps (number_value d g t s n)
  Keeps-number_value (no_type p) s n = search flow depth 8
  Keeps-number_value (void_type p) s n = search flow depth 8
  Keeps-number_value (boolean_type p) s n = search flow depth 8
  Keeps-number_value (placeholder_type p) s n = search flow depth 8
  Keeps-number_value (integer_type p w) s n = search (flow, Keeps-codegen_type) depth 8
  Keeps-number_value (float_type p w) s n = search (flow, Keeps-codegen_type) depth 8
  Keeps-number_value (named_type p name) s n = search flow depth 8
  Keeps-number_value (func_type p r ts) s n = search flow depth 8
  Keeps-number_value (struct_type p name ms) s n = search flow depth 8
  Keeps-number_value (array_type p t len) s n = search flow depth 8
  Keeps-number_value (slice_type p t) s n = search flow depth 8
  Keeps-number_value (interface_type p ms) s n = search flow depth 8

  pub Keeps-codegen_number_literal_expr :
      (own : LowType) (s : Bytes) (n : ℕ) (b : Bool)
      → Keeps (codegen_number_literal_expr d g own s n b)
  Keeps-codegen_number_literal_expr own s n b = search (flow, Keeps-number_value) depth 8

  pub Keeps-codegen_sizeof_expr :
      (own : LowType) (e : Expr) (b : Bool) → Keeps (codegen_sizeof_expr d g own e b)
  Keeps-codegen_sizeof_expr own e b = search (flow, keeps, Keeps-codegen_type) depth 14

  pub Keeps-codegen_sizeof_type :
      (own t : LowType) (b : Bool) → Keeps (codegen_sizeof_type d g own t b)
  Keeps-codegen_sizeof_type own t b = search (flow, Keeps-codegen_type) depth 14

  Keeps-codegen_commas : (es : Exprs) → Keeps (codegen_commas d g es)
  unfolding codegen_commas
  Keeps-codegen_commas no_exprs = search flow
  Keeps-codegen_commas (expr_and e no_exprs) = keeps e false
  Keeps-codegen_commas (expr_and e (expr_and e' es)) =
      Keeps-bind _ _ (keeps e false) (λ v. Keeps-codegen_commas (expr_and e' es))

  pub Keeps-codegen_comma_expr : (es : Exprs) (b : Bool) → Keeps (codegen_comma_expr d g es b)
  Keeps-codegen_comma_expr es b = search (flow, Keeps-codegen_commas) depth 8
