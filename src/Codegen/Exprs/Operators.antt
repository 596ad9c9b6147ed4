-- ===== src/Codegen/Exprs/Operators.antt =====
-- src/codegen_*.c: the functions codegen_..._expr for operators and literals. Each gets `codegen_expr`
-- as an argument, with whether the value is asked for as an lvalue.
use low.Prelude.{ℕ, Bool, true, false, ◌&&◌, [], ◌∷◌, Bytes, codes, str_equal, ◌==◌, if◌then◌else◌}
use low.Ast.LowType.{LowType, boolean_type, integer_type, float_type}
use low.Ast.Tree.{
  Expr, IncdecOrder, pre, post, IncdecDirection, inc, dec, UnaryOp, op_address, op_deref,
  op_positive, op_negative, op_bitwise_not, op_not, BinaryOp, op_add, op_sub, op_mul, op_div,
  op_mod, op_left, op_right, op_lt, op_gt, op_le, op_ge, op_eq, op_ne, op_bitwise_and,
  op_bitwise_xor, op_bitwise_or, op_and, op_or, AssignmentOp, op_assign, op_add_assign,
  op_sub_assign, op_mul_assign, op_div_assign, Exprs, no_exprs, expr_and,
}
use low.Codegen.Llvm.{
  ValueRef, llvm_int, const_null, const_all_ones, const_int, const_int_of_string,
  const_real_of_string, llvm_size_of, llvm_type_of, Call, arith, add, sub, mul, sdiv, udiv, srem,
  shl, ashr, and_, or_, xor, fadd, fsub, fmul, fdiv, frem, unary_arith, neg, fneg, not_, icmp,
  int_eq, int_ne, int_slt, int_sgt, int_sle, int_sge, fcmp, real_olt, real_ogt, real_ole, real_oge,
  real_oeq, real_one, cast, int_cast, load, store, br, cond_br, global_string_ptr,
}
use low.Codegen.State.{
  Outcome, ok, derror, aborts, invalid, M, pure, stop, lift, check, build, do_build,
  append_basic_block, position_at_end, ◌>>=◌, ◌>>◌,
}
use low.Codegen.Context.{is_no_type, is_boolean, is_integer, equal}
use low.Codegen.Types.{codegen_type}
use low.Codegen.Prepare.Views.{type_of}
use low.Codegen.Prepare.Forms.{untyped}
use low.Codegen.Exprs.Builders.{rvalue_only, load_unless, build_phi}

-- The calls for the operators on booleans, integers and floating point numbers.
abbrev pub boolean_call : BinaryOp → ValueRef → ValueRef → Outcome Call
boolean_call op_eq l r = ok (icmp int_eq l r)
boolean_call op_ne l r = ok (icmp int_ne l r)
boolean_call op_and l r = ok (arith and_ l r)
boolean_call op_or l r = ok (arith or_ l r)
boolean_call _ l r = aborts

abbrev pub integer_call : BinaryOp → ValueRef → ValueRef → Outcome Call
integer_call op_add l r = ok (arith add l r)
integer_call op_sub l r = ok (arith sub l r)
integer_call op_mul l r = ok (arith mul l r)
integer_call op_div l r = ok (arith sdiv l r)
integer_call op_mod l r = ok (arith srem l r)
integer_call op_left l r = ok (arith shl l r)
integer_call op_right l r = ok (arith ashr l r)
integer_call op_lt l r = ok (icmp int_slt l r)
integer_call op_gt l r = ok (icmp int_sgt l r)
integer_call op_le l r = ok (icmp int_sle l r)
integer_call op_ge l r = ok (icmp int_sge l r)
integer_call op_eq l r = ok (icmp int_eq l r)
integer_call op_ne l r = ok (icmp int_ne l r)
integer_call op_bitwise_and l r = ok (arith and_ l r)
integer_call op_bitwise_xor l r = ok (arith xor l r)
integer_call op_bitwise_or l r = ok (arith or_ l r)
integer_call op_and l r = derror
integer_call op_or l r = derror

abbrev pub float_call : BinaryOp → ValueRef → ValueRef → Outcome Call
float_call op_add l r = ok (arith fadd l r)
float_call op_sub l r = ok (arith fsub l r)
float_call op_mul l r = ok (arith fmul l r)
float_call op_div l r = ok (arith fdiv l r)
float_call op_mod l r = ok (arith frem l r)
float_call op_lt l r = ok (fcmp real_olt l r)
float_call op_gt l r = ok (fcmp real_ogt l r)
float_call op_le l r = ok (fcmp real_ole l r)
float_call op_ge l r = ok (fcmp real_oge l r)
float_call op_eq l r = ok (fcmp real_oeq l r)
float_call op_ne l r = ok (fcmp real_one l r)
float_call _ l r = derror

-- By the kind of the operands' type: its pointers are not looked at.
abbrev pub binary_call : LowType → BinaryOp → ValueRef → ValueRef → Outcome Call
binary_call (boolean_type p) op l r = boolean_call op l r
binary_call (integer_type p w) op l r = integer_call op l r
binary_call (float_type p w) op l r = float_call op l r
binary_call _ op l r = derror

abbrev pub assignment_call : AssignmentOp → ValueRef → ValueRef → Outcome Call
assignment_call op_add_assign l r = ok (arith add l r)
assignment_call op_sub_assign l r = ok (arith sub l r)
assignment_call op_mul_assign l r = ok (arith mul l r)
assignment_call op_div_assign l r = ok (arith udiv l r)
assignment_call _ l r = aborts

abbrev pub negate_call : LowType → ValueRef → Outcome Call
negate_call (integer_type p w) v = ok (unary_arith neg v)
negate_call (float_type p w) v = ok (unary_arith fneg v)
negate_call _ v = derror

abbrev pub incdec_call : IncdecDirection → ValueRef → ValueRef → Call
incdec_call inc v one = arith add v one
incdec_call dec v one = arith sub v one

-- `while (*p == '0' && *(p+1) != 0) ++p;`
unfoldable pub skip_zeros : Bytes → Bytes
skip_zeros [] = []
skip_zeros (c ∷ []) = c ∷ []
skip_zeros (c ∷ d ∷ s) = if c == 48 then skip_zeros (d ∷ s) else c ∷ d ∷ s

abbrev pub boolean_literal : Bytes → Outcome ValueRef
boolean_literal p =
    if str_equal p (codes "0")
    then ok (const_null (llvm_int 1))
    else if str_equal p (codes "1")
    then ok (const_all_ones (llvm_int 1))
    else derror

module _ (depth : ℕ) (generate : Expr → Bool → M ValueRef) where
  abbrev pub codegen_binary_expr : Expr → Expr → BinaryOp → Bool → M ValueRef
  codegen_binary_expr lhs rhs op lvalue = do
    check (if untyped lhs && untyped rhs then false else true) derror
    same_type ← equal (type_of lhs) (type_of rhs)
    check same_type derror
    rvalue_only lvalue
    l ← generate lhs false
    r ← generate rhs false
    c ← lift (binary_call (type_of lhs) op l r)
    build c

  -- `*lv = *lv op rv`, or without the operator.
  abbrev pub assigned_value : AssignmentOp → ValueRef → ValueRef → M ValueRef
  assigned_value op_assign lv rv = pure rv
  assigned_value op lv rv = do dv ← build (load lv); c ← lift (assignment_call op dv rv); build c

  abbrev pub codegen_assignment_expr : Expr → Expr → AssignmentOp → M ValueRef
  codegen_assignment_expr target value op = do
    lv ← generate target true
    rv ← generate value false
    v ← assigned_value op lv rv
    do_build (store v lv)
    pure rv

  abbrev pub codegen_unary_expr : Expr → UnaryOp → Bool → M ValueRef
  codegen_unary_expr target op_address lvalue = generate target true
  codegen_unary_expr target op_deref lvalue = do v ← generate target false; load_unless lvalue v
  codegen_unary_expr target op_positive lvalue = generate target false
  codegen_unary_expr target op_negative lvalue = do
    v ← generate target false
    c ← lift (negate_call (type_of target) v)
    build c
  codegen_unary_expr target op_bitwise_not lvalue = do
    check (is_integer (type_of target)) derror
    v ← generate target false
    build (unary_arith not_ v)
  codegen_unary_expr target op_not lvalue = do
    check (is_boolean (type_of target)) derror
    v ← generate target false
    build (unary_arith not_ v)

  abbrev pub codegen_conditional_expr : Expr → Expr → Expr → Bool → M ValueRef
  codegen_conditional_expr condition true_expr false_expr lvalue = do
    rvalue_only lvalue
    cond ← generate condition false
    true_block ← append_basic_block
    false_block ← append_basic_block
    exit_block ← append_basic_block
    do_build (cond_br cond true_block false_block)
    position_at_end true_block
    true_value ← generate true_expr false
    do_build (br exit_block)
    position_at_end false_block
    false_value ← generate false_expr false
    do_build (br exit_block)
    position_at_end exit_block
    type ← codegen_type depth (type_of true_expr)
    build_phi type true_value true_block false_value false_block

  abbrev pub codegen_incdec_expr :
      LowType → Expr → IncdecOrder → IncdecDirection → Bool → M ValueRef
  codegen_incdec_expr own target order direction lvalue = do
    check (if lvalue then false else true) derror
    t ← generate target true
    check (is_integer own) derror
    value ← build (load t)
    type ← codegen_type depth own
    new_value ← build (incdec_call direction value (const_int type 1))
    do_build (store new_value t)
    pure (elim order [ pre ↦ new_value | post ↦ value ])

  abbrev pub number_value : LowType → Bytes → ℕ → M ValueRef
  number_value (integer_type p w) literal radix =
      codegen_type depth (integer_type p w) >>= λ t. pure (const_int_of_string t literal radix)
  number_value (float_type p w) literal radix =
      codegen_type depth (float_type p w) >>= λ t. pure (const_real_of_string t literal)
  number_value (boolean_type p) literal radix = lift (boolean_literal (skip_zeros literal))
  number_value _ literal radix = stop derror

  abbrev pub codegen_number_literal_expr : LowType → Bytes → ℕ → Bool → M ValueRef
  codegen_number_literal_expr own literal radix lvalue = do
    rvalue_only lvalue
    number_value own literal radix

  abbrev pub codegen_string_literal_expr : Bytes → Bool → M ValueRef
  codegen_string_literal_expr literal lvalue = do
    rvalue_only lvalue
    build (global_string_ptr literal)

  abbrev pub codegen_sizeof_expr : LowType → Expr → Bool → M ValueRef
  codegen_sizeof_expr own inner lvalue = do
    rvalue_only lvalue
    check (if is_no_type own then false else true) derror
    v ← generate inner false
    type ← codegen_type depth own
    build (cast int_cast (llvm_size_of (llvm_type_of v)) type)

  abbrev pub codegen_sizeof_type : LowType → LowType → Bool → M ValueRef
  codegen_sizeof_type own measured lvalue = do
    rvalue_only lvalue
    check (if is_no_type own then false else true) derror
    t ← codegen_type depth measured
    type ← codegen_type depth own
    build (cast int_cast (llvm_size_of t) type)

  -- The value of the last expression between commas.
  unfoldable pub codegen_commas : Exprs → M ValueRef
  codegen_commas no_exprs = stop invalid
  codegen_commas (expr_and e no_exprs) = generate e false
  codegen_commas (expr_and e (expr_and e' es)) = do
    v ← generate e false
    codegen_commas (expr_and e' es)

  abbrev pub codegen_comma_expr : Exprs → Bool → M ValueRef
  codegen_comma_expr exprs lvalue = do rvalue_only lvalue; codegen_commas exprs
