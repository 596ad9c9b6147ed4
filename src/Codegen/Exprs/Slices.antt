-- ===== src/Codegen/Exprs/Slices.antt =====
-- src/codegen_index_slice_expr.c: slices of slices and of arrays.
use low.Prelude.{ℕ, Bool, true, false}
use low.Ast.LowType.{LowType, array_type, slice_type}
use low.Ast.Tree.{Expr, OptExpr, null_expr, expr_ptr, IndexSliceKind, slice_copy}
use low.Codegen.Llvm.{
  ValueRef, no_values, value_and, llvm_int, llvm_type_of, llvm_pointer, const_null, const_int,
  arith, sub, cast, pointer_cast, int_cast, in_bounds_gep, extract_value, insert_value, icmp,
  int_sgt, br, cond_br, load,
}
use low.Codegen.State.{
  derror, aborts, invalid, M, pure, stop, check, build, do_build, append_basic_block,
  position_at_end, ◌>>=◌, ◌>>◌,
}
use low.Codegen.Context.{is_integer, resolve}
use low.Codegen.Types.{codegen_type}
use low.Codegen.Prepare.Views.{type_of}
use low.Codegen.Exprs.Builders.{build_phi}

abbrev pub zero_int : ValueRef
zero_int = const_null (llvm_int 64)

module _ (depth : ℕ) (generate : Expr → Bool → M ValueRef) where
  -- A start or end of a slice of a slice: zero where there is none.
  abbrev pub slice_index : OptExpr → M ValueRef
  slice_index null_expr = pure zero_int
  slice_index (expr_ptr e) = do check (is_integer (type_of e)) derror; generate e false

  -- The length is that from start to end, if it is positive, or else is left zero.
  abbrev pub with_length : ValueRef → ValueRef → ValueRef → M ValueRef
  with_length target slice nlen = do
    cond ← build (icmp int_sgt nlen zero_int)
    true_block ← append_basic_block
    false_block ← append_basic_block
    exit_block ← append_basic_block
    do_build (cond_br cond true_block false_block)
    position_at_end true_block
    slice_len ← build (insert_value slice nlen 1)
    do_build (br exit_block)
    position_at_end false_block
    do_build (br exit_block)
    position_at_end exit_block
    build_phi (llvm_type_of target) slice_len true_block slice false_block

  abbrev pub slice_part : ValueRef → OptExpr → OptExpr → M ValueRef
  slice_part target start_expr end_expr = do
    start0 ← slice_index start_expr
    end0 ← slice_index end_expr
    cap ← build (extract_value target 2)
    start ← build (cast int_cast start0 (llvm_type_of cap))
    end ← build (cast int_cast end0 (llvm_type_of cap))
    ncap ← build (arith sub cap start)
    nlen ← build (arith sub end start)
    arrptr ← build (extract_value target 0)
    ptr ← build (in_bounds_gep arrptr (value_and start no_values))
    baseptr ← build (extract_value target 3)
    s0 ← build (insert_value (const_null (llvm_type_of target)) ptr 0)
    s1 ← build (insert_value s0 ncap 2)
    s2 ← build (insert_value s1 baseptr 3)
    with_length target s2 nlen

  abbrev pub slice_slice : Expr → OptExpr → OptExpr → IndexSliceKind → M ValueRef
  slice_slice target_expr start_expr end_expr slice_copy = do
    target ← generate target_expr false
    build (load target)
  slice_slice target_expr start_expr end_expr kind = do
    target ← generate target_expr false
    slice_part target start_expr end_expr

  abbrev pub index_or : OptExpr → ValueRef → M ValueRef
  index_or null_expr default = pure default
  index_or (expr_ptr e) default = generate e false

  -- `type.slice.type` and `type.array.length`, in the unions of the two types.
  abbrev pub element_of : LowType → M LowType
  element_of (slice_type p t) = pure t
  element_of _ = stop invalid

  abbrev pub length_of : LowType → M ℕ
  length_of (array_type p t n) = pure n
  length_of _ = stop invalid

  abbrev pub slice_array : LowType → Expr → OptExpr → OptExpr → M ValueRef
  slice_array own target_expr start_expr end_expr = do
    element ← element_of own
    element_type ← codegen_type depth element
    target ← generate target_expr true
    array_ptr ← build (cast pointer_cast target (llvm_pointer element_type))
    n ← length_of (type_of target_expr)
    let array_length = const_int (llvm_int 64) n
    index_start ← index_or start_expr zero_int
    index_end ← index_or end_expr array_length
    ptr ← build (in_bounds_gep array_ptr (value_and index_start no_values))
    len ← build (arith sub index_end index_start)
    cap ← build (arith sub array_length index_start)
    type ← codegen_type depth own
    s0 ← build (insert_value (const_null type) ptr 0)
    s1 ← build (insert_value s0 len 1)
    s2 ← build (insert_value s1 cap 2)
    build (insert_value s2 array_ptr 3)

  abbrev pub slice_of : LowType → LowType → Expr → OptExpr → OptExpr → IndexSliceKind → M ValueRef
  slice_of (slice_type p t) own target_expr start_expr end_expr kind =
      slice_slice target_expr start_expr end_expr kind
  slice_of (array_type p t n) own target_expr start_expr end_expr kind =
      slice_array own target_expr start_expr end_expr
  slice_of _ own target_expr start_expr end_expr kind = stop aborts

  abbrev pub codegen_index_slice_expr :
      LowType → Expr → OptExpr → OptExpr → IndexSliceKind → M ValueRef
  codegen_index_slice_expr own target_expr start_expr end_expr kind = do
    t ← resolve depth (type_of target_expr)
    slice_of t own target_expr start_expr end_expr kind
