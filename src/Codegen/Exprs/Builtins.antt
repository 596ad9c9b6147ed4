-- ===== src/Codegen/Exprs/Builtins.antt =====
-- src/codegen_builtin_expr.c: new, free, make, len, cap and dispose.
use low.Prelude.{ℕ, Bool, true, false}
use low.Ast.LowType.{LowType, slice_type}
use low.Ast.Tree.{Expr, OptExpr, null_expr, expr_ptr, LencapKind, lencap_len, lencap_cap}
use low.Codegen.Llvm.{
  ValueRef, llvm_int, llvm_pointer, llvm_type_of, const_null, cast, pointer_cast, int_cast, malloc,
  free, store, load, extract_value, insert_value,
}
use low.Codegen.State.{derror, M, pure, stop, build, do_build, ◌>>=◌, ◌>>◌}
use low.Codegen.Context.{resolve}
use low.Codegen.Types.{codegen_type}
use low.Codegen.Exprs.Builders.{codegen_array_new}

module _ (depth : ℕ) (generate : Expr → Bool → M ValueRef) where
  -- One element that is set to zero, or as many as the size says.
  abbrev pub codegen_new_builtin_expr : LowType → OptExpr → M ValueRef
  codegen_new_builtin_expr type null_expr = do
    t ← codegen_type depth type
    ptr ← build (malloc t)
    do_build (store (const_null t) ptr)
    pure ptr
  codegen_new_builtin_expr type (expr_ptr e) = do
    t ← codegen_type depth type
    size ← generate e false
    codegen_array_new t size

  abbrev pub codegen_free_builtin_expr : Expr → M ValueRef
  codegen_free_builtin_expr inner = do ptr ← generate inner false; build (free ptr)

  abbrev pub slice_element : LowType → M LowType
  slice_element (slice_type p t) = pure t
  slice_element _ = stop derror

  -- The capacity is the given value, and the length stays zero.
  abbrev pub codegen_make_builtin_expr : LowType → Expr → M ValueRef
  codegen_make_builtin_expr type size = do
    resolved ← resolve depth type
    element ← slice_element resolved
    size_value ← generate size false
    caparg ← build (cast int_cast size_value (llvm_int 64))
    element_type ← codegen_type depth element
    memory ← codegen_array_new element_type caparg
    arrptr ← build (cast pointer_cast memory (llvm_pointer element_type))
    make_type ← codegen_type depth resolved
    s0 ← build (insert_value (const_null make_type) arrptr 0)
    s1 ← build (insert_value s0 caparg 2)
    build (insert_value s1 arrptr 3)

  abbrev pub lencap_field : LencapKind → ℕ
  lencap_field lencap_len = 1
  lencap_field lencap_cap = 2

  abbrev pub codegen_lencap_builtin_expr : LencapKind → Expr → M ValueRef
  codegen_lencap_builtin_expr kind inner = do
    slice ← generate inner false
    build (extract_value slice (lencap_field kind))

  abbrev pub codegen_dispose_builtin_expr : Expr → M ValueRef
  codegen_dispose_builtin_expr inner = do
    slice_ptr ← generate inner true
    slice ← build (load slice_ptr)
    ptr ← build (extract_value slice 3)
    do_build (store (const_null (llvm_type_of slice)) slice_ptr)
    build (free ptr)
