-- ===== src/Codegen/Exprs/Places.antt =====
-- src/codegen_*.c: the functions codegen_..._expr for names, members and elements.
use low.Prelude.{
  ℕ, ◌+◌, Bool, true, false, Option, none, some, Bytes, codes, str_equal, ◌==◌, if◌then◌else◌, ltb,
}
use low.Ast.LowType.{LowType, struct_type, array_type, slice_type, interface_type, InterfaceMembers}
use low.Ast.Tree.{Expr}
use low.Codegen.Llvm.{
  ValueRef, no_values, value_and, llvm_int, llvm_type_of, const_null, const_all_ones, in_bounds_gep,
  struct_gep, extract_value, cast, pointer_cast, int_cast, ptr_to_int, icmp, int_ult, load,
}
use low.Codegen.State.{
  CodegenSymbol, SymbolKind, func_symbol, DeclRef, a_const, derror, aborts, M, pure, stop, lift,
  valid, check, build, ◌>>=◌, ◌>>◌,
}
use low.Codegen.Context.{pointer_of, less_pointer, is_integer, resolve, lookup}
use low.Codegen.Prepare.Views.{type_of, struct_member, interface_field, read_const}
use low.Codegen.Exprs.Builders.{rvalue_only, load_unless, build_assert}

-- A member that `prepare_expr` has found before.
abbrev pub asserted : Option (ℕ × LowType) → M ℕ
asserted none = stop aborts
asserted (some m) = pure m.0

abbrev pub is_array : LowType → Bool
is_array (array_type p t n) = p == 0
is_array _ = false

-- What a pointer points to, through its name.
abbrev pub pointee : ℕ → LowType → M LowType
pointee depth st = if ltb 0 (pointer_of st) then resolve depth (less_pointer st) else pure st

abbrev pub known_symbol : Option CodegenSymbol → M CodegenSymbol
known_symbol none = stop aborts
known_symbol (some symbol) = pure symbol

abbrev pub address_in : LowType → Bytes → ValueRef → M ValueRef
address_in (struct_type p n ms) name target = do
  i ← asserted (struct_member 0 name ms)
  build (struct_gep target i)
address_in _ name target = stop aborts

-- The element of a slice, behind a test of the index against the capacity.
abbrev pub slice_address : ValueRef → ValueRef → M ValueRef
slice_address target index = do
  cap ← build (extract_value target 2)
  i ← build (cast int_cast index (llvm_type_of cap))
  oob ← build (icmp int_ult i cap)
  build_assert oob
  arrptr ← build (extract_value target 0)
  build (in_bounds_gep arrptr (value_and i no_values))

abbrev pub kind_address : LowType → ValueRef → ValueRef → M ValueRef
kind_address (array_type p t n) target index =
    build (in_bounds_gep target (value_and (const_null (llvm_int 32)) (value_and index no_values)))
kind_address (slice_type p t) target index = slice_address target index
kind_address _ target index = stop derror

-- The address of the element in what a pointer, an array or a slice is.
abbrev pub element_address : LowType → ValueRef → ValueRef → M ValueRef
element_address target_type target index =
    if ltb 0 (pointer_of target_type)
    then build (in_bounds_gep target (value_and index no_values))
    else kind_address target_type target index

module _ (depth : ℕ) (generate : Expr → Bool → M ValueRef) where
  abbrev pub codegen_const : DeclRef → Bool → M ValueRef
  codegen_const (a_const i) lvalue = do rvalue_only lvalue; e ← read_const i; generate e false
  codegen_const _ lvalue = stop aborts

  abbrev pub value_or_const : CodegenSymbol → Option ValueRef → Bool → M ValueRef
  value_or_const symbol (some ptr) lvalue = load_unless lvalue ptr
  value_or_const symbol none lvalue = codegen_const symbol.decl lvalue

  abbrev pub symbol_value : SymbolKind → CodegenSymbol → Bool → M ValueRef
  symbol_value func_symbol symbol lvalue = valid symbol.value
  symbol_value _ symbol lvalue = value_or_const symbol symbol.value lvalue

  abbrev pub codegen_ident_expr : Bytes → Bool → M ValueRef
  codegen_ident_expr ident lvalue =
      if str_equal ident (codes "true")
      then (check (if lvalue then false else true) derror >> pure (const_all_ones (llvm_int 1)))
      else if str_equal ident (codes "false")
      then (check (if lvalue then false else true) derror >> pure (const_null (llvm_int 1)))
      else do o ← lookup ident; symbol ← known_symbol o; symbol_value symbol.kind symbol lvalue

  abbrev pub codegen_index_access_expr : Expr → Expr → Bool → M ValueRef
  codegen_index_access_expr target_expr index_expr lvalue = do
    target_type ← resolve depth (type_of target_expr)
    target ← generate target_expr (is_array target_type)
    index ← generate index_expr false
    check (is_integer (type_of index_expr)) derror
    ptr ← element_address target_type target index
    load_unless lvalue ptr

  -- The table of the interface has the offset of the member in the object.
  abbrev pub interface_address : Expr → ℕ → M ValueRef
  interface_address target_expr i = do
    target ← generate target_expr false
    table_ptr ← build (extract_value target 0)
    object_ptr ← build (extract_value target 1)
    table ← build (load table_ptr)
    member_offset ← build (extract_value table (1 + i))
    member_offset_int ← build (cast ptr_to_int member_offset (llvm_int 64))
    ptr_bytes ← build (in_bounds_gep object_ptr (value_and member_offset_int no_values))
    build (cast pointer_cast ptr_bytes (llvm_type_of member_offset))

  abbrev pub interface_member_address : InterfaceMembers → Expr → Bytes → M ValueRef
  interface_member_address ms target_expr name = do
    o ← lift (interface_field 0 name ms)
    i ← asserted o
    interface_address target_expr i

  abbrev pub struct_member_address : LowType → LowType → Expr → Bytes → M ValueRef
  struct_member_address st stderef target_expr name = do
    check (ltb (pointer_of st) 2) derror
    target ← generate target_expr (pointer_of st == 0)
    address_in stderef name target

  abbrev pub member_address : LowType → LowType → Expr → Bytes → M ValueRef
  member_address (interface_type p ms) stderef target_expr name =
      interface_member_address ms target_expr name
  member_address st stderef target_expr name = struct_member_address st stderef target_expr name

  abbrev pub codegen_member_access_expr : Expr → Bytes → Bool → M ValueRef
  codegen_member_access_expr target_expr name lvalue = do
    st ← resolve depth (type_of target_expr)
    stderef ← pointee depth st
    ptr ← member_address st stderef target_expr name
    load_unless lvalue ptr
