-- ===== src/Codegen/Exprs/Builders.antt =====
-- src/codegen_*.c: sequences of calls that several expressions share.
use low.Prelude.{ℕ, Bool, true, false, not, [], ◌∷◌, ◌++◌, length}
use low.Codegen.Llvm.{
  TypeRef, ValueRef, no_values, value_and, global, trap_intrinsic, const_null, const_int,
  llvm_type_of, add_global, br, cond_br, call, alloca, store, load, array_malloc, icmp, int_sle,
  in_bounds_gep, arith, sub, unary_arith, not_, phi,
}
use low.Codegen.State.{
  ok, aborts, M, pure, build, do_build, append_basic_block, position_at_end, check, ◌>>=◌, ◌>>◌,
}

-- An assertion that the value is not asked for as an lvalue.
abbrev pub rvalue_only : Bool → M (Unit {0})
rvalue_only lvalue = check (not lvalue) aborts

-- `lvalue ? ptr : LLVMBuildLoad(ptr)`
abbrev pub load_unless : Bool → ValueRef → M ValueRef
load_unless true ptr = pure ptr
load_unless false ptr = build (load ptr)

-- LLVMAddGlobal and LLVMSetInitializer.
abbrev pub new_global : TypeRef → ValueRef → M ValueRef
new_global type value st =
    ok (
      global (length st.globals),
      record st { globals = st.globals ++ (add_global type value ∷ []) },
    )

-- A branch, its two sides and the block behind them, with the value of both sides.
abbrev pub build_phi : TypeRef → ValueRef → ℕ → ValueRef → ℕ → M ValueRef
build_phi type true_value true_block false_value false_block =
    build (phi type ((true_value, true_block) ∷ (false_value, false_block) ∷ []))

-- `build_assert`: a trap if the condition does not hold, and on.
abbrev pub build_assert : ValueRef → M (Unit {0})
build_assert condition = do
  true_block ← append_basic_block
  exit_block ← append_basic_block
  failed ← build (unary_arith not_ condition)
  do_build (cond_br failed true_block exit_block)
  position_at_end true_block
  do_build (call trap_intrinsic no_values)
  do_build (br exit_block)
  position_at_end exit_block

-- The body of the loop, and the end of the function.
abbrev pub array_step : TypeRef → ℕ → ℕ → ValueRef → ValueRef → ValueRef → M ValueRef
array_step type loop_block exit_block arrptr cntrptr cntr = do
  iptr ← build (in_bounds_gep arrptr (value_and cntr no_values))
  do_build (store (const_null type) iptr)
  next ← build (arith sub cntr (const_int (llvm_type_of cntr) 1))
  do_build (store next cntrptr)
  do_build (br loop_block)
  position_at_end exit_block
  pure arrptr

-- `codegen_array_new`: memory for the elements, and a loop that sets them to zero from the end.
abbrev pub codegen_array_new : TypeRef → ValueRef → M ValueRef
codegen_array_new type size = do
  arrptr ← build (array_malloc type size)
  cntrptr ← build (alloca (llvm_type_of size))
  do_build (store size cntrptr)
  loop_block ← append_basic_block
  body_block ← append_basic_block
  exit_block ← append_basic_block
  do_build (br loop_block)
  position_at_end loop_block
  cntr ← build (load cntrptr)
  cond ← build (icmp int_sle (const_null (llvm_type_of cntr)) cntr)
  do_build (cond_br cond body_block exit_block)
  position_at_end body_block
  array_step type loop_block exit_block arrptr cntrptr cntr
