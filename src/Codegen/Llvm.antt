-- ===== src/Codegen/Llvm.antt =====
-- The calls of LLVM's C library in src/codegen*.c. LLVM is not part of the repository: a type or
-- constant stands for the calls that ask for it, and what a call of the builder returns is its number.
-- Names of values are left out.
use low.Prelude.{ℕ, Bool, List, Bytes}

mutual
  -- LLVMTypeRef.
  pub data TypeRef : Type 0 where
    llvm_void llvm_half llvm_float llvm_double llvm_fp128 : TypeRef
    llvm_int : ℕ → TypeRef
    llvm_pointer : TypeRef → TypeRef
    llvm_array : TypeRef → ℕ → TypeRef
    llvm_struct : TypeRefs → TypeRef
    llvm_function : TypeRef → TypeRefs → Bool → TypeRef
    llvm_type_of : ValueRef → TypeRef

  pub data TypeRefs : Type 0 where
    no_refs : TypeRefs
    ref_and : TypeRef → TypeRefs → TypeRefs

  -- LLVMValueRef. The code tests two of them for null, which these calls do not return.
  pub data ValueRef : Type 0 where
    result : ℕ → ValueRef
    const_null const_all_ones llvm_size_of : TypeRef → ValueRef
    const_int : TypeRef → ℕ → ValueRef
    const_int_of_string : TypeRef → Bytes → ℕ → ValueRef
    const_real_of_string : TypeRef → Bytes → ValueRef
    const_struct : ValueRefs → ValueRef
    function : ℕ → ValueRef
    function_param : ValueRef → ℕ → ValueRef
    global : ℕ → ValueRef
    trap_intrinsic : ValueRef

  pub data ValueRefs : Type 0 where
    no_values : ValueRefs
    value_and : ValueRef → ValueRefs → ValueRefs

pub data IntPredicate : Type 0 where
  int_eq int_ne int_slt int_sgt int_sle int_sge int_ult : IntPredicate

pub data RealPredicate : Type 0 where
  real_olt real_ogt real_ole real_oge real_oeq real_one : RealPredicate

pub data Arith : Type 0 where
  add sub mul sdiv udiv srem shl ashr and_ or_ xor fadd fsub fmul fdiv frem : Arith

pub data UnaryArith : Type 0 where
  neg fneg not_ : UnaryArith

pub data CastKind : Type 0 where
  pointer_cast int_cast ptr_to_int int_to_ptr zext : CastKind

-- The calls LLVMBuild..., with a block by its number within the function.
pub data Call : Type 0 where
  arith : Arith → ValueRef → ValueRef → Call
  unary_arith : UnaryArith → ValueRef → Call
  icmp : IntPredicate → ValueRef → ValueRef → Call
  fcmp : RealPredicate → ValueRef → ValueRef → Call
  cast : CastKind → ValueRef → TypeRef → Call
  alloca malloc : TypeRef → Call
  array_malloc : TypeRef → ValueRef → Call
  free load : ValueRef → Call
  store : ValueRef → ValueRef → Call
  in_bounds_gep : ValueRef → ValueRefs → Call
  struct_gep extract_value : ValueRef → ℕ → Call
  insert_value : ValueRef → ValueRef → ℕ → Call
  call : ValueRef → ValueRefs → Call
  phi : TypeRef → List (ValueRef × ℕ) → Call
  global_string_ptr : Bytes → Call
  br : ℕ → Call
  cond_br : ValueRef → ℕ → ℕ → Call
  ret : ValueRef → Call
  ret_void unreachable : Call

-- The calls on the module.
pub data Global : Type 0 where
  add_global : TypeRef → ValueRef → Global
  add_function : Bytes → TypeRef → Global
