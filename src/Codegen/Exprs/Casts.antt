-- ===== src/Codegen/Exprs/Casts.antt =====
-- src/codegen_cast_expr.c: casts between types, and of a pointer to a struct to an interface.
use low.Prelude.{ℕ, Bool, true, false, Option, none, some, Bytes, ◌==◌, if◌then◌else◌, ltb}
use low.Ast.LowType.{
  LowType, boolean_type, integer_type, struct_type, interface_type, StructMembers, Types,
  InterfaceMembers, no_interface, member_field, member_func, unset_field, unset_func,
}
use low.Ast.Describe.{describes}
use low.Ast.Tree.{Expr}
use low.Codegen.Llvm.{
  TypeRef, ValueRef, ValueRefs, no_values, value_and, llvm_pointer, llvm_function, llvm_type_of,
  const_null, const_struct, Call, cast, pointer_cast, int_cast, ptr_to_int, int_to_ptr, zext, icmp,
  int_sgt, struct_gep, insert_value,
}
use low.Codegen.State.{
  Outcome, ok, derror, aborts, invalid, M, pure, stop, lift, valid, check, build, ◌>>=◌, ◌>>◌,
  ◌>>>=◌,
}
use low.Codegen.Context.{pointer_of, less_pointer, resolve, lookup, copy, equal, find_mapping}
use low.Codegen.Types.{codegen_type, member_args, byte_pointer}
use low.Codegen.Prepare.Views.{type_of, struct_member}
use low.Codegen.Exprs.Builders.{rvalue_only, new_global}

abbrev pub mapping : LowType → LowType → Bytes → M (Option Bytes)
mapping interface target name st = find_mapping st.scopes interface target name >>>= λ o. ok (o, st)

abbrev pub required : {A : Type 0} → Option A → M A
required none = stop derror
required (some a) = pure a

-- The cast of a value between types that are not interfaces, by their kinds and pointers.
abbrev pub cast_call : LowType → LowType → ValueRef → TypeRef → Outcome Call
cast_call from to target dst =
    if ltb 0 (pointer_of from)
    then (if ltb 0 (pointer_of to)
        then ok (cast pointer_cast target dst)
        else elim to [ integer_type p w ↦ ok (cast ptr_to_int target dst) | _ ↦ derror ])
    else elim from [
      | integer_type p w ↦
          if ltb 0 (pointer_of to) then ok (cast int_to_ptr target dst) else elim to [
            | integer_type q v ↦ ok (cast int_cast target dst)
            | boolean_type q ↦ ok (icmp int_sgt target (const_null (llvm_type_of target)))
            | _ ↦ derror
          ]
      | boolean_type p ↦
          if ltb 0 (pointer_of to)
          then derror
          else elim to [ integer_type q v ↦ ok (cast zext target dst) | _ ↦ derror ]
      | _ ↦ derror
    ]

abbrev pub plain_cast : LowType → LowType → ValueRef → TypeRef → M ValueRef
plain_cast from to target dst = do c ← lift (cast_call from to target dst); build c

module _ (depth : ℕ) (generate : Expr → Bool → M ValueRef) where
  -- The function that the program maps to a member, as a pointer of the member's type.
  abbrev pub table_function : LowType → LowType → Bytes → LowType → Types → M ValueRef
  table_function interface refd name return_type ts = do
    o ← mapping interface refd name
    mapped ← required o
    s ← lookup mapped
    symbol ← required s
    args ← member_args depth ts
    t ← codegen_type depth return_type
    v ← valid symbol.value
    build (cast pointer_cast v (llvm_pointer (llvm_function t args false)))

  -- The offset of a field, as the address that it has in an object at address 0.
  abbrev pub table_field : StructMembers → Bytes → LowType → ValueRef → M ValueRef
  table_field ms name type target = do
    m ← required (struct_member 0 name ms)
    same_type ← equal type m.1
    check same_type derror
    build (struct_gep (const_null (llvm_type_of target)) m.0)

  unfoldable pub table_fields :
      LowType → LowType → StructMembers → ValueRef → InterfaceMembers → M ValueRefs
  table_fields interface refd ms target no_interface = pure no_values
  table_fields interface refd ms target (member_func name return_type ts rest) = do
    v ← table_function interface refd name return_type ts
    vs ← table_fields interface refd ms target rest
    pure (value_and v vs)
  table_fields interface refd ms target (member_field name type rest) = do
    v ← table_field ms name type target
    vs ← table_fields interface refd ms target rest
    pure (value_and v vs)
  table_fields interface refd ms target (unset_field name type rest) = stop invalid
  table_fields interface refd ms target (unset_func name return_type ts rest) = stop invalid

  abbrev pub table_value :
      LowType → LowType → StructMembers → ValueRef → TypeRef → InterfaceMembers → M ValueRef
  table_value interface refd ms target dst members = do
    fields ← table_fields interface refd ms target members
    let table = const_struct (value_and (const_null byte_pointer) fields)
    table_global ← new_global (llvm_type_of table) table
    target_cast ← build (cast pointer_cast target byte_pointer)
    s ← build (insert_value (const_null dst) table_global 0)
    build (insert_value s target_cast 1)

  abbrev pub interface_value :
      LowType → LowType → LowType → ValueRef → TypeRef → InterfaceMembers → M ValueRef
  interface_value interface refd (struct_type p n ms) target dst members =
      table_value interface refd ms target dst members
  interface_value interface refd _ target dst members = stop derror

  -- `interface` is the type as it is written in the cast.
  abbrev pub cast_to_interface :
      LowType → LowType → ValueRef → TypeRef → InterfaceMembers → M ValueRef
  cast_to_interface interface from target dst members = do
    check (pointer_of from == 1) derror
    copied ← copy from
    let refd = less_pointer copied
    resolved ← resolve depth refd
    interface_value interface refd resolved target dst members

  abbrev pub cast_value : LowType → LowType → LowType → ValueRef → TypeRef → M ValueRef
  cast_value interface from (interface_type p members) target dst =
      cast_to_interface interface from target dst members
  cast_value interface from to target dst = plain_cast from to target dst

  -- Nothing is done where the types are equal. Else both are described, for messages, and resolved
  -- once more.
  abbrev pub cast_unless : Bool → LowType → LowType → LowType → ValueRef → TypeRef → M ValueRef
  cast_unless true interface from to target dst = pure target
  cast_unless false interface from to target dst = do
    check (describes from) aborts
    check (describes to) aborts
    from' ← resolve depth from
    to' ← resolve depth to
    cast_value interface from' to' target dst

  abbrev pub codegen_cast_expr : Expr → LowType → Bool → M ValueRef
  codegen_cast_expr target_expr type lvalue = do
    rvalue_only lvalue
    target ← generate target_expr false
    dst ← codegen_type depth type
    from ← resolve depth (type_of target_expr)
    to ← resolve depth type
    same_type ← equal from to
    cast_unless same_type type from to target dst
