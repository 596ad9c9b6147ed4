-- ===== src/Codegen/Types.antt =====
-- src/codegen_type.c: the types of LLVM that stand for those of the program.
use low.Prelude.{ℕ, zero, suc, Bool, true, false, Option, none, some, Bytes, ◌==◌, if◌then◌else◌}
use low.Ast.LowType.{
  LowType, no_type, void_type, boolean_type, placeholder_type, integer_type, float_type, func_type,
  named_type, struct_type, array_type, slice_type, interface_type, Types, no_types, type_and,
  StructMembers, no_members, member_and, InterfaceMembers, no_interface, member_field, member_func,
  unset_field, unset_func,
}
use low.Codegen.Llvm.{
  TypeRef, llvm_void, llvm_half, llvm_float, llvm_double, llvm_fp128, llvm_int, llvm_pointer,
  llvm_array, llvm_struct, llvm_function, TypeRefs, no_refs, ref_and,
}
use low.Codegen.State.{
  CodegenSymbol, interface_function_symbol, no_decl, derror, aborts, invalid, too_deep, M, pure,
  stop, ◌>>=◌, ◌>>◌,
}
use low.Codegen.Context.{lookup, add_symbol}

abbrev pub byte_pointer : TypeRef
byte_pointer = llvm_pointer (llvm_int 8)

abbrev pub codegen_float_type : ℕ → M TypeRef
codegen_float_type width =
    if width == 16
    then pure llvm_half
    else if width == 32
    then pure llvm_float
    else if width == 64
    then pure llvm_double
    else if width == 128
    then pure llvm_fp128
    else stop aborts

-- The type of a symbol that a type name leads to; the two errors of `codegen_type_named`.
abbrev pub named_or : Option LowType → M LowType
named_or none = stop derror
named_or (some t) = pure t

abbrev pub type_named : Option CodegenSymbol → M LowType
type_named none = stop derror
type_named (some symbol) = named_or symbol.type

abbrev pub interface_symbol : Option LowType → Bytes → ℕ → CodegenSymbol
interface_symbol interface name member = record {
  kind = interface_function_symbol;
  name = some name;
  type = none;
  value = none;
  decl = no_decl;
  interface = interface;
  member = member;
}

-- The symbol points to the interface: behind pointers, that is a variable of `codegen_type` whose life
-- ends with the call, and the pointer is none. Each member of an interface makes a symbol, and those that are fields too: `func.name` is where
-- `field.name` is.
unfoldable pub add_members : Option LowType → ℕ → InterfaceMembers → M (Unit {0})
add_members interface i no_interface = pure tt
add_members interface i (member_field n t ms) = do
  add_symbol (interface_symbol interface n i)
  add_members interface (suc i) ms
add_members interface i (member_func n r ts ms) = do
  add_symbol (interface_symbol interface n i)
  add_members interface (suc i) ms
add_members interface i (unset_field n t ms) = do
  add_symbol (interface_symbol interface n i)
  add_members interface (suc i) ms
add_members interface i (unset_func n r ts ms) = do
  add_symbol (interface_symbol interface n i)
  add_members interface (suc i) ms

abbrev pub is_placeholder : LowType → Bool
is_placeholder (placeholder_type p) = true
is_placeholder _ = false

-- The pointers around a type.
unfoldable pub pointers : ℕ → TypeRef → TypeRef
pointers zero t = t
pointers (suc n) t = llvm_pointer (pointers n t)

-- The function that the names lead back to, with a smaller depth.
module _ (named : LowType → M TypeRef) where
  unfoldable mutual
    unfolding pointers add_members

    pub codegen_type_with : LowType → M TypeRef
    codegen_type_with (no_type p) = stop aborts
    codegen_type_with (placeholder_type p) = stop aborts
    codegen_type_with (void_type p) = pure (pointers p llvm_void)
    codegen_type_with (boolean_type p) = pure (pointers p (llvm_int 1))
    codegen_type_with (integer_type p w) = pure (pointers p (llvm_int w))
    codegen_type_with (float_type p w) = do t ← codegen_float_type w; pure (pointers p t)
    codegen_type_with (named_type p n) = do
      symbol ← lookup n
      type ← type_named symbol
      t ← named type
      pure (pointers p t)
    codegen_type_with (func_type p r ts) = do
      args ← codegen_types ts
      t ← codegen_type_with r
      pure (pointers p (llvm_function t args false))
    codegen_type_with (struct_type p n ms) = do
      members ← codegen_members ms
      pure (pointers p (llvm_struct members))
    codegen_type_with (array_type p t n) = do
      element ← codegen_type_with t
      pure (pointers p (llvm_array element n))
    codegen_type_with (slice_type p t) = do
      element ← codegen_type_with t
      let arr = llvm_pointer element
      let members =
          ref_and arr (ref_and (llvm_int 64) (ref_and (llvm_int 64) (ref_and arr no_refs)))
      pure (pointers p (llvm_struct members))
    codegen_type_with (interface_type p ms) = do
      fields ← codegen_interface ms
      add_members (if p == 0 then some (interface_type 0 ms) else none) 0 ms
      let table = llvm_pointer (llvm_struct (ref_and byte_pointer fields))
      pure (pointers p (llvm_struct (ref_and table (ref_and byte_pointer no_refs))))

    pub codegen_types : Types → M TypeRefs
    codegen_types no_types = pure no_refs
    codegen_types (type_and t ts) = do
      u ← codegen_type_with t
      us ← codegen_types ts
      pure (ref_and u us)

    pub codegen_members : StructMembers → M TypeRefs
    codegen_members no_members = pure no_refs
    codegen_members (member_and t n ms) = do
      u ← codegen_type_with t
      us ← codegen_members ms
      pure (ref_and u us)

    -- The arguments of a member, with a pointer for the placeholder.
    pub codegen_args : Types → M TypeRefs
    codegen_args no_types = pure no_refs
    codegen_args (type_and t ts) = do
      u ← (if is_placeholder t then pure byte_pointer else codegen_type_with t)
      us ← codegen_args ts
      pure (ref_and u us)

    -- The fields of the table, behind the first.
    pub codegen_interface : InterfaceMembers → M TypeRefs
    codegen_interface no_interface = pure no_refs
    codegen_interface (member_field n t ms) = do
      u ← codegen_type_with t
      us ← codegen_interface ms
      pure (ref_and (llvm_pointer u) us)
    codegen_interface (member_func n r ts ms) = do
      args ← codegen_args ts
      t ← codegen_type_with r
      us ← codegen_interface ms
      pure (ref_and (llvm_pointer (llvm_function t args false)) us)
    codegen_interface (unset_field n t ms) = stop invalid
    codegen_interface (unset_func n r ts ms) = stop invalid

-- With the number of names that it may go through. The code strips the pointers one by one.
unfoldable pub codegen_type : ℕ → LowType → M TypeRef
unfolding codegen_type_with
codegen_type zero type = codegen_type_with (λ t. stop too_deep) type
codegen_type (suc depth) type = codegen_type_with (λ t. codegen_type depth t) type

-- The loop over the arguments of a member in `codegen_cast_expr`.
abbrev pub member_args : ℕ → Types → M TypeRefs
member_args zero ts = codegen_args (λ t. stop too_deep) ts
member_args (suc depth) ts = codegen_args (λ t. codegen_type depth t) ts
