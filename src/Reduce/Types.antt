-- ===== src/Reduce/Types.antt =====
-- src/grammar_rules.c: the reducers of types. `atoi` is that of the C library.
use low.Prelude.{
  ℕ, zero, suc, [], List, Bool, Bytes, codes, ◌==◌, ◌&&◌, leb, ltb, if◌then◌else◌, take, drop,
  length, str_equal,
}
use low.Ast.LowType.{
  LowType, no_types, void_type, integer_type, float_type, boolean_type, named_type, struct_type,
  array_type, slice_type, func_type, interface_type, placeholder_type, InterfaceMembers,
  no_interface, no_type,
}
use low.Reduce.Values.{
  Outcome, ok, ◌>>=◌, a_type, a_member, an_interface_member, field, func, Tok, operand, type_array,
  member_array, interface_array,
}
use low.Reduce.Operands.{pointer, array_at, text_at, leave, collect}

-- `++t->pointer`.
abbrev pub point_to : LowType → LowType
point_to (no_type p) = no_type (suc p)
point_to (void_type p) = void_type (suc p)
point_to (boolean_type p) = boolean_type (suc p)
point_to (placeholder_type p) = placeholder_type (suc p)
point_to (integer_type p w) = integer_type (suc p) w
point_to (float_type p w) = float_type (suc p) w
point_to (named_type p n) = named_type (suc p) n
point_to (func_type p r ts) = func_type (suc p) r ts
point_to (struct_type p n ms) = struct_type (suc p) n ms
point_to (array_type p t n) = array_type (suc p) t n
point_to (slice_type p t) = slice_type (suc p) t
point_to (interface_type p ms) = interface_type (suc p) ms

-- `strncmp(name, word, strlen(word)) == 0` for a name at least as long.
abbrev pub has_prefix : Bytes → Bytes → Bool
has_prefix word name = leb (length word) (length name) && str_equal (take (length word) name) word

module _ (file : Bytes) (atoi : Bytes → ℕ) where
  -- The width behind the word, 32 if there is nothing behind it.
  abbrev pub width_of : ℕ → Bytes → ℕ
  width_of n name = if ltb n (length name) then atoi (drop n name) else 32

  -- `type_name` on the text of the token.
  unfoldable pub name_type : Bytes → LowType
  name_type name =
      if has_prefix (codes "int") name
      then integer_type 0 (width_of 3 name)
      else (if has_prefix (codes "float") name
          then float_type 0 (width_of 5 name)
          else (if str_equal name (codes "bool") then boolean_type 0 else named_type 0 name))

  abbrev pub reduce_type_name : Tok → List Tok → ℕ → Outcome Tok
  reduce_type_name out toks tag = do name ← text_at file toks 0; leave a_type out (name_type name)

  abbrev pub reduce_type_array : Tok → List Tok → ℕ → Outcome Tok
  reduce_type_array out toks tag = do
    n ← operand toks 1
    t ← pointer a_type toks 3
    leave a_type out (array_type 0 t (atoi (drop n.first file)))

module _ (file : Bytes) where
  abbrev pub reduce_struct_member : Tok → List Tok → ℕ → Outcome Tok
  reduce_struct_member out toks tag = do
    t ← pointer a_type toks 0
    name ← text_at file toks 1
    leave a_member out (t, name)

  abbrev pub reduce_struct_member2 : Tok → List Tok → ℕ → Outcome Tok
  reduce_struct_member2 out toks tag = do
    name ← text_at file toks 0
    t ← pointer a_type toks 2
    leave a_member out (t, name)

  abbrev pub reduce_interface_member_field : Tok → List Tok → ℕ → Outcome Tok
  reduce_interface_member_field out toks tag = do
    name ← text_at file toks 0
    t ← pointer a_type toks 2
    leave an_interface_member out (field name t)

  abbrev pub reduce_interface_member_func : Tok → List Tok → ℕ → Outcome Tok
  reduce_interface_member_func out toks tag = do
    name ← text_at file toks 1
    t ← pointer a_type toks 5
    args ← array_at a_type toks 3
    leave an_interface_member out (func name t (type_array args))

abbrev pub reduce_type_void : Tok → List Tok → ℕ → Outcome Tok
reduce_type_void out toks tag = leave a_type out (void_type 0)

abbrev pub reduce_type_pointer : Tok → List Tok → ℕ → Outcome Tok
reduce_type_pointer out toks tag = do t ← pointer a_type toks 1; leave a_type out (point_to t)

abbrev pub reduce_type_struct : Tok → List Tok → ℕ → Outcome Tok
reduce_type_struct out toks tag = do
  members ← array_at a_member toks 2
  leave a_type out (struct_type 0 [] (member_array members))

abbrev pub reduce_struct_member_list : Tok → List Tok → ℕ → Outcome Tok
reduce_struct_member_list out toks tag = collect a_member 1 out toks tag

abbrev pub reduce_type_slice : Tok → List Tok → ℕ → Outcome Tok
reduce_type_slice out toks tag = do t ← pointer a_type toks 2; leave a_type out (slice_type 0 t)

-- A pointer to a function.
abbrev pub reduce_type_func : Tok → List Tok → ℕ → Outcome Tok
reduce_type_func out toks zero = do
  t ← pointer a_type toks 3
  leave a_type out (func_type 1 t no_types)
reduce_type_func out toks (suc tag) = do
  args ← array_at a_type toks 2
  t ← pointer a_type toks 4
  leave a_type out (func_type 1 t (type_array args))

abbrev pub reduce_func_type_args : Tok → List Tok → ℕ → Outcome Tok
reduce_func_type_args out toks tag = collect a_type 2 out toks tag

-- `members`, which stays null without the tag.
abbrev pub type_members : List Tok → ℕ → Outcome InterfaceMembers
type_members toks tag =
    if tag == 1
    then (array_at an_interface_member toks 2 >>= λ ms. ok (interface_array ms))
    else ok no_interface

abbrev pub reduce_type_interface : Tok → List Tok → ℕ → Outcome Tok
reduce_type_interface out toks tag = do
  members ← type_members toks tag
  leave a_type out (interface_type 0 members)

abbrev pub reduce_interface_member_list : Tok → List Tok → ℕ → Outcome Tok
reduce_interface_member_list out toks tag = collect an_interface_member 1 out toks tag

abbrev pub reduce_interface_member_func_parameter_list : Tok → List Tok → ℕ → Outcome Tok
reduce_interface_member_func_parameter_list out toks tag = collect a_type 2 out toks tag

abbrev pub reduce_interface_member_func_parameter : Tok → List Tok → ℕ → Outcome Tok
reduce_interface_member_func_parameter out toks tag = leave a_type out (placeholder_type 0)
