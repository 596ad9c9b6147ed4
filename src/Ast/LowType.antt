-- ===== src/Ast/LowType.antt =====
-- src/ast.h: the record `type` with its union, as one data type.
--
-- Every constructor carries the field `pointer`, the number of stars, first. A pointer to a type is
-- the type itself: the trees that the parser and `type_copy` build share nothing. The lists `args`
-- and `members` carry `num_args` and `num_members` as their lengths.
use low.Prelude.{ℕ, suc, Bytes}

mutual
  pub data LowType : Type 0 where
    no_type void_type boolean_type placeholder_type : ℕ → LowType
    integer_type float_type : ℕ → ℕ → LowType
    named_type : ℕ → Bytes → LowType
    func_type : ℕ → LowType → Types → LowType
    struct_type : ℕ → Bytes → StructMembers → LowType
    array_type : ℕ → LowType → ℕ → LowType
    slice_type : ℕ → LowType → LowType
    interface_type : ℕ → InterfaceMembers → LowType

  pub data Types : Type 0 where
    no_types : Types
    type_and : LowType → Types → Types

  -- A type and a name each.
  pub data StructMembers : Type 0 where
    no_members : StructMembers
    member_and : LowType → Bytes → StructMembers → StructMembers

  -- `AST_MEMBER_FIELD`, with name and type, and `AST_MEMBER_FUNCTION`, with name, result and
  -- arguments. In the last two, `kind` was never written, and so was the number of arguments.
  pub data InterfaceMembers : Type 0 where
    no_interface : InterfaceMembers
    member_field : Bytes → LowType → InterfaceMembers → InterfaceMembers
    member_func : Bytes → LowType → Types → InterfaceMembers → InterfaceMembers
    unset_field : Bytes → LowType → InterfaceMembers → InterfaceMembers
    unset_func : Bytes → LowType → Types → InterfaceMembers → InterfaceMembers

-- `num_args` and the two `num_members`.
abbrev pub num_args : Types → ℕ
num_args no_types = 0
num_args (type_and t ts) = suc (num_args ts)

abbrev pub num_members : StructMembers → ℕ
num_members no_members = 0
num_members (member_and t n ms) = suc (num_members ms)

abbrev pub num_interface_members : InterfaceMembers → ℕ
num_interface_members no_interface = 0
num_interface_members (member_field n t ms) = suc (num_interface_members ms)
num_interface_members (member_func n r ts ms) = suc (num_interface_members ms)
num_interface_members (unset_field n t ms) = suc (num_interface_members ms)
num_interface_members (unset_func n r ts ms) = suc (num_interface_members ms)
