-- ===== src/Ast/Tests.antt =====
-- `type_equal` and `type_copy` of src/ast.c at concrete types.
use low.Prelude.{true, false, none, some, codes, ◌≡◌, ◌↔◌, refl, arith}
use low.Ast.LowType.{
  LowType, integer_type, func_type, named_type, struct_type, array_type, slice_type, interface_type,
  no_types, type_and, no_members, member_and, InterfaceMembers, no_interface, member_field,
  unset_field,
}
use low.Ast.Equal.{type_equal}
use low.Ast.Copy.{type_copy}
use low.Ast.Views.{all_set, array_free, nameless}
use low.Ast.Complete.{type_equal_iff, type_equal_equivalence, type_equal_not_transitive}
use low.Ast.CopyLaws.{memberless, type_copy-memberless, type_copy_unset}

abbrev int8 : LowType
int8 = integer_type 0 8

abbrev int16 : LowType
int16 = integer_type 0 16

-- A struct of a slice and a pointer to a function, under the given name.
abbrev node : LowType
node = struct_type 1 (codes "node") (
    member_and (slice_type 0 int8) (codes "data")
      (member_and (func_type 1 int16 (type_and int8 no_types)) (codes "f") no_members))

abbrev sized : InterfaceMembers
sized = member_field (codes "size") int8 no_interface

type_equal_iff_example :
    (type_equal node (named_type 0 (codes "node")) ≡ some true)
    ↔ (nameless node ≡ nameless (named_type 0 (codes "node")))
unfolding all_set array_free
type_equal_iff_example = type_equal_iff node (named_type 0 (codes "node")) refl refl

type_equal_equivalence_example :
    (type_equal node node ≡ some true) × (type_equal node int8 ≡ type_equal int8 node)
unfolding all_set
type_equal_equivalence_example = type_equal_equivalence node int8 refl

type_equal_not_transitive_example :
    (type_equal (array_type 0 int8 3) (array_type 0 int16 3) ≡ some true)
    × (type_equal (array_type 0 int16 3) (array_type 0 int16 4) ≡ some true)
    × (type_equal (array_type 0 int8 3) (array_type 0 int16 4) ≡ some false)
unfolding all_set type_equal
type_equal_not_transitive_example =
    type_equal_not_transitive 0 3 4 int8 int16 (omega arith) refl refl

type_copy-memberless_example : type_copy node ≡ some node
unfolding memberless
type_copy-memberless_example = type_copy-memberless node refl

type_copy_unset_example :
    type_equal
      (interface_type 0 (unset_field (codes "size") int8 no_interface))
      (interface_type 0 (unset_field (codes "size") int8 no_interface))
    ≡ none
unfolding type_copy
type_copy_unset_example =
    type_copy_unset 0 sized (interface_type 0 (unset_field (codes "size") int8 no_interface))
      (λ e. cc e) refl
