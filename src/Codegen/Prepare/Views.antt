-- ===== src/Codegen/Prepare/Views.antt =====
-- src/ast.h: the fields that the files src/codegen_*.c read from expressions and types.
use low.Prelude.{
  ℕ, zero, suc, true, false, List, [], ◌∷◌, Option, none, some, Bytes, str_equal, get_elem?,
}
use low.Ast.LowType.{
  LowType, integer_type, boolean_type, Types, StructMembers, no_members, member_and,
  InterfaceMembers, no_interface, member_field, member_func, unset_field, unset_func,
}
use low.Ast.Tree.{Expr, expr_at, Exprs, no_exprs, expr_and}
use low.Codegen.State.{Outcome, ok, aborts, invalid, M, ◌>>>=◌}

abbrev pub type_of : Expr → LowType
type_of (expr_at loc type form) = type

abbrev pub with_type : LowType → Expr → Expr
with_type type (expr_at loc old form) = expr_at loc type form

-- The width of lengths and indices.
abbrev pub int_type : LowType
int_type = integer_type 0 64

abbrev pub bool_type : LowType
bool_type = boolean_type 0

-- The type of the member with a name, and its place: the loops of `member_access_expr`.
unfoldable pub struct_member : ℕ → Bytes → StructMembers → Option (ℕ × LowType)
struct_member i name no_members = none
struct_member i name (member_and t n ms) = elim (str_equal name n) [
  | true ↦ some (i, t)
  | false ↦ struct_member (suc i) name ms
]

-- `invalid` where the `kind` of a member was never written.
unfoldable pub interface_field : ℕ → Bytes → InterfaceMembers → Outcome (Option (ℕ × LowType))
interface_field i name no_interface = ok none
interface_field i name (member_field n t ms) = elim (str_equal name n) [
  | true ↦ ok (some (i, t))
  | false ↦ interface_field (suc i) name ms
]
interface_field i name (member_func n r ts ms) = interface_field (suc i) name ms
interface_field i name (unset_field n t ms) = invalid
interface_field i name (unset_func n r ts ms) = invalid

-- `interface.members + member`, which the code takes for a function.
unfoldable pub interface_func : ℕ → InterfaceMembers → Outcome (Bytes × LowType × Types)
interface_func i no_interface = invalid
interface_func zero (member_field n t ms) = aborts
interface_func zero (member_func n r ts ms) = ok (n, r, ts)
interface_func zero (unset_field n t ms) = invalid
interface_func zero (unset_func n r ts ms) = invalid
interface_func (suc i) (member_field n t ms) = interface_func i ms
interface_func (suc i) (member_func n r ts ms) = interface_func i ms
interface_func (suc i) (unset_field n t ms) = interface_func i ms
interface_func (suc i) (unset_func n r ts ms) = interface_func i ms

-- The element at a place, which may be behind the end of the array.
unfoldable pub nth_expr : ℕ → Exprs → Option Expr
nth_expr i no_exprs = none
nth_expr zero (expr_and e es) = some e
nth_expr (suc i) (expr_and e es) = nth_expr i es

-- The value of a constant, and the same with another one there.
abbrev pub const_at : Option Expr → Outcome Expr
const_at none = invalid
const_at (some e) = ok e

abbrev pub read_const : ℕ → M Expr
read_const i st = const_at (get_elem? st.consts i) >>>= λ e. ok (e, st)

unfoldable pub replace_at : ℕ → Expr → List Expr → List Expr
replace_at i e [] = []
replace_at zero e (x ∷ xs) = e ∷ xs
replace_at (suc i) e (x ∷ xs) = x ∷ replace_at i e xs

abbrev pub write_const : ℕ → Expr → M (Unit {0})
write_const i e st = ok (tt, record st { consts = replace_at i e st.consts })
