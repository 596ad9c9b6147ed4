-- ===== src/Reduce/Values.antt =====
-- src/grammar.h: `struct token`, and what the untyped pointer in it points to.
use low.Prelude.{ℕ, zero, suc, ◌-◌, List, [], ◌∷◌, Option, none, some, Bytes, take, drop}
use low.Ast.LowType.{
  LowType, Types, no_types, type_and, StructMembers, no_members, member_and, InterfaceMembers,
  no_interface, member_field, member_func,
}
use low.Ast.Tree.{
  Loc, Expr, Exprs, no_exprs, expr_and, OptExpr, OptStmt, Stmt, Decl, BlockItem, BlockItems,
  no_items, item_and, UnitDecl, FuncUnit, UnaryOp, AssignmentOp,
}

-- `aborts`: a call of `abort`. `confused`: a pointer used as one to another type, a null pointer
-- where the code needs an object, or an index outside the tokens that are reduced. `overrun`: a read
-- behind a text that is none of its kind of literal.
pub data Outcome {ℓ} (A : Type ℓ) : Type ℓ where
  ok : A → Outcome A
  aborts confused overrun : Outcome A

infixl 5 ◌>>=◌
abbrev pub ◌>>=◌ {ℓ κ} : {A : Type ℓ} {B : Type κ} → Outcome A → (A → Outcome B) → Outcome B
ok a >>= f = f a
aborts >>= f = aborts
confused >>= f = confused
overrun >>= f = overrun

-- A `for` statement whose parts are still being set.
pub record Loop : Type 0 where
  pub loc : Loc
  pub initial : OptExpr
  pub condition : OptExpr
  pub step : OptExpr

pub data InterfaceMember : Type 0 where
  field : Bytes → LowType → InterfaceMember
  func : Bytes → LowType → Types → InterfaceMember

-- The types of objects that a token points to. The last two are the values of `tag`, which shares its
-- memory with the pointer.
pub data Kind : Type 0 where
  an_expr a_stmt a_loop a_decl a_type a_unit a_func an_item a_member an_interface_member : Kind
  a_mapping a_param a_unary_op an_assignment_op : Kind

abbrev pub Typed : Kind → Type 0
Typed an_expr = Expr
Typed a_stmt = Stmt
Typed a_loop = Loop
Typed a_decl = Decl
Typed a_type = LowType
Typed a_unit = UnitDecl
Typed a_func = FuncUnit
Typed an_item = BlockItem
Typed a_member = LowType × Bytes
Typed an_interface_member = InterfaceMember
Typed a_mapping = Bytes × Bytes
Typed a_param = LowType × Option Bytes
Typed a_unary_op = UnaryOp
Typed an_assignment_op = AssignmentOp

-- Null, a pointer to an object, or one to an array of objects.
pub data Value : Type 0 where
  null : Value
  one : (k : Kind) → Typed k → Value
  many : (k : Kind) → List (Typed k) → Value

-- `id` is the number of a token or rule; `first` and `last` are offsets into the file.
pub record Tok : Type 0 where
  pub id : ℕ
  pub first : ℕ
  pub last : ℕ
  pub loc : Loc
  pub value : Value

-- A pointer used as one to an object of the given type.
abbrev pub as_one : (k : Kind) → Value → Outcome (Typed k)
as_one an_expr (one an_expr e) = ok e
as_one a_stmt (one a_stmt s) = ok s
as_one a_loop (one a_loop l) = ok l
as_one a_decl (one a_decl d) = ok d
as_one a_type (one a_type t) = ok t
as_one a_unit (one a_unit u) = ok u
as_one a_func (one a_func f) = ok f
as_one an_item (one an_item b) = ok b
as_one a_member (one a_member m) = ok m
as_one an_interface_member (one an_interface_member m) = ok m
as_one a_mapping (one a_mapping m) = ok m
as_one a_param (one a_param p) = ok p
as_one a_unary_op (one a_unary_op op) = ok op
as_one an_assignment_op (one an_assignment_op op) = ok op
as_one _ _ = confused

abbrev pub as_many : (k : Kind) → Value → Outcome (List (Typed k))
as_many an_expr (many an_expr e) = ok e
as_many a_stmt (many a_stmt s) = ok s
as_many a_loop (many a_loop l) = ok l
as_many a_decl (many a_decl d) = ok d
as_many a_type (many a_type t) = ok t
as_many a_unit (many a_unit u) = ok u
as_many a_func (many a_func f) = ok f
as_many an_item (many an_item b) = ok b
as_many a_member (many a_member m) = ok m
as_many an_interface_member (many an_interface_member m) = ok m
as_many a_mapping (many a_mapping m) = ok m
as_many a_param (many a_param p) = ok p
as_many a_unary_op (many a_unary_op op) = ok op
as_many an_assignment_op (many an_assignment_op op) = ok op
as_many _ _ = confused

-- The same where the pointer may be null.
abbrev pub as_nullable : (k : Kind) → Value → Outcome (Option (Typed k))
as_nullable k null = ok none
as_nullable k value = as_one k value >>= λ a. ok (some a)

-- `in[i]`.
abbrev pub operand : List Tok → ℕ → Outcome Tok
operand [] i = confused
operand (t ∷ rest) zero = ok t
operand (t ∷ rest) (suc i) = operand rest i

abbrev pub expr_array : List Expr → Exprs
expr_array [] = no_exprs
expr_array (e ∷ es) = expr_and e (expr_array es)

abbrev pub item_array : List BlockItem → BlockItems
item_array [] = no_items
item_array (b ∷ bs) = item_and b (item_array bs)

abbrev pub type_array : List LowType → Types
type_array [] = no_types
type_array (t ∷ ts) = type_and t (type_array ts)

abbrev pub member_array : List (LowType × Bytes) → StructMembers
member_array [] = no_members
member_array ((t, name) ∷ ms) = member_and t name (member_array ms)

abbrev pub interface_array : List InterfaceMember → InterfaceMembers
interface_array [] = no_interface
interface_array (field name t ∷ ms) = member_field name t (interface_array ms)
interface_array (func name t args ∷ ms) = member_func name t args (interface_array ms)

abbrev pub stmt_or_null : Option Stmt → OptStmt
stmt_or_null none = OptStmt.null_stmt
stmt_or_null (some s) = OptStmt.stmt_ptr s

-- `strndup(first, last - first)`.
abbrev pub text_of : Bytes → Tok → Bytes
text_of file t = take (t.last - t.first) (drop t.first file)
