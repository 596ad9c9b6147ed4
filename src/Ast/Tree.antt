-- ===== src/Ast/Tree.antt =====
-- src/ast.h: expressions, statements, declarations and units, each record with its union as one data
-- type. A pointer to a node is the node itself: the trees that the parser builds share nothing.
-- `Option`, `OptExpr` and `OptStmt` mark the pointers that the parser may leave null, and an array
-- carries its length.
use low.Prelude.{ℕ, suc, Bool, List, Option, Bytes}
use low.Ast.LowType.{LowType}

-- src/grammar.h: `struct loc`.
pub record Loc : Type 0 where
  pub filename : Bytes
  pub line : ℕ
  pub col : ℕ

pub data IndexSliceKind : Type 0 where
  slice_range slice_prefix slice_postfix slice_copy : IndexSliceKind

pub data IncdecOrder : Type 0 where
  pre post : IncdecOrder

pub data IncdecDirection : Type 0 where
  inc dec : IncdecDirection

pub data UnaryOp : Type 0 where
  op_address op_deref op_positive op_negative op_bitwise_not op_not : UnaryOp

pub data LencapKind : Type 0 where
  lencap_len lencap_cap : LencapKind

pub data BinaryOp : Type 0 where
  op_add op_sub op_mul op_div op_mod op_left op_right op_lt op_gt op_le op_ge op_eq op_ne : BinaryOp
  op_bitwise_and op_bitwise_xor op_bitwise_or op_and op_or : BinaryOp

pub data AssignmentOp : Type 0 where
  op_assign op_add_assign op_and_assign op_div_assign op_left_assign op_mod_assign : AssignmentOp
  op_mul_assign op_or_assign op_right_assign op_sub_assign op_xor_assign : AssignmentOp

mutual
  -- Where it stands, its type, which the parser leaves zero, and the union with its kind.
  pub data Expr : Type 0 where
    expr_at : Loc → LowType → ExprForm → Expr

  pub data ExprForm : Type 0 where
    ident_expr string_literal_expr : Bytes → ExprForm
    number_literal_expr : Bytes → ℕ → ExprForm
    index_access_expr : Expr → Expr → ExprForm
    index_slice_expr : Expr → OptExpr → OptExpr → IndexSliceKind → ExprForm
    call_expr : Expr → Exprs → ExprForm
    member_access_expr : Expr → Bytes → ExprForm
    incdec_expr : Expr → IncdecOrder → IncdecDirection → ExprForm
    unary_expr : Expr → UnaryOp → ExprForm
    sizeof_expr : Expr → ExprForm
    sizeof_type : LowType → ExprForm
    cast_expr : Expr → LowType → ExprForm
    binary_expr : Expr → Expr → BinaryOp → ExprForm
    conditional_expr : Expr → Expr → Expr → ExprForm
    assignment_expr : Expr → Expr → AssignmentOp → ExprForm
    comma_expr : Exprs → ExprForm
    new_builtin : LowType → OptExpr → ExprForm
    free_builtin dispose_builtin : Expr → ExprForm
    make_builtin : LowType → Expr → ExprForm
    lencap_builtin : LencapKind → Expr → ExprForm

  -- A pointer that may be null.
  pub data OptExpr : Type 0 where
    null_expr : OptExpr
    expr_ptr : Expr → OptExpr

  pub data Exprs : Type 0 where
    no_exprs : Exprs
    expr_and : Expr → Exprs → Exprs

pub data Decl : Type 0 where
  variable_decl : Loc → LowType → Bytes → OptExpr → Decl
  const_decl : Loc → Bytes → Option LowType → Expr → Decl
  implementation_decl : Loc → LowType → LowType → List (Bytes × Bytes) → Decl

mutual
  pub data Stmt : Type 0 where
    stmt_at : Loc → StmtForm → Stmt

  -- `for_stmt` carries `initial`, `condition`, `step` and `stmt`, and `do_stmt` the second and last.
  pub data StmtForm : Type 0 where
    expr_stmt : Expr → StmtForm
    compound_stmt : BlockItems → StmtForm
    if_stmt : Expr → OptStmt → OptStmt → StmtForm
    switch_stmt : Expr → OptStmt → StmtForm
    do_stmt : Expr → OptStmt → StmtForm
    for_stmt : OptExpr → OptExpr → OptExpr → OptStmt → StmtForm
    goto_stmt : Bytes → StmtForm
    continue_stmt break_stmt : StmtForm
    return_stmt : OptExpr → StmtForm
    label_stmt : Bytes → OptStmt → StmtForm
    case_stmt : Expr → OptStmt → StmtForm
    default_stmt : OptStmt → StmtForm

  pub data OptStmt : Type 0 where
    null_stmt : OptStmt
    stmt_ptr : Stmt → OptStmt

  pub data BlockItem : Type 0 where
    stmt_block_item : OptStmt → BlockItem
    decl_block_item : Decl → BlockItem

  pub data BlockItems : Type 0 where
    no_items : BlockItems
    item_and : BlockItem → BlockItems → BlockItems

pub record FuncUnit : Type 0 where
  pub loc : Loc
  pub return_type : LowType
  pub name : Bytes
  pub params : List (LowType × Option Bytes)
  pub variadic : Bool
  pub body : OptStmt

pub data UnitDecl : Type 0 where
  import_unit package_unit : Loc → Bytes → UnitDecl
  decl_unit : Loc → Decl → UnitDecl
  func_unit : FuncUnit → UnitDecl
  type_unit : Loc → LowType → Bytes → UnitDecl

-- `num_exprs`, `num_args` and `num_items`.
abbrev pub num_exprs : Exprs → ℕ
num_exprs no_exprs = 0
num_exprs (expr_and e es) = suc (num_exprs es)

abbrev pub num_items : BlockItems → ℕ
num_items no_items = 0
num_items (item_and b bs) = suc (num_items bs)
