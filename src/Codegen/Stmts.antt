-- ===== src/Codegen/Stmts.antt =====
-- src/codegen.c: `codegen_stmt`.
use low.Prelude.{ℕ, Bool, true, false, not, ◌&&◌, Option, none, some}
use low.Ast.LowType.{LowType}
use low.Ast.Tree.{
  Expr, OptExpr, null_expr, expr_ptr, Stmt, stmt_at, StmtForm, expr_stmt, compound_stmt, if_stmt,
  for_stmt, continue_stmt, break_stmt, return_stmt, OptStmt, null_stmt, stmt_ptr, stmt_block_item,
  decl_block_item, BlockItems, no_items, item_and,
}
use low.Codegen.Llvm.{ValueRef, br, cond_br, ret, ret_void, unreachable}
use low.Codegen.State.{
  derror, aborts, M, pure, stop, check, do_build, append_basic_block, position_at_end, ◌>>=◌, ◌>>◌,
}
use low.Codegen.Context.{enter_scope, leave_scope, set_terminated, equal}
use low.Codegen.Prepare.Views.{type_of, bool_type}
use low.Codegen.Exprs.Run.{codegen_expr_top}
use low.Codegen.Decls.{codegen_decl}

-- The fields of `struct codegen` that statements read: where `break` and `continue` lead, and the
-- type that the function returns.
pub record Self : Type 0 where
  pub break_block : Option ℕ
  pub continue_block : Option ℕ
  pub return_type : Option LowType

abbrev pub when : Bool → M (Unit {0}) → M (Unit {0})
when true m = m
when false m = pure tt

-- An assertion that there is such a block.
abbrev pub jump_to : Option ℕ → M (Unit {0})
jump_to none = stop aborts
jump_to (some block) = do do_build (br block); set_terminated

module _ (depth fuel : ℕ) where
  abbrev pub codegen_opt_expr : OptExpr → M (Unit {0})
  codegen_opt_expr null_expr = pure tt
  codegen_opt_expr (expr_ptr e) = codegen_expr_top depth fuel e false none >>= λ r. pure tt

  -- The condition of `if`, in a context of its own.
  abbrev pub codegen_condition : Expr → M ValueRef
  codegen_condition condition = do
    enter_scope
    r ← codegen_expr_top depth fuel condition false (some bool_type)
    same_type ← equal (type_of r.1) bool_type
    check same_type derror
    terminated ← leave_scope
    pure r.0

  -- The condition of `for`.
  abbrev pub loop_condition : OptExpr → ℕ → ℕ → M (Unit {0})
  loop_condition null_expr body_block exit_block = do_build (br body_block)
  loop_condition (expr_ptr e) body_block exit_block = do
    r ← codegen_expr_top depth fuel e false (some bool_type)
    do_build (cond_br r.0 body_block exit_block)

  abbrev pub codegen_return : Option LowType → OptExpr → M (Unit {0})
  codegen_return type null_expr = do do_build ret_void; set_terminated
  codegen_return none (expr_ptr e) = stop aborts
  codegen_return (some type) (expr_ptr e) = do
    r ← codegen_expr_top depth fuel e false (some type)
    do_build (ret r.0)
    set_terminated

  -- One side of `if`, in a context of its own: whether it is terminated.
  abbrev pub codegen_side : ℕ → ℕ → M (Unit {0}) → M Bool
  codegen_side block exit_block side = do
    enter_scope
    position_at_end block
    side
    terminated ← leave_scope
    when (not terminated) (do_build (br exit_block))
    pure terminated

  abbrev pub after_if : ℕ → Bool → M (Unit {0})
  after_if exit_block terminated = do
    position_at_end exit_block
    when terminated (do_build unreachable >> set_terminated)

  abbrev pub if_then : Expr → M (Unit {0}) → M (Unit {0})
  if_then condition side = do
    cond ← codegen_condition condition
    true_block ← append_basic_block
    exit_block ← append_basic_block
    do_build (cond_br cond true_block exit_block)
    terminated ← codegen_side true_block exit_block side
    after_if exit_block false

  abbrev pub if_then_else : Expr → M (Unit {0}) → M (Unit {0}) → M (Unit {0})
  if_then_else condition side other = do
    cond ← codegen_condition condition
    true_block ← append_basic_block
    false_block ← append_basic_block
    exit_block ← append_basic_block
    do_build (cond_br cond true_block false_block)
    true_terminated ← codegen_side true_block exit_block side
    false_terminated ← codegen_side false_block exit_block other
    after_if exit_block (true_terminated && false_terminated)

  -- `body` gets the blocks that `continue` and `break` lead to.
  abbrev pub loop : OptExpr → OptExpr → OptExpr → (ℕ → ℕ → M (Unit {0})) → M (Unit {0})
  loop initial condition step body = do
    enter_scope
    codegen_opt_expr initial
    loop_block ← append_basic_block
    body_block ← append_basic_block
    step_block ← append_basic_block
    exit_block ← append_basic_block
    do_build (br loop_block)
    position_at_end loop_block
    loop_condition condition body_block exit_block
    position_at_end body_block
    body step_block exit_block
    do_build (br step_block)
    position_at_end step_block
    codegen_opt_expr step
    do_build (br loop_block)
    position_at_end exit_block
    terminated ← leave_scope
    pure tt

  unfoldable mutual
    unfolding codegen_decl codegen_expr_top

    pub codegen_stmt : Self → Stmt → M (Unit {0})
    codegen_stmt self (stmt_at loc form) = codegen_stmt_form self form

    pub codegen_stmt_form : Self → StmtForm → M (Unit {0})
    codegen_stmt_form self (expr_stmt e) = codegen_opt_expr (expr_ptr e)
    codegen_stmt_form self (compound_stmt items) = do
      enter_scope
      codegen_items self items
      terminated ← leave_scope
      when terminated set_terminated
    codegen_stmt_form self (if_stmt condition then_stmt null_stmt) =
        if_then condition (codegen_opt_stmt self then_stmt)
    codegen_stmt_form self (if_stmt condition then_stmt (stmt_ptr else_stmt)) =
        if_then_else condition (codegen_opt_stmt self then_stmt) (codegen_stmt self else_stmt)
    codegen_stmt_form self (for_stmt initial condition step body) =
        loop initial condition step λ continue_block break_block.
          codegen_opt_stmt
            (record self { break_block = some break_block; continue_block = some continue_block })
            body
    codegen_stmt_form self continue_stmt = jump_to self.continue_block
    codegen_stmt_form self break_stmt = jump_to self.break_block
    codegen_stmt_form self (return_stmt e) = codegen_return self.return_type e
    codegen_stmt_form self _ = stop aborts

    pub codegen_opt_stmt : Self → OptStmt → M (Unit {0})
    codegen_opt_stmt self null_stmt = pure tt
    codegen_opt_stmt self (stmt_ptr s) = codegen_stmt self s

    pub codegen_items : Self → BlockItems → M (Unit {0})
    codegen_items self no_items = pure tt
    codegen_items self (item_and (stmt_block_item s) items) = do
      codegen_opt_stmt self s
      codegen_items self items
    codegen_items self (item_and (decl_block_item d) items) = do
      codegen_decl depth fuel d
      codegen_items self items
