-- ===== src/Codegen/Flow/Ends.antt =====
-- src/codegen.c: which statements end the block that they stand in.
use low.Prelude.{◌≡◌, Bool, true, false, ◌&&◌}
use low.Ast.Tree.{
  Stmt, stmt_at, StmtForm, compound_stmt, if_stmt, for_stmt, continue_stmt, break_stmt, return_stmt,
  OptStmt, null_stmt, stmt_ptr, BlockItem, stmt_block_item, decl_block_item, BlockItems, no_items,
  item_and,
}

-- Control does not go on behind a jump, behind an `if` with two such sides, and behind a compound
-- with such an end.
unfoldable mutual
  pub ends : Stmt → Bool
  ends (stmt_at loc form) = ends_form form

  pub ends_form : StmtForm → Bool
  ends_form (compound_stmt items) = ends_items items
  ends_form (if_stmt condition then_stmt null_stmt) = false
  ends_form (if_stmt condition then_stmt (stmt_ptr else_stmt)) =
      ends_opt then_stmt && ends else_stmt
  ends_form continue_stmt = true
  ends_form break_stmt = true
  ends_form (return_stmt e) = true
  ends_form _ = false

  pub ends_opt : OptStmt → Bool
  ends_opt null_stmt = false
  ends_opt (stmt_ptr s) = ends s

  pub ends_item : BlockItem → Bool
  ends_item (stmt_block_item s) = ends_opt s
  ends_item (decl_block_item d) = false

  pub ends_items : BlockItems → Bool
  ends_items no_items = false
  ends_items (item_and item no_items) = ends_item item
  ends_items (item_and item (item_and next items)) = ends_items (item_and next items)

-- Nothing stands behind a statement that ends its block, and no body of a loop ends its block.
unfoldable mutual
  unfolding ends

  pub NoDeadCode : Stmt → Type 0
  NoDeadCode (stmt_at loc form) = NoDeadForm form

  pub NoDeadForm : StmtForm → Type 0
  NoDeadForm (compound_stmt items) = NoDeadItems items
  NoDeadForm (if_stmt condition then_stmt null_stmt) = NoDeadOpt then_stmt
  NoDeadForm (if_stmt condition then_stmt (stmt_ptr else_stmt)) =
      NoDeadOpt then_stmt × NoDeadCode else_stmt
  NoDeadForm (for_stmt initial condition step body) = NoDeadOpt body × (ends_opt body ≡ false)
  NoDeadForm _ = Unit

  pub NoDeadOpt : OptStmt → Type 0
  NoDeadOpt null_stmt = Unit
  NoDeadOpt (stmt_ptr s) = NoDeadCode s

  pub NoDeadItem : BlockItem → Type 0
  NoDeadItem (stmt_block_item s) = NoDeadOpt s
  NoDeadItem (decl_block_item d) = Unit

  pub NoDeadItems : BlockItems → Type 0
  NoDeadItems no_items = Unit
  NoDeadItems (item_and item no_items) = NoDeadItem item
  NoDeadItems (item_and item (item_and next items)) =
      NoDeadItem item × (ends_item item ≡ false) × NoDeadItems (item_and next items)
