-- ===== src/Reduce/Stmts.antt =====
-- src/grammar_rules.c: the reducers of statements.
use low.Prelude.{ℕ, zero, suc, ◌++◌, ◌∷◌, [], List, Option, none, some, Bytes, ◌==◌, if◌then◌else◌}
use low.Ast.Tree.{
  Loc, Expr, expr_at, OptExpr, null_expr, expr_ptr, Stmt, expr_stmt, compound_stmt, if_stmt,
  switch_stmt, do_stmt, for_stmt, goto_stmt, continue_stmt, break_stmt, return_stmt, label_stmt,
  case_stmt, default_stmt, BlockItem, stmt_block_item, decl_block_item,
}
use low.Reduce.Values.{
  Outcome, ok, ◌>>=◌, an_expr, a_stmt, a_loop, a_decl, an_item, many, Tok, item_array, stmt_or_null,
  Loop,
}
use low.Reduce.Operands.{pointer, nullable, array_at, loc_of, text_at, leave, leave_stmt}

-- `s->loc = s->expr->loc`.
abbrev pub expr_loc : Expr → Loc
expr_loc (expr_at loc t form) = loc

-- The location of a statement that is given none.
abbrev pub no_loc : Loc
no_loc = record { filename = []; line = 0; col = 0 }

-- A pointer that is set under `tag == 1` only.
abbrev pub tagged_expr : List Tok → ℕ → ℕ → Outcome OptExpr
tagged_expr toks tag i =
    if tag == 1 then (pointer an_expr toks i >>= λ e. ok (expr_ptr e)) else ok null_expr

abbrev pub reduce_expr_stmt : Tok → List Tok → ℕ → Outcome Tok
reduce_expr_stmt out toks tag = do
  e ← pointer an_expr toks 0
  leave_stmt out (expr_loc e) (expr_stmt e)

abbrev pub reduce_compound_stmt : Tok → List Tok → ℕ → Outcome Tok
reduce_compound_stmt out toks tag = do
  loc ← loc_of toks 0
  items ← array_at an_item toks 1
  leave_stmt out loc (compound_stmt (item_array items))

-- An item that is null is left out.
abbrev pub block_item_new : Option BlockItem → List BlockItem
block_item_new none = []
block_item_new (some b) = b ∷ []

abbrev pub reduce_block_item_list : Tok → List Tok → ℕ → Outcome Tok
reduce_block_item_list out toks zero = do
  b ← nullable an_item toks 0
  ok (record out { value = many an_item (block_item_new b) })
reduce_block_item_list out toks (suc tag) = do
  items ← array_at an_item toks 0
  b ← nullable an_item toks 1
  ok (record out { value = many an_item (items ++ block_item_new b) })

abbrev pub reduce_block_item_decl : Tok → List Tok → ℕ → Outcome Tok
reduce_block_item_decl out toks tag = do
  d ← pointer a_decl toks 0
  leave an_item out (decl_block_item d)

abbrev pub reduce_block_item_stmt : Tok → List Tok → ℕ → Outcome Tok
reduce_block_item_stmt out toks tag = do
  s ← nullable a_stmt toks 0
  leave an_item out (stmt_block_item (stmt_or_null s))

-- `else_stmt`, which stays null without the tag.
abbrev pub else_part : List Tok → ℕ → Outcome (Option Stmt)
else_part toks tag = if tag == 1 then nullable a_stmt toks 4 else ok none

abbrev pub reduce_selection_stmt_if : Tok → List Tok → ℕ → Outcome Tok
reduce_selection_stmt_if out toks tag = do
  loc ← loc_of toks 0
  condition ← pointer an_expr toks 1
  s ← nullable a_stmt toks 2
  other ← else_part toks tag
  leave_stmt out loc (if_stmt condition (stmt_or_null s) (stmt_or_null other))

abbrev pub reduce_selection_stmt_switch : Tok → List Tok → ℕ → Outcome Tok
reduce_selection_stmt_switch out toks tag = do
  loc ← loc_of toks 0
  condition ← pointer an_expr toks 2
  s ← nullable a_stmt toks 4
  leave_stmt out loc (switch_stmt condition (stmt_or_null s))

abbrev pub reduce_iteration_stmt_do : Tok → List Tok → ℕ → Outcome Tok
reduce_iteration_stmt_do out toks tag = do
  loc ← loc_of toks 0
  s ← nullable a_stmt toks 1
  condition ← pointer an_expr toks 4
  leave_stmt out loc (do_stmt condition (stmt_or_null s))

-- The statement stays where it is while its parts are set: it is an object of type `Loop` until
-- `iteration_stmt_for` sets the last.
abbrev pub new_loop : Loc → Loop
new_loop loc = record { loc = loc; initial = null_expr; condition = null_expr; step = null_expr }

-- Under the tag, the field set to `in[1]`; `out->ptr` is left as it is, which is `in[0].ptr`.
abbrev pub set_part : (Loop → OptExpr → Loop) → Tok → List Tok → ℕ → Outcome Tok
set_part set out toks tag = do
  l ← pointer a_loop toks 0
  (if tag == 1
      then (pointer an_expr toks 1 >>= λ e. leave a_loop out (set l (expr_ptr e)))
      else leave a_loop out l)

abbrev pub reduce_iteration_stmt_for_init : Tok → List Tok → ℕ → Outcome Tok
reduce_iteration_stmt_for_init out toks tag = do
  loc ← loc_of toks 0
  e ← tagged_expr toks tag 1
  leave a_loop out (record (new_loop loc) { initial = e })

abbrev pub reduce_iteration_stmt_for_cond : Tok → List Tok → ℕ → Outcome Tok
reduce_iteration_stmt_for_cond out toks tag =
    set_part (λ l e. record l { condition = e }) out toks tag

abbrev pub reduce_iteration_stmt_for_step : Tok → List Tok → ℕ → Outcome Tok
reduce_iteration_stmt_for_step out toks tag = set_part (λ l e. record l { step = e }) out toks tag

abbrev pub reduce_iteration_stmt_for_while : Tok → List Tok → ℕ → Outcome Tok
reduce_iteration_stmt_for_while out toks tag = do
  loc ← loc_of toks 0
  e ← tagged_expr toks tag 1
  leave a_loop out (record (new_loop loc) { condition = e })

abbrev pub reduce_iteration_stmt_for : Tok → List Tok → ℕ → Outcome Tok
reduce_iteration_stmt_for out toks tag = do
  l ← pointer a_loop toks 0
  s ← nullable a_stmt toks 1
  leave_stmt out l.loc (for_stmt l.initial l.condition l.step (stmt_or_null s))

abbrev pub reduce_jump_stmt_continue : Tok → List Tok → ℕ → Outcome Tok
reduce_jump_stmt_continue out toks tag = do loc ← loc_of toks 0; leave_stmt out loc continue_stmt

abbrev pub reduce_jump_stmt_break : Tok → List Tok → ℕ → Outcome Tok
reduce_jump_stmt_break out toks tag = do loc ← loc_of toks 0; leave_stmt out loc break_stmt

abbrev pub reduce_jump_stmt_return : Tok → List Tok → ℕ → Outcome Tok
reduce_jump_stmt_return out toks tag = do
  loc ← loc_of toks 0
  e ← tagged_expr toks tag 1
  leave_stmt out loc (return_stmt e)

abbrev pub reduce_labeled_stmt_case : Tok → List Tok → ℕ → Outcome Tok
reduce_labeled_stmt_case out toks tag = do
  e ← pointer an_expr toks 1
  s ← nullable a_stmt toks 3
  leave_stmt out no_loc (case_stmt e (stmt_or_null s))

abbrev pub reduce_labeled_stmt_default : Tok → List Tok → ℕ → Outcome Tok
reduce_labeled_stmt_default out toks tag = do
  s ← nullable a_stmt toks 2
  leave_stmt out no_loc (default_stmt (stmt_or_null s))

module _ (file : Bytes) where
  abbrev pub reduce_jump_stmt_goto : Tok → List Tok → ℕ → Outcome Tok
  reduce_jump_stmt_goto out toks tag = do
    name ← text_at file toks 1
    leave_stmt out no_loc (goto_stmt name)

  abbrev pub reduce_labeled_stmt_name : Tok → List Tok → ℕ → Outcome Tok
  reduce_labeled_stmt_name out toks tag = do
    name ← text_at file toks 0
    s ← nullable a_stmt toks 2
    leave_stmt out no_loc (label_stmt name (stmt_or_null s))
