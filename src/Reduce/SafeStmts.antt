-- ===== src/Reduce/SafeStmts.antt =====
-- The reducers of the statements of src/grammar_rules.c get what they expect.
use low.Prelude.{ℕ, none, some, Bytes, refl}
use low.Lexer.Token.{token_id}
use low.Grammar.Symbols.{
  rule_expr_stmt, rule_compound_stmt, rule_block_item_list, rule_block_item, rule_selection_stmt,
  rule_iteration_stmt, rule_iteration_stmt_for_init, rule_iteration_stmt_for_cond,
  rule_iteration_stmt_for_step, rule_iteration_stmt_for_while, rule_jump_stmt, rule_labeled_stmt,
  rule_stmt,
}
use low.Grammar.Variants.{variants}
use low.Reduce.Run.{reduced}
use low.Reduce.Values.{a_stmt, an_item}
use low.Reduce.Kinds.{IsSafe, All, must}
use low.Reduce.Safe.{as_nullable-may_stmt}

module _ (file : Bytes) (atoi : Bytes → ℕ) where
  pub expr_stmt-IsSafe : All (IsSafe file atoi rule_expr_stmt) (variants rule_expr_stmt)
  unfolding variants reduced token_id
  expr_stmt-IsSafe = (λ rule last cs. (none, refl), (λ rule last cs. (some _, refl), tt))

  pub compound_stmt-IsSafe : All (IsSafe file atoi rule_compound_stmt) (variants rule_compound_stmt)
  unfolding variants reduced token_id
  compound_stmt-IsSafe = (λ rule last cs. (none, refl), (λ rule last cs. (some _, refl), tt))

  pub block_item_list-IsSafe :
      All (IsSafe file atoi rule_block_item_list) (variants rule_block_item_list)
  unfolding variants reduced token_id
  block_item_list-IsSafe = (λ rule last cs. (_, refl), (λ rule last cs. (_, refl), tt))

  pub block_item-IsSafe : All (IsSafe file atoi rule_block_item) (variants rule_block_item)
  unfolding variants reduced token_id
  block_item-IsSafe = (
    λ rule last cs. (_, refl),
    (λ rule last cs. as_nullable-may_stmt (must an_item) cs.0.4 _ (λ a. (_, refl)), tt),
  )

  pub selection_stmt-IsSafe :
      All (IsSafe file atoi rule_selection_stmt) (variants rule_selection_stmt)
  unfolding variants reduced token_id
  selection_stmt-IsSafe = (
    λ rule last cs. as_nullable-may_stmt (must a_stmt) cs.1.1.0.4 _ (λ a. (_, refl)),
    (
      λ rule last cs.
          as_nullable-may_stmt (must a_stmt) cs.1.1.0.4 _
            (λ a. as_nullable-may_stmt (must a_stmt) cs.1.1.1.1.0.4 _ (λ b. (_, refl))),
      (λ rule last cs. as_nullable-may_stmt (must a_stmt) cs.1.1.1.1.0.4 _ (λ a. (_, refl)), tt),
    ),
  )

  pub iteration_stmt-IsSafe :
      All (IsSafe file atoi rule_iteration_stmt) (variants rule_iteration_stmt)
  unfolding variants reduced token_id
  iteration_stmt-IsSafe = (
    λ rule last cs. as_nullable-may_stmt (must a_stmt) cs.1.0.4 _ (λ a. (_, refl)),
    (
      λ rule last cs. as_nullable-may_stmt (must a_stmt) cs.1.0.4 _ (λ a. (_, refl)),
      (λ rule last cs. as_nullable-may_stmt (must a_stmt) cs.1.0.4 _ (λ a. (_, refl)), tt),
    ),
  )

  pub iteration_stmt_for_init-IsSafe :
      All (IsSafe file atoi rule_iteration_stmt_for_init) (variants rule_iteration_stmt_for_init)
  unfolding variants reduced token_id
  iteration_stmt_for_init-IsSafe = (λ rule last cs. (_, refl), (λ rule last cs. (_, refl), tt))

  pub iteration_stmt_for_cond-IsSafe :
      All (IsSafe file atoi rule_iteration_stmt_for_cond) (variants rule_iteration_stmt_for_cond)
  unfolding variants reduced token_id
  iteration_stmt_for_cond-IsSafe = (λ rule last cs. (_, refl), (λ rule last cs. (_, refl), tt))

  pub iteration_stmt_for_step-IsSafe :
      All (IsSafe file atoi rule_iteration_stmt_for_step) (variants rule_iteration_stmt_for_step)
  unfolding variants reduced token_id
  iteration_stmt_for_step-IsSafe = (λ rule last cs. (_, refl), (λ rule last cs. (_, refl), tt))

  pub iteration_stmt_for_while-IsSafe :
      All (IsSafe file atoi rule_iteration_stmt_for_while) (variants rule_iteration_stmt_for_while)
  unfolding variants reduced token_id
  iteration_stmt_for_while-IsSafe = (λ rule last cs. (_, refl), (λ rule last cs. (_, refl), tt))

  pub jump_stmt-IsSafe : All (IsSafe file atoi rule_jump_stmt) (variants rule_jump_stmt)
  unfolding variants reduced token_id
  jump_stmt-IsSafe = (
    λ rule last cs. (_, refl),
    (
      λ rule last cs. (_, refl),
      (λ rule last cs. (_, refl), (λ rule last cs. (_, refl), (λ rule last cs. (_, refl), tt))),
    ),
  )

  pub labeled_stmt-IsSafe : All (IsSafe file atoi rule_labeled_stmt) (variants rule_labeled_stmt)
  unfolding variants reduced token_id
  labeled_stmt-IsSafe = (
    λ rule last cs. as_nullable-may_stmt (must a_stmt) cs.1.1.1.0.4 _ (λ a. (_, refl)),
    (λ rule last cs. as_nullable-may_stmt (must a_stmt) cs.1.1.0.4 _ (λ a. (_, refl)), tt),
  )

  pub stmt-IsSafe : All (IsSafe file atoi rule_stmt) (variants rule_stmt)
  unfolding variants reduced token_id
  stmt-IsSafe = (
    λ rule last cs. (cs.0.4, refl),
    (
      λ rule last cs. (cs.0.4, refl),
      (
        λ rule last cs. (some cs.0.4, refl),
        (
          λ rule last cs. (some cs.0.4, refl),
          (λ rule last cs. (some cs.0.4, refl), (λ rule last cs. (some cs.0.4, refl), tt)),
        ),
      ),
    ),
  )
