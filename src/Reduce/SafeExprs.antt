-- ===== src/Reduce/SafeExprs.antt =====
-- The reducers of the expressions of src/grammar_rules.c get what they expect.
use low.Prelude.{ℕ, Bytes, refl}
use low.Lexer.Token.{token_id, string_literal, number_literal}
use low.Grammar.Symbols.{
  tkn, rule_primary_expr, rule_postfix_expr, rule_argument_expr_list, rule_unary_expr,
  rule_builtin_func, rule_unary_op, rule_cast_expr, rule_multiplicative_expr, rule_additive_expr,
  rule_shift_expr, rule_relational_expr, rule_equality_expr, rule_bitwise_and_expr,
  rule_bitwise_xor_expr, rule_bitwise_or_expr, rule_and_expr, rule_or_expr, rule_conditional_expr,
  rule_assignment_expr, rule_assignment_op, rule_expr,
}
use low.Grammar.Variants.{variants}
use low.Reduce.Run.{reduced}
use low.Ast.Tree.{string_literal_expr, number_literal_expr}
use low.Reduce.Kinds.{IsSafe, All, child_tok}
use low.Reduce.Safe.{from_literal-HasSort}

module _ (file : Bytes) (atoi : Bytes → ℕ) where
  pub primary_expr-IsSafe : All (IsSafe file atoi rule_primary_expr) (variants rule_primary_expr)
  unfolding variants reduced token_id
  primary_expr-IsSafe = (
    λ rule last cs. (_, refl),
    (
      λ rule last cs.
          from_literal-HasSort
            (record (child_tok (tkn string_literal) cs.0) { id = rule; last = last }) _ _
            string_literal_expr,
      (
        λ rule last cs.
            from_literal-HasSort
              (record (child_tok (tkn number_literal) cs.0) { id = rule; last = last }) _ _
              (λ n. number_literal_expr n.1 n.0),
        (λ rule last cs. (_, refl), tt),
      ),
    ),
  )

  pub postfix_expr-IsSafe : All (IsSafe file atoi rule_postfix_expr) (variants rule_postfix_expr)
  unfolding variants reduced token_id
  postfix_expr-IsSafe = (
    λ rule last cs. (_, refl),
    (
      λ rule last cs. (_, refl),
      (
        λ rule last cs. (_, refl),
        (
          λ rule last cs. (_, refl),
          (
            λ rule last cs. (_, refl),
            (
              λ rule last cs. (_, refl),
              (
                λ rule last cs. (_, refl),
                (
                  λ rule last cs. (_, refl),
                  (
                    λ rule last cs. (_, refl),
                    (λ rule last cs. (_, refl), (λ rule last cs. (_, refl), tt)),
                  ),
                ),
              ),
            ),
          ),
        ),
      ),
    ),
  )

  pub argument_expr_list-IsSafe :
      All (IsSafe file atoi rule_argument_expr_list) (variants rule_argument_expr_list)
  unfolding variants reduced token_id
  argument_expr_list-IsSafe = (λ rule last cs. (_, refl), (λ rule last cs. (_, refl), tt))

  pub unary_expr-IsSafe : All (IsSafe file atoi rule_unary_expr) (variants rule_unary_expr)
  unfolding variants reduced token_id
  unary_expr-IsSafe = (
    λ rule last cs. (_, refl),
    (
      λ rule last cs. (_, refl),
      (
        λ rule last cs. (_, refl),
        (
          λ rule last cs. (_, refl),
          (λ rule last cs. (_, refl), (λ rule last cs. (_, refl), (λ rule last cs. (_, refl), tt))),
        ),
      ),
    ),
  )

  pub builtin_func-IsSafe : All (IsSafe file atoi rule_builtin_func) (variants rule_builtin_func)
  unfolding variants reduced token_id
  builtin_func-IsSafe = (
    λ rule last cs. (_, refl),
    (
      λ rule last cs. (_, refl),
      (
        λ rule last cs. (_, refl),
        (
          λ rule last cs. (_, refl),
          (λ rule last cs. (_, refl), (λ rule last cs. (_, refl), (λ rule last cs. (_, refl), tt))),
        ),
      ),
    ),
  )

  pub unary_op-IsSafe : All (IsSafe file atoi rule_unary_op) (variants rule_unary_op)
  unfolding variants reduced token_id
  unary_op-IsSafe = (
    λ rule last cs. (_, refl),
    (
      λ rule last cs. (_, refl),
      (
        λ rule last cs. (_, refl),
        (λ rule last cs. (_, refl), (λ rule last cs. (_, refl), (λ rule last cs. (_, refl), tt))),
      ),
    ),
  )

  pub cast_expr-IsSafe : All (IsSafe file atoi rule_cast_expr) (variants rule_cast_expr)
  unfolding variants reduced token_id
  cast_expr-IsSafe =
      (λ rule last cs. (_, refl), (λ rule last cs. (_, refl), (λ rule last cs. (_, refl), tt)))

  pub multiplicative_expr-IsSafe :
      All (IsSafe file atoi rule_multiplicative_expr) (variants rule_multiplicative_expr)
  unfolding variants reduced token_id
  multiplicative_expr-IsSafe = (
    λ rule last cs. (_, refl),
    (λ rule last cs. (_, refl), (λ rule last cs. (_, refl), (λ rule last cs. (_, refl), tt))),
  )

  pub additive_expr-IsSafe : All (IsSafe file atoi rule_additive_expr) (variants rule_additive_expr)
  unfolding variants reduced token_id
  additive_expr-IsSafe =
      (λ rule last cs. (_, refl), (λ rule last cs. (_, refl), (λ rule last cs. (_, refl), tt)))

  pub shift_expr-IsSafe : All (IsSafe file atoi rule_shift_expr) (variants rule_shift_expr)
  unfolding variants reduced token_id
  shift_expr-IsSafe =
      (λ rule last cs. (_, refl), (λ rule last cs. (_, refl), (λ rule last cs. (_, refl), tt)))

  pub relational_expr-IsSafe :
      All (IsSafe file atoi rule_relational_expr) (variants rule_relational_expr)
  unfolding variants reduced token_id
  relational_expr-IsSafe = (
    λ rule last cs. (_, refl),
    (
      λ rule last cs. (_, refl),
      (λ rule last cs. (_, refl), (λ rule last cs. (_, refl), (λ rule last cs. (_, refl), tt))),
    ),
  )

  pub equality_expr-IsSafe : All (IsSafe file atoi rule_equality_expr) (variants rule_equality_expr)
  unfolding variants reduced token_id
  equality_expr-IsSafe =
      (λ rule last cs. (_, refl), (λ rule last cs. (_, refl), (λ rule last cs. (_, refl), tt)))

  pub bitwise_and_expr-IsSafe :
      All (IsSafe file atoi rule_bitwise_and_expr) (variants rule_bitwise_and_expr)
  unfolding variants reduced token_id
  bitwise_and_expr-IsSafe = (λ rule last cs. (_, refl), (λ rule last cs. (_, refl), tt))

  pub bitwise_xor_expr-IsSafe :
      All (IsSafe file atoi rule_bitwise_xor_expr) (variants rule_bitwise_xor_expr)
  unfolding variants reduced token_id
  bitwise_xor_expr-IsSafe = (λ rule last cs. (_, refl), (λ rule last cs. (_, refl), tt))

  pub bitwise_or_expr-IsSafe :
      All (IsSafe file atoi rule_bitwise_or_expr) (variants rule_bitwise_or_expr)
  unfolding variants reduced token_id
  bitwise_or_expr-IsSafe = (λ rule last cs. (_, refl), (λ rule last cs. (_, refl), tt))

  pub and_expr-IsSafe : All (IsSafe file atoi rule_and_expr) (variants rule_and_expr)
  unfolding variants reduced token_id
  and_expr-IsSafe = (λ rule last cs. (_, refl), (λ rule last cs. (_, refl), tt))

  pub or_expr-IsSafe : All (IsSafe file atoi rule_or_expr) (variants rule_or_expr)
  unfolding variants reduced token_id
  or_expr-IsSafe = (λ rule last cs. (_, refl), (λ rule last cs. (_, refl), tt))

  pub conditional_expr-IsSafe :
      All (IsSafe file atoi rule_conditional_expr) (variants rule_conditional_expr)
  unfolding variants reduced token_id
  conditional_expr-IsSafe = (λ rule last cs. (_, refl), (λ rule last cs. (_, refl), tt))

  pub assignment_expr-IsSafe :
      All (IsSafe file atoi rule_assignment_expr) (variants rule_assignment_expr)
  unfolding variants reduced token_id
  assignment_expr-IsSafe = (λ rule last cs. (_, refl), (λ rule last cs. (_, refl), tt))

  pub assignment_op-IsSafe : All (IsSafe file atoi rule_assignment_op) (variants rule_assignment_op)
  unfolding variants reduced token_id
  assignment_op-IsSafe = (
    λ rule last cs. (_, refl),
    (
      λ rule last cs. (_, refl),
      (
        λ rule last cs. (_, refl),
        (
          λ rule last cs. (_, refl),
          (
            λ rule last cs. (_, refl),
            (
              λ rule last cs. (_, refl),
              (
                λ rule last cs. (_, refl),
                (
                  λ rule last cs. (_, refl),
                  (
                    λ rule last cs. (_, refl),
                    (λ rule last cs. (_, refl), (λ rule last cs. (_, refl), tt)),
                  ),
                ),
              ),
            ),
          ),
        ),
      ),
    ),
  )

  pub expr-IsSafe : All (IsSafe file atoi rule_expr) (variants rule_expr)
  unfolding variants reduced token_id
  expr-IsSafe = (λ rule last cs. (_, refl), (λ rule last cs. (_, refl), tt))
