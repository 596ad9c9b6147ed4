-- ===== src/Reduce/SafeUnits.antt =====
-- The reducers of the units of src/grammar_rules.c get what they expect.
use low.Prelude.{ℕ, none, some, Bytes, refl}
use low.Lexer.Token.{token_id}
use low.Grammar.Symbols.{
  rule_import_unit, rule_package_unit, rule_decl_unit, rule_func_unit, rule_func_unit_decl,
  rule_parameter_list, rule_parameter, rule_type_unit, rule_unit_list, rule_unit,
}
use low.Grammar.Variants.{variants}
use low.Reduce.Run.{reduced}
use low.Reduce.Values.{a_unit}
use low.Reduce.Kinds.{IsSafe, All, must, array}
use low.Reduce.Safe.{as_nullable-may_stmt, as_nullable-may_unit}

module _ (file : Bytes) (atoi : Bytes → ℕ) where
  pub import_unit-IsSafe : All (IsSafe file atoi rule_import_unit) (variants rule_import_unit)
  unfolding variants reduced token_id
  import_unit-IsSafe = (λ rule last cs. (_, refl), tt)

  pub package_unit-IsSafe : All (IsSafe file atoi rule_package_unit) (variants rule_package_unit)
  unfolding variants reduced token_id
  package_unit-IsSafe = (λ rule last cs. (_, refl), tt)

  pub decl_unit-IsSafe : All (IsSafe file atoi rule_decl_unit) (variants rule_decl_unit)
  unfolding variants reduced token_id
  decl_unit-IsSafe = (λ rule last cs. (_, refl), tt)

  pub func_unit-IsSafe : All (IsSafe file atoi rule_func_unit) (variants rule_func_unit)
  unfolding variants reduced token_id
  func_unit-IsSafe = (
    λ rule last cs. (_, refl),
    (λ rule last cs. as_nullable-may_stmt (must a_unit) cs.1.0.4 _ (λ a. (_, refl)), tt),
  )

  pub func_unit_decl-IsSafe :
      All (IsSafe file atoi rule_func_unit_decl) (variants rule_func_unit_decl)
  unfolding variants reduced token_id
  func_unit_decl-IsSafe = (
    λ rule last cs. (_, refl),
    (
      λ rule last cs. (_, refl),
      (
        λ rule last cs. (_, refl),
        (
          λ rule last cs. (_, refl),
          (
            λ rule last cs. (_, refl),
            (
              λ rule last cs. (_, refl),
              (λ rule last cs. (_, refl), (λ rule last cs. (_, refl), tt)),
            ),
          ),
        ),
      ),
    ),
  )

  pub parameter_list-IsSafe :
      All (IsSafe file atoi rule_parameter_list) (variants rule_parameter_list)
  unfolding variants reduced token_id
  parameter_list-IsSafe = (λ rule last cs. (_, refl), (λ rule last cs. (_, refl), tt))

  pub parameter-IsSafe : All (IsSafe file atoi rule_parameter) (variants rule_parameter)
  unfolding variants reduced token_id
  parameter-IsSafe = (λ rule last cs. (_, refl), (λ rule last cs. (_, refl), tt))

  pub type_unit-IsSafe : All (IsSafe file atoi rule_type_unit) (variants rule_type_unit)
  unfolding variants reduced token_id
  type_unit-IsSafe = (λ rule last cs. (_, refl), tt)

  pub unit_list-IsSafe : All (IsSafe file atoi rule_unit_list) (variants rule_unit_list)
  unfolding variants reduced token_id
  unit_list-IsSafe = (
    λ rule last cs. as_nullable-may_unit (array a_unit) cs.0.4 _ (λ a. (_, refl)),
    (λ rule last cs. as_nullable-may_unit (array a_unit) cs.1.0.4 _ (λ a. (_, refl)), tt),
  )

  pub unit-IsSafe : All (IsSafe file atoi rule_unit) (variants rule_unit)
  unfolding variants reduced token_id
  unit-IsSafe = (
    λ rule last cs. (some cs.0.4, refl),
    (
      λ rule last cs. (some cs.0.4, refl),
      (
        λ rule last cs. (some cs.0.4, refl),
        (
          λ rule last cs. (some cs.0.4, refl),
          (λ rule last cs. (some cs.0.4, refl), (λ rule last cs. (none, refl), tt)),
        ),
      ),
    ),
  )
