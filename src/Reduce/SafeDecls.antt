-- ===== src/Reduce/SafeDecls.antt =====
-- The reducers of the declarations and types of src/grammar_rules.c get what they expect.
use low.Prelude.{ℕ, Bytes, refl}
use low.Lexer.Token.{token_id}
use low.Grammar.Symbols.{
  rule_variable_decl, rule_const_decl, rule_implementation_decl, rule_implementation_mapping,
  rule_decl, rule_type, rule_struct_member_list, rule_struct_member, rule_func_type_args,
  rule_interface_member_list, rule_interface_member, rule_interface_member_func_parameter_list,
  rule_interface_member_func_parameter,
}
use low.Grammar.Variants.{variants}
use low.Reduce.Run.{reduced}
use low.Reduce.Kinds.{IsSafe, All}

module _ (file : Bytes) (atoi : Bytes → ℕ) where
  pub variable_decl-IsSafe : All (IsSafe file atoi rule_variable_decl) (variants rule_variable_decl)
  unfolding variants reduced token_id
  variable_decl-IsSafe = (
    λ rule last cs. (_, refl),
    (
      λ rule last cs. (_, refl),
      (
        λ rule last cs. (_, refl),
        (λ rule last cs. (_, refl), (λ rule last cs. (_, refl), (λ rule last cs. (_, refl), tt))),
      ),
    ),
  )

  pub const_decl-IsSafe : All (IsSafe file atoi rule_const_decl) (variants rule_const_decl)
  unfolding variants reduced token_id
  const_decl-IsSafe = (λ rule last cs. (_, refl), (λ rule last cs. (_, refl), tt))

  pub implementation_decl-IsSafe :
      All (IsSafe file atoi rule_implementation_decl) (variants rule_implementation_decl)
  unfolding variants reduced token_id
  implementation_decl-IsSafe = (λ rule last cs. (_, refl), tt)

  pub implementation_mapping-IsSafe :
      All (IsSafe file atoi rule_implementation_mapping) (variants rule_implementation_mapping)
  unfolding variants reduced token_id
  implementation_mapping-IsSafe = (λ rule last cs. (_, refl), tt)

  pub decl-IsSafe : All (IsSafe file atoi rule_decl) (variants rule_decl)
  unfolding variants reduced token_id
  decl-IsSafe =
      (λ rule last cs. (_, refl), (λ rule last cs. (_, refl), (λ rule last cs. (_, refl), tt)))

  pub type-IsSafe : All (IsSafe file atoi rule_type) (variants rule_type)
  unfolding variants reduced token_id
  type-IsSafe = (
    λ rule last cs. (_, refl),
    (
      λ rule last cs. (_, refl),
      (
        λ rule last cs. (_, refl),
        (
          λ rule last cs. (_, refl),
          (
            λ rule last cs. (_, refl),
            (
              λ rule last cs. (_, refl),
              (
                λ rule last cs. (_, refl),
                (
                  λ rule last cs. (_, refl),
                  (λ rule last cs. (_, refl), (λ rule last cs. (_, refl), tt)),
                ),
              ),
            ),
          ),
        ),
      ),
    ),
  )

  pub struct_member_list-IsSafe :
      All (IsSafe file atoi rule_struct_member_list) (variants rule_struct_member_list)
  unfolding variants reduced token_id
  struct_member_list-IsSafe = (λ rule last cs. (_, refl), (λ rule last cs. (_, refl), tt))

  pub struct_member-IsSafe : All (IsSafe file atoi rule_struct_member) (variants rule_struct_member)
  unfolding variants reduced token_id
  struct_member-IsSafe = (λ rule last cs. (_, refl), (λ rule last cs. (_, refl), tt))

  pub func_type_args-IsSafe :
      All (IsSafe file atoi rule_func_type_args) (variants rule_func_type_args)
  unfolding variants reduced token_id
  func_type_args-IsSafe = (λ rule last cs. (_, refl), (λ rule last cs. (_, refl), tt))

  pub interface_member_list-IsSafe :
      All (IsSafe file atoi rule_interface_member_list) (variants rule_interface_member_list)
  unfolding variants reduced token_id
  interface_member_list-IsSafe = (λ rule last cs. (_, refl), (λ rule last cs. (_, refl), tt))

  pub interface_member-IsSafe :
      All (IsSafe file atoi rule_interface_member) (variants rule_interface_member)
  unfolding variants reduced token_id
  interface_member-IsSafe = (λ rule last cs. (_, refl), (λ rule last cs. (_, refl), tt))

  pub interface_member_func_parameter_list-IsSafe :
      All
        (IsSafe file atoi rule_interface_member_func_parameter_list)
        (variants rule_interface_member_func_parameter_list)
  unfolding variants reduced token_id
  interface_member_func_parameter_list-IsSafe =
      (λ rule last cs. (_, refl), (λ rule last cs. (_, refl), tt))

  pub interface_member_func_parameter-IsSafe :
      All
        (IsSafe file atoi rule_interface_member_func_parameter)
        (variants rule_interface_member_func_parameter)
  unfolding variants reduced token_id
  interface_member_func_parameter-IsSafe =
      (λ rule last cs. (_, refl), (λ rule last cs. (_, refl), tt))
