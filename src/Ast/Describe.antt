-- ===== src/Ast/Describe.antt =====
-- src/ast.c, type_describe: whether it ends, without the text that it makes.
use low.Prelude.{Bool, true, false, ◌&&◌}
use low.Ast.LowType.{
  LowType, no_type, void_type, boolean_type, placeholder_type, integer_type, float_type, func_type,
  named_type, struct_type, array_type, slice_type, interface_type, Types, no_types, type_and,
}

-- A type of the kind `AST_NO_TYPE`, which is the only one without a case, is a call of `abort`, also
-- inside another type.
unfoldable mutual
  pub describes : LowType → Bool
  describes (no_type p) = false
  describes (void_type p) = true
  describes (boolean_type p) = true
  describes (placeholder_type p) = true
  describes (integer_type p w) = true
  describes (float_type p w) = true
  describes (func_type p r ts) = describes_all ts && describes r
  describes (named_type p n) = true
  describes (struct_type p n ms) = true
  describes (array_type p t n) = describes t
  describes (slice_type p t) = describes t
  describes (interface_type p ms) = true

  pub describes_all : Types → Bool
  describes_all no_types = true
  describes_all (type_and t ts) = describes t && describes_all ts
