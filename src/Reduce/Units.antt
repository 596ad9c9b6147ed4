-- ===== src/Reduce/Units.antt =====
-- src/grammar_rules.c: the reducers of declarations and units.
use low.Prelude.{
  ℕ, zero, suc, ◌+◌, ◌-◌, ◌++◌, ◌∷◌, [], List, Option, none, some, Bytes, ◌==◌, ◌||◌, if◌then◌else◌,
  take, drop,
}
use low.Ast.LowType.{LowType, no_type}
use low.Ast.Tree.{
  Loc, OptExpr, null_expr, expr_ptr, null_stmt, Decl, variable_decl, const_decl,
  implementation_decl, UnitDecl, import_unit, package_unit, decl_unit, func_unit, type_unit,
}
use low.Reduce.Values.{
  Outcome, ok, ◌>>=◌, an_expr, a_stmt, a_decl, a_type, a_unit, a_func, a_mapping, a_param, many,
  Tok, operand, stmt_or_null,
}
use low.Reduce.Operands.{pointer, nullable, array_at, loc_of, text_at, leave, collect}

-- `tag == 0 || tag == 1`, `tag == 1 || tag == 2`: a type, an initial value. Neither is read without,
-- and the type stays zero, the initial value null.
abbrev pub variable_type : List Tok → ℕ → ℕ → Outcome LowType
variable_type toks tag i = if tag == 0 || tag == 1 then pointer a_type toks i else ok (no_type 0)

abbrev pub variable_initial : List Tok → ℕ → ℕ → Outcome OptExpr
variable_initial toks tag i =
    if tag == 1 || tag == 2 then (pointer an_expr toks i >>= λ e. ok (expr_ptr e)) else ok null_expr

abbrev pub decl_loc : Decl → Loc
decl_loc (variable_decl loc t name initial) = loc
decl_loc (const_decl loc name t value) = loc
decl_loc (implementation_decl loc interface target mappings) = loc

module _ (file : Bytes) where
  -- `p` behind the type, if there is one.
  abbrev pub reduce_variable_decl : Tok → List Tok → ℕ → Outcome Tok
  reduce_variable_decl out toks tag = do
    t ← variable_type toks tag 1
    let p = if tag == 0 || tag == 1 then 2 else 1
    loc ← loc_of toks p
    name ← text_at file toks p
    initial ← variable_initial toks tag (p + 2)
    leave a_decl out (variable_decl loc t name initial)

  abbrev pub reduce_variable_decl2 : Tok → List Tok → ℕ → Outcome Tok
  reduce_variable_decl2 out toks tag = do
    loc ← loc_of toks 0
    name ← text_at file toks 0
    t ← variable_type toks tag 2
    let p = if tag == 0 || tag == 1 then 4 else 2
    initial ← variable_initial toks tag p
    leave a_decl out (variable_decl loc t name initial)

  abbrev pub reduce_const_decl : Tok → List Tok → ℕ → Outcome Tok
  reduce_const_decl out toks tag = do
    loc ← loc_of toks 1
    name ← text_at file toks 1
    t ← if tag == 1 then (pointer a_type toks 2 >>= λ t. ok (some t)) else ok none
    let i = if tag == 1 then 4 else 3
    value ← pointer an_expr toks i
    leave a_decl out (const_decl loc name t value)

  abbrev pub reduce_implementation_mapping : Tok → List Tok → ℕ → Outcome Tok
  reduce_implementation_mapping out toks tag = do
    intf ← text_at file toks 0
    name ← text_at file toks 2
    leave a_mapping out (intf, name)

  -- The text between the quotes: `strndup(first + 1, last - first - 2)`.
  abbrev pub quoted_at : List Tok → ℕ → Outcome Bytes
  quoted_at toks i =
      operand toks i >>= λ t. ok (take (t.last - t.first - 2) (drop (t.first + 1) file))

  abbrev pub reduce_package_unit : Tok → List Tok → ℕ → Outcome Tok
  reduce_package_unit out toks tag = do
    loc ← loc_of toks 1
    name ← quoted_at toks 1
    leave a_unit out (package_unit loc name)

  abbrev pub reduce_import_unit : Tok → List Tok → ℕ → Outcome Tok
  reduce_import_unit out toks tag = do
    loc ← loc_of toks 1
    name ← quoted_at toks 1
    leave a_unit out (import_unit loc name)

  -- `params`, under the tags 2 and 3.
  abbrev pub unit_params : List Tok → ℕ → Outcome (List (LowType × Option Bytes))
  unit_params toks tag = if tag == 2 || tag == 3 then array_at a_param toks 3 else ok []

  abbrev pub reduce_func_unit_decl : Tok → List Tok → ℕ → Outcome Tok
  reduce_func_unit_decl out toks tag = do
    loc ← loc_of toks 1
    t ← pointer a_type toks 0
    name ← text_at file toks 1
    params ← unit_params toks tag
    leave a_func out (record {
      loc = loc;
      return_type = t;
      name = name;
      params = params;
      variadic = tag == 1 || tag == 3;
      body = null_stmt;
    })

  -- The index of the result type.
  abbrev pub result_index : ℕ → ℕ
  result_index tag = if tag == 3 then 7 else (if tag == 1 || tag == 2 then 5 else 4)

  abbrev pub reduce_func_unit_decl2 : Tok → List Tok → ℕ → Outcome Tok
  reduce_func_unit_decl2 out toks tag = do
    loc ← loc_of toks 1
    name ← text_at file toks 1
    params ← unit_params toks tag
    t ← pointer a_type toks (result_index tag)
    leave a_func out (record {
      loc = loc;
      return_type = t;
      name = name;
      params = params;
      variadic = tag == 1 || tag == 3;
      body = null_stmt;
    })

  abbrev pub reduce_parameter : Tok → List Tok → ℕ → Outcome Tok
  reduce_parameter out toks tag = do
    name ← if tag == 1 then (text_at file toks 0 >>= λ n. ok (some n)) else ok none
    t ← pointer a_type toks (if tag == 1 then 1 else 0)
    leave a_param out (t, name)

  abbrev pub reduce_type_unit : Tok → List Tok → ℕ → Outcome Tok
  reduce_type_unit out toks tag = do
    loc ← loc_of toks 1
    t ← pointer a_type toks 3
    name ← text_at file toks 1
    leave a_unit out (type_unit loc t name)

abbrev pub reduce_implementation_decl : Tok → List Tok → ℕ → Outcome Tok
reduce_implementation_decl out toks tag = do
  loc ← loc_of toks 0
  interface ← pointer a_type toks 1
  target ← pointer a_type toks 3
  mappings ← array_at a_mapping toks 6
  leave a_decl out (implementation_decl loc interface target mappings)

abbrev pub reduce_implementation_mapping_list : Tok → List Tok → ℕ → Outcome Tok
reduce_implementation_mapping_list out toks tag = collect a_mapping 2 out toks tag

abbrev pub reduce_decl_unit : Tok → List Tok → ℕ → Outcome Tok
reduce_decl_unit out toks tag = do
  d ← pointer a_decl toks 0
  leave a_unit out (decl_unit (decl_loc d) d)

-- The unit stays where it is while its body is set: it is an object of type `FuncUnit` until then.
-- An empty body is a null pointer.
abbrev pub reduce_func_unit : Tok → List Tok → ℕ → Outcome Tok
reduce_func_unit out toks tag = do
  f ← pointer a_func toks 0
  (if tag == 1
      then (nullable a_stmt toks 1 >>= λ s.
          leave a_unit out (func_unit (record f { body = stmt_or_null s })))
      else leave a_unit out (func_unit f))

abbrev pub reduce_parameter_list : Tok → List Tok → ℕ → Outcome Tok
reduce_parameter_list out toks tag = collect a_param 2 out toks tag

-- A unit that is null, which a semicolon is, is left out.
abbrev pub unit_new : Option UnitDecl → List UnitDecl
unit_new none = []
unit_new (some u) = u ∷ []

abbrev pub reduce_unit_list : Tok → List Tok → ℕ → Outcome Tok
reduce_unit_list out toks zero = do
  u ← nullable a_unit toks 0
  ok (record out { value = many a_unit (unit_new u) })
reduce_unit_list out toks (suc tag) = do
  units ← array_at a_unit toks 0
  u ← nullable a_unit toks 1
  ok (record out { value = many a_unit (units ++ unit_new u) })
