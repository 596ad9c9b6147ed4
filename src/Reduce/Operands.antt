-- ===== src/Reduce/Operands.antt =====
-- What the reducers of src/grammar_rules.c read from the tokens, and what they leave in the result.
use low.Prelude.{ℕ, zero, suc, [], ◌∷◌, ◌++◌, List, Option, Bytes, ◌==◌, if◌then◌else◌}
use low.Lexer.Token.{Token, token_id}
use low.Ast.LowType.{no_type}
use low.Ast.Tree.{Loc, ExprForm, expr_at, StmtForm, stmt_at}
use low.Reduce.Values.{
  Outcome, ok, aborts, ◌>>=◌, Kind, an_expr, a_stmt, Typed, one, many, Tok, as_one, as_many,
  as_nullable, operand, text_of,
}

-- `in[i].ptr`, used as a pointer to an object, as one that may be null, and as one to an array.
abbrev pub pointer : (k : Kind) → List Tok → ℕ → Outcome (Typed k)
pointer k toks i = operand toks i >>= λ t. as_one k t.value

abbrev pub nullable : (k : Kind) → List Tok → ℕ → Outcome (Option (Typed k))
nullable k toks i = operand toks i >>= λ t. as_nullable k t.value

abbrev pub array_at : (k : Kind) → List Tok → ℕ → Outcome (List (Typed k))
array_at k toks i = operand toks i >>= λ t. as_many k t.value

-- `in[i].loc`, and the text of `in[i]`.
abbrev pub loc_of : List Tok → ℕ → Outcome Loc
loc_of toks i = operand toks i >>= λ t. ok t.loc

abbrev pub text_at : Bytes → List Tok → ℕ → Outcome Bytes
text_at file toks i = operand toks i >>= λ t. ok (text_of file t)

-- `out->ptr = e`, also where `e` is a new expression or statement.
abbrev pub leave : (k : Kind) → Tok → Typed k → Outcome Tok
leave k out a = ok (record out { value = one k a })

abbrev pub leave_expr : Tok → Loc → ExprForm → Outcome Tok
leave_expr out loc form = leave an_expr out (expr_at loc (no_type 0) form)

abbrev pub leave_stmt : Tok → Loc → StmtForm → Outcome Tok
leave_stmt out loc form = leave a_stmt out (stmt_at loc form)

-- The reducers of lists: a new array of one item, or one more item at the end of the array that
-- `out` already points to, since it is `in[0]`.
abbrev pub collect : (k : Kind) → ℕ → Tok → List Tok → ℕ → Outcome Tok
collect k item out toks zero = pointer k toks 0 >>= λ a. ok (record out { value = many k (a ∷ []) })
collect k item out toks (suc tag) = do
  items ← array_at k toks 0
  a ← pointer k toks item
  ok (record out { value = many k (items ++ (a ∷ [])) })

-- A `switch` on the number of a token; the default is a call of `abort`.
abbrev pub switch_token {ℓ} : {A : Type ℓ} → List (Token × A) → ℕ → Outcome A
switch_token [] id = aborts
switch_token ((t, a) ∷ cases) id =
    let rest = switch_token cases id in if id == token_id t then ok a else rest
