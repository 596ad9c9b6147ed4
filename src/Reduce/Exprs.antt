-- ===== src/Reduce/Exprs.antt =====
-- src/grammar_rules.c: the reducers of expressions.
use low.Prelude.{ℕ, zero, suc, List, Bytes, ◌==◌, if◌then◌else◌}
use low.Ast.Tree.{
  Exprs, no_exprs, OptExpr, null_expr, expr_ptr, ident_expr, string_literal_expr,
  number_literal_expr, index_access_expr, index_slice_expr, IndexSliceKind, slice_range,
  slice_prefix, slice_postfix, slice_copy, call_expr, member_access_expr, incdec_expr, post, inc,
  dec, IncdecDirection,
}
use low.Literals.Defs.{Literal, literal, aborts, overrun, primary_expr_string, primary_expr_number}
use low.Reduce.Values.{Outcome, ok, confused, ◌>>=◌, an_expr, Tok, expr_array}
use low.Reduce.Operands.{pointer, array_at, loc_of, text_at, leave, leave_expr, collect}

-- What was made of the text of a literal.
abbrev pub from_literal {ℓ} : {A : Type ℓ} → Literal A → Outcome A
from_literal (literal a) = ok a
from_literal (aborts c) = Outcome.aborts
from_literal overrun = Outcome.overrun

abbrev pub direction : ℕ → IncdecDirection
direction zero = inc
direction (suc tag) = dec

module _ (file : Bytes) where
  abbrev pub reduce_primary_expr_ident : Tok → List Tok → ℕ → Outcome Tok
  reduce_primary_expr_ident out toks tag = do
    loc ← loc_of toks 0
    name ← text_at file toks 0
    leave_expr out loc (ident_expr name)

  abbrev pub reduce_primary_expr_string : Tok → List Tok → ℕ → Outcome Tok
  reduce_primary_expr_string out toks tag = do
    loc ← loc_of toks 0
    written ← text_at file toks 0
    text ← from_literal (primary_expr_string written)
    leave_expr out loc (string_literal_expr text)

  abbrev pub reduce_primary_expr_number : Tok → List Tok → ℕ → Outcome Tok
  reduce_primary_expr_number out toks tag = do
    loc ← loc_of toks 0
    written ← text_at file toks 0
    number ← from_literal (primary_expr_number written)
    leave_expr out loc (number_literal_expr number.1 number.0)

  abbrev pub reduce_postfix_expr_member : Tok → List Tok → ℕ → Outcome Tok
  reduce_postfix_expr_member out toks tag = do
    loc ← loc_of toks 1
    target ← pointer an_expr toks 0
    name ← text_at file toks 2
    leave_expr out loc (member_access_expr target name)

abbrev pub reduce_primary_expr_paren : Tok → List Tok → ℕ → Outcome Tok
reduce_primary_expr_paren out toks tag = do e ← pointer an_expr toks 1; leave an_expr out e

abbrev pub reduce_postfix_expr_index : Tok → List Tok → ℕ → Outcome Tok
reduce_postfix_expr_index out toks tag = do
  loc ← loc_of toks 1
  target ← pointer an_expr toks 0
  index ← pointer an_expr toks 2
  leave_expr out loc (index_access_expr target index)

-- `start`, `end` and the kind, by the tag.
abbrev pub slice_bounds : List Tok → ℕ → Outcome (OptExpr × OptExpr × IndexSliceKind)
slice_bounds toks zero = do
  start ← pointer an_expr toks 2
  end ← pointer an_expr toks 4
  ok (expr_ptr start, expr_ptr end, slice_range)
slice_bounds toks (suc zero) = do
  end ← pointer an_expr toks 3
  ok (null_expr, expr_ptr end, slice_prefix)
slice_bounds toks (suc (suc zero)) = do
  start ← pointer an_expr toks 2
  ok (expr_ptr start, null_expr, slice_postfix)
slice_bounds toks (suc (suc (suc zero))) = ok (null_expr, null_expr, slice_copy)
slice_bounds toks (suc (suc (suc (suc tag)))) = confused

abbrev pub reduce_postfix_expr_slice : Tok → List Tok → ℕ → Outcome Tok
reduce_postfix_expr_slice out toks tag = do
  loc ← loc_of toks 1
  target ← pointer an_expr toks 0
  bounds ← slice_bounds toks tag
  leave_expr out loc (index_slice_expr target bounds.0 bounds.1 bounds.2)

-- `num_args` and `args`, which stay 0 and null without the tag.
abbrev pub call_args : List Tok → ℕ → Outcome Exprs
call_args toks tag =
    if tag == 1 then (array_at an_expr toks 2 >>= λ args. ok (expr_array args)) else ok no_exprs

abbrev pub reduce_postfix_expr_call : Tok → List Tok → ℕ → Outcome Tok
reduce_postfix_expr_call out toks tag = do
  loc ← loc_of toks 1
  target ← pointer an_expr toks 0
  args ← call_args toks tag
  leave_expr out loc (call_expr target args)

abbrev pub reduce_postfix_expr_incdec : Tok → List Tok → ℕ → Outcome Tok
reduce_postfix_expr_incdec out toks tag = do
  loc ← loc_of toks 1
  target ← pointer an_expr toks 0
  leave_expr out loc (incdec_expr target post (direction tag))

abbrev pub reduce_argument_expr_list : Tok → List Tok → ℕ → Outcome Tok
reduce_argument_expr_list out toks tag = collect an_expr 2 out toks tag
