-- ===== src/Reduce/Safe.antt =====
-- Lemmas for the reducers of src/grammar_rules.c that branch on what they are given.
use low.Prelude.{Option, none, some, refl}
use low.Literals.Defs.{Literal, literal, aborts, overrun}
use low.Ast.Tree.{Loc, ExprForm}
use low.Reduce.Operands.{leave_expr}
use low.Reduce.Exprs.{from_literal}
use low.Reduce.Values.{Outcome, ◌>>=◌, an_expr, a_stmt, a_unit, Typed, Tok, as_nullable}
use low.Reduce.Kinds.{Sort, must, may, value_of, HasSort}

pub from_literal-HasSort {ℓ} :
    {A : Type ℓ} (out : Tok) (loc : Loc) (o : Literal A) (form : A → ExprForm)
    → HasSort (must an_expr) (from_literal o >>= λ a. leave_expr out loc (form a))
from_literal-HasSort out loc (literal a) form = (_, refl)
from_literal-HasSort out loc (aborts c) form = tt
from_literal-HasSort out loc overrun form = tt

-- A pointer that may be null is read as what it is.
pub as_nullable-may_stmt :
    (s : Sort) (o : Option (Typed a_stmt)) (f : Option (Typed a_stmt) → Outcome Tok)
    → ((a : Option (Typed a_stmt)) → HasSort s (f a))
    → HasSort s (as_nullable a_stmt (value_of (may a_stmt) o) >>= f)
as_nullable-may_stmt s none f h = h none
as_nullable-may_stmt s (some a) f h = h (some a)

pub as_nullable-may_unit :
    (s : Sort) (o : Option (Typed a_unit)) (f : Option (Typed a_unit) → Outcome Tok)
    → ((a : Option (Typed a_unit)) → HasSort s (f a))
    → HasSort s (as_nullable a_unit (value_of (may a_unit) o) >>= f)
as_nullable-may_unit s none f h = h none
as_nullable-may_unit s (some a) f h = h (some a)
