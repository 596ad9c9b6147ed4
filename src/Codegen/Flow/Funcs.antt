-- ===== src/Codegen/Flow/Funcs.antt =====
-- src/codegen.c: the blocks of a function.
use low.Prelude.{
  ℕ, zero, suc, ◌≡◌, refl, ap, sym, Bool, true, false, List, [], ◌∷◌, Option, some, Bytes,
  get_elem?,
}
use low.Ast.LowType.{LowType}
use low.Ast.Tree.{Stmt, FuncUnit}
use low.Codegen.Llvm.{ValueRef, Call, ret_void}
use low.Codegen.State.{CodegenSymbol, State, ok}
use low.Codegen.Units.{begin_function, add_symbols, store_params, final_return, generate_body}
use low.Codegen.Flow.Blocks.{IsGood, IsShut, IsClosed, flags}
use low.Codegen.Flow.Keeps.{
  Runs, Keeps, Runs-bind, Runs-pure, Runs-do_build, Keeps-Runs, Keeps-bind, Keeps-pure,
}
use low.Codegen.Flow.Parts.{flow, Keeps-codegen_type, Keeps-add_symbol}
use low.Codegen.Flow.Scopes.{Stands, Runs-enter, Runs-leave, Runs-given}
use low.Codegen.Flow.Ends.{ends, NoDeadCode}
use low.Codegen.Flow.Stmts.{Runs-codegen_stmt}

Keeps-add_symbols : (ss : List CodegenSymbol) → Keeps (add_symbols ss)
unfolding add_symbols
Keeps-add_symbols [] = search flow
Keeps-add_symbols (s ∷ ss) = Keeps-bind _ _ (Keeps-add_symbol s) (λ _. Keeps-add_symbols ss)

-- The new builder stands in the only block.
first_block : (i : ℕ) (b : List Call) → get_elem? ([] ∷ []) i ≡ some b → (i ≡ 0) × (b ≡ [])
first_block zero b h = (refl, cc h)
first_block (suc i) b h = absurd (cc h)

pub IsGood-first :
    (fs : List Bool) (st : State)
    → flags st.scopes ≡ fs
    → IsGood [] fs (record st { blocks = [] ∷ []; current = 0 })
IsGood-first fs st h = record {
  flagged = h;
  empty = tt;
  distinct = tt;
  apart = tt;
  here = ([], refl, tt);
  closed = λ i b q n m. absurd (m (first_block i b q).0);
}

Runs-begin : (fs : List Bool) → Runs (λ st. flags st.scopes ≡ fs) begin_function (λ _. IsGood [] fs)
Runs-begin fs = record {
  run = λ st a st' h e.
      let after : ◌≡◌ {A = Unit {0} × State} (tt, record st { blocks = [] ∷ []; current = 0 })
          (a, st') =
        cc e in
      rw (sym (ap (λ r. r.1) after)) (IsGood-first fs st h);
}

module _ (d f : ℕ) where
  Keeps-store_params :
      (v : ValueRef) (i : ℕ) (ps : List (LowType × Option Bytes)) → Keeps (store_params d f v i ps)
  unfolding store_params
  Keeps-store_params v i [] = search flow
  Keeps-store_params v i ((t, name) ∷ ps) = Keeps-bind _ _ (Keeps-codegen_type d t) (λ u.
      Keeps-bind _ _ (search flow) (λ var.
        Keeps-bind _ _ (search flow)
          (λ _. Keeps-bind _ _ (Keeps-store_params v (suc i) ps) (λ ss. Keeps-pure _))))

  Runs-final_return :
      (e : Bool) (t : LowType) (fs : List Bool)
      → Runs (Stands e [] fs) (final_return d f e t) (λ _. IsShut [] fs)
  Runs-final_return true t fs = Runs-pure tt
  Runs-final_return false t fs =
      Runs-bind _ _ (Keeps-Runs [] fs (search flow)) (λ _. Runs-do_build [] fs ret_void refl)

  Runs-generate_body :
      (func : FuncUnit) (v : ValueRef) (s : Stmt) (fs : List Bool)
      → NoDeadCode s
      → Runs (λ st. flags st.scopes ≡ fs) (generate_body d f func v s) (λ _. IsShut [] fs)
  unfolding generate_body
  Runs-generate_body func v s fs h = Runs-bind _ _ (Runs-begin fs) (λ _.
      Runs-bind _ _ (Keeps-Runs [] fs (Keeps-store_params v 0 func.params)) (λ ss.
        Runs-bind _ _ (Runs-enter false [] fs) (λ _.
          Runs-bind _ _ (Keeps-Runs [] (false ∷ fs) (Keeps-add_symbols ss)) (λ _.
            Runs-bind _ _ (Runs-codegen_stmt d f _ s h [] fs) (λ _.
              Runs-bind _ _ (Runs-leave (ends s) (ends s) [] fs) (λ t.
                Runs-given (λ t'. final_return d f t' func.return_type) t (ends s)
                  (Runs-final_return (ends s) func.return_type fs)))))))

-- If nothing stands in the body of a function behind a statement that ends its block, and no body
-- of a loop ends its block, and the body is generated without an error, then in each block that
-- belongs to the function the last call, and no other, is a terminator: a branch, a return or
-- unreachable. The contexts are flagged as before.
pub generate_body-IsClosed :
    (depth fuel : ℕ) (func : FuncUnit) (value : ValueRef) (body : Stmt) (st st' : State)
    → NoDeadCode body
    → generate_body depth fuel func value body st ≡ ok (tt, st')
    → ((i : ℕ) (b : List Call) → get_elem? st'.blocks i ≡ some b → IsClosed b)
      × (flags st'.scopes ≡ flags st.scopes)
generate_body-IsClosed depth fuel func value body st st' h e =
    let shut =
      (Runs-generate_body depth fuel func value body (flags st.scopes) h).run st tt st' refl e in
    (λ i b q. shut.closed i b q tt, shut.flagged)
