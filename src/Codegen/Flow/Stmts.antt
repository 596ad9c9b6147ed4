-- ===== src/Codegen/Flow/Stmts.antt =====
-- src/codegen.c: the blocks while statements are generated.
use low.Prelude.{ℕ, ◌≡◌, refl, Bool, true, false, ◌&&◌, List, [], ◌∷◌, Option, none, some}
use low.Ast.LowType.{LowType}
use low.Ast.Tree.{
  Expr, OptExpr, null_expr, expr_ptr, Stmt, stmt_at, StmtForm, expr_stmt, compound_stmt, if_stmt,
  switch_stmt, do_stmt, for_stmt, goto_stmt, continue_stmt, break_stmt, return_stmt, label_stmt,
  case_stmt, default_stmt, OptStmt, null_stmt, stmt_ptr, stmt_block_item, decl_block_item,
  BlockItems, no_items, item_and,
}
use low.Codegen.Llvm.{br, ret, ret_void}
use low.Codegen.State.{State, ok, aborts, M, pure, stop, ◌>>=◌}
use low.Codegen.Context.{set_terminated}
use low.Codegen.Stmts.{
  Self, when, jump_to, codegen_opt_expr, codegen_condition, loop_condition, codegen_return,
  codegen_side, after_if, if_then, if_then_else, loop, codegen_stmt, codegen_stmt_form,
  codegen_opt_stmt, codegen_items,
}
use low.Codegen.Flow.Blocks.{IsGood, IsShut}
use low.Codegen.Flow.Keeps.{
  Runs, Keeps, Runs-bind, Runs-pure, Runs-append, Runs-position, Runs-do_build, Keeps-Runs,
}
use low.Codegen.Flow.Parts.{flow}
use low.Codegen.Flow.Exprs.{Keeps-codegen_expr_top}
use low.Codegen.Flow.Decls.{Keeps-codegen_decl}
use low.Codegen.Flow.Scopes.{
  Stands, Runs-enter, Runs-mark_terminated, Runs-leave, Runs-given, Runs-codegen_side,
  Runs-after_if,
}
use low.Codegen.Flow.Ends.{
  ends, ends_form, ends_opt, ends_items, NoDeadCode, NoDeadForm, NoDeadOpt, NoDeadItems,
}

Runs-aborts : {A : Type 0} {P : State → Type 0} {Q : A → State → Type 0} → Runs P (stop aborts) Q
Runs-aborts = record { run = λ st a st' p e. absurd (cc e) }

Runs-jump_to :
    (o : Option ℕ) (ps : List ℕ) (fs : List Bool)
    → Runs (IsGood ps (false ∷ fs)) (jump_to o) (λ _. IsShut ps (true ∷ fs))
Runs-jump_to none ps fs = Runs-aborts
Runs-jump_to (some block) ps fs =
    Runs-bind _ _ (Runs-do_build ps (false ∷ fs) (br block) refl)
      (λ _. Runs-mark_terminated true false ps fs)

-- A flag that is marked where the block ended.
Runs-when :
    (e : Bool) (ps : List ℕ) (fs : List Bool)
    → Runs (Stands e ps (false ∷ fs)) (when e set_terminated) (λ _. Stands e ps (e ∷ fs))
Runs-when true ps fs = Runs-mark_terminated true false ps fs
Runs-when false ps fs = Runs-pure tt

module _ (d f : ℕ) where
  Keeps-codegen_opt_expr : (e : OptExpr) → Keeps (codegen_opt_expr d f e)
  Keeps-codegen_opt_expr null_expr = search flow
  Keeps-codegen_opt_expr (expr_ptr e) = search (flow, Keeps-codegen_expr_top) depth 8

  Keeps-codegen_condition : (e : Expr) → Keeps (codegen_condition d f e)
  Keeps-codegen_condition e = record {
    runs = λ ps fs. Runs-bind _ _ (Runs-enter false ps fs) (λ _.
        Runs-bind _ _ (Keeps-Runs ps (false ∷ fs) (Keeps-codegen_expr_top d f e false _)) (λ r.
          Runs-bind _ _ (Keeps-Runs ps (false ∷ fs) (search flow)) (λ same_type.
            Runs-bind _ _ (Keeps-Runs ps (false ∷ fs) (search flow)) (λ _.
              Runs-bind _ _ (Runs-leave false false ps fs)
                (λ t. Runs-given (λ _. pure r.0) t false (Runs-pure r.0))))));
  }

  Runs-loop_condition :
      (o : OptExpr) (b e : ℕ) (ps : List ℕ) (fs : List Bool)
      → Runs (IsGood ps fs) (loop_condition d f o b e) (λ _. IsShut ps fs)
  Runs-loop_condition null_expr b e ps fs = Runs-do_build ps fs (br b) refl
  Runs-loop_condition (expr_ptr c) b e ps fs =
      Runs-bind _ _ (Keeps-Runs ps fs (Keeps-codegen_expr_top d f c false _))
        (λ r. Runs-do_build ps fs _ refl)

  Runs-codegen_return :
      (t : Option LowType) (o : OptExpr) (ps : List ℕ) (fs : List Bool)
      → Runs (IsGood ps (false ∷ fs)) (codegen_return d f t o) (λ _. IsShut ps (true ∷ fs))
  Runs-codegen_return t null_expr ps fs =
      Runs-bind _ _ (Runs-do_build ps (false ∷ fs) ret_void refl)
        (λ _. Runs-mark_terminated true false ps fs)
  Runs-codegen_return none (expr_ptr e) ps fs = Runs-aborts
  Runs-codegen_return (some t) (expr_ptr e) ps fs =
      Runs-bind _ _ (Keeps-Runs ps (false ∷ fs) (Keeps-codegen_expr_top d f e false _)) (λ r.
        Runs-bind _ _ (Runs-do_build ps (false ∷ fs) (ret r.0) refl)
          (λ _. Runs-mark_terminated true false ps fs))

  -- What a part of a statement does, wherever it stands.
  abbrev Does : M (Unit {0}) → Bool → Type 0
  Does m e =
      (ps : List ℕ) (fs : List Bool) → Runs (IsGood ps (false ∷ fs)) m (λ _. Stands e ps (e ∷ fs))

  Runs-if_then :
      (c : Expr) (side : M (Unit {0})) (e : Bool) → Does side e → Does (if_then d f c side) false
  Runs-if_then c side e h ps fs =
      Runs-bind _ _ (Keeps-Runs ps (false ∷ fs) (Keeps-codegen_condition c)) (λ cond.
        Runs-bind _ _ (Runs-append ps (false ∷ fs)) (λ x.
          Runs-bind _ _ (Runs-append (x ∷ ps) (false ∷ fs)) (λ z.
            Runs-bind _ _ (Runs-do_build (z ∷ x ∷ ps) (false ∷ fs) _ refl) (λ _.
              Runs-bind _ _ (Runs-codegen_side d f x z side e h (z ∷ []) ps (false ∷ fs)) (λ t.
                Runs-given (λ _. after_if d f z false) t e (Runs-after_if d f z false ps fs))))))

  Runs-if_then_else :
      (c : Expr) (side other : M (Unit {0})) (e e' : Bool)
      → Does side e
      → Does other e'
      → Does (if_then_else d f c side other) (e && e')
  Runs-if_then_else c side other e e' h h' ps fs =
      Runs-bind _ _ (Keeps-Runs ps (false ∷ fs) (Keeps-codegen_condition c)) (λ cond.
        Runs-bind _ _ (Runs-append ps (false ∷ fs)) (λ x.
          Runs-bind _ _ (Runs-append (x ∷ ps) (false ∷ fs)) (λ y.
            Runs-bind _ _ (Runs-append (y ∷ x ∷ ps) (false ∷ fs)) (λ z.
              Runs-bind _ _ (Runs-do_build (z ∷ y ∷ x ∷ ps) (false ∷ fs) _ refl) (λ _.
                Runs-bind _ _ (Runs-codegen_side d f x z side e h (z ∷ y ∷ []) ps (false ∷ fs))
                  (λ t.
                    Runs-given (λ s. codegen_side d f y z other >>= λ s'. after_if d f z (s && s'))
                      t e
                      (Runs-bind _ _
                        (Runs-codegen_side d f y z other e' h' (z ∷ []) ps (false ∷ fs))
                        (λ t'.
                          Runs-given (λ s'. after_if d f z (e && s')) t' e'
                            (Runs-after_if d f z (e && e') ps fs)))))))))

  Runs-loop :
      (i c s : OptExpr) (body : ℕ → ℕ → M (Unit {0}))
      → ((x y : ℕ) → Does (body x y) false)
      → Does (loop d f i c s body) false
  Runs-loop i c s body h ps fs = Runs-bind _ _ (Runs-enter false ps (false ∷ fs)) (λ _.
      Runs-bind _ _ (Keeps-Runs ps _ (Keeps-codegen_opt_expr i)) (λ _.
        Runs-bind _ _ (Runs-append ps _) (λ x. Runs-bind _ _ (Runs-append (x ∷ ps) _) (λ y.
          Runs-bind _ _ (Runs-append (y ∷ x ∷ ps) _) (λ z.
            Runs-bind _ _ (Runs-append (z ∷ y ∷ x ∷ ps) _) (λ w.
              Runs-bind _ _ (Runs-do_build (w ∷ z ∷ y ∷ x ∷ ps) _ (br x) refl) (λ _.
                Runs-bind _ _ (Runs-position (w ∷ z ∷ y ∷ []) ps _ x) (λ _.
                  Runs-bind _ _ (Runs-loop_condition c y w (w ∷ z ∷ y ∷ ps) _) (λ _.
                    Runs-bind _ _ (Runs-position (w ∷ z ∷ []) ps _ y) (λ _.
                      Runs-bind _ _ (h z w (w ∷ z ∷ ps) (false ∷ fs)) (λ _.
                        Runs-bind _ _ (Runs-do_build (w ∷ z ∷ ps) _ (br z) refl) (λ _.
                          Runs-bind _ _ (Runs-position (w ∷ []) ps _ z) (λ _.
                            Runs-bind _ _ (Keeps-Runs (w ∷ ps) _ (Keeps-codegen_opt_expr s)) (λ _.
                              Runs-bind _ _ (Runs-do_build (w ∷ ps) _ (br x) refl) (λ _.
                                Runs-bind _ _ (Runs-position [] ps _ w) (λ _.
                                  Runs-bind _ _ (Runs-leave false false ps _) (λ t.
                                    Runs-given (λ _. pure tt) t false
                                      (Runs-pure tt))))))))))))))))))

  -- A statement that does not end its block, and such a statement before others.
  goes_on : (m : M (Unit {0})) (e : Bool) → Does m e → e ≡ false → Does m false
  goes_on m e h q ps fs = rw q at (h ps fs)

  then_more : (m k : M (Unit {0})) (e : Bool) → Does m false → Does k e → Does (m >>= λ _. k) e
  then_more m k e hm hk ps fs = Runs-bind _ _ (hm ps fs) (λ _. hk ps fs)

  Runs-last : {m : M (Unit {0})} (e : Bool) → Does m e → Does (m >>= λ _. pure tt) e
  Runs-last e h ps fs = Runs-bind _ _ (h ps fs) (λ _. Runs-pure tt)

  mutual
    unfolding codegen_stmt ends NoDeadCode

    pub Runs-codegen_stmt :
        (self : Self) (s : Stmt) → NoDeadCode s → Does (codegen_stmt d f self s) (ends s)
    Runs-codegen_stmt self (stmt_at loc form) h = Runs-codegen_stmt_form self form h

    Runs-codegen_stmt_form :
        (self : Self) (s : StmtForm)
        → NoDeadForm s
        → Does (codegen_stmt_form d f self s) (ends_form s)
    Runs-codegen_stmt_form self (expr_stmt e) h =
        λ ps fs. Keeps-Runs ps (false ∷ fs) (Keeps-codegen_opt_expr (expr_ptr e))
    Runs-codegen_stmt_form self (compound_stmt items) h = λ ps fs.
        Runs-bind _ _ (Runs-enter false ps (false ∷ fs)) (λ _.
          Runs-bind _ _ (Runs-codegen_items self items h ps (false ∷ fs)) (λ _.
            Runs-bind _ _ (Runs-leave (ends_items items) (ends_items items) ps (false ∷ fs)) (λ t.
              Runs-given (λ t'. when t' set_terminated) t (ends_items items)
                (Runs-when (ends_items items) ps fs))))
    Runs-codegen_stmt_form self (if_stmt c s null_stmt) h =
        Runs-if_then c _ (ends_opt s) (Runs-codegen_opt_stmt self s h)
    Runs-codegen_stmt_form self (if_stmt c s (stmt_ptr s')) (h, h') =
        Runs-if_then_else c _ _ (ends_opt s) (ends s') (Runs-codegen_opt_stmt self s h)
          (Runs-codegen_stmt self s' h')
    Runs-codegen_stmt_form self (for_stmt i c k body) (h, q) =
        Runs-loop i c k _ (λ x y. goes_on _ (ends_opt body) (Runs-codegen_opt_stmt _ body h) q)
    Runs-codegen_stmt_form self continue_stmt h = Runs-jump_to self.continue_block
    Runs-codegen_stmt_form self break_stmt h = Runs-jump_to self.break_block
    Runs-codegen_stmt_form self (return_stmt e) h = Runs-codegen_return self.return_type e
    Runs-codegen_stmt_form self (switch_stmt c s) h = λ ps fs. Runs-aborts
    Runs-codegen_stmt_form self (do_stmt c s) h = λ ps fs. Runs-aborts
    Runs-codegen_stmt_form self (goto_stmt name) h = λ ps fs. Runs-aborts
    Runs-codegen_stmt_form self (label_stmt name s) h = λ ps fs. Runs-aborts
    Runs-codegen_stmt_form self (case_stmt c s) h = λ ps fs. Runs-aborts
    Runs-codegen_stmt_form self (default_stmt s) h = λ ps fs. Runs-aborts

    Runs-codegen_opt_stmt :
        (self : Self) (s : OptStmt) → NoDeadOpt s → Does (codegen_opt_stmt d f self s) (ends_opt s)
    Runs-codegen_opt_stmt self null_stmt h = λ ps fs. Runs-pure tt
    Runs-codegen_opt_stmt self (stmt_ptr s) h = Runs-codegen_stmt self s h

    Runs-codegen_items :
        (self : Self) (items : BlockItems)
        → NoDeadItems items
        → Does (codegen_items d f self items) (ends_items items)
    Runs-codegen_items self no_items h = λ ps fs. Runs-pure tt
    Runs-codegen_items self (item_and (stmt_block_item s) no_items) h =
        Runs-last (ends_opt s) (Runs-codegen_opt_stmt self s h)
    Runs-codegen_items self (item_and (decl_block_item c) no_items) h = λ ps fs.
        Runs-bind _ _ (Keeps-Runs ps (false ∷ fs) (Keeps-codegen_decl d f c)) (λ _. Runs-pure tt)
    Runs-codegen_items self (item_and (stmt_block_item s) (item_and next items)) (h, q, h') =
        then_more _ _ _ (goes_on _ (ends_opt s) (Runs-codegen_opt_stmt self s h) q)
          (Runs-codegen_items self (item_and next items) h')
    Runs-codegen_items self (item_and (decl_block_item c) (item_and next items)) (h, q, h') =
        then_more _ _ _ (λ ps fs. Keeps-Runs ps (false ∷ fs) (Keeps-codegen_decl d f c))
          (Runs-codegen_items self (item_and next items) h')

-- If nothing stands in a statement behind another that ends its block, and no body of a loop ends its
-- block, and the statement is generated without an error where the builder stands in an open block,
-- the blocks ps wait and are empty, and all others are closed: then the blocks ps still wait, the
-- blocks that were open or appended are closed, and the builder stands in an open block, or, where
-- the statement ends its block, in none; just then the context is marked as terminated.
pub codegen_stmt-Stands :
    (depth fuel : ℕ) (self : Self) (s : Stmt) (ps : List ℕ) (fs : List Bool) (st st' : State)
    → NoDeadCode s
    → IsGood ps (false ∷ fs) st
    → codegen_stmt depth fuel self s st ≡ ok (tt, st')
    → Stands (ends s) ps (ends s ∷ fs) st'
codegen_stmt-Stands depth fuel self s ps fs st st' h good e =
    (Runs-codegen_stmt depth fuel self s h ps fs).run st tt st' good e
