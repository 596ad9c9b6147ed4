-- ===== src/Codegen/Flow/Scopes.antt =====
-- src/codegen.c: the contexts of statements, and the sides of an `if`.
use low.Prelude.{ℕ, ◌≡◌, refl, sym, ap, Bool, true, false, List, [], ◌∷◌, ◌++◌, not}
use low.Codegen.Llvm.{br, unreachable}
use low.Codegen.State.{Scope, State, ok, M, ◌>>=◌, do_build, pure}
use low.Codegen.Context.{
  new_scope, enter_scope, leave_scope, set_terminated, mark_terminated, tail, terminated_in,
}
use low.Codegen.Stmts.{when, codegen_side, after_if}
use low.Codegen.Flow.Blocks.{IsGood, IsShut, flags}
use low.Codegen.Flow.Keeps.{Runs, Runs-bind, Runs-pure, Runs-do_build, Runs-position}

-- Where the builder stands in an open block, or, behind a statement that ends it, in a closed one.
abbrev pub Stands : Bool → List ℕ → List Bool → State → Type 0
Stands true ps fs st = IsShut ps fs st
Stands false ps fs st = IsGood ps fs st

-- Contexts with other flags, and everything else as it was.
Stands-scopes :
    (e : Bool) (ps : List ℕ) (fs gs : List Bool) (st : State) (scopes : List Scope)
    → flags scopes ≡ gs
    → Stands e ps fs st
    → Stands e ps gs (record st { scopes = scopes })
Stands-scopes true ps fs gs st scopes h s = record {
  flagged = h;
  empty = s.empty;
  distinct = s.distinct;
  closed = s.closed;
}
Stands-scopes false ps fs gs st scopes h s = record {
  flagged = h;
  empty = s.empty;
  distinct = s.distinct;
  apart = s.apart;
  here = s.here;
  closed = s.closed;
}

Stands-flagged :
    (e : Bool) (ps : List ℕ) (fs : List Bool) (st : State)
    → Stands e ps fs st
    → flags st.scopes ≡ fs
Stands-flagged true ps fs st s = s.flagged
Stands-flagged false ps fs st s = s.flagged

-- A step that answers a and goes on with other contexts.
Runs-scopes :
    {A : Type 0} {Q : A → State → Type 0} {P : State → Type 0} (v : State → A)
    (f : State → List Scope)
    → ((st : State) → P st → Q (v st) (record st { scopes = f st }))
    → Runs P (λ st. ok (v st, record st { scopes = f st })) Q
Runs-scopes {A} {Q} v f h = record {
  run = λ st a st' p e.
      let after : ◌≡◌ {A = A × State} (v st, record st { scopes = f st }) (a, st') = cc e in
      rw (sym (ap (λ r. r.0) after), sym (ap (λ r. r.1) after)) (h st p);
}

pub Runs-enter :
    (e : Bool) (ps : List ℕ) (fs : List Bool)
    → Runs (Stands e ps fs) enter_scope (λ _. Stands e ps (false ∷ fs))
Runs-enter e ps fs =
    Runs-scopes (λ st. tt) (λ st. new_scope ∷ st.scopes)
      λ st s.
        Stands-scopes e ps fs (false ∷ fs) st (new_scope ∷ st.scopes)
          (ap (λ gs. false ∷ gs) (Stands-flagged e ps fs st s)) s

flags-mark_terminated :
    (f : Bool) (fs : List Bool) (scopes : List Scope)
    → flags scopes ≡ f ∷ fs
    → flags (mark_terminated scopes) ≡ true ∷ fs
flags-mark_terminated f fs [] h = absurd (cc h)
flags-mark_terminated f fs (scope ∷ scopes) h = cc h

flags-tail :
    (f : Bool) (fs : List Bool) (scopes : List Scope)
    → flags scopes ≡ f ∷ fs
    → (terminated_in scopes ≡ f) × (flags (tail scopes) ≡ fs)
flags-tail f fs [] h = absurd (cc h)
flags-tail f fs (scope ∷ scopes) h = (cc h, cc h)

pub Runs-mark_terminated :
    (e f : Bool) (ps : List ℕ) (fs : List Bool)
    → Runs (Stands e ps (f ∷ fs)) set_terminated (λ _. Stands e ps (true ∷ fs))
Runs-mark_terminated e f ps fs =
    Runs-scopes (λ st. tt) (λ st. mark_terminated st.scopes)
      λ st s.
        Stands-scopes e ps (f ∷ fs) (true ∷ fs) st (mark_terminated st.scopes)
          (flags-mark_terminated f fs st.scopes (Stands-flagged e ps (f ∷ fs) st s)) s

pub Runs-leave :
    (e f : Bool) (ps : List ℕ) (fs : List Bool)
    → Runs (Stands e ps (f ∷ fs)) leave_scope (λ t st. (t ≡ f) × Stands e ps fs st)
Runs-leave e f ps fs =
    Runs-scopes (λ st. terminated_in st.scopes) (λ st. tail st.scopes)
      λ st s.
        let (et, ef) = flags-tail f fs st.scopes (Stands-flagged e ps (f ∷ fs) st s) in
        (et, Stands-scopes e ps (f ∷ fs) fs st (tail st.scopes) ef s)

-- What was answered before is known.
pub Runs-given :
    {A : Type 0} {P : State → Type 0} {Q : A → State → Type 0} (m : Bool → M A) (t f : Bool)
    → Runs P (m f) Q
    → Runs (λ st. (t ≡ f) × P st) (m t) Q
Runs-given m t f h = record { run = λ st a st' p e. h.run st a st' p.1 (cc (e, p.0)) }

Runs-answer : {A : Type 0} {P : State → Type 0} (a : A) → Runs P (pure a) (λ b st. (b ≡ a) × P st)
Runs-answer {A} {P} a = record {
  run = λ st b st' p e.
      let after : ◌≡◌ {A = A × State} (a, st) (b, st') = cc e in
      (sym (ap (λ r. r.0) after), rw (sym (ap (λ r. r.1) after)) p);
}

-- The two ways in which a side ends; one that goes on leads to the exit.
leaves :
    (e : Bool) (exit_block : ℕ) (ps : List ℕ) (fs : List Bool)
    → Runs (Stands e ps fs) (when (not e) (do_build (br exit_block))) (λ _. IsShut ps fs)
leaves true exit_block ps fs = Runs-pure tt
leaves false exit_block ps fs = Runs-do_build ps fs _ refl

pub Runs-codegen_side :
    (depth fuel block exit_block : ℕ) (side : M (Unit {0})) (e : Bool)
    → ((ps : List ℕ) (fs : List Bool)
        → Runs (IsGood ps (false ∷ fs)) side (λ _. Stands e ps (e ∷ fs)))
    → (xs ps : List ℕ) (fs : List Bool)
    → Runs
        (IsShut (xs ++ (block ∷ ps)) fs)
        (codegen_side depth fuel block exit_block side)
        (λ t st. (t ≡ e) × IsShut (xs ++ ps) fs st)
Runs-codegen_side depth fuel block exit_block side e h xs ps fs =
    Runs-bind _ _ (Runs-enter true (xs ++ (block ∷ ps)) fs) (λ _.
      Runs-bind _ _ (Runs-position xs ps (false ∷ fs) block) (λ _.
        Runs-bind _ _ (h (xs ++ ps) fs) (λ _. Runs-bind _ _ (Runs-leave e e (xs ++ ps) fs) (λ t.
          Runs-given (λ t'. when (not t') (do_build (br exit_block)) >>= λ _. pure t') t e
            (Runs-bind _ _ (leaves e exit_block (xs ++ ps) fs) (λ _. Runs-answer e))))))

pub Runs-after_if :
    (depth fuel exit_block : ℕ) (t : Bool) (ps : List ℕ) (fs : List Bool)
    → Runs
        (IsShut (exit_block ∷ ps) (false ∷ fs))
        (after_if depth fuel exit_block t)
        (λ _. Stands t ps (t ∷ fs))
Runs-after_if depth fuel exit_block false ps fs =
    Runs-bind _ _ (Runs-position [] ps (false ∷ fs) exit_block) (λ _. Runs-pure tt)
Runs-after_if depth fuel exit_block true ps fs =
    Runs-bind _ _ (Runs-position [] ps (false ∷ fs) exit_block) (λ _.
      Runs-bind _ _ (Runs-do_build ps (false ∷ fs) unreachable refl)
        (λ _. Runs-mark_terminated true false ps fs))
