-- ===== src/Codegen/Flow/Keeps.antt =====
-- src/codegen*.c: sequences of steps, and the blocks before and behind them.
use low.Prelude.{
  ℕ, ◌≡◌, ◌≢◌, ◌∙◌, refl, sym, ap, Bool, true, false, List, ◌∷◌, ◌++◌, Option, none, some,
  if◌then◌else◌,
}
use low.Codegen.Llvm.{Call}
use low.Codegen.State.{
  State, Outcome, ok, derror, aborts, invalid, too_deep, M, build, do_build, append_basic_block,
  position_at_end, pure, stop, lift, valid, check, ◌>>=◌, ◌>>>=◌,
}
use low.Codegen.Flow.Blocks.{IsGood, IsShut, ends_block, flags, build-IsGood, build-IsShut}
use low.Codegen.Flow.Waiting.{append_basic_block-IsGood, position_at_end-IsGood}

-- From a state with P, a run that succeeds ends in a state with Q.
pub record Runs {A : Type 0} (P : State → Type 0) (m : M A) (Q : A → State → Type 0) : Type 0 where
  pub run : (st : State) (a : A) (st' : State) → P st → m st ≡ ok (a, st') → Q a st'

-- Whatever waits, the builder goes on in an open block, and the rest is closed.
pub record Keeps {A : Type 0} (m : M A) : Type 0 where
  pub runs : (ps : List ℕ) (fs : List Bool) → Runs (IsGood ps fs) m (λ _. IsGood ps fs)

pub >>>=-ok :
    {A B : Type 0} (o : Outcome A) (f : A → Outcome B) (b : B)
    → (o >>>= f) ≡ ok b
    → (a : A) × (o ≡ ok a) × (f a ≡ ok b)
>>>=-ok (ok a) f b h = (a, refl, h)
>>>=-ok derror f b h = absurd (cc h)
>>>=-ok aborts f b h = absurd (cc h)
>>>=-ok invalid f b h = absurd (cc h)
>>>=-ok too_deep f b h = absurd (cc h)

pub Runs-bind :
    {A B : Type 0} {P : State → Type 0} {R : A → State → Type 0} {Q : B → State → Type 0} (m : M A)
    (f : A → M B)
    → Runs P m R
    → ((a : A) → Runs (R a) (f a) Q)
    → Runs P (m >>= f) Q
unfolding ◌>>=◌
Runs-bind m f hm hf = record {
  run = λ st b st' p e.
      let (r, em, ef) = >>>=-ok (m st) (λ r. f r.0 r.1) (b, st') e in
      (hf r.0).run r.1 b st' (hm.run st r.0 r.1 p em) ef;
}

pub Runs-pure : {A : Type 0} {P : State → Type 0} (a : A) → Runs P (pure a) (λ _. P)
Runs-pure {A} {P} a = record {
  run = λ st b st' p e.
      let after : ◌≡◌ {A = A × State} (a, st) (b, st') = cc e in rw (sym (ap (λ r. r.1) after)) p;
}

pub Runs-append :
    (ps : List ℕ) (fs : List Bool)
    → Runs (IsGood ps fs) append_basic_block (λ n. IsGood (n ∷ ps) fs)
Runs-append ps fs = record {
  run = λ st n st' good e. append_basic_block-IsGood ps fs st n st' good e;
}

pub Runs-position :
    (xs ps : List ℕ) (fs : List Bool) (b : ℕ)
    → Runs (IsShut (xs ++ (b ∷ ps)) fs) (position_at_end b) (λ _. IsGood (xs ++ ps) fs)
Runs-position xs ps fs b = record {
  run = λ st a st' shut e. position_at_end-IsGood xs ps fs b st a st' shut e;
}

pub Runs-build :
    (ps : List ℕ) (fs : List Bool) (c : Call)
    → ends_block c ≡ true
    → Runs (IsGood ps fs) (build c) (λ _. IsShut ps fs)
Runs-build ps fs c t = record { run = λ st v st' good e. build-IsShut c ps fs st v st' t good e }

-- A jump ends the block.
pub Runs-do_build :
    (ps : List ℕ) (fs : List Bool) (c : Call)
    → ends_block c ≡ true
    → Runs (IsGood ps fs) (do_build c) (λ _. IsShut ps fs)
Runs-do_build ps fs c t = Runs-bind _ _ (Runs-build ps fs c t) (λ v. Runs-pure tt)

pub Keeps-Runs :
    {A : Type 0} {m : M A} (ps : List ℕ) (fs : List Bool)
    → Keeps m
    → Runs (IsGood ps fs) m (λ _. IsGood ps fs)
Keeps-Runs ps fs k = k.runs ps fs

pub Keeps-bind :
    {A B : Type 0} (m : M A) (f : A → M B) → Keeps m → ((a : A) → Keeps (f a)) → Keeps (m >>= f)
Keeps-bind m f hm hf = record {
  runs = λ ps fs. Runs-bind m f (hm.runs ps fs) (λ a. (hf a).runs ps fs);
}

pub Keeps-pure : {A : Type 0} (a : A) → Keeps (pure a)
Keeps-pure a = record { runs = λ ps fs. Runs-pure a }

pub Keeps-build : (c : Call) → ends_block c ≡ false → Keeps (build c)
Keeps-build c h = record {
  runs = λ ps fs. record { run = λ st v st' good e. build-IsGood c ps fs st v st' h good e };
}

-- What leaves the state as it is, and what never succeeds.
pub record Fails {A : Type 0} (o : Outcome A) : Type 0 where
  pub fails : (a : A) → o ≢ ok a

pub Fails-derror : {A : Type 0} → Fails {A = A} derror
Fails-derror = record { fails = λ a e. absurd (cc e) }

pub Fails-aborts : {A : Type 0} → Fails {A = A} aborts
Fails-aborts = record { fails = λ a e. absurd (cc e) }

pub Fails-invalid : {A : Type 0} → Fails {A = A} invalid
Fails-invalid = record { fails = λ a e. absurd (cc e) }

pub Fails-too_deep : {A : Type 0} → Fails {A = A} too_deep
Fails-too_deep = record { fails = λ a e. absurd (cc e) }

pub Keeps-stop : {A : Type 0} (o : Outcome (A × State)) → Fails o → Keeps (stop o)
Keeps-stop o h = record {
  runs = λ ps fs. record { run = λ st a st' good e. absurd (h.fails (a, st') e) };
}

pub Keeps-lift : {A : Type 0} (o : Outcome A) → Keeps (lift o)
Keeps-lift (ok a) = Keeps-pure a
Keeps-lift derror = Keeps-stop derror Fails-derror
Keeps-lift aborts = Keeps-stop aborts Fails-aborts
Keeps-lift invalid = Keeps-stop invalid Fails-invalid
Keeps-lift too_deep = Keeps-stop too_deep Fails-too_deep

pub Keeps-valid : {A : Type 0} (o : Option A) → Keeps (valid o)
Keeps-valid none = Keeps-stop invalid Fails-invalid
Keeps-valid (some a) = Keeps-pure a

pub Keeps-check : (b : Bool) (o : Outcome (Unit {0} × State)) → Fails o → Keeps (check b o)
Keeps-check true o h = Keeps-pure tt
Keeps-check false o h = Keeps-stop o h

pub Keeps-if : {A : Type 0} (b : Bool) (m n : M A) → Keeps m → Keeps n → Keeps (if b then m else n)
Keeps-if true m n hm hn = hm
Keeps-if false m n hm hn = hn

-- What changes nothing but symbols, constants and globals.
pub Keeps-same :
    {A : Type 0} (m : M A)
    → ((st : State) (a : A) (st' : State)
        → m st ≡ ok (a, st')
        → (st'.blocks ≡ st.blocks)
          × (st'.current ≡ st.current)
          × (flags st'.scopes ≡ flags st.scopes))
    → Keeps m
Keeps-same m h = record {
  runs = λ ps fs. record {
    run = λ st a st' good e.
        let (eb, ec, es) = h st a st' e in
        record {
          flagged = es ∙ good.flagged;
          empty = rw eb good.empty;
          distinct = good.distinct;
          apart = rw ec good.apart;
          here = rw (eb, ec) good.here;
          closed = rw (eb, ec) good.closed;
        };
  };
}

-- A call from a table that ends no block, where the table has one.
abbrev pub Plain : Outcome Call → Type 0
Plain (ok c) = ends_block c ≡ false
Plain derror = Unit
Plain aborts = Unit
Plain invalid = Unit
Plain too_deep = Unit

pub Keeps-lift-build : (o : Outcome Call) → Plain o → Keeps (lift o >>= build)
unfolding ◌>>=◌
Keeps-lift-build (ok c) plain = Keeps-build c plain
Keeps-lift-build derror plain = Keeps-stop derror Fails-derror
Keeps-lift-build aborts plain = Keeps-stop aborts Fails-aborts
Keeps-lift-build invalid plain = Keeps-stop invalid Fails-invalid
Keeps-lift-build too_deep plain = Keeps-stop too_deep Fails-too_deep
