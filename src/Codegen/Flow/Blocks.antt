-- ===== src/Codegen/Flow/Blocks.antt =====
-- src/codegen*.c: when blocks are well formed, and what single calls do to them.
use low.Prelude.{
  ℕ, zero, suc, ◌≡◌, ◌≢◌, inl, inr, refl, sym, ap, ◌∙◌, arith, Bool, true, false, List, [], ◌∷◌,
  ◌++◌, Option, none, some, get_elem?, Bool-cases, ◌==◌, ==_iff,
}
use low.Reduce.Kinds.{All}
use low.Codegen.Llvm.{ValueRef, result, Call, br, cond_br, ret, ret_void, unreachable}
use low.Codegen.State.{Scope, State, ok, build, append_at}

abbrev pub ends_block : Call → Bool
ends_block (br b) = true
ends_block (cond_br v b c) = true
ends_block (ret v) = true
ends_block ret_void = true
ends_block unreachable = true
ends_block _ = false

-- No call of the block is a terminator; the last one is, and no other.
abbrev pub IsOpen : List Call → Type 0
IsOpen [] = Unit
IsOpen (c ∷ calls) = (ends_block c ≡ false) × IsOpen calls

abbrev pub IsClosed : List Call → Type 0
IsClosed [] = ⊥
IsClosed (c ∷ []) = ends_block c ≡ true
IsClosed (c ∷ d ∷ calls) = (ends_block c ≡ false) × IsClosed (d ∷ calls)

pub IsOpen-append :
    (b : List Call) (c : Call) → IsOpen b → ends_block c ≡ false → IsOpen (b ++ (c ∷ []))
IsOpen-append [] c h e = (e, tt)
IsOpen-append (d ∷ b) c (h, hs) e = (h, IsOpen-append b c hs e)

pub IsClosed-append :
    (b : List Call) (c : Call) → IsOpen b → ends_block c ≡ true → IsClosed (b ++ (c ∷ []))
IsClosed-append [] c h e = e
IsClosed-append (d ∷ []) c (h, hs) e = (h, e)
IsClosed-append (d ∷ d' ∷ b) c (h, hs) e = (h, IsClosed-append (d' ∷ b) c hs e)

-- The block number i is none of these.
abbrev pub NotIn : ℕ → List ℕ → Type 0
NotIn i [] = Unit
NotIn i (p ∷ ps) = (i ≢ p) × NotIn i ps

abbrev pub AreDistinct : List ℕ → Type 0
AreDistinct [] = Unit
AreDistinct (p ∷ ps) = NotIn p ps × AreDistinct ps

abbrev pub flags : List Scope → List Bool
flags [] = []
flags (scope ∷ scopes) = scope.is_terminated ∷ flags scopes

abbrev pub AreEmpty : List (List Call) → List ℕ → Type 0
AreEmpty blocks ps = All (λ p. get_elem? blocks p ≡ some []) ps

-- The blocks that wait, `ps`, are empty, and all others are closed.
pub record IsShut (ps : List ℕ) (fs : List Bool) (st : State) : Type 0 where
  pub flagged : flags st.scopes ≡ fs
  pub empty : AreEmpty st.blocks ps
  pub distinct : AreDistinct ps
  pub closed : (i : ℕ) (b : List Call) → get_elem? st.blocks i ≡ some b → NotIn i ps → IsClosed b

-- The same but for the block where the builder stands, which is open and does not wait.
pub record IsGood (ps : List ℕ) (fs : List Bool) (st : State) : Type 0 where
  pub flagged : flags st.scopes ≡ fs
  pub empty : AreEmpty st.blocks ps
  pub distinct : AreDistinct ps
  pub apart : NotIn st.current ps
  pub here : (b : List Call) × (get_elem? st.blocks st.current ≡ some b) × IsOpen b
  pub closed :
      (i : ℕ) (b : List Call)
      → get_elem? st.blocks i ≡ some b
      → NotIn i ps
      → i ≢ st.current
      → IsClosed b

-- The step of append_at behind the first block.
append_at-tail :
    (k : ℕ) (c : Call) (x : List Call) (blocks out : List (List Call))
    → append_at (suc k) c (x ∷ blocks) ≡ some out
    → (rest : List (List Call)) × (append_at k c blocks ≡ some rest) × (out ≡ x ∷ rest)
unfolding append_at
append_at-tail k c x blocks out h = on (append_at k c blocks) refl
  where
    on :
        (o : Option (List (List Call)))
        → append_at k c blocks ≡ o
        → (rest : List (List Call)) × (append_at k c blocks ≡ some rest) × (out ≡ x ∷ rest)
    on none e = let h' = rw (e, append_at) at h in absurd (cc h')
    on (some rest) e = let h' = rw (e, append_at) at h in (rest, e, cc h')

pub append_at-get_elem :
    (k : ℕ) (c : Call) (blocks out : List (List Call)) (b : List Call)
    → append_at k c blocks ≡ some out
    → get_elem? blocks k ≡ some b
    → get_elem? out k ≡ some (b ++ (c ∷ []))
unfolding append_at
append_at-get_elem k c [] out b h e = absurd (cc e)
append_at-get_elem zero c (x ∷ blocks) out b h e =
    let eb : x ≡ b = cc e in let eo : out ≡ (x ++ (c ∷ [])) ∷ blocks = cc h in rw (eo, eb) refl
append_at-get_elem (suc k) c (x ∷ blocks) out b h e =
    let (rest, h', eo) = append_at-tail k c x blocks out h in
    rw eo (append_at-get_elem k c blocks rest b h' e)

pub append_at-get_elem_other :
    (k : ℕ) (c : Call) (blocks out : List (List Call)) (i : ℕ)
    → append_at k c blocks ≡ some out
    → i ≢ k
    → get_elem? out i ≡ get_elem? blocks i
unfolding append_at
append_at-get_elem_other k c [] out i h n = absurd (cc h)
append_at-get_elem_other zero c (x ∷ blocks) out zero h n = absurd (n refl)
append_at-get_elem_other zero c (x ∷ blocks) out (suc i) h n =
    let eo : out ≡ (x ++ (c ∷ [])) ∷ blocks = cc h in rw eo refl
append_at-get_elem_other (suc k) c (x ∷ blocks) out zero h n =
    let (rest, h', eo) = append_at-tail k c x blocks out h in rw eo refl
append_at-get_elem_other (suc k) c (x ∷ blocks) out (suc i) h n =
    let (rest, h', eo) = append_at-tail k c x blocks out h in
    rw eo (append_at-get_elem_other k c blocks rest i h' (λ e. n (ap suc e)))

-- Blocks that wait stay empty while a block that does not wait changes.
AreEmpty-other :
    (blocks out : List (List Call)) (k : ℕ) (ps : List ℕ)
    → ((i : ℕ) → i ≢ k → get_elem? out i ≡ get_elem? blocks i)
    → NotIn k ps
    → AreEmpty blocks ps
    → AreEmpty out ps
AreEmpty-other blocks out k [] same apart empty = tt
AreEmpty-other blocks out k (p ∷ ps) same (n, apart) (e, empty) =
    (same p (λ q. n (sym q)) ∙ e, AreEmpty-other blocks out k ps same apart empty)

-- The result of `build`, in parts.
build-ok :
    (c : Call) (st : State) (v : ValueRef) (st' : State)
    → build c st ≡ ok (v, st')
    → (append_at st.current c st.blocks ≡ some st'.blocks)
      × (st'.current ≡ st.current)
      × (st'.scopes ≡ st.scopes)
unfolding build
build-ok c st v st' h = on (append_at st.current c st.blocks) refl
  where
    on :
        (o : Option (List (List Call)))
        → append_at st.current c st.blocks ≡ o
        → (append_at st.current c st.blocks ≡ some st'.blocks)
          × (st'.current ≡ st.current)
          × (st'.scopes ≡ st.scopes)
    on none e = let h' = rw (e, build) at h in absurd (cc h')
    on (some out) e =
        let h' = rw (e, build) at h in
        let after : ◌≡◌ {A = ValueRef × State}
            (result st.count, record st { blocks = out; count = suc st.count }) (v, st') =
          cc h' in
        (
          e ∙ ap some (ap (λ r. r.1.blocks) after),
          sym (ap (λ r. r.1.current) after),
          sym (ap (λ r. r.1.scopes) after),
        )

pub build-IsGood :
    (c : Call) (ps : List ℕ) (fs : List Bool) (st : State) (v : ValueRef) (st' : State)
    → ends_block c ≡ false
    → IsGood ps fs st
    → build c st ≡ ok (v, st')
    → IsGood ps fs st'
build-IsGood c ps fs st v st' t good e =
    let (eb, ec, es) = build-ok c st v st' e in
    let (b, stands, all_open) = good.here in
    let other = λ (i : ℕ) (n : i ≢ st.current).
      append_at-get_elem_other st.current c st.blocks st'.blocks i eb n in
    record {
      flagged = rw es good.flagged;
      empty = AreEmpty-other st.blocks st'.blocks st.current ps other good.apart good.empty;
      distinct = good.distinct;
      apart = rw ec good.apart;
      here = (
        b ++ (c ∷ []),
        rw ec (append_at-get_elem st.current c st.blocks st'.blocks b eb stands),
        IsOpen-append b c all_open t,
      );
      closed = λ i d h n m.
          let m' : i ≢ st.current = rw (sym ec) m in good.closed i d (sym (other i m') ∙ h) n m';
    }

pub build-IsShut :
    (c : Call) (ps : List ℕ) (fs : List Bool) (st : State) (v : ValueRef) (st' : State)
    → ends_block c ≡ true
    → IsGood ps fs st
    → build c st ≡ ok (v, st')
    → IsShut ps fs st'
build-IsShut c ps fs st v st' t good e =
    let (eb, ec, es) = build-ok c st v st' e in
    let (b, stands, all_open) = good.here in
    let other = λ (i : ℕ) (n : i ≢ st.current).
      append_at-get_elem_other st.current c st.blocks st'.blocks i eb n in
    let same_block = append_at-get_elem st.current c st.blocks st'.blocks b eb stands in
    record {
      flagged = rw es good.flagged;
      empty = AreEmpty-other st.blocks st'.blocks st.current ps other good.apart good.empty;
      distinct = good.distinct;
      closed = λ i d h n. elim (Bool-cases (i == st.current)) [
        | inl q ↦
            let here : i ≡ st.current = (==_iff i st.current).0 q in
            let eqd : b ++ (c ∷ []) ≡ d = cc (same_block, h, here) in
            rw (sym eqd) (IsClosed-append b c all_open t)
        | inr q ↦
            let m : i ≢ st.current = ground (arith, q) in good.closed i d (sym (other i m) ∙ h) n m
      ];
    }
