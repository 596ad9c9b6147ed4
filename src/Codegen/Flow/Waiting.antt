-- ===== src/Codegen/Flow/Waiting.antt =====
-- src/codegen*.c: blocks that are appended first and filled later.
use low.Prelude.{
  ℕ, zero, suc, ◌<◌, ◌≡◌, ◌≢◌, ◌⊎◌, inl, inr, refl, sym, ap, arith, Bool, List, [], ◌∷◌, ◌++◌, some,
  length, get_elem?,
}
use low.Codegen.Llvm.{Call}
use low.Codegen.State.{State, ok, append_basic_block, position_at_end}
use low.Codegen.Flow.Blocks.{NotIn, AreDistinct, AreEmpty, IsShut, IsGood}

abbrev Blocks : Type 0
Blocks = List (List Call)

-- A new block at the end does not change the others.
old_block :
    (blocks : Blocks) (i : ℕ) (b : List Call)
    → get_elem? blocks i ≡ some b
    → get_elem? (blocks ++ ([] ∷ [])) i ≡ some b
old_block [] i b h = absurd (cc h)
old_block (x ∷ blocks) zero b h = h
old_block (x ∷ blocks) (suc i) b h = old_block blocks i b h

new_block : (blocks : Blocks) → get_elem? (blocks ++ ([] ∷ [])) (length blocks) ≡ some []
new_block [] = refl
new_block (x ∷ blocks) = new_block blocks

-- A block is an old one or the new one.
which_block :
    (blocks : Blocks) (i : ℕ) (b : List Call)
    → get_elem? (blocks ++ ([] ∷ [])) i ≡ some b
    → (get_elem? blocks i ≡ some b) ⊎ (i ≡ length blocks)
which_block [] zero b h = inr refl
which_block [] (suc i) b h = absurd (cc h)
which_block (x ∷ blocks) zero b h = inl h
which_block (x ∷ blocks) (suc i) b h = elim (which_block blocks i b h) [
  | inl e ↦ inl e
  | inr e ↦ inr (ap suc e)
]

within : (blocks : Blocks) (i : ℕ) (b : List Call) → get_elem? blocks i ≡ some b → i < length blocks
within [] i b h = absurd (cc h)
within (x ∷ blocks) zero b h = omega arith
within (x ∷ blocks) (suc i) b h = omega (arith, within blocks i b h)

new_apart : (blocks : Blocks) (ps : List ℕ) → AreEmpty blocks ps → NotIn (length blocks) ps
new_apart blocks [] empty = tt
new_apart blocks (p ∷ ps) (e, empty) =
    let lt = within blocks p [] e in (λ q. absurd (omega (arith, lt, q)), new_apart blocks ps empty)

AreEmpty-append :
    (blocks : Blocks) (ps : List ℕ) → AreEmpty blocks ps → AreEmpty (blocks ++ ([] ∷ [])) ps
AreEmpty-append blocks [] empty = tt
AreEmpty-append blocks (p ∷ ps) (e, empty) =
    (old_block blocks p [] e, AreEmpty-append blocks ps empty)

pub append_basic_block-IsGood :
    (ps : List ℕ) (fs : List Bool) (st : State) (n : ℕ) (st' : State)
    → IsGood ps fs st
    → append_basic_block st ≡ ok (n, st')
    → IsGood (n ∷ ps) fs st'
unfolding append_basic_block
append_basic_block-IsGood ps fs st n st' good e =
    let after : ◌≡◌ {A = ℕ × State}
        (length st.blocks, record st { blocks = st.blocks ++ ([] ∷ []) }) (n, st') =
      cc e in
    let en = ap (λ r. r.0) after in let es = ap (λ r. r.1) after in rw (sym en, sym es) appended
  where
    appended : IsGood (length st.blocks ∷ ps) fs (record st { blocks = st.blocks ++ ([] ∷ []) })
    appended =
        let (b, stands, all_open) = good.here in
        let lt = within st.blocks st.current b stands in
        record {
          flagged = good.flagged;
          empty = (new_block st.blocks, AreEmpty-append st.blocks ps good.empty);
          distinct = (new_apart st.blocks ps good.empty, good.distinct);
          apart = (λ q. absurd (omega (arith, lt, q)), good.apart);
          here = (b, old_block st.blocks st.current b stands, all_open);
          closed = λ i d h n m. elim (which_block st.blocks i d h) [
            | inl h' ↦ good.closed i d h' n.1 m
            | inr q ↦ absurd (n.0 q)
          ];
        }

-- The block that is filled next is one of those that wait.
NotIn-split : (i b : ℕ) (xs ps : List ℕ) → NotIn i (xs ++ (b ∷ ps)) → (i ≢ b) × NotIn i (xs ++ ps)
NotIn-split i b [] ps n = n
NotIn-split i b (x ∷ xs) ps (n, ns) = let (m, rest) = NotIn-split i b xs ps ns in (m, (n, rest))

NotIn-join : (i b : ℕ) (xs ps : List ℕ) → i ≢ b → NotIn i (xs ++ ps) → NotIn i (xs ++ (b ∷ ps))
NotIn-join i b [] ps m n = (m, n)
NotIn-join i b (x ∷ xs) ps m (n, ns) = (n, NotIn-join i b xs ps m ns)

NotIn-rest : (b : ℕ) (xs ps : List ℕ) → AreDistinct (xs ++ (b ∷ ps)) → NotIn b (xs ++ ps)
NotIn-rest b [] ps (n, d) = n
NotIn-rest b (x ∷ xs) ps (n, d) =
    let (m, rest) = NotIn-split x b xs ps n in (λ e. m (sym e), NotIn-rest b xs ps d)

distinct_rest : (b : ℕ) (xs ps : List ℕ) → AreDistinct (xs ++ (b ∷ ps)) → AreDistinct (xs ++ ps)
distinct_rest b [] ps (n, d) = d
distinct_rest b (x ∷ xs) ps (n, d) = ((NotIn-split x b xs ps n).1, distinct_rest b xs ps d)

empty_rest :
    (blocks : Blocks) (b : ℕ) (xs ps : List ℕ)
    → AreEmpty blocks (xs ++ (b ∷ ps))
    → (get_elem? blocks b ≡ some []) × AreEmpty blocks (xs ++ ps)
empty_rest blocks b [] ps (e, empty) = (e, empty)
empty_rest blocks b (x ∷ xs) ps (e, empty) =
    let (e', rest) = empty_rest blocks b xs ps empty in (e', (e, rest))

pub position_at_end-IsGood :
    (xs ps : List ℕ) (fs : List Bool) (b : ℕ) (st : State) (a : Unit {0}) (st' : State)
    → IsShut (xs ++ (b ∷ ps)) fs st
    → position_at_end b st ≡ ok (a, st')
    → IsGood (xs ++ ps) fs st'
unfolding position_at_end
position_at_end-IsGood xs ps fs b st a st' shut e =
    let after : ◌≡◌ {A = Unit {0} × State} (tt, record st { current = b }) (a, st') = cc e in
    rw (sym (ap (λ r. r.1) after)) placed
  where
    placed : IsGood (xs ++ ps) fs (record st { current = b })
    placed =
        let (stands, rest) = empty_rest st.blocks b xs ps shut.empty in
        record {
          flagged = shut.flagged;
          empty = rest;
          distinct = distinct_rest b xs ps shut.distinct;
          apart = NotIn-rest b xs ps shut.distinct;
          here = ([], stands, tt);
          closed = λ i d h n m. shut.closed i d h (NotIn-join i b xs ps m n);
        }
