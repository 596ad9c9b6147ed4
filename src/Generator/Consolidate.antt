-- ===== src/Generator/Consolidate.antt =====
-- src/parser_generator.c, consolidate_leads: what the leads say is neither lost nor added to.
use low.Prelude.{
  ℕ, ◌≡◌, sym, ◌∙◌, ◌⊎◌, inl, inr, ◌↔◌, true, List, [], ◌∷◌, Option, length, Bool-cases,
}
use low.Grammar.Symbols.{Rule}
use low.Reduce.Kinds.{All}
use low.Generator.Sets.{Has, token_set_merge, token_set_merge-Has, length-token_set_merge}
use mathlib.Core.List.{Permᴰ}
use mathlib.Core.List.Permᴰ.{nil, cons, swap, trans, symm}
use low.Generator.Order.{same_core_eq}
use low.Generator.Leads.{Lead, same_core, merged, merge_leads, merge_sorted, consolidate_leads}

-- The lead has this core and the token among its terminals; and one of the leads is such.
abbrev pub Tells : Lead → Option Rule → ℕ → ℕ → ℕ → Type 0
Tells l rule place position t =
    (l.rule ≡ rule) × (l.place ≡ place) × (l.position ≡ position) × Has l.terminals t

abbrev pub Says : List Lead → Option Rule → ℕ → ℕ → ℕ → Type 0
Says [] rule place position t = ⊥
Says (l ∷ leads) rule place position t =
    Tells l rule place position t ⊎ Says leads rule place position t

-- The sets of all leads have three words.
abbrev pub AreSets : List Lead → Type 0
AreSets leads = All (λ l. length l.terminals ≡ 3) leads

-- Two leads with one core tell what the merged lead tells.
merged-Tells :
    (lo li : Lead) (rule : Option Rule) (place position t : ℕ)
    → same_core li lo ≡ true
    → length lo.terminals ≡ length li.terminals
    → Tells (merged lo li) rule place position t
      ↔ (Tells lo rule place position t ⊎ Tells li rule place position t)
merged-Tells lo li rule place position t e size = (to, from)
  where
    core : (li.rule ≡ lo.rule) × (li.place ≡ lo.place) × (li.position ≡ lo.position)
    core = same_core_eq li lo e

    has :
        Has (token_set_merge lo.terminals li.terminals) t
        ↔ (Has lo.terminals t ⊎ Has li.terminals t)
    has = token_set_merge-Has lo.terminals li.terminals t size

    split :
        (lo.rule ≡ rule)
        → (lo.place ≡ place)
        → (lo.position ≡ position)
        → Has lo.terminals t ⊎ Has li.terminals t
        → Tells lo rule place position t ⊎ Tells li rule place position t
    split a b c (inl h) = inl (a, b, c, h)
    split a b c (inr h) = inr (core.0 ∙ a, core.1 ∙ b, core.2 ∙ c, h)

    to :
        Tells (merged lo li) rule place position t
        → Tells lo rule place position t ⊎ Tells li rule place position t
    to (a, b, c, h) = split a b c (has.0 h)

    from :
        Tells lo rule place position t ⊎ Tells li rule place position t
        → Tells (merged lo li) rule place position t
    from (inl (a, b, c, h)) = (a, b, c, has.1 (inl h))
    from (inr (a, b, c, h)) = (sym core.0 ∙ a, sym core.1 ∙ b, sym core.2 ∙ c, has.1 (inr h))

regroup : {P Q A B C : Type 0} → (P ↔ (Q ⊎ C)) → (Q ↔ (A ⊎ B)) → P ↔ (A ⊎ (B ⊎ C))
regroup {P} {Q} {A} {B} {C} p q = (λ a. to (p.0 a), from)
  where
    sort : A ⊎ B → A ⊎ (B ⊎ C)
    sort (inl a) = inl a
    sort (inr b) = inr (inl b)

    to : Q ⊎ C → A ⊎ (B ⊎ C)
    to (inl a) = sort (q.0 a)
    to (inr c) = inr (inr c)

    from : A ⊎ (B ⊎ C) → P
    from (inl a) = p.1 (inl (q.1 (inl a)))
    from (inr (inl b)) = p.1 (inl (q.1 (inr b)))
    from (inr (inr c)) = p.1 (inr c)

beside : {A B C : Type 0} → (B ↔ C) → (A ⊎ B) ↔ (A ⊎ C)
beside {A} {B} {C} e = (to, from)
  where
    to : A ⊎ B → A ⊎ C
    to (inl a) = inl a
    to (inr b) = inr (e.0 b)

    from : A ⊎ C → A ⊎ B
    from (inl a) = inl a
    from (inr c) = inr (e.1 c)

merge_leads-Says :
    (lo : Lead) (leads : List Lead) (rule : Option Rule) (place position t : ℕ)
    → AreSets (lo ∷ leads)
    → Says (merge_leads lo leads) rule place position t ↔ Says (lo ∷ leads) rule place position t
unfolding merge_leads
merge_leads-Says lo [] rule place position t sets = (λ a. a, λ a. a)
merge_leads-Says lo (li ∷ leads) rule place position t (size, (size', sets)) =
    elim (Bool-cases (same_core li lo)) [
      | inl e ↦
          let size_m : length (token_set_merge lo.terminals li.terminals) ≡ 3 =
            length-token_set_merge lo.terminals li.terminals ∙ size in
          let rest = merge_leads-Says (merged lo li) leads rule place position t (size_m, sets) in
          rw (e, merge_leads)
            (regroup rest (merged-Tells lo li rule place position t e (size ∙ sym size')))
      | inr e ↦
          rw (e, merge_leads)
            (beside (merge_leads-Says li leads rule place position t (size', sets)))
    ]

Permᴰ-Says :
    (xs ys : List Lead) (rule : Option Rule) (place position t : ℕ)
    → Permᴰ xs ys
    → Says xs rule place position t
    → Says ys rule place position t
Permᴰ-Says _ _ rule place position t nil a = a
Permᴰ-Says _ _ rule place position t (cons e p) (inl a) = inl (rw (sym e) a)
Permᴰ-Says _ _ rule place position t (cons e p) (inr a) =
    inr (Permᴰ-Says _ _ rule place position t p a)
Permᴰ-Says _ _ rule place position t (swap e e') (inl a) = inr (inl (rw (sym e) a))
Permᴰ-Says _ _ rule place position t (swap e e') (inr (inl a)) = inl (rw (sym e') a)
Permᴰ-Says _ _ rule place position t (swap e e') (inr (inr a)) = inr (inr a)
Permᴰ-Says _ _ rule place position t (trans p q) a =
    Permᴰ-Says _ _ rule place position t q (Permᴰ-Says _ _ rule place position t p a)

Permᴰ-AreSets : (xs ys : List Lead) → Permᴰ xs ys → AreSets xs → AreSets ys
Permᴰ-AreSets _ _ nil a = a
Permᴰ-AreSets _ _ (cons e p) (a, rest) = (rw (sym e) a, Permᴰ-AreSets _ _ p rest)
Permᴰ-AreSets _ _ (swap e e') (a, (b, rest)) = (rw (sym e') b, (rw (sym e) a, rest))
Permᴰ-AreSets _ _ (trans p q) a = Permᴰ-AreSets _ _ q (Permᴰ-AreSets _ _ p a)

merge_sorted-Says :
    (leads : List Lead) (rule : Option Rule) (place position t : ℕ)
    → AreSets leads
    → Says (merge_sorted leads) rule place position t ↔ Says leads rule place position t
unfolding merge_sorted
merge_sorted-Says [] rule place position t sets = (λ a. a, λ a. a)
merge_sorted-Says (lo ∷ leads) rule place position t sets =
    merge_leads-Says lo leads rule place position t sets

-- If qsort leaves a permutation of the array, and all sets have three words, a consolidated lead has
-- a core with a token among its terminals if and only if one of the leads has.
pub consolidate_leads-Says :
    (qsort : List Lead → List Lead) (leads : List Lead)
    → Permᴰ leads (qsort leads)
    → AreSets leads
    → (rule : Option Rule) (place position t : ℕ)
    → Says (consolidate_leads qsort leads) rule place position t ↔ Says leads rule place position t
unfolding consolidate_leads
consolidate_leads-Says qsort leads perm sets rule place position t =
    let merged_iff =
      merge_sorted-Says (qsort leads) rule place position t (Permᴰ-AreSets _ _ perm sets) in
    (
      λ a. Permᴰ-Says _ _ rule place position t (symm perm) (merged_iff.0 a),
      λ a. merged_iff.1 (Permᴰ-Says _ _ rule place position t perm a),
    )
