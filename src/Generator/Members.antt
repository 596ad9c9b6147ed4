-- ===== src/Generator/Members.antt =====
-- src/parser_generator.c, gather_leads: members of arrays, and how many of some leads are missing.
use low.Prelude.{
  ℕ, zero, suc, ◌+◌, ◌≤◌, ◌<◌, ◌≡◌, sym, ap, arith, true, false, List, [], ◌∷◌, ◌++◌, some,
  get_elem?, map, length, ◌⊎◌, inl, inr, if◌then◌else◌,
}
use low.Generator.Leads.{Lead}
use low.Generator.Expand.{has_lead}
use low.Reduce.Kinds.{All}

abbrev pub In : {A : Type 0} → A → List A → Type 0
In x [] = ⊥
In x (y ∷ ys) = (x ≡ y) ⊎ In x ys

pub In-append_left : {A : Type 0} (x : A) (xs ys : List A) → In x xs → In x (xs ++ ys)
In-append_left x [] ys h = absurd h
In-append_left x (y ∷ xs) ys (inl e) = inl e
In-append_left x (y ∷ xs) ys (inr h) = inr (In-append_left x xs ys h)

pub In-append_right : {A : Type 0} (x : A) (xs ys : List A) → In x ys → In x (xs ++ ys)
In-append_right x [] ys h = h
In-append_right x (y ∷ xs) ys h = inr (In-append_right x xs ys h)

pub In-map : {A B : Type 0} (f : A → B) (x : A) (xs : List A) → In x xs → In (f x) (map f xs)
In-map f x [] h = absurd h
In-map f x (y ∷ xs) (inl e) = inl (ap f e)
In-map f x (y ∷ xs) (inr h) = inr (In-map f x xs h)

pub In-get_elem : {A : Type 0} (xs : List A) (i : ℕ) (x : A) → get_elem? xs i ≡ some x → In x xs
In-get_elem [] i x h = absurd (cc h)
In-get_elem (y ∷ xs) zero x h = let e : y ≡ x = cc h in inl (sym e)
In-get_elem (y ∷ xs) (suc i) x h = inr (In-get_elem xs i x h)

pub All-In : {A : Type 0} (P : A → Type 0) (x : A) (xs : List A) → All P xs → In x xs → P x
All-In P x [] ps h = absurd h
All-In P x (y ∷ xs) (p, ps) (inl e) = rw e p
All-In P x (y ∷ xs) (p, ps) (inr h) = All-In P x xs ps h

pub All-append :
    {A : Type 0} (P : A → Type 0) (xs ys : List A) → All P xs → All P ys → All P (xs ++ ys)
All-append P [] ys ps qs = qs
All-append P (x ∷ xs) ys (p, ps) qs = (p, All-append P xs ys ps qs)

pub All-map :
    {A : Type 0} (P Q : A → Type 0) (xs : List A) → ((x : A) → P x → Q x) → All P xs → All Q xs
All-map P Q [] f ps = tt
All-map P Q (x ∷ xs) f (p, ps) = (f x p, All-map P Q xs f ps)

-- How many of some leads an array does not have.
unfoldable pub missing : List Lead → List Lead → ℕ
missing [] leads = 0
missing (u ∷ us) leads = (if has_lead u leads then 0 else 1) + missing us leads

pub missing-le : (us leads : List Lead) → missing us leads ≤ length us
unfolding missing
missing-le [] leads = omega arith
missing-le (u ∷ us) leads = ground (arith, missing-le us leads)

pub missing-more :
    (us leads out : List Lead)
    → ((old : Lead) → has_lead old leads ≡ true → has_lead old out ≡ true)
    → missing us out ≤ missing us leads
unfolding missing
missing-more [] leads out keeps = omega arith
missing-more (u ∷ us) leads out keeps = ground (arith, keeps u, missing-more us leads out keeps)

pub missing-new :
    (us leads out : List Lead) (u : Lead)
    → ((old : Lead) → has_lead old leads ≡ true → has_lead old out ≡ true)
    → In u us
    → has_lead u leads ≡ false
    → has_lead u out ≡ true
    → missing us out < missing us leads
unfolding missing
missing-new [] leads out u keeps h old new = absurd h
missing-new (v ∷ us) leads out u keeps (inl e) old new =
    let old' : has_lead v leads ≡ false = rw (sym e) old in
    let new' : has_lead v out ≡ true = rw (sym e) new in
    ground (arith, old', new', missing-more us leads out keeps)
missing-new (v ∷ us) leads out u keeps (inr h) old new =
    ground (arith, keeps v, missing-new us leads out u keeps h old new)
