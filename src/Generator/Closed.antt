-- ===== src/Generator/Closed.antt =====
-- src/parser_generator.c, gather_leads: what the loop adds.
use low.Prelude.{
  ℕ, zero, suc, ◌+◌, ◌≡◌, refl, sym, arith, inl, inr, Bool, true, false, List, [], ◌∷◌, ◌++◌,
  Option, none, some, ◌||◌, ◌&&◌, ◌==◌, get_elem?, length, ◌⊎◌, ◌↔◌, Bool-cases,
}
use low.Grammar.Symbols.{Rule, Symbol, sub, tkn, Variant}
use low.Grammar.Variants.{variants}
use low.Generator.Rules.{◌same◌}
use low.Generator.Firsts.{gather_first-First}
use low.Generator.Sets.{
  Has, no_token, token_set_init, token_set_merge, token_set_merge-Has, equal_token_sets,
}
use low.Generator.First.{First, variant_get_symbol}
use low.Generator.Leads.{Lead, equal_leads}
use low.Generator.Expand.{
  follow, follow-returns, has_lead, new_lead, add_lead, add_variants, expand_lead, expand_leads,
}

true_or : (a b : Bool) → b ≡ true → a || b ≡ true
true_or true b h = refl
true_or false b h = h

pub has_lead-append :
    (nl : Lead) (leads more : List Lead)
    → has_lead nl leads ≡ true
    → has_lead nl (leads ++ more) ≡ true
unfolding has_lead
has_lead-append nl [] more h = absurd (cc h)
has_lead-append nl (lead ∷ leads) more h = elim (Bool-cases (equal_leads lead nl)) [
  | inl e ↦ rw e refl
  | inr e ↦ true_or _ _ (has_lead-append nl leads more (rw_false (equal_leads lead nl) _ e h))
]
  where
    rw_false : (a b : Bool) → a ≡ false → a || b ≡ true → b ≡ true
    rw_false true b e h = absurd (cc e)
    rw_false false b e h = h

both : (a b : Bool) → a ≡ true → b ≡ true → a && b ≡ true
both a b e e' = rw (e, e') refl

pub equal_token_sets_refl : (bits : List ℕ) → equal_token_sets bits bits ≡ true
unfolding equal_token_sets
equal_token_sets_refl [] = refl
equal_token_sets_refl (w ∷ bits) = both _ _ (ground arith) (equal_token_sets_refl bits)

pub equal_leads_refl :
    (r : Rule) (terminals : List ℕ) (i : ℕ) (v : Variant)
    → equal_leads (new_lead r terminals i v) (new_lead r terminals i v) ≡ true
equal_leads_refl r terminals i v =
    both (r same r && ((i == i) && true)) (equal_token_sets terminals terminals)
      (both (r same r) ((i == i) && true) (ground arith) (ground arith))
      (equal_token_sets_refl terminals)

pub has_lead-last :
    (leads : List Lead) (nl : Lead)
    → equal_leads nl nl ≡ true
    → has_lead nl (leads ++ (nl ∷ [])) ≡ true
unfolding has_lead
has_lead-last [] nl e = rw e refl
has_lead-last (lead ∷ leads) nl e = true_or _ _ (has_lead-last leads nl e)

has_lead-add_lead :
    (leads : List Lead) (nl : Lead)
    → equal_leads nl nl ≡ true
    → has_lead nl (add_lead leads nl) ≡ true
has_lead-add_lead leads nl e = elim (Bool-cases (has_lead nl leads)) [
  | inl h ↦ rw (h, add_lead) h
  | inr h ↦ rw (h, add_lead) (has_lead-last leads nl e)
]

has_lead-add_lead_old :
    (leads : List Lead) (old nl : Lead)
    → has_lead old leads ≡ true
    → has_lead old (add_lead leads nl) ≡ true
has_lead-add_lead_old leads old nl h = elim (Bool-cases (has_lead nl leads)) [
  | inl e ↦ rw (e, add_lead) h
  | inr e ↦ rw (e, add_lead) (has_lead-append old leads (nl ∷ []) h)
]

has_lead-add_variants_old :
    (r : Rule) (f : List ℕ) (i : ℕ) (vs : List Variant) (leads : List Lead) (old : Lead)
    → has_lead old leads ≡ true
    → has_lead old (add_variants r f i vs leads) ≡ true
unfolding add_variants
has_lead-add_variants_old r f i [] leads old h = h
has_lead-add_variants_old r f i (v ∷ vs) leads old h =
    has_lead-add_variants_old r f (suc i) vs _ old
      (has_lead-add_lead_old leads old (new_lead r f i v) h)

has_lead-add_variants :
    (r : Rule) (f : List ℕ) (i : ℕ) (vs : List Variant) (leads : List Lead) (j k : ℕ) (v : Variant)
    → get_elem? vs j ≡ some v
    → k ≡ i + j
    → has_lead (new_lead r f k v) (add_variants r f i vs leads) ≡ true
unfolding add_variants
has_lead-add_variants r f i [] leads j k v h e = absurd (cc h)
has_lead-add_variants r f i (w ∷ vs) leads zero k v h e =
    let here : w ≡ v = cc h in
    let place : i ≡ k = omega arith in
    has_lead-add_variants_old r f (suc i) vs _ (new_lead r f k v)
      (rw (here, place) (has_lead-add_lead leads (new_lead r f k v) (equal_leads_refl r f k v)))
has_lead-add_variants r f i (w ∷ vs) leads (suc j) k v h e =
    has_lead-add_variants r f (suc i) vs _ j k v h (omega arith)

-- No lead is lost, and those that the next symbol of a lead calls for are there.
unfoldable pub Keeps : List Lead → List Lead → Type 0
Keeps leads out = (old : Lead) → has_lead old leads ≡ true → has_lead old out ≡ true

unfoldable pub Closes : Lead → List Lead → Type 0
Closes lead out =
    (r : Rule) (f : List ℕ) (j : ℕ) (v : Variant)
    → variant_get_symbol lead.variant lead.position ≡ some (sub r)
    → follow lead ≡ some f
    → get_elem? (variants r) j ≡ some v
    → has_lead (new_lead r f j v) out ≡ true

pub expand_lead-Closes :
    (leads : List Lead) (lead : Lead)
    → (out : List Lead) × (expand_lead leads lead ≡ some out) × Keeps leads out × Closes lead out
unfolding expand_lead Keeps Closes
expand_lead-Closes leads lead = on (variant_get_symbol lead.variant lead.position) refl
  where
    on :
        (o : Option Symbol)
        → variant_get_symbol lead.variant lead.position ≡ o
        → (out : List Lead) × (expand_lead leads lead ≡ some out)
          × Keeps leads out
          × Closes lead out
    on none e =
        (leads, rw (e, expand_lead) refl, λ old h. h, λ r f j v e' e'' h. absurd (cc (e, e')))
    on (some (tkn t)) e =
        (leads, rw (e, expand_lead) refl, λ old h. h, λ r f j v e' e'' h. absurd (cc (e, e')))
    on (some (sub q)) e =
        let (g, eg) = follow-returns lead in
        (
          add_variants q g 0 (variants q) leads,
          rw (e, eg, expand_lead) refl,
          λ old h. has_lead-add_variants_old q g 0 (variants q) leads old h,
          λ r f j v e' e'' h.
              let er : q ≡ r = cc (e, e') in
              let ef : g ≡ f = cc (eg, e'') in
              rw (sym er, sym ef)
                (has_lead-add_variants q g 0 (variants q) leads j j v (rw er h) (omega arith)),
        )

pub expand_leads-Keeps :
    (leads batch : List Lead)
    → (out : List Lead) × (expand_leads leads batch ≡ some out) × Keeps leads out
unfolding expand_leads Keeps
expand_leads-Keeps leads [] = (leads, refl, λ old h. h)
expand_leads-Keeps leads (lead ∷ batch) =
    let (mid, e, keeps, closes) = expand_lead-Closes leads lead in
    let (out, e', keeps') = expand_leads-Keeps mid batch in
    (out, rw (e, expand_leads) e', λ old h. keeps' old (keeps old h))

expand_leads_with :
    (leads batch : List Lead) (k : ℕ) (lead : Lead) (r : Rule) (terminals : List ℕ) (j : ℕ)
    (v : Variant)
    → get_elem? batch k ≡ some lead
    → variant_get_symbol lead.variant lead.position ≡ some (sub r)
    → follow lead ≡ some terminals
    → get_elem? (variants r) j ≡ some v
    → (out : List Lead) × (expand_leads leads batch ≡ some out)
      × (has_lead (new_lead r terminals j v) out ≡ true)
unfolding expand_leads Keeps Closes
expand_leads_with leads [] k lead r terminals j v b s f h = absurd (cc b)
expand_leads_with leads (first ∷ batch) zero lead r terminals j v b s f h =
    let here : first ≡ lead = cc b in
    let (mid, e, keeps, closes) = expand_lead-Closes leads first in
    let (out, e', keeps') = expand_leads-Keeps mid batch in
    (
      out,
      rw (e, expand_leads) e',
      keeps' (new_lead r terminals j v) (closes r terminals j v (rw here s) (rw here f) h),
    )
expand_leads_with leads (first ∷ batch) (suc k) lead r terminals j v b s f h =
    let (mid, e, keeps, closes) = expand_lead-Closes leads first in
    let (out, e', there) = expand_leads_with mid batch k lead r terminals j v b s f h in
    (out, rw (e, expand_leads) e', there)

-- What can follow the next symbol: what begins the symbol behind it, or what follows the lead.
abbrev pub Follows : Lead → Option Symbol → ℕ → Type 0
Follows lead none t = Has lead.terminals t
Follows lead (some s) t = First s t

follow-Follows :
    (lead : Lead)
    → length lead.terminals ≡ 3
    → (terminals : List ℕ) × (follow lead ≡ some terminals)
      × ((t : ℕ)
          → Has terminals t ↔ Follows lead (variant_get_symbol lead.variant (suc lead.position)) t)
unfolding follow
follow-Follows lead size = on (variant_get_symbol lead.variant (suc lead.position)) refl
  where
    old : (t : ℕ) → Has token_set_init t ⊎ Has lead.terminals t → Has lead.terminals t
    old t (inl h) = no_token t (Has lead.terminals t) h
    old t (inr h) = h

    on :
        (o : Option Symbol)
        → variant_get_symbol lead.variant (suc lead.position) ≡ o
        → (terminals : List ℕ) × (follow lead ≡ some terminals)
          × ((t : ℕ)
              → Has terminals t
                ↔ Follows lead (variant_get_symbol lead.variant (suc lead.position)) t)
    on none e =
        let has = λ (t : ℕ). token_set_merge-Has token_set_init lead.terminals t (sym size) in
        (
          token_set_merge token_set_init lead.terminals,
          rw (e, follow) refl,
          λ t. rw e ((λ h. old t ((has t).0 h)), (λ h. (has t).1 (inr h))),
        )
    on (some s) e =
        let (terminals, e', has) = gather_first-First s in
        (terminals, rw (e, follow) e', λ t. rw e (has t))

-- For a lead with three words in the part of the array that the loop of gather_leads goes over, and
-- a rule that is its next symbol: the loop ends without a failed assertion, and each variant of the
-- rule is among the leads, with the tokens that begin the symbol behind the rule or, at the end of
-- the variant, with those of the lead.
pub expand_leads-closes :
    (leads batch : List Lead) (k : ℕ) (lead : Lead) (r : Rule) (j : ℕ) (v : Variant)
    → get_elem? batch k ≡ some lead
    → length lead.terminals ≡ 3
    → variant_get_symbol lead.variant lead.position ≡ some (sub r)
    → get_elem? (variants r) j ≡ some v
    → (out : List Lead) × (terminals : List ℕ) × (expand_leads leads batch ≡ some out)
      × (has_lead (new_lead r terminals j v) out ≡ true)
      × ((t : ℕ)
          → Has terminals t ↔ Follows lead (variant_get_symbol lead.variant (suc lead.position)) t)
expand_leads-closes leads batch k lead r j v b size s h =
    let (terminals, f, follows) = follow-Follows lead size in
    let (out, e, there) = expand_leads_with leads batch k lead r terminals j v b s f h in
    (out, terminals, e, there, follows)
