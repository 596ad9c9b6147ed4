-- ===== src/Generator/Adds.antt =====
-- src/parser_generator.c, gather_leads: the leads that a call adds to the array.
use low.Prelude.{
  ℕ, suc, ◌+◌, ◌≤◌, ◌≡◌, refl, sym, ap, ◌∙◌, arith, true, List, [], ◌∷◌, ◌++◌, Option, none, some,
  get_elem?, length, length-append, Bool-cases, inl, inr,
}
use low.Reduce.Kinds.{All}
use low.Grammar.Symbols.{Rule, Symbol, tkn, sub, Variant}
use low.Grammar.Variants.{variants}
use low.Generator.First.{variant_get_symbol}
use low.Generator.Leads.{Lead, equal_leads}
use low.Generator.Expand.{
  follow, has_lead, new_lead, add_lead, add_variants, expand_lead, expand_leads,
}
use low.Generator.Closed.{
  Closes, expand_lead-Closes, has_lead-append, has_lead-last, equal_leads_refl,
}
use low.Generator.Members.{In, All-append, missing, missing-new}

-- What is added to an array: leads with P, each of which was one of those missing.
pub record Adds (us : List Lead) (P : Lead → Type 0) (leads out : List Lead) : Type 0 where
  pub more : List Lead
  pub split : out ≡ leads ++ more
  pub new : All P more
  pub spent : length out + missing us out ≤ length leads + missing us leads

pub ++-[] : (leads : List Lead) → leads ++ [] ≡ leads
++-[] [] = refl
++-[] (l ∷ leads) = ap (λ ls. l ∷ ls) (++-[] leads)

pub ++_assoc : (a b c : List Lead) → (a ++ b) ++ c ≡ a ++ (b ++ c)
++_assoc [] b c = refl
++_assoc (l ∷ a) b c = ap (λ ls. l ∷ ls) (++_assoc a b c)

Adds-has_lead :
    (us : List Lead) (P : Lead → Type 0) (leads out : List Lead)
    → Adds us P leads out
    → (old : Lead) → has_lead old leads ≡ true
    → has_lead old out ≡ true
Adds-has_lead us P leads out a old h = rw a.split (has_lead-append old leads a.more h)

Adds-same : (us : List Lead) (P : Lead → Type 0) (leads : List Lead) → Adds us P leads leads
Adds-same us P leads = record {
  more = [];
  split = sym (++-[] leads);
  new = tt;
  spent = omega arith;
}

Adds-Adds :
    (us : List Lead) (P : Lead → Type 0) (a b c : List Lead)
    → Adds us P a b
    → Adds us P b c
    → Adds us P a c
Adds-Adds us P a b c x y = record {
  more = x.more ++ y.more;
  split = y.split ∙ ap (λ ls. ls ++ y.more) x.split ∙ ++_assoc a x.more y.more;
  new = All-append P x.more y.more x.new y.new;
  spent = omega (arith, x.spent, y.spent);
}

module _ (us : List Lead) (P : Lead → Type 0) (known : (l : Lead) → P l → In l us) where
  Adds-add_lead :
      (leads : List Lead) (nl : Lead)
      → equal_leads nl nl ≡ true
      → P nl
      → Adds us P leads (add_lead leads nl)
  Adds-add_lead leads nl e p = elim (Bool-cases (has_lead nl leads)) [
    | inl h ↦ rw (h, add_lead) (Adds-same us P leads)
    | inr h ↦
        let lt =
          missing-new us leads (leads ++ (nl ∷ [])) nl
            (λ old k. has_lead-append old leads (nl ∷ []) k) (known nl p) h
            (has_lead-last leads nl e) in
        rw (h, add_lead)
          (record {
            more = nl ∷ [];
            split = refl;
            new = (p, tt);
            spent = omega (arith, lt, length-append leads (nl ∷ []));
          })
  ]

  Adds-add_variants :
      (r : Rule) (f : List ℕ) (i : ℕ) (vs : List Variant) (leads : List Lead)
      → ((j k : ℕ) (v : Variant) → get_elem? vs j ≡ some v → k ≡ i + j → P (new_lead r f k v))
      → Adds us P leads (add_variants r f i vs leads)
  unfolding add_variants
  Adds-add_variants r f i [] leads each = Adds-same us P leads
  Adds-add_variants r f i (v ∷ vs) leads each =
      Adds-Adds us P leads _ _
        (Adds-add_lead leads (new_lead r f i v) (equal_leads_refl r f i v)
          (each 0 i v refl (omega arith)))
        (Adds-add_variants r f (suc i) vs _ (λ j k w h e. each (suc j) k w h (omega arith)))

  -- A lead whose expansions have P.
  abbrev pub Calls : Lead → Type 0
  Calls lead =
      (r : Rule) (f : List ℕ) (j : ℕ) (v : Variant)
      → variant_get_symbol lead.variant lead.position ≡ some (sub r)
      → follow lead ≡ some f
      → get_elem? (variants r) j ≡ some v
      → P (new_lead r f j v)

  Adds-expand_lead :
      (leads : List Lead) (lead : Lead) (out : List Lead)
      → Calls lead
      → expand_lead leads lead ≡ some out
      → Adds us P leads out
  unfolding expand_lead
  Adds-expand_lead leads lead out each e = on (variant_get_symbol lead.variant lead.position) refl
    where
      same : ◌≡◌ {A = Option (List Lead)} (some leads) (some out) → Adds us P leads out
      same q = let q' : leads ≡ out = cc q in rw (sym q') (Adds-same us P leads)

      with_follow :
          (r : Rule) (o : Option (List ℕ))
          → variant_get_symbol lead.variant lead.position ≡ some (sub r)
          → follow lead ≡ o
          → Adds us P leads out
      with_follow r none s f = let e' = rw (s, f, expand_lead) at e in absurd (cc e')
      with_follow r (some g) s f =
          let e' = rw (s, f, expand_lead) at e in
          let q : add_variants r g 0 (variants r) leads ≡ out = cc e' in
          rw (sym q) (
            Adds-add_variants r g 0 (variants r) leads
              (λ j k v h m. let place : k ≡ j = omega (arith, m) in rw place (each r g j v s f h)))

      on :
          (o : Option Symbol)
          → variant_get_symbol lead.variant lead.position ≡ o
          → Adds us P leads out
      on none s = same (rw (s, expand_lead) at e)
      on (some (tkn t)) s = same (rw (s, expand_lead) at e)
      on (some (sub r)) s = with_follow r (follow lead) s refl

  pub Closes-more : (lead : Lead) (a b : List Lead) → Closes lead a → Adds us P a b → Closes lead b
  unfolding Closes
  Closes-more lead a b closes adds r f j v s e h =
      Adds-has_lead us P a b adds (new_lead r f j v) (closes r f j v s e h)

  expand_lead_step :
      (leads : List Lead) (lead : Lead)
      → Calls lead
      → (out : List Lead) × (expand_lead leads lead ≡ some out)
        × Adds us P leads out
        × Closes lead out
  expand_lead_step leads lead each =
      let (out, e, keeps, closes) = expand_lead-Closes leads lead in
      (out, e, Adds-expand_lead leads lead out each e, closes)

  pub expand_leads_step :
      (leads batch : List Lead)
      → All Calls batch
      → (out : List Lead) × (expand_leads leads batch ≡ some out)
        × Adds us P leads out
        × All (λ l. Closes l out) batch
  unfolding expand_leads
  expand_leads_step leads [] each = (leads, refl, Adds-same us P leads, tt)
  expand_leads_step leads (lead ∷ batch) (each, eachs) =
      let (mid, e, adds, closes) = expand_lead_step leads lead each in
      let (out, e', adds', closed) = expand_leads_step mid batch eachs in
      (
        out,
        rw (e, expand_leads) e',
        Adds-Adds us P leads mid out adds adds',
        (Closes-more lead mid out closes adds', closed),
      )
