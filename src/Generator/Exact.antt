-- ===== src/Generator/Exact.antt =====
-- src/parser_generator.c, gather_leads: the array holds the leads that are called for, and no other.
use low.Prelude.{
  ℕ, ◌≤◌, ◌<◌, ◌≡◌, refl, sym, ap, ◌∙◌, Bool, true, false, ◌&&◌, ◌||◌, ◌==◌, ==_iff, &&-true, List,
  [], ◌∷◌, Option, none, some, get_elem?, length, ◌↔◌, inl, inr, Bool-cases,
}
use mathlib.Core.Path.{subst}
use low.Reduce.Kinds.{All}
use low.Grammar.Symbols.{Rule, Variant, variant}
use low.Grammar.Variants.{variants, root_symbol}
use low.Generator.Rules.{same_eq}
use low.Generator.Sets.{equal_token_sets}
use low.Generator.Leads.{Lead, same_rule, equal_leads}
use low.Generator.Expand.{new_lead, has_lead}
use low.Generator.Closed.{Closes}
use low.Generator.Members.{In, In-append_left, All-In}
use low.Generator.Gather.{gather_leads, lead_bound, Called, at_first, by_lead}
use low.Generator.Gathered.{Good, gathered}

-- `rule->variants + place`; the root of the grammar has one variant.
abbrev pub variant_at : Option Rule → ℕ → Option Variant
variant_at none place = get_elem? (variant (root_symbol ∷ []) none 0 ∷ []) place
variant_at (some r) place = get_elem? (variants r) place

-- The variant of a lead is that which its pointer points to.
abbrev pub IsLead : Lead → Type 0
IsLead l = variant_at l.rule l.place ≡ some l.variant

equal_token_sets_eq : (a b : List ℕ) → equal_token_sets a b ≡ true → a ≡ b
unfolding equal_token_sets
equal_token_sets_eq [] [] h = refl
equal_token_sets_eq [] (w ∷ b) h = absurd (cc h)
equal_token_sets_eq (v ∷ a) [] h = absurd (cc h)
equal_token_sets_eq (v ∷ a) (w ∷ b) h =
    let (e, h') = &&-true (v == w) (equal_token_sets a b) h in
    let here : v ≡ w = (==_iff v w).0 e in
    let rest = equal_token_sets_eq a b h' in rw (here, rest) refl

same_rule_eq : (a b : Option Rule) → same_rule a b ≡ true → a ≡ b
same_rule_eq none none h = refl
same_rule_eq none (some s) h = absurd (cc h)
same_rule_eq (some r) none h = absurd (cc h)
same_rule_eq (some r) (some s) h = ap some (same_eq r s h)

equal_leads_eq : (a b : Lead) → equal_leads a b ≡ true → IsLead a → IsLead b → a ≡ b
equal_leads_eq a b h ia ib =
    let (core, sets) =
      &&-true (same_rule a.rule b.rule && ((a.place == b.place) && (a.position == b.position)))
        (equal_token_sets a.terminals b.terminals) h in
    let (r, rest) =
      &&-true (same_rule a.rule b.rule) ((a.place == b.place) && (a.position == b.position)) core in
    let (p, q) = &&-true (a.place == b.place) (a.position == b.position) rest in
    parts a b (same_rule_eq a.rule b.rule r) ((==_iff a.place b.place).0 p)
      ((==_iff a.position b.position).0 q) (equal_token_sets_eq a.terminals b.terminals sets) ia ib
  where
    parts :
        (a b : Lead)
        → a.rule ≡ b.rule
        → a.place ≡ b.place
        → a.position ≡ b.position
        → a.terminals ≡ b.terminals
        → IsLead a
        → IsLead b
        → a ≡ b
    parts a b r p q t ia ib =
        let v : ◌≡◌ {A = Option Variant} (some a.variant) (some b.variant) =
          sym ia ∙ ap (λ s. variant_at s a.place) r ∙ ap (variant_at b.rule) p ∙ ib in
        let w : a.variant ≡ b.variant = cc v in
        λ i. record { rule = r i; place = p i; variant = w i; position = q i; terminals = t i }

-- Among leads with these variants, the test finds the lead itself.
has_lead-In :
    (l : Lead) (leads : List Lead)
    → has_lead l leads ≡ true
    → IsLead l
    → All IsLead leads
    → In l leads
unfolding has_lead
has_lead-In l [] h il is = absurd (cc h)
has_lead-In l (m ∷ leads) h il (im, is) = elim (Bool-cases (equal_leads m l)) [
  | inl e ↦ inl (sym (equal_leads_eq m l e im il))
  | inr e ↦ inr (has_lead-In l leads (behind (equal_leads m l) (has_lead l leads) e h) il is)
]
  where
    behind : (a b : Bool) → a ≡ false → a || b ≡ true → b ≡ true
    behind true b e h = absurd (cc e)
    behind false b e h = h

Called-IsLead : (leads : List Lead) (l : Lead) → All IsLead leads → Called leads l → IsLead l
Called-IsLead leads _ is (at_first l m) = All-In IsLead l leads is m
Called-IsLead leads _ is (by_lead l r t j v c s f h) = h

Called-In :
    (leads out : List Lead) (l : Lead)
    → All IsLead leads
    → All IsLead out
    → ((m : Lead) → In m leads → In m out)
    → All (λ m. Closes m out) out
    → Called leads l
    → In l out
unfolding Closes
Called-In leads out _ is is' first closed (at_first l m) = first l m
Called-In leads out _ is is' first closed (by_lead l r t j v c s f h) =
    let closes =
      All-In (λ m. Closes m out) l out closed (Called-In leads out l is is' first closed c) in
    has_lead-In (new_lead r t j v) out (closes r t j v s f h) h is'

All-IsLead :
    (leads out : List Lead)
    → All IsLead leads
    → ((l : Lead) → In l out → Called leads l)
    → All IsLead out
All-IsLead leads out is called = from out (λ l h. Called-IsLead leads l is (called l h))
  where
    from : (ls : List Lead) → ((l : Lead) → In l ls → IsLead l) → All IsLead ls
    from [] each = tt
    from (l ∷ ls) each = (each l (inl refl), from ls (λ m h. each m (inr h)))

-- For an array of at least one lead, whose variants are those that their pointers point to, and as many
-- calls in one another as lead_bound says: gather_leads ends without a failed assertion, and the array
-- then has exactly the leads that were there and those that are called for by one that it has: each
-- variant of a rule that is the next symbol, with the tokens that can follow.
pub gather_leads-Called :
    (fuel : ℕ) (leads : List Lead)
    → lead_bound (length leads) ≤ fuel
    → 0 < length leads
    → All IsLead leads
    → (out : List Lead) × (gather_leads fuel leads 0 (length leads) ≡ some out)
      × ((l : Lead) → In l out ↔ Called leads l)
gather_leads-Called fuel leads h some_lead is =
    let (out, more, e, split, good, closed) = gathered fuel leads h some_lead in
    let called = λ (l : Lead) (m : In l out). (All-In (Good leads) l out good m).0 in
    let first = λ (l : Lead) (m : In l leads).
      subst (λ ls. In l ls) (sym split) (In-append_left l leads more m) in
    (
      out,
      e,
      λ l. (called l, Called-In leads out l is (All-IsLead leads out is called) first closed),
    )
