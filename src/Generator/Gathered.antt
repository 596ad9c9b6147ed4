-- ===== src/Generator/Gathered.antt =====
-- src/parser_generator.c, gather_leads: the recursion, and the leads that are gathered.
use low.Prelude.{
  ℕ, zero, suc, ◌+◌, ◌-◌, ◌≤◌, ◌<◌, ◌≡◌, refl, sym, ap, ◌∙◌, arith, true, false, ◌&&◌, List, [],
  ◌∷◌, ◌++◌, Option, some, length, take, drop, length-append, drop-append_length, ltb, leb, ltb→lt,
  Bool-cases, inl, inr,
}
use mathlib.Core.Path.{subst}
use low.Reduce.Kinds.{All}
use low.Generator.Leads.{Lead}
use low.Generator.Expand.{expand_leads}
use low.Generator.Closed.{Closes}
use low.Generator.Members.{In, All-append, All-map, missing, missing-le}
use low.Generator.Terminals.{sets_from, In-follow, In-own}
use low.Generator.Universe.{universe, In-universe, length-universe}
use low.Generator.Gather.{gather_leads, lead_bound, Called, at_first, by_lead}
use low.Generator.Adds.{++-[], ++_assoc, Calls, Closes-more, expand_leads_step}

take_all : (xs : List Lead) → take (length xs) xs ≡ xs
take_all [] = refl
take_all (x ∷ xs) = ap (λ ys. x ∷ ys) (take_all xs)

-- The part of the array that a call goes over.
batch_of :
    (done batch : List Lead) → take (length batch) (drop (length done) (done ++ batch)) ≡ batch
batch_of done batch = ap (take (length batch)) (drop-append_length done batch) ∙ take_all batch

-- The assertions of a call.
call_asserts :
    (done batch : List Lead)
    → 0 < length batch
    → ltb (length done) (length (done ++ batch))
        && leb (length done + length batch) (length (done ++ batch))
      ≡ true
call_asserts done batch h = ground (arith, length-append done batch, h)

-- What a call returns, given what the loop makes of the array.
abbrev gather_rest : ℕ → List Lead → List Lead → Option (List Lead)
gather_rest fuel leads out = elim (ltb (length leads) (length out)) [
  | false ↦ some out
  | true ↦ gather_leads fuel out (length leads) (length out - length leads)
]

call_step :
    (fuel : ℕ) (done batch out : List Lead)
    → 0 < length batch
    → expand_leads (done ++ batch) batch ≡ some out
    → gather_leads (suc fuel) (done ++ batch) (length done) (length batch)
      ≡ gather_rest fuel (done ++ batch) out
unfolding gather_leads
call_step fuel done batch out h e =
    rw (call_asserts done batch h, batch_of done batch, e, gather_leads) refl

length_behind : (leads more : List Lead) → length (leads ++ more) - length leads ≡ length more
length_behind leads more = omega (arith, length-append leads more)

rest_more :
    (fuel : ℕ) (leads more out : List Lead)
    → out ≡ leads ++ more
    → ltb (length leads) (length out) ≡ true
    → gather_rest fuel leads out ≡ gather_leads fuel (leads ++ more) (length leads) (length more)
rest_more fuel leads more out e h =
    rw (h, gather_rest)
      (ap (λ ls. gather_leads fuel ls (length leads) (length ls - length leads)) e
        ∙ ap (gather_leads fuel (leads ++ more) (length leads)) (length_behind leads more))

rest_done :
    (fuel : ℕ) (leads out : List Lead)
    → ltb (length leads) (length out) ≡ false
    → gather_rest fuel leads out ≡ some out
rest_done fuel leads out h = rw (h, gather_rest) refl

nothing_more :
    (leads more out : List Lead)
    → out ≡ leads ++ more
    → ltb (length leads) (length out) ≡ false
    → more ≡ []
nothing_more leads [] out e h = refl
nothing_more leads (l ∷ more) out e h =
    absurd (ground (arith, h, ap length e, length-append leads (l ∷ more)))

All-right : (P : Lead → Type 0) (xs ys : List Lead) → All P (xs ++ ys) → All P ys
All-right P [] ys ps = ps
All-right P (x ∷ xs) ys (p, ps) = All-right P xs ys ps

All-given : (P : Lead → Type 0) (xs : List Lead) → ((l : Lead) → In l xs → P l) → All P xs
All-given P [] each = tt
All-given P (x ∷ xs) each = (each x (inl refl), All-given P xs (λ l h. each l (inr h)))

module _ (base : List Lead) where
  abbrev pub Good : Lead → Type 0
  Good l = Called base l × In l.terminals (sets_from base)

  abbrev pub New : Lead → Type 0
  New l = Good l × In l (universe base)

  -- What a call leaves.
  abbrev pub Gathers : List Lead → Option (List Lead) → Type 0
  Gathers leads result =
      (out : List Lead) × (more : List Lead) × (result ≡ some out)
      × (out ≡ leads ++ more)
      × All Good out
      × All (λ l. Closes l out) out

  covered : (l : Lead) → Good l → Calls (universe base) New (λ m h. h.1) l
  covered l (called, sets) r f j v s e h =
      let known = In-follow base l f sets e in
      ((by_lead l r f j v called s e h, known), In-universe base r f j v known h)

  gather_leads-Gathers :
      (fuel : ℕ) (done batch : List Lead)
      → missing (universe base) (done ++ batch) < fuel
      → 0 < length batch
      → All Good (done ++ batch)
      → All (λ l. Closes l (done ++ batch)) done
      → Gathers (done ++ batch) (gather_leads fuel (done ++ batch) (length done) (length batch))
  gather_leads-Gathers zero done batch h some_lead good closed = absurd (omega (arith, h))
  gather_leads-Gathers (suc fuel) done batch h some_lead good closed =
      let (out, e, adds, closes) =
        expand_leads_step (universe base) New (λ m k. k.1) (done ++ batch) batch
          (All-map Good _ batch covered (All-right Good done batch good)) in
      let all_good : All Good (done ++ batch ++ adds.more) =
        All-append Good (done ++ batch) adds.more good
          (All-map New Good adds.more (λ l k. k.0) adds.new) in
      let all_closed : All (λ l. Closes l out) (done ++ batch) =
        All-append (λ l. Closes l out) done batch
          (All-map (λ l. Closes l (done ++ batch)) (λ l. Closes l out) done
            (λ l k. Closes-more (universe base) New (λ m k'. k'.1) l (done ++ batch) out k adds)
            closed)
          closes in
      elim (Bool-cases (ltb (length (done ++ batch)) (length out))) [
        | inl more_leads ↦
            let lt = ltb→lt (length (done ++ batch)) (length out) more_leads in
            let sizes : length out ≡ length (done ++ batch) + length adds.more =
              ap length adds.split ∙ length-append (done ++ batch) adds.more in
            let (out', more', e', split', good', closed') =
              gather_leads-Gathers fuel (done ++ batch) adds.more
                (subst (λ ls. missing (universe base) ls < fuel) adds.split
                  (omega (arith, adds.spent, h, lt)))
                (omega (arith, lt, sizes)) all_good
                (subst (λ ls. All (λ l. Closes l ls) (done ++ batch)) adds.split all_closed) in
            (
              out',
              adds.more ++ more',
              call_step fuel done batch out some_lead e
                  ∙ rest_more fuel (done ++ batch) adds.more out adds.split more_leads
                  ∙ e',
              split' ∙ ++_assoc (done ++ batch) adds.more more',
              good',
              closed',
            )
        | inr no_more ↦
            let empty : adds.more ≡ [] =
              nothing_more (done ++ batch) adds.more out adds.split no_more in
            let whole : out ≡ done ++ batch =
              adds.split ∙ ap (λ ls. done ++ batch ++ ls) empty ∙ ++-[] (done ++ batch) in
            (
              out,
              adds.more,
              call_step fuel done batch out some_lead e
                  ∙ rest_done fuel (done ++ batch) out no_more,
              adds.split,
              subst (λ ls. All Good ls) (sym whole) good,
              subst (λ ls. All (λ l. Closes l out) ls) (sym whole) all_closed,
            )
      ]

-- The leads that are gathered, if enough calls in one another are allowed: those that are called for.
pub gathered :
    (fuel : ℕ) (leads : List Lead)
    → lead_bound (length leads) ≤ fuel
    → 0 < length leads
    → Gathers leads leads (gather_leads fuel leads 0 (length leads))
gathered fuel leads h some_lead =
    gather_leads-Gathers leads fuel [] leads
      (omega (arith, h, length-universe leads, missing-le (universe leads) leads)) some_lead
      (All-given (Good leads) leads (λ l m. (at_first l m, In-own leads l m))) tt
