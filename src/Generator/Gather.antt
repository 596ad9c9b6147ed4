-- ===== src/Generator/Gather.antt =====
-- src/parser_generator.c: `gather_leads`, and the leads that it is to gather.
use low.Prelude.{
  ℕ, zero, suc, ◌+◌, ◌*◌, ◌-◌, ◌≡◌, true, false, ◌&&◌, List, Option, none, some, get_elem?, length,
  take, drop, ltb, leb,
}
use low.Grammar.Symbols.{Rule, sub, Variant}
use low.Grammar.Variants.{variants}
use low.Generator.First.{variant_get_symbol}
use low.Generator.Leads.{Lead}
use low.Generator.Expand.{follow, new_lead, expand_leads}
use low.Generator.Members.{In}

-- The leads from `index` to `index + count`, then those that this has added, and so on. `none` if an
-- assertion fails, or if there are more calls in one another than `fuel`.
unfoldable pub gather_leads : ℕ → List Lead → ℕ → ℕ → Option (List Lead)
unfolding expand_leads
gather_leads zero leads index count = none
gather_leads (suc fuel) leads index count =
    elim (ltb index (length leads) && leb (index + count) (length leads)) [
      | false ↦ none
      | true ↦ elim (expand_leads leads (take count (drop index leads))) [
        | none ↦ none
        | some out ↦ elim (ltb (length leads) (length out)) [
          | false ↦ some out
          | true ↦ gather_leads fuel out (length leads) (length out - length leads)
        ]
      ]
    ]

-- One more than the new leads that there can be: one for each of the variants of the grammar and each
-- set of tokens, which is that of a lead, begins one of the 58 rules or 92 tokens, or is a copy.
abbrev pub lead_bound : ℕ → ℕ
lead_bound size = suc (185 * (2 * (size + 150)))

-- What it is to gather, without fuel: the leads themselves, and each variant of a rule that is the next
-- symbol of a lead, with the tokens that can follow the rule there.
pub data Called (leads : List Lead) : Lead → Type 0 where
  at_first : (l : Lead) → In l leads → Called leads l
  by_lead :
      (l : Lead) (r : Rule) (terminals : List ℕ) (i : ℕ) (v : Variant)
      → Called leads l
      → variant_get_symbol l.variant l.position ≡ some (sub r)
      → follow l ≡ some terminals
      → get_elem? (variants r) i ≡ some v
      → Called leads (new_lead r terminals i v)
