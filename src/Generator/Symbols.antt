-- ===== src/Generator/Symbols.antt =====
-- src/parser_generator.c, gather_states: the array `handled`, and the symbols one by one without it.
use low.Prelude.{
  ℕ, ◌≡◌, refl, sym, ap, ◌∙◌, arith, Bool, true, false, not, ◌&&◌, ◌||◌, List, [], ◌∷◌, ◌++◌,
  Option, none, some, map, Bool-cases, inl, inr,
}
use low.Reduce.Kinds.{All}
use low.Grammar.Symbols.{Symbol, tkn, sub}
use low.Generator.Rules.{same_eq}
use low.Generator.Leads.{Lead}
use low.Generator.Members.{All-append, All-map}
use low.Generator.States.{
  LeadState, equal_symbols, next_symbol, advanced, ScannedLeads, pick, scan_leads, handle_symbol,
  after_symbol,
}

abbrev pub add_if : Bool → Lead → List Lead → List Lead
add_if true l leads = l ∷ leads
add_if false l leads = leads

-- The leads with a symbol, and what the code makes of them.
unfoldable pub with_symbol : Option Symbol → List Lead → List Lead
with_symbol base [] = []
with_symbol base (l ∷ leads) =
    add_if (equal_symbols base (next_symbol l)) l (with_symbol base leads)

abbrev pub shift_leads_of : Option Symbol → List Lead → List Lead
shift_leads_of none leads = []
shift_leads_of (some x) leads = map advanced (with_symbol (some x) leads)

abbrev pub reduce_leads_of : Option Symbol → List Lead → List Lead
reduce_leads_of none leads = with_symbol none leads
reduce_leads_of (some x) leads = []

unfoldable pub seen : List (Option Symbol) → Option Symbol → Bool
seen [] s = false
seen (x ∷ xs) s = equal_symbols x s || seen xs s

-- The symbols of some leads, each once, but for those seen before.
unfoldable pub new_symbols : List (Option Symbol) → List Lead → List (Option Symbol)
unfolding seen
new_symbols xs [] = []
new_symbols xs (l ∷ leads) = elim (seen xs (next_symbol l)) [
  | true ↦ new_symbols xs leads
  | false ↦ next_symbol l ∷ new_symbols (next_symbol l ∷ xs) leads
]

-- The loop without `handled`: each symbol of the state with all leads that have it.
unfoldable pub handle_each :
    (List Lead → List Lead)
    → ℕ
    → List Lead
    → List (Option Symbol)
    → List LeadState
    → Option (List LeadState)
unfolding with_symbol
handle_each qsort i leads [] states = some states
handle_each qsort i leads (x ∷ xs) states =
    after_symbol (λ states'. handle_each qsort i leads xs states')
      (handle_symbol qsort i x (shift_leads_of x leads) (reduce_leads_of x leads) states)

-- Symbols that are equal are so to the same others.
pub equal_symbols_same :
    (x s y : Option Symbol) → equal_symbols x s ≡ true → equal_symbols y s ≡ equal_symbols y x
equal_symbols_same none none y h = refl
equal_symbols_same none (some s) y h = absurd (cc h)
equal_symbols_same (some x) none y h = absurd (cc h)
equal_symbols_same (some (tkn t)) (some (tkn u)) none h = refl
equal_symbols_same (some (tkn t)) (some (tkn u)) (some (tkn v)) h = ground (arith, h)
equal_symbols_same (some (tkn t)) (some (tkn u)) (some (sub q)) h = refl
equal_symbols_same (some (tkn t)) (some (sub r)) y h = absurd (cc h)
equal_symbols_same (some (sub r)) (some (tkn u)) y h = absurd (cc h)
equal_symbols_same (some (sub r)) (some (sub q)) y h = let e = same_eq r q h in rw e refl

seen_same :
    (xs : List (Option Symbol)) (x s : Option Symbol)
    → equal_symbols x s ≡ true
    → seen xs s ≡ seen xs x
unfolding seen
seen_same [] x s h = refl
seen_same (y ∷ xs) x s h = rw (equal_symbols_same x s y h, seen_same xs x s h) refl

abbrev pub flags : List (Option Symbol) → List Lead → List Bool
flags xs leads = map (λ l. seen xs (next_symbol l)) leads

abbrev shift_if : Bool → Lead → List Lead → List Lead
shift_if true l leads = advanced l ∷ leads
shift_if false l leads = leads

map-add_if :
    (b : Bool) (l : Lead) (leads : List Lead)
    → shift_if b l (map advanced leads) ≡ map advanced (add_if b l leads)
map-add_if true l leads = refl
map-add_if false l leads = refl

-- One lead in the scan: it has the symbol, or has not.
pick_shift :
    (b h : Bool) (y : Symbol) (l : Lead) (rest : ScannedLeads)
    → (b ≡ true → h ≡ false)
    → pick (not h && b) (some y) l h rest ≡ record {
      handled = (b || h) ∷ rest.handled;
      shift_leads = shift_if b l rest.shift_leads;
      reduce_leads = rest.reduce_leads;
    }
pick_shift true true y l rest e = absurd (cc (e refl))
pick_shift true false y l rest e = refl
pick_shift false true y l rest e = refl
pick_shift false false y l rest e = refl

pick_reduce :
    (h : Bool) (l : Lead) (rest : ScannedLeads)
    → h ≡ false
    → pick (not h && true) none l h rest ≡ record {
      handled = true ∷ rest.handled;
      shift_leads = rest.shift_leads;
      reduce_leads = l ∷ rest.reduce_leads;
    }
pick_reduce true l rest e = absurd (cc e)
pick_reduce false l rest e = refl

pick_other :
    (h : Bool) (s : Option Symbol) (l : Lead) (rest : ScannedLeads)
    → pick (not h && false) s l h rest ≡ record {
      handled = h ∷ rest.handled;
      shift_leads = rest.shift_leads;
      reduce_leads = rest.reduce_leads;
    }
pick_other true s l rest = refl
pick_other false s l rest = refl

abbrev scanned_for : List (Option Symbol) → Option Symbol → List Lead → ScannedLeads
scanned_for xs base leads = record {
  handled = flags (base ∷ xs) leads;
  shift_leads = shift_leads_of base leads;
  reduce_leads = reduce_leads_of base leads;
}

scan_step :
    (xs : List (Option Symbol)) (base s : Option Symbol) (l : Lead) (leads : List Lead)
    → next_symbol l ≡ s
    → seen xs base ≡ false
    → pick (not (seen xs s) && equal_symbols base s) s l (seen xs s) (scanned_for xs base leads)
      ≡ scanned_for xs base (l ∷ leads)
unfolding with_symbol seen
scan_step xs none none l leads e n =
    rw (e, with_symbol, seen) (pick_reduce (seen xs none) l (scanned_for xs none leads) n)
scan_step xs none (some y) l leads e n =
    rw (e, with_symbol, seen) (pick_other (seen xs (some y)) (some y) l (scanned_for xs none leads))
scan_step xs (some x) none l leads e n =
    rw (e, with_symbol, seen) (pick_other (seen xs none) none l (scanned_for xs (some x) leads))
scan_step xs (some x) (some y) l leads e n =
    rw
      (
        e,
        with_symbol,
        seen,
        sym (map-add_if (equal_symbols (some x) (some y)) l (with_symbol (some x) leads)),
      )
      (pick_shift (equal_symbols (some x) (some y)) (seen xs (some y)) y l
        (scanned_for xs (some x) leads) (λ q. seen_same xs (some x) (some y) q ∙ n))

pub scan_leads-scanned_for :
    (xs : List (Option Symbol)) (base : Option Symbol) (leads : List Lead)
    → seen xs base ≡ false
    → scan_leads base leads (flags xs leads) ≡ scanned_for xs base leads
unfolding scan_leads with_symbol
scan_leads-scanned_for xs none [] n = refl
scan_leads-scanned_for xs (some x) [] n = refl
scan_leads-scanned_for xs base (l ∷ leads) n =
    ap
      (pick (not (seen xs (next_symbol l)) && equal_symbols base (next_symbol l)) (next_symbol l) l
        (seen xs (next_symbol l)))
      (scan_leads-scanned_for xs base leads n)
    ∙ scan_step xs base (next_symbol l) l leads refl n

-- Leads whose symbols were seen do not have another.
pub with_symbol-seen :
    (xs : List (Option Symbol)) (base : Option Symbol) (before leads : List Lead)
    → seen xs base ≡ false
    → All (λ l. seen xs (next_symbol l) ≡ true) before
    → with_symbol base (before ++ leads) ≡ with_symbol base leads
unfolding with_symbol
with_symbol-seen xs base [] leads n h = refl
with_symbol-seen xs base (l ∷ before) leads n (h, hs) =
    elim (Bool-cases (equal_symbols base (next_symbol l))) [
      | inl e ↦
          let e' : true ≡ false = sym h ∙ seen_same xs base (next_symbol l) e ∙ n in absurd (cc e')
      | inr e ↦ rw e (with_symbol-seen xs base before leads n hs)
    ]

pub equal_symbols_refl : (s : Option Symbol) → equal_symbols s s ≡ true
equal_symbols_refl none = refl
equal_symbols_refl (some (tkn t)) = ground arith
equal_symbols_refl (some (sub r)) = ground arith

abbrev pub AllSeen : List (Option Symbol) → List Lead → Type 0
AllSeen xs leads = All (λ l. seen xs (next_symbol l) ≡ true) leads

true_or : (a b : Bool) → b ≡ true → a || b ≡ true
true_or true b h = refl
true_or false b h = h

-- One more lead stands before the others, with its own symbol among those that were seen.
pub AllSeen-next :
    (xs : List (Option Symbol)) (before : List Lead) (l : Lead)
    → AllSeen xs before
    → AllSeen (next_symbol l ∷ xs) (before ++ (l ∷ []))
unfolding seen
AllSeen-next xs before l h =
    All-append (λ m. seen (next_symbol l ∷ xs) (next_symbol m) ≡ true) before (l ∷ [])
      (All-map (λ m. seen xs (next_symbol m) ≡ true) _ before (λ m k. true_or _ _ k) h)
      (rw (equal_symbols_refl (next_symbol l)) refl, tt)

pub AllSeen-old :
    (xs : List (Option Symbol)) (before : List Lead) (l : Lead)
    → AllSeen xs before
    → seen xs (next_symbol l) ≡ true
    → AllSeen xs (before ++ (l ∷ []))
AllSeen-old xs before l h k =
    All-append (λ m. seen xs (next_symbol m) ≡ true) before (l ∷ []) h (k, tt)

pub ++_next :
    (before leads : List Lead) (l : Lead) → (before ++ (l ∷ [])) ++ leads ≡ before ++ (l ∷ leads)
++_next [] leads l = refl
++_next (m ∷ before) leads l = ap (λ ls. m ∷ ls) (++_next before leads l)
