-- ===== src/Generator/Terminals.antt =====
-- src/parser_generator.c, gather_leads: the sets of tokens that new leads can have.
use low.Prelude.{
  ℕ, zero, suc, ◌+◌, ◌*◌, ◌/◌, ◌%◌, ◌<◌, ◌≡◌, refl, sym, ap, arith, List, [], ◌∷◌, ◌++◌, Option,
  none, some, map, inl, inr, Bool-cases, ◌==◌, ==_iff,
}
use mathlib.Core.Path.{subst}
use low.Lexer.Token.{Token, token_id}
use low.Grammar.Symbols.{Rule, Symbol, tkn, sub}
use low.Generator.Words.{bitwise_or}
use low.Generator.Tokens.{token_id_bound}
use low.Generator.Rules.{all_rules, rule_index, rule-get_elem}
use low.Generator.Sets.{token_set_init, token_set_insert, token_set_merge}
use low.Generator.First.{variant_get_symbol, gather_first}
use low.Generator.Leads.{Lead}
use low.Generator.Expand.{follow}
use low.Generator.Members.{In, In-append_left, In-append_right, In-map, In-get_elem}

-- A merge into an empty set: a copy.
abbrev pub copied : List ℕ → List ℕ
copied terminals = token_set_merge token_set_init terminals

bitwise_or_twice : (n b : ℕ) → bitwise_or n 0 (bitwise_or n 0 b) ≡ bitwise_or n 0 b
unfolding bitwise_or
bitwise_or_twice zero b = refl
bitwise_or_twice (suc n) b =
    again (b % 2) (bitwise_or n 0 (b / 2)) _ (omega arith) refl (bitwise_or_twice n (b / 2))
  where
    again :
        (x y w : ℕ)
        → x < 2
        → w ≡ x + 2 * y
        → bitwise_or n 0 y ≡ y
        → w % 2 + 2 * bitwise_or n 0 (w / 2) ≡ w
    again x y w h e twice =
        let low : w % 2 ≡ x = omega arith in
        let high : w / 2 ≡ y = omega arith in rw (low, high, twice) (sym e)

bitwise_or_zero : bitwise_or 32 0 0 ≡ 0
unfolding bitwise_or
bitwise_or_zero = refl

copied_twice : (terminals : List ℕ) → copied (copied terminals) ≡ copied terminals
unfolding token_set_merge
copied_twice [] = rw bitwise_or_zero refl
copied_twice (a ∷ []) = rw (bitwise_or_twice 32 a, bitwise_or_zero) refl
copied_twice (a ∷ b ∷ []) = rw (bitwise_or_twice 32 a, bitwise_or_twice 32 b, bitwise_or_zero) refl
copied_twice (a ∷ b ∷ c ∷ terminals) =
    rw (bitwise_or_twice 32 a, bitwise_or_twice 32 b, bitwise_or_twice 32 c) refl

abbrev pub or_empty : Option (List ℕ) → List ℕ
or_empty none = []
or_empty (some first) = first

abbrev pub first_of_rule : Rule → List ℕ
first_of_rule r = or_empty (gather_first 59 token_set_init (some (sub r)) [])

unfoldable pub tokens_below : ℕ → List ℕ
tokens_below zero = []
tokens_below (suc n) = n ∷ tokens_below n

In-tokens_below : (t n : ℕ) → t < n → In t (tokens_below n)
unfolding tokens_below
In-tokens_below t zero h = absurd (omega arith)
In-tokens_below t (suc n) h = elim (Bool-cases (t == n)) [
  | inl e ↦ inl ((==_iff t n).0 e)
  | inr e ↦ inr (In-tokens_below t n (ground (arith, e)))
]

abbrev pub firsts : List (List ℕ)
firsts = map first_of_rule all_rules ++ map (token_set_insert token_set_init) (tokens_below 92)

-- The sets of the leads at the start, those that begin a symbol, and copies.
abbrev pub basic_sets : List Lead → List (List ℕ)
basic_sets leads = map Lead.terminals leads ++ firsts

abbrev pub sets_from : List Lead → List (List ℕ)
sets_from leads = basic_sets leads ++ map copied (basic_sets leads)

copied_of :
    (terminals : List ℕ) (sets : List (List ℕ))
    → In terminals (map copied sets)
    → copied terminals ≡ terminals
copied_of terminals [] h = absurd h
copied_of terminals (x ∷ sets) (inl e) = rw e (copied_twice x)
copied_of terminals (x ∷ sets) (inr h) = copied_of terminals sets h

copied_either :
    (terminals : List ℕ) (xs ys : List (List ℕ))
    → (In terminals xs → In (copied terminals) (map copied ys))
    → In terminals (xs ++ map copied ys)
    → In (copied terminals) (map copied ys)
copied_either terminals [] ys each h = rw (copied_of terminals ys h) h
copied_either terminals (x ∷ xs) ys each (inl e) = each (inl e)
copied_either terminals (x ∷ xs) ys each (inr h) =
    copied_either terminals xs ys (λ k. each (inr k)) h

pub In-copied :
    (leads : List Lead) (terminals : List ℕ)
    → In terminals (sets_from leads)
    → In (copied terminals) (sets_from leads)
In-copied leads terminals h = In-append_right _ (basic_sets leads) (map copied (basic_sets leads)) (
    copied_either terminals (basic_sets leads) (basic_sets leads)
      (In-map copied terminals (basic_sets leads)) h)

first_of_token :
    (t : Token) (first : List ℕ)
    → gather_first 59 token_set_init (some (tkn t)) [] ≡ some first
    → token_set_insert token_set_init (token_id t) ≡ first
unfolding gather_first
first_of_token t first h = cc h

-- What begins a symbol is among the sets.
In-firsts :
    (s : Symbol) (first : List ℕ)
    → gather_first 59 token_set_init (some s) [] ≡ some first
    → In first firsts
In-firsts (tkn t) first h = In-append_right first (map first_of_rule all_rules) _ (
    rw (sym (first_of_token t first h)) (
      In-map (token_set_insert token_set_init) (token_id t) (tokens_below 92)
        (In-tokens_below (token_id t) 92 (token_id_bound t))))
In-firsts (sub r) first h =
    let q : first_of_rule r ≡ first = ap or_empty h in
    In-append_left first (map first_of_rule all_rules) _ (
      subst (λ x. In x (map first_of_rule all_rules)) q
        (In-map first_of_rule r all_rules
          (In-get_elem all_rules (rule_index r) r (rule-get_elem r))))

pub In-follow :
    (leads : List Lead) (lead : Lead) (terminals : List ℕ)
    → In lead.terminals (sets_from leads)
    → follow lead ≡ some terminals
    → In terminals (sets_from leads)
unfolding follow
In-follow leads lead terminals h e = on (variant_get_symbol lead.variant (suc lead.position)) refl
  where
    on :
        (o : Option Symbol)
        → variant_get_symbol lead.variant (suc lead.position) ≡ o
        → In terminals (sets_from leads)
    on none e' =
        let e'' = rw (e', follow) at e in
        let q : copied lead.terminals ≡ terminals = cc e'' in
        rw (sym q) (In-copied leads lead.terminals h)
    on (some s) e' =
        let e'' = rw (e', follow) at e in
        In-append_left terminals (basic_sets leads) _
          (In-append_right terminals (map Lead.terminals leads) firsts (In-firsts s terminals e''))

-- So are the sets of the leads at the start.
pub In-own : (leads : List Lead) (l : Lead) → In l leads → In l.terminals (sets_from leads)
In-own leads l h =
    In-append_left l.terminals (basic_sets leads) _ (
      In-append_left l.terminals (map Lead.terminals leads) firsts
        (In-map Lead.terminals l leads h))
