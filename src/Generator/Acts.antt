-- ===== src/Generator/Acts.antt =====
-- src/parser_generator.c, gather_states: the actions of a state, and what is never taken back.
use low.Prelude.{
  ℕ, zero, suc, ◌≡◌, refl, ap, ◌∙◌, List, [], ◌∷◌, ◌++◌, Option, none, some, get_elem?, length, inl,
  inr,
}
use mathlib.Core.Path.{subst}
use low.Grammar.Symbols.{Symbol, tkn, sub}
use low.Generator.Leads.{Lead}
use low.Generator.Members.{In, In-append_left, In-append_right}
use low.Generator.States.{
  LeadState, TokenAction, RuleAction, reduction, change_at, add_token_action, add_rule_action,
  add_transition, add_reductions,
}

-- What stays of each state: its leads and its actions.
pub record Stays (c c' : LeadState) : Type 0 where
  pub leads : c'.leads ≡ c.leads
  pub token_actions : (a : TokenAction) → In a c.token_actions → In a c'.token_actions
  pub rule_actions : (a : RuleAction) → In a c.rule_actions → In a c'.rule_actions

pub record Extends (states states' : List LeadState) : Type 0 where
  pub stays :
      (k : ℕ) (c : LeadState)
      → get_elem? states k ≡ some c
      → (c' : LeadState) × (get_elem? states' k ≡ some c') × Stays c c'

Stays-same : (c : LeadState) → Stays c c
Stays-same c = record { leads = refl; token_actions = λ a h. h; rule_actions = λ a h. h }

pub Extends-same : (states : List LeadState) → Extends states states
Extends-same states = record { stays = λ k c e. (c, e, Stays-same c) }

pub Extends-Extends : (a b c : List LeadState) → Extends a b → Extends b c → Extends a c
Extends-Extends a b c x y = record {
  stays = λ k s e.
      let (s', e', h) = x.stays k s e in
      let (s'', e'', h') = y.stays k s' e' in
      (
        s'',
        e'',
        record {
          leads = h'.leads ∙ h.leads;
          token_actions = λ t m. h'.token_actions t (h.token_actions t m);
          rule_actions = λ t m. h'.rule_actions t (h.rule_actions t m);
        },
      );
}

Stays-add_token_action : (a : TokenAction) (c : LeadState) → Stays c (add_token_action a c)
Stays-add_token_action a c = record {
  leads = refl;
  token_actions = λ t h. In-append_left t c.token_actions (a ∷ []) h;
  rule_actions = λ t h. h;
}

Stays-add_rule_action : (a : RuleAction) (c : LeadState) → Stays c (add_rule_action a c)
Stays-add_rule_action a c = record {
  leads = refl;
  token_actions = λ t h. h;
  rule_actions = λ t h. In-append_left t c.rule_actions (a ∷ []) h;
}

pub Stays-add_transition :
    (x : Option Symbol) (k : ℕ) (c : LeadState) → Stays c (add_transition x k c)
Stays-add_transition none k c = Stays-add_token_action _ c
Stays-add_transition (some (tkn t)) k c = Stays-add_token_action _ c
Stays-add_transition (some (sub r)) k c = Stays-add_rule_action _ c

-- The state that is changed.
pub change_at-get_elem :
    (i : ℕ) (f : LeadState → LeadState) (states : List LeadState) (s : LeadState)
    → get_elem? states i ≡ some s
    → get_elem? (change_at i f states) i ≡ some (f s)
unfolding change_at
change_at-get_elem i f [] s e = absurd (cc e)
change_at-get_elem zero f (c ∷ states) s e = let here : c ≡ s = cc e in rw here refl
change_at-get_elem (suc i) f (c ∷ states) s e = change_at-get_elem i f states s e

pub Extends-change_at :
    (i : ℕ) (f : LeadState → LeadState) (states : List LeadState)
    → ((c : LeadState) → Stays c (f c))
    → Extends states (change_at i f states)
unfolding change_at
Extends-change_at i f [] h = Extends-same []
Extends-change_at zero f (c ∷ states) h = record { stays = on }
  where
    on :
        (k : ℕ) (s : LeadState)
        → get_elem? (c ∷ states) k ≡ some s
        → (c' : LeadState) × (get_elem? (f c ∷ states) k ≡ some c') × Stays s c'
    on zero s e = let here : c ≡ s = cc e in (f c, refl, subst (λ t. Stays t (f c)) here (h c))
    on (suc k) s e = (s, e, Stays-same s)
Extends-change_at (suc i) f (c ∷ states) h = record { stays = on (Extends-change_at i f states h) }
  where
    on :
        Extends states (change_at i f states)
        → (k : ℕ) (s : LeadState) → get_elem? (c ∷ states) k ≡ some s
        → (c' : LeadState) × (get_elem? (c ∷ change_at i f states) k ≡ some c') × Stays s c'
    on x zero s e = (s, e, Stays-same s)
    on x (suc k) s e = x.stays k s e

pub get_elem-append :
    (states more : List LeadState) (k : ℕ) (s : LeadState)
    → get_elem? states k ≡ some s
    → get_elem? (states ++ more) k ≡ some s
get_elem-append [] more k s e = absurd (cc e)
get_elem-append (c ∷ states) more zero s e = e
get_elem-append (c ∷ states) more (suc k) s e = get_elem-append states more k s e

pub get_elem-last :
    (states : List LeadState) (s : LeadState)
    → get_elem? (states ++ (s ∷ [])) (length states) ≡ some s
get_elem-last [] s = refl
get_elem-last (c ∷ states) s = get_elem-last states s

pub Extends-append : (states more : List LeadState) → Extends states (states ++ more)
Extends-append states more = record {
  stays = λ k c e. (c, get_elem-append states more k c e, Stays-same c);
}

pub Extends-add_reductions :
    (i : ℕ) (leads : List Lead) (states : List LeadState)
    → Extends states (add_reductions i leads states)
unfolding add_reductions
Extends-add_reductions i [] states = Extends-same states
Extends-add_reductions i (l ∷ leads) states =
    Extends-Extends states _ _
      (Extends-change_at i (add_token_action (reduction l)) states
        (Stays-add_token_action (reduction l)))
      (Extends-add_reductions i leads (change_at i (add_token_action (reduction l)) states))

-- The action that a state has.
abbrev pub HasToken : ℕ → TokenAction → List LeadState → Type 0
HasToken i a states = (s : LeadState) × (get_elem? states i ≡ some s) × In a s.token_actions

abbrev pub HasRule : ℕ → RuleAction → List LeadState → Type 0
HasRule i a states = (s : LeadState) × (get_elem? states i ≡ some s) × In a s.rule_actions

pub HasToken-Extends :
    (i : ℕ) (a : TokenAction) (states states' : List LeadState)
    → Extends states states'
    → HasToken i a states
    → HasToken i a states'
HasToken-Extends i a states states' x (s, e, h) =
    let (s', e', stays) = x.stays i s e in (s', e', stays.token_actions a h)

pub HasRule-Extends :
    (i : ℕ) (a : RuleAction) (states states' : List LeadState)
    → Extends states states'
    → HasRule i a states
    → HasRule i a states'
HasRule-Extends i a states states' x (s, e, h) =
    let (s', e', stays) = x.stays i s e in (s', e', stays.rule_actions a h)

pub HasToken-add_reductions :
    (i : ℕ) (leads : List Lead) (states : List LeadState) (s : LeadState) (l : Lead)
    → get_elem? states i ≡ some s
    → In l leads
    → HasToken i (reduction l) (add_reductions i leads states)
unfolding add_reductions
HasToken-add_reductions i [] states s l e m = absurd m
HasToken-add_reductions i (m ∷ leads) states s l e (inl q) =
    HasToken-Extends i (reduction l) (change_at i (add_token_action (reduction m)) states) _
      (Extends-add_reductions i leads _)
      (
        add_token_action (reduction m) s,
        change_at-get_elem i (add_token_action (reduction m)) states s e,
        In-append_right (reduction l) s.token_actions _ (inl (ap reduction q)),
      )
HasToken-add_reductions i (m ∷ leads) states s l e (inr h) =
    HasToken-add_reductions i leads _ _ l
      (change_at-get_elem i (add_token_action (reduction m)) states s e) h
