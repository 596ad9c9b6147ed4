-- ===== src/Generator/Externs.antt =====
-- src/parser_generator.c, main: the reducers that are declared before the tables.
use low.Prelude.{
  ℕ, ◌≡◌, refl, sym, ap, ◌∙◌, Bool, true, false, ◌&&◌, ◌||◌, &&-true, ◌==◌, ==_iff, List, [], ◌∷◌,
  ◌++◌, Option, none, some, get_elem?, map, inl, inr, Bool-cases,
}
use mathlib.Core.Path.{subst}
use low.Reduce.Kinds.{All}
use low.Grammar.Symbols.{Rule, Variant, variant, Reducer}
use low.Parser.Tables.{ParserAction, ParserState}
use low.Generator.Rules.{◌same◌, same_eq}
use low.Generator.Exact.{variant_at}
use low.Generator.States.{LeadState, TokenAction, Target, reduces, shifts}
use low.Generator.Members.{In, All-append, In-get_elem}
use low.Generator.Emit.{
  Extern, has_extern, declare_target, declare_actions, declare_states, emit_states,
}
use low.Generator.Emitted.{RowFor}
use low.Generator.Written.{emit_states-EntryFor}

-- The variant of a reduction is that which its pointer points to.
abbrev pub IsTarget : Target → Type 0
IsTarget (shifts k) = Unit {0}
IsTarget (reduces r place v) = variant_at r place ≡ some v

abbrev pub HasTarget : TokenAction → Type 0
HasTarget a = IsTarget a.target

abbrev pub HasTargets : LeadState → Type 0
HasTargets s = All HasTarget s.token_actions

-- The reducer of an element is that of the variant.
abbrev IsExtern : Extern → Type 0
IsExtern x =
    (elements : List _) × (tag : ℕ) × (variant_at (some x.rule) x.place
      ≡ some (variant elements (some x.reducer) tag))

abbrev pub Declares : List Extern → Reducer → Type 0
Declares externs f = In f (map Extern.reducer externs)

In-reducer : (x : Extern) (externs : List Extern) → In x externs → Declares externs x.reducer
In-reducer x [] h = absurd h
In-reducer x (y ∷ externs) (inl e) = inl (ap Extern.reducer e)
In-reducer x (y ∷ externs) (inr h) = inr (In-reducer x externs h)

In-externs :
    (externs : List Extern) (f : Reducer)
    → Declares externs f
    → (x : Extern) × In x externs × (f ≡ x.reducer)
In-externs [] f h = absurd h
In-externs (x ∷ externs) f (inl e) = (x, inl refl, e)
In-externs (x ∷ externs) f (inr h) = let (y, m, e) = In-externs externs f h in (y, inr m, e)

-- The search finds the reducer of the same variant.
has_extern-Declares :
    (externs : List Extern) (r : Rule) (place : ℕ) (elements : List _) (f : Reducer) (tag : ℕ)
    → All IsExtern externs
    → variant_at (some r) place ≡ some (variant elements (some f) tag)
    → has_extern externs r place ≡ true
    → Declares externs f
unfolding has_extern
has_extern-Declares [] r place elements f tag is e h = absurd (cc h)
has_extern-Declares (x ∷ externs) r place elements f tag ((els, t, q), is) e h =
    elim (Bool-cases ((x.rule same r) && (x.place == place))) [
      | inl k ↦
          let (rules, at) = &&-true (x.rule same r) (x.place == place) k in
          let found : ◌≡◌ {A = Option Variant} (some (variant elements (some f) tag))
              (some (variant els (some x.reducer) t)) =
            sym e
            ∙ ap (λ p. variant_at (some p) place) (sym (same_eq x.rule r rules))
            ∙ ap (variant_at (some x.rule)) (sym ((==_iff x.place place).0 at))
            ∙ q in
          inl (cc found)
      | inr k ↦ inr (has_extern-Declares externs r place elements f tag is e (behind _ _ k h))
    ]
  where
    behind : (a b : Bool) → a ≡ false → a || b ≡ true → b ≡ true
    behind true b e h = absurd (cc e)
    behind false b e h = h

-- The reducer of a reduction is declared.
abbrev Names : List Extern → Target → Type 0
Names out target =
    (r : Rule) (place : ℕ) (elements : List _) (g : Reducer) (tag : ℕ)
    → target ≡ reduces (some r) place (variant elements (some g) tag)
    → Declares out g

row_target :
    (out : List Extern) (target : Target) (ids : List Rule) (token : ℕ) (row : ParserAction)
    (f : Reducer)
    → Names out target
    → RowFor ids target token row
    → row.reducer ≡ some f
    → Declares out f
row_target out (shifts k) ids token row f h (does, e, _) q =
    let no : none ≡ some f = sym e ∙ q in absurd (cc no)
row_target out (reduces none place (variant elements reducer tag)) ids token row f h (does, e, _)
      q =
    let no : none ≡ some f = sym e ∙ q in absurd (cc no)
row_target out (reduces (some r) place (variant elements none tag)) ids token row f h
      (does, e, _, _) q =
    let no : none ≡ some f = sym e ∙ q in absurd (cc no)
row_target out (reduces (some r) place (variant elements (some g) tag)) ids token row f h
      (does, e, _, _) q =
    let here : ◌≡◌ {A = Option Reducer} (some g) (some f) = sym e ∙ q in
    let same_reducer : g ≡ f = cc here in
    subst (Declares out) same_reducer (h r place elements g tag refl)

-- After a loop, the elements are of variants, and the old ones stay.
abbrev Kept : List Extern → List Extern → Type 0
Kept externs out = All IsExtern out × ((f : Reducer) → Declares externs f → Declares out f)

map-append :
    (externs more : List Extern) (f : Reducer) → Declares externs f → Declares (externs ++ more) f
map-append [] more f h = absurd h
map-append (x ∷ externs) more f (inl e) = inl e
map-append (x ∷ externs) more f (inr h) = inr (map-append externs more f h)

map-last : (externs : List Extern) (x : Extern) → Declares (externs ++ (x ∷ [])) x.reducer
map-last [] x = inl refl
map-last (y ∷ externs) x = inr (map-last externs x)

declare_target-Kept :
    (target : Target) (externs : List Extern)
    → IsTarget target
    → All IsExtern externs
    → Kept externs (declare_target target externs) × Names (declare_target target externs) target
unfolding declare_target
declare_target-Kept (shifts k) externs is ok =
    ((ok, λ f h. h), λ r place elements g tag e. absurd (cc e))
declare_target-Kept (reduces none place v) externs is ok =
    ((ok, λ f h. h), λ r p elements g tag e. absurd (cc e))
declare_target-Kept (reduces (some r) place (variant elements none tag)) externs is ok =
    ((ok, λ f h. h), λ q p els g t e. absurd (cc e))
declare_target-Kept (reduces (some r) place (variant elements (some f) tag)) externs is ok =
    elim (Bool-cases (has_extern externs r place)) [
      | inl e ↦
          rw (e, declare_target)
            (
              (ok, λ g h. h),
              λ q p els g t k.
                  let same_reducer : f ≡ g = cc k in
                  subst (Declares externs) same_reducer
                    (has_extern-Declares externs r place elements f tag ok is e),
            )
      | inr e ↦
          rw (e, declare_target)
            (
              (
                All-append IsExtern externs _ ok ((elements, tag, is), tt),
                λ g h. map-append externs _ g h,
              ),
              λ q p els g t k.
                  let same_reducer : f ≡ g = cc k in
                  subst
                    (Declares (externs ++ (record { rule = r; place = place; reducer = f } ∷ [])))
                    same_reducer (map-last externs _),
            )
    ]

declare_actions-Kept :
    (actions : List TokenAction) (externs : List Extern)
    → All HasTarget actions
    → All IsExtern externs
    → Kept externs (declare_actions actions externs)
      × ((a : TokenAction) → In a actions → Names (declare_actions actions externs) a.target)
unfolding declare_actions
declare_actions-Kept [] externs is ok = ((ok, λ f h. h), λ a h. absurd h)
declare_actions-Kept (a ∷ actions) externs (is, others) ok =
    let ((ok₁, keep₁), names) = declare_target-Kept a.target externs is ok in
    let ((ok₂, keep₂), rest) =
      declare_actions-Kept actions (declare_target a.target externs) others ok₁ in
    (
      (ok₂, λ f h. keep₂ f (keep₁ f h)),
      λ b h r place elements g tag e. elim h [
        | inl q ↦ keep₂ g (names r place elements g tag (ap TokenAction.target (sym q) ∙ e))
        | inr k ↦ rest b k r place elements g tag e
      ],
    )

declare_states-Kept :
    (states : List LeadState) (externs : List Extern)
    → All HasTargets states
    → All IsExtern externs
    → Kept externs (declare_states states externs)
      × ((s : LeadState) (a : TokenAction)
          → In s states
          → In a s.token_actions
          → Names (declare_states states externs) a.target)
unfolding declare_states
declare_states-Kept [] externs is ok = ((ok, λ f h. h), λ s a h k. absurd h)
declare_states-Kept (s ∷ states) externs (is, others) ok =
    let ((ok₁, keep₁), names) = declare_actions-Kept s.token_actions externs is ok in
    let ((ok₂, keep₂), rest) =
      declare_states-Kept states (declare_actions s.token_actions externs) others ok₁ in
    (
      (ok₂, λ f h. keep₂ f (keep₁ f h)),
      λ c a h k r place elements g tag e. elim h [
        | inl q ↦
            keep₂ g (
              names a (subst (λ (d : LeadState). In a d.token_actions) q k) r place elements g tag
                e)
        | inr there ↦ rest c a there k r place elements g tag e
      ],
    )

-- If the variant of each reduction is that which its pointer points to, every reducer that a row of the
-- tables names is declared before them.
pub declare_states-names :
    (states : List LeadState) (k : ℕ) (s : LeadState) (p : ParserState) (row : ParserAction)
    (f : Reducer)
    → All HasTargets states
    → get_elem? states k ≡ some s
    → get_elem? (emit_states states []).0 k ≡ some p
    → In row p.actions
    → row.reducer ≡ some f
    → Declares (declare_states states []) f
declare_states-names states k s p row f is e e' h q =
    let (entry, found, ((sound, complete), gotos)) = emit_states-EntryFor states k s e in
    let same_entry : ◌≡◌ {A = Option ParserState} (some p) (some entry) = sym e' ∙ found in
    let here : p ≡ entry = cc same_entry in
    let ((a, t), (member, has), says) =
      sound row (subst (λ (d : ParserState). In row d.actions) here h) in
    row_target (declare_states states []) a.target (emit_states states []).1 t row f
      ((declare_states-Kept states [] is tt).1 s a (In-get_elem states k s e) member) says q
