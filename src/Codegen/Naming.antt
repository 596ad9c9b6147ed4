-- ===== src/Codegen/Naming.antt =====
-- src/codegen.c, resolve_type_name: what the name of a type stands for, told without the loop.
use low.Prelude.{
  zero, suc, ◌≡◌, ◌⊎◌, ◌↔◌, inl, inr, refl, sym, ap, ◌∙◌, true, false, List, [], ◌∷◌, Option, none,
  some, Bytes, str_equal_iff, Bool-cases,
}
use low.Ast.LowType.{
  LowType, no_type, void_type, boolean_type, placeholder_type, integer_type, float_type, func_type,
  named_type, struct_type, array_type, slice_type, interface_type,
}
use low.Reduce.Kinds.{All}
use low.Codegen.State.{CodegenSymbol, Scope, Outcome, ok, aborts, invalid}
use low.Codegen.Context.{plain_name, has_name, find_in, or_search, find_symbol}

abbrev pub Named : Bytes → CodegenSymbol → Type 0
Named name s = s.name ≡ some name

-- The first symbol of a context with a name.
abbrev pub FirstIn : Bytes → List CodegenSymbol → CodegenSymbol → Type 0
FirstIn name [] s = ⊥
FirstIn name (x ∷ symbols) s =
    ((x ≡ s) × Named name x) ⊎ ((¬ Named name x) × FirstIn name symbols s)

abbrev pub NoneIn : Bytes → List CodegenSymbol → Type 0
NoneIn name symbols = All (λ x. ¬ Named name x) symbols

-- The symbol that a name stands for: the first in the innermost context that has one.
abbrev pub Stands : Bytes → List Scope → CodegenSymbol → Type 0
Stands name [] s = ⊥
Stands name (scope ∷ scopes) s =
    FirstIn name scope.symbols s ⊎ (NoneIn name scope.symbols × Stands name scopes s)

abbrev pub Absent : Bytes → List Scope → Type 0
Absent name scopes = All (λ (scope : Scope). NoneIn name scope.symbols) scopes

-- How a type ends: as itself if it is no name without pointers, and else as the type of the symbol that
-- the name stands for; with a failed assertion if there is none; with a use of a null pointer if the
-- symbol has no type.
pub data Ends (scopes : List Scope) : LowType → Outcome LowType → Type 0 where
  itself : (t : LowType) → ((name : Bytes) → ¬ (t ≡ named_type 0 name)) → Ends scopes t (ok t)
  unknown : (name : Bytes) → Absent name scopes → Ends scopes (named_type 0 name) aborts
  untyped :
      (name : Bytes) (s : CodegenSymbol)
      → Stands name scopes s
      → s.type ≡ none
      → Ends scopes (named_type 0 name) invalid
  by_name :
      (name : Bytes) (s : CodegenSymbol) (t : LowType) (o : Outcome LowType)
      → Stands name scopes s
      → s.type ≡ some t
      → Ends scopes t o
      → Ends scopes (named_type 0 name) o

has_name-Named : (name : Bytes) (s : CodegenSymbol) → (has_name name s.name ≡ true) ↔ Named name s
has_name-Named name s = on s.name
  where
    on : (o : Option Bytes) → (has_name name o ≡ true) ↔ (o ≡ some name)
    on none = (λ h. absurd (cc h), λ h. absurd (cc h))
    on (some n) = (
      λ h. ap some ((str_equal_iff n name).0 h),
      λ h. let e : n ≡ name = cc h in (str_equal_iff n name).1 e,
    )

has_name-false : (name : Bytes) (s : CodegenSymbol) → has_name name s.name ≡ false → ¬ Named name s
has_name-false name s h n = let e = sym ((has_name-Named name s).1 n) ∙ h in absurd (cc e)

-- The search in one context.
abbrev InScope : Bytes → List CodegenSymbol → Option CodegenSymbol → Type 0
InScope name symbols none = NoneIn name symbols
InScope name symbols (some s) = FirstIn name symbols s

find_in-InScope :
    (symbols : List CodegenSymbol) (name : Bytes) → InScope name symbols (find_in symbols name)
unfolding find_in
find_in-InScope [] name = tt
find_in-InScope (x ∷ symbols) name = elim (Bool-cases (has_name name x.name)) [
  | inl e ↦ rw (e, find_in) (inl (refl, (has_name-Named name x).0 e))
  | inr e ↦
      rw (e, find_in)
        (on (find_in symbols name) (has_name-false name x e) (find_in-InScope symbols name))
]
  where
    on :
        (o : Option CodegenSymbol)
        → ¬ Named name x
        → InScope name symbols o
        → InScope name (x ∷ symbols) o
    on none n h = (n, h)
    on (some s) n h = inr (n, h)

abbrev pub InScopes : Bytes → List Scope → Option CodegenSymbol → Type 0
InScopes name scopes none = Absent name scopes
InScopes name scopes (some s) = Stands name scopes s

pub find_symbol-InScopes :
    (scopes : List Scope) (name : Bytes) → InScopes name scopes (find_symbol scopes name)
unfolding find_symbol
find_symbol-InScopes [] name = tt
find_symbol-InScopes (scope ∷ scopes) name =
    on (find_in scope.symbols name) (find_symbol scopes name) (find_in-InScope scope.symbols name)
      (find_symbol-InScopes scopes name)
  where
    on :
        (a b : Option CodegenSymbol)
        → InScope name scope.symbols a
        → InScopes name scopes b
        → InScopes name (scope ∷ scopes) (or_search a b)
    on none none h k = (h, k)
    on none (some s) h k = inr (h, k)
    on (some s) b h k = inl h

-- Nothing else is found.
FirstIn-unique :
    (name : Bytes) (symbols : List CodegenSymbol) (s u : CodegenSymbol)
    → FirstIn name symbols s
    → FirstIn name symbols u
    → s ≡ u
FirstIn-unique name [] s u h k = absurd h
FirstIn-unique name (x ∷ symbols) s u (inl (e, _)) (inl (q, _)) = sym e ∙ q
FirstIn-unique name (x ∷ symbols) s u (inl (e, n)) (inr (other, _)) = absurd (other n)
FirstIn-unique name (x ∷ symbols) s u (inr (other, _)) (inl (q, n)) = absurd (other n)
FirstIn-unique name (x ∷ symbols) s u (inr (_, h)) (inr (_, k)) =
    FirstIn-unique name symbols s u h k

FirstIn-NoneIn :
    (name : Bytes) (symbols : List CodegenSymbol) (s : CodegenSymbol)
    → FirstIn name symbols s
    → ¬ NoneIn name symbols
FirstIn-NoneIn name [] s h k = h
FirstIn-NoneIn name (x ∷ symbols) s (inl (_, n)) (other, k) = other n
FirstIn-NoneIn name (x ∷ symbols) s (inr (_, h)) (other, k) = FirstIn-NoneIn name symbols s h k

Stands-unique :
    (name : Bytes) (scopes : List Scope) (s u : CodegenSymbol)
    → Stands name scopes s
    → Stands name scopes u
    → s ≡ u
Stands-unique name [] s u h k = absurd h
Stands-unique name (scope ∷ scopes) s u (inl h) (inl k) = FirstIn-unique name scope.symbols s u h k
Stands-unique name (scope ∷ scopes) s u (inl h) (inr (other, _)) =
    absurd (FirstIn-NoneIn name scope.symbols s h other)
Stands-unique name (scope ∷ scopes) s u (inr (other, _)) (inl k) =
    absurd (FirstIn-NoneIn name scope.symbols u k other)
Stands-unique name (scope ∷ scopes) s u (inr (_, h)) (inr (_, k)) =
    Stands-unique name scopes s u h k

Stands-Absent :
    (name : Bytes) (scopes : List Scope) (s : CodegenSymbol)
    → Stands name scopes s
    → ¬ Absent name scopes
Stands-Absent name [] s h k = h
Stands-Absent name (scope ∷ scopes) s (inl h) (other, _) =
    FirstIn-NoneIn name scope.symbols s h other
Stands-Absent name (scope ∷ scopes) s (inr (_, h)) (_, k) = Stands-Absent name scopes s h k

pub find_symbol-Stands :
    (scopes : List Scope) (name : Bytes) (s : CodegenSymbol)
    → Stands name scopes s
    → find_symbol scopes name ≡ some s
find_symbol-Stands scopes name s h = on (find_symbol scopes name) (find_symbol-InScopes scopes name)
  where
    on : (o : Option CodegenSymbol) → InScopes name scopes o → o ≡ some s
    on none k = absurd (Stands-Absent name scopes s h k)
    on (some u) k = ap some (Stands-unique name scopes u s k h)

pub find_symbol-Absent :
    (scopes : List Scope) (name : Bytes) → Absent name scopes → find_symbol scopes name ≡ none
find_symbol-Absent scopes name h = on (find_symbol scopes name) (find_symbol-InScopes scopes name)
  where
    on : (o : Option CodegenSymbol) → InScopes name scopes o → o ≡ none
    on none k = refl
    on (some u) k = absurd (Stands-Absent name scopes u k h)

pub plain_name-none :
    (t : LowType) → ((name : Bytes) → ¬ (t ≡ named_type 0 name)) → plain_name t ≡ none
plain_name-none (named_type zero n) h = absurd (h n refl)
plain_name-none (named_type (suc p) n) h = refl
plain_name-none (no_type p) h = refl
plain_name-none (void_type p) h = refl
plain_name-none (boolean_type p) h = refl
plain_name-none (placeholder_type p) h = refl
plain_name-none (integer_type p w) h = refl
plain_name-none (float_type p w) h = refl
plain_name-none (func_type p r ts) h = refl
plain_name-none (struct_type p n ms) h = refl
plain_name-none (array_type p t n) h = refl
plain_name-none (slice_type p t) h = refl
plain_name-none (interface_type p ms) h = refl

pub plain_name-some :
    (t : LowType) (name : Bytes) → plain_name t ≡ some name → t ≡ named_type 0 name
plain_name-some (named_type zero n) name h = let e : n ≡ name = cc h in ap (named_type 0) e
plain_name-some (named_type (suc p) n) name h = absurd (cc h)
plain_name-some (no_type p) name h = absurd (cc h)
plain_name-some (void_type p) name h = absurd (cc h)
plain_name-some (boolean_type p) name h = absurd (cc h)
plain_name-some (placeholder_type p) name h = absurd (cc h)
plain_name-some (integer_type p w) name h = absurd (cc h)
plain_name-some (float_type p w) name h = absurd (cc h)
plain_name-some (func_type p r ts) name h = absurd (cc h)
plain_name-some (struct_type p n ms) name h = absurd (cc h)
plain_name-some (array_type p t n) name h = absurd (cc h)
plain_name-some (slice_type p t) name h = absurd (cc h)
plain_name-some (interface_type p ms) name h = absurd (cc h)

pub not_named : (t : LowType) → plain_name t ≡ none → (name : Bytes) → ¬ (t ≡ named_type 0 name)
not_named t e name h = let q : none ≡ some name = sym e ∙ ap plain_name h in absurd (cc q)
