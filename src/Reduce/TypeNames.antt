-- ===== src/Reduce/TypeNames.antt =====
-- src/grammar_rules.c, REDUCER(type_name): the types that names stand for.
use low.Prelude.{
  ℕ, zero, suc, ◌≡◌, ◌↔◌, inl, inr, refl, sym, ap, ◌∙◌, arith, Bool, true, false, &&-true, [], ◌∷◌,
  ◌++◌, Bytes, codes, length, length-append, take, drop, leb, ltb, str_equal, str_equal_iff,
  if◌then◌else◌, Bool-cases,
}
use mathlib.Core.Path.{subst}
use low.Ast.LowType.{LowType, integer_type, float_type, boolean_type, named_type}
use low.Reduce.Types.{has_prefix, width_of, name_type}

-- A name that begins with a word.
abbrev pub Begins : Bytes → Bytes → Type 0
Begins word name = (rest : Bytes) × (name ≡ word ++ rest)

take-++ : (a b : Bytes) → take (length a) (a ++ b) ≡ a
take-++ [] b = refl
take-++ (x ∷ a) b = ap (λ xs. x ∷ xs) (take-++ a b)

drop-++ : (a b : Bytes) → drop (length a) (a ++ b) ≡ b
drop-++ [] b = refl
drop-++ (x ∷ a) b = drop-++ a b

take-drop : (n : ℕ) (xs : Bytes) → xs ≡ take n xs ++ drop n xs
take-drop zero xs = refl
take-drop (suc n) [] = refl
take-drop (suc n) (x ∷ xs) = ap (λ ys. x ∷ ys) (take-drop n xs)

length-le : (a b : Bytes) → leb (length a) (length (a ++ b)) ≡ true
length-le [] b = ground arith
length-le (x ∷ a) b = ground (arith, length-le a b)

has_prefix-Begins : (word name : Bytes) → (has_prefix word name ≡ true) ↔ Begins word name
has_prefix-Begins word name = (into, out)
  where
    into : has_prefix word name ≡ true → Begins word name
    into h =
        let (long, same) =
          &&-true (leb (length word) (length name)) (str_equal (take (length word) name) word) h in
        (
          drop (length word) name,
          take-drop (length word) name
              ∙ ap (λ xs. xs ++ drop (length word) name)
                  ((str_equal_iff (take (length word) name) word).0 same),
        )

    out : Begins word name → has_prefix word name ≡ true
    out (rest, e) =
        let same = (str_equal_iff (take (length word) (word ++ rest)) word).1 (take-++ word rest) in
        rw e rw (length-le word rest, same) refl

no_prefix : (word name : Bytes) → ¬ Begins word name → has_prefix word name ≡ false
no_prefix word name h = elim (Bool-cases (has_prefix word name)) [
  | inl e ↦ absurd (h ((has_prefix-Begins word name).0 e))
  | inr e ↦ e
]

has_prefix-false : (word name : Bytes) → has_prefix word name ≡ false → ¬ Begins word name
has_prefix-false word name e h =
    let q = sym ((has_prefix-Begins word name).1 h) ∙ e in absurd (cc q)

abbrev first_byte : Bytes → ℕ
first_byte [] = 0
first_byte (c ∷ rest) = c

-- `int` and `float` are no beginnings of one name.
not_both : (name : Bytes) → Begins (codes "float") name → ¬ Begins (codes "int") name
not_both name (rest, e) (more, q) =
    let h : 102 ≡ 105 = ap first_byte (sym e ∙ q) in absurd (omega (arith, h))

bool_no_int : (name : Bytes) → name ≡ codes "bool" → ¬ Begins (codes "int") name
bool_no_int name e (rest, q) =
    let h : 98 ≡ 105 = ap first_byte (sym e ∙ q) in absurd (omega (arith, h))

bool_no_float : (name : Bytes) → name ≡ codes "bool" → ¬ Begins (codes "float") name
bool_no_float name e (rest, q) =
    let h : 98 ≡ 102 = ap first_byte (sym e ∙ q) in absurd (omega (arith, h))

module _ (file : Bytes) (atoi : Bytes → ℕ) where
  -- The width of a number: 32 if nothing is written, and else what `atoi` reads.
  abbrev pub width : Bytes → ℕ
  width [] = 32
  width (c ∷ rest) = atoi (c ∷ rest)

  -- What a name says, told by what it is made of.
  pub data Spells : Bytes → LowType → Type 0 where
    an_integer : (rest : Bytes) → Spells (codes "int" ++ rest) (integer_type 0 (width rest))
    a_float : (rest : Bytes) → Spells (codes "float" ++ rest) (float_type 0 (width rest))
    a_boolean : Spells (codes "bool") (boolean_type 0)
    a_name :
        (name : Bytes)
        → ¬ Begins (codes "int") name
        → ¬ Begins (codes "float") name
        → ¬ (name ≡ codes "bool")
        → Spells name (named_type 0 name)

  width_of-width :
      (word rest : Bytes) → width_of file atoi (length word) (word ++ rest) ≡ width rest
  width_of-width word [] =
      let e : ltb (length word) (length (word ++ [])) ≡ false =
        ground (arith, length-append word []) in
      rw e refl
  width_of-width word (c ∷ rest) =
      let e : ltb (length word) (length (word ++ (c ∷ rest))) ≡ true =
        ground (arith, length-append word (c ∷ rest)) in
      rw (e, drop-++ word (c ∷ rest)) refl

  -- The three tests of the code.
  abbrev chosen : Bool → Bool → Bool → Bytes → LowType
  chosen true f b name = integer_type 0 (width_of file atoi 3 name)
  chosen false true b name = float_type 0 (width_of file atoi 5 name)
  chosen false false true name = boolean_type 0
  chosen false false false name = named_type 0 name

  if_chosen :
      (i f b : Bool) (name : Bytes)
      → (if i
          then integer_type 0 (width_of file atoi 3 name)
          else (if f
              then float_type 0 (width_of file atoi 5 name)
              else (if b then boolean_type 0 else named_type 0 name)))
        ≡ chosen i f b name
  if_chosen true f b name = refl
  if_chosen false true b name = refl
  if_chosen false false true name = refl
  if_chosen false false false name = refl

  name_type-chosen :
      (name : Bytes) (i f b : Bool)
      → has_prefix (codes "int") name ≡ i
      → has_prefix (codes "float") name ≡ f
      → str_equal name (codes "bool") ≡ b
      → name_type file atoi name ≡ chosen i f b name
  unfolding name_type
  name_type-chosen name i f b hi hf hb =
      if_chosen (has_prefix (codes "int") name) (has_prefix (codes "float") name)
        (str_equal name (codes "bool")) name
      ∙ ap (λ x. chosen x (has_prefix (codes "float") name) (str_equal name (codes "bool")) name) hi
      ∙ ap (λ x. chosen i x (str_equal name (codes "bool")) name) hf
      ∙ ap (λ x. chosen i f x name) hb

  Spells-name_type : (name : Bytes) (t : LowType) → Spells name t → name_type file atoi name ≡ t
  Spells-name_type name t (an_integer rest) =
      name_type-chosen name true _ _ ((has_prefix-Begins (codes "int") name).1 (rest, refl)) refl
        refl
      ∙ ap (integer_type 0) (width_of-width (codes "int") rest)
  Spells-name_type name t (a_float rest) =
      name_type-chosen name false true _ (no_prefix (codes "int") name (not_both name (rest, refl)))
        ((has_prefix-Begins (codes "float") name).1 (rest, refl)) refl
      ∙ ap (float_type 0) (width_of-width (codes "float") rest)
  Spells-name_type name t a_boolean =
      name_type-chosen name false false true (no_prefix (codes "int") name (bool_no_int name refl))
        (no_prefix (codes "float") name (bool_no_float name refl))
        ((str_equal_iff name name).1 refl)
  Spells-name_type name t (a_name n hi hf hb) =
      name_type-chosen name false false false (no_prefix (codes "int") name hi)
        (no_prefix (codes "float") name hf) (other (str_equal name (codes "bool")) refl)
    where
      other : (b : Bool) → str_equal name (codes "bool") ≡ b → b ≡ false
      other true e = absurd (hb ((str_equal_iff name (codes "bool")).0 e))
      other false e = refl

  spelling : (name : Bytes) → (t : LowType) × Spells name t
  spelling name = elim (Bool-cases (has_prefix (codes "int") name)) [
    | inl e ↦
        let (rest, q) = (has_prefix-Begins (codes "int") name).0 e in
        (_, subst (λ n. Spells n (integer_type 0 (width rest))) (sym q) (an_integer rest))
    | inr hi ↦ elim (Bool-cases (has_prefix (codes "float") name)) [
      | inl e ↦
          let (rest, q) = (has_prefix-Begins (codes "float") name).0 e in
          (_, subst (λ n. Spells n (float_type 0 (width rest))) (sym q) (a_float rest))
      | inr hf ↦ elim (Bool-cases (str_equal name (codes "bool"))) [
        | inl e ↦
            let q = (str_equal_iff name (codes "bool")).0 e in
            (_, subst (λ n. Spells n (boolean_type 0)) (sym q) a_boolean)
        | inr hb ↦ (
          _,
          a_name name (has_prefix-false (codes "int") name hi)
              (has_prefix-false (codes "float") name hf)
              (λ q.
                let both : false ≡ true = sym hb ∙ (str_equal_iff name (codes "bool")).1 q in
                absurd (cc both)),
        )
      ]
    ]
  ]

  -- The type that a name is given is an integer type exactly if the name begins with `int`, a float type
  -- exactly if it begins with `float`, with the width that `atoi` reads from what is left, or 32 if
  -- nothing is; the Boolean type if it is `bool`; and else, the name itself.
  pub name_type-Spells :
      (name : Bytes) (t : LowType) → (name_type file atoi name ≡ t) ↔ Spells name t
  name_type-Spells name t = (into, Spells-name_type name t)
    where
      into : name_type file atoi name ≡ t → Spells name t
      into e =
          let (u, h) = spelling name in subst (Spells name) (sym (Spells-name_type name u h) ∙ e) h
