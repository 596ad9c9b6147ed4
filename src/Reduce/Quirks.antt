-- ===== src/Reduce/Quirks.antt =====
-- Two things that the reducers of src/grammar_rules.c do with what the grammar lets through.
use low.Prelude.{
  ℕ, ◌≡◌, refl, sym, List, [], ◌∷◌, ◌++◌, Option, none, some, Bytes, get_elem?, ◌⊎◌, inl, inr,
}
use low.Lexer.Token.{semicolon, lbrace, rbrace}
use low.Grammar.Symbols.{
  Rule, Symbol, sub, tkn, Reducer, Variant, variant, rule_func_unit, rule_func_unit_decl,
  rule_compound_stmt, rule_implementation_mapping, rule_implementation_mapping_list,
  func_unit_decl_reducer, func_unit_decl2_reducer, func_unit_reducer,
  implementation_mapping_list_reducer,
}
use low.Grammar.Variants.{variants}
use low.Ast.Tree.{FuncUnit, null_stmt}
use low.Reduce.Values.{
  Outcome, ok, aborts, confused, overrun, ◌>>=◌, a_func, a_mapping, one, many, Tok,
}
use low.Reduce.Operands.{leave}
use low.Reduce.Run.{reduced}
use mathlib.Core.Path.{subst}
use low.Generator.Members.{All-In, In-get_elem}
use low.Reduce.Kinds.{All, Child, Children, child_tok, child_toks}
use low.Reduce.Units.{reduce_func_unit_decl, reduce_func_unit_decl2}

-- A token with a function that has no body.
abbrev Bodiless : Outcome Tok → Type 0
Bodiless (ok t) = (f : FuncUnit) × (t.value ≡ one a_func f) × (f.body ≡ null_stmt)
Bodiless aborts = Unit
Bodiless confused = Unit
Bodiless overrun = Unit

Bodiless-bind :
    {A : Type 0} (o : Outcome A) (f : A → Outcome Tok)
    → ((a : A) → Bodiless (f a))
    → Bodiless (o >>= f)
Bodiless-bind (ok a) f h = h a
Bodiless-bind aborts f h = tt
Bodiless-bind confused f h = tt
Bodiless-bind overrun f h = tt

Bodiless-leave : (out : Tok) (f : FuncUnit) → f.body ≡ null_stmt → Bodiless (leave a_func out f)
Bodiless-leave out f h = (f, refl, h)

-- What the grammar says of the variants that end in a function.
abbrev IsDecl : Variant → Type 0
IsDecl (variant xs reducer tag) =
    (reducer ≡ some func_unit_decl_reducer) ⊎ (reducer ≡ some func_unit_decl2_reducer)

decls-IsDecl : All IsDecl (variants rule_func_unit_decl)
unfolding variants
decls-IsDecl = (
  inl refl,
  (inl refl, (inl refl, (inl refl, (inr refl, (inr refl, (inr refl, (inr refl, tt))))))),
)

abbrev pub braces : List Symbol
braces = tkn lbrace ∷ tkn rbrace ∷ []

abbrev pub with_body : List Symbol
with_body = sub rule_func_unit_decl ∷ sub rule_compound_stmt ∷ []

abbrev pub without_body : List Symbol
without_body = sub rule_func_unit_decl ∷ tkn semicolon ∷ []

abbrev IsEmptyBody : Variant → Type 0
IsEmptyBody (variant xs reducer tag) = xs ≡ braces → reducer ≡ none

compounds-IsEmptyBody : All IsEmptyBody (variants rule_compound_stmt)
unfolding variants
compounds-IsEmptyBody = (λ e. refl, (λ e. absurd (cc e), tt))

abbrev IsUnit : Variant → Type 0
IsUnit (variant xs reducer tag) =
    (xs ≡ with_body → (reducer ≡ some func_unit_reducer) × (tag ≡ 1))
    × (xs ≡ without_body → (reducer ≡ some func_unit_reducer) × (tag ≡ 0))

units-IsUnit : All IsUnit (variants rule_func_unit)
unfolding variants
units-IsUnit =
    ((λ e. absurd (cc e), λ e. (refl, refl)), ((λ e. (refl, refl), λ e. absurd (cc e)), tt))

abbrev pub two_mappings : List Symbol
two_mappings = sub rule_implementation_mapping_list ∷ sub rule_implementation_mapping ∷ []

abbrev IsLonger : Variant → Type 0
IsLonger (variant xs reducer tag) =
    xs ≡ two_mappings → (reducer ≡ some implementation_mapping_list_reducer) × (tag ≡ 1)

lists-IsLonger : All IsLonger (variants rule_implementation_mapping_list)
unfolding variants
lists-IsLonger = (λ e. absurd (cc e), (λ e. (refl, refl), tt))

of_variant :
    (P : Variant → Type 0) (r : Rule) (i : ℕ) (v : Variant)
    → All P (variants r)
    → get_elem? (variants r) i ≡ some v
    → P v
of_variant P r i v all e = All-In P v (variants r) all (In-get_elem (variants r) i v e)

module _ (file : Bytes) (atoi : Bytes → ℕ) where
  Bodiless-decl :
      (out : Tok) (toks : List Tok) (tag : ℕ) → Bodiless (reduce_func_unit_decl file out toks tag)
  Bodiless-decl out toks tag = search (Bodiless-bind, Bodiless-leave) depth 12

  Bodiless-decl2 :
      (out : Tok) (toks : List Tok) (tag : ℕ) → Bodiless (reduce_func_unit_decl2 file out toks tag)
  Bodiless-decl2 out toks tag = search (Bodiless-bind, Bodiless-leave) depth 12

  Bodiless-reduced :
      (reducer : Option Reducer) (tag rule last : ℕ) (toks : List Tok) (v : List Symbol)
      → IsDecl (variant v reducer tag)
      → Bodiless (reduced file atoi reducer tag rule last toks)
  unfolding reduced
  Bodiless-reduced reducer tag rule last [] v is = tt
  Bodiless-reduced reducer tag rule last (t ∷ toks) v (inl e) =
      subst (λ r. Bodiless (reduced file atoi r tag rule last (t ∷ toks))) (sym e)
        (Bodiless-decl (record t { id = rule; last = last }) (t ∷ toks) tag)
  Bodiless-reduced reducer tag rule last (t ∷ toks) v (inr e) =
      subst (λ r. Bodiless (reduced file atoi r tag rule last (t ∷ toks))) (sym e)
        (Bodiless-decl2 (record t { id = rule; last = last }) (t ∷ toks) tag)

  -- The braces and the declaration before them, once they are reduced.
  same_unit :
      (tag rule last rule' last' : ℕ) (l : Child (tkn lbrace)) (r : Child (tkn rbrace))
      (s : Child (tkn semicolon)) (decl : Tok)
      → Bodiless (ok decl)
      → (body : Tok) × (reduced file atoi none tag rule' last' (child_toks braces (l, (r, tt)))
          ≡ ok body)
        × (reduced file atoi (some func_unit_reducer) 1 rule last (decl ∷ body ∷ [])
            ≡ reduced file atoi
                (some func_unit_reducer)
                0
                rule
                last
                (decl ∷ child_tok (tkn semicolon) s ∷ []))
  unfolding reduced
  same_unit tag rule last rule' last' l r s decl (f, v, h) = (_, refl, rw (v, h))

  -- Whatever a function is declared by: with the variant of the grammar for a body of two braces, the
  -- braces are reduced to a token with which the variant for a function with a body is reduced to just
  -- what the variant for a function without one, with a semicolon, is.
  pub func_unit-empty_body :
      (xs : List Symbol) (i j k m : ℕ) (declares compounds bodies semicolons : Option Reducer)
      (u v w z : ℕ) (rule last rule' last' rule'' last'' : ℕ) (cs : Children xs)
      (l : Child (tkn lbrace)) (r : Child (tkn rbrace)) (s : Child (tkn semicolon)) (decl : Tok)
      → get_elem? (variants rule_func_unit_decl) i ≡ some (variant xs declares u)
      → get_elem? (variants rule_compound_stmt) j ≡ some (variant braces compounds v)
      → get_elem? (variants rule_func_unit) k ≡ some (variant with_body bodies w)
      → get_elem? (variants rule_func_unit) m ≡ some (variant without_body semicolons z)
      → reduced file atoi declares u rule' last' (child_toks xs cs) ≡ ok decl
      → (body : Tok) × (reduced file atoi compounds v rule'' last'' (child_toks braces (l, (r, tt)))
          ≡ ok body)
        × (reduced file atoi bodies w rule last (decl ∷ body ∷ [])
            ≡ reduced file atoi semicolons z rule last (decl ∷ child_tok (tkn semicolon) s ∷ []))
  func_unit-empty_body xs i j k m declares compounds bodies semicolons u v w z rule last rule' last'
        rule'' last'' cs l r s decl hi hj hk hm run =
      let is = of_variant IsDecl rule_func_unit_decl i (variant xs declares u) decls-IsDecl hi in
      let empty =
        of_variant IsEmptyBody rule_compound_stmt j (variant braces compounds v)
          compounds-IsEmptyBody hj refl in
      let (b, one_tag) =
        (of_variant IsUnit rule_func_unit k (variant with_body bodies w) units-IsUnit hk).0 refl in
      let (d, no_tag) =
        (of_variant IsUnit rule_func_unit m (variant without_body semicolons z) units-IsUnit hm).1
          refl in
      let bodiless =
        subst Bodiless run (Bodiless-reduced declares u rule' last' (child_toks xs cs) xs is) in
      let (body, left, same) = same_unit v rule last rule'' last'' l r s decl bodiless in
      (
        body,
        subst (λ c. reduced file atoi c v rule'' last'' (child_toks braces (l, (r, tt))) ≡ ok body)
            (sym empty) left,
        rw (b, one_tag, d, no_tag) same,
      )

  -- The variant of the grammar for more than one mapping has two tokens, and with these alone the
  -- reducer leaves the array of tokens. What it adds to the list is the mapping of a third token, wherever
  -- one stands behind the two, and never that of the second.
  pub implementation_mapping_list-overreads :
      (i tag rule last : ℕ) (reducer : Option Reducer) (cs : Children two_mappings) (third : Tok)
      (mapping : Bytes × Bytes)
      → get_elem? (variants rule_implementation_mapping_list) i
        ≡ some (variant two_mappings reducer tag)
      → third.value ≡ one a_mapping mapping
      → (reduced file atoi reducer tag rule last (child_toks two_mappings cs) ≡ confused)
        × ((out : Tok) × (reduced file atoi reducer tag rule last
                (child_toks two_mappings cs ++ (third ∷ []))
              ≡ ok out)
            × (out.value ≡ many a_mapping (cs.0.4 ++ (mapping ∷ []))))
  unfolding reduced
  implementation_mapping_list-overreads i tag rule last reducer cs third mapping h e =
      let (named, one_tag) =
        of_variant IsLonger rule_implementation_mapping_list i (variant two_mappings reducer tag)
          lists-IsLonger h refl in
      let list = child_tok (sub rule_implementation_mapping_list) cs.0 in
      let out : Tok = record list {
        id = rule;
        last = last;
        value = many a_mapping (cs.0.4 ++ (mapping ∷ []));
      } in
      (rw (named, one_tag) refl, (out, rw (named, one_tag, e) refl, refl))
