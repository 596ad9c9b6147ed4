-- ===== src/Literals/Strings.antt =====
-- String literals of src/grammar_rules.c.
use low.Prelude.{
  ltb, false, ℕ, suc, ◌-◌, Bool, true, false, [], ◌∷◌, ◌++◌, ◌==◌, if◌then◌else◌, Bytes, length,
  ◌≡◌, refl, ap, ◌∙◌, arith, inl, inr, ◌⊎◌, Bool-cases, length-append,
}
use low.Literals.Defs.{literal, ◌>>=◌, quote, backslash, unescape, escape_loop, primary_expr_string}

-- How a byte is written in a string literal.
unfoldable pub escape : ℕ → Bytes
escape c =
    if c == quote
    then backslash ∷ quote ∷ []
    else (if c == 9
        then backslash ∷ 116 ∷ []
        else (if c == 10
            then backslash ∷ 110 ∷ []
            else (if c == 13 then backslash ∷ 114 ∷ [] else c ∷ [])))

unfoldable pub escape_all : Bytes → Bytes
escape_all [] = []
escape_all (c ∷ text) = escape c ++ escape_all text

unfoldable pub no_backslash : Bytes → Bool
no_backslash [] = true
no_backslash (c ∷ text) = if c == backslash then false else no_backslash text

-- A byte is two bytes with a backslash that stand for it, or itself.
escape-cases :
    (c : ℕ)
    → ((d : ℕ) × (escape c ≡ backslash ∷ d ∷ []) × (unescape d ≡ literal c)) ⊎ (escape c ≡ c ∷ [])
unfolding escape unescape
escape-cases c = elim (Bool-cases (c == quote)) [
  | inl e ↦ let same : c ≡ quote = ground arith in inl (quote, rw e, rw same)
  | inr e ↦ elim (Bool-cases (c == 9)) [
    | inl e' ↦ let same : c ≡ 9 = ground arith in inl (116, rw (e, e'), rw same)
    | inr e' ↦ elim (Bool-cases (c == 10)) [
      | inl e'' ↦ let same : c ≡ 10 = ground arith in inl (110, rw (e, e', e''), rw same)
      | inr e'' ↦ elim (Bool-cases (c == 13)) [
        | inl e3 ↦ let same : c ≡ 13 = ground arith in inl (114, rw (e, e', e'', e3), rw same)
        | inr e3 ↦ inr (rw (e, e', e'', e3))
      ]
    ]
  ]
]

escape_loop-none : (n : ℕ) (bytes : Bytes) → n ≡ 0 → escape_loop bytes n ≡ literal []
unfolding escape_loop
escape_loop-none n bytes e = rw e

escape_loop-two :
    (d c n : ℕ) (bytes : Bytes)
    → unescape d ≡ literal c
    → escape_loop (backslash ∷ d ∷ bytes) (suc n)
      ≡ (escape_loop bytes (n - 1) >>= λ text. literal (c ∷ text))
unfolding escape_loop
escape_loop-two d c n bytes h = rw h

escape_loop-one :
    (c n : ℕ) (bytes : Bytes)
    → (c == backslash) ≡ false
    → escape_loop (c ∷ bytes) (suc n) ≡ (escape_loop bytes n >>= λ text. literal (c ∷ text))
unfolding escape_loop
escape_loop-one c n [] h = rw h
escape_loop-one c n (d ∷ bytes) h = rw h

escape_loop-all :
    (text bytes : Bytes) (n : ℕ)
    → no_backslash text ≡ true
    → n ≡ length (escape_all text)
    → escape_loop (escape_all text ++ bytes) n ≡ literal text
unfolding escape_all no_backslash
escape_loop-all [] bytes n h e = escape_loop-none n bytes e
escape_loop-all (c ∷ text) bytes n h e = elim (Bool-cases (c == backslash)) [
  | inl f ↦ absurd (ground arith)
  | inr f ↦
      let clean : no_backslash text ≡ true = ground arith in
      elim (escape-cases c) [
        | inl two ↦
            let (d, written, meant) = two in
            let len : length (escape c ++ escape_all text) ≡ suc (suc (length (escape_all text))) =
              rw written in
            let end : n ≡ suc (suc (length (escape_all text))) = e ∙ len in
            rw (end, written)
              (escape_loop-two d c (suc (length (escape_all text))) (escape_all text ++ bytes) meant
                ∙ ap (λ o. o >>= λ r. literal (c ∷ r))
                    (escape_loop-all text bytes (suc (length (escape_all text)) - 1) clean
                      (omega arith)))
        | inr one ↦
            let len : length (escape c ++ escape_all text) ≡ suc (length (escape_all text)) =
              rw one in
            let end : n ≡ suc (length (escape_all text)) = e ∙ len in
            rw (end, one)
              (escape_loop-one c (length (escape_all text)) (escape_all text ++ bytes) f
                ∙ ap (λ o. o >>= λ r. literal (c ∷ r))
                    (escape_loop-all text bytes (length (escape_all text)) clean refl))
      ]
]

-- A text without a backslash is what the reducer makes of its string literal, in which quotes,
-- tabulators, line feeds and carriage returns are written as escape sequences.
pub primary_expr_string-escape_all :
    (text : Bytes)
    → no_backslash text ≡ true
    → primary_expr_string (quote ∷ (escape_all text ++ (quote ∷ []))) ≡ literal text
unfolding primary_expr_string
primary_expr_string-escape_all text h =
    let long : ltb (suc (length (escape_all text ++ (quote ∷ [])))) 2 ≡ false =
      ground (arith, length-append (escape_all text) (quote ∷ [])) in
    rw (long, primary_expr_string)
      (escape_loop-all text (quote ∷ []) (suc (length (escape_all text ++ (quote ∷ []))) - 2) h
        (omega (arith, length-append (escape_all text) (quote ∷ []))))
