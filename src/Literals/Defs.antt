-- ===== src/Literals/Defs.antt =====
-- src/grammar_rules.c: what the reducers `primary_expr_string` and `primary_expr_number` make of the
-- text of a token, which is the list of its bytes from `first` to `last`.
use low.Prelude.{
  ℕ, zero, suc, ◌+◌, ◌-◌, ◌*◌, [], ◌∷◌, ◌++◌, ◌==◌, if◌then◌else◌, Bytes, length, drop, replicate,
  ltb,
}
use low.Lexer.Defs.{is_number_dec}

-- `aborts`: an unknown escape sequence. `overrun`: a read behind the token.
pub data Literal {ℓ} (A : Type ℓ) : Type ℓ where
  literal : A → Literal A
  aborts : ℕ → Literal A
  overrun : Literal A

infixl 5 ◌>>=◌
abbrev pub ◌>>=◌ {ℓ κ} : {A : Type ℓ} {B : Type κ} → Literal A → (A → Literal B) → Literal B
literal a >>= f = f a
aborts c >>= f = aborts c
overrun >>= f = overrun

abbrev pub quote : ℕ
quote = 34

abbrev pub backslash : ℕ
backslash = 92

abbrev pub apostrophe : ℕ
apostrophe = 39

abbrev pub letter_x : ℕ
letter_x = 120

-- The `switch` on the byte behind a backslash: `"`, `t`, `n` and `r`.
unfoldable pub unescape : ℕ → Literal ℕ
unescape c =
    if c == quote
    then literal quote
    else (if c == 116
        then literal 9
        else (if c == 110 then literal 10 else (if c == 114 then literal 13 else aborts c)))

-- The loop from `data + i` on, with `length - i`; `i` may pass the length by one.
unfoldable pub escape_loop : Bytes → ℕ → Literal Bytes
unfolding unescape
escape_loop bytes zero = literal []
escape_loop [] (suc n) = overrun
escape_loop (c ∷ []) (suc n) =
    let rest = escape_loop [] n >>= λ text. literal (c ∷ text) in
    if c == backslash then overrun else rest
escape_loop (c ∷ d ∷ bytes) (suc n) =
    let escaped = unescape d >>= λ b. escape_loop bytes (n - 1) >>= λ text. literal (b ∷ text) in
    let plain = escape_loop (d ∷ bytes) n >>= λ text. literal (c ∷ text) in
    if c == backslash then escaped else plain

-- The bytes stored in `string_literal`, without the 0 behind them. Below two bytes `length` wraps
-- around, and the first byte that is read is behind the token.
unfoldable pub primary_expr_string : Bytes → Literal Bytes
unfolding escape_loop
primary_expr_string text =
    let read = escape_loop (drop 1 text) (length text - 2) in
    if ltb (length text) 2 then overrun else read

pub record RadixPrefix : Type 0 where
  pub radix : ℕ
  pub prefix : ℕ

-- `radix == 0` stands for the prefix `0x`.
abbrev pub radix_of : ℕ → ℕ
radix_of radix = if radix == 0 then 16 else radix

abbrev pub decimal : RadixPrefix
decimal = record { radix = 10; prefix = 0 }

-- At the byte behind the digits: the value that `atoi` reads from them, and their number.
abbrev pub at_letter : Bytes → ℕ → ℕ → RadixPrefix
at_letter [] value digits = decimal
at_letter (e ∷ _) value digits =
    if e == letter_x then record { radix = radix_of value; prefix = digits + 1 } else decimal

abbrev pub behind_digit : Bytes → ℕ → RadixPrefix
behind_digit [] first = decimal
behind_digit (d ∷ r) first =
    if is_number_dec d then at_letter r (first * 10 + (d - 48)) 2 else at_letter (d ∷ r) first 1

unfoldable pub determine_radix : Bytes → Literal RadixPrefix
determine_radix [] = overrun
determine_radix (c ∷ r) = literal (if is_number_dec c then behind_digit r (c - 48) else decimal)

-- The bytes that the loop of `extract_literal` keeps.
unfoldable pub without_apostrophes : Bytes → Bytes
without_apostrophes [] = []
without_apostrophes (c ∷ r) =
    let rest = without_apostrophes r in if c == apostrophe then rest else c ∷ rest

-- The region that is returned: `calloc` makes it as long as the text, of zeros.
unfoldable pub extract_literal : Bytes → Bytes
unfolding without_apostrophes
extract_literal str =
    without_apostrophes str ++ replicate (length str - length (without_apostrophes str)) 0

-- The radix and the region of the text behind the prefix.
unfoldable pub primary_expr_number : Bytes → Literal (ℕ × Bytes)
unfolding determine_radix extract_literal
primary_expr_number text =
    determine_radix text >>= λ pfx. literal (pfx.radix, extract_literal (drop pfx.prefix text))
