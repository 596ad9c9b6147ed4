-- ===== src/Generator/Words.antt =====
-- src/parser_generator.c: the operators of C on an `unsigned` of 32 bits that token sets use.
use low.Prelude.{
  ℕ, zero, suc, ◌+◌, ◌*◌, ◌/◌, ◌%◌, ◌^◌, ◌<◌, ◌≡◌, ◌≢◌, ◌⊎◌, ◌↔◌, arith, refl, ap, ◌∙◌,
  if◌then◌else◌, ◌==◌,
}

-- Bit i of a word, 0 or 1.
abbrev pub bit : ℕ → ℕ → ℕ
bit zero w = w % 2
bit (suc i) w = bit i (w / 2)

-- `a | b` on n bits.
abbrev pub either : ℕ → ℕ → ℕ
either a b = if a == 1 then 1 else b

unfoldable pub bitwise_or : ℕ → ℕ → ℕ → ℕ
bitwise_or zero a b = 0
bitwise_or (suc n) a b = either (a % 2) (b % 2) + 2 * bitwise_or n (a / 2) (b / 2)

either_bound : (a b : ℕ) → b < 2 → either a b < 2
either_bound a b h = ground arith

low_bit : (x y w : ℕ) → x < 2 → w ≡ x + 2 * y → w % 2 ≡ x
low_bit x y w h e = omega arith

high_bits : (x y w : ℕ) → x < 2 → w ≡ x + 2 * y → w / 2 ≡ y
high_bits x y w h e = omega arith

mod_bound : (b : ℕ) → b % 2 < 2
mod_bound b = omega arith

pub bit-bitwise_or : (n i a b : ℕ) → i < n → bit i (bitwise_or n a b) ≡ either (bit i a) (bit i b)
unfolding bitwise_or
bit-bitwise_or zero i a b h = absurd (omega arith)
bit-bitwise_or (suc n) zero a b h =
    low_bit (either (a % 2) (b % 2)) (bitwise_or n (a / 2) (b / 2)) _
      (either_bound (a % 2) (b % 2) (mod_bound b)) refl
bit-bitwise_or (suc n) (suc i) a b h =
    ap (bit i) (
      high_bits (either (a % 2) (b % 2)) (bitwise_or n (a / 2) (b / 2)) _
        (either_bound (a % 2) (b % 2) (mod_bound b)) refl)
    ∙ bit-bitwise_or n i (a / 2) (b / 2) (omega arith)

pub bit_bound : (i w : ℕ) → bit i w < 2
bit_bound zero w = mod_bound w
bit_bound (suc i) w = bit_bound i (w / 2)

pub bit_zero : (i : ℕ) → bit i 0 ≡ 0
bit_zero zero = refl
bit_zero (suc i) = bit_zero i

power_suc : (k : ℕ) → 2 ^ suc k ≡ 0 + 2 * 2 ^ k
power_suc k = omega arith

pub bit-power : (k : ℕ) → bit k (2 ^ k) ≡ 1
bit-power zero = refl
bit-power (suc k) = ap (bit k) (high_bits 0 (2 ^ k) _ (omega arith) (power_suc k)) ∙ bit-power k

pub bit-power_other : (i k : ℕ) → i ≢ k → bit i (2 ^ k) ≡ 0
bit-power_other zero zero h = absurd (h refl)
bit-power_other zero (suc k) h = low_bit 0 (2 ^ k) _ (omega arith) (power_suc k)
bit-power_other (suc i) zero h = bit_zero i
bit-power_other (suc i) (suc k) h =
    ap (bit i) (high_bits 0 (2 ^ k) _ (omega arith) (power_suc k))
    ∙ bit-power_other i k (λ e. h (ap suc e))

-- A bit of `a | b` is set if it is set in one of them.
pub either_iff : (a b : ℕ) → (either a b ≡ 1) ↔ ((a ≡ 1) ⊎ (b ≡ 1))
either_iff a b = ground arith
