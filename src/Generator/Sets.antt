-- ===== src/Generator/Sets.antt =====
-- src/parser_generator.c: `struct token_set` and its operations.
use low.Prelude.{
  ℕ, zero, suc, ◌/◌, ◌%◌, ◌^◌, ◌<◌, ◌≡◌, ◌≢◌, ◌⊎◌, inl, inr, ◌↔◌, arith, refl, ap, ◌∙◌, sym, List,
  [], ◌∷◌, length, Bool, true, false, ◌==◌, ◌&&◌, Bool-cases, ltb, ltb→lt, ◌≤◌, ==_iff, &&-true,
}
use low.Generator.Words.{
  bit, bitwise_or, bit-bitwise_or, bit_zero, bit-power, bit-power_other, either, either_iff,
  bit_bound,
}

-- `bits[i]`: a set of tokens is the list of its words, (MAX_TOKENS + 31) / 32 = 3 of them.
abbrev pub word : ℕ → List ℕ → ℕ
word i [] = 0
word zero (w ∷ bits) = w
word (suc i) (w ∷ bits) = word i bits

-- The words after `bits[i] |= mask`. The number of a token is below MAX_TOKENS, so there is one.
unfoldable pub or_word : ℕ → ℕ → List ℕ → List ℕ
or_word i mask [] = []
or_word zero mask (w ∷ bits) = bitwise_or 32 w mask ∷ bits
or_word (suc i) mask (w ∷ bits) = w ∷ or_word i mask bits

abbrev pub token_set_init : List ℕ
token_set_init = 0 ∷ 0 ∷ 0 ∷ []

abbrev pub token_set_insert : List ℕ → ℕ → List ℕ
token_set_insert bits token = or_word (token / 32) (2 ^ (token % 32)) bits

unfoldable pub token_set_merge : List ℕ → List ℕ → List ℕ
token_set_merge [] other = []
token_set_merge (w ∷ bits) [] = w ∷ bits
token_set_merge (w ∷ bits) (v ∷ other) = bitwise_or 32 w v ∷ token_set_merge bits other

unfoldable pub equal_token_sets : List ℕ → List ℕ → Bool
equal_token_sets [] [] = true
equal_token_sets (w ∷ bits) (v ∷ other) = (w == v) && equal_token_sets bits other
equal_token_sets _ _ = false

-- The bit of a token is set.
abbrev pub Has : List ℕ → ℕ → Type 0
Has bits token = bit (token % 32) (word (token / 32) bits) ≡ 1

pub no_token : (token : ℕ) (P : Type 0) → Has token_set_init token → P
no_token token P h = absurd (omega (arith, h, bit_word (token / 32)))
  where
    zeros : (i : ℕ) → word i token_set_init ≡ 0
    zeros zero = refl
    zeros (suc zero) = refl
    zeros (suc (suc zero)) = refl
    zeros (suc (suc (suc i))) = refl

    bit_word : (i : ℕ) → bit (token % 32) (word i token_set_init) ≡ 0
    bit_word i = ap (bit (token % 32)) (zeros i) ∙ bit_zero (token % 32)

pub length-or_word : (i mask : ℕ) (bits : List ℕ) → length (or_word i mask bits) ≡ length bits
unfolding or_word
length-or_word i mask [] = refl
length-or_word zero mask (w ∷ bits) = refl
length-or_word (suc i) mask (w ∷ bits) = ap suc (length-or_word i mask bits)

word-or_word :
    (i mask : ℕ) (bits : List ℕ)
    → i < length bits
    → word i (or_word i mask bits) ≡ bitwise_or 32 (word i bits) mask
unfolding or_word
word-or_word i mask [] h = absurd (omega arith)
word-or_word zero mask (w ∷ bits) h = refl
word-or_word (suc i) mask (w ∷ bits) h = word-or_word i mask bits (omega arith)

word-or_word_other :
    (i k mask : ℕ) (bits : List ℕ) → k ≢ i → word k (or_word i mask bits) ≡ word k bits
unfolding or_word
word-or_word_other i k mask [] h = refl
word-or_word_other zero zero mask (w ∷ bits) h = absurd (h refl)
word-or_word_other zero (suc k) mask (w ∷ bits) h = refl
word-or_word_other (suc i) zero mask (w ∷ bits) h = refl
word-or_word_other (suc i) (suc k) mask (w ∷ bits) h =
    word-or_word_other i k mask bits (λ e. h (ap suc e))

either_zero : (a b : ℕ) → a < 2 → b ≡ 0 → either a b ≡ a
either_zero a b h e = ground arith

either_one : (a b : ℕ) → b ≡ 1 → either a b ≡ 1
either_one a b e = ground arith

-- The bits after an insertion: the case of the word and bit of the token, of another bit of its
-- word, and of another word.
bit-insert_same :
    (bits : List ℕ) (i k : ℕ)
    → i < length bits
    → k < 32
    → bit k (word i (or_word i (2 ^ k) bits)) ≡ 1
bit-insert_same bits i k h l =
    ap (bit k) (word-or_word i (2 ^ k) bits h)
    ∙ bit-bitwise_or 32 k (word i bits) (2 ^ k) l
    ∙ either_one (bit k (word i bits)) _ (bit-power k)

bit-insert_other :
    (bits : List ℕ) (i k j : ℕ)
    → i < length bits
    → j < 32
    → j ≢ k
    → bit j (word i (or_word i (2 ^ k) bits)) ≡ bit j (word i bits)
bit-insert_other bits i k j h l n =
    ap (bit j) (word-or_word i (2 ^ k) bits h)
    ∙ bit-bitwise_or 32 j (word i bits) (2 ^ k) l
    ∙ either_zero (bit j (word i bits)) _ (bit_bound j (word i bits)) (bit-power_other j k n)

token_cases :
    (token t : ℕ)
    → (token ≡ t) ⊎ (((t / 32 ≡ token / 32) × (t % 32 ≢ token % 32)) ⊎ (t / 32 ≢ token / 32))
token_cases token t = ground arith

-- A set with a token inserted has the token.
pub token_set_insert-Has_new :
    (bits : List ℕ) (token : ℕ)
    → length bits ≡ 3
    → token < 96
    → Has (token_set_insert bits token) token
token_set_insert-Has_new bits token size h =
    bit-insert_same bits (token / 32) (token % 32) (omega arith) (omega arith)

-- It has another token if it had it.
pub bit-token_set_insert :
    (bits : List ℕ) (token t : ℕ)
    → length bits ≡ 3
    → token < 96
    → token ≢ t
    → bit (t % 32) (word (t / 32) (token_set_insert bits token)) ≡ bit (t % 32) (word (t / 32) bits)
bit-token_set_insert bits token t size h n = elim (token_cases token t) [
  | inl e ↦ absurd (n e)
  | inr (inl (e, k)) ↦
      ap (λ i. bit (t % 32) (word i (token_set_insert bits token))) e
      ∙ bit-insert_other bits (token / 32) (token % 32) (t % 32) (omega arith) (omega arith) k
      ∙ ap (λ i. bit (t % 32) (word i bits)) (sym e)
  | inr (inr k) ↦ ap (bit (t % 32)) (word-or_word_other (token / 32) (t / 32) _ bits k)
]

pub token_set_insert-Has :
    (bits : List ℕ) (token t : ℕ)
    → length bits ≡ 3
    → token < 96
    → Has (token_set_insert bits token) t ↔ (Has bits t ⊎ (token ≡ t))
token_set_insert-Has bits token t size h = elim (Bool-cases (token == t)) [
  | inl e ↦
      let eq : token ≡ t = (==_iff token t).0 e in
      let new : Has (token_set_insert bits token) t =
        rw (sym eq) (token_set_insert-Has_new bits token size h) in
      (λ _. inr eq, λ _. new)
  | inr e ↦
      let n : token ≢ t = ground (arith, e) in
      let same = bit-token_set_insert bits token t size h n in
      (λ a. inl (sym same ∙ a), ground (arith, n, same))
]

pub length-token_set_merge :
    (bits other : List ℕ) → length (token_set_merge bits other) ≡ length bits
unfolding token_set_merge
length-token_set_merge [] other = refl
length-token_set_merge (w ∷ bits) [] = refl
length-token_set_merge (w ∷ bits) (v ∷ other) = ap suc (length-token_set_merge bits other)

word-token_set_merge :
    (i : ℕ) (bits other : List ℕ)
    → length bits ≡ length other
    → i < length bits
    → word i (token_set_merge bits other) ≡ bitwise_or 32 (word i bits) (word i other)
unfolding token_set_merge
word-token_set_merge i [] other e h = absurd (omega arith)
word-token_set_merge i (w ∷ bits) [] e h = absurd (omega arith)
word-token_set_merge zero (w ∷ bits) (v ∷ other) e h = refl
word-token_set_merge (suc i) (w ∷ bits) (v ∷ other) e h =
    word-token_set_merge i bits other (omega arith) (omega arith)

word_beyond : (i : ℕ) (bits : List ℕ) → length bits ≤ i → word i bits ≡ 0
word_beyond i [] h = refl
word_beyond zero (w ∷ bits) h = absurd (omega arith)
word_beyond (suc i) (w ∷ bits) h = word_beyond i bits (omega arith)

bit-token_set_merge :
    (a b : List ℕ) (t : ℕ)
    → length a ≡ length b
    → bit (t % 32) (word (t / 32) (token_set_merge a b))
      ≡ either (bit (t % 32) (word (t / 32) a)) (bit (t % 32) (word (t / 32) b))
bit-token_set_merge a b t e = elim (Bool-cases (ltb (t / 32) (length a))) [
  | inl h ↦
      ap (bit (t % 32)) (word-token_set_merge (t / 32) a b e (ltb→lt _ _ h))
      ∙ bit-bitwise_or 32 (t % 32) (word (t / 32) a) (word (t / 32) b) (omega arith)
  | inr h ↦
      let beyond : length a ≤ t / 32 = ground (arith, h) in
      let zero_m =
        word_beyond (t / 32) (token_set_merge a b) (omega (arith, length-token_set_merge a b)) in
      let zero_a = word_beyond (t / 32) a beyond in
      let zero_b = word_beyond (t / 32) b (omega arith) in
      rw (zero_m, zero_a, zero_b, bit_zero (t % 32)) refl
]

-- A merged set has what one of the two has.
pub token_set_merge-Has :
    (a b : List ℕ) (t : ℕ) → length a ≡ length b → Has (token_set_merge a b) t ↔ (Has a t ⊎ Has b t)
token_set_merge-Has a b t e = rw (bit-token_set_merge a b t e) (either_iff _ _)

pub equal_token_sets_sound : (a b : List ℕ) → equal_token_sets a b ≡ true → a ≡ b
unfolding equal_token_sets
equal_token_sets_sound [] [] h = refl
equal_token_sets_sound [] (v ∷ other) h = ground arith
equal_token_sets_sound (w ∷ bits) [] h = ground arith
equal_token_sets_sound (w ∷ bits) (v ∷ other) h =
    let (e, rest) = &&-true (w == v) (equal_token_sets bits other) h in
    let tail : w ∷ bits ≡ w ∷ other = ap (λ xs. w ∷ xs) (equal_token_sets_sound bits other rest) in
    tail ∙ ap (λ x. x ∷ other) ((==_iff w v).0 e)
