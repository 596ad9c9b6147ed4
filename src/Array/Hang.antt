-- ===== src/Array/Hang.antt =====
-- The capacities for which the loop of `array_grow` of src/array.c does not end.
use low.Prelude.{
  ℕ, zero, suc, ◌+◌, ◌*◌, ◌%◌, ◌^◌, ◌≤◌, ◌<◌, true, ltb, ◌==◌, if◌then◌else◌, u32_mod, ◌≡◌, refl,
  sym, ap, none, lt→ltb, arith,
}
use native.Mathlib.Nat.{pow-suc, pow-le-pow_right}
use low.Array.Defs.{ok, hangs, ◌>>=◌, Array, array_init, array_grow, double_until}

double_until-zero : (fuel req : ℕ) → 0 < req → double_until fuel 0 req ≡ hangs
unfolding double_until
double_until-zero zero req h = rw (lt→ltb 0 req h)
double_until-zero (suc fuel) req h = rw (lt→ltb 0 req h) (double_until-zero fuel req h)

double_until-passes :
    (fuel capacity req c : ℕ)
    → capacity < req
    → (capacity * 2) % u32_mod ≡ c
    → double_until fuel c req ≡ hangs
    → double_until (suc fuel) capacity req ≡ hangs
unfolding double_until
double_until-passes fuel capacity req c h wrap stuck = rw (lt→ltb capacity req h, wrap) stuck

-- From 2 ^ k, the doublings left lead past 2 ^ 31 to 0.
double_until-hangs :
    (fuel k req : ℕ) → fuel + k ≡ 31 → 2 ^ 31 < req → double_until (suc fuel) (2 ^ k) req ≡ hangs
double_until-hangs zero k req e h =
    let top : 2 ^ k ≡ 2 ^ 31 = ap (λ i. 2 ^ i) {y = 31} (omega arith) in
    double_until-passes 0 (2 ^ k) req 0 (omega arith) (omega arith)
      (double_until-zero 0 req (omega arith))
double_until-hangs (suc fuel) k req e h =
    let exponent : k ≤ 30 = omega arith in
    let low : 2 ^ k ≤ 2 ^ 30 = pow-le-pow_right {n = 2} (omega arith) exponent in
    let next : 2 ^ k * 2 ≡ 2 ^ suc k = sym (pow-suc 2 k) in
    double_until-passes (suc fuel) (2 ^ k) req (2 ^ suc k) (omega arith) (omega arith)
      (double_until-hangs fuel (suc k) req (omega arith) h)

array_grow-stuck {ℓ} :
    {A : Type ℓ} (a : Array A) (n : ℕ)
    → (a.size + n) % u32_mod ≡ a.size + n
    → ltb a.capacity (a.size + n) ≡ true
    → double_until 32 (if a.capacity == 0 then 1 else a.capacity) (a.size + n) ≡ hangs
    → array_grow a n ≡ hangs
unfolding array_grow
array_grow-stuck a n wrap e found = rw (wrap, e, found)

array_init-ok {ℓ} :
    {A : Type ℓ} (item_size : ℕ)
    → 0 < item_size
    → array_init {A = A} item_size
      ≡ ok (record { size = 0; capacity = 0; item_size = item_size; items = none })
unfolding array_init
array_init-ok item_size h = rw (lt→ltb 0 item_size h)

-- An array that never held an item is asked for room for more than 2 ^ 31 items: the capacity
-- doubles to 2 ^ 31, wraps to 0 and stays there, so that the loop never ends.
pub array_grow-hangs {ℓ} :
    (A : Type ℓ) (item_size additional : ℕ)
    → 0 < item_size
    → 2 ^ 31 < additional
    → additional < u32_mod
    → (array_init {A = A} item_size >>= λ a. array_grow a additional) ≡ hangs
array_grow-hangs A item_size additional h h' h'' =
    let same : 0 + additional ≡ additional = omega arith in
    rw (array_init-ok {A = A} item_size h) (
      array_grow-stuck (record { size = 0; capacity = 0; item_size = item_size; items = none })
        additional (omega arith) (rw same (lt→ltb 0 additional (omega arith)))
        (rw same (double_until-hangs 31 0 additional refl h')))
