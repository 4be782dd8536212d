-- ===== src/Pow2/IsPow2.antt =====
-- `is_pow2` of dsa/is_pow2.h decides whether a `size_t` is a power of two.
use mathlib.Core.WellFounded
use native.Mathlib.Nat.{pow-suc, one-le-pow, mod_self}
use dsa_c.Prelude.{ℕ, suc, ◌+◌, ◌-◌, ◌/◌, ◌%◌, ◌^◌, ◌<◌, bit_and, ◌≡◌, ap, ◌≢◌, ◌↔◌, true, arith}
use native.Mathlib.Decide.{ℕ_discrete}
use dsa_c.Prelude.Bits.{bit_and-halves, bit_and_self, bit_and_mask}
use dsa_c.Prelude.Order.{lt_wf}
use dsa_c.Pow2.{is_pow2}

abbrev pub PowerOfTwo : ℕ → Type 0
PowerOfTwo n = (k : ℕ) × (n ≡ 2 ^ k)

Clears : ℕ → Type 0
Clears n = 0 < n → bit_and n (n - 1) ≡ 0 → PowerOfTwo n

step : (n : ℕ) → ((m : ℕ) → m < n → Clears m) → Clears n
unfolding Clears
step n ih pos e = elim (ℕ_discrete (n % 2) 0) [
  | yes even ↦
      let (k, p) = ih (n / 2) (omega arith) (omega arith) (
        omega (
          arith,
          bit_and-halves n (n - 1),
          ap (bit_and (n / 2)) (pred_half n (omega arith) even),
        )) in
      (suc k, omega (arith, pow-suc 2 k))
  | no odd ↦ (
    0,
    omega (
      arith,
      bit_and-halves n (n - 1),
      ap (bit_and (n / 2)) (same_half n odd),
      bit_and_self (n / 2),
    ),
  )
]
  where
    pred_half : (m : ℕ) → 0 < m → m % 2 ≡ 0 → (m - 1) / 2 ≡ m / 2 - 1
    pred_half m h h' = omega arith

    same_half : (m : ℕ) → m % 2 ≢ 0 → (m - 1) / 2 ≡ m / 2
    same_half m h = omega arith

clears : (n : ℕ) → Clears n
clears n = WellFounded.induction lt_wf {C = Clears} n step

pow-clears : (k : ℕ) → bit_and (2 ^ k) (2 ^ k - 1) ≡ 0
pow-clears k = omega (arith, bit_and_mask k (2 ^ k), mod_self (2 ^ k))

-- For a number of 64 bits, is_pow2 holds of it just when it is a power of two.
pub is_pow2_iff : (x : ℕ) → x < 2 ^ 64 → (is_pow2 x ≡ true) ↔ PowerOfTwo x
unfolding is_pow2 Clears
is_pow2_iff x h = (
  λ e. clears x (ground arith) (ground (arith, ap (bit_and x) (sub_one x (ground arith) h))),
  λ (k, e).
      let pos : 0 < x = omega (arith, one-le-pow k 2) in
      ground (arith, ap (bit_and x) (sub_one x pos h), ap (λ n. bit_and n (n - 1)) e, pow-clears k),
)
  where
    sub_one : (n : ℕ) → 0 < n → n < 2 ^ 64 → (n + 2 ^ 64 - 1) % 2 ^ 64 ≡ n - 1
    sub_one n p q = omega arith
