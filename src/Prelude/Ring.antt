-- ===== src/Prelude/Ring.antt =====
-- Indices that go round at a power of two below 2^32: the mask of dsa/fqueue.h and dsa/fhashtable.h
-- is the remainder by the capacity.
use native.Mathlib.Nat.{
  pow-le-pow_right, mod-eq_of_lt, mod-eq-sub-mod, mod-add-mod, mul-add-mod_self_right,
}
use native.Mathlib.Decide.{dec_lt}
use Prim.Native.Nat.{ℕ, zero, suc, ◌+◌, ◌-◌, ◌*◌, ◌%◌, ◌^◌, ◌≤◌, ◌<◌, bit_and}
use mathlib.Core.Path.{◌≡◌, ap, sym, ◌∙◌}
use mathlib.Core.Logic.{◌≢◌, ◌⊎◌, inl, inr}
use native.Mathlib.Omega.{arith}
use dsa_c.Prelude.Bits.{bit_and_mask, two-pow-add, two-pow-pos}

-- a product with `p - 1`, for which the arithmetic tactics want a bound
pub pred-mul : (p m : ℕ) → 0 < p → (p - 1) * m + m ≡ p * m
pred-mul zero m h = absurd (omega arith)
pred-mul (suc o) m h = omega (arith, ap (λ (n : ℕ). n * m) (back o))
  where
    back : (n : ℕ) → suc n - 1 ≡ n
    back n = omega arith

-- less than twice round
pub mod-cases : (x c : ℕ) → x < c + c → ((x < c) × (x % c ≡ x)) ⊎ ((c ≤ x) × (x % c ≡ x - c))
mod-cases x c h = elim (dec_lt x c) [
  | yes p ↦ inl (p, mod-eq_of_lt p)
  | no p ↦
      let rest : x - c < c = omega arith in
      inr (omega arith, mod-eq-sub-mod (omega arith) ∙ mod-eq_of_lt rest)
]

module _ (capacity k : ℕ) (power : capacity ≡ 2 ^ k) (small : capacity ≤ 2 ^ 31) where
  -- `x & (capacity - 1)`
  pub mask-mod : (x : ℕ) → bit_and x ((capacity + 2 ^ 32 - 1) % 2 ^ 32) ≡ x % capacity
  mask-mod x =
      let pos : 0 < capacity = omega (arith, two-pow-pos k) in
      let mask : (capacity + 2 ^ 32 - 1) % 2 ^ 32 ≡ 2 ^ k - 1 = omega arith in
      ap (bit_and x) mask ∙ bit_and_mask k x ∙ ap (λ c. x % c) (sym power)

  exponent-lt : k < 32
  exponent-lt = elim (dec_lt k 32) [
    | yes p ↦ p
    | no p ↦
        absurd
          (omega (arith, pow-le-pow_right {n = 2} (omega arith) {i = 32} {j = k} (omega arith)))
  ]

  -- an index below 0 counts from the end
  pub wrap-sub-mod : (d : ℕ) → 0 < d → d ≤ capacity → (2 ^ 32 - d) % capacity ≡ capacity - d
  wrap-sub-mod d h h' =
      let n : ℕ = 2 ^ (32 - k) in
      let whole : n * capacity ≡ 2 ^ 32 =
        ap (λ c. n * c) power
        ∙ sym (two-pow-add (32 - k) k)
        ∙ ap (λ t. 2 ^ t) {y = 32} (omega (arith, exponent-lt)) in
      let split : 2 ^ 32 - d ≡ (n - 1) * capacity + (capacity - d) =
        omega (arith, whole, pred-mul n capacity (two-pow-pos (32 - k))) in
      ap (λ t. t % capacity) split
      ∙ mul-add-mod_self_right (n - 1) capacity (capacity - d)
      ∙ mod-eq_of_lt (omega arith)

  -- the index before 0 is the last
  pub wrap-mod : (2 ^ 32 - 1) % capacity ≡ capacity - 1
  wrap-mod = wrap-sub-mod 1 (omega arith) (omega (arith, two-pow-pos k))

module _ (c b : ℕ) (inside : b < c) where
  -- fewer than `c` steps apart, two indices differ
  pub add-mod-ne : (j n : ℕ) → j < n → n < c → (b + j) % c ≢ (b + n) % c
  add-mod-ne j n p q =
      omega (arith, mod-cases (b + j) c (omega arith), mod-cases (b + n) c (omega arith))

  pub add-mod-suc : (j : ℕ) → ((b + 1) % c + j) % c ≡ (b + suc j) % c
  add-mod-suc j = mod-add-mod (b + 1) c j ∙ ap (λ t. t % c) {y = b + suc j} (omega arith)
