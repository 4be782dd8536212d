-- ===== src/Pow2/RoundUp.antt =====
-- `round_up_pow2_32` of dsa/round_up_pow2.h gives the least power of two that is not below.
use native.Mathlib.Nat.{pow-suc, div-eq_of_lt, div-eq_of_lt-le, pow-le-pow_right}
use native.Mathlib.Decide.{ℕ_discrete, dec_le}
use dsa_c.Prelude.{ℕ, zero, suc, ◌+◌, ◌-◌, ◌*◌, ◌/◌, ◌%◌, ◌^◌, ◌≤◌, ◌<◌, ◌≡◌, refl, arith}
use dsa_c.Run.{ok, Returns, returns}
use dsa_c.Word.{sub32}
use dsa_c.Pow2.{clz_from, builtin_clz, round_up_pow2_32}
use dsa_c.Pow2.IsPow2.{PowerOfTwo}

-- `x` has `n + 1` binary digits
abbrev pub HasDigits : ℕ → ℕ → Type 0
HasDigits n x = (2 ^ n ≤ x) × (x < 2 ^ suc n)

pub clz_from-HasDigits :
    (b x : ℕ) → 0 < x → x < 2 ^ b → (n : ℕ) × (clz_from b x + suc n ≡ b) × HasDigits n x
unfolding clz_from
clz_from-HasDigits zero x p h = absurd (omega arith)
clz_from-HasDigits (suc b) x p h = elim (dec_le (2 ^ b) x) [
  | yes top ↦
      let one : x / 2 ^ b % 2 ≡ 1 = omega (
        arith,
        pow-suc 2 b,
        div-eq_of_lt-le {k = 1} (2 ^ b) {m = x} (omega arith) (omega (arith, pow-suc 2 b)),
      ) in
      (b, ground arith, (top, h))
  | no low ↦
      let none_set : x / 2 ^ b % 2 ≡ 0 =
        omega (arith, div-eq_of_lt {n = x} {m = 2 ^ b} (omega arith)) in
      let (n, e, digits) = clz_from-HasDigits b x p (omega arith) in (n, ground arith, digits)
]

-- the least power of two that is not below `x`
pub record IsRoundUp (x r : ℕ) : Type 0 where
  pub power : PowerOfTwo r
  pub above : x ≤ r
  pub least : (j : ℕ) → x ≤ 2 ^ j → r ≤ 2 ^ j

-- A power of two in [x, 2 x) is the least one not below `x`.
pub least_power : (x k : ℕ) → x ≤ 2 ^ k → 2 ^ k < 2 * x → IsRoundUp x (2 ^ k)
least_power x k h h' = record {
  power = (k, refl);
  above = h;
  least = λ j p. elim (dec_le k j) [
    | yes le ↦ pow-le-pow_right (omega arith) le
    | no gt ↦ absurd (
        omega (
          arith,
          pow-suc 2 j,
          pow-le-pow_right {n = 2} (omega arith) {i = suc j} {j = k} (omega arith),
        ))
  ];
}

-- the branch for GCC at the numbers from 2 on
pub round_up-value :
    (x : ℕ)
    → 1 < x
    → x ≤ 2 ^ 31
    → (n : ℕ) × HasDigits n (x - 1) × (round_up_pow2_32 x ≡ ok (2 ^ suc n))
unfolding round_up_pow2_32 builtin_clz
round_up-value x p h =
    let below : sub32 x 1 ≡ x - 1 = omega arith in
    let (n, e, digits) = clz_from-HasDigits 32 (x - 1) (omega arith) (omega arith) in
    let shift : 32 - builtin_clz (x - 1) ≡ suc n = omega (arith, e) in
    let fits : 2 ^ suc n < 2 ^ 32 = omega (arith, pow-suc 2 n, digits.0) in
    (n, digits, rw below (rw shift (ground (arith, fits))))

pub round_up-one : round_up_pow2_32 1 ≡ ok 1
unfolding round_up_pow2_32
round_up-one = refl

-- For a number from 1 to 2^31, round_up_pow2_32 returns the least power of two that is at least the
-- number, at most 2^31.
pub round_up_pow2_32_lem :
    (x : ℕ) → 0 < x → x ≤ 2 ^ 31 → Returns (λ r. IsRoundUp x r × (r ≤ 2 ^ 31)) (round_up_pow2_32 x)
round_up_pow2_32_lem x p h = elim (ℕ_discrete x 1) [
  | yes one ↦
      rw one (rw round_up-one (returns (least_power 1 0 (omega arith) (omega arith), omega arith)))
  | no more ↦
      let (n, (low, high), e) = round_up-value x (omega arith) h in
      let up = least_power x (suc n) (omega arith) (omega (arith, pow-suc 2 n)) in
      rw e (returns (up, up.least 31 h))
]
