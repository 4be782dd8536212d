-- ===== src/Prelude/BitOr.antt =====
-- Laws of `|` at every width, from those of dsa_c.Prelude.Bits for single digits.
use Prim.Native.Nat.{ℕ, zero, suc, ◌+◌, ◌-◌, ◌*◌, ◌/◌, ◌^◌, ◌<◌, bit_or}
use mathlib.Core.Path.{◌≡◌, refl, ap, ap₂}
use mathlib.Core.WellFounded
use native.Mathlib.Nat.{pow-suc, one-le-pow}
use native.Mathlib.Omega.{arith}
use dsa_c.Prelude.Order.{lt_wf}
use dsa_c.Prelude.Bits.{bit_or-halves, fields, fields-suc, ones-suc}

pub zero-bit_or : (a : ℕ) → bit_or 0 a ≡ a
zero-bit_or a = WellFounded.induction lt_wf {C = λ n. bit_or 0 n ≡ n} a halve
  where
    halve : (n : ℕ) → ((m : ℕ) → m < n → bit_or 0 m ≡ m) → bit_or 0 n ≡ n
    halve zero smaller = refl
    halve (suc n) smaller =
        omega (arith, bit_or-halves 0 (suc n), smaller (suc n / 2) (omega arith))

pub bit_or-zero : (a : ℕ) → bit_or a 0 ≡ a
bit_or-zero a = WellFounded.induction lt_wf {C = λ n. bit_or n 0 ≡ n} a halve
  where
    halve : (n : ℕ) → ((m : ℕ) → m < n → bit_or m 0 ≡ m) → bit_or n 0 ≡ n
    halve zero smaller = refl
    halve (suc n) smaller =
        omega (arith, bit_or-halves (suc n) 0, smaller (suc n / 2) (omega arith))

pub bit_or-lt : (k a b : ℕ) → a < 2 ^ k → b < 2 ^ k → bit_or a b < 2 ^ k
bit_or-lt zero a b p q =
    let a0 : a ≡ 0 = omega arith in let b0 : b ≡ 0 = omega arith in rw (a0, b0) (omega arith)
bit_or-lt (suc k) a b p q = omega (
  arith,
  pow-suc 2 k,
  bit_or-halves a b,
  bit_or-lt k (a / 2) (b / 2) (omega (arith, pow-suc 2 k)) (omega (arith, pow-suc 2 k)),
)

-- ones cover what is below them
pub bit_or-ones : (k a : ℕ) → a < 2 ^ k → bit_or a (2 ^ k - 1) ≡ 2 ^ k - 1
bit_or-ones zero a h = omega (arith, bit_or-zero a)
bit_or-ones (suc k) a h = omega (
  arith,
  pow-suc 2 k,
  one-le-pow k 2,
  bit_or-halves a (2 ^ suc k - 1),
  ap (bit_or (a / 2)) (ones-suc k),
  bit_or-ones k (a / 2) (omega (arith, pow-suc 2 k)),
)

pub ones-bit_or : (k a : ℕ) → a < 2 ^ k → bit_or (2 ^ k - 1) a ≡ 2 ^ k - 1
ones-bit_or zero a h = omega (arith, zero-bit_or a)
ones-bit_or (suc k) a h = omega (
  arith,
  pow-suc 2 k,
  one-le-pow k 2,
  bit_or-halves (2 ^ suc k - 1) a,
  ap (λ t. bit_or t (a / 2)) (ones-suc k),
  ones-bit_or k (a / 2) (omega (arith, pow-suc 2 k)),
)

pub bit_or-fields :
    (k q r m s : ℕ)
    → r < 2 ^ k
    → s < 2 ^ k
    → bit_or (fields k q r) (fields k m s) ≡ fields k (bit_or q m) (bit_or r s)
bit_or-fields zero q r m s hr hs =
    let low : r ≡ 0 = omega arith in
    let low' : s ≡ 0 = omega arith in
    rw (low, low', bit_or-zero) (omega (arith, ap₂ bit_or (unit q) (unit m)))
  where
    unit : (x : ℕ) → x * 1 + 0 ≡ x
    unit x = omega arith
bit_or-fields (suc k) q r m s hr hs =
    let half : r / 2 < 2 ^ k = omega (arith, pow-suc 2 k) in
    let half' : s / 2 < 2 ^ k = omega (arith, pow-suc 2 k) in
    rw (fields-suc k q r, fields-suc k m s, fields-suc k (bit_or q m) (bit_or r s))
      (omega (
        arith,
        bit_or-halves (2 * (q * 2 ^ k) + r) (2 * (m * 2 ^ k) + s),
        bit_or-halves r s,
        bit_or-fields k q (r / 2) m (s / 2) half half',
        ap₂ bit_or (halve (q * 2 ^ k) r) (halve (m * 2 ^ k) s),
      ))
  where
    halve : (x y : ℕ) → (2 * x + y) / 2 ≡ x + y / 2
    halve x y = omega arith
