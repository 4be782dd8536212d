-- ===== src/Prelude/Bits.antt =====
-- Laws of `&`, `|` and `^` at every width. The native operations stand for a recursion on binary
-- digits; the first lemmas take the lowest digit off, the others go from there by strong induction.
use Prim.Native.Nat.{
  ℕ, zero, suc, ◌+◌, ◌-◌, ◌*◌, ◌/◌, ◌%◌, ◌^◌, ◌≤◌, ◌<◌, min, max, bit_and, bit_or, bit_xor, digits,
  bitwise, differ, bit_xor-bitwise, bit_and-bitwise, bit_or-bitwise,
}
use mathlib.Core.Path.{◌≡◌, refl, ap, ap₂}
use mathlib.Core.WellFounded
use native.Mathlib.Nat.{pow-suc, pow-le-pow_right, one-le-pow, le_refl, div-add-mod', mod-lt}
use native.Mathlib.Omega.{arith}
use dsa_c.Prelude.Order.{lt_wf}

-- the digits of two numbers, combined by `op`; `rest` is what the second keeps past the first
module _ (rest : ℕ → ℕ) (op : ℕ → ℕ → ℕ) where
  fuel_free : (j k a b : ℕ) → a ≤ j → a ≤ k → digits rest op j a b ≡ digits rest op k a b
  fuel_free zero zero a b p q = refl
  fuel_free zero (suc k) zero b p q = refl
  fuel_free zero (suc k) (suc a) b p q = absurd (omega arith)
  fuel_free (suc j) zero zero b p q = refl
  fuel_free (suc j) zero (suc a) b p q = absurd (omega arith)
  fuel_free (suc j) (suc k) zero b p q = refl
  fuel_free (suc j) (suc k) (suc a) b p q =
      let half : suc a / 2 ≤ j = omega arith in
      ap (λ t. t * 2 + op (suc a % 2) (b % 2))
        (fuel_free j k (suc a / 2) (b / 2) half (omega arith))

  lowest :
      (a b : ℕ)
      → bitwise rest op (suc a) b ≡ bitwise rest op (suc a / 2) (b / 2) * 2 + op (suc a % 2) (b % 2)
  lowest a b =
      ap (λ t. t * 2 + op (suc a % 2) (b % 2))
        (fuel_free a (suc a / 2) (suc a / 2) (b / 2) (omega arith) (le_refl _))

pub bit_and-halves : (a b : ℕ) → bit_and a b ≡ 2 * bit_and (a / 2) (b / 2) + min (a % 2) (b % 2)
bit_and-halves zero b = simp bit_and-bitwise (omega arith)
bit_and-halves (suc a) b = simp bit_and-bitwise (omega (arith, lowest (λ y. 0) min a b))

pub bit_or-halves : (a b : ℕ) → bit_or a b ≡ 2 * bit_or (a / 2) (b / 2) + max (a % 2) (b % 2)
bit_or-halves zero b = simp bit_or-bitwise (omega arith)
bit_or-halves (suc a) b = simp bit_or-bitwise (omega (arith, lowest (λ y. y) max a b))

pub bit_xor-halves : (a b : ℕ) → bit_xor a b ≡ 2 * bit_xor (a / 2) (b / 2) + differ (a % 2) (b % 2)
bit_xor-halves zero b = simp bit_xor-bitwise (omega arith)
bit_xor-halves (suc a) b = simp bit_xor-bitwise (omega (arith, lowest (λ y. y) differ a b))

differ-lt : (x y : ℕ) → x < 2 → y < 2 → differ x y < 2
differ-lt zero y p q = q
differ-lt (suc x) zero p q = p
differ-lt (suc x) (suc y) p q = differ-lt x y (omega arith) (omega arith)

pub bit_xor-lt : (k a b : ℕ) → a < 2 ^ k → b < 2 ^ k → bit_xor a b < 2 ^ k
bit_xor-lt zero a b p q =
    let a0 : a ≡ 0 = omega arith in let b0 : b ≡ 0 = omega arith in rw (a0, b0) (omega arith)
bit_xor-lt (suc k) a b p q = omega (
  arith,
  pow-suc 2 k,
  bit_xor-halves a b,
  differ-lt (a % 2) (b % 2) (omega arith) (omega arith),
  bit_xor-lt k (a / 2) (b / 2) (omega (arith, pow-suc 2 k)) (omega (arith, pow-suc 2 k)),
)

pub bit_and-zero : (a : ℕ) → bit_and a 0 ≡ 0
bit_and-zero a = WellFounded.induction lt_wf {C = λ n. bit_and n 0 ≡ 0} a halve
  where
    halve : (n : ℕ) → ((m : ℕ) → m < n → bit_and m 0 ≡ 0) → bit_and n 0 ≡ 0
    halve zero smaller = refl
    halve (suc n) smaller =
        omega (arith, bit_and-halves (suc n) 0, smaller (suc n / 2) (omega arith))

pub bit_and_self : (a : ℕ) → bit_and a a ≡ a
bit_and_self a = WellFounded.induction lt_wf {C = λ n. bit_and n n ≡ n} a halve
  where
    halve : (n : ℕ) → ((m : ℕ) → m < n → bit_and m m ≡ m) → bit_and n n ≡ n
    halve zero smaller = refl
    halve (suc n) smaller =
        omega (arith, bit_and-halves (suc n) (suc n), smaller (suc n / 2) (omega arith))

-- `q` above and `r` below the bit `k`
abbrev pub fields : ℕ → ℕ → ℕ → ℕ
fields k q r = q * 2 ^ k + r

pub fields-suc : (k q r : ℕ) → fields (suc k) q r ≡ 2 * (q * 2 ^ k) + r
fields-suc k q r = omega (arith, ap (λ (t : ℕ). q * t) (pow-suc 2 k))

pub bit_and-fields :
    (k q r m s : ℕ)
    → r < 2 ^ k
    → s < 2 ^ k
    → bit_and (fields k q r) (fields k m s) ≡ fields k (bit_and q m) (bit_and r s)
bit_and-fields zero q r m s hr hs =
    let low : r ≡ 0 = omega arith in
    let low' : s ≡ 0 = omega arith in
    rw (low, low', bit_and-zero) (omega (arith, ap₂ bit_and (unit q) (unit m)))
  where
    unit : (x : ℕ) → x * 1 + 0 ≡ x
    unit x = omega arith
bit_and-fields (suc k) q r m s hr hs =
    let half : r / 2 < 2 ^ k = omega (arith, pow-suc 2 k) in
    let half' : s / 2 < 2 ^ k = omega (arith, pow-suc 2 k) in
    rw (fields-suc k q r, fields-suc k m s, fields-suc k (bit_and q m) (bit_and r s))
      (omega (
        arith,
        bit_and-halves (2 * (q * 2 ^ k) + r) (2 * (m * 2 ^ k) + s),
        bit_and-halves r s,
        bit_and-fields k q (r / 2) m (s / 2) half half',
        ap₂ bit_and (halve (q * 2 ^ k) r) (halve (m * 2 ^ k) s),
      ))
  where
    halve : (x y : ℕ) → (2 * x + y) / 2 ≡ x + y / 2
    halve x y = omega arith

-- every number falls into fields
pub fields-split : (k a : ℕ) → fields k (a / 2 ^ k) (a % 2 ^ k) ≡ a
fields-split k a = omega (arith, div-add-mod' a (2 ^ k))

pub ones-suc : (k : ℕ) → (2 ^ suc k - 1) / 2 ≡ 2 ^ k - 1
ones-suc k = omega (arith, pow-suc 2 k)

bit_and-ones : (k r : ℕ) → r < 2 ^ k → bit_and r (2 ^ k - 1) ≡ r
bit_and-ones zero r h = omega (arith, bit_and-zero r)
bit_and-ones (suc k) r h = omega (
  arith,
  pow-suc 2 k,
  one-le-pow k 2,
  bit_and-halves r (2 ^ suc k - 1),
  ap (bit_and (r / 2)) (ones-suc k),
  bit_and-ones k (r / 2) (omega (arith, pow-suc 2 k)),
)

-- a mask of `k` low ones keeps the remainder by `2 ^ k`
pub bit_and_mask : (k a : ℕ) → bit_and a (2 ^ k - 1) ≡ a % 2 ^ k
bit_and_mask k a =
    let low : a % 2 ^ k < 2 ^ k = mod-lt a (one-le-pow k 2 (omega arith)) in
    let ones : 2 ^ k - 1 < 2 ^ k = omega (arith, one-le-pow k 2) in
    omega (
      arith,
      ap (λ t. bit_and t (2 ^ k - 1)) (fields-split k a),
      bit_and-fields k (a / 2 ^ k) (a % 2 ^ k) 0 (2 ^ k - 1) low ones,
      ap (λ (t : ℕ). t * 2 ^ k) (bit_and-zero (a / 2 ^ k)),
      bit_and-ones k (a % 2 ^ k) low,
      ap (bit_and (fields k (a / 2 ^ k) (a % 2 ^ k))) (zero_field (2 ^ k) (2 ^ k - 1)),
    )
  where
    zero_field : (x y : ℕ) → 0 * x + y ≡ y
    zero_field x y = omega arith

-- a factor `2 ^ k` of one side passes out
pub bit_and-shift : (k a m : ℕ) → bit_and a (m * 2 ^ k) ≡ bit_and (a / 2 ^ k) m * 2 ^ k
bit_and-shift k a m =
    let pos : 0 < 2 ^ k = one-le-pow k 2 (omega arith) in
    omega (
      arith,
      ap (λ t. bit_and t (m * 2 ^ k)) (fields-split k a),
      bit_and-fields k (a / 2 ^ k) (a % 2 ^ k) m 0 (mod-lt a pos) pos,
      bit_and-zero (a % 2 ^ k),
      ap (bit_and (fields k (a / 2 ^ k) (a % 2 ^ k))) (no_low (m * 2 ^ k)),
    )
  where
    no_low : (x : ℕ) → x + 0 ≡ x
    no_low x = omega arith

pub two-pow-add : (j k : ℕ) → 2 ^ (j + k) ≡ 2 ^ j * 2 ^ k
two-pow-add j zero = omega (arith, ap (λ t. 2 ^ t) (no_more j))
  where
    no_more : (x : ℕ) → x + 0 ≡ x
    no_more x = omega arith
two-pow-add j (suc k) = omega (
  arith,
  ap (λ t. 2 ^ t) (one_more j k),
  pow-suc 2 (j + k),
  pow-suc 2 k,
  ap (λ (t : ℕ). 2 * t) (two-pow-add j k),
  ap (λ (t : ℕ). 2 ^ j * t) (pow-suc 2 k),
)
  where
    one_more : (x y : ℕ) → x + suc y ≡ suc (x + y)
    one_more x y = omega arith

pub two-pow-pos : (k : ℕ) → 0 < 2 ^ k
two-pow-pos k = one-le-pow k 2 (omega arith)

pub two-pow-lt : {j k : ℕ} → j < k → 2 ^ j < 2 ^ k
two-pow-lt {j} {k} h = omega (
  arith,
  pow-suc 2 j,
  two-pow-pos j,
  pow-le-pow_right {n = 2} (omega arith) {i = suc j} {j = k} h,
)
