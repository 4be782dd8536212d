-- ===== src/Pow2/Fallback.antt =====
-- The branch of dsa/round_up_pow2.h without the builtin: `x |= x >> s` at s = 1, 2, 4, 8, 16.
-- With the top `s` digits set, such a line sets the top `2 s`.
use native.Mathlib.Nat.{
  pow-suc, pow-le-pow_right, mod-lt, div-le_self, mod-eq_of_lt, mul-add-div, div-lt_iff_lt-mul,
  div-add-mod', div-eq_of_lt-le,
}
use native.Mathlib.Decide.{ℕ_discrete, dec_le}
use dsa_c.Prelude.{
  ℕ, suc, ◌+◌, ◌-◌, ◌*◌, ◌/◌, ◌%◌, ◌^◌, ◌≤◌, ◌<◌, bit_or, ◌≡◌, ◌⊎◌, inl, inr, refl, ap, sym, ◌∙◌,
  arith, false, true, ◌&&◌, ltb, leb, Bool-cases,
}
use dsa_c.Prelude.Bits.{fields, two-pow-add, two-pow-pos}
use dsa_c.Prelude.Ring.{pred-mul}
use dsa_c.Prelude.BitOr.{bit_or-zero, bit_or-lt, bit_or-ones, ones-bit_or, bit_or-fields}
use mathlib.Core.Path.{ap₂, subst}
use dsa_c.Run.{ok}
use dsa_c.Word.{sub32}
use dsa_c.Pow2.{smear, round_up_pow2_32, round_up_pow2_32_fallback}
use dsa_c.Pow2.RoundUp.{HasDigits, round_up-value}

abbrev ones : ℕ → ℕ
ones k = 2 ^ k - 1

-- `y` has `t + m` digits, of which the top `t` are set
Top : ℕ → ℕ → ℕ → Type 0
Top t m y = (v : ℕ) × (y ≡ fields m (ones t) v) × (v < 2 ^ m)

ones-lt : (k : ℕ) → ones k < 2 ^ k
ones-lt k = omega (arith, two-pow-pos k)

ones-add : (t m : ℕ) → fields m (ones t) (ones m) ≡ ones (t + m)
ones-add t m =
    omega (arith, pred-mul (2 ^ t) (2 ^ m) (two-pow-pos t), two-pow-pos m, two-pow-add t m)

smear-full : (s n : ℕ) → smear s (ones n) ≡ ones n
unfolding smear
smear-full s n =
    ones-bit_or n (ones n / 2 ^ s) (omega (arith, ones-lt n, div-le_self (ones n) (2 ^ s)))

-- a number with its top ones split off, in the two ways that the step reads it
regroup : (o p m v : ℕ) → o * (p * m) + v ≡ (o * p + v / m) * m + v % m
regroup o p m v = omega (arith, div-add-mod' v m)

shifted : (o p m v : ℕ) → 0 < p → (o * (p * m) + v) / p ≡ o * m + v / p
shifted o p m v h = ap (λ n. n / p) (split o p m v) ∙ mul-add-div h (o * m) v
  where
    split : (a b c d : ℕ) → a * (b * c) + d ≡ b * (a * c) + d
    split a b c d = omega arith

no_top : (m o : ℕ) → fields m 0 o ≡ o
no_top m o = omega arith

smear-Top : (t m y : ℕ) → Top t (t + m) y → Top (t + t) m (smear t y)
unfolding smear Top
smear-Top t m y (v, e, h) =
    let o = ones t in
    let inside : v < 2 ^ t * 2 ^ m = omega (arith, two-pow-add t m) in
    let mid : v / 2 ^ m < 2 ^ t = (div-lt_iff_lt-mul (two-pow-pos m)).1 inside in
    let low : v % 2 ^ m < 2 ^ m = mod-lt v (two-pow-pos m) in
    let low' : v / 2 ^ t < 2 ^ m = (div-lt_iff_lt-mul (two-pow-pos t)).1 (omega arith) in
    let y_fields : y ≡ fields m (fields t o (v / 2 ^ m)) (v % 2 ^ m) =
      e ∙ ap (λ (n : ℕ). o * n + v) (two-pow-add t m) ∙ regroup o (2 ^ t) (2 ^ m) v in
    let y_shifted : y / 2 ^ t ≡ fields m (fields t 0 o) (v / 2 ^ t) =
      ap (λ n. n / 2 ^ t) (e ∙ ap (λ (n : ℕ). o * n + v) (two-pow-add t m))
      ∙ shifted o (2 ^ t) (2 ^ m) v (two-pow-pos t)
      ∙ ap (λ n. fields m n (v / 2 ^ t)) (sym (no_top t o)) in
    let both : bit_or (fields t o (v / 2 ^ m)) (fields t 0 o) ≡ ones (t + t) =
      bit_or-fields t o (v / 2 ^ m) 0 o mid (ones-lt t)
      ∙ ap₂ (fields t) (bit_or-zero o) (bit_or-ones t (v / 2 ^ m) mid)
      ∙ ones-add t t in
    (
      bit_or (v % 2 ^ m) (v / 2 ^ t),
      ap₂ bit_or y_fields y_shifted
          ∙ bit_or-fields m _ (v % 2 ^ m) _ (v / 2 ^ t) low low'
          ∙ ap (λ n. fields m n (bit_or (v % 2 ^ m) (v / 2 ^ t))) both,
      bit_or-lt m _ _ low low',
    )

smear-last : (m d y : ℕ) → Top (m + d) m y → smear (m + d) y ≡ ones (m + d + m)
unfolding smear Top
smear-last m d y (v, e, h) =
    let t : ℕ = m + d in
    let whole = pred-mul (2 ^ t) (2 ^ m) (two-pow-pos t) in
    let whole' = pred-mul (2 ^ m) (2 ^ t) (two-pow-pos m) in
    let m_le_t : 2 ^ m ≤ 2 ^ t = pow-le-pow_right (omega arith) (omega arith) in
    let quotient : y / 2 ^ t ≡ ones m =
      div-eq_of_lt-le {k = ones m} (2 ^ t) {m = y} (omega arith)
        (omega (arith, ap (λ (n : ℕ). n * 2 ^ t) (back (2 ^ m) (two-pow-pos m)))) in
    ap₂ bit_or e (quotient ∙ sym (no_top m (ones m)))
    ∙ bit_or-fields m (ones t) v 0 (ones m) h (ones-lt m)
    ∙ ap₂ (fields m) (bit_or-zero (ones t)) (bit_or-ones m v h)
    ∙ ones-add t m
  where
    back : (p : ℕ) → 0 < p → p - 1 + 1 ≡ p
    back p q = omega arith

-- Either the top `t` of `n` digits are set, or all are.
Smeared : ℕ → ℕ → ℕ → Type 0
Smeared n t y = (y ≡ ones n) ⊎ ((m : ℕ) × (t + m ≡ n) × Top t m y)

smear-Smeared : (n t y : ℕ) → Smeared n t y → Smeared n (t + t) (smear t y)
unfolding Smeared
smear-Smeared n t y (inl e) = inl (ap (smear t) e ∙ smear-full t n)
smear-Smeared n t y (inr (m, e, top)) = elim (dec_le t m) [
  | yes le ↦
      let m_split : m ≡ t + (m - t) = omega arith in
      inr (m - t, omega (arith, e), smear-Top t (m - t) y (subst (λ k. Top t k y) m_split top))
  | no gt ↦
      let t_split : t ≡ m + (t - m) = omega arith in
      inl (
        ap (λ k. smear k y) t_split
        ∙ smear-last m (t - m) y (subst (λ k. Top k m y) t_split top)
        ∙ ap ones (omega (arith, e)))
]

start : (n y : ℕ) → HasDigits n y → Smeared (suc n) 1 y
unfolding Smeared Top
start n y (low, high) = inr (n, omega arith, (y - 2 ^ n, omega arith, omega (arith, pow-suc 2 n)))

all-Smeared :
    (n y : ℕ) → n < 32 → Smeared n 1 y → smear 16 (smear 8 (smear 4 (smear 2 (smear 1 y)))) ≡ ones n
unfolding Smeared
all-Smeared n y h s = last (
    smear-Smeared n 16 _
      (smear-Smeared n 8 _ (smear-Smeared n 4 _ (smear-Smeared n 2 _ (smear-Smeared n 1 y s)))))
  where
    last : {x : ℕ} → Smeared n 32 x → x ≡ ones n
    last (inl e) = e
    last (inr (m, e, top)) = absurd (omega (arith, e))

exponent-lt : (n : ℕ) → 2 ^ n < 2 ^ 32 → n < 32
exponent-lt n h = elim (dec_le 32 n) [
  | yes le ↦ absurd (omega (arith, pow-le-pow_right {n = 2} (omega arith) {i = 32} {j = n} le))
  | no gt ↦ omega arith
]

fallback_refuses :
    (x : ℕ) → (ltb 0 x && leb x (2 ^ 31)) ≡ false → round_up_pow2_32_fallback x ≡ round_up_pow2_32 x
unfolding round_up_pow2_32_fallback round_up_pow2_32
fallback_refuses x e = rw e

fallback-value :
    (x y : ℕ)
    → 0 < x
    → x ≤ 2 ^ 31
    → smear 16 (smear 8 (smear 4 (smear 2 (smear 1 (x - 1))))) ≡ y
    → y + 1 < 2 ^ 32
    → round_up_pow2_32_fallback x ≡ ok (y + 1)
unfolding round_up_pow2_32_fallback
fallback-value x y p h e fits =
    let below : sub32 x 1 ≡ x - 1 = omega arith in
    let passes : (ltb 0 x && leb x (2 ^ 31)) ≡ true = ground arith in
    rw (passes, below, e, mod-eq_of_lt fits)

fallback-one : round_up_pow2_32_fallback 1 ≡ round_up_pow2_32 1
unfolding round_up_pow2_32_fallback round_up_pow2_32 smear
fallback-one = refl

-- On every number of 32 bits the two branches of round_up_pow2_32 give the same outcome.
pub round_up_pow2_32-fallback :
    (x : ℕ) → x < 2 ^ 32 → round_up_pow2_32_fallback x ≡ round_up_pow2_32 x
round_up_pow2_32-fallback x h = elim (Bool-cases (ltb 0 x && leb x (2 ^ 31))) [
  | inr refused ↦ fallback_refuses x refused
  | inl passes ↦ elim (ℕ_discrete x 1) [
    | yes one ↦ rw one fallback-one
    | no more ↦
        let (n, digits, e) = round_up-value x (ground arith) (ground arith) in
        let fits : 2 ^ suc n < 2 ^ 32 = ground (arith, pow-suc 2 n, digits.0) in
        let smeared = all-Smeared (suc n) (x - 1) (exponent-lt (suc n) fits) (start n _ digits) in
        let up : ones (suc n) + 1 ≡ 2 ^ suc n = omega (arith, two-pow-pos (suc n)) in
        fallback-value x _ (ground arith) (ground arith) smeared (omega (arith, up))
        ∙ ap ok up
        ∙ sym e
  ]
]
