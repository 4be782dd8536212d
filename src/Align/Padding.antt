-- ===== src/Align/Padding.antt =====
-- The padding of dsa/align.h is the distance to the next multiple of the alignment.
use native.Mathlib.Nat.{
  mod-lt, mod_self, div-mul-le_self, mul-le-mul_right, mod-eq_of_lt, div-add-mod', div-eq_of_lt,
  mul-mod_left, div-lt_iff_lt-mul, div-eq_of_lt-le,
}
use native.Mathlib.Decide.{ℕ_discrete, dec_lt}
use dsa_c.Prelude.{
  ℕ, zero, suc, ◌+◌, ◌-◌, ◌*◌, ◌/◌, ◌%◌, ◌^◌, ◌≤◌, ◌<◌, bit_and, ◌≡◌, refl, ap, sym, ◌∙◌, true,
  arith,
}
use dsa_c.Prelude.Bits.{bit_and-shift, bit_and_mask, two-pow-add, two-pow-pos, two-pow-lt}
use dsa_c.Run.{Returns, returns}
use dsa_c.Word.{add_size, sub_size, neg_size}
use dsa_c.Pow2.{is_pow2}
use dsa_c.Pow2.IsPow2.{is_pow2_iff}
use dsa_c.Align.{aligned_from, calc_alignment_padding}

-- what the padding comes to
abbrev pub padding_to : ℕ → ℕ → ℕ
padding_to p ptr = (p - ptr % p) % p

power-split : (k : ℕ) → k < 64 → 2 ^ (64 - k) * 2 ^ k ≡ 2 ^ 64
power-split k h =
    let whole : 64 - k + k ≡ 64 = omega arith in
    sym (two-pow-add (64 - k) k) ∙ ap (λ t. 2 ^ t) whole

-- `-p` is ones above zeros
neg_size-ones : (n p : ℕ) → 0 < p → 0 < n → n * p ≡ 2 ^ 64 → neg_size p ≡ (n - 1) * p
neg_size-ones zero p h h' e = absurd (omega arith)
neg_size-ones (suc n) p h h' e = omega (arith, ap (λ (t : ℕ). t * p) (back n))
  where
    back : (m : ℕ) → suc m - 1 ≡ m
    back m = omega arith

-- the mask rounds down
round_down : (k x : ℕ) → k < 64 → x < 2 ^ 64 → bit_and x (neg_size (2 ^ k)) ≡ x / 2 ^ k * 2 ^ k
round_down k x hk hx =
    let n : ℕ = 2 ^ (64 - k) in
    let inside : x / 2 ^ k < n =
      (div-lt_iff_lt-mul (two-pow-pos k)).1 (omega (arith, power-split k hk)) in
    ap (bit_and x)
      (neg_size-ones n (2 ^ k) (two-pow-pos k) (two-pow-pos (64 - k)) (power-split k hk))
    ∙ bit_and-shift k x (n - 1)
    ∙ ap (λ (t : ℕ). t * 2 ^ k) (bit_and_mask (64 - k) (x / 2 ^ k) ∙ mod-eq_of_lt inside)

-- the sum before the mask
before_mask : ℕ → ℕ → ℕ
before_mask p ptr = add_size (sub_size ptr 1) p

-- the arithmetic of the three cases, `ptr = q * p + r` below `n * p = 2 ^ 64`
module _ (n p q r : ℕ) (whole : n * p ≡ 2 ^ 64) (two : p < 2 ^ 64) (hq : q < n) (hr : r < p) where
  room : q * p + p ≤ 2 ^ 64
  room = grind arith

  -- what is left once the rounding down is known
  rounded :
      (x t : ℕ)
      → before_mask p (q * p + r) ≡ x
      → x / p ≡ t
      → sub_size (before_mask p (q * p + r) / p * p) (q * p + r) ≡ sub_size (t * p) (q * p + r)
  rounded x t e e' = rw (e, e')

  at_boundary : r ≡ 0 → sub_size (before_mask p (q * p + r) / p * p) (q * p + r) ≡ (p - r) % p
  unfolding before_mask
  at_boundary e =
      let x : before_mask p (q * p + r) ≡ q * p + (p - 1) = omega (arith, room) in
      let none_left : (p - r) % p ≡ 0 =
        (let whole_p : p - r ≡ p = omega arith in ap (λ (t : ℕ). t % p) whole_p ∙ mod_self p) in
      let quotient : (q * p + (p - 1)) / p ≡ q =
        div-eq_of_lt-le {k = q} p {m = q * p + (p - 1)} (omega arith) (omega arith) in
      rounded _ q x quotient ∙ omega (arith, room, none_left)

  inside_page :
      0 < r → suc q < n → sub_size (before_mask p (q * p + r) / p * p) (q * p + r) ≡ (p - r) % p
  unfolding before_mask
  inside_page pos more =
      let next : (q + 1) * p + p ≤ 2 ^ 64 =
        omega (arith, mul-le-mul_right {m = q + 2} {n = n} p (omega arith)) in
      let x : before_mask p (q * p + r) ≡ (q + 1) * p + (r - 1) = omega (arith, next) in
      let quotient : ((q + 1) * p + (r - 1)) / p ≡ q + 1 =
        div-eq_of_lt-le {k = q + 1} p {m = (q + 1) * p + (r - 1)} (omega arith) (omega arith) in
      rounded _ (q + 1) x quotient
      ∙ omega (arith, next, mod-eq_of_lt {n = p - r} {m = p} (omega arith))

  -- the last multiple below 2^64: the sum wraps
  last_page :
      0 < r → suc q ≡ n → sub_size (before_mask p (q * p + r) / p * p) (q * p + r) ≡ (p - r) % p
  unfolding before_mask
  last_page pos last =
      let top : q * p + p ≡ 2 ^ 64 = omega (arith, ap (λ (t : ℕ). t * p) last) in
      let x : before_mask p (q * p + r) ≡ r - 1 = omega (arith, top) in
      let quotient : (r - 1) / p ≡ 0 = div-eq_of_lt (omega arith) in
      rounded _ 0 x quotient ∙ omega (arith, top, mod-eq_of_lt {n = p - r} {m = p} (omega arith))

  distance : sub_size (before_mask p (q * p + r) / p * p) (q * p + r) ≡ (p - r) % p
  distance = elim (ℕ_discrete r 0) [
    | yes e ↦ at_boundary e
    | no pos ↦ elim (dec_lt (suc q) n) [
      | yes more ↦ inside_page (omega arith) more
      | no last ↦ last_page (omega arith) (omega arith)
    ]
  ]

before_mask-lt : (p ptr : ℕ) → before_mask p ptr < 2 ^ 64
unfolding before_mask
before_mask-lt p ptr = omega arith

pub sub_size-aligned_from :
    (k ptr : ℕ)
    → k < 64
    → ptr < 2 ^ 64
    → sub_size (aligned_from (2 ^ k) ptr) ptr ≡ padding_to (2 ^ k) ptr
unfolding aligned_from before_mask
sub_size-aligned_from k ptr hk hp =
    let p : ℕ = 2 ^ k in
    let n : ℕ = 2 ^ (64 - k) in
    let two : p < 2 ^ 64 = omega (arith, two-pow-lt hk) in
    let inside : ptr / p < n =
      (div-lt_iff_lt-mul (two-pow-pos k)).1 (omega (arith, power-split k hk)) in
    let d =
      distance n p (ptr / p) (ptr % p) (power-split k hk) two inside (mod-lt ptr (two-pow-pos k)) in
    let masked = round_down k (before_mask p ptr) hk (before_mask-lt p ptr) in
    let parts : ptr / p * p + ptr % p ≡ ptr = div-add-mod' ptr p in
    ap (λ t. sub_size t ptr) masked ∙ rw parts at d

pub aligned_from-lt : (k ptr : ℕ) → k < 64 → aligned_from (2 ^ k) ptr < 2 ^ 64
unfolding aligned_from before_mask
aligned_from-lt k ptr hk =
    let x = before_mask (2 ^ k) ptr in
    omega (
      arith,
      round_down k x hk (before_mask-lt (2 ^ k) ptr),
      div-mul-le_self x (2 ^ k),
      before_mask-lt (2 ^ k) ptr,
    )

pub add-padding_to : (p ptr : ℕ) → 0 < p → (ptr + padding_to p ptr) % p ≡ 0
add-padding_to p ptr h = elim (ℕ_discrete (ptr % p) 0) [
  | yes e ↦
      let none_left : (p - ptr % p) % p ≡ 0 =
        (let all : p - ptr % p ≡ p = omega (arith, e) in ap (λ (t : ℕ). t % p) all ∙ mod_self p) in
      let stays : ptr + (p - ptr % p) % p ≡ ptr = omega (arith, none_left) in
      ap (λ (t : ℕ). t % p) stays ∙ e
  | no pos ↦
      let rest : (p - ptr % p) % p ≡ p - ptr % p = mod-eq_of_lt (omega (arith, mod-lt ptr h)) in
      let up : ptr + (p - ptr % p) % p ≡ (ptr / p + 1) * p =
        omega (arith, rest, div-add-mod' ptr p, mod-lt ptr h) in
      ap (λ (t : ℕ). t % p) up ∙ mul-mod_left (ptr / p + 1) p
]

pub is_pow2-pow : (k : ℕ) → k < 64 → is_pow2 (2 ^ k) ≡ true
is_pow2-pow k h = (is_pow2_iff (2 ^ k) (two-pow-lt h)).1 (k, refl)

-- For an alignment 2^k with k < 64 and a 64-bit address, the padding is less than the alignment and
-- leads to a multiple of it.
pub calc_alignment_padding_lem :
    (k ptr : ℕ)
    → k < 64
    → ptr < 2 ^ 64
    → Returns
        (λ padding. (padding < 2 ^ k) × ((ptr + padding) % 2 ^ k ≡ 0))
        (calc_alignment_padding (2 ^ k) ptr)
unfolding calc_alignment_padding
calc_alignment_padding_lem k ptr hk hp =
    rw (is_pow2-pow k hk, sub_size-aligned_from k ptr hk hp)
      (returns
        (mod-lt (2 ^ k - ptr % 2 ^ k) (two-pow-pos k), add-padding_to (2 ^ k) ptr (two-pow-pos k)))
