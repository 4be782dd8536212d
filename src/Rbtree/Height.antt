-- ===== src/Rbtree/Height.antt =====
-- How high a red-black tree can be.
use native.Mathlib.Numerals.{add-one}
use native.Mathlib.Nat.{pow-suc, pow-le-pow_right}
use dsa_c.Prelude.{
  ℕ, suc, refl, ap, ◌+◌, ◌*◌, ◌/◌, ◌^◌, ◌≤◌, ◌≡◌, true, false, arith, if◌then◌else◌,
}
use dsa_c.Rbtree.Shape.{Tree, leaf, node}
use dsa_c.Rbtree.Descent.{height}
use dsa_c.Rbtree.Balance.{IsRedBlack, black_height, black_root}

module _ {K : Type 0} where
  abbrev pub size : Tree K → ℕ
  size leaf = 0
  size (node l a b k r) = suc (size l + size r)

  -- `1` for a red root
  abbrev red_root : Tree K → ℕ
  red_root leaf = 0
  red_root (node l a b k r) = if b then 0 else 1

  red_root-le : (t : Tree K) → red_root t ≤ 1
  red_root-le leaf = omega arith
  red_root-le (node l a b k r) = ground arith

  red_root-black : (t : Tree K) → black_root t ≡ true → red_root t ≡ 0
  red_root-black leaf e = refl
  red_root-black (node l a b k r) e = ground arith

  height-le : (t : Tree K) → IsRedBlack t → height t ≤ 2 * black_height t + red_root t
  height-le leaf h = omega arith
  height-le (node l a true k r) (hl, hr, same, _) =
      let red = red_root-le l in
      let red' = red_root-le r in ground (arith, height-le l hl, height-le r hr)
  height-le (node l a false k r) (hl, hr, same, both) =
      let red = red_root-black l (ground arith) in
      let red' = red_root-black r (ground arith) in ground (arith, height-le l hl, height-le r hr)

  pow-black_height : (t : Tree K) → IsRedBlack t → 2 ^ black_height t ≤ size t + 1
  pow-black_height leaf h = omega arith
  pow-black_height (node l a true k r) (hl, hr, same, _) =
      let e = ap (λ (n : ℕ). 2 ^ n) same in
      rw (add-one (black_height l), pow-suc 2 (black_height l))
        (omega (arith, pow-black_height l hl, pow-black_height r hr, e))
  pow-black_height (node l a false k r) (hl, hr, same, _) =
      let e : black_height l + 0 ≡ black_height l = omega arith in
      rw e (omega (arith, pow-black_height l hl))

  -- Two to half the height of a red-black tree is at most one more than its number of nodes.
  pub height-size : (t : Tree K) → IsRedBlack t → 2 ^ (height t / 2) ≤ size t + 1
  height-size t h =
      let low : height t / 2 ≤ black_height t = omega (arith, height-le t h, red_root-le t) in
      omega (arith, pow-black_height t h, pow-le-pow_right {n = 2} (omega arith) low)
