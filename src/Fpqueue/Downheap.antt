-- ===== src/Fpqueue/Downheap.antt =====
-- `downheap` of dsa/fpqueue.h restores the heap after a removal, within its fuel, and keeps the
-- elements.
use native.Mathlib.Decide.{ℕ_discrete}
use mathlib.Core.List.Perm
use dsa_c.Prelude.{
  ℕ, zero, suc, ◌+◌, ◌-◌, ◌*◌, ◌^◌, ◌≤◌, ◌<◌, ◌≡◌, refl, sym, inl, inr, List, Bool-cases, ltb,
  ltb→lt, true, false, ◌==◌, ◌&&◌, ◌||◌, arith,
}
use dsa_c.Prelude.Array.{Zeroed, length}
use dsa_c.Run.{ok, Returns, returns, Returns-bind, Returns-map, load-ok}
use dsa_c.Fpqueue.{
  Element, Zeroed-Element, left_child, right_child, is_larger, largest_of, downheap_loop,
}
use dsa_c.Fpqueue.Order.{HeapBelow, Largest, largest, settled, down-step}
use dsa_c.Fpqueue.Swap.{prio, swap-Swapped}
use dsa_c.Fpqueue.Upheap.{Heaped, Heaped-after}

module _ {A : Type 0} ⦃z : Zeroed A⦄ where
  is_larger-eq :
      (xs : List (Element A)) (n c l : ℕ)
      → l ≤ c
      → n ≤ length xs
      → is_larger xs n c l ≡ ok (ltb c n && ltb (prio xs l) (prio xs c))
  unfolding is_larger
  is_larger-eq xs n c l below fits = elim (Bool-cases (ltb c n)) [
    | inl within ↦
        let inside : c < n = ltb→lt _ _ within in
        rw (within, load-ok xs c (omega arith), load-ok xs l (omega arith)) refl
    | inr outside ↦ rw outside refl
  ]

  pub largest_of-Largest :
      (xs : List (Element A)) (n i : ℕ)
      → i < 2 ^ 31 - 1
      → n ≤ length xs
      → Returns (Largest (prio xs) n i) (largest_of xs n i)
  unfolding largest_of
  largest_of-Largest xs n i small fits =
      let f = prio xs in
      let l : ℕ = 2 * i + 1 in
      let r : ℕ = 2 * i + 2 in
      let left : left_child i ≡ l = omega arith in
      let right : right_child i ≡ r = omega arith in
      rw (left, right, is_larger-eq xs n l i (omega arith) fits)
        (elim (Bool-cases (ltb l n && ltb (f i) (f l))) [
          | inl up ↦
              rw (up, is_larger-eq xs n r l (omega arith) fits)
                (elim (Bool-cases (ltb r n && ltb (f l) (f r))) [
                  | inl up' ↦ rw up' (
                      returns (
                        largest f n i r (λ p. ground arith) (λ p. ground arith)
                          (λ ne. (omega arith, ground arith, omega arith, ground arith))))
                  | inr no_up' ↦ rw no_up' (
                      returns (
                        largest f n i l (λ p. ground arith) (λ p. ground arith)
                          (λ ne. (omega arith, ground arith, omega arith, ground arith))))
                ])
          | inr no_up ↦
              rw (no_up, is_larger-eq xs n r i (omega arith) fits)
                (elim (Bool-cases (ltb r n && ltb (f i) (f r))) [
                  | inl up' ↦ rw up' (
                      returns (
                        largest f n i r (λ p. ground arith) (λ p. ground arith)
                          (λ ne. (omega arith, ground arith, omega arith, ground arith))))
                  | inr no_up' ↦ rw no_up' (
                      returns (
                        largest f n i i (λ p. ground arith) (λ p. ground arith)
                          (λ ne. (omega arith, ground arith, omega arith, ground arith))))
                ])
        ])

  pub downheap_loop-Heaped :
      (fuel n i : ℕ) (xs : List (Element A))
      → HeapBelow (prio xs) n i
      → n < i + fuel
      → i ≤ n - 1
      → n ≤ length xs
      → n < 2 ^ 31
      → i < 2 ^ 31 - 1
      → Returns (Heaped n xs) (downheap_loop fuel xs n i)
  unfolding downheap_loop
  downheap_loop-Heaped zero n i xs h enough inside fits small small' = absurd (omega arith)
  downheap_loop-Heaped (suc fuel) n i xs h enough inside fits small small' =
      let reached : (n == 0 || ltb i n) ≡ true = ground arith in
      rw reached (
        Returns-bind (largest_of-Largest xs n i small' fits) λ r w. elim (ℕ_discrete r i) [
          | yes same ↦
              let stop : (r == i) ≡ true = ground arith in
              rw stop (
                returns (record {
                  size = refl;
                  heap = settled (prio xs) n i h (rw same at w);
                  perm = Perm.refl _;
                }))
          | no ne ↦
              let go : (r == i) ≡ false = ground arith in
              let (pos, child_inside, child_of, less) = w.child ne in
              rw go (
                Returns-bind
                  (swap-Swapped n xs i r (λ e. ne (sym e)) (omega arith) child_inside fits)
                  λ ys s.
                    Returns-map
                      (downheap_loop-Heaped fuel n r ys
                        (down-step (prio xs) (prio ys) n i r h pos child_inside child_of less w.top
                          s.exchanged)
                        (omega arith) (omega arith) (omega (arith, s.size)) small (omega arith))
                      λ zs. Heaped-after s)
        ])
