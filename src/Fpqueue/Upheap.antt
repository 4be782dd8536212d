-- ===== src/Fpqueue/Upheap.antt =====
-- `upheap` of dsa/fpqueue.h restores the heap after a push, within its fuel, and keeps the elements.
use native.Mathlib.Decide.{ℕ_discrete}
use mathlib.Core.List.Perm
use dsa_c.Prelude.{
  ℕ, zero, suc, ◌-◌, ◌/◌, ◌^◌, ◌≤◌, ◌<◌, ◌≡◌, refl, ◌∙◌, inl, inr, List, Perm, Bool-cases, leb,
  leb→le, true, false, ◌==◌, arith,
}
use dsa_c.Prelude.Array
use dsa_c.Prelude.Array.{Zeroed, length}
use dsa_c.Run.{Returns, returns, Returns-bind, Returns-map, load-ok}
use dsa_c.Fpqueue.{Element, Zeroed-Element, parent, upheap_loop}
use dsa_c.Fpqueue.Order.{IsHeap, HeapAbove, at_root, in_order, up-step}
use dsa_c.Fpqueue.Swap.{prio, Swapped, swap-Swapped}

module _ {A : Type 0} ⦃z : Zeroed A⦄ where
  -- a heap of the same elements in an array of the same length
  pub record Heaped (n : ℕ) (xs ys : List (Element A)) : Type 0 where
    pub size : length ys ≡ length xs
    pub heap : IsHeap (prio ys) n
    pub perm : Perm (Array.take n ys) (Array.take n xs)

  pub Heaped-after :
      {n i j : ℕ} {xs ys zs : List (Element A)}
      → Swapped n i j xs ys
      → Heaped n ys zs
      → Heaped n xs zs
  Heaped-after s h = record {
    size = h.size ∙ s.size;
    heap = h.heap;
    perm = Perm.trans h.perm s.perm;
  }

  pub upheap_loop-Heaped :
      (fuel n i : ℕ) (xs : List (Element A))
      → HeapAbove (prio xs) n i
      → i ≤ fuel
      → i < n
      → n ≤ length xs
      → n < 2 ^ 32
      → Returns (Heaped n xs) (upheap_loop fuel xs i)
  unfolding upheap_loop
  upheap_loop-Heaped zero n i xs h enough inside fits small =
      let root : i ≡ 0 = omega arith in
      let stop : (i == 0) ≡ true = ground arith in
      rw stop
        (returns (record { size = refl; heap = at_root (prio xs) n i h root; perm = Perm.refl _ }))
  upheap_loop-Heaped (suc fuel) n i xs h enough inside fits small = elim (ℕ_discrete i 0) [
    | yes root ↦
        let stop : (i == 0) ≡ true = ground arith in
        rw stop (
          returns (record { size = refl; heap = at_root (prio xs) n i h root; perm = Perm.refl _ }))
    | no ne ↦
        let p : ℕ = (i - 1) / 2 in
        let go : (i == 0) ≡ false = ground arith in
        let above : parent i ≡ p = omega arith in
        rw (go, above, load-ok xs p (omega arith), load-ok xs i (omega arith))
          (elim (Bool-cases (leb (prio xs i) (prio xs p))) [
            | inl sorted ↦ rw sorted (
                returns (record {
                  size = refl;
                  heap = in_order (prio xs) n i h (leb→le _ _ sorted);
                  perm = Perm.refl _;
                }))
            | inr unsorted ↦
                let less : prio xs p < prio xs i = ground arith in
                rw unsorted (
                  Returns-bind (swap-Swapped n xs i p (omega arith) inside (omega arith) fits)
                    λ ys s.
                      Returns-map
                        (upheap_loop-Heaped fuel n p ys
                          (up-step (prio xs) (prio ys) n i h (omega arith) inside less s.exchanged)
                          (omega arith) (omega arith) (omega (arith, s.size)) small)
                        λ zs. Heaped-after s)
          ])
  ]
