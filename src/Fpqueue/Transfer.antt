-- ===== src/Fpqueue/Transfer.antt =====
-- `copy` and the iteration macro of dsa/fpqueue.h.
use mathlib.Core.List.{map}
use dsa_c.Prelude.{
  ℕ, zero, suc, ◌-◌, ◌/◌, ◌≤◌, ◌<◌, ◌≡◌, refl, ap, ◌∙◌, List, [], ◌∷◌, true, arith, leb, ◌==◌,
}
use dsa_c.Prelude.Array
use dsa_c.Prelude.Array.{Zeroed, length}
use dsa_c.Run.{ok, Returns, returns, Returns-bind}
use dsa_c.Flexible.Loop.{gather, gather-shift, visit-eq-gather, copy_loop-Copied}
use dsa_c.Fpqueue.{Fpqueue, Element, Zeroed-Element, is_empty, copy, for_each}
use dsa_c.Fpqueue.Order.{IsHeap}
use dsa_c.Fpqueue.Swap.{prio}
use dsa_c.Fpqueue.Invariant.{IsValid, contents}

gather-take {ℓ} :
    {A : Type ℓ} ⦃z : Zeroed A⦄ (n : ℕ) (xs : List A)
    → n ≤ length xs
    → gather (λ i. i) n 0 xs ≡ Array.take n xs
unfolding Array.get!
gather-take zero xs h = refl
gather-take (suc n) [] h = absurd (omega arith)
gather-take (suc n) (x ∷ xs) h =
    ap (◌∷◌ x)
      (gather-shift (λ i. i) n 0 (x ∷ xs) ∙ gather-tail n 0 ∙ gather-take n xs (omega arith))
  where
    gather-tail : (k i : ℕ) → gather (λ j. suc j) k i (x ∷ xs) ≡ gather (λ j. j) k i xs
    gather-tail zero i = refl
    gather-tail (suc k) i = ap (◌∷◌ (Array.get! xs i)) (gather-tail k (suc i))

module _ {A : Type 0} ⦃z : Zeroed A⦄ where
  -- On a valid queue `fpqueue_for_each` visits the value of each element once, in the order of the
  -- array.
  pub bag_for_each_lem :
      (q : Fpqueue A) → IsValid q → for_each q ≡ ok (map (λ e. e.value) (contents q))
  unfolding for_each
  bag_for_each_lem q v =
      rw
        (
          visit-eq-gather (λ i. i) q.count 0 q.elements
              (λ j p. omega (arith, v.bounded, v.allocated)),
          gather-take q.count q.elements (omega (arith, v.bounded, v.allocated)),
        )
        refl

  same-IsHeap :
      (xs ys : List (Element A)) (n : ℕ)
      → IsHeap (prio xs) n
      → ((j : ℕ) → j < n → Array.get! ys j ≡ Array.get! xs j)
      → IsHeap (prio ys) n
  same-IsHeap xs ys n h same j pos inside =
      rw (prio, same j inside, same ((j - 1) / 2) (omega arith)) (h j pos inside)

  -- Copying a valid priority queue into a valid empty one with enough capacity returns a valid
  -- queue with the same elements in the same order, of the destination's capacity.
  pub bag_copy_lem :
      (dest src : Fpqueue A)
      → IsValid dest
      → IsValid src
      → dest.count ≡ 0
      → src.count ≤ dest.capacity
      → Returns
          (λ d. IsValid d × (contents d ≡ contents src) × (d.capacity ≡ dest.capacity))
          (copy dest src)
  unfolding copy is_empty
  bag_copy_lem dest src vd vs e h =
      let room : leb src.count dest.capacity ≡ true = ground arith in
      let unused : (dest.count == 0) ≡ true = ground arith in
      rw (room, unused)
        (Returns-bind
          (copy_loop-Copied (λ i. i) src.count 0 src.elements dest.elements
            (λ j p. omega (arith, vs.bounded, vs.allocated)) (omega (arith, vd.allocated)))
          λ elements c.
            let same = λ (j : ℕ) (p : j < src.count). c.copied j (omega arith) (omega arith) in
            returns (
              record {
                bounded = h;
                allocated = rw c.size vd.allocated;
                small = vd.small;
                heap = same-IsHeap src.elements elements src.count vs.heap same;
              },
              Array.take-ext src.count elements src.elements (omega (arith, c.size, vd.allocated))
                  (omega (arith, vs.bounded, vs.allocated)) same,
              refl,
            ))
