-- ===== src/Fpqueue/Calls.antt =====
-- The operations of dsa/fpqueue.h on a valid queue.
use mathlib.Core.List.Perm
use mathlib.Core.Path.{subst}
use dsa_c.Prelude.{
  ℕ, zero, suc, ◌-◌, ◌/◌, ◌<◌, ◌≡◌, ◌≢◌, refl, sym, true, false, List, [], ◌∷◌, Perm, arith, ltb,
  ◌==◌,
}
use dsa_c.Prelude.Array
use dsa_c.Prelude.Array.{Zeroed, length}
use dsa_c.Run.{Returns, returns, Returns-bind, Returns-inv, load-ok, store-ok}
use dsa_c.Word.{add32, sub32}
use dsa_c.Fpqueue.{
  Fpqueue, Element, Zeroed-Element, is_empty, is_full, push, pop_max, upheap, downheap,
}
use dsa_c.Fpqueue.Order.{IsHeap, HeapAbove, HeapBelow, root_top}
use dsa_c.Fpqueue.Swap.{prio}
use dsa_c.Fpqueue.Upheap.{upheap_loop-Heaped}
use dsa_c.Fpqueue.Downheap.{downheap_loop-Heaped}
use dsa_c.Fpqueue.Invariant.{IsValid, contents, IsMax, IsMax-take}

module _ {A : Type 0} ⦃z : Zeroed A⦄ where
  -- after a write at the end only the new element can be out of order
  pushed-HeapAbove :
      (xs : List (Element A)) (n : ℕ) (x : Element A)
      → IsHeap (prio xs) n
      → n < length xs
      → HeapAbove (prio (Array.set xs n x)) (suc n) n
  pushed-HeapAbove xs n x h inside = record {
    others = λ j pos r ne.
        rw (prio, Array.get!-set xs n j x inside, Array.get!-set xs n ((j - 1) / 2) x inside)
          (ground (arith, h j pos (omega arith)));
    across = λ j pos r below up. absurd (omega arith);
  }

  -- after the last element came to the root only the root can be out of order
  moved-HeapBelow :
      (xs : List (Element A)) (n : ℕ) (x : Element A)
      → IsHeap (prio xs) (suc n)
      → 0 < length xs
      → HeapBelow (prio (Array.set xs 0 x)) n 0
  moved-HeapBelow xs n x h inside = record {
    others = λ j pos r ne.
        rw (prio, Array.get!-set xs 0 j x inside, Array.get!-set xs 0 ((j - 1) / 2) x inside)
          (ground (arith, h j pos (omega arith)));
    across = λ j pos r below up. absurd (omega arith);
  }

  -- A push on a valid priority queue that is not full returns a valid queue of the same capacity
  -- whose elements are the old ones and the new one.
  pub push_lem :
      (q : Fpqueue A) (value : A) (priority : ℕ)
      → IsValid q
      → q.count < q.capacity
      → Returns
          (λ q'.
            IsValid q'
            × Perm (contents q') (record { priority = priority; value = value } ∷ contents q)
            × (q'.capacity ≡ q.capacity))
          (push q value priority)
  unfolding push is_full upheap
  push_lem q value priority v room =
      let x : Element A = record { priority = priority; value = value } in
      let n = q.count in
      let not_full : (n == q.capacity) ≡ false = ground arith in
      let next : add32 n 1 ≡ suc n = omega (arith, v.small) in
      let within : ltb n (suc n) ≡ true = ground arith in
      let ys = Array.set q.elements n x in
      let size = Array.length-set q.elements n x in
      rw (not_full, store-ok q.elements n x (omega (arith, v.allocated)), next, within)
        (Returns-bind
          (upheap_loop-Heaped n (suc n) n ys
            (pushed-HeapAbove q.elements n x v.heap (omega (arith, v.allocated))) (omega arith)
            (omega arith) (omega (arith, size, v.allocated)) (omega (arith, v.small)))
          λ zs h. returns (
            record {
              bounded = omega arith;
              allocated = omega (arith, h.size, size, v.allocated);
              small = v.small;
              heap = h.heap;
            },
            Perm.trans h.perm (
                rw (Array.take-set_next n q.elements x (omega (arith, v.allocated)))
                  (Array.snoc-perm (contents q) x)),
            refl,
          ))

  -- what leaves and what stays, when the last element takes the place of the first
  moved-perm :
      (n : ℕ) (xs : List (Element A))
      → n < length xs
      → Perm
          (Array.take (suc n) xs)
          (Array.get! xs 0 ∷ Array.take n (Array.set xs 0 (Array.get! xs n)))
  unfolding Array.get!
  moved-perm zero [] inside = absurd (omega arith)
  moved-perm zero (x ∷ xs) inside = Perm.refl _
  moved-perm (suc n) xs inside =
      let k : ℕ = suc n in
      let front = Array.take k xs in
      let last = Array.get! xs k in
      let traded =
        Array.set-perm front 0 last (omega (arith, Array.length-take k xs (omega arith))) in
      rw (Array.take-suc k xs inside, Array.take-set k xs 0 last)
        (Perm.trans (Array.snoc-perm front last)
          (Perm.symm (rw (Array.get!-take k xs 0 (omega arith)) at traded)))

  pub root-IsMax : (q : Fpqueue A) → IsValid q → IsMax (Array.get! q.elements 0) (contents q)
  root-IsMax q v =
      IsMax-take (Array.get! q.elements 0) q.count q.elements
        λ i p r. root_top (prio q.elements) q.count i i v.heap (omega arith) p

  -- A removal from a valid priority queue that is not empty returns the value of an element of
  -- largest priority and leaves a valid queue of the same capacity with the other elements.
  pub pop_max_lem :
      (q : Fpqueue A)
      → IsValid q
      → q.count ≢ 0
      → Returns
          (λ (value, q').
            (m : Element A) × (value ≡ m.value)
            × IsMax m (contents q)
            × Perm (contents q) (m ∷ contents q')
            × IsValid q'
            × (q'.capacity ≡ q.capacity))
          (pop_max q)
  unfolding pop_max is_empty downheap
  pop_max_lem q v ne =
      let n : ℕ = q.count - 1 in
      let xs = q.elements in
      let filled : (q.count == 0) ≡ false = ground arith in
      let below : sub32 q.count 1 ≡ n = omega (arith, v.small, v.bounded) in
      let whole : q.count ≡ suc n = omega arith in
      let first = Array.get! xs 0 in
      let last = Array.get! xs n in
      let ys = Array.set xs 0 last in
      let size = Array.length-set xs 0 last in
      let (zs, settles, h) = Returns-inv (
        downheap_loop-Heaped (suc n) n 0 ys
          (moved-HeapBelow xs n last (rw whole at v.heap) (omega (arith, v.allocated, v.bounded)))
          (omega arith) (omega arith) (omega (arith, size, v.allocated, v.bounded))
          (omega (arith, v.small, v.bounded)) (omega arith)) in
      rw
        (
          filled,
          below,
          load-ok xs 0 (omega (arith, v.allocated, v.bounded)),
          load-ok xs n (omega (arith, v.allocated, v.bounded)),
          store-ok xs 0 last (omega (arith, v.allocated, v.bounded)),
          settles,
        )
        (returns (
          first,
          refl,
          root-IsMax q v,
          Perm.trans
              (subst (λ c. Perm (Array.take c xs) (first ∷ Array.take n ys)) (sym whole)
                (moved-perm n xs (omega (arith, v.allocated, v.bounded))))
              (Perm.cons first (Perm.symm h.perm)),
          record {
            bounded = omega (arith, v.bounded);
            allocated = omega (arith, h.size, size, v.allocated);
            small = v.small;
            heap = h.heap;
          },
          refl,
        ))
