-- ===== src/Fpqueue/Invariant.antt =====
-- The invariant of a priority queue's struct, its contents, and what `create` gives.
use mathlib.Core.Logic.Or
use native.Mathlib.Bridge.{le_prop}
use mathlib.Core.List.{Mem, not-mem-nil, eq-or-mem_of_mem-cons}
use mathlib.Core.List.Perm
use dsa_c.Prelude.{
  ℕ, zero, suc, ◌+◌, ◌*◌, ◌^◌, ◌≤◌, ◌<◌, ◌≡◌, refl, sym, ◌∙◌, Bool, ◌&&◌, none, some, List, [], ◌∷◌,
  Perm, arith, ltb, leb, if◌then◌else◌, inl, inr, Bool-cases, some-inj, none-ne-some,
}
use mathlib.Core.Path.{subst}
use native.Mathlib.Nat.{mul-le-mul_left}
use dsa_c.Prelude.Array
use dsa_c.Prelude.Array.{Zeroed, length}
use dsa_c.Word.{uint32_max}
use dsa_c.Flexible.{Layout}
use dsa_c.Flexible.Size.{room_for-calc_sizeof, calc_sizeof_overflows-exact}
use dsa_c.Fpqueue.{Fpqueue, Element, Zeroed-Element, zeroed_block, init, create}
use dsa_c.Fpqueue.Order.{IsHeap}
use dsa_c.Fpqueue.Swap.{prio}

module _ {A : Type 0} where
  -- the elements in the order of the array
  abbrev pub contents : Fpqueue A → List (Element A)
  contents q = Array.take q.count q.elements

  -- no element of the list has a larger priority
  abbrev pub IsMax : Element A → List (Element A) → Type 0
  IsMax m xs = (e : Element A) → Mem e xs → e.priority ≤ m.priority

  pub IsMax-perm : (m : Element A) {xs ys : List (Element A)} → Perm xs ys → IsMax m xs → IsMax m ys
  IsMax-perm m p h e mem = h e ((Perm.mem_iff p).1 mem)

module _ {A : Type 0} ⦃z : Zeroed A⦄ where
  pub IsMax-take :
      (m : Element A) (n : ℕ) (xs : List (Element A))
      → ((i : ℕ) → i < n → i < length xs → prio xs i ≤ m.priority)
      → IsMax m (Array.take n xs)
  unfolding Array.get!
  IsMax-take m zero xs h e mem = absurd (not-mem-nil mem)
  IsMax-take m (suc n) [] h e mem = absurd (not-mem-nil mem)
  IsMax-take m (suc n) (x ∷ xs) h e mem =
      Or.elim le_prop (eq-or-mem_of_mem-cons mem) (λ p. rw p (h 0 (omega arith) (omega arith)))
        (IsMax-take m n xs (λ i a b. h (suc i) (omega arith) (omega arith)) e)

  pub record IsValid (q : Fpqueue A) : Type 0 where
    pub bounded : q.count ≤ q.capacity
    pub allocated : q.capacity ≤ length q.elements
    pub small : q.capacity < 2 ^ 31
    pub heap : IsHeap (prio q.elements) q.count

  -- For any 32-bit capacity, create gives a zeroed priority queue of that capacity if it is not 0,
  -- its size fits 32 bits and calloc finds the memory, otherwise NULL.
  pub bag_create_lem :
      (l : Layout) (granted : Bool) (capacity : ℕ)
      → capacity ≤ uint32_max
      → create l granted capacity ≡ (
          if ltb 0 capacity && (leb (l.offset + capacity * l.elem_size) uint32_max && granted)
          then some (record {
            count = 0;
            capacity = capacity;
            elements = Array.replicate capacity (record { priority = 0; value = z.zero_value });
          })
          else none)
  unfolding create zeroed_block init
  bag_create_lem l granted capacity fits =
      ground
        (arith, room_for-calc_sizeof l capacity fits, calc_sizeof_overflows-exact l capacity fits)

  -- What create gives for a 32-bit capacity and elements of at least 4 bytes is a valid empty
  -- priority queue of that capacity.
  pub bag_create-IsValid :
      (l : Layout) (granted : Bool) (capacity : ℕ) {q : Fpqueue A}
      → 4 ≤ l.elem_size
      → capacity ≤ uint32_max
      → create l granted capacity ≡ some q
      → IsValid q × (contents q ≡ []) × (q.capacity ≡ capacity)
  bag_create-IsValid l granted capacity {q} wide fits e =
      let blank : Element A = record { priority = 0; value = z.zero_value } in
      let outcome = sym (bag_create_lem l granted capacity fits) ∙ e in
      elim (Bool-cases
        (ltb 0 capacity && (leb (l.offset + capacity * l.elem_size) uint32_max && granted))) [
          | inl made ↦
              subst (λ q. IsValid q × (contents q ≡ []) × (q.capacity ≡ capacity))
                (some-inj (rw made at outcome))
                (
                  record {
                    bounded = omega arith;
                    allocated = omega (arith, Array.length-replicate capacity blank);
                    small = limit (ground arith);
                    heap = λ j pos inside. absurd (omega arith);
                  },
                  refl,
                  refl,
                )
          | inr null ↦ absurd (none-ne-some (rw null at outcome))
        ]
    where
      limit : l.offset + capacity * l.elem_size ≤ uint32_max → capacity < 2 ^ 31
      limit h = omega (arith, h, mul-le-mul_left capacity wide)
