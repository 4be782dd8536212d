-- ===== src/Fstack/Transfer.antt =====
-- The iteration macros and `copy` of dsa/fstack.h.
use mathlib.Core.List.{reverse, reverse-cons}
use mathlib.Core.Path.{ap₂}
use dsa_c.Prelude.{
  ℕ, zero, suc, ◌+◌, ◌-◌, ◌≤◌, ◌<◌, ◌≡◌, refl, ap, sym, ◌∙◌, List, [], ◌∷◌, ◌++◌, arith, leb, ◌==◌,
  true,
}
use dsa_c.Prelude.Array
use dsa_c.Prelude.Array.{Zeroed, length}
use dsa_c.Run.{ok, Returns, returns, Returns-bind}
use dsa_c.Flexible.Loop.{gather, gather-suc, visit-eq-gather, copy_loop-Copied}
use dsa_c.Fstack.{Fstack, is_empty, copy, for_each, for_each_reverse}
use dsa_c.Fstack.Invariant.{IsValid, view, top_down, top_down-ext}

module _ {A : Type 0} ⦃z : Zeroed A⦄ where
  gather-top_down :
      (index : ℕ → ℕ) (n i : ℕ) (values : List A)
      → ((j : ℕ) → j < n → index (i + j) ≡ n - 1 - j)
      → gather index n i values ≡ top_down values n
  gather-top_down index zero i values h = refl
  gather-top_down index (suc n) i values h =
      let first : index i ≡ n =
        ap index {y = i + 0} (omega arith) ∙ h 0 (omega arith) ∙ omega arith in
      ap₂ ◌∷◌ (ap (Array.get! values) first) (
        gather-top_down index n (suc i) values
          λ j p. ap index {y = i + suc j} (omega arith) ∙ h (suc j) (omega arith) ∙ omega arith)

  gather-bottom_up :
      (n : ℕ) (values : List A) → gather (λ i. i) n 0 values ≡ reverse (top_down values n)
  gather-bottom_up zero values = refl
  gather-bottom_up (suc n) values =
      gather-suc (λ i. i) n 0 values
      ∙ ap₂ ◌++◌ (gather-bottom_up n values)
          (ap (λ k. Array.get! values k ∷ []) {y = n} (omega arith))
      ∙ sym (reverse-cons (Array.get! values n) (top_down values n))

  -- On a valid stack the two iteration macros visit the values from the top down and from the
  -- bottom up.
  pub stack_for_each_lem :
      (s : Fstack A)
      → IsValid s
      → (for_each s ≡ ok (view s)) × (for_each_reverse s ≡ ok (reverse (view s)))
  unfolding for_each for_each_reverse
  stack_for_each_lem s v = (
    visit-eq-gather _ s.count 0 s.values (λ j p. omega arith)
        ∙ ap ok (gather-top_down _ s.count 0 s.values (λ j p. omega arith)),
    visit-eq-gather _ s.count 0 s.values (λ j p. omega arith)
        ∙ ap ok (gather-bottom_up s.count s.values),
  )

  -- Copying a valid stack into a valid empty one with enough capacity returns a valid stack that
  -- holds the same values, of the destination's capacity.
  pub stack_copy_lem :
      (dest src : Fstack A)
      → IsValid dest
      → IsValid src
      → dest.count ≡ 0
      → src.count ≤ dest.capacity
      → Returns
          (λ d. IsValid d × (view d ≡ view src) × (d.capacity ≡ dest.capacity))
          (copy dest src)
  unfolding copy is_empty
  stack_copy_lem dest src vd vs e h =
      let room : leb src.count dest.capacity ≡ true = ground arith in
      let unused : (dest.count == 0) ≡ true = ground arith in
      rw (room, unused)
        (Returns-bind
          (copy_loop-Copied (λ i. i) src.count 0 src.values dest.values (λ j p. omega arith)
            (omega arith))
          λ values c. returns (
            record { bounded = h; allocated = rw c.size vd.allocated; small = vd.small },
            top_down-ext values src.values src.count
                (λ j p. c.copied j (omega arith) (omega arith)),
            refl,
          ))
