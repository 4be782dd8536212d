-- ===== src/Fqueue/Transfer.antt =====
-- The iteration macros and `copy` of dsa/fqueue.h.
use native.Mathlib.Nat.{mod-eq_of_lt}
use native.Mathlib.Decide.{dec_le}
use mathlib.Core.List.{reverse, reverse-append}
use mathlib.Core.Path.{ap₂}
use dsa_c.Prelude.{
  ℕ, zero, suc, ◌+◌, ◌-◌, ◌%◌, ◌^◌, ◌<◌, ◌≡◌, refl, ap, sym, ◌∙◌, List, [], ◌∷◌, arith, leb, ◌==◌,
  true, false,
}
use dsa_c.Prelude.Array
use dsa_c.Prelude.Array.{Zeroed, length}
use dsa_c.Prelude.Ring.{mod-cases, wrap-sub-mod}
use dsa_c.Run.{
  ok, fault, out_of_bounds, Returns, returns, Returns-bind, Returns-inv, load-ok, store-out, ◌>>=◌,
}
use dsa_c.Word.{add32, sub32}
use dsa_c.Flexible.Loop.{
  gather, gather-suc, gather-ext, gather-shift, visit-eq-gather, copy_loop-Copied,
}
use dsa_c.Fqueue.{
  Fqueue, masked, is_empty, is_full, enqueue, dequeue, copy, for_each, for_each_reverse,
}
use dsa_c.Fqueue.Invariant.{IsValid, view, place, masked-mod, capacity-pos, end_inside}
use dsa_c.Fqueue.Calls.{place-lt}

module _ {A : Type 0} ⦃z : Zeroed A⦄ where
  step_place :
      (q : Fqueue A)
      → IsValid q
      → (i : ℕ) → i < q.count
      → masked q (add32 q.begin_index i) ≡ place q i
  step_place q v i h =
      let exact : add32 q.begin_index i ≡ q.begin_index + i =
        omega (arith, v.small, v.bounded, v.begin_inside) in
      ap (masked q) exact ∙ masked-mod q v (q.begin_index + i)

  for_each-view : (q : Fqueue A) → IsValid q → for_each q ≡ ok (view q)
  unfolding for_each
  for_each-view q v =
      let inside : (j : ℕ) → j < 0 + q.count → masked q (add32 q.begin_index j) < length q.values =
        λ j h. rw (step_place q v j (omega arith)) (place-lt q v j) in
      visit-eq-gather _ q.count 0 q.values inside
      ∙ ap ok (
          gather-ext _ (place q) q.count 0 q.values q.values
            λ j p r. ap (Array.get! q.values) (step_place q v j (omega arith)))

  gather-reverse :
      (index back : ℕ → ℕ) (n : ℕ) (values : List A)
      → ((j : ℕ) → j < n → index j ≡ back (n - 1 - j))
      → gather index n 0 values ≡ reverse (gather back n 0 values)
  gather-reverse index back zero values h = refl
  gather-reverse index back (suc n) values h =
      let first : index 0 ≡ back (0 + n) = h 0 (omega arith) ∙ ap back {y = 0 + n} (omega arith) in
      ap₂ ◌∷◌ (ap (Array.get! values) first) (
        gather-shift index n 0 values
        ∙ gather-reverse (λ j. index (suc j)) back n values
            (λ j p. h (suc j) (omega arith) ∙ ap back {y = n - 1 - j} (omega arith)))
      ∙ sym (reverse-append (gather back n 0 values) (Array.get! values (back (0 + n)) ∷ []))
      ∙ ap reverse (sym (gather-suc back n 0 values))

  step_back :
      (q : Fqueue A)
      → IsValid q
      → (i : ℕ) → i < q.count
      → masked q (sub32 (sub32 q.end_index 1) i) ≡ place q (q.count - 1 - i)
  step_back q v i h =
      masked-mod q v (sub32 (sub32 q.end_index 1) i) ∙ elim (dec_le (suc i) q.end_index) [
        | yes in_front ↦
            let exact : sub32 (sub32 q.end_index 1) i ≡ q.end_index - suc i =
              omega (arith, end_inside q v, v.small) in
            ap (λ x. x % q.capacity) exact
            ∙ mod-eq_of_lt (omega (arith, end_inside q v))
            ∙ omega (
              arith,
              v.end_follows,
              v.begin_inside,
              v.bounded,
              mod-cases (q.begin_index + q.count) q.capacity,
              mod-cases (q.begin_index + (q.count - 1 - i)) q.capacity,
            )
        | no behind ↦
            let d : ℕ = suc i - q.end_index in
            let exact : sub32 (sub32 q.end_index 1) i ≡ 2 ^ 32 - d =
              omega (arith, v.bounded, v.small) in
            ap (λ x. x % q.capacity) exact
            ∙ wrap-sub-mod q.capacity v.exponent v.power v.small d (omega arith)
                (omega (arith, v.bounded))
            ∙ omega (
              arith,
              v.end_follows,
              v.begin_inside,
              v.bounded,
              mod-cases (q.begin_index + q.count) q.capacity,
              mod-cases (q.begin_index + (q.count - 1 - i)) q.capacity,
            )
      ]

  for_each_reverse-view : (q : Fqueue A) → IsValid q → for_each_reverse q ≡ ok (reverse (view q))
  unfolding for_each_reverse
  for_each_reverse-view q v =
      let index = λ (i : ℕ). masked q (sub32 (sub32 q.end_index 1) i) in
      let inside : (j : ℕ) → j < 0 + q.count → index j < length q.values =
        λ j h. rw (step_back q v j (omega arith)) (place-lt q v (q.count - 1 - j)) in
      visit-eq-gather _ q.count 0 q.values inside
      ∙ ap ok (gather-reverse index (place q) q.count q.values (λ j p. step_back q v j p))

  -- On a valid queue the two iteration macros visit the values from front to back and from back to
  -- front.
  pub queue_for_each_lem :
      (q : Fqueue A)
      → IsValid q
      → (for_each q ≡ ok (view q)) × (for_each_reverse q ≡ ok (reverse (view q)))
  queue_for_each_lem q v = (for_each-view q v, for_each_reverse-view q v)

  -- Copying a valid queue into a valid empty one of larger capacity than its count returns a valid
  -- queue that holds the same values, of the destination's capacity.
  pub queue_copy_lem :
      (dest src : Fqueue A)
      → IsValid dest
      → IsValid src
      → dest.count ≡ 0
      → src.count < dest.capacity
      → Returns
          (λ d. IsValid d × (view d ≡ view src) × (d.capacity ≡ dest.capacity))
          (copy dest src)
  unfolding copy is_empty
  queue_copy_lem dest src vd vs e h =
      let room : leb src.count dest.capacity ≡ true = ground arith in
      let unused : (dest.count == 0) ≡ true = ground arith in
      rw (room, unused)
        (Returns-bind
          (copy_loop-Copied (λ i. masked src (add32 src.begin_index i)) src.count 0 src.values
            dest.values (λ j p. rw (step_place src vs j (omega arith)) (place-lt src vs j))
            (omega (arith, vd.allocated)))
          λ values c. returns (
            record {
              exponent = vd.exponent;
              power = vd.power;
              small = vd.small;
              allocated = rw c.size vd.allocated;
              bounded = omega arith;
              begin_inside = capacity-pos dest vd;
              end_follows =
                  sym (mod-eq_of_lt (omega arith))
                  ∙ ap (λ x. x % dest.capacity) {y = 0 + src.count} (omega arith);
            },
            gather-ext _ (place src) src.count 0 values src.values λ j p r.
                ap (Array.get! values) (before j (omega arith))
                ∙ c.copied j p r
                ∙ ap (Array.get! src.values) (step_place src vs j (omega arith)),
            refl,
          ))
    where
      before : (j : ℕ) → j < dest.capacity → (0 + j) % dest.capacity ≡ j
      before j p = mod-eq_of_lt (omega arith) ∙ omega arith

  -- After copying a valid queue that fills a valid empty destination with an array of just that
  -- capacity, a dequeue and an enqueue write outside the array.
  pub copy_overruns :
      (dest src : Fqueue A) (x : A)
      → IsValid dest
      → IsValid src
      → dest.count ≡ 0
      → src.count ≡ dest.capacity
      → length dest.values ≡ dest.capacity
      → (copy dest src >>= λ d. dequeue d >>= λ (_, d'). enqueue d' x) ≡ fault out_of_bounds
  unfolding copy is_empty dequeue enqueue is_full
  copy_overruns dest src x vd vs e full exact =
      let room : leb src.count dest.capacity ≡ true = ground arith in
      let unused : (dest.count == 0) ≡ true = ground arith in
      let positive = capacity-pos dest vd in
      let (values, copied, c) = Returns-inv (
        copy_loop-Copied (λ i. masked src (add32 src.begin_index i)) src.count 0 src.values
          dest.values (λ j p. rw (step_place src vs j (omega arith)) (place-lt src vs j))
          (omega (arith, vd.allocated))) in
      let filled : (src.count == 0) ≡ false = ground arith in
      let shorter : (sub32 src.count 1 == dest.capacity) ≡ false = ground (arith, vd.small) in
      rw
        (
          room,
          unused,
          copied,
          filled,
          load-ok values 0 (omega (arith, c.size)),
          shorter,
          store-out values src.count x (omega (arith, c.size)),
        )
        refl
