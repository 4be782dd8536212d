-- ===== src/Fqueue/Calls.antt =====
-- What `enqueue` and `dequeue` do to a valid queue, and where its indices point.
use native.Mathlib.Decide.{ℕ_discrete}
use native.Mathlib.Nat.{mod-lt, mod-eq_of_lt, mod-add-mod}
use native.Mathlib.Numerals.{add-one}
use mathlib.Core.Path.{ap₂, subst}
use dsa_c.Prelude.{
  ℕ, suc, ◌+◌, ◌-◌, ◌%◌, ◌^◌, ◌<◌, ◌≡◌, ◌≢◌, refl, ap, sym, ◌∙◌, Bool, true, false, [], ◌∷◌, ◌++◌,
  arith, ◌==◌,
}
use dsa_c.Prelude.Array
use dsa_c.Prelude.Array.{Zeroed, length}
use dsa_c.Prelude.Ring.{add-mod-ne, add-mod-suc, mod-cases, wrap-mod}
use dsa_c.Run.{ok, fault, assertion, fault-ne-ok, ok-injective, load-ok, store-ok}
use dsa_c.Word.{add32, sub32}
use dsa_c.Flexible.Loop.{gather, gather-suc, gather-ext, gather-shift}
use dsa_c.Fqueue.{Fqueue, masked, is_empty, is_full, enqueue, dequeue}
use dsa_c.Fqueue.Invariant.{IsValid, view, place, masked-mod, capacity-pos, end_inside}

module _ {A : Type 0} ⦃z : Zeroed A⦄ (q : Fqueue A) (v : IsValid q) where
  pub next_begin : masked q (add32 q.begin_index 1) ≡ (q.begin_index + 1) % q.capacity
  next_begin =
      let exact : add32 q.begin_index 1 ≡ q.begin_index + 1 = omega arith in
      ap (masked q) exact ∙ masked-mod q v (q.begin_index + 1)

  pub next_end : masked q (add32 q.end_index 1) ≡ place q (q.count + 1)
  next_end =
      let exact : add32 q.end_index 1 ≡ q.end_index + 1 = omega (arith, end_inside q v) in
      ap (masked q) exact
      ∙ masked-mod q v (q.end_index + 1)
      ∙ ap (λ e. (e + 1) % q.capacity) v.end_follows
      ∙ mod-add-mod (q.begin_index + q.count) q.capacity 1
      ∙ ap (λ x. x % q.capacity) {y = q.begin_index + (q.count + 1)} (omega arith)

  pub view-enqueue :
      (x : A)
      → q.count < q.capacity
      → gather (place q) (q.count + 1) 0 (Array.set q.values q.end_index x) ≡ view q ++ x ∷ []
  view-enqueue x h =
      let written = Array.get!-set q.values q.end_index in
      let inside : q.end_index < length q.values = omega (arith, end_inside q v, v.allocated) in
      let last : q.end_index ≡ place q (0 + q.count) =
        v.end_follows ∙ ap (place q) {y = 0 + q.count} (omega arith) in
      let kept =
        gather-ext (place q) (place q) q.count 0 (Array.set q.values q.end_index x) q.values
          λ j p r. ground (
            arith,
            written (place q j) x inside,
            v.end_follows,
            add-mod-ne q.capacity q.begin_index v.begin_inside j q.count,
          ) in
      rw (add-one, gather-suc)
        (ap₂ ◌++◌ kept
          (ap (λ y. y ∷ []) (rw (← last) (rw (written q.end_index x inside) (ground arith)))))

  pub view-dequeue :
      q.count ≢ 0
      → view q
        ≡ Array.get! q.values q.begin_index
          ∷ gather
              (λ i. ((q.begin_index + 1) % q.capacity + i) % q.capacity)
              (q.count - 1)
              0
              q.values
  view-dequeue h =
      let more : q.count ≡ suc (q.count - 1) = omega arith in
      let first : place q 0 ≡ q.begin_index =
        ap (λ x. x % q.capacity) {y = q.begin_index} (omega arith) ∙ mod-eq_of_lt v.begin_inside in
      ap (λ n. gather (place q) n 0 q.values) more
      ∙ ap₂ ◌∷◌ (ap (Array.get! q.values) first) (
          gather-shift (place q) (q.count - 1) 0 q.values
          ∙ gather-ext _ _ (q.count - 1) 0 q.values q.values λ j p r.
            ap (Array.get! q.values) (sym (add-mod-suc q.capacity q.begin_index v.begin_inside j)))

  -- the queue after a call that returns
  abbrev pub enqueued : A → Fqueue A
  enqueued x = record q {
    end_index = place q (q.count + 1);
    count = q.count + 1;
    values = Array.set q.values q.end_index x;
  }

  abbrev pub dequeued : Fqueue A
  dequeued = record q { begin_index = (q.begin_index + 1) % q.capacity; count = q.count - 1 }

  pub enqueue-eq : (x : A) → q.count < q.capacity → enqueue q x ≡ ok (true, enqueued x)
  unfolding enqueue is_full
  enqueue-eq x room =
      let inside : q.end_index < length q.values = omega (arith, end_inside q v, v.allocated) in
      let exact : add32 q.count 1 ≡ q.count + 1 = omega (arith, v.small) in
      let not_full : (q.count == q.capacity) ≡ false = ground arith in
      rw (not_full, store-ok q.values q.end_index x inside, next_end, exact) refl

  pub dequeue-eq : q.count ≢ 0 → dequeue q ≡ ok (Array.get! q.values q.begin_index, dequeued)
  unfolding dequeue is_empty
  dequeue-eq ne =
      let inside : q.begin_index < length q.values = omega (arith, v.begin_inside, v.allocated) in
      let exact : sub32 q.count 1 ≡ q.count - 1 = omega (arith, v.small, v.bounded) in
      let not_empty : (q.count == 0) ≡ false = ground arith in
      rw (not_empty, load-ok q.values q.begin_index inside, next_begin, exact) refl

  enqueue-full : (x : A) → q.count ≡ q.capacity → enqueue q x ≡ fault assertion
  unfolding enqueue is_full
  enqueue-full x full = let e : (q.count == q.capacity) ≡ true = ground arith in rw e

  dequeue-empty : q.count ≡ 0 → dequeue q ≡ fault assertion
  unfolding dequeue is_empty
  dequeue-empty none_left = let e : (q.count == 0) ≡ true = ground arith in rw e

  enqueued-IsValid : (x : A) → q.count < q.capacity → IsValid (enqueued x)
  enqueued-IsValid x room = record {
    exponent = v.exponent;
    allocated = omega (arith, v.allocated, Array.length-set q.values q.end_index x);
    bounded = omega arith;
    begin_inside = v.begin_inside;
    end_follows = refl;
    power = v.power;
    small = v.small;
  }

  dequeued-IsValid : q.count ≢ 0 → IsValid dequeued
  dequeued-IsValid ne = record {
    exponent = v.exponent;
    allocated = v.allocated;
    bounded = omega (arith, v.bounded);
    begin_inside = mod-lt (q.begin_index + 1) (capacity-pos q v);
    end_follows =
        v.end_follows
        ∙ ap (place q) {y = suc (q.count - 1)} (omega arith)
        ∙ sym (add-mod-suc q.capacity q.begin_index v.begin_inside (q.count - 1));
    power = v.power;
    small = v.small;
  }

  pub enqueue-IsValid :
      (x : A) {b : Bool} {q' : Fqueue A}
      → enqueue q x ≡ ok (b, q')
      → IsValid q' × (q'.capacity ≡ q.capacity)
  enqueue-IsValid x {b} {q'} e = elim (ℕ_discrete q.count q.capacity) [
    | yes full ↦ absurd (fault-ne-ok (sym (enqueue-full x full) ∙ e))
    | no ne ↦
        let room : q.count < q.capacity = omega (arith, v.bounded) in
        let same = ok-injective (sym (enqueue-eq x room) ∙ e) in
        subst (λ r. IsValid r.1 × (r.1.capacity ≡ q.capacity)) same (enqueued-IsValid x room, refl)
  ]

  pub dequeue-IsValid :
      {x : A} {q' : Fqueue A} → dequeue q ≡ ok (x, q') → IsValid q' × (q'.capacity ≡ q.capacity)
  dequeue-IsValid {x} {q'} e = elim (ℕ_discrete q.count 0) [
    | yes none_left ↦ absurd (fault-ne-ok (sym (dequeue-empty none_left) ∙ e))
    | no ne ↦
        let same = ok-injective (sym (dequeue-eq ne) ∙ e) in
        subst (λ r. IsValid r.1 × (r.1.capacity ≡ q.capacity)) same (dequeued-IsValid ne, refl)
  ]

  -- the index before the end is the place of the last value
  pub last_place : q.count ≢ 0 → masked q (sub32 q.end_index 1) ≡ place q (q.count - 1)
  last_place ne = elim (ℕ_discrete q.end_index 0) [
    | yes e ↦
        let before : sub32 q.end_index 1 ≡ 2 ^ 32 - 1 = omega arith in
        ap (masked q) before
        ∙ masked-mod q v (2 ^ 32 - 1)
        ∙ wrap-mod q.capacity v.exponent v.power v.small
        ∙ omega (
          arith,
          v.begin_inside,
          v.bounded,
          v.end_follows,
          mod-cases (q.begin_index + q.count) q.capacity,
          mod-cases (q.begin_index + (q.count - 1)) q.capacity,
        )
    | no pos ↦
        let before : sub32 q.end_index 1 ≡ q.end_index - 1 =
          omega (arith, end_inside q v, v.small) in
        ap (masked q) before
        ∙ masked-mod q v (q.end_index - 1)
        ∙ omega (
          arith,
          v.begin_inside,
          v.bounded,
          v.end_follows,
          end_inside q v,
          mod-eq_of_lt {n = q.end_index - 1} {m = q.capacity} (omega (arith, end_inside q v)),
          mod-cases (q.begin_index + q.count) q.capacity,
          mod-cases (q.begin_index + (q.count - 1)) q.capacity,
        )
  ]

  pub place-lt : (i : ℕ) → place q i < length q.values
  place-lt i = omega (arith, v.allocated, mod-lt (q.begin_index + i) (capacity-pos q v))
