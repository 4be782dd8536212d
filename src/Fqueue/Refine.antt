-- ===== src/Fqueue/Refine.antt =====
-- A valid queue behaves as the list that it holds: step by step, and over whole programs.
use native.Mathlib.Decide.{ℕ_discrete}
use native.Mathlib.Nat.{mod-eq_of_lt}
use mathlib.Core.Path.{subst}
use dsa_c.Prelude.{
  ℕ, ◌+◌, ◌-◌, ◌<◌, ◌≡◌, refl, ap, sym, ◌∙◌, inl, inr, true, false, List, arith, ltb, ◌==◌,
  Bool-cases, ltb→lt,
}
use dsa_c.Prelude.Array.{Zeroed}
use dsa_c.Run.{Run, ok, ok-injective, >>=-inv, load-ok, ◌>>=◌}
use dsa_c.Machine
use dsa_c.Machine.{seen}
use dsa_c.Word.{add32}
use dsa_c.Flexible.Loop.{length-gather, get_elem?-gather_zero}
use dsa_c.Fqueue.{Fqueue, is_empty, is_full, at, get_front, get_back, enqueue, dequeue, clear}
use dsa_c.Fqueue.Invariant.{IsValid, view, place, masked-mod, capacity-pos}
use dsa_c.Fqueue.Calls.{
  view-enqueue, view-dequeue, last_place, place-lt, enqueue-eq, dequeue-eq, enqueue-IsValid,
  dequeue-IsValid,
}
use dsa_c.Fqueue.Spec
use dsa_c.Fqueue.Spec.{Op, Reply, done, value, flag}

module _ {A : Type 0} where
  -- one call of the interface
  unfoldable pub step : Fqueue A → Op A → Run (Reply A × Fqueue A)
  step q (Op.enqueue x) = do (b, q') ← enqueue q x; ok (flag b, q')
  step q Op.dequeue = do (x, q') ← dequeue q; ok (value x, q')
  step q Op.front = do x ← get_front q; ok (value x, q)
  step q Op.back = do x ← get_back q; ok (value x, q)
  step q Op.clear = ok (done, clear q)
  step q Op.empty = ok (flag (is_empty q), q)
  step q Op.full = ok (flag (is_full q), q)
  step q (Op.at i) = do x ← at q i; ok (value x, q)

module _ {A : Type 0} ⦃z : Zeroed A⦄ where
  enqueue_refines :
      (q : Fqueue A) (x : A)
      → IsValid q
      → seen view (step q (Op.enqueue x)) ≡ Spec.step q.capacity (view q) (Op.enqueue x)
  unfolding step is_full enqueue Spec.step
  enqueue_refines q x v = elim (ℕ_discrete q.count q.capacity) [
    | yes e ↦ ground (arith, length-gather (place q) q.count 0 q.values)
    | no ne ↦
        let room : q.count < q.capacity = omega (arith, v.bounded) in
        let not_full : (q.count == q.capacity) ≡ false = ground arith in
        rw (enqueue-eq q v x room, length-gather (place q) q.count 0 q.values, not_full)
          (ap (λ xs. ok (flag true, xs)) (view-enqueue q v x room))
  ]

  dequeue_refines :
      (q : Fqueue A)
      → IsValid q
      → seen view (step q Op.dequeue) ≡ Spec.step q.capacity (view q) Op.dequeue
  unfolding step dequeue is_empty Spec.step
  dequeue_refines q v = elim (ℕ_discrete q.count 0) [
    | yes e ↦ ground arith
    | no ne ↦ rw (dequeue-eq q v ne, view-dequeue q v ne) refl
  ]

  front_refines :
      (q : Fqueue A)
      → IsValid q
      → seen view (step q Op.front) ≡ Spec.step q.capacity (view q) Op.front
  unfolding step get_front is_empty Spec.step
  front_refines q v = elim (ℕ_discrete q.count 0) [
    | yes e ↦ ground arith
    | no ne ↦
        let filled : (q.count == 0) ≡ false = ground arith in
        rw
          (
            filled,
            load-ok q.values q.begin_index (omega (arith, v.begin_inside, v.allocated)),
            view-dequeue q v ne,
          )
          refl
  ]

  back_refines :
      (q : Fqueue A)
      → IsValid q
      → seen view (step q Op.back) ≡ Spec.step q.capacity (view q) Op.back
  unfolding step get_back is_empty Spec.step
  back_refines q v = elim (ℕ_discrete q.count 0) [
    | yes e ↦ ground (arith, length-gather (place q) q.count 0 q.values)
    | no ne ↦
        let filled : (q.count == 0) ≡ false = ground arith in
        let k : ℕ = q.count - 1 in
        rw
          (
            length-gather (place q) q.count 0 q.values,
            filled,
            last_place q v ne,
            load-ok q.values (place q k) (place-lt q v k),
            get_elem?-gather_zero (place q) q.count k q.values (omega arith),
          )
          refl
  ]

  at_refines :
      (q : Fqueue A) (i : ℕ)
      → IsValid q
      → seen view (step q (Op.at i)) ≡ Spec.step q.capacity (view q) (Op.at i)
  unfolding step at Spec.step
  at_refines q i v = elim (Bool-cases (ltb i q.count)) [
    | inr outside ↦ rw (length-gather (place q) q.count 0 q.values, outside) refl
    | inl within ↦
        let exact : add32 q.begin_index i ≡ q.begin_index + i =
          ground (arith, v.small, v.bounded, v.begin_inside) in
        rw
          (
            length-gather (place q) q.count 0 q.values,
            within,
            exact,
            masked-mod q v (q.begin_index + i),
            load-ok q.values (place q i) (place-lt q v i),
            get_elem?-gather_zero (place q) q.count i q.values (ltb→lt _ _ within),
          )
          refl
  ]

  -- Each call returns what it returns on the list, leaves the list's new value, and faults (on a
  -- failed assertion) exactly where the list version does.
  pub queue_step_refines :
      (q : Fqueue A) (op : Op A)
      → IsValid q
      → seen view (step q op) ≡ Spec.step q.capacity (view q) op
  unfolding step clear is_empty is_full Spec.step
  queue_step_refines q (Op.enqueue x) v = enqueue_refines q x v
  queue_step_refines q Op.dequeue v = dequeue_refines q v
  queue_step_refines q Op.front v = front_refines q v
  queue_step_refines q Op.back v = back_refines q v
  queue_step_refines q (Op.at i) v = at_refines q i v
  queue_step_refines q Op.clear v = refl
  queue_step_refines q Op.empty v = rw (length-gather (place q) q.count 0 q.values)
  queue_step_refines q Op.full v = rw (length-gather (place q) q.count 0 q.values)

  clear-IsValid : (q : Fqueue A) → IsValid q → IsValid (clear q)
  unfolding clear
  clear-IsValid q v = record {
    exponent = v.exponent;
    power = v.power;
    small = v.small;
    allocated = v.allocated;
    bounded = omega arith;
    begin_inside = capacity-pos q v;
    end_follows = sym (mod-eq_of_lt (capacity-pos q v));
  }

  -- A call on a valid queue that returns leaves a valid queue of the same capacity.
  pub queue_step-IsValid :
      (q : Fqueue A) (op : Op A) {reply : Reply A} {q' : Fqueue A}
      → IsValid q
      → step q op ≡ ok (reply, q')
      → IsValid q' × (q'.capacity ≡ q.capacity)
  unfolding step get_front get_back at clear
  queue_step-IsValid q (Op.enqueue x) v e =
      let (r, made, rest) = >>=-inv (enqueue q x) (λ (b, q'). ok (flag b, q')) e in
      subst (λ t. IsValid t × (t.capacity ≡ q.capacity)) (ap (λ t. t.1) (ok-injective rest))
        (enqueue-IsValid q v x made)
  queue_step-IsValid q Op.dequeue v e =
      let (r, made, rest) = >>=-inv (dequeue q) (λ (x, q'). ok (value x, q')) e in
      subst (λ t. IsValid t × (t.capacity ≡ q.capacity)) (ap (λ t. t.1) (ok-injective rest))
        (dequeue-IsValid q v made)
  queue_step-IsValid q Op.clear v e =
      subst (λ t. IsValid t × (t.capacity ≡ q.capacity)) (ap (λ t. t.1) (ok-injective e))
        (clear-IsValid q v, refl)
  queue_step-IsValid q op v e = ground arith

  -- Any program of calls on a valid queue returns the replies, leaves the list and faults as the
  -- bounded first-in-first-out list does.
  pub queue_run_refines :
      (ops : List (Op A)) (q : Fqueue A)
      → IsValid q
      → seen view (Machine.run step q ops) ≡ Machine.run (Spec.step q.capacity) (view q) ops
  queue_run_refines ops q v =
      Machine.run_refines step (Spec.step q.capacity) view
        (λ t. IsValid t × (t.capacity ≡ q.capacity))
        (λ t op (w, same). rw (← same) (queue_step_refines t op w))
        (λ t op reply t' (w, same) e.
          let (w', same') = queue_step-IsValid t op w e in (w', same' ∙ same))
        ops q (v, refl)
