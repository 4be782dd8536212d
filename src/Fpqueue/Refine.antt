-- ===== src/Fpqueue/Refine.antt =====
-- Every call on a valid queue is a step of the bag, or a failed assertion where the bag refuses it.
use native.Mathlib.Decide.{ℕ_discrete}
use mathlib.Core.List.{Mem, mem-cons_self}
use mathlib.Core.Path.{subst}
use dsa_c.Prelude.{
  ℕ, zero, suc, ◌≤◌, ◌<◌, ◌≡◌, ◌≢◌, refl, sym, ◌∙◌, true, false, List, [], ◌∷◌, arith, ◌==◌,
}
use dsa_c.Prelude.Array
use dsa_c.Prelude.Array.{Zeroed, length}
use dsa_c.Run.{Run, ok, fault, assertion, Returns-inv, load-ok, ◌>>=◌}
use dsa_c.Fpqueue.{
  Fpqueue, Element, Zeroed-Element, is_empty, is_full, get_max, pop_max, push, clear,
}
use dsa_c.Fpqueue.Invariant.{IsValid, contents}
use dsa_c.Fpqueue.Calls.{push_lem, pop_max_lem, root-IsMax}
use dsa_c.Fpqueue.Spec.{Op, Reply, Step, Refused, done, value, flag}

module _ {A : Type 0} where
  -- one call of the interface
  unfoldable pub step : Fpqueue A → Op A → Run (Reply A × Fpqueue A)
  step q (Op.push x priority) = do q' ← push q x priority; ok (done, q')
  step q Op.pop_max = do (x, q') ← pop_max q; ok (value x, q')
  step q Op.get_max = do x ← get_max q; ok (value x, q)
  step q Op.clear = ok (done, clear q)
  step q Op.empty = ok (flag (is_empty q), q)
  step q Op.full = ok (flag (is_full q), q)

module _ {A : Type 0} ⦃z : Zeroed A⦄ where
  -- how a call on a queue may end: as a step of the bag in a valid queue, or refused
  pub data Agrees (q : Fpqueue A) (op : Op A) : Run (Reply A × Fpqueue A) → Type 0 where
    stepped :
        {reply : Reply A} {q' : Fpqueue A}
        → Step q.capacity (contents q) op reply (contents q')
        → IsValid q'
        → q'.capacity ≡ q.capacity
        → Agrees q op (ok (reply, q'))
    refused : Refused q.capacity (contents q) op → Agrees q op (fault assertion)

  pub length-contents : (q : Fpqueue A) → IsValid q → length (contents q) ≡ q.count
  length-contents q v = Array.length-take q.count q.elements (omega (arith, v.bounded, v.allocated))

  first_mem :
      (n : ℕ) (xs : List (Element A))
      → n ≢ 0
      → n ≤ length xs
      → Mem (Array.get! xs 0) (Array.take n xs)
  unfolding Array.get!
  first_mem zero xs ne h = absurd (ne refl)
  first_mem (suc n) [] ne h = absurd (omega arith)
  first_mem (suc n) (x ∷ xs) ne h = mem-cons_self

  push-Agrees :
      (q : Fpqueue A) (x : A) (priority : ℕ)
      → IsValid q
      → Agrees q (Op.push x priority) (step q (Op.push x priority))
  unfolding step push is_full
  push-Agrees q x priority v = elim (ℕ_discrete q.count q.capacity) [
    | yes e ↦
        let at_capacity : (q.count == q.capacity) ≡ true = ground arith in
        rw at_capacity (refused (Refused.push (length-contents q v ∙ e)))
    | no ne ↦
        let room : q.count < q.capacity = omega (arith, v.bounded) in
        let (q', made, (v', perm, same)) = Returns-inv (push_lem q x priority v room) in
        subst (λ r. Agrees q (Op.push x priority) (r >>= λ q'. ok (done, q'))) (sym made)
          (stepped (Step.push (omega (arith, length-contents q v)) perm) v' same)
  ]

  pop_max-Agrees : (q : Fpqueue A) → IsValid q → Agrees q Op.pop_max (step q Op.pop_max)
  unfolding step pop_max is_empty
  pop_max-Agrees q v = elim (ℕ_discrete q.count 0) [
    | yes e ↦
        let nothing : (q.count == 0) ≡ true = ground arith in
        rw nothing (
          refused (
            subst (λ n. Refused q.capacity (Array.take n q.elements) Op.pop_max) (sym e)
              Refused.pop_max))
    | no ne ↦
        let ((x, q'), made, (m, is, max, perm, v', same)) = Returns-inv (pop_max_lem q v ne) in
        subst (λ r. Agrees q Op.pop_max (r >>= λ (x, q'). ok (value x, q'))) (sym made)
          (stepped (Step.pop_max m is max perm) v' same)
  ]

  get_max-Agrees : (q : Fpqueue A) → IsValid q → Agrees q Op.get_max (step q Op.get_max)
  unfolding step get_max is_empty
  get_max-Agrees q v = elim (ℕ_discrete q.count 0) [
    | yes e ↦
        let nothing : (q.count == 0) ≡ true = ground arith in
        rw nothing (
          refused (
            subst (λ n. Refused q.capacity (Array.take n q.elements) Op.get_max) (sym e)
              Refused.get_max))
    | no ne ↦
        let filled : (q.count == 0) ≡ false = ground arith in
        rw (filled, load-ok q.elements 0 (omega (arith, v.bounded, v.allocated)))
          (stepped
            (Step.get_max (Array.get! q.elements 0) refl (root-IsMax q v)
              (first_mem q.count q.elements ne (omega (arith, v.bounded, v.allocated))))
            v refl)
  ]

  -- Each call on a valid priority queue is a step of the bounded bag of its elements into a valid
  -- queue of the same capacity, or a failed assertion where the bag refuses the call; it never runs
  -- out of fuel or leaves the array.
  pub bag_step-Agrees : (q : Fpqueue A) (op : Op A) → IsValid q → Agrees q op (step q op)
  unfolding step clear is_empty is_full
  bag_step-Agrees q (Op.push x priority) v = push-Agrees q x priority v
  bag_step-Agrees q Op.pop_max v = pop_max-Agrees q v
  bag_step-Agrees q Op.get_max v = get_max-Agrees q v
  bag_step-Agrees q Op.clear v =
      stepped Step.clear
        (record {
          bounded = omega arith;
          allocated = v.allocated;
          small = v.small;
          heap = λ j pos inside. absurd (omega arith);
        })
        refl
  bag_step-Agrees q Op.empty v =
      stepped
        (subst (λ n. Step q.capacity (contents q) Op.empty (flag (n == 0)) (contents q))
          (length-contents q v) Step.empty)
        v refl
  bag_step-Agrees q Op.full v =
      stepped
        (subst (λ n. Step q.capacity (contents q) Op.full (flag (n == q.capacity)) (contents q))
          (length-contents q v) Step.full)
        v refl
