-- ===== src/Fstack/Refine.antt =====
-- A valid stack behaves as the list that it holds: step by step, and over whole programs.
use native.Mathlib.Decide.{ℕ_discrete}
use native.Mathlib.Numerals.{add-one}
use dsa_c.Prelude.{ℕ, zero, suc, ◌+◌, ◌-◌, ◌<◌, ◌≡◌, ◌≢◌, refl, ap, ◌∙◌, List, ◌∷◌, arith}
use dsa_c.Prelude.Array
use dsa_c.Prelude.Array.{Zeroed, length}
use dsa_c.Run.{Run, ok, load-ok, store-ok, ◌>>=◌}
use dsa_c.Machine
use dsa_c.Machine.{seen}
use dsa_c.Word.{sub32}
use dsa_c.Fstack.{Fstack, is_empty, is_full, at, get_top, get_bottom, push, pop, clear}
use dsa_c.Fstack.Invariant.{
  IsValid, view, top_down, top_down-ext, length-top_down, get_elem?-top_down,
}
use dsa_c.Fstack.Spec
use dsa_c.Fstack.Spec.{Op, Reply, done, value, flag}

module _ {A : Type 0} where
  -- one call of the interface, and a program of calls
  unfoldable pub step : Fstack A → Op A → Run (Reply A × Fstack A)
  step s (Op.push x) = do s' ← push s x; ok (done, s')
  step s Op.pop = do (x, s') ← pop s; ok (value x, s')
  step s Op.top = do x ← get_top s; ok (value x, s)
  step s Op.bottom = do x ← get_bottom s; ok (value x, s)
  step s Op.clear = ok (done, clear s)
  step s Op.empty = ok (flag (is_empty s), s)
  step s Op.full = ok (flag (is_full s), s)
  step s (Op.at i) = do x ← at s i; ok (value x, s)

module _ {A : Type 0} ⦃z : Zeroed A⦄ where
  top_down-push :
      (values : List A) (n : ℕ) (x : A)
      → n < length values
      → top_down (Array.set values n x) (n + 1) ≡ x ∷ top_down values n
  top_down-push values n x h =
      let written = Array.get!-set values n in
      let rest =
        top_down-ext (Array.set values n x) values n (λ j p. ground (arith, written j x)) in
      rw add-one (rw (written n x h, rest) (ground arith))

  top_down-pop :
      (values : List A) (n : ℕ)
      → n ≢ 0
      → top_down values n ≡ Array.get! values (n - 1) ∷ top_down values (n - 1)
  top_down-pop values zero h = absurd (h refl)
  top_down-pop values (suc n) h = ap (λ k. Array.get! values k ∷ top_down values k) (omega arith)

  push_refines :
      (s : Fstack A) (x : A)
      → IsValid s
      → seen view (step s (Op.push x)) ≡ Spec.step s.capacity (view s) (Op.push x)
  unfolding step push is_full Spec.step
  push_refines s x v = ground (
    arith,
    length-top_down s.values s.count,
    store-ok s.values s.count x,
    top_down-push s.values s.count x,
  )

  pop_refines :
      (s : Fstack A) → IsValid s → seen view (step s Op.pop) ≡ Spec.step s.capacity (view s) Op.pop
  unfolding step pop is_empty Spec.step
  pop_refines s v = elim (ℕ_discrete s.count 0) [
    | yes e ↦ ground arith
    | no ne ↦
        let below : sub32 s.count 1 ≡ s.count - 1 = omega arith in
        rw (below, load-ok s.values (s.count - 1) (omega arith), top_down-pop s.values s.count ne)
          (ground arith)
  ]

  top_refines :
      (s : Fstack A) → IsValid s → seen view (step s Op.top) ≡ Spec.step s.capacity (view s) Op.top
  unfolding step get_top is_empty Spec.step
  top_refines s v = elim (ℕ_discrete s.count 0) [
    | yes e ↦ ground arith
    | no ne ↦
        let below : sub32 s.count 1 ≡ s.count - 1 = omega arith in
        rw (below, load-ok s.values (s.count - 1) (omega arith), top_down-pop s.values s.count ne)
          (ground arith)
  ]

  bottom_refines :
      (s : Fstack A)
      → IsValid s
      → seen view (step s Op.bottom) ≡ Spec.step s.capacity (view s) Op.bottom
  unfolding step get_bottom is_empty Spec.step
  bottom_refines s v = ground (
    arith,
    length-top_down s.values s.count,
    load-ok s.values 0,
    get_elem?-top_down s.values s.count (s.count - 1),
  )

  at_refines :
      (s : Fstack A) (i : ℕ)
      → IsValid s
      → seen view (step s (Op.at i)) ≡ Spec.step s.capacity (view s) (Op.at i)
  unfolding step at Spec.step
  at_refines s i v = ground (
    arith,
    length-top_down s.values s.count,
    load-ok s.values (s.count - 1 - i),
    get_elem?-top_down s.values s.count i,
  )

  -- Each call returns what it returns on the list, leaves the list's new value, and faults (on a
  -- failed assertion) exactly where the list version does.
  pub stack_step_refines :
      (s : Fstack A) (op : Op A)
      → IsValid s
      → seen view (step s op) ≡ Spec.step s.capacity (view s) op
  unfolding step clear is_empty is_full Spec.step
  stack_step_refines s (Op.push x) v = push_refines s x v
  stack_step_refines s Op.pop v = pop_refines s v
  stack_step_refines s Op.top v = top_refines s v
  stack_step_refines s Op.bottom v = bottom_refines s v
  stack_step_refines s (Op.at i) v = at_refines s i v
  stack_step_refines s Op.clear v = refl
  stack_step_refines s Op.empty v = rw (length-top_down s.values s.count)
  stack_step_refines s Op.full v = rw (length-top_down s.values s.count)

  -- A call on a valid stack that returns leaves a valid stack of the same capacity.
  pub stack_step-IsValid :
      (s : Fstack A) (op : Op A) {reply : Reply A} {s' : Fstack A}
      → IsValid s
      → step s op ≡ ok (reply, s')
      → IsValid s' × (s'.capacity ≡ s.capacity)
  unfolding step push pop get_top get_bottom at clear is_full is_empty
  stack_step-IsValid s (Op.push x) v e =
      ground (arith, store-ok s.values s.count x, Array.length-set s.values s.count x)
  stack_step-IsValid s Op.pop v e = ground (arith, load-ok s.values (s.count - 1))
  stack_step-IsValid s op v e = ground arith

  -- Any program of calls on a valid stack returns the replies, leaves the list and faults as the
  -- bounded list with its top in front does.
  pub stack_run_refines :
      (ops : List (Op A)) (s : Fstack A)
      → IsValid s
      → seen view (Machine.run step s ops) ≡ Machine.run (Spec.step s.capacity) (view s) ops
  stack_run_refines ops s v =
      Machine.run_refines step (Spec.step s.capacity) view
        (λ t. IsValid t × (t.capacity ≡ s.capacity))
        (λ t op (w, same). rw (← same) (stack_step_refines t op w))
        (λ t op reply t' (w, same) e.
          let (w', same') = stack_step-IsValid t op w e in (w', same' ∙ same))
        ops s (v, refl)
