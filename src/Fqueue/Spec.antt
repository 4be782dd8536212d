-- ===== src/Fqueue/Spec.antt =====
-- What dsa/fqueue.h promises: a bounded first-in-first-out list, its front first, and what the
-- client of each operation sees.
use dsa_c.Prelude.{ℕ, ◌-◌, Bool, true, not, List, [], ◌∷◌, ◌++◌, ltb, ◌==◌}
use dsa_c.Prelude.Array
use dsa_c.Prelude.Array.{length}
use dsa_c.Run.{Run, ok, fault, assertion, assert, or_fault, ◌>>=◌, ◌>>◌}

pub data Op (A : Type 0) : Type 0 where
  enqueue : A → Op A
  dequeue front back clear empty full : Op A
  at : ℕ → Op A

pub data Reply (A : Type 0) : Type 0 where
  done : Reply A
  value : A → Reply A
  flag : Bool → Reply A

module _ {A : Type 0} where
  unfoldable pub step : ℕ → List A → Op A → Run (Reply A × List A)
  step capacity xs (enqueue x) = do
    assert (not (length xs == capacity))
    ok (flag true, xs ++ x ∷ [])
  step capacity [] dequeue = fault assertion
  step capacity (x ∷ xs) dequeue = ok (value x, xs)
  step capacity [] front = fault assertion
  step capacity (x ∷ xs) front = ok (value x, x ∷ xs)
  step capacity xs back = do
    assert (not (length xs == 0))
    x ← or_fault (Array.get_elem? xs (length xs - 1))
    ok (value x, xs)
  step capacity xs clear = ok (done, [])
  step capacity xs empty = ok (flag (length xs == 0), xs)
  step capacity xs full = ok (flag (length xs == capacity), xs)
  step capacity xs (at i) = do
    assert (ltb i (length xs))
    x ← or_fault (Array.get_elem? xs i)
    ok (value x, xs)
