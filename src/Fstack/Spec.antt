-- ===== src/Fstack/Spec.antt =====
-- What dsa/fstack.h promises: a bounded list of values with its top in front, a program over its
-- operations, and what the client of each sees.
use dsa_c.Prelude.{ℕ, ◌-◌, Bool, not, List, [], ◌∷◌, ltb, ◌==◌, Option}
use dsa_c.Prelude.Array
use dsa_c.Prelude.Array.{length}
use dsa_c.Run.{Run, ok, fault, assertion, assert, or_fault, ◌>>=◌, ◌>>◌}

pub data Op (A : Type 0) : Type 0 where
  push : A → Op A
  pop top bottom clear empty full : Op A
  at : ℕ → Op A

pub data Reply (A : Type 0) : Type 0 where
  done : Reply A
  value : A → Reply A
  flag : Bool → Reply A

module _ {A : Type 0} where
  -- the last of a list
  abbrev pub get_last? : List A → Option A
  get_last? xs = Array.get_elem? xs (length xs - 1)

  unfoldable pub step : ℕ → List A → Op A → Run (Reply A × List A)
  step capacity xs (push x) = do assert (not (length xs == capacity)); ok (done, x ∷ xs)
  step capacity [] pop = fault assertion
  step capacity (x ∷ xs) pop = ok (value x, xs)
  step capacity xs top = do
    assert (not (length xs == 0))
    x ← or_fault (Array.get_elem? xs 0)
    ok (value x, xs)
  step capacity xs bottom = do
    assert (not (length xs == 0))
    x ← or_fault (get_last? xs)
    ok (value x, xs)
  step capacity xs clear = ok (done, [])
  step capacity xs empty = ok (flag (length xs == 0), xs)
  step capacity xs full = ok (flag (length xs == capacity), xs)
  step capacity xs (at i) = do
    assert (ltb i (length xs))
    x ← or_fault (Array.get_elem? xs i)
    ok (value x, xs)
