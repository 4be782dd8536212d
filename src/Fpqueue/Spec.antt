-- ===== src/Fpqueue/Spec.antt =====
-- What dsa/fpqueue.h promises: a bounded bag of elements. The bag is a list whose order does not
-- count, so a call is a relation: which element of largest priority a removal takes, and how the
-- rest is arranged, is left open.
use mathlib.Core.List.{Mem}
use dsa_c.Prelude.{ℕ, ◌<◌, ◌≡◌, Bool, List, [], ◌∷◌, Perm, ◌==◌}
use dsa_c.Prelude.Array.{length}
use dsa_c.Fpqueue.{Element}
use dsa_c.Fpqueue.Invariant.{IsMax}

pub data Op (A : Type 0) : Type 0 where
  push : A → ℕ → Op A
  pop_max get_max clear empty full : Op A

pub data Reply (A : Type 0) : Type 0 where
  done : Reply A
  value : A → Reply A
  flag : Bool → Reply A

module _ {A : Type 0} (capacity : ℕ) where
  -- a call on the bag, what it returns and the bag after it
  pub data Step : List (Element A) → Op A → Reply A → List (Element A) → Type 0 where
    push :
        {xs ys : List (Element A)} {x : A} {priority : ℕ}
        → length xs < capacity
        → Perm ys (record { priority = priority; value = x } ∷ xs)
        → Step xs (Op.push x priority) done ys
    pop_max :
        {xs ys : List (Element A)} {x : A} (m : Element A)
        → x ≡ m.value
        → IsMax m xs
        → Perm xs (m ∷ ys)
        → Step xs Op.pop_max (value x) ys
    get_max :
        {xs : List (Element A)} {x : A} (m : Element A)
        → x ≡ m.value
        → IsMax m xs
        → Mem m xs
        → Step xs Op.get_max (value x) xs
    clear : {xs : List (Element A)} → Step xs Op.clear done []
    empty : {xs : List (Element A)} → Step xs Op.empty (flag (length xs == 0)) xs
    full : {xs : List (Element A)} → Step xs Op.full (flag (length xs == capacity)) xs

  -- a call that the bag does not allow
  pub data Refused : List (Element A) → Op A → Type 0 where
    push :
        {xs : List (Element A)} {x : A} {priority : ℕ}
        → length xs ≡ capacity
        → Refused xs (Op.push x priority)
    pop_max : Refused [] Op.pop_max
    get_max : Refused [] Op.get_max
