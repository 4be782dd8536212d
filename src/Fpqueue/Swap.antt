-- ===== src/Fpqueue/Swap.antt =====
-- What the swap of two elements in dsa/fpqueue.h does to the array, and to its first `n` entries.
use dsa_c.Prelude.{ℕ, ◌≤◌, ◌<◌, ◌≡◌, ◌≢◌, ◌∙◌, List, Perm, arith}
use dsa_c.Prelude.Array
use dsa_c.Prelude.Array.{Zeroed, length}
use dsa_c.Run.{Returns, returns, load-ok, store-ok}
use dsa_c.Fpqueue.{Element, Zeroed-Element, swap}
use dsa_c.Fpqueue.Order.{Exchanged}

module _ {A : Type 0} ⦃z : Zeroed A⦄ where
  -- the priority at each index
  abbrev pub prio : List (Element A) → ℕ → ℕ
  prio elements i = let e = Array.get! elements i in e.priority

  pub record Swapped (n i j : ℕ) (xs ys : List (Element A)) : Type 0 where
    pub size : length ys ≡ length xs
    pub exchanged : Exchanged (prio xs) (prio ys) i j
    pub perm : Perm (Array.take n ys) (Array.take n xs)

  pub swap-Swapped :
      (n : ℕ) (xs : List (Element A)) (i j : ℕ)
      → i ≢ j
      → i < n
      → j < n
      → n ≤ length xs
      → Returns (Swapped n i j xs) (swap xs i j)
  unfolding swap
  swap-Swapped n xs i j ne hi hj h =
      let x = Array.get! xs i in
      let y = Array.get! xs j in
      let ys = Array.set xs i y in
      let size = Array.length-set xs i y in
      let entry = Array.get!-swap xs i j in
      rw
        (
          load-ok xs i (omega arith),
          load-ok xs j (omega arith),
          store-ok xs i y (omega arith),
          store-ok ys j x (omega (arith, size)),
        )
        (returns (record {
          size = Array.length-set ys j x ∙ size;
          exchanged = record {
            first = rw (prio, entry i (omega arith) (omega arith)) (ground arith);
            second = rw (prio, entry j (omega arith) (omega arith)) (ground arith);
            rest = λ k p q. rw (prio, entry k (omega arith) (omega arith)) (ground arith);
          };
          perm = Array.take_swap-perm n xs i j ne hi hj h;
        }))
