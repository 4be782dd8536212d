-- ===== src/Rbtree/Termination.antt =====
-- The loops of the red-black tree end after as many rounds as its balance allows.
use native.Mathlib.Nat.{pow-le-pow_right}
use dsa_c.Prelude.{
  ℕ, ◌+◌, ◌*◌, ◌/◌, ◌^◌, ◌≤◌, ◌<◌, ◌≡◌, inl, inr, Bool, true, arith, Bool-cases, ltb, if◌then◌else◌,
}
use dsa_c.Run.{ok}
use dsa_c.Rbtree.{Memory, contains_key, search_node}
use dsa_c.Rbtree.Shape.{Tree}
use dsa_c.Rbtree.Descent.{height}
use dsa_c.Rbtree.Height.{size, height-size}
use dsa_c.Rbtree.Balance.{IsRedBlack}
use dsa_c.Rbtree.Order.{listing}
use dsa_c.Rbtree.Keys.{IsStrictOrder}
use dsa_c.Rbtree.Search.{has_key, has_node, contains_key_lem, search_node_lem}
use dsa_c.Rbtree.Insertion.{IsValid}

module _ {K : Type 0} where
  pub height-lt :
      (bound : ℕ) (t : Tree K) → IsRedBlack t → size t + 1 < 2 ^ bound → height t < 2 * bound
  height-lt bound t h small = elim (Bool-cases (ltb (height t) (2 * bound))) [
    | inl low ↦ ground arith
    | inr high ↦
        let half : bound ≤ height t / 2 = ground arith in
        absurd (omega (arith, height-size t h, pow-le-pow_right {n = 2} (omega arith) half))
  ]

  -- On a valid red-black tree of fewer than 2^bound - 1 nodes, contains_key and search_node end
  -- within twice bound rounds with the right result: whether a node has the key, and NULL or such a
  -- node.
  pub searches_terminate :
      (less : K → K → Bool)
      → IsStrictOrder less
      → (bound : ℕ) (m : Memory K) (k : K) (t : Tree K) → IsValid less m t
      → size t + 1 < 2 ^ bound
      → (contains_key less (2 * bound) m k ≡ ok (has_key less k (listing t)))
        × ((p : ℕ) × (search_node less (2 * bound) m k ≡ ok p)
            × (if has_key less k (listing t) then has_node less k p (listing t) ≡ true else p ≡ 0))
  searches_terminate less o bound m k t v small =
      let low = height-lt bound t v.balanced small in
      (
        contains_key_lem less o (2 * bound) m k t v.represents v.sorted low,
        search_node_lem less o (2 * bound) m k t v.represents v.sorted low,
      )
