-- ===== src/Rbtree/Insertion.antt =====
-- What `insert_node` promises of a red-black tree of sorted keys.
use dsa_c.Prelude.{ℕ, ◌<◌, ◌≡◌, ◌⊎◌, inl, inr, Bool, true, false, arith}
use dsa_c.Run.{Returns, Returns-map}
use dsa_c.Rbtree.{Memory}
use dsa_c.Rbtree.Insert.{insert_node}
use dsa_c.Rbtree.Shape.{Tree, ◌∉◌, IsAddress}
use dsa_c.Rbtree.Context.{Represents}
use dsa_c.Rbtree.Descent.{height, found}
use dsa_c.Rbtree.Balance.{IsRedBlack, inserted-IsRedBlack}
use dsa_c.Rbtree.Order.{listing}
use dsa_c.Rbtree.Keys.{IsStrictOrder, IsSorted, place, listing-inserted, place-IsSorted}
use dsa_c.Rbtree.Search.{has_key, found-has_key}
use dsa_c.Rbtree.Link.{inserted, insert_node-inserted}

module _ {K : Type 0} (less : K → K → Bool) where
  -- a red-black tree of sorted keys in memory
  pub record IsValid (m : Memory K) (t : Tree K) : Type 0 where
    pub represents : Represents m t
    pub balanced : IsRedBlack t
    pub sorted : IsSorted less (listing t)

  -- Inserting a fresh node into a valid red-black tree, with more fuel than the tree is high,
  -- returns (no NULL is followed, no assertion fails, the fuel suffices) and leaves a valid tree
  -- whose nodes in order are the old ones with the new node behind those of strictly smaller key.
  -- Unless keys may be there twice, the key must be new. The comparison is a strict order in which
  -- keys that are not less than each other count as equal.
  pub insert_node_lem :
      IsStrictOrder less
      → (allow : Bool) (fuel : ℕ) (m : Memory K) (a : ℕ) (t : Tree K) → IsValid m t
      → IsAddress a
      → a ∉ t
      → height t < fuel
      → (allow ≡ true) ⊎ (has_key less (m.key a) (listing t) ≡ false)
      → Returns
          (λ m'. (t' : Tree K) × IsValid m' t' × (listing t' ≡ place less a (m.key a) (listing t)))
          (insert_node less allow fuel m a)
  insert_node_lem o allow fuel m a t v at_a out f new =
      let k = m.key a in
      let order = listing-inserted less o a k t v.sorted in
      Returns-map
        (insert_node-inserted less allow fuel m a t v.represents at_a out f (new-found new))
        λ m' r. (
          inserted less a k t,
          record {
            represents = r;
            balanced = inserted-IsRedBlack less a k t v.balanced;
            sorted = rw order (place-IsSorted less o a k (listing t) v.sorted);
          },
          order,
        )
    where
      new-found :
          (allow ≡ true) ⊎ (has_key less (m.key a) (listing t) ≡ false)
          → (allow ≡ true) ⊎ (found less (m.key a) t ≡ 0)
      new-found (inl e) = inl e
      new-found (inr e) =
          let same = found-has_key less o (m.key a) t (let r = v.represents in r.holds) v.sorted in
          inr (ground arith)
