-- ===== src/Rbtree/Undo.antt =====
-- An insertion into a red-black tree, and the deletion of the node after it.
use dsa_c.Prelude.{
  ℕ, suc, ◌<◌, ◌≤◌, ◌≡◌, ◌∙◌, ◌⊎◌, refl, sym, ap, Bool, true, false, List, [], ◌∷◌, arith, ◌==◌,
  inl, inr, Bool-cases,
}
use dsa_c.Prelude.Array.{length, length-append}
use dsa_c.Run.{◌>>=◌, Returns, Returns-bind, Returns-map}
use dsa_c.Rbtree.{Memory}
use dsa_c.Rbtree.Insert.{insert_node}
use dsa_c.Rbtree.Delete.{delete_node}
use dsa_c.Rbtree.Shape.{Tree, leaf, node, has, ◌∉◌, IsAddress}
use dsa_c.Rbtree.Descent.{height}
use dsa_c.Rbtree.Height.{size}
use dsa_c.Rbtree.Order.{listing}
use dsa_c.Rbtree.Keys.{IsStrictOrder, place}
use dsa_c.Rbtree.Search.{has_key}
use dsa_c.Rbtree.Insertion.{IsValid, insert_node_lem}
use dsa_c.Rbtree.Remove.{take_out, among, among-listing}
use dsa_c.Rbtree.Deletion.{delete_node_lem}

module _ {K : Type 0} where
  length-listing : (t : Tree K) → length (listing t) ≡ size t
  length-listing leaf = refl
  length-listing (node l a b k r) =
      length-append (listing l) ((a, k) ∷ listing r)
      ∙ rw (length-listing l, length-listing r) (omega arith)

  height-le-size : (t : Tree K) → height t ≤ size t
  height-le-size leaf = omega arith
  height-le-size (node l a b k r) =
      let hl = height-le-size l in let hr = height-le-size r in ground arith

  module _ (less : K → K → Bool) (a : ℕ) (k : K) where
    length-place : (xs : List (ℕ × K)) → length (place less a k xs) ≡ suc (length xs)
    unfolding place
    length-place [] = refl
    length-place ((b, k') ∷ xs) = elim (Bool-cases (less k' k)) [
      | inl up ↦ rw (up, length-place xs) refl
      | inr down ↦ rw down refl
    ]

    among-place : (xs : List (ℕ × K)) → among a (place less a k xs) ≡ true
    unfolding place among
    among-place [] = ground arith
    among-place ((b, k') ∷ xs) = elim (Bool-cases (less k' k)) [
      | inl up ↦ rw (up, among-place xs) (ground arith)
      | inr down ↦ rw down (ground arith)
    ]

    take_out-place : (xs : List (ℕ × K)) → among a xs ≡ false → take_out a (place less a k xs) ≡ xs
    unfolding place take_out among
    take_out-place [] h = let own : (a == a) ≡ true = ground arith in rw own refl
    take_out-place ((b, k') ∷ xs) h =
        let own : (a == a) ≡ true = ground arith in
        let differs : (a == b) ≡ false = ground arith in
        elim (Bool-cases (less k' k)) [
          | inl up ↦ rw (up, differs, take_out-place xs (ground arith)) refl
          | inr down ↦ rw (down, own) refl
        ]

module _ {K : Type 0} (less : K → K → Bool) where
  -- Inserting a fresh node into a valid red-black tree and deleting it again, with more fuel than
  -- the tree has nodes, returns, and leaves a valid tree of the old nodes in their order. Unless
  -- keys may be there twice, the key must be new.
  pub delete_node-insert_node :
      IsStrictOrder less
      → (allow : Bool) (fuel : ℕ) (m : Memory K) (a : ℕ) (t : Tree K) → IsValid less m t
      → IsAddress a
      → a ∉ t
      → size t < fuel
      → (allow ≡ true) ⊎ (has_key less (m.key a) (listing t) ≡ false)
      → Returns
          (λ (p, m'). (t' : Tree K) × IsValid less m' t' × (listing t' ≡ listing t))
          (insert_node less allow fuel m a >>= λ m₁. delete_node fuel m₁ a)
  delete_node-insert_node o allow fuel m a t v at_a out low new =
      let k = m.key a in
      let deep = height-le-size t in
      Returns-bind (insert_node_lem less o allow fuel m a t v at_a out (omega arith) new)
        λ m₁ (t₁, v₁, order).
          let inside : has a t₁ ≡ true =
            sym (among-listing a t₁) ∙ ap (among a) order ∙ among-place less a k (listing t) in
          let many : size t₁ ≡ suc (size t) =
            sym (length-listing t₁)
            ∙ ap length order
            ∙ length-place less a k (listing t)
            ∙ ap suc (length-listing t) in
          let deep₁ = height-le-size t₁ in
          Returns-map (delete_node_lem less fuel m₁ a t₁ v₁ inside (omega arith))
            λ (p, m') (same, links, parent, t', v', order'). (
              t',
              v',
              order'
                  ∙ ap (take_out a) order
                  ∙ take_out-place less a k (listing t) (among-listing a t ∙ out),
            )
