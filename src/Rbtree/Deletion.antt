-- ===== src/Rbtree/Deletion.antt =====
-- What `delete_node` promises of a red-black tree of sorted keys.
use mathlib.Core.Path.{subst}
use mathlib.Core.List.{append-nil}
use dsa_c.Prelude.{
  ℕ, ◌+◌, ◌≤◌, ◌≡◌, ◌≢◌, ◌∙◌, refl, sym, ap, Bool, true, false, List, ◌++◌, arith, ◌==◌, inl, inr,
  Bool-cases,
}
use dsa_c.Run.{ok, Returns, returns, Returns-bind, Returns-map}
use dsa_c.Rbtree.{Dir, left, right, Memory, set_child, set_word, node_get_parent_ptr}
use dsa_c.Rbtree.Delete.{unlink, delete_node}
use dsa_c.Rbtree.Shape.{Tree, leaf, node, root_of, has, ◌∈◌, ◌∉◌, Same, Holds-Same}
use dsa_c.Rbtree.Context.{Context, top, frame, plug, Represents, split, Split-Branch}
use dsa_c.Rbtree.Color.{at_ne_null, Cell-of}
use dsa_c.Rbtree.Write.{
  Same-trans, set_child-Same, set_child-root, set_parent, set_parent-Same, set_parent-root,
  node_set_parent_ptr-ok,
}
use dsa_c.Rbtree.Fixup.{depth}
use dsa_c.Rbtree.Descent.{height}
use dsa_c.Rbtree.Balance.{IsRedBlack}
use dsa_c.Rbtree.Order.{listing}
use dsa_c.Rbtree.Link.{has-plug}
use dsa_c.Rbtree.Insertion.{IsValid}
use dsa_c.Rbtree.Successor.{under, leftmost_node, listing-under}
use dsa_c.Rbtree.Sinking.{Rebalanced}
use dsa_c.Rbtree.Outer.{delete_leaf_lem, delete_single_lem}
use dsa_c.Rbtree.Inner.{delete_inner_lem}
use dsa_c.Rbtree.Remove.{take_out, take_out-plug, take_out-IsSorted, not_among, same-has}

module _ {K : Type 0} where
  -- a node of the tree, and the way to it
  record Way (a : ℕ) (whole : Tree K) (deep : ℕ) : Type 0 where
    above : Context K
    left_tree : Tree K
    is_black : Bool
    at_key : K
    right_tree : Tree K
    split_up : whole ≡ plug above (node left_tree a is_black at_key right_tree)
    low : depth above + height (node left_tree a is_black at_key right_tree) ≤ deep

  path_to : (a : ℕ) (c : Context K) (t : Tree K) → a ∈ t → Way a (plug c t) (depth c + height t)
  path_to a c leaf i = absurd (ground arith)
  path_to a c (node l x b k r) i = elim (Bool-cases (a == x)) [
    | inl here ↦
        let same : x ≡ a = ground arith in
        record {
          above = c;
          left_tree = l;
          is_black = b;
          at_key = k;
          right_tree = r;
          split_up = ap (λ (y : ℕ). plug c (node l y b k r)) same;
          low = omega arith;
        }
    | inr off ↦ elim (Bool-cases (has a l)) [
      | inl here ↦
          let w = path_to a (frame left x b k r c) l here in
          record {
            above = w.above;
            left_tree = w.left_tree;
            is_black = w.is_black;
            at_key = w.at_key;
            right_tree = w.right_tree;
            split_up = w.split_up;
            low = ground (arith, w.low);
          }
      | inr out ↦
          let w = path_to a (frame right x b k l c) r (ground arith) in
          record {
            above = w.above;
            left_tree = w.left_tree;
            is_black = w.is_black;
            at_key = w.at_key;
            right_tree = w.right_tree;
            split_up = w.split_up;
            low = ground (arith, w.low);
          }
    ]
  ]

  -- the tree without the node that stood below the context, above the two subtrees
  record Unlinked (c : Context K) (l r : Tree K) (m : Memory K) : Type 0 where
    nodes : Tree K
    joined : listing nodes ≡ listing l ++ listing r
    rebalanced : Rebalanced (plug c nodes) m

  unlink_lem :
      (fuel : ℕ) (m : Memory K) (c : Context K) (l : Tree K) (a : ℕ) (b : Bool) (k : K) (r : Tree K)
      → Represents m (plug c (node l a b k r))
      → IsRedBlack (plug c (node l a b k r))
      → depth c + height (node l a b k r) ≤ fuel
      → Returns (Unlinked c l r) (unlink fuel m a (root_of l == 0) (root_of r == 0))
  unfolding unlink
  unlink_lem fuel m c leaf a b k leaf rep h low =
      Returns-map (delete_leaf_lem fuel m c a b k rep h (ground arith))
        λ m' q. record { nodes = leaf; joined = refl; rebalanced = q }
  unlink_lem fuel m c leaf a b k (node l x bx kx r) rep h low =
      let cell = Cell-of m (frame right a b k leaf c) left l x bx kx r rep in
      rw (at_ne_null cell) (
        Returns-map (delete_single_lem m c left a b k l x bx kx r rep h)
          λ m' q. record { nodes = node l x bx kx r; joined = refl; rebalanced = q })
  unlink_lem fuel m c (node l x bx kx r) a b k leaf rep h low =
      let cell = Cell-of m (frame left a b k leaf c) left l x bx kx r rep in
      rw (at_ne_null cell) (
        Returns-map (delete_single_lem m c right a b k l x bx kx r rep h)
          λ m' q. record { nodes = node l x bx kx r; joined = sym (append-nil _); rebalanced = q })
  unlink_lem fuel m c (node l x bx kx u) a b k (node l' y by ky u') rep h low =
      let t = node l x bx kx u in
      let t' = node l' y by ky u' in
      let cell = Cell-of m (frame left a b k t' c) left l x bx kx u rep in
      let cell' = Cell-of m (frame right a b k t c) left l' y by ky u' rep in
      let w = leftmost_node l' y by ky u' in
      let rest = under w.steps w.rest in
      let whole = ap (λ r. plug c (node t a b k r)) w.split_up in
      let below = ap height w.split_up in
      rw (at_ne_null cell, at_ne_null cell')
        (Returns-map
          (delete_inner_lem fuel m c t a b k w.at_least w.least_black w.least_key
            cell.address.not_null w.steps w.rest (subst (λ r. Represents m r) whole rep)
            (subst IsRedBlack whole h) (ground (arith, below)))
          λ m' q. record {
            nodes = node t w.at_least b w.least_key rest;
            joined =
                ap (λ (xs : List (ℕ × K)). listing t ++ xs)
                  (sym (
                    ap listing w.split_up
                    ∙ listing-under w.steps w.at_least w.least_black w.least_key w.rest));
            rebalanced = q;
          })

  -- the node without links
  abbrev unhung : Memory K → ℕ → Memory K
  unhung m a = set_parent (set_child (set_child m a right 0) a left 0) a 0

  unhung-Same : (m : Memory K) (a x : ℕ) → x ≢ a → Same m (unhung m a) x
  unhung-Same m a x n =
      let m₁ = set_child m a right 0 in
      Same-trans (set_child-Same m a right 0 x n) (
        Same-trans (set_child-Same m₁ a left 0 x n)
          (set_parent-Same (set_child m₁ a left 0) a 0 x n))

  unhung-Represents :
      (m : Memory K) (a : ℕ) (t : Tree K) → Represents m t → a ∉ t → Represents (unhung m a) t
  unhung-Represents m a t r n =
      let m₁ = set_child m a right 0 in
      record {
        rooted =
            set_parent-root (set_child m₁ a left 0) a 0
            ∙ set_child-root m₁ a left 0
            ∙ set_child-root m a right 0
            ∙ r.rooted;
        holds = Holds-Same r.holds (λ x i. unhung-Same m a x (ground arith));
      }

  unhung-child : (m : Memory K) (a : ℕ) (d : Dir) → let m' = unhung m a in m'.child_ptrs a d ≡ 0
  unfolding set_parent set_child set_word
  unhung-child m a left = ground arith
  unhung-child m a right = ground arith

  unhung-parent :
      (m : Memory K) (a : ℕ) → (a == 0) ≡ false → node_get_parent_ptr (unhung m a) a ≡ ok 0
  unfolding set_parent set_child set_word node_get_parent_ptr
  unhung-parent m a given =
      let own : (a == a) ≡ true = ground arith in rw (given, own) (ap ok (omega arith))

  -- the tree that a deletion leaves, without the node
  delete_links_lem :
      (fuel : ℕ) (m : Memory K) (c : Context K) (l : Tree K) (a : ℕ) (b : Bool) (k : K) (r : Tree K)
      → Represents m (plug c (node l a b k r))
      → IsRedBlack (plug c (node l a b k r))
      → depth c + height (node l a b k r) ≤ fuel
      → Returns
          (λ (p, m').
            (p ≡ a)
            × ((d : Dir) → m'.child_ptrs a d ≡ 0)
            × (node_get_parent_ptr m' a ≡ ok 0)
            × (t' : Tree K) × Represents m' t'
            × IsRedBlack t'
            × (listing t' ≡ take_out a (listing (plug c (node l a b k r)))))
          (delete_node fuel m a)
  unfolding delete_node
  delete_links_lem fuel m c l a b k r rep h low =
      let cell = Cell-of m c left l a b k r rep in
      let given = at_ne_null cell in
      let (here, out) = Split-Branch left (split c (node l a b k r) rep) in
      rw (given, cell.to_near, cell.to_far)
        (Returns-bind (unlink_lem fuel m c l a b k r rep h low) λ m₁ w.
          let q = w.rebalanced in
          let t' = q.after in
          let gone : a ∉ t' =
            same-has a t' (plug c w.nodes) q.same_order
            ∙ has-plug a c w.nodes
            ∙ rw (out, not_among a l r w.nodes w.joined here.not_near here.not_far) refl in
          rw (node_set_parent_ptr-ok (set_child (set_child m₁ a right 0) a left 0) a 0 given) (
            returns (
              refl,
              unhung-child m₁ a,
              unhung-parent m₁ a given,
              t',
              unhung-Represents m₁ a t' q.represents gone,
              q.balanced,
              q.same_order ∙ take_out-plug c l a b k r w.nodes out here.not_near w.joined,
            )))

module _ {K : Type 0} (less : K → K → Bool) where
  -- Deleting a node of a valid red-black tree, with at least as much fuel as the tree is high,
  -- returns that node (no NULL is followed, no assertion fails, the fuel suffices), which is left
  -- without links, and leaves a valid tree whose nodes in order are the old ones without it.
  pub delete_node_lem :
      (fuel : ℕ) (m : Memory K) (a : ℕ) (t : Tree K)
      → IsValid less m t
      → a ∈ t
      → height t ≤ fuel
      → Returns
          (λ (p, m').
            (p ≡ a)
            × ((d : Dir) → m'.child_ptrs a d ≡ 0)
            × (node_get_parent_ptr m' a ≡ ok 0)
            × (t' : Tree K) × IsValid less m' t'
            × (listing t' ≡ take_out a (listing t)))
          (delete_node fuel m a)
  delete_node_lem fuel m a t v i low =
      let w = path_to a top t i in
      let whole = w.split_up in
      Returns-map
        (delete_links_lem fuel m w.above w.left_tree a w.is_black w.at_key w.right_tree
          (subst (λ t. Represents m t) whole v.represents) (subst IsRedBlack whole v.balanced)
          (ground (arith, w.low)))
        λ (p, m') (same, links, parent, t', represents, balanced, order).
          let order' : listing t' ≡ take_out a (listing t) =
            order ∙ ap (λ u. take_out a (listing u)) (sym whole) in
          (
            same,
            links,
            parent,
            t',
            record {
              represents = represents;
              balanced = balanced;
              sorted = rw order' (take_out-IsSorted less a (listing t) v.sorted);
            },
            order',
          )
