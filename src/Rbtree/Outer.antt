-- ===== src/Rbtree/Outer.antt =====
-- `delete_leaf` and `delete_single`: the deletion of a node with at most one child.
use dsa_c.Prelude.{ℕ, ◌≤◌, ◌≡◌, refl, Bool, true, false, arith, ◌==◌}
use dsa_c.Run.{◌>>=◌, Returns, Returns-bind, Returns-map}
use dsa_c.Rbtree.{Dir, left, right, Memory}
use dsa_c.Rbtree.Delete.{delete_leaf, delete_single}
use dsa_c.Rbtree.Shape.{Tree, leaf, node, branch}
use dsa_c.Rbtree.Context.{Context, top, frame, plug, Represents, split}
use dsa_c.Rbtree.Color.{
  at_ne_null, node_is_red-at, node_is_black-at, node_get_parent_ptr-at, Cell-of, parent_of_cell,
  set_black-Represents,
}
use dsa_c.Rbtree.Climb.{child_dir-at}
use dsa_c.Rbtree.Fixup.{depth}
use dsa_c.Rbtree.Link.{around-root}
use dsa_c.Rbtree.Balance.{black_height, IsRedBlack, IsRedBlack-sub, IsRedBlack-plug}
use dsa_c.Rbtree.Order.{listing-plug_congr}
use dsa_c.Rbtree.Detach.{transplanted-Represents, transplanted-ok, node_transplant_lem}
use dsa_c.Rbtree.Sinking.{Rebalanced, delete_fixup_lem}

module _ {K : Type 0} where
  -- A node without children is cut out, and the tree is balanced again.
  pub delete_leaf_lem :
      (fuel : ℕ) (m : Memory K) (c : Context K) (a : ℕ) (b : Bool) (k : K)
      → Represents m (plug c (node leaf a b k leaf))
      → IsRedBlack (plug c (node leaf a b k leaf))
      → depth c ≤ fuel
      → Returns (Rebalanced (plug c leaf)) (delete_leaf fuel m a)
  unfolding delete_leaf
  delete_leaf_lem fuel m top a b k r h low =
      let cell = Cell-of m top left leaf a b k leaf r in
      let own : (a == m.root_ptr) ≡ true = rw r.rooted (ground arith) in
      rw (node_is_red-at cell (parent_of_cell m top left leaf a b k leaf r), own)
        (Returns-map (node_transplant_lem m top left a b k leaf r)
          λ m' r'. record { after = leaf; represents = r'; balanced = tt; same_order = refl })
  delete_leaf_lem fuel m (frame d p bp kp sib ctx) a false k r h low =
      let c = frame d p bp kp sib ctx in
      let t = node leaf a false k leaf in
      let cell = Cell-of m c left leaf a false k leaf r in
      let s = split c t r in
      let below : (a == m.root_ptr) ≡ false =
        rw r.rooted (ground (arith, s.outside a (ground arith), around-root d p bp kp sib ctx t)) in
      rw (node_is_red-at cell (parent_of_cell m c left leaf a false k leaf r), below)
        (Returns-map (node_transplant_lem m c left a false k leaf r) λ m' r'. record {
          after = plug c leaf;
          represents = r';
          balanced = IsRedBlack-plug c t leaf h tt refl (λ _. refl);
          same_order = refl;
        })
  delete_leaf_lem fuel m (frame d p bp kp sib ctx) a true k r h low =
      let c = frame d p bp kp sib ctx in
      let t = node leaf a true k leaf in
      let cell = Cell-of m c left leaf a true k leaf r in
      let up = parent_of_cell m c left leaf a true k leaf r in
      let s = split c t r in
      let below : (a == m.root_ptr) ≡ false =
        rw r.rooted (ground (arith, s.outside a (ground arith), around-root d p bp kp sib ctx t)) in
      rw
        (
          node_is_red-at cell up,
          below,
          node_get_parent_ptr-at cell up,
          ◌>>=◌,
          child_dir-at m ctx d left leaf a true k leaf p bp kp sib r,
          transplanted-ok m c left a true k leaf r,
        )
        (delete_fixup_lem fuel _ ctx d t leaf p bp kp sib h refl tt refl refl (omega arith)
          (transplanted-Represents m c left a true k leaf r))

  -- a node with one child is black, and its child is red
  pub only_child_red :
      (d : Dir) (a : ℕ) (b : Bool) (k : K) (l : Tree K) (x : ℕ) (bx : Bool) (kx : K) (u : Tree K)
      → IsRedBlack (branch d leaf a b k (node l x bx kx u))
      → (b ≡ true)
        × (bx ≡ false)
        × IsRedBlack (node l x true kx u)
        × (black_height (node l x true kx u)
            ≡ black_height (branch d leaf a b k (node l x bx kx u)))
  only_child_red left a b k l x bx kx u h = ground arith
  only_child_red right a b k l x bx kx u h = ground arith

  -- A node with one child is cut out, and the child turns black.
  pub delete_single_lem :
      (m : Memory K) (c : Context K) (d : Dir) (a : ℕ) (b : Bool) (k : K) (l : Tree K) (x : ℕ)
      (bx : Bool) (kx : K) (u : Tree K)
      → Represents m (plug c (branch d leaf a b k (node l x bx kx u)))
      → IsRedBlack (plug c (branch d leaf a b k (node l x bx kx u)))
      → Returns (Rebalanced (plug c (node l x bx kx u))) (delete_single m a)
  unfolding delete_single
  delete_single_lem m c left a b k l x bx kx u r h =
      let old = node leaf a b k (node l x bx kx u) in
      let (black, red, balanced, height) =
        only_child_red left a b k l x bx kx u (IsRedBlack-sub c old h) in
      let cell = Cell-of m c left leaf a b k (node l x bx kx u) r in
      let inner = frame right a b k leaf c in
      let child = Cell-of m inner left l x bx kx u r in
      rw
        (
          cell.to_near,
          cell.to_far,
          node_is_black-at cell (parent_of_cell m c left leaf a b k (node l x bx kx u) r),
          ◌>>=◌,
          black,
          node_is_red-at child (parent_of_cell m inner left l x bx kx u r),
          ◌>>=◌,
          red,
        )
        (Returns-bind (set_black-Represents m inner left l x bx kx u r) λ m₁ r₁.
          let cell₁ = Cell-of m₁ c left leaf a b k (node l x true kx u) r₁ in
          rw cell₁.to_far (
            Returns-map (node_transplant_lem m₁ c left a b k (node l x true kx u) r₁) λ m' r'.
              record {
                after = plug c (node l x true kx u);
                represents = r';
                balanced = IsRedBlack-plug c old (node l x true kx u) h balanced height (λ _. refl);
                same_order = listing-plug_congr c (node l x true kx u) _ refl;
              }))
  delete_single_lem m c right a b k l x bx kx u r h =
      let old = node (node l x bx kx u) a b k leaf in
      let (black, red, balanced, height) =
        only_child_red right a b k l x bx kx u (IsRedBlack-sub c old h) in
      let cell = Cell-of m c right leaf a b k (node l x bx kx u) r in
      let inner = frame left a b k leaf c in
      let child = Cell-of m inner left l x bx kx u r in
      rw
        (
          cell.to_far,
          at_ne_null child,
          cell.to_far,
          node_is_black-at cell (parent_of_cell m c right leaf a b k (node l x bx kx u) r),
          ◌>>=◌,
          black,
          node_is_red-at child (parent_of_cell m inner left l x bx kx u r),
          ◌>>=◌,
          red,
        )
        (Returns-bind (set_black-Represents m inner left l x bx kx u r) λ m₁ r₁.
          let cell₁ = Cell-of m₁ c right leaf a b k (node l x true kx u) r₁ in
          rw cell₁.to_far (
            Returns-map (node_transplant_lem m₁ c right a b k (node l x true kx u) r₁) λ m' r'.
              record {
                after = plug c (node l x true kx u);
                represents = r';
                balanced = IsRedBlack-plug c old (node l x true kx u) h balanced height (λ _. refl);
                same_order = listing-plug_congr c (node l x true kx u) _ refl;
              }))
