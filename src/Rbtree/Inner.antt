-- ===== src/Rbtree/Inner.antt =====
-- `delete_inner`: the deletion of a node with two children.
use mathlib.Core.Path.{subst}
use dsa_c.Prelude.{
  ℕ, ◌+◌, ◌<◌, ◌≡◌, ◌≢◌, ◌∙◌, refl, sym, ap, Bool, true, false, List, [], ◌∷◌, arith, ◌==◌, inl,
  inr, Bool-cases, if◌then◌else◌,
}
use dsa_c.Run.{ok, ◌>>=◌, Returns, returns, Returns-bind, Returns-map}
use dsa_c.Rbtree.{Dir, left, right, Memory, child_dir}
use dsa_c.Rbtree.Delete.{mend, delete_inner}
use dsa_c.Rbtree.Shape.{Tree, leaf, node, root_of, branch, ◌∈◌, ◌∉◌}
use dsa_c.Rbtree.Context.{Context, frame, plug, parent_of, Represents, split, Split-Branch}
use dsa_c.Rbtree.Color.{
  at_ne_null, node_is_red-at, node_is_black-at, node_get_parent_ptr-at, Cell-of, parent_of_cell,
  set_black-Represents,
}
use dsa_c.Rbtree.Climb.{child_dir-at}
use dsa_c.Rbtree.Fixup.{depth}
use dsa_c.Rbtree.Descent.{height}
use dsa_c.Rbtree.Balance.{IsRedBlack, IsRedBlack-sub, IsRedBlack-plug}
use dsa_c.Rbtree.Order.{listing-plug_congr}
use dsa_c.Rbtree.Successor.{
  Step, under, lefts, plug-lefts, final, initial, lefts-final, final-under, leftmost_lem,
  depth-lefts,
}
use dsa_c.Rbtree.Sinking.{Rebalanced, delete_fixup_lem}
use dsa_c.Rbtree.Outer.{only_child_red}
use dsa_c.Rbtree.Handover.{replace_with_successor_lem}

module _ {K : Type 0} where
  ne_of_inside : (a y : ℕ) (t : Tree K) → y ∈ t → a ∉ t → (y == a) ≡ false
  ne_of_inside a y t i n = elim (Bool-cases (y == a)) [
    | inr e ↦ e
    | inl e ↦ let same : y ≡ a = ground arith in let i' = rw same at i in cc
  ]

  mend_lem :
      (fuel : ℕ) (m : Memory K) (ctx : Context K) (d : Dir) (s : ℕ) (bs : Bool) (ks : K)
      (x : Tree K) (p : ℕ) (bp : Bool) (kp : K) (sib : Tree K)
      → IsRedBlack (plug ctx (branch d (node leaf s bs ks x) p bp kp sib))
      → depth ctx < fuel
      → Represents m (plug ctx (branch d x p bp kp sib))
      → Returns (Rebalanced (plug ctx (branch d x p bp kp sib))) (mend fuel m (root_of x) bs p d)
  unfolding mend
  mend_lem fuel m ctx d s true ks leaf p bp kp sib h low r =
      delete_fixup_lem fuel m ctx d (node leaf s true ks leaf) leaf p bp kp sib h refl tt refl refl
        low r
  mend_lem fuel m ctx d s false ks leaf p bp kp sib h low r =
      let c = frame d p bp kp sib ctx in
      returns (record {
        after = plug c leaf;
        represents = r;
        balanced = IsRedBlack-plug c (node leaf s false ks leaf) leaf h tt refl (λ _. refl);
        same_order = refl;
      })
  mend_lem fuel m ctx d s bs ks (node l y by ky u) p bp kp sib h low r =
      let c = frame d p bp kp sib ctx in
      let old = node leaf s bs ks (node l y by ky u) in
      let (black, red, balanced, same_height) =
        only_child_red left s bs ks l y by ky u (IsRedBlack-sub c old h) in
      let cell = Cell-of m c left l y by ky u r in
      rw
        (
          at_ne_null cell,
          mend,
          black,
          node_is_red-at cell (parent_of_cell m c left l y by ky u r),
          ◌>>=◌,
          red,
        )
        (Returns-map (set_black-Represents m c left l y by ky u r) λ m' r'. record {
          after = plug c (node l y true ky u);
          represents = r';
          balanced = IsRedBlack-plug c old (node l y true ky u) h balanced same_height (λ _. refl);
          same_order = listing-plug_congr c (node l y true ky u) _ refl;
        })

  module _ (fuel : ℕ) (m : Memory K) (c : Context K) (l : Tree K) (a : ℕ) (b : Bool) (k : K) (s : ℕ)
      (bs : Bool) (ks : K) (given_l : root_of l ≢ 0) where
    -- the red-black invariant does not depend on which node it is
    renamed :
        (r : Tree K) → IsRedBlack (plug c (node l a b k r)) → IsRedBlack (plug c (node l s b ks r))
    renamed r h =
        IsRedBlack-plug c (node l a b k r) (node l s b ks r) h (IsRedBlack-sub c (node l a b k r) h)
          refl (λ e. e)

    -- the way to the successor ends at `p'`, which stands below the context `ctx`
    module _ (es : List (Step K)) (x : Tree K) (d : Dir) (p p' : ℕ) (bp : Bool) (kp : K)
        (sib : Tree K) (ctx : Context K) where
      delete_at :
          Represents m (plug c (node l a b k (under es (node leaf s bs ks x))))
          → Represents m (plug (lefts es (frame right a b k l c)) (node leaf s bs ks x))
          → IsRedBlack (plug c (node l a b k (under es (node leaf s bs ks x))))
          → height (under es (node leaf s bs ks x)) < fuel
          → depth ctx < fuel
          → child_dir m s ≡ ok d
          → parent_of (lefts es (frame right a b k l c)) ≡ p
          → (if p == a then s else p) ≡ p'
          → ((t : Tree K)
              → plug c (node l s b ks (under es t)) ≡ plug ctx (branch d t p' bp kp sib))
          → Returns (Rebalanced (plug c (node l s b ks (under es x)))) (delete_inner fuel m a)
      unfolding delete_inner
      delete_at r r' h low low' dir parent actual place =
          let all = node leaf s bs ks x in
          let sc = lefts es (frame right a b k l c) in
          let top_cell = Cell-of m c left l a b k (under es all) r in
          let up = split c (node l a b k (under es all)) r in
          let (here, out) = Split-Branch left up in
          let cell = Cell-of m sc left leaf s bs ks x r' in
          let cell_up = parent_of_cell m sc left leaf s bs ks x r' in
          rw
            (
              top_cell.to_far,
              leftmost_lem fuel m es s bs ks x here.far_holds low,
              node_is_black-at cell cell_up,
              ◌>>=◌,
              dir,
              node_get_parent_ptr-at cell cell_up,
              parent,
              cell.to_far,
              actual,
            )
            (Returns-bind (replace_with_successor_lem m c l a b k s bs ks given_l es x r) λ m' q.
              subst (λ t. Returns (Rebalanced t) (mend fuel m' (root_of x) bs p' d)) (sym (place x))
                (mend_lem fuel m' ctx d s bs ks x p' bp kp sib
                  (subst IsRedBlack (place all) (renamed (under es all) h)) low'
                  (subst (λ t. Represents m' t) (place x) q)))

    -- A node with two children is replaced by the next one in order, and the tree is balanced again.
    pub delete_inner_lem :
        (es : List (Step K)) (x : Tree K)
        → Represents m (plug c (node l a b k (under es (node leaf s bs ks x))))
        → IsRedBlack (plug c (node l a b k (under es (node leaf s bs ks x))))
        → depth c + height (under es (node leaf s bs ks x)) < fuel
        → Returns (Rebalanced (plug c (node l s b ks (under es x)))) (delete_inner fuel m a)
    delete_inner_lem [] x r h low =
        delete_at [] x right a s b ks l c r r h (omega arith) (omega arith)
          (child_dir-at m c right left leaf s bs ks x a b k l r) refl (ground arith) (λ t. refl)
    delete_inner_lem (e ∷ es) x r h low =
        let u = frame right a b k l c in
        let all = node leaf s bs ks x in
        let f = final e es in
        let v = lefts (initial e es) u in
        let v' = lefts (initial e es) (frame right s b ks l c) in
        let (here, _) = Split-Branch left (split c (node l a b k (under (e ∷ es) all)) r) in
        let r' : Represents m (plug (lefts (e ∷ es) u) all) =
          subst (λ t. Represents m t) (sym (plug-lefts (e ∷ es) u all)) r in
        let r'' : Represents m
            (plug v (branch left all f.at_node f.is_black f.at_key f.right_tree)) =
          subst (λ c'. Represents m (plug c' all)) (lefts-final e es u) r' in
        let inside = final-under e es all in
        let other_node : (f.at_node == a) ≡ false =
          ne_of_inside a f.at_node (under (e ∷ es) all) inside here.not_far in
        let deep = depth-lefts (e ∷ es) (frame right s b ks l c) all in
        let deeper = ap depth (lefts-final e es (frame right s b ks l c)) in
        delete_at (e ∷ es) x left f.at_node f.at_node f.is_black f.at_key f.right_tree v' r r' h
          (omega arith) (omega arith)
          (child_dir-at m v left left leaf s bs ks x f.at_node f.is_black f.at_key f.right_tree r'')
          (ap parent_of (lefts-final e es u)) (rw other_node refl)
          (λ t.
            sym (plug-lefts (e ∷ es) (frame right s b ks l c) t)
            ∙ ap (λ c'. plug c' t) (lefts-final e es (frame right s b ks l c)))
