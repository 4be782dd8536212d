-- ===== src/Rbtree/Handover.antt =====
-- `replace_with_successor` on a tree in memory.
use mathlib.Core.Path.{subst}
use dsa_c.Prelude.{ℕ, ◌≡◌, ◌≢◌, ◌∙◌, sym, ap, Bool, true, false, List, [], ◌∷◌, arith, ◌==◌}
use dsa_c.Run.{◌>>=◌, Returns}
use dsa_c.Rbtree.{left, right, Memory, set_child}
use dsa_c.Rbtree.Delete.{replace_with_successor}
use dsa_c.Rbtree.Shape.{
  Tree, leaf, node, root_of, has, ◌∈◌, ◌∉◌, IsPointer, Cell, Cell-Same, Holds-Same,
}
use dsa_c.Rbtree.Context.{
  Context, frame, plug, parent_of, around, Represents, Branch, split, Disjoint-sym, Holds-Branch,
  Split-Branch, Surrounds-Same,
}
use dsa_c.Rbtree.Color.{at_ne_null, node_get_parent_ptr-at, Cell-of, parent_of_cell}
use dsa_c.Rbtree.Rebalance.{has-root_of}
use dsa_c.Rbtree.Write.{
  Same-trans, set_child-Same, set_child-root, set_far-Cell, set_parent, node_set_parent_ptr-ok,
  set_parent-Same, set_parent-root, set_parent-Holds, reparent, reparent-Same,
}
use dsa_c.Rbtree.Link.{has-plug}
use dsa_c.Rbtree.Detach.{
  set_above, set_above-Same, transplanted-Represents, transplanted-ok, ne_of_around,
}
use dsa_c.Rbtree.Successor.{Step, under, lefts, plug-lefts, final, lefts-final, final-under}
use dsa_c.Rbtree.Place.{Ready, take_place_lem}

module _ {K : Type 0} where
  module _ (m : Memory K) (c : Context K) (l : Tree K) (a : ℕ) (b : Bool) (k : K) (s : ℕ)
      (bs : Bool) (ks : K) where
    -- the successor is the node's child
    direct-Ready :
        (x : Tree K)
        → Represents m (plug c (node l a b k (node leaf s bs ks x)))
        → Ready m c l a b k s bs ks x
    direct-Ready x r =
        let up = split c (node l a b k (node leaf s bs ks x)) r in
        let (here, out) = Split-Branch left up in
        let there : Branch m left a leaf s bs ks x = Holds-Branch left here.far_holds in
        let cell = here.cell in
        record {
          above = up.above;
          to_right = s;
          a_cell = cell;
          s_parent = a;
          s_up = record { even = cell.address.even; fits = cell.address.fits };
          s_cell = there.cell;
          l_holds = here.near_holds;
          r_holds = there.far_holds;
          a_s = ground (arith, here.not_far);
          a_l = here.not_near;
          s_l = Disjoint-sym l (node leaf s bs ks x) here.apart s (ground arith);
          s_r = there.not_far;
          l_r = λ y i. ground (arith, here.apart y i);
          a_out = out;
          s_out = up.outside s (ground arith);
          l_out = λ y i. up.outside y (ground arith);
          r_out = λ y i. up.outside y (ground arith);
        }

    -- a successor without a left child, which is in no tree, gets the node's right subtree
    handed-Ready :
        (r : Tree K) (p far : ℕ)
        → root_of r ≢ 0
        → Represents m (plug c (node l a b k r))
        → has s (plug c (node l a b k r)) ≡ false
        → Cell m left s p bs ks 0 far
        → IsPointer p
        → Ready (set_parent (set_child m s right (root_of r)) (root_of r) s) c l a b k s bs ks r
    handed-Ready r p far n h fresh cell p_up =
        let up = split c (node l a b k r) h in
        let (here, out) = Split-Branch left up in
        let outs = has-plug s c (node l a b k r) in
        let s_out : around s c ≡ false = ground arith in
        let s_l : s ∉ l = ground arith in
        let s_r : s ∉ r = ground arith in
        let a_s : a ≢ s = ground arith in
        let q = root_of r in
        let r_root : q ∈ r = has-root_of r n in
        let m₁ = set_child m s right q in
        let m₂ = set_parent m₁ q s in
        let a_cell = here.cell in
        let a_up : IsPointer a = record {
          even = a_cell.address.even;
          fits = a_cell.address.fits;
        } in
        let s_up : IsPointer s = record { even = cell.address.even; fits = cell.address.fits } in
        let kept = λ (y : ℕ) (ns : y ≢ s) (nq : y ≢ q).
          Same-trans (set_child-Same m s right q y ns) (set_parent-Same m₁ q s y nq) in
        record {
          above =
              Surrounds-Same {m' = m₂} up.above
                (set_parent-root m₁ q s ∙ set_child-root m s right q)
                (λ y i.
                  kept y (ne_of_around c y s i s_out)
                    (ne_of_around c y q i (up.outside q (ground arith))));
          to_right = q;
          a_cell = Cell-Same a_cell (kept a a_s (ground (arith, here.not_far)));
          s_parent = p;
          s_up = p_up;
          s_cell =
              Cell-Same (set_far-Cell m left s q cell) (set_parent-Same m₁ q s s (ground arith));
          l_holds =
              Holds-Same {m' = m₂} here.near_holds
                (λ y i. kept y (ground arith) (ground (arith, here.apart y i)));
          r_holds =
              set_parent-Holds m₁ r s n
                (Holds-Same {m' = m₁} here.far_holds
                  (λ y i. set_child-Same m s right q y (ground arith)))
                a_up s_up;
          a_s = a_s;
          a_l = here.not_near;
          s_l = s_l;
          s_r = s_r;
          l_r = here.apart;
          a_out = out;
          s_out = s_out;
          l_out = λ y i. up.outside y (ground arith);
          r_out = λ y i. up.outside y (ground arith);
        }

  module _ (m : Memory K) (c : Context K) (l : Tree K) (a : ℕ) (b : Bool) (k : K) (s : ℕ)
      (bs : Bool) (ks : K) (given_l : root_of l ≢ 0) where
    -- The successor, which is the leftmost node of the right subtree, takes the place of the node,
    -- and its own right subtree takes the place that it leaves.
    pub replace_with_successor_lem :
        (es : List (Step K)) (x : Tree K)
        → Represents m (plug c (node l a b k (under es (node leaf s bs ks x))))
        → Returns
            (λ m'. Represents m' (plug c (node l s b ks (under es x))))
            (replace_with_successor m a s)
    unfolding replace_with_successor
    replace_with_successor_lem [] x r =
        let cell = Cell-of m (frame right a b k l c) left leaf s bs ks x r in
        let up = parent_of_cell m (frame right a b k l c) left leaf s bs ks x r in
        let own : (a == a) ≡ true = ground arith in
        rw (node_get_parent_ptr-at cell up, ◌>>=◌, own)
          (take_place_lem m c l a b k s bs ks x (direct-Ready m c l a b k s bs ks x r) given_l)
    replace_with_successor_lem (e ∷ es) x r =
        let u = frame right a b k l c in
        let f = final e es in
        let sc = lefts (e ∷ es) u in
        let q = root_of x in
        let below = under (e ∷ es) x in
        let r' : Represents m (plug sc (node leaf s bs ks x)) =
          subst (λ t. Represents m t) (sym (plug-lefts (e ∷ es) u (node leaf s bs ks x))) r in
        let cell = Cell-of m sc left leaf s bs ks x r' in
        let up = parent_of_cell m sc left leaf s bs ks x r' in
        let sp = split sc (node leaf s bs ks x) r' in
        let (here, out) = Split-Branch left sp in
        let (whole, _) =
          Split-Branch left (split c (node l a b k (under (e ∷ es) (node leaf s bs ks x))) r) in
        let parent : parent_of sc ≡ f.at_node = ap parent_of (lefts-final e es u) in
        let inside = final-under e es (node leaf s bs ks x) in
        let other_node : (parent_of sc == a) ≡ false = rw parent (ground (arith, whole.not_far)) in
        let moved = reparent (set_above m sc q) q (parent_of sc) in
        let moved_cell : Cell moved left s (parent_of sc) bs ks 0 q = Cell-Same cell (
          Same-trans (set_above-Same m sc q s out) (
            reparent-Same (set_above m sc q) q (parent_of sc) s
              (λ n. ground (arith, has-root_of x n, here.not_far)))) in
        let whole_moved = transplanted-Represents m sc left s bs ks x r' in
        let moved_r : Represents moved (plug c (node l a b k below)) =
          subst (λ t. Represents moved t) (plug-lefts (e ∷ es) u x) whole_moved in
        let fresh : has s (plug c (node l a b k below)) ≡ false =
          ap (λ t. has s t) (sym (plug-lefts (e ∷ es) u x))
          ∙ has-plug s sc x
          ∙ ground (arith, here.not_far, out) in
        let a_cell = Cell-of moved c left l a b k below moved_r in
        let e_cell =
          Cell-of moved u left (under es x) e.at_node e.is_black e.at_key e.right_tree moved_r in
        let e_given = at_ne_null e_cell in
        rw
          (
            node_get_parent_ptr-at cell up,
            ◌>>=◌,
            other_node,
            cell.to_far,
            transplanted-ok m sc left s bs ks x r',
            a_cell.to_far,
            node_set_parent_ptr-ok (set_child moved s right e.at_node) e.at_node s e_given,
          )
          (take_place_lem _ c l a b k s bs ks below
            (handed-Ready moved c l a b k s bs ks below (parent_of sc) q (ground arith) moved_r
              fresh moved_cell up)
            given_l)
