-- ===== src/Rbtree/Link.antt =====
-- `insert_node` on a tree in memory: the new node is hung where the descent ends, and the tree is
-- rebalanced from there.
use dsa_c.Prelude.{
  ℕ, ◌-◌, ◌%◌, ◌<◌, ◌≤◌, ◌≡◌, ◌≢◌, ◌∙◌, ◌⊎◌, inl, inr, refl, ap, Bool, true, false, ◌||◌, arith,
  ◌==◌, if◌then◌else◌,
}
use dsa_c.Run.{ok, ◌>>=◌, Returns, returns}
use dsa_c.Rbtree.{
  Dir, left, right, Memory, set_root, set_child, set_word, node_set_parent_ptr,
  node_set_color_to_red, contains_loop, contains_key,
}
use dsa_c.Rbtree.Insert.{insert_fixup, descend, link, insert_node}
use dsa_c.Rbtree.Shape.{
  Tree, leaf, node, root_of, branch, has, ◌∉◌, IsAddress, Cell, empty, full, Same, Cell-Same,
}
use dsa_c.Rbtree.Context.{
  Context, top, frame, plug, parent_of, around, Surrounds, Represents, Split, split, join,
  Surrounds-Same, parent_of-IsPointer, has-branch, root_of-branch,
}
use dsa_c.Rbtree.Color.{
  node_is_red-at, node_get_parent_ptr-at, Cell-of, parent_of_cell, set_word-Same,
}
use dsa_c.Rbtree.Write.{
  Same-trans, set_child-Same, set_parent, set_parent-Same, node_set_parent_ptr-ok,
  set_child-Surrounds, set_root-Same, Surrounds-Cell,
}
use dsa_c.Rbtree.Fixup.{fixup, depth}
use dsa_c.Rbtree.Climb.{insert_fixup_loop_lem}
use dsa_c.Rbtree.Descent.{
  height, found, locate, Directed, plug-locate, locate-Directed, depth-locate, descend_lem,
  contains_loop_lem,
}

module _ {K : Type 0} where
  -- the root of the whole tree lies above every node below a context
  pub around-root :
      (d : Dir) (a : ℕ) (b : Bool) (k : K) (sib : Tree K) (c : Context K) (t : Tree K)
      → around (root_of (plug (frame d a b k sib c) t)) (frame d a b k sib c) ≡ true
  around-root d a b k sib top t = rw root_of-branch (ground arith)
  around-root d a b k sib (frame e a' b' k' sib' c) t =
      let up = around-root e a' b' k' sib' c (branch d t a b k sib) in ground arith

  -- a red node below another, whose rebalancing needs a round for each level above
  insert_fixup_lem :
      (fuel : ℕ) (m : Memory K) (d : Dir) (p : ℕ) (b : Bool) (kp : K) (sib : Tree K) (c : Context K)
      (l : Tree K) (n : ℕ) (k : K) (r : Tree K)
      → depth c < fuel
      → Represents m (plug (frame d p b kp sib c) (node l n false k r))
      → Returns
          (λ m'. Represents m' (fixup (frame d p b kp sib c) (node l n false k r)))
          (insert_fixup fuel m n)
  unfolding insert_fixup
  insert_fixup_lem fuel m d p b kp sib c l n k r f h =
      let up = frame d p b kp sib c in
      let cell = Cell-of m up left l n false k r h in
      let parent = parent_of_cell m up left l n false k r h in
      let s = split up (node l n false k r) h in
      let below : (n == m.root_ptr) ≡ false = rw h.rooted (
        ground
          (arith, s.outside n (ground arith), around-root d p b kp sib c (node l n false k r))) in
      rw (node_is_red-at cell parent, below, node_get_parent_ptr-at cell parent)
        (insert_fixup_loop_lem fuel m d p b kp sib c (node l n false k r) cell.address.not_null f h)

  -- the new node, before its parent points to it
  module _ (m : Memory K) (a : ℕ) (ctx : Context K) (at_a : IsAddress a)
      (fresh : around a ctx ≡ false) (s : Surrounds m 0 ctx) where
    abbrev cleared : Memory K
    cleared = set_child (set_child m a right 0) a left 0

    abbrev hung : Memory K
    hung = set_word (set_parent cleared a (parent_of ctx)) a (parent_of ctx)

    kept : (x : ℕ) → x ≢ a → Same m hung x
    kept x n =
        let m₁ = set_child m a right 0 in
        Same-trans (Same-trans (set_child-Same m a right 0 x n) (set_child-Same m₁ a left 0 x n)) (
          Same-trans (set_parent-Same cleared a (parent_of ctx) x n)
            (set_word-Same (set_parent cleared a (parent_of ctx)) a (parent_of ctx) x n))

    hung-Cell : Cell hung left a (parent_of ctx) false (m.key a) 0 0
    unfolding set_word set_child set_parent
    hung-Cell = record {
      address = at_a;
      word = ground arith;
      to_near = ground arith;
      to_far = ground arith;
      keyed = refl;
    }

    hung-Surrounds : Surrounds hung 0 ctx
    unfolding set_word set_child set_parent
    hung-Surrounds = Surrounds-Same {m' = hung} s refl (λ x h. kept x (ground arith))

    given : (a == 0) ≡ false
    given = ground (arith, at_a.not_null)

    -- the parent's word without its lowest bit is the parent
    word_of_parent :
        let m₁ = set_parent cleared a (parent_of ctx) in
        let w = m₁.parent_ptr_with_color_bit a in w - w % 2 ≡ parent_of ctx
    unfolding set_parent set_word
    word_of_parent =
        let p = parent_of-IsPointer s in
        let self : (a == a) ≡ true = ground arith in rw self (omega (arith, p.even, p.fits))

    hung-red : node_set_color_to_red (set_parent cleared a (parent_of ctx)) a ≡ ok hung
    unfolding node_set_color_to_red
    hung-red = rw (given, word_of_parent) refl

    hung-parent :
        node_set_parent_ptr cleared a (parent_of ctx) ≡ ok (set_parent cleared a (parent_of ctx))
    hung-parent = node_set_parent_ptr-ok cleared a (parent_of ctx) given

  alone-Represents :
      (m : Memory K) (a : ℕ) (at_a : IsAddress a) (fresh : around {K = K} a top ≡ false)
      (s : Surrounds m 0 top)
      → Represents (set_root (hung m a top at_a fresh s) a) (node leaf a false (m.key a) leaf)
  unfolding set_root
  alone-Represents m a at_a fresh s =
      let m' = hung m a top at_a fresh s in
      record {
        rooted = refl;
        holds =
            full (Cell-Same (hung-Cell m a top at_a fresh s) (set_root-Same m' a a)) empty empty
              refl refl (λ x i. refl);
      }

  -- A node that hangs below its parent on the side that its key asks for.
  link_lem :
      (less : K → K → Bool) (fuel : ℕ) (m : Memory K) (a : ℕ) (ctx : Context K)
      → IsAddress a
      → around a ctx ≡ false
      → Directed less (m.key a) ctx
      → depth ctx ≤ fuel
      → Surrounds m 0 ctx
      → Returns
          (λ m'. Represents m' (fixup ctx (node leaf a false (m.key a) leaf)))
          (link less fuel m a (parent_of ctx))
  unfolding link fixup
  link_lem less fuel m a top at_a fresh d f s =
      rw (hung-parent m a top at_a fresh s, ◌>>=◌, hung-red m a top at_a fresh s)
        (returns (alone-Represents m a at_a fresh s))
  link_lem less fuel m a (frame d p b kp sib c) at_a fresh dir f s =
      let up = frame d p b kp sib c in
      let m' = hung m a up at_a fresh s in
      let below = node leaf a false (m.key a) leaf in
      let above = hung-Surrounds m a up at_a fresh s in
      let cell = Surrounds-Cell above in
      let p_given : (p == 0) ≡ false = ground (arith, cell.address.not_null) in
      let keyed : m'.key p ≡ kp = cell.keyed in
      let own : m'.key a ≡ m.key a = let c = hung-Cell m a up at_a fresh s in c.keyed in
      rw
        (
          hung-parent m a up at_a fresh s,
          ◌>>=◌,
          hung-red m a up at_a fresh s,
          p_given,
          keyed,
          own,
          dir,
        )
        (insert_fixup_lem fuel (set_child m' p d a) d p b kp sib c leaf a (m.key a) leaf
          (omega arith)
          (join up below (record {
            above = set_child-Surrounds m' d p a above;
            below =
                full
                  (Cell-Same (hung-Cell m a up at_a fresh s)
                    (set_child-Same m' p d a a (ground arith)))
                  empty empty refl refl (λ x i. refl);
            outside = λ x i. ground arith;
          })))

  -- what `insert_node` makes of the tree
  unfoldable pub inserted : (K → K → Bool) → ℕ → K → Tree K → Tree K
  inserted less a k t = fixup (locate less k t top) (node leaf a false k leaf)

  pub has-plug : (x : ℕ) (c : Context K) (t : Tree K) → has x (plug c t) ≡ (around x c || has x t)
  has-plug x top t = refl
  has-plug x (frame d a b k sib c) t =
      rw (has-plug x c (branch d t a b k sib), has-branch x d t a b k sib) (ground arith)

  -- the check for the key, which is left out where keys may be twice
  known-false :
      (less : K → K → Bool) (allow : Bool) (fuel : ℕ) (m : Memory K) (k : K) (t : Tree K)
      → Represents m t
      → height t < fuel
      → (allow ≡ true) ⊎ (found less k t ≡ 0)
      → (if allow then ok false else contains_key less fuel m k) ≡ ok false
  unfolding contains_key
  known-false less true fuel m k t r f new = refl
  known-false less false fuel m k t r f (inl e) = cc
  known-false less false fuel m k t r f (inr e) =
      ap (λ (p : ℕ). contains_loop less fuel m p k) r.rooted
      ∙ contains_loop_lem less fuel m k t r.holds f
      ∙ rw e refl

  -- Inserting a node at an address outside the tree, whose key is not in the tree or may be there
  -- twice, with more fuel than the tree is high.
  pub insert_node-inserted :
      (less : K → K → Bool) (allow : Bool) (fuel : ℕ) (m : Memory K) (a : ℕ) (t : Tree K)
      → Represents m t
      → IsAddress a
      → a ∉ t
      → height t < fuel
      → (allow ≡ true) ⊎ (found less (m.key a) t ≡ 0)
      → Returns
          (λ m'. Represents m' (inserted less a (m.key a) t))
          (insert_node less allow fuel m a)
  unfolding insert_node inserted
  insert_node-inserted less allow fuel m a t r at_a out f new =
      let k = m.key a in
      let given : (a == 0) ≡ false = ground (arith, at_a.not_null) in
      let ctx = locate less k t top in
      let whole : plug ctx leaf ≡ t = plug-locate less k t top in
      let s : Split m ctx leaf = split ctx leaf (rw whole r) in
      let fresh : around a ctx ≡ false = ground (arith, has-plug a ctx leaf, ap (has a) whole) in
      let down : descend less fuel m k 0 m.root_ptr ≡ ok (parent_of ctx) =
        ap (λ (p : ℕ). descend less fuel m k 0 p) r.rooted
        ∙ descend_lem less fuel m k t top r.holds f in
      rw (given, known-false less allow fuel m k t r f new, down)
        (link_lem less fuel m a ctx at_a fresh (locate-Directed less k t top tt)
          (omega (arith, depth-locate less k t top)) s.above)
