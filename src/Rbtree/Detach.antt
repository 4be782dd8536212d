-- ===== src/Rbtree/Detach.antt =====
-- `node_transplant` on a tree in memory.
use dsa_c.Prelude.{ℕ, ◌≡◌, ◌≢◌, refl, Bool, true, false, arith}
use dsa_c.Run.{ok, ◌>>=◌, Returns, returns}
use dsa_c.Rbtree.{Dir, Memory, set_root, set_child, node_get_parent_ptr, child_dir, node_transplant}
use dsa_c.Rbtree.Shape.{
  Tree, leaf, root_of, branch, ◌∈◌, IsPointer, Cell, Same, Holds-Same, ne-root_of,
}
use dsa_c.Rbtree.Context.{
  Context, top, frame, plug, parent_of, around, Surrounds, root, Represents, split, join,
  Split-Branch, Surrounds-Same, parent_of-IsPointer, has-branch, root_of-branch,
}
use dsa_c.Rbtree.Color.{at_ne_null, node_get_parent_ptr-at}
use dsa_c.Rbtree.Rebalance.{has-root_of}
use dsa_c.Rbtree.Write.{
  set_child-Same, set_child-Surrounds, Surrounds-Cell, direction, set_root-Same, reparent,
  reparent-ok, reparent-Same, reparent-Holds, reparent-root,
}

module _ {K : Type 0} where
  -- the pointer below the context is set
  abbrev pub set_above : Memory K → Context K → ℕ → Memory K
  set_above m top q = set_root m q
  set_above m (frame d g b k sib c) q = set_child m g d q

  set_root-Surrounds : (m : Memory K) (q : ℕ) → Surrounds (set_root m q) q top
  unfolding set_root
  set_root-Surrounds m q = root refl

  pub set_above-Surrounds :
      (m : Memory K) {hole : ℕ} (c : Context K) (q : ℕ)
      → Surrounds m hole c
      → Surrounds (set_above m c q) q c
  set_above-Surrounds m top q s = set_root-Surrounds m q
  set_above-Surrounds m (frame d g b k sib c) q s = set_child-Surrounds m d g q s

  pub set_above-Same :
      (m : Memory K) (c : Context K) (q x : ℕ) → around x c ≡ false → Same m (set_above m c q) x
  set_above-Same m top q x n = set_root-Same m q x
  set_above-Same m (frame d g b k sib c) q x n = set_child-Same m g d q x (ground arith)

  dir_at :
      (m : Memory K) {d : Dir} {g parent : ℕ} {b : Bool} {k : K} {a far : ℕ}
      → Cell m d g parent b k a far
      → node_get_parent_ptr m a ≡ ok g
      → a ≢ far
      → child_dir m a ≡ ok d
  unfolding child_dir
  dir_at m {d} cell up differs = rw (up, at_ne_null cell, direction d cell differs) refl

  -- the node at `a`, which the context holds, is replaced by the one at `dest`
  pub node_transplant-ok :
      (m : Memory K) (c : Context K) (a dest : ℕ)
      → Surrounds m a c
      → a ≢ 0
      → around a c ≡ false
      → node_get_parent_ptr m a ≡ ok (parent_of c)
      → node_transplant m a dest ≡ ok (reparent (set_above m c dest) dest (parent_of c))
  unfolding node_transplant
  node_transplant-ok m top a dest s n out up = rw (up, ◌>>=◌) (reparent-ok (set_root m dest) dest 0)
  node_transplant-ok m (frame d g b k sib c) a dest s n out up =
      let cell = Surrounds-Cell s in
      let differs = ne-root_of a sib n (ground arith) in
      let dir : child_dir m a ≡ ok d = dir_at m cell up differs in
      rw (up, ◌>>=◌, at_ne_null cell, dir, ◌>>=◌) (reparent-ok (set_child m g d dest) dest g)

  pub ne_of_around : (c : Context K) (x y : ℕ) → around x c ≡ true → around y c ≡ false → x ≢ y
  ne_of_around c x y h h' e = let h'' = rw e at h in cc

  module _ (m : Memory K) (c : Context K) (d : Dir) (a : ℕ) (b : Bool) (k : K) (u : Tree K)
      (r : Represents m (plug c (branch d leaf a b k u))) where
    pub transplanted-Represents :
        Represents (reparent (set_above m c (root_of u)) (root_of u) (parent_of c)) (plug c u)
    transplanted-Represents =
        let s = split c (branch d leaf a b k u) r in
        let (here, out) = Split-Branch d s in
        let cell = here.cell in
        let q = root_of u in
        let m₁ = set_above m c q in
        let up = parent_of-IsPointer s.above in
        let above = rw root_of-branch at (s.above) in
        let inside = λ (x : ℕ) (h : x ∈ u). s.outside x (rw has-branch (ground arith)) in
        let a_up : IsPointer a = record { even = cell.address.even; fits = cell.address.fits } in
        let kept = Holds-Same here.far_holds (λ x h. set_above-Same m c q x (inside x h)) in
        join c u (record {
          above =
              Surrounds-Same (set_above-Surrounds m c q above) (reparent-root m₁ q (parent_of c))
                (λ x h.
                  reparent-Same m₁ q (parent_of c) x
                    (λ n. ne_of_around c x q h (inside q (has-root_of u n))));
          below = reparent-Holds m₁ u (parent_of c) kept a_up up;
          outside = inside;
        })

    pub transplanted-ok :
        node_transplant m a (root_of u)
        ≡ ok (reparent (set_above m c (root_of u)) (root_of u) (parent_of c))
    transplanted-ok =
        let s = split c (branch d leaf a b k u) r in
        let (here, out) = Split-Branch d s in
        let cell = here.cell in
        let above = rw root_of-branch at (s.above) in
        node_transplant-ok m c a (root_of u) above cell.address.not_null out
          (node_get_parent_ptr-at cell (parent_of-IsPointer s.above))

    -- A node with at most one child is cut out: its child takes its place.
    pub node_transplant_lem :
        Returns (λ m'. Represents m' (plug c u)) (node_transplant m a (root_of u))
    node_transplant_lem = rw transplanted-ok (returns transplanted-Represents)
