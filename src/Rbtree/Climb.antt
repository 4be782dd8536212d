-- ===== src/Rbtree/Climb.antt =====
-- The loop of `insert_fixup` on a tree in memory: it computes `fixup`, and a round for each level of
-- the tree is fuel enough.
use dsa_c.Prelude.{ℕ, zero, suc, ◌<◌, ◌≡◌, ◌≢◌, refl, Bool, true, false, arith}
use dsa_c.Run.{ok, ◌>>=◌, Returns, returns, Returns-bind}
use dsa_c.Rbtree.{Dir, left, right, Memory, node_get_parent_ptr, child_dir, node_set_color_to_black}
use dsa_c.Rbtree.Insert.{is_null_or_black, insert_recolor, from_uncle, insert_fixup_loop}
use dsa_c.Rbtree.Shape.{Tree, leaf, node, root_of, branch, Cell}
use dsa_c.Rbtree.Context.{Context, top, frame, plug, parent_of, Represents, root_of-branch}
use dsa_c.Rbtree.Color.{
  at_ne_null, node_is_black-at, node_get_parent_ptr-at, Cell-of, parent_of_cell,
  set_black-Represents, set_red-Represents,
}
use dsa_c.Rbtree.Write.{direction}
use dsa_c.Rbtree.Fixup.{fixup, depth}
use dsa_c.Rbtree.Rebalance.{roots_differ, insert_rotate_lem}

module _ {K : Type 0} where
  module _ (m : Memory K) (ctx : Context K) (e d : Dir) (t : Tree K) (p : ℕ) (b : Bool) (kp : K)
      (sib : Tree K) (g : ℕ) (bg : Bool) (kg : K) (u : Tree K)
      (r : Represents m (plug ctx (branch e (branch d t p b kp sib) g bg kg u))) where
    p-Cell : Cell m d p g b kp (root_of t) (root_of sib)
    p-Cell = Cell-of m (frame e g bg kg u ctx) d t p b kp sib r

    g-Cell : Cell m e g (parent_of ctx) bg kg p (root_of u)
    g-Cell = rw root_of-branch at (Cell-of m ctx e (branch d t p b kp sib) g bg kg u r)

    pub child_dir-at : child_dir m p ≡ ok e
    unfolding child_dir
    child_dir-at =
        let cell = p-Cell in
        let up = g-Cell in
        let n : p ≢ root_of u = rw root_of-branch at (
          roots_differ m ctx e (branch d t p b kp sib) g bg kg u r
            (rw root_of-branch (ground (arith, cell.address.not_null)))) in
        rw
          (
            node_get_parent_ptr-at cell (parent_of_cell m (frame e g bg kg u ctx) d t p b kp sib r),
            at_ne_null up,
            direction e up n,
          )
          refl

  -- the colour of the subtree on the other side
  set_black_far :
      (m : Memory K) (ctx : Context K) (e : Dir) (t : Tree K) (g : ℕ) (bg : Bool) (kg : K)
      (l : Tree K) (u : ℕ) (b : Bool) (k : K) (r : Tree K)
      → Represents m (plug ctx (branch e t g bg kg (node l u b k r)))
      → Returns
          (λ m'. Represents m' (plug ctx (branch e t g bg kg (node l u true k r))))
          (node_set_color_to_black m u)
  set_black_far m ctx left t g bg kg l u b k r h =
      set_black-Represents m (frame right g bg kg t ctx) left l u b k r h
  set_black_far m ctx right t g bg kg l u b k r h =
      set_black-Represents m (frame left g bg kg t ctx) left l u b k r h

  insert_recolor_lem :
      (m : Memory K) (ctx : Context K) (e d : Dir) (t : Tree K) (p : ℕ) (b : Bool) (kp : K)
      (sib : Tree K) (g : ℕ) (bg : Bool) (kg : K) (ul : Tree K) (u : ℕ) (bu : Bool) (ku : K)
      (ur : Tree K)
      → Represents m (plug ctx (branch e (branch d t p b kp sib) g bg kg (node ul u bu ku ur)))
      → Returns
          (λ m'.
            Represents m'
              (plug ctx (branch e (branch d t p true kp sib) g false kg (node ul u true ku ur))))
          (insert_recolor m p u g)
  unfolding insert_recolor
  insert_recolor_lem m ctx e d t p b kp sib g bg kg ul u bu ku ur r =
      let near = branch d t p true kp sib in
      let uncle = node ul u true ku ur in
      Returns-bind
        (set_black-Represents m (frame e g bg kg (node ul u bu ku ur) ctx) d t p b kp sib r)
        λ m₁ r₁.
          Returns-bind (set_black_far m₁ ctx e near g bg kg ul u bu ku ur r₁)
            λ m₂ r₂. set_red-Represents m₂ ctx e near g bg kg uncle r₂

  -- the uncle of a node two levels down
  uncle_cell :
      (m : Memory K) (ctx : Context K) (e : Dir) (t : Tree K) (g : ℕ) (bg : Bool) (kg : K)
      (l : Tree K) (u : ℕ) (b : Bool) (k : K) (r : Tree K)
      → Represents m (plug ctx (branch e t g bg kg (node l u b k r)))
      → is_null_or_black m u ≡ ok b
  unfolding is_null_or_black
  uncle_cell m ctx left t g bg kg l u b k r h =
      let c = frame right g bg kg t ctx in
      let cell = Cell-of m c left l u b k r h in
      rw (at_ne_null cell) (node_is_black-at cell (parent_of_cell m c left l u b k r h))
  uncle_cell m ctx right t g bg kg l u b k r h =
      let c = frame left g bg kg t ctx in
      let cell = Cell-of m c left l u b k r h in
      rw (at_ne_null cell) (node_is_black-at cell (parent_of_cell m c left l u b k r h))

  at_uncle :
      (fuel : ℕ) (m : Memory K) (ctx : Context K) (e d : Dir) (t : Tree K) (p : ℕ) (kp : K)
      (sib : Tree K) (g : ℕ) (bg : Bool) (kg : K) (u : Tree K)
      → Represents m (plug ctx (branch e (branch d t p false kp sib) g bg kg u))
      → insert_fixup_loop (suc fuel) m (root_of t) p
        ≡ from_uncle (insert_fixup_loop fuel) m (root_of t) p g (root_of u) e
  unfolding insert_fixup_loop
  at_uncle fuel m ctx e d t p kp sib g bg kg u r =
      let cell = p-Cell m ctx e d t p false kp sib g bg kg u r in
      let above = g-Cell m ctx e d t p false kp sib g bg kg u r in
      let up = parent_of_cell m (frame e g bg kg u ctx) d t p false kp sib r in
      rw
        (
          node_is_black-at cell up,
          node_get_parent_ptr-at cell up,
          ◌>>=◌,
          at_ne_null above,
          child_dir-at m ctx e d t p false kp sib g bg kg u r,
          above.to_far,
        )
        refl

  under_black :
      (fuel : ℕ) (m : Memory K) (ctx : Context K) (d : Dir) (t : Tree K) (p : ℕ) (kp : K)
      (sib : Tree K)
      → Represents m (plug ctx (branch d t p true kp sib))
      → insert_fixup_loop (suc fuel) m (root_of t) p ≡ ok m
  unfolding insert_fixup_loop
  under_black fuel m ctx d t p kp sib r =
      let cell = Cell-of m ctx d t p true kp sib r in
      let up = parent_of_cell m ctx d t p true kp sib r in
      rw (node_is_black-at cell up, node_get_parent_ptr-at cell up) refl

  under_root :
      (fuel : ℕ) (m : Memory K) (d : Dir) (t : Tree K) (p : ℕ) (kp : K) (sib : Tree K)
      → Represents m (branch d t p false kp sib)
      → insert_fixup_loop (suc fuel) m (root_of t) p ≡ node_set_color_to_black m p
  unfolding insert_fixup_loop
  under_root fuel m d t p kp sib r =
      let cell = Cell-of m top d t p false kp sib r in
      let up = parent_of_cell m top d t p false kp sib r in
      rw (node_is_black-at cell up, node_get_parent_ptr-at cell up) refl

  branch_given :
      (m : Memory K) (ctx : Context K) (e : Dir) (near : Tree K) (g : ℕ) (kg : K) (u : Tree K)
      → Represents m (plug ctx (branch e near g false kg u))
      → root_of (branch e near g false kg u) ≢ 0
  branch_given m ctx e near g kg u r =
      let cell = Cell-of m ctx e near g false kg u r in rw root_of-branch cell.address.not_null

  up_again :
      (m : Memory K) (ctx : Context K) (e : Dir) (near : Tree K) (g : ℕ) (kg : K) (u : Tree K)
      → Represents m (plug ctx (branch e near g false kg u))
      → node_get_parent_ptr m g ≡ ok (parent_of ctx)
  up_again m ctx e near g kg u r =
      node_get_parent_ptr-at (Cell-of m ctx e near g false kg u r)
        (parent_of_cell m ctx e near g false kg u r)

  pub insert_fixup_loop_lem :
      (fuel : ℕ) (m : Memory K) (d : Dir) (p : ℕ) (b : Bool) (kp : K) (sib : Tree K)
      (ctx : Context K) (t : Tree K)
      → root_of t ≢ 0
      → depth ctx < fuel
      → Represents m (plug (frame d p b kp sib ctx) t)
      → Returns
          (λ m'. Represents m' (fixup (frame d p b kp sib ctx) t))
          (insert_fixup_loop fuel m (root_of t) p)
  unfolding fixup is_null_or_black from_uncle
  insert_fixup_loop_lem zero m d p b kp sib ctx t n f r = absurd (omega arith)
  insert_fixup_loop_lem (suc fuel) m d p true kp sib ctx t n f r =
      rw (under_black fuel m ctx d t p kp sib r) (returns r)
  insert_fixup_loop_lem (suc fuel) m d p false kp sib top t n f r =
      rw (under_root fuel m d t p kp sib r) (set_black-Represents m top d t p false kp sib r)
  insert_fixup_loop_lem (suc fuel) m d p false kp sib (frame e g bg kg leaf ctx) t n f r =
      rw (at_uncle fuel m ctx e d t p kp sib g bg kg leaf r)
        (insert_rotate_lem m ctx e d t p kp sib g bg kg leaf n r)
  insert_fixup_loop_lem (suc fuel) m d p false kp sib (frame e g bg kg (node ul u true ku ur) ctx) t
        n f r =
      let near = branch d t p false kp sib in
      let uncle = node ul u true ku ur in
      rw
        (
          at_uncle fuel m ctx e d t p kp sib g bg kg uncle r,
          uncle_cell m ctx e near g bg kg ul u true ku ur r,
        )
        (insert_rotate_lem m ctx e d t p kp sib g bg kg uncle n r)
  insert_fixup_loop_lem (suc fuel) m d p false kp sib (frame e g bg kg (node ul u false ku ur) top)
        t n f r =
      let near = branch d t p true kp sib in
      let uncle = node ul u true ku ur in
      rw
        (
          at_uncle fuel m top e d t p kp sib g bg kg (node ul u false ku ur) r,
          uncle_cell m top e (branch d t p false kp sib) g bg kg ul u false ku ur r,
        )
        (Returns-bind (insert_recolor_lem m top e d t p false kp sib g bg kg ul u false ku ur r)
          λ m' r'. rw (up_again m' top e near g kg uncle r') (returns r'))
  insert_fixup_loop_lem (suc fuel) m d p false kp sib
        (frame e g bg kg (node ul u false ku ur) (frame e' p' b' kp' sib' ctx)) t n f r =
      let up = frame e' p' b' kp' sib' ctx in
      let near = branch d t p true kp sib in
      let uncle = node ul u true ku ur in
      rw
        (
          at_uncle fuel m up e d t p kp sib g bg kg (node ul u false ku ur) r,
          uncle_cell m up e (branch d t p false kp sib) g bg kg ul u false ku ur r,
        )
        (Returns-bind (insert_recolor_lem m up e d t p false kp sib g bg kg ul u false ku ur r)
          λ m' r'.
            let below = branch e near g false kg uncle in
            let cell = Cell-of m' ctx e' below p' b' kp' sib' r' in
            rw (up_again m' up e near g kg uncle r', ◌>>=◌, at_ne_null cell)
              (rw root_of-branch at (
                insert_fixup_loop_lem fuel m' e' p' b' kp' sib' ctx below
                  (branch_given m' up e near g kg uncle r') (omega arith) r')))
