-- ===== src/Rbtree/Rebalance.antt =====
-- `insert_fixup` on a tree in memory: it computes `fixup`, and its fuel is enough.
use dsa_c.Prelude.{ℕ, ◌≡◌, ◌≢◌, ◌∙◌, refl, Bool, true, false, arith, ◌==◌}
use dsa_c.Run.{Run, ok, ◌>>=◌, Returns, returns, Returns-bind}
use dsa_c.Rbtree.{
  Dir, left, right, other, Memory, rotate_dir, node_set_color_to_black, node_set_color_to_red,
}
use dsa_c.Rbtree.Insert.{insert_rotate}
use dsa_c.Rbtree.Shape.{Tree, leaf, node, root_of, branch, ◌∈◌, ne-root_of}
use dsa_c.Rbtree.Context.{Context, frame, plug, Represents, split, Split-Branch, root_of-branch}
use dsa_c.Rbtree.Color.{at_ne_null, Cell-of, set_black-Represents, set_red-Represents}
use dsa_c.Rbtree.Rotation.{rotate_dir_lem}
use dsa_c.Rbtree.Fixup.{outer, inner, straighten}

module _ {K : Type 0} where
  -- the rotation back: around `g`, towards the side of `u`
  pub rotate_back :
      (m : Memory K) (ctx : Context K) (e : Dir) (t : Tree K) (p : ℕ) (bp : Bool) (kp : K)
      (sib : Tree K) (g : ℕ) (bg : Bool) (kg : K) (u : Tree K)
      → Represents m (plug ctx (branch e (branch e t p bp kp sib) g bg kg u))
      → Returns
          (λ (root_ptr, m').
            (root_ptr ≡ p) × Represents m' (plug ctx (branch e t p bp kp (branch e sib g bg kg u))))
          (rotate_dir m g (other e))
  rotate_back m ctx left t p bp kp sib g bg kg u r =
      rotate_dir_lem m ctx right u g bg kg sib p bp kp t r
  rotate_back m ctx right t p bp kp sib g bg kg u r =
      rotate_dir_lem m ctx left u g bg kg sib p bp kp t r

  -- the last three steps: black for the node that comes up, red for `g`, and the rotation
  abbrev finish : Memory K → (p g : ℕ) → Dir → Run (Memory K)
  finish m p g e = do
    m₂ ← node_set_color_to_black m p
    m₃ ← node_set_color_to_red m₂ g
    (_, m₄) ← rotate_dir m₃ g (other e)
    ok m₄

  finish_lem :
      (m : Memory K) (ctx : Context K) (e : Dir) (t : Tree K) (p : ℕ) (bp : Bool) (kp : K)
      (sib : Tree K) (g : ℕ) (bg : Bool) (kg : K) (u : Tree K)
      → Represents m (plug ctx (branch e (branch e t p bp kp sib) g bg kg u))
      → Returns (λ m'. Represents m' (plug ctx (outer e p kp sib g kg u t))) (finish m p g e)
  finish_lem m ctx e t p bp kp sib g bg kg u r =
      Returns-bind (set_black-Represents m (frame e g bg kg u ctx) e t p bp kp sib r) λ m₂ r₂.
        Returns-bind (set_red-Represents m₂ ctx e (branch e t p true kp sib) g bg kg u r₂) λ m₃ r₃.
          Returns-bind (rotate_back m₃ ctx e t p true kp sib g false kg u r₃)
            λ (_, m₄) (_, r₄). returns r₄

  pub has-root_of : (t : Tree K) → root_of t ≢ 0 → root_of t ∈ t
  has-root_of leaf n = absurd (n refl)
  has-root_of (node l a b k r) n = ground arith

  pub roots_differ :
      (m : Memory K) (c : Context K) (d : Dir) (near : Tree K) (a : ℕ) (b : Bool) (k : K)
      (far : Tree K)
      → Represents m (plug c (branch d near a b k far))
      → root_of near ≢ 0
      → root_of near ≢ root_of far
  roots_differ m c d near a b k far r n =
      let (here, _) = Split-Branch d (split c (branch d near a b k far) r) in
      ne-root_of (root_of near) far n (here.apart (root_of near) (has-root_of near n))

  insert_rotate-outer :
      (m : Memory K) (ctx : Context K) (e : Dir) (t : Tree K) (p : ℕ) (kp : K) (sib : Tree K)
      (g : ℕ) (bg : Bool) (kg : K) (u : Tree K)
      → root_of t ≢ 0
      → Represents m (plug ctx (branch e (branch e t p false kp sib) g bg kg u))
      → Returns
          (λ m'. Represents m' (plug ctx (outer e p kp sib g kg u t)))
          (insert_rotate m (root_of t) p g e)
  unfolding insert_rotate
  insert_rotate-outer m ctx e t p kp sib g bg kg u n r =
      let up = frame e g bg kg u ctx in
      let cell = Cell-of m up e t p false kp sib r in
      let n' = roots_differ m up e t p false kp sib r n in
      let outside : (root_of t == m.child_ptrs p (other e)) ≡ false =
        rw cell.to_far (ground arith) in
      rw (at_ne_null cell, outside) (finish_lem m ctx e t p false kp sib g bg kg u r)

  first_turn :
      (m : Memory K) (ctx : Context K) (e : Dir) (p : ℕ) (kp : K) (sib : Tree K) (g : ℕ) (bg : Bool)
      (kg : K) (u c : Tree K) (n : ℕ) (bn : Bool) (kn : K) (f : Tree K)
      → Represents m
          (plug ctx (branch e (branch e sib p false kp (branch e c n bn kn f)) g bg kg u))
      → Returns
          (λ (p', m').
            (p' ≡ n)
            × Represents m'
                (plug ctx (branch e (branch e (branch e sib p false kp c) n bn kn f) g bg kg u)))
          (rotate_dir m p e >>= λ (_, rotated). ok (rotated.child_ptrs g e, rotated))
  first_turn m ctx e p kp sib g bg kg u c n bn kn f r =
      let up = frame e g bg kg u ctx in
      let turned = branch e sib p false kp c in
      Returns-bind (rotate_dir_lem m up e sib p false kp c n bn kn f r) λ (_, m₁) (_, r₁).
        let cell = Cell-of m₁ ctx e (branch e turned n bn kn f) g bg kg u r₁ in
        returns (cell.to_near ∙ root_of-branch e turned n bn kn f, r₁)

  insert_rotate-inner :
      (m : Memory K) (ctx : Context K) (e : Dir) (p : ℕ) (kp : K) (sib : Tree K) (g : ℕ) (bg : Bool)
      (kg : K) (u c : Tree K) (n : ℕ) (bn : Bool) (kn : K) (f : Tree K)
      → Represents m
          (plug ctx (branch e (branch e sib p false kp (branch e c n bn kn f)) g bg kg u))
      → Returns
          (λ m'. Represents m' (plug ctx (inner e p kp sib g kg u c n kn f)))
          (insert_rotate m n p g e)
  unfolding insert_rotate
  insert_rotate-inner m ctx e p kp sib g bg kg u c n bn kn f r =
      let up = frame e g bg kg u ctx in
      let cell = Cell-of m up e sib p false kp (branch e c n bn kn f) r in
      let inside : (n == m.child_ptrs p (other e)) ≡ true =
        rw (cell.to_far, root_of-branch e c n bn kn f) (ground arith) in
      rw (at_ne_null cell, inside)
        (Returns-bind (first_turn m ctx e p kp sib g bg kg u c n bn kn f r) λ (p', m₁) (up', r₁).
          rw up' (finish_lem m₁ ctx e (branch e sib p false kp c) n bn kn f g bg kg u r₁))

  -- the branch that rotates, for the four ways from `g` to the node
  pub insert_rotate_lem :
      (m : Memory K) (ctx : Context K) (e d : Dir) (t : Tree K) (p : ℕ) (kp : K) (sib : Tree K)
      (g : ℕ) (bg : Bool) (kg : K) (u : Tree K)
      → root_of t ≢ 0
      → Represents m (plug ctx (branch e (branch d t p false kp sib) g bg kg u))
      → Returns
          (λ m'. Represents m' (plug ctx (straighten e d p kp sib g kg u t)))
          (insert_rotate m (root_of t) p g e)
  insert_rotate_lem m ctx left left t p kp sib g bg kg u n r =
      insert_rotate-outer m ctx left t p kp sib g bg kg u n r
  insert_rotate_lem m ctx right right t p kp sib g bg kg u n r =
      insert_rotate-outer m ctx right t p kp sib g bg kg u n r
  insert_rotate_lem m ctx left right leaf p kp sib g bg kg u n r = absurd (n refl)
  insert_rotate_lem m ctx left right (node c t b kt f) p kp sib g bg kg u n r =
      insert_rotate-inner m ctx left p kp sib g bg kg u c t b kt f r
  insert_rotate_lem m ctx right left leaf p kp sib g bg kg u n r = absurd (n refl)
  insert_rotate_lem m ctx right left (node f t b kt c) p kp sib g bg kg u n r =
      insert_rotate-inner m ctx right p kp sib g bg kg u c t b kt f r
