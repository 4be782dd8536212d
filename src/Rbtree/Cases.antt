-- ===== src/Rbtree/Cases.antt =====
-- The cases of `delete_fixup` on a tree in memory.
use dsa_c.Prelude.{ℕ, ◌≡◌, refl, Bool, true, false, not}
use dsa_c.Word.{add_size}
use dsa_c.Run.{ok, Returns, returns, Returns-bind}
use dsa_c.Rbtree.{
  Dir, left, right, other, Memory, bit, rotate_dir, node_set_color_to_red, node_set_color_to_black,
  node_set_color_to_color_of_other,
}
use dsa_c.Rbtree.Delete.{is_red_node, case_4, case_5, case_6}
use dsa_c.Rbtree.Shape.{Tree, node, root_of, branch, IsPointer, Holds, empty, full, add_size-small}
use dsa_c.Rbtree.Context.{Context, frame, plug, parent_of, Represents}
use dsa_c.Rbtree.Color.{
  at_ne_null, color_bit, without_bit, node_is_red-at, Cell-of, parent_of_cell, set_word-Represents,
  set_black-Represents, set_red-Represents,
}
use dsa_c.Rbtree.Rotation.{rotate_dir_lem}
use dsa_c.Rbtree.Rebalance.{rotate_back}
use dsa_c.Rbtree.Balance.{black_root}
use dsa_c.Rbtree.Sunk.{four, five, six}

module _ {K : Type 0} where
  -- the root of a subtree in memory
  pub is_red_node-at :
      {m : Memory K} {parent : ℕ} {t : Tree K}
      → Holds m parent t
      → IsPointer parent
      → is_red_node m (root_of t) ≡ ok (not (black_root t))
  unfolding is_red_node
  is_red_node-at empty p = refl
  is_red_node-at (full cell hl hr nl nr dis) p = rw (at_ne_null cell) (node_is_red-at cell p)

  module _ (m : Memory K) (ctx : Context K) (near : Tree K) (a : ℕ) (b : Bool) (k : K) (e : Dir)
      (n : Tree K) (s : ℕ) (bs : Bool) (ks : K) (f : Tree K) where
    -- the colour of the subtree on the other side
    pub set_red_far :
        (d : Dir)
        → Represents m (plug ctx (branch d near a b k (branch e n s bs ks f)))
        → Returns
            (λ m'. Represents m' (plug ctx (branch d near a b k (branch e n s false ks f))))
            (node_set_color_to_red m s)
    set_red_far left r = set_red-Represents m (frame right a b k near ctx) e n s bs ks f r
    set_red_far right r = set_red-Represents m (frame left a b k near ctx) e n s bs ks f r

    pub set_black_far :
        (d : Dir)
        → Represents m (plug ctx (branch d near a b k (branch e n s bs ks f)))
        → Returns
            (λ m'. Represents m' (plug ctx (branch d near a b k (branch e n s true ks f))))
            (node_set_color_to_black m s)
    set_black_far left r = set_black-Represents m (frame right a b k near ctx) e n s bs ks f r
    set_black_far right r = set_black-Represents m (frame left a b k near ctx) e n s bs ks f r

  pub case_4_lem :
      (m : Memory K) (ctx : Context K) (d : Dir) (t : Tree K) (p : ℕ) (bp : Bool) (kp : K)
      (c : Tree K) (s : ℕ) (bs : Bool) (ks : K) (f : Tree K)
      → Represents m (plug ctx (branch d t p bp kp (branch d c s bs ks f)))
      → Returns (λ m'. Represents m' (plug ctx (four d t p kp c s ks f))) (case_4 m p s)
  unfolding case_4
  case_4_lem m ctx d t p bp kp c s bs ks f r =
      Returns-bind (set_red_far m ctx t p bp kp d c s bs ks f d r)
        λ m₁ r₁. set_black-Represents m₁ ctx d t p bp kp (branch d c s false ks f) r₁

  -- a node takes the colour of its child
  copy_color :
      (m : Memory K) (ctx : Context K) (d : Dir) (t : Tree K) (p : ℕ) (bp : Bool) (kp : K)
      (c : Tree K) (s : ℕ) (bs : Bool) (ks : K) (f : Tree K)
      → Represents m (plug ctx (branch d (branch d t p bp kp c) s bs ks f))
      → Returns
          (λ m'. Represents m' (plug ctx (branch d (branch d t p bp kp c) s bp ks f)))
          (node_set_color_to_color_of_other m s p)
  unfolding node_set_color_to_color_of_other
  copy_color m ctx d t p bp kp c s bs ks f r =
      let below = branch d t p bp kp c in
      let up = frame d s bs ks f ctx in
      let p-Cell = Cell-of m up d t p bp kp c r in
      let s-Cell = Cell-of m ctx d below s bs ks f r in
      let p_parent = parent_of_cell m up d t p bp kp c r in
      let s_parent = parent_of_cell m ctx d below s bs ks f r in
      rw
        (
          at_ne_null p-Cell,
          at_ne_null s-Cell,
          color_bit p-Cell p_parent,
          without_bit s-Cell s_parent,
        )
        (returns (
          set_word-Represents m ctx d below s bs ks f (add_size (parent_of ctx) (bit bp)) bp r
            (add_size-small (parent_of ctx) bp s_parent)))

  pub case_6_lem :
      (m : Memory K) (ctx : Context K) (d : Dir) (t : Tree K) (p : ℕ) (bp : Bool) (kp : K)
      (c : Tree K) (s : ℕ) (bs : Bool) (ks : K) (fl : Tree K) (x : ℕ) (bx : Bool) (kx : K)
      (fr : Tree K)
      → Represents m (plug ctx (branch d t p bp kp (branch d c s bs ks (node fl x bx kx fr))))
      → Returns
          (λ m'. Represents m' (plug ctx (six d t p bp kp c s ks (node fl x bx kx fr))))
          (case_6 m p s x d)
  unfolding case_6
  case_6_lem m ctx d t p bp kp c s bs ks fl x bx kx fr r =
      let f = node fl x bx kx fr in
      Returns-bind (rotate_dir_lem m ctx d t p bp kp c s bs ks f r) λ (_, m₁) (_, r₁).
        Returns-bind (copy_color m₁ ctx d t p bp kp c s bs ks f r₁) λ m₂ r₂.
          Returns-bind (set_black-Represents m₂ (frame d s bp ks f ctx) d t p bp kp c r₂)
            λ m₃ r₃. set_black_far m₃ ctx (branch d t p true kp c) s bp ks left fl x bx kx fr d r₃

  -- the rotation around the sibling, and the colours that it and its child get
  module _ (m : Memory K) (ctx : Context K) (t : Tree K) (p : ℕ) (bp : Bool) (kp : K) (c : Tree K)
      (n : ℕ) (bn : Bool) (kn : K) (f : Tree K) (s : ℕ) (bs : Bool) (ks : K) (f' : Tree K) where
    turn_far :
        (d : Dir)
        → Represents m (plug ctx (branch d t p bp kp (branch d (branch d c n bn kn f) s bs ks f')))
        → Returns
            (λ (root_ptr, m').
              (root_ptr ≡ n)
              × Represents m'
                  (plug ctx (branch d t p bp kp (branch d c n bn kn (branch d f s bs ks f')))))
            (rotate_dir m s (other d))
    turn_far left r = rotate_back m (frame right p bp kp t ctx) left c n bn kn f s bs ks f' r
    turn_far right r = rotate_back m (frame left p bp kp t ctx) right c n bn kn f s bs ks f' r

    red_far_far :
        (d : Dir)
        → Represents m (plug ctx (branch d t p bp kp (branch d c n bn kn (branch d f s bs ks f'))))
        → Returns
            (λ m'.
              Represents m'
                (plug ctx (branch d t p bp kp (branch d c n bn kn (branch d f s false ks f')))))
            (node_set_color_to_red m s)
    red_far_far left r =
        set_red_far m (frame right p bp kp t ctx) c n bn kn left f s bs ks f' left r
    red_far_far right r =
        set_red_far m (frame left p bp kp t ctx) c n bn kn right f s bs ks f' right r

  pub case_5_lem :
      (m : Memory K) (ctx : Context K) (d : Dir) (t : Tree K) (p : ℕ) (bp : Bool) (kp : K)
      (c : Tree K) (n : ℕ) (bn : Bool) (kn : K) (f : Tree K) (s : ℕ) (bs : Bool) (ks : K)
      (f' : Tree K)
      → Represents m (plug ctx (branch d t p bp kp (branch d (branch d c n bn kn f) s bs ks f')))
      → Returns
          (λ m'. Represents m' (plug ctx (five d t p bp kp c n kn f s ks f')))
          (case_5 m p s n d)
  unfolding case_5
  case_5_lem m ctx d t p bp kp c n bn kn f s bs ks f' r =
      Returns-bind (turn_far m ctx t p bp kp c n bn kn f s bs ks f' d r) λ (_, m₁) (_, r₁).
        Returns-bind (red_far_far m₁ ctx t p bp kp c n bn kn f s bs ks f' d r₁) λ m₂ r₂.
          Returns-bind (set_black_far m₂ ctx t p bp kp d c n bn kn (branch d f s false ks f') d r₂)
            λ m₃ r₃. up_to_six d m₃ r₃
    where
      up_to_six :
          (d : Dir) (m₃ : Memory K)
          → Represents m₃
              (plug ctx (branch d t p bp kp (branch d c n true kn (branch d f s false ks f'))))
          → Returns
              (λ m'. Represents m' (plug ctx (five d t p bp kp c n kn f s ks f')))
              (case_6 m₃ p n s d)
      up_to_six left m₃ r₃ = case_6_lem m₃ ctx left t p bp kp c n true kn f s false ks f' r₃
      up_to_six right m₃ r₃ = case_6_lem m₃ ctx right t p bp kp c n true kn f' s false ks f r₃
