-- ===== src/Rbtree/Place.antt =====
-- The successor takes the place of the node that is deleted.
use dsa_c.Prelude.{ℕ, ◌≡◌, ◌≢◌, ◌∙◌, Bool, false, arith, ◌==◌}
use dsa_c.Word.{add_size}
use dsa_c.Run.{◌>>=◌, Returns, returns}
use dsa_c.Rbtree.{left, Memory, bit, set_word, set_child, node_set_color_to_color_of_other}
use dsa_c.Rbtree.Delete.{take_place}
use dsa_c.Rbtree.Shape.{
  Tree, node, root_of, ◌∈◌, ◌∉◌, Disjoint, IsPointer, Cell, Holds, full, Same, Cell-Same,
  Holds-Same, ne-root_of, add_size-small,
}
use dsa_c.Rbtree.Context.{
  Context, plug, parent_of, around, Outside, Surrounds, Represents, join, Surrounds-Same,
  parent_of-IsPointer,
}
use dsa_c.Rbtree.Color.{
  at_ne_null, color_bit, without_bit, node_get_parent_ptr-at, set_word-Same, set_word-Cell,
  set_word-root,
}
use dsa_c.Rbtree.Rebalance.{has-root_of}
use dsa_c.Rbtree.Write.{
  Same-trans, set_child-Same, set_child-Cell, set_child-root, set_parent, node_set_parent_ptr-ok,
  set_parent-Same, set_parent-Cell, set_parent-root, set_parent-Holds, reparent,
}
use dsa_c.Rbtree.Detach.{
  set_above, set_above-Surrounds, set_above-Same, node_transplant-ok, ne_of_around,
}

module _ {K : Type 0} where
  -- The node at `a` below the context `c` has the left subtree `l`. The successor at `s` has the right
  -- subtree `r` that the deletion leaves; no pointer leads to it yet, or only one from `a`.
  pub record Ready (m : Memory K) (c : Context K) (l : Tree K) (a : ℕ) (b : Bool) (k : K) (s : ℕ)
      (bs : Bool) (ks : K) (r : Tree K) : Type 0 where
    pub above : Surrounds m a c
    pub to_right : ℕ
    pub a_cell : Cell m left a (parent_of c) b k (root_of l) to_right
    pub s_parent : ℕ
    pub s_up : IsPointer s_parent
    pub s_cell : Cell m left s s_parent bs ks 0 (root_of r)
    pub l_holds : Holds m a l
    pub r_holds : Holds m s r
    pub a_s : a ≢ s
    pub a_l : a ∉ l
    pub s_l : s ∉ l
    pub s_r : s ∉ r
    pub l_r : Disjoint l r
    pub a_out : around a c ≡ false
    pub s_out : around s c ≡ false
    pub l_out : Outside c l
    pub r_out : Outside c r

  module _ (m : Memory K) (c : Context K) (l : Tree K) (a : ℕ) (b : Bool) (k : K) (s : ℕ)
      (bs : Bool) (ks : K) (r : Tree K) (h : Ready m c l a b k s bs ks r)
      (given_l : root_of l ≢ 0) where
    q_up : IsPointer (parent_of c)
    q_up = parent_of-IsPointer h.above

    a_up : IsPointer a
    a_up = let c = h.a_cell in record { even = c.address.even; fits = c.address.fits }

    s-up : IsPointer s
    s-up = let c = h.s_cell in record { even = c.address.even; fits = c.address.fits }

    abbrev m₁ : Memory K
    m₁ = set_above m c s

    abbrev m₂ : Memory K
    m₂ = set_parent m₁ s (parent_of c)

    abbrev m₃ : Memory K
    m₃ = set_child m₂ s left (root_of l)

    abbrev m₄ : Memory K
    m₄ = set_parent m₃ (root_of l) s

    abbrev m₅ : Memory K
    m₅ = set_word m₄ s (add_size (parent_of c) (bit b))

    l_root : root_of l ∈ l
    l_root = has-root_of l given_l

    to_m₃ : (x : ℕ) → around x c ≡ false → x ≢ s → Same m m₃ x
    to_m₃ x out n = Same-trans (set_above-Same m c s x out) (
        Same-trans (set_parent-Same m₁ s (parent_of c) x n)
          (set_child-Same m₂ s left (root_of l) x n))

    to_m₅ : (x : ℕ) → x ≢ s → x ≢ root_of l → Same m₃ m₅ x
    to_m₅ x n n' =
        Same-trans (set_parent-Same m₃ (root_of l) s x n')
          (set_word-Same m₄ s (add_size (parent_of c) (bit b)) x n)

    m₅-Surrounds : Surrounds m₅ s c
    m₅-Surrounds =
        let w = add_size (parent_of c) (bit b) in
        let same : m₅.root_ptr ≡ m₁.root_ptr =
          set_word-root m₄ s w
          ∙ set_parent-root m₃ (root_of l) s
          ∙ set_child-root m₂ s left (root_of l)
          ∙ set_parent-root m₁ s (parent_of c) in
        Surrounds-Same {m' = m₅} (set_above-Surrounds m c s h.above) same (λ x i.
          let n = ne_of_around c x s i h.s_out in
          let n' = ne_of_around c x (root_of l) i (h.l_out (root_of l) l_root) in
          Same-trans (set_parent-Same m₁ s (parent_of c) x n)
            (Same-trans (set_child-Same m₂ s left (root_of l) x n) (to_m₅ x n n')))

    s-Cell₄ : Cell m₄ left s (parent_of c) bs ks (root_of l) (root_of r)
    s-Cell₄ =
        let n : s ≢ root_of l =
          ne-root_of s l (let cell = h.s_cell in cell.address.not_null) h.s_l in
        let c₁ = Cell-Same h.s_cell (set_above-Same m c s s h.s_out) in
        let c₂ = set_parent-Cell m₁ left s (parent_of c) c₁ h.s_up q_up in
        let c₃ = set_child-Cell m₂ left s (root_of l) c₂ in
        Cell-Same c₃ (set_parent-Same m₃ (root_of l) s s n)

    s-Cell : Cell m₅ left s (parent_of c) b ks (root_of l) (root_of r)
    s-Cell =
        set_word-Cell m₄ s (add_size (parent_of c) (bit b)) s-Cell₄
          (add_size-small (parent_of c) b q_up)

    a-Cell₂ : Cell m₂ left a (parent_of c) b k (root_of l) h.to_right
    a-Cell₂ =
        Cell-Same h.a_cell
          (Same-trans (set_above-Same m c s a h.a_out) (set_parent-Same m₁ s (parent_of c) a h.a_s))

    a-Cell₄ : Cell m₄ left a (parent_of c) b k (root_of l) h.to_right
    a-Cell₄ =
        let n : a ≢ root_of l = ground (arith, l_root, h.a_l) in
        Cell-Same a-Cell₂ (
          Same-trans (set_child-Same m₂ s left (root_of l) a h.a_s)
            (set_parent-Same m₃ (root_of l) s a n))

    l-Holds : Holds m₅ s l
    l-Holds =
        let w = add_size (parent_of c) (bit b) in
        let h₃ =
          Holds-Same {m' = m₃} h.l_holds (λ x i. to_m₃ x (h.l_out x i) (ground (arith, h.s_l))) in
        Holds-Same {m' = m₅} (set_parent-Holds m₃ l s given_l h₃ a_up s-up)
          (λ x i. set_word-Same m₄ s w x (ground (arith, h.s_l)))

    r-Holds : Holds m₅ s r
    r-Holds = Holds-Same {m' = m₅} h.r_holds (λ x i.
        let n : x ≢ s = ground (arith, h.s_r) in
        let n' : x ≢ root_of l = ground (arith, l_root, h.l_r (root_of l) l_root) in
        Same-trans (to_m₃ x (h.r_out x i) n) (to_m₅ x n n'))

    m₅-Represents : Represents m₅ (plug c (node l s b ks r))
    m₅-Represents = join c (node l s b ks r) (record {
      above = m₅-Surrounds;
      below = full s-Cell l-Holds r-Holds h.s_l h.s_r h.l_r;
      outside = λ x i. ground (arith, h.s_out, h.l_out x, h.r_out x);
    })

    -- The successor takes the place and the colour of the node, and its left subtree.
    pub take_place_lem : Returns (λ m'. Represents m' (plug c (node l s b ks r))) (take_place m a s)
    unfolding take_place reparent node_set_color_to_color_of_other
    take_place_lem =
        let a_cell = a-Cell₂ in
        let given : (root_of l == 0) ≡ false = ground arith in
        rw
          (
            node_transplant-ok m c a s h.above (let cell = h.a_cell in cell.address.not_null)
                h.a_out (node_get_parent_ptr-at h.a_cell q_up),
            at_ne_null h.s_cell,
            ◌>>=◌,
            a_cell.to_near,
            node_set_parent_ptr-ok m₃ (root_of l) s given,
            ◌>>=◌,
            at_ne_null a-Cell₄,
            color_bit a-Cell₄ q_up,
            without_bit s-Cell₄ q_up,
          )
          (returns m₅-Represents)
