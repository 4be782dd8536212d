-- ===== src/Rbtree/Color.antt =====
-- Reading a node of the tree, and changing its colour.
use dsa_c.Prelude.{ℕ, ◌+◌, ◌-◌, ◌%◌, ◌≡◌, ◌≢◌, refl, Bool, true, false, not, arith, ◌==◌}
use dsa_c.Run.{ok, Returns, returns}
use dsa_c.Rbtree.{
  Dir, Memory, bit, set_word, node_set_color_to_red, node_set_color_to_black, node_get_parent_ptr,
  node_is_black, node_is_red,
}
use dsa_c.Rbtree.Shape.{Tree, root_of, branch, IsPointer, Cell, Same, Holds-Same}
use dsa_c.Rbtree.Context.{
  Context, plug, parent_of, Represents, Split-Branch, Branch-Holds, split, join, Surrounds-Same,
  parent_of-IsPointer, has-branch, root_of-branch,
}

module _ {K : Type 0} where
  module _ {m : Memory K} {d : Dir} {a parent : ℕ} {b : Bool} {k : K} {near far : ℕ}
      (c : Cell m d a parent b k near far) where
    pub at_ne_null : (a == 0) ≡ false
    at_ne_null = ground (arith, c.address.not_null)

    module _ (p : IsPointer parent) where
      pub color_bit : m.parent_ptr_with_color_bit a % 2 ≡ bit b
      color_bit = rw c.word (parity b)
        where
          parity : (b : Bool) → (parent + bit b) % 2 ≡ bit b
          parity true = omega (arith, p.even)
          parity false = omega (arith, p.even)

      pub node_is_black-at : node_is_black m a ≡ ok b
      unfolding node_is_black
      node_is_black-at = rw (at_ne_null, color_bit) (ground arith)

      pub node_is_red-at : node_is_red m a ≡ ok (not b)
      unfolding node_is_red
      node_is_red-at = rw (at_ne_null, node_is_black-at) refl

      pub without_bit : m.parent_ptr_with_color_bit a - m.parent_ptr_with_color_bit a % 2 ≡ parent
      without_bit = omega (arith, color_bit, c.word)

      pub node_get_parent_ptr-at : node_get_parent_ptr m a ≡ ok parent
      unfolding node_get_parent_ptr
      node_get_parent_ptr-at = rw (at_ne_null, without_bit) refl

      pub node_set_color_to_red-at : node_set_color_to_red m a ≡ ok (set_word m a parent)
      unfolding node_set_color_to_red
      node_set_color_to_red-at = rw (at_ne_null, without_bit) refl

      pub node_set_color_to_black-at : node_set_color_to_black m a ≡ ok (set_word m a (parent + 1))
      unfolding node_set_color_to_black
      node_set_color_to_black-at = rw (at_ne_null, without_bit) refl

  pub set_word-Same : (m : Memory K) (a w x : ℕ) → x ≢ a → Same m (set_word m a w) x
  unfolding set_word
  set_word-Same m a w x n = record { word = ground arith; children = λ d. refl; keyed = refl }

  pub set_word-root : (m : Memory K) (a w : ℕ) → (set_word m a w).root_ptr ≡ m.root_ptr
  unfolding set_word
  set_word-root m a w = refl

  pub set_word-Cell :
      (m : Memory K) {d : Dir} (a : ℕ) {parent parent' : ℕ} {b b' : Bool} {k : K} {near far : ℕ}
      (w : ℕ)
      → Cell m d a parent b k near far
      → w ≡ parent' + bit b'
      → Cell (set_word m a w) d a parent' b' k near far
  unfolding set_word
  set_word-Cell m a w c e = record {
    address = c.address;
    word = ground arith;
    to_near = c.to_near;
    to_far = c.to_far;
    keyed = c.keyed;
  }

  -- writing the parent with another colour bit changes the colour of the node
  pub set_word-Represents :
      (m : Memory K) (c : Context K) (d : Dir) (near : Tree K) (a : ℕ) (b : Bool) (k : K)
      (far : Tree K) (w : ℕ) (b' : Bool)
      → Represents m (plug c (branch d near a b k far))
      → w ≡ parent_of c + bit b'
      → Represents (set_word m a w) (plug c (branch d near a b' k far))
  set_word-Represents m c d near a b k far w b' r e =
      let s = split c (branch d near a b k far) r in
      let (here, out) = Split-Branch d s in
      let cell = here.cell in
      let m' = set_word m a w in
      let spared = set_word-Same m a w in
      join c (branch d near a b' k far) (record {
        above = rw (root_of-branch d near a b' k far) (
            rw (root_of-branch d near a b k far) at (
              Surrounds-Same {m' = m'} s.above (set_word-root m a w)
                (λ x i. spared x (ground arith))));
        below = Branch-Holds d (record {
          cell = set_word-Cell m a w cell e;
          near_holds =
              Holds-Same {m' = m'} here.near_holds
                (λ x i. spared x (ground (arith, here.not_near)));
          far_holds =
              Holds-Same {m' = m'} here.far_holds (λ x i. spared x (ground (arith, here.not_far)));
          not_near = here.not_near;
          not_far = here.not_far;
          apart = here.apart;
        });
        outside = λ x i. s.outside x (rw has-branch (rw has-branch at i));
      })

  -- a node of the tree, at the end of a way through it
  module _ (m : Memory K) (c : Context K) (d : Dir) (near : Tree K) (a : ℕ) (b : Bool) (k : K)
      (far : Tree K) (r : Represents m (plug c (branch d near a b k far))) where
    pub Cell-of : Cell m d a (parent_of c) b k (root_of near) (root_of far)
    Cell-of = let (here, out) = Split-Branch d (split c (branch d near a b k far) r) in here.cell

    pub parent_of_cell : IsPointer (parent_of c)
    parent_of_cell = let s = split c (branch d near a b k far) r in parent_of-IsPointer s.above

    pub set_black-Represents :
        Returns
          (λ m'. Represents m' (plug c (branch d near a true k far)))
          (node_set_color_to_black m a)
    set_black-Represents =
        rw (node_set_color_to_black-at Cell-of parent_of_cell)
          (returns (set_word-Represents m c d near a b k far (parent_of c + 1) true r refl))

    pub set_red-Represents :
        Returns
          (λ m'. Represents m' (plug c (branch d near a false k far)))
          (node_set_color_to_red m a)
    set_red-Represents =
        rw (node_set_color_to_red-at Cell-of parent_of_cell)
          (returns (set_word-Represents m c d near a b k far (parent_of c) false r (omega arith)))
