-- ===== src/Rbtree/Write.antt =====
-- Writes to the members of a node of the tree: which node each changes, and how.
use dsa_c.Prelude.{
  ℕ, ◌%◌, ◌≡◌, ◌≢◌, refl, Bool, false, arith, ◌==◌, inl, inr, Bool-cases, if◌then◌else◌,
}
use dsa_c.Word.{add_size}
use dsa_c.Run.{ok}
use dsa_c.Rbtree.{
  Dir, left, right, other, Memory, set_root, set_word, set_child, node_set_parent_ptr,
}
use dsa_c.Rbtree.Shape.{
  Tree, leaf, node, root_of, IsPointer, Cell, Holds, empty, full, Same, Cell-flip, Holds-Same,
  ne-root_of, add_size-bit,
}
use dsa_c.Rbtree.Context.{
  Context, top, frame, parent_of, around, Surrounds, root, child, Surrounds-inv, Surrounds-Same,
}
use dsa_c.Rbtree.Color.{set_word-Same, set_word-Cell}

module _ {K : Type 0} where
  pub Same-trans : {m m' m'' : Memory K} {x : ℕ} → Same m m' x → Same m' m'' x → Same m m'' x
  Same-trans s t = record {
    word = rw (t.word, s.word);
    children = λ d. rw (t.children d, s.children d);
    keyed = rw (t.keyed, s.keyed);
  }

  pub Same-refl : {m : Memory K} {x : ℕ} → Same m m x
  Same-refl = record { word = refl; children = λ d. refl; keyed = refl }

  pub set_child-Same :
      (m : Memory K) (a : ℕ) (d : Dir) (q x : ℕ) → x ≢ a → Same m (set_child m a d q) x
  unfolding set_child
  set_child-Same m a d q x n = record { word = refl; children = λ e. ground arith; keyed = refl }

  pub set_child-Cell :
      (m : Memory K) (d : Dir) (a : ℕ) {parent : ℕ} {b : Bool} {k : K} {near far : ℕ} (q : ℕ)
      → Cell m d a parent b k near far
      → Cell (set_child m a d q) d a parent b k q far
  unfolding set_child
  set_child-Cell m left a q c = record {
    address = c.address;
    word = c.word;
    to_near = ground arith;
    to_far = ground (arith, c.to_far);
    keyed = c.keyed;
  }
  set_child-Cell m right a q c = record {
    address = c.address;
    word = c.word;
    to_near = ground arith;
    to_far = ground (arith, c.to_far);
    keyed = c.keyed;
  }

  pub set_far-Cell :
      (m : Memory K) (d : Dir) (a : ℕ) {parent : ℕ} {b : Bool} {k : K} {near far : ℕ} (q : ℕ)
      → Cell m d a parent b k near far
      → Cell (set_child m a (other d) q) d a parent b k near q
  set_far-Cell m left a q c = Cell-flip right (set_child-Cell m right a q (Cell-flip left c))
  set_far-Cell m right a q c = Cell-flip left (set_child-Cell m left a q (Cell-flip right c))

  -- `node_set_parent_ptr`, where the node is not NULL
  unfoldable pub set_parent : Memory K → (a parent : ℕ) → Memory K
  set_parent m a parent = set_word m a (add_size parent (m.parent_ptr_with_color_bit a % 2))

  pub node_set_parent_ptr-ok :
      (m : Memory K) (a parent : ℕ)
      → (a == 0) ≡ false
      → node_set_parent_ptr m a parent ≡ ok (set_parent m a parent)
  unfolding node_set_parent_ptr set_parent
  node_set_parent_ptr-ok m a parent n = rw n refl

  pub set_parent-Same : (m : Memory K) (a parent x : ℕ) → x ≢ a → Same m (set_parent m a parent) x
  unfolding set_parent
  set_parent-Same m a parent x n =
      set_word-Same m a (add_size parent (m.parent_ptr_with_color_bit a % 2)) x n

  pub set_parent-Cell :
      (m : Memory K) (d : Dir) (a : ℕ) {parent : ℕ} {b : Bool} {k : K} {near far : ℕ} (q : ℕ)
      → Cell m d a parent b k near far
      → IsPointer parent
      → IsPointer q
      → Cell (set_parent m a q) d a q b k near far
  unfolding set_parent
  set_parent-Cell m d a {parent} {b} q c p p' =
      set_word-Cell m a (add_size q (m.parent_ptr_with_color_bit a % 2)) c
        (rw c.word (add_size-bit q parent b p' p))

  pub set_parent-root : (m : Memory K) (a p : ℕ) → (set_parent m a p).root_ptr ≡ m.root_ptr
  unfolding set_parent set_word
  set_parent-root m a p = refl

  -- `if (c != NULL) node_set_parent_ptr(c, p)`
  unfoldable pub reparent : Memory K → (c p : ℕ) → Memory K
  reparent m c p = if c == 0 then m else set_parent m c p

  pub reparent-ok :
      (m : Memory K) (c p : ℕ)
      → (if c == 0 then ok m else node_set_parent_ptr m c p) ≡ ok (reparent m c p)
  unfolding reparent
  reparent-ok m c p = elim (Bool-cases (c == 0)) [
    | inl null ↦ rw null refl
    | inr given ↦ rw given (node_set_parent_ptr-ok m c p given)
  ]

  pub reparent-Same : (m : Memory K) (c p x : ℕ) → (c ≢ 0 → x ≢ c) → Same m (reparent m c p) x
  unfolding reparent
  reparent-Same m c p x n = elim (Bool-cases (c == 0)) [
    | inl null ↦ rw null Same-refl
    | inr given ↦ rw given (set_parent-Same m c p x (n (ground arith)))
  ]

  pub reparent-root : (m : Memory K) (c p : ℕ) → (reparent m c p).root_ptr ≡ m.root_ptr
  unfolding reparent
  reparent-root m c p = elim (Bool-cases (c == 0)) [
    | inl null ↦ rw null refl
    | inr given ↦ rw given (set_parent-root m c p)
  ]

  -- a subtree that hangs below another node
  pub set_parent-Holds :
      (m : Memory K) {parent : ℕ} (t : Tree K) (q : ℕ)
      → root_of t ≢ 0
      → Holds m parent t
      → IsPointer parent
      → IsPointer q
      → Holds (set_parent m (root_of t) q) q t
  set_parent-Holds m leaf q n h p p' = absurd (n refl)
  set_parent-Holds m (node l a b k r) q n (full c hl hr nl nr dis) p p' =
      full (set_parent-Cell m left a q c p p')
        (Holds-Same hl (λ x i. set_parent-Same m a q x (ground arith)))
        (Holds-Same hr (λ x i. set_parent-Same m a q x (ground arith))) nl nr dis

  pub reparent-Holds :
      (m : Memory K) {parent : ℕ} (t : Tree K) (q : ℕ)
      → Holds m parent t
      → IsPointer parent
      → IsPointer q
      → Holds (reparent m (root_of t) q) q t
  unfolding reparent
  reparent-Holds m leaf q h p p' = empty
  reparent-Holds m (node l a b k r) q (full c hl hr nl nr dis) p p' =
      let given : (a == 0) ≡ false = ground (arith, c.address.not_null) in
      rw given
        (set_parent-Holds m (node l a b k r) q c.address.not_null (full c hl hr nl nr dis) p p')

  pub set_child-root :
      (m : Memory K) (a : ℕ) (d : Dir) (q : ℕ) → (set_child m a d q).root_ptr ≡ m.root_ptr
  unfolding set_child
  set_child-root m a d q = refl

  -- the pointer below a context is replaced
  pub set_child-Surrounds :
      (m : Memory K) {hole : ℕ} (d : Dir) (a : ℕ) {b : Bool} {k : K} {sib : Tree K} {c : Context K}
      (q : ℕ)
      → Surrounds m hole (frame d a b k sib c)
      → Surrounds (set_child m a d q) q (frame d a b k sib c)
  set_child-Surrounds m d a q s =
      let (cell, h, above, n, n', out) = Surrounds-inv s in
      child (set_child-Cell m d a q cell)
        (Holds-Same h (λ x i. set_child-Same m a d q x (ground arith)))
        (Surrounds-Same above (set_child-root m a d q)
          (λ x i. set_child-Same m a d q x (ground arith)))
        n n' out

  pub set_root-Same : (m : Memory K) (q x : ℕ) → Same m (set_root m q) x
  unfolding set_root
  set_root-Same m q x = record { word = refl; children = λ d. refl; keyed = refl }

  pub Surrounds-Cell :
      {m : Memory K} {hole : ℕ} {d : Dir} {a : ℕ} {b : Bool} {k : K} {sib : Tree K} {c : Context K}
      → Surrounds m hole (frame d a b k sib c)
      → Cell m d a (parent_of c) b k hole (root_of sib)
  Surrounds-Cell s = let (cell, _, _, _, _, _) = Surrounds-inv s in cell

  -- the pointer to the node `hole`, which is in the context's node or the root's, is replaced
  unfoldable pub link_up : Memory K → (g hole q : ℕ) → Memory K
  link_up m g hole q =
      if g == 0
      then set_root m q
      else set_child m g (if hole == m.child_ptrs g left then left else right) q

  -- the direction from a node's parent to it
  pub direction :
      {m : Memory K} (d : Dir) {a parent : ℕ} {b : Bool} {k : K} {hole far : ℕ}
      → Cell m d a parent b k hole far
      → hole ≢ far
      → (if hole == m.child_ptrs a left then left else right) ≡ d
  direction left c n = rw c.to_near (ground arith)
  direction right c n = rw c.to_far (ground arith)

  pub link_up-Surrounds :
      (m : Memory K) {hole : ℕ} (c : Context K) (q : ℕ)
      → Surrounds m hole c
      → hole ≢ 0
      → around hole c ≡ false
      → Surrounds (link_up m (parent_of c) hole q) q c
  unfolding link_up set_root
  link_up-Surrounds m top q s n out = root refl
  link_up-Surrounds m (frame d a b k sib c) q s n out =
      let cell = Surrounds-Cell s in
      let given : (a == 0) ≡ false = ground (arith, cell.address.not_null) in
      let n' = ne-root_of _ sib n (ground arith) in
      rw (given, direction d cell n') (set_child-Surrounds m d a q s)

  pub link_up-Same :
      (m : Memory K) (g hole q x : ℕ) → (g ≢ 0 → x ≢ g) → Same m (link_up m g hole q) x
  unfolding link_up
  link_up-Same m g hole q x n = elim (Bool-cases (g == 0)) [
    | inl null ↦ rw null (set_root-Same m q x)
    | inr given ↦ rw given (
        set_child-Same m g (if hole == m.child_ptrs g left then left else right) q x
          (n (ground arith)))
  ]
