-- ===== src/Rbtree/Delete.antt =====
-- dsa/rbtree.h: deletion and the rebalancing after it. The loops take fuel, one round for each level
-- of the tree.
use dsa_c.Prelude.{ℕ, zero, suc, Bool, true, false, not, ◌&&◌, ◌||◌, ◌==◌, if◌then◌else◌}
use dsa_c.Run.{Run, ok, fault, out_of_fuel, assert, ◌>>=◌, ◌>>◌}
use dsa_c.Rbtree.{
  Dir, left, right, other, Memory, deref, set_child, node_set_color_to_red, node_set_color_to_black,
  node_set_color_to_color_of_other, node_set_parent_ptr, node_get_parent_ptr, node_is_black,
  node_is_red, child_dir, rotate_dir, node_transplant,
}

module _ {K : Type 0} where
  -- `ptr != NULL && node_is_red(ptr)`
  unfoldable pub is_red_node : Memory K → ℕ → Run Bool
  is_red_node m ptr = if ptr == 0 then ok false else node_is_red m ptr

  -- `Case_4`
  unfoldable pub case_4 : Memory K → (p s : ℕ) → Run (Memory K)
  case_4 m p s = do m₁ ← node_set_color_to_red m s; node_set_color_to_black m₁ p

  -- `Case_6`
  unfoldable pub case_6 : Memory K → (p s d : ℕ) → Dir → Run (Memory K)
  case_6 m p s d dir = do
    (_, m₁) ← rotate_dir m p dir
    m₂ ← node_set_color_to_color_of_other m₁ s p
    m₃ ← node_set_color_to_black m₂ p
    node_set_color_to_black m₃ d

  -- `Case_5`, which goes on as `Case_6`
  unfoldable pub case_5 : Memory K → (p s c : ℕ) → Dir → Run (Memory K)
  case_5 m p s c dir = do
    (_, m₁) ← rotate_dir m s (other dir)
    m₂ ← node_set_color_to_red m₁ s
    m₃ ← node_set_color_to_black m₂ c
    case_6 m₃ p c s dir

  -- the tests at the end of `Case_3`, with the new sibling and its children
  unfoldable pub after_case_3 : Memory K → (p s d c : ℕ) → Dir → Run (Memory K)
  after_case_3 m p s d c dir = do
    d_is_red ← is_red_node m d
    c_is_red ← is_red_node m c
    elim d_is_red [
      | true ↦ case_6 m p s d dir
      | false ↦ elim c_is_red [ true ↦ case_5 m p s c dir | false ↦ case_4 m p s ]
    ]

  -- `Case_3`, which goes on as one of the others
  unfoldable pub case_3 : Memory K → (p s c : ℕ) → Dir → Run (Memory K)
  case_3 m p s c dir = do
    (_, m₁) ← rotate_dir m p dir
    m₂ ← node_set_color_to_red m₁ p
    m₃ ← node_set_color_to_black m₂ s
    deref c
    after_case_3 m₃ p c (m₃.child_ptrs c (other dir)) (m₃.child_ptrs c dir) dir

  -- a round of `delete_fixup` once it has the sibling and its children; `next` is the next round
  unfoldable pub choose_case :
      (Memory K → ℕ → Dir → Run (Memory K)) → Memory K → (p s d c : ℕ) → Dir → Run (Memory K)
  choose_case next m p s d c dir = do
    s_is_red ← node_is_red m s
    d_is_red ← is_red_node m d
    c_is_red ← is_red_node m c
    p_is_red ← node_is_red m p
    elim s_is_red [
      | true ↦ case_3 m p s c dir
      | false ↦ elim d_is_red [
        | true ↦ case_6 m p s d dir
        | false ↦ elim c_is_red [
          | true ↦ case_5 m p s c dir
          | false ↦ elim p_is_red [
            | true ↦ case_4 m p s
            | false ↦ do
              m' ← node_set_color_to_red m s
              p' ← node_get_parent_ptr m' p
              elim (p' == 0) [ true ↦ ok m' | false ↦ do dir' ← child_dir m' p; next m' p' dir' ]
          ]
        ]
      ]
    ]

  -- the `do` loop of `delete_fixup`
  unfoldable pub delete_fixup : ℕ → Memory K → (p : ℕ) → Dir → Run (Memory K)
  delete_fixup zero m p dir = fault out_of_fuel
  delete_fixup (suc fuel) m p dir = do
    deref p
    let s = m.child_ptrs p (other dir)
    deref s
    choose_case (delete_fixup fuel) m p s (m.child_ptrs s (other dir)) (m.child_ptrs s dir) dir

  -- the node has no child
  unfoldable pub delete_leaf : ℕ → Memory K → ℕ → Run (Memory K)
  delete_leaf fuel m node_ptr = do
    red ← node_is_red m node_ptr
    elim ((node_ptr == m.root_ptr) || red) [
      | true ↦ node_transplant m node_ptr 0
      | false ↦ do
        parent_ptr ← node_get_parent_ptr m node_ptr
        dir ← child_dir m node_ptr
        m₁ ← node_transplant m node_ptr 0
        delete_fixup fuel m₁ parent_ptr dir
    ]

  -- the node has one child
  unfoldable pub delete_single : Memory K → ℕ → Run (Memory K)
  delete_single m node_ptr = do
    let dir = if m.child_ptrs node_ptr left == 0 then right else left
    black ← node_is_black m node_ptr
    assert black
    red ← node_is_red m (m.child_ptrs node_ptr dir)
    assert red
    m₁ ← node_set_color_to_black m (m.child_ptrs node_ptr dir)
    node_transplant m₁ node_ptr (m₁.child_ptrs node_ptr dir)

  -- `while (successor_ptr->left_ptr != NULL)`
  unfoldable pub leftmost : ℕ → Memory K → ℕ → Run ℕ
  leftmost zero m successor_ptr = fault out_of_fuel
  leftmost (suc fuel) m successor_ptr =
      let next = m.child_ptrs successor_ptr left in
      let rest = leftmost fuel m next in if next == 0 then ok successor_ptr else rest

  -- the successor, which has the node's right subtree by now, takes its place
  unfoldable pub take_place : Memory K → (node_ptr successor_ptr : ℕ) → Run (Memory K)
  take_place m₁ node_ptr successor_ptr = do
    m₂ ← node_transplant m₁ node_ptr successor_ptr
    let left_ptr = m₂.child_ptrs node_ptr left
    m₃ ← node_set_parent_ptr (set_child m₂ successor_ptr left left_ptr) left_ptr successor_ptr
    node_set_color_to_color_of_other m₃ successor_ptr node_ptr

  -- the successor first leaves its own place, unless it is the node's child
  unfoldable pub replace_with_successor : Memory K → (node_ptr successor_ptr : ℕ) → Run (Memory K)
  replace_with_successor m node_ptr successor_ptr = do
    parent_ptr ← node_get_parent_ptr m successor_ptr
    m₁ ← elim (parent_ptr == node_ptr) [
      | true ↦ ok m
      | false ↦ do
        moved ← node_transplant m successor_ptr (m.child_ptrs successor_ptr right)
        let right_ptr = moved.child_ptrs node_ptr right
        node_set_parent_ptr (set_child moved successor_ptr right right_ptr) right_ptr successor_ptr
    ]
    take_place m₁ node_ptr successor_ptr

  -- what is left to do where the successor stood, below `p`
  unfoldable pub mend :
      ℕ
      → Memory K
      → (prev_successor_child_ptr : ℕ) → (prev_successor_black : Bool) → (p : ℕ) → Dir
      → Run (Memory K)
  mend fuel m prev_successor_child_ptr prev_successor_black p dir =
      elim (prev_successor_child_ptr == 0) [
        | false ↦ do
          assert prev_successor_black
          red ← node_is_red m prev_successor_child_ptr
          assert red
          node_set_color_to_black m prev_successor_child_ptr
        | true ↦ elim prev_successor_black [ true ↦ delete_fixup fuel m p dir | false ↦ ok m ]
      ]

  -- the node has two children
  unfoldable pub delete_inner : ℕ → Memory K → ℕ → Run (Memory K)
  delete_inner fuel m node_ptr = do
    successor_ptr ← leftmost fuel m (m.child_ptrs node_ptr right)
    prev_successor_black ← node_is_black m successor_ptr
    prev_successor_dir ← child_dir m successor_ptr
    prev_successor_parent_ptr ← node_get_parent_ptr m successor_ptr
    let prev_successor_child_ptr = m.child_ptrs successor_ptr right
    m₁ ← replace_with_successor m node_ptr successor_ptr
    let actual_successor_ptr =
        if prev_successor_parent_ptr == node_ptr then successor_ptr else prev_successor_parent_ptr
    mend fuel m₁ prev_successor_child_ptr prev_successor_black actual_successor_ptr
        prev_successor_dir

  -- the three cases of `delete_node`, by the children that are NULL
  unfoldable pub unlink : ℕ → Memory K → (node_ptr : ℕ) → (no_left no_right : Bool) → Run (Memory K)
  unlink fuel m node_ptr no_left no_right = elim (no_left && no_right) [
    | true ↦ delete_leaf fuel m node_ptr
    | false ↦ elim (no_left || no_right) [
      | true ↦ delete_single m node_ptr
      | false ↦ delete_inner fuel m node_ptr
    ]
  ]

  unfoldable pub delete_node : ℕ → Memory K → ℕ → Run (ℕ × Memory K)
  delete_node fuel m node_ptr = do
    assert (not (node_ptr == 0))
    m₁ ← unlink fuel m node_ptr (m.child_ptrs node_ptr left == 0) (m.child_ptrs node_ptr right == 0)
    let cleared = set_child (set_child m₁ node_ptr right 0) node_ptr left 0
    m₂ ← node_set_parent_ptr cleared node_ptr 0
    ok (node_ptr, m₂)
