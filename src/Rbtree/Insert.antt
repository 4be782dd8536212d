-- ===== src/Rbtree/Insert.antt =====
-- dsa/rbtree.h: insertion and the rebalancing after it. The loops take fuel, one round for each level
-- of the tree.
use dsa_c.Prelude.{ℕ, zero, suc, Bool, true, false, not, ◌==◌, if◌then◌else◌}
use dsa_c.Run.{Run, ok, fault, out_of_fuel, assert, ◌>>=◌, ◌>>◌}
use dsa_c.Rbtree.{
  Dir, left, right, other, Memory, deref, set_root, set_child, node_set_color_to_red,
  node_set_color_to_black, node_set_parent_ptr, node_get_parent_ptr, node_is_black, node_is_red,
  child_dir, rotate_dir, contains_key,
}

module _ {K : Type 0} where
  -- `ptr == NULL || node_is_black(ptr)`
  unfoldable pub is_null_or_black : Memory K → ℕ → Run Bool
  is_null_or_black m ptr = if ptr == 0 then ok true else node_is_black m ptr

  -- the branch of `insert_fixup` where the uncle is black or there is none
  unfoldable pub insert_rotate : Memory K → (n p g : ℕ) → Dir → Run (Memory K)
  insert_rotate m n p g dir = do
    deref p
    (p', m₁) ←
        if n == m.child_ptrs p (other dir)
        then (rotate_dir m p dir >>= λ (_, rotated). ok (rotated.child_ptrs g dir, rotated))
        else ok (p, m)
    m₂ ← node_set_color_to_black m₁ p'
    m₃ ← node_set_color_to_red m₂ g
    (_, m₄) ← rotate_dir m₃ g (other dir)
    ok m₄

  -- the branch where the uncle is red, up to the next round
  unfoldable pub insert_recolor : Memory K → (p u g : ℕ) → Run (Memory K)
  insert_recolor m p u g = do
    m₁ ← node_set_color_to_black m p
    m₂ ← node_set_color_to_black m₁ u
    node_set_color_to_red m₂ g

  -- a round once it has the uncle `u`; `next` is the next round
  unfoldable pub from_uncle :
      (Memory K → ℕ → ℕ → Run (Memory K)) → Memory K → (n p g u : ℕ) → Dir → Run (Memory K)
  from_uncle next m n p g u dir = do
    rotates ← is_null_or_black m u
    elim rotates [
      | true ↦ insert_rotate m n p g dir
      | false ↦ do
        m' ← insert_recolor m p u g
        p' ← node_get_parent_ptr m' g
        elim (p' == 0) [ true ↦ ok m' | false ↦ next m' g p' ]
    ]

  -- the `do` loop of `insert_fixup`
  unfoldable pub insert_fixup_loop : ℕ → Memory K → (n p : ℕ) → Run (Memory K)
  insert_fixup_loop zero m n p = fault out_of_fuel
  insert_fixup_loop (suc fuel) m n p = do
    black ← node_is_black m p
    g ← node_get_parent_ptr m p
    elim black [
      | true ↦ ok m
      | false ↦ elim (g == 0) [
        | true ↦ node_set_color_to_black m p
        | false ↦ do
          dir ← child_dir m p
          from_uncle (insert_fixup_loop fuel) m n p g (m.child_ptrs g (other dir)) dir
      ]
    ]

  unfoldable pub insert_fixup : ℕ → Memory K → ℕ → Run (Memory K)
  insert_fixup fuel m n = do
    red ← node_is_red m n
    assert red
    assert (not (n == m.root_ptr))
    p ← node_get_parent_ptr m n
    insert_fixup_loop fuel m n p

  -- the loop of `insert_node`: the last node before NULL
  unfoldable pub descend : (K → K → Bool) → ℕ → Memory K → K → (parent_ptr current_ptr : ℕ) → Run ℕ
  descend is_strictly_less zero m k parent_ptr current_ptr = fault out_of_fuel
  descend is_strictly_less (suc fuel) m k parent_ptr current_ptr =
      let next = if is_strictly_less (m.key current_ptr) k then right else left in
      let rest = descend is_strictly_less fuel m k current_ptr (m.child_ptrs current_ptr next) in
      if current_ptr == 0 then ok parent_ptr else rest

  -- what `insert_node` does with a node once it has found its parent
  unfoldable pub link : (K → K → Bool) → ℕ → Memory K → (node_ptr parent_ptr : ℕ) → Run (Memory K)
  link is_strictly_less fuel m node_ptr parent_ptr = do
    let cleared = set_child (set_child m node_ptr right 0) node_ptr left 0
    m₁ ← node_set_parent_ptr cleared node_ptr parent_ptr
    m₂ ← node_set_color_to_red m₁ node_ptr
    let dir = if is_strictly_less (m₂.key parent_ptr) (m₂.key node_ptr) then right else left
    elim (parent_ptr == 0) [
      | true ↦ ok (set_root m₂ node_ptr)
      | false ↦ insert_fixup fuel (set_child m₂ parent_ptr dir node_ptr) node_ptr
    ]

  -- `allow_duplicates` tells whether `ALLOW_DUPLICATES` is defined
  unfoldable pub insert_node : (K → K → Bool) → Bool → ℕ → Memory K → ℕ → Run (Memory K)
  insert_node is_strictly_less allow_duplicates fuel m node_ptr = do
    assert (not (node_ptr == 0))
    known ←
        if allow_duplicates then ok false else contains_key is_strictly_less fuel m (m.key node_ptr)
    assert (not known)
    parent_ptr ← descend is_strictly_less fuel m (m.key node_ptr) 0 m.root_ptr
    link is_strictly_less fuel m node_ptr parent_ptr
