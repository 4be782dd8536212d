-- ===== src/Rbtree.antt =====
-- dsa/rbtree.h: an intrusive red-black tree, the nodes and the calls that do not rebalance. A pointer
-- is an address and NULL is 0; each member of a node is an array over the addresses, and the pointer
-- to the root is a variable of its own. Reading or writing through NULL faults as an access out of
-- bounds. A word keeps the parent's address, which is even, and in its lowest bit whether the node is
-- black: `w & 1` is `w % 2`, and `w & ~1` is `w - w % 2`.
mod Insert
mod Delete
mod Shape
mod Context
mod Color
mod Write
mod Turn
mod Rotation
mod Fixup
mod Rebalance
mod Climb
mod Descent
mod Link
mod Balance
mod Order
mod Keys
mod Search
mod Height
mod Insertion
mod Sunk
mod Cases
mod Sink
mod Rounds
mod Fall
mod Restore
mod Kept
mod Sinking
mod Outer
mod Detach
mod Successor
mod Place
mod Handover
mod Inner
mod Remove
mod Deletion
mod Undo
mod Termination
mod Tests
use dsa_c.Prelude.{ℕ, zero, suc, ◌-◌, ◌%◌, ◌+◌, Bool, true, false, not, ◌&&◌, ◌==◌, if◌then◌else◌}
use dsa_c.Run.{Run, ok, fault, out_of_bounds, out_of_fuel, assert, ◌>>=◌, ◌>>◌}
use dsa_c.Word.{add_size}

-- `int dir`, 0 and 1
pub data Dir : Type 0 where
  left right : Dir

-- `1 - dir`
abbrev pub other : Dir → Dir
other left = right
other right = left

abbrev pub same_dir : Dir → Dir → Bool
same_dir left left = true
same_dir right right = true
same_dir left right = false
same_dir right left = false

pub record Memory (K : Type 0) : Type 0 where
  pub root_ptr : ℕ
  pub parent_ptr_with_color_bit : ℕ → ℕ
  pub child_ptrs : ℕ → Dir → ℕ
  pub key : ℕ → K

-- what an access through a pointer needs
abbrev pub deref : ℕ → Run (Unit {0})
deref ptr = if ptr == 0 then fault out_of_bounds else ok tt

-- `(uintptr_t)is_black`
abbrev pub bit : Bool → ℕ
bit b = if b then 1 else 0

module _ {K : Type 0} where
  -- `*rootptr_ptr = p`
  unfoldable pub set_root : Memory K → ℕ → Memory K
  set_root m p = record m { root_ptr = p }

  -- `node->__parent_ptr_with_color_bit = w`
  unfoldable pub set_word : Memory K → ℕ → ℕ → Memory K
  set_word m node w = record m {
    parent_ptr_with_color_bit = λ a. if a == node then w else m.parent_ptr_with_color_bit a;
  }

  -- `node->child_ptrs[dir] = p`
  unfoldable pub set_child : Memory K → ℕ → Dir → ℕ → Memory K
  set_child m node dir p = record m {
    child_ptrs = λ a d. if (a == node) && same_dir d dir then p else m.child_ptrs a d;
  }

  -- `node->key = k`
  unfoldable pub set_key : Memory K → ℕ → K → Memory K
  set_key m node k = record m { key = λ a. if a == node then k else m.key a }

  unfoldable pub node_set_color_to_red : Memory K → ℕ → Run (Memory K)
  node_set_color_to_red m node_ptr = do
    deref node_ptr
    let w = m.parent_ptr_with_color_bit node_ptr
    ok (set_word m node_ptr (w - w % 2))

  unfoldable pub node_set_color_to_black : Memory K → ℕ → Run (Memory K)
  node_set_color_to_black m node_ptr = do
    deref node_ptr
    let w = m.parent_ptr_with_color_bit node_ptr
    ok (set_word m node_ptr (w - w % 2 + 1))

  unfoldable pub node_set_color_to_color_of_other :
      Memory K → (node_ptr other_ptr : ℕ) → Run (Memory K)
  node_set_color_to_color_of_other m node_ptr other_ptr = do
    deref other_ptr
    let is_black = m.parent_ptr_with_color_bit other_ptr % 2
    deref node_ptr
    let w = m.parent_ptr_with_color_bit node_ptr
    ok (set_word m node_ptr (add_size (w - w % 2) is_black))

  unfoldable pub node_set_parent_ptr : Memory K → (node_ptr parent_ptr : ℕ) → Run (Memory K)
  node_set_parent_ptr m node_ptr parent_ptr = do
    deref node_ptr
    let is_black = m.parent_ptr_with_color_bit node_ptr % 2
    ok (set_word m node_ptr (add_size parent_ptr is_black))

  unfoldable pub init : Memory K → Memory K
  init m = set_root m 0

  unfoldable pub node_init : Memory K → ℕ → K → Run (Memory K)
  node_init m node_ptr k = do
    assert (not (node_ptr == 0))
    let keyed = set_key m node_ptr k
    node_set_parent_ptr (set_child (set_child keyed node_ptr right 0) node_ptr left 0) node_ptr 0

  unfoldable pub node_get_parent_ptr : Memory K → ℕ → Run ℕ
  node_get_parent_ptr m node_ptr = do
    assert (not (node_ptr == 0))
    let w = m.parent_ptr_with_color_bit node_ptr
    ok (w - w % 2)

  unfoldable pub node_is_black : Memory K → ℕ → Run Bool
  node_is_black m node_ptr = do
    assert (not (node_ptr == 0))
    ok (m.parent_ptr_with_color_bit node_ptr % 2 == 1)

  unfoldable pub node_is_red : Memory K → ℕ → Run Bool
  node_is_red m node_ptr = do
    assert (not (node_ptr == 0))
    black ← node_is_black m node_ptr
    ok (not black)

  unfoldable pub is_empty : Memory K → Bool
  is_empty m = m.root_ptr == 0

  -- `RBTREE_CHILD_DIR`
  unfoldable pub child_dir : Memory K → ℕ → Run Dir
  child_dir m node_ptr = do
    parent_ptr ← node_get_parent_ptr m node_ptr
    deref parent_ptr
    ok (if node_ptr == m.child_ptrs parent_ptr left then left else right)

  unfoldable pub rotate_dir : Memory K → (p : ℕ) → Dir → Run (ℕ × Memory K)
  rotate_dir m p dir = do
    g ← node_get_parent_ptr m p
    let s = m.child_ptrs p (other dir)
    assert (not (s == 0))
    let c = m.child_ptrs s dir
    let m₁ = set_child m p (other dir) c
    m₂ ← if c == 0 then ok m₁ else node_set_parent_ptr m₁ c p
    m₃ ← node_set_parent_ptr (set_child m₂ s dir p) p s
    m₄ ← node_set_parent_ptr m₃ s g
    ok (
      s,
      if g == 0
          then set_root m₄ s
          else set_child m₄ g (if p == m₄.child_ptrs g left then left else right) s,
    )

  unfoldable pub node_transplant : Memory K → (src_node dest_node : ℕ) → Run (Memory K)
  node_transplant m src_node dest_node = do
    src_node_parent_ptr ← node_get_parent_ptr m src_node
    m₁ ←
        if src_node_parent_ptr == 0
        then ok (set_root m dest_node)
        else (child_dir m src_node >>= λ dir. ok (set_child m src_node_parent_ptr dir dest_node))
    if dest_node == 0 then ok m₁ else node_set_parent_ptr m₁ dest_node src_node_parent_ptr

  -- the loop of `contains_key`
  unfoldable pub contains_loop : (K → K → Bool) → ℕ → Memory K → ℕ → K → Run Bool
  contains_loop is_strictly_less zero m node_ptr k = fault out_of_fuel
  contains_loop is_strictly_less (suc fuel) m node_ptr k =
      let less = is_strictly_less k (m.key node_ptr) in
      let greater = is_strictly_less (m.key node_ptr) k in
      let next = if less then left else right in
      let rest = contains_loop is_strictly_less fuel m (m.child_ptrs node_ptr next) k in
      if node_ptr == 0 then ok false else if not less && not greater then ok true else rest

  unfoldable pub contains_key : (K → K → Bool) → ℕ → Memory K → K → Run Bool
  contains_key is_strictly_less fuel m k = contains_loop is_strictly_less fuel m m.root_ptr k

  -- the loop of `search_node`
  unfoldable pub search_loop : (K → K → Bool) → ℕ → Memory K → ℕ → K → Run ℕ
  search_loop is_strictly_less zero m node_ptr k = fault out_of_fuel
  search_loop is_strictly_less (suc fuel) m node_ptr k =
      let less = is_strictly_less k (m.key node_ptr) in
      let greater = is_strictly_less (m.key node_ptr) k in
      let next = if less then left else right in
      let rest = search_loop is_strictly_less fuel m (m.child_ptrs node_ptr next) k in
      if node_ptr == 0 then ok 0 else if not less && not greater then ok node_ptr else rest

  unfoldable pub search_node : (K → K → Bool) → ℕ → Memory K → K → Run ℕ
  search_node is_strictly_less fuel m k = search_loop is_strictly_less fuel m m.root_ptr k
