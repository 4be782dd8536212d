-- ===== src/NodeList.antt =====
-- dsa/list.h: an intrusive circular list. A pointer is an address, and the store holds a node at each
-- address; a function that writes through a pointer returns the new store. Each call writes in the
-- order of the source, so nodes that coincide are treated as the code treats them. NULL is address 0.
mod Ring
mod Calls
mod Removal
mod Tests
use dsa_c.Prelude.{ℕ, Bool, not, ◌==◌, if◌then◌else◌}
use dsa_c.Run.{Run, ok, assert, ◌>>=◌, ◌>>◌}

pub record Node : Type 0 where
  pub prev_ptr : ℕ
  pub next_ptr : ℕ

abbrev pub Store : Type 0
Store = ℕ → Node

-- `node->prev_ptr = p`
unfoldable pub set_prev : Store → ℕ → ℕ → Store
set_prev store node p = λ a.
    let old = store a in if a == node then record { prev_ptr = p; next_ptr = old.next_ptr } else old

-- `node->next_ptr = p`
unfoldable pub set_next : Store → ℕ → ℕ → Store
set_next store node p = λ a.
    let old = store a in if a == node then record { prev_ptr = old.prev_ptr; next_ptr = p } else old

abbrev pub prev : Store → ℕ → ℕ
prev store a = let node = store a in node.prev_ptr

abbrev pub next : Store → ℕ → ℕ
next store a = let node = store a in node.next_ptr

unfoldable pub node_init : Store → ℕ → Run Store
unfolding set_prev set_next
node_init store node_ptr = do
  assert (not (node_ptr == 0))
  ok (set_prev (set_next store node_ptr node_ptr) node_ptr node_ptr)

unfoldable pub node_is_first : Store → (node_ptr head_ptr : ℕ) → Run Bool
node_is_first store node_ptr head_ptr = do
  assert (not (node_ptr == 0))
  assert (not (head_ptr == 0))
  ok (prev store node_ptr == head_ptr)

unfoldable pub node_is_last : Store → (node_ptr head_ptr : ℕ) → Run Bool
node_is_last store node_ptr head_ptr = do
  assert (not (node_ptr == 0))
  assert (not (head_ptr == 0))
  ok (next store node_ptr == head_ptr)

unfoldable pub node_is_head : Store → (node_ptr head_ptr : ℕ) → Run Bool
node_is_head store node_ptr head_ptr = do
  assert (not (node_ptr == 0))
  assert (not (head_ptr == 0))
  ok (node_ptr == head_ptr)

unfoldable pub add_between : Store → (node_ptr before_ptr after_ptr : ℕ) → Store
unfolding set_prev set_next
add_between store node_ptr before_ptr after_ptr =
    let s₁ = set_next store before_ptr node_ptr in
    let s₂ = set_prev s₁ node_ptr before_ptr in
    let s₃ = set_prev s₂ after_ptr node_ptr in set_next s₃ node_ptr after_ptr

unfoldable pub attach : Store → (prev_ptr next_ptr : ℕ) → Store
unfolding set_prev set_next
attach store prev_ptr next_ptr = set_prev (set_next store prev_ptr next_ptr) next_ptr prev_ptr

unfoldable pub add_after : Store → (node_ptr prev_ptr : ℕ) → Run Store
unfolding add_between
add_after store node_ptr prev_ptr = do
  assert (not (node_ptr == 0))
  assert (not (prev_ptr == 0))
  ok (add_between store node_ptr prev_ptr (next store prev_ptr))

unfoldable pub add_before : Store → (node_ptr next_ptr : ℕ) → Run Store
unfolding add_between
add_before store node_ptr next_ptr = do
  assert (not (node_ptr == 0))
  assert (not (next_ptr == 0))
  ok (add_between store node_ptr (prev store next_ptr) next_ptr)

unfoldable pub remove : Store → ℕ → Run Store
unfolding attach node_init
remove store node_ptr = do
  assert (not (node_ptr == 0))
  assert (not (prev store node_ptr == node_ptr))
  assert (not (next store node_ptr == node_ptr))
  node_init (attach store (prev store node_ptr) (next store node_ptr)) node_ptr

unfoldable pub replace : Store → (old_ptr new_ptr : ℕ) → Run Store
unfolding add_between node_init
replace store old_ptr new_ptr = do
  assert (not (old_ptr == 0))
  assert (not (new_ptr == 0))
  assert (not (old_ptr == new_ptr))
  assert (not (prev store old_ptr == old_ptr))
  assert (not (next store old_ptr == old_ptr))
  node_init (add_between store new_ptr (prev store old_ptr) (next store old_ptr)) old_ptr
