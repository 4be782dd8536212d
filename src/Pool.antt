-- ===== src/Pool.antt =====
-- dsa/pool.h: an allocator of chunks of one size, whose free chunks form a list through their first
-- memory. A pointer is its address, and memory a byte for each address; the pointer in a node takes 8
-- bytes, the lowest first. A division by 0 faults, and so does every failed `assert` but those on
-- `self`.
pub mod FreeList
pub mod Init
mod Tests
use dsa_c.Prelude.{ℕ, zero, suc, ◌+◌, ◌/◌, Bool, not, ltb, leb, ◌==◌, ◌&&◌, if◌then◌else◌}
use dsa_c.Run.{Run, ok, fault, out_of_bounds, assert, ◌>>=◌, ◌>>◌}
use dsa_c.Word.{add_size, sub_size, mul_size}
use dsa_c.Bytes.{Memory, memset, load_bytes, store_bytes}
use dsa_c.Align.{null, calc_alignment_padding}

pub record Pool : Type 0 where
  pub buf_len : ℕ
  pub chunk_size : ℕ
  pub buf_ptr : ℕ
  pub head_ptr : ℕ

-- `sizeof(struct pool_free_node)`
abbrev pub node_size : ℕ
node_size = 8

-- `node->next_ptr = p`
unfoldable pub set_next : Memory → ℕ → ℕ → Memory
set_next memory node p = store_bytes node_size memory node p

-- `node->next_ptr`
unfoldable pub get_next : Memory → ℕ → ℕ
get_next memory node = load_bytes node_size memory node

unfoldable pub push_free_node : Pool → Memory → ℕ → Pool × Memory
unfolding set_next
push_free_node self memory node =
    (record self { head_ptr = node }, set_next memory node self.head_ptr)

-- `for (i = i; i < i + rounds; i++)` of `deallocate_all`
unfoldable pub free_loop : (rounds i : ℕ) → Pool → Memory → Pool × Memory
unfolding push_free_node
free_loop zero i self memory = (self, memory)
free_loop (suc n) i self memory =
    let ptr = add_size self.buf_ptr (mul_size i self.chunk_size) in
    let (self', memory') = push_free_node self memory ptr in free_loop n (suc i) self' memory'

unfoldable pub deallocate_all : Pool → Memory → Run (Pool × Memory)
unfolding free_loop
deallocate_all self memory =
    if self.chunk_size == 0
    then fault out_of_bounds
    else ok (free_loop (self.buf_len / self.chunk_size) 0 self memory)

unfoldable pub init : Memory → (len backing_buf data_size data_alignment : ℕ) → Run (Pool × Memory)
unfolding deallocate_all
init memory len backing_buf data_size data_alignment = do
  assert (not (backing_buf == null))
  padding ← calc_alignment_padding data_alignment backing_buf
  let size = if leb node_size data_size then data_size else node_size
  rest ← calc_alignment_padding data_alignment size
  let chunk_size = add_size size rest
  assert (leb (add_size padding chunk_size) len)
  deallocate_all
      (record {
        buf_ptr = add_size backing_buf padding;
        buf_len = sub_size len padding;
        chunk_size = chunk_size;
        head_ptr = null;
      })
      memory

-- what `allocate` returns, and the pool and the memory after it
unfoldable pub allocate : Pool → Memory → ℕ × Pool × Memory
unfolding get_next memset
allocate self memory =
    let node = self.head_ptr in
    if node == null
    then (null, self, memory)
    else (node, record self { head_ptr = get_next memory node }, memset memory node self.chunk_size)

unfoldable pub deallocate : Pool → Memory → ℕ → Run (Pool × Memory)
unfolding push_free_node
deallocate self memory ptr = do
  assert (not (ptr == null))
  assert (leb self.buf_ptr ptr && ltb ptr (add_size self.buf_ptr self.buf_len))
  ok (push_free_node self memory ptr)
