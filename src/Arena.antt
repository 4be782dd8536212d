-- ===== src/Arena.antt =====
-- dsa/arena.h: an arena that hands out a buffer from its start on. A pointer is its address, and
-- memory a byte for each address; a function that changes `*self` or the memory returns the new one.
-- `max_align` stands for `alignof(max_align_t)`, which the platform fixes. A write through NULL
-- faults; every `assert` on a pointer but `self` is a test that faults.
pub mod Allocate
pub mod Blocks
pub mod Reallocate
mod Tests
use dsa_c.Prelude.{ℕ, ◌+◌, ◌-◌, Bool, not, ltb, leb, ◌==◌, ◌||◌, ◌&&◌, if◌then◌else◌}
use dsa_c.Run.{Run, ok, fault, out_of_bounds, assert, ◌>>=◌, ◌>>◌}
use dsa_c.Word.{add_size, sub_size}
pub use dsa_c.Bytes.{Memory, within, memset}
use dsa_c.Pow2.{is_pow2}
use dsa_c.Align.{null, Aligned, align, calc_alignment_padding}

pub record Arena : Type 0 where
  pub buf_len : ℕ
  pub prev_offset : ℕ
  pub curr_offset : ℕ
  pub buf_ptr : ℕ

-- `memmove(dest, src, size)`
unfoldable pub memmove : Memory → ℕ → ℕ → ℕ → Run Memory
memmove memory dest src size =
    if dest == null
    then fault out_of_bounds
    else ok (λ address.
      if within dest size address then memory (src + (address - dest)) else memory address)

unfoldable pub init : (max_align len backing_buf : ℕ) → Run Arena
init max_align len backing_buf = do
  assert (not (backing_buf == null))
  padding ← calc_alignment_padding max_align backing_buf
  assert (leb padding len)
  ok (record {
    buf_ptr = add_size backing_buf padding;
    buf_len = sub_size len padding;
    curr_offset = 0;
    prev_offset = 0;
  })

unfoldable pub deallocate_all : Arena → Arena
deallocate_all self = record self { curr_offset = 0; prev_offset = 0 }

-- what a call returns, the arena and the memory after it
pub record Outcome : Type 0 where
  pub result : ℕ
  pub arena : Arena
  pub memory : Memory

unfoldable pub allocate_aligned : Arena → Memory → (alignment size : ℕ) → Run Outcome
unfolding memset
allocate_aligned self memory alignment size = do
  aligned ←
      align alignment size (add_size self.buf_ptr self.curr_offset)
        (sub_size self.buf_len self.curr_offset)
  let relative_offset = sub_size aligned.ptr self.buf_ptr
  if aligned.result == null
      then ok (record { result = null; arena = self; memory = memory })
      else ok (record {
        result = aligned.ptr;
        arena = record self {
          prev_offset = relative_offset;
          curr_offset = add_size relative_offset size;
        };
        memory = memset memory aligned.ptr size;
      })

unfoldable pub allocate : (max_align : ℕ) → Arena → Memory → ℕ → Run Outcome
unfolding allocate_aligned
allocate max_align self memory size = allocate_aligned self memory max_align size

unfoldable pub try_optimizing_w_prev_offset :
    Arena → Memory → (old_ptr old_size new_size : ℕ) → Outcome
unfolding memset
try_optimizing_w_prev_offset self memory old_ptr old_size new_size =
    let curr_offset = add_size self.prev_offset new_size in
    if not (add_size self.buf_ptr self.prev_offset == old_ptr)
    then record { result = null; arena = self; memory = memory }
    else record {
      result = old_ptr;
      arena = record self { curr_offset = curr_offset };
      memory =
          if ltb old_size new_size
          then memset memory (add_size self.buf_ptr curr_offset) (sub_size new_size old_size)
          else memory;
    }

unfoldable pub reallocate_aligned :
    Arena → Memory → (old_ptr alignment old_size new_size : ℕ) → Run Outcome
unfolding try_optimizing_w_prev_offset allocate_aligned memmove
reallocate_aligned self memory old_ptr alignment old_size new_size =
    let misc_input = old_ptr == null || (old_size == 0 || new_size == 0) in
    let inside_arena_buf =
      leb self.buf_ptr old_ptr && leb old_ptr (add_size self.buf_ptr (sub_size self.buf_len 1)) in
    let optimized = try_optimizing_w_prev_offset self memory old_ptr old_size new_size in
    let copy_size = if ltb old_size new_size then old_size else new_size in
    assert (is_pow2 alignment)
    >> (if misc_input || not inside_arena_buf
        then ok (record { result = null; arena = self; memory = memory })
        else if not (optimized.result == null)
        then ok optimized
        else (do
          new_mem ← allocate_aligned self memory alignment new_size
          memory' ← memmove new_mem.memory new_mem.result old_ptr copy_size
          ok (record new_mem { memory = memory' })))

unfoldable pub reallocate :
    (max_align : ℕ) → Arena → Memory → (old_ptr old_size new_size : ℕ) → Run Outcome
unfolding reallocate_aligned
reallocate max_align self memory old_ptr old_size new_size =
    reallocate_aligned self memory old_ptr max_align old_size new_size

-- `struct temp_arena_state`, without the pointer to the arena, which the caller passes
pub record Saved : Type 0 where
  pub prev_offset : ℕ
  pub curr_offset : ℕ

unfoldable pub save : Arena → Saved
save self = record { prev_offset = self.prev_offset; curr_offset = self.curr_offset }

unfoldable pub restore : Arena → Saved → Arena
restore self saved = record self {
  prev_offset = saved.prev_offset;
  curr_offset = saved.curr_offset;
}
