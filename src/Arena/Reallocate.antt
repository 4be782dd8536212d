-- ===== src/Arena/Reallocate.antt =====
-- Reallocation in dsa/arena.h: in place for the last block, by a copy for the others.
use dsa_c.Prelude.{
  ℕ, ◌+◌, ◌-◌, ◌%◌, ◌^◌, ◌≤◌, ◌<◌, ◌≡◌, ◌≢◌, refl, inl, inr, true, false, arith, ltb, leb, ◌==◌,
  ◌&&◌, ◌||◌, not, ltb→lt, Bool-cases, if◌then◌else◌, min,
}
use dsa_c.Run.{ok, fault, out_of_bounds, Returns, returns, Returns-inv}
use dsa_c.Word.{add_size, sub_size}
use dsa_c.Align.{null}
use dsa_c.Align.Padding.{is_pow2-pow}
use dsa_c.Bytes.{Outside, memset-inside}
use dsa_c.Arena.{
  Arena, Memory, Outcome, within, memset, memmove, try_optimizing_w_prev_offset, reallocate_aligned,
}
use dsa_c.Arena.Allocate.{IsValid, padding, allocate_aligned_lem}
use dsa_c.Arena.Blocks.{allocate_aligned-Placed}

-- a block of `size` bytes that the arena handed out
pub record IsBlock (a : Arena) (ptr size : ℕ) : Type 0 where
  pub some_bytes : 0 < size
  pub behind_start : a.buf_ptr ≤ ptr
  pub before_end : ptr + size ≤ a.buf_ptr + a.curr_offset

-- `o` answers a request to move `old_size` bytes at `old_ptr` to `new_size` bytes at a multiple of
-- 2^k: a new block behind all others that holds the old bytes, as many as both sizes have, and zeros
-- behind them; no other byte changed
pub record Moved (a : Arena) (memory : Memory) (k old_ptr old_size new_size : ℕ) (o : Outcome)
    : Type 0 where
  pub aligned : o.result % 2 ^ k ≡ 0
  pub behind : a.buf_ptr + a.curr_offset ≤ o.result
  pub start : let b = o.arena in o.result ≡ b.buf_ptr + b.prev_offset
  pub end : let b = o.arena in o.result + new_size ≡ b.buf_ptr + b.curr_offset
  pub same_buf : let b = o.arena in b.buf_ptr ≡ a.buf_ptr
  pub same_len : let b = o.arena in b.buf_len ≡ a.buf_len
  pub valid : IsValid o.arena
  pub copied : (i : ℕ) → i < min old_size new_size → o.memory (o.result + i) ≡ memory (old_ptr + i)
  pub zeros : (i : ℕ) → old_size ≤ i → i < new_size → o.memory (o.result + i) ≡ 0
  pub kept : (x : ℕ) → Outside o.result new_size x → o.memory x ≡ memory x

module _ (a : Arena) (memory : Memory) (k old_ptr old_size new_size : ℕ) (v : IsValid a)
    (hk : k < 64) (b : IsBlock a old_ptr old_size) (pos : 0 < new_size) where
  accepted :
      ((old_ptr == null || (old_size == 0 || new_size == 0))
        || not (leb a.buf_ptr old_ptr && leb old_ptr (add_size a.buf_ptr (sub_size a.buf_len 1))))
      ≡ false
  accepted =
      let last : add_size a.buf_ptr (sub_size a.buf_len 1) ≡ a.buf_ptr + a.buf_len - 1 =
        omega (arith, v.fits, v.bounded, v.not_null, b.some_bytes, b.behind_start, b.before_end) in
      rw last (ground (arith, v.not_null, v.bounded, b.some_bytes, b.behind_start, b.before_end))

  -- A reallocation of the last block of a valid arena, to a size that is not 0 and ends inside the
  -- address space, at an alignment 2^k with k < 64, returns the same pointer and moves the current
  -- offset, whether or not the new size fits the buffer; a larger size zeroes as many bytes as were
  -- added, from the new end on.
  pub reallocate_last :
      old_ptr ≡ a.buf_ptr + a.prev_offset
      → a.prev_offset + new_size < 2 ^ 64
      → a.buf_ptr + a.prev_offset + new_size < 2 ^ 64
      → new_size < 2 ^ 64
      → reallocate_aligned a memory old_ptr (2 ^ k) old_size new_size
        ≡ ok (record {
          result = old_ptr;
          arena = record a { curr_offset = a.prev_offset + new_size };
          memory =
              if ltb old_size new_size
              then memset memory (old_ptr + new_size) (new_size - old_size)
              else memory;
        })
  unfolding reallocate_aligned try_optimizing_w_prev_offset
  reallocate_last last h h' h'' =
      let known : (old_ptr == null) ≡ false = ground (arith, v.not_null, b.behind_start) in
      let here : add_size a.buf_ptr a.prev_offset ≡ old_ptr = omega (arith, last, h') in
      let itself : (old_ptr == old_ptr) ≡ true = ground arith in
      let moved : add_size a.prev_offset new_size ≡ a.prev_offset + new_size = omega arith in
      let end : add_size a.buf_ptr (a.prev_offset + new_size) ≡ old_ptr + new_size =
        omega (arith, last, h') in
      rw (is_pow2-pow k hk, accepted, here, itself, known, moved, end)
        (elim (Bool-cases (ltb old_size new_size)) [
          | inl grows ↦
              let less : old_size < new_size = ltb→lt _ _ grows in
              let more : sub_size new_size old_size ≡ new_size - old_size = omega arith in
              rw (grows, more) refl
          | inr shrinks ↦ rw shrinks refl
        ])

  -- The last block of a valid arena, reallocated at an alignment 2^k with k < 64 to a size that
  -- ends beyond the buffer and inside the address space, is granted: the same pointer comes back,
  -- the current offset that the arena has then is the end of the block and lies outside the buffer,
  -- and as many bytes as were added, all of them behind the buffer, are zeroed from that end on.
  pub reallocate_grows_outside :
      old_ptr ≡ a.buf_ptr + a.prev_offset
      → a.buf_len < a.prev_offset + new_size
      → a.buf_ptr + a.prev_offset + new_size < 2 ^ 64
      → Returns
          (λ o.
            (o.result ≡ old_ptr)
            × (let b = o.arena in b.buf_len < b.curr_offset)
            × (let b = o.arena in o.result + new_size ≡ b.buf_ptr + b.curr_offset)
            × ((x : ℕ)
                → old_ptr + new_size ≤ x
                → x < old_ptr + new_size + (new_size - old_size)
                → (a.buf_ptr + a.buf_len < x) × (o.memory x ≡ 0)))
          (reallocate_aligned a memory old_ptr (2 ^ k) old_size new_size)
  reallocate_grows_outside last beyond h =
      let grows : ltb old_size new_size ≡ true =
        ground (arith, last, beyond, v.bounded, b.before_end) in
      rw (reallocate_last last (omega (arith, h)) h (omega (arith, h)), grows)
        (returns (
          refl,
          beyond,
          omega (arith, last),
          λ x lo hi. (
            omega (arith, last, beyond),
            memset-inside memory (old_ptr + new_size) (new_size - old_size) x lo hi,
          ),
        ))

  -- A block of a valid arena that is not the last, reallocated to a size that is not 0 at an
  -- alignment 2^k with k < 64, with room for the padding and that size, comes back as a new aligned
  -- block of that size behind all others and inside the buffer, whose start and end are the arena's
  -- offsets. Its first bytes, up to the smaller of the two sizes, are those of the old block, the
  -- bytes that were added are 0, and no other byte changes; the arena stays valid and keeps its
  -- buffer.
  pub reallocate_moves :
      old_ptr ≢ a.buf_ptr + a.prev_offset
      → new_size + padding a k ≤ a.buf_len - a.curr_offset
      → Returns
          (Moved a memory k old_ptr old_size new_size)
          (reallocate_aligned a memory old_ptr (2 ^ k) old_size new_size)
  unfolding reallocate_aligned try_optimizing_w_prev_offset memmove
  reallocate_moves other room =
      let apart : (add_size a.buf_ptr a.prev_offset == old_ptr) ≡ false =
        ground (arith, v.fits, v.ordered, v.bounded) in
      let (o, made, p) = Returns-inv (allocate_aligned-Placed a memory k new_size v hk room) in
      let somewhere : (o.result == null) ≡ false = ground (arith, v.not_null, p.behind) in
      let copy_size : ℕ = if ltb old_size new_size then old_size else new_size in
      rw (is_pow2-pow k hk, accepted, apart, made, somewhere)
        (returns (record {
          aligned = p.aligned;
          behind = p.behind;
          start = p.start;
          end = p.end;
          same_buf = p.same_buf;
          same_len = p.same_len;
          valid = p.valid;
          copied = λ i below.
              let inside : within o.result copy_size (o.result + i) ≡ true = ground arith in
              let offset : o.result + i - o.result ≡ i = omega arith in
              rw (inside, offset)
                (p.kept (old_ptr + i) (inl (omega (arith, b.before_end, p.behind))));
          zeros = λ i lo hi.
              let behind : within o.result copy_size (o.result + i) ≡ false = ground arith in
              rw behind (p.zeros (o.result + i) (omega arith) (omega arith));
          kept = λ x out.
              let elsewhere : within o.result copy_size x ≡ false = outside-within out in
              rw elsewhere (p.kept x out);
        }))
    where
      outside-within :
          {x ptr : ℕ}
          → Outside ptr new_size x
          → within ptr (if ltb old_size new_size then old_size else new_size) x ≡ false
      outside-within (inl below) = ground arith
      outside-within (inr behind) = ground arith

  -- A block of a valid arena that is not the last, reallocated to a size that is not 0 at an
  -- alignment 2^k with k < 64, without room for the padding and that size, makes the copy write
  -- through NULL, a fault.
  pub reallocate_without_room :
      old_ptr ≢ a.buf_ptr + a.prev_offset
      → a.buf_len - a.curr_offset < new_size + padding a k
      → reallocate_aligned a memory old_ptr (2 ^ k) old_size new_size ≡ fault out_of_bounds
  unfolding reallocate_aligned try_optimizing_w_prev_offset memmove
  reallocate_without_room other short =
      let apart : (add_size a.buf_ptr a.prev_offset == old_ptr) ≡ false =
        ground (arith, v.fits, v.ordered, v.bounded) in
      let no_room : leb (new_size + padding a k) (a.buf_len - a.curr_offset) ≡ false =
        ground arith in
      rw (is_pow2-pow k hk, accepted, apart, allocate_aligned_lem a memory k new_size v hk, no_room)
        refl
