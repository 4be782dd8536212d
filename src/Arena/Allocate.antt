-- ===== src/Arena/Allocate.antt =====
-- The invariant of an arena, and what an allocation from it does.
use dsa_c.Prelude.{
  ℕ, ◌+◌, ◌-◌, ◌^◌, ◌≤◌, ◌<◌, ◌≡◌, refl, inl, inr, false, arith, leb, ◌==◌, leb→le, Bool-cases,
  if◌then◌else◌,
}
use dsa_c.Run.{ok}
use dsa_c.Word.{add_size, sub_size}
use dsa_c.Align.{null}
use dsa_c.Align.Padding.{padding_to}
use dsa_c.Align.Buffer.{align_lem}
use dsa_c.Arena.{Arena, Memory, memset, allocate_aligned}

-- the buffer lies inside the address space, not at NULL, and the offsets inside the buffer
pub record IsValid (a : Arena) : Type 0 where
  pub not_null : 0 < a.buf_ptr
  pub fits : a.buf_ptr + a.buf_len < 2 ^ 64
  pub ordered : a.prev_offset ≤ a.curr_offset
  pub bounded : a.curr_offset ≤ a.buf_len

-- how far the next block of alignment 2^k is from the current offset
abbrev pub padding : Arena → ℕ → ℕ
padding a k = padding_to (2 ^ k) (a.buf_ptr + a.curr_offset)

-- An allocation from a valid arena, for an alignment 2^k with k < 64, gives the next aligned block
-- filled with zeros if the padding and the size fit, otherwise NULL with nothing changed; the
-- offsets move to the start and the end of the block.
pub allocate_aligned_lem :
    (a : Arena) (memory : Memory) (k size : ℕ)
    → IsValid a
    → k < 64
    → allocate_aligned a memory (2 ^ k) size
      ≡ ok (
          if leb (size + padding a k) (a.buf_len - a.curr_offset)
          then record {
            result = a.buf_ptr + a.curr_offset + padding a k;
            arena = record a {
              prev_offset = a.curr_offset + padding a k;
              curr_offset = a.curr_offset + padding a k + size;
            };
            memory = memset memory (a.buf_ptr + a.curr_offset + padding a k) size;
          }
          else record { result = null; arena = a; memory = memory })
unfolding allocate_aligned
allocate_aligned_lem a memory k size v hk =
    let start : ℕ = a.buf_ptr + a.curr_offset in
    let space : ℕ = a.buf_len - a.curr_offset in
    let p = padding a k in
    let at_start : add_size a.buf_ptr a.curr_offset ≡ start = omega (arith, v.fits, v.bounded) in
    let rest : sub_size a.buf_len a.curr_offset ≡ space = omega (arith, v.fits, v.bounded) in
    let aligned = align_lem k size start space hk (omega (arith, v.fits, v.bounded)) in
    elim (Bool-cases (leb (size + p) space)) [
      | inl room ↦
          let enough : size + p ≤ space = leb→le _ _ room in
          let somewhere : (start + p == null) ≡ false = ground (arith, v.not_null) in
          let offset : sub_size (start + p) a.buf_ptr ≡ a.curr_offset + p =
            omega (arith, enough, v.fits, v.bounded) in
          let end : add_size (a.curr_offset + p) size ≡ a.curr_offset + p + size =
            omega (arith, enough, v.fits, v.bounded) in
          rw (at_start, rest, aligned, room, somewhere, offset, end) refl
      | inr short ↦ rw (at_start, rest, aligned, short) refl
    ]
