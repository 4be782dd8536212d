-- ===== src/Align/Buffer.antt =====
-- `align` of dsa/align.h on a buffer that lies inside the address space.
use dsa_c.Prelude.{
  ℕ, ◌+◌, ◌-◌, ◌^◌, ◌≤◌, ◌<◌, ◌≡◌, arith, leb, leb→le, if◌then◌else◌, Bool-cases, inl, inr,
}
use dsa_c.Run.{ok}
use dsa_c.Word.{sub_size}
use dsa_c.Align.{null, aligned_from, align}
use dsa_c.Align.Padding.{padding_to, sub_size-aligned_from, aligned_from-lt, is_pow2-pow}

aligned_from-eq :
    (k ptr : ℕ)
    → k < 64
    → ptr + padding_to (2 ^ k) ptr < 2 ^ 64
    → aligned_from (2 ^ k) ptr ≡ ptr + padding_to (2 ^ k) ptr
aligned_from-eq k ptr hk h =
    let inside : ptr < 2 ^ 64 = omega arith in
    omega (arith, sub_size-aligned_from k ptr hk inside, aligned_from-lt k ptr hk)

module _ (k size ptr space : ℕ) (hk : k < 64) (inside : ptr + space < 2 ^ 64) where
  padding-eq : sub_size (aligned_from (2 ^ k) ptr) ptr ≡ padding_to (2 ^ k) ptr
  padding-eq = sub_size-aligned_from k ptr hk (omega arith)

  moves :
      size + padding_to (2 ^ k) ptr ≤ space
      → align (2 ^ k) size ptr space
        ≡ ok (record {
          result = ptr + padding_to (2 ^ k) ptr;
          ptr = ptr + padding_to (2 ^ k) ptr;
          space = space - padding_to (2 ^ k) ptr;
        })
  unfolding align
  moves room =
      rw (is_pow2-pow k hk, padding-eq, aligned_from-eq k ptr hk (omega arith)) (ground arith)

  refuses :
      space < size + padding_to (2 ^ k) ptr
      → align (2 ^ k) size ptr space ≡ ok (record { result = null; ptr = ptr; space = space })
  unfolding align
  refuses short = rw (is_pow2-pow k hk, padding-eq) (ground arith)

  -- For an alignment 2^k with k < 64 and a buffer inside the address space, align moves to the next
  -- multiple when the padding and the size fit, and otherwise returns NULL and changes nothing.
  pub align_lem :
      let padding = padding_to (2 ^ k) ptr in
      align (2 ^ k) size ptr space
      ≡ ok (
          if leb (size + padding) space
          then record { result = ptr + padding; ptr = ptr + padding; space = space - padding }
          else record { result = null; ptr = ptr; space = space })
  align_lem = elim (Bool-cases (leb (size + padding_to (2 ^ k) ptr) space)) [
    | inl room ↦ rw room (moves (leb→le _ _ room))
    | inr short ↦ rw short (refuses (ground arith))
  ]
