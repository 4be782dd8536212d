-- ===== src/Align.antt =====
-- dsa/align.h: `align` moves a pointer up to a boundary inside a buffer, and
-- `calc_alignment_padding` is the number of bytes up to that boundary. A pointer is its address, and
-- address 0 is NULL.
pub mod Padding
pub mod Buffer
mod Tests
use dsa_c.Prelude.{ℕ, bit_and, ltb, if◌then◌else◌}
use dsa_c.Pow2.{is_pow2}
use dsa_c.Run.{Run, ok, assert, ◌>>=◌, ◌>>◌}
use dsa_c.Word.{add_size, sub_size, neg_size}

abbrev pub null : ℕ
null = 0

-- `(ptr - 1u + alignment) & -alignment`
unfoldable pub aligned_from : ℕ → ℕ → ℕ
aligned_from alignment ptr = bit_and (add_size (sub_size ptr 1) alignment) (neg_size alignment)

unfoldable pub calc_alignment_padding : ℕ → ℕ → Run ℕ
calc_alignment_padding alignment ptr = do
  assert (is_pow2 alignment)
  ok (sub_size (aligned_from alignment ptr) ptr)

-- what `align` returns and leaves in `*ptr_ptr` and `*space_ptr`
pub record Aligned : Type 0 where
  pub result : ℕ
  pub ptr : ℕ
  pub space : ℕ

unfoldable pub align : ℕ → ℕ → ℕ → ℕ → Run Aligned
align alignment size ptr space =
    let untouched : Aligned = record { result = null; ptr = ptr; space = space } in
    let aligned = aligned_from alignment ptr in
    let padding = sub_size aligned ptr in
    let moved : Aligned = record {
      result = aligned;
      ptr = aligned;
      space = sub_size space padding;
    } in
    assert (is_pow2 alignment)
    >> (if ltb space size
        then ok untouched
        else if ltb (sub_size space size) padding
        then ok untouched
        else ok moved)
