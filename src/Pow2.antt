-- ===== src/Pow2.antt =====
-- dsa/is_pow2.h and dsa/round_up_pow2.h: the test for a power of two, and rounding up to one.
pub mod IsPow2
pub mod RoundUp
pub mod Fallback
mod Tests
use dsa_c.Prelude.{
  ℕ, zero, suc, ◌+◌, ◌-◌, ◌/◌, ◌%◌, ◌^◌, bit_and, bit_or, Bool, ◌&&◌, not, ltb, leb, ◌==◌,
  if◌then◌else◌,
}
use dsa_c.Run.{Run, ok, assert, ◌>>=◌, ◌>>◌}
use dsa_c.Word.{uint32_max, add32, sub32, shl32, sub_size}

unfoldable pub is_pow2 : ℕ → Bool
is_pow2 x = not (x == 0) && (bit_and x (sub_size x 1) == 0)

-- `__builtin_clz`, as GCC documents it: the number of 0-bits from the most significant position on,
-- looking at the lowest `b` bits. It is not defined at 0.
unfoldable pub clz_from : ℕ → ℕ → ℕ
clz_from zero x = 0
clz_from (suc b) x = if x / 2 ^ b % 2 == 1 then 0 else suc (clz_from b x)

unfoldable pub builtin_clz : ℕ → ℕ
builtin_clz x = clz_from 32 x

-- the branch for GCC
unfoldable pub round_up_pow2_32 : ℕ → Run ℕ
round_up_pow2_32 x = do
  assert (ltb 0 x && leb x (uint32_max / 2 + 1))
  ok (if x == 1 then 1 else shl32 1 (32 - builtin_clz (sub32 x 1)))

-- one line `x |= x >> s` of the other branch
unfoldable pub smear : ℕ → ℕ → ℕ
smear s x = bit_or x (x / 2 ^ s)

-- the branch for other compilers
unfoldable pub round_up_pow2_32_fallback : ℕ → Run ℕ
round_up_pow2_32_fallback x = do
  assert (ltb 0 x && leb x (uint32_max / 2 + 1))
  ok (add32 (smear 16 (smear 8 (smear 4 (smear 2 (smear 1 (sub32 x 1)))))) 1)
