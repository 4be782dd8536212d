-- ===== src/Pow2/Tests.antt =====
-- Runs of the test and of the rounding, and the instances of their theorems.
use dsa_c.Prelude.{◌≡◌, ◌↔◌, ◌≤◌, ◌^◌, refl, true, false, arith}
use dsa_c.Run.{ok, fault, assertion, Returns}
use dsa_c.Pow2.{is_pow2, clz_from, builtin_clz, round_up_pow2_32, round_up_pow2_32_fallback}
use dsa_c.Pow2.IsPow2.{PowerOfTwo, is_pow2_iff}
use dsa_c.Pow2.RoundUp.{IsRoundUp, round_up_pow2_32_lem}
use dsa_c.Pow2.Fallback.{round_up_pow2_32-fallback}

not_of_zero : is_pow2 0 ≡ false
unfolding is_pow2
not_of_zero = refl

not_of_six : is_pow2 6 ≡ false
unfolding is_pow2
not_of_six = refl

round_hundred : round_up_pow2_32 100 ≡ ok 128
unfolding round_up_pow2_32 builtin_clz clz_from
round_hundred = refl

round_zero : round_up_pow2_32 0 ≡ fault assertion
unfolding round_up_pow2_32
round_zero = refl

is_pow2_iff_example : (is_pow2 64 ≡ true) ↔ PowerOfTwo 64
is_pow2_iff_example = is_pow2_iff 64 (omega arith)

round_up_pow2_32_lem_example : Returns (λ r. IsRoundUp 100 r × (r ≤ 2 ^ 31)) (round_up_pow2_32 100)
round_up_pow2_32_lem_example = round_up_pow2_32_lem 100 (omega arith) (omega arith)

round_up_pow2_32-fallback_example : round_up_pow2_32_fallback 100 ≡ round_up_pow2_32 100
round_up_pow2_32-fallback_example = round_up_pow2_32-fallback 100 (omega arith)
