-- ===== src/Align/Tests.antt =====
-- Runs of the alignment, and the instances of its theorems.
use dsa_c.Prelude.{◌≡◌, ◌+◌, ◌-◌, ◌^◌, refl, arith, leb, if◌then◌else◌}
use dsa_c.Run.{ok}
use dsa_c.Pow2.{is_pow2}
use dsa_c.Align.{null, aligned_from, align}
use dsa_c.Align.Padding.{padding_to}
use dsa_c.Align.Buffer.{align_lem}

align_seventeen : align 8 4 17 100 ≡ ok (record { result = 24; ptr = 24; space = 93 })
unfolding align aligned_from is_pow2
align_seventeen = refl

align_short : align 8 4 17 10 ≡ ok (record { result = null; ptr = 17; space = 10 })
unfolding align aligned_from is_pow2
align_short = refl

align_lem_example :
    align (2 ^ 3) 4 17 100
    ≡ ok (
        if leb (4 + padding_to (2 ^ 3) 17) 100
        then record {
          result = 17 + padding_to (2 ^ 3) 17;
          ptr = 17 + padding_to (2 ^ 3) 17;
          space = 100 - padding_to (2 ^ 3) 17;
        }
        else record { result = null; ptr = 17; space = 100 })
align_lem_example = align_lem 3 4 17 100 (omega arith) (omega arith)
