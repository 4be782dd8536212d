-- ===== src/Arena/Tests.antt =====
-- Runs of the arena, and the instances of its theorems, on a buffer of 100 bytes at 1008.
use dsa_c.Prelude.{
  ℕ, ◌≡◌, ◌+◌, ◌-◌, ◌%◌, ◌^◌, ◌<◌, refl, arith, List, [], ◌∷◌, leb, ltb, if◌then◌else◌, ◌≤◌,
}
use dsa_c.Run.{ok, fault, out_of_bounds, Returns}
use dsa_c.Pow2.{is_pow2}
use dsa_c.Align.{null, aligned_from, calc_alignment_padding}
use dsa_c.Arena.{Arena, Memory, init, memset, allocate_aligned, reallocate_aligned, save, restore}
use dsa_c.Arena.Allocate.{IsValid, padding, allocate_aligned_lem}
use dsa_c.Arena.Blocks.{
  Request, AllSmall, Laid, allocate_all, allocate_all-Laid, restore-save, arena_init_lem,
}
use dsa_c.Arena.Reallocate.{
  IsBlock, Moved, reallocate_last, reallocate_grows_outside, reallocate_moves,
  reallocate_without_room,
}

abbrev memory : Memory
memory = λ address. address % 256

-- a first block of 5 bytes at the start, a second of 3 bytes at offset 8
abbrev used : Arena
used = record { buf_len = 100; prev_offset = 8; curr_offset = 11; buf_ptr = 1008 }

abbrev requests : List Request
requests =
    record { exponent = 3; size = 16 }
    ∷ record { exponent = 4; size = 200 }
    ∷ record { exponent = 0; size = 1 }
    ∷ []

used-IsValid : IsValid used
used-IsValid = record {
  not_null = omega arith;
  fits = omega arith;
  ordered = omega arith;
  bounded = omega arith;
}

requests-AllSmall : AllSmall requests
requests-AllSmall =
    AllSmall.cons (omega arith)
      (AllSmall.cons (omega arith) (AllSmall.cons (omega arith) AllSmall.nil))

first-IsBlock : IsBlock used 1008 5
first-IsBlock = record {
  some_bytes = omega arith;
  behind_start = omega arith;
  before_end = omega arith;
}

second-IsBlock : IsBlock used 1016 3
second-IsBlock = record {
  some_bytes = omega arith;
  behind_start = omega arith;
  before_end = omega arith;
}

init_buffer :
    init 16 100 1005
    ≡ ok (record { buf_len = 97; prev_offset = 0; curr_offset = 0; buf_ptr = 1008 })
unfolding init calc_alignment_padding aligned_from is_pow2
init_buffer = refl

allocate_aligned_lem_example :
    allocate_aligned used memory (2 ^ 3) 16
    ≡ ok (
        if leb (16 + padding used 3) 89
        then record {
          result = 1019 + padding used 3;
          arena = record used {
            prev_offset = 11 + padding used 3;
            curr_offset = 11 + padding used 3 + 16;
          };
          memory = memset memory (1019 + padding used 3) 16;
        }
        else record { result = null; arena = used; memory = memory })
allocate_aligned_lem_example = allocate_aligned_lem used memory 3 16 used-IsValid (omega arith)

allocate_all-Laid_example :
    Returns
      (λ (blocks, a', memory'). Laid used memory blocks a' memory')
      (allocate_all requests used memory)
allocate_all-Laid_example = allocate_all-Laid requests used memory requests-AllSmall used-IsValid

restore-save_example :
    Returns
      (λ (blocks, a', memory'). restore a' (save used) ≡ used)
      (allocate_all requests used memory)
restore-save_example = restore-save requests used memory requests-AllSmall used-IsValid

arena_init_lem_example :
    Returns
      (λ a.
        IsValid a
        × (a.buf_ptr % 2 ^ 4 ≡ 0)
        × (a.curr_offset ≡ 0)
        × (a.buf_ptr + a.buf_len ≡ 1005 + 100))
      (init (2 ^ 4) 100 1005)
arena_init_lem_example =
    arena_init_lem 4 100 1005 (omega arith) (omega arith) (omega arith) (omega arith)

reallocate_last_example :
    reallocate_aligned used memory 1016 (2 ^ 3) 3 20
    ≡ ok (record {
      result = 1016;
      arena = record used { curr_offset = 8 + 20 };
      memory = if ltb 3 20 then memset memory (1016 + 20) (20 - 3) else memory;
    })
reallocate_last_example =
    reallocate_last used memory 3 1016 3 20 used-IsValid (omega arith) second-IsBlock (omega arith)
      refl (omega arith) (omega arith) (omega arith)

reallocate_grows_outside_example :
    Returns
      (λ o.
        (o.result ≡ 1016)
        × (let b = o.arena in b.buf_len < b.curr_offset)
        × (let b = o.arena in o.result + 500 ≡ b.buf_ptr + b.curr_offset)
        × ((x : ℕ) → 1016 + 500 ≤ x → x < 1016 + 500 + (500 - 3) → (1108 < x) × (o.memory x ≡ 0)))
      (reallocate_aligned used memory 1016 (2 ^ 3) 3 500)
reallocate_grows_outside_example =
    reallocate_grows_outside used memory 3 1016 3 500 used-IsValid (omega arith) second-IsBlock
      (omega arith) refl (omega arith) (omega arith)

reallocate_moves_example :
    Returns (Moved used memory 3 1008 5 10) (reallocate_aligned used memory 1008 (2 ^ 3) 5 10)
reallocate_moves_example =
    reallocate_moves used memory 3 1008 5 10 used-IsValid (omega arith) first-IsBlock (omega arith)
      (omega arith) (omega arith)

reallocate_without_room_example :
    reallocate_aligned used memory 1008 (2 ^ 3) 5 90 ≡ fault out_of_bounds
reallocate_without_room_example =
    reallocate_without_room used memory 3 1008 5 90 used-IsValid (omega arith) first-IsBlock
      (omega arith) (omega arith) (omega arith)
