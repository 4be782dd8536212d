-- ===== src/Word.antt =====
-- `uint32_t` and `size_t` (64 bits, as `uintptr_t`): unsigned arithmetic that wraps, over numbers
-- below the modulus. `-` on ℕ stops at 0, so the modulus is added first.
use dsa_c.Prelude.{ℕ, ◌+◌, ◌-◌, ◌*◌, ◌%◌, ◌^◌}

abbrev pub uint32_max : ℕ
uint32_max = 2 ^ 32 - 1

abbrev pub add32 : ℕ → ℕ → ℕ
add32 a b = (a + b) % 2 ^ 32

abbrev pub sub32 : ℕ → ℕ → ℕ
sub32 a b = (a + 2 ^ 32 - b) % 2 ^ 32

abbrev pub mul32 : ℕ → ℕ → ℕ
mul32 a b = a * b % 2 ^ 32

-- `a << s`, defined in C for `s < 32`
abbrev pub shl32 : ℕ → ℕ → ℕ
shl32 a s = a * 2 ^ s % 2 ^ 32

abbrev pub add_size : ℕ → ℕ → ℕ
add_size a b = (a + b) % 2 ^ 64

abbrev pub sub_size : ℕ → ℕ → ℕ
sub_size a b = (a + 2 ^ 64 - b) % 2 ^ 64

abbrev pub mul_size : ℕ → ℕ → ℕ
mul_size a b = a * b % 2 ^ 64

-- `-a`
abbrev pub neg_size : ℕ → ℕ
neg_size a = (2 ^ 64 - a) % 2 ^ 64
