-- ===== src/Flexible.antt =====
-- What the array containers (dsa/fstack.h, fqueue.h, fpqueue.h, fhashtable.h) have in common: a
-- struct that ends in an array, allocated as one block, and loops over that array. The four headers
-- spell the size macros and the loops alike.
pub mod Size
pub mod Loop
use dsa_c.Prelude.{
  ℕ, zero, suc, ◌+◌, ◌-◌, ◌*◌, ◌/◌, ◌%◌, ◌^◌, ◌≤◌, ◌<◌, Bool, ltb, List, [], ◌∷◌, if◌then◌else◌,
}
use dsa_c.Run.{Run, ok, load, store, ◌>>=◌}
use dsa_c.Word.{uint32_max, sub_size, add_size, mul_size}

-- `offsetof(struct name, values)` and `sizeof(values[0])`, which the compiler computes from the
-- types that the includer names
pub record Layout : Type 0 where
  pub offset : ℕ
  pub elem_size : ℕ
  pub offset_fits : offset ≤ uint32_max
  pub elem_size_pos : 0 < elem_size

unfoldable pub calc_sizeof : Layout → ℕ → ℕ
calc_sizeof l capacity = add_size l.offset (mul_size capacity l.elem_size) % 2 ^ 32

unfoldable pub calc_sizeof_overflows : Layout → ℕ → Bool
calc_sizeof_overflows l capacity = ltb (sub_size uint32_max l.offset / l.elem_size) capacity

-- how many array elements a block of `size` bytes holds
unfoldable pub room_for : Layout → ℕ → ℕ
room_for l size = (size - l.offset) / l.elem_size

module _ {ℓ} {A : Type ℓ} where
  -- `for (i = i; i < i + rounds; i++) dest[i] = src[index(i)];`
  unfoldable pub copy_loop : (ℕ → ℕ) → (rounds i : ℕ) → List A → List A → Run (List A)
  copy_loop index zero i src dest = ok dest
  copy_loop index (suc n) i src dest = do
    x ← load src (index i)
    dest' ← store dest i x
    copy_loop index n (suc i) src dest'

  -- the values that `for (i = i; i < i + rounds; i++) value = values[index(i)];` visits, in order
  unfoldable pub visit : (ℕ → ℕ) → (rounds i : ℕ) → List A → Run (List A)
  visit index zero i values = ok []
  visit index (suc n) i values = do
    x ← load values (index i)
    rest ← visit index n (suc i) values
    ok (x ∷ rest)
