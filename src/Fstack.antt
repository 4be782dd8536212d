-- ===== src/Fstack.antt =====
-- dsa/fstack.h: a stack of fixed capacity in the array that ends its struct. A function that changes
-- `*self` returns the new struct. A NULL pointer has no counterpart here, so `assert(self)` is left
-- out; every other `assert` is a test that faults.
pub mod Invariant
pub mod Spec
pub mod Refine
pub mod Transfer
mod Tests
use dsa_c.Prelude.{
  ℕ, zero, suc, ◌≤◌, ◌≡◌, Bool, not, Option, none, some, List, [], ◌∷◌, ltb, leb, ◌==◌, ◌||◌,
  if◌then◌else◌,
}
use dsa_c.Prelude.Array
use dsa_c.Prelude.Array.{Zeroed}
use dsa_c.Run.{Run, ok, assert, load, store, ◌>>=◌, ◌>>◌}
use dsa_c.Word.{add32, sub32}
use dsa_c.Flexible.{Layout, calc_sizeof, calc_sizeof_overflows, room_for, copy_loop, visit}

pub record Fstack (A : Type 0) : Type 0 where
  pub count : ℕ
  pub capacity : ℕ
  pub values : List A

module _ {A : Type 0} where
  unfoldable pub init : Fstack A → ℕ → Fstack A
  init self capacity = record self { count = 0; capacity = capacity }

  -- a block of `size` zero bytes, read as the struct
  unfoldable pub zeroed_block : ⦃z : Zeroed A⦄ → Layout → ℕ → Fstack A
  zeroed_block ⦃z⦄ l size = record {
    count = 0;
    capacity = 0;
    values = Array.replicate (room_for l size) z.zero_value;
  }

  -- `granted` says whether `calloc` finds the memory.
  unfoldable pub create : ⦃z : Zeroed A⦄ → Layout → Bool → ℕ → Option (Fstack A)
  unfolding zeroed_block init
  create l granted capacity =
      if capacity == 0 || calc_sizeof_overflows l capacity
      then none
      else let self = zeroed_block l (calc_sizeof l capacity) in
        if granted then some (init self capacity) else none

  unfoldable pub is_empty : Fstack A → Bool
  is_empty self = self.count == 0

  unfoldable pub is_full : Fstack A → Bool
  is_full self = self.count == self.capacity

  unfoldable pub at : Fstack A → ℕ → Run A
  at self index = do
    assert (ltb index self.count)
    load self.values (sub32 (sub32 self.count 1) index)

  unfoldable pub get_top : Fstack A → Run A
  unfolding is_empty
  get_top self = do assert (not (is_empty self)); load self.values (sub32 self.count 1)

  unfoldable pub get_bottom : Fstack A → Run A
  unfolding is_empty
  get_bottom self = do assert (not (is_empty self)); load self.values 0

  unfoldable pub peek : Fstack A → Run A
  unfolding get_top
  peek self = get_top self

  unfoldable pub push : Fstack A → A → Run (Fstack A)
  unfolding is_full
  push self value = do
    assert (not (is_full self))
    values ← store self.values self.count value
    ok (record self { count = add32 self.count 1; values = values })

  unfoldable pub pop : Fstack A → Run (A × Fstack A)
  unfolding is_empty
  pop self = do
    assert (not (is_empty self))
    let count = sub32 self.count 1
    value ← load self.values count
    ok (value, record self { count = count })

  unfoldable pub clear : Fstack A → Fstack A
  clear self = record self { count = 0 }

  unfoldable pub copy : Fstack A → Fstack A → Run (Fstack A)
  unfolding is_empty
  copy dest src = do
    assert (leb src.count dest.capacity)
    assert (is_empty dest)
    values ← copy_loop (λ i. i) src.count 0 src.values dest.values
    ok (record dest { count = src.count; values = values })

  -- the values that `fstack_for_each` visits: from the top to the bottom
  unfoldable pub for_each : Fstack A → Run (List A)
  for_each self = visit (λ i. sub32 (sub32 self.count i) 1) self.count 0 self.values

  -- the values that `fstack_for_each_reverse` visits: from the bottom to the top
  unfoldable pub for_each_reverse : Fstack A → Run (List A)
  for_each_reverse self = visit (λ i. i) self.count 0 self.values
