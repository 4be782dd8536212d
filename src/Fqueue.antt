-- ===== src/Fqueue.antt =====
-- dsa/fqueue.h: a queue of fixed capacity, a ring in the array that ends its struct. The capacity is
-- a power of two, so that `& (capacity - 1)` goes round. A function that changes `*self` returns the
-- new struct; `assert(self)` has no counterpart, every other `assert` is a test that faults.
pub mod Invariant
pub mod Spec
pub mod Calls
pub mod Refine
pub mod Transfer
mod Tests
use dsa_c.Prelude.{
  ℕ, zero, suc, ◌/◌, ◌+◌, ◌-◌, ◌^◌, ◌≡◌, bit_and, Bool, true, not, Option, none, some, List, [],
  ◌∷◌, ltb, leb, ◌==◌, ◌||◌, if◌then◌else◌,
}
use dsa_c.Prelude.Array
use dsa_c.Prelude.Array.{Zeroed}
use dsa_c.Run.{Run, ok, assert, load, store, ◌>>=◌, ◌>>◌}
use dsa_c.Word.{uint32_max, add32, sub32}
use dsa_c.Pow2.{is_pow2, round_up_pow2_32}
use dsa_c.Flexible.{Layout, calc_sizeof, calc_sizeof_overflows, room_for, copy_loop, visit}

pub record Fqueue (A : Type 0) : Type 0 where
  pub begin_index : ℕ
  pub end_index : ℕ
  pub count : ℕ
  pub capacity : ℕ
  pub values : List A

module _ {A : Type 0} where
  unfoldable pub init : Fqueue A → ℕ → Run (Fqueue A)
  init self pow2_capacity = do
    assert (is_pow2 pow2_capacity)
    ok (record self { begin_index = 0; end_index = 0; count = 0; capacity = pow2_capacity })

  -- a block of `size` zero bytes, read as the struct
  unfoldable pub zeroed_block : ⦃z : Zeroed A⦄ → Layout → ℕ → Fqueue A
  zeroed_block ⦃z⦄ l size = record {
    begin_index = 0;
    end_index = 0;
    count = 0;
    capacity = 0;
    values = Array.replicate (room_for l size) z.zero_value;
  }

  -- `granted` says whether `calloc` finds the memory.
  unfoldable pub create : ⦃z : Zeroed A⦄ → Layout → Bool → ℕ → Run (Option (Fqueue A))
  unfolding zeroed_block init
  create l granted min_capacity =
      if min_capacity == 0 || ltb (uint32_max / 2 + 1) min_capacity then ok none else (do
        capacity ← round_up_pow2_32 min_capacity
        let fresh = zeroed_block l (calc_sizeof l capacity)
        if calc_sizeof_overflows l capacity
            then ok none
            else if granted
            then (do self ← init fresh capacity; ok (some self))
            else ok none)

  unfoldable pub is_empty : Fqueue A → Bool
  is_empty self = self.count == 0

  unfoldable pub is_full : Fqueue A → Bool
  is_full self = self.count == self.capacity

  -- `x & index_mask`
  unfoldable pub masked : Fqueue A → ℕ → ℕ
  masked self x = bit_and x (sub32 self.capacity 1)

  unfoldable pub at : Fqueue A → ℕ → Run A
  unfolding masked
  at self index = do
    assert (ltb index self.count)
    load self.values (masked self (add32 self.begin_index index))

  unfoldable pub get_front : Fqueue A → Run A
  unfolding is_empty
  get_front self = do assert (not (is_empty self)); load self.values self.begin_index

  unfoldable pub get_back : Fqueue A → Run A
  unfolding is_empty masked
  get_back self = do
    assert (not (is_empty self))
    load self.values (masked self (sub32 self.end_index 1))

  unfoldable pub peek : Fqueue A → Run A
  unfolding get_front
  peek self = get_front self

  unfoldable pub enqueue : Fqueue A → A → Run (Bool × Fqueue A)
  unfolding is_full masked
  enqueue self value = do
    assert (not (is_full self))
    values ← store self.values self.end_index value
    ok (
      true,
      record self {
        end_index = masked self (add32 self.end_index 1);
        count = add32 self.count 1;
        values = values;
      },
    )

  unfoldable pub dequeue : Fqueue A → Run (A × Fqueue A)
  unfolding is_empty masked
  dequeue self = do
    assert (not (is_empty self))
    value ← load self.values self.begin_index
    ok (
      value,
      record self {
        begin_index = masked self (add32 self.begin_index 1);
        count = sub32 self.count 1;
      },
    )

  unfoldable pub clear : Fqueue A → Fqueue A
  clear self = record self { begin_index = 0; end_index = 0; count = 0 }

  unfoldable pub copy : Fqueue A → Fqueue A → Run (Fqueue A)
  unfolding is_empty masked
  copy dest src = do
    assert (leb src.count dest.capacity)
    assert (is_empty dest)
    values ←
        copy_loop (λ i. masked src (add32 src.begin_index i)) src.count 0 src.values dest.values
    ok (record dest { begin_index = 0; end_index = src.count; count = src.count; values = values })

  -- the values that `fqueue_for_each` visits: from the front to the back
  unfoldable pub for_each : Fqueue A → Run (List A)
  unfolding masked
  for_each self = visit (λ i. masked self (add32 self.begin_index i)) self.count 0 self.values

  -- the values that `fqueue_for_each_reverse` visits: from the back to the front
  unfoldable pub for_each_reverse : Fqueue A → Run (List A)
  unfolding masked
  for_each_reverse self =
      visit (λ i. masked self (sub32 (sub32 self.end_index 1) i)) self.count 0 self.values
