-- ===== src/Fpqueue.antt =====
-- dsa/fpqueue.h: a priority queue of fixed capacity, a binary max-heap in the array that ends its
-- struct. A function that changes `*self` returns the new struct; `assert(self)` has no counterpart,
-- every other `assert` is a test that faults. The two sifts run on fuel.
pub mod Order
pub mod Swap
pub mod Upheap
pub mod Downheap
pub mod Invariant
pub mod Calls
pub mod Spec
pub mod Refine
pub mod Transfer
pub mod Sort
mod Tests
use mathlib.Core.List.{map}
use dsa_c.Prelude.{
  ℕ, zero, suc, ◌+◌, ◌/◌, ◌≡◌, Bool, true, false, not, Option, none, some, List, [], ◌∷◌, ltb, leb,
  ◌==◌, ◌||◌, if◌then◌else◌,
}
use dsa_c.Prelude.Array
use dsa_c.Prelude.Array.{Zeroed}
use dsa_c.Run.{Run, ok, fault, out_of_fuel, assert, load, store, ◌>>=◌, ◌>>◌}
use dsa_c.Word.{add32, sub32, mul32}
use dsa_c.Flexible.{Layout, calc_sizeof, calc_sizeof_overflows, room_for, copy_loop, visit}

pub record Element (A : Type 0) : Type 0 where
  pub priority : ℕ
  pub value : A

instance pub Zeroed-Element : {A : Type 0} ⦃z : Zeroed A⦄ → Zeroed (Element A)
Zeroed-Element ⦃z⦄ = record { zero_value = record { priority = 0; value = z.zero_value } }

pub record Fpqueue (A : Type 0) : Type 0 where
  pub count : ℕ
  pub capacity : ℕ
  pub elements : List (Element A)

abbrev pub left_child : ℕ → ℕ
left_child index = add32 (mul32 2 index) 1

abbrev pub right_child : ℕ → ℕ
right_child index = add32 (mul32 2 index) 2

abbrev pub parent : ℕ → ℕ
parent index = sub32 index 1 / 2

module _ {A : Type 0} where
  -- `temp = elements[i]; elements[i] = elements[j]; elements[j] = temp;`
  unfoldable pub swap : List (Element A) → ℕ → ℕ → Run (List (Element A))
  swap elements i j = do
    temp ← load elements i
    other ← load elements j
    elements' ← store elements i other
    store elements' j temp

  -- the loop of `upheap`; each round at least halves `index`, so `index` rounds are enough
  unfoldable pub upheap_loop : (fuel : ℕ) → List (Element A) → ℕ → Run (List (Element A))
  upheap_loop zero elements index = if index == 0 then ok elements else fault out_of_fuel
  upheap_loop (suc fuel) elements index = if index == 0 then ok elements else (do
    above ← load elements (parent index)
    below ← load elements index
    if leb below.priority above.priority then ok elements else (do
      elements' ← swap elements index (parent index)
      upheap_loop fuel elements' (parent index)))

  unfoldable pub upheap : Fpqueue A → ℕ → Run (Fpqueue A)
  upheap self index = do
    assert (ltb index self.count)
    elements ← upheap_loop index self.elements index
    ok (record self { elements = elements })

  -- `child < count && elements[child].priority > elements[largest].priority`
  unfoldable pub is_larger : List (Element A) → ℕ → ℕ → ℕ → Run Bool
  is_larger elements count child largest =
      if ltb child count
      then (do x ← load elements child; y ← load elements largest; ok (ltb y.priority x.priority))
      else ok false

  -- which of a node and its two children has the largest priority
  unfoldable pub largest_of : List (Element A) → ℕ → ℕ → Run ℕ
  unfolding is_larger
  largest_of elements count index = do
    left ← is_larger elements count (left_child index) index
    let largest = if left then left_child index else index
    right ← is_larger elements count (right_child index) largest
    ok (if right then right_child index else largest)

  -- `downheap` and its call of itself; `index` grows with each call and stays below `count`, so
  -- one more than `count` calls are enough
  unfoldable pub downheap_loop : (fuel : ℕ) → List (Element A) → ℕ → ℕ → Run (List (Element A))
  downheap_loop zero elements count index = fault out_of_fuel
  downheap_loop (suc fuel) elements count index = do
    assert (count == 0 || ltb index count)
    largest ← largest_of elements count index
    if largest == index then ok elements else (do
      elements' ← swap elements index largest
      downheap_loop fuel elements' count largest)

  unfoldable pub downheap : Fpqueue A → ℕ → Run (Fpqueue A)
  downheap self index = do
    elements ← downheap_loop (suc self.count) self.elements self.count index
    ok (record self { elements = elements })

  unfoldable pub init : Fpqueue A → ℕ → Fpqueue A
  init self capacity = record self { count = 0; capacity = capacity }

  -- a block of `size` zero bytes, read as the struct
  unfoldable pub zeroed_block : ⦃z : Zeroed A⦄ → Layout → ℕ → Fpqueue A
  zeroed_block ⦃z⦄ l size = record {
    count = 0;
    capacity = 0;
    elements = Array.replicate (room_for l size) (record { priority = 0; value = z.zero_value });
  }

  -- `granted` says whether `calloc` finds the memory.
  unfoldable pub create : ⦃z : Zeroed A⦄ → Layout → Bool → ℕ → Option (Fpqueue A)
  unfolding zeroed_block init
  create l granted capacity =
      if capacity == 0 || calc_sizeof_overflows l capacity
      then none
      else let self = zeroed_block l (calc_sizeof l capacity) in
        if granted then some (init self capacity) else none

  unfoldable pub is_empty : Fpqueue A → Bool
  is_empty self = self.count == 0

  unfoldable pub is_full : Fpqueue A → Bool
  is_full self = self.count == self.capacity

  unfoldable pub get_max : Fpqueue A → Run A
  unfolding is_empty
  get_max self = do assert (not (is_empty self)); first ← load self.elements 0; ok first.value

  unfoldable pub peek : Fpqueue A → Run A
  unfolding get_max
  peek self = get_max self

  unfoldable pub pop_max : Fpqueue A → Run (A × Fpqueue A)
  unfolding is_empty downheap
  pop_max self = do
    assert (not (is_empty self))
    first ← load self.elements 0
    last ← load self.elements (sub32 self.count 1)
    elements ← store self.elements 0 last
    self' ← downheap (record self { count = sub32 self.count 1; elements = elements }) 0
    ok (first.value, self')

  unfoldable pub push : Fpqueue A → A → ℕ → Run (Fpqueue A)
  unfolding is_full upheap
  push self value priority = do
    assert (not (is_full self))
    elements ← store self.elements self.count (record { priority = priority; value = value })
    upheap (record self { count = add32 self.count 1; elements = elements }) self.count

  unfoldable pub clear : Fpqueue A → Fpqueue A
  clear self = record self { count = 0 }

  unfoldable pub copy : Fpqueue A → Fpqueue A → Run (Fpqueue A)
  unfolding is_empty
  copy dest src = do
    assert (leb src.count dest.capacity)
    assert (is_empty dest)
    elements ← copy_loop (λ i. i) src.count 0 src.elements dest.elements
    ok (record dest { count = src.count; elements = elements })

  -- the values that `fpqueue_for_each` visits, in the order of the array
  unfoldable pub for_each : Fpqueue A → Run (List A)
  for_each self = do
    elements ← visit (λ i. i) self.count 0 self.elements
    ok (map (λ e. e.value) elements)
