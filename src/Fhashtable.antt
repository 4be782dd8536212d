-- ===== src/Fhashtable.antt =====
-- dsa/fhashtable.h: a hash table of fixed capacity with Robin Hood hashing. Each slot holds how far
-- it is from the place its key hashes to, or the mark of an empty slot. KEY_IS_EQUAL and
-- HASH_FUNCTION are parameters, as the includer names them. A function that changes `*self` returns
-- the new struct; a pointer to a value is the index of its slot. The loops run on fuel: a round more
-- than there are slots.
mod Tests
use dsa_c.Prelude.{
  ℕ, zero, suc, ◌+◌, ◌/◌, bit_and, Bool, true, false, not, Option, none, some, List, [], ◌∷◌, ltb,
  leb, ◌==◌, ◌&&◌, ◌||◌, if◌then◌else◌,
}
use dsa_c.Prelude.Array
use dsa_c.Prelude.Array.{Zeroed}
use dsa_c.Run.{Run, ok, fault, out_of_fuel, assert, load, store, ◌>>=◌, ◌>>◌}
use dsa_c.Word.{uint32_max, add32, sub32}
use dsa_c.Pow2.{is_pow2, round_up_pow2_32}
use dsa_c.Flexible.{Layout, calc_sizeof, calc_sizeof_overflows, room_for, copy_loop}

abbrev pub empty_slot_offset : ℕ
empty_slot_offset = uint32_max

pub record Slot (K V : Type 0) : Type 0 where
  pub offset : ℕ
  pub key : K
  pub value : V

pub record Fhashtable (K V : Type 0) : Type 0 where
  pub count : ℕ
  pub capacity : ℕ
  pub slots : List (Slot K V)

module _ {K V : Type 0} where
  abbrev pub not_empty : Slot K V → Bool
  not_empty slot = not (slot.offset == empty_slot_offset)

  abbrev pub emptied : Slot K V → Slot K V
  emptied slot = record slot { offset = empty_slot_offset }

  -- `for (i = i; i < i + rounds; i++) slots[i].offset = EMPTY;`
  unfoldable pub empty_loop : (rounds i : ℕ) → List (Slot K V) → Run (List (Slot K V))
  empty_loop zero i slots = ok slots
  empty_loop (suc n) i slots = do
    slot ← load slots i
    slots' ← store slots i (emptied slot)
    empty_loop n (suc i) slots'

  unfoldable pub init : Fhashtable K V → ℕ → Run (Fhashtable K V)
  unfolding empty_loop
  init self pow2_capacity = do
    assert (is_pow2 pow2_capacity)
    slots ← empty_loop pow2_capacity 0 self.slots
    ok (record { count = 0; capacity = pow2_capacity; slots = slots })

  -- `granted` says whether `calloc` finds the memory, `zero_slot` is a slot of zero bytes.
  unfoldable pub create :
      ⦃z : Zeroed (Slot K V)⦄ → Layout → Bool → ℕ → Run (Option (Fhashtable K V))
  unfolding init
  create ⦃z⦄ l granted min_capacity =
      if min_capacity == 0 || ltb (uint32_max / 2 + 1) min_capacity then ok none else (do
        capacity ← round_up_pow2_32 min_capacity
        let slots = Array.replicate (room_for l (calc_sizeof l capacity)) z.zero_value
        if calc_sizeof_overflows l capacity
            then ok none
            else if granted
            then (do
              self ← init (record { count = 0; capacity = 0; slots = slots }) capacity
              ok (some self))
            else ok none)

  unfoldable pub is_empty : Fhashtable K V → Bool
  is_empty self = self.count == 0

  unfoldable pub is_full : Fhashtable K V → Bool
  is_full self = self.count == self.capacity

  -- `x & index_mask`
  unfoldable pub masked : Fhashtable K V → ℕ → ℕ
  masked self x = bit_and x (sub32 self.capacity 1)

  unfoldable pub clear : Fhashtable K V → Run (Fhashtable K V)
  unfolding empty_loop
  clear self = do
    slots ← empty_loop self.capacity 0 self.slots
    ok (record self { count = 0; slots = slots })

  unfoldable pub copy : Fhashtable K V → Fhashtable K V → Run (Fhashtable K V)
  copy dest src = do
    assert (leb src.capacity dest.capacity)
    assert (dest.count == 0)
    slots ← copy_loop (λ i. i) src.capacity 0 src.slots dest.slots
    ok (record dest { count = src.count; slots = slots })

  -- the loop of `backshift`; `slots[index] = slots[next_index]` and `offset--` are one write
  unfoldable pub backshift_loop :
      (fuel : ℕ) → Fhashtable K V → ℕ → List (Slot K V) → Run (List (Slot K V))
  unfolding masked
  backshift_loop zero self index slots = fault out_of_fuel
  backshift_loop (suc fuel) self index slots = do
    let next_index = masked self (add32 index 1)
    slot ← load slots next_index
    if not (not_empty slot && ltb 0 slot.offset) then ok slots else (do
      slots₁ ← store slots index (record slot { offset = sub32 slot.offset 1 })
      moved ← load slots₁ next_index
      slots₂ ← store slots₁ next_index (emptied moved)
      backshift_loop fuel self next_index slots₂)

  module _ (key_is_equal : K → K → Bool) (hash_function : K → ℕ) where
    -- the loop that `contains_key`, `get_value` and `get_value_mut` repeat
    unfoldable pub find_loop :
        (fuel : ℕ) → Fhashtable K V → K → (index max_possible_offset : ℕ) → Run (Option ℕ)
    unfolding masked
    find_loop zero self key index offset = fault out_of_fuel
    find_loop (suc fuel) self key index offset = do
      slot ← load self.slots index
      if not (not_empty slot && leb offset slot.offset)
          then ok none
          else if key_is_equal slot.key key
          then ok (some index)
          else find_loop fuel self key (masked self (add32 index 1)) (add32 offset 1)

    unfoldable pub get_value_mut : Fhashtable K V → K → Run (Option ℕ)
    unfolding find_loop masked
    get_value_mut self key =
        find_loop (suc self.capacity) self key (masked self (hash_function key)) 0

    unfoldable pub search : Fhashtable K V → K → Run (Option ℕ)
    unfolding get_value_mut
    search self key = get_value_mut self key

    unfoldable pub contains_key : Fhashtable K V → K → Run Bool
    unfolding find_loop masked
    contains_key self key = do
      found ← find_loop (suc self.capacity) self key (masked self (hash_function key)) 0
      ok (is_some found)
      where
        is_some : Option ℕ → Bool
        is_some none = false
        is_some (some _) = true

    unfoldable pub get_value : Fhashtable K V → K → V → Run V
    unfolding find_loop masked
    get_value self key default_value = do
      found ← find_loop (suc self.capacity) self key (masked self (hash_function key)) 0
      value_at found
      where
        value_at : Option ℕ → Run V
        value_at none = ok default_value
        value_at (some index) = do slot ← load self.slots index; ok slot.value

    -- the loop of `insert`, up to the empty slot and the write into it
    unfoldable pub insert_loop :
        (fuel : ℕ) → Fhashtable K V → ℕ → Slot K V → List (Slot K V) → Run (List (Slot K V))
    unfolding masked
    insert_loop zero self index current slots = fault out_of_fuel
    insert_loop (suc fuel) self index current slots = do
      slot ← load slots index
      let swaps = ltb slot.offset current.offset
      let carried = if swaps then slot else current
      if not (not_empty slot) then store slots index current else (do
        slots' ← if swaps then store slots index current else ok slots
        insert_loop fuel self (masked self (add32 index 1))
            (record carried { offset = add32 carried.offset 1 }) slots')

    unfoldable pub insert : Fhashtable K V → K → V → Run (Fhashtable K V)
    unfolding contains_key insert_loop masked
    insert self key value = do
      present ← contains_key self key
      assert (not present)
      slots ←
          insert_loop (suc self.capacity) self (masked self (hash_function key))
            (record { offset = 0; key = key; value = value }) self.slots
      ok (record self { count = add32 self.count 1; slots = slots })

    -- the loop of `update`; the answer says whether an empty slot was filled
    unfoldable pub update_loop :
        (fuel : ℕ) → Fhashtable K V → ℕ → Slot K V → List (Slot K V) → Run (Bool × List (Slot K V))
    unfolding masked
    update_loop zero self index current slots = fault out_of_fuel
    update_loop (suc fuel) self index current slots = do
      slot ← load slots index
      let swaps = ltb slot.offset current.offset
      let carried = if swaps then slot else current
      if not (not_empty slot)
          then (do slots' ← store slots index current; ok (true, slots'))
          else if current.offset == slot.offset && key_is_equal current.key slot.key
          then (do
            slots' ← store slots index (record slot { value = current.value })
            ok (false, slots'))
          else (do
            slots' ← if swaps then store slots index current else ok slots
            update_loop fuel self (masked self (add32 index 1))
                (record carried { offset = add32 carried.offset 1 }) slots')

    unfoldable pub update : Fhashtable K V → K → V → Run (Fhashtable K V)
    unfolding update_loop masked
    update self key value = do
      (filled, slots) ←
          update_loop (suc self.capacity) self (masked self (hash_function key))
            (record { offset = 0; key = key; value = value }) self.slots
      ok (record self { count = if filled then add32 self.count 1 else self.count; slots = slots })

    -- the loop of `delete`, up to the slot of the key
    unfoldable pub delete_loop :
        (fuel : ℕ) → Fhashtable K V → K → (index max_possible_offset : ℕ) → Run (Option ℕ)
    unfolding masked
    delete_loop zero self key index offset = fault out_of_fuel
    delete_loop (suc fuel) self key index offset = do
      slot ← load self.slots index
      if not (not_empty slot && leb offset slot.offset)
          then ok none
          else if not (key_is_equal key slot.key)
          then delete_loop fuel self key (masked self (add32 index 1)) (add32 offset 1)
          else ok (some index)

    unfoldable pub delete : Fhashtable K V → K → Run (Bool × Fhashtable K V)
    unfolding delete_loop backshift_loop masked
    delete self key = do
      found ← delete_loop (suc self.capacity) self key (masked self (hash_function key)) 0
      take_out found
      where
        take_out : Option ℕ → Run (Bool × Fhashtable K V)
        take_out none = ok (false, self)
        take_out (some index) = do
          slot ← load self.slots index
          slots ← store self.slots index (emptied slot)
          slots' ← backshift_loop (suc self.capacity) self index slots
          ok (true, record self { count = sub32 self.count 1; slots = slots' })

  -- the keys and values that `fhashtable_for_each` visits, in the order of the slots
  unfoldable pub for_each_loop : (rounds i : ℕ) → List (Slot K V) → Run (List (K × V))
  for_each_loop zero i slots = ok []
  for_each_loop (suc n) i slots = do
    slot ← load slots i
    rest ← for_each_loop n (suc i) slots
    ok (if not_empty slot then (slot.key, slot.value) ∷ rest else rest)

  unfoldable pub for_each : Fhashtable K V → Run (List (K × V))
  unfolding for_each_loop
  for_each self = for_each_loop self.capacity 0 self.slots
