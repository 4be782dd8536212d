-- ===== src/Fstack/Invariant.antt =====
-- The invariant of a stack's struct, and its view as a list.
use dsa_c.Prelude.{
  ℕ, zero, suc, ◌+◌, ◌-◌, ◌≤◌, ◌<◌, ◌≡◌, refl, ap, ◌∙◌, Bool, none, some, ◌&&◌, ◌*◌, List, [], ◌∷◌,
  arith, ltb, leb, if◌then◌else◌,
}
use dsa_c.Prelude.Array
use dsa_c.Prelude.Array.{Zeroed, length}
use dsa_c.Word.{uint32_max}
use dsa_c.Flexible.{Layout}
use dsa_c.Flexible.Size.{room_for-calc_sizeof, calc_sizeof_overflows-exact}
use dsa_c.Fstack.{Fstack, zeroed_block, create, init}

pub record IsValid {A : Type 0} (s : Fstack A) : Type 0 where
  pub bounded : s.count ≤ s.capacity
  pub allocated : s.capacity ≤ length s.values
  pub small : s.capacity ≤ uint32_max

module _ {A : Type 0} ⦃z : Zeroed A⦄ where
  -- the first `n` values, the last of them in front
  abbrev pub top_down : List A → ℕ → List A
  top_down values zero = []
  top_down values (suc n) = Array.get! values n ∷ top_down values n

  abbrev pub view : Fstack A → List A
  view s = top_down s.values s.count

  pub length-top_down : (values : List A) (n : ℕ) → length (top_down values n) ≡ n
  length-top_down values zero = refl
  length-top_down values (suc n) = ap suc (length-top_down values n)

  pub top_down-ext :
      (xs ys : List A) (n : ℕ)
      → ((j : ℕ) → j < n → Array.get! xs j ≡ Array.get! ys j)
      → top_down xs n ≡ top_down ys n
  top_down-ext xs ys zero h = refl
  top_down-ext xs ys (suc n) h =
      rw (h n (omega arith), top_down-ext xs ys n (λ j p. h j (omega arith)))

  pub get_elem?-top_down :
      (values : List A) (n i : ℕ)
      → i < n
      → Array.get_elem? (top_down values n) i ≡ some (Array.get! values (n - 1 - i))
  get_elem?-top_down values zero i h = absurd (omega arith)
  get_elem?-top_down values (suc n) zero h = ap (λ k. some (Array.get! values k)) (omega arith)
  get_elem?-top_down values (suc n) (suc i) h =
      get_elem?-top_down values n i (omega arith)
      ∙ ap (λ k. some (Array.get! values k)) (omega arith)

  -- For any 32-bit capacity, create gives a zeroed stack of that capacity if it is not 0, its size
  -- fits 32 bits and calloc finds the memory, otherwise NULL.
  pub stack_create_lem :
      (l : Layout) (granted : Bool) (capacity : ℕ)
      → capacity ≤ uint32_max
      → create l granted capacity ≡ (
          if ltb 0 capacity && leb (l.offset + capacity * l.elem_size) uint32_max && granted
          then some (record {
            count = 0;
            capacity = capacity;
            values = Array.replicate capacity z.zero_value;
          })
          else none)
  unfolding create zeroed_block init
  stack_create_lem l granted capacity h =
      ground (arith, calc_sizeof_overflows-exact l capacity h, room_for-calc_sizeof l capacity h)

  -- What create gives for a 32-bit capacity is a valid empty stack of that capacity.
  pub stack_create-IsValid :
      (l : Layout) (granted : Bool) (capacity : ℕ) {s : Fstack A}
      → capacity ≤ uint32_max
      → create l granted capacity ≡ some s
      → IsValid s × (view s ≡ []) × (s.capacity ≡ capacity)
  stack_create-IsValid l granted capacity {s} h e =
      ground
        (arith, stack_create_lem l granted capacity h, Array.length-replicate capacity z.zero_value)
