-- ===== src/Fqueue/Invariant.antt =====
-- The invariant of a queue's struct, and its view as a list.
use native.Mathlib.Nat.{mod-lt, mod-eq_of_lt}
use mathlib.Core.Path.{subst}
use dsa_c.Prelude.{
  ◌||◌, ◌/◌, Bool-cases, some-inj, none-ne-some, inl, inr, ℕ, ◌+◌, ◌*◌, ◌%◌, ◌^◌, ◌≤◌, ◌<◌, ◌≡◌,
  refl, sym, ◌∙◌, Bool, true, false, ◌&&◌, none, some, List, [], arith, ltb, leb, ◌==◌,
  if◌then◌else◌,
}
use dsa_c.Prelude.Array
use dsa_c.Prelude.Array.{Zeroed, length}
use dsa_c.Prelude.Bits.{two-pow-pos}
use dsa_c.Prelude.Ring.{mask-mod}
use dsa_c.Run.{ok, ok-injective, Returns-inv}
use dsa_c.Word.{uint32_max}
use dsa_c.Pow2.{is_pow2}
use dsa_c.Pow2.IsPow2.{PowerOfTwo, is_pow2_iff}
use dsa_c.Pow2.RoundUp.{IsRoundUp, round_up_pow2_32_lem}
use dsa_c.Flexible.{Layout}
use dsa_c.Flexible.Size.{room_for-calc_sizeof, calc_sizeof_overflows-exact}
use dsa_c.Flexible.Loop.{gather}
use dsa_c.Fqueue.{Fqueue, masked, zeroed_block, create, init}

-- `k` is the capacity's exponent.
pub record IsValid {A : Type 0} (q : Fqueue A) : Type 0 where
  pub exponent : ℕ
  pub power : q.capacity ≡ 2 ^ exponent
  pub small : q.capacity ≤ 2 ^ 31
  pub allocated : q.capacity ≤ length q.values
  pub bounded : q.count ≤ q.capacity
  pub begin_inside : q.begin_index < q.capacity
  pub end_follows : q.end_index ≡ (q.begin_index + q.count) % q.capacity

module _ {A : Type 0} (q : Fqueue A) (v : IsValid q) where
  pub masked-mod : (x : ℕ) → masked q x ≡ x % q.capacity
  unfolding masked
  masked-mod x = mask-mod q.capacity v.exponent v.power v.small x

  pub capacity-pos : 0 < q.capacity
  capacity-pos = omega (arith, v.power, two-pow-pos v.exponent)

  pub end_inside : q.end_index < q.capacity
  end_inside =
      omega (arith, v.end_follows, capacity-pos, mod-lt (q.begin_index + q.count) capacity-pos)

-- where the value is that is `i` behind the front
abbrev pub place : {A : Type 0} → Fqueue A → ℕ → ℕ
place q i = (q.begin_index + i) % q.capacity

module _ {A : Type 0} ⦃z : Zeroed A⦄ where
  abbrev pub view : Fqueue A → List A
  view q = gather (place q) q.count 0 q.values

  -- For a minimum from 1 to 2^31, create rounds it up to the least power of two and gives a zeroed
  -- queue of that capacity if its size fits 32 bits and calloc finds the memory, otherwise NULL.
  pub queue_create_lem :
      (l : Layout) (granted : Bool) (min_capacity : ℕ)
      → 0 < min_capacity
      → min_capacity ≤ 2 ^ 31
      → (capacity : ℕ) × IsRoundUp min_capacity capacity
        × (create l granted min_capacity
            ≡ ok (
                if leb (l.offset + capacity * l.elem_size) uint32_max && granted
                then some (record {
                  begin_index = 0;
                  end_index = 0;
                  count = 0;
                  capacity = capacity;
                  values = Array.replicate capacity z.zero_value;
                })
                else none))
  unfolding create zeroed_block init
  queue_create_lem l granted m h h' =
      let (c, e, (up, small)) = Returns-inv (round_up_pow2_32_lem m h h') in
      let accepted : (m == 0 || ltb (uint32_max / 2 + 1) m) ≡ false = ground arith in
      let fits : c ≤ uint32_max = omega arith in
      let power : is_pow2 c ≡ true = (is_pow2_iff c (omega arith)).1 up.power in
      (
        c,
        up,
        rw (accepted, e, power, calc_sizeof_overflows-exact l c fits)
            (ground (arith, room_for-calc_sizeof l c fits, calc_sizeof_overflows-exact l c fits)),
      )

  fresh-IsValid :
      (c : ℕ)
      → PowerOfTwo c
      → c ≤ 2 ^ 31
      → IsValid (record {
        begin_index = 0;
        end_index = 0;
        count = 0;
        capacity = c;
        values = Array.replicate c z.zero_value;
      })
  fresh-IsValid c (k, e) h =
      let pos : 0 < c = omega (arith, e, two-pow-pos k) in
      record {
        exponent = k;
        power = e;
        small = h;
        allocated = omega (arith, Array.length-replicate c z.zero_value);
        bounded = omega arith;
        begin_inside = pos;
        end_follows = sym (mod-eq_of_lt pos);
      }

  -- What create gives for a minimum from 1 to 2^31 is a valid empty queue with room for the
  -- minimum.
  pub queue_create-IsValid :
      (l : Layout) (granted : Bool) (min_capacity : ℕ) {q : Fqueue A}
      → 0 < min_capacity
      → min_capacity ≤ 2 ^ 31
      → create l granted min_capacity ≡ ok (some q)
      → IsValid q × (view q ≡ []) × (min_capacity ≤ q.capacity)
  queue_create-IsValid l granted m {q} h h' e =
      let (c, up, made) = queue_create_lem l granted m h h' in
      let outcome = sym made ∙ e in
      elim (Bool-cases (leb (l.offset + c * l.elem_size) uint32_max && granted)) [
        | inl yes_made ↦
            subst (λ q. IsValid q × (view q ≡ []) × (m ≤ q.capacity))
              (some-inj (ok-injective (rw yes_made at outcome)))
              (fresh-IsValid c up.power (up.least 31 h'), refl, up.above)
        | inr null ↦ absurd (none-ne-some (ok-injective (rw null at outcome)))
      ]
