-- ===== src/Fpqueue/Tests.antt =====
-- Runs of the priority queue on small inputs, and the instances of its theorems at them.
use mathlib.Core.List.{map}
use dsa_c.Prelude.{
  ℕ, zero, suc, ◌≡◌, ◌≤◌, ◌<◌, ◌-◌, ◌/◌, refl, true, some, List, [], ◌∷◌, Perm, arith,
}
use dsa_c.Prelude.Array
use dsa_c.Prelude.Array.{Zeroed}
use dsa_c.Run.{ok, Returns, load, store}
use dsa_c.Flexible.{Layout, calc_sizeof, calc_sizeof_overflows, room_for}
use dsa_c.Fpqueue.{
  Fpqueue, Element, Zeroed-Element, init, zeroed_block, create, is_empty, is_full, swap,
  upheap_loop, upheap, is_larger, largest_of, downheap_loop, downheap, pop_max, push, copy,
}
use dsa_c.Fpqueue.Swap.{prio}
use dsa_c.Fpqueue.Invariant.{IsValid, IsMax, contents}
use dsa_c.Fpqueue.Calls.{push_lem, pop_max_lem}
use dsa_c.Fpqueue.Spec.{Op}
use dsa_c.Fpqueue.Refine.{step, Agrees, bag_step-Agrees}
use dsa_c.Fpqueue.Sort.{pop_times, IsDescending, pop_times_sorts}
use dsa_c.Fpqueue.Transfer.{bag_copy_lem}

instance Zeroed-ℕ : Zeroed ℕ
Zeroed-ℕ = record { zero_value = 0 }

abbrev el : ℕ → ℕ → Element ℕ
el priority value = record { priority = priority; value = value }

abbrev three : Fpqueue ℕ
three = record { count = 3; capacity = 4; elements = el 9 100 ∷ el 5 200 ∷ el 7 300 ∷ el 0 0 ∷ [] }

abbrev vacant : Fpqueue ℕ
vacant = record { count = 0; capacity = 3; elements = el 0 0 ∷ el 0 0 ∷ el 0 0 ∷ [] }

three-IsValid : IsValid three
unfolding Array.get!
three-IsValid = record {
  bounded = omega arith;
  allocated = omega arith;
  small = omega arith;
  heap = in_heap;
}
  where
    in_heap : (j : ℕ) → 0 < j → j < 3 → prio three.elements j ≤ prio three.elements ((j - 1) / 2)
    in_heap zero pos inside = absurd (omega arith)
    in_heap (suc zero) pos inside = omega arith
    in_heap (suc (suc zero)) pos inside = omega arith
    in_heap (suc (suc (suc j))) pos inside = absurd (omega arith)

vacant-IsValid : IsValid vacant
vacant-IsValid = record {
  bounded = omega arith;
  allocated = omega arith;
  small = omega arith;
  heap = λ j pos inside. absurd (omega arith);
}

abbrev words : Layout
words = record { offset = 8; elem_size = 8; offset_fits = omega arith; elem_size_pos = omega arith }

sorted_three : pop_times 3 three ≡ ok (100 ∷ 300 ∷ 200 ∷ [])
unfolding pop_times pop_max is_empty downheap downheap_loop largest_of is_larger swap load store
sorted_three = refl

push_top :
    push three 400 8
    ≡ ok (record {
      count = 4;
      capacity = 4;
      elements = el 9 100 ∷ el 8 400 ∷ el 7 300 ∷ el 5 200 ∷ [];
    })
unfolding push is_full upheap upheap_loop swap load store
push_top = refl

create_three : create {A = ℕ} words true 3 ≡ some vacant
unfolding create init zeroed_block calc_sizeof calc_sizeof_overflows room_for Array.replicate
    Zeroed-ℕ
create_three = refl

bag_step-Agrees_example : Agrees three Op.pop_max (step three Op.pop_max)
bag_step-Agrees_example = bag_step-Agrees three Op.pop_max three-IsValid

pop_times_sorts_example :
    Returns
      (λ values.
        (sorted : List (Element ℕ)) × (values ≡ map (λ e. e.value) sorted)
        × Perm (contents three) sorted
        × IsDescending sorted)
      (pop_times 3 three)
pop_times_sorts_example = pop_times_sorts 3 three three-IsValid refl

push_lem_example :
    Returns
      (λ q'. IsValid q' × Perm (contents q') (el 8 400 ∷ contents three) × (q'.capacity ≡ 4))
      (push three 400 8)
push_lem_example = push_lem three 400 8 three-IsValid (omega arith)

pop_max_lem_example :
    Returns
      (λ (value, q').
        (m : Element ℕ) × (value ≡ m.value)
        × IsMax m (contents three)
        × Perm (contents three) (m ∷ contents q')
        × IsValid q'
        × (q'.capacity ≡ 4))
      (pop_max three)
pop_max_lem_example = pop_max_lem three three-IsValid (omega arith)

bag_copy_lem_example :
    Returns (λ d. IsValid d × (contents d ≡ contents three) × (d.capacity ≡ 3)) (copy vacant three)
bag_copy_lem_example = bag_copy_lem vacant three vacant-IsValid three-IsValid refl (omega arith)
