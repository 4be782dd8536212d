-- ===== src/Fstack/Tests.antt =====
-- Runs of the stack on small inputs, and the instances of its theorems at them.
use mathlib.Core.List.{reverse}
use dsa_c.Prelude.{
  ℕ, ◌≡◌, ◌*◌, ◌+◌, refl, true, some, none, List, [], ◌∷◌, arith, ltb, leb, ◌&&◌, if◌then◌else◌,
}
use dsa_c.Prelude.Array
use dsa_c.Prelude.Array.{Zeroed}
use dsa_c.Run.{ok, fault, assertion, load, store}
use dsa_c.Word.{uint32_max}
use dsa_c.Machine
use dsa_c.Machine.{seen}
use dsa_c.Flexible.{Layout, calc_sizeof, calc_sizeof_overflows, room_for}
use dsa_c.Fstack.{
  Fstack, init, zeroed_block, create, is_empty, is_full, at, get_bottom, push, pop, for_each,
  for_each_reverse,
}
use dsa_c.Fstack.Invariant.{IsValid, view, stack_create_lem}
use dsa_c.Fstack.Spec
use dsa_c.Fstack.Spec.{Op, Reply, done, value, flag}
use dsa_c.Fstack.Refine.{step, stack_run_refines}
use dsa_c.Fstack.Transfer.{stack_for_each_lem}

instance Zeroed-ℕ : Zeroed ℕ
Zeroed-ℕ = record { zero_value = 0 }

abbrev two : Fstack ℕ
two = record { count = 2; capacity = 3; values = 10 ∷ 20 ∷ 0 ∷ [] }

abbrev one : Fstack ℕ
one = record { count = 1; capacity = 3; values = 10 ∷ 20 ∷ 0 ∷ [] }

abbrev vacant : Fstack ℕ
vacant = record { count = 0; capacity = 2; values = 0 ∷ 0 ∷ [] }

two-IsValid : IsValid two
two-IsValid = record { bounded = omega arith; allocated = omega arith; small = omega arith }

vacant-IsValid : IsValid vacant
vacant-IsValid = record { bounded = omega arith; allocated = omega arith; small = omega arith }

abbrev words : Layout
words = record { offset = 8; elem_size = 4; offset_fits = omega arith; elem_size_pos = omega arith }

abbrev calls : List (Op ℕ)
calls = Op.push 30 ∷ Op.full ∷ Op.pop ∷ Op.at 1 ∷ Op.bottom ∷ Op.pop ∷ []

run-two :
    Machine.run step two calls
    ≡ ok (
      done ∷ flag true ∷ value 30 ∷ value 10 ∷ value 10 ∷ value 20 ∷ [],
      record { count = 1; capacity = 3; values = 10 ∷ 20 ∷ 30 ∷ [] },
    )
unfolding Machine.run step push pop at get_bottom is_full is_empty load store
run-two = refl

push_on_full :
    push {A = ℕ} (record { count = 1; capacity = 1; values = 5 ∷ [] }) 6 ≡ fault assertion
unfolding push is_full
push_on_full = refl

create_two : create {A = ℕ} words true 2 ≡ some vacant
unfolding create init zeroed_block calc_sizeof calc_sizeof_overflows room_for Array.replicate
    Zeroed-ℕ
create_two = refl

pop-two : step two Op.pop ≡ ok (value 20, one)
unfolding step pop is_empty load
pop-two = refl

stack_run_refines_example :
    seen view (Machine.run step two calls) ≡ Machine.run (Spec.step 3) (view two) calls
stack_run_refines_example = stack_run_refines calls two two-IsValid

stack_create_lem_example : create {A = ℕ} words true 2 ≡ (
    if ltb 0 2 && (leb (8 + 2 * 4) uint32_max && true)
    then some (record { count = 0; capacity = 2; values = Array.replicate 2 0 })
    else none)
unfolding Zeroed-ℕ
stack_create_lem_example = stack_create_lem words true 2 (omega arith)

stack_for_each_lem_example :
    (for_each two ≡ ok (view two)) × (for_each_reverse two ≡ ok (reverse (view two)))
stack_for_each_lem_example = stack_for_each_lem two two-IsValid
