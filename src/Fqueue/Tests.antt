-- ===== src/Fqueue/Tests.antt =====
-- Runs of the queue on small inputs, and the instances of its theorems at them.
use dsa_c.Prelude.{
  ℕ, ◌≡◌, refl, true, false, some, none, List, [], ◌∷◌, arith, leb, ◌&&◌, if◌then◌else◌, ◌+◌, ◌*◌,
}
use mathlib.Core.List.{reverse}
use dsa_c.Prelude.Array
use dsa_c.Prelude.Array.{Zeroed, length}
use dsa_c.Run.{ok, fault, out_of_bounds, Returns, load, store, ◌>>=◌}
use dsa_c.Word.{uint32_max}
use dsa_c.Machine
use dsa_c.Machine.{seen}
use dsa_c.Flexible.{Layout, calc_sizeof, calc_sizeof_overflows, room_for, visit}
use dsa_c.Pow2.RoundUp.{IsRoundUp}
use dsa_c.Pow2.{is_pow2, round_up_pow2_32, clz_from, builtin_clz}
use dsa_c.Fqueue.{
  Fqueue, init, zeroed_block, create, is_empty, is_full, masked, at, get_back, enqueue, dequeue,
  copy, for_each, for_each_reverse,
}
use dsa_c.Fqueue.Invariant.{IsValid, view, queue_create_lem}
use dsa_c.Fqueue.Spec
use dsa_c.Fqueue.Spec.{Op, Reply, done, value, flag}
use dsa_c.Fqueue.Refine.{step, queue_step-IsValid, queue_run_refines}
use dsa_c.Fqueue.Transfer.{queue_for_each_lem, queue_copy_lem, copy_overruns}

instance Zeroed-ℕ : Zeroed ℕ
Zeroed-ℕ = record { zero_value = 0 }

-- 10 and 20, around the end of an array of four
abbrev wrapped : Fqueue ℕ
wrapped = record {
  begin_index = 3;
  end_index = 1;
  count = 2;
  capacity = 4;
  values = 20 ∷ 0 ∷ 0 ∷ 10 ∷ [];
}

abbrev vacant : Fqueue ℕ
vacant = record {
  begin_index = 2;
  end_index = 2;
  count = 0;
  capacity = 4;
  values = 0 ∷ 0 ∷ 0 ∷ 0 ∷ [];
}

abbrev pair : Fqueue ℕ
pair = record { begin_index = 0; end_index = 0; count = 0; capacity = 2; values = 0 ∷ 0 ∷ [] }

wrapped-IsValid : IsValid wrapped
wrapped-IsValid = record {
  exponent = 2;
  power = refl;
  small = omega arith;
  allocated = omega arith;
  bounded = omega arith;
  begin_inside = omega arith;
  end_follows = refl;
}

abbrev eight : Fqueue ℕ
eight = record {
  begin_index = 0;
  end_index = 0;
  count = 0;
  capacity = 8;
  values = 0 ∷ 0 ∷ 0 ∷ 0 ∷ 0 ∷ 0 ∷ 0 ∷ 0 ∷ [];
}

abbrev dequeued : Fqueue ℕ
dequeued = record {
  begin_index = 0;
  end_index = 1;
  count = 1;
  capacity = 4;
  values = 20 ∷ 0 ∷ 0 ∷ 10 ∷ [];
}

vacant-IsValid : IsValid vacant
vacant-IsValid = record {
  exponent = 2;
  power = refl;
  small = omega arith;
  allocated = omega arith;
  bounded = omega arith;
  begin_inside = omega arith;
  end_follows = refl;
}

pair-IsValid : IsValid pair
pair-IsValid = record {
  exponent = 1;
  power = refl;
  small = omega arith;
  allocated = omega arith;
  bounded = omega arith;
  begin_inside = omega arith;
  end_follows = refl;
}

-- the bytes of a struct with an `int` array
abbrev words : Layout
words = record {
  offset = 16;
  elem_size = 4;
  offset_fits = omega arith;
  elem_size_pos = omega arith;
}

abbrev calls : List (Op ℕ)
calls = Op.enqueue 30 ∷ Op.dequeue ∷ Op.at 1 ∷ Op.back ∷ Op.full ∷ []

run-wrapped :
    Machine.run step wrapped calls
    ≡ ok (
      flag true ∷ value 10 ∷ value 30 ∷ value 30 ∷ flag false ∷ [],
      record {
        begin_index = 0;
        end_index = 2;
        count = 2;
        capacity = 4;
        values = 20 ∷ 30 ∷ 0 ∷ 10 ∷ [];
      },
    )
unfolding Machine.run step enqueue dequeue at get_back is_full is_empty masked load store
run-wrapped = refl

create_five : create {A = ℕ} words true 5 ≡ ok (some eight)
unfolding Zeroed-ℕ create init zeroed_block calc_sizeof calc_sizeof_overflows room_for is_pow2
    round_up_pow2_32 clz_from builtin_clz Array.replicate
create_five = refl

visits : for_each_reverse wrapped ≡ ok (20 ∷ 10 ∷ [])
unfolding for_each_reverse masked visit load
visits = refl

queue_run_refines_example :
    seen view (Machine.run step wrapped calls) ≡ Machine.run (Spec.step 4) (view wrapped) calls
queue_run_refines_example = queue_run_refines calls wrapped wrapped-IsValid

run-dequeue : step wrapped Op.dequeue ≡ ok (value 10, dequeued)
unfolding step dequeue is_empty masked load
run-dequeue = refl

queue_step-IsValid_example : IsValid dequeued × (dequeued.capacity ≡ wrapped.capacity)
queue_step-IsValid_example = queue_step-IsValid wrapped Op.dequeue wrapped-IsValid run-dequeue

queue_create_lem_example :
    (capacity : ℕ) × IsRoundUp 5 capacity
    × (create {A = ℕ} words true 5
        ≡ ok (
            if leb (16 + capacity * 4) uint32_max && true
            then some (record {
              begin_index = 0;
              end_index = 0;
              count = 0;
              capacity = capacity;
              values = Array.replicate capacity 0;
            })
            else none))
unfolding Zeroed-ℕ
queue_create_lem_example = queue_create_lem words true 5 (omega arith) (omega arith)

queue_for_each_lem_example :
    (for_each wrapped ≡ ok (view wrapped))
    × (for_each_reverse wrapped ≡ ok (reverse (view wrapped)))
queue_for_each_lem_example = queue_for_each_lem wrapped wrapped-IsValid

queue_copy_lem_example :
    Returns (λ d. IsValid d × (view d ≡ view wrapped) × (d.capacity ≡ 4)) (copy vacant wrapped)
queue_copy_lem_example =
    queue_copy_lem vacant wrapped vacant-IsValid wrapped-IsValid refl (omega arith)

copy_overruns_example :
    (copy pair wrapped >>= λ d. dequeue d >>= λ (_, d'). enqueue d' 7) ≡ fault out_of_bounds
copy_overruns_example = copy_overruns pair wrapped 7 pair-IsValid wrapped-IsValid refl refl refl
