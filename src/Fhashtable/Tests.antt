-- ===== src/Fhashtable/Tests.antt =====
-- Runs of the hash table on four slots, with numbers as keys that hash to themselves.
use dsa_c.Prelude.{ℕ, ◌≡◌, [], ◌∷◌, refl, ◌==◌}
use dsa_c.Run.{Run, ok, fault, assertion, load, store, ◌>>=◌}
use dsa_c.Pow2.{is_pow2}
use dsa_c.Fhashtable.{
  Slot, Fhashtable, empty_loop, init, masked, backshift_loop, find_loop, get_value, contains_key,
  insert_loop, insert, update_loop, update, delete_loop, delete, for_each_loop, for_each,
}

abbrev itself : ℕ → ℕ
itself key = key

abbrev zero_slot : Slot ℕ ℕ
zero_slot = record { offset = 0; key = 0; value = 0 }

abbrev blank : Fhashtable ℕ ℕ
blank = record {
  count = 0;
  capacity = 0;
  slots = zero_slot ∷ zero_slot ∷ zero_slot ∷ zero_slot ∷ [];
}

-- 1 and 5 hash to the same slot, 2 is displaced
abbrev three : Run (Fhashtable ℕ ℕ)
three = do
  t₁ ← init blank 4
  t₂ ← insert ◌==◌ itself t₁ 1 10
  t₃ ← insert ◌==◌ itself t₂ 2 20
  insert ◌==◌ itself t₃ 5 50

visits_three : (three >>= λ t. for_each t) ≡ ok ((1, 10) ∷ (5, 50) ∷ (2, 20) ∷ [])
unfolding init empty_loop is_pow2 insert insert_loop contains_key find_loop masked for_each
    for_each_loop load store
visits_three = refl

finds_displaced : (three >>= λ t. get_value ◌==◌ itself t 2 0) ≡ ok 20
unfolding init empty_loop is_pow2 insert insert_loop contains_key find_loop masked get_value load
    store
finds_displaced = refl

shifts_back :
    (three >>= λ t. delete ◌==◌ itself t 1 >>= λ (_, t'). get_value ◌==◌ itself t' 5 0) ≡ ok 50
unfolding init empty_loop is_pow2 insert insert_loop contains_key find_loop masked get_value delete
    delete_loop backshift_loop load store
shifts_back = refl

updates : (three >>= λ t. update ◌==◌ itself t 5 51 >>= λ t'. get_value ◌==◌ itself t' 5 0) ≡ ok 51
unfolding init empty_loop is_pow2 insert insert_loop contains_key find_loop masked get_value update
    update_loop load store
updates = refl

present_twice : (three >>= λ t. insert ◌==◌ itself t 5 51) ≡ fault assertion
unfolding init empty_loop is_pow2 insert insert_loop contains_key find_loop masked load store
present_twice = refl
