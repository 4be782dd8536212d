-- ===== src/NodeList/Tests.antt =====
-- Runs of the list on three nodes: the head 10, and 20 and 30.
use dsa_c.Prelude.{
  ℕ, zero, suc, ◌≡◌, ◌≢◌, true, false, List, [], ◌∷◌, refl, arith, ◌==◌, if◌then◌else◌,
}
use dsa_c.Run.{Run, ok, fault, assertion, ◌>>=◌, Returns}
use dsa_c.NodeList.{
  Store, prev, next, set_prev, set_next, node_init, node_is_first, node_is_last, add_between,
  attach, add_after, add_before, remove, replace,
}
use dsa_c.NodeList.Ring.{IsRing}
use dsa_c.NodeList.Calls.{adds_lem}
use dsa_c.NodeList.Removal.{IsAlone, remove_lem, replace_lem}

abbrev blank : Store
blank = λ address. record { prev_ptr = 0; next_ptr = 0 }

-- the addresses of `n` nodes along `next_ptr`
abbrev forward : ℕ → Store → ℕ → List ℕ
forward zero store a = []
forward (suc n) store a = a ∷ forward n store (next store a)

abbrev backward : ℕ → Store → ℕ → List ℕ
backward zero store a = []
backward (suc n) store a = a ∷ backward n store (prev store a)

abbrev queue : Run Store
queue = do s₁ ← node_init blank 10; s₂ ← add_before s₁ 20 10; add_before s₂ 30 10

queue-forward : (queue >>= λ s. ok (forward 4 s 10)) ≡ ok (10 ∷ 20 ∷ 30 ∷ 10 ∷ [])
unfolding node_init add_before add_between set_prev set_next
queue-forward = refl

queue-backward : (queue >>= λ s. ok (backward 4 s 10)) ≡ ok (10 ∷ 30 ∷ 20 ∷ 10 ∷ [])
unfolding node_init add_before add_between set_prev set_next
queue-backward = refl

removed : (queue >>= λ s. remove s 20 >>= λ t. ok (forward 3 t 10)) ≡ ok (10 ∷ 30 ∷ 10 ∷ [])
unfolding node_init add_before add_between set_prev set_next remove attach
removed = refl

replaced :
    (queue >>= λ s. replace s 20 40 >>= λ t. ok (forward 4 t 10)) ≡ ok (10 ∷ 40 ∷ 30 ∷ 10 ∷ [])
unfolding node_init add_before add_between set_prev set_next replace
replaced = refl

pushed :
    (queue >>= λ s. add_after s 40 10 >>= λ t. ok (forward 5 t 10))
    ≡ ok (10 ∷ 40 ∷ 20 ∷ 30 ∷ 10 ∷ [])
unfolding node_init add_before add_after add_between set_prev set_next
pushed = refl

is_first_of_two : (queue >>= λ s. node_is_first s 20 10) ≡ ok true
unfolding node_init add_before add_between set_prev set_next node_is_first
is_first_of_two = refl

is_not_last : (queue >>= λ s. node_is_last s 20 10) ≡ ok false
unfolding node_init add_before add_between set_prev set_next node_is_last
is_not_last = refl

alone_not_removed : (node_init blank 10 >>= λ s. remove s 10) ≡ fault assertion
unfolding node_init set_prev set_next remove
alone_not_removed = refl

-- the ring of the head 10 and the nodes 20 and 30
abbrev ring : Store
ring = λ a.
    if a == 10
    then record { prev_ptr = 30; next_ptr = 20 }
    else if a == 20
    then record { prev_ptr = 10; next_ptr = 30 }
    else record { prev_ptr = 20; next_ptr = 10 }

ring-IsRing : IsRing ring 10 (20 ∷ 30 ∷ [])
ring-IsRing = record {
  linked = (refl, refl, (refl, refl, (refl, refl)));
  distinct = (refl, (refl, (refl, tt)));
  not_null = refl;
}

not_null_40 : let node : ℕ = 40 in node ≢ 0
not_null_40 e = absurd (omega (arith, e))

adds_lem_example :
    Returns (λ s. IsRing s 10 (20 ∷ 30 ∷ 40 ∷ [])) (add_before ring 40 10)
    × Returns (λ s. IsRing s 10 (40 ∷ 20 ∷ 30 ∷ [])) (add_after ring 40 10)
adds_lem_example = adds_lem ring 10 40 (20 ∷ 30 ∷ []) ring-IsRing not_null_40 refl

remove_lem_example : Returns (λ s. IsRing s 10 (30 ∷ []) × IsAlone s 20) (remove ring 20)
remove_lem_example = remove_lem ring 10 [] 20 (30 ∷ []) ring-IsRing

replace_lem_example : Returns (λ s. IsRing s 10 (20 ∷ 40 ∷ []) × IsAlone s 30) (replace ring 30 40)
replace_lem_example = replace_lem ring 10 (20 ∷ []) 30 40 [] ring-IsRing not_null_40 refl
