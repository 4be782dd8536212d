-- ===== src/Pool/Tests.antt =====
-- Runs of the pool, and the instances of its theorems, on a buffer of three chunks of 16 bytes.
use dsa_c.Prelude.{
  ℕ, ◌≡◌, ◌+◌, ◌-◌, ◌/◌, ◌%◌, ◌^◌, ◌==◌, if◌then◌else◌, inl, inr, arith, List, [], ◌∷◌,
}
use dsa_c.Prelude.Array.{length}
use dsa_c.Run.{Returns}
use dsa_c.Bytes.{Memory, Outside, load_bytes}
use dsa_c.Align.Padding.{padding_to}
use dsa_c.Pool.{Pool, node_size, get_next, allocate, deallocate, deallocate_all, init}
use dsa_c.Pool.FreeList.{
  Linked, AllApart, Chunks, IsValid, Allocated, pool_allocate_lem, pool_deallocate_lem,
}
use dsa_c.Pool.Init.{chunk_of, pool_init_lem, deallocate_all-keeps_head}

abbrev blank : Memory
blank = λ address. 0

-- the chunk at 1016 is in use, 1032 and 1000 are free
abbrev some_free : Pool
some_free = record { buf_len = 48; chunk_size = 16; buf_ptr = 1000; head_ptr = 1032 }

abbrev memory : Memory
memory = λ address. if address == 1032 then 232 else if address == 1033 then 3 else 0

memory-IsValid : IsValid some_free memory (1032 ∷ 1000 ∷ [])
unfolding get_next load_bytes
memory-IsValid = record {
  not_null = omega arith;
  fits = omega arith;
  holds_node = omega arith;
  linked = Linked.cons (omega arith) (Linked.cons (omega arith) Linked.nil);
  chunks =
      Chunks.cons (omega arith) (omega arith) (AllApart.cons (inr (omega arith)) AllApart.nil)
        (Chunks.cons (omega arith) (omega arith) AllApart.nil Chunks.nil);
}

pool_allocate_lem_example : Allocated some_free memory 1032 (1000 ∷ []) (allocate some_free memory)
pool_allocate_lem_example = pool_allocate_lem some_free memory 1032 (1000 ∷ []) memory-IsValid

pool_deallocate_lem_example :
    Returns
      (λ (pool', memory').
        IsValid pool' memory' (1016 ∷ 1032 ∷ 1000 ∷ [])
        × ((x : ℕ) → Outside 1016 node_size x → memory' x ≡ memory x))
      (deallocate some_free memory 1016)
pool_deallocate_lem_example =
    pool_deallocate_lem some_free memory (1032 ∷ 1000 ∷ []) 1016 memory-IsValid (omega arith)
      (omega arith)
      (AllApart.cons (inl (omega arith)) (AllApart.cons (inr (omega arith)) AllApart.nil))

pool_init_lem_example :
    Returns
      (λ (pool, memory').
        ((free : List ℕ) × IsValid pool memory' free
          × (length free ≡ (60 - padding_to (2 ^ 3) 1001) / chunk_of (2 ^ 3) 12))
        × (pool.buf_ptr ≡ 1001 + padding_to (2 ^ 3) 1001)
        × (pool.buf_len ≡ 60 - padding_to (2 ^ 3) 1001)
        × (pool.chunk_size ≡ chunk_of (2 ^ 3) 12)
        × (pool.buf_ptr % 2 ^ 3 ≡ 0)
        × (pool.chunk_size % 2 ^ 3 ≡ 0))
      (init blank 60 1001 12 (2 ^ 3))
pool_init_lem_example =
    pool_init_lem blank 3 60 1001 12 (omega arith) (omega arith) (omega arith) (omega arith)

deallocate_all-keeps_head_example :
    Returns (λ (pool', memory'). get_next memory' 1000 ≡ 1032) (deallocate_all some_free memory)
deallocate_all-keeps_head_example =
    deallocate_all-keeps_head some_free memory (omega arith) (omega arith) (omega arith)
      (omega arith)
