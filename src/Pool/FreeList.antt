-- ===== src/Pool/FreeList.antt =====
-- The free list of a pool as a list of chunks, and what allocating and freeing a chunk do to it.
use dsa_c.Prelude.{
  ℕ, ◌+◌, ◌^◌, ◌≤◌, ◌<◌, ◌≡◌, ◌≢◌, ◌⊎◌, inl, inr, refl, true, false, List, [], ◌∷◌, arith, ltb, leb,
  ◌==◌, ◌&&◌,
}
use dsa_c.Run.{Returns, returns}
use dsa_c.Word.{add_size}
use dsa_c.Align.{null}
use dsa_c.Bytes.{
  Memory, Outside, memset-inside, memset-Outside, store_bytes-Outside, load_bytes-same,
  load_bytes-store_bytes,
}
use dsa_c.Pool.{Pool, node_size, set_next, get_next, push_free_node, allocate, deallocate}

-- following the nodes from an address on gives the list, and NULL at its end
pub data Linked (memory : Memory) : ℕ → List ℕ → Type 0 where
  nil : Linked memory 0 []
  cons :
      {p : ℕ} {ps : List ℕ}
      → p ≢ 0
      → Linked memory (get_next memory p) ps
      → Linked memory p (p ∷ ps)

-- two chunks of `size` bytes do not overlap
abbrev pub Apart : ℕ → ℕ → ℕ → Type 0
Apart size p q = (p + size ≤ q) ⊎ (q + size ≤ p)

-- the chunk overlaps none of the list
pub data AllApart (size p : ℕ) : List ℕ → Type 0 where
  nil : AllApart size p []
  cons : {q : ℕ} {qs : List ℕ} → Apart size p q → AllApart size p qs → AllApart size p (q ∷ qs)

-- chunks inside the buffer, no two of which overlap
pub data Chunks (pool : Pool) : List ℕ → Type 0 where
  nil : Chunks pool []
  cons :
      {p : ℕ} {ps : List ℕ}
      → pool.buf_ptr ≤ p
      → p + pool.chunk_size ≤ pool.buf_ptr + pool.buf_len
      → AllApart pool.chunk_size p ps
      → Chunks pool ps
      → Chunks pool (p ∷ ps)

pub record IsValid (pool : Pool) (memory : Memory) (free : List ℕ) : Type 0 where
  pub not_null : 0 < pool.buf_ptr
  pub fits : pool.buf_ptr + pool.buf_len < 2 ^ 64
  pub holds_node : node_size ≤ pool.chunk_size
  pub linked : Linked memory pool.head_ptr free
  pub chunks : Chunks pool free

pub get_next-same :
    (memory memory' : Memory) (node size q : ℕ)
    → node_size ≤ size
    → ((x : ℕ) → Outside node size x → memory' x ≡ memory x)
    → Apart size node q
    → get_next memory' q ≡ get_next memory q
unfolding get_next
get_next-same memory memory' node size q wide same (inl a) =
    load_bytes-same node_size memory memory' q (λ x lo hi. same x (inr (omega arith)))
get_next-same memory memory' node size q wide same (inr a) =
    load_bytes-same node_size memory memory' q (λ x lo hi. same x (inl (omega arith)))

-- a change of one chunk of memory, which is in no node of a list
Linked-same :
    {memory memory' : Memory} {size : ℕ} (node : ℕ) {p : ℕ} {ps : List ℕ}
    → node_size ≤ size
    → ((x : ℕ) → Outside node size x → memory' x ≡ memory x)
    → AllApart size node ps
    → Linked memory p ps
    → Linked memory' p ps
Linked-same node wide same AllApart.nil Linked.nil = Linked.nil
Linked-same {memory} {memory'} {size} node wide same (AllApart.cons {q = q} a others)
      (Linked.cons ne l) =
    Linked.cons ne (
      rw (get_next-same memory memory' node size q wide same a)
        (Linked-same node {p = get_next memory q} wide same others l))

-- the head is not looked at
Chunks-head :
    {pool : Pool} {ps : List ℕ} (head : ℕ)
    → Chunks pool ps
    → Chunks (record pool { head_ptr = head }) ps
Chunks-head head Chunks.nil = Chunks.nil
Chunks-head head (Chunks.cons lo hi others c) = Chunks.cons lo hi others (Chunks-head head c)

Linked-inv :
    {memory : Memory} {h p : ℕ} {ps : List ℕ}
    → Linked memory h (p ∷ ps)
    → (h ≡ p) × (p ≢ 0) × Linked memory (get_next memory p) ps
Linked-inv (Linked.cons ne l) = (refl, ne, l)

Chunks-inv :
    {pool : Pool} {p : ℕ} {ps : List ℕ}
    → Chunks pool (p ∷ ps)
    → (pool.buf_ptr ≤ p)
      × (p + pool.chunk_size ≤ pool.buf_ptr + pool.buf_len)
      × AllApart pool.chunk_size p ps
      × Chunks pool ps
Chunks-inv (Chunks.cons lo hi apart c) = (lo, hi, apart, c)

-- the pointer to a free list fits 8 bytes
Linked-small :
    {pool : Pool} {memory : Memory} {h : ℕ} {ps : List ℕ}
    → pool.buf_ptr + pool.buf_len < 2 ^ 64
    → Chunks pool ps
    → Linked memory h ps
    → h < 2 ^ 64
Linked-small fits Chunks.nil Linked.nil = omega arith
Linked-small fits (Chunks.cons lo hi others c) (Linked.cons ne l) = omega arith

pub get_next-set_next :
    (memory : Memory) (node p : ℕ) → p < 2 ^ 64 → get_next (set_next memory node p) node ≡ p
unfolding get_next set_next
get_next-set_next memory node p h = load_bytes-store_bytes node_size memory node p h

pub set_next-Outside :
    (memory : Memory) (node p x : ℕ)
    → Outside node node_size x
    → set_next memory node p x ≡ memory x
unfolding set_next
set_next-Outside memory node p x out = store_bytes-Outside node_size memory node p x out

wider : {node size x : ℕ} → node_size ≤ size → Outside node size x → Outside node node_size x
wider h (inl below) = inl below
wider h (inr behind) = inr (omega arith)

-- Pushing a chunk of the buffer that overlaps no free one puts it in front of the free list.
pub push_free_node-IsValid :
    (pool : Pool) (memory : Memory) (free : List ℕ) (node : ℕ)
    → IsValid pool memory free
    → pool.buf_ptr ≤ node
    → node + pool.chunk_size ≤ pool.buf_ptr + pool.buf_len
    → AllApart pool.chunk_size node free
    → let (pool', memory') = push_free_node pool memory node in IsValid pool' memory' (node ∷ free)
unfolding push_free_node
push_free_node-IsValid pool memory free node v lo hi apart = record {
  not_null = v.not_null;
  fits = v.fits;
  holds_node = v.holds_node;
  linked = Linked.cons (omega (arith, v.not_null)) (
      rw (get_next-set_next memory node pool.head_ptr (Linked-small v.fits v.chunks v.linked)) (
        Linked-same node v.holds_node
          (λ x out. set_next-Outside memory node pool.head_ptr x (wider v.holds_node out)) apart
          v.linked));
  chunks = Chunks.cons lo hi apart (Chunks-head node v.chunks);
}

-- what an allocation of a valid pool leaves: the first free chunk, cleared, and the others free
pub record Allocated (pool : Pool) (memory : Memory) (p : ℕ) (free : List ℕ)
    (outcome : ℕ × Pool × Memory) : Type 0 where
  pub is_first : outcome.0 ≡ p
  pub valid : IsValid outcome.1 outcome.2 free
  pub apart : AllApart pool.chunk_size p free
  pub inside : (pool.buf_ptr ≤ p) × (p + pool.chunk_size ≤ pool.buf_ptr + pool.buf_len)
  pub cleared : (x : ℕ) → p ≤ x → x < p + pool.chunk_size → (outcome.2) x ≡ 0
  pub kept : (x : ℕ) → Outside p pool.chunk_size x → (outcome.2) x ≡ memory x

-- An allocation from a valid pool with a free chunk returns the first of the free list, a chunk
-- inside the buffer that overlaps no chunk left free; its bytes are cleared and no other byte
-- changes, and the pool stays valid with the others free.
pub pool_allocate_lem :
    (pool : Pool) (memory : Memory) (p : ℕ) (free : List ℕ)
    → IsValid pool memory (p ∷ free)
    → Allocated pool memory p free (allocate pool memory)
unfolding allocate
pool_allocate_lem pool memory p free v =
    let (first, ne, l) = Linked-inv v.linked in
    let (lo, hi, apart, c) = Chunks-inv v.chunks in
    let size = pool.chunk_size in
    let given : (p == null) ≡ false = ground arith in
    rw (first, given)
      (record {
        is_first = refl;
        valid = record {
          not_null = v.not_null;
          fits = v.fits;
          holds_node = v.holds_node;
          linked = Linked-same p v.holds_node (memset-Outside memory p size) apart l;
          chunks = Chunks-head (get_next memory p) c;
        };
        apart = apart;
        inside = (lo, hi);
        cleared = memset-inside memory p size;
        kept = memset-Outside memory p size;
      })

-- Freeing a chunk of a valid pool's buffer that overlaps no free chunk puts it in front of the free
-- list; the pool stays valid, and only the first 8 bytes of the chunk change.
pub pool_deallocate_lem :
    (pool : Pool) (memory : Memory) (free : List ℕ) (ptr : ℕ)
    → IsValid pool memory free
    → pool.buf_ptr ≤ ptr
    → ptr + pool.chunk_size ≤ pool.buf_ptr + pool.buf_len
    → AllApart pool.chunk_size ptr free
    → Returns
        (λ (pool', memory').
          IsValid pool' memory' (ptr ∷ free)
          × ((x : ℕ) → Outside ptr node_size x → memory' x ≡ memory x))
        (deallocate pool memory ptr)
unfolding deallocate push_free_node
pool_deallocate_lem pool memory free ptr v lo hi apart =
    let given : (ptr == null) ≡ false = ground (arith, v.not_null) in
    let end : add_size pool.buf_ptr pool.buf_len ≡ pool.buf_ptr + pool.buf_len =
      omega (arith, v.fits) in
    let inside : (leb pool.buf_ptr ptr && ltb ptr (pool.buf_ptr + pool.buf_len)) ≡ true =
      ground (arith, v.holds_node) in
    rw (given, end, inside)
      (returns (
        push_free_node-IsValid pool memory free ptr v lo hi apart,
        set_next-Outside memory ptr pool.head_ptr,
      ))
