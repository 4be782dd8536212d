-- ===== src/Pool/Init.antt =====
-- The free list that `deallocate_all` and `init` of dsa/pool.h lay through a buffer.
use mathlib.Core.Path.{subst}
use native.Mathlib.Nat.{le-div_iff_mul-le, suc-mul, mul-le-mul_right, div-mul-le_self}
use dsa_c.Prelude.{
  ℕ, zero, suc, ◌+◌, ◌-◌, ◌*◌, ◌/◌, ◌%◌, ◌^◌, ◌≤◌, ◌<◌, ◌≡◌, inr, refl, ap, ◌∙◌, true, false, List,
  [], ◌∷◌, arith, leb, ◌==◌, if◌then◌else◌,
}
use dsa_c.Prelude.Array.{length}
use dsa_c.Prelude.Bits.{two-pow-pos}
use dsa_c.Run.{Returns, returns}
use dsa_c.Word.{add_size, sub_size, mul_size}
use dsa_c.Align.{null, calc_alignment_padding}
use dsa_c.Align.Padding.{padding_to, add-padding_to, is_pow2-pow, sub_size-aligned_from}
use dsa_c.Bytes.{Memory}
use dsa_c.Pool.{
  Pool, node_size, set_next, get_next, push_free_node, free_loop, deallocate_all, init,
}
use dsa_c.Pool.FreeList.{
  IsValid, Linked, AllApart, Chunks, push_free_node-IsValid, get_next-same, get_next-set_next,
  set_next-Outside,
}

-- every chunk of the list ends at `top` or before it
data AllBelow (size top : ℕ) : List ℕ → Type 0 where
  nil : AllBelow size top []
  cons : {p : ℕ} {ps : List ℕ} → p + size ≤ top → AllBelow size top ps → AllBelow size top (p ∷ ps)

AllBelow-Apart : {size top : ℕ} {ps : List ℕ} → AllBelow size top ps → AllApart size top ps
AllBelow-Apart AllBelow.nil = AllApart.nil
AllBelow-Apart (AllBelow.cons le rest) = AllApart.cons (inr le) (AllBelow-Apart rest)

AllBelow-mono :
    {size top : ℕ} (top' : ℕ) {ps : List ℕ}
    → top ≤ top'
    → AllBelow size top ps
    → AllBelow size top' ps
AllBelow-mono top' le AllBelow.nil = AllBelow.nil
AllBelow-mono {top} top' le (AllBelow.cons h rest) =
    AllBelow.cons (omega arith) (AllBelow-mono top' le rest)

-- what laying `n` more chunks leaves
record Laid (pool : Pool) (n : ℕ) (free : List ℕ) (outcome : Pool × Memory) : Type 0 where
  pub all_free : List ℕ
  pub valid : IsValid outcome.0 outcome.1 all_free
  pub count : length all_free ≡ n + length free
  pub same_len : let p = outcome.0 in p.buf_len ≡ pool.buf_len
  pub same_buf : let p = outcome.0 in p.buf_ptr ≡ pool.buf_ptr
  pub same_size : let p = outcome.0 in p.chunk_size ≡ pool.chunk_size

free_loop-Laid :
    (n i : ℕ) (pool : Pool) (memory : Memory) (free : List ℕ)
    → IsValid pool memory free
    → AllBelow pool.chunk_size (pool.buf_ptr + i * pool.chunk_size) free
    → (n + i) * pool.chunk_size ≤ pool.buf_len
    → Laid pool n free (free_loop n i pool memory)
unfolding free_loop push_free_node
free_loop-Laid zero i pool memory free v below room = record {
  all_free = free;
  valid = v;
  count = omega arith;
  same_len = refl;
  same_buf = refl;
  same_size = refl;
}
free_loop-Laid (suc n) i pool memory free v below room =
    let c = pool.chunk_size in
    let start : ℕ = pool.buf_ptr + i * c in
    let next : suc i * c ≡ i * c + c = suc-mul i c in
    let first : suc i * c ≤ (suc n + i) * c = mul-le-mul_right c (omega arith) in
    let within : suc i * c ≤ pool.buf_len = omega (arith, room, first) in
    let others : (n + suc i) * c ≤ (suc n + i) * c = mul-le-mul_right c (omega arith) in
    let exact : add_size pool.buf_ptr (mul_size i c) ≡ start =
      omega (arith, next, within, v.fits) in
    let pushed =
      push_free_node-IsValid pool memory free start v (omega arith) (omega (arith, next, within))
        (AllBelow-Apart below) in
    let l =
      free_loop-Laid n (suc i) _ _ (start ∷ free) pushed
        (AllBelow.cons (omega (arith, next))
          (AllBelow-mono (pool.buf_ptr + suc i * c) (omega (arith, next)) below))
        (omega (arith, room, others)) in
    rw exact (record {
      all_free = l.all_free;
      valid = l.valid;
      count = omega (arith, l.count);
      same_len = l.same_len;
      same_buf = l.same_buf;
      same_size = l.same_size;
    })

-- the size of a chunk, for data of a size and an alignment
abbrev pub chunk_of : ℕ → ℕ → ℕ
chunk_of alignment data_size =
    let size = if leb node_size data_size then data_size else node_size in
    size + padding_to alignment size

-- init, for an alignment 2^k with k < 64 and a buffer in the address space with room for the
-- padding and one chunk, gives a valid pool. Its buffer starts behind the padding, at a multiple of
-- the alignment, and reaches to the end of the backing buffer; a chunk has the larger of the data
-- size and 8 bytes, rounded up to a multiple of the alignment; and the free list holds as many
-- chunks as fit.
pub pool_init_lem :
    (memory : Memory) (k len backing_buf data_size : ℕ)
    → k < 64
    → 0 < backing_buf
    → backing_buf + len < 2 ^ 64
    → let p = padding_to (2 ^ k) backing_buf in
      let chunk = chunk_of (2 ^ k) data_size in
      p + chunk ≤ len
      → Returns
          (λ (pool, memory').
            ((free : List ℕ) × IsValid pool memory' free × (length free ≡ (len - p) / chunk))
            × (pool.buf_ptr ≡ backing_buf + p)
            × (pool.buf_len ≡ len - p)
            × (pool.chunk_size ≡ chunk)
            × (pool.buf_ptr % 2 ^ k ≡ 0)
            × (pool.chunk_size % 2 ^ k ≡ 0))
          (init memory len backing_buf data_size (2 ^ k))
unfolding init calc_alignment_padding deallocate_all
pool_init_lem memory k len backing_buf data_size hk pos inside room =
    let p = padding_to (2 ^ k) backing_buf in
    let size : ℕ = if leb node_size data_size then data_size else node_size in
    let chunk = chunk_of (2 ^ k) data_size in
    let some : 8 ≤ size = ground arith in
    let given : (backing_buf == null) ≡ false = ground arith in
    let chunk_exact : add_size size (padding_to (2 ^ k) size) ≡ chunk =
      omega (arith, room, inside) in
    let total : add_size p chunk ≡ p + chunk = omega (arith, room, inside) in
    let enough : leb (p + chunk) len ≡ true = ground arith in
    let start : add_size backing_buf p ≡ backing_buf + p = omega arith in
    let rest : sub_size len p ≡ len - p = omega arith in
    let divides : (chunk == 0) ≡ false = ground arith in
    let pool : Pool = record {
      buf_ptr = backing_buf + p;
      buf_len = len - p;
      chunk_size = chunk;
      head_ptr = null;
    } in
    let fresh : IsValid pool memory [] = record {
      not_null = omega arith;
      fits = omega arith;
      holds_node = omega arith;
      linked = Linked.nil;
      chunks = Chunks.nil;
    } in
    let fit : ((len - p) / chunk + 0) * chunk ≤ len - p =
      let plain : (len - p) / chunk + 0 ≡ (len - p) / chunk = omega arith in
      rw plain (div-mul-le_self (len - p) chunk) in
    let l = free_loop-Laid ((len - p) / chunk) 0 pool memory [] fresh AllBelow.nil fit in
    rw
      (
        given,
        is_pow2-pow k hk,
        sub_size-aligned_from k backing_buf hk (omega arith),
        sub_size-aligned_from k size hk (omega (arith, room, inside)),
        chunk_exact,
        total,
        enough,
        start,
        rest,
        divides,
      )
      (returns (
        (l.all_free, l.valid, l.count ∙ omega arith),
        l.same_buf,
        l.same_len,
        l.same_size,
        rw l.same_buf (add-padding_to (2 ^ k) backing_buf (two-pow-pos k)),
        rw l.same_size (add-padding_to (2 ^ k) size (two-pow-pos k)),
      ))

free_loop-suc :
    (n i : ℕ) (pool : Pool) (memory : Memory) {ptr : ℕ}
    → add_size pool.buf_ptr (mul_size i pool.chunk_size) ≡ ptr
    → free_loop (suc n) i pool memory
      ≡ free_loop n (suc i) (record pool { head_ptr = ptr }) (set_next memory ptr pool.head_ptr)
unfolding free_loop push_free_node
free_loop-suc n i pool memory e =
    ap (λ p. free_loop n (suc i) (record pool { head_ptr = p }) (set_next memory p pool.head_ptr)) e

-- the rounds after the first spare the node at the start of the buffer
free_loop-first :
    (n i : ℕ) (pool : Pool) (memory : Memory)
    → 0 < i
    → node_size ≤ pool.chunk_size
    → pool.buf_ptr + pool.buf_len < 2 ^ 64
    → (n + i) * pool.chunk_size ≤ pool.buf_len
    → let (pool', memory') = free_loop n i pool memory in
      get_next memory' pool.buf_ptr ≡ get_next memory pool.buf_ptr
unfolding free_loop
free_loop-first zero i pool memory pos wide fits room = refl
free_loop-first (suc n) i pool memory pos wide fits room =
    let c = pool.chunk_size in
    let node : ℕ = pool.buf_ptr + i * c in
    let far : 1 * c ≤ i * c = mul-le-mul_right c (omega arith) in
    let first : i * c ≤ (suc n + i) * c = mul-le-mul_right c (omega arith) in
    let others : (n + suc i) * c ≤ (suc n + i) * c = mul-le-mul_right c (omega arith) in
    let exact : add_size pool.buf_ptr (mul_size i c) ≡ node = omega (arith, first, room, fits) in
    rw (free_loop-suc n i pool memory exact) (
      free_loop-first n (suc i) _ _ (omega arith) wide fits (omega (arith, room, others))
      ∙ get_next-same memory (set_next memory node pool.head_ptr) node node_size pool.buf_ptr
          (omega arith) (set_next-Outside memory node pool.head_ptr)
          (inr (omega (arith, far, wide))))

-- deallocate_all, on a pool whose buffer lies in the address space and has room for a chunk, and
-- whose chunks have room for a node, leaves the old head, a pointer of 64 bits, behind the first
-- chunk.
pub deallocate_all-keeps_head :
    (pool : Pool) (memory : Memory)
    → node_size ≤ pool.chunk_size
    → pool.chunk_size ≤ pool.buf_len
    → pool.buf_ptr + pool.buf_len < 2 ^ 64
    → pool.head_ptr < 2 ^ 64
    → Returns
        (λ (pool', memory'). get_next memory' pool.buf_ptr ≡ pool.head_ptr)
        (deallocate_all pool memory)
unfolding deallocate_all
deallocate_all-keeps_head pool memory wide room fits small =
    let c = pool.chunk_size in
    let n : ℕ = pool.buf_len / c in
    let pos : 0 < c = omega arith in
    let some : 1 ≤ n = (le-div_iff_mul-le pos).1 (omega (arith, room)) in
    let whole : n ≡ suc (n - 1) = omega (arith, some) in
    let divides : (c == 0) ≡ false = ground arith in
    let exact : add_size pool.buf_ptr (mul_size 0 c) ≡ pool.buf_ptr = omega (arith, fits) in
    let covered : (n - 1 + 1) * c ≤ pool.buf_len =
      subst (λ m. m * c ≤ pool.buf_len) (whole ∙ omega arith) (div-mul-le_self pool.buf_len c) in
    rw (divides, whole, free_loop-suc (n - 1) 0 pool memory exact)
      (returns (
        free_loop-first (n - 1) 1 _ _ (omega arith) wide fits covered
        ∙ get_next-set_next memory pool.buf_ptr pool.head_ptr small))
