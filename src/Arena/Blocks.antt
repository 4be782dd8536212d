-- ===== src/Arena/Blocks.antt =====
-- The blocks that an arena hands out: what one is, and how those of a sequence of allocations lie.
use dsa_c.Prelude.{
  ℕ, ◌+◌, ◌-◌, ◌%◌, ◌^◌, ◌≤◌, ◌<◌, ◌≡◌, refl, ◌∙◌, inl, inr, true, false, List, [], ◌∷◌, arith, leb,
  ◌==◌, leb→le, Bool-cases, if◌then◌else◌,
}
use dsa_c.Prelude.Bits.{two-pow-pos}
use dsa_c.Run.{Run, ok, Returns, returns, Returns-bind, Returns-map, Returns-inv, ◌>>=◌}
use dsa_c.Word.{add_size, sub_size}
use dsa_c.Align.{null, calc_alignment_padding}
use dsa_c.Align.Padding.{padding_to, add-padding_to, is_pow2-pow, sub_size-aligned_from}
use dsa_c.Bytes.{Outside, memset-inside, memset-Outside}
use dsa_c.Arena.{Arena, Memory, Outcome, init, allocate_aligned, save, restore}
use dsa_c.Arena.Allocate.{IsValid, padding, allocate_aligned_lem}

-- `o` answers a request for `size` bytes at a multiple of 2^k with a block of zeros behind what the
-- arena handed out before, and no other byte changed
pub record Placed (a : Arena) (memory : Memory) (k size : ℕ) (o : Outcome) : Type 0 where
  pub aligned : o.result % 2 ^ k ≡ 0
  pub behind : a.buf_ptr + a.curr_offset ≤ o.result
  pub start : let b = o.arena in o.result ≡ b.buf_ptr + b.prev_offset
  pub end : let b = o.arena in o.result + size ≡ b.buf_ptr + b.curr_offset
  pub zeros : (x : ℕ) → o.result ≤ x → x < o.result + size → o.memory x ≡ 0
  pub kept : (x : ℕ) → Outside o.result size x → o.memory x ≡ memory x
  pub valid : IsValid o.arena
  pub same_buf : let b = o.arena in b.buf_ptr ≡ a.buf_ptr
  pub same_len : let b = o.arena in b.buf_len ≡ a.buf_len

-- An allocation from a valid arena, for an alignment 2^k with k < 64, returns an aligned block of
-- zeros behind all earlier blocks, when the padding and the size fit the rest of the buffer; the
-- arena stays valid and keeps its buffer, and no byte outside the block changes.
pub allocate_aligned-Placed :
    (a : Arena) (memory : Memory) (k size : ℕ)
    → IsValid a
    → k < 64
    → size + padding a k ≤ a.buf_len - a.curr_offset
    → Returns (Placed a memory k size) (allocate_aligned a memory (2 ^ k) size)
allocate_aligned-Placed a memory k size v hk room =
    let fits : leb (size + padding a k) (a.buf_len - a.curr_offset) ≡ true = ground arith in
    let start : ℕ = a.buf_ptr + a.curr_offset + padding a k in
    rw (allocate_aligned_lem a memory k size v hk, fits)
      (returns (record {
        aligned = add-padding_to (2 ^ k) (a.buf_ptr + a.curr_offset) (two-pow-pos k);
        behind = omega arith;
        start = omega arith;
        end = omega arith;
        zeros = memset-inside memory start size;
        kept = memset-Outside memory start size;
        valid = record {
          not_null = v.not_null;
          fits = v.fits;
          ordered = omega arith;
          bounded = omega (arith, v.bounded);
        };
        same_buf = refl;
        same_len = refl;
      }))

pub record Request : Type 0 where
  pub exponent : ℕ
  pub size : ℕ

pub record Block : Type 0 where
  pub start : ℕ
  pub size : ℕ

-- allocations one after another, and the blocks they gave
unfoldable pub allocate_all : List Request → Arena → Memory → Run (List Block × Arena × Memory)
allocate_all [] a memory = ok ([], a, memory)
allocate_all (r ∷ rs) a memory = do
  o ← allocate_aligned a memory (2 ^ r.exponent) r.size
  (blocks, a', memory') ← allocate_all rs o.arena o.memory
  ok (
    if o.result == null then blocks else record { start = o.result; size = r.size } ∷ blocks,
    a',
    memory',
  )

-- the blocks follow one another from `lo` to `hi` and hold zeros
pub data Ordered (memory : Memory) : (lo hi : ℕ) → List Block → Type 0 where
  none : {lo hi : ℕ} → lo ≤ hi → Ordered memory lo hi []
  block :
      {lo hi : ℕ} {b : Block} {bs : List Block}
      → lo ≤ b.start
      → ((x : ℕ) → b.start ≤ x → x < b.start + b.size → memory x ≡ 0)
      → Ordered memory (b.start + b.size) hi bs
      → Ordered memory lo hi (b ∷ bs)

-- `x` is a byte of none of the blocks
pub data AllOutside (x : ℕ) : List Block → Type 0 where
  nil : AllOutside x []
  cons :
      {b : Block} {bs : List Block}
      → Outside b.start b.size x
      → AllOutside x bs
      → AllOutside x (b ∷ bs)

AllOutside-inv :
    {x : ℕ} {b : Block} {bs : List Block}
    → AllOutside x (b ∷ bs)
    → Outside b.start b.size x × AllOutside x bs
AllOutside-inv (AllOutside.cons out rest) = (out, rest)

-- what lies before the first block is in none
below-AllOutside :
    {memory : Memory} {lo hi x : ℕ} {bs : List Block}
    → Ordered memory lo hi bs
    → x < lo
    → AllOutside x bs
below-AllOutside (Ordered.none le) below = AllOutside.nil
below-AllOutside (Ordered.block le zeros rest) below =
    AllOutside.cons (inl (omega arith)) (below-AllOutside rest (omega arith))

pub data AllSmall : List Request → Type 0 where
  nil : AllSmall []
  cons : {r : Request} {rs : List Request} → r.exponent < 64 → AllSmall rs → AllSmall (r ∷ rs)

-- what a sequence of allocations from `a` leaves
pub record Laid (a : Arena) (memory : Memory) (blocks : List Block) (a' : Arena) (memory' : Memory)
    : Type 0 where
  pub ordered : Ordered memory' (a.buf_ptr + a.curr_offset) (a'.buf_ptr + a'.curr_offset) blocks
  pub kept : (x : ℕ) → AllOutside x blocks → memory' x ≡ memory x
  pub valid : IsValid a'
  pub same_buf : a'.buf_ptr ≡ a.buf_ptr
  pub same_len : a'.buf_len ≡ a.buf_len

Laid-behind :
    {a b : Arena} {memory memory' middle : Memory} {blocks : List Block} {a' : Arena}
    (start size : ℕ)
    → Laid b middle blocks a' memory'
    → start + size ≡ b.buf_ptr + b.curr_offset
    → a.buf_ptr + a.curr_offset ≤ start
    → ((x : ℕ) → start ≤ x → x < start + size → middle x ≡ 0)
    → ((x : ℕ) → Outside start size x → middle x ≡ memory x)
    → b.buf_ptr ≡ a.buf_ptr
    → b.buf_len ≡ a.buf_len
    → Laid a memory (record { start = start; size = size } ∷ blocks) a' memory'
Laid-behind start size l e behind zeros kept same same' = record {
  ordered =
      Ordered.block behind
        (λ x lo hi. l.kept x (below-AllOutside l.ordered (omega (arith, e))) ∙ zeros x lo hi)
        (rw e l.ordered);
  kept = λ x out. let (here, rest) = AllOutside-inv out in l.kept x rest ∙ kept x here;
  valid = l.valid;
  same_buf = l.same_buf ∙ same;
  same_len = l.same_len ∙ same';
}

-- From a valid arena, any sequence of allocations with alignments below 2^64 gives blocks that
-- follow one another without overlap inside the buffer, all still filled with zeros at the end; the
-- arena stays valid and no byte outside the blocks changes.
pub allocate_all-Laid :
    (requests : List Request) (a : Arena) (memory : Memory)
    → AllSmall requests
    → IsValid a
    → Returns
        (λ (blocks, a', memory'). Laid a memory blocks a' memory')
        (allocate_all requests a memory)
unfolding allocate_all
allocate_all-Laid [] a memory small v = returns (record {
  ordered = Ordered.none (omega arith);
  kept = λ x out. refl;
  valid = v;
  same_buf = refl;
  same_len = refl;
})
allocate_all-Laid (r ∷ rs) a memory (AllSmall.cons hk small) v =
    elim (Bool-cases (leb (r.size + padding a r.exponent) (a.buf_len - a.curr_offset))) [
      | inl room ↦
          let (o, e, p) =
            Returns-inv
              (allocate_aligned-Placed a memory r.exponent r.size v hk (leb→le _ _ room)) in
          let ((blocks, a', memory'), e', l) =
            Returns-inv (allocate_all-Laid rs o.arena o.memory small p.valid) in
          let somewhere : (o.result == null) ≡ false = ground (arith, v.not_null, p.behind) in
          rw (e, e', somewhere)
            (returns
              (Laid-behind o.result r.size l p.end p.behind p.zeros p.kept p.same_buf p.same_len))
      | inr short ↦
          rw (allocate_aligned_lem a memory r.exponent r.size v hk, short)
            (Returns-bind (allocate_all-Laid rs a memory small v)
              λ (blocks, a', memory') l. returns l)
    ]

restore-Laid :
    {a a' : Arena} {memory memory' : Memory} {blocks : List Block}
    → Laid a memory blocks a' memory'
    → restore a' (save a) ≡ a
unfolding restore save
restore-Laid l = rw (l.same_buf, l.same_len) refl

-- Saving the state of a valid arena, allocating anything with alignments below 2^64 and restoring
-- the state gives back the arena as it was.
pub restore-save :
    (requests : List Request) (a : Arena) (memory : Memory)
    → AllSmall requests
    → IsValid a
    → Returns (λ (blocks, a', memory'). restore a' (save a) ≡ a) (allocate_all requests a memory)
restore-save requests a memory small v =
    Returns-map (allocate_all-Laid requests a memory small v)
      (λ (blocks, a', memory'). restore-Laid)

-- init, for an alignment 2^k with k < 64 and a buffer in the address space with room for the
-- padding, gives a valid arena without allocations whose buffer is aligned and ends where the
-- backing buffer ends.
pub arena_init_lem :
    (k len backing_buf : ℕ)
    → k < 64
    → 0 < backing_buf
    → backing_buf + len < 2 ^ 64
    → padding_to (2 ^ k) backing_buf ≤ len
    → Returns
        (λ a.
          IsValid a
          × (a.buf_ptr % 2 ^ k ≡ 0)
          × (a.curr_offset ≡ 0)
          × (a.buf_ptr + a.buf_len ≡ backing_buf + len))
        (init (2 ^ k) len backing_buf)
unfolding init calc_alignment_padding
arena_init_lem k len backing_buf hk pos inside room =
    let p = padding_to (2 ^ k) backing_buf in
    let given : (backing_buf == null) ≡ false = ground arith in
    let enough : leb p len ≡ true = ground arith in
    let start : add_size backing_buf p ≡ backing_buf + p = omega arith in
    let rest : sub_size len p ≡ len - p = omega arith in
    rw
      (
        given,
        is_pow2-pow k hk,
        sub_size-aligned_from k backing_buf hk (omega arith),
        enough,
        start,
        rest,
      )
      (returns (
        record {
          not_null = omega arith;
          fits = omega arith;
          ordered = omega arith;
          bounded = omega arith;
        },
        add-padding_to (2 ^ k) backing_buf (two-pow-pos k),
        refl,
        omega arith,
      ))
