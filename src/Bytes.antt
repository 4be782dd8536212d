-- ===== src/Bytes.antt =====
-- Memory as a byte for each address, which dsa/arena.h and dsa/pool.h share: clearing a range, and
-- numbers of several bytes, of which a little-endian machine keeps the lowest byte first.
use dsa_c.Prelude.{
  ℕ, zero, suc, ◌+◌, ◌*◌, ◌/◌, ◌%◌, ◌^◌, ◌≤◌, ◌<◌, ◌≡◌, ◌⊎◌, inl, inr, refl, Bool, true, false,
  arith, ltb, leb, ◌==◌, ◌&&◌, if◌then◌else◌,
}

abbrev pub Memory : Type 0
Memory = ℕ → ℕ

abbrev pub within : ℕ → ℕ → ℕ → Bool
within ptr size address = leb ptr address && ltb address (ptr + size)

-- `memset(ptr, 0, size)`
unfoldable pub memset : Memory → ℕ → ℕ → Memory
memset memory ptr size = λ address. if within ptr size address then 0 else memory address

-- the number in the bytes from an address on
unfoldable pub load_bytes : (count : ℕ) → Memory → ℕ → ℕ
load_bytes zero memory ptr = 0
load_bytes (suc n) memory ptr = memory ptr + 256 * load_bytes n memory (suc ptr)

-- the number is written to the bytes from an address on
unfoldable pub store_bytes : (count : ℕ) → Memory → (ptr value : ℕ) → Memory
store_bytes zero memory ptr value = memory
store_bytes (suc n) memory ptr value = λ address.
    let rest = store_bytes n memory (suc ptr) (value / 256) address in
    if address == ptr then value % 256 else rest

-- `x` is none of the `size` bytes from `ptr` on
abbrev pub Outside : ℕ → ℕ → ℕ → Type 0
Outside ptr size x = (x < ptr) ⊎ (ptr + size ≤ x)

pub memset-inside :
    (memory : Memory) (ptr size x : ℕ) → ptr ≤ x → x < ptr + size → memset memory ptr size x ≡ 0
unfolding memset
memset-inside memory ptr size x lo hi = ground arith

pub memset-Outside :
    (memory : Memory) (ptr size x : ℕ) → Outside ptr size x → memset memory ptr size x ≡ memory x
unfolding memset
memset-Outside memory ptr size x (inl below) = ground arith
memset-Outside memory ptr size x (inr behind) = ground arith

pub store_bytes-Outside :
    (n : ℕ) (memory : Memory) (ptr value x : ℕ)
    → Outside ptr n x
    → store_bytes n memory ptr value x ≡ memory x
unfolding store_bytes
store_bytes-Outside zero memory ptr value x out = refl
store_bytes-Outside (suc n) memory ptr value x (inl below) =
    let elsewhere : (x == ptr) ≡ false = ground arith in
    rw elsewhere (store_bytes-Outside n memory (suc ptr) (value / 256) x (inl (omega arith)))
store_bytes-Outside (suc n) memory ptr value x (inr behind) =
    let elsewhere : (x == ptr) ≡ false = ground arith in
    rw elsewhere (store_bytes-Outside n memory (suc ptr) (value / 256) x (inr (omega arith)))

pub load_bytes-same :
    (n : ℕ) (memory memory' : Memory) (ptr : ℕ)
    → ((x : ℕ) → ptr ≤ x → x < ptr + n → memory' x ≡ memory x)
    → load_bytes n memory' ptr ≡ load_bytes n memory ptr
unfolding load_bytes
load_bytes-same zero memory memory' ptr same = refl
load_bytes-same (suc n) memory memory' ptr same =
    rw
      (
        same ptr (omega arith) (omega arith),
        load_bytes-same n memory memory' (suc ptr) (λ x lo hi. same x (omega arith) (omega arith)),
      )
      refl

-- What was written is read, if it fits the bytes.
pub load_bytes-store_bytes :
    (n : ℕ) (memory : Memory) (ptr value : ℕ)
    → value < 256 ^ n
    → load_bytes n (store_bytes n memory ptr value) ptr ≡ value
unfolding load_bytes store_bytes
load_bytes-store_bytes zero memory ptr value h = omega arith
load_bytes-store_bytes (suc n) memory ptr value h =
    let itself : (ptr == ptr) ≡ true = ground arith in
    let rest = store_bytes n memory (suc ptr) (value / 256) in
    let behind =
      load_bytes-same n rest (store_bytes (suc n) memory ptr value) (suc ptr)
        (λ x lo hi. let elsewhere : (x == ptr) ≡ false = ground arith in rw elsewhere refl) in
    let read = load_bytes-store_bytes n memory (suc ptr) (value / 256) (omega arith) in
    rw (itself, behind, read) (omega arith)
