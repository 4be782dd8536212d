-- ===== src/Hash/Murmur.antt =====
-- The hash of dsa/murmurhash.h: what it returns, and that it looks at the given bytes only.
use mathlib.Core.List.{append-nil}
use dsa_c.Prelude.{
  ℕ, zero, suc, ◌+◌, ◌*◌, ◌/◌, ◌%◌, ◌^◌, ◌≤◌, ◌<◌, ◌≡◌, refl, List, [], ◌∷◌, ◌++◌, arith, bit_and,
  bit_or,
}
use dsa_c.Prelude.Array.{length}
use dsa_c.Prelude.Bits.{bit_xor-lt, bit_and_mask}
use dsa_c.Run.{Run, ok, Returns, returns, load}
use dsa_c.Word.{shl32}
use dsa_c.Hash.{read_word, mix, groups, read_rest, xor_shift, finalize, murmur3_32}

-- a call that leaves `tail` of a string leaves the rest of memory behind it as well
abbrev pub Leaves : (List ℕ → Run (ℕ × List ℕ)) → List ℕ → ℕ → Type 0
Leaves f key n =
    (h : ℕ) × (tail : List ℕ) × (length tail + n ≡ length key)
    × ((rest : List ℕ) → f (key ++ rest) ≡ ok (h, tail ++ rest))

groups-Leaves :
    (n : ℕ) (key : List ℕ) (h : ℕ) → 4 * n ≤ length key → Leaves (λ s. groups n s h) key (4 * n)
unfolding groups read_word
groups-Leaves zero key h p = (h, key, omega arith, λ rest. refl)
groups-Leaves (suc n) [] h p = absurd (omega arith)
groups-Leaves (suc n) (a ∷ []) h p = absurd (omega arith)
groups-Leaves (suc n) (a ∷ b ∷ []) h p = absurd (omega arith)
groups-Leaves (suc n) (a ∷ b ∷ c ∷ []) h p = absurd (omega arith)
groups-Leaves (suc n) (a ∷ b ∷ c ∷ d ∷ key) h p =
    let word : ℕ = a + 2 ^ 8 * b + 2 ^ 16 * c + 2 ^ 24 * d in
    let (h', tail, size, later) = groups-Leaves n key (mix h word) (omega arith) in
    (h', tail, omega (arith, size), later)

load-append : (i : ℕ) (xs rest : List ℕ) → i < length xs → load (xs ++ rest) i ≡ load xs i
unfolding load
load-append i [] rest p = absurd (omega arith)
load-append zero (x ∷ xs) rest p = refl
load-append (suc i) (x ∷ xs) rest p = load-append i xs rest (omega arith)

load-Returns : (i : ℕ) (xs : List ℕ) → i < length xs → (x : ℕ) × (load xs i ≡ ok x)
unfolding load
load-Returns i [] p = absurd (omega arith)
load-Returns zero (x ∷ xs) p = (x, refl)
load-Returns (suc i) (x ∷ xs) p = load-Returns i xs (omega arith)

read_rest-prefix :
    (i : ℕ) (tail : List ℕ) (k : ℕ)
    → i ≤ length tail
    → (k' : ℕ) × ((rest : List ℕ) → read_rest i (tail ++ rest) k ≡ ok k')
unfolding read_rest
read_rest-prefix zero tail k p = (k, λ rest. refl)
read_rest-prefix (suc i) tail k p =
    let (byte, e) = load-Returns i tail (omega arith) in
    let (k', later) = read_rest-prefix i tail (bit_or (shl32 k 8) byte) (omega arith) in
    (k', λ rest. rw (load-append i tail rest (omega arith), e) (later rest))

finalize-lt : (h len : ℕ) → finalize h len < 2 ^ 32
unfolding finalize xor_shift
finalize-lt h len = bit_xor-lt 32 _ _ (omega arith) (omega arith)

low_bits : (len : ℕ) → bit_and len 3 ≡ len % 4
low_bits len = bit_and_mask 2 len

-- The Murmur hash of a string of bytes returns a number of 32 bits that depends on the given bytes
-- only.
pub murmur3_32_lem :
    (key rest : List ℕ) (seed : ℕ)
    → Returns
        (λ hash. (hash < 2 ^ 32) × (murmur3_32 key (length key) seed ≡ ok hash))
        (murmur3_32 (key ++ rest) (length key) seed)
unfolding murmur3_32
murmur3_32_lem key rest seed =
    let len : ℕ = length key in
    let (h, tail, size, groups_end) = groups-Leaves (len / 2 ^ 2) key seed (omega arith) in
    let (k, rest_end) = read_rest-prefix (len % 4) tail 0 (omega (arith, size)) in
    let alone = rw (append-nil key, append-nil tail) at (groups_end []) in
    let rest_alone = rw (append-nil tail) at (rest_end []) in
    rw (groups_end rest, low_bits len, rest_end rest, alone, rest_alone)
      (returns (finalize-lt _ len, refl))
