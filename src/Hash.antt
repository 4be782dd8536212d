-- ===== src/Hash.antt =====
-- dsa/fnvhash.h and dsa/murmurhash.h: hashes of a string of bytes. A pointer into the string is the
-- list of what is left from it on; reading past its end faults.
pub mod Fnv
pub mod Murmur
mod Tests
use dsa_c.Prelude.{
  ℕ, zero, suc, ◌+◌, ◌-◌, ◌*◌, ◌/◌, ◌%◌, ◌^◌, bit_and, bit_or, bit_xor, Bool, true, false, List, [],
  ◌∷◌, ltb, ◌==◌, ◌&&◌, not, if◌then◌else◌,
}
use dsa_c.Run.{Run, ok, fault, out_of_bounds, load, ◌>>=◌}
use dsa_c.Word.{add32, mul32, shl32}

abbrev pub fnv_basis : ℕ
fnv_basis = 2166136261

abbrev pub fnv_prime : ℕ
fnv_prime = 16777619

-- `hash ^= c; hash *= 0x01000193;`
unfoldable pub fnv_round : ℕ → ℕ → ℕ
fnv_round hash c = mul32 (bit_xor hash c) fnv_prime

unfoldable pub fnvhash_32_loop : (rounds : ℕ) → List ℕ → ℕ → Run ℕ
fnvhash_32_loop zero char_p hash = ok hash
fnvhash_32_loop (suc n) [] hash = fault out_of_bounds
fnvhash_32_loop (suc n) (c ∷ char_p) hash = fnvhash_32_loop n char_p (fnv_round hash c)

unfoldable pub fnvhash_32 : List ℕ → ℕ → Run ℕ
unfolding fnvhash_32_loop
fnvhash_32 char_p length = fnvhash_32_loop length char_p fnv_basis

-- `(uint32_t) *char_p`: where `char` is signed, a byte from 128 on is negative
unfoldable pub uint32_of_char : (char_is_signed : Bool) → ℕ → ℕ
uint32_of_char char_is_signed c =
    if char_is_signed && not (ltb c 128) then c + (2 ^ 32 - 2 ^ 8) else c

unfoldable pub fnvhash_32_str_loop : (char_is_signed : Bool) → List ℕ → ℕ → Run ℕ
fnvhash_32_str_loop char_is_signed [] hash = fault out_of_bounds
fnvhash_32_str_loop char_is_signed (zero ∷ char_p) hash = ok hash
fnvhash_32_str_loop char_is_signed (suc c ∷ char_p) hash =
    fnvhash_32_str_loop char_is_signed char_p
      (fnv_round hash (uint32_of_char char_is_signed (suc c)))

unfoldable pub fnvhash_32_str : (char_is_signed : Bool) → List ℕ → Run ℕ
unfolding fnvhash_32_str_loop
fnvhash_32_str char_is_signed char_p = fnvhash_32_str_loop char_is_signed char_p fnv_basis

-- `(x << s) | (x >> (32 - s))`
unfoldable pub rotate : ℕ → ℕ → ℕ
rotate x s = bit_or (shl32 x s) (x / 2 ^ (32 - s))

unfoldable pub murmur_32_scramble : ℕ → ℕ
unfolding rotate
murmur_32_scramble k = mul32 (rotate (mul32 k 3432918353) 15) 461845907

-- `memcpy(&k, key_ptr, 4); key_ptr += 4;` on a little-endian machine
unfoldable pub read_word : List ℕ → Run (ℕ × List ℕ)
read_word (a ∷ b ∷ c ∷ d ∷ key_ptr) = ok (a + 2 ^ 8 * b + 2 ^ 16 * c + 2 ^ 24 * d, key_ptr)
read_word _ = fault out_of_bounds

-- one round on a word: `h ^= scramble(k); h = (h << 13) | (h >> 19); h = h * 5 + 0xe6546b64;`
unfoldable pub mix : ℕ → ℕ → ℕ
unfolding murmur_32_scramble rotate
mix h k = add32 (mul32 (rotate (bit_xor h (murmur_32_scramble k)) 13) 5) 3864292196

-- the loop over groups of 4 bytes
unfoldable pub groups : (rounds : ℕ) → List ℕ → ℕ → Run (ℕ × List ℕ)
groups zero key_ptr h = ok (h, key_ptr)
groups (suc n) key_ptr h = do (k, key_ptr') ← read_word key_ptr; groups n key_ptr' (mix h k)

-- the loop over the rest, from its last byte down to its first
unfoldable pub read_rest : (i : ℕ) → List ℕ → ℕ → Run ℕ
read_rest zero key_ptr k = ok k
read_rest (suc i) key_ptr k = do
  byte ← load key_ptr i
  read_rest i key_ptr (bit_or (shl32 k 8) byte)

-- `h ^= h >> s`
unfoldable pub xor_shift : ℕ → ℕ → ℕ
xor_shift h s = bit_xor h (h / 2 ^ s)

unfoldable pub finalize : ℕ → ℕ → ℕ
unfolding xor_shift
finalize h len =
    let h₁ = xor_shift (bit_xor h len) 16 in
    let h₂ = xor_shift (mul32 h₁ 2246822507) 13 in xor_shift (mul32 h₂ 3266489909) 16

unfoldable pub murmur3_32 : List ℕ → (len seed : ℕ) → Run ℕ
unfolding groups read_rest murmur_32_scramble finalize
murmur3_32 key_ptr len seed = do
  (h, rest) ← groups (len / 2 ^ 2) key_ptr seed
  k ← read_rest (bit_and len 3) rest 0
  ok (finalize (bit_xor h (murmur_32_scramble k)) len)
