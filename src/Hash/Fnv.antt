-- ===== src/Hash/Fnv.antt =====
-- The two hashes of dsa/fnvhash.h: of a number of bytes, and of a string up to its zero.
use dsa_c.Prelude.{
  ℕ, zero, suc, ◌^◌, ◌<◌, ◌≡◌, ◌≢◌, refl, ap, sym, ◌∙◌, Bool, false, List, [], ◌∷◌, ◌++◌, ltb, ◌&&◌,
  not, arith,
}
use dsa_c.Prelude.Array.{length}
use dsa_c.Run.{ok, Returns, returns}
use mathlib.Core.List.{append-nil}
use dsa_c.Hash.{
  fnv_round, fnv_basis, fnvhash_32_loop, fnvhash_32, uint32_of_char, fnvhash_32_str_loop,
  fnvhash_32_str,
}

-- the characters of a C string: no zero among them, and none that a signed `char` takes for negative
pub data Text (char_is_signed : Bool) : List ℕ → Type 0 where
  nil : Text char_is_signed []
  cons :
      {c : ℕ} {cs : List ℕ}
      → c ≢ 0
      → (char_is_signed && not (ltb c 128)) ≡ false
      → Text char_is_signed cs
      → Text char_is_signed (c ∷ cs)

-- the hash of all bytes of a list
unfoldable pub fold_hash : List ℕ → ℕ → ℕ
fold_hash [] hash = hash
fold_hash (c ∷ cs) hash = fold_hash cs (fnv_round hash c)

prefix_loop :
    (cs rest : List ℕ) (hash : ℕ)
    → fnvhash_32_loop (length cs) (cs ++ rest) hash ≡ ok (fold_hash cs hash)
unfolding fnvhash_32_loop fold_hash
prefix_loop [] rest hash = refl
prefix_loop (c ∷ cs) rest hash = prefix_loop cs rest (fnv_round hash c)

string_loop :
    (char_is_signed : Bool) (cs rest : List ℕ) (hash : ℕ)
    → Text char_is_signed cs
    → fnvhash_32_str_loop char_is_signed (cs ++ 0 ∷ rest) hash ≡ ok (fold_hash cs hash)
unfolding fnvhash_32_str_loop fold_hash uint32_of_char
string_loop s [] rest hash Text.nil = refl
string_loop s (zero ∷ cs) rest hash (Text.cons ne plain t) = absurd (ne refl)
string_loop s (suc c ∷ cs) rest hash (Text.cons ne plain t) =
    let positive : uint32_of_char s (suc c) ≡ suc c = rw plain refl in
    ap (λ u. fnvhash_32_str_loop s (cs ++ 0 ∷ rest) (fnv_round hash u)) positive
    ∙ string_loop s cs rest (fnv_round hash (suc c)) t

-- On a string without a zero, and without bytes from 128 on where char is signed, the hash up to
-- the terminating zero is the hash of its bytes, whatever lies behind in memory: both calls return
-- the same value.
pub fnvhash_32_str-fnvhash_32 :
    (char_is_signed : Bool) (cs rest : List ℕ)
    → Text char_is_signed cs
    → fnvhash_32_str char_is_signed (cs ++ 0 ∷ rest) ≡ fnvhash_32 (cs ++ 0 ∷ rest) (length cs)
unfolding fnvhash_32_str fnvhash_32
fnvhash_32_str-fnvhash_32 s cs rest t =
    string_loop s cs rest fnv_basis t ∙ sym (prefix_loop cs (0 ∷ rest) fnv_basis)

fold_hash-lt : (cs : List ℕ) (hash : ℕ) → hash < 2 ^ 32 → fold_hash cs hash < 2 ^ 32
unfolding fold_hash fnv_round
fold_hash-lt [] hash h = h
fold_hash-lt (c ∷ cs) hash h = fold_hash-lt cs (fnv_round hash c) (omega arith)

-- The FNV hash of bytes returns a number of 32 bits that depends on the given number of bytes only.
pub fnvhash_32_lem :
    (cs rest : List ℕ)
    → Returns
        (λ hash. (hash < 2 ^ 32) × (fnvhash_32 cs (length cs) ≡ ok hash))
        (fnvhash_32 (cs ++ rest) (length cs))
unfolding fnvhash_32
fnvhash_32_lem cs rest = rw (prefix_loop cs rest fnv_basis) (
    returns (
      fold_hash-lt cs fnv_basis (omega arith),
      rw (append-nil cs) at (prefix_loop cs [] fnv_basis),
    ))
