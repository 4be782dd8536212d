-- ===== src/Hash/Tests.antt =====
-- Hashes whose values are published, and the instances of the theorems.
use dsa_c.Prelude.{ℕ, ◌≡◌, ◌≢◌, ◌<◌, ◌^◌, ◌++◌, refl, true, List, [], ◌∷◌, arith}
use dsa_c.Prelude.Array.{length}
use dsa_c.Run.{ok, Returns, ok-injective}
use dsa_c.Hash.{
  fnv_round, fnvhash_32_loop, fnvhash_32, uint32_of_char, fnvhash_32_str_loop, fnvhash_32_str,
  rotate, murmur_32_scramble, read_word, mix, groups, read_rest, xor_shift, finalize, murmur3_32,
}
use dsa_c.Hash.Fnv.{Text, fnvhash_32_str-fnvhash_32}
use dsa_c.Hash.Murmur.{murmur3_32_lem}

-- "test"
abbrev test : List ℕ
test = 116 ∷ 101 ∷ 115 ∷ 116 ∷ []

fnv_foobar : fnvhash_32_str true (102 ∷ 111 ∷ 111 ∷ 98 ∷ 97 ∷ 114 ∷ 0 ∷ []) ≡ ok 3214735720
unfolding fnvhash_32_str fnvhash_32_str_loop fnv_round uint32_of_char
fnv_foobar = refl

murmur_empty : murmur3_32 [] 0 1 ≡ ok 1364076727
unfolding murmur3_32 groups read_rest murmur_32_scramble rotate finalize xor_shift
murmur_empty = refl

murmur_test : murmur3_32 test 4 0 ≡ ok 3127628307
unfolding murmur3_32 groups read_word mix read_rest murmur_32_scramble rotate finalize xor_shift
murmur_test = refl

-- the same byte 255 hashes differently as a string where `char` is signed
sign_matters : fnvhash_32_str true (255 ∷ 0 ∷ []) ≢ fnvhash_32 (255 ∷ []) 1
unfolding fnvhash_32_str fnvhash_32_str_loop fnvhash_32 fnvhash_32_loop fnv_round uint32_of_char
sign_matters e = absurd (omega (arith, ok-injective e))

fnvhash_32_str-fnvhash_32_example :
    fnvhash_32_str true (test ++ 0 ∷ 7 ∷ []) ≡ fnvhash_32 (test ++ 0 ∷ 7 ∷ []) (length test)
fnvhash_32_str-fnvhash_32_example = fnvhash_32_str-fnvhash_32 true test (7 ∷ []) (
    Text.cons (omega arith) refl (
      Text.cons (omega arith) refl
        (Text.cons (omega arith) refl (Text.cons (omega arith) refl Text.nil))))

murmur3_32_lem_example :
    Returns
      (λ hash. (hash < 2 ^ 32) × (murmur3_32 test (length test) 5 ≡ ok hash))
      (murmur3_32 (test ++ 9 ∷ []) (length test) 5)
murmur3_32_lem_example = murmur3_32_lem test (9 ∷ []) 5
