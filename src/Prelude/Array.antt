-- ===== src/Prelude/Array.antt =====
-- C arrays as lists under native indices, for qualified use (`Array.set`). `Zeroed` is the value
-- of which `calloc` makes every element.
use Prim.Native.Nat.{ℕ, zero, suc, ◌+◌, ◌≤◌, ◌<◌}
use mathlib.Core.Path.{◌≡◌, refl, ap, ◌∙◌}
use mathlib.Core.Logic.{∥∥₁_elim}
use mathlib.Core.List.{List, [], ◌∷◌, ◌++◌, Perm, Permᴰ, append-nil, perm_middle}
use mathlib.Core.List.Perm
use mathlib.Core.Option.{Option, none, some}
use native.Mathlib.Nat.{ℕ_set}
use native.Mathlib.Omega.{arith}
use dsa_c.Prelude.Tests.{◌==◌, if◌then◌else◌}

pub record Zeroed {ℓ} (A : Type ℓ) : Type ℓ where
  pub zero_value : A

module _ {ℓ} {A : Type ℓ} where
  abbrev pub length : List A → ℕ
  length [] = 0
  length (_ ∷ xs) = suc (length xs)

  abbrev pub get_elem? : List A → ℕ → Option A
  get_elem? [] _ = none
  get_elem? (x ∷ _) zero = some x
  get_elem? (_ ∷ xs) (suc i) = get_elem? xs i

  abbrev pub set : List A → ℕ → A → List A
  set [] _ _ = []
  set (_ ∷ xs) zero v = v ∷ xs
  set (x ∷ xs) (suc i) v = x ∷ set xs i v

  abbrev pub take : ℕ → List A → List A
  take zero _ = []
  take (suc n) [] = []
  take (suc n) (x ∷ xs) = x ∷ take n xs

  unfoldable pub replicate : ℕ → A → List A
  replicate zero a = []
  replicate (suc n) a = a ∷ replicate n a

  pub length-append : (xs ys : List A) → length (xs ++ ys) ≡ length xs + length ys
  length-append [] ys = omega arith
  length-append (x ∷ xs) ys = omega (arith, length-append xs ys)

  pub length-set : (xs : List A) (i : ℕ) (v : A) → length (set xs i v) ≡ length xs
  length-set [] i v = refl
  length-set (x ∷ xs) zero v = refl
  length-set (x ∷ xs) (suc i) v = ap suc (length-set xs i v)

  pub length-replicate : (n : ℕ) (a : A) → length (replicate n a) ≡ n
  unfolding replicate
  length-replicate zero a = refl
  length-replicate (suc n) a = ap suc (length-replicate n a)

  pub length-take : (n : ℕ) (xs : List A) → n ≤ length xs → length (take n xs) ≡ n
  length-take zero xs h = refl
  length-take (suc n) [] h = absurd (omega arith)
  length-take (suc n) (x ∷ xs) h = ap suc (length-take n xs (omega arith))

  pub take-replicate : (n : ℕ) (a : A) → take n (replicate n a) ≡ replicate n a
  unfolding replicate
  take-replicate zero a = refl
  take-replicate (suc n) a = ap (◌∷◌ a) (take-replicate n a)

  -- a write just past a prefix makes it one longer
  pub take-set_next :
      (n : ℕ) (xs : List A) (v : A)
      → n < length xs
      → take (suc n) (set xs n v) ≡ take n xs ++ v ∷ []
  take-set_next n [] v h = absurd (omega arith)
  take-set_next zero (x ∷ xs) v h = refl
  take-set_next (suc n) (x ∷ xs) v h = ap (◌∷◌ x) (take-set_next n xs v (omega arith))

  Permᴰ-length : {xs ys : List A} → Permᴰ xs ys → length xs ≡ length ys
  Permᴰ-length (Permᴰ.trans first second) = Permᴰ-length first ∙ Permᴰ-length second
  Permᴰ-length (Permᴰ.cons _ tails) = ap suc (Permᴰ-length tails)
  Permᴰ-length (Permᴰ.swap _ _) = refl
  Permᴰ-length Permᴰ.nil = refl

  pub length-perm : {xs ys : List A} → Perm xs ys → length xs ≡ length ys
  length-perm p = ∥∥₁_elim p (ℕ_set _ _) Permᴰ-length

  pub snoc-perm : (xs : List A) (x : A) → Perm (xs ++ x ∷ []) (x ∷ xs)
  snoc-perm xs x = rw (append-nil xs) at (perm_middle {a = x} xs [])

  pub take-set : (n : ℕ) (xs : List A) (i : ℕ) (v : A) → take n (set xs i v) ≡ set (take n xs) i v
  take-set zero xs i v = refl
  take-set (suc n) [] i v = refl
  take-set (suc n) (x ∷ xs) zero v = refl
  take-set (suc n) (x ∷ xs) (suc i) v = ap (◌∷◌ x) (take-set n xs i v)

module _ {ℓ} {A : Type ℓ} ⦃z : Zeroed A⦄ where
  unfoldable pub get! : List A → ℕ → A
  get! [] _ = z.zero_value
  get! (x ∷ _) zero = x
  get! (_ ∷ xs) (suc i) = get! xs i

  pub get_elem?-get! : (xs : List A) (i : ℕ) → i < length xs → get_elem? xs i ≡ some (get! xs i)
  unfolding get!
  get_elem?-get! [] i h = absurd (omega arith)
  get_elem?-get! (x ∷ xs) zero h = refl
  get_elem?-get! (x ∷ xs) (suc i) h = get_elem?-get! xs i (omega arith)

  pub get!-set :
      (xs : List A) (i j : ℕ) (v : A)
      → i < length xs
      → get! (set xs i v) j ≡ (if i == j then v else get! xs j)
  unfolding get!
  get!-set [] i j v h = absurd (omega arith)
  get!-set (x ∷ xs) (suc i) (suc j) v h = ground (arith, get!-set xs i j v)
  get!-set (x ∷ xs) zero zero v h = refl
  get!-set (x ∷ xs) i j v h = ground arith

  pub get!-take : (n : ℕ) (xs : List A) (i : ℕ) → i < n → get! (take n xs) i ≡ get! xs i
  unfolding get!
  get!-take zero xs i h = absurd (omega arith)
  get!-take (suc n) [] i h = refl
  get!-take (suc n) (x ∷ xs) zero h = refl
  get!-take (suc n) (x ∷ xs) (suc i) h = get!-take n xs i (omega arith)

  -- the last entry of a prefix
  pub take-suc :
      (n : ℕ) (xs : List A) → n < length xs → take (suc n) xs ≡ take n xs ++ get! xs n ∷ []
  unfolding get!
  take-suc n [] h = absurd (omega arith)
  take-suc zero (x ∷ xs) h = refl
  take-suc (suc n) (x ∷ xs) h = ap (◌∷◌ x) (take-suc n xs (omega arith))

  -- a write trades the old entry for the new one
  pub set-perm :
      (xs : List A) (i : ℕ) (v : A) → i < length xs → Perm (get! xs i ∷ set xs i v) (v ∷ xs)
  unfolding get!
  set-perm [] i v h = absurd (omega arith)
  set-perm (x ∷ xs) zero v h = Perm.swap v x xs
  set-perm (x ∷ xs) (suc i) v h =
      Perm.trans (Perm.swap x _ _)
        (Perm.trans (Perm.cons x (set-perm xs i v (omega arith))) (Perm.swap v x xs))

  -- exchanging two entries keeps the values
  pub swap-perm :
      (xs : List A) (i j : ℕ)
      → ¬ (i ≡ j)
      → i < length xs
      → j < length xs
      → Perm (set (set xs i (get! xs j)) j (get! xs i)) xs
  swap-perm xs i j ne hi hj =
      let x = get! xs i in
      let y = get! xs j in
      let ys = set xs i y in
      let kept : get! ys j ≡ y = ground (arith, get!-set xs i j y hi) in
      let second = rw kept at (set-perm ys j x (rw (length-set xs i y) hj)) in
      Perm.cons_inv (Perm.trans second (set-perm xs i y hi))

  -- what stands where after the exchange
  pub get!-swap :
      (xs : List A) (i j k : ℕ)
      → i < length xs
      → j < length xs
      → get! (set (set xs i (get! xs j)) j (get! xs i)) k
        ≡ (if j == k then get! xs i else (if i == k then get! xs j else get! xs k))
  get!-swap xs i j k hi hj =
      rw
        (
          get!-set (set xs i (get! xs j)) j k (get! xs i) (rw (length-set xs i (get! xs j)) hj),
          get!-set xs i k (get! xs j) hi,
        )
        refl

  -- the exchange within a prefix
  pub take_swap-perm :
      (n : ℕ) (xs : List A) (i j : ℕ)
      → ¬ (i ≡ j)
      → i < n
      → j < n
      → n ≤ length xs
      → Perm (take n (set (set xs i (get! xs j)) j (get! xs i))) (take n xs)
  take_swap-perm n xs i j ne hi hj h =
      let size = length-take n xs h in
      let swapped = swap-perm (take n xs) i j ne (omega (arith, size)) (omega (arith, size)) in
      rw (take-set n (set xs i (get! xs j)) j (get! xs i), take-set n xs i (get! xs j))
        (rw (get!-take n xs i hi, get!-take n xs j hj) at swapped)

  pub take-ext :
      (n : ℕ) (xs ys : List A)
      → n ≤ length xs
      → n ≤ length ys
      → ((i : ℕ) → i < n → get! xs i ≡ get! ys i)
      → take n xs ≡ take n ys
  unfolding get!
  take-ext zero xs ys hx hy e = refl
  take-ext (suc n) [] ys hx hy e = absurd (omega arith)
  take-ext (suc n) (x ∷ xs) [] hx hy e = absurd (omega arith)
  take-ext (suc n) (x ∷ xs) (y ∷ ys) hx hy e =
      rw
        (
          e 0 (omega arith),
          take-ext n xs ys (omega arith) (omega arith) (λ i p. e (suc i) (omega arith)),
        )
        refl
