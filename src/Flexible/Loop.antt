-- ===== src/Flexible/Loop.antt =====
-- What the array loops do, on arrays that hold every index they touch.
use native.Mathlib.Decide.{ℕ_discrete}
use dsa_c.Prelude.{
  ℕ, zero, suc, ◌+◌, ◌≤◌, ◌<◌, ◌≡◌, refl, ap, ◌∙◌, List, [], ◌∷◌, ◌++◌, some, arith,
}
use dsa_c.Prelude.Array
use dsa_c.Prelude.Array.{Zeroed, length}
use dsa_c.Run.{ok, Returns, returns, Returns-map, load-ok, store-ok}
use dsa_c.Flexible.{copy_loop, visit}

module _ {ℓ} {A : Type ℓ} ⦃z : Zeroed A⦄ where
  -- the entries at the given indices
  abbrev pub gather : (ℕ → ℕ) → (rounds i : ℕ) → List A → List A
  gather index zero i values = []
  gather index (suc n) i values = Array.get! values (index i) ∷ gather index n (suc i) values

  pub visit-eq-gather :
      (index : ℕ → ℕ) (n i : ℕ) (values : List A)
      → ((j : ℕ) → j < i + n → index j < length values)
      → visit index n i values ≡ ok (gather index n i values)
  unfolding visit
  visit-eq-gather index zero i values h = refl
  visit-eq-gather index (suc n) i values h = rw (
    load-ok values (index i) (h i (omega arith)),
    visit-eq-gather index n (suc i) values (λ j p. h j (omega arith)),
  )

  pub gather-ext :
      (index index' : ℕ → ℕ) (n i : ℕ) (xs ys : List A)
      → ((j : ℕ) → i ≤ j → j < i + n → Array.get! xs (index j) ≡ Array.get! ys (index' j))
      → gather index n i xs ≡ gather index' n i ys
  gather-ext index index' zero i xs ys h = refl
  gather-ext index index' (suc n) i xs ys h = rw (
    h i (omega arith) (omega arith),
    gather-ext index index' n (suc i) xs ys (λ j p q. h j (omega arith) (omega arith)),
  )

  -- the last entry
  pub gather-suc :
      (index : ℕ → ℕ) (n i : ℕ) (values : List A)
      → gather index (suc n) i values
        ≡ gather index n i values ++ Array.get! values (index (i + n)) ∷ []
  gather-suc index zero i values = ap (λ k. Array.get! values (index k) ∷ []) (omega arith)
  gather-suc index (suc n) i values = ap (◌∷◌ (Array.get! values (index i))) (
      gather-suc index n (suc i) values
      ∙ ap (λ k. gather index n (suc i) values ++ Array.get! values (index k) ∷ []) (omega arith))

  -- counting from one later
  pub gather-shift :
      (index : ℕ → ℕ) (n i : ℕ) (values : List A)
      → gather index n (suc i) values ≡ gather (λ j. index (suc j)) n i values
  gather-shift index zero i values = refl
  gather-shift index (suc n) i values =
      ap (◌∷◌ (Array.get! values (index (suc i)))) (gather-shift index n (suc i) values)

  pub length-gather :
      (index : ℕ → ℕ) (n i : ℕ) (values : List A) → length (gather index n i values) ≡ n
  length-gather index zero i values = refl
  length-gather index (suc n) i values = ap suc (length-gather index n (suc i) values)

  pub get_elem?-gather :
      (index : ℕ → ℕ) (n i j : ℕ) (values : List A)
      → j < n
      → Array.get_elem? (gather index n i values) j ≡ some (Array.get! values (index (i + j)))
  get_elem?-gather index zero i j values h = absurd (omega arith)
  get_elem?-gather index (suc n) i zero values h =
      ap (λ k. some (Array.get! values (index k))) (omega arith)
  get_elem?-gather index (suc n) i (suc j) values h =
      get_elem?-gather index n (suc i) j values (omega arith)
      ∙ ap (λ k. some (Array.get! values (index k))) (omega arith)

  pub get_elem?-gather_zero :
      (index : ℕ → ℕ) (n j : ℕ) (values : List A)
      → j < n
      → Array.get_elem? (gather index n 0 values) j ≡ some (Array.get! values (index j))
  get_elem?-gather_zero index n j values h =
      get_elem?-gather index n 0 j values h
      ∙ ap (λ k. some (Array.get! values (index k))) (omega arith)

  -- `d'` is `dest` with the entries from `i` on, `n` of them, taken from `src`
  pub record Copied (index : ℕ → ℕ) (n i : ℕ) (src dest d' : List A) : Type ℓ where
    pub size : length d' ≡ length dest
    pub below : (j : ℕ) → j < i → Array.get! d' j ≡ Array.get! dest j
    pub copied : (j : ℕ) → i ≤ j → j < i + n → Array.get! d' j ≡ Array.get! src (index j)

  pub copy_loop-Copied :
      (index : ℕ → ℕ) (n i : ℕ) (src dest : List A)
      → ((j : ℕ) → j < i + n → index j < length src)
      → i + n ≤ length dest
      → Returns (Copied index n i src dest) (copy_loop index n i src dest)
  unfolding copy_loop
  copy_loop-Copied index zero i src dest h room =
      returns (record { size = refl; below = λ j p. refl; copied = λ j p q. absurd (omega arith) })
  copy_loop-Copied index (suc n) i src dest h room =
      let x = Array.get! src (index i) in
      let written = Array.get!-set dest i in
      let size = Array.length-set dest i x in
      rw (load-ok src (index i) (h i (omega arith)), store-ok dest i x (omega arith))
        (Returns-map
          (copy_loop-Copied index n (suc i) src (Array.set dest i x) (λ j p. h j (omega arith))
            (omega (arith, size)))
          λ d' c. record {
            size = c.size ∙ size;
            below = λ j p. ground (arith, c.below j, written j x);
            copied = λ j p q. elim (ℕ_discrete i j) [
              | yes e ↦ rw (← e) (ground (arith, c.below i, written i x))
              | no ne ↦ c.copied j (omega arith) (omega arith)
            ];
          })
