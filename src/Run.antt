-- ===== src/Run.antt =====
-- How a call ends: with a value, or by a fault. A failed `assert` faults, and so does an access
-- outside an array. `out_of_fuel` is the model's own: a loop that was given too few rounds.
use dsa_c.Prelude.{
  ℕ, zero, suc, ◌≤◌, ◌<◌, ◌≡◌, ◌⊎◌, inl, inr, refl, ap, sym, ◌∙◌, Bool, true, false, Option, none,
  some, List, [], ◌∷◌, arith,
}
use dsa_c.Prelude.Array
use dsa_c.Prelude.Array.{Zeroed, length}

pub data Fault : Type 0 where
  assertion out_of_bounds out_of_fuel : Fault

pub data Run {ℓ} (A : Type ℓ) : Type ℓ where
  ok : A → Run A
  fault : Fault → Run A

infixl 5 ◌>>=◌ ◌>>◌
abbrev pub ◌>>=◌ {ℓ κ} : {A : Type ℓ} {B : Type κ} → Run A → (A → Run B) → Run B
ok a >>= f = f a
fault e >>= f = fault e

abbrev pub ◌>>◌ {ℓ} : {B : Type ℓ} → Run (Unit {0}) → Run B → Run B
m >> k = m >>= λ _. k

-- `assert(b)`
abbrev pub assert : Bool → Run (Unit {0})
assert true = ok tt
assert false = fault assertion

-- the run ends with a value, and `Holds` is true of it
pub data Returns {ℓ κ} {A : Type ℓ} (Holds : A → Type κ) : Run A → Type (ℓ ⊔ κ) where
  returns : {value : A} → Holds value → Returns Holds (ok value)

module _ {ℓ κ} {A : Type ℓ} {Holds : A → Type κ} where
  pub Returns-inv : {m : Run A} → Returns Holds m → (value : A) × (m ≡ ok value) × Holds value
  Returns-inv (returns holds) = (_, refl, holds)

  pub Returns-map {κ'} :
      {m : Run A} {Then : A → Type κ'}
      → Returns Holds m
      → ((value : A) → Holds value → Then value)
      → Returns Then m
  Returns-map (returns holds) weaken = returns (weaken _ holds)

  pub Returns-bind {ℓ' κ'} :
      {B : Type ℓ'} {m : Run A} {Then : B → Type κ'} {next : A → Run B}
      → Returns Holds m
      → ((value : A) → Holds value → Returns Then (next value))
      → Returns Then (m >>= next)
  Returns-bind (returns holds) continues = continues _ holds

module _ {ℓ} {A : Type ℓ} where
  abbrev pub or_fault : Option A → Run A
  or_fault none = fault out_of_bounds
  or_fault (some a) = ok a

  -- `values[i]`
  unfoldable pub load : List A → ℕ → Run A
  load xs i = or_fault (Array.get_elem? xs i)

  -- `values[i] = v`
  unfoldable pub store : List A → ℕ → A → Run (List A)
  store [] i v = fault out_of_bounds
  store (x ∷ xs) zero v = ok (v ∷ xs)
  store (x ∷ xs) (suc i) v = store xs i v >>= λ ys. ok (x ∷ ys)

  pub store-ok :
      (xs : List A) (i : ℕ) (v : A) → i < length xs → store xs i v ≡ ok (Array.set xs i v)
  unfolding store
  store-ok [] i v h = absurd (omega arith)
  store-ok (x ∷ xs) zero v h = refl
  store-ok (x ∷ xs) (suc i) v h = rw (store-ok xs i v (omega arith))

module _ {ℓ} {A : Type ℓ} where
  pub store-out : (xs : List A) (i : ℕ) (v : A) → length xs ≤ i → store xs i v ≡ fault out_of_bounds
  unfolding store
  store-out [] i v h = refl
  store-out (x ∷ xs) zero v h = absurd (omega arith)
  store-out (x ∷ xs) (suc i) v h = rw (store-out xs i v (omega arith))

pub load-ok {ℓ} :
    {A : Type ℓ} ⦃z : Zeroed A⦄ (xs : List A) (i : ℕ)
    → i < length xs
    → load xs i ≡ ok (Array.get! xs i)
unfolding load
load-ok xs i h = rw (Array.get_elem?-get! xs i h)

pub Run-cases {ℓ} :
    {A : Type ℓ} (r : Run A) → ((a : A) × (r ≡ ok a)) ⊎ ((e : Fault) × (r ≡ fault e))
Run-cases (ok a) = inl (a, refl)
Run-cases (fault e) = inr (e, refl)

pub ok-injective {ℓ} : {A : Type ℓ} {a b : A} → ok a ≡ ok b → a ≡ b
ok-injective {A} {a} {b} e = ap value_of e
  where
    value_of : Run A → A
    value_of (ok x) = x
    value_of (fault f) = a

pub fault-ne-ok {ℓ} : {A : Type ℓ} {f : Fault} {a : A} → ¬ (◌≡◌ {A = Run A} (fault f) (ok a))
fault-ne-ok e = cc

-- a write that succeeds keeps the length
pub store-length {ℓ} :
    {A : Type ℓ} (xs : List A) (i : ℕ) (v : A) {ys : List A}
    → store xs i v ≡ ok ys
    → length ys ≡ length xs
unfolding store
store-length [] i v e = cc
store-length (x ∷ xs) zero v e = ap length (ok-injective (sym e))
store-length (x ∷ xs) (suc i) v {ys} e = elim (Run-cases (store xs i v)) [
  | inl (zs, p) ↦ ap length (ok-injective (sym (rw p at e))) ∙ ap suc (store-length xs i v p)
  | inr (f, p) ↦ absurd (fault-ne-ok (rw p at e))
]

-- a bind that returns went through both of its parts
pub >>=-inv {ℓ κ} :
    {A : Type ℓ} {B : Type κ} (m : Run A) (f : A → Run B) {b : B}
    → (m >>= f) ≡ ok b
    → (a : A) × (m ≡ ok a) × (f a ≡ ok b)
>>=-inv (ok a) f h = (a, refl, h)
>>=-inv (fault e) f h = cc
