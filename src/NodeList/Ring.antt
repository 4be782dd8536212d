-- ===== src/NodeList/Ring.antt =====
-- The ring of nodes that a head stands for, and what the calls of dsa/list.h do to it.
use dsa_c.Prelude.{
  ℕ, ◌≡◌, ◌≢◌, ◌∙◌, refl, Bool, true, false, ◌||◌, List, [], ◌∷◌, ◌++◌, arith, ◌==◌, inl, inr,
  Bool-cases,
}
use dsa_c.NodeList.{Store, prev, next}

abbrev pub among : ℕ → List ℕ → Bool
among a [] = false
among a (x ∷ xs) = (a == x) || among a xs

abbrev pub Distinct : List ℕ → Type 0
Distinct [] = Unit {0}
Distinct (x ∷ xs) = (among x xs ≡ false) × Distinct xs

-- from `a` over the nodes to `b` along `next_ptr`, and back along `prev_ptr`
abbrev pub Linked : Store → ℕ → List ℕ → ℕ → Type 0
Linked s a [] b = (next s a ≡ b) × (prev s b ≡ a)
Linked s a (x ∷ xs) b = (next s a ≡ x) × (prev s x ≡ a) × Linked s x xs b

-- the nodes of the list whose head is at `head`, in order
pub record IsRing (s : Store) (head : ℕ) (nodes : List ℕ) : Type 0 where
  pub linked : Linked s head nodes head
  pub distinct : Distinct (head ∷ nodes)
  pub not_null : among 0 (head ∷ nodes) ≡ false

abbrev pub last_of : ℕ → List ℕ → ℕ
last_of a [] = a
last_of a (x ∷ xs) = last_of x xs

pub among-last_of : (a : ℕ) (xs : List ℕ) → among (last_of a xs) (a ∷ xs) ≡ true
among-last_of a [] = ground arith
among-last_of a (x ∷ xs) = let rest = among-last_of x xs in ground arith

pub Linked-last_of :
    (s : Store) (a : ℕ) (xs : List ℕ) (b : ℕ) → Linked s a xs b → prev s b ≡ last_of a xs
Linked-last_of s a [] b h = h.1
Linked-last_of s a (x ∷ xs) b h = Linked-last_of s x xs b h.2

pub differs : (a x : ℕ) (xs : List ℕ) → among a xs ≡ false → among x xs ≡ true → a ≢ x
differs a x xs h h' e = let h'' = rw e at h in cc

-- the last link leads elsewhere
pub Linked-retarget :
    (s s' : Store) (a : ℕ) (xs : List ℕ) (b t : ℕ)
    → Linked s a xs b
    → Distinct (a ∷ xs)
    → next s' (last_of a xs) ≡ t
    → prev s' t ≡ last_of a xs
    → ((x : ℕ) → among x (a ∷ xs) ≡ true → x ≢ last_of a xs → next s' x ≡ next s x)
    → ((x : ℕ) → among x xs ≡ true → prev s' x ≡ prev s x)
    → Linked s' a xs t
Linked-retarget s s' a [] b t h d to back kept kept' = (to, back)
Linked-retarget s s' a (x ∷ xs) b t (to_x, back_x, h) (out, d) to back kept kept' = (
  kept a (ground arith) (differs a (last_of x xs) (x ∷ xs) out (among-last_of x xs)) ∙ to_x,
  kept' x (ground arith) ∙ back_x,
  Linked-retarget s s' x xs b t h d to back (λ y i n. kept y (ground arith) n)
      (λ y i. kept' y (ground arith)),
)

pub Linked-append :
    (s : Store) (a : ℕ) (xs : List ℕ) (x : ℕ) (ys : List ℕ) (b : ℕ)
    → Linked s a xs x
    → Linked s x ys b
    → Linked s a (xs ++ x ∷ ys) b
Linked-append s a [] x ys b (to, back) h' = (to, back, h')
Linked-append s a (y ∷ xs) x ys b (to, back, h) h' = (to, back, Linked-append s y xs x ys b h h')

Linked-split :
    (s : Store) (a : ℕ) (xs : List ℕ) (x : ℕ) (ys : List ℕ) (b : ℕ)
    → Linked s a (xs ++ x ∷ ys) b
    → Linked s a xs x × Linked s x ys b
Linked-split s a [] x ys b (to, back, h) = ((to, back), h)
Linked-split s a (y ∷ xs) x ys b (to, back, h) =
    let (h', h'') = Linked-split s y xs x ys b h in ((to, back, h'), h'')

pub among-append : (a : ℕ) (xs ys : List ℕ) → among a (xs ++ ys) ≡ (among a xs || among a ys)
among-append a [] ys = refl
among-append a (x ∷ xs) ys = rw (among-append a xs ys) (ground arith)

pub Distinct-append :
    (xs ys : List ℕ)
    → Distinct xs
    → Distinct ys
    → ((x : ℕ) → among x xs ≡ true → among x ys ≡ false)
    → Distinct (xs ++ ys)
Distinct-append [] ys d d' apart = d'
Distinct-append (x ∷ xs) ys (out, d) d' apart = (
  among-append x xs ys ∙ rw (out, apart x (ground arith)) refl,
  Distinct-append xs ys d d' (λ y i. apart y (ground arith)),
)

Distinct-split :
    (xs ys : List ℕ)
    → Distinct (xs ++ ys)
    → Distinct xs × Distinct ys × ((x : ℕ) → among x xs ≡ true → among x ys ≡ false)
Distinct-split [] ys d = (tt, d, λ x i. absurd (ground arith))
Distinct-split (x ∷ xs) ys (out, d) =
    let (d', d'', apart) = Distinct-split xs ys d in
    let whole = among-append x xs ys in
    (
      (ground arith, d'),
      d'',
      λ y i. elim (Bool-cases (y == x)) [
        | inl same ↦ let e : y ≡ x = ground arith in rw e (ground arith)
        | inr other ↦ apart y (ground arith)
      ],
    )

Distinct-swap : (xs ys : List ℕ) → Distinct (xs ++ ys) → Distinct (ys ++ xs)
Distinct-swap xs ys d =
    let (d', d'', apart) = Distinct-split xs ys d in
    Distinct-append ys xs d'' d' (λ x i. elim (Bool-cases (among x xs)) [
      | inl here ↦ let out = apart x here in cc
      | inr out ↦ out
    ])

-- every node of the ring can be taken for its head
pub IsRing-rotate :
    (s : Store) (head : ℕ) (xs : List ℕ) (x : ℕ) (ys : List ℕ)
    → IsRing s head (xs ++ x ∷ ys)
    → IsRing s x (ys ++ head ∷ xs)
IsRing-rotate s head xs x ys r =
    let (to, back) = Linked-split s head xs x ys head r.linked in
    let whole = among-append 0 (head ∷ xs) (x ∷ ys) in
    let turned = among-append 0 (x ∷ ys) (head ∷ xs) in
    record {
      linked = Linked-append s x ys head xs x back to;
      distinct = Distinct-swap (head ∷ xs) (x ∷ ys) r.distinct;
      not_null = turned ∙ ground (arith, r.not_null);
    }
