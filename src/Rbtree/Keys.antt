-- ===== src/Rbtree/Keys.antt =====
-- The order of the keys, and where an insertion puts a new one.
use dsa_c.Prelude.{
  ℕ, ◌≡◌, ◌∙◌, ◌⊎◌, inl, inr, refl, sym, ap, Bool, true, false, List, [], ◌∷◌, ◌++◌, arith,
  Bool-cases, if◌then◌else◌,
}
use mathlib.Core.List.{append_assoc, append-nil}
use dsa_c.Rbtree.{left, right}
use dsa_c.Rbtree.Shape.{Tree, leaf, node}
use dsa_c.Rbtree.Context.{Context, top, frame}
use dsa_c.Rbtree.Descent.{locate, plug-locate}
use dsa_c.Rbtree.Link.{inserted}
use dsa_c.Rbtree.Order.{listing, before, behind, listing-plug, listing-fixup}

-- what `KEY_IS_STRICTLY_LESS` is expected to be: an order in which keys that are not strictly less
-- than each other count as equal
pub record IsStrictOrder {K : Type 0} (less : K → K → Bool) : Type 0 where
  pub asymmetric : (a b : K) → less a b ≡ true → less b a ≡ false
  pub comparable : (a b c : K) → less a c ≡ true → (less a b ≡ true) ⊎ (less b c ≡ true)

module _ {K : Type 0} where
  abbrev pub AllKeys : (K → Type 0) → List (ℕ × K) → Type 0
  AllKeys P [] = Unit {0}
  AllKeys P ((a, k) ∷ xs) = P k × AllKeys P xs

  AllKeys-append :
      (P : K → Type 0) (xs ys : List (ℕ × K)) → AllKeys P xs → AllKeys P ys → AllKeys P (xs ++ ys)
  AllKeys-append P [] ys h h' = h'
  AllKeys-append P ((a, k) ∷ xs) ys (p, h) h' = (p, AllKeys-append P xs ys h h')

  pub AllKeys-imp :
      (P Q : K → Type 0) (xs : List (ℕ × K)) → ((k : K) → P k → Q k) → AllKeys P xs → AllKeys Q xs
  AllKeys-imp P Q [] f h = tt
  AllKeys-imp P Q ((a, k) ∷ xs) f (p, h) = (f k p, AllKeys-imp P Q xs f h)

  AllKeys-split :
      (P : K → Type 0) (xs ys : List (ℕ × K)) → AllKeys P (xs ++ ys) → AllKeys P xs × AllKeys P ys
  AllKeys-split P [] ys h = (tt, h)
  AllKeys-split P ((a, k) ∷ xs) ys (p, h) =
      let (h', h'') = AllKeys-split P xs ys h in ((p, h'), h'')

module _ {K : Type 0} (less : K → K → Bool) where
  abbrev Smaller : K → K → Type 0
  Smaller k x = less x k ≡ true

  abbrev NotSmaller : K → K → Type 0
  NotSmaller k y = less y k ≡ false

  -- no key is strictly less than one before it
  abbrev pub IsSorted : List (ℕ × K) → Type 0
  IsSorted [] = Unit {0}
  IsSorted ((a, k) ∷ xs) = AllKeys (NotSmaller k) xs × IsSorted xs

  -- a new node goes behind those whose key is strictly less
  unfoldable pub place : ℕ → K → List (ℕ × K) → List (ℕ × K)
  place a k [] = (a, k) ∷ []
  place a k ((b, k') ∷ xs) = if less k' k then (b, k') ∷ place a k xs else (a, k) ∷ (b, k') ∷ xs

  place-append :
      (a : ℕ) (k : K) (xs ys : List (ℕ × K))
      → AllKeys (Smaller k) xs
      → AllKeys (NotSmaller k) ys
      → place a k (xs ++ ys) ≡ xs ++ (a, k) ∷ ys
  unfolding place
  place-append a k [] [] h h' = refl
  place-append a k [] ((b, k') ∷ ys) h (p, h') = rw p refl
  place-append a k ((b, k') ∷ xs) ys (p, h) h' = rw (p, place-append a k xs ys h h') refl

  pub IsSorted-middle :
      (xs : List (ℕ × K)) (a : ℕ) (k : K) (ys : List (ℕ × K))
      → IsSorted (xs ++ (a, k) ∷ ys)
      → IsSorted xs × IsSorted ys × AllKeys (λ x. less k x ≡ false) xs × AllKeys (NotSmaller k) ys
  IsSorted-middle [] a k ys (h, s) = (tt, s, tt, h)
  IsSorted-middle ((b, k') ∷ xs) a k ys (h, s) =
      let (sx, sy, ax, ay) = IsSorted-middle xs a k ys s in
      let (front, rest) = AllKeys-split (NotSmaller k') xs ((a, k) ∷ ys) h in
      ((front, sx), sy, (rest.0, ax), ay)

  module _ (o : IsStrictOrder less) where
    smaller_before : (k' k x : K) → less k' k ≡ true → less k' x ≡ false → less x k ≡ true
    smaller_before k' k x up e = ground (arith, o.comparable k' x k)

    not_smaller_behind : (k' k y : K) → less k' k ≡ false → less y k' ≡ false → less y k ≡ false
    not_smaller_behind k' k y down e = elim (Bool-cases (less y k)) [
      | inl up ↦ ground (arith, o.comparable y k' k up)
      | inr out ↦ out
    ]

    -- the keys before and behind the place of a new one
    locate-bounds :
        (k : K) (t : Tree K) (c : Context K)
        → IsSorted (listing t)
        → AllKeys (Smaller k) (before c)
        → AllKeys (NotSmaller k) (behind c)
        → AllKeys (Smaller k) (before (locate less k t c))
          × AllKeys (NotSmaller k) (behind (locate less k t c))
    unfolding locate
    locate-bounds k leaf c s h h' = (h, h')
    locate-bounds k (node l a b k' r) c s h h' = elim (Bool-cases (less k' k)) [
      | inl up ↦
          let (sl, sr, al, ar) = IsSorted-middle (listing l) a k' (listing r) s in
          rw (up, locate)
            (locate-bounds k r (frame right a b k' l c) sr
              (AllKeys-append (Smaller k) (before c ++ listing l) ((a, k') ∷ [])
                (AllKeys-append (Smaller k) (before c) (listing l) h (
                  AllKeys-imp (λ x. less k' x ≡ false) (Smaller k) (listing l)
                    (λ x e. smaller_before k' k x up e) al))
                (up, tt))
              h')
      | inr down ↦
          let (sl, sr, al, ar) = IsSorted-middle (listing l) a k' (listing r) s in
          rw (down, locate)
            (locate-bounds k l (frame left a b k' r c) sl h (
              down,
              AllKeys-append (NotSmaller k) (listing r) (behind c)
                  (AllKeys-imp (NotSmaller k') (NotSmaller k) (listing r)
                    (λ y e. not_smaller_behind k' k y down e) ar)
                  h',
            ))
    ]

    -- An insertion puts the new node behind those with a strictly smaller key.
    pub listing-inserted :
        (a : ℕ) (k : K) (t : Tree K)
        → IsSorted (listing t)
        → listing (inserted less a k t) ≡ place a k (listing t)
    unfolding inserted
    listing-inserted a k t s =
        let c = locate less k t top in
        let (h, h') = locate-bounds k t top s tt tt in
        let was : listing t ≡ before c ++ behind c =
          ap listing (sym (plug-locate less k t top)) ∙ listing-plug c leaf ∙ simp append-nil in
        let now : before c ++ (a, k) ∷ [] ++ behind c ≡ before c ++ (a, k) ∷ behind c =
          simp append_assoc in
        listing-fixup c (node leaf a false k leaf) refl
        ∙ listing-plug c (node leaf a false k leaf)
        ∙ now
        ∙ sym (ap (place a k) was ∙ place-append a k (before c) (behind c) h h')

    AllKeys-place :
        (P : K → Type 0) (a : ℕ) (k : K) (xs : List (ℕ × K))
        → P k
        → AllKeys P xs
        → AllKeys P (place a k xs)
    unfolding place
    AllKeys-place P a k [] p h = (p, tt)
    AllKeys-place P a k ((b, k') ∷ xs) p (q, h) = elim (Bool-cases (less k' k)) [
      | inl up ↦ rw (up, place) (q, AllKeys-place P a k xs p h)
      | inr down ↦ rw (down, place) (p, (q, h))
    ]

    pub place-IsSorted : (a : ℕ) (k : K) (xs : List (ℕ × K)) → IsSorted xs → IsSorted (place a k xs)
    unfolding place
    place-IsSorted a k [] s = (tt, tt)
    place-IsSorted a k ((b, k') ∷ xs) (h, s) = elim (Bool-cases (less k' k)) [
      | inl up ↦
          rw (up, place)
            (AllKeys-place (NotSmaller k') a k xs (o.asymmetric k' k up) h, place-IsSorted a k xs s)
      | inr down ↦
          rw (down, place)
            (
              (
                down,
                AllKeys-imp (NotSmaller k') (NotSmaller k) xs
                    (λ y e. not_smaller_behind k' k y down e) h,
              ),
              (h, s),
            )
    ]
