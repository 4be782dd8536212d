-- ===== src/Rbtree/Remove.antt =====
-- The nodes of a tree in order, without one of them.
use mathlib.Core.List.{append_assoc}
use dsa_c.Prelude.{
  ℕ, ◌≡◌, ◌∙◌, refl, sym, ap, Bool, true, false, ◌||◌, List, [], ◌∷◌, ◌++◌, arith, ◌==◌, inl, inr,
  Bool-cases, if◌then◌else◌,
}
use dsa_c.Rbtree.{left, right}
use dsa_c.Rbtree.Shape.{Tree, leaf, node, has}
use dsa_c.Rbtree.Context.{Context, top, frame, plug, around}
use dsa_c.Rbtree.Order.{listing, before, behind, listing-plug}
use dsa_c.Rbtree.Keys.{AllKeys, IsSorted}

module _ {K : Type 0} where
  -- the list without the node at `a`
  unfoldable pub take_out : ℕ → List (ℕ × K) → List (ℕ × K)
  take_out a [] = []
  take_out a ((b, k) ∷ xs) = if a == b then xs else (b, k) ∷ take_out a xs

  unfoldable pub among : ℕ → List (ℕ × K) → Bool
  among a [] = false
  among a ((b, k) ∷ xs) = (a == b) || among a xs

  among-append : (a : ℕ) (xs ys : List (ℕ × K)) → among a (xs ++ ys) ≡ (among a xs || among a ys)
  unfolding among
  among-append a [] ys = refl
  among-append a ((b, k) ∷ xs) ys = rw (among-append a xs ys) (ground arith)

  pub among-listing : (a : ℕ) (t : Tree K) → among a (listing t) ≡ has a t
  unfolding among
  among-listing a leaf = refl
  among-listing a (node l b c k r) =
      among-append a (listing l) ((b, k) ∷ listing r)
      ∙ rw (among-listing a l, among-listing a r) (ground arith)

  take_out-append :
      (a : ℕ) (k : K) (xs ys : List (ℕ × K))
      → among a xs ≡ false
      → take_out a (xs ++ (a, k) ∷ ys) ≡ xs ++ ys
  unfolding take_out among
  take_out-append a k [] ys h = let own : (a == a) ≡ true = ground arith in rw own refl
  take_out-append a k ((b, k') ∷ xs) ys h =
      let differs : (a == b) ≡ false = ground arith in
      rw (differs, take_out-append a k xs ys (ground arith)) refl

  among-last :
      (a b : ℕ) (k : K) (xs ys : List (ℕ × K))
      → among a xs ≡ false
      → among a ys ≡ false
      → (a == b) ≡ false
      → among a (xs ++ ys ++ (b, k) ∷ []) ≡ false
  unfolding among
  among-last a b k xs ys h h' n =
      among-append a (xs ++ ys) ((b, k) ∷ []) ∙ rw (among-append a xs ys, h, h', n) refl

  among-before : (a : ℕ) (c : Context K) → around a c ≡ false → among a (before c) ≡ false
  unfolding among
  among-before a top h = refl
  among-before a (frame left b bb k sib c) h = among-before a c (ground arith)
  among-before a (frame right b bb k sib c) h =
      among-last a b k (before c) (listing sib) (among-before a c (ground arith))
        (among-listing a sib ∙ ground arith) (ground arith)

  -- a subtree that lacks just the node at `a`
  pub take_out-plug :
      (c : Context K) (l : Tree K) (a : ℕ) (b : Bool) (k : K) (r t : Tree K)
      → around a c ≡ false
      → has a l ≡ false
      → listing t ≡ listing l ++ listing r
      → listing (plug c t) ≡ take_out a (listing (plug c (node l a b k r)))
  take_out-plug c l a b k r t out not_l e =
      let none : among a (before c ++ listing l) ≡ false =
        among-append a (before c) (listing l)
        ∙ ground (arith, among-before a c out, among-listing a l) in
      let whole : listing (plug c (node l a b k r))
          ≡ (before c ++ listing l) ++ (a, k) ∷ (listing r ++ behind c) =
        listing-plug c (node l a b k r) ∙ simp append_assoc in
      listing-plug c t
      ∙ rw e (simp append_assoc)
      ∙ sym (take_out-append a k (before c ++ listing l) (listing r ++ behind c) none)
      ∙ ap (take_out a) (sym whole)

  AllKeys-take_out :
      (P : K → Type 0) (a : ℕ) (xs : List (ℕ × K)) → AllKeys P xs → AllKeys P (take_out a xs)
  unfolding take_out
  AllKeys-take_out P a [] h = tt
  AllKeys-take_out P a ((b, k) ∷ xs) (p, h) = elim (Bool-cases (a == b)) [
    | inl same ↦ rw same h
    | inr differs ↦ rw differs (p, AllKeys-take_out P a xs h)
  ]

  pub take_out-IsSorted :
      (less : K → K → Bool) (a : ℕ) (xs : List (ℕ × K))
      → IsSorted less xs
      → IsSorted less (take_out a xs)
  unfolding take_out
  take_out-IsSorted less a [] h = tt
  take_out-IsSorted less a ((b, k) ∷ xs) (p, h) = elim (Bool-cases (a == b)) [
    | inl same ↦ rw same h
    | inr differs ↦
        rw differs (AllKeys-take_out (λ y. less y k ≡ false) a xs p, take_out-IsSorted less a xs h)
  ]

  -- the node is not in the subtree
  pub not_among :
      (a : ℕ) (l r t : Tree K)
      → listing t ≡ listing l ++ listing r
      → has a l ≡ false
      → has a r ≡ false
      → has a t ≡ false
  not_among a l r t e hl hr =
      sym (among-listing a t)
      ∙ ap (among a) e
      ∙ among-append a (listing l) (listing r)
      ∙ rw (among-listing a l, among-listing a r, hl, hr) refl

  pub same-has : (a : ℕ) (t u : Tree K) → listing t ≡ listing u → has a t ≡ has a u
  same-has a t u e = sym (among-listing a t) ∙ ap (among a) e ∙ among-listing a u
