-- ===== src/Rbtree/Search.antt =====
-- `contains_key` and `search_node` against a search along the list of the keys.
use dsa_c.Prelude.{
  ℕ, ◌<◌, ◌≡◌, ◌≢◌, ◌∙◌, inl, inr, refl, sym, ap, Bool, true, false, not, ◌&&◌, ◌||◌, List, [], ◌∷◌,
  ◌++◌, arith, ◌==◌, Bool-cases, if◌then◌else◌,
}
use dsa_c.Run.{ok}
use dsa_c.Rbtree.{Memory, contains_loop, contains_key, search_loop, search_node}
use dsa_c.Rbtree.Shape.{Tree, leaf, node, Holds, full}
use dsa_c.Rbtree.Context.{Represents}
use dsa_c.Rbtree.Color.{at_ne_null}
use dsa_c.Rbtree.Descent.{height, found, contains_loop_lem, search_loop_lem}
use dsa_c.Rbtree.Order.{listing}
use dsa_c.Rbtree.Keys.{AllKeys, AllKeys-imp, IsStrictOrder, IsSorted, IsSorted-middle}

module _ {K : Type 0} (less : K → K → Bool) where
  -- neither of the keys is strictly less than the other
  abbrev pub same_key : K → K → Bool
  same_key k x = not (less k x) && not (less x k)

  unfoldable pub has_key : K → List (ℕ × K) → Bool
  has_key k [] = false
  has_key k ((a, x) ∷ xs) = same_key k x || has_key k xs

  has_key-append :
      (k : K) (xs ys : List (ℕ × K)) → has_key k (xs ++ ys) ≡ (has_key k xs || has_key k ys)
  unfolding has_key
  has_key-append k [] ys = refl
  has_key-append k ((a, x) ∷ xs) ys = rw (has_key-append k xs ys) (ground arith)

  has_key-none :
      (k : K) (xs : List (ℕ × K)) → AllKeys (λ x. same_key k x ≡ false) xs → has_key k xs ≡ false
  unfolding has_key
  has_key-none k [] h = refl
  has_key-none k ((a, x) ∷ xs) (p, h) = rw (p, has_key-none k xs h) refl

  module _ (o : IsStrictOrder less) where
    -- the keys on the other side of a smaller or greater one are different
    differs_behind : (k k' y : K) → less k k' ≡ true → less y k' ≡ false → same_key k y ≡ false
    differs_behind k k' y up e = ground (arith, o.comparable k y k')

    differs_before : (k k' x : K) → less k' k ≡ true → less k' x ≡ false → same_key k x ≡ false
    differs_before k k' x up e = ground (arith, o.comparable k' x k)

    pub found-has_key :
        {m : Memory K} {parent : ℕ} (k : K) (t : Tree K)
        → Holds m parent t
        → IsSorted less (listing t)
        → not (found less k t == 0) ≡ has_key k (listing t)
    unfolding found has_key
    found-has_key k leaf h s = refl
    found-has_key k (node l a b k' r) (full cell hl hr nl nr dis) s =
        let (sl, sr, al, ar) = IsSorted-middle less (listing l) a k' (listing r) s in
        let hkl = has_key k (listing l) in
        let hkr = has_key k (listing r) in
        let whole = has_key-append k (listing l) ((a, k') ∷ listing r) in
        elim (Bool-cases (less k k')) [
          | inl up ↦
              let none : hkr ≡ false = has_key-none k (listing r) (
                AllKeys-imp (λ y. less y k' ≡ false) (λ y. same_key k y ≡ false) (listing r)
                  (λ y e. differs_behind k k' y up e) ar) in
              let rest : (hkl || (same_key k k' || hkr)) ≡ hkl = rw (up, none) (ground arith) in
              rw (up, found) (found-has_key k l hl sl ∙ sym (whole ∙ rest))
          | inr down ↦ elim (Bool-cases (less k' k)) [
            | inl up ↦
                let none : hkl ≡ false = has_key-none k (listing l) (
                  AllKeys-imp (λ x. less k' x ≡ false) (λ x. same_key k x ≡ false) (listing l)
                    (λ x e. differs_before k k' x up e) al) in
                let rest : (hkl || (same_key k k' || hkr)) ≡ hkr =
                  rw (down, up, none) (ground arith) in
                rw (down, up, found) (found-has_key k r hr sr ∙ sym (whole ∙ rest))
            | inr same ↦
                let rest : (hkl || (same_key k k' || hkr)) ≡ true =
                  rw (down, same) (ground arith) in
                rw (down, same, found, at_ne_null cell) (sym (whole ∙ rest))
          ]
        ]

    -- `contains_key` of a sorted tree in memory, with more fuel than the tree is high, is a search
    -- along the list of its keys.
    pub contains_key_lem :
        (fuel : ℕ) (m : Memory K) (k : K) (t : Tree K)
        → Represents m t
        → IsSorted less (listing t)
        → height t < fuel
        → contains_key less fuel m k ≡ ok (has_key k (listing t))
    unfolding contains_key
    contains_key_lem fuel m k t r s f =
        ap (λ (p : ℕ). contains_loop less fuel m p k) r.rooted
        ∙ contains_loop_lem less fuel m k t r.holds f
        ∙ ap ok (found-has_key k t r.holds s)

  -- the node is at `p` and has the key
  unfoldable pub has_node : K → ℕ → List (ℕ × K) → Bool
  has_node k p [] = false
  has_node k p ((a, x) ∷ xs) = ((p == a) && same_key k x) || has_node k p xs

  has_node-append :
      (k : K) (p : ℕ) (xs ys : List (ℕ × K))
      → has_node k p (xs ++ ys) ≡ (has_node k p xs || has_node k p ys)
  unfolding has_node
  has_node-append k p [] ys = refl
  has_node-append k p ((a, x) ∷ xs) ys = rw (has_node-append k p xs ys) (ground arith)

  found-has_node :
      (k : K) (t : Tree K) → found less k t ≢ 0 → has_node k (found less k t) (listing t) ≡ true
  unfolding found has_node
  found-has_node k leaf n = absurd (n refl)
  found-has_node k (node l a b k' r) n =
      let whole = λ (p : ℕ). has_node-append k p (listing l) ((a, k') ∷ listing r) in
      elim (Bool-cases (less k k')) [
        | inl up ↦
            let n' : found less k l ≢ 0 = λ e. n (rw (up, found) e) in
            let here = found-has_node k l n' in
            rw (up, found) (whole (found less k l) ∙ rw here refl)
        | inr down ↦ elim (Bool-cases (less k' k)) [
          | inl up ↦
              let n' : found less k r ≢ 0 = λ e. n (rw (down, up, found) e) in
              let here = found-has_node k r n' in
              rw (down, up, found) (whole (found less k r) ∙ rw here (ground arith))
          | inr same ↦ rw (down, same, found) (whole a ∙ rw (down, same) (ground arith))
        ]
      ]

  -- `search_node` of a sorted tree in memory, with more fuel than the tree is high, returns NULL if
  -- no node has the key, and otherwise a node of the tree that has it.
  pub search_node_lem :
      IsStrictOrder less
      → (fuel : ℕ) (m : Memory K) (k : K) (t : Tree K) → Represents m t
      → IsSorted less (listing t)
      → height t < fuel
      → (p : ℕ) × (search_node less fuel m k ≡ ok p)
        × (if has_key k (listing t) then has_node k p (listing t) ≡ true else p ≡ 0)
  unfolding search_node
  search_node_lem o fuel m k t r s f = (
    found less k t,
    ap (λ (p : ℕ). search_loop less fuel m p k) r.rooted
        ∙ search_loop_lem less fuel m k t r.holds f,
    elim (Bool-cases (has_key k (listing t))) [
      | inl known ↦ rw known (found-has_node k t (ground (arith, found-has_key o k t r.holds s)))
      | inr none ↦ rw none (ground (arith, found-has_key o k t r.holds s))
    ],
  )
