-- ===== src/Rbtree/Kept.antt =====
-- The rebalancing after a deletion keeps the nodes and their order.
use mathlib.Core.List.{append_assoc}
use dsa_c.Prelude.{ℕ, ◌+◌, ◌<◌, ◌≡◌, ◌∙◌, refl, ap, Bool, true, false, arith, inl, inr, Bool-cases}
use dsa_c.Rbtree.{Dir, left, right}
use dsa_c.Rbtree.Shape.{Tree, leaf, node, branch}
use dsa_c.Rbtree.Context.{Context, top, frame, plug}
use dsa_c.Rbtree.Balance.{black_root, black_height, IsRedBlack, IsRedBlack-sub}
use dsa_c.Rbtree.Order.{listing, listing-plug_congr}
use dsa_c.Rbtree.Fall.{no_leaf, no_red_leaf, short_again}
use dsa_c.Rbtree.Sunk.{blacken, four, six, five_at, settle, three, rests, sunk}

module _ {K : Type 0} where
  listing-blacken : (f : Tree K) → listing (blacken f) ≡ listing f
  listing-blacken leaf = refl
  listing-blacken (node l a b k r) = refl

  listing-six :
      (d : Dir) (t : Tree K) (p : ℕ) (bp : Bool) (kp : K) (c : Tree K) (s : ℕ) (bs : Bool) (ks : K)
      (f : Tree K)
      → listing (six d t p bp kp c s ks f) ≡ listing (branch d t p bp kp (branch d c s bs ks f))
  listing-six left t p bp kp c s bs ks f = simp (listing-blacken f, append_assoc)
  listing-six right t p bp kp c s bs ks f = simp (listing-blacken f, append_assoc)

  listing-five :
      (d : Dir) (t : Tree K) (p : ℕ) (bp : Bool) (kp : K) (c : Tree K) (s : ℕ) (bs : Bool) (ks : K)
      (f : Tree K)
      → black_root c ≡ false
      → listing (five_at d t p bp kp c s ks f) ≡ listing (branch d t p bp kp (branch d c s bs ks f))
  listing-five d t p bp kp leaf s bs ks f red = cc
  listing-five left t p bp kp (node c n bn kn f') s bs ks f red = simp append_assoc
  listing-five right t p bp kp (node f' n bn kn c) s bs ks f red = simp append_assoc

  listing-four :
      (d : Dir) (t : Tree K) (p : ℕ) (bp b : Bool) (kp : K) (c : Tree K) (s : ℕ) (bs b' : Bool)
      (ks : K) (f : Tree K)
      → listing (branch d t p b kp (branch d c s b' ks f))
        ≡ listing (branch d t p bp kp (branch d c s bs ks f))
  listing-four left t p bp b kp c s bs b' ks f = refl
  listing-four right t p bp b kp c s bs b' ks f = refl

  listing-settle :
      (d : Dir) (t : Tree K) (p : ℕ) (bp : Bool) (kp : K) (c : Tree K) (s : ℕ) (bs : Bool) (ks : K)
      (f : Tree K)
      → listing (settle d t p bp kp c s ks f) ≡ listing (branch d t p bp kp (branch d c s bs ks f))
  listing-settle d t p bp kp c s bs ks f = elim (Bool-cases (black_root f)) [
    | inr red ↦ ap listing (six-eq red) ∙ listing-six d t p bp kp c s bs ks f
    | inl fb ↦ elim (Bool-cases (black_root c)) [
      | inr red ↦ ap listing (five-eq fb red) ∙ listing-five d t p bp kp c s bs ks f red
      | inl cb ↦ ap listing (four-eq fb cb) ∙ listing-four d t p bp true kp c s bs false ks f
    ]
  ]
    where
      six-eq : black_root f ≡ false → settle d t p bp kp c s ks f ≡ six d t p bp kp c s ks f
      six-eq red = rw (settle, red) refl

      five-eq :
          black_root f ≡ true
          → black_root c ≡ false
          → settle d t p bp kp c s ks f ≡ five_at d t p bp kp c s ks f
      five-eq fb red = rw (settle, fb, red) refl

      four-eq :
          black_root f ≡ true
          → black_root c ≡ true
          → settle d t p bp kp c s ks f ≡ four d t p kp c s ks f
      four-eq fb cb = rw (settle, fb, cb) refl

  listing-three :
      (d : Dir) (t₀ t : Tree K) (p : ℕ) (bp : Bool) (kp : K) (c : Tree K) (s : ℕ) (ks : K)
      (f : Tree K)
      → IsRedBlack (branch d t₀ p bp kp (branch d c s false ks f))
      → 0 < black_height t₀
      → listing (branch d (three d t p kp c) s true ks f)
        ≡ listing (branch d t p bp kp (branch d c s false ks f))
  listing-three d t₀ t p bp kp leaf s ks f h pos = absurd (no_red_leaf d t₀ p bp kp s ks f h pos)
  listing-three left t₀ t p bp kp (node c n bn kn f') s ks f h pos =
      simp (listing-settle left t p false kp c n bn kn f', append_assoc)
  listing-three right t₀ t p bp kp (node f' n bn kn c) s ks f h pos =
      simp (listing-settle right t p false kp c n bn kn f', append_assoc)

  -- The rebalancing keeps the nodes and their order.
  pub listing-sunk :
      (c : Context K) (t₀ t : Tree K)
      → IsRedBlack (plug c t₀)
      → black_height t₀ ≡ black_height t + 1
      → listing (sunk c t) ≡ listing (plug c t)
  unfolding sunk
  listing-sunk top t₀ t h e = refl
  listing-sunk (frame d p bp kp leaf ctx) t₀ t h e =
      absurd (no_leaf d t₀ p bp kp (IsRedBlack-sub ctx _ h) (omega arith))
  listing-sunk (frame left p bp kp (node c s false ks f) ctx) t₀ t h e =
      listing-plug_congr ctx (branch left (three left t p kp c) s true ks f) _
        (listing-three left t₀ t p bp kp c s ks f (IsRedBlack-sub ctx _ h) (omega arith))
  listing-sunk (frame right p bp kp (node f s false ks c) ctx) t₀ t h e =
      listing-plug_congr ctx (branch right (three right t p kp c) s true ks f) _
        (listing-three right t₀ t p bp kp c s ks f (IsRedBlack-sub ctx _ h) (omega arith))
  listing-sunk (frame left p bp kp (node c s true ks f) ctx) t₀ t h e =
      elim (Bool-cases (rests bp c f)) [
        | inl on ↦
            rw (on, sunk)
              (listing-sunk ctx (branch left t₀ p bp kp (node c s true ks f))
                  (branch left t p true kp (node c s false ks f)) h
                  (short_again left t₀ t p bp kp c s ks f e on)
                ∙ listing-plug_congr ctx (branch left t p true kp (node c s false ks f)) _ refl)
        | inr ends ↦
            rw (ends, sunk)
              (listing-plug_congr ctx (settle left t p bp kp c s ks f) _
                (listing-settle left t p bp kp c s true ks f))
      ]
  listing-sunk (frame right p bp kp (node f s true ks c) ctx) t₀ t h e =
      elim (Bool-cases (rests bp c f)) [
        | inl on ↦
            rw (on, sunk)
              (listing-sunk ctx (branch right t₀ p bp kp (node f s true ks c))
                  (branch right t p true kp (node f s false ks c)) h
                  (short_again right t₀ t p bp kp c s ks f e on)
                ∙ listing-plug_congr ctx (branch right t p true kp (node f s false ks c)) _ refl)
        | inr ends ↦
            rw (ends, sunk)
              (listing-plug_congr ctx (settle right t p bp kp c s ks f) _
                (listing-settle right t p bp kp c s true ks f))
      ]
