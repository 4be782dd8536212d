-- ===== src/Rbtree/Restore.antt =====
-- The rebalancing after a deletion restores the red-black invariant.
use dsa_c.Prelude.{ℕ, ◌+◌, ◌≡◌, refl, Bool, true, false, not, ◌||◌, arith, inl, inr, Bool-cases}
use dsa_c.Rbtree.{Dir, left, right}
use dsa_c.Rbtree.Shape.{Tree, leaf, node, branch}
use dsa_c.Rbtree.Context.{Context, top, frame, plug}
use dsa_c.Rbtree.Balance.{black_root, black_height, IsRedBlack, IsRedBlack-sub, IsRedBlack-plug}
use dsa_c.Rbtree.Fall.{short_again}
use dsa_c.Rbtree.Sunk.{blacken, four, six, five_at, settle, three, rests, sunk}

module _ {K : Type 0} where
  -- `t'` stands well where a subtree of the black height `n` and the colour `b` of its root stood
  abbrev Fits : ℕ → Bool → Tree K → Type 0
  Fits n b t' = IsRedBlack t' × (black_height t' ≡ n) × ((not b || black_root t') ≡ true)

  blacken-IsRedBlack :
      (f : Tree K)
      → IsRedBlack f
      → black_root f ≡ false
      → IsRedBlack (blacken f)
        × (black_height (blacken f) ≡ black_height f + 1)
        × (black_root (blacken f) ≡ true)
  blacken-IsRedBlack leaf h e = cc
  blacken-IsRedBlack (node l a b k r) h e = ground arith

  module _ (t₀ t : Tree K) (p : ℕ) (bp : Bool) (kp : K) (c : Tree K) (s : ℕ) (ks : K) (f : Tree K)
      (ht : IsRedBlack t) (black : black_root t ≡ true)
      (e : black_height t₀ ≡ black_height t + 1) where
    six-Fits :
        (d : Dir)
        → IsRedBlack (branch d t₀ p bp kp (branch d c s true ks f))
        → black_root f ≡ false
        → Fits
            (black_height (branch d t₀ p bp kp (branch d c s true ks f)))
            bp
            (six d t p bp kp c s ks f)
    six-Fits left h red = let (hf, height, color) = blacken-IsRedBlack f h.1.1 red in ground arith
    six-Fits right h red = let (hf, height, color) = blacken-IsRedBlack f h.0.0 red in ground arith

    four-Fits :
        (d : Dir)
        → IsRedBlack (branch d t₀ p bp kp (branch d c s true ks f))
        → black_root f ≡ true
        → black_root c ≡ true
        → rests bp c f ≡ false
        → Fits
            (black_height (branch d t₀ p bp kp (branch d c s true ks f)))
            bp
            (four d t p kp c s ks f)
    four-Fits left h fb cb ends = ground arith
    four-Fits right h fb cb ends = ground arith

  five-Fits :
      (d : Dir) (t₀ t : Tree K) (p : ℕ) (bp : Bool) (kp : K) (c : Tree K) (s : ℕ) (ks : K)
      (f : Tree K)
      → IsRedBlack t
      → black_root t ≡ true
      → black_height t₀ ≡ black_height t + 1
      → IsRedBlack (branch d t₀ p bp kp (branch d c s true ks f))
      → black_root f ≡ true
      → black_root c ≡ false
      → Fits
          (black_height (branch d t₀ p bp kp (branch d c s true ks f)))
          bp
          (five_at d t p bp kp c s ks f)
  five-Fits d t₀ t p bp kp leaf s ks f ht black e h fb red = cc
  five-Fits left t₀ t p bp kp (node c n bn kn f') s ks f ht black e h fb red = ground arith
  five-Fits right t₀ t p bp kp (node f' n bn kn c) s ks f ht black e h fb red = ground arith

  -- a black sibling: the subtree is as high as it was
  settle-Fits :
      (d : Dir) (t₀ t : Tree K) (p : ℕ) (bp : Bool) (kp : K) (c : Tree K) (s : ℕ) (ks : K)
      (f : Tree K)
      → IsRedBlack (branch d t₀ p bp kp (branch d c s true ks f))
      → IsRedBlack t
      → black_root t ≡ true
      → black_height t₀ ≡ black_height t + 1
      → rests bp c f ≡ false
      → Fits
          (black_height (branch d t₀ p bp kp (branch d c s true ks f)))
          bp
          (settle d t p bp kp c s ks f)
  settle-Fits d t₀ t p bp kp c s ks f h ht black e ends = elim (Bool-cases (black_root f)) [
    | inr red ↦ rw (red, settle) (six-Fits t₀ t p bp kp c s ks f ht black e d h red)
    | inl fb ↦ elim (Bool-cases (black_root c)) [
      | inr red ↦ rw (fb, red, settle) (five-Fits d t₀ t p bp kp c s ks f ht black e h fb red)
      | inl cb ↦ rw (fb, cb, settle) (four-Fits t₀ t p bp kp c s ks f ht black e d h fb cb ends)
    ]
  ]

  ends_red : (c f : Tree K) → rests false c f ≡ false
  ends_red c f = ground arith

  -- a red sibling, whose near subtree is the sibling after the first rotation
  three-Fits :
      (d : Dir) (t₀ t : Tree K) (p : ℕ) (bp : Bool) (kp : K) (c : Tree K) (s : ℕ) (ks : K)
      (f : Tree K)
      → IsRedBlack (branch d t₀ p bp kp (branch d c s false ks f))
      → black_root t₀ ≡ true
      → IsRedBlack t
      → black_root t ≡ true
      → black_height t₀ ≡ black_height t + 1
      → Fits
          (black_height (branch d t₀ p bp kp (branch d c s false ks f)))
          bp
          (branch d (three d t p kp c) s true ks f)
  three-Fits left t₀ t p bp kp leaf s ks f h b₀ ht black e = ground arith
  three-Fits right t₀ t p bp kp leaf s ks f h b₀ ht black e = ground arith
  three-Fits left t₀ t p bp kp (node c n bn kn f') s ks f h b₀ ht black e =
      let bn_black : bn ≡ true = ground arith in
      let old : IsRedBlack (node t₀ p false kp (node c n true kn f')) = ground arith in
      let (new, height, _) =
        settle-Fits left t₀ t p false kp c n kn f' old ht black e (ends_red c f') in
      ground arith
  three-Fits right t₀ t p bp kp (node f' n bn kn c) s ks f h b₀ ht black e =
      let bn_black : bn ≡ true = ground arith in
      let old : IsRedBlack (node (node f' n true kn c) p false kp t₀) = ground arith in
      let (new, height, _) =
        settle-Fits right t₀ t p false kp c n kn f' old ht black e (ends_red c f') in
      ground arith

  fitted :
      (c : Context K) (old new : Tree K) (b : Bool)
      → black_root old ≡ b
      → IsRedBlack (plug c old)
      → Fits (black_height old) b new
      → IsRedBlack (plug c new)
  fitted c old new b e h (balanced, height, color) =
      IsRedBlack-plug c old new h balanced height (λ black. ground arith)

  -- the sibling turns red, and the subtree as a whole has a black node less
  lowered-IsRedBlack :
      (d : Dir) (t₀ t : Tree K) (p : ℕ) (bp : Bool) (kp : K) (c : Tree K) (s : ℕ) (ks : K)
      (f : Tree K)
      → IsRedBlack (branch d t₀ p bp kp (branch d c s true ks f))
      → IsRedBlack t
      → black_height t₀ ≡ black_height t + 1
      → rests bp c f ≡ true
      → IsRedBlack (branch d t p true kp (branch d c s false ks f))
  lowered-IsRedBlack left t₀ t p bp kp c s ks f h ht e on = ground arith
  lowered-IsRedBlack right t₀ t p bp kp c s ks f h ht e on = ground arith

  -- A red-black tree below which a black subtree has become one of a black node less is made a
  -- red-black tree again.
  pub sunk-IsRedBlack :
      (c : Context K) (t₀ t : Tree K)
      → IsRedBlack (plug c t₀)
      → black_root t₀ ≡ true
      → IsRedBlack t
      → black_root t ≡ true
      → black_height t₀ ≡ black_height t + 1
      → IsRedBlack (sunk c t)
  unfolding sunk
  sunk-IsRedBlack top t₀ t h b₀ ht black e = ht
  sunk-IsRedBlack (frame d p bp kp leaf ctx) t₀ t h b₀ ht black e = tt
  sunk-IsRedBlack (frame left p bp kp (node c s false ks f) ctx) t₀ t h b₀ ht black e =
      fitted ctx (branch left t₀ p bp kp (node c s false ks f)) _ bp refl h
        (three-Fits left t₀ t p bp kp c s ks f (IsRedBlack-sub ctx _ h) b₀ ht black e)
  sunk-IsRedBlack (frame right p bp kp (node f s false ks c) ctx) t₀ t h b₀ ht black e =
      fitted ctx (branch right t₀ p bp kp (node f s false ks c)) _ bp refl h
        (three-Fits right t₀ t p bp kp c s ks f (IsRedBlack-sub ctx _ h) b₀ ht black e)
  sunk-IsRedBlack (frame left p bp kp (node c s true ks f) ctx) t₀ t h b₀ ht black e =
      let old = node t₀ p bp kp (node c s true ks f) in
      let sub = IsRedBlack-sub ctx old h in
      elim (Bool-cases (rests bp c f)) [
        | inl on ↦
            rw (on, sunk)
              (sunk-IsRedBlack ctx old (branch left t p true kp (node c s false ks f)) h
                (ground arith) (lowered-IsRedBlack left t₀ t p bp kp c s ks f sub ht e on) refl
                (short_again left t₀ t p bp kp c s ks f e on))
        | inr ends ↦
            rw (ends, sunk)
              (fitted ctx old _ bp refl h
                (settle-Fits left t₀ t p bp kp c s ks f sub ht black e ends))
      ]
  sunk-IsRedBlack (frame right p bp kp (node f s true ks c) ctx) t₀ t h b₀ ht black e =
      let old = node (node f s true ks c) p bp kp t₀ in
      let sub = IsRedBlack-sub ctx old h in
      elim (Bool-cases (rests bp c f)) [
        | inl on ↦
            rw (on, sunk)
              (sunk-IsRedBlack ctx old (branch right t p true kp (node f s false ks c)) h
                (ground arith) (lowered-IsRedBlack right t₀ t p bp kp c s ks f sub ht e on) refl
                (short_again right t₀ t p bp kp c s ks f e on))
        | inr ends ↦
            rw (ends, sunk)
              (fitted ctx old _ bp refl h
                (settle-Fits right t₀ t p bp kp c s ks f sub ht black e ends))
      ]
