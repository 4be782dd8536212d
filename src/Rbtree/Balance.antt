-- ===== src/Rbtree/Balance.antt =====
-- The red-black invariant, and that the rebalancing after an insertion restores it.
use dsa_c.Prelude.{ℕ, ◌+◌, ◌≡◌, ◌∙◌, refl, sym, ap, Bool, true, false, ◌&&◌, ◌||◌, arith}
use dsa_c.Rbtree.{Dir, left, right, bit}
use dsa_c.Rbtree.Shape.{Tree, leaf, node, branch}
use dsa_c.Rbtree.Context.{Context, top, frame, plug}
use dsa_c.Rbtree.Fixup.{straighten, fixup}
use dsa_c.Rbtree.Descent.{locate, plug-locate}
use dsa_c.Rbtree.Link.{inserted}

module _ {K : Type 0} where
  -- the black nodes on the leftmost way down
  abbrev pub black_height : Tree K → ℕ
  black_height leaf = 0
  black_height (node l a b k r) = black_height l + bit b

  abbrev pub black_root : Tree K → Bool
  black_root leaf = true
  black_root (node l a b k r) = b

  -- every way down has as many black nodes, and no red node has a red child
  abbrev pub IsRedBlack : Tree K → Type 0
  IsRedBlack leaf = Unit {0}
  IsRedBlack (node l a b k r) =
      IsRedBlack l
      × IsRedBlack r
      × (black_height l ≡ black_height r)
      × ((b || (black_root l && black_root r)) ≡ true)

  pub IsRedBlack-sub : (c : Context K) (t : Tree K) → IsRedBlack (plug c t) → IsRedBlack t
  IsRedBlack-sub top t h = h
  IsRedBlack-sub (frame left a b k sib c) t h = (IsRedBlack-sub c (branch left t a b k sib) h).0
  IsRedBlack-sub (frame right a b k sib c) t h = (IsRedBlack-sub c (branch right t a b k sib) h).1

  -- a subtree may be replaced by one of the same black height, which is black if the other is
  pub IsRedBlack-plug :
      (c : Context K) (t t' : Tree K)
      → IsRedBlack (plug c t)
      → IsRedBlack t'
      → black_height t' ≡ black_height t
      → (black_root t ≡ true → black_root t' ≡ true)
      → IsRedBlack (plug c t')
  IsRedBlack-plug top t t' h h' e b = h'
  IsRedBlack-plug (frame left a ba k sib c) t t' h h' e b =
      let old = IsRedBlack-sub c (branch left t a ba k sib) h in
      let color : (ba || (black_root t' && black_root sib)) ≡ true = ground arith in
      IsRedBlack-plug c (branch left t a ba k sib) (branch left t' a ba k sib) h
        (h', old.1, e ∙ old.2, color) (ap (λ (n : ℕ). n + bit ba) e) (λ x. x)
  IsRedBlack-plug (frame right a ba k sib c) t t' h h' e b =
      let old = IsRedBlack-sub c (branch right t a ba k sib) h in
      let color : (ba || (black_root sib && black_root t')) ≡ true = ground arith in
      IsRedBlack-plug c (branch right t a ba k sib) (branch right t' a ba k sib) h
        (old.0, h', old.2 ∙ sym e, color) refl (λ x. x)

  -- the two trees agree in what the tree above them asks
  abbrev pub Repaired : Tree K → Tree K → Type 0
  Repaired t t' = IsRedBlack t' × (black_height t' ≡ black_height t) × (black_root t' ≡ true)

  straighten-Repaired :
      (e d : Dir) (t₀ t : Tree K) (p : ℕ) (kp : K) (sib : Tree K) (g : ℕ) (bg : Bool) (kg : K)
      (u : Tree K)
      → IsRedBlack (branch e (branch d t₀ p false kp sib) g bg kg u)
      → black_root u ≡ true
      → IsRedBlack t
      → black_height t ≡ black_height t₀
      → black_root t ≡ false
      → Repaired
          (branch e (branch d t₀ p false kp sib) g bg kg u)
          (straighten e d p kp sib g kg u t)
  straighten-Repaired left left t₀ t p kp sib g bg kg u h b ht e red = ground arith
  straighten-Repaired right right t₀ t p kp sib g bg kg u h b ht e red = ground arith
  straighten-Repaired left right t₀ leaf p kp sib g bg kg u h b ht e red = cc
  straighten-Repaired left right t₀ (node c n bn kn f) p kp sib g bg kg u h b ht e red =
      ground arith
  straighten-Repaired right left t₀ leaf p kp sib g bg kg u h b ht e red = cc
  straighten-Repaired right left t₀ (node f n bn kn c) p kp sib g bg kg u h b ht e red =
      ground arith

  -- a red parent that becomes black
  blacken-IsRedBlack :
      (d : Dir) (t₀ t : Tree K) (p : ℕ) (b : Bool) (kp : K) (sib : Tree K)
      → IsRedBlack (branch d t₀ p b kp sib)
      → IsRedBlack t
      → black_height t ≡ black_height t₀
      → IsRedBlack (branch d t p true kp sib)
        × (black_height (branch d t p true kp sib) + bit b
            ≡ black_height (branch d t₀ p b kp sib) + 1)
        × (black_root (branch d t p true kp sib) ≡ true)
  blacken-IsRedBlack left t₀ t p b kp sib h ht e = ground arith
  blacken-IsRedBlack right t₀ t p b kp sib h ht e = ground arith

  -- two red children of a black node that take its colour
  recolor-Repaired :
      (e d : Dir) (t₀ t : Tree K) (p : ℕ) (kp : K) (sib : Tree K) (g : ℕ) (bg : Bool) (kg : K)
      (l : Tree K) (u : ℕ) (ku : K) (r : Tree K)
      → IsRedBlack (branch e (branch d t₀ p false kp sib) g bg kg (node l u false ku r))
      → IsRedBlack t
      → black_height t ≡ black_height t₀
      → let old = branch e (branch d t₀ p false kp sib) g bg kg (node l u false ku r) in
        let new = branch e (branch d t p true kp sib) g false kg (node l u true ku r) in
        (black_root old ≡ true)
        × IsRedBlack new
        × (black_height new ≡ black_height old)
        × (black_root new ≡ false)
  recolor-Repaired left left t₀ t p kp sib g bg kg l u ku r h ht e = ground arith
  recolor-Repaired left right t₀ t p kp sib g bg kg l u ku r h ht e = ground arith
  recolor-Repaired right left t₀ t p kp sib g bg kg l u ku r h ht e = ground arith
  recolor-Repaired right right t₀ t p kp sib g bg kg l u ku r h ht e = ground arith

  rotated-IsRedBlack :
      (c : Context K) (e d : Dir) (t₀ t : Tree K) (p : ℕ) (kp : K) (sib : Tree K) (g : ℕ)
      (bg : Bool) (kg : K) (u : Tree K)
      → IsRedBlack (plug c (branch e (branch d t₀ p false kp sib) g bg kg u))
      → black_root u ≡ true
      → IsRedBlack t
      → black_height t ≡ black_height t₀
      → black_root t ≡ false
      → IsRedBlack (plug c (straighten e d p kp sib g kg u t))
  rotated-IsRedBlack c e d t₀ t p kp sib g bg kg u h b ht same red =
      let old = branch e (branch d t₀ p false kp sib) g bg kg u in
      let (balanced, height, color) =
        straighten-Repaired e d t₀ t p kp sib g bg kg u (IsRedBlack-sub c old h) b ht same red in
      IsRedBlack-plug c old (straighten e d p kp sib g kg u t) h balanced height (λ _. color)

  -- A red-black tree below which a black subtree becomes a red one of its black height is made a
  -- red-black tree again.
  fixup-IsRedBlack :
      (c : Context K) (t₀ t : Tree K)
      → IsRedBlack (plug c t₀)
      → black_root t₀ ≡ true
      → IsRedBlack t
      → black_height t ≡ black_height t₀
      → black_root t ≡ false
      → IsRedBlack (fixup c t)
  unfolding fixup
  fixup-IsRedBlack top t₀ t h b ht e red = ht
  fixup-IsRedBlack (frame d p true kp sib c) t₀ t h b ht e red =
      let (new, height, black) =
        blacken-IsRedBlack d t₀ t p true kp sib (IsRedBlack-sub c (branch d t₀ p true kp sib) h) ht
          e in
      IsRedBlack-plug c (branch d t₀ p true kp sib) (branch d t p true kp sib) h new (omega arith)
        (λ _. black)
  fixup-IsRedBlack (frame d p false kp sib top) t₀ t h b ht e red =
      (blacken-IsRedBlack d t₀ t p false kp sib h ht e).0
  fixup-IsRedBlack (frame d p false kp sib (frame e g bg kg leaf c)) t₀ t h b ht same red =
      rotated-IsRedBlack c e d t₀ t p kp sib g bg kg leaf h refl ht same red
  fixup-IsRedBlack (frame d p false kp sib (frame e g bg kg (node ul u true ku ur) c)) t₀ t h b ht
        same red =
      rotated-IsRedBlack c e d t₀ t p kp sib g bg kg (node ul u true ku ur) h refl ht same red
  fixup-IsRedBlack (frame d p false kp sib (frame e g bg kg (node ul u false ku ur) c)) t₀ t h b ht
        same red =
      let old = branch e (branch d t₀ p false kp sib) g bg kg (node ul u false ku ur) in
      let new = branch e (branch d t p true kp sib) g false kg (node ul u true ku ur) in
      let (black, balanced, height, color) =
        recolor-Repaired e d t₀ t p kp sib g bg kg ul u ku ur (IsRedBlack-sub c old h) ht same in
      fixup-IsRedBlack c old new h black balanced height color

  -- `insert_node` keeps a red-black tree one.
  pub inserted-IsRedBlack :
      (less : K → K → Bool) (a : ℕ) (k : K) (t : Tree K)
      → IsRedBlack t
      → IsRedBlack (inserted less a k t)
  unfolding inserted
  inserted-IsRedBlack less a k t h =
      let whole : plug (locate less k t top) leaf ≡ t = plug-locate less k t top in
      fixup-IsRedBlack (locate less k t top) leaf (node leaf a false k leaf) (rw whole h) refl
        (tt, tt, refl, refl) refl refl
