-- ===== src/Rbtree/Order.antt =====
-- The nodes of the tree from the left to the right: rebalancing keeps their order.
use dsa_c.Prelude.{ℕ, ◌≡◌, ◌∙◌, refl, sym, ap, Bool, true, false, List, [], ◌∷◌, ◌++◌}
use mathlib.Core.List.{append_assoc, append-nil}
use dsa_c.Rbtree.{Dir, left, right}
use dsa_c.Rbtree.Shape.{Tree, leaf, node, branch}
use dsa_c.Rbtree.Context.{Context, top, frame, plug}
use dsa_c.Rbtree.Fixup.{straighten, fixup}
use dsa_c.Rbtree.Balance.{black_root}

module _ {K : Type 0} where
  -- the nodes with their keys, in order
  abbrev pub listing : Tree K → List (ℕ × K)
  listing leaf = []
  listing (node l a b k r) = listing l ++ (a, k) ∷ listing r

  -- the keys before and behind a subtree
  abbrev pub before : Context K → List (ℕ × K)
  before top = []
  before (frame left a b k sib c) = before c
  before (frame right a b k sib c) = before c ++ listing sib ++ (a, k) ∷ []

  abbrev pub behind : Context K → List (ℕ × K)
  behind top = []
  behind (frame left a b k sib c) = (a, k) ∷ listing sib ++ behind c
  behind (frame right a b k sib c) = behind c

  pub listing-plug :
      (c : Context K) (t : Tree K) → listing (plug c t) ≡ before c ++ listing t ++ behind c
  listing-plug top t = sym (append-nil (listing t))
  listing-plug (frame left a b k sib c) t =
      listing-plug c (branch left t a b k sib) ∙ simp append_assoc
  listing-plug (frame right a b k sib c) t =
      listing-plug c (branch right t a b k sib) ∙ simp append_assoc

  pub listing-plug_congr :
      (c : Context K) (t t' : Tree K)
      → listing t ≡ listing t'
      → listing (plug c t) ≡ listing (plug c t')
  listing-plug_congr c t t' e =
      listing-plug c t ∙ ap (λ xs. before c ++ xs ++ behind c) e ∙ sym (listing-plug c t')

  listing-straighten :
      (e d : Dir) (t : Tree K) (p : ℕ) (kp : K) (sib : Tree K) (g : ℕ) (bg : Bool) (kg : K)
      (u : Tree K)
      → black_root t ≡ false
      → listing (straighten e d p kp sib g kg u t)
        ≡ listing (branch e (branch d t p false kp sib) g bg kg u)
  listing-straighten left left t p kp sib g bg kg u red = simp append_assoc
  listing-straighten right right t p kp sib g bg kg u red = simp append_assoc
  listing-straighten left right leaf p kp sib g bg kg u red = cc
  listing-straighten left right (node c n b kn f) p kp sib g bg kg u red = simp append_assoc
  listing-straighten right left leaf p kp sib g bg kg u red = cc
  listing-straighten right left (node f n b kn c) p kp sib g bg kg u red = simp append_assoc

  listing-recolor :
      (e d : Dir) (t : Tree K) (p : ℕ) (b b' : Bool) (kp : K) (sib : Tree K) (g : ℕ) (bg bg' : Bool)
      (kg : K) (l : Tree K) (u : ℕ) (bu bu' : Bool) (ku : K) (r : Tree K)
      → listing (branch e (branch d t p b kp sib) g bg kg (node l u bu ku r))
        ≡ listing (branch e (branch d t p b' kp sib) g bg' kg (node l u bu' ku r))
  listing-recolor left left t p b b' kp sib g bg bg' kg l u bu bu' ku r = refl
  listing-recolor left right t p b b' kp sib g bg bg' kg l u bu bu' ku r = refl
  listing-recolor right left t p b b' kp sib g bg bg' kg l u bu bu' ku r = refl
  listing-recolor right right t p b b' kp sib g bg bg' kg l u bu bu' ku r = refl

  pub listing-branch :
      (d : Dir) (t : Tree K) (p : ℕ) (b b' : Bool) (kp : K) (sib : Tree K)
      → listing (branch d t p b kp sib) ≡ listing (branch d t p b' kp sib)
  listing-branch left t p b b' kp sib = refl
  listing-branch right t p b b' kp sib = refl

  root_red :
      (e : Dir) (t : Tree K) (g : ℕ) (k : K) (u : Tree K)
      → black_root (branch e t g false k u) ≡ false
  root_red left t g k u = refl
  root_red right t g k u = refl

  -- rebalancing keeps the order of the nodes
  pub listing-fixup :
      (c : Context K) (t : Tree K) → black_root t ≡ false → listing (fixup c t) ≡ listing (plug c t)
  unfolding fixup
  listing-fixup top t red = refl
  listing-fixup (frame d p true kp sib c) t red = refl
  listing-fixup (frame d p false kp sib top) t red = listing-branch d t p true false kp sib
  listing-fixup (frame d p false kp sib (frame e g bg kg leaf c)) t red =
      listing-plug_congr c (straighten e d p kp sib g kg leaf t) _
        (listing-straighten e d t p kp sib g bg kg leaf red)
  listing-fixup (frame d p false kp sib (frame e g bg kg (node ul u true ku ur) c)) t red =
      listing-plug_congr c (straighten e d p kp sib g kg (node ul u true ku ur) t) _
        (listing-straighten e d t p kp sib g bg kg (node ul u true ku ur) red)
  listing-fixup (frame d p false kp sib (frame e g bg kg (node ul u false ku ur) c)) t red =
      let new = branch e (branch d t p true kp sib) g false kg (node ul u true ku ur) in
      listing-fixup c new (root_red e (branch d t p true kp sib) g kg (node ul u true ku ur))
      ∙ listing-plug_congr c new _
          (listing-recolor e d t p true false kp sib g false bg kg ul u true false ku ur)
