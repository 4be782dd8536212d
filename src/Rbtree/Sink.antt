-- ===== src/Rbtree/Sink.antt =====
-- `delete_fixup` on a tree in memory: it computes `sunk`, and its fuel is enough.
use mathlib.Core.Path.{subst}
use dsa_c.Prelude.{ℕ, ◌≡◌, refl, sym, Bool, true, false, not, inl, inr, Bool-cases}
use dsa_c.Run.{ok, Returns, Returns-bind}
use dsa_c.Rbtree.{Dir, left, right, Memory}
use dsa_c.Rbtree.Delete.{is_red_node, case_3, case_4, case_5, case_6, after_case_3}
use dsa_c.Rbtree.Shape.{Tree, leaf, node, root_of, branch, IsPointer, Cell}
use dsa_c.Rbtree.Context.{
  Context, frame, plug, parent_of, Represents, Branch, split, Holds-Branch, root_of-branch,
}
use dsa_c.Rbtree.Color.{at_ne_null, set_black-Represents, set_red-Represents}
use dsa_c.Rbtree.Rotation.{rotate_dir_lem}
use dsa_c.Rbtree.Balance.{black_root}
use dsa_c.Rbtree.Cases.{is_red_node-at, case_4_lem, case_5_lem, case_6_lem}
use dsa_c.Rbtree.Sunk.{four, five_at, settle}

module _ {K : Type 0} where
  -- the pointers and colours around a node and its sibling
  module _ (m : Memory K) (ctx : Context K) (d : Dir) (t : Tree K) (p : ℕ) (bp : Bool) (kp : K)
      (c : Tree K) (s : ℕ) (bs : Bool) (ks : K) (f : Tree K)
      (r : Represents m (plug ctx (branch d t p bp kp (branch d c s bs ks f)))) where
    pub p-Branch : Branch m d (parent_of ctx) t p bp kp (branch d c s bs ks f)
    p-Branch =
        let up = split ctx (branch d t p bp kp (branch d c s bs ks f)) r in Holds-Branch d up.below

    pub s-Branch : Branch m d p c s bs ks f
    s-Branch = Holds-Branch d (let h = p-Branch in h.far_holds)

    pub p-Cell : Cell m d p (parent_of ctx) bp kp (root_of t) s
    p-Cell = rw root_of-branch at (let h = p-Branch in h.cell)

    pub s-Cell : Cell m d s p bs ks (root_of c) (root_of f)
    s-Cell = let h = s-Branch in h.cell

    pub s-IsPointer : IsPointer s
    s-IsPointer = let cell = s-Cell in record { even = cell.address.even; fits = cell.address.fits }

    pub p-IsPointer : IsPointer p
    p-IsPointer = let cell = p-Cell in record { even = cell.address.even; fits = cell.address.fits }

    pub near_is_red : is_red_node m (root_of c) ≡ ok (not (black_root c))
    near_is_red = let h = s-Branch in is_red_node-at h.near_holds s-IsPointer

    pub far_is_red : is_red_node m (root_of f) ≡ ok (not (black_root f))
    far_is_red = let h = s-Branch in is_red_node-at h.far_holds s-IsPointer

  settle-five :
      (d : Dir) (t : Tree K) (p : ℕ) (bp : Bool) (kp : K) (c : Tree K) (s : ℕ) (ks : K) (f : Tree K)
      → black_root f ≡ true
      → black_root c ≡ false
      → settle d t p bp kp c s ks f ≡ five_at d t p bp kp c s ks f
  settle-five d t p bp kp c s ks f black red = rw (settle, black, red) refl

  settle-four :
      (d : Dir) (t : Tree K) (p : ℕ) (bp : Bool) (kp : K) (c : Tree K) (s : ℕ) (ks : K) (f : Tree K)
      → black_root f ≡ true
      → black_root c ≡ true
      → settle d t p bp kp c s ks f ≡ four d t p kp c s ks f
  settle-four d t p bp kp c s ks f black black' = rw (settle, black, black') refl

  module _ (m : Memory K) (ctx : Context K) (t : Tree K) (p : ℕ) (bp : Bool) (kp : K) (s : ℕ)
      (bs : Bool) (ks : K) where
    pub far_red :
        (d : Dir) (c f : Tree K)
        → black_root f ≡ false
        → Represents m (plug ctx (branch d t p bp kp (branch d c s bs ks f)))
        → Returns
            (λ m'. Represents m' (plug ctx (settle d t p bp kp c s ks f)))
            (case_6 m p s (root_of f) d)
    far_red d c leaf red r = cc
    far_red d c (node fl x true kx fr) red r = cc
    far_red d c (node fl x false kx fr) red r =
        case_6_lem m ctx d t p bp kp c s bs ks fl x false kx fr r

    pub near_red :
        (d : Dir) (c f : Tree K)
        → black_root f ≡ true
        → black_root c ≡ false
        → Represents m (plug ctx (branch d t p bp kp (branch d c s bs ks f)))
        → Returns
            (λ m'. Represents m' (plug ctx (settle d t p bp kp c s ks f)))
            (case_5 m p s (root_of c) d)
    near_red d leaf f black red r = cc
    near_red left (node c n b kn f') f black red r =
        subst (λ t'. Returns (λ m'. Represents m' (plug ctx t')) (case_5 m p s n left))
          (sym (settle-five left t p bp kp (node c n b kn f') s ks f black red))
          (case_5_lem m ctx left t p bp kp c n b kn f' s bs ks f r)
    near_red right (node f' n b kn c) f black red r =
        subst (λ t'. Returns (λ m'. Represents m' (plug ctx t')) (case_5 m p s n right))
          (sym (settle-five right t p bp kp (node f' n b kn c) s ks f black red))
          (case_5_lem m ctx right t p bp kp c n b kn f' s bs ks f r)

    pub none_red :
        (d : Dir) (c f : Tree K)
        → black_root f ≡ true
        → black_root c ≡ true
        → Represents m (plug ctx (branch d t p bp kp (branch d c s bs ks f)))
        → Returns (λ m'. Represents m' (plug ctx (settle d t p bp kp c s ks f))) (case_4 m p s)
    none_red d c f black black' r =
        subst (λ t'. Returns (λ m'. Represents m' (plug ctx t')) (case_4 m p s))
          (sym (settle-four d t p bp kp c s ks f black black'))
          (case_4_lem m ctx d t p bp kp c s bs ks f r)

  after_case_3_lem :
      (m : Memory K) (ctx : Context K) (d : Dir) (t : Tree K) (p : ℕ) (kp : K) (c : Tree K) (s : ℕ)
      (bs : Bool) (ks : K) (f : Tree K)
      → Represents m (plug ctx (branch d t p false kp (branch d c s bs ks f)))
      → Returns
          (λ m'. Represents m' (plug ctx (settle d t p false kp c s ks f)))
          (after_case_3 m p s (root_of f) (root_of c) d)
  unfolding after_case_3
  after_case_3_lem m ctx d t p kp c s bs ks f r =
      rw
        (
          far_is_red m ctx d t p false kp c s bs ks f r,
          near_is_red m ctx d t p false kp c s bs ks f r,
        )
        (elim (Bool-cases (black_root f)) [
          | inl black ↦ elim (Bool-cases (black_root c)) [
            | inl black' ↦
                rw (black, black') (none_red m ctx t p false kp s bs ks d c f black black' r)
            | inr red ↦ rw (black, red) (near_red m ctx t p false kp s bs ks d c f black red r)
          ]
          | inr red ↦ rw red (far_red m ctx t p false kp s bs ks d c f red r)
        ])

  -- `Case_3`, where the red sibling has the near subtree with the root `n`
  pub case_3_lem :
      (m : Memory K) (ctx : Context K) (d : Dir) (t : Tree K) (p : ℕ) (bp : Bool) (kp : K)
      (c : Tree K) (n : ℕ) (bn : Bool) (kn : K) (f : Tree K) (s : ℕ) (bs : Bool) (ks : K)
      (f' : Tree K)
      → Represents m (plug ctx (branch d t p bp kp (branch d (branch d c n bn kn f) s bs ks f')))
      → Returns
          (λ m'. Represents m' (plug ctx (branch d (settle d t p false kp c n kn f) s true ks f')))
          (case_3 m p s n d)
  unfolding case_3
  case_3_lem m ctx d t p bp kp c n bn kn f s bs ks f' r =
      let sib = branch d c n bn kn f in
      let up = frame d s true ks f' ctx in
      Returns-bind (rotate_dir_lem m ctx d t p bp kp sib s bs ks f' r) λ (_, m₁) (_, r₁).
        Returns-bind (set_red-Represents m₁ (frame d s bs ks f' ctx) d t p bp kp sib r₁) λ m₂ r₂.
          Returns-bind (set_black-Represents m₂ ctx d (branch d t p false kp sib) s bs ks f' r₂)
            λ m₃ r₃.
              let cell = s-Cell m₃ up d t p false kp c n bn kn f r₃ in
              rw (at_ne_null cell, cell.to_far, cell.to_near)
                (after_case_3_lem m₃ up d t p kp c n bn kn f r₃)
