-- ===== src/Rbtree/Fall.antt =====
-- The loop of `delete_fixup` on a tree in memory: it computes `sunk`, and a round for each level of
-- the tree is fuel enough.
use mathlib.Core.Path.{subst}
use dsa_c.Prelude.{
  ℕ, zero, suc, ◌+◌, ◌<◌, ◌≡◌, refl, sym, Bool, true, false, arith, ◌==◌, inl, inr, Bool-cases,
}
use dsa_c.Run.{ok, ◌>>=◌, Returns, returns, Returns-bind}
use dsa_c.Rbtree.{Dir, left, right, Memory, child_dir}
use dsa_c.Rbtree.Delete.{delete_fixup}
use dsa_c.Rbtree.Shape.{Tree, leaf, node, root_of, branch}
use dsa_c.Rbtree.Context.{Context, top, frame, plug, parent_of, Represents}
use dsa_c.Rbtree.Color.{at_ne_null, node_get_parent_ptr-at, Cell-of, parent_of_cell}
use dsa_c.Rbtree.Climb.{child_dir-at}
use dsa_c.Rbtree.Fixup.{depth}
use dsa_c.Rbtree.Balance.{black_height, IsRedBlack, IsRedBlack-sub}
use dsa_c.Rbtree.Cases.{set_red_far}
use dsa_c.Rbtree.Sunk.{settle, rests, sunk}
use dsa_c.Rbtree.Sink.{case_3_lem}
use dsa_c.Rbtree.Rounds.{a_round, red_sibling, black_sibling, goes_on}

module _ {K : Type 0} where
  module _ (fuel : ℕ) (m : Memory K) (ctx : Context K) (d : Dir) (t : Tree K) (p : ℕ) (bp : Bool)
      (kp : K) where
    red_round :
        (c : Tree K) (n : ℕ) (bn : Bool) (kn : K) (f : Tree K) (s : ℕ) (ks : K) (f' : Tree K)
        → root_of (branch d c n bn kn f) ≡ n
        → Represents m
            (plug ctx (branch d t p bp kp (branch d (branch d c n bn kn f) s false ks f')))
        → Returns
            (λ m'.
              Represents m' (plug ctx (branch d (settle d t p false kp c n kn f) s true ks f')))
            (delete_fixup (suc fuel) m p d)
    red_round c n bn kn f s ks f' e r =
        let near = branch d c n bn kn f in
        rw
          (
            a_round m ctx d t p bp kp near s false ks f' r fuel,
            red_sibling (delete_fixup fuel) m ctx d t p bp kp near s ks f' r,
            e,
          )
          (case_3_lem m ctx d t p bp kp c n bn kn f s false ks f' r)

    module _ (c : Tree K) (s : ℕ) (ks : K) (f : Tree K)
        (r : Represents m (plug ctx (branch d t p bp kp (branch d c s true ks f)))) where
      last_round :
          rests bp c f ≡ false
          → Returns
              (λ m'. Represents m' (plug ctx (settle d t p bp kp c s ks f)))
              (delete_fixup (suc fuel) m p d)
      last_round ends =
          rw (a_round m ctx d t p bp kp c s true ks f r fuel)
            (black_sibling (delete_fixup fuel) m ctx d t p bp kp c s ks f r ends)

      -- what the next round starts from
      abbrev lowered : Tree K
      lowered = branch d t p true kp (branch d c s false ks f)

      next_round :
          (then_tree : Tree K)
          → rests bp c f ≡ true
          → ((m' : Memory K)
              → Represents m' (plug ctx lowered)
              → Returns
                  (λ m''. Represents m'' then_tree)
                  (elim (parent_of ctx == 0) [
                    | true ↦ ok m'
                    | false ↦ do dir' ← child_dir m' p; delete_fixup fuel m' (parent_of ctx) dir'
                  ]))
          → Returns (λ m'. Represents m' then_tree) (delete_fixup (suc fuel) m p d)
      next_round then_tree on later =
          let black : bp ≡ true = ground arith in
          rw
            (
              a_round m ctx d t p bp kp c s true ks f r fuel,
              goes_on (delete_fixup fuel) m ctx d t p bp kp c s ks f r on,
            )
            (Returns-bind (set_red_far m ctx t p bp kp d c s true ks f d r) λ m' r'.
              let sib = branch d c s false ks f in
              let cell = Cell-of m' ctx d t p bp kp sib r' in
              rw (node_get_parent_ptr-at cell (parent_of_cell m' ctx d t p bp kp sib r'))
                (later m' (rw black at r')))

  pub no_leaf :
      (d : Dir) (t₀ : Tree K) (p : ℕ) (bp : Bool) (kp : K)
      → IsRedBlack (branch d t₀ p bp kp leaf)
      → 0 < black_height t₀
      → ⊥
  no_leaf left t₀ p bp kp h pos = omega (arith, h.2)
  no_leaf right t₀ p bp kp h pos = omega (arith, h.2)

  pub no_red_leaf :
      (d : Dir) (t₀ : Tree K) (p : ℕ) (bp : Bool) (kp : K) (s : ℕ) (ks : K) (f : Tree K)
      → IsRedBlack (branch d t₀ p bp kp (branch d leaf s false ks f))
      → 0 < black_height t₀
      → ⊥
  no_red_leaf left t₀ p bp kp s ks f h pos = ground arith
  no_red_leaf right t₀ p bp kp s ks f h pos = ground arith

  pub short_again :
      (d : Dir) (t₀ t : Tree K) (p : ℕ) (bp : Bool) (kp : K) (c : Tree K) (s : ℕ) (ks : K)
      (f : Tree K)
      → black_height t₀ ≡ black_height t + 1
      → rests bp c f ≡ true
      → black_height (branch d t₀ p bp kp (branch d c s true ks f))
        ≡ black_height (branch d t p true kp (branch d c s false ks f)) + 1
  short_again left t₀ t p bp kp c s ks f e on = ground arith
  short_again right t₀ t p bp kp c s ks f e on = ground arith

  sunk-ends :
      (d : Dir) (p : ℕ) (bp : Bool) (kp : K) (c : Tree K) (s : ℕ) (ks : K) (f : Tree K)
      (ctx : Context K) (t : Tree K)
      → rests bp c f ≡ false
      → sunk (frame d p bp kp (branch d c s true ks f) ctx) t
        ≡ plug ctx (settle d t p bp kp c s ks f)
  unfolding sunk
  sunk-ends left p bp kp c s ks f ctx t e = rw (e, sunk) refl
  sunk-ends right p bp kp c s ks f ctx t e = rw (e, sunk) refl

  sunk-goes_on :
      (d : Dir) (p : ℕ) (bp : Bool) (kp : K) (c : Tree K) (s : ℕ) (ks : K) (f : Tree K)
      (ctx : Context K) (t : Tree K)
      → rests bp c f ≡ true
      → sunk (frame d p bp kp (branch d c s true ks f) ctx) t
        ≡ sunk ctx (branch d t p true kp (branch d c s false ks f))
  unfolding sunk
  sunk-goes_on left p bp kp c s ks f ctx t e = rw (e, sunk) refl
  sunk-goes_on right p bp kp c s ks f ctx t e = rw (e, sunk) refl

  black_round :
      (fuel : ℕ) (m : Memory K) (ctx : Context K) (d : Dir) (t : Tree K) (p : ℕ) (bp : Bool)
      (kp : K) (c : Tree K) (s : ℕ) (ks : K) (f : Tree K)
      → Represents m (plug ctx (branch d t p bp kp (branch d c s true ks f)))
      → (rests bp c f ≡ true
          → (m' : Memory K)
          → Represents m' (plug ctx (branch d t p true kp (branch d c s false ks f)))
          → Returns
              (λ m''. Represents m'' (sunk ctx (branch d t p true kp (branch d c s false ks f))))
              (elim (parent_of ctx == 0) [
                | true ↦ ok m'
                | false ↦ do dir' ← child_dir m' p; delete_fixup fuel m' (parent_of ctx) dir'
              ]))
      → Returns
          (λ m'. Represents m' (sunk (frame d p bp kp (branch d c s true ks f) ctx) t))
          (delete_fixup (suc fuel) m p d)
  black_round fuel m ctx d t p bp kp c s ks f r later = elim (Bool-cases (rests bp c f)) [
    | inl on ↦
        subst (λ t'. Returns (λ m'. Represents m' t') (delete_fixup (suc fuel) m p d))
          (sym (sunk-goes_on d p bp kp c s ks f ctx t on))
          (next_round fuel m ctx d t p bp kp c s ks f r
            (sunk ctx (branch d t p true kp (branch d c s false ks f))) on (later on))
    | inr ends ↦
        subst (λ t'. Returns (λ m'. Represents m' t') (delete_fixup (suc fuel) m p d))
          (sym (sunk-ends d p bp kp c s ks f ctx t ends))
          (last_round fuel m ctx d t p bp kp c s ks f r ends)
  ]

  -- Below a context of a red-black tree stands a subtree that has one black node less than the tree
  -- asks for; a round for each level is enough.
  pub delete_fixup-sunk :
      (fuel : ℕ) (m : Memory K) (ctx : Context K) (d : Dir) (t : Tree K) (p : ℕ) (bp : Bool)
      (kp : K) (sib t₀ : Tree K)
      → IsRedBlack (plug ctx (branch d t₀ p bp kp sib))
      → black_height t₀ ≡ black_height t + 1
      → depth ctx < fuel
      → Represents m (plug ctx (branch d t p bp kp sib))
      → Returns (λ m'. Represents m' (sunk (frame d p bp kp sib ctx) t)) (delete_fixup fuel m p d)
  unfolding sunk
  delete_fixup-sunk zero m ctx d t p bp kp sib t₀ h e low r = absurd (omega arith)
  delete_fixup-sunk (suc fuel) m ctx d t p bp kp leaf t₀ h e low r =
      absurd (no_leaf d t₀ p bp kp (IsRedBlack-sub ctx _ h) (omega arith))
  delete_fixup-sunk (suc fuel) m ctx left t p bp kp (node leaf s false ks f) t₀ h e low r =
      absurd (no_red_leaf left t₀ p bp kp s ks f (IsRedBlack-sub ctx _ h) (omega arith))
  delete_fixup-sunk (suc fuel) m ctx right t p bp kp (node f s false ks leaf) t₀ h e low r =
      absurd (no_red_leaf right t₀ p bp kp s ks f (IsRedBlack-sub ctx _ h) (omega arith))
  delete_fixup-sunk (suc fuel) m ctx left t p bp kp (node (node c n bn kn f) s false ks f') t₀ h e
        low r =
      red_round fuel m ctx left t p bp kp c n bn kn f s ks f' refl r
  delete_fixup-sunk (suc fuel) m ctx right t p bp kp (node f' s false ks (node f n bn kn c)) t₀ h e
        low r =
      red_round fuel m ctx right t p bp kp c n bn kn f s ks f' refl r
  delete_fixup-sunk (suc fuel) m top left t p bp kp (node c s true ks f) t₀ h e low r =
      black_round fuel m top left t p bp kp c s ks f r (λ on m' r'. returns r')
  delete_fixup-sunk (suc fuel) m top right t p bp kp (node f s true ks c) t₀ h e low r =
      black_round fuel m top right t p bp kp c s ks f r (λ on m' r'. returns r')
  delete_fixup-sunk (suc fuel) m (frame d' p' b' kp' sib' ctx) left t p bp kp (node c s true ks f)
        t₀ h e low r =
      black_round fuel m (frame d' p' b' kp' sib' ctx) left t p bp kp c s ks f r λ on m' r'.
        let sib = node c s false ks f in
        let below = node t p true kp sib in
        let cell = Cell-of m' ctx d' below p' b' kp' sib' r' in
        rw (at_ne_null cell, child_dir-at m' ctx d' left t p true kp sib p' b' kp' sib' r')
          (delete_fixup-sunk fuel m' ctx d' below p' b' kp' sib'
            (node t₀ p bp kp (node c s true ks f)) h (short_again left t₀ t p bp kp c s ks f e on)
            (omega arith) r')
  delete_fixup-sunk (suc fuel) m (frame d' p' b' kp' sib' ctx) right t p bp kp (node f s true ks c)
        t₀ h e low r =
      black_round fuel m (frame d' p' b' kp' sib' ctx) right t p bp kp c s ks f r λ on m' r'.
        let sib = node f s false ks c in
        let below = node sib p true kp t in
        let cell = Cell-of m' ctx d' below p' b' kp' sib' r' in
        rw (at_ne_null cell, child_dir-at m' ctx d' right t p true kp sib p' b' kp' sib' r')
          (delete_fixup-sunk fuel m' ctx d' below p' b' kp' sib'
            (node (node f s true ks c) p bp kp t₀) h (short_again right t₀ t p bp kp c s ks f e on)
            (omega arith) r')
