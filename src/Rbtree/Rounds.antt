-- ===== src/Rbtree/Rounds.antt =====
-- A round of `delete_fixup` on a tree in memory: which case it takes.
use dsa_c.Prelude.{ℕ, suc, ◌≡◌, refl, Bool, true, false, not, arith, ◌==◌, inl, inr, Bool-cases}
use dsa_c.Run.{Run, ok, ◌>>=◌, Returns}
use dsa_c.Rbtree.{Dir, Memory, node_is_red, node_set_color_to_red, node_get_parent_ptr, child_dir}
use dsa_c.Rbtree.Delete.{is_red_node, case_3, choose_case, delete_fixup}
use dsa_c.Rbtree.Shape.{Tree, root_of, branch}
use dsa_c.Rbtree.Context.{Context, plug, Represents}
use dsa_c.Rbtree.Color.{at_ne_null, node_is_red-at, parent_of_cell}
use dsa_c.Rbtree.Balance.{black_root}
use dsa_c.Rbtree.Sunk.{settle, rests}
use dsa_c.Rbtree.Sink.{
  p-Cell, s-Cell, p-IsPointer, near_is_red, far_is_red, far_red, near_red, none_red,
}

module _ {K : Type 0} where
  module _ (m : Memory K) (ctx : Context K) (d : Dir) (t : Tree K) (p : ℕ) (bp : Bool) (kp : K)
      (c : Tree K) (s : ℕ) (bs : Bool) (ks : K) (f : Tree K)
      (r : Represents m (plug ctx (branch d t p bp kp (branch d c s bs ks f)))) where
    pub a_round :
        (fuel : ℕ)
        → delete_fixup (suc fuel) m p d
          ≡ choose_case (delete_fixup fuel) m p s (root_of f) (root_of c) d
    unfolding delete_fixup
    a_round fuel =
        let at_p = p-Cell m ctx d t p bp kp c s bs ks f r in
        let at_s = s-Cell m ctx d t p bp kp c s bs ks f r in
        rw (at_ne_null at_p, at_p.to_far, at_ne_null at_s, at_s.to_far, at_s.to_near) refl

    s_is_red : node_is_red m s ≡ ok (not bs)
    s_is_red =
        node_is_red-at (s-Cell m ctx d t p bp kp c s bs ks f r)
          (p-IsPointer m ctx d t p bp kp c s bs ks f r)

    p_is_red : node_is_red m p ≡ ok (not bp)
    p_is_red =
        node_is_red-at (p-Cell m ctx d t p bp kp c s bs ks f r)
          (parent_of_cell m ctx d t p bp kp (branch d c s bs ks f) r)

    f_is_red : is_red_node m (root_of f) ≡ ok (not (black_root f))
    f_is_red = far_is_red m ctx d t p bp kp c s bs ks f r

    c_is_red : is_red_node m (root_of c) ≡ ok (not (black_root c))
    c_is_red = near_is_red m ctx d t p bp kp c s bs ks f r

  module _ (next : Memory K → ℕ → Dir → Run (Memory K)) (m : Memory K) (ctx : Context K) (d : Dir)
      (t : Tree K) (p : ℕ) (bp : Bool) (kp : K) (c : Tree K) (s : ℕ) (ks : K) (f : Tree K) where
    -- the sibling is red
    pub red_sibling :
        Represents m (plug ctx (branch d t p bp kp (branch d c s false ks f)))
        → choose_case next m p s (root_of f) (root_of c) d ≡ case_3 m p s (root_of c) d
    unfolding choose_case
    red_sibling r =
        rw
          (
            s_is_red m ctx d t p bp kp c s false ks f r,
            f_is_red m ctx d t p bp kp c s false ks f r,
            c_is_red m ctx d t p bp kp c s false ks f r,
            p_is_red m ctx d t p bp kp c s false ks f r,
          )
          refl

    -- the sibling is black, and the loop ends with this round
    pub black_sibling :
        Represents m (plug ctx (branch d t p bp kp (branch d c s true ks f)))
        → rests bp c f ≡ false
        → Returns
            (λ m'. Represents m' (plug ctx (settle d t p bp kp c s ks f)))
            (choose_case next m p s (root_of f) (root_of c) d)
    unfolding choose_case
    black_sibling r ends =
        rw
          (
            s_is_red m ctx d t p bp kp c s true ks f r,
            f_is_red m ctx d t p bp kp c s true ks f r,
            c_is_red m ctx d t p bp kp c s true ks f r,
            p_is_red m ctx d t p bp kp c s true ks f r,
          )
          (elim (Bool-cases (black_root f)) [
            | inr red ↦ rw red (far_red m ctx t p bp kp s true ks d c f red r)
            | inl black ↦ elim (Bool-cases (black_root c)) [
              | inr red ↦ rw (black, red) (near_red m ctx t p bp kp s true ks d c f black red r)
              | inl black' ↦
                  let red : bp ≡ false = ground arith in
                  rw (black, black', red)
                    (rw red at (none_red m ctx t p bp kp s true ks d c f black black' r))
            ]
          ])

    -- nothing is red, and the next round goes on at the parent
    pub goes_on :
        Represents m (plug ctx (branch d t p bp kp (branch d c s true ks f)))
        → rests bp c f ≡ true
        → choose_case next m p s (root_of f) (root_of c) d ≡ (do
          m' ← node_set_color_to_red m s
          p' ← node_get_parent_ptr m' p
          elim (p' == 0) [ true ↦ ok m' | false ↦ do dir' ← child_dir m' p; next m' p' dir' ])
    unfolding choose_case
    goes_on r on =
        let black : black_root f ≡ true = ground arith in
        let black' : black_root c ≡ true = ground arith in
        let black'' : bp ≡ true = ground arith in
        rw
          (
            s_is_red m ctx d t p bp kp c s true ks f r,
            f_is_red m ctx d t p bp kp c s true ks f r,
            c_is_red m ctx d t p bp kp c s true ks f r,
            p_is_red m ctx d t p bp kp c s true ks f r,
            black,
            black',
            black'',
          )
          refl
