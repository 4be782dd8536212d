-- ===== src/Rbtree/Rotation.antt =====
-- `rotate_dir` on a tree in memory.
use dsa_c.Prelude.{
  ℕ, ◌≡◌, ◌≢◌, ◌∙◌, refl, sym, Bool, true, false, ◌||◌, arith, ◌==◌, inl, inr, Bool-cases,
}
use dsa_c.Run.{Returns, returns}
use dsa_c.Rbtree.{Dir, other, Memory, set_child, rotate_dir}
use dsa_c.Rbtree.Shape.{
  Tree, leaf, node, root_of, branch, has, ◌∈◌, ◌∉◌, Disjoint, IsPointer, Cell, Holds, Same,
  Cell-Same, Holds-Same,
}
use dsa_c.Rbtree.Context.{
  Context, top, frame, Disjoint-sym, plug, parent_of, around, Surrounds, Represents, Branch, Split,
  Holds-Branch, Branch-Holds, split, join, Surrounds-Same, parent_of-IsPointer, has-branch,
  root_of-branch,
}
use dsa_c.Rbtree.Color.{at_ne_null, node_get_parent_ptr-at}
use dsa_c.Rbtree.Write.{
  Same-trans, set_child-Same, set_child-Cell, set_far-Cell, set_parent, set_parent-Same,
  set_parent-Cell, reparent-Same, reparent-Holds, link_up-Surrounds, link_up-Same,
}
use dsa_c.Rbtree.Turn.{
  hang_inner, hang_pivot, rotated, rotate_dir-ok, turned, hang_inner-Same, hang_pivot-Same,
  turned-Same, turned-root,
}

module _ {K : Type 0} where
  has-root_of-false : (t : Tree K) → root_of t ≢ 0 → ¬ (root_of t ∉ t)
  has-root_of-false leaf n out = n refl
  has-root_of-false (node l a b k r) n out = ground arith

  around-ne : (c : Context K) (x : ℕ) → parent_of c ≢ 0 → around x c ≡ false → x ≢ parent_of c
  around-ne top x n out = absurd (n refl)
  around-ne (frame d a b k sib c) x n out = ground arith

  module _ (m : Memory K) (ctx : Context K) (d : Dir) (n : Tree K) (p : ℕ) (bp : Bool) (kp : K)
      (c : Tree K) (s : ℕ) (bs : Bool) (ks : K) (f : Tree K) where
    abbrev before : Tree K
    before = branch d n p bp kp (branch d c s bs ks f)

    abbrev after : Tree K
    after = branch d (branch d n p bp kp c) s bs ks f

    -- the nodes of the two trees, and that they are different
    record Apart : Type 0 where
      p_s : p ≢ s
      p_n : p ∉ n
      p_c : p ∉ c
      p_f : p ∉ f
      s_n : s ∉ n
      s_c : s ∉ c
      s_f : s ∉ f
      n_c : Disjoint n c
      n_f : Disjoint n f
      c_f : Disjoint c f

    has-before :
        (x : ℕ) → has x before ≡ ((x == p) || (has x n || ((x == s) || (has x c || has x f))))
    has-before x = rw (has-branch, has-branch) refl

    has-after :
        (x : ℕ) → has x after ≡ ((x == s) || (((x == p) || (has x n || has x c)) || has x f))
    has-after x = rw (has-branch, has-branch) refl

    after-before : (x : ℕ) → has x after ≡ has x before
    after-before x = rw (has-after x, has-before x) (ground arith)

    module _ (up : Split m ctx before) where
      outer : Branch m d (parent_of ctx) n p bp kp (branch d c s bs ks f)
      outer = Holds-Branch d up.below

      inner : Branch m d p c s bs ks f
      inner = Holds-Branch d (let o = outer in o.far_holds)

      all_apart : Apart
      all_apart =
          let o = outer in
          let i = inner in
          let far = has-branch p d c s bs ks f in
          record {
            p_s = ground (arith, o.not_far, far);
            p_n = o.not_near;
            p_c = ground (arith, o.not_far, far);
            p_f = ground (arith, o.not_far, far);
            s_n =
                Disjoint-sym n (branch d c s bs ks f) o.apart s
                  (ground (arith, has-branch s d c s bs ks f));
            s_c = i.not_near;
            s_f = i.not_far;
            n_c = λ x h. ground (arith, o.apart x h, has-branch x d c s bs ks f);
            n_f = λ x h. ground (arith, o.apart x h, has-branch x d c s bs ks f);
            c_f = i.apart;
          }

      s-IsPointer : IsPointer s
      s-IsPointer =
          let i = inner in let c = i.cell in record { even = c.address.even; fits = c.address.fits }

      p-IsPointer : IsPointer p
      p-IsPointer =
          let o = outer in let c = o.cell in record { even = c.address.even; fits = c.address.fits }

      g-IsPointer : IsPointer (parent_of ctx)
      g-IsPointer = parent_of-IsPointer up.above

      abbrev m' : Memory K
      m' = turned m d p s (root_of c) (parent_of ctx)

      ne_c : (x : ℕ) → x ∉ c → root_of c ≢ 0 → x ≢ root_of c
      ne_c x out n e = has-root_of-false c n (rw e at out)

      kept : (x : ℕ) → x ≢ p → x ≢ s → x ∉ c → Same m m' x
      kept x np ns nc = turned-Same m d p s (root_of c) (parent_of ctx) x np ns (ne_c x nc)

      pivot_turned : Cell m' d p s bp kp (root_of n) (root_of c)
      pivot_turned =
          let a = all_apart in
          let o = outer in
          let r = root_of c in
          let m₁ = set_child m p (other d) r in
          let m₂ = hang_inner m d p r in
          let m₃ = set_child m₂ s d p in
          let c₂ =
            Cell-Same (set_far-Cell m d p r o.cell) (reparent-Same m₁ r p p (ne_c p a.p_c)) in
          let c₃ = Cell-Same c₂ (set_child-Same m₂ s d p p a.p_s) in
          let c₄ = set_parent-Cell m₃ d p s c₃ g-IsPointer s-IsPointer in
          Cell-Same c₄ (set_parent-Same (set_parent m₃ p s) s (parent_of ctx) p a.p_s)

      child_turned : Cell m' d s (parent_of ctx) bs ks p (root_of f)
      child_turned =
          let a = all_apart in
          let i = inner in
          let r = root_of c in
          let m₂ = hang_inner m d p r in
          let m₃ = set_child m₂ s d p in
          let s_p = λ (e : s ≡ p). a.p_s (sym e) in
          let c₂ = Cell-Same i.cell (hang_inner-Same m d p r s s_p (ne_c s a.s_c)) in
          let c₃ = Cell-Same (set_child-Cell m₂ d s p c₂) (set_parent-Same m₃ p s s s_p) in
          set_parent-Cell (set_parent m₃ p s) d s (parent_of ctx) c₃ p-IsPointer g-IsPointer

      inner_turned : Holds m' p c
      inner_turned =
          let a = all_apart in
          let i = inner in
          let r = root_of c in
          let m₁ = set_child m p (other d) r in
          let m₂ = hang_inner m d p r in
          let c₁ =
            Holds-Same i.near_holds
              (λ x h. set_child-Same m p (other d) r x (ground (arith, a.p_c))) in
          let c₂ = reparent-Holds m₁ c p c₁ s-IsPointer p-IsPointer in
          Holds-Same c₂ (λ x h.
            Same-trans (hang_pivot-Same m₂ d p s x (ground (arith, a.p_c)) (ground (arith, a.s_c)))
              (set_parent-Same (hang_pivot m₂ d p s) s (parent_of ctx) x (ground (arith, a.s_c))))

      above_ne : (x : ℕ) → x ∈ before → parent_of ctx ≢ 0 → x ≢ parent_of ctx
      above_ne x h n = around-ne ctx x n (up.outside x h)

      abbrev m'' : Memory K
      m'' = rotated m d p s (root_of c) (parent_of ctx)

      below-Same : (x : ℕ) → x ∈ before → Same m' m'' x
      below-Same x h = link_up-Same m' (parent_of ctx) p s x (above_ne x h)

      after-Holds : Holds m'' (parent_of ctx) after
      after-Holds =
          let a = all_apart in
          let o = outer in
          let i = inner in
          Holds-Same
            (Branch-Holds d (record {
              cell = rw (root_of-branch d n p bp kp c) child_turned;
              near_holds = Branch-Holds d (record {
                cell = pivot_turned;
                near_holds =
                    Holds-Same o.near_holds
                      (λ x h. kept x (ground (arith, a.p_n)) (ground (arith, a.s_n)) (a.n_c x h));
                far_holds = inner_turned;
                not_near = a.p_n;
                not_far = a.p_c;
                apart = a.n_c;
              });
              far_holds = Holds-Same i.far_holds (λ x h.
                  kept x (ground (arith, a.p_f)) (ground (arith, a.s_f))
                    (Disjoint-sym c f a.c_f x h));
              not_near = rw (has-branch s d n p bp kp c) (ground (arith, a.p_s, a.s_n, a.s_c));
              not_far = a.s_f;
              apart = λ x h. let h' = rw has-branch at h in ground (arith, a.p_f, a.n_f x, a.c_f x);
            }))
            (λ x h. below-Same x (sym (after-before x) ∙ h))

      not-before : (x : ℕ) → around x ctx ≡ true → x ∉ before
      not-before x h = elim (Bool-cases (has x before)) [
        | inl here ↦ ground (arith, up.outside x here)
        | inr out ↦ out
      ]

      above_turned : Surrounds m' p ctx
      above_turned =
          let a = all_apart in
          Surrounds-Same {m' = m'} (rw root_of-branch at (up.above))
            (turned-root m d p s (root_of c) (parent_of ctx))
            (λ x h.
              let out : x ∉ before = not-before x h in
              let all = has-before x in kept x (ground arith) (ground arith) (ground arith))

    -- A rotation around a node of the tree that has a child on the other side turns the subtree
    -- below it as the comment of the source draws it, keeps the colours and the rest of the tree,
    -- and returns the subtree's new root.
    pub rotate_dir_lem :
        Represents m (plug ctx before)
        → Returns
            (λ (root_ptr, m'). (root_ptr ≡ s) × Represents m' (plug ctx after))
            (rotate_dir m p d)
    rotate_dir_lem r =
        let up = split ctx before r in
        let o = outer up in
        let i = inner up in
        let o_cell = o.cell in
        let i_cell = i.cell in
        let p_given = at_ne_null o_cell in
        rw
          (rotate_dir-ok m p d (node_get_parent_ptr-at o_cell (g-IsPointer up))
            (o_cell.to_far ∙ root_of-branch d c s bs ks f) i_cell.to_near p_given
            (at_ne_null i_cell))
          (returns (
            refl,
            join ctx after (record {
              above = rw (root_of-branch d (branch d n p bp kp c) s bs ks f) (
                  link_up-Surrounds (m' up) ctx s (above_turned up) (ground arith)
                    (up.outside p (rw (has-before p) (ground arith))));
              below = after-Holds up;
              outside = λ x h. up.outside x (sym (after-before x) ∙ h);
            }),
          ))
