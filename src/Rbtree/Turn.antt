-- ===== src/Rbtree/Turn.antt =====
-- The writes of `rotate_dir`, in their order, and which nodes they spare.
use dsa_c.Prelude.{ℕ, ◌≡◌, ◌≢◌, refl, false, ◌==◌}
use dsa_c.Run.{ok}
use dsa_c.Rbtree.{Dir, other, Memory, set_child, rotate_dir, node_get_parent_ptr}
use dsa_c.Rbtree.Shape.{Same}
use dsa_c.Rbtree.Write.{
  Same-trans, set_child-Same, set_child-root, set_parent, node_set_parent_ptr-ok, set_parent-Same,
  set_parent-root, reparent, reparent-ok, reparent-Same, reparent-root, link_up,
}

module _ {K : Type 0} where
  -- the memory after each write of a rotation around `p`
  abbrev pub hang_inner : Memory K → Dir → (p c : ℕ) → Memory K
  hang_inner m d p c = reparent (set_child m p (other d) c) c p

  abbrev pub hang_pivot : Memory K → Dir → (p s : ℕ) → Memory K
  hang_pivot m d p s = set_parent (set_child m s d p) p s

  abbrev pub rotated : Memory K → Dir → (p s c g : ℕ) → Memory K
  rotated m d p s c g = link_up (set_parent (hang_pivot (hang_inner m d p c) d p s) s g) g p s

  pub rotate_dir-ok :
      (m : Memory K) (p : ℕ) (d : Dir) {g s c : ℕ}
      → node_get_parent_ptr m p ≡ ok g
      → m.child_ptrs p (other d) ≡ s
      → m.child_ptrs s d ≡ c
      → (p == 0) ≡ false
      → (s == 0) ≡ false
      → rotate_dir m p d ≡ ok (s, rotated m d p s c g)
  unfolding rotate_dir link_up
  rotate_dir-ok m p d {g} {s} {c} up to_s to_c p_given s_given =
      rw
        (
          up,
          to_s,
          to_c,
          s_given,
          reparent-ok (set_child m p (other d) c) c p,
          node_set_parent_ptr-ok (set_child (hang_inner m d p c) s d p) p s p_given,
          node_set_parent_ptr-ok (hang_pivot (hang_inner m d p c) d p s) s g s_given,
        )
        refl

  -- the memory before the pointer from above is set
  abbrev pub turned : Memory K → Dir → (p s c g : ℕ) → Memory K
  turned m d p s c g = set_parent (hang_pivot (hang_inner m d p c) d p s) s g

  pub hang_inner-Same :
      (m : Memory K) (d : Dir) (p c x : ℕ) → x ≢ p → (c ≢ 0 → x ≢ c) → Same m (hang_inner m d p c) x
  hang_inner-Same m d p c x np nc =
      Same-trans (set_child-Same m p (other d) c x np)
        (reparent-Same (set_child m p (other d) c) c p x nc)

  pub hang_pivot-Same :
      (m : Memory K) (d : Dir) (p s x : ℕ) → x ≢ p → x ≢ s → Same m (hang_pivot m d p s) x
  hang_pivot-Same m d p s x np ns =
      Same-trans (set_child-Same m s d p x ns) (set_parent-Same (set_child m s d p) p s x np)

  pub turned-Same :
      (m : Memory K) (d : Dir) (p s c g x : ℕ)
      → x ≢ p
      → x ≢ s
      → (c ≢ 0 → x ≢ c)
      → Same m (turned m d p s c g) x
  turned-Same m d p s c g x np ns nc =
      let m₁ = hang_inner m d p c in
      Same-trans (hang_inner-Same m d p c x np nc) (
        Same-trans (hang_pivot-Same m₁ d p s x np ns)
          (set_parent-Same (hang_pivot m₁ d p s) s g x ns))

  pub turned-root :
      (m : Memory K) (d : Dir) (p s c g : ℕ) → (turned m d p s c g).root_ptr ≡ m.root_ptr
  turned-root m d p s c g =
      let m₁ = set_child m p (other d) c in
      let m₂ = reparent m₁ c p in
      let m₃ = set_child m₂ s d p in
      rw
        (
          set_parent-root (set_parent m₃ p s) s g,
          set_parent-root m₃ p s,
          set_child-root m₂ s d p,
          reparent-root m₁ c p,
          set_child-root m p (other d) c,
        )
        refl
