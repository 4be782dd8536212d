-- ===== src/Rbtree/Descent.antt =====
-- The way down the tree by the keys: the loops of `contains_key`, `search_node` and `insert_node`.
use dsa_c.Prelude.{
  ℕ, zero, suc, ◌+◌, ◌<◌, ◌≤◌, ◌≡◌, inl, inr, refl, Bool, true, false, not, arith, leb, ◌==◌,
  Bool-cases, if◌then◌else◌,
}
use dsa_c.Run.{ok}
use dsa_c.Rbtree.{left, right, Memory, contains_loop, search_loop}
use dsa_c.Rbtree.Insert.{descend}
use dsa_c.Rbtree.Shape.{Tree, leaf, node, root_of, Holds, full}
use dsa_c.Rbtree.Context.{Context, top, frame, plug, parent_of}
use dsa_c.Rbtree.Color.{at_ne_null}
use dsa_c.Rbtree.Fixup.{depth}

module _ {K : Type 0} where
  -- the nodes on the longest way down
  abbrev pub height : Tree K → ℕ
  height leaf = 0
  height (node l a b k r) = suc (if leb (height l) (height r) then height r else height l)

  module _ (less : K → K → Bool) where
    -- the node that a search for the key ends at, NULL if it finds none
    unfoldable pub found : K → Tree K → ℕ
    found k leaf = 0
    found k (node l a b k' r) = elim (less k k') [
      | true ↦ found k l
      | false ↦ elim (less k' k) [ true ↦ found k r | false ↦ a ]
    ]

    -- the place of a new node with the key
    unfoldable pub locate : K → Tree K → Context K → Context K
    locate k leaf ctx = ctx
    locate k (node l a b k' r) ctx = elim (less k' k) [
      | true ↦ locate k r (frame right a b k' l ctx)
      | false ↦ locate k l (frame left a b k' r ctx)
    ]

    -- the last direction is the one that the key asks for
    abbrev pub Directed : K → Context K → Type 0
    Directed k top = Unit {0}
    Directed k (frame d a b k' sib c) = (if less k' k then right else left) ≡ d

    pub plug-locate :
        (k : K) (t : Tree K) (ctx : Context K) → plug (locate k t ctx) leaf ≡ plug ctx t
    unfolding locate
    plug-locate k leaf ctx = refl
    plug-locate k (node l a b k' r) ctx = elim (Bool-cases (less k' k)) [
      | inl up ↦ rw (up, locate) (plug-locate k r (frame right a b k' l ctx))
      | inr down ↦ rw (down, locate) (plug-locate k l (frame left a b k' r ctx))
    ]

    pub locate-Directed :
        (k : K) (t : Tree K) (ctx : Context K) → Directed k ctx → Directed k (locate k t ctx)
    unfolding locate
    locate-Directed k leaf ctx d = d
    locate-Directed k (node l a b k' r) ctx d = elim (Bool-cases (less k' k)) [
      | inl up ↦ rw (up, locate) (locate-Directed k r (frame right a b k' l ctx) (rw up refl))
      | inr down ↦ rw (down, locate) (locate-Directed k l (frame left a b k' r ctx) (rw down refl))
    ]

    pub depth-locate :
        (k : K) (t : Tree K) (ctx : Context K) → depth (locate k t ctx) ≤ depth ctx + height t
    unfolding locate
    depth-locate k leaf ctx = omega arith
    depth-locate k (node l a b k' r) ctx = elim (Bool-cases (less k' k)) [
      | inl up ↦ rw (up, locate) (ground (arith, depth-locate k r (frame right a b k' l ctx)))
      | inr down ↦ rw (down, locate) (ground (arith, depth-locate k l (frame left a b k' r ctx)))
    ]

    pub descend_lem :
        (fuel : ℕ) (m : Memory K) {parent : ℕ} (k : K) (t : Tree K) (ctx : Context K)
        → Holds m parent t
        → height t < fuel
        → descend less fuel m k (parent_of ctx) (root_of t) ≡ ok (parent_of (locate k t ctx))
    unfolding descend locate
    descend_lem zero m k t ctx h f = absurd (omega arith)
    descend_lem (suc fuel) m k leaf ctx h f = refl
    descend_lem (suc fuel) m k (node l a b k' r) ctx (full cell hl hr nl nr dis) f =
        elim (Bool-cases (less k' k)) [
          | inl up ↦
              rw (at_ne_null cell, cell.keyed, up, cell.to_far, locate)
                (descend_lem fuel m k r (frame right a b k' l ctx) hr (ground arith))
          | inr down ↦
              rw (at_ne_null cell, cell.keyed, down, cell.to_near, locate)
                (descend_lem fuel m k l (frame left a b k' r ctx) hl (ground arith))
        ]

    -- Searching for a key in a tree that is in memory, with more fuel than the tree is high.
    pub search_loop_lem :
        (fuel : ℕ) (m : Memory K) {parent : ℕ} (k : K) (t : Tree K)
        → Holds m parent t
        → height t < fuel
        → search_loop less fuel m (root_of t) k ≡ ok (found k t)
    unfolding search_loop found
    search_loop_lem zero m k t h f = absurd (omega arith)
    search_loop_lem (suc fuel) m k leaf h f = refl
    search_loop_lem (suc fuel) m k (node l a b k' r) (full cell hl hr nl nr dis) f =
        elim (Bool-cases (less k k')) [
          | inl up ↦
              rw (at_ne_null cell, cell.keyed, up, cell.to_near, found)
                (search_loop_lem fuel m k l hl (ground arith))
          | inr down ↦ elim (Bool-cases (less k' k)) [
            | inl up' ↦
                rw (at_ne_null cell, cell.keyed, down, up', cell.to_far, found)
                  (search_loop_lem fuel m k r hr (ground arith))
            | inr same ↦ rw (at_ne_null cell, cell.keyed, down, same, found) refl
          ]
        ]

    pub contains_loop_lem :
        (fuel : ℕ) (m : Memory K) {parent : ℕ} (k : K) (t : Tree K)
        → Holds m parent t
        → height t < fuel
        → contains_loop less fuel m (root_of t) k ≡ ok (not (found k t == 0))
    unfolding contains_loop found
    contains_loop_lem zero m k t h f = absurd (omega arith)
    contains_loop_lem (suc fuel) m k leaf h f = refl
    contains_loop_lem (suc fuel) m k (node l a b k' r) (full cell hl hr nl nr dis) f =
        elim (Bool-cases (less k k')) [
          | inl up ↦
              rw (at_ne_null cell, cell.keyed, up, cell.to_near, found)
                (contains_loop_lem fuel m k l hl (ground arith))
          | inr down ↦ elim (Bool-cases (less k' k)) [
            | inl up' ↦
                rw (at_ne_null cell, cell.keyed, down, up', cell.to_far, found)
                  (contains_loop_lem fuel m k r hr (ground arith))
            | inr same ↦ rw (at_ne_null cell, cell.keyed, down, same, found, at_ne_null cell) refl
          ]
        ]
