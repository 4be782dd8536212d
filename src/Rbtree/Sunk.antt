-- ===== src/Rbtree/Sunk.antt =====
-- What the rebalancing after a deletion makes of the tree, as a function on trees: below a context
-- stands a subtree `t` that has lost a black node. It models no code of its own; `Sink` shows that the
-- code computes it.
use dsa_c.Prelude.{ℕ, Bool, true, false, ◌&&◌}
use dsa_c.Rbtree.{Dir, left, right}
use dsa_c.Rbtree.Shape.{Tree, leaf, node, branch}
use dsa_c.Rbtree.Context.{Context, top, frame, plug}
use dsa_c.Rbtree.Balance.{black_root}

module _ {K : Type 0} where
  -- a subtree with a black root
  abbrev pub blacken : Tree K → Tree K
  blacken leaf = leaf
  blacken (node l a b k r) = node l a true k r

  -- `Case_4`: the black moves up to the red parent
  abbrev pub four : Dir → Tree K → ℕ → K → Tree K → ℕ → K → Tree K → Tree K
  four d t p kp c s ks f = branch d t p true kp (branch d c s false ks f)

  -- `Case_6`: one rotation around the parent, whose colour the sibling takes
  abbrev pub six : Dir → Tree K → ℕ → Bool → K → Tree K → ℕ → K → Tree K → Tree K
  six d t p bp kp c s ks f = branch d (branch d t p true kp c) s bp ks (blacken f)

  -- `Case_5`: first a rotation around the sibling `s`, whose red child `n` has the subtrees `c` and `f`
  abbrev pub five : Dir → Tree K → ℕ → Bool → K → Tree K → ℕ → K → Tree K → ℕ → K → Tree K → Tree K
  five d t p bp kp c n kn f s ks f' =
      branch d (branch d t p true kp c) n bp kn (branch d f s true ks f')

  abbrev pub five_at : Dir → Tree K → ℕ → Bool → K → Tree K → ℕ → K → Tree K → Tree K
  five_at d t p bp kp leaf s ks f' = leaf
  five_at left t p bp kp (node c n b kn f) s ks f' = five left t p bp kp c n kn f s ks f'
  five_at right t p bp kp (node f n b kn c) s ks f' = five right t p bp kp c n kn f s ks f'

  -- a black sibling `s` with the near subtree `c` and the far one `f`, where no further round follows
  abbrev pub settle : Dir → Tree K → ℕ → Bool → K → Tree K → ℕ → K → Tree K → Tree K
  settle d t p bp kp c s ks f = elim (black_root f) [
    | false ↦ six d t p bp kp c s ks f
    | true ↦ elim (black_root c) [
      | false ↦ five_at d t p bp kp c s ks f
      | true ↦ four d t p kp c s ks f
    ]
  ]

  -- the red sibling has been rotated up, and its near subtree is the new sibling
  abbrev pub three : Dir → Tree K → ℕ → K → Tree K → Tree K
  three d t p kp leaf = leaf
  three left t p kp (node c s b ks f) = settle left t p false kp c s ks f
  three right t p kp (node f s b ks c) = settle right t p false kp c s ks f

  -- nothing is red: the next round goes on at the parent
  abbrev pub rests : Bool → Tree K → Tree K → Bool
  rests bp c f = black_root f && (black_root c && bp)

  unfoldable pub sunk : Context K → Tree K → Tree K
  sunk top t = t
  sunk (frame d p bp kp leaf ctx) t = leaf
  sunk (frame left p bp kp (node c s false ks f) ctx) t =
      plug ctx (branch left (three left t p kp c) s true ks f)
  sunk (frame right p bp kp (node f s false ks c) ctx) t =
      plug ctx (branch right (three right t p kp c) s true ks f)
  sunk (frame left p bp kp (node c s true ks f) ctx) t = elim (rests bp c f) [
    | true ↦ sunk ctx (branch left t p true kp (node c s false ks f))
    | false ↦ plug ctx (settle left t p bp kp c s ks f)
  ]
  sunk (frame right p bp kp (node f s true ks c) ctx) t = elim (rests bp c f) [
    | true ↦ sunk ctx (branch right t p true kp (node f s false ks c))
    | false ↦ plug ctx (settle right t p bp kp c s ks f)
  ]
