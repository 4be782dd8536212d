-- ===== src/Rbtree/Fixup.antt =====
-- What the rebalancing after an insertion makes of the tree, as a function on trees: a new red node
-- `t` below a context. It models no code of its own; `Rebalance` shows that the code computes it.
use dsa_c.Prelude.{ℕ, suc, true, false}
use dsa_c.Rbtree.{Dir, left, right}
use dsa_c.Rbtree.Shape.{Tree, leaf, node, branch}
use dsa_c.Rbtree.Context.{Context, top, frame, plug}

module _ {K : Type 0} where
  -- the red parent `p` and its red child `t` lie on the same side: one rotation around `g`
  abbrev pub outer : Dir → ℕ → K → Tree K → ℕ → K → Tree K → Tree K → Tree K
  outer e p kp sib g kg u t = branch e t p true kp (branch e sib g false kg u)

  -- `t`, which has the subtrees `c` and `f`, lies on the inner side: two rotations
  abbrev pub inner : Dir → ℕ → K → Tree K → ℕ → K → Tree K → Tree K → ℕ → K → Tree K → Tree K
  inner e p kp sib g kg u c n kn f =
      branch e (branch e sib p false kp c) n true kn (branch e f g false kg u)

  -- the four ways to the new node from `g`: the direction at `g`, then that at `p`
  abbrev pub straighten : Dir → Dir → ℕ → K → Tree K → ℕ → K → Tree K → Tree K → Tree K
  straighten left left p kp sib g kg u t = outer left p kp sib g kg u t
  straighten right right p kp sib g kg u t = outer right p kp sib g kg u t
  straighten left right p kp sib g kg u leaf = leaf
  straighten left right p kp sib g kg u (node c n b kn f) = inner left p kp sib g kg u c n kn f
  straighten right left p kp sib g kg u leaf = leaf
  straighten right left p kp sib g kg u (node f n b kn c) = inner right p kp sib g kg u c n kn f

  unfoldable pub fixup : Context K → Tree K → Tree K
  fixup top t = t
  fixup (frame d p true kp sib c) t = plug c (branch d t p true kp sib)
  fixup (frame d p false kp sib top) t = branch d t p true kp sib
  fixup (frame d p false kp sib (frame e g bg kg leaf c)) t =
      plug c (straighten e d p kp sib g kg leaf t)
  fixup (frame d p false kp sib (frame e g bg kg (node ul ua true uk ur) c)) t =
      plug c (straighten e d p kp sib g kg (node ul ua true uk ur) t)
  fixup (frame d p false kp sib (frame e g bg kg (node ul ua false uk ur) c)) t =
      fixup c (branch e (branch d t p true kp sib) g false kg (node ul ua true uk ur))

  -- the nodes of the context
  abbrev pub depth : Context K → ℕ
  depth top = 0
  depth (frame d a b k sib c) = suc (depth c)
