-- ===== src/Rbtree/Successor.antt =====
-- The successor of a node with two children: the leftmost node of its right subtree.
use dsa_c.Prelude.{
  ℕ, zero, suc, ◌+◌, ◌<◌, ◌≤◌, ◌≡◌, refl, ap, Bool, false, List, [], ◌∷◌, ◌++◌, arith, ◌==◌,
}
use dsa_c.Run.{ok}
use dsa_c.Rbtree.{left, Memory}
use dsa_c.Rbtree.Delete.{leftmost}
use dsa_c.Rbtree.Shape.{Tree, leaf, node, root_of, ◌∈◌, Holds, full}
use dsa_c.Rbtree.Context.{Context, frame, plug}
use dsa_c.Rbtree.Color.{at_ne_null}
use dsa_c.Rbtree.Fixup.{depth}
use dsa_c.Rbtree.Descent.{height}
use dsa_c.Rbtree.Order.{listing}

-- a node on the way down the left side, with its right subtree
pub record Step (K : Type 0) : Type 0 where
  pub at_node : ℕ
  pub is_black : Bool
  pub at_key : K
  pub right_tree : Tree K

module _ {K : Type 0} where
  -- the tree that hangs below the steps, the first of which is the root
  abbrev pub under : List (Step K) → Tree K → Tree K
  under [] x = x
  under (e ∷ es) x = node (under es x) e.at_node e.is_black e.at_key e.right_tree

  abbrev pub lefts : List (Step K) → Context K → Context K
  lefts [] c = c
  lefts (e ∷ es) c = lefts es (frame left e.at_node e.is_black e.at_key e.right_tree c)

  pub plug-lefts :
      (es : List (Step K)) (c : Context K) (x : Tree K) → plug (lefts es c) x ≡ plug c (under es x)
  plug-lefts [] c x = refl
  plug-lefts (e ∷ es) c x =
      plug-lefts es (frame left e.at_node e.is_black e.at_key e.right_tree c) x

  -- the leftmost node of a tree, and the way to it
  pub record Least (r : Tree K) : Type 0 where
    pub steps : List (Step K)
    pub at_least : ℕ
    pub least_black : Bool
    pub least_key : K
    pub rest : Tree K
    pub split_up : r ≡ under steps (node leaf at_least least_black least_key rest)

  pub leftmost_node : (l : Tree K) (a : ℕ) (b : Bool) (k : K) (r : Tree K) → Least (node l a b k r)
  leftmost_node leaf a b k r = record {
    steps = [];
    at_least = a;
    least_black = b;
    least_key = k;
    rest = r;
    split_up = refl;
  }
  leftmost_node (node ll la lb lk lr) a b k r =
      let w = leftmost_node ll la lb lk lr in
      let e : Step K = record { at_node = a; is_black = b; at_key = k; right_tree = r } in
      record {
        steps = e ∷ w.steps;
        at_least = w.at_least;
        least_black = w.least_black;
        least_key = w.least_key;
        rest = w.rest;
        split_up = ap (λ t. node t a b k r) w.split_up;
      }

  pub leftmost_lem :
      (fuel : ℕ) (m : Memory K) {parent : ℕ} (es : List (Step K)) (s : ℕ) (b : Bool) (k : K)
      (x : Tree K)
      → Holds m parent (under es (node leaf s b k x))
      → height (under es (node leaf s b k x)) < fuel
      → leftmost fuel m (root_of (under es (node leaf s b k x))) ≡ ok s
  unfolding leftmost
  leftmost_lem zero m es s b k x h low = absurd (omega arith)
  leftmost_lem (suc fuel) m [] s b k x (full cell hl hr nl nr dis) low = rw cell.to_near refl
  leftmost_lem (suc fuel) m (e ∷ es) s b k x (full cell hl hr nl nr dis) low =
      rw (cell.to_near, below_given es s b k x hl)
        (leftmost_lem fuel m es s b k x hl (ground arith))
    where
      below_given :
          {m : Memory K} {parent : ℕ} (es : List (Step K)) (s : ℕ) (b : Bool) (k : K) (x : Tree K)
          → Holds m parent (under es (node leaf s b k x))
          → (root_of (under es (node leaf s b k x)) == 0) ≡ false
      below_given [] s b k x (full cell hl hr nl nr dis) = at_ne_null cell
      below_given (e ∷ es) s b k x (full cell hl hr nl nr dis) = at_ne_null cell

  pub depth-lefts :
      (es : List (Step K)) (c : Context K) (x : Tree K)
      → depth (lefts es c) ≤ depth c + height (under es x)
  depth-lefts [] c x = omega arith
  depth-lefts (e ∷ es) c x =
      ground (arith, depth-lefts es (frame left e.at_node e.is_black e.at_key e.right_tree c) x)

  -- the last step, and those before it
  abbrev pub final : Step K → List (Step K) → Step K
  final e [] = e
  final e (e' ∷ es) = final e' es

  abbrev pub initial : Step K → List (Step K) → List (Step K)
  initial e [] = []
  initial e (e' ∷ es) = e ∷ initial e' es

  pub lefts-final :
      (e : Step K) (es : List (Step K)) (c : Context K)
      → let f = final e es in
        lefts (e ∷ es) c
        ≡ frame left f.at_node f.is_black f.at_key f.right_tree (lefts (initial e es) c)
  lefts-final e [] c = refl
  lefts-final e (e' ∷ es) c =
      lefts-final e' es (frame left e.at_node e.is_black e.at_key e.right_tree c)

  pub final-under :
      (e : Step K) (es : List (Step K)) (x : Tree K)
      → let f = final e es in f.at_node ∈ under (e ∷ es) x
  final-under e [] x = ground arith
  final-under e (e' ∷ es) x = let rest = final-under e' es x in ground (arith, rest)

  pub listing-under :
      (es : List (Step K)) (s : ℕ) (b : Bool) (k : K) (x : Tree K)
      → listing (under es (node leaf s b k x)) ≡ (s, k) ∷ listing (under es x)
  listing-under [] s b k x = refl
  listing-under (e ∷ es) s b k x =
      ap (λ (t : List (ℕ × K)). t ++ (e.at_node, e.at_key) ∷ listing e.right_tree)
        (listing-under es s b k x)
