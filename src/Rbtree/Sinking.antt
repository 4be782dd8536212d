-- ===== src/Rbtree/Sinking.antt =====
-- What `delete_fixup` promises of a red-black tree.
use dsa_c.Prelude.{ℕ, ◌+◌, ◌<◌, ◌≡◌, Bool, true}
use dsa_c.Run.{Returns, Returns-map}
use dsa_c.Rbtree.{Dir, Memory}
use dsa_c.Rbtree.Delete.{delete_fixup}
use dsa_c.Rbtree.Shape.{Tree, branch}
use dsa_c.Rbtree.Context.{Context, frame, plug, Represents}
use dsa_c.Rbtree.Fixup.{depth}
use dsa_c.Rbtree.Balance.{black_root, black_height, IsRedBlack}
use dsa_c.Rbtree.Order.{listing}
use dsa_c.Rbtree.Sunk.{sunk}
use dsa_c.Rbtree.Fall.{delete_fixup-sunk}
use dsa_c.Rbtree.Restore.{sunk-IsRedBlack}
use dsa_c.Rbtree.Kept.{listing-sunk}

module _ {K : Type 0} where
  -- A red-black tree with these nodes in order is in memory.
  pub record Rebalanced (nodes : Tree K) (m : Memory K) : Type 0 where
    pub after : Tree K
    pub represents : Represents m after
    pub balanced : IsRedBlack after
    pub same_order : listing after ≡ listing nodes

  -- Where a black subtree `t₀` of a red-black tree became the red-black subtree `t`, whose root is
  -- black and which has a black node less on each way down, the loop, with more fuel than the
  -- parent is deep, returns (no NULL is followed, no assertion fails, the fuel suffices) and leaves
  -- a red-black tree with the same nodes in the same order.
  pub delete_fixup_lem :
      (fuel : ℕ) (m : Memory K) (ctx : Context K) (d : Dir) (t₀ t : Tree K) (p : ℕ) (bp : Bool)
      (kp : K) (sib : Tree K)
      → IsRedBlack (plug ctx (branch d t₀ p bp kp sib))
      → black_root t₀ ≡ true
      → IsRedBlack t
      → black_root t ≡ true
      → black_height t₀ ≡ black_height t + 1
      → depth ctx < fuel
      → Represents m (plug ctx (branch d t p bp kp sib))
      → Returns (Rebalanced (plug ctx (branch d t p bp kp sib))) (delete_fixup fuel m p d)
  delete_fixup_lem fuel m ctx d t₀ t p bp kp sib h b₀ ht black e low r =
      let c = frame d p bp kp sib ctx in
      Returns-map (delete_fixup-sunk fuel m ctx d t p bp kp sib t₀ h e low r) λ m' r'. record {
        after = sunk c t;
        represents = r';
        balanced = sunk-IsRedBlack c t₀ t h b₀ ht black e;
        same_order = listing-sunk c t₀ t h e;
      }
