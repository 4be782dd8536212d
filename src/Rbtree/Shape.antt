-- ===== src/Rbtree/Shape.antt =====
-- The tree of nodes that the memory holds below a pointer.
use dsa_c.Prelude.{ℕ, ◌+◌, ◌%◌, ◌^◌, ◌<◌, ◌≡◌, ◌≢◌, refl, Bool, true, false, ◌||◌, arith, ◌==◌}
use dsa_c.Word.{add_size}
use dsa_c.Rbtree.{Dir, left, right, other, Memory, bit}

-- each node with its address, whether it is black, and its key
pub data Tree (K : Type 0) : Type 0 where
  leaf : Tree K
  node : Tree K → ℕ → Bool → K → Tree K → Tree K

module _ {K : Type 0} where
  abbrev pub root_of : Tree K → ℕ
  root_of leaf = 0
  root_of (node l a b k r) = a

  -- the node with the subtree `near` in the direction
  abbrev pub branch : Dir → Tree K → ℕ → Bool → K → Tree K → Tree K
  branch left near a b k far = node near a b k far
  branch right near a b k far = node far a b k near

  infix 40 ◌∈◌ ◌∉◌
  abbrev pub has : ℕ → Tree K → Bool
  has x leaf = false
  has x (node l a b k r) = (x == a) || (has x l || has x r)

  abbrev pub ◌∈◌ : ℕ → Tree K → Type 0
  x ∈ t = has x t ≡ true

  abbrev pub ◌∉◌ : ℕ → Tree K → Type 0
  x ∉ t = has x t ≡ false

  abbrev pub Disjoint : Tree K → Tree K → Type 0
  Disjoint t u = (x : ℕ) → x ∈ t → x ∉ u

-- what a node can be at: not NULL, and even
pub record IsAddress (a : ℕ) : Type 0 where
  pub not_null : a ≢ 0
  pub even : a % 2 ≡ 0
  pub fits : a < 2 ^ 64

-- what a parent pointer can be: an address or NULL
pub record IsPointer (p : ℕ) : Type 0 where
  pub even : p % 2 ≡ 0
  pub fits : p < 2 ^ 64

module _ {K : Type 0} where
  -- the members of the node at `a`, which has the child `near` in the direction
  pub record Cell (m : Memory K) (d : Dir) (a parent : ℕ) (b : Bool) (k : K) (near far : ℕ)
      : Type 0 where
    pub address : IsAddress a
    pub word : m.parent_ptr_with_color_bit a ≡ parent + bit b
    pub to_near : m.child_ptrs a d ≡ near
    pub to_far : m.child_ptrs a (other d) ≡ far
    pub keyed : m.key a ≡ k

  pub Cell-flip :
      {m : Memory K} {a parent : ℕ} {b : Bool} {k : K} {near far : ℕ} (d : Dir)
      → Cell m d a parent b k near far
      → Cell m (other d) a parent b k far near
  Cell-flip left c = record {
    address = c.address;
    word = c.word;
    to_near = c.to_far;
    to_far = c.to_near;
    keyed = c.keyed;
  }
  Cell-flip right c = record {
    address = c.address;
    word = c.word;
    to_near = c.to_far;
    to_far = c.to_near;
    keyed = c.keyed;
  }

  -- the tree is in memory, its nodes at different addresses and its root below `parent`
  pub data Holds (m : Memory K) : ℕ → Tree K → Type 0 where
    empty : {parent : ℕ} → Holds m parent leaf
    full :
        {parent : ℕ} {l : Tree K} {a : ℕ} {b : Bool} {k : K} {r : Tree K}
        → Cell m left a parent b k (root_of l) (root_of r)
        → Holds m a l
        → Holds m a r
        → a ∉ l
        → a ∉ r
        → Disjoint l r
        → Holds m parent (node l a b k r)

  -- the two memories agree on the node at `x`
  pub record Same (m m' : Memory K) (x : ℕ) : Type 0 where
    pub word : m'.parent_ptr_with_color_bit x ≡ m.parent_ptr_with_color_bit x
    pub children : (d : Dir) → m'.child_ptrs x d ≡ m.child_ptrs x d
    pub keyed : m'.key x ≡ m.key x

  pub Cell-Same :
      {m m' : Memory K} {d : Dir} {a parent : ℕ} {b : Bool} {k : K} {near far : ℕ}
      → Cell m d a parent b k near far
      → Same m m' a
      → Cell m' d a parent b k near far
  Cell-Same {d = d} c s = record {
    address = c.address;
    word = rw s.word c.word;
    to_near = rw (s.children d) c.to_near;
    to_far = rw (s.children (other d)) c.to_far;
    keyed = rw s.keyed c.keyed;
  }

  -- a tree survives a change of memory that spares its nodes
  pub Holds-Same :
      {m m' : Memory K} {parent : ℕ} {t : Tree K}
      → Holds m parent t
      → ((x : ℕ) → x ∈ t → Same m m' x)
      → Holds m' parent t
  Holds-Same empty s = empty
  Holds-Same (full {a = a} c hl hr nl nr dis) s =
      full (Cell-Same c (s a (ground arith))) (Holds-Same hl (λ x i. s x (ground arith)))
        (Holds-Same hr (λ x i. s x (ground arith))) nl nr dis

  pub root_of-IsPointer :
      {m : Memory K} {parent : ℕ} {t : Tree K} → Holds m parent t → IsPointer (root_of t)
  root_of-IsPointer empty = record { even = refl; fits = omega arith }
  root_of-IsPointer (full c hl hr nl nr dis) = record {
    even = c.address.even;
    fits = c.address.fits;
  }

  -- NULL has no node, and a node that is not in a tree is not its root
  pub ne-root_of : (x : ℕ) (t : Tree K) → x ≢ 0 → x ∉ t → x ≢ root_of t
  ne-root_of x leaf n o = n
  ne-root_of x (node l a b k r) n o = ground arith

-- the word of a node that moves below another
pub add_size-bit :
    (p parent : ℕ) (b : Bool)
    → IsPointer p
    → IsPointer parent
    → add_size p ((parent + bit b) % 2) ≡ p + bit b
add_size-bit p parent true h g = omega (arith, h.even, g.even, h.fits)
add_size-bit p parent false h g = omega (arith, h.even, g.even, h.fits)

pub add_size-small : (q : ℕ) (b : Bool) → IsPointer q → add_size q (bit b) ≡ q + bit b
add_size-small q true h = omega (arith, h.even, h.fits)
add_size-small q false h = omega (arith, h.even, h.fits)
