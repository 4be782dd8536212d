-- ===== src/Rbtree/Context.antt =====
-- The tree around a subtree, in memory: what lies above a pointer.
use dsa_c.Prelude.{ℕ, ◌≡◌, refl, Bool, true, false, ◌||◌, arith, ◌==◌, inl, inr, Bool-cases}
use dsa_c.Rbtree.{Dir, left, right, Memory}
use dsa_c.Rbtree.Shape.{
  Tree, root_of, branch, has, ◌∈◌, ◌∉◌, Disjoint, IsPointer, Cell, Holds, Same, Cell-Same,
  Cell-flip, full, Holds-Same,
}

-- the way from a subtree to the root: the direction taken, the node and its other subtree
pub data Context (K : Type 0) : Type 0 where
  top : Context K
  frame : Dir → ℕ → Bool → K → Tree K → Context K → Context K

module _ {K : Type 0} where
  abbrev pub plug : Context K → Tree K → Tree K
  plug top t = t
  plug (frame d a b k sib c) t = plug c (branch d t a b k sib)

  abbrev pub parent_of : Context K → ℕ
  parent_of top = 0
  parent_of (frame d a b k sib c) = a

  -- `x` is a node of the context
  abbrev pub around : ℕ → Context K → Bool
  around x top = false
  around x (frame d a b k sib c) = (x == a) || (has x sib || around x c)

  abbrev pub Outside : Context K → Tree K → Type 0
  Outside c t = (x : ℕ) → x ∈ t → around x c ≡ false

  -- the context is in memory, and holds the pointer `hole`
  pub data Surrounds (m : Memory K) : ℕ → Context K → Type 0 where
    root : {hole : ℕ} → m.root_ptr ≡ hole → Surrounds m hole top
    child :
        {hole : ℕ} {d : Dir} {a : ℕ} {b : Bool} {k : K} {sib : Tree K} {c : Context K}
        → Cell m d a (parent_of c) b k hole (root_of sib)
        → Holds m a sib
        → Surrounds m a c
        → a ∉ sib
        → around a c ≡ false
        → Outside c sib
        → Surrounds m hole (frame d a b k sib c)

  -- the whole tree is in memory
  pub record Represents (m : Memory K) (t : Tree K) : Type 0 where
    pub rooted : m.root_ptr ≡ root_of t
    pub holds : Holds m 0 t

  -- the branch is in memory
  pub record Branch (m : Memory K) (d : Dir) (parent : ℕ) (near : Tree K) (a : ℕ) (b : Bool) (k : K)
      (far : Tree K) : Type 0 where
    pub cell : Cell m d a parent b k (root_of near) (root_of far)
    pub near_holds : Holds m a near
    pub far_holds : Holds m a far
    pub not_near : a ∉ near
    pub not_far : a ∉ far
    pub apart : Disjoint near far

  pub Disjoint-sym : (t u : Tree K) → Disjoint t u → Disjoint u t
  Disjoint-sym t u d x i = elim (Bool-cases (has x t)) [
    | inl here ↦ ground (arith, d x)
    | inr out ↦ out
  ]

  pub Holds-Branch :
      {m : Memory K} {parent : ℕ} (d : Dir) {near : Tree K} {a : ℕ} {b : Bool} {k : K}
      {far : Tree K}
      → Holds m parent (branch d near a b k far)
      → Branch m d parent near a b k far
  Holds-Branch left (full c hn hf nn nf dis) = record {
    cell = c;
    near_holds = hn;
    far_holds = hf;
    not_near = nn;
    not_far = nf;
    apart = dis;
  }
  Holds-Branch right {near} {far = far} (full c hf hn nf nn dis) = record {
    cell = Cell-flip left c;
    near_holds = hn;
    far_holds = hf;
    not_near = nn;
    not_far = nf;
    apart = Disjoint-sym far near dis;
  }

  pub Branch-Holds :
      {m : Memory K} {parent : ℕ} (d : Dir) {near : Tree K} {a : ℕ} {b : Bool} {k : K}
      {far : Tree K}
      → Branch m d parent near a b k far
      → Holds m parent (branch d near a b k far)
  Branch-Holds left h = full h.cell h.near_holds h.far_holds h.not_near h.not_far h.apart
  Branch-Holds right {near} {far = far} h =
      full (Cell-flip right h.cell) h.far_holds h.near_holds h.not_far h.not_near
        (Disjoint-sym near far h.apart)

  pub has-branch :
      (x : ℕ) (d : Dir) (near : Tree K) (a : ℕ) (b : Bool) (k : K) (far : Tree K)
      → has x (branch d near a b k far) ≡ ((x == a) || (has x near || has x far))
  has-branch x left near a b k far = refl
  has-branch x right near a b k far = ground arith

  -- a tree with a subtree set apart, in memory
  pub record Split (m : Memory K) (c : Context K) (t : Tree K) : Type 0 where
    pub above : Surrounds m (root_of t) c
    pub below : Holds m (parent_of c) t
    pub outside : Outside c t

  pub root_of-branch :
      (d : Dir) (near : Tree K) (a : ℕ) (b : Bool) (k : K) (far : Tree K)
      → root_of (branch d near a b k far) ≡ a
  root_of-branch left near a b k far = refl
  root_of-branch right near a b k far = refl

  Surrounds-top : {m : Memory K} {hole : ℕ} → Surrounds m hole top → m.root_ptr ≡ hole
  Surrounds-top (root e) = e

  pub Surrounds-inv :
      {m : Memory K} {hole : ℕ} {d : Dir} {a : ℕ} {b : Bool} {k : K} {sib : Tree K} {c : Context K}
      → Surrounds m hole (frame d a b k sib c)
      → Cell m d a (parent_of c) b k hole (root_of sib)
        × Holds m a sib
        × Surrounds m a c
        × (a ∉ sib)
        × (around a c ≡ false)
        × Outside c sib
  Surrounds-inv (child cell h above n n' out) = (cell, h, above, n, n', out)

  pub split : {m : Memory K} (c : Context K) (t : Tree K) → Represents m (plug c t) → Split m c t
  split top t h = record { above = root h.rooted; below = h.holds; outside = λ x i. refl }
  split {m} (frame d a b k sib c) t h =
      let up = split c (branch d t a b k sib) h in
      let here = Holds-Branch d up.below in
      record {
        above =
            child here.cell here.far_holds (rw root_of-branch at (up.above)) here.not_far
              (up.outside a (rw has-branch (ground arith)))
              (λ x i. up.outside x (rw has-branch (ground arith)));
        below = here.near_holds;
        outside = λ x i.
            let out = up.outside x (rw has-branch (ground arith)) in ground (arith, here.apart x);
      }

  pub join : {m : Memory K} (c : Context K) (t : Tree K) → Split m c t → Represents m (plug c t)
  join top t s = record { rooted = Surrounds-top s.above; holds = s.below }
  join (frame d a b k sib c) t s =
      let (cell, sib_holds, above, not_sib, not_above, sib_outside) = Surrounds-inv s.above in
      join c (branch d t a b k sib) (record {
        above = rw root_of-branch above;
        below = Branch-Holds d (record {
          cell = cell;
          near_holds = s.below;
          far_holds = sib_holds;
          not_near = elim (Bool-cases (has a t)) [
            | inl here ↦ ground (arith, s.outside a here)
            | inr out ↦ out
          ];
          not_far = not_sib;
          apart = λ x i. ground (arith, s.outside x i);
        });
        outside = λ x i. let i' = rw has-branch at i in ground (arith, s.outside x, sib_outside x);
      })

  -- a context survives a change of memory that spares its nodes and the pointer to the root
  pub Surrounds-Same :
      {m m' : Memory K} {hole : ℕ} {c : Context K}
      → Surrounds m hole c
      → m'.root_ptr ≡ m.root_ptr
      → ((x : ℕ) → around x c ≡ true → Same m m' x)
      → Surrounds m' hole c
  Surrounds-Same (root e) r s = root (rw r e)
  Surrounds-Same (child {a = a} cell h above n n' out) r s =
      child (Cell-Same cell (s a (ground arith))) (Holds-Same h (λ x i. s x (ground arith)))
        (Surrounds-Same above r (λ x i. s x (ground arith))) n n' out

  pub parent_of-IsPointer :
      {m : Memory K} {hole : ℕ} {c : Context K} → Surrounds m hole c → IsPointer (parent_of c)
  parent_of-IsPointer (root e) = record { even = refl; fits = omega arith }
  parent_of-IsPointer (child cell h above n n' out) = record {
    even = cell.address.even;
    fits = cell.address.fits;
  }

  pub Split-Branch :
      {m : Memory K} {c : Context K} (d : Dir) {near : Tree K} {a : ℕ} {b : Bool} {k : K}
      {far : Tree K}
      → Split m c (branch d near a b k far)
      → Branch m d (parent_of c) near a b k far × (around a c ≡ false)
  Split-Branch d {a = a} s = (Holds-Branch d s.below, s.outside a (rw has-branch (ground arith)))
