-- ===== src/Fpqueue/Order.antt =====
-- The order of a heap of dsa/fpqueue.h, on the priorities alone: `f i` is the priority at index `i`.
use native.Mathlib.Decide.{ℕ_discrete}
use dsa_c.Prelude.{ℕ, zero, suc, ◌+◌, ◌-◌, ◌*◌, ◌/◌, ◌≤◌, ◌<◌, ◌≡◌, ◌≢◌, arith}

-- no node below `n` has a larger priority than its parent
abbrev pub IsHeap : (ℕ → ℕ) → ℕ → Type 0
IsHeap f n = (j : ℕ) → 0 < j → j < n → f j ≤ f ((j - 1) / 2)

-- a heap, but that the node `i` may have a larger priority than its parent
pub record HeapAbove (f : ℕ → ℕ) (n i : ℕ) : Type 0 where
  pub others : (j : ℕ) → 0 < j → j < n → j ≢ i → f j ≤ f ((j - 1) / 2)
  pub across : (j : ℕ) → 0 < j → j < n → (j - 1) / 2 ≡ i → 0 < i → f j ≤ f ((i - 1) / 2)

-- a heap, but that the node `i` may have a smaller priority than its children
pub record HeapBelow (f : ℕ → ℕ) (n i : ℕ) : Type 0 where
  pub others : (j : ℕ) → 0 < j → j < n → (j - 1) / 2 ≢ i → f j ≤ f ((j - 1) / 2)
  pub across : (j : ℕ) → 0 < j → j < n → (j - 1) / 2 ≡ i → 0 < i → f j ≤ f ((i - 1) / 2)

-- `g` is `f` with the values at `i` and `j` exchanged
pub record Exchanged (f g : ℕ → ℕ) (i j : ℕ) : Type 0 where
  pub first : g i ≡ f j
  pub second : g j ≡ f i
  pub rest : (k : ℕ) → k ≢ i → k ≢ j → g k ≡ f k

module _ (f g : ℕ → ℕ) (n i : ℕ) where
  pub up-step :
      HeapAbove f n i
      → 0 < i
      → i < n
      → f ((i - 1) / 2) < f i
      → Exchanged f g i ((i - 1) / 2)
      → HeapAbove g n ((i - 1) / 2)
  up-step h pos inside less e =
      let p : ℕ = (i - 1) / 2 in
      let kept : f p ≤ f i = omega (arith, less) in
      record {
        others = λ j q r ne. elim (ℕ_discrete j i) [
          | yes same ↦ rw (same, e.first, e.second) kept
          | no other ↦ rw (e.rest j other ne) (elim (ℕ_discrete ((j - 1) / 2) i) [
            | yes below ↦ rw (below, e.first) (h.across j q r below pos)
            | no apart ↦ elim (ℕ_discrete ((j - 1) / 2) p) [
              | yes beside ↦
                  let before = rw beside at (h.others j q r other) in
                  rw (beside, e.second) (omega (arith, before, kept))
              | no away ↦ rw (e.rest ((j - 1) / 2) apart away) (h.others j q r other)
            ]
          ])
        ];
        across = λ j q r below up.
            let top : f p ≤ f ((p - 1) / 2) = h.others p up (omega arith) (omega arith) in
            rw (e.rest ((p - 1) / 2) (omega arith) (omega arith)) (elim (ℕ_discrete j i) [
              | yes same ↦ rw (same, e.first) top
              | no other ↦
                  let before = rw below at (h.others j q r other) in
                  rw (e.rest j other (omega arith)) (omega (arith, before, top))
            ]);
      }

  pub down-step :
      (c : ℕ)
      → HeapBelow f n i
      → 0 < c
      → c < n
      → (c - 1) / 2 ≡ i
      → f i < f c
      → ((j : ℕ) → 0 < j → j < n → (j - 1) / 2 ≡ i → f j ≤ f c)
      → Exchanged f g i c
      → HeapBelow g n c
  down-step c h pos inside p less top e =
      let kept : f i ≤ f c = omega (arith, less) in
      record {
        others = λ j q r apart. elim (ℕ_discrete j c) [
          | yes same ↦ rw (same, p, e.first, e.second) kept
          | no other ↦ elim (ℕ_discrete j i) [
            | yes here ↦
                rw (here, e.first, e.rest ((i - 1) / 2) (omega arith) (omega arith))
                  (h.across c pos inside p (omega arith))
            | no away ↦ rw (e.rest j away other) (elim (ℕ_discrete ((j - 1) / 2) i) [
              | yes below ↦ rw (below, e.first) (top j q r below)
              | no beside ↦ rw (e.rest ((j - 1) / 2) beside apart) (h.others j q r beside)
            ])
          ]
        ];
        across = λ j q r below _.
            let before = rw below at (h.others j q r (omega arith)) in
            rw (p, e.first, e.rest j (omega arith) (omega arith)) before;
      }

pub at_root : (f : ℕ → ℕ) (n i : ℕ) → HeapAbove f n i → i ≡ 0 → IsHeap f n
at_root f n i h e j pos inside = h.others j pos inside (omega (arith, e))

pub in_order : (f : ℕ → ℕ) (n i : ℕ) → HeapAbove f n i → f i ≤ f ((i - 1) / 2) → IsHeap f n
in_order f n i h le j pos inside = elim (ℕ_discrete j i) [
  | yes same ↦ rw same le
  | no other ↦ h.others j pos inside other
]

-- what the node of largest priority among `i` and its children is
pub record Largest (f : ℕ → ℕ) (n i r : ℕ) : Type 0 where
  pub top : (j : ℕ) → 0 < j → j < n → (j - 1) / 2 ≡ i → f j ≤ f r
  pub child : r ≢ i → (0 < r) × (r < n) × ((r - 1) / 2 ≡ i) × (f i < f r)

pub largest :
    (f : ℕ → ℕ) (n i r : ℕ)
    → (2 * i + 1 < n → f (2 * i + 1) ≤ f r)
    → (2 * i + 2 < n → f (2 * i + 2) ≤ f r)
    → (r ≢ i → (0 < r) × (r < n) × ((r - 1) / 2 ≡ i) × (f i < f r))
    → Largest f n i r
largest f n i r left right child = record {
  top = λ j pos inside below. elim (ℕ_discrete j (2 * i + 1)) [
    | yes e ↦ rw e (left (omega arith))
    | no ne ↦ let e : j ≡ 2 * i + 2 = omega arith in rw e (right (omega arith))
  ];
  child = child;
}

pub settled : (f : ℕ → ℕ) (n i : ℕ) → HeapBelow f n i → Largest f n i i → IsHeap f n
settled f n i h w j pos inside = elim (ℕ_discrete ((j - 1) / 2) i) [
  | yes below ↦ rw below (w.top j pos inside below)
  | no other ↦ h.others j pos inside other
]

pub root_top : (f : ℕ → ℕ) (n k i : ℕ) → IsHeap f n → i ≤ k → i < n → f i ≤ f 0
root_top f n zero i h below inside = let e : i ≡ 0 = omega arith in rw e (omega arith)
root_top f n (suc k) i h below inside = elim (ℕ_discrete i 0) [
  | yes e ↦ rw e (omega arith)
  | no ne ↦
      let up = root_top f n k ((i - 1) / 2) h (omega arith) (omega arith) in
      omega (arith, h i (omega arith) inside, up)
]
