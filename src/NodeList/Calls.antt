-- ===== src/NodeList/Calls.antt =====
-- `list_node_add_before` and `list_node_add_after` on a ring of nodes.
use mathlib.Core.List.{append_assoc}
use dsa_c.Prelude.{ℕ, ◌≡◌, ◌≢◌, ◌∙◌, refl, false, List, [], ◌∷◌, ◌++◌, arith, ◌==◌, if◌then◌else◌}
use dsa_c.Run.{Returns, Returns-map, returns}
use dsa_c.NodeList.{Store, prev, next, set_prev, set_next, add_between, add_before, add_after}
use dsa_c.NodeList.Ring.{
  among, IsRing, last_of, among-last_of, Linked-last_of, Linked-retarget, Linked-append,
  Distinct-append, IsRing-rotate, differs, among-append,
}

pub next-set_next :
    (s : Store) (a p x : ℕ) → next (set_next s a p) x ≡ (if x == a then p else next s x)
unfolding set_next
next-set_next s a p x = ground arith

pub next-set_prev : (s : Store) (a p x : ℕ) → next (set_prev s a p) x ≡ next s x
unfolding set_prev
next-set_prev s a p x = ground arith

pub prev-set_prev :
    (s : Store) (a p x : ℕ) → prev (set_prev s a p) x ≡ (if x == a then p else prev s x)
unfolding set_prev
prev-set_prev s a p x = ground arith

pub prev-set_next : (s : Store) (a p x : ℕ) → prev (set_next s a p) x ≡ prev s x
unfolding set_next
prev-set_next s a p x = ground arith

pub next-add_between :
    (s : Store) (n p q x : ℕ)
    → next (add_between s n p q) x ≡ (if x == n then q else if x == p then n else next s x)
unfolding add_between
next-add_between s n p q x =
    let s₁ = set_next s p n in
    let s₂ = set_prev s₁ n p in
    rw
      (
        next-set_next (set_prev s₂ q n) n q x,
        next-set_prev s₂ q n x,
        next-set_prev s₁ n p x,
        next-set_next s p n x,
      )
      refl

pub prev-add_between :
    (s : Store) (n p q x : ℕ)
    → prev (add_between s n p q) x ≡ (if x == q then n else if x == n then p else prev s x)
unfolding add_between
prev-add_between s n p q x =
    let s₁ = set_next s p n in
    let s₂ = set_prev s₁ n p in
    rw
      (
        prev-set_next (set_prev s₂ q n) n q x,
        prev-set_prev s₂ q n x,
        prev-set_prev s₁ n p x,
        prev-set_next s p n x,
      )
      refl

-- A fresh node that is added before a node of a ring, taken as its head, becomes the last one.
add_before_lem :
    (s : Store) (head n : ℕ) (xs : List ℕ)
    → IsRing s head xs
    → n ≢ 0
    → among n (head ∷ xs) ≡ false
    → Returns (λ s'. IsRing s' head (xs ++ n ∷ [])) (add_before s n head)
unfolding add_before
add_before_lem s head n xs r given fresh =
    let q = last_of head xs in
    let s' = add_between s n q head in
    let back = Linked-last_of s head xs head r.linked in
    let inside = among-last_of head xs in
    let n_given : (n == 0) ≡ false = ground arith in
    let head_given : (head == 0) ≡ false = ground (arith, r.not_null) in
    let q_n : (q == n) ≡ false = ground (arith, differs n q (head ∷ xs) fresh inside) in
    let d = r.distinct in
    let whole = among-append 0 (head ∷ xs) (n ∷ []) in
    rw (n_given, head_given, back)
      (returns (record {
        linked =
            Linked-append s' head xs n [] head
              (Linked-retarget s s' head xs head n r.linked r.distinct
                (next-add_between s n q head q ∙ ground (arith, q_n))
                (prev-add_between s n q head n ∙ ground arith)
                (λ x i o.
                  next-add_between s n q head x ∙ ground (arith, differs n x (head ∷ xs) fresh i))
                (λ x i.
                  prev-add_between s n q head x
                  ∙ ground (
                    arith,
                    differs head x xs d.0 i,
                    differs n x (head ∷ xs) fresh (ground arith),
                  )))
              (
                next-add_between s n q head n ∙ ground arith,
                prev-add_between s n q head head ∙ ground arith,
              );
        distinct =
            Distinct-append (head ∷ xs) (n ∷ []) r.distinct (refl, tt)
              (λ x i. ground (arith, differs n x (head ∷ xs) fresh i));
        not_null = whole ∙ ground (arith, r.not_null);
      }))

-- the call before the next node does what the call after the node does
add_after-add_before :
    (s : Store) (n p : ℕ)
    → (p == 0) ≡ false
    → (next s p == 0) ≡ false
    → prev s (next s p) ≡ p
    → add_after s n p ≡ add_before s n (next s p)
unfolding add_after add_before
add_after-add_before s n p given given' back = rw (given, given', back) refl

-- A fresh node that is added after the head becomes the first one.
add_after_lem :
    (s : Store) (head n : ℕ) (xs : List ℕ)
    → IsRing s head xs
    → n ≢ 0
    → among n (head ∷ xs) ≡ false
    → Returns (λ s'. IsRing s' head (n ∷ xs)) (add_after s n head)
add_after_lem s head n [] r given fresh =
    let (to, back) = r.linked in
    let head_given : (head == 0) ≡ false = ground (arith, r.not_null) in
    rw (add_after-add_before s n head head_given (rw to head_given) (rw to back), to)
      (add_before_lem s head n [] r given fresh)
add_after_lem s head n (y ∷ ys) r given fresh =
    let (to, back, rest) = r.linked in
    let head_given : (head == 0) ≡ false = ground (arith, r.not_null) in
    let y_given : (y == 0) ≡ false = ground (arith, r.not_null) in
    let e = among-append n ys (head ∷ []) in
    rw (add_after-add_before s n head head_given (rw to y_given) (rw to back), to)
      (Returns-map
        (add_before_lem s y n (ys ++ head ∷ []) (IsRing-rotate s head [] y ys r) given
          (ground arith))
        λ s' ring. IsRing-rotate s' y ys head (n ∷ []) (rw append_assoc at ring))

-- A fresh node that is added before the head of a ring becomes its last node, and one that is added
-- after the head its first.
pub adds_lem :
    (s : Store) (head n : ℕ) (xs : List ℕ)
    → IsRing s head xs
    → n ≢ 0
    → among n (head ∷ xs) ≡ false
    → Returns (λ s'. IsRing s' head (xs ++ n ∷ [])) (add_before s n head)
      × Returns (λ s'. IsRing s' head (n ∷ xs)) (add_after s n head)
adds_lem s head n xs r given fresh =
    (add_before_lem s head n xs r given fresh, add_after_lem s head n xs r given fresh)
