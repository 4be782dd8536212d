-- ===== src/NodeList/Removal.antt =====
-- `list_node_remove` and `list_node_replace` on a ring of nodes.
use mathlib.Core.List.{append-nil}
use dsa_c.Prelude.{
  ℕ, ◌≡◌, ◌≢◌, ◌∙◌, refl, true, false, List, [], ◌∷◌, ◌++◌, arith, ◌==◌, if◌then◌else◌,
}
use dsa_c.Run.{Returns, Returns-map, returns}
use dsa_c.NodeList.{
  Store, prev, next, set_prev, set_next, node_init, add_between, attach, remove, replace,
}
use dsa_c.NodeList.Ring.{
  among, IsRing, last_of, among-last_of, Linked-last_of, Linked-retarget, differs, IsRing-rotate,
  among-append,
}
use dsa_c.NodeList.Calls.{
  next-set_next, next-set_prev, prev-set_prev, prev-set_next, next-add_between, prev-add_between,
}

-- a node that points to itself
pub record IsAlone (s : Store) (node : ℕ) : Type 0 where
  pub to_self : next s node ≡ node
  pub from_self : prev s node ≡ node

-- the node is initialized
abbrev cut : Store → ℕ → Store
cut s a = set_prev (set_next s a a) a a

next-cut : (s : Store) (a x : ℕ) → next (cut s a) x ≡ (if x == a then a else next s x)
next-cut s a x = next-set_prev (set_next s a a) a a x ∙ next-set_next s a a x

prev-cut : (s : Store) (a x : ℕ) → prev (cut s a) x ≡ (if x == a then a else prev s x)
prev-cut s a x = prev-set_prev (set_next s a a) a a x ∙ rw (prev-set_next s a a x) refl

IsAlone-cut : (s : Store) (a : ℕ) → IsAlone (cut s a) a
IsAlone-cut s a = record {
  to_self = next-cut s a a ∙ ground arith;
  from_self = prev-cut s a a ∙ ground arith;
}

next-attach : (s : Store) (p z x : ℕ) → next (attach s p z) x ≡ (if x == p then z else next s x)
unfolding attach
next-attach s p z x = next-set_prev (set_next s p z) z p x ∙ next-set_next s p z x

prev-attach : (s : Store) (p z x : ℕ) → prev (attach s p z) x ≡ (if x == z then p else prev s x)
unfolding attach
prev-attach s p z x = prev-set_prev (set_next s p z) z p x ∙ rw (prev-set_next s p z x) refl

-- the node at the head leaves its ring to the others
remove_head :
    (s : Store) (x z : ℕ) (zs : List ℕ)
    → IsRing s x (z ∷ zs)
    → Returns (λ s'. IsRing s' z zs × IsAlone s' x) (remove s x)
unfolding remove attach node_init
remove_head s x z zs r =
    let (to, back, rest) = r.linked in
    let (out, d) = r.distinct in
    let p = last_of z zs in
    let inside = among-last_of z zs in
    let before : prev s x ≡ p = Linked-last_of s z zs x rest in
    let given : (x == 0) ≡ false = ground (arith, r.not_null) in
    let not_p : (p == x) ≡ false = ground (arith, differs x p (z ∷ zs) out inside) in
    let not_z : (z == x) ≡ false = ground arith in
    let t = attach s p z in
    let s' = cut t x in
    rw (given, before, not_p, to, not_z)
      (returns (
        record {
          linked =
              Linked-retarget s s' z zs x z rest d
                (next-cut t x p ∙ rw not_p (next-attach s p z p ∙ ground arith))
                (prev-cut t x z ∙ rw not_z (prev-attach s p z z ∙ ground arith))
                (λ y i o.
                  next-cut t x y ∙ ground (arith, differs x y (z ∷ zs) out i, next-attach s p z y))
                (λ y i.
                  prev-cut t x y
                  ∙ ground (
                    arith,
                    differs x y (z ∷ zs) out (ground arith),
                    differs z y zs d.0 i,
                    prev-attach s p z y,
                  ));
          distinct = d;
          not_null = let h = r.not_null in ground (arith, h);
        },
        IsAlone-cut t x,
      ))

-- Removing a node of a ring other than its head leaves the ring of the others, in order, and the
-- node points to itself.
pub remove_lem :
    (s : Store) (head : ℕ) (xs : List ℕ) (x : ℕ) (ys : List ℕ)
    → IsRing s head (xs ++ x ∷ ys)
    → Returns (λ s'. IsRing s' head (xs ++ ys) × IsAlone s' x) (remove s x)
remove_lem s head xs x [] r =
    rw (append-nil xs) (remove_head s x head xs (IsRing-rotate s head xs x [] r))
remove_lem s head xs x (y ∷ ys) r =
    Returns-map (remove_head s x y (ys ++ head ∷ xs) (IsRing-rotate s head xs x (y ∷ ys) r))
      λ s' (ring, alone). (IsRing-rotate s' y ys head xs ring, alone)

-- a fresh node takes the place of the node at the head
replace_head :
    (s : Store) (old n z : ℕ) (zs : List ℕ)
    → IsRing s old (z ∷ zs)
    → n ≢ 0
    → among n (old ∷ z ∷ zs) ≡ false
    → Returns (λ s'. IsRing s' n (z ∷ zs) × IsAlone s' old) (replace s old n)
unfolding replace add_between node_init
replace_head s old n z zs r n_given fresh =
    let (to, back, rest) = r.linked in
    let (out, d) = r.distinct in
    let p = last_of z zs in
    let inside = among-last_of z zs in
    let before : prev s old ≡ p = Linked-last_of s z zs old rest in
    let given : (old == 0) ≡ false = ground (arith, r.not_null) in
    let given_n : (n == 0) ≡ false = ground arith in
    let other_node : (old == n) ≡ false = ground arith in
    let not_p : (p == old) ≡ false = ground (arith, differs old p (z ∷ zs) out inside) in
    let not_z : (z == old) ≡ false = ground arith in
    let p_n : (p == n) ≡ false = ground (arith, differs n p (z ∷ zs) (ground arith) inside) in
    let z_n : (z == n) ≡ false = ground arith in
    let n_old : (n == old) ≡ false = ground arith in
    let own : (n == n) ≡ true = ground arith in
    let t = add_between s n p z in
    let s' = cut t old in
    rw (given, given_n, other_node, before, not_p, to, not_z)
      (returns (
        record {
          linked = (
            next-cut t old n ∙ rw n_old (next-add_between s n p z n ∙ rw own refl),
            prev-cut t old z ∙ rw not_z (prev-add_between s n p z z ∙ ground arith),
            Linked-retarget s s' z zs old n rest d
                (next-cut t old p ∙ rw not_p (next-add_between s n p z p ∙ ground (arith, p_n)))
                (prev-cut t old n ∙ rw n_old (prev-add_between s n p z n ∙ ground (arith, z_n)))
                (λ y i o.
                  next-cut t old y
                  ∙ ground (
                    arith,
                    differs old y (z ∷ zs) out i,
                    differs n y (z ∷ zs) (ground arith) i,
                    next-add_between s n p z y,
                  ))
                (λ y i.
                  prev-cut t old y
                  ∙ ground (
                    arith,
                    differs old y (z ∷ zs) out (ground arith),
                    differs z y zs d.0 i,
                    differs n y (z ∷ zs) (ground arith) (ground arith),
                    prev-add_between s n p z y,
                  )),
          );
          distinct = (ground arith, d);
          not_null = let h = r.not_null in ground (arith, h);
        },
        IsAlone-cut t old,
      ))

among-rotated :
    (n head : ℕ) (xs : List ℕ) (x : ℕ) (ys : List ℕ)
    → among n (head ∷ xs ++ x ∷ ys) ≡ false
    → among n (x ∷ ys ++ head ∷ xs) ≡ false
among-rotated n head xs x ys h =
    let e = among-append n xs (x ∷ ys) in let e' = among-append n ys (head ∷ xs) in ground arith

-- Replacing a node of a ring other than its head by a fresh one puts that in its place, and the old
-- node points to itself.
pub replace_lem :
    (s : Store) (head : ℕ) (xs : List ℕ) (old n : ℕ) (ys : List ℕ)
    → IsRing s head (xs ++ old ∷ ys)
    → n ≢ 0
    → among n (head ∷ xs ++ old ∷ ys) ≡ false
    → Returns (λ s'. IsRing s' head (xs ++ n ∷ ys) × IsAlone s' old) (replace s old n)
replace_lem s head xs old n [] r given fresh =
    Returns-map
      (replace_head s old n head xs (IsRing-rotate s head xs old [] r) given
        (among-rotated n head xs old [] fresh))
      λ s' (ring, alone). (IsRing-rotate s' n [] head xs ring, alone)
replace_lem s head xs old n (y ∷ ys) r given fresh =
    Returns-map
      (replace_head s old n y (ys ++ head ∷ xs) (IsRing-rotate s head xs old (y ∷ ys) r) given
        (among-rotated n head xs old (y ∷ ys) fresh))
      λ s' (ring, alone). (IsRing-rotate s' n (y ∷ ys) head xs ring, alone)
