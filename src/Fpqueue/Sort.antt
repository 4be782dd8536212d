-- ===== src/Fpqueue/Sort.antt =====
-- What the removals of dsa/fpqueue.h return one after another, until the queue is empty.
use mathlib.Core.List.{map, Pairwise, mem-cons_of_mem}
use mathlib.Core.List.Perm
use dsa_c.Prelude.{ℕ, zero, suc, ◌≤◌, ◌≡◌, refl, List, [], ◌∷◌, Perm, arith}
use dsa_c.Prelude.Array
use dsa_c.Prelude.Array.{Zeroed, length}
use dsa_c.Run.{Run, ok, Returns, returns, Returns-bind, ◌>>=◌}
use dsa_c.Fpqueue.{Fpqueue, Element, Zeroed-Element, pop_max}
use dsa_c.Fpqueue.Invariant.{IsValid, contents}
use dsa_c.Fpqueue.Calls.{pop_max_lem}
use dsa_c.Fpqueue.Refine.{length-contents}

-- the values of `n` removals
unfoldable pub pop_times : {A : Type 0} → ℕ → Fpqueue A → Run (List A)
pop_times zero q = ok []
pop_times (suc n) q = do (x, q') ← pop_max q; rest ← pop_times n q'; ok (x ∷ rest)

-- in the order of their priorities, the largest first
abbrev pub IsDescending : {A : Type 0} → List (Element A) → Type 0
IsDescending = Pairwise (λ a b. b.priority ≤ a.priority)

module _ {A : Type 0} ⦃z : Zeroed A⦄ where
  -- Removing until a valid priority queue is empty returns the values of all its elements in the
  -- order of their priorities, the largest first.
  pub pop_times_sorts :
      (n : ℕ) (q : Fpqueue A)
      → IsValid q
      → q.count ≡ n
      → Returns
          (λ values.
            (sorted : List (Element A)) × (values ≡ map (λ e. e.value) sorted)
            × Perm (contents q) sorted
            × IsDescending sorted)
          (pop_times n q)
  unfolding pop_times
  pop_times_sorts zero q v e = returns ([], refl, rw e (Perm.refl []), Pairwise.nil)
  pop_times_sorts (suc n) q v e =
      Returns-bind (pop_max_lem q v (omega arith)) λ (x, q') (m, is, max, perm, v', same).
        let size = Array.length-perm perm in
        let less : q'.count ≡ n = omega (arith, size, length-contents q v, length-contents q' v') in
        Returns-bind (pop_times_sorts n q' v' less) λ rest (sorted, values, perm', descending).
          returns (
            m ∷ sorted,
            rw (is, values) refl,
            Perm.trans perm (Perm.cons m perm'),
            Pairwise.cons
                (λ a mem.
                  max a ((Perm.mem_iff perm).1 (mem-cons_of_mem m ((Perm.mem_iff perm').1 mem))))
                descending,
          )
