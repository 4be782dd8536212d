-- ===== src/Machine.antt =====
-- Programs over the operations of a component, and the passage from "each call agrees with the
-- specification" to "each program does". A component is a step function that returns a reply and
-- its next state, or faults.
use dsa_c.Prelude.{◌≡◌, refl, inl, inr, List, [], ◌∷◌}
use dsa_c.Run.{Run, Run-cases, ok, ◌>>=◌}

module _ {S Op Reply : Type 0} (step : S → Op → Run (Reply × S)) where
  -- the calls in order, up to the first fault
  unfoldable pub run : S → List Op → Run (List Reply × S)
  run s [] = ok ([], s)
  run s (op ∷ ops) = do
    (reply, s') ← step s op
    (replies, s'') ← run s' ops
    ok (reply ∷ replies, s'')

-- an outcome with the state seen through `view`
abbrev pub seen : {S T R : Type 0} → (S → T) → Run (R × S) → Run (R × T)
seen view r = r >>= λ (reply, s). ok (reply, view s)

module _ {S T Op Reply : Type 0} where
  pub run_refines :
      (step : S → Op → Run (Reply × S)) (spec : T → Op → Run (Reply × T)) (view : S → T)
      (P : S → Type 0)
      → ((s : S) (op : Op) → P s → seen view (step s op) ≡ spec (view s) op)
      → ((s : S) (op : Op) (reply : Reply) (s' : S) → P s → step s op ≡ ok (reply, s') → P s')
      → (ops : List Op) (s : S) → P s
      → seen view (run step s ops) ≡ run spec (view s) ops
  unfolding run
  run_refines step spec view P agree keep [] s p = refl
  run_refines step spec view P agree keep (op ∷ ops) s p = elim (Run-cases (step s op)) [
    | inl ((reply, s'), e) ↦
        let later = run_refines step spec view P agree keep ops s' (keep s op reply s' p e) in
        elim (Run-cases (run step s' ops)) [
          | inl ((replies, s''), e') ↦ rw (← agree s op p, e, ← later, e')
          | inr (f, e') ↦ rw (← agree s op p, e, ← later, e')
        ]
    | inr (f, e) ↦ rw (← agree s op p, e)
  ]
