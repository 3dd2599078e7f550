-- ===== src/Execution/Ended.antt =====
-- A session ends once, and says so once.
use eyedebugger.Prelude.{
  ℕ, ◌≡◌, refl, ◌∙◌, true, false, inl, inr, List, [], ◌∷◌, arith, if◌then◌else◌,
}
use eyedebugger.Api.{is_exited, event_ended}
use eyedebugger.EventLog.Kinds.{count_kind}
use eyedebugger.Execution.{Execution}
use eyedebugger.Execution.Steps.{Happening, happen, happen_all}
use eyedebugger.Execution.Outcome.{Outcome, is_late, happen-Outcome}

-- Once the session is over, the adapter reports no stop.
unfoldable pub IsOrderly : Execution → List (ℕ × Happening) → Type 0
unfolding happen
IsOrderly x [] = Unit
IsOrderly x ((now, h) ∷ rest) =
    (is_exited x.program.state ≡ true → is_late h ≡ false) × IsOrderly (happen x now h) rest

-- The recording has one event of the end if the session is over, and none before.
abbrev pub EndsOnce : Execution → Type 0
EndsOnce x =
    (x.program.log.sink ≡ true)
    × (count_kind event_ended x.program.log.recorded ≡ (if is_exited x.program.state then 1 else 0))

happen-EndsOnce :
    (x : Execution) (y : Execution)
    → Outcome x y
    → EndsOnce x
    → EndsOnce y
      × (is_exited x.program.state ≡ true
          → (is_exited y.program.state ≡ true) × (y.end_reason ≡ x.end_reason))
happen-EndsOnce x y (inl goes) once = ground (arith, goes, once)
happen-EndsOnce x y (inr over) once = ground (arith, over, once)

-- A session ends at most once, whatever its adapter, its program, its test runner and its clients
-- do in whatever order, if the adapter reports no stop after the end: the recording has one event of
-- the end when the state is exited and none otherwise; an ended session stays ended, and keeps its
-- reason.
pub happen_all-EndsOnce :
    (x : Execution) (hs : List (ℕ × Happening))
    → EndsOnce x
    → IsOrderly x hs
    → EndsOnce (happen_all x hs)
      × (is_exited x.program.state ≡ true
          → (is_exited (happen_all x hs).program.state ≡ true)
            × ((happen_all x hs).end_reason ≡ x.end_reason))
unfolding happen_all IsOrderly
happen_all-EndsOnce x [] once fits = (once, λ over. (over, refl))
happen_all-EndsOnce x ((now, h) ∷ rest) once fits =
    let (now_once, stays) =
      happen-EndsOnce x (happen x now h) (happen-Outcome x now h fits.0) once in
    let (all_once, stays_all) = happen_all-EndsOnce (happen x now h) rest now_once fits.1 in
    (
      all_once,
      λ over. ((stays_all (stays over).0).0, (stays_all (stays over).0).1 ∙ (stays over).1),
    )
