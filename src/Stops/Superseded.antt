-- ===== src/Stops/Superseded.antt =====
-- A stop that the filter still holds when another event of the adapter came is dropped.
use eyedebugger.Prelude.{
  ℕ, suc, ◌≤◌, ◌<◌, ◌≡◌, String, Bool, false, none, some, List, [], ◌∷◌, arith,
}
use eyedebugger.Api.{StopInfo}
use eyedebugger.Stops.{
  Program, pending, apply_stop, publish, on_stopped, on_continued, begin_continue, end_continue,
}

-- The events of the adapter, and what filters that run do.
pub data StopStep : Type 0 where
  reports : StopInfo → StopStep
  resumes : ℕ → StopStep
  publishes : ℕ → StopInfo → String → StopStep
  begins : ℕ → StopStep
  ends : ℕ → StopInfo → Bool → StopStep

unfoldable pub stop_step : Program → ℕ → StopStep → Program
stop_step p now (reports stop) = (on_stopped p now stop).0
stop_step p now (resumes thread) = on_continued p now thread
stop_step p now (publishes gen stop desc) = publish p now gen stop desc
stop_step p now (begins gen) = elim (begin_continue p gen) [ none ↦ p | some q ↦ q ]
stop_step p now (ends gen stop failed) = end_continue p now gen stop failed

unfoldable pub stop_steps : Program → List (ℕ × StopStep) → Program
unfolding stop_step
stop_steps p [] = p
stop_steps p ((now, s) ∷ steps) = stop_steps (stop_step p now s) steps

stop_step-stop_gen :
    (p : Program) (now : ℕ) (s : StopStep) → p.stop_gen ≤ (stop_step p now s).stop_gen
unfolding stop_step on_stopped on_continued publish apply_stop begin_continue end_continue
stop_step-stop_gen p now (reports stop) = ground arith
stop_step-stop_gen p now (resumes thread) = ground arith
stop_step-stop_gen p now (publishes gen stop desc) = ground arith
stop_step-stop_gen p now (begins gen) = ground arith
stop_step-stop_gen p now (ends gen stop failed) = ground arith

stop_steps-stop_gen :
    (p : Program) (steps : List (ℕ × StopStep)) → p.stop_gen ≤ (stop_steps p steps).stop_gen
unfolding stop_steps
stop_steps-stop_gen p [] = omega arith
stop_steps-stop_gen p ((now, s) ∷ steps) =
    omega (arith, stop_step-stop_gen p now s, stop_steps-stop_gen (stop_step p now s) steps)

later-pending : (p : Program) (gen : ℕ) → gen < p.stop_gen → pending p gen ≡ false
unfolding pending
later-pending p gen h = ground (arith, h)

resumes-stop_gen :
    (p : Program) (now thread : ℕ) → (stop_step p now (resumes thread)).stop_gen ≡ suc p.stop_gen
unfolding stop_step on_continued
resumes-stop_gen p now thread = ground arith

-- Once the adapter reported that the program goes on, a filter that still holds an earlier stop
-- neither publishes it nor continues the program, whatever else happened since; the end of a
-- continue that such a filter began leaves only the mark of a request in flight cleared.
pub stop_steps-superseded :
    (p : Program) (gen now thread : ℕ) (steps : List (ℕ × StopStep)) (later : ℕ) (stop : StopInfo)
    (desc : String) (failed : Bool)
    → gen ≤ p.stop_gen
    → let q = stop_steps (stop_step p now (resumes thread)) steps in
      (publish q later gen stop desc ≡ q)
      × (begin_continue q gen ≡ none)
      × (end_continue q later gen stop failed ≡ record q { exec_in_flight = false })
unfolding publish begin_continue end_continue
stop_steps-superseded p gen now thread steps later stop desc failed h =
    let q = stop_steps (stop_step p now (resumes thread)) steps in
    let newer : gen < q.stop_gen = omega (
      arith,
      h,
      resumes-stop_gen p now thread,
      stop_steps-stop_gen (stop_step p now (resumes thread)) steps,
    ) in
    (
      ground (arith, later-pending q gen newer),
      ground (arith, later-pending q gen newer),
      ground (arith, later-pending (record q { exec_in_flight = false }) gen newer),
    )
