-- ===== src/Stops/Kept.antt =====
-- What a stop's way to the session leaves: no stop is taken back, and an ended session stays ended
-- and silent on its end, unless the adapter reports a stop after it.
use eyedebugger.Prelude.{
  ℕ, ◌≤◌, ◌<◌, ◌⊎◌, ◌≡◌, refl, String, Bool, true, false, ◌&&◌, suc, some, arith, str_eq,
  Bool-cases, inl, inr, sym, if◌then◌else◌,
}
use eyedebugger.Api.{
  StopInfo, SessionState, stopped, event_ended, is_exited, event_stopped, event_continued, blank,
}
use eyedebugger.EventLog.Kinds.{Grew, same-Grew, append-silent}
use eyedebugger.Stops.{
  Program, pause_signal, reason_breakpoint, reason_pause, pending, apply_stop, publish, on_stopped,
  on_continued, begin_continue, end_continue,
}
use eyedebugger.StopFilter.{needs_filter}
use eyedebugger.Stops.Superseded.{StopStep, reports, resumes, publishes, begins, ends, stop_step}

pub stop_step-stops : (p : Program) (now : ℕ) (s : StopStep) → p.stops ≤ (stop_step p now s).stops
unfolding stop_step on_stopped on_continued publish apply_stop begin_continue end_continue
stop_step-stops p now (reports stop) = ground arith
stop_step-stops p now (resumes thread) = ground arith
stop_step-stops p now (publishes gen stop desc) = ground arith
stop_step-stops p now (begins gen) = ground arith
stop_step-stops p now (ends gen stop failed) = ground arith

-- Of the same program: as over as it was, and silent on its end.
abbrev pub IsKept : Program → Program → Type 0
IsKept p q = Grew event_ended 0 p.log q.log × (is_exited q.state ≡ is_exited p.state)

same-IsKept : (p : Program) → IsKept p p
same-IsKept p = (same-Grew event_ended p.log, refl)

apply_stop-IsKept :
    (p : Program) (now : ℕ) (stop : StopInfo)
    → is_exited p.state ≡ false
    → IsKept p (apply_stop p now stop)
unfolding apply_stop
apply_stop-IsKept p now stop live = (
  append-silent event_ended p.log now (record blank { kind = event_stopped; stop = some stop })
      refl,
  sym live,
)

pending-live : (p : Program) (gen : ℕ) → pending p gen ≡ true → is_exited p.state ≡ false
unfolding pending
pending-live p gen h = ground (arith, h)

publish-IsKept :
    (p : Program) (now gen : ℕ) (stop : StopInfo) (desc : String)
    → IsKept p (publish p now gen stop desc)
unfolding publish
publish-IsKept p now gen stop desc = elim (Bool-cases (pending p gen)) [
  | inl waits ↦ rw waits (
      apply_stop-IsKept p now (if str_eq desc "" then stop else record stop { description = desc })
        (pending-live p gen waits))
  | inr over ↦ rw over (same-IsKept p)
]

on_stopped-IsKept :
    (p : Program) (now : ℕ) (stop : StopInfo)
    → is_exited p.state ≡ false
    → IsKept p (on_stopped p now stop).0
unfolding on_stopped
on_stopped-IsKept p now stop live =
    let q = record p { stop_gen = suc p.stop_gen } in
    let body =
      if p.pause_requested && pause_signal stop
      then record stop { reason = reason_pause }
      else stop in
    elim (Bool-cases (str_eq body.reason reason_breakpoint && needs_filter p.bps)) [
      | inl filtered ↦ rw filtered (same-IsKept p)
      | inr plain ↦ rw plain (apply_stop-IsKept q now body live)
    ]

on_continued-IsKept : (p : Program) (now thread : ℕ) → IsKept p (on_continued p now thread)
unfolding on_continued
on_continued-IsKept p now thread = ground (
  arith,
  same-IsKept p,
  append-silent event_ended p.log now (record blank { kind = event_continued; thread_id = thread })
      refl,
)

-- A step that is not the adapter's report of a stop.
abbrev pub is_report : StopStep → Bool
is_report (reports stop) = true
is_report _ = false

pub stop_step-IsKept :
    (p : Program) (now : ℕ) (s : StopStep)
    → (is_exited p.state ≡ true → is_report s ≡ false)
    → IsKept p (stop_step p now s)
unfolding stop_step begin_continue end_continue
stop_step-IsKept p now (reports stop) fits = on_stopped-IsKept p now stop (ground (arith, fits))
stop_step-IsKept p now (resumes thread) fits = on_continued-IsKept p now thread
stop_step-IsKept p now (publishes gen stop desc) fits = publish-IsKept p now gen stop desc
stop_step-IsKept p now (begins gen) fits = ground (arith, same-IsKept p)
stop_step-IsKept p now (ends gen stop failed) fits =
    ground
      (arith, same-IsKept p, publish-IsKept (record p { exec_in_flight = false }) now gen stop "")

abbrev pub is_stopped : SessionState → Bool
is_stopped stopped = true
is_stopped _ = false

-- A program that is stopped now was stopped already, or has stopped anew.
abbrev pub Later : Program → Program → Type 0
Later p q =
    (p.stops ≤ q.stops)
    × (is_stopped q.state ≡ true → (is_stopped p.state ≡ true) ⊎ (p.stops < q.stops))

pub stop_step-Later : (p : Program) (now : ℕ) (s : StopStep) → Later p (stop_step p now s)
unfolding stop_step on_stopped on_continued publish apply_stop begin_continue end_continue
stop_step-Later p now (reports stop) = ground arith
stop_step-Later p now (resumes thread) = ground arith
stop_step-Later p now (publishes gen stop desc) = ground arith
stop_step-Later p now (begins gen) = ground arith
stop_step-Later p now (ends gen stop failed) = ground arith
