-- ===== src/Execution/Outcome.antt =====
-- What each happening does to the end of a session: it goes on as it was, or it ends now.
use eyedebugger.Prelude.{
  ℕ, ◌≡◌, refl, sym, ◌∙◌, ap, subst, String, ◌||◌, ◌&&◌, Bool, true, false, not, inl, inr, ◌⊎◌,
  some, arith, str_eq, Bool-cases, Option-cases, if◌then◌else◌,
}
use eyedebugger.Api.{ℤ, exited, is_exited, Event, blank, Client, event_ended, event_exited}
use eyedebugger.Lease.{LeaseCall, call, acquire, acquires}
use eyedebugger.Lease.Logged.{call-Logged, call-state, call-acquires}
use eyedebugger.EventLog.Kinds.{Grew, same-Grew, append-Grew, append-silent, Grew-trans}
use eyedebugger.Stops.Kept.{IsKept, is_report, stop_step-IsKept}
use eyedebugger.Execution.{
  Execution, end_run, session_of, with_session, log_event, end_session, append_output, on_exited,
  on_terminated, finish_run, ask_terminate, mark_stopping, shut_down,
}
use eyedebugger.Execution.Requests.{ExecKind, ExecRequest, admit, begin_send, end_send}
use eyedebugger.Execution.Steps.{
  Happening, stops, threads, exits, terminates, prints, runner_exits, asks_end, marks_end,
  tears_down, ends, asks, sends, answers, calls_lease, happen,
}
use eyedebugger.Execution.Cases.{finish_run_cases, ask_terminate_cases, admit_cases}

-- It goes on as it was, or an ended session stays as it ended.
abbrev Goes : Execution → Execution → Type 0
Goes x y = IsKept x.program y.program × (y.end_reason ≡ x.end_reason)

-- It ended, and the log says so.
abbrev EndsNow : Execution → Execution → Type 0
EndsNow x y =
    (is_exited x.program.state ≡ false)
    × (is_exited y.program.state ≡ true)
    × Grew event_ended 1 x.program.log y.program.log

abbrev pub Outcome : Execution → Execution → Type 0
Outcome x y = Goes x y ⊎ EndsNow x y

same-Goes : (x : Execution) → Goes x x
same-Goes x = ((same-Grew event_ended x.program.log, refl), refl)

log_event-Goes :
    (x : Execution) (now : ℕ) (e : Event)
    → str_eq e.kind event_ended ≡ false
    → Goes x (log_event x now e)
unfolding log_event
log_event-Goes x now e h = ((append-silent event_ended x.program.log now e h, refl), refl)

end_session-over :
    (x : Execution) (now : ℕ) (reason : String)
    → is_exited x.program.state ≡ true
    → end_session x now reason ≡ x
unfolding end_session
end_session-over x now reason over = rw over refl

-- The event that ends a session, and the session with it.
abbrev end_event : Execution → String → Event
end_event x reason = record blank {
  kind = event_ended;
  reason = if str_eq x.stop_reason "" then reason else x.stop_reason;
  client = x.stopping;
}

abbrev closed : Execution → ℕ → String → Execution
closed x now reason =
    log_event
      (record x {
        end_reason = if str_eq x.stop_reason "" then reason else x.stop_reason;
        program = record x.program { state = exited };
      })
      now (end_event x reason)

end_session-live :
    (x : Execution) (now : ℕ) (reason : String)
    → is_exited x.program.state ≡ false
    → end_session x now reason ≡ closed x now reason
unfolding end_session
end_session-live x now reason live = rw live refl

closed-EndsNow :
    (x : Execution) (now : ℕ) (reason : String)
    → is_exited x.program.state ≡ false
    → EndsNow x (closed x now reason)
unfolding log_event
closed-EndsNow x now reason live =
    (live, refl, append-Grew event_ended x.program.log now (end_event x reason))

end_session-Outcome :
    (x : Execution) (now : ℕ) (reason : String) → Outcome x (end_session x now reason)
end_session-Outcome x now reason = elim (Bool-cases (is_exited x.program.state)) [
  | inl over ↦ subst (Outcome x) (sym (end_session-over x now reason over)) (inl (same-Goes x))
  | inr live ↦
      subst (Outcome x) (sym (end_session-live x now reason live))
        (inr (closed-EndsNow x now reason live))
]

append_output-Goes :
    (x : Execution) (now : ℕ) (category text : String) → Goes x (append_output x now category text)
unfolding append_output
append_output-Goes x now category text =
    elim (Bool-cases (str_eq category "telemetry" || str_eq text "")) [
      | inl nothing ↦ rw nothing (same-Goes x)
      | inr logs ↦ rw logs (log_event-Goes x now _ refl)
    ]

on_exited-Goes : (x : Execution) (now : ℕ) (code : ℤ) → Goes x (on_exited x now code)
unfolding on_exited
on_exited-Goes x now code = elim (Option-cases x.setup.runner) [
  | inr (name, by) ↦ rw (by, on_exited) (append_output-Goes x now "console" _)
  | inl plain ↦ elim (Bool-cases (str_eq x.setup.exit_code_unknown "")) [
    | inl trusted ↦
        rw (plain, trusted, on_exited)
          (log_event-Goes (record x { exit_code = some code }) now _ refl)
    | inr unsure ↦
        rw (plain, unsure, on_exited)
          (log_event-Goes (record x { program_exited = true }) now _ refl)
  ]
]

on_terminated-Outcome :
    (x : Execution) (now : ℕ) (def : String) → Outcome x (on_terminated x now def)
unfolding on_terminated
on_terminated-Outcome x now def = elim (Option-cases x.setup.runner) [
  | inr (name, by) ↦ rw (by, on_terminated) (inl (same-Goes x))
  | inl plain ↦ rw (plain, on_terminated) (end_session-Outcome x now _)
]

-- An outcome that follows what leaves it going.
after : (x y z : Execution) → Goes x y → Outcome y z → Outcome x z
after x y z g (inl h) = inl (
  (Grew-trans event_ended 0 0 x.program.log y.program.log z.program.log g.0.0 h.0.0, h.0.1 ∙ g.0.1),
  h.1 ∙ g.1,
)
after x y z g (inr h) = inr (
  sym g.0.1 ∙ h.0,
  h.1,
  Grew-trans event_ended 0 1 x.program.log y.program.log z.program.log g.0.0 h.2,
)

end_run-Outcome :
    (x : Execution) (now : ℕ) (code : ℤ) (name : String) → Outcome x (end_run x now code name)
unfolding end_run
end_run-Outcome x now code name =
    let coded =
      log_event (record x { exit_code = some code }) now
        (record blank { kind = event_exited; exit_code = some code }) in
    after x coded (end_session coded now _)
      (log_event-Goes (record x { exit_code = some code }) now _ refl)
      (end_session-Outcome coded now _)

finish_run-Outcome : (x : Execution) (now : ℕ) (code : ℤ) → Outcome x (finish_run x now code)
finish_run-Outcome x now code =
    finish_run_cases (Outcome x) x now code (inl (same-Goes x)) (end_run-Outcome x now code)

-- The session as a lease call left it.
with_session-Goes :
    (x : Execution) (now : ℕ) (c : LeaseCall) → Goes x (with_session x (call (session_of x) now c))
unfolding with_session session_of
with_session-Goes x now c = (
  elim (call-Logged (session_of x) now c) [
    | inl (same, _, _) ↦ (
      subst (Grew event_ended 0 x.program.log) (sym same) (same-Grew event_ended x.program.log),
      ap is_exited (call-state (session_of x) now c),
    )
    | inr (e, grew, kind, _, _) ↦ (
      subst (Grew event_ended 0 x.program.log) (sym grew)
          (append-silent event_ended x.program.log now e (rw kind refl)),
      ap is_exited (call-state (session_of x) now c),
    )
  ],
  refl,
)

acquire-Goes :
    (x : Execution) (now : ℕ) (c : Client)
    → Goes x (with_session x (acquire (session_of x) now c).0)
acquire-Goes x now c =
    subst (λ s. Goes x (with_session x s)) (call-acquires (session_of x) now c)
      (with_session-Goes x now (acquires c))

ask_terminate-Goes : (x : Execution) (now : ℕ) (c : Client) → Goes x (ask_terminate x now c).0
ask_terminate-Goes x now c =
    ask_terminate_cases (Goes x) x now c (same-Goes x) (acquire-Goes x now c)

mark_stopping-Goes : (x : Execution) (by reason : String) → Goes x (mark_stopping x by reason)
unfolding mark_stopping
mark_stopping-Goes x by reason =
    elim (Bool-cases (not (is_exited x.program.state) && str_eq x.stop_reason "")) [
      | inl first ↦ rw first (same-Goes x)
      | inr late ↦ rw late (same-Goes x)
    ]

shut_down-Goes : (x : Execution) → Goes x (shut_down x).0
unfolding shut_down
shut_down-Goes x = ground (arith, same-Goes x)

begin_send-Goes : (x : Execution) (kind : ExecKind) → Goes x (begin_send x kind)
unfolding begin_send
begin_send-Goes x kind = ground (arith, same-Goes x)

end_send-Goes :
    (x : Execution) (kind : ExecKind) (before : ℕ) (failed : Bool)
    → Goes x (end_send x kind before failed)
unfolding end_send
end_send-Goes x kind before failed = ground (arith, same-Goes x)

trans-Goes : (x y z : Execution) → Goes x y → Goes y z → Goes x z
trans-Goes x y z g h = (
  (Grew-trans event_ended 0 0 x.program.log y.program.log z.program.log g.0.0 h.0.0, h.0.1 ∙ g.0.1),
  h.1 ∙ g.1,
)

admit-Goes :
    (x : Execution) (now : ℕ) (r : ExecRequest) (pause_thread : ℕ)
    → Goes x (admit x now r pause_thread).0
admit-Goes x now r pause_thread =
    let held = with_session x (acquire (session_of x) now r.client).0 in
    admit_cases (Goes x) x now r pause_thread (same-Goes x) (
      trans-Goes x held (log_event held now _) (acquire-Goes x now r.client)
        (log_event-Goes held now _ refl))

-- A report of a stop of the adapter.
abbrev pub is_late : Happening → Bool
is_late (stops s) = is_report s
is_late _ = false

pub happen-Outcome :
    (x : Execution) (now : ℕ) (h : Happening)
    → (is_exited x.program.state ≡ true → is_late h ≡ false)
    → Outcome x (happen x now h)
unfolding happen
happen-Outcome x now (stops s) fits = inl (stop_step-IsKept x.program now s fits, refl)
happen-Outcome x now (threads reason id) fits = inl (log_event-Goes x now _ refl)
happen-Outcome x now (exits code) fits = inl (on_exited-Goes x now code)
happen-Outcome x now (terminates def) fits = on_terminated-Outcome x now def
happen-Outcome x now (prints category text) fits = inl (append_output-Goes x now category text)
happen-Outcome x now (runner_exits code) fits = finish_run-Outcome x now code
happen-Outcome x now (asks_end c) fits = inl (ask_terminate-Goes x now c)
happen-Outcome x now (marks_end by reason) fits = inl (mark_stopping-Goes x by reason)
happen-Outcome x now tears_down fits = inl (shut_down-Goes x)
happen-Outcome x now (ends reason) fits = end_session-Outcome x now reason
happen-Outcome x now (asks r pause_thread) fits = inl (admit-Goes x now r pause_thread)
happen-Outcome x now (sends kind) fits = inl (begin_send-Goes x kind)
happen-Outcome x now (answers kind before failed) fits = inl (end_send-Goes x kind before failed)
happen-Outcome x now (calls_lease c) fits = inl (with_session-Goes x now c)
