-- ===== src/Execution/Requests.antt =====
-- internal/session/session.go: the requests that act on the program, from the one place that admits
-- them (`admit`) to the adapter's answer (`send`), and what a client waits for afterwards.

use eyedebugger.Prelude.{
  ℕ, String, Bool, true, false, not, ◌&&◌, ◌||◌, ◌==◌, ltb, str_eq, if◌then◌else◌,
}
use eyedebugger.Api.{
  Client, SessionState, starting, running, stopped, exited, lost, is_exited, blank, event_exec,
}
use eyedebugger.Session.{Error, ok, err}
use eyedebugger.Lease.{acquire}
use eyedebugger.Stops.Kept.{is_stopped}
use eyedebugger.Execution.{Execution, session_of, with_session, log_event}

-- The kinds of `Exec`, run-until, eval and set.
pub data ExecKind : Type 0 where
  exec_continue : ExecKind
  exec_next : ExecKind
  exec_step_in : ExecKind
  exec_step_out : ExecKind
  exec_pause : ExecKind
  exec_run_until : ExecKind
  exec_eval : ExecKind
  exec_set : ExecKind

pub action_of : ExecKind → String
action_of exec_continue = "continue"
action_of exec_next = "next"
action_of exec_step_in = "stepIn"
action_of exec_step_out = "stepOut"
action_of exec_pause = "pause"
action_of exec_run_until = "runUntil"
action_of exec_eval = "eval"
action_of exec_set = "set"

abbrev pub is_pause : ExecKind → Bool
is_pause exec_pause = true
is_pause _ = false

abbrev pub is_step : ExecKind → Bool
is_step exec_next = true
is_step exec_step_in = true
is_step exec_step_out = true
is_step _ = false

abbrev pub is_running : SessionState → Bool
is_running running = true
is_running _ = false

-- `execRequest`, without run-until's target.
pub record ExecRequest : Type 0 where
  pub client : Client
  pub kind : ExecKind
  pub thread : ℕ
  pub text : String

-- Why `admit` refuses: the adapter can't pause, the state (the codes of `stateError`), or the lease.
pub data Refusal : Type 0 where
  unsupported : Refusal
  not_stopped : Refusal
  not_running : Refusal
  session_over : Refusal
  lease_refusal : Error → Refusal

-- `stateError`.
unfoldable pub state_error : SessionState → Refusal
state_error stopped = not_running
state_error exited = session_over
state_error starting = not_stopped
state_error running = not_stopped
state_error lost = not_stopped

-- What `admit` answers: how often the program had stopped, and the thread to act on.
pub data Admission : Type 0 where
  refused : Refusal → Admission
  admitted : ℕ → ℕ → Admission

unfoldable pub thread_for : Execution → ExecRequest → ℕ → ℕ
thread_for x r pause_thread =
    if not (r.thread == 0)
    then r.thread
    else if is_pause r.kind && not (pause_thread == 0)
    then pause_thread
    else x.program.stop.thread_id

-- `admit`.
unfoldable pub admit : Execution → ℕ → ExecRequest → ℕ → Execution × Admission
unfolding state_error thread_for session_of with_session log_event action_of
admit x now r pause_thread =
    let held = with_session x (acquire (session_of x) now r.client).0 in
    let logged = log_event held now (record blank {
      kind = event_exec;
      client = r.client.id;
      action = action_of r.kind;
      thread_id = r.thread;
      text = r.text;
    }) in
    let ready =
      if is_pause r.kind then is_running x.program.state else is_stopped x.program.state in
    if is_pause r.kind && not (str_eq x.setup.pause_unsupported "")
    then (x, refused unsupported)
    else if not ready
    then (x, refused (state_error x.program.state))
    else elim (acquire (session_of x) now r.client).1 [
      | err e ↦ (x, refused (lease_refusal e))
      | ok done ↦ (logged, admitted x.program.stops (thread_for held r pause_thread))
    ]

-- The first locked part of `send`.
unfoldable pub begin_send : Execution → ExecKind → Execution
begin_send x kind =
    let flight = record x.program { exec_in_flight = true } in
    if is_pause kind
    then record x { program = record flight { pause_requested = true } }
    else record x {
      resumed_at = x.program.log.seq;
      program = record flight { stepping = is_step kind; pause_requested = false };
    }

-- The last locked part of `send`, where the adapter failed or not.
unfoldable pub end_send : Execution → ExecKind → ℕ → Bool → Execution
end_send x kind before failed =
    let landed = record x.program { exec_in_flight = false } in
    if failed
    then record x {
      program =
          if is_pause kind
          then record landed { pause_requested = false }
          else record landed { stepping = false };
    }
    else if not (is_pause kind) && is_stopped x.program.state && x.program.stops == before
    then record x { program = record landed { state = running } }
    else record x { program = landed }

-- What `Wait` waits for.
unfoldable pub has_stopped : Execution → ℕ → Bool
has_stopped x seen = ltb seen x.program.stops || is_exited x.program.state
