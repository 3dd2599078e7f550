-- ===== src/Execution/Admitted.antt =====
-- What is admitted to act on the program, and what is refused and why.
use eyedebugger.Prelude.{
  ℕ, ◌≡◌, ◌≢◌, Bool, true, false, ◌⊎◌, inl, inr, refl, arith, eq_iff, if◌then◌else◌,
}
use eyedebugger.Api.{
  SessionState, stopped, exited, starting, running, lost, Event, blank, event_exec,
}
use eyedebugger.EventLog.{append}
use eyedebugger.Lease.{acquire}
use eyedebugger.Lease.Logged.{acquire_lem, acquire-state, MayHold, KeptFrom}
use eyedebugger.Session.{lease_held}
use eyedebugger.Execution.{Execution, session_of, with_session, log_event}
use eyedebugger.Execution.Requests.{
  ExecKind, is_pause, is_running, not_running, not_stopped, session_over, ExecRequest, Refusal,
  unsupported, lease_refusal, refused, admitted, action_of, thread_for, admit, state_error,
}
use eyedebugger.Stops.Kept.{is_stopped}

-- Whether the program's state lets the request act: a pause a running program, all else a stopped one.
abbrev pub is_ready : ExecKind → SessionState → Bool
is_ready kind state = if is_pause kind then is_running state else is_stopped state

-- What `admit` logs.
abbrev pub exec_event : ExecRequest → Event
exec_event r = record blank {
  kind = event_exec;
  client = r.client.id;
  action = action_of r.kind;
  thread_id = r.thread;
  text = r.text;
}

-- Nothing changed.
abbrev pub Refuses : Execution → ℕ → ExecRequest → ℕ → Refusal → Type 0
Refuses x now r pause_thread why = admit x now r pause_thread ≡ (x, refused why)

-- The error of a state that does not let the request act.
abbrev pub IsStateError : SessionState → Refusal → Type 0
IsStateError stopped why = why ≡ not_running
IsStateError exited why = why ≡ session_over
IsStateError starting why = why ≡ not_stopped
IsStateError running why = why ≡ not_stopped
IsStateError lost why = why ≡ not_stopped

state_error-IsStateError : (state : SessionState) → IsStateError state (state_error state)
unfolding state_error
state_error-IsStateError stopped = refl
state_error-IsStateError exited = refl
state_error-IsStateError starting = refl
state_error-IsStateError running = refl
state_error-IsStateError lost = refl

-- The thread that the request names, or else the pause's, or else the stopped one.
abbrev pub IsThread : Execution → ExecRequest → ℕ → ℕ → Type 0
IsThread x r pause_thread n =
    ((r.thread ≢ 0) × (n ≡ r.thread))
    ⊎ ((r.thread ≡ 0) × (is_pause r.kind ≡ true) × (pause_thread ≢ 0) × (n ≡ pause_thread))
    ⊎ ((r.thread ≡ 0)
        × ((is_pause r.kind ≡ false) ⊎ (pause_thread ≡ 0))
        × (n ≡ x.program.stop.thread_id))

thread_for-IsThread :
    (x : Execution) (r : ExecRequest) (pause_thread : ℕ)
    → IsThread x r pause_thread (thread_for x r pause_thread)
unfolding thread_for
thread_for-IsThread x r pause_thread = ground arith

-- The client holds the lease, and of the program only the log changed: by what taking the lease
-- logs and the request.
abbrev pub Admits : Execution → ℕ → ExecRequest → ℕ → Type 0
Admits x now r pause_thread =
    let y = (admit x now r pause_thread).0 in
    ((n : ℕ) × ((admit x now r pause_thread).1 ≡ admitted x.program.stops n)
      × IsThread x r pause_thread n)
    × (y.session.lease.holder.id ≡ r.client.id)
    × (y.program ≡ record x.program {
      log = append (acquire (session_of x) now r.client).0.log now (exec_event r);
    })

-- A pause that the adapter can't do.
abbrev pub CannotPause : Execution → ExecRequest → Type 0
CannotPause x r = (is_pause r.kind ≡ true) × (x.setup.pause_unsupported ≢ "")

-- Any other request, in a state of the program that lets it act or not.
abbrev pub Comes : Execution → ExecRequest → Bool → Type 0
Comes x r ready =
    ((is_pause r.kind ≡ false) ⊎ (x.setup.pause_unsupported ≡ ""))
    × (is_ready r.kind x.program.state ≡ ready)

admit_cases :
    (x : Execution) (now : ℕ) (r : ExecRequest) (pause_thread : ℕ)
    → (Refuses x now r pause_thread unsupported × CannotPause x r)
      ⊎ (Refuses x now r pause_thread (state_error x.program.state) × Comes x r false)
      ⊎ (Refuses x now r pause_thread
            (lease_refusal (lease_held x.session.lease.holder.id x.session.lease.policy))
          × Comes x r true
          × KeptFrom x.session.lease r.client)
      ⊎ (((admit x now r pause_thread).1 ≡ admitted x.program.stops (thread_for x r pause_thread))
          × ((admit x now r pause_thread).0.session.lease.holder.id ≡ r.client.id)
          × ((admit x now r pause_thread).0.program ≡ record x.program {
            log = append (acquire (session_of x) now r.client).0.log now (exec_event r);
          })
          × Comes x r true
          × MayHold x.session.lease r.client)
unfolding admit session_of with_session log_event thread_for
admit_cases x now r pause_thread = ground (
  arith,
  acquire-state (session_of x) now r.client,
  acquire_lem (record x.session { state = x.program.state; log = x.program.log }) now r.client,
  eq_iff x.setup.pause_unsupported "",
)

-- A request to act on the program is refused, which changes nothing, for the first of these that
-- holds: it is a pause that the adapter can't do; the program is not running (for a pause) or not
-- stopped (for all else), and the error is the state's; someone else holds the lease under a policy
-- that keeps the client from taking it. Otherwise it is admitted: the client holds the lease from
-- then on, the request is logged, and it acts on the thread it names or else the pause's or the stopped one.
pub admit_lem :
    (x : Execution) (now : ℕ) (r : ExecRequest) (pause_thread : ℕ)
    → (Refuses x now r pause_thread unsupported × CannotPause x r)
      ⊎ ((why : Refusal) × Refuses x now r pause_thread why
          × IsStateError x.program.state why
          × Comes x r false)
      ⊎ (Refuses x now r pause_thread
            (lease_refusal (lease_held x.session.lease.holder.id x.session.lease.policy))
          × Comes x r true
          × KeptFrom x.session.lease r.client)
      ⊎ (Admits x now r pause_thread × Comes x r true × MayHold x.session.lease r.client)
admit_lem x now r pause_thread = elim (admit_cases x now r pause_thread) [
  | inl pause ↦ inl pause
  | inr (inl (refuses, comes)) ↦
      inr (
        inl (state_error x.program.state, refuses, state_error-IsStateError x.program.state, comes))
  | inr (inr (inl held)) ↦ inr (inr (inl held))
  | inr (inr (inr (acts, holds, logs, comes, may))) ↦ inr (
      inr (
        inr (
          ((thread_for x r pause_thread, acts, thread_for-IsThread x r pause_thread), holds, logs),
          comes,
          may,
        )))
]
