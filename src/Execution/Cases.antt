-- ===== src/Execution/Cases.antt =====
-- The branches of what may end a session or change its lease: what holds of every result holds of the
-- operation.
use eyedebugger.Prelude.{ℕ, String, Bool, true, false, inl, inr, arith, Option-cases, if◌then◌else◌}
use eyedebugger.Api.{ℤ, is_exited, blank, Client, event_exec}
use eyedebugger.Lease.{acquire}
use eyedebugger.Execution.{
  Execution, end_run, session_of, with_session, log_event, finish_run, ask_terminate,
}
use eyedebugger.Execution.Requests.{action_of, ExecRequest, admit}

module _ {ℓ} (P : Execution → Type ℓ) (x : Execution) (now : ℕ) where
  either : (b : Bool) (y : Execution) → P x → P y → P (if b then x else y)
  either true y same other = same
  either false y same other = other

  pub finish_run_cases :
      (code : ℤ) → P x → ((name : String) → P (end_run x now code name)) → P (finish_run x now code)
  unfolding finish_run
  finish_run_cases code same over = elim (Option-cases x.setup.runner) [
    | inl plain ↦ rw (plain, finish_run) same
    | inr (name, by) ↦
        rw (by, finish_run)
          (either (is_exited x.program.state) (end_run x now code name) same (over name))
  ]

  pub ask_terminate_cases :
      (c : Client)
      → P x
      → P (with_session x (acquire (session_of x) now c).0)
      → P (ask_terminate x now c).0
  unfolding ask_terminate
  ask_terminate_cases c same asked = ground arith

  pub admit_cases :
      (r : ExecRequest) (pause_thread : ℕ)
      → P x
      → P (
          log_event (with_session x (acquire (session_of x) now r.client).0) now (record blank {
            kind = event_exec;
            client = r.client.id;
            action = action_of r.kind;
            thread_id = r.thread;
            text = r.text;
          }))
      → P (admit x now r pause_thread).0
  unfolding admit
  admit_cases r pause_thread same done = ground arith
