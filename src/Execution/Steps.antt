-- ===== src/Execution/Steps.antt =====
-- Everything that happens to a session's execution, in any order.
use eyedebugger.Prelude.{ℕ, String, Bool, List, [], ◌∷◌}
use eyedebugger.Api.{ℤ, Client, blank, event_thread}
use eyedebugger.Lease.{LeaseCall, call}
use eyedebugger.Stops.Superseded.{StopStep, stop_step}
use eyedebugger.Execution.{
  Execution, session_of, with_session, log_event, end_session, append_output, on_exited,
  on_terminated, finish_run, ask_terminate, mark_stopping, shut_down,
}
use eyedebugger.Execution.Requests.{ExecKind, ExecRequest, admit, begin_send, end_send}

-- What the adapter and the stop filter do, what the adapter's other events and its end do, what ends
-- the session, what clients ask of its execution, and what they ask of its lease.
pub data Happening : Type 0 where
  stops : StopStep → Happening
  threads : String → ℕ → Happening
  exits : ℤ → Happening
  terminates : String → Happening
  prints : String → String → Happening
  runner_exits : ℤ → Happening
  asks_end : Client → Happening
  marks_end : String → String → Happening
  tears_down : Happening
  ends : String → Happening
  asks : ExecRequest → ℕ → Happening
  sends : ExecKind → Happening
  answers : ExecKind → ℕ → Bool → Happening
  calls_lease : LeaseCall → Happening

unfoldable pub happen : Execution → ℕ → Happening → Execution
happen x now (stops s) = record x { program = stop_step x.program now s }
happen x now (threads reason id) =
    log_event x now (record blank { kind = event_thread; reason = reason; thread_id = id })
happen x now (exits code) = on_exited x now code
happen x now (terminates def) = on_terminated x now def
happen x now (prints category text) = append_output x now category text
happen x now (runner_exits code) = finish_run x now code
happen x now (asks_end c) = (ask_terminate x now c).0
happen x now (marks_end by reason) = mark_stopping x by reason
happen x now tears_down = (shut_down x).0
happen x now (ends reason) = end_session x now reason
happen x now (asks r pause_thread) = (admit x now r pause_thread).0
happen x now (sends kind) = begin_send x kind
happen x now (answers kind before failed) = end_send x kind before failed
happen x now (calls_lease c) = with_session x (call (session_of x) now c)

unfoldable pub happen_all : Execution → List (ℕ × Happening) → Execution
unfolding happen
happen_all x [] = x
happen_all x ((now, h) ∷ rest) = happen_all (happen x now h) rest
