-- ===== src/Execution/Resumed.antt =====
-- After a resume, the program is seen stopped only at a new stop.
use eyedebugger.Prelude.{
  ℕ, ◌≤◌, ◌<◌, ◌≡◌, subst, String, Bool, true, false, inl, List, [], ◌∷◌, arith,
}
use eyedebugger.Api.{ℤ, Client, Event}
use eyedebugger.Lease.{LeaseCall, call, acquire, acquires}
use eyedebugger.Lease.Logged.{call-state, call-acquires}
use eyedebugger.Session.{Session}
use eyedebugger.Stops.Kept.{is_stopped, Later, stop_step-Later}
use eyedebugger.Execution.{
  Execution, session_of, with_session, log_event, end_session, append_output, on_exited,
  on_terminated, end_run, mark_stopping, shut_down,
}
use eyedebugger.Execution.Requests.{ExecKind, is_pause, begin_send, end_send, has_stopped}
use eyedebugger.Execution.Cases.{finish_run_cases, ask_terminate_cases, admit_cases}
use eyedebugger.Execution.Steps.{
  Happening, stops, threads, exits, terminates, prints, runner_exits, asks_end, marks_end,
  tears_down, ends, asks, sends, answers, calls_lease, happen, happen_all,
}

abbrev Onward : Execution → Execution → Type 0
Onward x y = Later x.program y.program

same-Onward : (x : Execution) → Onward x x
same-Onward x = (omega arith, λ h. inl h)

end_session-Onward :
    (x : Execution) (now : ℕ) (reason : String) → Onward x (end_session x now reason)
unfolding end_session log_event
end_session-Onward x now reason = ground (arith, same-Onward x)

append_output-Onward :
    (x : Execution) (now : ℕ) (category text : String)
    → Onward x (append_output x now category text)
unfolding append_output log_event
append_output-Onward x now category text = ground (arith, same-Onward x)

on_exited-Onward : (x : Execution) (now : ℕ) (code : ℤ) → Onward x (on_exited x now code)
unfolding on_exited log_event
on_exited-Onward x now code = ground (arith, same-Onward x, append_output-Onward x now "console")

on_terminated-Onward : (x : Execution) (now : ℕ) (def : String) → Onward x (on_terminated x now def)
unfolding on_terminated
on_terminated-Onward x now def = ground (arith, same-Onward x, end_session-Onward x now)

end_run-Onward :
    (x : Execution) (now : ℕ) (code : ℤ) (name : String) → Onward x (end_run x now code name)
unfolding end_run log_event
end_run-Onward x now code name = end_session-Onward _ now _

with_session-Onward :
    (x : Execution) (s : Session) → s.state ≡ x.program.state → Onward x (with_session x s)
unfolding with_session
with_session-Onward x s same = (omega arith, λ h. inl (subst (λ t. is_stopped t ≡ true) same h))

call-Onward :
    (x : Execution) (now : ℕ) (c : LeaseCall)
    → Onward x (with_session x (call (session_of x) now c))
unfolding session_of
call-Onward x now c =
    with_session-Onward x (call (session_of x) now c) (call-state (session_of x) now c)

acquire-Onward :
    (x : Execution) (now : ℕ) (c : Client)
    → Onward x (with_session x (acquire (session_of x) now c).0)
acquire-Onward x now c =
    subst (λ s. Onward x (with_session x s)) (call-acquires (session_of x) now c)
      (call-Onward x now (acquires c))

logged-Onward : (x y : Execution) (now : ℕ) (e : Event) → Onward x y → Onward x (log_event y now e)
unfolding log_event
logged-Onward x y now e h = h

mark_stopping-Onward : (x : Execution) (by reason : String) → Onward x (mark_stopping x by reason)
unfolding mark_stopping
mark_stopping-Onward x by reason = ground arith

shut_down-Onward : (x : Execution) → Onward x (shut_down x).0
unfolding shut_down
shut_down-Onward x = ground arith

begin_send-Onward : (x : Execution) (kind : ExecKind) → Onward x (begin_send x kind)
unfolding begin_send
begin_send-Onward x kind = ground arith

end_send-Onward :
    (x : Execution) (kind : ExecKind) (before : ℕ) (failed : Bool)
    → Onward x (end_send x kind before failed)
unfolding end_send
end_send-Onward x kind before failed = ground arith

happen-Onward : (x : Execution) (now : ℕ) (h : Happening) → Onward x (happen x now h)
unfolding happen
happen-Onward x now (stops s) = stop_step-Later x.program now s
happen-Onward x now (threads reason id) = logged-Onward x x now _ (same-Onward x)
happen-Onward x now (exits code) = on_exited-Onward x now code
happen-Onward x now (terminates def) = on_terminated-Onward x now def
happen-Onward x now (prints category text) = append_output-Onward x now category text
happen-Onward x now (runner_exits code) =
    finish_run_cases (Onward x) x now code (same-Onward x) (end_run-Onward x now code)
happen-Onward x now (asks_end c) =
    ask_terminate_cases (Onward x) x now c (same-Onward x) (acquire-Onward x now c)
happen-Onward x now (marks_end by reason) = mark_stopping-Onward x by reason
happen-Onward x now tears_down = shut_down-Onward x
happen-Onward x now (ends reason) = end_session-Onward x now reason
happen-Onward x now (asks r pause_thread) =
    admit_cases (Onward x) x now r pause_thread (same-Onward x)
      (logged-Onward x _ now _ (acquire-Onward x now r.client))
happen-Onward x now (sends kind) = begin_send-Onward x kind
happen-Onward x now (answers kind before failed) = end_send-Onward x kind before failed
happen-Onward x now (calls_lease c) = call-Onward x now c

-- Past the stop number `before`: a stop that is seen is a later one.
abbrev pub IsPast : ℕ → Execution → Type 0
IsPast before x =
    (before ≤ x.program.stops) × (is_stopped x.program.state ≡ true → before < x.program.stops)

Onward-IsPast : (before : ℕ) (x y : Execution) → Onward x y → IsPast before x → IsPast before y
Onward-IsPast before x y on past = ground (arith, on, past)

happen_all-IsPast :
    (before : ℕ) (x : Execution) (hs : List (ℕ × Happening))
    → IsPast before x
    → IsPast before (happen_all x hs)
unfolding happen_all
happen_all-IsPast before x [] past = past
happen_all-IsPast before x ((now, h) ∷ rest) past =
    happen_all-IsPast before (happen x now h) rest
      (Onward-IsPast before x (happen x now h) (happen-Onward x now h) past)

end_send-IsPast :
    (before : ℕ) (x : Execution) (kind : ExecKind)
    → is_pause kind ≡ false
    → before ≤ x.program.stops
    → IsPast before (end_send x kind before false)
unfolding end_send
end_send-IsPast before x kind resumes h = ground (arith, resumes, h)

-- Once the adapter took a resume (a continue, a step or a run-until) that was admitted after
-- `before` stops, no stop that is seen from then on is the old one,
-- whatever happens in whatever order: where the program is stopped, it has stopped since, and what
-- waits for a stop after `before` returns.
pub end_send-fresh :
    (before : ℕ) (x : Execution) (kind : ExecKind) (hs : List (ℕ × Happening))
    → is_pause kind ≡ false
    → before ≤ x.program.stops
    → is_stopped (happen_all (end_send x kind before false) hs).program.state ≡ true
    → (before < (happen_all (end_send x kind before false) hs).program.stops)
      × (has_stopped (happen_all (end_send x kind before false) hs) before ≡ true)
unfolding has_stopped
end_send-fresh before x kind hs resumes h seen =
    let y = happen_all (end_send x kind before false) hs in
    let past =
      happen_all-IsPast before (end_send x kind before false) hs
        (end_send-IsPast before x kind resumes h) in
    (past.1 seen, ground (arith, past.1 seen))
