-- ===== src/Execution.antt =====
-- internal/session/session.go and the end of a run of testrun.go: what becomes of a session's
-- program, from what its adapter reports to the session's end. The lease and the log come from
-- `Session`, the stops from `Program`: both are parts of the code's one `Session`, and the program's
-- state and log are the session's. Each part of a function under the session's mutex is one step.
pub mod Requests
pub mod Steps
pub mod Cases
pub mod Outcome
pub mod Ended
pub mod Admitted
pub mod Resumed
mod Tests
use Prim.Native.Char.{code, len_utf8}
use Prim.Native.String
use eyedebugger.Prelude.{
  ℕ, zero, suc, ◌+◌, ◌-◌, ◌/◌, ◌%◌, String, len, Bool, true, false, not, ◌&&◌, ◌||◌, Option, none,
  some, List, [], ◌∷◌, ◌++◌, ◌==◌, ltb, leb, str_eq, if◌then◌else◌,
}
use eyedebugger.Api.{
  ℤ, pos, negsuc, Client, BreakpointSpec, SessionState, starting, running, stopped, exited, lost,
  is_exited, Event, EventKind, blank, event_output, event_exec, event_exited, event_ended,
}
use eyedebugger.EventLog.{EventLog, append}
use eyedebugger.Session.{Session, Error, Result, ok, err}
use eyedebugger.Lease.{acquire}
use eyedebugger.Stops.{Program}
use eyedebugger.Stops.Kept.{is_stopped}

abbrev pub mode_attach : String
mode_attach = "attach"

abbrev pub mode_test : String
mode_test = "test"

-- What of a session does not change while its program runs: how it got its program, whether a test
-- runner has its own end, and what its adapter cannot do.
pub record Setup : Type 0 where
  pub mode : String
  pub runner : Option String
  pub exit_code_unknown : String
  pub pause_unsupported : String

-- The fields of `Session` on the program's execution; `torn_down` is `ended`.
pub record Execution : Type 0 where
  pub setup : Setup
  pub session : Session
  pub program : Program
  pub resumed_at : ℕ
  pub last_output : ℕ
  pub exit_code : Option ℤ
  pub program_exited : Bool
  pub end_reason : String
  pub stopping : String
  pub stop_reason : String
  pub torn_down : Bool

-- The session with its present state and log.
pub session_of : Execution → Session
session_of x = record x.session { state = x.program.state; log = x.program.log }

pub with_session : Execution → Session → Execution
with_session x s = record x {
  session = s;
  program = record x.program { state = s.state; log = s.log };
}

pub log_event : Execution → ℕ → Event → Execution
log_event x now e = record x { program = record x.program { log = append x.program.log now e } }

-- `%d`.
digit : ℕ → String
digit n =
    if n == 0
    then "0"
    else if n == 1
    then "1"
    else if n == 2
    then "2"
    else if n == 3
    then "3"
    else if n == 4
    then "4"
    else if n == 5
    then "5"
    else if n == 6
    then "6"
    else if n == 7
    then "7"
    else if n == 8
    then "8"
    else "9"

natural_text : ℕ → ℕ → String
unfolding digit
natural_text zero n = ""
natural_text (suc fuel) n =
    let front = natural_text fuel (n / 10) in
    if ltb n 10 then digit n else String.◌++◌ front (digit (n % 10))

pub number_text : ℤ → String
unfolding natural_text
number_text (pos n) = natural_text (suc n) n
number_text (negsuc n) = String.◌++◌ "-" (natural_text (suc (suc n)) (suc n))

abbrev pub is_launched_test : Setup → Bool
is_launched_test s = str_eq s.mode mode_test && elim s.runner [ none ↦ true | some name ↦ false ]

-- `endReasonLocked`.
pub end_reason_of : Execution → String → String
unfolding number_text
end_reason_of x def =
    let unsure =
      if x.program_exited
      then String.◌++◌ def
          (String.◌++◌ "; its exit code is unknown (" (String.◌++◌ x.setup.exit_code_unknown ")"))
      else def in
    if is_launched_test x.setup
    then elim x.exit_code [
      | some code ↦
          String.◌++◌ "the test run finished: the test app exited with code " (number_text code)
      | none ↦
          if x.program_exited
          then String.◌++◌ "the test run finished; the test app's exit code is unknown ("
              (String.◌++◌ x.setup.exit_code_unknown "): read the test output for the result")
          else unsure
    ]
    else unsure

-- `endLocked`; the teardown that it starts is a step of its own.
pub end_session : Execution → ℕ → String → Execution
unfolding log_event
end_session x now reason =
    let why = if str_eq x.stop_reason "" then reason else x.stop_reason in
    let over = record x { end_reason = why; program = record x.program { state = exited } } in
    if is_exited x.program.state
    then x
    else log_event over now (record blank { kind = event_ended; reason = why; client = x.stopping })

abbrev pub max_output_chunk : ℕ
max_output_chunk = 65536

-- `CutText` from the start of a text, rune by rune.
pub cut_start : String → ℕ → String
cut_start String.[] n = ""
cut_start (String.◌∷◌ c s) n =
    let rest = cut_start s (n - len_utf8 c) in if leb (len_utf8 c) n then String.◌∷◌ c rest else ""

-- `appendOutputLocked`.
pub append_output : Execution → ℕ → String → String → Execution
unfolding cut_start log_event
append_output x now category text =
    let cut = cut_start text max_output_chunk in
    let logged = log_event x now (record blank {
      kind = event_output;
      category = if str_eq category "" then "console" else category;
      text = cut;
      truncated = ltb (len cut) (len text);
    }) in
    if str_eq category "telemetry" || str_eq text ""
    then x
    else record logged { last_output = logged.program.log.seq }

-- `onExitedLocked`.
pub on_exited : Execution → ℕ → ℤ → Execution
unfolding append_output log_event number_text
on_exited x now code =
    let trusted = str_eq x.setup.exit_code_unknown "" in
    let coded =
      log_event (record x { exit_code = some code }) now
        (record blank { kind = event_exited; exit_code = some code }) in
    let uncoded =
      log_event (record x { program_exited = true }) now (record blank { kind = event_exited }) in
    let host = append_output x now "console" (
      if trusted
      then String.◌++◌ "eyedbg: the test host exited with code "
          (String.◌++◌ (number_text code) "\n")
      else "eyedbg: the test host exited\n") in
    elim x.setup.runner [ some name ↦ host | none ↦ if trusted then coded else uncoded ]

-- The case of a terminated event in `onEvent`, and what `watchAdapter` does once the adapter is gone:
-- a session with a runner ends with that.
pub on_terminated : Execution → ℕ → String → Execution
unfolding end_session end_reason_of
on_terminated x now def = elim x.setup.runner [
  | some name ↦ x
  | none ↦ end_session x now (end_reason_of x def)
]

-- The exit that `finishRun` logs for the runner `name`, and the end with it.
pub end_run : Execution → ℕ → ℤ → String → Execution
unfolding end_session log_event number_text
end_run x now code name =
    end_session
      (log_event (record x { exit_code = some code }) now
        (record blank { kind = event_exited; exit_code = some code }))
      now
      (String.◌++◌ "the test run finished: "
        (String.◌++◌ name (String.◌++◌ " exited with code " (number_text code))))

-- `finishRun`, once the runner exited.
pub finish_run : Execution → ℕ → ℤ → Execution
unfolding end_run
finish_run x now code = elim x.setup.runner [
  | none ↦ x
  | some name ↦ if is_exited x.program.state then x else end_run x now code name
]

-- `endedBy`.
pub ended_by : Setup → String → String
ended_by s by =
    let who = if str_eq by "" then "the daemon" else by in
    if str_eq s.mode mode_attach
    then String.◌++◌ "detached by " (String.◌++◌ who " (the program keeps running)")
    else String.◌++◌ "stopped by " who

-- The first part of `Terminate`: the lease is asked for while the program is live.
pub ask_terminate : Execution → ℕ → Client → Execution × Result (Unit {0})
unfolding session_of with_session
ask_terminate x now c =
    let (s, r) = acquire (session_of x) now c in
    if is_exited x.program.state then (x, ok tt) else (with_session x s, r)

-- The first locked part of `terminate`: who ends the session and why, said once.
pub mark_stopping : Execution → String → String → Execution
mark_stopping x by reason =
    if not (is_exited x.program.state) && str_eq x.stop_reason ""
    then record x { stopping = by; stop_reason = reason }
    else x

-- The first part of `shutdownAdapter`: whether the caller is the one that disconnects.
pub shut_down : Execution → Execution × Bool
shut_down x = if x.torn_down then (x, false) else (record x { torn_down = true }, true)
