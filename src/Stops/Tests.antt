-- ===== src/Stops/Tests.antt =====
-- A program's stops, and the theorem on superseded ones there.
use eyedebugger.Prelude.{◌≡◌, true, false, none, [], ◌∷◌, arith}
use eyedebugger.Api.{StopInfo, running}
use eyedebugger.EventLog.{new_event_log}
use eyedebugger.Stops.{Program, publish, begin_continue, end_continue}
use eyedebugger.Stops.Superseded.{stop_step, stop_steps, reports, resumes, stop_steps-superseded}

abbrev hit : StopInfo
hit = record {
  reason = "breakpoint";
  thread_id = 1;
  description = "";
  text = "";
  all_threads_stopped = true;
  breakpoints = [];
}

abbrev program : Program
program = record {
  state = running;
  stops = 0;
  stop = hit;
  stopped_at = 0;
  stop_gen = 3;
  stepping = false;
  pause_requested = false;
  exec_in_flight = false;
  bps = [];
  log = new_event_log 100 100000;
}

stop_steps-superseded_example :
    let q = stop_steps (stop_step program 5 (resumes 1)) ((6, reports hit) ∷ []) in
    (publish q 7 3 hit "" ≡ q)
    × (begin_continue q 3 ≡ none)
    × (end_continue q 7 3 hit true ≡ record q { exec_in_flight = false })
stop_steps-superseded_example =
    stop_steps-superseded program 3 5 1 ((6, reports hit) ∷ []) 7 hit "" true (omega arith)
