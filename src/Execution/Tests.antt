-- ===== src/Execution/Tests.antt =====
-- A session's execution, and the theorems on it there.
use eyedebugger.Prelude.{◌≡◌, ◌⊎◌, ◌<◌, refl, true, false, none, List, ℕ, [], ◌∷◌, arith}
use eyedebugger.Api.{Client, StopInfo, running, stopped, exited, lease_handoff, pos, is_exited}
use eyedebugger.EventLog.{EventLog}
use eyedebugger.Session.{Session, lease_held}
use eyedebugger.Stops.{on_stopped, apply_stop, publish, pending}
use eyedebugger.Stops.Superseded.{reports, publishes, stop_step}
use eyedebugger.Stops.Kept.{is_stopped}
use eyedebugger.Execution.{Execution, number_text}
use eyedebugger.Execution.Requests.{
  exec_continue, exec_next, ExecRequest, Refusal, end_send, has_stopped, unsupported, lease_refusal,
}
use eyedebugger.Execution.Steps.{
  Happening, stops, exits, terminates, asks_end, marks_end, tears_down, ends, happen_all,
}
use eyedebugger.Execution.Ended.{IsOrderly, EndsOnce, happen_all-EndsOnce}
use eyedebugger.Execution.Resumed.{end_send-fresh}
use eyedebugger.Execution.Admitted.{IsStateError, Refuses, Admits, CannotPause, Comes, admit_lem}
use eyedebugger.Lease.Logged.{KeptFrom, MayHold}

abbrev ann : Client
ann = record { id = "human:ann"; kind = "human"; name = "ann" }

abbrev bot : Client
bot = record { id = "agent:bot"; kind = "agent"; name = "bot" }

abbrev step_hit : StopInfo
step_hit = record {
  reason = "step";
  thread_id = 7;
  description = "";
  text = "";
  all_threads_stopped = true;
  breakpoints = [];
}

abbrev recorded_log : EventLog
recorded_log = record {
  max_count = 100;
  max_bytes = 100000;
  events = [];
  bytes = 0;
  seq = 0;
  changed = 0;
  sink = true;
  recorded = [];
}

abbrev quiet : Session
quiet = record {
  state = running;
  lease = record { policy = lease_handoff; holder = ann; since = 0; requests = [] };
  log = recorded_log;
  clients = [];
  presence = [];
  conn_gen = 0;
  bps = [];
  next_bp = 0;
  exc_modes = [];
}

abbrev halted : Execution
halted = record {
  setup = record { mode = "launch"; runner = none; exit_code_unknown = ""; pause_unsupported = "" };
  session = quiet;
  program = record {
    state = stopped;
    stops = 2;
    stop = step_hit;
    stopped_at = 0;
    stop_gen = 2;
    stepping = false;
    pause_requested = false;
    exec_in_flight = false;
    bps = [];
    log = recorded_log;
  };
  resumed_at = 0;
  last_output = 0;
  exit_code = none;
  program_exited = false;
  end_reason = "";
  stopping = "";
  stop_reason = "";
  torn_down = false;
}

-- ann stops the program while it exits: the adapter reports the end, and the teardown asks for one too.
abbrev stop_race : List (ℕ × Happening)
stop_race =
    (1, asks_end ann)
    ∷ (2, marks_end "human:ann" "stopped by human:ann")
    ∷ (3, exits (pos 0))
    ∷ (4, terminates "the program ended")
    ∷ (5, tears_down)
    ∷ (6, ends "stopped by human:ann")
    ∷ []

number_text-4096 : number_text (pos 4096) ≡ "4096"
unfolding number_text
number_text-4096 = refl

stop_race-IsOrderly : IsOrderly halted stop_race
unfolding IsOrderly
stop_race-IsOrderly =
    (λ _. refl, (λ _. refl, (λ _. refl, (λ _. refl, (λ _. refl, (λ _. refl, tt))))))

happen_all-EndsOnce_example :
    EndsOnce (happen_all halted stop_race)
    × (is_exited halted.program.state ≡ true
        → (is_exited (happen_all halted stop_race).program.state ≡ true)
          × ((happen_all halted stop_race).end_reason ≡ halted.end_reason))
happen_all-EndsOnce_example = happen_all-EndsOnce halted stop_race (refl, refl) stop_race-IsOrderly

abbrev stepped : List (ℕ × Happening)
stepped = (4, stops (reports step_hit)) ∷ []

stepped-stopped :
    is_stopped (happen_all (end_send halted exec_next 2 false) stepped).program.state ≡ true
unfolding happen_all on_stopped apply_stop stop_step end_send
stepped-stopped = refl

end_send-fresh_example :
    (2 < (happen_all (end_send halted exec_next 2 false) stepped).program.stops)
    × (has_stopped (happen_all (end_send halted exec_next 2 false) stepped) 2 ≡ true)
end_send-fresh_example =
    end_send-fresh 2 halted exec_next stepped refl (omega arith) stepped-stopped

-- The agent asks to go on while ann holds the lease.
abbrev wish : ExecRequest
wish = record { client = bot; kind = exec_continue; thread = 0; text = "" }

admit_lem_example :
    (Refuses halted 3 wish 0 unsupported × CannotPause halted wish)
    ⊎ ((why : Refusal) × Refuses halted 3 wish 0 why
        × IsStateError stopped why
        × Comes halted wish false)
    ⊎ (Refuses halted 3 wish 0 (lease_refusal (lease_held "human:ann" lease_handoff))
        × Comes halted wish true
        × KeptFrom halted.session.lease bot)
    ⊎ (Admits halted 3 wish 0 × Comes halted wish true × MayHold halted.session.lease bot)
admit_lem_example = admit_lem halted 3 wish 0

-- Why the adapter must report no stop after the end: a stop that is not held is applied to an ended
-- session too, unlike one that comes through the filter.
late_stop :
    (happen_all
      (record halted { program = record halted.program { state = exited } })
      stepped).program.state
    ≡ stopped
unfolding happen_all on_stopped apply_stop stop_step
late_stop = refl

late_publish :
    (happen_all
      (record halted { program = record halted.program { state = exited } })
      ((4, stops (publishes 2 step_hit "")) ∷ [])).program.state
    ≡ exited
unfolding happen_all stop_step publish pending
late_publish = refl
