-- ===== src/Stops.antt =====
-- internal/session/emulate.go and session.go: how a stop that the adapter reports becomes the
-- session's, past the stop filter. The filter runs beside the session, and what it does under the
-- session's mutex are steps of their own; what it decides comes from StopFilter.antt.
pub mod Superseded
pub mod Kept
mod Tests
use eyedebugger.Prelude.{
  ℕ, suc, ◌+◌, String, Bool, true, false, not, ◌&&◌, ◌||◌, Option, none, some, List, [], ◌∷◌, ◌==◌,
  map, any, str_eq, if◌then◌else◌,
}
use eyedebugger.Api.{
  SessionState, running, stopped, is_exited, StopInfo, Event, blank, event_output, event_stopped,
  event_continued,
}
use eyedebugger.EventLog.{EventLog, append}
use eyedebugger.StopFilter.{
  Point, LogPart, PlanRecord, needs_filter, plan, held, decide, stops, nonempty, attribution,
}

-- The fields of `Session` on the program's stops.
pub record Program : Type 0 where
  pub state : SessionState
  pub stops : ℕ
  pub stop : StopInfo
  pub stopped_at : ℕ
  pub stop_gen : ℕ
  pub stepping : Bool
  pub pause_requested : Bool
  pub exec_in_flight : Bool
  pub bps : List (String × List Point)
  pub log : EventLog

abbrev pub reason_breakpoint : String
reason_breakpoint = "breakpoint"

abbrev pub reason_pause : String
reason_pause = "pause"

-- `pendingLocked`.
unfoldable pub pending : Program → ℕ → Bool
pending p gen = p.stop_gen == gen && not (is_exited p.state)

-- `applyStopLocked`.
unfoldable pub apply_stop : Program → ℕ → StopInfo → Program
apply_stop p now stop = record p {
  stops = p.stops + 1;
  stop = stop;
  stopped_at = now;
  stepping = false;
  pause_requested = false;
  state = stopped;
  log = append p.log now (record blank { kind = event_stopped; stop = some stop });
}

-- `publish`.
unfoldable pub publish : Program → ℕ → ℕ → StopInfo → String → Program
unfolding pending apply_stop
publish p now gen stop desc =
    let described = if str_eq desc "" then stop else record stop { description = desc } in
    if not (pending p gen) then p else apply_stop p now described

-- `pauseSignal`, of internal/session/exceptions.go.
pub pause_signal : StopInfo → Bool
pause_signal stop = str_eq stop.reason "exception" && str_eq stop.description "signal SIGSTOP"

-- `onStoppedLocked`: with the generation and the stop that go to the filter.
unfoldable pub on_stopped : Program → ℕ → StopInfo → Program × Option (ℕ × StopInfo)
unfolding apply_stop pause_signal
on_stopped p now body =
    let q = record p { stop_gen = suc p.stop_gen } in
    let stop =
      if p.pause_requested && pause_signal body
      then record body { reason = reason_pause }
      else body in
    if str_eq stop.reason reason_breakpoint && needs_filter p.bps
    then (q, some (q.stop_gen, stop))
    else (apply_stop q now stop, none)

-- `onContinuedLocked`.
pub on_continued : Program → ℕ → ℕ → Program
on_continued p now thread =
    let q = record p {
      stop_gen = suc p.stop_gen;
      state = elim p.state [ stopped ↦ running | _ ↦ p.state ];
    } in
    if not p.exec_in_flight
    then record q {
      log = append q.log now (record blank { kind = event_continued; thread_id = thread });
    }
    else q

abbrev pub step_ended_description : String
step_ended_description =
    "the step ended at a breakpoint that doesn't stop here (a logpoint, an unmet hit count or a condition that doesn't hold)"

abbrev pub paused_description : String
paused_description =
    "paused at a breakpoint that doesn't stop here (a logpoint, an unmet hit count or a condition that doesn't hold)"

-- `publishReasonLocked`.
pub publish_reason : Program → Bool → String
publish_reason p stop =
    if stop
    then ""
    else if p.stepping
    then step_ended_description
    else if p.pause_requested
    then paused_description
    else ""

-- The first locked part of `autoContinue`: none if the stop is no longer pending.
pub begin_continue : Program → ℕ → Option Program
unfolding pending
begin_continue p gen =
    if not (pending p gen) then none else some (record p { exec_in_flight = true })

-- The rest of `autoContinue`, once the adapter answered.
pub end_continue : Program → ℕ → ℕ → StopInfo → Bool → Program
unfolding publish
end_continue p now gen stop failed =
    let q = record p { exec_in_flight = false } in if failed then publish q now gen stop "" else q

-- `r.b.Hits++` for each record that counted a hit; ids are unique.
pub count_hits : List PlanRecord → List Point → List Point
count_hits hit [] = []
count_hits hit (b ∷ bs) =
    let rest = count_hits hit bs in
    if any (λ (r : PlanRecord). r.b.breakpoint.id == b.breakpoint.id) hit
    then record b { breakpoint = record b.breakpoint { hits = b.breakpoint.hits + 1 } } ∷ rest
    else b ∷ rest

pub count_all : List PlanRecord → List (String × List Point) → List (String × List Point)
unfolding count_hits
count_all hit [] = []
count_all hit ((key, list) ∷ bps) = (key, count_hits hit list) ∷ count_all hit bps

-- The messages of a stop, logged as output.
pub log_messages : EventLog → ℕ → List String → EventLog
log_messages log now [] = log
log_messages log now (m ∷ ms) =
    log_messages
      (append log now (record blank { kind = event_output; category = "logpoint"; text = m })) now
      ms

-- `filterStop` where nothing comes between its steps. What the adapter answers: the line of the
-- stopped frame and the breakpoints of its file (none if there is no frame), what a condition's text
-- evaluates to, what a message renders to, and whether it fails to continue.
pub filter_stop :
    Program
    → ℕ
    → ℕ
    → StopInfo
    → Option (ℕ × (Point → Bool))
    → (String → Bool)
    → (List LogPart → String)
    → Bool
    → Program
unfolding pending publish publish_reason begin_continue end_continue count_all log_messages
filter_stop p now gen stop none f render failed =
    if not (pending p gen) then p else publish p now gen stop ""
filter_stop p now gen stop (some (line, at)) f render failed =
    let records = plan line at p.bps in
    let d = decide records (held f records) in
    let q = record p {
      bps = count_all d.hit p.bps;
      log = log_messages p.log now (map (λ (r : PlanRecord). render r.log) d.logs);
    } in
    let desc = publish_reason p (stops d) in
    let named = if stops d then record stop { breakpoints = attribution d.stop_for } else stop in
    if not (pending p gen)
    then p
    else if not (nonempty records)
    then publish p now gen stop ""
    else if stops d || not (str_eq desc "")
    then publish q now gen named desc
    else elim (begin_continue q gen) [ none ↦ q | some r ↦ end_continue r now gen named failed ]
