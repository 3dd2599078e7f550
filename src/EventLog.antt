-- ===== src/EventLog.antt =====
-- internal/session/events.go: a session's event log, a bounded ring of events with a global
-- sequence number. The mutex makes each method one step, so a method is a function of the log.
-- The channel that an append closes and replaces is the number of appends made before it, so the
-- channel that a reader got as `g` is closed when `changed` has passed `g`.
pub mod Invariant
pub mod Asked
pub mod Query
pub mod Outputs
pub mod Pages
pub mod History
pub mod Waiting
pub mod Kinds
mod Tests
use eyedebugger.Prelude.{
  ℕ, zero, suc, ◌+◌, ◌-◌, min, len, Bool, true, false, ◌&&◌, ◌||◌, Option, none, some, List, [],
  ◌∷◌, ◌++◌, reverse, ltb, length, drop, any, str_eq, if◌then◌else◌,
}
use eyedebugger.Api.{
  ℤ, pos, negsuc, Event, EventKind, EventsParams, EventsResult, OutputLine, StopInfo,
  StopBreakpoint, Breakpoint, LeaseInfo, event_output, max_events_limit,
}

abbrev pub max_events : ℕ
max_events = 10000

-- 8 << 20
abbrev pub max_event_bytes : ℕ
max_event_bytes = 8388608

abbrev pub event_overhead : ℕ
event_overhead = 128

abbrev pub default_event_limit : ℕ
default_event_limit = 100

-- `eventLog`. `sink` says whether a recording is attached; `recorded` is what it was handed.
pub record EventLog : Type 0 where
  pub max_count : ℕ
  pub max_bytes : ℕ
  pub events : List Event
  pub bytes : ℕ
  pub seq : ℕ
  pub changed : ℕ
  pub sink : Bool
  pub recorded : List Event

pub new_event_log : ℕ → ℕ → EventLog
new_event_log max_count max_bytes = record {
  max_count = max_count;
  max_bytes = max_bytes;
  events = [];
  bytes = 0;
  seq = 0;
  changed = 0;
  sink = false;
  recorded = [];
}

pub set_sink : EventLog → EventLog
set_sink l = record l { sink = true; recorded = [] }

sum_owners : List StopBreakpoint → ℕ
sum_owners [] = 0
sum_owners (b ∷ bs) = len b.owner + 8 + sum_owners bs

stop_size : Option StopInfo → ℕ
stop_size none = 0
stop_size (some s) = len s.reason + len s.description + len s.text + sum_owners s.breakpoints

breakpoint_size : Option Breakpoint → ℕ
breakpoint_size none = 0
breakpoint_size (some b) = len b.file + len b.condition + len b.message + len b.note + len b.owner

lease_size : Option LeaseInfo → ℕ
lease_size none = 0
lease_size (some l) = len l.holder

-- `eventSize`: the strings plus a fixed overhead.
pub event_size : Event → ℕ
unfolding stop_size breakpoint_size lease_size sum_owners
event_size e =
    event_overhead
    + len e.client
    + len e.action
    + len e.program
    + len e.previous
    + len e.reason
    + len e.category
    + len e.text
    + stop_size e.stop
    + breakpoint_size e.breakpoint
    + lease_size e.lease

-- The loop of `trimLocked`: the oldest event goes while more than one is left and a bound is
-- passed. The count that the loop tests is the number of events left.
pub trim : ℕ → ℕ → List Event → ℕ → List Event × ℕ
trim max_count max_bytes [] bytes = ([], bytes)
trim max_count max_bytes (e ∷ []) bytes = (e ∷ [], bytes)
trim max_count max_bytes (e ∷ f ∷ rest) bytes =
    let shorter = trim max_count max_bytes (f ∷ rest) (bytes - event_size e) in
    if ltb max_count (length (e ∷ f ∷ rest)) || ltb max_bytes bytes
    then shorter
    else (e ∷ f ∷ rest, bytes)

-- The event as it is stored: with its seq and its time.
pub stamp : EventLog → ℕ → Event → Event
stamp l now e = record e { seq = suc l.seq; time = now }

-- `append`. `now` is what the log's clock says.
pub append : EventLog → ℕ → Event → EventLog
unfolding stamp
append l now e =
    let stored = stamp l now e in
    let kept =
      trim l.max_count l.max_bytes (l.events ++ stored ∷ []) (l.bytes + event_size stored) in
    record l {
      events = kept.0;
      bytes = kept.1;
      seq = suc l.seq;
      changed = suc l.changed;
      recorded = if l.sink then l.recorded ++ stored ∷ [] else l.recorded;
    }

pub latest : EventLog → ℕ
latest l = l.seq

-- `eventLimit`: the default, and the maximum.
pub event_limit : ℤ → ℕ
event_limit (negsuc n) = default_event_limit
event_limit (pos zero) = default_event_limit
event_limit (pos (suc n)) = min (suc n) max_events_limit

-- Since below 0 means the newest seq.
pub since_of : EventLog → ℤ → ℕ
since_of l (negsuc n) = l.seq
since_of l (pos n) = n

-- The seq of the first event held.
pub first_seq : EventLog → ℕ
first_seq l = l.seq + 1 - length l.events

-- `held`: the events from index min(max(since+1-first, 0), len) on; `-` stops at 0 here.
pub held_after : EventLog → ℕ → List Event
unfolding first_seq
held_after l since = drop (min (since + 1 - first_seq l) (length l.events)) l.events

-- The `match` closure: the kind is asked for, or no kinds are named.
pub matches : List EventKind → Event → Bool
matches [] e = true
matches (k ∷ ks) e = any (λ j. str_eq j e.kind) (k ∷ ks)

-- The loop over the held events, in the order of the list: the first `limit` that match go to the
-- result, the others are counted. `got` holds the result so far.
pub select : ℕ → List EventKind → List Event → List Event → ℕ → List Event × ℕ
select limit kinds [] got more = (got, more)
select limit kinds (e ∷ rest) got more =
    let room = ltb (length got) limit in
    let hit = matches kinds e in
    select limit kinds rest (if hit && room then got ++ e ∷ [] else got)
      (if hit then (if room then more else more + 1) else more)

-- `queryLocked`.
pub query : EventLog → EventsParams → EventsResult
unfolding since_of held_after
query l q =
    let since = since_of l q.since in
    let held = held_after l since in
    let limit = event_limit q.limit in
    let found =
      if q.newest
      then (let r = select limit q.kinds (reverse held) [] 0 in (reverse r.0, r.1))
      else select limit q.kinds held [] 0 in
    record {
      events = found.0;
      latest = l.seq;
      dropped = if ltb (since + 1) (first_seq l) then first_seq l - since - 1 else 0;
      more = found.1;
      timed_out = false;
    }

-- `queryWatch`: the query, and the channel that the next append closes.
pub query_watch : EventLog → EventsParams → EventsResult × ℕ
query_watch l q = (query l q, l.changed)

-- Whether the channel that a reader got is closed by now.
pub is_closed : ℕ → EventLog → Bool
is_closed channel l = ltb channel l.changed

pub output_line : Event → OutputLine
output_line e = record { seq = e.seq; category = e.category; text = e.text }

-- The loop of `outputSince`.
pub outputs : List Event → List OutputLine
unfolding output_line
outputs [] = []
outputs (e ∷ rest) =
    let more = outputs rest in if str_eq e.kind event_output then output_line e ∷ more else more

-- `outputSince`.
pub output_since : EventLog → ℕ → List OutputLine
unfolding held_after outputs
output_since l since = outputs (held_after l since)

-- The loop of `outputUntil`, which breaks at the first event past `seq`.
outputs_until : ℕ → List Event → List OutputLine
outputs_until seq [] = []
outputs_until seq (e ∷ rest) =
    let more = outputs_until seq rest in
    if ltb seq e.seq then [] else if str_eq e.kind event_output then output_line e ∷ more else more

-- `outputUntil`.
pub output_until : EventLog → ℕ → List OutputLine
unfolding outputs_until
output_until l seq = outputs_until seq l.events
