-- ===== src/Api.antt =====
-- The types that clients and the daemon exchange: internal/api/client.go, lease.go, events.go and
-- the breakpoint and stop types of session.go. A Go string type is `String`, a time is a number,
-- a zero value is an abbreviation named for what it lacks.
mod Int
pub use Int.*
use eyedebugger.Prelude.{ℕ, String, Bool, true, false, ◌||◌, Option, none, List, [], str_eq}

-- `Client`: the id is the canonical form "agent", "agent:claude", "human:ijat".
pub record Client : Type 0 where
  pub id : String
  pub kind : String
  pub name : String

abbrev pub kind_human : String
kind_human = "human"

abbrev pub kind_agent : String
kind_agent = "agent"

-- `Client{}`: nobody.
abbrev pub nobody : Client
nobody = record { id = ""; kind = ""; name = "" }

abbrev pub is_human : Client → Bool
is_human c = str_eq c.kind kind_human

-- `ClientInfo`.
pub record ClientInfo : Type 0 where
  pub client : Client
  pub first_seen : ℕ
  pub last_seen : ℕ
  pub connected : ℕ

-- `LeasePolicy` is a string type.
abbrev pub LeasePolicy : Type 0
LeasePolicy = String

abbrev pub lease_free : LeasePolicy
lease_free = "free"

abbrev pub lease_handoff : LeasePolicy
lease_handoff = "handoff"

abbrev pub lease_human_priority : LeasePolicy
lease_human_priority = "human-priority"

-- `LeaseRequest` and `LeaseInfo`.
pub record LeaseRequest : Type 0 where
  pub client : String
  pub message : String
  pub at : ℕ

pub record LeaseInfo : Type 0 where
  pub policy : LeasePolicy
  pub holder : String
  pub since : Option ℕ
  pub requests : List LeaseRequest

-- `StopBreakpoint` and `StopInfo`.
pub record StopBreakpoint : Type 0 where
  pub id : ℕ
  pub owner : String

pub record StopInfo : Type 0 where
  pub reason : String
  pub thread_id : ℕ
  pub description : String
  pub text : String
  pub all_threads_stopped : Bool
  pub breakpoints : List StopBreakpoint

-- `BreakpointSpec`.
pub record BreakpointSpec : Type 0 where
  pub file : String
  pub line : ℕ
  pub condition : String
  pub function : String
  pub anchor : String
  pub hit_condition : String
  pub log_message : String

-- `Breakpoint`.
pub record Breakpoint : Type 0 where
  pub id : ℕ
  pub file : String
  pub requested_line : ℕ
  pub line : ℕ
  pub verified : Bool
  pub message : String
  pub condition : String
  pub temporary : Bool
  pub owner : String
  pub created_at : ℕ
  pub note : String
  pub function : String
  pub anchor : String
  pub hit_condition : String
  pub log_message : String
  pub hits : ℕ
  pub editor : Bool

-- `EventKind` is a string type; the constants that the modelled code uses.
abbrev pub EventKind : Type 0
EventKind = String

abbrev pub event_client : EventKind
event_client = "client"

abbrev pub event_lease : EventKind
event_lease = "lease"

abbrev pub event_output : EventKind
event_output = "output"

abbrev pub event_breakpoint : EventKind
event_breakpoint = "breakpoint"

abbrev pub event_continued : EventKind
event_continued = "continued"

abbrev pub event_exec : EventKind
event_exec = "exec"

abbrev pub event_thread : EventKind
event_thread = "thread"

abbrev pub event_exited : EventKind
event_exited = "exited"

abbrev pub event_ended : EventKind
event_ended = "ended"

abbrev pub event_stopped : EventKind
event_stopped = "stopped"

abbrev pub event_exceptions : EventKind
event_exceptions = "exceptions"

-- `Event`.
pub record Event : Type 0 where
  pub seq : ℕ
  pub time : ℕ
  pub kind : EventKind
  pub client : String
  pub action : String
  pub program : String
  pub lease : Option LeaseInfo
  pub previous : String
  pub stop : Option StopInfo
  pub thread_id : ℕ
  pub reason : String
  pub category : String
  pub text : String
  pub truncated : Bool
  pub breakpoint : Option Breakpoint
  pub exit_code : Option ℤ

-- `Event{}`: the zero value that the code fills in.
abbrev pub blank : Event
blank = record {
  seq = 0;
  time = 0;
  kind = "";
  client = "";
  action = "";
  program = "";
  lease = none;
  previous = "";
  stop = none;
  thread_id = 0;
  reason = "";
  category = "";
  text = "";
  truncated = false;
  breakpoint = none;
  exit_code = none;
}

-- `MaxEventsLimit`.
abbrev pub max_events_limit : ℕ
max_events_limit = 1000

-- `EventsParams`, without the session reference; `wait` and `budget` are applied by the callers.
pub record EventsParams : Type 0 where
  pub since : ℤ
  pub newest : Bool
  pub limit : ℤ
  pub kinds : List EventKind

-- `EventsResult`.
pub record EventsResult : Type 0 where
  pub events : List Event
  pub latest : ℕ
  pub dropped : ℕ
  pub more : ℕ
  pub timed_out : Bool

-- `OutputLine`.
pub record OutputLine : Type 0 where
  pub seq : ℕ
  pub category : String
  pub text : String

-- `SessionState`.
pub data SessionState : Type 0 where
  starting running stopped exited lost : SessionState

-- The test `state == StateExited`.
abbrev pub is_exited : SessionState → Bool
is_exited exited = true
is_exited _ = false
