-- ===== src/Breakpoints/Sample.antt =====
-- Sessions with breakpoints, for the tests.
use eyedebugger.Prelude.{ℕ, inl, refl, String, true, false, [], ◌∷◌, arith}
use eyedebugger.Api.{Client, BreakpointSpec, Breakpoint, lease_free, running}
use eyedebugger.EventLog.{new_event_log}
use eyedebugger.Session.{Session}
use eyedebugger.Breakpoints.Steps.{IsNumbered}

abbrev ann : Client
ann = record { id = "human:ann"; kind = "human"; name = "ann" }

abbrev pub bare : Session
bare = record {
  state = running;
  lease = record { policy = lease_free; holder = ann; since = 0; requests = [] };
  log = new_event_log 100 100000;
  clients = [];
  presence = [];
  conn_gen = 0;
  bps = [];
  next_bp = 0;
  exc_modes = [];
}

pub bare-IsNumbered : IsNumbered bare
bare-IsNumbered id = inl refl

abbrev pub at_line : ℕ → String → BreakpointSpec
at_line line condition = record {
  file = "/a.cs";
  line = line;
  condition = condition;
  function = "";
  anchor = "";
  hit_condition = "";
  log_message = "";
}

abbrev pub point : ℕ → ℕ → String → Breakpoint
point id line owner = record {
  id = id;
  file = "/a.cs";
  requested_line = line;
  line = line;
  verified = true;
  message = "";
  condition = "";
  temporary = false;
  owner = owner;
  created_at = 0;
  note = "";
  function = "";
  anchor = "";
  hit_condition = "";
  log_message = "";
  hits = 0;
  editor = true;
}

-- Two breakpoints of ann's editor, at lines 3 and 5, and one of the agent's at line 3.
abbrev pub shared : Session
shared = record bare {
  bps = ("/a.cs", point 1 3 "human:ann" ∷ point 2 3 "agent" ∷ point 3 5 "human:ann" ∷ []) ∷ [];
  next_bp = 3;
}

pub shared-IsNumbered : IsNumbered shared
shared-IsNumbered id = ground arith
