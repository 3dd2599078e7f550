-- ===== src/Presence/Tests.antt =====
-- Runs of editor connections, and their theorems at a concrete session.
use eyedebugger.Prelude.{ℕ, ◌≡◌, refl, true, false, some, List, [], ◌∷◌, arith}
use eyedebugger.Api.{Client, Breakpoint, lease_free, running}
use eyedebugger.EventLog.{new_event_log}
use eyedebugger.Session.{Session}
use eyedebugger.Presence.{
  find, connect, finish_leave, has_left, resets, departed, touch, seen, entry, note, put, decrement,
  delete,
}
use eyedebugger.Presence.World.{
  World, Move, connects, closes, exits, move, moves, close_at, IsCounted, moves-IsCounted,
}
use eyedebugger.Presence.Stale.{moves-overtaken}

abbrev ann : Client
ann = record { id = "human:ann"; kind = "human"; name = "ann" }

abbrev agent : Client
agent = record { id = "agent"; kind = "agent"; name = "" }

-- Ann's only editor connection of generation 1 closed, and ann holds the lease.
abbrev left_behind : Session
left_behind = record {
  state = running;
  lease = record { policy = lease_free; holder = ann; since = 0; requests = [] };
  log = new_event_log 100 100000;
  clients = [];
  presence = ("human:ann", record { conns = 0; gen = 1; exc_set = false }) ∷ [];
  conn_gen = 1;
  bps = [];
  next_bp = 0;
  exc_modes = [];
}

abbrev point : Breakpoint
point = record {
  id = 1;
  file = "/a.cs";
  requested_line = 3;
  line = 3;
  verified = true;
  message = "";
  condition = "";
  temporary = false;
  owner = "human:ann";
  created_at = 0;
  note = "";
  function = "";
  anchor = "";
  hit_condition = "";
  log_message = "";
  hits = 0;
  editor = true;
}

abbrev holding : Session
holding = record left_behind {
  bps =
      ("/a.cs", point ∷ record point { id = 2; editor = false } ∷ [])
      ∷ ("/b.cs", record point { id = 3 } ∷ [])
      ∷ [];
}

abbrev empty : World
empty = record { session = record left_behind { presence = []; conn_gen = 0 }; handles = [] }

-- Two connections of ann and one of the agent; one of ann's closes.
abbrev coming_and_going : List (ℕ × Move)
coming_and_going =
    (1, connects ann)
    ∷ (2, connects agent)
    ∷ (3, connects ann)
    ∷ (4, closes 0 false)
    ∷ (5, exits)
    ∷ []

counted :
    find "human:ann" (moves empty coming_and_going).session.presence
    ≡ some (record { conns = 1; gen = 3; exc_set = false })
unfolding find moves move connect touch seen entry note put close_at decrement delete
counted = refl

empty-IsCounted : IsCounted empty
unfolding find
empty-IsCounted id = refl

moves-IsCounted_example : IsCounted (moves empty coming_and_going)
moves-IsCounted_example = moves-IsCounted empty coming_and_going empty-IsCounted

due : has_left left_behind "human:ann" 1 ≡ true
unfolding has_left find
due = refl

moves-overtaken_example :
    let s =
      (moves
        (move (record { session = left_behind; handles = [] }) 7 (connects ann))
        ((8, closes 0 false) ∷ [])).session in
    (finish_leave s 9 "human:ann" 1 ≡ s)
    × (resets s "human:ann" 1 ≡ false)
    × (departed s "human:ann" 1 point ≡ false)
moves-overtaken_example =
    moves-overtaken (record { session = left_behind; handles = [] }) 1 7 ann
      ((8, closes 0 false) ∷ []) 9 point (omega arith)
