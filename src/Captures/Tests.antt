-- ===== src/Captures/Tests.antt =====
-- A session's captures, and what they are compared with.
use eyedebugger.Prelude.{◌≡◌, refl, none, some, true, false, List, [], ◌∷◌}
use eyedebugger.Api.{running}
use eyedebugger.Present.Budget.{nil}
use eyedebugger.Captures.{StopCapture, begin_capture, mark_stale, end_capture}
use eyedebugger.Captures.Order.{
  World, Turn, stops_now, marks, begins, ends, all_turns, IsOrdered, all_turns-IsOrdered,
}

abbrev fresh : World
fresh = record {
  session = record { state = running; stops = 0; cur = none; prev = none; cur_stale = false };
  flight = none;
  given = [];
}

abbrev read : StopCapture
read = record { stops = 0; function = "main"; file = "/a.cs"; locals = nil; more = 0 }

-- A value is set at the first stop, and the locals are read again while the program stops a second time.
abbrev late_turns : List Turn
late_turns = stops_now ∷ begins ∷ ends read ∷ marks ∷ begins ∷ stops_now ∷ ends read ∷ []

all_turns-IsOrdered_example : IsOrdered (all_turns fresh late_turns)
all_turns-IsOrdered_example = all_turns-IsOrdered fresh late_turns (refl, tt, tt)

-- What the last caller gets is compared with a capture of the same stop.
late_answer :
    (all_turns fresh late_turns).given
    ≡ record {
      cur = record read { stops = 1 };
      prev = some (record read { stops = 1 });
      late = true;
    }
      ∷ record { cur = record read { stops = 1 }; prev = none; late = false }
      ∷ []
unfolding all_turns begin_capture mark_stale end_capture
late_answer = refl
