-- ===== src/Captures.antt =====
-- internal/session/session.go: the captures of a stop's locals, which the changes since the previous
-- stop are taken from, and `markStale` of internal/session/evalset.go. captureMu lets one capture run at a time; the program
-- goes on meanwhile. What the adapter answers for the locals is a parameter.
pub mod Order
mod Tests
use eyedebugger.Prelude.{
  ℕ, suc, ◌+◌, String, Bool, true, false, not, ◌&&◌, ◌||◌, Option, none, some, List, [], ◌∷◌, ◌++◌,
  ◌==◌, str_eq, ltb, if◌then◌else◌,
}
use eyedebugger.Api.{SessionState, stopped, running, exited}
use eyedebugger.Present.Budget.{Vars, nil}
use eyedebugger.Present.Difference.{diff}
use eyedebugger.Stops.Kept.{is_stopped}

-- `stopCapture`, with what `changes` reads of the frame.
pub record StopCapture : Type 0 where
  pub stops : ℕ
  pub function : String
  pub file : String
  pub locals : Vars
  pub more : ℕ

-- The fields of `Session` that a capture uses.
pub record Captures : Type 0 where
  pub state : SessionState
  pub stops : ℕ
  pub cur : Option StopCapture
  pub prev : Option StopCapture
  pub cur_stale : Bool

-- `changes`: whether the frame is new, and the variables.
pub changes : StopCapture → Option StopCapture → Bool × Vars
changes cur none = (true, diff nil cur.locals)
changes cur (some prev) =
    if not (str_eq prev.function cur.function) || not (str_eq prev.file cur.file)
    then (true, diff nil cur.locals)
    else (false, diff prev.locals cur.locals)

-- What the first locked part of `capture` leads to: the captures kept, an error, or a request for
-- the locals of the stop of that number.
pub data Begun : Type 0 where
  answers : StopCapture → Option StopCapture → Begun
  not_stopped : Begun
  fetches : ℕ → Begun

pub begin_capture : Captures → Begun
begin_capture s =
    let asks = if not (is_stopped s.state) then not_stopped else fetches s.stops in
    elim s.cur [
      | some c ↦ if c.stops == s.stops && not s.cur_stale then answers c s.prev else asks
      | none ↦ asks
    ]

-- The captures to compare with, once the locals of the stop `k` are read: a second capture of one
-- stop keeps what the first was compared with.
pub older : Option StopCapture → Option StopCapture → ℕ → Option StopCapture
older none prev k = none
older (some c) prev k = if not (c.stops == k) then some c else prev

-- The other locked part, with the locals `c` that were read for the stop `c.stops`.
pub end_capture : Captures → StopCapture → Captures × (StopCapture × Option StopCapture)
unfolding older
end_capture s c =
    let before = older s.cur s.prev c.stops in
    if not (s.stops == c.stops)
    then (s, (c, s.cur))
    else (record s { prev = before; cur = some c; cur_stale = false }, (c, before))

-- `markStale`.
pub mark_stale : Captures → Captures
mark_stale s = record s { cur_stale = true }
