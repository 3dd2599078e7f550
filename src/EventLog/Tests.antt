-- ===== src/EventLog/Tests.antt =====
-- Runs of the event log, and its theorems at concrete logs.
use eyedebugger.Prelude.{ℕ, ◌≡◌, refl, true, false, List, [], ◌∷◌, ◌++◌, length}
use eyedebugger.Api.{pos, negsuc, Event, EventsParams, blank, event_client, event_output}
use eyedebugger.EventLog.{
  EventLog, new_event_log, set_sink, append, query, select, since_of, event_limit, matches, trim,
  event_size, stamp,
}
use eyedebugger.EventLog.Invariant.{IsValid, append-IsValid}
use eyedebugger.EventLog.Query.{Answers, query-Answers, wanted}
use eyedebugger.EventLog.Pages.{query-resume}
use eyedebugger.EventLog.History.{append_all, history-IsWindow}
use eyedebugger.EventLog.Waiting.{Ends, wait, log_at_end, wait-Ends}

abbrev said : Event
said = record blank { kind = event_output; category = "stdout"; text = "hello" }

abbrev came : Event
came = record blank { kind = event_client; client = "agent" }

abbrev script : List (ℕ × Event)
script = (10, came) ∷ (11, said) ∷ (12, said) ∷ (13, came) ∷ []

-- A log of at most three events: the first of the four is gone.
abbrev small : EventLog
small = append_all (set_sink (new_event_log 3 100000)) script

-- The same with an ample bound.
abbrev ample : EventLog
ample = append_all (set_sink (new_event_log 10 100000)) script

abbrev one_output : EventsParams
one_output = record { since = pos 0; newest = false; limit = pos 1; kinds = event_output ∷ [] }

abbrev newest_two : EventsParams
newest_two = record { since = pos 0; newest = true; limit = pos 2; kinds = [] }

abbrev from_now : EventsParams
from_now = record { since = negsuc 0; newest = false; limit = pos 0; kinds = event_output ∷ [] }

seqs : List Event → List ℕ
seqs [] = []
seqs (e ∷ es) = e.seq ∷ seqs es

small_seqs : seqs small.events ≡ 2 ∷ 3 ∷ 4 ∷ []
unfolding seqs append trim event_size stamp new_event_log set_sink
small_seqs = refl

small_dropped : (query small one_output).dropped ≡ 1
unfolding append trim event_size stamp new_event_log set_sink query select matches event_limit
small_dropped = refl

newest_seqs : seqs (query small newest_two).events ≡ 3 ∷ 4 ∷ []
unfolding seqs append trim event_size stamp new_event_log set_sink query select matches event_limit
newest_seqs = refl

byte_bound : length (append_all (new_event_log 10 200) script).events ≡ 1
unfolding append trim event_size stamp new_event_log
byte_bound = refl

small-IsValid : IsValid small
small-IsValid = (history-IsWindow 3 100000 script).0

ample-IsValid : IsValid ample
ample-IsValid = (history-IsWindow 10 100000 script).0

append-IsValid_example : IsValid (append small 14 said)
append-IsValid_example = append-IsValid small 14 said small-IsValid

query-Answers_example : Answers small one_output
query-Answers_example = query-Answers small one_output small-IsValid

query-resume_example :
    wanted small 0 (event_output ∷ [])
    ≡ (query small one_output).events ++ wanted small 2 (event_output ∷ [])
unfolding append trim event_size stamp new_event_log set_sink query select matches event_limit
query-resume_example =
    query-resume small one_output 0 [] (record said { seq = 2; time = 11 }) small-IsValid refl refl
      refl

wait-Ends_example :
    Ends from_now
      (since_of small (negsuc 0))
      (log_at_end small (((14, came) ∷ []) ∷ []) ((15, said) ∷ []))
      (wait small from_now (((14, came) ∷ []) ∷ []) ((15, said) ∷ []))
wait-Ends_example =
    wait-Ends small from_now (((14, came) ∷ []) ∷ []) ((15, said) ∷ []) small-IsValid
