-- ===== src/Calls.antt =====
-- internal/dap/client.go: the requests to an adapter that wait for its responses. What holds a mutex of
-- the client is one step; the callers and the read loop take their steps in any order. A call's channel
-- is named by the seq of its request, and the map `pending` is a mark on the channels it holds. Messages
-- are what the client reads of them; encoding, translation and handlers of events are outside.
pub mod Answered
pub mod Sequence
mod Tests
use eyedebugger.Prelude.{
  ℕ, zero, suc, ◌+◌, String, Bool, true, false, not, ◌&&◌, ◌||◌, Option, none, some, List, [], ◌∷◌,
  ◌++◌, ◌==◌, str_eq, if◌then◌else◌,
}

-- `godap.Response`, with the format of an error response's body.
pub record Response : Type 0 where
  pub request_seq : ℕ
  pub success : Bool
  pub is_error : Bool
  pub message : String
  pub format : Option String

-- A message that an adapter sends, decoded.
pub data Message : Type 0 where
  response : Response → Message
  event : Message
  request : ℕ → Message

-- What a channel holds: nothing yet, a response, or its end.
pub data Box : Type 0 where
  empty : Box
  holds : Response → Box
  closed : Box

-- A call's channel: whether the client still holds it, and whether the call still waits on it.
pub record Channel : Type 0 where
  pub call : ℕ
  pub box : Box
  pub is_pending : Bool
  pub waits : Bool

-- A message given to the writer: its seq and, of a response, the seq of its request.
pub record Written : Type 0 where
  pub seq : ℕ
  pub answers : Option ℕ

-- `Client`; `ended` says that `pending` is nil.
pub record Client : Type 0 where
  pub seq : ℕ
  pub channels : List Channel
  pub ended : Bool
  pub done : Bool
  pub written : List Written

-- `NewClient`.
pub new_client : Client
new_client = record { seq = 0; channels = []; ended = false; done = false; written = [] }

-- The first part of `Do`, under `wmu`: the client, and whether the call waits.
pub start : Client → Client × Bool
start c =
    let seq = suc c.seq in
    if c.ended then (record c { seq = seq }, false) else (
      record c {
        seq = seq;
        channels =
            c.channels ++ record { call = seq; box = empty; is_pending = true; waits = true } ∷ [];
        written = c.written ++ record { seq = seq; answers = none } ∷ [];
      },
      true,
    )

-- `unregister`, where a call ends for its context or for a write that failed.
pub unregister_in : ℕ → List Channel → List Channel
unregister_in seq [] = []
unregister_in seq (ch ∷ chs) =
    let rest = unregister_in seq chs in
    if ch.call == seq then record ch { is_pending = false; waits = false } ∷ chs else ch ∷ rest

pub unregister : Client → ℕ → Client
unfolding unregister_in
unregister c seq = record c { channels = unregister_in seq c.channels }

-- A send into a channel of one place that nobody else sends into; none where it would block or panic.
pub send : Box → Response → Option Box
send empty r = some (holds r)
send (holds s) r = none
send closed r = none

-- The end of a channel; none where it would panic.
pub close : Box → Option Box
close empty = some closed
close (holds r) = some closed
close closed = none

-- `deliver`, in the map.
pub deliver_in : Response → List Channel → Option (List Channel)
unfolding send
deliver_in r [] = some []
deliver_in r (ch ∷ chs) =
    let rest : Option (List Channel) = elim (deliver_in r chs) [
      | none ↦ none
      | some new ↦ some (ch ∷ new)
    ] in
    if ch.call == r.request_seq && ch.is_pending
    then elim (send ch.box r) [
      | none ↦ none
      | some box ↦ some (record ch { box = box; is_pending = false } ∷ chs)
    ]
    else rest

-- `deliver`.
pub deliver : Client → Response → Option Client
unfolding deliver_in
deliver c r = elim (deliver_in r c.channels) [
  | none ↦ none
  | some chs ↦ some (record c { channels = chs })
]

-- `dispatch` of a message that decodes; a request is answered in another step.
pub dispatch : Client → Message → Option Client
unfolding deliver
dispatch c (response r) = deliver c r
dispatch c event = some c
dispatch c (request seq) = some c

-- The loop that closes what is pending.
pub close_all : List Channel → Option (List Channel)
unfolding close
close_all [] = some []
close_all (ch ∷ chs) = elim (close_all chs) [
  | none ↦ none
  | some rest ↦
      if ch.is_pending
      then elim (close ch.box) [
        | none ↦ none
        | some box ↦ some (record ch { box = box; is_pending = false } ∷ rest)
      ]
      else some (ch ∷ rest)
]

-- The end of `readLoop`, under the mutex.
pub end_reading : Client → Option Client
unfolding close_all
end_reading c = elim (close_all c.channels) [
  | none ↦ none
  | some chs ↦ some (record c { channels = chs; ended = true })
]

-- `respond` to the request with a seq.
pub respond : Client → ℕ → Client
respond c seq = if c.done then c else record c {
  seq = suc c.seq;
  written = c.written ++ record { seq = suc c.seq; answers = some seq } ∷ [];
}

-- What `Do` answers of what it finds in its channel: `ErrClosed`, a rejection with its text, or a
-- response.
pub data Outcome : Type 0 where
  connection_closed : Outcome
  rejected : String → Outcome
  answered : Response → Outcome

-- `responseError`, where `formatted` is the error's format with its variables put in.
pub response_error : Response → Option String
response_error r =
    let text : String = elim r.format [
      | none ↦ r.message
      | some formatted ↦ if str_eq formatted "" then r.message else formatted
    ] in
    if r.is_error then some text else if not r.success then some r.message else none

-- The end of `Do`; none while it waits.
pub outcome : Box → Option Outcome
unfolding response_error
outcome empty = none
outcome closed = some connection_closed
outcome (holds r) = elim (response_error r) [
  | none ↦ some (answered r)
  | some text ↦ some (rejected text)
]

-- What happens at a client: a call starts or gives up, a message arrives, the stream ends, in two
-- steps, or a request of the adapter is answered.
pub data Move : Type 0 where
  starts : Move
  gives_up : ℕ → Move
  arrives : Message → Move
  ends : Move
  is_done : Move
  responds : ℕ → Move

-- The read loop takes no step after its end.
pub move : Client → Move → Option Client
unfolding start unregister dispatch end_reading respond
move c starts = some (start c).0
move c (gives_up seq) = some (unregister c seq)
move c (arrives m) = if c.ended then some c else dispatch c m
move c ends = if c.ended then some c else end_reading c
move c is_done = some (record c { done = c.ended })
move c (responds seq) = some (respond c seq)

pub moves : Client → List Move → Option Client
unfolding move
moves c [] = some c
moves c (m ∷ ms) = elim (move c m) [ none ↦ none | some d ↦ moves d ms ]
