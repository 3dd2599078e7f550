-- ===== src/Group.antt =====
-- internal/session/group.go: the events of a group's sessions, merged, and the cursor of the next
-- query. A member's events still to be merged are a list whose head is the member's next one.
pub mod Merging
pub mod Cursor
mod Tests
use eyedebugger.Prelude.{
  ℕ, zero, suc, ◌+◌, ◌-◌, String, Bool, true, false, not, ◌&&◌, ◌||◌, Option, none, some, List, [],
  ◌∷◌, ◌++◌, map, max, ◌==◌, ltb, leb, length, keep, drop, take, str_eq, if◌then◌else◌,
}
use eyedebugger.Api.{Event}
use Prim.Native.String.{compare}
use Prim.Native.Nat.{Ordering}

abbrev pub str_less : String → String → Bool
str_less a b = elim (compare a b) [ Ordering.lt ↦ true | _ ↦ false ]

-- `memberEvents`.
pub record MemberEvents : Type 0 where
  pub id : String
  pub events : List Event
  pub latest : ℕ
  pub more : ℕ

-- `GroupEvent`, less the service's name.
pub record GroupEvent : Type 0 where
  pub session_id : String
  pub event : Event

-- `mergeBefore`.
pub merge_before : Event → String → Event → String → Bool
merge_before a a_id b b_id = if a.time == b.time then str_less a_id b_id else ltb a.time b.time

-- The best head so far: the member's place, and its event.
pub record Best : Type 0 where
  pub place : ℕ
  pub id : String
  pub event : Event

-- One turn of the inner loop of `mergeEvents`, for the member at a place.
pub better : ℕ → MemberEvents → Option Best → Option Best
unfolding merge_before
better i pt best = elim pt.events [
  | [] ↦ best
  | e ∷ es ↦
      let this : Best = record { place = i; id = pt.id; event = e } in
      elim best [
        | none ↦ some this
        | some b ↦ if merge_before e pt.id b.event b.id then some this else some b
      ]
]

pub choose : ℕ → List MemberEvents → Option Best → Option Best
unfolding better
choose i [] best = best
choose i (pt ∷ parts) best = choose (suc i) parts (better i pt best)

-- `heads[best]++`.
pub advance : ℕ → List MemberEvents → List MemberEvents
advance i [] = []
advance zero (pt ∷ parts) = record pt { events = drop 1 pt.events } ∷ parts
advance (suc i) (pt ∷ parts) = pt ∷ advance i parts

pub total : List MemberEvents → ℕ
total [] = 0
total (pt ∷ parts) = length pt.events + total parts

-- The outer loop of `mergeEvents`: a turn for each event that is left.
pub merge : ℕ → List MemberEvents → List GroupEvent
unfolding choose advance
merge zero parts = []
merge (suc left) parts = elim (choose 0 parts none) [
  | none ↦ []
  | some b ↦ record { session_id = b.id; event = b.event } ∷ merge left (advance b.place parts)
]

-- `mergeEvents`.
pub merge_events : List MemberEvents → List GroupEvent
unfolding merge total
merge_events parts = merge (total parts) parts

-- The loop over `kept` in `nextCursor`: a member's number of returned events, and the last one's seq.
pub returned : String → List GroupEvent → ℕ
returned id [] = 0
returned id (g ∷ kept) = (if str_eq g.session_id id then 1 else 0) + returned id kept

pub last_seq : String → List GroupEvent → ℕ → ℕ
last_seq id [] seq = seq
last_seq id (g ∷ kept) seq = last_seq id kept (if str_eq g.session_id id then g.event.seq else seq)

-- `nextCursor`, for one member: where it is after the events kept.
pub next_at : MemberEvents → List GroupEvent → ℕ → Bool → ℕ
unfolding returned last_seq
next_at pt kept at newest =
    let last = last_seq pt.id kept 0 in
    if pt.more == 0 && returned pt.id kept == length pt.events
    then max at pt.latest
    else if not newest && ltb 0 (returned pt.id kept)
    then max at last
    else at

-- The cut of `groupEventsOnce` by the limit.
pub kept_of : List GroupEvent → ℕ → Bool → List GroupEvent
kept_of merged limit newest =
    if ltb limit (length merged)
    then (if newest then drop (length merged - limit) merged else take limit merged)
    else merged
