-- ===== src/Breakpoints.antt =====
-- internal/session/breakpoints.go: adding and removing the breakpoints of a session, as steps on
-- what the session's mutex guards. A pointer to a breakpoint is its id. The parsed hit condition and
-- log message of a breakpoint are functions of their texts, and only the texts are kept here.
pub mod Replace
pub mod Numbered
pub mod Steps
pub mod Removal
pub mod Sample
mod Tests
use eyedebugger.Prelude.{
  ℕ, zero, suc, String, Bool, true, false, not, ◌&&◌, ◌||◌, Option, none, some, List, [], ◌∷◌, ◌++◌,
  ◌==◌, length, str_eq, if◌then◌else◌,
}
use eyedebugger.Api.{Breakpoint, BreakpointSpec}
use eyedebugger.Slots.{SlotKey, same_key, key_of}
use eyedebugger.Session.{Session, Error, invalid_request, not_owner, Result, ok, err}
use eyedebugger.Presence.{take_out}
use eyedebugger.Presence.Cleanup.{breakpoints}

-- The map `bps`.
pub list_at : String → List (String × List Breakpoint) → List Breakpoint
list_at key [] = []
list_at key ((k, list) ∷ bps) = if str_eq k key then list else list_at key bps

pub append_at :
    String → Breakpoint → List (String × List Breakpoint) → List (String × List Breakpoint)
append_at key b [] = (key, b ∷ []) ∷ []
append_at key b ((k, list) ∷ bps) =
    let rest = append_at key b bps in
    if str_eq k key then (k, list ++ b ∷ []) ∷ bps else (k, list) ∷ rest

-- A write through a pointer to a breakpoint.
pub write : Breakpoint → List Breakpoint → List Breakpoint
write b [] = []
write b (c ∷ cs) = let rest = write b cs in if c.id == b.id then b ∷ rest else c ∷ rest

pub write_all : Breakpoint → List (String × List Breakpoint) → List (String × List Breakpoint)
unfolding write
write_all b [] = []
write_all b ((k, list) ∷ bps) = (k, write b list) ∷ write_all b bps

-- `setEmulated`.
pub set_emulated : Breakpoint → BreakpointSpec → Breakpoint
set_emulated b spec = record b {
  hit_condition = spec.hit_condition;
  log_message = spec.log_message;
  hits = 0;
}

pub spec_key : BreakpointSpec → SlotKey
spec_key spec = record { function = spec.function; line = spec.line }

-- The breakpoint that `addNewLocked` makes.
pub new_breakpoint : ℕ → ℕ → String → BreakpointSpec → Breakpoint
unfolding set_emulated
new_breakpoint id now owner spec =
    set_emulated
      (record {
        id = id;
        file = spec.file;
        requested_line = spec.line;
        line = spec.line;
        verified = false;
        message = "";
        condition = spec.condition;
        temporary = false;
        owner = owner;
        created_at = now;
        note = "";
        function = spec.function;
        anchor = spec.anchor;
        hit_condition = "";
        log_message = "";
        hits = 0;
        editor = false;
      })
      spec

-- `addNewLocked`, for a breakpoint that its caller then marks.
pub insert : Session → String → Breakpoint → Session
unfolding append_at
insert s key b = record s { next_bp = suc s.next_bp; bps = append_at key b s.bps }

-- `addNewLocked`.
pub add_new : Session → ℕ → String → BreakpointSpec → Session × Breakpoint
unfolding new_breakpoint insert
add_new s now owner spec =
    let b = new_breakpoint (suc s.next_bp) now owner spec in (insert s spec.file b, b)

-- The search of `addBreakpointLocked`.
pub find_own : String → SlotKey → List Breakpoint → Option Breakpoint
unfolding same_key key_of
find_own owner key [] = none
find_own owner key (b ∷ bs) =
    let rest = find_own owner key bs in
    if str_eq b.owner owner && same_key (key_of b) key then some b else rest

-- What `AddBreakpoint` answers: the breakpoint, and whether it is new or changed.
pub record Added : Type 0 where
  pub b : Breakpoint
  pub is_new : Bool
  pub changed : Bool

-- `addBreakpointLocked`.
pub add_breakpoint : Session → ℕ → String → BreakpointSpec → Session × Added
unfolding list_at find_own spec_key set_emulated write_all add_new
add_breakpoint s now owner spec = elim (find_own owner (spec_key spec) (list_at spec.file s.bps)) [
  | none ↦
      let (t, b) = add_new s now owner spec in (t, record { b = b; is_new = true; changed = false })
  | some b ↦
      let changed =
        not (str_eq b.condition spec.condition)
        || b.temporary
        || not (str_eq b.anchor spec.anchor)
        || not (str_eq b.hit_condition spec.hit_condition)
        || not (str_eq b.log_message spec.log_message) in
      let b' =
        set_emulated
          (record b { condition = spec.condition; temporary = false; anchor = spec.anchor }) spec in
      (record s { bps = write_all b' s.bps }, record { b = b'; is_new = false; changed = changed })
]

-- `emulated`: whether the breakpoint has a hit condition or a log message.
pub is_emulated : Breakpoint → Bool
is_emulated b = not (str_eq b.hit_condition "") || not (str_eq b.log_message "")

-- The loop of `placeTarget`: the last breakpoint of the client at the line that stops.
pub find_target : String → SlotKey → List Breakpoint → Option Breakpoint
unfolding same_key key_of is_emulated
find_target owner key [] = none
find_target owner key (b ∷ bs) =
    let here = str_eq b.owner owner && same_key (key_of b) key && not (is_emulated b) in
    elim (find_target owner key bs) [ some c ↦ some c | none ↦ if here then some b else none ]

-- The first locked part of `placeTarget`: the session, the target, and whether it is temporary.
pub place_target : Session → ℕ → String → BreakpointSpec → Session × Breakpoint × Bool
unfolding list_at find_target new_breakpoint insert
place_target s now owner spec =
    elim (find_target owner (record { function = ""; line = spec.line })
      (list_at spec.file s.bps)) [
        | some b ↦ (s, b, false)
        | none ↦
            let b = record (new_breakpoint (suc s.next_bp) now owner spec) { temporary = true } in
            (insert s spec.file b, b, true)
      ]

-- `findBreakpointLocked`, in the order that the map is walked.
pub find_id : ℕ → List Breakpoint → Option Breakpoint
find_id id [] = none
find_id id (b ∷ bs) = let rest = find_id id bs in if b.id == id then some b else rest

-- The locked parts of `RemoveBreakpoint`: how many are removed, and how many others' are kept.
pub remove_breakpoint : Session → String → ℕ → Bool → Session × Result (ℕ × ℕ)
unfolding find_id
remove_breakpoint s client zero force =
    let (t, gone) = take_out s (λ (b : Breakpoint). force || str_eq b.owner client) in
    (t, ok (length gone, length (breakpoints t.bps)))
remove_breakpoint s client (suc id) force = elim (find_id (suc id) (breakpoints s.bps)) [
  | none ↦ (s, err invalid_request)
  | some target ↦
      let (t, gone) = take_out s (λ (b : Breakpoint). b.id == target.id) in
      if not (str_eq target.owner client) && not force
      then (s, err (not_owner target.owner))
      else (t, ok (length gone, 0))
]
