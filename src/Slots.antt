-- ===== src/Slots.antt =====
-- internal/session/slots.go: the adapter's breakpoint slots, one for each line or function, for the
-- breakpoints of one file. The index of the loop is a search of the slots so far.
pub mod Grouping
pub mod Conditions
mod Tests
use eyedebugger.Prelude.{
  ℕ, String, Bool, true, false, not, ◌&&◌, ◌||◌, List, [], ◌∷◌, ◌++◌, map, ◌==◌, any, str_eq,
  if◌then◌else◌,
}
use eyedebugger.Api.{Breakpoint}

-- `slotKey`.
pub record SlotKey : Type 0 where
  pub function : String
  pub line : ℕ

unfoldable pub same_key : SlotKey → SlotKey → Bool
same_key j k = str_eq j.function k.function && j.line == k.line

-- `key`.
unfoldable pub key_of : Breakpoint → SlotKey
key_of b = record { function = b.function; line = b.requested_line }

-- `slot`.
pub record Slot : Type 0 where
  pub key : SlotKey
  pub condition : String
  pub note : Bool
  pub bps : List Breakpoint

-- One turn of the first loop of `slotsFor`.
pub place : List Slot → Breakpoint → List Slot
unfolding same_key key_of
place [] b = record { key = key_of b; condition = b.condition; note = false; bps = b ∷ [] } ∷ []
place (s ∷ slots) b =
    let rest = place slots b in
    if same_key s.key (key_of b) then record s { bps = s.bps ++ b ∷ [] } ∷ slots else s ∷ rest

pub place_all : List Slot → List Breakpoint → List Slot
unfolding place
place_all slots [] = slots
place_all slots (b ∷ list) = place_all (place slots b) list

-- One turn of the second loop.
pub settle : Slot → Slot
settle s =
    let unconditional = any (λ (b : Breakpoint). str_eq b.condition "") s.bps in
    let differ = any (λ (b : Breakpoint). not (str_eq b.condition s.condition)) s.bps in
    if unconditional
    then record s { condition = "" }
    else if differ
    then record s { condition = ""; note = true }
    else s

-- `slotsFor`.
pub slots_for : List Breakpoint → List Slot
unfolding place_all settle
slots_for list = map settle (place_all [] list)
