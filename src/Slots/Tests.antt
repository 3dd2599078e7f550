-- ===== src/Slots/Tests.antt =====
-- The slots of some breakpoints, and the theorems on slots there.
use eyedebugger.Prelude.{ℕ, ◌≡◌, refl, String, true, false, List, [], ◌∷◌, map, All}
use eyedebugger.Api.{Breakpoint}
use eyedebugger.Slots.{SlotKey, key_of, same_key, Slot, slots_for, place_all, place, settle}
use eyedebugger.Slots.Conditions.{IsSettled, slots_for-IsSettled}

abbrev point : ℕ → ℕ → String → Breakpoint
point id line condition = record {
  id = id;
  file = "/a.cs";
  requested_line = line;
  line = line;
  verified = true;
  message = "";
  condition = condition;
  temporary = false;
  owner = "agent";
  created_at = 0;
  note = "";
  function = "";
  anchor = "";
  hit_condition = "";
  log_message = "";
  hits = 0;
  editor = false;
}

abbrev list : List Breakpoint
list = point 1 3 "i > 5" ∷ point 2 4 "" ∷ point 3 3 "i > 7" ∷ point 4 4 "x" ∷ point 5 9 "y" ∷ []

abbrev line_three : SlotKey
line_three = record { function = ""; line = 3 }

conditions : map (λ (s : Slot). s.condition) (slots_for list) ≡ "" ∷ "" ∷ "y" ∷ []
unfolding slots_for place_all place settle same_key key_of
conditions = refl

notes : map (λ (s : Slot). s.note) (slots_for list) ≡ true ∷ false ∷ false ∷ []
unfolding slots_for place_all place settle same_key key_of
notes = refl

slots_for-IsSettled_example : All IsSettled (slots_for list)
slots_for-IsSettled_example = slots_for-IsSettled list
