-- ===== src/Present/Tests.antt =====
-- Cuts of events, text and variables at concrete values, and their theorems there.
use eyedebugger.Prelude.{
  ℕ, ◌-◌, ◌≤◌, ◌≡◌, ◌⊎◌, refl, len, true, false, List, [], ◌∷◌, map, length, reverse, if◌then◌else◌,
}
use eyedebugger.Api.{Event, blank}
use eyedebugger.Present.{
  cut_text, skip_to_rune, back_to_rune, rune_start, shape_events, cut_event, fit, fit_from,
  keep_fit,
}
use eyedebugger.Present.Largest.{IsLargest, IsCut, Kept, limit_of, shape_events-IsLargest}
use eyedebugger.Present.Text.{IsBeginning, IsEnd, cut_text-IsCut}

-- "a€b", of five bytes.
abbrev euro : List ℕ
euro = 97 ∷ 226 ∷ 130 ∷ 172 ∷ 98 ∷ []

cut_front : cut_text euro 3 false ≡ 97 ∷ []
unfolding cut_text back_to_rune rune_start
cut_front = refl

cut_end : cut_text euro 2 true ≡ 98 ∷ []
unfolding cut_text skip_to_rune rune_start
cut_end = refl

cut_text-IsCut_example :
    (IsBeginning euro 3 (cut_text euro 3 false) × IsEnd euro 3 (cut_text euro 3 true))
    ⊎ ((length euro ≤ 3) × (cut_text euro 3 false ≡ euro) × (cut_text euro 3 true ≡ euro))
cut_text-IsCut_example = cut_text-IsCut euro 3

abbrev said : List Event
said = record blank { seq = 1; text = "one" } ∷ record blank { seq = 2; text = "two" } ∷ []

abbrev text_size : Event → ℕ
text_size e = len e.text

newest_only : map (λ (e : Event). e.seq) (shape_events text_size said 1 true).0 ≡ 2 ∷ []
unfolding shape_events cut_event fit fit_from keep_fit
newest_only = refl

shape_events-IsLargest_example :
    let r = shape_events text_size said 1 true in
    let out = map cut_event said in
    let ordered = if true then reverse out else out in
    Kept out true r.0 r.1
    × IsLargest text_size (limit_of 1) ordered (length out - r.1)
    × ((e : Event) → IsCut e (cut_event e))
shape_events-IsLargest_example = shape_events-IsLargest text_size said 1 true
