-- ===== src/Present.antt =====
-- internal/present: how events, output and text are cut to what a result may hold.
pub mod Largest
pub mod Text
pub mod Budget
pub mod Difference
mod Tests
use eyedebugger.Prelude.{
  ℕ, zero, suc, ◌+◌, ◌-◌, ◌*◌, ◌/◌, min, String, Bool, true, false, not, ◌&&◌, ◌||◌, List, [], ◌∷◌,
  ◌++◌, map, ◌==◌, ltb, leb, length, take, drop, reverse, if◌then◌else◌,
}
use Prim.Native.String
use Prim.Native.String.{count}
use eyedebugger.Api.{Event}

abbrev pub chars_per_token : ℕ
chars_per_token = 4

abbrev pub max_result_bytes : ℕ
max_result_bytes = 524288

abbrev pub event_text_limit : ℕ
event_text_limit = 1000

module _ {T : Type 0} where
  -- The loop of `fit`, after `n` items of `total` bytes, over those that come next.
  pub fit_from : (T → ℕ) → ℕ → ℕ → ℕ → List T → ℕ
  fit_from size limit total n [] = n
  fit_from size limit total n (x ∷ xs) =
      let rest = fit_from size limit (total + size x) (suc n) xs in
      if ltb limit (total + size x) && ltb 0 n then n else rest

  -- `fit`.
  pub fit : List T → ℕ → Bool → (T → ℕ) → ℕ
  unfolding fit_from
  fit items limit from_end size =
      fit_from size limit 0 0 (if from_end then reverse items else items)

  -- What `shapeEvents` and `CapOutput` keep of their items, and how many they leave out.
  pub keep_fit : List T → ℕ → Bool → List T × ℕ
  keep_fit items n newest =
      (if newest then drop (length items - n) items else take n items, length items - n)

-- The first `n` code points of a text.
pub take_chars : ℕ → String → String
take_chars zero s = String.[]
take_chars (suc n) String.[] = String.[]
take_chars (suc n) (String.◌∷◌ c s) = String.◌∷◌ c (take_chars n s)

-- The cut of one event's text in `shapeEvents`.
pub cut_event : Event → Event
unfolding take_chars
cut_event e =
    if ltb event_text_limit (count e.text)
    then record e { text = take_chars event_text_limit e.text; truncated = true }
    else e

-- `shapeEvents`, for `ShapeEvents`. The size of an event as JSON is a parameter.
pub shape_events : (Event → ℕ) → List Event → ℕ → Bool → List Event × ℕ
unfolding cut_event fit keep_fit
shape_events json_size events budget newest =
    let limit =
      if ltb 0 budget then min max_result_bytes (budget * chars_per_token) else max_result_bytes in
    let out = map cut_event events in keep_fit out (fit out limit newest json_size) newest

-- `utf8.RuneStart`: not a continuation byte, 10xxxxxx.
pub rune_start : ℕ → Bool
rune_start b = not (b / 64 == 2)

-- The loop that moves a cut forward to the start of a rune.
pub skip_to_rune : List ℕ → List ℕ
unfolding rune_start
skip_to_rune [] = []
skip_to_rune (b ∷ bs) = let rest = skip_to_rune bs in if not (rune_start b) then rest else b ∷ bs

abbrev pub byte_at : List ℕ → ℕ → ℕ
byte_at [] i = 0
byte_at (b ∷ bs) zero = b
byte_at (b ∷ bs) (suc i) = byte_at bs i

-- The loop that moves a cut back to the start of a rune.
pub back_to_rune : List ℕ → ℕ → ℕ
unfolding rune_start
back_to_rune s zero = 0
back_to_rune s (suc i) =
    let before = back_to_rune s i in if not (rune_start (byte_at s (suc i))) then before else suc i

-- `CutText`, on the bytes of a text.
pub cut_text : List ℕ → ℕ → Bool → List ℕ
unfolding skip_to_rune back_to_rune
cut_text s n keep_end =
    if leb (length s) n
    then s
    else if keep_end
    then skip_to_rune (drop (length s - n) s)
    else take (back_to_rune s n) s

-- `api.OutputLine` with its text's bytes.
pub record OutputBytes : Type 0 where
  pub seq : ℕ
  pub category : String
  pub text : List ℕ

-- `CapOutput`. The size of a line as JSON is a parameter.
pub cap_output : (OutputBytes → ℕ) → List OutputBytes → ℕ → Bool → List OutputBytes × ℕ
unfolding fit keep_fit cut_text
cap_output json_size lines max_bytes newest =
    let n = fit lines max_bytes newest json_size in
    let (kept, omitted) = keep_fit lines n newest in
    (
      map
          (λ (l : OutputBytes).
            if n == 1 && ltb max_bytes (json_size l)
            then record l { text = cut_text l.text max_bytes newest }
            else l)
          kept,
      omitted,
    )
