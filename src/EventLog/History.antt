-- ===== src/EventLog/History.antt =====
-- The log against everything that was ever appended, which the attached recording sees.
use eyedebugger.Prelude.{
  ℕ, suc, ◌+◌, ◌-◌, ◌≤◌, ◌<◌, ◌≡◌, refl, sym, subst, ◌∙◌, ap, true, inl, inr, List, [], ◌∷◌, ◌++◌,
  arith, length, drop, length-drop, length-append, drop-append_le, drop-drop, ltb, ltb→lt,
  Bool-cases,
}
use eyedebugger.Api.{Event}
use eyedebugger.EventLog.{EventLog, append, stamp, trim, new_event_log, set_sink}
use eyedebugger.EventLog.Invariant.{
  IsValid, Numbered, Numbered-append, Fits, total-append, extended, extended_bytes, extended-total,
  extended-length, trim-drop, trim-length, trim-longest, append-IsValid, new_event_log-IsValid,
  set_sink-IsValid,
}

-- The recording is the whole history, numbered from 1, and the log holds the longest end of it
-- that is within the bounds.
pub record IsWindow (l : EventLog) : Type 0 where
  pub recording : l.sink ≡ true
  pub whole : length l.recorded ≡ l.seq
  pub numbered : Numbered 1 l.recorded
  pub window : l.events ≡ drop (l.seq - length l.events) l.recorded
  pub longest :
      (k : ℕ)
      → Fits l.max_count l.max_bytes (drop k l.recorded)
      → length (drop k l.recorded) ≤ length l.events

-- A shorter list fits where a longer one does.
Fits-init :
    (m b : ℕ) (xs : List Event) (e : Event) → 0 < length xs → Fits m b (xs ++ e ∷ []) → Fits m b xs
Fits-init m b xs e h (inl one) = absurd (omega (arith, length-append xs (e ∷ [])))
Fits-init m b xs e h (inr (few, small)) =
    inr (omega (arith, length-append xs (e ∷ [])), omega (arith, total-append xs (e ∷ [])))

module _ (l : EventLog) (now : ℕ) (e : Event) (v : IsValid l) (w : IsWindow l) where
  abbrev stored : Event
  stored = stamp l now e

  abbrev history : List Event
  history = l.recorded ++ stored ∷ []

  abbrev left : List Event
  left = (trim l.max_count l.max_bytes (extended l now e) (extended_bytes l now e)).0

  left-length : (length left ≤ length l.events + 1) × (0 < length left)
  left-length =
      let shorter =
        trim-length l.max_count l.max_bytes (extended l now e) (extended_bytes l now e) in
      (
        omega (arith, shorter.0, extended-length l now e v),
        shorter.1 (omega (arith, extended-length l now e v)),
      )

  extended-window : extended l now e ≡ drop (l.seq - length l.events) history
  extended-window =
      ap (λ es. es ++ stored ∷ []) w.window
      ∙ sym (
          drop-append_le (l.seq - length l.events) l.recorded (stored ∷ [])
            (omega (arith, w.whole)))

  append-window : left ≡ drop (suc l.seq - length left) history
  append-window =
      trim-drop l.max_count l.max_bytes (extended l now e) (extended_bytes l now e)
      ∙ ap (drop gone) extended-window
      ∙ drop-drop gone (l.seq - length l.events) history
      ∙ ap (λ k. drop k history) together
    where
      gone : ℕ
      gone = length (extended l now e) - length left

      together : l.seq - length l.events + gone ≡ suc l.seq - length left
      together = omega (arith, extended-length l now e v, left-length.0, v.within)

  append-longest :
      (k : ℕ)
      → Fits l.max_count l.max_bytes (drop k history)
      → length (drop k history) ≤ length left
  append-longest k fit = elim (Bool-cases (ltb k (length l.recorded))) [
    | inr past ↦
        ground (arith, left-length, length-drop k history, length-append l.recorded (stored ∷ []))
    | inl inside ↦
        let k-lt : k < length l.recorded = ltb→lt k (length l.recorded) inside in
        let split : drop k history ≡ drop k l.recorded ++ stored ∷ [] =
          drop-append_le k l.recorded (stored ∷ []) (omega arith) in
        let older : length (drop k l.recorded) ≤ length l.events = w.longest k (
          Fits-init l.max_count l.max_bytes (drop k l.recorded) stored
            (omega (arith, length-drop k l.recorded))
            (subst (Fits l.max_count l.max_bytes) split fit)) in
        let back : l.seq - length l.events + (k - (l.seq - length l.events)) ≡ k =
          omega (arith, length-drop k l.recorded, w.whole) in
        let same : drop (k - (l.seq - length l.events)) (extended l now e) ≡ drop k history =
          ap (drop (k - (l.seq - length l.events))) extended-window
          ∙ drop-drop (k - (l.seq - length l.events)) (l.seq - length l.events) history
          ∙ ap (λ j. drop j history) back in
        subst (λ es. length es ≤ length left) same
          (trim-longest l.max_count l.max_bytes (extended l now e) (extended_bytes l now e)
            (k - (l.seq - length l.events)) (extended-total l now e v)
            (subst (Fits l.max_count l.max_bytes) (sym same) fit))
  ]

-- Appending records the event at the end of the history, and keeps the log its window.
pub append-IsWindow :
    (l : EventLog) (now : ℕ) (e : Event) → IsValid l → IsWindow l → IsWindow (append l now e)
unfolding append
append-IsWindow l now e v w = record {
  recording = w.recording;
  whole = rw w.recording (omega (arith, w.whole, length-append l.recorded (stamp l now e ∷ [])));
  numbered = rw w.recording (
      unfold stamp in
      Numbered-append 1 l.recorded (stamp l now e) w.numbered (omega (arith, w.whole)));
  window = rw w.recording (append-window l now e v w);
  longest = rw w.recording (append-longest l now e v w);
}

-- A run of appends, each with its time.
abbrev pub append_all : EventLog → List (ℕ × Event) → EventLog
append_all l [] = l
append_all l ((now, e) ∷ es) = append_all (append l now e) es

append_all-keeps :
    (l : EventLog) (es : List (ℕ × Event))
    → IsValid l
    → IsWindow l
    → IsValid (append_all l es) × IsWindow (append_all l es)
append_all-keeps l [] v w = (v, w)
append_all-keeps l ((now, e) ∷ es) v w =
    append_all-keeps (append l now e) es (append-IsValid l now e v) (append-IsWindow l now e v w)

start-IsWindow : (m b : ℕ) → IsWindow (set_sink (new_event_log m b))
unfolding set_sink new_event_log
start-IsWindow m b = record {
  recording = refl;
  whole = refl;
  numbered = tt;
  window = refl;
  longest = λ k fit. omega (arith, length-drop {A = Event} k []);
}

pub history-IsWindow :
    (max_count max_bytes : ℕ) (es : List (ℕ × Event))
    → IsValid (append_all (set_sink (new_event_log max_count max_bytes)) es)
      × IsWindow (append_all (set_sink (new_event_log max_count max_bytes)) es)
history-IsWindow m b es =
    append_all-keeps (set_sink (new_event_log m b)) es
      (set_sink-IsValid (new_event_log m b) (new_event_log-IsValid m b)) (start-IsWindow m b)
