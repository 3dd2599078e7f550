-- ===== src/EventLog/Invariant.antt =====
-- What every event log of internal/session/events.go satisfies, and what trimming keeps.
use eyedebugger.Prelude.{
  ℕ, zero, suc, ◌+◌, ◌-◌, ◌≤◌, ◌<◌, ◌≡◌, refl, sym, subst, ◌∙◌, ◌⊎◌, inl, inr, List, [], ◌∷◌, ◌++◌,
  arith, length, length-append, length-drop, drop, drop-cons_sub, drop-sub_self, Bool-cases, ltb,
  ◌||◌,
}
use eyedebugger.Api.{Event}
use eyedebugger.EventLog.{EventLog, event_size, trim, stamp, append, new_event_log, set_sink}

-- The bytes that a list of events counts.
abbrev pub total : List Event → ℕ
total [] = 0
total (e ∷ es) = event_size e + total es

-- The seqs count up by one from `n`.
abbrev pub Numbered : ℕ → List Event → Type 0
Numbered n [] = Unit
Numbered n (e ∷ es) = (e.seq ≡ n) × Numbered (suc n) es

-- Within both bounds, or down to the one event that always stays.
abbrev pub Fits : ℕ → ℕ → List Event → Type 0
Fits max_count max_bytes es = (length es ≤ 1) ⊎ ((length es ≤ max_count) × (total es ≤ max_bytes))

pub record IsValid (l : EventLog) : Type 0 where
  pub within : length l.events ≤ l.seq
  pub held : 0 < l.seq → 0 < length l.events
  pub numbered : Numbered (l.seq + 1 - length l.events) l.events
  pub counted : l.bytes ≡ total l.events
  pub fits : Fits l.max_count l.max_bytes l.events

pub total-append : (xs ys : List Event) → total (xs ++ ys) ≡ total xs + total ys
total-append [] ys = omega arith
total-append (x ∷ xs) ys = omega (arith, total-append xs ys)

pub Numbered-append :
    (n : ℕ) (xs : List Event) (e : Event)
    → Numbered n xs
    → e.seq ≡ n + length xs
    → Numbered n (xs ++ e ∷ [])
Numbered-append n [] e h k = (omega arith, tt)
Numbered-append n (x ∷ xs) e h k = (h.0, Numbered-append (suc n) xs e h.1 (omega arith))

module _ (m b : ℕ) where
  pub trim-total :
      (es : List Event) (bytes : ℕ)
      → bytes ≡ total es
      → (trim m b es bytes).1 ≡ total (trim m b es bytes).0
  unfolding trim
  trim-total [] bytes h = h
  trim-total (e ∷ []) bytes h = h
  trim-total (e ∷ f ∷ rest) bytes h = ground (arith, trim-total (f ∷ rest) (bytes - event_size e))

  pub trim-Fits : (es : List Event) (bytes : ℕ) → bytes ≡ total es → Fits m b (trim m b es bytes).0
  unfolding trim
  trim-Fits [] bytes h = inl (omega arith)
  trim-Fits (e ∷ []) bytes h = inl (omega arith)
  trim-Fits (e ∷ f ∷ rest) bytes h = ground (arith, trim-Fits (f ∷ rest) (bytes - event_size e))

  pub trim-length :
      (es : List Event) (bytes : ℕ)
      → (length (trim m b es bytes).0 ≤ length es)
        × (0 < length es → 0 < length (trim m b es bytes).0)
  unfolding trim
  trim-length [] bytes = (omega arith, λ h. h)
  trim-length (e ∷ []) bytes = (omega arith, λ h. h)
  trim-length (e ∷ f ∷ rest) bytes = ground (arith, trim-length (f ∷ rest) (bytes - event_size e))

  -- What is left is the end of the list.
  pub trim-drop :
      (es : List Event) (bytes : ℕ)
      → (trim m b es bytes).0 ≡ drop (length es - length (trim m b es bytes).0) es
  unfolding trim
  trim-drop [] bytes = refl
  trim-drop (e ∷ []) bytes = refl
  trim-drop (e ∷ f ∷ rest) bytes =
      elim (Bool-cases (ltb m (length (e ∷ f ∷ rest)) || ltb b bytes)) [
        | inl over ↦
            rw (over, trim)
              (trim-drop (f ∷ rest) (bytes - event_size e)
                ∙ sym (
                    drop-cons_sub (suc (length rest)) _ e (f ∷ rest)
                      (trim-length (f ∷ rest) (bytes - event_size e)).0))
        | inr fine ↦ rw (fine, trim) (sym (drop-sub_self (suc (suc (length rest))) (e ∷ f ∷ rest)))
      ]

  -- No longer end of the list fits.
  pub trim-longest :
      (es : List Event) (bytes k : ℕ)
      → bytes ≡ total es
      → Fits m b (drop k es)
      → length (drop k es) ≤ length (trim m b es bytes).0
  unfolding trim
  trim-longest [] bytes k h fit = omega (arith, length-drop {0} {A = Event} k [])
  trim-longest (e ∷ []) bytes k h fit = omega (arith, length-drop k (e ∷ []))
  trim-longest (e ∷ f ∷ rest) bytes zero h fit = ground arith
  trim-longest (e ∷ f ∷ rest) bytes (suc k) h fit =
      ground (arith, trim-longest (f ∷ rest) (bytes - event_size e) k, length-drop k (f ∷ rest))

pub Numbered-drop :
    (n k : ℕ) (es : List Event) → k ≤ length es → Numbered n es → Numbered (n + k) (drop k es)
Numbered-drop n zero es h num = let e : n + 0 ≡ n = omega arith in rw e num
Numbered-drop n (suc k) [] h num = tt
Numbered-drop n (suc k) (x ∷ es) h num =
    let e : n + suc k ≡ suc n + k = omega arith in
    rw e (Numbered-drop (suc n) k es (omega arith) num.1)

pub new_event_log-IsValid : (m b : ℕ) → IsValid (new_event_log m b)
unfolding new_event_log
new_event_log-IsValid m b = record {
  within = omega arith;
  held = λ h. h;
  numbered = tt;
  counted = refl;
  fits = inl (omega arith);
}

pub set_sink-IsValid : (l : EventLog) → IsValid l → IsValid (set_sink l)
unfolding set_sink
set_sink-IsValid l v = record {
  within = v.within;
  held = v.held;
  numbered = v.numbered;
  counted = v.counted;
  fits = v.fits;
}

-- The list and the byte count that `append` hands to the trimming.
abbrev pub extended : EventLog → ℕ → Event → List Event
extended l now e = l.events ++ stamp l now e ∷ []

abbrev pub extended_bytes : EventLog → ℕ → Event → ℕ
extended_bytes l now e = l.bytes + event_size (stamp l now e)

module _ (l : EventLog) (now : ℕ) (e : Event) (v : IsValid l) where
  pub extended-total : extended_bytes l now e ≡ total (extended l now e)
  extended-total = omega (arith, v.counted, total-append l.events (stamp l now e ∷ []))

  pub extended-length : length (extended l now e) ≡ length l.events + 1
  extended-length = omega (arith, length-append l.events (stamp l now e ∷ []))

  extended-Numbered : Numbered (l.seq + 1 - length l.events) (extended l now e)
  unfolding stamp
  extended-Numbered =
      Numbered-append (l.seq + 1 - length l.events) l.events (stamp l now e) v.numbered
        (omega (arith, v.within))

  -- Appending keeps the log well formed: the seqs stay consecutive and end at the newest, the byte
  -- count stays the sum of the sizes, and the log stays within its bounds or at one event.
  pub append-IsValid : IsValid (append l now e)
  unfolding append
  append-IsValid = record {
    within = omega (arith, shorter.0, extended-length, v.within);
    held = λ _. shorter.1 (omega (arith, extended-length));
    numbered = rw kept (subst (λ n. Numbered n (drop gone es)) start cut);
    counted = trim-total l.max_count l.max_bytes es n extended-total;
    fits = trim-Fits l.max_count l.max_bytes es n extended-total;
  }
    where
      es : List Event
      es = extended l now e

      n : ℕ
      n = extended_bytes l now e

      left : List Event
      left = (trim l.max_count l.max_bytes es n).0

      shorter : (length left ≤ length es) × (0 < length es → 0 < length left)
      shorter = trim-length l.max_count l.max_bytes es n

      gone : ℕ
      gone = length es - length left

      kept : left ≡ drop gone es
      kept = trim-drop l.max_count l.max_bytes es n

      cut : Numbered (l.seq + 1 - length l.events + gone) (drop gone es)
      cut = Numbered-drop (l.seq + 1 - length l.events) gone es (omega arith) extended-Numbered

      start : l.seq + 1 - length l.events + gone ≡ suc l.seq + 1 - length (drop gone es)
      start = omega (arith, shorter.0, extended-length, v.within, length-drop gone es)
