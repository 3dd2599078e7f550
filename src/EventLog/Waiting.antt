-- ===== src/EventLog/Waiting.antt =====
-- `wait` of internal/session/events.go: one reader that waits while other goroutines append. What
-- happens while it sleeps is the list `wakes`: each entry is what was appended by the time the
-- channel woke it. `final` is what was appended by the time its context ended.
use eyedebugger.Prelude.{
  ℕ, suc, ◌≡◌, ◌≢◌, refl, sym, ◌∙◌, ap, Bool, true, false, not, inl, inr, List, [], ◌∷◌, arith,
  length, ◌-◌, ◌+◌, length-take, ◌⊎◌, length-drop, nil_of_length, List-cases, Bool-cases,
}
use eyedebugger.Api.{pos, Event, EventsParams, EventsResult}
use eyedebugger.EventLog.{EventLog, append, event_limit, since_of, query, query_watch, is_closed}
use eyedebugger.EventLog.Invariant.{IsValid, append-IsValid}
use eyedebugger.EventLog.Query.{query-Answers, wanted, event_limit_range}
use eyedebugger.EventLog.History.{append_all}

abbrev is_empty {ℓ} : {A : Type ℓ} → List A → Bool
is_empty [] = true
is_empty (x ∷ xs) = false

-- The loop of `wait`: query; return what there is; else sleep until the channel is closed or the
-- context ends, and query once more in that case.
wait_loop : EventLog → EventsParams → List (List (ℕ × Event)) → List (ℕ × Event) → EventsResult
wait_loop l q [] final =
    let res = query l q in
    let again = query (append_all l final) q in
    elim res.events [ [] ↦ record again { timed_out = is_empty again.events } | e ∷ es ↦ res ]
wait_loop l q (woke ∷ wakes) final =
    let res = query l q in
    elim res.events [ [] ↦ wait_loop (append_all l woke) q wakes final | e ∷ es ↦ res ]

-- A negative `since` is fixed once, at the newest seq at the call.
pin : EventLog → EventsParams → EventsParams
unfolding since_of
pin l q = record q { since = pos (since_of l q.since) }

pub wait : EventLog → EventsParams → List (List (ℕ × Event)) → List (ℕ × Event) → EventsResult
unfolding wait_loop pin
wait l q wakes final = wait_loop l (pin l q) wakes final

-- The log when the wait is over, if it ran to the end of its context.
abbrev pub log_at_end : EventLog → List (List (ℕ × Event)) → List (ℕ × Event) → EventLog
log_at_end l [] final = append_all l final
log_at_end l (woke ∷ wakes) final = log_at_end (append_all l woke) wakes final

append_all-IsValid : (l : EventLog) (es : List (ℕ × Event)) → IsValid l → IsValid (append_all l es)
append_all-IsValid l [] v = v
append_all-IsValid l ((now, e) ∷ es) v =
    append_all-IsValid (append l now e) es (append-IsValid l now e v)

-- A query that returns nothing had nothing to return.
nothing_wanted :
    (l : EventLog) (q : EventsParams)
    → IsValid l
    → (query l q).events ≡ []
    → wanted l (since_of l q.since) q.kinds ≡ []
nothing_wanted l q v none_found = nil_of_length hits (elim (Bool-cases q.newest) [
  | inl new ↦ omega (
    arith,
    ap length (sym ((query-Answers l q v).newest new) ∙ none_found),
    length-drop (length hits - event_limit q.limit) hits,
    event_limit_range q.limit,
  )
  | inr old ↦ omega (
    arith,
    ap length (sym ((query-Answers l q v).oldest old) ∙ none_found),
    length-take (event_limit q.limit) hits,
    event_limit_range q.limit,
  )
])
  where
    hits : List Event
    hits = wanted l (since_of l q.since) q.kinds

-- How a wait that started at `l` ends, with the log `over` at its end and the result `r`.
abbrev pub Ends : EventsParams → ℕ → EventLog → EventsResult → Type 0
Ends q c over r =
    ((r.timed_out ≡ true) × (r.events ≡ []) × (wanted over c q.kinds ≡ []))
    ⊎ ((r.timed_out ≡ false)
        × (r.events ≢ [])
        × (m : EventLog) × IsValid m
        × (r.events ≡ (query m (record q { since = pos c })).events))

module _ (q : EventsParams) (c : ℕ) where
  abbrev q' : EventsParams
  q' = record q { since = pos c }

  found :
      (over l : EventLog) (e : Event) (es : List Event)
      → IsValid l
      → (query l q').events ≡ e ∷ es
      → Ends q c over (query l q')
  found over l e es v here = inr (unfold query in refl, (λ empty. cc), l, v, refl)

  last_look :
      (l : EventLog)
      → IsValid l
      → Ends q c l (record (query l q') { timed_out = is_empty (query l q').events })
  unfolding since_of
  last_look l v = elim (List-cases (query l q').events) [
    | inl empty ↦ inl (rw empty, empty, nothing_wanted l q' v empty)
    | inr (e, es, here) ↦ inr (rw here, (λ empty. cc), l, v, refl)
  ]

  wait_loop-Ends :
      (l : EventLog) (wakes : List (List (ℕ × Event))) (final : List (ℕ × Event))
      → IsValid l
      → Ends q c (log_at_end l wakes final) (wait_loop l q' wakes final)
  unfolding wait_loop
  wait_loop-Ends l [] final v = elim (List-cases (query l q').events) [
    | inl empty ↦
        rw (empty, wait_loop) (last_look (append_all l final) (append_all-IsValid l final v))
    | inr (e, es, here) ↦ rw (here, wait_loop) (found (append_all l final) l e es v here)
  ]
  wait_loop-Ends l (woke ∷ wakes) final v = elim (List-cases (query l q').events) [
    | inl empty ↦
        rw (empty, wait_loop)
          (wait_loop-Ends (append_all l woke) wakes final (append_all-IsValid l woke v))
    | inr (e, es, here) ↦
        rw (here, wait_loop) (found (log_at_end (append_all l woke) wakes final) l e es v here)
  ]

-- A wait times out only with no events and only if the log at its end holds no event past the
-- `since` it began with of the kinds asked for; otherwise it returns events, and they are what a
-- query of a well-formed log gives. An append that races the end of the context still counts.
pub wait-Ends :
    (l : EventLog) (q : EventsParams) (wakes : List (List (ℕ × Event))) (final : List (ℕ × Event))
    → IsValid l
    → Ends q (since_of l q.since) (log_at_end l wakes final) (wait l q wakes final)
unfolding wait
wait-Ends l q wakes final v = wait_loop-Ends q (since_of l q.since) l wakes final v

changed-append_all :
    (l : EventLog) (es : List (ℕ × Event)) → (append_all l es).changed ≡ l.changed + length es
changed-append_all l [] = omega arith
changed-append_all l ((now, e) ∷ es) = omega (arith, changed-append_all (append l now e) es, one)
  where
    one : (append l now e).changed ≡ suc l.changed
    one = unfold append in refl

-- The channel that `queryWatch` gave is closed by the next append, and by nothing else.
is_closed-append_all :
    (l : EventLog) (q : EventsParams) (es : List (ℕ × Event))
    → is_closed (query_watch l q).1 (append_all l es) ≡ not (is_empty es)
unfolding query_watch is_closed
is_closed-append_all l q [] = ground arith
is_closed-append_all l q ((now, e) ∷ es) = ground (arith, changed-append_all l ((now, e) ∷ es))
