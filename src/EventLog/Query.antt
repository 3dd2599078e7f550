-- ===== src/EventLog/Query.antt =====
-- What a query of the event log answers, said without positions: by seqs and kinds.
use eyedebugger.Prelude.{
  ℕ, zero, suc, ◌+◌, ◌-◌, ◌≤◌, ◌<◌, min, ◌≡◌, ◌↔◌, refl, sym, ◌∙◌, ap, Bool, true, false, inl, inr,
  List, [], ◌∷◌, ◌++◌, reverse, arith, ltb, length, take, drop, keep, length-drop, length-append,
  length-reverse, take-nil, keep_whole, keep-reverse, All, append-nil, append_assoc,
  reverse-take-reverse, Bool-cases,
}
use eyedebugger.Api.{ℤ, pos, negsuc, Event, EventKind, EventsParams, max_events_limit}
use eyedebugger.EventLog.{
  EventLog, event_limit, since_of, first_seq, held_after, matches, select, query,
}
use eyedebugger.EventLog.Invariant.{IsValid, Numbered}
use eyedebugger.EventLog.Asked.{
  IsOfKind, IsLimit, IsSince, matches-IsOfKind, event_limit-IsLimit, since_of-IsSince,
}

-- The event comes after seq `since`.
abbrev pub after : ℕ → Event → Bool
after since e = ltb since e.seq

-- Every seq is at least `n`.
Numbered-after :
    (n since : ℕ) (es : List Event) → since < n → Numbered n es → All (λ e. after since e ≡ true) es
Numbered-after n since [] h num = tt
Numbered-after n since (e ∷ es) h num =
    (ground arith, Numbered-after (suc n) since es (omega arith) num.1)

drop-keep :
    (n since : ℕ) (es : List Event)
    → Numbered n es
    → drop (min (since + 1 - n) (length es)) es ≡ keep (after since) es
drop-keep n since [] num = let e : min (since + 1 - n) 0 ≡ 0 = omega arith in rw e
drop-keep n since (e ∷ es) num = elim (Bool-cases (ltb since n)) [
  | inl early ↦
      let none_gone : min (since + 1 - n) (suc (length es)) ≡ 0 = ground arith in
      rw none_gone (
        sym
          (keep_whole (after since) (e ∷ es) (Numbered-after n since (e ∷ es) (ground arith) num)))
  | inr late ↦
      let one_gone : min (since + 1 - n) (suc (length es))
          ≡ suc (min (since + 1 - suc n) (length es)) =
        ground arith in
      let skipped : after since e ≡ false = ground arith in
      rw (one_gone, skipped) (drop-keep (suc n) since es num.1)
]

-- The position that the code computes is the first event past `since`.
pub held_after-eq-keep :
    (l : EventLog) (since : ℕ) → IsValid l → held_after l since ≡ keep (after since) l.events
unfolding held_after
held_after-eq-keep l since v = drop-keep (l.seq + 1 - length l.events) since l.events v.numbered

module _ (limit : ℕ) (kinds : List EventKind) where
  -- The hits of a list of events.
  abbrev hits_in : List Event → List Event
  hits_in es = keep (matches kinds) es

  select_miss :
      (e : Event) (es got : List Event) (more : ℕ)
      → matches kinds e ≡ false
      → select limit kinds (e ∷ es) got more ≡ select limit kinds es got more
  unfolding select
  select_miss e es got more h = rw h

  select_room :
      (e : Event) (es got : List Event) (more : ℕ)
      → matches kinds e ≡ true
      → ltb (length got) limit ≡ true
      → select limit kinds (e ∷ es) got more ≡ select limit kinds es (got ++ e ∷ []) more
  unfolding select
  select_room e es got more h k = rw (h, k)

  select_full :
      (e : Event) (es got : List Event) (more : ℕ)
      → matches kinds e ≡ true
      → ltb (length got) limit ≡ false
      → select limit kinds (e ∷ es) got more ≡ select limit kinds es got (more + 1)
  unfolding select
  select_full e es got more h k = rw (h, k)

  -- `select` takes the hits while there is room, and counts the others.
  select-events :
      (es got : List Event) (more : ℕ)
      → (select limit kinds es got more).0 ≡ got ++ take (limit - length got) (hits_in es)
  select-events [] got more =
      unfold select in rw (take-nil {A = Event} (limit - length got)) (sym (append-nil got))
  select-events (e ∷ es) got more = elim (Bool-cases (matches kinds e)) [
    | inl hit ↦ elim (Bool-cases (ltb (length got) limit)) [
      | inl room ↦
          let one : limit - length got ≡ suc (limit - length (got ++ e ∷ [])) =
            ground (arith, length-append got (e ∷ [])) in
          rw (select_room e es got more hit room, hit, one)
            (select-events es (got ++ e ∷ []) more ∙ append_assoc got (e ∷ []) _)
      | inr full ↦
          let full_up : limit - length got ≡ 0 = ground arith in
          ap (λ r. r.0) (select_full e es got more hit full)
          ∙ select-events es got (more + 1)
          ∙ rw full_up
    ]
    | inr miss ↦ rw (select_miss e es got more miss, miss) (select-events es got more)
  ]

  select-more :
      (es got : List Event) (more : ℕ)
      → (select limit kinds es got more).1 ≡ more + (length (hits_in es) - (limit - length got))
  select-more [] got more = unfold select in omega arith
  select-more (e ∷ es) got more = elim (Bool-cases (matches kinds e)) [
    | inl hit ↦ elim (Bool-cases (ltb (length got) limit)) [
      | inl room ↦
          rw (select_room e es got more hit room, hit)
            (ground (arith, select-more es (got ++ e ∷ []) more, length-append got (e ∷ [])))
      | inr full ↦
          rw (select_full e es got more hit full, hit)
            (ground (arith, select-more es got (more + 1)))
    ]
    | inr miss ↦ rw (select_miss e es got more miss, miss) (select-more es got more)
  ]

  select_start-events : (es : List Event) → (select limit kinds es [] 0).0 ≡ take limit (hits_in es)
  select_start-events es = select-events es [] 0 ∙ (let e : limit - 0 ≡ limit = omega arith in rw e)

  select_start-more :
      (es : List Event) → (select limit kinds es [] 0).1 ≡ length (hits_in es) - limit
  select_start-more es = omega (arith, select-more es [] 0)

-- The events that a query asks for: after its `since`, and of one of its kinds.
abbrev pub wanted : EventLog → ℕ → List EventKind → List Event
wanted l since kinds = keep (matches kinds) (keep (after since) l.events)

-- Whatever is asked, at most 1000 events are returned, and room is made for one.
pub event_limit_range : (n : ℤ) → (1 ≤ event_limit n) × (event_limit n ≤ max_events_limit)
unfolding event_limit
event_limit_range (negsuc n) = omega arith
event_limit_range (pos zero) = omega arith
event_limit_range (pos (suc n)) = omega arith

-- What the answer to a query is, by seqs and kinds.
pub record Answers (l : EventLog) (q : EventsParams) : Type 0 where
  pub kinds : (e : Event) → (matches q.kinds e ≡ true) ↔ IsOfKind e.kind q.kinds
  pub limit : IsLimit q.limit (event_limit q.limit)
  pub start : IsSince l q.since (since_of l q.since)
  pub oldest :
      q.newest ≡ false
      → (query l q).events ≡ take (event_limit q.limit) (wanted l (since_of l q.since) q.kinds)
  pub newest :
      q.newest ≡ true
      → (query l q).events
        ≡ drop
            (length (wanted l (since_of l q.since) q.kinds) - event_limit q.limit)
            (wanted l (since_of l q.since) q.kinds)
  pub more : (query l q).more ≡ length (wanted l (since_of l q.since) q.kinds) - event_limit q.limit
  pub dropped :
      (query l q).dropped + length (keep (after (since_of l q.since)) l.events)
      ≡ l.seq - since_of l q.since
  pub latest : (query l q).latest ≡ l.seq

module _ (l : EventLog) (q : EventsParams) (v : IsValid l) where
  abbrev since : ℕ
  since = since_of l q.since

  abbrev hits : List Event
  hits = wanted l since q.kinds

  query-oldest : q.newest ≡ false → (query l q).events ≡ take (event_limit q.limit) hits
  unfolding query
  query-oldest h =
      rw (h, held_after-eq-keep l since v)
        (select_start-events (event_limit q.limit) q.kinds (keep (after since) l.events))

  query-newest :
      q.newest ≡ true → (query l q).events ≡ drop (length hits - event_limit q.limit) hits
  unfolding query
  query-newest h =
      rw (h, held_after-eq-keep l since v)
        (ap reverse (
            select_start-events (event_limit q.limit) q.kinds
              (reverse (keep (after since) l.events))
            ∙ ap (take (event_limit q.limit))
                (keep-reverse (matches q.kinds) (keep (after since) l.events)))
          ∙ reverse-take-reverse (event_limit q.limit) hits)

  query-more : (query l q).more ≡ length hits - event_limit q.limit
  unfolding query
  query-more = elim (Bool-cases q.newest) [
    | inl new ↦
        rw (new, held_after-eq-keep l since v)
          (select_start-more (event_limit q.limit) q.kinds (reverse (keep (after since) l.events))
            ∙ omega (
              arith,
              ap length (keep-reverse (matches q.kinds) (keep (after since) l.events)),
              length-reverse hits,
            ))
    | inr old ↦
        rw (old, held_after-eq-keep l since v)
          (select_start-more (event_limit q.limit) q.kinds (keep (after since) l.events))
  ]

  query-dropped : (query l q).dropped + length (keep (after since) l.events) ≡ l.seq - since
  unfolding query first_seq held_after
  query-dropped = ground (
    arith,
    ap length (held_after-eq-keep l since v),
    length-drop (min (since + 1 - first_seq l) (length l.events)) l.events,
    v.within,
  )

-- In a well-formed log a query returns, oldest first, the first `limit` held events past `since` of
-- the kinds asked for (of any kind, where none is), or the last `limit` of them with `newest`. The
-- limit is 100 where none is asked, 1000 at most; a `since` below 0 is the newest seq. `more` counts
-- the matching events left out, `dropped` those past `since` that the log no longer holds, `latest` is the newest seq.
pub query-Answers : (l : EventLog) (q : EventsParams) → IsValid l → Answers l q
query-Answers l q v = record {
  kinds = matches-IsOfKind q.kinds;
  limit = event_limit-IsLimit q.limit;
  start = since_of-IsSince l q.since;
  oldest = query-oldest l q v;
  newest = query-newest l q v;
  more = query-more l q v;
  dropped = query-dropped l q v;
  latest = unfold query in refl;
}
