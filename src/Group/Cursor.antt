-- ===== src/Group/Cursor.antt =====
-- The cursor after a page of a group's events (`nextCursor`).
use eyedebugger.Prelude.{
  ℕ, zero, suc, ◌≤◌, ◌<◌, ◌≡◌, refl, sym, ◌∙◌, ap, String, true, false, ◌&&◌, List, [], ◌∷◌, ◌++◌,
  drop, take, keep, keep_whole, keep_empty, length, max, ltb, ◌==◌, str_eq, if◌then◌else◌, arith,
  Bool-cases, inl, inr, append_assoc, All, take-append-drop, take-append_exact, length-take,
  length-drop, nil_of_length, take-all,
}
use eyedebugger.Api.{Event}
use eyedebugger.Group.{MemberEvents, GroupEvent, merge_events, returned, last_seq, next_at, kept_of}
use eyedebugger.Group.Merging.{of_session, events_at, members_at, merge_events-of_session}

-- The seqs of events that come after `at`, in their order.
abbrev pub Ascending : ℕ → List Event → Type 0
Ascending at [] = Unit
Ascending at (e ∷ es) = (at < e.seq) × Ascending e.seq es

-- The seq of the last event, `at` where there is none.
abbrev final : ℕ → List Event → ℕ
final at [] = at
final at (e ∷ es) = final e.seq es

final-le : (at : ℕ) (es : List Event) (k : ℕ) → Ascending at es → at ≤ final at (take k es)
final-le at es zero h = omega arith
final-le at [] (suc k) h = omega arith
final-le at (e ∷ es) (suc k) (h, hs) = omega (arith, h, final-le e.seq es k hs)

Ascending-All :
    (at low : ℕ) (es : List Event)
    → low ≤ at
    → Ascending at es
    → All (λ (e : Event). ltb low e.seq ≡ true) es
Ascending-All at low [] le h = tt
Ascending-All at low (e ∷ es) le (h, hs) =
    (ground (arith, le, h), Ascending-All e.seq low es (omega (arith, le, h)) hs)

after-final :
    (at : ℕ) (es : List Event) (k : ℕ)
    → Ascending at es
    → keep (λ (e : Event). ltb (final at (take k es)) e.seq) es ≡ drop k es
after-final at es zero h =
    keep_whole (λ e. ltb at e.seq) es (Ascending-All at at es (omega arith) h)
after-final at [] (suc k) h = refl
after-final at (e ∷ es) (suc k) (h, hs) =
    ground (arith, final-le e.seq es k hs, after-final e.seq es k hs)

of_session-append :
    (id : String) (gs hs : List GroupEvent)
    → of_session id (gs ++ hs) ≡ of_session id gs ++ of_session id hs
of_session-append id [] hs = refl
of_session-append id (g ∷ gs) hs =
    ap (λ es. (if str_eq g.session_id id then g.event ∷ [] else []) ++ es)
      (of_session-append id gs hs)
    ∙ sym (
        append_assoc (if str_eq g.session_id id then g.event ∷ [] else []) (of_session id gs)
          (of_session id hs))

returned-length : (id : String) (gs : List GroupEvent) → returned id gs ≡ length (of_session id gs)
unfolding returned
returned-length id [] = refl
returned-length id (g ∷ gs) = ground (arith, returned-length id gs)

last_seq-final :
    (id : String) (gs : List GroupEvent) (s : ℕ) → last_seq id gs s ≡ final s (of_session id gs)
unfolding last_seq
last_seq-final id [] s = refl
last_seq-final id (g ∷ gs) s =
    ground (arith, last_seq-final id gs (if str_eq g.session_id id then g.event.seq else s))

bounded-ltb :
    (low : ℕ) (es : List Event)
    → All (λ (e : Event). e.seq ≤ low) es
    → All (λ (e : Event). ltb low e.seq ≡ false) es
bounded-ltb low [] h = tt
bounded-ltb low (e ∷ es) (h, hs) = (ground (arith, h), bounded-ltb low es hs)

-- The seq after which a member's next query starts, from what was returned of its events.
next_of : ℕ → MemberEvents → List Event → ℕ
next_of at pt got =
    if pt.more == 0 && length got == length pt.events
    then max at pt.latest
    else if ltb 0 (length got)
    then max at (final 0 got)
    else at

next_at-of :
    (pt : MemberEvents) (kept : List GroupEvent) (at : ℕ)
    → next_at pt kept at false ≡ next_of at pt (of_session pt.id kept)
unfolding next_at next_of
next_at-of pt kept at = ground (arith, returned-length pt.id kept, last_seq-final pt.id kept 0)

next_of-final :
    (at : ℕ) (pt : MemberEvents) (got : List Event)
    → (pt.more == 0 && length got == length pt.events) ≡ false
    → at ≤ final at got
    → next_of at pt got ≡ final at got
unfolding next_of
next_of-final at pt [] h le = ground (arith, h, le)
next_of-final at pt (e ∷ es) h le = ground (arith, h, le)

next_of-rest :
    (pt : MemberEvents) (at k : ℕ)
    → Ascending at pt.events
    → All (λ (e : Event). e.seq ≤ pt.latest) pt.events
    → keep (λ (e : Event). ltb (next_of at pt (take k pt.events)) e.seq) pt.events
      ≡ drop k pt.events
next_of-rest pt at k h b =
    elim (Bool-cases (pt.more == 0 && length (take k pt.events) == length pt.events)) [
      | inr some_left ↦
          rw (next_of-final at pt (take k pt.events) some_left (final-le at pt.events k h))
            (after-final at pt.events k h)
      | inl everything ↦
          keep_empty (λ e. ltb (next_of at pt (take k pt.events)) e.seq) pt.events
            (bounded-ltb (next_of at pt (take k pt.events)) pt.events (below everything))
          ∙ sym (
              nil_of_length (drop k pt.events)
                (length-drop k pt.events ∙ ground (arith, everything, length-take k pt.events)))
    ]
  where
    raise :
        {low high : ℕ} (es : List Event)
        → low ≤ high
        → All (λ (e : Event). e.seq ≤ low) es
        → All (λ (e : Event). e.seq ≤ high) es
    raise [] le t = tt
    raise (e ∷ es) le (t, ts) = (omega (arith, le, t), raise es le ts)

    below :
        (pt.more == 0 && length (take k pt.events) == length pt.events) ≡ true
        → All (λ (e : Event). e.seq ≤ next_of at pt (take k pt.events)) pt.events
    below everything =
        raise {low = pt.latest} {high = next_of at pt (take k pt.events)} pt.events
          (unfold next_of in ground (arith, everything)) b

kept-prefix :
    (merged : List GroupEvent) (limit : ℕ) (id : String)
    → of_session id (kept_of merged limit false)
      ≡ take (length (of_session id (kept_of merged limit false))) (of_session id merged)
unfolding kept_of
kept-prefix merged limit id = elim (Bool-cases (ltb limit (length merged))) [
  | inl cut ↦ rw (cut) (prefix limit)
  | inr whole ↦ rw (whole) (sym (take_whole (of_session id merged)))
]
  where
    prefix :
        (n : ℕ)
        → of_session id (take n merged)
          ≡ take (length (of_session id (take n merged))) (of_session id merged)
    prefix n =
        sym (take-append_exact (of_session id (take n merged)) (of_session id (drop n merged)))
        ∙ ap (take (length (of_session id (take n merged)))) (
            sym (of_session-append id (take n merged) (drop n merged))
            ∙ ap (of_session id) (take-append-drop n merged))

    take_whole : (es : List Event) → take (length es) es ≡ es
    take_whole es = take-all (length es) es (omega arith)

-- After a page of a group's events, oldest first and cut at any limit, a member's next cursor asks for
-- exactly those of its page's events that were not returned: none is skipped and none comes twice. The
-- member's id is one member's, and its page is in the order of seqs after the cursor.
pub next_at-resume :
    (parts : List MemberEvents) (pt : MemberEvents) (limit at : ℕ)
    → members_at pt.id parts ≤ 1
    → events_at pt.id parts ≡ pt.events
    → Ascending at pt.events
    → All (λ (e : Event). e.seq ≤ pt.latest) pt.events
    → let kept = kept_of (merge_events parts) limit false in
      of_session pt.id kept ++ keep (λ (e : Event). ltb (next_at pt kept at false) e.seq) pt.events
      ≡ pt.events
next_at-resume parts pt limit at m own h b =
    let kept = kept_of (merge_events parts) limit false in
    let k = length (of_session pt.id kept) in
    let got : of_session pt.id kept ≡ take k pt.events =
      kept-prefix (merge_events parts) limit pt.id
      ∙ ap (take k) ((merge_events-of_session parts pt.id m).0 ∙ own) in
    ap (λ n. of_session pt.id kept ++ keep (λ (e : Event). ltb n e.seq) pt.events)
      (next_at-of pt kept at ∙ ap (next_of at pt) got)
    ∙ ap (λ es. of_session pt.id kept ++ es) (next_of-rest pt at k h b)
    ∙ ap (λ es. es ++ drop k pt.events) got
    ∙ take-append-drop k pt.events
