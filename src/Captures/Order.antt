-- ===== src/Captures/Order.antt =====
-- A capture and the one that it is compared with.
use eyedebugger.Prelude.{
  ℕ, suc, ◌≤◌, ◌<◌, ◌≡◌, ◌⊎◌, inl, inr, refl, sym, subst, Bool, true, false, not, ◌&&◌, Option,
  none, some, List, [], ◌∷◌, ◌==◌, arith, Bool-cases,
}
use eyedebugger.Api.{SessionState, stopped}
use eyedebugger.Stops.Kept.{is_stopped}
use eyedebugger.Captures.{
  StopCapture, Captures, Begun, answers, not_stopped, fetches, begin_capture, end_capture,
  mark_stale, older,
}

-- What a caller of `capture` got; it is late if the stop that was read was over by then and the values kept were stale.
pub record Answer : Type 0 where
  pub cur : StopCapture
  pub prev : Option StopCapture
  pub late : Bool

-- A session's captures, the number of the stop that a capture in flight reads, and the answers so far.
pub record World : Type 0 where
  pub session : Captures
  pub flight : Option ℕ
  pub given : List Answer

-- What happens: the program stops, or is in another state; values are set; captures begin and end.
pub data Turn : Type 0 where
  stops_now : Turn
  turns : SessionState → Turn
  marks : Turn
  begins : Turn
  fails : Turn
  ends : StopCapture → Turn

begun : World → Begun → World
begun w (answers c p) = record w { given = record { cur = c; prev = p; late = false } ∷ w.given }
begun w not_stopped = w
begun w (fetches k) = record w { flight = some k }

ended : World → StopCapture → World
ended w c =
    let r = end_capture w.session c in
    record {
      session = r.0;
      flight = none;
      given =
          record {
            cur = r.1.0;
            prev = r.1.1;
            late = not (w.session.stops == c.stops) && w.session.cur_stale;
          }
          ∷ w.given;
    }

-- The one world where no capture is in flight, and the other where one is.
unfoldable pub reading : Option ℕ → World → (ℕ → World) → World
reading none idle busy = idle
reading (some k) idle busy = busy k

unfoldable pub turn : World → Turn → World
unfolding begun ended reading
turn w stops_now = record w {
  session = record w.session { state = stopped; stops = suc w.session.stops };
}
turn w (turns state) = record w { session = record w.session { state = state } }
turn w marks = reading w.flight (record w { session = mark_stale w.session }) (λ k. w)
turn w begins = reading w.flight (begun w (begin_capture w.session)) (λ k. w)
turn w fails = record w { flight = none }
turn w (ends c) = reading w.flight w (λ k. ended w (record c { stops = k }))

unfoldable pub all_turns : World → List Turn → World
unfolding turn
all_turns w [] = w
all_turns w (t ∷ ts) = all_turns (turn w t) ts

-- The locals to compare with are of an earlier stop.
abbrev pub IsEarlier : Option StopCapture → StopCapture → Type 0
IsEarlier none c = Unit
IsEarlier (some p) c = p.stops < c.stops

abbrev HasOrder : Option StopCapture → Option StopCapture → ℕ → Type 0
HasOrder none p stops = p ≡ none
HasOrder (some c) p stops = (c.stops ≤ stops) × IsEarlier p c

abbrev IsOlder : Option StopCapture → ℕ → Bool → Type 0
IsOlder none k stale = Unit
IsOlder (some c) k stale = (c.stops < k) ⊎ ((c.stops ≡ k) × (stale ≡ true))

-- The locals kept are older than the stop that is read, or stale.
abbrev IsReading : Captures → Option ℕ → Type 0
IsReading s none = Unit
IsReading s (some k) = (k ≤ s.stops) × IsOlder s.cur k s.cur_stale

abbrev AllEarlier : List Answer → Type 0
AllEarlier [] = Unit
AllEarlier (a ∷ rest) = (a.late ≡ false → IsEarlier a.prev a.cur) × AllEarlier rest

abbrev pub IsOrdered : World → Type 0
IsOrdered w =
    HasOrder w.session.cur w.session.prev w.session.stops
    × IsReading w.session w.flight
    × AllEarlier w.given

HasOrder-suc : (c p : Option StopCapture) (n : ℕ) → HasOrder c p n → HasOrder c p (suc n)
HasOrder-suc none p n h = h
HasOrder-suc (some c) p n h = (omega (arith, h.0), h.1)

IsReading-suc :
    (s : Captures) (flight : Option ℕ)
    → IsReading s flight
    → IsReading (record s { state = stopped; stops = suc s.stops }) flight
IsReading-suc s none h = tt
IsReading-suc s (some k) h = (omega (arith, h.0), h.1)

older_or_stale :
    (m n : ℕ) (stale : Bool)
    → m ≤ n
    → (m == n && not stale) ≡ false
    → (m < n) ⊎ ((m ≡ n) × (stale ≡ true))
older_or_stale m n stale le h = ground (arith, le, h)

IsReading-state :
    (s : Captures) (state : SessionState) (flight : Option ℕ)
    → IsReading s flight
    → IsReading (record s { state = state }) flight
IsReading-state s state none h = tt
IsReading-state s state (some k) h = h

-- What the start of a capture may lead to.
abbrev Begins : Captures → Begun → Type 0
Begins s (answers c p) = IsEarlier p c
Begins s not_stopped = Unit
Begins s (fetches k) = (k ≤ s.stops) × IsOlder s.cur k s.cur_stale

module _ (state : SessionState) (n : ℕ) (stale : Bool) where
  -- The session with these captures.
  abbrev having : Option StopCapture → Option StopCapture → Captures
  having c p = record { state = state; stops = n; cur = c; prev = p; cur_stale = stale }

  begin_capture-Begins :
      (c p : Option StopCapture) → HasOrder c p n → Begins (having c p) (begin_capture (having c p))
  unfolding begin_capture
  begin_capture-Begins none p o = elim (Bool-cases (is_stopped state)) [
    | inl halted ↦ rw halted (omega arith, tt)
    | inr goes ↦ rw goes tt
  ]
  begin_capture-Begins (some c) p o = elim (Bool-cases (c.stops == n && not stale)) [
    | inl kept ↦ rw kept o.1
    | inr asks ↦ elim (Bool-cases (is_stopped state)) [
      | inl halted ↦ rw (asks, halted) (omega arith, older_or_stale c.stops n stale o.0 asks)
      | inr goes ↦ rw (asks, goes) tt
    ]
  ]

  end_capture-Ordered :
      (c : StopCapture) (d p : Option StopCapture)
      → HasOrder d p n
      → c.stops ≤ n
      → IsOlder d c.stops stale
      → let r = end_capture (having d p) c in
        HasOrder r.0.cur r.0.prev n
        × (r.0.stops ≡ n)
        × ((not (n == c.stops) && stale) ≡ false → IsEarlier r.1.1 r.1.0)
  unfolding end_capture older
  end_capture-Ordered c none p o le older = ground (arith, o, le)
  end_capture-Ordered c (some d) none o le older = ground (arith, o, le, older)
  end_capture-Ordered c (some d) (some p) o le older = ground (arith, o, le, older)

begun-Ordered : (w : World) (b : Begun) → Begins w.session b → IsOrdered w → IsOrdered (begun w b)
unfolding begun
begun-Ordered w (answers c p) h (o, r, a) = (o, r, ((λ _. h), a))
begun-Ordered w not_stopped h ordered = ordered
begun-Ordered w (fetches k) h (o, r, a) = (o, h, a)

ended-Ordered :
    (w : World) (c : StopCapture)
    → IsReading w.session (some c.stops)
    → IsOrdered w
    → IsOrdered (ended w c)
unfolding ended
ended-Ordered w c r (o, _, a) =
    let e =
      end_capture-Ordered w.session.state w.session.stops w.session.cur_stale c w.session.cur
        w.session.prev o r.0 r.1 in
    (subst (HasOrder _ _) (sym e.1) e.0, tt, (e.2, a))

reading_cases :
    (P : World → Type 0) (flight : Option ℕ) (idle : World) (busy : ℕ → World)
    → (flight ≡ none → P idle)
    → ((k : ℕ) → flight ≡ some k → P (busy k))
    → P (reading flight idle busy)
unfolding reading
reading_cases P none idle busy h k = h refl
reading_cases P (some n) idle busy h k = k n refl

IsOrdered-marked :
    (w : World)
    → w.flight ≡ none
    → IsOrdered w
    → IsOrdered (record w { session = mark_stale w.session })
unfolding mark_stale
IsOrdered-marked w e (o, r, a) =
    (o, subst (IsReading (record w.session { cur_stale = true })) (sym e) tt, a)

turn-IsOrdered : (w : World) (t : Turn) → IsOrdered w → IsOrdered (turn w t)
turn-IsOrdered w stops_now (o, r, a) =
    unfold turn in
    (
      HasOrder-suc w.session.cur w.session.prev w.session.stops o,
      IsReading-suc w.session w.flight r,
      a,
    )
turn-IsOrdered w (turns state) (o, r, a) =
    unfold turn in (o, IsReading-state w.session state w.flight r, a)
turn-IsOrdered w marks ordered =
    unfold turn in
    reading_cases IsOrdered w.flight (record w { session = mark_stale w.session }) (λ k. w)
      (λ idle. IsOrdered-marked w idle ordered) (λ k busy. ordered)
turn-IsOrdered w begins ordered =
    unfold turn in
    reading_cases IsOrdered w.flight (begun w (begin_capture w.session)) (λ k. w)
      (λ idle.
        begun-Ordered w (begin_capture w.session)
          (begin_capture-Begins w.session.state w.session.stops w.session.cur_stale w.session.cur
            w.session.prev ordered.0)
          ordered)
      (λ k busy. ordered)
turn-IsOrdered w fails (o, r, a) = unfold turn in (o, tt, a)
turn-IsOrdered w (ends c) ordered =
    unfold turn in
    reading_cases IsOrdered w.flight w (λ k. ended w (record c { stops = k })) (λ idle. ordered)
      (λ k busy.
        ended-Ordered w (record c { stops = k }) (subst (IsReading w.session) busy ordered.1)
          ordered)

-- Over any interleaving of stops, changes of values and captures, where one capture runs at a time:
-- the captures kept are of two stops in order, none of a stop to come, and a caller gets, to compare
-- its capture with, one of an earlier stop or none. The answers excepted are those where the values
-- kept were stale and the program stopped again before the new ones were stored.
pub all_turns-IsOrdered : (w : World) (ts : List Turn) → IsOrdered w → IsOrdered (all_turns w ts)
unfolding all_turns
all_turns-IsOrdered w [] ordered = ordered
all_turns-IsOrdered w (t ∷ ts) ordered =
    all_turns-IsOrdered (turn w t) ts (turn-IsOrdered w t ordered)
