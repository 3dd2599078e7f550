-- ===== src/Group/Tests.antt =====
-- The events of two sessions merged, and the theorems on a group's events there.
use eyedebugger.Prelude.{ℕ, ◌≡◌, refl, false, List, [], ◌∷◌, ◌++◌, arith, map, keep, ltb}
use eyedebugger.Api.{Event, blank}
use eyedebugger.Group.{
  MemberEvents, GroupEvent, merge_events, merge, total, choose, better, merge_before, advance,
  next_at, kept_of,
}
use eyedebugger.Group.Merging.{of_session}
use eyedebugger.Group.Cursor.{next_at-resume}

abbrev at : ℕ → ℕ → Event
at seq time = record blank { seq = seq; time = time }

abbrev one : MemberEvents
one = record { id = "s-1"; events = at 4 10 ∷ at 5 30 ∷ []; latest = 6; more = 0 }

abbrev two : MemberEvents
two = record { id = "s-2"; events = at 1 20 ∷ at 2 20 ∷ at 3 40 ∷ []; latest = 9; more = 2 }

abbrev parts : List MemberEvents
parts = one ∷ two ∷ []

order :
    map (λ (g : GroupEvent). g.session_id) (merge_events parts)
    ≡ "s-1" ∷ "s-2" ∷ "s-2" ∷ "s-1" ∷ "s-2" ∷ []
unfolding merge_events merge total choose better merge_before advance
order = refl

next_at-resume_example :
    let kept = kept_of (merge_events parts) 3 false in
    of_session "s-2" kept ++ keep (λ (e : Event). ltb (next_at two kept 0 false) e.seq) two.events
    ≡ two.events
next_at-resume_example =
    next_at-resume parts two 3 0 (omega arith) refl (omega arith, (omega arith, (omega arith, tt)))
      (omega arith, (omega arith, (omega arith, tt)))
