-- ===== src/Breakpoints/Tests.antt =====
-- Breakpoints added and removed at concrete sessions, and the theorems there.
use eyedebugger.Prelude.{◌≡◌, refl, false, []}
use eyedebugger.Api.{Breakpoint}
use eyedebugger.Session.{not_owner, err}
use eyedebugger.Presence.{take_out}
use eyedebugger.Breakpoints.{remove_breakpoint, find_id, add_breakpoint, place_target}
use eyedebugger.Breakpoints.Replace.{match_locked}
use eyedebugger.Breakpoints.Steps.{
  IsNumbered, then, none_yet, added, targeted, replaced, removed, Steps-IsNumbered,
}
use eyedebugger.Breakpoints.Sample.{bare, bare-IsNumbered, shared, at_line}

theirs : (remove_breakpoint shared "agent" 1 false).1 ≡ err (not_owner "human:ann")
unfolding remove_breakpoint find_id
theirs = refl

-- A breakpoint added, a target placed, the editor's list set, and all that is temporary removed.
Steps-IsNumbered_example :
    let a = (add_breakpoint bare 1 "agent" (at_line 3 "i > 1")).0 in
    let b = (place_target a 2 "agent" (at_line 5 "")).0 in
    let c = (match_locked b 3 "human:ann" "/a.cs" [] []).0 in
    IsNumbered (take_out c (λ (b : Breakpoint). b.temporary)).0
Steps-IsNumbered_example =
    let a = (add_breakpoint bare 1 "agent" (at_line 3 "i > 1")).0 in
    let b = (place_target a 2 "agent" (at_line 5 "")).0 in
    let c = (match_locked b 3 "human:ann" "/a.cs" [] []).0 in
    Steps-IsNumbered
      (then (added bare 1 "agent" (at_line 3 "i > 1")) (
        then (targeted a 2 "agent" (at_line 5 "")) (
          then (replaced b 3 "human:ann" "/a.cs" [] [])
            (then (removed c (λ (b : Breakpoint). b.temporary)) none_yet))))
      bare-IsNumbered
