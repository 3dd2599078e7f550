-- ===== src/Breakpoints/Steps.antt =====
-- The steps of breakpoints.go and replace.go on a session's breakpoints, in any order.
use eyedebugger.Prelude.{
  ℕ, suc, inl, inr, refl, ap, String, Bool, true, false, not, List, arith, Option-cases,
}
use eyedebugger.Api.{Breakpoint, BreakpointSpec}
use eyedebugger.Session.{Session}
use eyedebugger.Presence.{take_out}
use eyedebugger.Presence.Cleanup.{breakpoints, take_out-splits}
use eyedebugger.Breakpoints.{
  add_new, new_breakpoint, set_emulated, add_breakpoint, place_target, find_own, find_target,
  list_at, spec_key,
}
use eyedebugger.Breakpoints.Replace.{ReplaceItem, match_locked}
use eyedebugger.Breakpoints.Numbered.{
  times, times-keep-le, times-write_all, Numbered, insert-Numbered,
}
use eyedebugger.Breakpoints.Replace.Numbers.{match_locked-Numbered}

-- `removeBreakpoints` takes any matcher: the one of a client's removal, of an execution's temporary
-- breakpoints or of a client that left.
pub data Step : Session → Session → Type 0 where
  added :
      (s : Session) (now : ℕ) (owner : String) (spec : BreakpointSpec)
      → Step s (add_breakpoint s now owner spec).0
  targeted :
      (s : Session) (now : ℕ) (owner : String) (spec : BreakpointSpec)
      → Step s (place_target s now owner spec).0
  replaced :
      (s : Session) (now : ℕ) (owner key : String) (items : List ReplaceItem) (kept : List ℕ)
      → Step s (match_locked s now owner key items kept).0
  removed : (s : Session) (match : Breakpoint → Bool) → Step s (take_out s match).0

pub data Steps : Session → Session → Type 0 where
  none_yet : {s : Session} → Steps s s
  then : {s t u : Session} → Step s t → Steps t u → Steps s u

abbrev pub IsNumbered : Session → Type 0
IsNumbered s = (id : ℕ) → Numbered s id

add_breakpoint-Numbered :
    (s : Session) (now : ℕ) (owner : String) (spec : BreakpointSpec)
    → IsNumbered s
    → IsNumbered (add_breakpoint s now owner spec).0
unfolding add_breakpoint add_new new_breakpoint set_emulated
add_breakpoint-Numbered s now owner spec v id =
    elim (Option-cases (find_own owner (spec_key spec) (list_at spec.file s.bps))) [
      | inl e ↦
          rw (e, add_breakpoint)
            (insert-Numbered s spec.file (new_breakpoint (suc s.next_bp) now owner spec) refl id
              (v id) (v (suc s.next_bp)))
      | inr (b, e) ↦
          let b' =
            set_emulated
              (record b { condition = spec.condition; temporary = false; anchor = spec.anchor })
              spec in
          rw (e, add_breakpoint) (ground (arith, v id, times-write_all id b' s.bps))
    ]

place_target-Numbered :
    (s : Session) (now : ℕ) (owner : String) (spec : BreakpointSpec)
    → IsNumbered s
    → IsNumbered (place_target s now owner spec).0
unfolding place_target new_breakpoint set_emulated
place_target-Numbered s now owner spec v id =
    elim (Option-cases
      (find_target owner (record { function = ""; line = spec.line }) (list_at spec.file s.bps))) [
        | inl e ↦
            let b = record (new_breakpoint (suc s.next_bp) now owner spec) { temporary = true } in
            rw (e, place_target) (insert-Numbered s spec.file b refl id (v id) (v (suc s.next_bp)))
        | inr (b, e) ↦ rw (e, place_target) (v id)
      ]

pub take_out-Numbered :
    (s : Session) (match : Breakpoint → Bool) → IsNumbered s → IsNumbered (take_out s match).0
unfolding take_out
take_out-Numbered s match v id =
    let (gone, left) = take_out-splits s match in
    ground
      (arith, v id, ap (times id) left, times-keep-le id (λ b. not (match b)) (breakpoints s.bps))

Step-Numbered : {s t : Session} → Step s t → IsNumbered s → IsNumbered t
Step-Numbered (added s now owner spec) v = add_breakpoint-Numbered s now owner spec v
Step-Numbered (targeted s now owner spec) v = place_target-Numbered s now owner spec v
Step-Numbered (replaced s now owner key items kept) v =
    match_locked-Numbered s now owner key items kept v
Step-Numbered (removed s match) v = take_out-Numbered s match v

-- However a session's breakpoints are added, placed as run-until targets, replaced from editors and
-- removed, in any order, no two of them have the same id and each id is from 1 to the last number
-- given, if that held before.
pub Steps-IsNumbered : {s t : Session} → Steps s t → IsNumbered s → IsNumbered t
Steps-IsNumbered none_yet v = v
Steps-IsNumbered (then p ps) v = Steps-IsNumbered ps (Step-Numbered p v)
