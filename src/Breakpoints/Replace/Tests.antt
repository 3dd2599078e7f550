-- ===== src/Breakpoints/Replace/Tests.antt =====
-- An editor's list of breakpoints at a concrete session, and the theorems there.
use eyedebugger.Prelude.{◌+◌, ◌≡◌, refl, false, none, List, [], ◌∷◌, map, keep}
use eyedebugger.Api.{Breakpoint}
use eyedebugger.Presence.Cleanup.{breakpoints}
use eyedebugger.Breakpoints.{list_at, set_emulated, new_breakpoint, insert, append_at, spec_key}
use eyedebugger.Breakpoints.Replace.{
  ReplaceItem, match_locked, cells_of, match_items, match_pass, offer, pick, update, is_waiting,
  is_refused, by_requested, by_placed, is_gone, put_list, add_items,
}
use eyedebugger.Breakpoints.Replace.Others.{is_other, match_locked-others}
use eyedebugger.Breakpoints.Replace.Counts.{editors, accepted}
use eyedebugger.Breakpoints.Replace.Adding.{AreAnswered}
use eyedebugger.Breakpoints.Replace.Exact.{match_locked-exact}
use eyedebugger.Breakpoints.Sample.{shared, at_line}
use eyedebugger.Slots.{same_key, key_of}

-- Line 3 with a condition, and line 8.
abbrev wanted : List ReplaceItem
wanted =
    record { spec = at_line 3 "i > 1"; refused = none; b = none; is_new = false; changed = false }
    ∷ record { spec = at_line 8 ""; refused = none; b = none; is_new = false; changed = false }
    ∷ []

after_ids :
    map
      (λ (b : Breakpoint). b.id)
      (breakpoints (match_locked shared 9 "human:ann" "/a.cs" wanted []).0.bps)
    ≡ 1 ∷ 2 ∷ 4 ∷ []
unfolding match_locked cells_of match_items match_pass offer pick update is_waiting is_refused
    by_requested by_placed is_gone put_list add_items list_at set_emulated new_breakpoint insert
    append_at spec_key same_key key_of
after_ids = refl

match_locked-others_example :
    keep
      (is_other "human:ann")
      (breakpoints (match_locked shared 9 "human:ann" "/a.cs" wanted []).0.bps)
    ≡ keep (is_other "human:ann") (breakpoints shared.bps)
match_locked-others_example = match_locked-others shared 9 "human:ann" "/a.cs" wanted []

match_locked-exact_example :
    let r = match_locked shared 9 "human:ann" "/a.cs" wanted [] in
    AreAnswered "human:ann" wanted r.1 (breakpoints r.0.bps)
    × (editors "human:ann" (breakpoints r.0.bps) + editors "human:ann" (list_at "/a.cs" shared.bps)
        ≡ editors "human:ann" (breakpoints shared.bps) + accepted wanted)
match_locked-exact_example =
    match_locked-exact shared 9 "human:ann" "/a.cs" wanted (refl, (refl, tt))
