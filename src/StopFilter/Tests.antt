-- ===== src/StopFilter/Tests.antt =====
-- The stop filter at concrete breakpoints, and its theorems there.
use eyedebugger.Prelude.{
  ℕ, ◌≡◌, refl, ◌&&◌, String, Bool, true, false, none, some, List, [], ◌∷◌, keep, All, inl, inr,
  str_eq,
}
use eyedebugger.Api.{Breakpoint}
use eyedebugger.StopFilter.{
  every, holds, Point, emulated, conditions_differ, seen_at, needs_filter, plan, group, record_of,
  disagree, held, to_evaluate, to_evaluate_from, add_condition, answer, decide, decide_from,
  decide_one, stops, nonempty, attribution, insert_stop,
}
use eyedebugger.StopFilter.Verdict.{
  Checked, breakpoints_of, points, met, asks, prints, at_line, decide-verdict,
}
use eyedebugger.StopFilter.Skipped.{needs_filter-skips}

abbrev at : ℕ → String → ℕ → Breakpoint
at id condition hits = record {
  id = id;
  file = "/a.cs";
  requested_line = 3;
  line = 3;
  verified = true;
  message = "";
  condition = condition;
  temporary = false;
  owner = "agent";
  created_at = 0;
  note = "";
  function = "";
  anchor = "";
  hit_condition = "";
  log_message = "";
  hits = hits;
  editor = false;
}

abbrev counted : Point
counted = record {
  breakpoint = at 2 "i > 5" 1;
  hit = some (record { op = every; n = 2 });
  log = [];
}

abbrev logged : Point
logged = record {
  breakpoint = at 1 "i > 5" 0;
  hit = none;
  log = record { text = "x"; expr = "" } ∷ [];
}

abbrev plain : Point
plain = record { breakpoint = at 3 "i > 7" 0; hit = none; log = [] }

abbrev files : List (String × List Point)
files = ("/a.cs", plain ∷ counted ∷ logged ∷ []) ∷ ("", plain ∷ []) ∷ []

-- Only "i > 5" holds.
abbrev six : String → Bool
six c = str_eq c "i > 5"

abbrev anywhere : Point → Bool
anywhere p = true

filtered : needs_filter files ≡ true
unfolding needs_filter emulated
filtered = refl

conflicting : conditions_differ (plain ∷ counted ∷ []) [] ≡ true
unfolding conditions_differ seen_at
conflicting = refl

attributed :
    attribution (decide (plan 3 anywhere files) (held six (plan 3 anywhere files))).stop_for
    ≡ record { id = 2; owner = "agent" } ∷ []
unfolding attribution insert_stop decide decide_from decide_one holds plan group record_of disagree
    held to_evaluate to_evaluate_from add_condition answer
attributed = refl

files-Checked : All (Checked six 3 anywhere) files
unfolding disagree record_of
files-Checked = (inr (inl refl), (inl refl, tt))

decide-verdict_example :
    let records = plan 3 anywhere files in
    let d = decide records (held six records) in
    let here = keep (at_line 3 anywhere) (points files) in
    (breakpoints_of d.stop_for ≡ keep (λ p. met six p && asks p) here)
    × (breakpoints_of d.hit ≡ keep (λ p. met six p && emulated p) here)
    × (breakpoints_of d.logs ≡ keep (λ p. met six p && prints p) here)
    × (stops d ≡ nonempty (keep (λ p. met six p && asks p) here))
decide-verdict_example = decide-verdict six 3 anywhere files files-Checked

abbrev simple : List (String × List Point)
simple =
    (
      "/a.cs",
      record plain { breakpoint = at 3 "i > 5" 0 }
          ∷ record plain { breakpoint = at 4 "i > 5" 0 }
          ∷ [],
    )
    ∷ []

needs_filter-skips_example :
    let here = keep (at_line 3 anywhere) (points simple) in
    keep (λ p. met six p && asks p) here ≡ here
needs_filter-skips_example =
    needs_filter-skips six 3 anywhere simple unfiltered (inr (inr (refl, (refl, tt))), tt)
  where
    unfiltered : needs_filter simple ≡ false
    unfiltered = unfold needs_filter emulated conditions_differ seen_at in refl
