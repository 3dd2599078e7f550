-- ===== src/StopFilter/Skipped.antt =====
-- The stops that are published without the filter (`needsFilterLocked`, `conditionsDiffer`).
use eyedebugger.Prelude.{
  ℕ, ◌≡◌, refl, subst, sym, ap, String, Bool, true, false, not, ◌&&◌, ◌||◌, none, some, List, [],
  ◌∷◌, map, any, keep, ◌==◌, ==_iff, str_eq, eq_iff, arith, Bool-cases, Option-cases, inl, inr, All,
  All-append, keep_whole, keep-append,
}
use eyedebugger.StopFilter.{
  Point, PlanRecord, emulated, record_of, disagree, func_key, seen_at, conditions_differ,
  needs_filter,
}
use eyedebugger.StopFilter.Verdict.{met, asks, at_line, points, Checked}

module _ (line : ℕ) where
  -- Whether the breakpoints on the line all have the condition `c`.
  abbrev agree_at : String → List Point → Bool
  agree_at c [] = true
  agree_at c (p ∷ ps) =
      (not (p.breakpoint.line == line) || str_eq p.breakpoint.condition c) && agree_at c ps

  seen-agree_at :
      (c : String) (ps : List Point) (seen : List (ℕ × String))
      → seen_at seen line ≡ some c
      → conditions_differ ps seen ≡ false
      → agree_at c ps ≡ true
  unfolding conditions_differ seen_at
  seen-agree_at c [] seen s h = refl
  seen-agree_at c (p ∷ ps) seen s h = elim (Option-cases (seen_at seen p.breakpoint.line)) [
    | inl new ↦ ground (
      arith,
      s,
      h,
      new,
      ap (seen_at seen) {x = p.breakpoint.line} {y = line},
      seen-agree_at c ps ((p.breakpoint.line, p.breakpoint.condition) ∷ seen),
    )
    | inr (d, old) ↦ ground (
      arith,
      s,
      h,
      old,
      ap (seen_at seen) {x = p.breakpoint.line} {y = line},
      eq_iff d p.breakpoint.condition,
      eq_iff p.breakpoint.condition c,
      seen-agree_at c ps seen,
    )
  ]

same-disagree :
    (c : String) (rs : List PlanRecord)
    → any (λ (r : PlanRecord). not (str_eq r.condition c)) rs ≡ false
    → disagree rs ≡ false
unfolding disagree
same-disagree c [] h = refl
same-disagree c (r ∷ rs) h =
    subst (λ d. any (λ (q : PlanRecord). not (str_eq q.condition d)) (r ∷ rs) ≡ false)
      (sym ((eq_iff r.condition c).0 (ground (arith, h)))) h

module _ (line : ℕ) (at : Point → Bool) where
  agree-any :
      (c : String) (ps : List Point)
      → agree_at line c ps ≡ true
      → any
          (λ (r : PlanRecord). not (str_eq r.condition c))
          (map record_of (keep (at_line line at) ps))
        ≡ false
  unfolding record_of
  agree-any c [] h = refl
  agree-any c (p ∷ ps) h = ground (arith, h, agree-any c ps)

  conditions_differ-disagree :
      (ps : List Point) (seen : List (ℕ × String))
      → seen_at seen line ≡ none
      → conditions_differ ps seen ≡ false
      → disagree (map record_of (keep (at_line line at) ps)) ≡ false
  unfolding conditions_differ record_of seen_at disagree
  conditions_differ-disagree [] seen s h = refl
  conditions_differ-disagree (p ∷ ps) seen s h = elim (Bool-cases (p.breakpoint.line == line)) [
    | inl on_line ↦
        same-disagree p.breakpoint.condition (map record_of (keep (at_line line at) (p ∷ ps))) (
          agree-any p.breakpoint.condition (p ∷ ps) (
            ground (
              arith,
              h,
              s,
              on_line,
              (==_iff p.breakpoint.line line).0 on_line,
              ap (seen_at seen) {x = p.breakpoint.line} {y = line},
              eq_iff p.breakpoint.condition p.breakpoint.condition,
              seen-agree_at line p.breakpoint.condition ps
                  ((p.breakpoint.line, p.breakpoint.condition) ∷ seen),
            )))
    | inr off_line ↦ rw (off_line) (elim (Option-cases (seen_at seen p.breakpoint.line)) [
      | inl new ↦
          conditions_differ-disagree ps ((p.breakpoint.line, p.breakpoint.condition) ∷ seen)
            (ground (arith, s, off_line)) (ground (arith, h, new))
      | inr (d, old) ↦ conditions_differ-disagree ps seen s (ground (arith, h, old))
    ])
  ]

plain-asks : (list : List Point) → any emulated list ≡ false → All (λ p. asks p ≡ true) list
unfolding emulated
plain-asks [] h = tt
plain-asks (p ∷ ps) h = (ground (arith, h), plain-asks ps (ground (arith, h)))

All-wanted :
    (f : String → Bool) (m : Point → Bool) (ps : List Point)
    → All (λ p. asks p ≡ true) ps
    → All (λ p. met f p ≡ true) (keep m ps)
    → All (λ p. met f p && asks p ≡ true) (keep m ps)
All-wanted f m [] a h = tt
All-wanted f m (p ∷ ps) (a, rest) h = elim (Bool-cases (m p)) [
  | inl taken ↦
      let (own, others) = kept_taken taken h in
      rw (taken) (ground (arith, a, own), All-wanted f m ps rest others)
  | inr left ↦ rw (left) (All-wanted f m ps rest (kept_left left h))
]
  where
    kept_taken :
        m p ≡ true
        → All (λ q. met f q ≡ true) (keep m (p ∷ ps))
        → (met f p ≡ true) × All (λ q. met f q ≡ true) (keep m ps)
    kept_taken t = rw (t) (λ k. k)

    kept_left :
        m p ≡ false
        → All (λ q. met f q ≡ true) (keep m (p ∷ ps))
        → All (λ q. met f q ≡ true) (keep m ps)
    kept_left t = rw (t) (λ k. k)

file-wanted :
    (f : String → Bool) (line : ℕ) (at : Point → Bool) (key : String) (list : List Point)
    → str_eq key func_key ≡ false
    → any emulated list ≡ false
    → conditions_differ list [] ≡ false
    → Checked f line at (key, list)
    → All (λ p. met f p && asks p ≡ true) (keep (at_line line at) list)
file-wanted f line at key list file plain agree (inl function) =
    absurd (ground (arith, file, function, eq_iff key func_key))
file-wanted f line at key list file plain agree (inr (inl differ)) = absurd (
    ground
      (arith, differ, conditions_differ-disagree line at list [] (unfold seen_at in refl) agree))
file-wanted f line at key list file plain agree (inr (inr h)) =
    All-wanted f (at_line line at) list (plain-asks list plain) h

points-wanted :
    (f : String → Bool) (line : ℕ) (at : Point → Bool) (bps : List (String × List Point))
    → needs_filter bps ≡ false
    → All (Checked f line at) bps
    → All (λ p. met f p && asks p ≡ true) (keep (at_line line at) (points bps))
unfolding needs_filter
points-wanted f line at [] n h = tt
points-wanted f line at ((key, list) ∷ bps) n (h, hs) = elim (Bool-cases (str_eq key func_key)) [
  | inl function ↦ rw (function) (points-wanted f line at bps (ground (arith, function, n)) hs)
  | inr file ↦
      rw (file, keep-append (at_line line at) list (points bps))
        (All-append (λ p. met f p && asks p ≡ true) (keep (at_line line at) list)
          (keep (at_line line at) (points bps))
          (file-wanted f line at key list file (ground (arith, file, n)) (ground (arith, file, n))
            h)
          (points-wanted f line at bps (ground (arith, file, n)) hs))
]

-- A stop that does not go through the filter is one that every line breakpoint of its line asks
-- for, where the conditions that the adapter checked hold: the filter would not have swallowed it,
-- and would have attributed it to all of them.
pub needs_filter-skips :
    (f : String → Bool) (line : ℕ) (at : Point → Bool) (bps : List (String × List Point))
    → needs_filter bps ≡ false
    → All (Checked f line at) bps
    → let here = keep (at_line line at) (points bps) in keep (λ p. met f p && asks p) here ≡ here
needs_filter-skips f line at bps n h =
    keep_whole (λ p. met f p && asks p) (keep (at_line line at) (points bps))
      (points-wanted f line at bps n h)
