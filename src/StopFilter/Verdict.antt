-- ===== src/StopFilter/Verdict.antt =====
-- What the filter decides, against what each breakpoint alone asks for.
use eyedebugger.Prelude.{
  ℕ, ◌+◌, ◌≡◌, ◌⊎◌, All-append, refl, sym, ◌∙◌, ap, String, Bool, true, not, ◌&&◌, ◌||◌, none, some,
  List, [], ◌∷◌, ◌++◌, map, keep, keep-append, append-nil, append_assoc, ◌==◌, str_eq, eq_iff,
  if◌then◌else◌, arith, Bool-cases, inl, inr, All, Option-cases,
}
use eyedebugger.StopFilter.{
  Point, holds, PlanRecord, nonempty, emulated, record_of, disagree, group, plan, func_key, held,
  Decision, decide_one, decide_from, decide, stops,
}
use eyedebugger.StopFilter.Evaluation.{held-each}

-- Whether the hit count lets a breakpoint act, at this stop.
abbrev pub due : Point → Bool
due p = elim p.hit [ none ↦ true | some h ↦ holds h (p.breakpoint.hits + 1) ]

-- Whether a breakpoint whose condition holds stops the program, and whether it logs.
abbrev pub asks : Point → Bool
asks p = due p && not (nonempty p.log)

abbrev pub prints : Point → Bool
prints p = due p && nonempty p.log

abbrev pub met : (String → Bool) → Point → Bool
met f p = str_eq p.breakpoint.condition "" || f p.breakpoint.condition

abbrev pub at_line : ℕ → (Point → Bool) → Point → Bool
at_line line at p = p.breakpoint.line == line && at p

-- The line breakpoints of a session.
abbrev pub points : List (String × List Point) → List Point
points [] = []
points ((key, list) ∷ bps) = if str_eq key func_key then points bps else list ++ points bps

abbrev pub breakpoints_of : List PlanRecord → List Point
breakpoints_of rs = map (λ (r : PlanRecord). r.b) rs

-- A record that carries its breakpoint's count, hit condition and log message, and a condition that
-- is answered as the breakpoint's own.
abbrev Carries : (String → Bool) → PlanRecord → Type 0
Carries f r =
    (r.hits ≡ r.b.breakpoint.hits)
    × (r.hit ≡ r.b.hit)
    × (r.log ≡ r.b.log)
    × (str_eq r.condition "" || f r.condition ≡ met f r.b)

abbrev Adds : (String → Bool) → Decision → List PlanRecord → Decision → Type 0
Adds f d rs e =
    (breakpoints_of e.stop_for
      ≡ breakpoints_of d.stop_for ++ keep (λ p. met f p && asks p) (breakpoints_of rs))
    × (breakpoints_of e.hit
        ≡ breakpoints_of d.hit ++ keep (λ p. met f p && emulated p) (breakpoints_of rs))
    × (breakpoints_of e.logs
        ≡ breakpoints_of d.logs ++ keep (λ p. met f p && prints p) (breakpoints_of rs))

map-append :
    (rs : List PlanRecord) (qs : List PlanRecord)
    → breakpoints_of (rs ++ qs) ≡ breakpoints_of rs ++ breakpoints_of qs
map-append [] qs = refl
map-append (r ∷ rs) qs = ap (λ ps. r.b ∷ ps) (map-append rs qs)

decide_one-Adds :
    (f : String → Bool) (d : Decision) (r : PlanRecord)
    → Carries f r
    → Adds f d (r ∷ []) (decide_one d r (str_eq r.condition "" || f r.condition))
unfolding decide_one emulated
decide_one-Adds f d r (n, h, l, c) = elim (Option-cases r.b.hit) [
  | inl plain ↦ ground (
    arith,
    n,
    h,
    l,
    c,
    plain,
    map-append d.stop_for (r ∷ []),
    map-append d.hit (r ∷ []),
    map-append d.logs (r ∷ []),
    append-nil (breakpoints_of d.stop_for),
    append-nil (breakpoints_of d.hit),
    append-nil (breakpoints_of d.logs),
  )
  | inr (k, counts) ↦ ground (
    arith,
    n,
    h,
    l,
    c,
    counts,
    map-append d.stop_for (r ∷ []),
    map-append d.hit (r ∷ []),
    map-append d.logs (r ∷ []),
    append-nil (breakpoints_of d.stop_for),
    append-nil (breakpoints_of d.hit),
    append-nil (breakpoints_of d.logs),
  )
]

decide_from-Adds :
    (f : String → Bool) (d : Decision) (rs : List PlanRecord)
    → All (Carries f) rs
    → Adds f d rs
        (decide_from d rs (map (λ (r : PlanRecord). str_eq r.condition "" || f r.condition) rs))
unfolding decide_from
decide_from-Adds f d [] h = (
  sym (append-nil (breakpoints_of d.stop_for)),
  sym (append-nil (breakpoints_of d.hit)),
  sym (append-nil (breakpoints_of d.logs)),
)
decide_from-Adds f d (r ∷ rs) (h, hs) =
    let e = decide_one d r (str_eq r.condition "" || f r.condition) in
    let (stop, hit, logs) = decide_one-Adds f d r h in
    let (stops', hits', logs') = decide_from-Adds f e rs hs in
    (
      joined (λ p. met f p && asks p) d.stop_for r rs stop stops',
      joined (λ p. met f p && emulated p) d.hit r rs hit hits',
      joined (λ p. met f p && prints p) d.logs r rs logs logs',
    )
  where
    joined :
        (m : Point → Bool) (before : List PlanRecord) (r : PlanRecord) (rs : List PlanRecord)
        {mid after : List Point}
        → mid ≡ breakpoints_of before ++ keep m (r.b ∷ [])
        → after ≡ mid ++ keep m (breakpoints_of rs)
        → after ≡ breakpoints_of before ++ keep m (r.b ∷ breakpoints_of rs)
    joined m before r rs {mid} {after} first second =
        second
        ∙ ap (λ ps. ps ++ keep m (breakpoints_of rs)) first
        ∙ append_assoc (breakpoints_of before) (keep m (r.b ∷ [])) (keep m (breakpoints_of rs))
        ∙ ap (λ ps. breakpoints_of before ++ ps)
            (sym (keep-append m (r.b ∷ []) (breakpoints_of rs)))

-- What the adapter checked before it stopped the program: where the conditions of a file's
-- breakpoints on the line are all the same, its breakpoint there is on that condition, which holds.
abbrev pub Checked : (String → Bool) → ℕ → (Point → Bool) → String × List Point → Type 0
Checked f line at (key, list) =
    (key ≡ func_key)
    ⊎ ((disagree (map record_of (keep (at_line line at) list)) ≡ true)
        ⊎ All (λ p. met f p ≡ true) (keep (at_line line at) list))

records-breakpoints : (ps : List Point) → breakpoints_of (map record_of ps) ≡ ps
unfolding record_of
records-breakpoints [] = refl
records-breakpoints (p ∷ ps) = ap (λ qs. p ∷ qs) (records-breakpoints ps)

unconditional : List PlanRecord → List PlanRecord
unconditional rs = map (λ (r : PlanRecord). record r { condition = "" }) rs

unconditional-breakpoints :
    (rs : List PlanRecord) → breakpoints_of (unconditional rs) ≡ breakpoints_of rs
unfolding unconditional
unconditional-breakpoints [] = refl
unconditional-breakpoints (r ∷ rs) = ap (λ ps. r.b ∷ ps) (unconditional-breakpoints rs)

group-breakpoints :
    (line : ℕ) (at : Point → Bool) (list : List Point)
    → breakpoints_of (group line at list) ≡ keep (at_line line at) list
unfolding group unconditional
group-breakpoints line at list =
    elim (Bool-cases (disagree (map record_of (keep (at_line line at) list)))) [
      | inl differ ↦ rw (differ) (records-breakpoints (keep (at_line line at) list))
      | inr agree ↦ rw (agree) (
          unconditional-breakpoints (map record_of (keep (at_line line at) list))
          ∙ records-breakpoints (keep (at_line line at) list))
    ]

plan-breakpoints :
    (line : ℕ) (at : Point → Bool) (bps : List (String × List Point))
    → breakpoints_of (plan line at bps) ≡ keep (at_line line at) (points bps)
unfolding plan
plan-breakpoints line at [] = refl
plan-breakpoints line at ((key, list) ∷ bps) = elim (Bool-cases (str_eq key func_key)) [
  | inl function ↦ ground (arith, function, plan-breakpoints line at bps)
  | inr file ↦ rw (file) (
      map-append (group line at list) (plan line at bps)
      ∙ ap (λ ps. ps ++ breakpoints_of (plan line at bps)) (group-breakpoints line at list)
      ∙ ap (λ ps. keep (at_line line at) list ++ ps) (plan-breakpoints line at bps)
      ∙ sym (keep-append (at_line line at) list (points bps)))
]

own-Carries : (f : String → Bool) (ps : List Point) → All (Carries f) (map record_of ps)
unfolding record_of
own-Carries f [] = tt
own-Carries f (p ∷ ps) = ((refl, refl, refl, refl), own-Carries f ps)

met-Carries :
    (f : String → Bool) (ps : List Point)
    → All (λ p. met f p ≡ true) ps
    → All (Carries f) (unconditional (map record_of ps))
unfolding record_of unconditional
met-Carries f [] h = tt
met-Carries f (p ∷ ps) (h, hs) = ((refl, refl, refl, ground (arith, h)), met-Carries f ps hs)

group-Carries :
    (f : String → Bool) (line : ℕ) (at : Point → Bool) (list : List Point)
    → (disagree (map record_of (keep (at_line line at) list)) ≡ true)
      ⊎ All (λ p. met f p ≡ true) (keep (at_line line at) list)
    → All (Carries f) (group line at list)
unfolding group unconditional
group-Carries f line at list (inl differ) =
    rw (differ) (own-Carries f (keep (at_line line at) list))
group-Carries f line at list (inr h) =
    elim (Bool-cases (disagree (map record_of (keep (at_line line at) list)))) [
      | inl differ ↦ rw (differ) (own-Carries f (keep (at_line line at) list))
      | inr agree ↦ rw (agree) (met-Carries f (keep (at_line line at) list) h)
    ]

plan-Carries :
    (f : String → Bool) (line : ℕ) (at : Point → Bool) (bps : List (String × List Point))
    → All (Checked f line at) bps
    → All (Carries f) (plan line at bps)
unfolding plan
plan-Carries f line at [] h = tt
plan-Carries f line at ((key, list) ∷ bps) (h, hs) = elim (Bool-cases (str_eq key func_key)) [
  | inl function ↦ rw (function) (plan-Carries f line at bps hs)
  | inr file ↦ rw (file) (
      All-append (Carries f) (group line at list) (plan line at bps)
        (elim h [
          | inl function ↦ absurd (ground (arith, file, function, eq_iff key func_key))
          | inr checked ↦ group-Carries f line at list checked
        ])
        (plan-Carries f line at bps hs))
]

stops-breakpoints : (rs : List PlanRecord) → nonempty rs ≡ nonempty (breakpoints_of rs)
stops-breakpoints [] = refl
stops-breakpoints (r ∷ rs) = refl

-- At a stop on a line, where each file's common condition that the adapter checked holds, the
-- filter attributes the stop to exactly those of the line's breakpoints that alone would stop the
-- program there: their own condition holds, their hit count is due and they do not log. It counts a
-- hit of each that has a hit count or a message and whose own condition holds, prints the message
-- of those that are due, and stops if and only if some breakpoint asks for it.
pub decide-verdict :
    (f : String → Bool) (line : ℕ) (at : Point → Bool) (bps : List (String × List Point))
    → All (Checked f line at) bps
    → let records = plan line at bps in
      let d = decide records (held f records) in
      let here = keep (at_line line at) (points bps) in
      (breakpoints_of d.stop_for ≡ keep (λ p. met f p && asks p) here)
      × (breakpoints_of d.hit ≡ keep (λ p. met f p && emulated p) here)
      × (breakpoints_of d.logs ≡ keep (λ p. met f p && prints p) here)
      × (stops d ≡ nonempty (keep (λ p. met f p && asks p) here))
unfolding decide stops
decide-verdict f line at bps h =
    let records = plan line at bps in
    let (stop, hit, logs) =
      decide_from-Adds f (record { stop_for = []; hit = []; logs = [] }) records
        (plan-Carries f line at bps h) in
    rw (held-each f records, sym (plan-breakpoints line at bps))
      (
        stop,
        hit,
        logs,
        stops-breakpoints
              (decide_from (record { stop_for = []; hit = []; logs = [] }) records
                (map (λ (r : PlanRecord). str_eq r.condition "" || f r.condition) records)).stop_for
            ∙ ap nonempty stop,
      )
