-- ===== src/StopFilter/Evaluation.antt =====
-- The conditions the filter evaluates (`toEvaluate`, `held`).
use eyedebugger.Prelude.{
  ℕ, ◌+◌, ◌≡◌, refl, ◌∙◌, String, Bool, true, false, not, ◌&&◌, ◌||◌, List, [], ◌∷◌, ◌++◌, map, any,
  str_eq, eq_iff, if◌then◌else◌, arith, All, ◌==◌, Bool-cases, inl, inr,
}
use eyedebugger.StopFilter.{PlanRecord, to_evaluate, to_evaluate_from, add_condition, held, answer}

-- How often a text occurs.
abbrev pub times : String → List String → ℕ
times c [] = 0
times c (d ∷ ds) = (if str_eq d c then 1 else 0) + times c ds

abbrev pub has : String → List PlanRecord → Bool
has c [] = false
has c (r ∷ rs) = str_eq r.condition c || has c rs

times-append : (c : String) (ds es : List String) → times c (ds ++ es) ≡ times c ds + times c es
times-append c [] es = omega arith
times-append c (d ∷ ds) es = omega (arith, times-append c ds es)

any-times : (c : String) (ds : List String) → any (λ d. str_eq d c) ds ≡ not (times c ds == 0)
any-times c [] = refl
any-times c (d ∷ ds) = ground (arith, any-times c ds)

next_times :
    (c d : String) (conds : List String)
    → times c (add_condition conds d)
      ≡ (if str_eq d c && not (str_eq c "") && times c conds == 0 then 1 else times c conds)
unfolding add_condition
next_times c d conds = elim (Bool-cases (str_eq d c)) [
  | inl same ↦
      rw ((eq_iff d c).0 same)
        (ground (arith, any-times c conds, times-append c conds (c ∷ []), eq_iff c c))
  | inr other ↦ ground (arith, other, times-append c conds (d ∷ []))
]

to_evaluate_from-times :
    (c : String) (conds : List String) (rs : List PlanRecord)
    → times c (to_evaluate_from conds rs)
      ≡ (if has c rs && not (str_eq c "") && times c conds == 0 then 1 else times c conds)
unfolding to_evaluate_from
to_evaluate_from-times c conds [] = refl
to_evaluate_from-times c conds (r ∷ rs) =
    to_evaluate_from-times c (add_condition conds r.condition) rs
    ∙ ground (arith, next_times c r.condition conds)

-- The filter evaluates each condition text of the records exactly once, and no other text.
pub to_evaluate-times :
    (c : String) (rs : List PlanRecord)
    → times c (to_evaluate rs) ≡ (if has c rs && not (str_eq c "") then 1 else 0)
unfolding to_evaluate
to_evaluate-times c rs = to_evaluate_from-times c [] rs ∙ ground arith

answer-map :
    (f : String → Bool) (ds : List String) (c : String)
    → answer (map (λ d. (d, f d)) ds) c ≡ any (λ d. str_eq d c) ds && f c
unfolding answer
answer-map f [] c = refl
answer-map f (d ∷ ds) c = elim (Bool-cases (str_eq d c)) [
  | inl same ↦ rw ((eq_iff d c).0 same) (ground (arith, eq_iff c c))
  | inr other ↦ ground (arith, other, answer-map f ds c)
]

All-has :
    (whole rs : List PlanRecord)
    → ((c : String) → has c rs ≡ true → has c whole ≡ true)
    → All (λ r. has r.condition whole ≡ true) rs
All-has whole [] sub = tt
All-has whole (r ∷ rs) sub = (
  sub r.condition (ground (arith, eq_iff r.condition r.condition)),
  All-has whole rs (λ c h. sub c (ground (arith, h))),
)

map-held :
    (f : String → Bool) (whole rs : List PlanRecord)
    → All (λ r. has r.condition whole ≡ true) rs
    → map
        (λ (r : PlanRecord).
          str_eq r.condition "" || answer (map (λ c. (c, f c)) (to_evaluate whole)) r.condition)
        rs
      ≡ map (λ (r : PlanRecord). str_eq r.condition "" || f r.condition) rs
map-held f whole [] h = refl
map-held f whole (r ∷ rs) (h, hs) = ground (
  arith,
  h,
  answer-map f (to_evaluate whole) r.condition,
  any-times r.condition (to_evaluate whole),
  to_evaluate-times r.condition whole,
  map-held f whole rs hs,
)

-- Evaluating each text once answers for every record as evaluating its own condition would; no
-- condition holds.
pub held-each :
    (f : String → Bool) (rs : List PlanRecord)
    → held f rs ≡ map (λ (r : PlanRecord). str_eq r.condition "" || f r.condition) rs
unfolding held
held-each f rs = map-held f rs rs (All-has rs rs (λ c h. h))
