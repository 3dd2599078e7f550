-- ===== src/StopFilter.antt =====
-- internal/session/emulate.go: the stop filter, which decides whether a stop at a breakpoint is
-- published. The texts of hit counts and log messages come parsed; evaluating a condition in the
-- stopped frame is a round trip to the adapter, a parameter here.
pub mod Evaluation
pub mod Verdict
pub mod Skipped
pub mod Messages
mod Tests
use eyedebugger.Prelude.{
  ℕ, ◌+◌, ◌%◌, String, Bool, true, false, not, ◌&&◌, ◌||◌, Option, none, some, List, [], ◌∷◌, ◌++◌,
  map, ◌==◌, ltb, leb, keep, any, str_eq, if◌then◌else◌,
}
use eyedebugger.Api.{Breakpoint, StopBreakpoint}

-- `hitCondition`: "==", ">=" and "%".
pub data HitOp : Type 0 where
  only : HitOp
  from : HitOp
  every : HitOp

pub record HitCondition : Type 0 where
  pub op : HitOp
  pub n : ℕ

-- `holds`. The parser gives an `n` of at least 1.
pub holds : HitCondition → ℕ → Bool
holds h count = elim h.op [ from ↦ leb h.n count | every ↦ count % h.n == 0 | only ↦ count == h.n ]

-- `logPart`.
pub record LogPart : Type 0 where
  pub text : String
  pub expr : String

-- `breakpoint`, less what the filter does not read.
pub record Point : Type 0 where
  pub breakpoint : Breakpoint
  pub hit : Option HitCondition
  pub log : List LogPart

abbrev pub is_some {ℓ} : {A : Type ℓ} → Option A → Bool
is_some none = false
is_some (some a) = true

abbrev pub nonempty {ℓ} : {A : Type ℓ} → List A → Bool
nonempty [] = false
nonempty (x ∷ xs) = true

-- `emulated`.
pub emulated : Point → Bool
emulated p = is_some p.hit || nonempty p.log

-- `conditionsDiffer`, with what it has `seen`: the line of a breakpoint and its condition.
pub seen_at : List (ℕ × String) → ℕ → Option String
seen_at [] line = none
seen_at ((l, c) ∷ seen) line = if l == line then some c else seen_at seen line

pub conditions_differ : List Point → List (ℕ × String) → Bool
unfolding seen_at
conditions_differ [] seen = false
conditions_differ (p ∷ ps) seen =
    let first = conditions_differ ps ((p.breakpoint.line, p.breakpoint.condition) ∷ seen) in
    let later = conditions_differ ps seen in
    elim (seen_at seen p.breakpoint.line) [
      | none ↦ first
      | some c ↦ if not (str_eq c p.breakpoint.condition) then true else later
    ]

-- The key of the function breakpoints in the map of a session's breakpoints.
abbrev pub func_key : String
func_key = ""

-- `needsFilterLocked`.
pub needs_filter : List (String × List Point) → Bool
unfolding emulated conditions_differ
needs_filter [] = false
needs_filter ((key, list) ∷ bps) =
    let rest = needs_filter bps in
    if str_eq key func_key
    then rest
    else if any emulated list
    then true
    else if conditions_differ list []
    then true
    else rest

-- `planRecord`.
pub record PlanRecord : Type 0 where
  pub b : Point
  pub condition : String
  pub hits : ℕ
  pub hit : Option HitCondition
  pub log : List LogPart

pub record_of : Point → PlanRecord
record_of p = record {
  b = p;
  condition = p.breakpoint.condition;
  hits = p.breakpoint.hits;
  hit = p.hit;
  log = p.log;
}

-- Whether some record's condition is not the first one's.
pub disagree : List PlanRecord → Bool
disagree [] = false
disagree (r ∷ rs) = any (λ (q : PlanRecord). not (str_eq q.condition r.condition)) (r ∷ rs)

-- The records of one file's breakpoints at a line.
pub group : ℕ → (Point → Bool) → List Point → List PlanRecord
unfolding record_of disagree
group line at list =
    let records = map record_of (keep (λ p. p.breakpoint.line == line && at p) list) in
    if not (disagree records)
    then map (λ (r : PlanRecord). record r { condition = "" }) records
    else records

-- `planLocked`: the records.
pub plan : ℕ → (Point → Bool) → List (String × List Point) → List PlanRecord
unfolding group
plan line at [] = []
plan line at ((key, list) ∷ bps) =
    let rest = plan line at bps in if str_eq key func_key then rest else group line at list ++ rest

-- `toEvaluate`.
pub add_condition : List String → String → List String
add_condition conds c =
    if not (str_eq c "") && not (any (λ d. str_eq d c) conds) then conds ++ c ∷ [] else conds

pub to_evaluate_from : List String → List PlanRecord → List String
unfolding add_condition
to_evaluate_from conds [] = conds
to_evaluate_from conds (r ∷ rs) = to_evaluate_from (add_condition conds r.condition) rs

pub to_evaluate : List PlanRecord → List String
unfolding to_evaluate_from
to_evaluate records = to_evaluate_from [] records

-- `held`: what each condition to evaluate answered, false where there is no answer.
pub answer : List (String × Bool) → String → Bool
answer [] c = false
answer ((d, v) ∷ results) c = if str_eq d c then v else answer results c

pub held : (String → Bool) → List PlanRecord → List Bool
unfolding to_evaluate answer
held condition_holds records =
    let results = map (λ c. (c, condition_holds c)) (to_evaluate records) in
    map (λ (r : PlanRecord). str_eq r.condition "" || answer results r.condition) records

-- `decision`.
pub record Decision : Type 0 where
  pub stop_for : List PlanRecord
  pub hit : List PlanRecord
  pub logs : List PlanRecord

-- One turn of the loop of `decide`.
pub decide_one : Decision → PlanRecord → Bool → Decision
unfolding holds
decide_one d r held =
    let counted = record d { hit = d.hit ++ r ∷ [] } in
    if not held
    then d
    else if not (is_some r.hit) && not (nonempty r.log)
    then record d { stop_for = d.stop_for ++ r ∷ [] }
    else if elim r.hit [ none ↦ false | some h ↦ not (holds h (r.hits + 1)) ]
    then counted
    else if nonempty r.log
    then record counted { logs = d.logs ++ r ∷ [] }
    else record counted { stop_for = d.stop_for ++ r ∷ [] }

pub decide_from : Decision → List PlanRecord → List Bool → Decision
unfolding decide_one
decide_from d [] held = d
decide_from d (r ∷ rs) [] = d
decide_from d (r ∷ rs) (h ∷ hs) = decide_from (decide_one d r h) rs hs

-- `decide`, and its `stop`.
pub decide : List PlanRecord → List Bool → Decision
unfolding decide_from
decide records held = decide_from (record { stop_for = []; hit = []; logs = [] }) records held

pub stops : Decision → Bool
stops d = nonempty d.stop_for

-- `attribution`: sorted by id.
pub insert_stop : StopBreakpoint → List StopBreakpoint → List StopBreakpoint
insert_stop b [] = b ∷ []
insert_stop b (c ∷ cs) = if leb b.id c.id then b ∷ c ∷ cs else c ∷ insert_stop b cs

pub attribution : List PlanRecord → List StopBreakpoint
unfolding insert_stop
attribution [] = []
attribution (r ∷ rs) =
    insert_stop (record { id = r.b.breakpoint.id; owner = r.b.breakpoint.owner }) (attribution rs)
