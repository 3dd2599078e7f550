-- ===== src/Present/Budget.antt =====
-- internal/present/budget.go: cutting a tree of variables to a budget, level by level. What the code
-- reaches by pointers into its result is a list of the variables kept, each with the place of its
-- parent: place 0 is the top, and the variable kept as the n-th has place n.
pub mod Spent
pub mod Finishes
mod Tests
use eyedebugger.Prelude.{
  ℕ, zero, suc, ◌+◌, ◌-◌, ◌*◌, String, len, Bool, true, false, not, ◌&&◌, Option, none, some, List,
  [], ◌∷◌, ◌++◌, ◌==◌, ltb, length, if◌then◌else◌,
}
use eyedebugger.Present.{chars_per_token}

-- `api.Var`, with its `Children` and `More`.
pub record VarText : Type 0 where
  pub name : String
  pub type_name : String
  pub value : String
  pub has_children : Bool
  pub change : String
  pub previous : String

mutual
  pub data Var : Type 0 where
    var : VarText → Vars → ℕ → Var

  pub data Vars : Type 0 where
    nil : Vars
    cons : Var → Vars → Vars

unfoldable mutual
  -- The number of variables of a tree.
  pub size : Var → ℕ
  size (var t vs more) = suc (size_all vs)

  pub size_all : Vars → ℕ
  size_all nil = 0
  size_all (cons v vs) = size v + size_all vs

unfoldable pub count : Vars → ℕ
count nil = 0
count (cons v vs) = suc (count vs)

-- `level`, a list of variables that waits; `dst` and `more` are those of the variable at a place.
pub record Level : Type 0 where
  pub src : Vars
  pub dst : ℕ
  pub extra : ℕ
  pub indent : ℕ

-- A variable in the result.
pub record Kept : Type 0 where
  pub parent : ℕ
  pub text : VarText
  pub indent : ℕ
  pub more : ℕ

-- What `Fit` changes.
pub record Fitting : Type 0 where
  pub left : ℕ
  pub kept : List Kept
  pub omitted : ℕ
  pub truncated : Bool
  pub queue : List Level

-- `cost`.
pub cost : VarText → ℕ → ℕ
cost v indent = 2 * indent + len v.name + len v.type_name + len v.value + len v.previous + 8

-- `*lv.more += k`.
pub add_at : List Kept → ℕ → ℕ → List Kept
add_at [] place k = []
add_at (v ∷ vs) zero k = record v { more = v.more + k } ∷ vs
add_at (v ∷ vs) (suc place) k = v ∷ add_at vs place k

pub add_more : Fitting → ℕ → ℕ → Fitting
unfolding add_at
add_more f zero k = record f { omitted = f.omitted + k }
add_more f (suc place) k = record f { kept = add_at f.kept place k }

pub has_any : Vars → Bool
has_any nil = false
has_any (cons v vs) = true

-- A variable that fits, with its members queued.
pub place : Fitting → Level → VarText → Vars → ℕ → Fitting
unfolding has_any
place f lv t children more =
    let kept = f.kept ++ record { parent = lv.dst; text = t; indent = lv.indent; more = 0 } ∷ [] in
    record f {
      left = f.left - cost t lv.indent;
      kept = kept;
      queue =
          if has_any children
          then f.queue
            ++ record { src = children; dst = length kept; extra = more; indent = lv.indent + 1 }
              ∷ []
          else f.queue;
    }

-- The inner loop of `Fit`, over what is left of a level; `first` says that none of it is placed.
pub fit_level : Fitting → Level → Bool → Vars → Fitting
unfolding cost add_more place count
fit_level f lv first nil = add_more f lv.dst lv.extra
fit_level f lv first (cons (var t children more) vs) =
    let cut = record f { truncated = true } in
    let rest = fit_level (place f lv t children more) lv false vs in
    if ltb f.left (cost t lv.indent)
    then (if first && ltb 0 lv.indent then cut else add_more cut lv.dst (suc (count vs) + lv.extra))
    else rest

-- The outer loop of `Fit`, on fuel.
pub fit_queue : ℕ → Fitting → Fitting
unfolding fit_level
fit_queue zero f = f
fit_queue (suc fuel) f = elim f.queue [
  | [] ↦ f
  | lv ∷ queue ↦
      if f.truncated
      then f
      else fit_queue fuel (fit_level (record f { queue = queue }) lv true lv.src)
]

-- `Fit` of a fitter with a budget: what is kept, and what it leaves of the budget. A level more than
-- there are variables is the most that is queued.
pub fit_vars : ℕ → Vars → Fitting
unfolding fit_queue
fit_vars left vars = fit_queue (suc (suc (size_all vars))) (record {
  left = left;
  kept = [];
  omitted = 0;
  truncated = false;
  queue = record { src = vars; dst = 0; extra = 0; indent = 0 } ∷ [];
})

-- `NewFitter`, for a positive number of tokens; else there is no budget and nothing is cut.
pub new_fitter : ℕ → Option ℕ
new_fitter zero = none
new_fitter (suc tokens) = some (suc tokens * chars_per_token)
