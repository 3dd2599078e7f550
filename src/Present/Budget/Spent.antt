-- ===== src/Present/Budget/Spent.antt =====
-- `Fit` keeps within the budget.
use eyedebugger.Prelude.{
  ℕ, zero, suc, ◌+◌, ◌≤◌, ◌≡◌, ◌⊎◌, subst, refl, sym, Bool, true, false, ◌&&◌, List, [], ◌∷◌, ◌++◌,
  ltb, arith, Bool-cases, inl, inr, List-cases,
}
use eyedebugger.Present.Budget.{
  VarText, var, Vars, nil, cons, Level, Kept, Fitting, cost, add_at, add_more, place, fit_level,
  count, size_all, fit_queue, fit_vars,
}

-- What the variables kept cost.
abbrev pub spent : List Kept → ℕ
spent [] = 0
spent (v ∷ vs) = cost v.text v.indent + spent vs

spent-append : (vs ws : List Kept) → spent (vs ++ ws) ≡ spent vs + spent ws
spent-append [] ws = omega arith
spent-append (v ∷ vs) ws = omega (arith, spent-append vs ws)

spent-add_at : (vs : List Kept) (i k : ℕ) → spent (add_at vs i k) ≡ spent vs
unfolding add_at
spent-add_at [] i k = refl
spent-add_at (v ∷ vs) zero k = refl
spent-add_at (v ∷ vs) (suc i) k = omega (arith, spent-add_at vs i k)

-- What is kept and what is left make up the budget.
abbrev Balanced : ℕ → Fitting → Type 0
Balanced budget f = spent f.kept + f.left ≡ budget

add_more-Balanced :
    (budget : ℕ) (f : Fitting) (i k : ℕ) → Balanced budget f → Balanced budget (add_more f i k)
unfolding add_more
add_more-Balanced budget f zero k h = h
add_more-Balanced budget f (suc i) k h = omega (arith, spent-add_at f.kept i k, h)

place-Balanced :
    (budget : ℕ) (f : Fitting) (lv : Level) (t : VarText) (children : Vars) (more : ℕ)
    → cost t lv.indent ≤ f.left
    → Balanced budget f
    → Balanced budget (place f lv t children more)
unfolding place
place-Balanced budget f lv t children more fits h = omega (
  arith,
  fits,
  h,
  spent-append f.kept (record { parent = lv.dst; text = t; indent = lv.indent; more = 0 } ∷ []),
)

fit_level-Balanced :
    (budget : ℕ) (f : Fitting) (lv : Level) (first : Bool) (vs : Vars)
    → Balanced budget f
    → Balanced budget (fit_level f lv first vs)
unfolding fit_level
fit_level-Balanced budget f lv first nil h = add_more-Balanced budget f lv.dst lv.extra h
fit_level-Balanced budget f lv first (cons (var t children more) vs) h =
    elim (Bool-cases (ltb f.left (cost t lv.indent))) [
      | inr fits ↦ rw (fits) (
          fit_level-Balanced budget (place f lv t children more) lv false vs
            (place-Balanced budget f lv t children more (ground (arith, fits)) h))
      | inl over ↦ rw (over) (elim (Bool-cases (first && ltb 0 lv.indent)) [
        | inl collapsed ↦ rw (collapsed) h
        | inr cut ↦ rw (cut) (
            add_more-Balanced budget (record f { truncated = true }) lv.dst
              (suc (count vs) + lv.extra) h)
      ])
    ]

pub fit_queue-next :
    (fuel : ℕ) (f : Fitting) (lv : Level) (queue : List Level)
    → f.queue ≡ lv ∷ queue
    → f.truncated ≡ false
    → fit_queue (suc fuel) f
      ≡ fit_queue fuel (fit_level (record f { queue = queue }) lv true lv.src)
unfolding fit_queue
fit_queue-next fuel f lv queue waiting go = ground (arith, waiting, go)

pub fit_queue-stop :
    (fuel : ℕ) (f : Fitting) → (f.queue ≡ []) ⊎ (f.truncated ≡ true) → fit_queue fuel f ≡ f
unfolding fit_queue
fit_queue-stop zero f h = refl
fit_queue-stop (suc fuel) f h = ground (arith, h)

fit_queue-Balanced :
    (budget fuel : ℕ) (f : Fitting) → Balanced budget f → Balanced budget (fit_queue fuel f)
unfolding fit_queue
fit_queue-Balanced budget zero f h = h
fit_queue-Balanced budget (suc fuel) f h = elim (List-cases f.queue) [
  | inl empty ↦ subst (Balanced budget) (sym (fit_queue-stop (suc fuel) f (inl empty))) h
  | inr (lv, queue, waiting) ↦ elim (Bool-cases f.truncated) [
    | inl stop ↦ subst (Balanced budget) (sym (fit_queue-stop (suc fuel) f (inr stop))) h
    | inr go ↦ subst (Balanced budget) (sym (fit_queue-next fuel f lv queue waiting go)) (
        fit_queue-Balanced budget fuel (fit_level (record f { queue = queue }) lv true lv.src)
          (fit_level-Balanced budget (record f { queue = queue }) lv true lv.src h))
  ]
]

abbrev pub start : ℕ → Vars → Fitting
start budget vars = record {
  left = budget;
  kept = [];
  omitted = 0;
  truncated = false;
  queue = record { src = vars; dst = 0; extra = 0; indent = 0 } ∷ [];
}

-- What the kept variables cost and what is left for the next call make up the budget the call began
-- with: all calls of a fitter together stay within its tokens.
pub fit_vars-spent :
    (budget : ℕ) (vars : Vars)
    → spent (fit_vars budget vars).kept + (fit_vars budget vars).left ≡ budget
unfolding fit_vars
fit_vars-spent budget vars =
    fit_queue-Balanced budget (suc (suc (size_all vars))) (start budget vars) (omega arith)
