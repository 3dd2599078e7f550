-- ===== src/Present/Budget/Finishes.antt =====
-- `Fit` ends, and what it does not mark as cut it keeps whole.
use eyedebugger.Prelude.{ℕ, suc, ◌+◌, ◌≤◌, ◌≡◌, ◌⊎◌, true, List, [], ◌∷◌, length}
use eyedebugger.Present.Budget.{Level, Fitting, size_all}

-- The levels that wait, each counted with its variables; and the variables alone.
abbrev waiting : List Level → ℕ
waiting [] = 0
waiting (lv ∷ queue) = suc (size_all lv.src) + waiting queue

abbrev pending : List Level → ℕ
pending [] = 0
pending (lv ∷ queue) = size_all lv.src + pending queue

-- `g` is `f` after `n` variables of a level: no more levels wait than those variables make, and unless
-- `g` is cut, none of them is lost.
record Advances (n : ℕ) (f g : Fitting) : Type 0 where
  stays : f.truncated ≡ true → g.truncated ≡ true
  shrinks : waiting g.queue ≤ waiting f.queue + n
  whole :
      (g.truncated ≡ true) ⊎ (length g.kept + pending g.queue ≡ length f.kept + pending f.queue + n)

-- All of what waits at `f` is in `g`, or `g` is cut.
abbrev Ends : Fitting → Fitting → Type 0
Ends f g =
    (g.truncated ≡ true) ⊎ ((g.queue ≡ []) × (length g.kept ≡ length f.kept + pending f.queue))
