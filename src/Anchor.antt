-- ===== src/Anchor.antt =====
-- internal/session/anchor.go: how many tokens a text and a line share in order. A token is its code
-- points.
pub mod Subsequence
pub mod Longest
mod Tests
use eyedebugger.Prelude.{
  ℕ, zero, suc, ◌+◌, String, Bool, true, false, not, ◌&&◌, ◌||◌, Option, none, some, List, [], ◌∷◌,
  ◌++◌, ◌==◌, ltb, leb, length, any, take, drop, if◌then◌else◌, min, reverse, ◌*◌,
}

-- A token's code points, compared whole.
pub same : List ℕ → List ℕ → Bool
same [] [] = true
same [] (d ∷ ds) = false
same (c ∷ cs) [] = false
same (c ∷ cs) (d ∷ ds) = c == d && same cs ds

-- The inner loop of `lcs`: `diag`, `up` and `left` are `prev[j]`, `prev[j+1]` and `cur[j]`.
pub fill : List ℕ → List (List ℕ) → ℕ → List ℕ → ℕ → List ℕ
unfolding same
fill x [] diag ups left = []
fill x (y ∷ ys) diag [] left = []
fill x (y ∷ ys) diag (up ∷ ups) left =
    let cell = if same x y then diag + 1 else if leb left up then up else left in
    cell ∷ fill x ys up ups cell

-- A row after its first cell, which is 0 in both arrays throughout.
pub rows : List (List ℕ) → List (List ℕ) → List ℕ → List ℕ
unfolding fill
rows [] b prev = prev
rows (x ∷ xs) b prev = rows xs b (fill x b 0 prev 0)

zeros : List (List ℕ) → List ℕ
zeros [] = []
zeros (y ∷ ys) = 0 ∷ zeros ys

last_cell : List ℕ → ℕ → ℕ
last_cell [] cell = cell
last_cell (c ∷ cs) cell = last_cell cs c

-- `lcs`.
pub lcs : List (List ℕ) → List (List ℕ) → ℕ
unfolding rows zeros last_cell
lcs a b = last_cell (rows a b (zeros b)) 0
