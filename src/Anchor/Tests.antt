-- ===== src/Anchor/Tests.antt =====
-- Common subsequences of concrete tokens.
use eyedebugger.Prelude.{ℕ, ◌≡◌, refl, List, [], ◌∷◌}
use eyedebugger.Anchor.{lcs, rows, fill, zeros, last_cell, same}
use eyedebugger.Anchor.Longest.{IsLongest, lcs-IsLongest}

abbrev want : List (List ℕ)
want = (116 ∷ []) ∷ (43 ∷ []) ∷ (112 ∷ []) ∷ []

abbrev line : List (List ℕ)
line = (112 ∷ []) ∷ (116 ∷ []) ∷ (61 ∷ []) ∷ (112 ∷ []) ∷ []

two_shared : lcs want line ≡ 2
unfolding lcs rows fill zeros last_cell same
two_shared = refl

lcs-IsLongest_example : IsLongest (lcs want line) want line
lcs-IsLongest_example = lcs-IsLongest want line
