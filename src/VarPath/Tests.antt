-- ===== src/VarPath/Tests.antt =====
-- Paths of variables.
use eyedebugger.Prelude.{ℕ, ◌≡◌, refl, Bool, true, false, ◌&&◌, List, [], ◌∷◌, leb}
use eyedebugger.VarPath.{segments, unclosed, split_path, join_path, is_identifier, check_assignable}
use eyedebugger.VarPath.Rejoined.{Rejoins, split_path-Rejoins}

abbrev letter : ℕ → Bool
letter c = leb 97 c && leb c 122

abbrev digit : ℕ → Bool
digit c = leb 48 c && leb c 57

-- a..b[0]
abbrev dots : List ℕ
dots = 97 ∷ 46 ∷ 46 ∷ 98 ∷ 91 ∷ 48 ∷ 93 ∷ []

dots-split : split_path dots ≡ segments ((97 ∷ []) ∷ (98 ∷ []) ∷ (91 ∷ 48 ∷ 93 ∷ []) ∷ [])
unfolding split_path
dots-split = refl

dots-joined :
    join_path ((97 ∷ []) ∷ (98 ∷ []) ∷ (91 ∷ 48 ∷ 93 ∷ []) ∷ []) ≡ 97 ∷ 46 ∷ 98 ∷ 91 ∷ 48 ∷ 93 ∷ []
unfolding join_path
dots-joined = refl

-- a[0
dots-unclosed : split_path (97 ∷ 91 ∷ 48 ∷ []) ≡ unclosed
unfolding split_path
dots-unclosed = refl

-- a["k"] is plain, f() is not.
check-plain : check_assignable letter digit ((97 ∷ []) ∷ (91 ∷ 34 ∷ 107 ∷ 34 ∷ 93 ∷ []) ∷ []) ≡ true
unfolding check_assignable is_identifier
check-plain = refl

check-call : check_assignable letter digit ((102 ∷ 40 ∷ 41 ∷ []) ∷ []) ≡ false
unfolding check_assignable is_identifier
check-call = refl

split_path-Rejoins_example : Rejoins (split_path dots)
split_path-Rejoins_example = split_path-Rejoins dots
