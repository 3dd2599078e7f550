-- ===== src/StopFilter/Messages/Hits/Tests.antt =====
-- A hit count at concrete code points.
use eyedebugger.Prelude.{◌≡◌, refl, some, [], ◌∷◌}
use eyedebugger.StopFilter.{from}
use eyedebugger.StopFilter.Messages.{trim_space, trim_left, is_space}
use eyedebugger.StopFilter.Messages.Hits.{parse_hit, cut_op, atoi, digits, digits_from}

-- ">= 3".
spaced : parse_hit (62 ∷ 61 ∷ 32 ∷ 51 ∷ []) ≡ some (record { op = from; n = 3 })
unfolding parse_hit cut_op atoi digits digits_from trim_space trim_left is_space
spaced = refl
