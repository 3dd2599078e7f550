-- ===== src/StopFilter/Messages/Tests.antt =====
-- Log messages at concrete code points, and the theorem on them there.
use eyedebugger.Prelude.{◌≡◌, ◌≢◌, refl, false, List, [], ◌∷◌, arith}
use eyedebugger.StopFilter.Messages.{
  Part, text, expr, parsed, refused, no_open, parse_log, trim_space, trim_left, is_space,
  parse_from, cut_close, flush,
}
use eyedebugger.StopFilter.Messages.RoundTrip.{print, AreParts, parse_log-print}

-- "i={i}".
abbrev parts : List Part
parts = text (105 ∷ 61 ∷ []) ∷ expr (105 ∷ []) ∷ []

unopened : parse_log (105 ∷ 125 ∷ []) ≡ refused no_open
unfolding parse_log trim_space trim_left is_space parse_from cut_close flush
unopened = refl

parts-AreParts : AreParts false parts
unfolding trim_space trim_left is_space
parts-AreParts =
    (refl, (λ e. ground (arith, e)), (((λ e. ground (arith, e)), refl, refl, (refl, tt)), tt))

parts-filled : trim_space (print parts) ≢ []
unfolding trim_space trim_left is_space
parts-filled e = ground (arith, e)

parse_log-print_example : parse_log (print parts) ≡ parsed parts
parse_log-print_example = parse_log-print parts parts-AreParts (omega arith) parts-filled
