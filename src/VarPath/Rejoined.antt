-- ===== src/VarPath/Rejoined.antt =====
-- A path that was split and joined again splits the same.
use eyedebugger.Prelude.{
  ℕ, suc, ◌≡◌, ap, subst, ◌∙◌, true, false, List, [], ◌∷◌, ◌++◌, length, arith,
}
use eyedebugger.VarPath.{
  Split, segments, unclosed, empty_name, empty_path, ran_out, split_from, split_path, join_from,
  join_path,
}
use eyedebugger.VarPath.Cutting.{AllSegments}
use eyedebugger.VarPath.Segments.{IsGood, split_from-IsGood, IsStarted, split_from-IsStarted}
use eyedebugger.VarPath.Joined.{join_from-first, Splits, join_from-Splits}

-- What a split says of the path joined from it.
abbrev pub Rejoins : Split → Type 0
Rejoins (segments segs) = split_path (join_path segs) ≡ segments segs
Rejoins ran_out = ⊥
Rejoins r = Unit

join_path-Splits :
    (c : ℕ) (cs : List ℕ) (segs : List (List ℕ))
    → AllSegments ((c ∷ cs) ∷ segs)
    → split_path (join_path ((c ∷ cs) ∷ segs)) ≡ segments ((c ∷ cs) ∷ segs)
unfolding join_path
join_path-Splits c cs segs h =
    let text = (c ∷ cs) ++ join_from false segs in
    let whole : join_from true ((c ∷ cs) ∷ segs) ≡ text = join_from-first c cs segs in
    ap split_path whole
    ∙ unfold split_path in
      subst (λ t. Splits (length text) true t ((c ∷ cs) ∷ segs)) whole
        (join_from-Splits (length text) ((c ∷ cs) ∷ segs) true h (omega (arith, ap length whole)))

good-Rejoins : (r : Split) → IsGood r → IsStarted r → Rejoins r
good-Rejoins (segments []) good started = absurd started
good-Rejoins (segments ([] ∷ segs)) good started = absurd good.0
good-Rejoins (segments ((c ∷ cs) ∷ segs)) good started = join_path-Splits c cs segs good
good-Rejoins unclosed good started = tt
good-Rejoins empty_name good started = tt
good-Rejoins empty_path good started = tt
good-Rejoins ran_out good started = good

-- Every path splits into segments or is an error, and the segments joined again are a path that
-- splits into the same segments: an assignment that is evaluated for a path is to the segments that
-- were checked.
pub split_path-Rejoins : (path : List ℕ) → Rejoins (split_path path)
split_path-Rejoins [] = unfold split_path in tt
split_path-Rejoins (c ∷ cs) =
    unfold split_path in
    good-Rejoins (split_from (suc (length cs)) true (c ∷ cs))
      (split_from-IsGood (suc (length cs)) true (c ∷ cs) (omega arith))
      (split_from-IsStarted (length cs) c cs)
