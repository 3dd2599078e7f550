-- ===== src/StopFilter/Messages/Hits.antt =====
-- `parseHit` of internal/session/emulate.go, a breakpoint's hit count, on code points.
pub mod Held
mod Tests
use eyedebugger.Prelude.{
  ℕ, zero, suc, ◌+◌, ◌-◌, ◌*◌, Bool, true, false, ◌&&◌, Option, none, some, List, [], ◌∷◌, ◌==◌,
  ltb, leb, if◌then◌else◌,
}
use eyedebugger.StopFilter.{HitOp, only, from, every, HitCondition}
use eyedebugger.StopFilter.Messages.{trim_space}

-- The greatest `int`, of 64 bits.
abbrev pub max_int : ℕ
max_int = 9223372036854775807

-- The number that decimal digits spell after the digits read so far; none if one of them is no digit.
pub digits_from : ℕ → List ℕ → Option ℕ
digits_from n [] = some n
digits_from n (c ∷ cs) =
    let rest = digits_from (10 * n + (c - 48)) cs in if leb 48 c && leb c 57 then rest else none

-- `strconv.Atoi` of unsigned digits: at least one, and not too great.
pub digits : List ℕ → Option ℕ
unfolding digits_from
digits [] = none
digits (c ∷ cs) = elim (digits_from 0 (c ∷ cs)) [
  | none ↦ none
  | some n ↦ if leb n max_int then some n else none
]

-- `strconv.Atoi`, where a number below 0 is as refused as no number: `parseHit` refuses both.
pub atoi : List ℕ → Option ℕ
unfolding digits
atoi [] = none
atoi (c ∷ cs) = if c == 43 then digits cs else digits (c ∷ cs)

-- `strings.CutPrefix` of ">=" and of "%", the spaces after it dropped; else "==".
pub cut_op : List ℕ → HitOp × List ℕ
unfolding trim_space
cut_op [] = (only, [])
cut_op (c ∷ []) = if c == 37 then (every, []) else (only, c ∷ [])
cut_op (c ∷ d ∷ cs) =
    if c == 62 && d == 61
    then (from, trim_space cs)
    else if c == 37
    then (every, trim_space (d ∷ cs))
    else (only, c ∷ d ∷ cs)

-- `parseHit`; none stands for the refusal.
pub parse_hit : List ℕ → Option HitCondition
unfolding cut_op atoi trim_space
parse_hit s =
    let (op, text) = cut_op (trim_space s) in
    elim (atoi text) [
      | none ↦ none
      | some n ↦ if ltb n 1 then none else some (record { op = op; n = n })
    ]
