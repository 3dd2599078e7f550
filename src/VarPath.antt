-- ===== src/VarPath.antt =====
-- internal/session/inspect.go, `splitPath` and `joinPath`, and the checks of internal/session/evalset.go
-- on what they split: the path of a variable that is set by evaluating an assignment to it. Texts
-- are code points; what Unicode calls a letter and a digit are parameters.
pub mod Cutting
pub mod Segments
pub mod Joined
pub mod Rejoined
mod Tests
use eyedebugger.Prelude.{
  ℕ, zero, suc, Bool, true, false, not, ◌&&◌, ◌||◌, Option, none, some, List, [], ◌∷◌, ◌++◌, ◌==◌,
  ltb, leb, length, any, if◌then◌else◌,
}

abbrev pub open_bracket : ℕ
open_bracket = 91

abbrev pub close_bracket : ℕ
close_bracket = 93

abbrev pub dot : ℕ
dot = 46

abbrev pub quote : ℕ
quote = 34

-- What ends a name.
abbrev pub is_stop : ℕ → Bool
is_stop c = c == dot || c == open_bracket

-- A text up to its first "]", and what follows it.
pub cut_bracket : List ℕ → Option (List ℕ × List ℕ)
cut_bracket [] = none
cut_bracket (c ∷ cs) =
    let rest = cut_bracket cs in
    if c == close_bracket
    then some (c ∷ [], cs)
    else elim rest [ none ↦ none | some (seg, after) ↦ some (c ∷ seg, after) ]

-- A text up to the first "." or "[", and the rest.
pub cut_name : List ℕ → List ℕ × List ℕ
cut_name [] = ([], [])
cut_name (c ∷ cs) =
    let rest = cut_name cs in if is_stop c then ([], c ∷ cs) else (c ∷ rest.0, rest.1)

-- What a path splits into, or why it does not.
pub data Split : Type 0 where
  segments : List (List ℕ) → Split
  unclosed : Split
  empty_name : Split
  empty_path : Split
  ran_out : Split

pub prepend : List ℕ → Split → Split
prepend seg (segments segs) = segments (seg ∷ segs)
prepend seg unclosed = unclosed
prepend seg empty_name = empty_name
prepend seg empty_path = empty_path
prepend seg ran_out = ran_out

-- The loop of `splitPath`, at its first segment or past it, on fuel: each turn takes a code point.
pub split_from : ℕ → Bool → List ℕ → Split
unfolding cut_bracket cut_name prepend
split_from fuel first_seg [] = segments []
split_from zero first_seg (c ∷ cs) = ran_out
split_from (suc fuel) first_seg (c ∷ cs) =
    let skipped = split_from fuel first_seg cs in
    let named = split_from fuel false (cut_name (c ∷ cs)).1 in
    if c == open_bracket
    then elim (cut_bracket (c ∷ cs)) [
      | none ↦ unclosed
      | some (seg, rest) ↦ prepend seg (split_from fuel false rest)
    ]
    else if c == dot && not first_seg
    then skipped
    else if is_stop c
    then empty_name
    else prepend (cut_name (c ∷ cs)).0 named

-- `splitPath`.
pub split_path : List ℕ → Split
unfolding split_from
split_path [] = empty_path
split_path (c ∷ cs) = split_from (length (c ∷ cs)) true (c ∷ cs)

-- `joinPath`, at its first segment or past it.
pub join_from : Bool → List (List ℕ) → List ℕ
join_from first_seg [] = []
join_from first_seg ([] ∷ segs) = (if first_seg then [] else dot ∷ []) ++ join_from false segs
join_from first_seg ((c ∷ cs) ∷ segs) =
    (if first_seg || c == open_bracket then c ∷ cs else dot ∷ c ∷ cs) ++ join_from false segs

pub join_path : List (List ℕ) → List ℕ
unfolding join_from
join_path segs = join_from true segs

pub all_of : (ℕ → Bool) → List ℕ → Bool
all_of p [] = true
all_of p (c ∷ cs) = p c && all_of p cs

-- A text without a character at its start, if it is there.
pub trim_prefix : ℕ → List ℕ → List ℕ
trim_prefix p [] = []
trim_prefix p (c ∷ cs) = if c == p then cs else c ∷ cs

-- The same at its end.
pub trim_suffix : ℕ → List ℕ → List ℕ
trim_suffix p [] = []
trim_suffix p (c ∷ []) = if c == p then [] else c ∷ []
trim_suffix p (c ∷ d ∷ ds) = c ∷ trim_suffix p (d ∷ ds)

pub ends_with : ℕ → List ℕ → Bool
ends_with p [] = false
ends_with p (c ∷ []) = c == p
ends_with p (c ∷ d ∷ ds) = ends_with p (d ∷ ds)

-- `unicode.IsControl`.
pub is_control : ℕ → Bool
is_control c = ltb c 32 || (leb 127 c && leb c 159)

-- An integer, without its sign.
pub is_number : List ℕ → Bool
unfolding all_of
is_number [] = false
is_number (c ∷ cs) = all_of (λ d. leb 48 d && leb d 57) (c ∷ cs)

-- `isIndexLiteral`.
pub is_index_literal : List ℕ → Bool
unfolding is_number all_of trim_prefix trim_suffix ends_with is_control
is_index_literal [] = false
is_index_literal (c ∷ cs) =
    is_number (trim_prefix 45 (c ∷ cs))
    || (c == quote
        && ends_with quote cs
        && all_of (λ d. not (d == quote || d == 92 || is_control d)) (trim_suffix quote cs))

module _ (is_letter is_digit : ℕ → Bool) where
  -- `isIdentifier`.
  pub is_identifier : List ℕ → Bool
  unfolding trim_prefix all_of
  is_identifier s = elim (trim_prefix 64 s) [
    | [] ↦ false
    | c ∷ cs ↦ (c == 95 || is_letter c) && all_of (λ d. d == 95 || is_letter d || is_digit d) cs
  ]

  -- `checkAssignable`: whether every segment is plain.
  pub check_assignable : List (List ℕ) → Bool
  unfolding is_index_literal trim_suffix
  check_assignable [] = true
  check_assignable ([] ∷ segs) = false
  check_assignable ((c ∷ cs) ∷ segs) =
      (if c == open_bracket
        then is_index_literal (trim_suffix close_bracket cs)
        else is_identifier (c ∷ cs))
      && check_assignable segs
