-- ===== src/PathMap.antt =====
-- internal/session/pathmap.go: the paths of a container against the host's, where the host is not
-- Windows. A path is its segments, what `strings.Split` makes of it at "/", each its code points; a
-- clean absolute path is the segments below "/".
pub mod Sorting
pub mod Longest
pub mod Back
mod Tests
use eyedebugger.Prelude.{
  ℕ, zero, suc, ◌+◌, Bool, true, false, not, ◌&&◌, ◌||◌, Option, none, some, List, [], ◌∷◌, ◌++◌,
  ◌==◌, ltb, leb, any, reverse, if◌then◌else◌,
}

abbrev pub Segment : Type 0
Segment = List ℕ

pub same_segment : Segment → Segment → Bool
same_segment [] [] = true
same_segment [] (d ∷ ds) = false
same_segment (c ∷ cs) [] = false
same_segment (c ∷ cs) (d ∷ ds) = c == d && same_segment cs ds

abbrev pub dot : Segment
dot = 46 ∷ []

abbrev pub dot_dot : Segment
dot_dot = 46 ∷ 46 ∷ []

pub is_blank : Segment → Bool
is_blank [] = true
is_blank (c ∷ cs) = false

-- `unicode.IsControl`.
is_control : ℕ → Bool
is_control c = ltb c 32 || (leb 127 c && leb c 159)

-- `plainText`, of text that is code points.
pub plain_text : List Segment → Bool
unfolding is_control
plain_text path = not (any (λ s. any is_control s) path)

-- `hasDotDot`.
pub has_dot_dot : List Segment → Bool
unfolding same_segment
has_dot_dot path = any (λ s. same_segment s dot_dot) path

-- `path.Clean` of an absolute path, onto the segments so far, the last one first.
pub clean_onto : List Segment → List Segment → List Segment
unfolding is_blank same_segment
clean_onto done [] = reverse done
clean_onto done (s ∷ path) =
    if is_blank s || same_segment s dot
    then clean_onto done path
    else if same_segment s dot_dot
    then clean_onto (elim done [ [] ↦ [] | t ∷ rest ↦ rest ]) path
    else clean_onto (s ∷ done) path

pub clean : List Segment → List Segment
unfolding clean_onto
clean path = clean_onto [] path

-- `under` and, of an absolute path, `filepath.Rel` where it does not leave its base: the path below a
-- root.
pub under : List Segment → List Segment → Option (List Segment)
unfolding same_segment
under [] path = some path
under (r ∷ root) [] = none
under (r ∷ root) (s ∷ path) = let rest = under root path in if same_segment r s then rest else none

-- `within`.
pub is_within : List Segment → List Segment → Bool
unfolding under
is_within root path = elim (under root path) [ none ↦ false | some rel ↦ true ]

-- `localRel`; "\\" is 92.
pub local_rel : List Segment → Option (List Segment)
unfolding plain_text is_blank same_segment
local_rel rel =
    if any (λ s. any (λ c. c == 92) s) rel || not (plain_text rel)
    then none
    else if any (λ s. is_blank s || same_segment s dot || same_segment s dot_dot) rel
    then none
    else some rel

-- `pathPair`.
pub record PathPair : Type 0 where
  pub remote : List Segment
  pub local : List Segment

-- The bytes of a code point in UTF-8.
pub rune_len : ℕ → ℕ
rune_len c = if ltb c 128 then 1 else if ltb c 2048 then 2 else if ltb c 65536 then 3 else 4

pub text_len : Segment → ℕ
unfolding rune_len
text_len [] = 0
text_len (c ∷ cs) = rune_len c + text_len cs

-- The bytes of a clean absolute path, where "/" alone counts as none.
pub path_len : List Segment → ℕ
unfolding text_len
path_len [] = 0
path_len (s ∷ path) = suc (text_len s) + path_len path

-- The stable sorts of `NewPathMap`, longest first, by one side of a pair.
pub insert_longest : (PathPair → List Segment) → PathPair → List PathPair → List PathPair
unfolding path_len
insert_longest side p [] = p ∷ []
insert_longest side p (q ∷ qs) =
    let rest = insert_longest side p qs in
    if leb (path_len (side q)) (path_len (side p)) then p ∷ q ∷ qs else q ∷ rest

pub sort_longest : (PathPair → List Segment) → List PathPair → List PathPair
unfolding insert_longest
sort_longest side [] = []
sort_longest side (p ∷ ps) = insert_longest side p (sort_longest side ps)

-- `PathMap`.
pub record PathMap : Type 0 where
  pub pairs : List PathPair
  pub by_local : List PathPair
  pub by_remote : List PathPair

-- The end of `NewPathMap`.
pub new_path_map : List PathPair → PathMap
unfolding sort_longest
new_path_map pairs = record {
  pairs = pairs;
  by_local = sort_longest (λ p. p.local) pairs;
  by_remote = sort_longest (λ p. p.remote) pairs;
}

-- The loop of `ToRemote`.
pub remote_of : List PathPair → List Segment → Option (List Segment)
unfolding under local_rel
remote_of [] host = none
remote_of (p ∷ ps) host =
    let rest = remote_of ps host in
    elim (under p.local host) [
      | none ↦ rest
      | some rel ↦ elim rel [
        | [] ↦ some p.remote
        | s ∷ segs ↦ elim (local_rel (s ∷ segs)) [
          | none ↦ none
          | some out ↦ some (p.remote ++ s ∷ segs)
        ]
      ]
    ]

-- `ToRemote` of an absolute path, by what follows its first "/".
pub to_remote : PathMap → List Segment → Option (List Segment)
unfolding remote_of clean
to_remote m host = remote_of m.by_local (clean host)

-- The loop of `ToLocal`.
pub local_of : List PathPair → List Segment → Option (List Segment)
unfolding under local_rel is_within
local_of [] c = none
local_of (p ∷ ps) c =
    let rest = local_of ps c in
    elim (under p.remote c) [
      | none ↦ rest
      | some rel ↦ elim rel [
        | [] ↦ some p.local
        | s ∷ segs ↦ elim (local_rel (s ∷ segs)) [
          | none ↦ none
          | some out ↦
              if not (is_within p.local (p.local ++ out)) then none else some (p.local ++ out)
        ]
      ]
    ]

-- `ToLocal`; an absolute path has nothing before its first "/".
pub to_local : PathMap → List Segment → Option (List Segment)
unfolding plain_text has_dot_dot clean local_of is_blank
to_local m [] = none
to_local m (s ∷ []) = none
to_local m (s ∷ t ∷ path) =
    if not (is_blank s) || not (plain_text (t ∷ path)) || has_dot_dot (t ∷ path)
    then none
    else local_of m.by_remote (clean (t ∷ path))
