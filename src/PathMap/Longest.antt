-- ===== src/PathMap/Longest.antt =====
-- A container's path maps below the host directory of the longest root that holds it.
use eyedebugger.Prelude.{
  ◌≤◌, ◌≡◌, ◌⊎◌, inl, inr, refl, sym, ◌∙◌, ap, Bool, true, false, not, ◌||◌, none, some, List, [],
  ◌∷◌, ◌++◌, ◌==◌, any, All, append-nil, arith, Bool-cases, Option-cases,
}
use eyedebugger.PathMap.Sorting.{
  Among, at_head, further, Sorted, All-weaken, sort_longest-All, Sorted-sort_longest,
  Among-sort_longest,
}
use eyedebugger.PathMap.{
  Segment, same_segment, dot, dot_dot, is_blank, plain_text, has_dot_dot, clean, under, is_within,
  local_rel, PathPair, path_len, sort_longest, new_path_map, local_of, to_local,
}

same_segment-eq : (s t : Segment) → same_segment s t ≡ true → s ≡ t
unfolding same_segment
same_segment-eq [] [] h = refl
same_segment-eq [] (d ∷ ds) h = absurd (ground (arith, h))
same_segment-eq (c ∷ cs) [] h = absurd (ground (arith, h))
same_segment-eq (c ∷ cs) (d ∷ ds) h =
    let first : c ≡ d = ground (arith, h) in
    let rest = same_segment-eq cs ds (ground (arith, h)) in
    ap (λ e. e ∷ cs) first ∙ ap (λ l. d ∷ l) rest

pub under-append : (root c rel : List Segment) → under root c ≡ some rel → c ≡ root ++ rel
unfolding under
under-append [] c rel h = ground (arith, h)
under-append (r ∷ root) [] rel h = absurd (ground (arith, h))
under-append (r ∷ root) (s ∷ c) rel h = elim (Bool-cases (same_segment r s)) [
  | inr other ↦ absurd (ground (arith, h, other))
  | inl same ↦
      let rest = under-append root c rel (ground (arith, h, same)) in
      ap (λ t. t ∷ c) (sym (same_segment-eq r s same)) ∙ ap (λ l. r ∷ l) rest
]

-- The names of a path below a root that the host takes: none leaves the directory it is joined to.
abbrev pub IsLocal : Segment → Type 0
IsLocal s = (is_blank s || same_segment s dot || same_segment s dot_dot) ≡ false

All-any :
    (p : Segment → Bool) (path : List Segment) → any p path ≡ false → All (λ s. p s ≡ false) path
All-any p [] h = tt
All-any p (s ∷ path) h = (ground (arith, h), All-any p path (ground (arith, h)))

pub local_rel-IsLocal :
    (rel out : List Segment) → local_rel rel ≡ some out → (out ≡ rel) × All IsLocal rel
unfolding local_rel
local_rel-IsLocal rel out h =
    elim (Bool-cases (any (λ s. any (λ c. c == 92) s) rel || not (plain_text rel))) [
      | inl odd ↦ absurd (ground (arith, h, odd))
      | inr even ↦
          elim (Bool-cases
            (any (λ s. is_blank s || same_segment s dot || same_segment s dot_dot) rel)) [
              | inl bad ↦ absurd (ground (arith, h, even, bad))
              | inr good ↦ (
                ground (arith, h, even, good),
                All-any (λ s. is_blank s || same_segment s dot || same_segment s dot_dot) rel good,
              )
            ]
    ]

-- How a path maps: a root that holds it, the path below it, among the map's, and no longer one that holds it.
pub record IsMapped (ps : List PathPair) (c out : List Segment) : Type 0 where
  pair : PathPair
  member : Among pair ps
  rel : List Segment
  held : c ≡ pair.remote ++ rel
  inside : out ≡ pair.local ++ rel
  names : All IsLocal rel
  longest : All (λ q. (under q.remote c ≡ none) ⊎ (path_len q.remote ≤ path_len pair.remote)) ps

local_of-IsMapped :
    (ps : List PathPair) (c out : List Segment)
    → Sorted ps
    → local_of ps c ≡ some out
    → IsMapped ps c out
unfolding local_of
local_of-IsMapped [] c out v h = absurd (ground (arith, h))
local_of-IsMapped (p ∷ ps) c out (below, v) h = elim (Option-cases (under p.remote c)) [
  | inl none_here ↦
      let rest = local_of-IsMapped ps c out v (ground (arith, h, none_here)) in
      record {
        pair = rest.pair;
        member = further rest.member;
        rel = rest.rel;
        held = rest.held;
        inside = rest.inside;
        names = rest.names;
        longest = (inl none_here, rest.longest);
      }
  | inr (rel, here) ↦ record {
    pair = p;
    member = at_head;
    rel = rel;
    held = under-append p.remote c rel here;
    inside = (joined rel here).0;
    names = (joined rel here).1;
    longest = (inr (omega arith), All-weaken ps (λ q le. inr le) below);
  }
]
  where
    joined :
        (rel : List Segment)
        → under p.remote c ≡ some rel
        → (out ≡ p.local ++ rel) × All IsLocal rel
    joined [] here = (ground (arith, h, here, append-nil p.local), tt)
    joined (s ∷ segs) here = elim (Option-cases (local_rel (s ∷ segs))) [
      | inl bad ↦ absurd (ground (arith, h, here, bad))
      | inr (rel', good) ↦
          let (same, names) = local_rel-IsLocal (s ∷ segs) rel' good in
          elim (Bool-cases (is_within p.local (p.local ++ rel'))) [
            | inl kept ↦
                let found : p.local ++ rel' ≡ out = ground (arith, h, here, good, kept) in
                (sym found ∙ ap (λ l. p.local ++ l) same, names)
            | inr left ↦ absurd (ground (arith, h, here, good, left))
          ]
    ]

to_local_below :
    (pairs : List PathPair) (path : List Segment) (out : List Segment)
    → to_local (new_path_map pairs) ([] ∷ path) ≡ some out
    → IsMapped pairs (clean path) out
unfolding to_local new_path_map
to_local_below pairs [] out h = absurd (ground (arith, h))
to_local_below pairs (s ∷ path) out h =
    elim (Bool-cases (not (plain_text (s ∷ path)) || has_dot_dot (s ∷ path))) [
      | inl bad ↦ absurd (ground (arith, h, bad))
      | inr good ↦
          let sorted = sort_longest (λ (q : PathPair). q.remote) pairs in
          let found : local_of sorted (clean (s ∷ path)) ≡ some out = ground (arith, h, good) in
          let r =
            local_of-IsMapped sorted (clean (s ∷ path)) out (Sorted-sort_longest pairs) found in
          record {
            pair = r.pair;
            member = Among-sort_longest r.pair pairs r.member;
            rel = r.rel;
            held = r.held;
            inside = r.inside;
            names = r.names;
            longest =
                sort_longest-All
                  (λ q.
                    (under q.remote (clean (s ∷ path)) ≡ none)
                    ⊎ (path_len q.remote ≤ path_len r.pair.remote))
                  pairs r.longest;
          }
    ]

-- A container's path that maps is absolute, and the longest of the map's roots that hold it, cleaned,
-- decides: the path maps to the same names below that root's host directory, and none of the names is
-- empty, "." or "..".
pub to_local-IsMapped :
    (pairs : List PathPair) (path : List Segment) (out : List Segment)
    → to_local (new_path_map pairs) path ≡ some out
    → (tail : List Segment) × (path ≡ [] ∷ tail) × IsMapped pairs (clean tail) out
to_local-IsMapped pairs [] out h = absurd (unfold to_local in ground (arith, h))
to_local-IsMapped pairs (s ∷ []) out h = absurd (unfold to_local in ground (arith, h))
to_local-IsMapped pairs ([] ∷ t ∷ path) out h =
    (t ∷ path, refl, to_local_below pairs (t ∷ path) out h)
to_local-IsMapped pairs ((c ∷ cs) ∷ t ∷ path) out h =
    absurd (unfold to_local is_blank in ground (arith, h))
