-- ===== src/PathMap/Tests.antt =====
-- Path maps of concrete directories, and the theorem there.
use eyedebugger.Prelude.{◌≡◌, refl, none, some, true, arith, All, List, [], ◌∷◌}
use eyedebugger.PathMap.{
  Segment, PathPair, dot_dot, new_path_map, to_local, to_remote, local_of, remote_of, clean,
  clean_onto, under, is_within, local_rel, plain_text, has_dot_dot, is_blank, same_segment,
  is_control, sort_longest, insert_longest, path_len, text_len, rune_len,
}
use eyedebugger.PathMap.Longest.{IsLocal, IsMapped, to_local-IsMapped}
use eyedebugger.PathMap.Back.{to_local-to_remote}

abbrev src : Segment
src = 115 ∷ 114 ∷ 99 ∷ []

abbrev lib : Segment
lib = 108 ∷ 105 ∷ 98 ∷ []

abbrev home : Segment
home = 104 ∷ []

-- /src is the host's /h, and /src/lib its /lib.
abbrev roots : List PathPair
roots =
    record { remote = src ∷ []; local = home ∷ [] }
    ∷ record { remote = src ∷ lib ∷ []; local = lib ∷ [] }
    ∷ []

below_lib : to_local (new_path_map roots) ([] ∷ src ∷ [] ∷ lib ∷ home ∷ []) ≡ some (lib ∷ home ∷ [])
unfolding to_local new_path_map local_of clean clean_onto under is_within local_rel plain_text
    has_dot_dot is_blank same_segment is_control sort_longest insert_longest path_len text_len
    rune_len
below_lib = refl

upwards : to_local (new_path_map roots) ([] ∷ src ∷ dot_dot ∷ home ∷ []) ≡ none
unfolding to_local new_path_map plain_text has_dot_dot is_blank same_segment is_control
upwards = refl

outward : to_remote (new_path_map roots) (home ∷ lib ∷ []) ≡ some (src ∷ lib ∷ [])
unfolding to_remote new_path_map remote_of clean clean_onto under local_rel plain_text is_blank
    same_segment is_control sort_longest insert_longest path_len text_len rune_len
outward = refl

to_local-IsMapped_example :
    (tail : List Segment) × ([] ∷ src ∷ [] ∷ lib ∷ home ∷ [] ≡ [] ∷ tail)
    × IsMapped roots (clean tail) (lib ∷ home ∷ [])
to_local-IsMapped_example =
    to_local-IsMapped roots ([] ∷ src ∷ [] ∷ lib ∷ home ∷ []) (lib ∷ home ∷ []) below_lib

abbrev one_root : PathPair
one_root = record { remote = src ∷ []; local = home ∷ [] }

sent : to_remote (new_path_map (one_root ∷ [])) (home ∷ [] ∷ lib ∷ []) ≡ some (src ∷ lib ∷ [])
unfolding to_remote new_path_map remote_of clean clean_onto under local_rel plain_text is_blank
    same_segment is_control sort_longest insert_longest
sent = refl

src-IsLocal : All IsLocal (src ∷ [])
unfolding is_blank same_segment
src-IsLocal = (refl, tt)

src-plain_text : plain_text (src ∷ []) ≡ true
unfolding plain_text is_control
src-plain_text = refl

to_local-to_remote_example :
    to_local (new_path_map (one_root ∷ [])) ([] ∷ src ∷ lib ∷ [])
    ≡ some (clean (home ∷ [] ∷ lib ∷ []))
to_local-to_remote_example =
    to_local-to_remote one_root (home ∷ [] ∷ lib ∷ []) (src ∷ lib ∷ []) src-IsLocal src-plain_text
      (λ e. ground (arith, e)) sent
