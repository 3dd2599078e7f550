-- ===== src/PathMap/Back.antt =====
-- A host's path mapped to the container and back, by one pair of directories.
use eyedebugger.Prelude.{
  ◌≡◌, ◌≢◌, ◌⊎◌, inl, inr, refl, sym, ◌∙◌, ap, subst, Bool, true, false, ◌||◌, some, List, [], ◌∷◌,
  ◌++◌, any, All, All-append, append-nil, append_assoc, reverse, arith, Bool-cases, Option-cases,
}
use mathlib.Core.List.{reverse-cons}
use eyedebugger.PathMap.{
  Segment, same_segment, is_control, plain_text, has_dot_dot, clean, clean_onto, under, is_within,
  local_rel, PathPair, insert_longest, sort_longest, new_path_map, local_of, remote_of, to_local,
  to_remote,
}
use eyedebugger.PathMap.Longest.{IsLocal, under-append, local_rel-IsLocal}

same_segment_refl : (s : Segment) → same_segment s s ≡ true
unfolding same_segment
same_segment_refl [] = refl
same_segment_refl (c ∷ cs) = ground (arith, same_segment_refl cs)

under_self : (root rel : List Segment) → under root (root ++ rel) ≡ some rel
unfolding under
under_self [] rel = refl
under_self (r ∷ root) rel = ground (arith, same_segment_refl r, under_self root rel)

clean_onto-IsLocal :
    (done path : List Segment) → All IsLocal path → clean_onto done path ≡ reverse done ++ path
unfolding clean_onto
clean_onto-IsLocal done [] h = sym (append-nil (reverse done))
clean_onto-IsLocal done (s ∷ path) (h, hs) =
    let step : clean_onto done (s ∷ path) ≡ clean_onto (s ∷ done) path = ground (arith, h) in
    step
    ∙ clean_onto-IsLocal (s ∷ done) path hs
    ∙ ap (λ l. l ++ path) (reverse-cons s done)
    ∙ append_assoc (reverse done) (s ∷ []) path

has_dot_dot-IsLocal : (path : List Segment) → All IsLocal path → has_dot_dot path ≡ false
unfolding has_dot_dot
has_dot_dot-IsLocal [] h = refl
has_dot_dot-IsLocal (s ∷ path) (h, hs) = ground (arith, h, has_dot_dot-IsLocal path hs)

any-append : (p : Segment → Bool) (xs ys : List Segment) → any p (xs ++ ys) ≡ (any p xs || any p ys)
any-append p [] ys = refl
any-append p (x ∷ xs) ys = ground (arith, any-append p xs ys)

plain_text-append :
    (xs ys : List Segment)
    → plain_text xs ≡ true
    → plain_text ys ≡ true
    → plain_text (xs ++ ys) ≡ true
unfolding plain_text
plain_text-append xs ys h k = ground (arith, any-append (λ s. any is_control s) xs ys, h, k)

-- The loop of `ToRemote` over one pair.
remote_of-one :
    (p : PathPair) (host r : List Segment)
    → remote_of (p ∷ []) host ≡ some r
    → (rel : List Segment) × (under p.local host ≡ some rel)
      × (r ≡ p.remote ++ rel)
      × ((rel ≡ []) ⊎ (local_rel rel ≡ some rel))
unfolding remote_of
remote_of-one p host r h = elim (Option-cases (under p.local host)) [
  | inl none_here ↦ absurd (ground (arith, h, none_here))
  | inr (rel, here) ↦ (rel, here, (joined rel here).0, (joined rel here).1)
]
  where
    joined :
        (rel : List Segment)
        → under p.local host ≡ some rel
        → (r ≡ p.remote ++ rel) × ((rel ≡ []) ⊎ (local_rel rel ≡ some rel))
    joined [] here = (ground (arith, h, here, append-nil p.remote), inl refl)
    joined (s ∷ segs) here = elim (Option-cases (local_rel (s ∷ segs))) [
      | inl bad ↦ absurd (ground (arith, h, here, bad))
      | inr (out, good) ↦
          let (same, names) = local_rel-IsLocal (s ∷ segs) out good in
          (ground (arith, h, here, good), inr (good ∙ ap some same))
    ]

plain_text-local_rel : (rel : List Segment) → local_rel rel ≡ some rel → plain_text rel ≡ true
unfolding local_rel
plain_text-local_rel rel h = elim (Bool-cases (plain_text rel)) [
  | inl plain ↦ plain
  | inr other ↦ absurd (ground (arith, h, other))
]

-- The loop of `ToLocal` over one pair.
local_of-one :
    (p : PathPair) (rel : List Segment)
    → (rel ≡ []) ⊎ (local_rel rel ≡ some rel)
    → local_of (p ∷ []) (p.remote ++ rel) ≡ some (p.local ++ rel)
unfolding local_of is_within
local_of-one p [] h = ground (arith, under_self p.remote [], append-nil p.local)
local_of-one p (s ∷ segs) (inl e) = absurd (ground (arith, e))
local_of-one p (s ∷ segs) (inr good) =
    ground (arith, good, under_self p.remote (s ∷ segs), under_self p.local (s ∷ segs))

names_of : (rel : List Segment) → (rel ≡ []) ⊎ (local_rel rel ≡ some rel) → All IsLocal rel
names_of rel (inl e) = subst (All IsLocal) (sym e) tt
names_of rel (inr good) = (local_rel-IsLocal rel rel good).1

plain_of : (rel : List Segment) → (rel ≡ []) ⊎ (local_rel rel ≡ some rel) → plain_text rel ≡ true
unfolding plain_text
plain_of rel (inl e) = ground (arith, e)
plain_of rel (inr good) = plain_text-local_rel rel good

-- An absolute path that is clean, plain and not "/".
to_local-clean :
    (p : PathPair) (c : List Segment)
    → c ≢ []
    → All IsLocal c
    → plain_text c ≡ true
    → to_local (new_path_map (p ∷ [])) ([] ∷ c) ≡ local_of (p ∷ []) c
unfolding to_local new_path_map sort_longest insert_longest clean
to_local-clean p [] some_there names plain = absurd (some_there refl)
to_local-clean p (s ∷ path) some_there names plain =
    let no_dots = has_dot_dot-IsLocal (s ∷ path) names in
    let same : clean_onto [] (s ∷ path) ≡ s ∷ path = clean_onto-IsLocal [] (s ∷ path) names in
    let step : to_local (new_path_map (p ∷ [])) ([] ∷ s ∷ path)
        ≡ local_of (p ∷ []) (clean_onto [] (s ∷ path)) =
      ground (arith, plain, no_dots) in
    step ∙ ap (local_of (p ∷ [])) same

not_root : (root rel : List Segment) → root ≢ [] → root ++ rel ≢ []
not_root [] rel h = absurd (h refl)
not_root (r ∷ root) rel h = λ e. ground (arith, e)

back :
    (p : PathPair) (rel : List Segment)
    → All IsLocal p.remote
    → plain_text p.remote ≡ true
    → p.remote ≢ []
    → (rel ≡ []) ⊎ (local_rel rel ≡ some rel)
    → to_local (new_path_map (p ∷ [])) ([] ∷ (p.remote ++ rel)) ≡ some (p.local ++ rel)
back p rel names plain below good =
    to_local-clean p (p.remote ++ rel) (not_root p.remote rel below)
      (All-append IsLocal p.remote rel names (names_of rel good))
      (plain_text-append p.remote rel plain (plain_of rel good))
    ∙ local_of-one p rel good

-- Where a map has one pair and its container directory is a clean path other than "/", a host's path
-- that maps to the container maps back to itself, cleaned.
pub to_local-to_remote :
    (p : PathPair) (host r : List Segment)
    → All IsLocal p.remote
    → plain_text p.remote ≡ true
    → p.remote ≢ []
    → to_remote (new_path_map (p ∷ [])) host ≡ some r
    → to_local (new_path_map (p ∷ [])) ([] ∷ r) ≡ some (clean host)
unfolding to_remote new_path_map sort_longest insert_longest
to_local-to_remote p host r names plain below h =
    let (rel, held, joined, good) = remote_of-one p (clean host) r h in
    subst (λ r. to_local (new_path_map (p ∷ [])) ([] ∷ r) ≡ some (clean host)) (sym joined)
      (back p rel names plain below good
        ∙ ap some (sym (under-append p.local (clean host) rel held)))
