-- ===== src/VarPath/Segments.antt =====
-- What the loop that splits a path comes to: segments that are each an index or a name.
use eyedebugger.Prelude.{
  ℕ, zero, suc, ◌≤◌, ◌≡◌, inl, inr, sym, subst, ◌∙◌, Bool, true, false, some, List, [], ◌∷◌, ◌==◌,
  length, arith, Bool-cases, Option-cases,
}
use eyedebugger.VarPath.{
  open_bracket, close_bracket, dot, is_stop, cut_bracket, cut_name, Split, segments, unclosed,
  empty_name, empty_path, ran_out, prepend, split_from,
}
use eyedebugger.VarPath.Cutting.{
  IsShut, IsSegment, AllSegments, cut_name-more, cut_name-IsName, cut_name-length, some_pair,
  cut_bracket-shut, cut_bracket-none, cut_bracket-more, cut_bracket-IsCut, split_from-index,
  split_from-endless, split_from-dot, split_from-first_dot, split_from-name,
}

-- What a split may come to, given fuel: segments that are each an index or a name, or an error.
abbrev pub IsGood : Split → Type 0
IsGood (segments segs) = AllSegments segs
IsGood ran_out = ⊥
IsGood r = Unit

prepend-IsGood : (seg : List ℕ) (r : Split) → IsSegment seg → IsGood r → IsGood (prepend seg r)
unfolding prepend
prepend-IsGood seg (segments segs) h good = (h, good)
prepend-IsGood seg unclosed h good = tt
prepend-IsGood seg empty_name h good = tt
prepend-IsGood seg empty_path h good = tt
prepend-IsGood seg ran_out h good = good

name-IsSegment : (c : ℕ) (cs : List ℕ) → is_stop c ≡ false → IsSegment (cut_name (c ∷ cs)).0
name-IsSegment c cs more =
    subst (λ r. IsSegment r.0) (sym (cut_name-more c cs more)) (inr (more, cut_name-IsName cs))

name-shorter : (c : ℕ) (cs : List ℕ) → is_stop c ≡ false → length (cut_name (c ∷ cs)).1 ≤ length cs
name-shorter c cs more =
    subst (λ r. length r.1 ≤ length cs) (sym (cut_name-more c cs more)) (cut_name-length cs)

cut_bracket-first :
    (c : ℕ) (cs seg rest : List ℕ)
    → cut_bracket (c ∷ cs) ≡ some (seg, rest)
    → (tail : List ℕ) × (seg ≡ c ∷ tail)
cut_bracket-first c cs seg rest h = elim (Bool-cases (c == close_bracket)) [
  | inl shut ↦ ([], sym (some_pair (sym (cut_bracket-shut c cs shut) ∙ h)).0)
  | inr more ↦ elim (Option-cases (cut_bracket cs)) [
    | inl nothing ↦ absurd (ground (arith, sym (cut_bracket-none c cs more nothing) ∙ h))
    | inr ((a, b), found) ↦ (a, sym (some_pair (sym (cut_bracket-more c cs a b more found) ∙ h)).0)
  ]
]

index-IsSegment :
    (c : ℕ) (cs seg rest : List ℕ)
    → (c == open_bracket) ≡ true
    → cut_bracket (c ∷ cs) ≡ some (seg, rest)
    → IsSegment seg
index-IsSegment c cs seg rest is h =
    let (tail, begins) = cut_bracket-first c cs seg rest h in
    subst IsSegment (sym begins)
      (inl (is, subst IsShut begins (cut_bracket-IsCut (c ∷ cs) seg rest h).0))

dot-IsGood :
    (fuel : ℕ) (f : Bool) (c : ℕ) (cs : List ℕ)
    → (c == dot) ≡ true
    → IsGood (split_from fuel false cs)
    → IsGood (split_from (suc fuel) f (c ∷ cs))
dot-IsGood fuel true c cs is good = subst IsGood (sym (split_from-first_dot fuel c cs is)) tt
dot-IsGood fuel false c cs is good = subst IsGood (sym (split_from-dot fuel c cs is)) good

pub split_from-IsGood :
    (fuel : ℕ) (f : Bool) (s : List ℕ) → length s ≤ fuel → IsGood (split_from fuel f s)
split_from-IsGood fuel f [] enough = unfold split_from in tt
split_from-IsGood zero f (c ∷ cs) enough = absurd (omega (arith, enough))
split_from-IsGood (suc fuel) f (c ∷ cs) enough = elim (Bool-cases (c == open_bracket)) [
  | inl is ↦ elim (Option-cases (cut_bracket (c ∷ cs))) [
    | inl nothing ↦ subst IsGood (sym (split_from-endless fuel c cs f is nothing)) tt
    | inr ((seg, rest), found) ↦
        subst IsGood (sym (split_from-index fuel c cs f seg rest is found)) (
          prepend-IsGood seg (split_from fuel false rest) (index-IsSegment c cs seg rest is found) (
            split_from-IsGood fuel false rest
              (omega (arith, enough, (cut_bracket-IsCut (c ∷ cs) seg rest found).1))))
  ]
  | inr no_index ↦ elim (Bool-cases (c == dot)) [
    | inl is ↦ dot-IsGood fuel f c cs is (split_from-IsGood fuel false cs (omega (arith, enough)))
    | inr no_dot ↦
        let more : is_stop c ≡ false = ground (arith, no_index, no_dot) in
        subst IsGood (sym (split_from-name fuel c cs f more)) (
          prepend-IsGood (cut_name (c ∷ cs)).0 (split_from fuel false (cut_name (c ∷ cs)).1)
            (name-IsSegment c cs more)
            (split_from-IsGood fuel false (cut_name (c ∷ cs)).1
              (omega (arith, enough, name-shorter c cs more))))
  ]
]

-- Not the empty list of segments.
abbrev pub IsStarted : Split → Type 0
IsStarted (segments []) = ⊥
IsStarted r = Unit

prepend-IsStarted : (seg : List ℕ) (r : Split) → IsStarted (prepend seg r)
unfolding prepend
prepend-IsStarted seg (segments segs) = tt
prepend-IsStarted seg unclosed = tt
prepend-IsStarted seg empty_name = tt
prepend-IsStarted seg empty_path = tt
prepend-IsStarted seg ran_out = tt

pub split_from-IsStarted :
    (fuel c : ℕ) (cs : List ℕ) → IsStarted (split_from (suc fuel) true (c ∷ cs))
split_from-IsStarted fuel c cs = elim (Bool-cases (c == open_bracket)) [
  | inl is ↦ elim (Option-cases (cut_bracket (c ∷ cs))) [
    | inl nothing ↦ subst IsStarted (sym (split_from-endless fuel c cs true is nothing)) tt
    | inr ((seg, rest), found) ↦
        subst IsStarted (sym (split_from-index fuel c cs true seg rest is found))
          (prepend-IsStarted seg (split_from fuel false rest))
  ]
  | inr no_index ↦ elim (Bool-cases (c == dot)) [
    | inl is ↦ subst IsStarted (sym (split_from-first_dot fuel c cs is)) tt
    | inr no_dot ↦
        subst IsStarted (sym (split_from-name fuel c cs true (ground (arith, no_index, no_dot))))
          (prepend-IsStarted (cut_name (c ∷ cs)).0 (split_from fuel false (cut_name (c ∷ cs)).1))
  ]
]
