-- ===== src/VarPath/Cutting.antt =====
-- The two cuts of a path, at an index and at a name.
use eyedebugger.Prelude.{
  ℕ, suc, ◌≤◌, ◌<◌, ◌≡◌, ◌⊎◌, inl, inr, refl, sym, ap, subst, ◌∙◌, Bool, true, false, none, some,
  List, [], ◌∷◌, ◌++◌, ◌==◌, length, arith, Bool-cases, Option-cases,
}
use eyedebugger.VarPath.{
  open_bracket, close_bracket, dot, is_stop, cut_bracket, cut_name, unclosed, empty_name, prepend,
  split_from,
}

-- No stop in it.
abbrev pub IsName : List ℕ → Type 0
IsName [] = Unit
IsName (c ∷ cs) = (is_stop c ≡ false) × IsName cs

-- A "]" at its end and nowhere else.
abbrev pub IsShut : List ℕ → Type 0
IsShut [] = ⊥
IsShut (c ∷ cs) =
    (((c == close_bracket) ≡ true) × (cs ≡ [])) ⊎ (((c == close_bracket) ≡ false) × IsShut cs)

-- A segment as it is split off: an index, or a name that is not empty.
abbrev pub IsSegment : List ℕ → Type 0
IsSegment [] = ⊥
IsSegment (c ∷ cs) =
    (((c == open_bracket) ≡ true) × IsShut (c ∷ cs)) ⊎ ((is_stop c ≡ false) × IsName cs)

abbrev pub AllSegments : List (List ℕ) → Type 0
AllSegments [] = Unit
AllSegments (seg ∷ segs) = IsSegment seg × AllSegments segs

-- What may follow a name: nothing, or what ends it.
abbrev pub Stops : List ℕ → Type 0
Stops [] = Unit
Stops (c ∷ cs) = is_stop c ≡ true

cut_name-stop : (c : ℕ) (cs : List ℕ) → is_stop c ≡ true → cut_name (c ∷ cs) ≡ ([], c ∷ cs)
unfolding cut_name
cut_name-stop c cs e = rw e refl

pub cut_name-more :
    (c : ℕ) (cs : List ℕ)
    → is_stop c ≡ false
    → cut_name (c ∷ cs) ≡ (c ∷ (cut_name cs).0, (cut_name cs).1)
unfolding cut_name
cut_name-more c cs e = rw e refl

pub cut_name-IsName : (s : List ℕ) → IsName (cut_name s).0
unfolding cut_name
cut_name-IsName [] = tt
cut_name-IsName (c ∷ cs) = elim (Bool-cases (is_stop c)) [
  | inl stop ↦ subst (λ r. IsName r.0) (sym (cut_name-stop c cs stop)) tt
  | inr more ↦ subst (λ r. IsName r.0) (sym (cut_name-more c cs more)) (more, cut_name-IsName cs)
]

pub cut_name-length : (s : List ℕ) → length (cut_name s).1 ≤ length s
unfolding cut_name
cut_name-length [] = omega arith
cut_name-length (c ∷ cs) = ground (arith, cut_name-length cs)

pub cut_name-append : (w rest : List ℕ) → IsName w → Stops rest → cut_name (w ++ rest) ≡ (w, rest)
unfolding cut_name
cut_name-append [] [] h stop = refl
cut_name-append [] (c ∷ cs) h stop = rw stop refl
cut_name-append (c ∷ cs) rest h stop = rw (h.0, cut_name-append cs rest h.1 stop) refl

pub some_pair : {p q : List ℕ × List ℕ} → some p ≡ some q → (p.0 ≡ q.0) × (p.1 ≡ q.1)
some_pair h = ground (arith, h)

pub cut_bracket-shut :
    (c : ℕ) (cs : List ℕ) → (c == close_bracket) ≡ true → cut_bracket (c ∷ cs) ≡ some (c ∷ [], cs)
unfolding cut_bracket
cut_bracket-shut c cs e = rw e refl

pub cut_bracket-none :
    (c : ℕ) (cs : List ℕ)
    → (c == close_bracket) ≡ false
    → cut_bracket cs ≡ none
    → cut_bracket (c ∷ cs) ≡ none
unfolding cut_bracket
cut_bracket-none c cs e f = rw (e, f) refl

pub cut_bracket-more :
    (c : ℕ) (cs a b : List ℕ)
    → (c == close_bracket) ≡ false
    → cut_bracket cs ≡ some (a, b)
    → cut_bracket (c ∷ cs) ≡ some (c ∷ a, b)
unfolding cut_bracket
cut_bracket-more c cs a b e f = rw (e, f) refl

-- An index is shut, and the rest is shorter than the text.
abbrev IsCut : List ℕ → List ℕ → List ℕ → Type 0
IsCut s seg rest = IsShut seg × (length rest < length s)

pub cut_bracket-IsCut : (s seg rest : List ℕ) → cut_bracket s ≡ some (seg, rest) → IsCut s seg rest
cut_bracket-IsCut [] seg rest h = absurd (unfold cut_bracket in ground (arith, h))
cut_bracket-IsCut (c ∷ cs) seg rest h = elim (Bool-cases (c == close_bracket)) [
  | inl shut ↦
      let (is_seg, is_rest) = some_pair (sym (cut_bracket-shut c cs shut) ∙ h) in
      (subst IsShut is_seg (inl (shut, refl)), omega (arith, ap length is_rest))
  | inr more ↦ elim (Option-cases (cut_bracket cs)) [
    | inl nothing ↦ absurd (ground (arith, sym (cut_bracket-none c cs more nothing) ∙ h))
    | inr ((a, b), found) ↦
        let (is_seg, is_rest) = some_pair (sym (cut_bracket-more c cs a b more found) ∙ h) in
        let later = cut_bracket-IsCut cs a b found in
        (subst IsShut is_seg (inr (more, later.0)), omega (arith, later.1, ap length is_rest))
  ]
]

pub cut_bracket-append :
    (seg rest : List ℕ) → IsShut seg → cut_bracket (seg ++ rest) ≡ some (seg, rest)
cut_bracket-append [] rest h = absurd h
cut_bracket-append (c ∷ cs) rest (inl (shut, last)) = rw last (cut_bracket-shut c rest shut)
cut_bracket-append (c ∷ cs) rest (inr (more, h)) =
    cut_bracket-more c (cs ++ rest) cs rest more (cut_bracket-append cs rest h)

module _ (fuel : ℕ) (c : ℕ) (cs : List ℕ) where
  -- What a turn of the loop comes to.
  pub split_from-index :
      (f : Bool) (seg rest : List ℕ)
      → (c == open_bracket) ≡ true
      → cut_bracket (c ∷ cs) ≡ some (seg, rest)
      → split_from (suc fuel) f (c ∷ cs) ≡ prepend seg (split_from fuel false rest)
  unfolding split_from
  split_from-index f seg rest e h = rw (e, h) refl

  pub split_from-endless :
      (f : Bool)
      → (c == open_bracket) ≡ true
      → cut_bracket (c ∷ cs) ≡ none
      → split_from (suc fuel) f (c ∷ cs) ≡ unclosed
  unfolding split_from
  split_from-endless f e h = rw (e, h) refl

  pub split_from-dot :
      (c == dot) ≡ true → split_from (suc fuel) false (c ∷ cs) ≡ split_from fuel false cs
  unfolding split_from
  split_from-dot e = ground (arith, e)

  pub split_from-first_dot : (c == dot) ≡ true → split_from (suc fuel) true (c ∷ cs) ≡ empty_name
  unfolding split_from
  split_from-first_dot e = ground (arith, e)

  pub split_from-name :
      (f : Bool)
      → is_stop c ≡ false
      → split_from (suc fuel) f (c ∷ cs)
        ≡ prepend (cut_name (c ∷ cs)).0 (split_from fuel false (cut_name (c ∷ cs)).1)
  unfolding split_from
  split_from-name f e = ground (arith, e)
