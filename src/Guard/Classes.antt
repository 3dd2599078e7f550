-- ===== src/Guard/Classes.antt =====
-- The tests of the scanner, and what they say of texts, sets and ranges.
use eyedebugger.Prelude.{
  ℕ, ◌≡◌, ◌≢◌, ◌⊎◌, inl, inr, refl, sym, ap, ◌∙◌, subst, Bool, true, false, ◌||◌, none, some, List,
  [], ◌∷◌, ◌++◌, ◌==◌, All, arith, Bool-cases,
}
use eyedebugger.Guard.{
  Rules, op_chars, has_rune, has_word, same_text, is_ident_start, is_ident_part, is_digit, span,
  strip, starts_op, assignment, dot,
}
use eyedebugger.Guard.Language.{
  Among, StartsName, IsDigit, InName, InNumber, IsOperator, IsRun, Assigns, IsQuoted,
}

-- A test that decides a predicate.
abbrev pub Decides : {A : Type 0} → (A → Bool) → (A → Type 0) → Type 0
Decides {A} p P = (x : A) → ((p x ≡ true) × P x) ⊎ ((p x ≡ false) × ¬ P x)

pub Decides-yes :
    {A : Type 0} {p : A → Bool} {P : A → Type 0} → Decides p P → (x : A) → p x ≡ true → P x
Decides-yes d x h = elim (d x) [
  | inl (_, holds) ↦ holds
  | inr (off, _) ↦ absurd (ground (arith, h, off))
]

pub Decides-no :
    {A : Type 0} {p : A → Bool} {P : A → Type 0} → Decides p P → (x : A) → p x ≡ false → ¬ P x
Decides-no d x h = elim (d x) [
  | inl (on, _) ↦ absurd (ground (arith, h, on))
  | inr (_, fails) ↦ fails
]

pub has_rune-decides : (cs : List ℕ) → Decides (has_rune cs) (λ c. Among c cs)
unfolding has_rune
has_rune-decides [] c = inr (refl, λ h. h)
has_rune-decides (d ∷ ds) c = elim (has_rune-decides ds c) [
  | inl (on, there) ↦ inl (ground (arith, on), inr there)
  | inr (off, missing) ↦ elim (Bool-cases (d == c)) [
    | inl same ↦ inl (ground (arith, same), inl (ground (arith, same)))
    | inr differ ↦ inr (
      ground (arith, differ, off),
      λ h. elim h [ inl e ↦ ground (arith, e, differ) | inr there ↦ missing there ],
    )
  ]
]

same_text-eq : (v w : List ℕ) → same_text v w ≡ true → v ≡ w
unfolding same_text
same_text-eq [] [] h = refl
same_text-eq [] (d ∷ ds) h = absurd (ground (arith, h))
same_text-eq (c ∷ cs) [] h = absurd (ground (arith, h))
same_text-eq (c ∷ cs) (d ∷ ds) h =
    let first : c ≡ d = ground (arith, h) in
    let rest = same_text-eq cs ds (ground (arith, h)) in
    ap (λ e. e ∷ cs) first ∙ ap (λ l. d ∷ l) rest

same_text_self : (v : List ℕ) → same_text v v ≡ true
unfolding same_text
same_text_self [] = refl
same_text_self (c ∷ cs) = ground (arith, same_text_self cs)

same_text-not : (v w : List ℕ) → same_text v w ≡ false → v ≢ w
same_text-not v w h e = ground (arith, h, subst (λ u. same_text v u ≡ true) e (same_text_self v))

pub has_word-decides : (ws : List (List ℕ)) → Decides (has_word ws) (λ w. Among w ws)
unfolding has_word
has_word-decides [] w = inr (refl, λ h. h)
has_word-decides (v ∷ vs) w = elim (has_word-decides vs w) [
  | inl (on, there) ↦ inl (ground (arith, on), inr there)
  | inr (off, missing) ↦ elim (Bool-cases (same_text v w)) [
    | inl same ↦ inl (ground (arith, same), inl (sym (same_text-eq v w same)))
    | inr differ ↦ inr (
      ground (arith, differ, off),
      λ h. elim h [ inl e ↦ same_text-not v w differ (sym e) | inr there ↦ missing there ],
    )
  ]
]

pub is_ident_start-decides : Decides is_ident_start StartsName
unfolding is_ident_start
is_ident_start-decides c = ground arith

pub is_digit-decides : Decides is_digit IsDigit
unfolding is_digit
is_digit-decides c = ground arith

pub is_ident_part-decides : Decides is_ident_part InName
unfolding is_ident_part
is_ident_part-decides c = ground (arith, is_ident_start-decides c, is_digit-decides c)

pub number_part-decides : Decides (λ d. is_ident_part d || d == dot) InNumber
number_part-decides c = ground (arith, is_ident_part-decides c)

pub IsOperator-decides : Decides (has_rune op_chars) IsOperator
IsOperator-decides c = has_rune-decides op_chars c

-- What `span` splits a text into.
pub span-IsRun :
    (p : ℕ → Bool) (P : ℕ → Type 0)
    → Decides p P
    → (cs : List ℕ) → IsRun P cs (span p cs).0 (span p cs).1
unfolding span
span-IsRun p P d [] = (refl, tt, tt)
span-IsRun p P d (c ∷ cs) = elim (d c) [
  | inl (on, holds) ↦
      let (whole, every, stop) = span-IsRun p P d cs in
      rw (on) (ap (λ l. c ∷ l) whole, (holds, every), stop)
  | inr (off, fails) ↦ rw (off) (refl, tt, fails)
]

pub IsQuoted-not :
    (g : Rules) (q : ℕ) (qs : List ℕ) → has_rune g.quotes q ≡ false → ¬ IsQuoted g (q ∷ qs)
IsQuoted-not g q qs h = Decides-no (has_rune-decides g.quotes) q h

strip-append : (a r : List ℕ) → strip a (a ++ r) ≡ some r
unfolding strip
strip-append [] r = refl
strip-append (c ∷ cs) r = ground (arith, strip-append cs r)

starts_op-append : (a : List ℕ) (c : ℕ) (cs : List ℕ) → c ≢ 61 → starts_op a (a ++ c ∷ cs) ≡ true
unfolding starts_op
starts_op-append a c cs h = rw (strip-append a (c ∷ cs), starts_op) (ground (arith, h))

Assigns-not : (op a : List ℕ) → same_text op a ≡ false → starts_op a op ≡ false → ¬ Assigns op a
Assigns-not op a other short (inl e) = same_text-not op a other e
Assigns-not op a other short (inr (c, cs, e, h)) =
    ground (arith, short, subst (λ r. starts_op a r ≡ true) (sym e) (starts_op-append a c cs h))

pub assignment-none :
    (ops : List (List ℕ)) (op : List ℕ) → assignment ops op ≡ none → All (λ a. ¬ Assigns op a) ops
unfolding assignment
assignment-none [] op h = tt
assignment-none (a ∷ ops) op h = elim (Bool-cases (same_text op a || starts_op a op)) [
  | inl found ↦ absurd (ground (arith, h, found))
  | inr clear ↦ (
    Assigns-not op a (ground (arith, clear)) (ground (arith, clear)),
    assignment-none ops op (ground (arith, h, clear)),
  )
]
