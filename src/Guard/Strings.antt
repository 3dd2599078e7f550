-- ===== src/Guard/Strings.antt =====
-- The string and the runs that the scanner passes over.
use eyedebugger.Prelude.{
  ℕ, zero, suc, ap, ◌++◌, length-append, ◌≤◌, ◌≡◌, ◌≢◌, inl, inr, refl, subst, sym, ◌∙◌, Bool, true,
  false, ◌||◌, some, List, [], ◌∷◌, ◌==◌, length, drop, arith, Bool-cases,
}
use eyedebugger.Guard.{
  backslash, dot, is_ident_start, is_ident_part, is_digit, span, closes, opening, skip_to,
  skip_string,
}
use eyedebugger.Guard.Language.{IsClosed, ends, escape, plain, IsString, times}

some_eq : {a b : List ℕ} → some a ≡ some b → a ≡ b
some_eq h = ground (arith, h)

module _ (n q : ℕ) where
  skip_to-nothing : (escaped : Bool) (rest : List ℕ) → skip_to n q escaped [] ≢ some rest
  unfolding skip_to
  skip_to-nothing escaped rest h = ground (arith, h)

  skip_to-escaped : (d : ℕ) (ds : List ℕ) → skip_to n q true (d ∷ ds) ≡ skip_to n q false ds
  unfolding skip_to
  skip_to-escaped d ds = refl

  skip_to-backslash :
      (c : ℕ) (cs : List ℕ)
      → (c == backslash) ≡ true
      → skip_to n q false (c ∷ cs) ≡ skip_to n q true cs
  unfolding skip_to
  skip_to-backslash c cs e = rw e refl

  skip_to-closes :
      (c : ℕ) (cs : List ℕ)
      → (c == backslash) ≡ false
      → closes n q (c ∷ cs) ≡ true
      → skip_to n q false (c ∷ cs) ≡ some (drop n (c ∷ cs))
  unfolding skip_to
  skip_to-closes c cs e f = ground (arith, e, f)

  skip_to-plain :
      (c : ℕ) (cs : List ℕ)
      → (c == backslash) ≡ false
      → closes n q (c ∷ cs) ≡ false
      → skip_to n q false (c ∷ cs) ≡ skip_to n q false cs
  unfolding skip_to
  skip_to-plain c cs e f = ground (arith, e, f)

  closes-times : (m : ℕ) (cs : List ℕ) → closes m q cs ≡ true → cs ≡ times m q ++ drop m cs
  unfolding closes
  closes-times zero cs h = refl
  closes-times (suc m) [] h = absurd (ground (arith, h))
  closes-times (suc m) (c ∷ cs) h =
      let first : c ≡ q = ground (arith, h) in
      ap (λ d. d ∷ cs) first ∙ ap (λ l. q ∷ l) (closes-times m cs (ground (arith, h)))

  times-closes : (m : ℕ) (later : List ℕ) → closes m q (times m q ++ later) ≡ true
  unfolding closes
  times-closes zero later = refl
  times-closes (suc m) later = ground (arith, times-closes m later)

  closes-not : (cs : List ℕ) → closes n q cs ≡ false → (later : List ℕ) → cs ≢ times n q ++ later
  closes-not cs h later e =
      ground (arith, h, subst (λ l. closes n q l ≡ true) (sym e) (times-closes n later))

  skip_to-unescaped :
      (c : ℕ) (cs rest : List ℕ)
      → (c == backslash) ≡ false
      → (skip_to n q false cs ≡ some rest → IsClosed n q cs rest)
      → skip_to n q false (c ∷ cs) ≡ some rest
      → IsClosed n q (c ∷ cs) rest
  skip_to-unescaped c cs rest no_slash further h = elim (Bool-cases (closes n q (c ∷ cs))) [
    | inl shut ↦
        subst (IsClosed n q (c ∷ cs)) (some_eq (sym (skip_to-closes c cs no_slash shut) ∙ h))
          (ends (ground (arith, no_slash)) (closes-times n (c ∷ cs) shut))
    | inr more ↦
        plain (ground (arith, no_slash)) (closes-not (c ∷ cs) more)
          (further (sym (skip_to-plain c cs no_slash more) ∙ h))
  ]

  skip_to-IsClosed : (cs rest : List ℕ) → skip_to n q false cs ≡ some rest → IsClosed n q cs rest
  skip_to-IsClosed [] rest h = absurd (skip_to-nothing false rest h)
  skip_to-IsClosed (c ∷ []) rest h = elim (Bool-cases (c == backslash)) [
    | inl slash ↦ absurd (skip_to-nothing true rest (sym (skip_to-backslash c [] slash) ∙ h))
    | inr no_slash ↦ skip_to-unescaped c [] rest no_slash (skip_to-IsClosed [] rest) h
  ]
  skip_to-IsClosed (c ∷ d ∷ ds) rest h = elim (Bool-cases (c == backslash)) [
    | inl slash ↦ escape (ground (arith, slash)) (
        skip_to-IsClosed ds rest
          (sym (skip_to-backslash c (d ∷ ds) slash ∙ skip_to-escaped d ds) ∙ h))
    | inr no_slash ↦ skip_to-unescaped c (d ∷ ds) rest no_slash (skip_to-IsClosed (d ∷ ds) rest) h
  ]

  IsClosed-length : {cs rest : List ℕ} → IsClosed n q cs rest → length rest ≤ length cs
  IsClosed-length (ends {rest = rest} e f) =
      omega (arith, ap length f, length-append (times n q) rest)
  IsClosed-length (escape e h) = omega (arith, IsClosed-length h)
  IsClosed-length (plain e f h) = omega (arith, IsClosed-length h)

two_more : (q : ℕ) (cs : List ℕ) → closes 2 q cs ≡ true → cs ≡ q ∷ q ∷ drop 2 cs
two_more q cs h = closes-times 2 q 2 cs h

opening-three : (q : ℕ) (cs : List ℕ) → closes 2 q cs ≡ true → opening q cs ≡ 3
unfolding opening
opening-three q cs h = rw h refl

opening-one : (q : ℕ) (cs : List ℕ) → closes 2 q cs ≡ false → opening q cs ≡ 1
unfolding opening
opening-one q cs h = rw h refl

pub skip_string-IsString :
    (q : ℕ) (cs rest : List ℕ) → skip_string q cs ≡ some rest → IsString q cs rest
unfolding skip_string
skip_string-IsString q cs rest h = elim (Bool-cases (closes 2 q cs)) [
  | inl three ↦
      let at : skip_to 3 q false (drop 2 cs) ≡ some rest =
        subst (λ n. skip_to n q false (drop n (q ∷ cs)) ≡ some rest) (opening-three q cs three) h in
      inl (drop 2 cs, two_more q cs three, skip_to-IsClosed 3 q (drop 2 cs) rest at)
  | inr one ↦
      let at : skip_to 1 q false cs ≡ some rest =
        subst (λ n. skip_to n q false (drop n (q ∷ cs)) ≡ some rest) (opening-one q cs one) h in
      inr (closes-not 2 q cs one, skip_to-IsClosed 1 q cs rest at)
]

pub IsString-length : (q : ℕ) (cs rest : List ℕ) → IsString q cs rest → length rest ≤ length cs
IsString-length q cs rest (inl (inside, e, h)) = omega (arith, ap length e, IsClosed-length 3 q h)
IsString-length q cs rest (inr (single, h)) = IsClosed-length 1 q h

span-length : (p : ℕ → Bool) (cs : List ℕ) → length (span p cs).1 ≤ length cs
unfolding span
span-length p [] = omega arith
span-length p (c ∷ cs) = ground (arith, span-length p cs)

pub span-shorter :
    (p : ℕ → Bool) (c : ℕ) (cs : List ℕ) → p c ≡ true → length (span p (c ∷ cs)).1 ≤ length cs
unfolding span
span-shorter p c cs h = ground (arith, h, span-length p cs)

pub ident_part_start : (c : ℕ) → is_ident_start c ≡ true → is_ident_part c ≡ true
unfolding is_ident_part
ident_part_start c h = ground (arith, h)

pub number_part : (c : ℕ) → is_digit c ≡ true → (is_ident_part c || c == dot) ≡ true
unfolding is_ident_part
number_part c h = ground (arith, h)
