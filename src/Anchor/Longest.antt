-- ===== src/Anchor/Longest.antt =====
-- `lcs` is the length of a longest common subsequence.
use eyedebugger.Prelude.{
  ℕ, suc, ◌+◌, ◌≤◌, ◌≡◌, refl, sym, ◌∙◌, ap, subst, true, List, [], ◌∷◌, ◌++◌, leb, max, length,
  arith, reverse, append-nil, append_assoc, if◌then◌else◌, Bool-cases, inl, inr,
}
use mathlib.Core.List.{reverse-reverse, reverse-cons}
use eyedebugger.Anchor.{same, fill, rows, zeros, last_cell, lcs}
use eyedebugger.Anchor.Subsequence.{
  Within, done, skip, keep, Within-nil, Within-tail, Within-reverse, Within-length, length-reverse,
}

same_iff : (c d : List ℕ) → (same c d ≡ true → c ≡ d) × (c ≡ d → same c d ≡ true)
unfolding same
same_iff [] [] = (λ h. refl, λ h. refl)
same_iff [] (d ∷ ds) = (λ h. absurd (ground (arith, h)), λ h. absurd (ground (arith, h)))
same_iff (c ∷ cs) [] = (λ h. absurd (ground (arith, h)), λ h. absurd (ground (arith, h)))
same_iff (c ∷ cs) (d ∷ ds) =
    (λ h. ground (arith, h, (same_iff cs ds).0), λ h. ground (arith, h, (same_iff cs ds).1))

-- The recurrence that the rows tabulate.
common : List (List ℕ) → List (List ℕ) → ℕ
common [] ys = 0
common (x ∷ xs) [] = 0
common (x ∷ xs) (y ∷ ys) =
    if same x y then suc (common xs ys) else max (common (x ∷ xs) ys) (common xs (y ∷ ys))

-- The cells of the row for `xs` after those for `ys`, both backwards, over the rest of the columns.
cells : List (List ℕ) → List (List ℕ) → List (List ℕ) → List ℕ
cells xs ys [] = []
cells xs ys (z ∷ zs) = common xs (z ∷ ys) ∷ cells xs (z ∷ ys) zs

fill-cells :
    (x : List ℕ) (xs ys zs : List (List ℕ))
    → fill x zs (common xs ys) (cells xs ys zs) (common (x ∷ xs) ys) ≡ cells (x ∷ xs) ys zs
unfolding fill cells
fill-cells x xs ys [] = refl
fill-cells x xs ys (z ∷ zs) =
    ap (λ c. c ∷ fill x zs (common xs (z ∷ ys)) (cells xs (z ∷ ys) zs) c) cell
    ∙ ap (λ cs. common (x ∷ xs) (z ∷ ys) ∷ cs) (fill-cells x xs (z ∷ ys) zs)
  where
    cell :
        (if same x z
          then common xs ys + 1
          else if leb (common (x ∷ xs) ys) (common xs (z ∷ ys))
          then common xs (z ∷ ys)
          else common (x ∷ xs) ys)
        ≡ common (x ∷ xs) (z ∷ ys)
    cell = unfold common in ground arith

common-nil : (xs : List (List ℕ)) → common xs [] ≡ 0
unfolding common
common-nil [] = refl
common-nil (x ∷ xs) = refl

zeros-cells : (ys zs : List (List ℕ)) → zeros zs ≡ cells [] ys zs
unfolding zeros cells common
zeros-cells ys [] = refl
zeros-cells ys (z ∷ zs) = ap (λ cs. 0 ∷ cs) (zeros-cells (z ∷ ys) zs)

rows-cells : (a xs b : List (List ℕ)) → rows a b (cells xs [] b) ≡ cells (reverse a ++ xs) [] b
unfolding rows
rows-cells [] xs b = refl
rows-cells (x ∷ a) xs b =
    ap (rows a b) (
      ap (λ n. fill x b n (cells xs [] b) 0) (sym (common-nil xs))
      ∙ ap (λ n. fill x b (common xs []) (cells xs [] b) n) (sym (common-nil (x ∷ xs)))
      ∙ fill-cells x xs [] b)
    ∙ rows-cells a (x ∷ xs) b
    ∙ ap (λ l. cells l [] b)
        (sym (ap (λ l. l ++ xs) (reverse-cons x a) ∙ append_assoc (reverse a) (x ∷ []) xs))

last_cell-cells :
    (xs ys zs : List (List ℕ))
    → last_cell (cells xs ys zs) (common xs ys) ≡ common xs (reverse zs ++ ys)
unfolding last_cell cells
last_cell-cells xs ys [] = refl
last_cell-cells xs ys (z ∷ zs) =
    last_cell-cells xs (z ∷ ys) zs
    ∙ ap (common xs)
        (sym (ap (λ l. l ++ ys) (reverse-cons z zs) ∙ append_assoc (reverse zs) (z ∷ []) ys))

lcs-common : (a b : List (List ℕ)) → lcs a b ≡ common (reverse a) (reverse b)
unfolding lcs
lcs-common a b =
    ap (λ row. last_cell row 0) (ap (rows a b) (zeros-cells [] b) ∙ rows-cells a [] b)
    ∙ ap (last_cell (cells (reverse a ++ []) [] b)) (sym (common-nil (reverse a ++ [])))
    ∙ last_cell-cells (reverse a ++ []) [] b
    ∙ ap (λ l. common l (reverse b ++ [])) (append-nil (reverse a))
    ∙ ap (common (reverse a)) (append-nil (reverse b))

-- A common subsequence, and that no longer one exists.
abbrev pub IsLongest : ℕ → List (List ℕ) → List (List ℕ) → Type 0
IsLongest n a b =
    ((s : List (List ℕ)) × Within s a × Within s b × (length s ≡ n))
    × ((t : List (List ℕ)) → Within t a → Within t b → length t ≤ n)

common-attained :
    (xs ys : List (List ℕ))
    → (s : List (List ℕ)) × Within s xs × Within s ys × (length s ≡ common xs ys)
unfolding common
common-attained [] ys = ([], done, Within-nil ys, refl)
common-attained (x ∷ xs) [] = ([], Within-nil (x ∷ xs), done, refl)
common-attained (x ∷ xs) (y ∷ ys) = elim (Bool-cases (same x y)) [
  | inl e ↦
      let (s, w, v, n) = common-attained xs ys in
      (
        x ∷ s,
        keep w,
        subst (λ z. Within (x ∷ s) (z ∷ ys)) ((same_iff x y).0 e) (keep v),
        ground (arith, e, n),
      )
  | inr e ↦ elim (Bool-cases (leb (common (x ∷ xs) ys) (common xs (y ∷ ys)))) [
    | inl less ↦
        let (s, w, v, n) = common-attained xs (y ∷ ys) in (s, skip w, v, ground (arith, e, n, less))
    | inr more ↦
        let (s, w, v, n) = common-attained (x ∷ xs) ys in (s, w, skip v, ground (arith, e, n, more))
  ]
]

common-bound : (xs ys t : List (List ℕ)) → Within t xs → Within t ys → length t ≤ common xs ys
unfolding common
common-bound [] ys t w v = Within-length w
common-bound (x ∷ xs) [] t w v = Within-length v
common-bound (x ∷ xs) (y ∷ ys) [] w v = omega arith
common-bound (x ∷ xs) (y ∷ ys) (z ∷ t) (skip w) v = ground (
  arith,
  common-bound xs (y ∷ ys) (z ∷ t) w v,
  common-bound xs ys t (Within-tail (skip {x = x} w)) (Within-tail v),
)
common-bound (x ∷ xs) (y ∷ ys) (z ∷ t) (keep w) (skip v) = ground (
  arith,
  common-bound (z ∷ xs) ys (z ∷ t) (keep w) v,
  common-bound xs ys t w (Within-tail (skip {x = y} v)),
)
common-bound (x ∷ xs) (y ∷ ys) (z ∷ t) (keep w) (keep v) =
    ground (arith, (same_iff z z).1 refl, common-bound xs ys t w v)

-- The two rows compute the length of a longest common subsequence of the two token lists: some
-- common subsequence has that length, and none is longer.
pub lcs-IsLongest : (a b : List (List ℕ)) → IsLongest (lcs a b) a b
lcs-IsLongest a b =
    let (s, w, v, n) = common-attained (reverse a) (reverse b) in
    (
      (
        reverse s,
        subst (Within (reverse s)) (reverse-reverse a) (Within-reverse w),
        subst (Within (reverse s)) (reverse-reverse b) (Within-reverse v),
        length-reverse s ∙ n ∙ sym (lcs-common a b),
      ),
      λ t wt vt. omega (
        arith,
        lcs-common a b,
        length-reverse t,
        common-bound (reverse a) (reverse b) (reverse t) (Within-reverse wt) (Within-reverse vt),
      ),
    )
