-- ===== src/Present/Difference/Complete.antt =====
-- Whoever knows the variables of the previous stop knows those of this one by their difference.
use eyedebugger.Prelude.{
  ℕ, ◌≡◌, ◌≢◌, ◌⊎◌, inl, inr, refl, sym, subst, ap, ◌∙◌, String, true, false, Option, none, some,
  str_eq, eq_iff, arith, Bool-cases, Option-cases,
}
use eyedebugger.Present.Budget.{VarText, var, Vars, nil, cons}
use eyedebugger.Present.Difference.{change_new, change_changed, lookup, differs, diff}

-- No name twice.
abbrev pub IsDistinct : Vars → Type 0
IsDistinct nil = Unit
IsDistinct (cons (var t kids more) vs) = (lookup vs t.name ≡ none) × IsDistinct vs

abbrev pub SameValue : VarText → VarText → Type 0
SameValue u t = (u.value ≡ t.value) × (u.type_name ≡ t.type_name)

-- What the difference says of a variable `t` of this stop, where the previous stop had `old`.
abbrev pub Tells : Option VarText → Option VarText → VarText → Type 0
Tells none none t = ⊥
Tells none (some d) t = SameValue d t × (d.change ≡ change_new)
Tells (some old) none t = SameValue old t
Tells (some old) (some d) t =
    SameValue d t × (d.change ≡ change_changed) × (d.previous ≡ old.value) × ¬ SameValue old t

module _ (t : VarText) (kids : Vars) (more : ℕ) (vs : Vars) (n : String) where
  lookup-later :
      (u : VarText) → lookup vs n ≡ some u → lookup (cons (var t kids more) vs) n ≡ some u
  unfolding lookup
  lookup-later u h = rw h refl

  lookup-first :
      lookup vs n ≡ none → str_eq t.name n ≡ true → lookup (cons (var t kids more) vs) n ≡ some t
  unfolding lookup
  lookup-first h e = rw (h, e) refl

  lookup-miss :
      lookup vs n ≡ none → str_eq t.name n ≡ false → lookup (cons (var t kids more) vs) n ≡ none
  unfolding lookup
  lookup-miss h e = rw (h, e) refl

  lookup-same : str_eq t.name n ≡ false → lookup (cons (var t kids more) vs) n ≡ lookup vs n
  lookup-same e = elim (Option-cases (lookup vs n)) [
    | inl h ↦ lookup-miss h e ∙ sym h
    | inr (u, h) ↦ lookup-later u h ∙ sym h
  ]

differs-not : (old t : VarText) → differs old t ≡ true → ¬ SameValue old t
unfolding differs
differs-not old t h same =
    ground (arith, h, same, eq_iff old.value t.value, eq_iff old.type_name t.type_name)

differs-same : (old t : VarText) → differs old t ≡ false → SameValue old t
unfolding differs
differs-same old t h = ground (arith, h, eq_iff old.value t.value, eq_iff old.type_name t.type_name)

named_there :
    (t : VarText) (kids : Vars) (more : ℕ) (vs : Vars) (n : String)
    → str_eq t.name n ≡ true
    → lookup (cons (var t kids more) vs) n ≢ none
named_there t kids more vs n is h = elim (Option-cases (lookup vs n)) [
  | inl nothing ↦ ground (arith, sym (lookup-first t kids more vs n nothing is) ∙ h)
  | inr (u, found) ↦ ground (arith, sym (lookup-later t kids more vs n u found) ∙ h)
]

-- What the difference has for the first variable.
abbrev Head : Vars → VarText → Vars → Vars → Type 0
Head prev t rest all =
    ((all ≡ rest) × Tells (lookup prev t.name) none t)
    ⊎ ((d : VarText) × (all ≡ cons (var d nil 0) rest)
        × (d.name ≡ t.name)
        × Tells (lookup prev t.name) (some d) t)

diff-Head :
    (prev : Vars) (t : VarText) (kids : Vars) (more : ℕ) (vs : Vars)
    → Head prev t (diff prev vs) (diff prev (cons (var t kids more) vs))
unfolding diff
diff-Head prev t kids more vs = elim (Option-cases (lookup prev t.name)) [
  | inl nothing ↦ inr (
    record t { change = change_new },
    rw (nothing, diff) refl,
    refl,
    subst (λ o. Tells o (some (record t { change = change_new })) t) (sym nothing)
        ((refl, refl), refl),
  )
  | inr (old, had) ↦ elim (Bool-cases (differs old t)) [
    | inl changed ↦ inr (
      record t { change = change_changed; previous = old.value },
      rw (had, changed, diff) refl,
      refl,
      subst (λ o. Tells o (some (record t { change = change_changed; previous = old.value })) t)
          (sym had) ((refl, refl), refl, refl, differs-not old t changed),
    )
    | inr same ↦
        inl (
          rw (had, same, diff) refl,
          subst (λ o. Tells o none t) (sym had) (differs-same old t same),
        )
  ]
]

lookup-diff-none :
    (prev cur : Vars) (n : String) → lookup cur n ≡ none → lookup (diff prev cur) n ≡ none
lookup-diff-none prev nil n h = unfold diff lookup in refl
lookup-diff-none prev (cons (var t kids more) vs) n h = elim (Bool-cases (str_eq t.name n)) [
  | inl is ↦ absurd (named_there t kids more vs n is h)
  | inr other ↦
      let later = lookup-diff-none prev vs n (sym (lookup-same t kids more vs n other) ∙ h) in
      elim (diff-Head prev t kids more vs) [
        | inl (skipped, _) ↦ ap (λ l. lookup l n) skipped ∙ later
        | inr (d, listed, named, _) ↦
            ap (λ l. lookup l n) listed
            ∙ lookup-miss d nil 0 (diff prev vs) n later (ap (λ m. str_eq m n) named ∙ other)
      ]
]

some_eq : {u t : VarText} → some u ≡ some t → u ≡ t
some_eq h = ground (arith, h)

first-Tells :
    (prev : Vars) (u : VarText) (kids : Vars) (more : ℕ) (vs : Vars)
    → lookup vs u.name ≡ none
    → Tells (lookup prev u.name) (lookup (diff prev (cons (var u kids more) vs)) u.name) u
first-Tells prev u kids more vs alone = elim (diff-Head prev u kids more vs) [
  | inl (skipped, told) ↦
      subst (λ o. Tells (lookup prev u.name) o u)
        (sym (ap (λ l. lookup l u.name) skipped ∙ lookup-diff-none prev vs u.name alone)) told
  | inr (e, listed, named, told) ↦
      subst (λ o. Tells (lookup prev u.name) o u)
        (sym (
          ap (λ l. lookup l u.name) listed
          ∙ lookup-first e nil 0 (diff prev vs) u.name (lookup-diff-none prev vs u.name alone)
              ((eq_iff e.name u.name).1 named)))
        told
]

lookup-diff-some :
    (prev cur : Vars) (n : String) (t : VarText)
    → IsDistinct cur
    → lookup cur n ≡ some t
    → Tells (lookup prev n) (lookup (diff prev cur) n) t
lookup-diff-some prev nil n t d h = absurd (unfold lookup in ground (arith, h))
lookup-diff-some prev (cons (var u kids more) vs) n t d h = elim (Bool-cases (str_eq u.name n)) [
  | inr other ↦
      let later = lookup-diff-some prev vs n t d.1 (sym (lookup-same u kids more vs n other) ∙ h) in
      elim (diff-Head prev u kids more vs) [
        | inl (skipped, _) ↦ subst (λ l. Tells (lookup prev n) (lookup l n) t) (sym skipped) later
        | inr (e, listed, named, _) ↦
            subst (λ o. Tells (lookup prev n) o t)
              (sym (
                ap (λ l. lookup l n) listed
                ∙ lookup-same e nil 0 (diff prev vs) n (ap (λ m. str_eq m n) named ∙ other)))
              later
      ]
  | inl is ↦
      let named = (eq_iff u.name n).0 is in
      let nothing : lookup vs n ≡ none = subst (λ m. lookup vs m ≡ none) named d.0 in
      let same : u ≡ t = some_eq (sym (lookup-first u kids more vs n nothing is) ∙ h) in
      subst (λ v. Tells (lookup prev n) (lookup (diff prev (cons (var u kids more) vs)) n) v) same
        (subst (λ m. Tells (lookup prev m) (lookup (diff prev (cons (var u kids more) vs)) m) u)
          named (first-Tells prev u kids more vs d.0))
]

-- What the difference has under a name: no such name is in it, or it tells of the variable.
abbrev pub Shows : Option VarText → Option VarText → Option VarText → Type 0
Shows old told none = told ≡ none
Shows old told (some t) = Tells old told t

-- Among variables of different names, the difference to the previous stop tells each: it is new, or
-- its present value and type are there with the previous value, which differs, or it is left out, and
-- has the value and type it had. No other name is in the difference.
pub lookup-diff-Tells :
    (prev cur : Vars) (n : String)
    → IsDistinct cur
    → Shows (lookup prev n) (lookup (diff prev cur) n) (lookup cur n)
lookup-diff-Tells prev cur n d = elim (Option-cases (lookup cur n)) [
  | inl h ↦
      subst (Shows (lookup prev n) (lookup (diff prev cur) n)) (sym h)
        (lookup-diff-none prev cur n h)
  | inr (t, h) ↦
      subst (Shows (lookup prev n) (lookup (diff prev cur) n)) (sym h)
        (lookup-diff-some prev cur n t d h)
]
