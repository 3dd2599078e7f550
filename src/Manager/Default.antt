-- ===== src/Manager/Default.antt =====
-- The session that a request without an id is for, and the one that an id names.
use eyedebugger.Prelude.{
  ℕ, ◌≡◌, ◌≢◌, ◌↔◌, ◌⊎◌, inl, inr, refl, sym, ◌∙◌, ap, subst, String, true, false, not, some, List,
  [], ◌∷◌, ◌++◌, keep-append, All, str_eq, eq_iff, arith, Bool-cases, Option-cases, List-cases,
}
use eyedebugger.Manager.{
  Info, Manager, found, lookup, lookup_lost, all_of, live_of, choice, only, get,
}

-- Every session but this one has exited, and it has not, unless it is the only one.
pub record IsDefault (now : ℕ → Info) (all : List ℕ) (s : ℕ) : Type 0 where
  before : List ℕ
  after : List ℕ
  place : all ≡ before ++ s ∷ after
  older : All (λ t. (now t).exited ≡ true) before
  newer : All (λ t. (now t).exited ≡ true) after
  chosen : ((now s).exited ≡ false) ⊎ ((before ≡ []) × (after ≡ []))

module _ (now : ℕ → Info) where
  exited_of_none : (all : List ℕ) → live_of now all ≡ [] → All (λ t. (now t).exited ≡ true) all
  unfolding live_of
  exited_of_none [] e = tt
  exited_of_none (t ∷ ts) e = elim (Bool-cases (now t).exited) [
    | inl gone ↦ (gone, exited_of_none ts (ground (arith, e, gone)))
    | inr here ↦ absurd (ground (arith, e, here))
  ]

  -- Where one session is live, the others have exited.
  split_live :
      (all : List ℕ) (s : ℕ)
      → live_of now all ≡ s ∷ []
      → (before : List ℕ) × (after : List ℕ) × (all ≡ before ++ s ∷ after)
        × All (λ t. (now t).exited ≡ true) before
        × All (λ t. (now t).exited ≡ true) after
        × ((now s).exited ≡ false)
  unfolding live_of
  split_live [] s e = absurd (ground (arith, e))
  split_live (t ∷ ts) s e = elim (Bool-cases (now t).exited) [
    | inl gone ↦
        let (before, after, place, older, newer, here) =
          split_live ts s (ground (arith, e, gone)) in
        (t ∷ before, after, ap (λ l. t ∷ l) place, (gone, older), newer, here)
    | inr here ↦
        let same : t ≡ s = ground (arith, e, here) in
        let none_left : live_of now ts ≡ [] = ground (arith, e, here) in
        (
          [],
          ts,
          ap (λ u. u ∷ ts) same,
          tt,
          exited_of_none ts none_left,
          ap (λ u. (now u).exited) (sym same) ∙ here,
        )
  ]

  IsDefault-of_one : (all : List ℕ) (s : ℕ) → live_of now all ≡ s ∷ [] → IsDefault now all s
  IsDefault-of_one all s e =
      let (before, after, place, older, newer, here) = split_live all s e in
      record {
        before = before;
        after = after;
        place = place;
        older = older;
        newer = newer;
        chosen = inl here;
      }

  IsDefault-alone : (s : ℕ) → IsDefault now (s ∷ []) s
  IsDefault-alone s = record {
    before = [];
    after = [];
    place = refl;
    older = tt;
    newer = tt;
    chosen = inr (refl, refl);
  }

  live_of-exited : (all : List ℕ) → All (λ t. (now t).exited ≡ true) all → live_of now all ≡ []
  unfolding live_of
  live_of-exited [] h = refl
  live_of-exited (t ∷ ts) (h, hs) = ground (arith, h, live_of-exited ts hs)

  live_of-append : (xs ys : List ℕ) → live_of now (xs ++ ys) ≡ live_of now xs ++ live_of now ys
  unfolding live_of
  live_of-append xs ys = keep-append (λ s. not (now s).exited) xs ys

  live_of-cons :
      (s : ℕ) (ys : List ℕ) → (now s).exited ≡ false → live_of now (s ∷ ys) ≡ s ∷ live_of now ys
  unfolding live_of
  live_of-cons s ys h = ground (arith, h)

  nothing_live : (s : ℕ) → live_of now [] ≢ s ∷ []
  unfolding live_of
  nothing_live s e = ground (arith, e)

  only_live : (m : Manager) (s : ℕ) → live_of now (all_of m) ≡ s ∷ [] → only now m ≡ found s
  unfolding only
  only_live m s e = elim (List-cases (all_of m)) [
    | inl empty ↦ absurd (nothing_live s (subst (λ l. live_of now l ≡ s ∷ []) empty e))
    | inr (t, ts, some_there) ↦
        let one : live_of now (t ∷ ts) ≡ s ∷ [] = ap (live_of now) (sym some_there) ∙ e in
        ground (arith, some_there, one)
  ]

  only_alone : (m : Manager) (s : ℕ) → all_of m ≡ s ∷ [] → only now m ≡ found s
  unfolding only live_of
  only_alone m s e = elim (Bool-cases (now s).exited) [
    | inl gone ↦ ground (arith, e, gone)
    | inr here ↦ ground (arith, e, here)
  ]

  only-IsDefault : (m : Manager) (s : ℕ) → IsDefault now (all_of m) s → only now m ≡ found s
  only-IsDefault m s d = elim d.chosen [
    | inl here ↦ only_live m s (
        ap (live_of now) d.place
        ∙ live_of-append d.before (s ∷ d.after)
        ∙ ap (λ l. l ++ live_of now (s ∷ d.after)) (live_of-exited d.before d.older)
        ∙ live_of-cons s d.after here
        ∙ ap (λ l. s ∷ l) (live_of-exited d.after d.newer))
    | inr (nothing_before, nothing_after) ↦
        only_alone m s
          (d.place ∙ ap (λ l. l ++ s ∷ d.after) nothing_before ∙ ap (λ l. s ∷ l) nothing_after)
  ]

  IsDefault-only : (m : Manager) (s : ℕ) → only now m ≡ found s → IsDefault now (all_of m) s
  unfolding only choice
  IsDefault-only m s e = elim (List-cases (all_of m)) [
    | inl empty ↦ absurd (ground (arith, e, empty))
    | inr (t, others, some_there) ↦ rw (some_there) (elim (List-cases (live_of now (t ∷ others))) [
      | inl all_exited ↦ elim (List-cases others) [
        | inl alone ↦
            let same : t ≡ s = ground (arith, e, some_there, all_exited, alone) in
            rw (alone, same) (IsDefault-alone s)
        | inr (u, us, more) ↦ absurd (ground (arith, e, some_there, all_exited, more))
      ]
      | inr (l, ls, some_live) ↦ elim (List-cases ls) [
        | inl one ↦
            let same : l ≡ s = ground (arith, e, some_there, some_live, one) in
            IsDefault-of_one (t ∷ others) s
              (some_live ∙ ap (λ k. l ∷ k) one ∙ ap (λ k. k ∷ []) same)
        | inr (k, ks, two) ↦ elim (List-cases others) [
          | inl alone ↦
              let same : t ≡ s = ground (arith, e, some_there, some_live, two, alone) in
              rw (alone, same) (IsDefault-alone s)
          | inr (u, us, more) ↦ absurd (ground (arith, e, some_there, some_live, two, more))
        ]
      ]
    ])
  ]

named_found :
    (now : ℕ → Info) (m : Manager) (id : String) (s : ℕ)
    → str_eq id "" ≡ false
    → get now m id ≡ found s
    → lookup id m.sessions ≡ some s
unfolding get
named_found now m id s named e = elim (Option-cases (lookup id m.sessions)) [
  | inl none_here ↦ elim (Option-cases (lookup_lost id m.lost)) [
    | inl not_lost ↦ absurd (ground (arith, e, named, none_here, not_lost))
    | inr (i, lost) ↦ absurd (ground (arith, e, named, none_here, lost))
  ]
  | inr (t, there) ↦ let same : t ≡ s = ground (arith, e, named, there) in there ∙ ap some same
]

-- `Get` answers a session exactly if the id it is given names that session, or if it is given no id
-- and every other session has exited, and that session has not, unless it is the only one.
pub get-IsDefault :
    (now : ℕ → Info) (m : Manager) (id : String) (s : ℕ)
    → (get now m id ≡ found s)
      ↔ (((id ≢ "") × (lookup id m.sessions ≡ some s)) ⊎ ((id ≡ "") × IsDefault now (all_of m) s))
unfolding get
get-IsDefault now m id s = elim (Bool-cases (str_eq id "")) [
  | inl blank ↦
      let empty : id ≡ "" = (eq_iff id "").0 blank in
      let same : get now m id ≡ only now m = ground (arith, blank) in
      (
        (λ e. inr (empty, IsDefault-only now m s (sym same ∙ e))),
        (λ r. elim r [
          | inl (named, e) ↦ absurd (named empty)
          | inr (e, d) ↦ same ∙ only-IsDefault now m s d
        ]),
      )
  | inr named ↦
      let not_empty : id ≢ "" = λ e. ground (arith, named, (eq_iff id "").1 e) in
      (
        (λ e. inl (not_empty, named_found now m id s named e)),
        (λ r. elim r [
          | inl (h, e) ↦ ground (arith, named, e)
          | inr (empty, d) ↦ absurd (not_empty empty)
        ]),
      )
]
