-- ===== src/Group/Merging.antt =====
-- The merge of the members' events (`mergeEvents`).
use eyedebugger.Prelude.{
  ℕ, zero, suc, ◌+◌, ◌≤◌, ◌≡◌, ◌⊎◌, refl, subst, sym, ◌∙◌, ap, String, Option, none, some, List, [],
  ◌∷◌, ◌++◌, drop, length, str_eq, eq_iff, if◌then◌else◌, arith, Bool-cases, Option-cases,
  List-cases, inl, inr,
}
use eyedebugger.Api.{Event}
use eyedebugger.Group.{
  MemberEvents, GroupEvent, Best, merge_before, better, choose, advance, total, merge, merge_events,
}

-- The events of one session, in the result and in the members.
abbrev pub of_session : String → List GroupEvent → List Event
of_session id [] = []
of_session id (g ∷ gs) = (if str_eq g.session_id id then g.event ∷ [] else []) ++ of_session id gs

abbrev pub events_at : String → List MemberEvents → List Event
events_at id [] = []
events_at id (pt ∷ parts) = (if str_eq pt.id id then pt.events else []) ++ events_at id parts

-- The number of members with an id.
abbrev pub members_at : String → List MemberEvents → ℕ
members_at id [] = 0
members_at id (pt ∷ parts) = (if str_eq pt.id id then 1 else 0) + members_at id parts

head_of : String → List Event → Option (String × Event)
head_of id [] = none
head_of id (e ∷ es) = some (id, e)

head_at : ℕ → List MemberEvents → Option (String × Event)
unfolding head_of
head_at i [] = none
head_at zero (pt ∷ parts) = head_of pt.id pt.events
head_at (suc i) (pt ∷ parts) = head_at i parts

abbrev Found : ℕ → List MemberEvents → Best → Type 0
Found i parts c = (k : ℕ) × (c.place ≡ i + k) × (head_at k parts ≡ some (c.id, c.event))

Found-later :
    (i : ℕ) (pt : MemberEvents) (parts : List MemberEvents) (c : Best)
    → Found (suc i) parts c
    → Found i (pt ∷ parts) c
unfolding head_at
Found-later i pt parts c (k, p, h) = (suc k, omega (arith, p), h)

some-injective : {A : Type 0} (a b : A) → some a ≡ some b → a ≡ b
some-injective a b e = ap (λ o. elim o [ none ↦ a | some c ↦ c ]) e

better-Found :
    (i : ℕ) (pt : MemberEvents) (best : Option Best) (c : Best)
    → better i pt best ≡ some c
    → (best ≡ some c) ⊎ ((c.place ≡ i) × (head_of pt.id pt.events ≡ some (c.id, c.event)))
unfolding better head_of
better-Found i pt best c = elim (List-cases pt.events) [
  | inl no_events ↦ rw (no_events) (λ h. inl h)
  | inr (e, es, here) ↦ rw (here) (elim (Option-cases best) [
    | inl first ↦ rw (first) (λ h. inr (this e h))
    | inr (b, before) ↦ rw (before) (elim (Bool-cases (merge_before e pt.id b.event b.id)) [
      | inl wins ↦ rw (wins) (λ h. inr (this e h))
      | inr loses ↦ rw (loses) (λ h. inl h)
    ])
  ])
]
  where
    this :
        (e : Event)
        → some (record { place = i; id = pt.id; event = e }) ≡ some c
        → (c.place ≡ i)
          × (◌≡◌ {A = Option (String × Event)} (some (pt.id, e)) (some (c.id, c.event)))
    this e h =
        let same = some-injective (record { place = i; id = pt.id; event = e }) c h in
        (
          sym (ap (λ (x : Best). x.place) same),
          ap {B = Option (String × Event)} (λ (x : Best). some (x.id, x.event)) same,
        )

choose-Found :
    (i : ℕ) (parts : List MemberEvents) (best : Option Best) (c : Best)
    → choose i parts best ≡ some c
    → (best ≡ some c) ⊎ Found i parts c
unfolding choose head_at
choose-Found i [] best c h = inl h
choose-Found i (pt ∷ parts) best c h = elim (choose-Found (suc i) parts (better i pt best) c h) [
  | inr later ↦ inr (Found-later i pt parts c later)
  | inl before ↦ elim (better-Found i pt best c before) [
    | inl earlier ↦ inl earlier
    | inr (p, here) ↦ inr (0, omega (arith, p), here)
  ]
]

better-none :
    (i : ℕ) (pt : MemberEvents) (best : Option Best)
    → better i pt best ≡ none
    → (length pt.events ≡ 0) × (best ≡ none)
unfolding better
better-none i pt best = elim (List-cases pt.events) [
  | inl no_events ↦ rw (no_events) (λ h. (refl, h))
  | inr (e, es, here) ↦ rw (here) (elim (Option-cases best) [
    | inl first ↦ rw (first) (λ h. absurd (ground (arith, h)))
    | inr (b, before) ↦ rw (before) (λ h. absurd (ground (arith, h)))
  ])
]

choose-none :
    (i : ℕ) (parts : List MemberEvents) (best : Option Best)
    → choose i parts best ≡ none
    → (total parts ≡ 0) × (best ≡ none)
unfolding choose total
choose-none i [] best h = (refl, h)
choose-none i (pt ∷ parts) best h =
    let (rest, before) = choose-none (suc i) parts (better i pt best) h in
    let (none_here, first) = better-none i pt best before in (omega (arith, rest, none_here), first)

head-members_at :
    (i : ℕ) (parts : List MemberEvents) (id : String) (e : Event)
    → head_at i parts ≡ some (id, e)
    → 1 ≤ members_at id parts
unfolding head_at head_of
head-members_at i [] id e h = absurd (ground (arith, h))
head-members_at zero (pt ∷ parts) id e h = ground (arith, h, eq_iff pt.id id, head_of-id pt.events)
  where
    head_of-id : (es : List Event) → head_of pt.id es ≡ some (id, e) → pt.id ≡ id
    head_of-id [] g = absurd (unfold head_of in ground (arith, g))
    head_of-id (f ∷ es) g = unfold head_of in ap (λ o. elim o [ none ↦ pt.id | some p ↦ p.0 ]) g
head-members_at (suc i) (pt ∷ parts) id e h = omega (arith, head-members_at i parts id e h)

advance-members_at :
    (i : ℕ) (parts : List MemberEvents) (id : String)
    → members_at id (advance i parts) ≡ members_at id parts
unfolding advance
advance-members_at i [] id = refl
advance-members_at zero (pt ∷ parts) id = refl
advance-members_at (suc i) (pt ∷ parts) id = omega (arith, advance-members_at i parts id)

head-events :
    (pt_id : String) (es : List Event) (j : String) (e : Event)
    → head_of pt_id es ≡ some (j, e)
    → (pt_id ≡ j) × (es ≡ e ∷ drop 1 es)
unfolding head_of
head-events pt_id [] j e h = absurd (ground (arith, h))
head-events pt_id (f ∷ es) j e h = (
  ap (λ o. elim o [ none ↦ pt_id | some p ↦ p.0 ]) h,
  ap (λ o. elim o [ none ↦ f ∷ es | some p ↦ p.1 ∷ es ]) h,
)

advance-events_at :
    (i : ℕ) (parts : List MemberEvents) (j id : String) (e : Event)
    → members_at id parts ≤ 1
    → head_at i parts ≡ some (j, e)
    → events_at id parts ≡ (if str_eq j id then e ∷ [] else []) ++ events_at id (advance i parts)
unfolding advance head_at
advance-events_at i [] j id e m h = absurd (ground (arith, h))
advance-events_at zero (pt ∷ parts) j id e m h =
    let (same_id, split) = head-events pt.id pt.events j e h in
    ap (λ es. (if str_eq pt.id id then es else []) ++ events_at id parts) split
    ∙ rw (same_id) (elim (Bool-cases (str_eq j id)) [
      | inl same ↦ rw (same) refl
      | inr other ↦ rw (other) refl
    ])
advance-events_at (suc i) (pt ∷ parts) j id e m h = elim (Bool-cases (str_eq j id)) [
  | inl same ↦ ground (
    arith,
    same,
    eq_iff j id,
    m,
    head-members_at i parts j e h,
    ap (λ k. members_at k parts) {x = j} {y = id},
    advance-events_at i parts j id e,
    h,
  )
  | inr other ↦ rw (other) (
      ap (λ es. (if str_eq pt.id id then pt.events else []) ++ es)
        (advance-events_at i parts j id e (ground (arith, m)) h ∙ ground (arith, other)))
]

advance-total :
    (i : ℕ) (parts : List MemberEvents) (j : String) (e : Event)
    → head_at i parts ≡ some (j, e)
    → total parts ≡ suc (total (advance i parts))
unfolding advance head_at total head_of
advance-total i [] j e h = absurd (ground (arith, h))
advance-total zero (pt ∷ parts) j e h = elim (List-cases pt.events) [
  | inl no_events ↦ absurd (ground (arith, no_events, h))
  | inr (f, es, here) ↦ omega (arith, ap length here, ap (λ l. length (drop 1 l)) here)
]
advance-total (suc i) (pt ∷ parts) j e h = omega (arith, advance-total i parts j e h)

merge-next :
    (left : ℕ) (parts : List MemberEvents) (c : Best)
    → choose 0 parts none ≡ some c
    → merge (suc left) parts
      ≡ record { session_id = c.id; event = c.event } ∷ merge left (advance c.place parts)
unfolding merge
merge-next left parts c h = rw (h, merge)

merge-of_session :
    (left : ℕ) (parts : List MemberEvents) (id : String)
    → left ≡ total parts
    → members_at id parts ≤ 1
    → (of_session id (merge left parts) ≡ events_at id parts)
      × (length (merge left parts) ≡ total parts)
unfolding merge
merge-of_session zero parts id n m = (sym (nothing_left parts id (sym n)), n)
  where
    nothing_left : (ps : List MemberEvents) (id : String) → total ps ≡ 0 → events_at id ps ≡ []
    nothing_left [] id n = refl
    nothing_left (pt ∷ ps) id n = elim (List-cases pt.events) [
      | inl no_events ↦
          rw (no_events) (ground (arith, nothing_left ps id (unfold total in omega (arith, n))))
      | inr (e, es, here) ↦ absurd (unfold total in omega (arith, n, ap length here))
    ]
merge-of_session (suc left) parts id n m = elim (Option-cases (choose 0 parts none)) [
  | inl nothing ↦ absurd (omega (arith, n, (choose-none 0 parts none nothing).0))
  | inr (c, found) ↦ elim (choose-Found 0 parts none c found) [
    | inl never ↦ absurd (ground (arith, never))
    | inr (k, p, here) ↦
        let rest = advance c.place parts in
        let head : head_at c.place parts ≡ some (c.id, c.event) =
          subst (λ i. head_at i parts ≡ some (c.id, c.event)) (omega (arith, p)) here in
        let fewer : total parts ≡ suc (total rest) =
          advance-total c.place parts c.id c.event head in
        let (same, size) =
          merge-of_session left rest id (omega (arith, n, fewer))
            (omega (arith, m, advance-members_at c.place parts id)) in
        rw (merge-next left parts c found) (
          ap (λ es. (if str_eq c.id id then c.event ∷ [] else []) ++ es) same
              ∙ sym (advance-events_at c.place parts c.id id c.event m head),
          omega (arith, size, fewer),
        )
  ]
]

-- Merging loses, repeats and reorders no event of a session: what the result holds of a session that
-- is a member once is its events, in their order, and the result is as long as the members' events.
pub merge_events-of_session :
    (parts : List MemberEvents) (id : String)
    → members_at id parts ≤ 1
    → (of_session id (merge_events parts) ≡ events_at id parts)
      × (length (merge_events parts) ≡ total parts)
unfolding merge_events
merge_events-of_session parts id m = merge-of_session (total parts) parts id refl m
