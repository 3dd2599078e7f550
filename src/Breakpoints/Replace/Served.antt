-- ===== src/Breakpoints/Replace/Served.antt =====
-- Each item of a request has its breakpoint at the end of `matchLocked`.
use eyedebugger.Prelude.{
  ℕ, ◌≡◌, ◌⊎◌, inl, inr, refl, sym, subst, String, Bool, true, false, not, ◌&&◌, none, some, List,
  [], ◌∷◌, ◌++◌, All, str_eq, eq_iff, arith, Bool-cases, Option-cases,
}
use eyedebugger.Api.{Breakpoint, BreakpointSpec}
use eyedebugger.Breakpoints.{new_breakpoint, set_emulated}
use eyedebugger.Breakpoints.Replace.{
  ReplaceItem, Cell, matched, is_waiting, is_refused, update, pick, offer, match_pass,
}
use eyedebugger.Breakpoints.Replace.Picks.{
  Picked, here, there, Picks, done, next, offer-Picks, match_pass-Picks, taken,
}
use eyedebugger.Breakpoints.Replace.Counts.{Parted, Parted-Picked}

abbrev pub Any : {A : Type 0} → (A → Type 0) → List A → Type 0
Any P [] = ⊥
Any P (x ∷ xs) = P x ⊎ Any P xs

module _ {A : Type 0} (P : A → Type 0) where
  pub Any-append_left : (xs ys : List A) → Any P xs → Any P (xs ++ ys)
  Any-append_left [] ys h = absurd h
  Any-append_left (x ∷ xs) ys (inl h) = inl h
  Any-append_left (x ∷ xs) ys (inr h) = inr (Any-append_left xs ys h)

  pub Any-append_right : (xs ys : List A) → Any P ys → Any P (xs ++ ys)
  Any-append_right [] ys h = h
  Any-append_right (x ∷ xs) ys h = inr (Any-append_right xs ys h)

  pub Any-append_cases : (xs ys : List A) → Any P (xs ++ ys) → Any P xs ⊎ Any P ys
  Any-append_cases [] ys h = inr h
  Any-append_cases (x ∷ xs) ys (inl h) = inl (inl h)
  Any-append_cases (x ∷ xs) ys (inr h) = elim (Any-append_cases xs ys h) [
    | inl a ↦ inl (inr a)
    | inr b ↦ inr b
  ]

-- The breakpoint was asked for at the item's line or function, or the adapter placed it there.
abbrev pub Near : BreakpointSpec → Breakpoint → Type 0
Near spec b =
    ((b.function ≡ spec.function) × (b.requested_line ≡ spec.line))
    ⊎ ((spec.function ≡ "") × (b.line ≡ spec.line))

-- The client's lasting editor breakpoint `id`, with what the item asks for.
abbrev pub Serves : String → BreakpointSpec → ℕ → Breakpoint → Type 0
Serves owner spec id b =
    (b.id ≡ id)
    × (b.owner ≡ owner)
    × (b.temporary ≡ false)
    × (b.editor ≡ true)
    × (b.condition ≡ spec.condition)
    × (b.hit_condition ≡ spec.hit_condition)
    × (b.log_message ≡ spec.log_message)
    × Near spec b

module _ (owner : String) where
  abbrev pub Held : BreakpointSpec → ℕ → Cell → Type 0
  Held spec id c = (c.part ≡ matched) × Serves owner spec id c.b

  -- An item has no breakpoint yet, or it is among these.
  abbrev pub Has : {A : Type 0} → (BreakpointSpec → ℕ → A → Type 0) → ReplaceItem → List A → Type 0
  Has P it xs = (it.b ≡ none) ⊎ ((id : ℕ) × (it.b ≡ some id) × Any (P it.spec id) xs)

  abbrev pub Follows : ReplaceItem → ReplaceItem → Type 0
  Follows it it' = (it'.spec ≡ it.spec) × (it'.refused ≡ it.refused)

  -- The items of a pass, one by one.
  abbrev pub Matched : List ReplaceItem → List ReplaceItem → List Cell → Type 0
  Matched [] [] cs = Unit
  Matched [] (it' ∷ items') cs = ⊥
  Matched (it ∷ items) [] cs = ⊥
  Matched (it ∷ items) (it' ∷ items') cs =
      Follows it it' × Has Held it' cs × Matched items items' cs

  update-Serves :
      (b : Breakpoint) (spec : BreakpointSpec)
      → (str_eq b.owner owner && not b.temporary) ≡ true
      → Near spec b
      → Serves owner spec b.id (record (update b spec).0 { editor = true })
  unfolding update set_emulated
  update-Serves b spec own near = ground (
    arith,
    own,
    near,
    eq_iff b.owner owner,
    eq_iff b.condition spec.condition,
    eq_iff b.hit_condition spec.hit_condition,
    eq_iff b.log_message spec.log_message,
  )

  pub new-Serves :
      (id now : ℕ) (spec : BreakpointSpec)
      → Serves owner spec id (record (new_breakpoint id now owner spec) { editor = true })
  unfolding new_breakpoint set_emulated
  new-Serves id now spec = (refl, refl, refl, refl, refl, refl, refl, inl (refl, refl))

  Held-Picked :
      (spec : BreakpointSpec) (id : ℕ) {cs ds : List Cell}
      → Picked cs ds
      → Any (Held spec id) cs
      → Any (Held spec id) ds
  unfolding is_waiting
  Held-Picked spec id (here {c} spec' w) (inl (m, h)) = absurd (ground (arith, w, m))
  Held-Picked spec id (here spec' w) (inr h) = inr h
  Held-Picked spec id (there p) (inl h) = inl h
  Held-Picked spec id (there p) (inr h) = inr (Held-Picked spec id p h)

  Has-Picks : (it : ReplaceItem) {cs ds : List Cell} → Picks cs ds → Has Held it cs → Has Held it ds
  Has-Picks it p (inl e) = inl e
  Has-Picks it done (inr h) = inr h
  Has-Picks it (next p ps) (inr (id, e, h)) =
      Has-Picks it ps (inr (id, e, Held-Picked it.spec id p h))

  pub Parted-Picks :
      {cs ds : List Cell} → Picks cs ds → All (Parted owner) cs → All (Parted owner) ds
  Parted-Picks done h = h
  Parted-Picks (next p ps) h = Parted-Picks ps (Parted-Picked owner p h)

  waits-own :
      (c : Cell)
      → is_waiting c ≡ true
      → Parted owner c
      → (str_eq c.b.owner owner && not c.b.temporary) ≡ true
  unfolding is_waiting
  waits-own c w h = ground (arith, w, h)

  module _ (same : Breakpoint → BreakpointSpec → Bool)
      (near : (b : Breakpoint) (spec : BreakpointSpec) → same b spec ≡ true → Near spec b) where
    pick-Held :
        (spec : BreakpointSpec) (cs ds : List Cell) (id : ℕ) (changed : Bool)
        → All (Parted owner) cs
        → pick same spec cs ≡ some (ds, id, changed)
        → Any (Held spec id) ds
    unfolding pick
    pick-Held spec [] ds id changed v e = absurd (ground (arith, e))
    pick-Held spec (c ∷ cs) ds id changed (v, vs) e =
        elim (Bool-cases (is_waiting c && same c.b spec)) [
          | inl found ↦
              let first : taken c spec ∷ cs ≡ ds = ground (arith, e, found) in
              let number : c.b.id ≡ id = ground (arith, e, found) in
              subst (Any (Held spec id)) first (
                inl (
                  refl,
                  subst (λ n. Serves owner spec n (taken c spec).b) number
                      (update-Serves c.b spec (waits-own c (ground (arith, found)) v)
                        (near c.b spec (ground (arith, found)))),
                ))
          | inr other ↦ elim (Option-cases (pick same spec cs)) [
            | inl none_here ↦ absurd (ground (arith, e, other, none_here))
            | inr ((ds', id', changed'), found) ↦
                let rest : c ∷ ds' ≡ ds = ground (arith, e, other, found) in
                let number : id' ≡ id = ground (arith, e, other, found) in
                subst (Any (Held spec id)) rest (
                  inr (
                    subst (λ n. Any (Held spec n) ds') number
                      (pick-Held spec cs ds' id' changed' vs found)))
          ]
        ]

    offer-Has :
        (it : ReplaceItem) (cs : List Cell)
        → All (Parted owner) cs
        → Has Held it cs
        → Follows it (offer same it cs).0 × Has Held (offer same it cs).0 (offer same it cs).1
    unfolding offer
    offer-Has it cs v h =
        let as_before = λ (e : offer same it cs ≡ (it, cs)).
          subst (λ r. Follows it r.0 × Has Held r.0 r.1) (sym e) ((refl, refl), h) in
        elim (Option-cases it.b) [
          | inr (id, e) ↦ as_before (ground (arith, e))
          | inl e ↦ elim (Bool-cases (is_refused it)) [
            | inl refused ↦ as_before (ground (arith, e, refused))
            | inr taken_on ↦ elim (Option-cases (pick same it.spec cs)) [
              | inl none_here ↦ as_before (ground (arith, e, taken_on, none_here))
              | inr ((ds, id, changed), found) ↦
                  let it' = record it { b = some id; changed = changed } in
                  let result : offer same it cs ≡ (it', ds) = ground (arith, e, taken_on, found) in
                  subst (λ r. Follows it r.0 × Has Held r.0 r.1) (sym result)
                    ((refl, refl), inr (id, refl, pick-Held it.spec cs ds id changed v found))
            ]
          ]
        ]

    pub match_pass-Matched :
        (items : List ReplaceItem) (cs : List Cell)
        → All (Parted owner) cs
        → All (λ it. Has Held it cs) items
        → Matched items (match_pass same items cs).0 (match_pass same items cs).1
    unfolding match_pass
    match_pass-Matched [] cs v h = tt
    match_pass-Matched (it ∷ items) cs v (h, hs) =
        let picks = offer-Picks same it cs in
        let after = (offer same it cs).1 in
        let (follows, has) = offer-Has it cs v h in
        (
          follows,
          Has-Picks (offer same it cs).0 (match_pass-Picks same items after) has,
          match_pass-Matched items after (Parted-Picks picks v) (still items picks hs),
        )
      where
        still :
            (items : List ReplaceItem) {cs ds : List Cell}
            → Picks cs ds
            → All (λ it. Has Held it cs) items
            → All (λ it. Has Held it ds) items
        still [] p h = tt
        still (it ∷ items) p (h, hs) = (Has-Picks it p h, still items p hs)
