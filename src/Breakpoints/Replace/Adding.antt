-- ===== src/Breakpoints/Replace/Adding.antt =====
-- The items of a request whose breakpoints are in the session, through the last loop of `matchLocked`.
use eyedebugger.Prelude.{
  ℕ, suc, ◌≡◌, ◌⊎◌, inl, inr, refl, String, true, some, List, [], ◌∷◌, ◌++◌, All, str_eq,
  Bool-cases, Option-cases,
}
use eyedebugger.Api.{Breakpoint}
use eyedebugger.Session.{Session}
use eyedebugger.Presence.Cleanup.{breakpoints}
use eyedebugger.Breakpoints.{append_at, insert, new_breakpoint}
use eyedebugger.Breakpoints.Replace.{ReplaceItem, is_refused, add_items}
use eyedebugger.Breakpoints.Replace.Served.{
  Any, Any-append_left, Any-append_right, Any-append_cases, Serves, Has, Follows, new-Serves,
}

Any-append_at :
    (P : Breakpoint → Type 0) (key : String) (b : Breakpoint)
    (bps : List (String × List Breakpoint))
    → Any P (breakpoints bps) ⊎ P b
    → Any P (breakpoints (append_at key b bps))
unfolding append_at
Any-append_at P key b [] (inl h) = absurd h
Any-append_at P key b [] (inr h) = inl h
Any-append_at P key b ((k, list) ∷ bps) h = elim (Bool-cases (str_eq k key)) [
  | inl same ↦ rw (same) (elim h [
    | inl there ↦ elim (Any-append_cases P list (breakpoints bps) there) [
      | inl a ↦
          Any-append_left P (list ++ b ∷ []) (breakpoints bps) (Any-append_left P list (b ∷ []) a)
      | inr a ↦ Any-append_right P (list ++ b ∷ []) (breakpoints bps) a
    ]
    | inr new ↦
        Any-append_left P (list ++ b ∷ []) (breakpoints bps)
          (Any-append_right P list (b ∷ []) (inl new))
  ])
  | inr other ↦ rw (other) (elim h [
    | inl there ↦ elim (Any-append_cases P list (breakpoints bps) there) [
      | inl a ↦ Any-append_left P list (breakpoints (append_at key b bps)) a
      | inr a ↦
          Any-append_right P list (breakpoints (append_at key b bps))
            (Any-append_at P key b bps (inl a))
    ]
    | inr new ↦
        Any-append_right P list (breakpoints (append_at key b bps))
          (Any-append_at P key b bps (inr new))
  ])
]

module _ (owner : String) where
  -- Each item comes back as it was asked for; where it is not refused it names a breakpoint that serves it.
  abbrev pub AreAnswered : List ReplaceItem → List ReplaceItem → List Breakpoint → Type 0
  AreAnswered [] [] bs = Unit
  AreAnswered [] (it' ∷ items') bs = ⊥
  AreAnswered (it ∷ items) [] bs = ⊥
  AreAnswered (it ∷ items) (it' ∷ items') bs =
      Follows owner it it'
      × ((is_refused it ≡ true) ⊎ ((id : ℕ) × (it'.b ≡ some id) × Any (Serves owner it.spec id) bs))
      × AreAnswered items items' bs

  Any-add_items :
      (P : Breakpoint → Type 0) (s : Session) (now : ℕ) (items : List ReplaceItem)
      → Any P (breakpoints s.bps)
      → Any P (breakpoints (add_items s now owner items).0.bps)
  unfolding add_items insert
  Any-add_items P s now [] h = h
  Any-add_items P s now (it ∷ items) h = elim (Bool-cases (is_refused it)) [
    | inl refused ↦ rw (refused, add_items) (Any-add_items P s now items h)
    | inr accepted ↦ elim (Option-cases it.b) [
      | inr (j, e) ↦ rw (accepted, e, add_items) (Any-add_items P s now items h)
      | inl e ↦
          let b = record (new_breakpoint (suc s.next_bp) now owner it.spec) { editor = true } in
          rw (accepted, e, add_items)
            (Any-add_items P (insert s it.spec.file b) now items
              (Any-append_at P it.spec.file b s.bps (inl h)))
    ]
  ]

  abbrev pub Ready : ReplaceItem → List (String × List Breakpoint) → Type 0
  Ready it bps = Has owner (Serves owner) it (breakpoints bps)

  pub add_items-AreAnswered :
      (s : Session) (now : ℕ) (items : List ReplaceItem)
      → All (λ it. Ready it s.bps) items
      → let r = add_items s now owner items in AreAnswered items r.1 (breakpoints r.0.bps)
  unfolding add_items insert
  add_items-AreAnswered s now [] v = tt
  add_items-AreAnswered s now (it ∷ items) (v, vs) = elim (Bool-cases (is_refused it)) [
    | inl refused ↦
        rw (refused, add_items) ((refl, refl), inl refused, add_items-AreAnswered s now items vs)
    | inr accepted ↦ elim v [
      | inr (id, e, h) ↦
          rw (accepted, e, add_items)
            (
              (refl, refl),
              inr (id, e, Any-add_items (Serves owner it.spec id) s now items h),
              add_items-AreAnswered s now items vs,
            )
      | inl e ↦
          let id = suc s.next_bp in
          let b = record (new_breakpoint id now owner it.spec) { editor = true } in
          rw (accepted, e, add_items)
            (
              (refl, refl),
              inr (
                id,
                refl,
                Any-add_items (Serves owner it.spec id) (insert s it.spec.file b) now items (
                    Any-append_at (Serves owner it.spec id) it.spec.file b s.bps
                      (inr (new-Serves owner id now it.spec))),
              ),
              add_items-AreAnswered (insert s it.spec.file b) now items
                  (still items it.spec.file b vs),
            )
    ]
  ]
    where
      still :
          (items : List ReplaceItem) (key : String) (b : Breakpoint)
          → All (λ it. Ready it s.bps) items
          → All (λ it. Ready it (append_at key b s.bps)) items
      still [] key b h = tt
      still (it ∷ items) key b (inl e, hs) = (inl e, still items key b hs)
      still (it ∷ items) key b (inr (id, e, h), hs) = (
        inr (id, e, Any-append_at (Serves owner it.spec id) key b s.bps (inl h)),
        still items key b hs,
      )
