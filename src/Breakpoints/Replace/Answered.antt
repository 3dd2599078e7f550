-- ===== src/Breakpoints/Replace/Answered.antt =====
-- What `matchLocked` leaves of a request: each item with its breakpoint in the session.
use eyedebugger.Prelude.{
  ℕ, ◌≡◌, inl, inr, sym, ap, ◌∙◌, subst, String, true, false, none, some, List, [], ◌∷◌, ◌++◌, All,
  eq_iff, arith, Bool-cases,
}
use eyedebugger.Api.{Breakpoint, BreakpointSpec}
use eyedebugger.Session.{Session}
use eyedebugger.Slots.{same_key, key_of}
use eyedebugger.Presence.Cleanup.{breakpoints}
use eyedebugger.Breakpoints.{list_at, spec_key}
use eyedebugger.Breakpoints.Replace.{
  ReplaceItem, Cell, is_waiting, is_refused, match_pass, match_items, by_requested, by_placed,
  cells_of, is_gone, put_list, add_items, match_locked,
}
use eyedebugger.Breakpoints.Replace.Picks.{match_pass-Picks}
use eyedebugger.Breakpoints.Replace.Numbers.{put_list_split, left_of}
use eyedebugger.Breakpoints.Replace.Counts.{Parted, Parted-cells_of}
use eyedebugger.Breakpoints.Replace.Served.{
  Any, Any-append_left, Any-append_right, Near, Serves, Held, Has, Matched, Parted-Picks,
  match_pass-Matched,
}
use eyedebugger.Breakpoints.Replace.Adding.{AreAnswered, Ready, add_items-AreAnswered}

by_requested-Near :
    (b : Breakpoint) (spec : BreakpointSpec) → by_requested b spec ≡ true → Near spec b
unfolding by_requested same_key key_of spec_key
by_requested-Near b spec h = ground (arith, h, eq_iff b.function spec.function)

by_placed-Near : (b : Breakpoint) (spec : BreakpointSpec) → by_placed b spec ≡ true → Near spec b
unfolding by_placed
by_placed-Near b spec h = ground (arith, h, eq_iff spec.function "")

module _ (owner : String) where
  Matched-Has :
      (items items' : List ReplaceItem) (cs : List Cell)
      → Matched owner items items' cs
      → All (λ it. Has owner (Held owner) it cs) items'
  Matched-Has [] [] cs m = tt
  Matched-Has [] (it' ∷ items') cs m = absurd m
  Matched-Has (it ∷ items) [] cs m = absurd m
  Matched-Has (it ∷ items) (it' ∷ items') cs (_, has, m) = (has, Matched-Has items items' cs m)

  Matched-trans :
      (items mid items' : List ReplaceItem) (cs ds : List Cell)
      → Matched owner items mid cs
      → Matched owner mid items' ds
      → Matched owner items items' ds
  Matched-trans [] [] [] cs ds m n = tt
  Matched-trans [] [] (it' ∷ items') cs ds m n = absurd n
  Matched-trans [] (it ∷ mid) items' cs ds m n = absurd m
  Matched-trans (it ∷ items) [] items' cs ds m n = absurd m
  Matched-trans (it ∷ items) (j ∷ mid) [] cs ds m n = absurd n
  Matched-trans (it ∷ items) (j ∷ mid) (it' ∷ items') cs ds (f, _, m) (g, has, n) =
      ((g.0 ∙ f.0, g.1 ∙ f.1), has, Matched-trans items mid items' cs ds m n)

  match_items-Matched :
      (items : List ReplaceItem) (cs : List Cell)
      → All (Parted owner) cs
      → All (λ it. Has owner (Held owner) it cs) items
      → Matched owner items (match_items items cs).0 (match_items items cs).1
  unfolding match_items
  match_items-Matched items cs v h =
      let first = match_pass-Matched owner by_requested by_requested-Near items cs v h in
      let (mid, ds) = match_pass by_requested items cs in
      let parted = Parted-Picks owner (match_pass-Picks by_requested items cs) v in
      let rest =
        match_pass-Matched owner by_placed by_placed-Near mid ds parted
          (Matched-Has items mid ds first) in
      let (items', es) = match_pass by_placed mid ds in
      Matched-trans items mid items' ds es first rest

  Held-left_of :
      (spec : BreakpointSpec) (id : ℕ) (kept : List ℕ) (cs : List Cell)
      → Any (Held owner spec id) cs
      → Any (Serves owner spec id) (left_of kept cs)
  unfolding is_gone is_waiting
  Held-left_of spec id kept [] h = absurd h
  Held-left_of spec id kept (c ∷ cs) (inl (m, h)) = rw (m) (inl h)
  Held-left_of spec id kept (c ∷ cs) (inr h) = elim (Bool-cases (is_gone kept c)) [
    | inl gone ↦ rw (gone) (Held-left_of spec id kept cs h)
    | inr stays ↦ rw (stays) (inr (Held-left_of spec id kept cs h))
  ]

  Any-put_list :
      (P : Breakpoint → Type 0) (key : String) (list : List Breakpoint)
      (bps : List (String × List Breakpoint))
      → Any P list
      → Any P (breakpoints (put_list key list bps))
  Any-put_list P key list bps h =
      let (before, after, _, e) = put_list_split key list bps in
      subst (Any P) (sym e)
        (Any-append_right P before (list ++ after) (Any-append_left P list after h))

  Has-Ready :
      (items items' : List ReplaceItem) (cs : List Cell) (key : String) (kept : List ℕ)
      (bps : List (String × List Breakpoint))
      → Matched owner items items' cs
      → All (λ it. Ready owner it (put_list key (left_of kept cs) bps)) items'
  Has-Ready [] [] cs key kept bps m = tt
  Has-Ready [] (it' ∷ items') cs key kept bps m = absurd m
  Has-Ready (it ∷ items) [] cs key kept bps m = absurd m
  Has-Ready (it ∷ items) (it' ∷ items') cs key kept bps (_, inl e, m) =
      (inl e, Has-Ready items items' cs key kept bps m)
  Has-Ready (it ∷ items) (it' ∷ items') cs key kept bps (_, inr (id, e, h), m) = (
    inr (
      id,
      e,
      Any-put_list (Serves owner it'.spec id) key (left_of kept cs) bps
          (Held-left_of it'.spec id kept cs h),
    ),
    Has-Ready items items' cs key kept bps m,
  )

  same_refused : (it it' : ReplaceItem) → it'.refused ≡ it.refused → is_refused it' ≡ is_refused it
  unfolding is_refused
  same_refused it it' h = ap (λ o. elim o [ none ↦ false | some e ↦ true ]) h

  AreAnswered-trans :
      (items mid items' : List ReplaceItem) (cs : List Cell) (bs : List Breakpoint)
      → Matched owner items mid cs
      → AreAnswered owner mid items' bs
      → AreAnswered owner items items' bs
  AreAnswered-trans [] [] [] cs bs m n = tt
  AreAnswered-trans [] [] (it' ∷ items') cs bs m n = absurd n
  AreAnswered-trans [] (j ∷ mid) items' cs bs m n = absurd m
  AreAnswered-trans (it ∷ items) [] items' cs bs m n = absurd m
  AreAnswered-trans (it ∷ items) (j ∷ mid) [] cs bs m n = absurd n
  AreAnswered-trans (it ∷ items) (j ∷ mid) (it' ∷ items') cs bs (f, _, m) (g, has, n) = (
    (g.0 ∙ f.0, g.1 ∙ f.1),
    elim has [
      | inl refused ↦ inl (sym (same_refused it j f.1) ∙ refused)
      | inr (id, e, h) ↦ inr (id, e, subst (λ p. Any (Serves owner p id) bs) f.0 h)
    ],
    AreAnswered-trans items mid items' cs bs m n,
  )

  start_Has :
      (items : List ReplaceItem) (cs : List Cell)
      → All (λ (it : ReplaceItem). it.b ≡ none) items
      → All (λ it. Has owner (Held owner) it cs) items
  start_Has [] cs h = tt
  start_Has (it ∷ items) cs (h, hs) = (inl h, start_Has items cs hs)

  pub match_locked-AreAnswered :
      (s : Session) (now : ℕ) (key : String) (items : List ReplaceItem) (kept : List ℕ)
      → All (λ (it : ReplaceItem). it.b ≡ none) items
      → let r = match_locked s now owner key items kept in
        AreAnswered owner items r.1 (breakpoints r.0.bps)
  unfolding match_locked
  match_locked-AreAnswered s now key items kept fresh =
      let list = list_at key s.bps in
      let start = cells_of owner list in
      let found =
        match_items-Matched items start (Parted-cells_of owner list)
          (start_Has items start fresh) in
      let (mid, cells) = match_items items start in
      let t = record s { bps = put_list key (left_of kept cells) s.bps } in
      let (u, items') = add_items t now owner mid in
      AreAnswered-trans items mid items' cells (breakpoints u.bps) found
        (add_items-AreAnswered owner t now mid (Has-Ready items mid cells key kept s.bps found))
