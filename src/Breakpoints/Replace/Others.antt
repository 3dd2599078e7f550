-- ===== src/Breakpoints/Replace/Others.antt =====
-- What a request for one client leaves of a session's other breakpoints.
use eyedebugger.Prelude.{
  ℕ, suc, ◌≡◌, inl, inr, refl, ◌∙◌, ap, String, Bool, true, false, not, ◌&&◌, List, [], ◌∷◌, ◌++◌,
  keep, keep-append, append-nil, eq_iff, All, str_eq, arith, Bool-cases, Option-cases,
}
use eyedebugger.Api.{Breakpoint, BreakpointSpec}
use eyedebugger.Session.{Session}
use eyedebugger.Presence.Cleanup.{breakpoints}
use eyedebugger.Breakpoints.{append_at, insert, new_breakpoint, set_emulated, list_at}
use eyedebugger.Breakpoints.Replace.{
  ReplaceItem, Cell, is_waiting, is_refused, update, match_items, put_list, add_items, match_locked,
  cells_of, is_gone,
}
use eyedebugger.Breakpoints.Replace.Picks.{
  Picked, here, there, Picks, done, next, match_items-Picks,
}
use eyedebugger.Breakpoints.Replace.Numbers.{points_of, points_of-cells_of, put_list_split, left_of}

-- A breakpoint that no list of a client's editor is about: another client's, or a temporary one.
abbrev pub is_other : String → Breakpoint → Bool
is_other owner b = not (str_eq b.owner owner && not b.temporary)

module _ (owner : String) where
  -- What waits is the client's.
  abbrev IsOwn : Cell → Type 0
  IsOwn c = (is_waiting c && is_other owner c.b) ≡ false

  is_other-update :
      (b : Breakpoint) (spec : BreakpointSpec) → is_other owner (update b spec).0 ≡ is_other owner b
  unfolding update set_emulated
  is_other-update b spec = ground arith

  IsOwn-cells_of : (bs : List Breakpoint) → All IsOwn (cells_of owner bs)
  unfolding cells_of is_waiting
  IsOwn-cells_of [] = tt
  IsOwn-cells_of (b ∷ bs) = (ground arith, IsOwn-cells_of bs)

  IsOwn-Picked : {cs ds : List Cell} → Picked cs ds → All IsOwn cs → All IsOwn ds
  unfolding is_waiting
  IsOwn-Picked (here spec w) (h, hs) = (refl, hs)
  IsOwn-Picked (there p) (h, hs) = (h, IsOwn-Picked p hs)

  keep-Picked :
      {cs ds : List Cell}
      → Picked cs ds
      → All IsOwn cs
      → keep (is_other owner) (points_of ds) ≡ keep (is_other owner) (points_of cs)
  keep-Picked (here {c} {cs} spec w) (h, hs) = ground (arith, w, h, is_other-update c.b spec)
  keep-Picked (there p) (h, hs) = ground (arith, keep-Picked p hs)

  IsOwn-Picks : {cs ds : List Cell} → Picks cs ds → All IsOwn cs → All IsOwn ds
  IsOwn-Picks done h = h
  IsOwn-Picks (next p ps) h = IsOwn-Picks ps (IsOwn-Picked p h)

  keep-Picks :
      {cs ds : List Cell}
      → Picks cs ds
      → All IsOwn cs
      → keep (is_other owner) (points_of ds) ≡ keep (is_other owner) (points_of cs)
  keep-Picks done h = refl
  keep-Picks (next p ps) h = keep-Picks ps (IsOwn-Picked p h) ∙ keep-Picked p h

  keep-left :
      (kept : List ℕ) (cs : List Cell)
      → All IsOwn cs
      → keep (is_other owner) (points_of (keep (λ c. not (is_gone kept c)) cs))
        ≡ keep (is_other owner) (points_of cs)
  unfolding is_gone
  keep-left kept [] h = refl
  keep-left kept (c ∷ cs) (h, hs) = ground (arith, h, keep-left kept cs hs)

  keep-put_list :
      (key : String) (list : List Breakpoint) (bps : List (String × List Breakpoint))
      → keep (is_other owner) list ≡ keep (is_other owner) (list_at key bps)
      → keep (is_other owner) (breakpoints (put_list key list bps))
        ≡ keep (is_other owner) (breakpoints bps)
  keep-put_list key list bps h =
      let (before, after, e, e') = put_list_split key list bps in
      let split = keep-append (is_other owner) in
      rw
        (
          e,
          e',
          split before (list ++ after),
          split before (list_at key bps ++ after),
          split list after,
          split (list_at key bps) after,
          h,
        )
        refl

  keep-append_at :
      (key : String) (b : Breakpoint) (bps : List (String × List Breakpoint))
      → is_other owner b ≡ false
      → keep (is_other owner) (breakpoints (append_at key b bps))
        ≡ keep (is_other owner) (breakpoints bps)
  unfolding append_at
  keep-append_at key b [] h = ground (arith, h)
  keep-append_at key b ((k, list) ∷ bps) h =
      let split = keep-append (is_other owner) in
      elim (Bool-cases (str_eq k key)) [
        | inl same ↦
            rw
              (
                same,
                split (list ++ b ∷ []) (breakpoints bps),
                split list (b ∷ []),
                split list (breakpoints bps),
                h,
              )
              (ap (λ l. l ++ keep (is_other owner) (breakpoints bps))
                (append-nil (keep (is_other owner) list)))
        | inr other ↦
            rw
              (
                other,
                split list (breakpoints (append_at key b bps)),
                split list (breakpoints bps),
                keep-append_at key b bps h,
              )
              refl
      ]

  is_other-new :
      (id now : ℕ) (spec : BreakpointSpec)
      → is_other owner (new_breakpoint id now owner spec) ≡ false
  unfolding new_breakpoint set_emulated
  is_other-new id now spec = ground (arith, eq_iff owner owner)

  keep-add_items :
      (s : Session) (now : ℕ) (items : List ReplaceItem)
      → keep (is_other owner) (breakpoints (add_items s now owner items).0.bps)
        ≡ keep (is_other owner) (breakpoints s.bps)
  unfolding add_items insert
  keep-add_items s now [] = refl
  keep-add_items s now (it ∷ items) = elim (Bool-cases (is_refused it)) [
    | inl refused ↦ rw (refused, add_items) (keep-add_items s now items)
    | inr accepted ↦ elim (Option-cases it.b) [
      | inr (j, e) ↦ rw (accepted, e, add_items) (keep-add_items s now items)
      | inl e ↦
          let b = record (new_breakpoint (suc s.next_bp) now owner it.spec) { editor = true } in
          rw (accepted, e, add_items)
            (keep-add_items (insert s it.spec.file b) now items
              ∙ keep-append_at it.spec.file b s.bps (is_other-new (suc s.next_bp) now it.spec))
    ]
  ]

-- A list that a client's editor sets for a file leaves every breakpoint of the session that is
-- another client's or temporary, in that order, as it is: none is removed, changed or made.
pub match_locked-others :
    (s : Session) (now : ℕ) (owner key : String) (items : List ReplaceItem) (kept : List ℕ)
    → keep (is_other owner) (breakpoints (match_locked s now owner key items kept).0.bps)
      ≡ keep (is_other owner) (breakpoints s.bps)
unfolding match_locked
match_locked-others s now owner key items kept =
    let list = list_at key s.bps in
    let (items', cells) = match_items items (cells_of owner list) in
    let picks = match_items-Picks items (cells_of owner list) in
    let own = IsOwn-cells_of owner list in
    let left = left_of kept cells in
    keep-add_items owner (record s { bps = put_list key left s.bps }) now items'
    ∙ keep-put_list owner key left s.bps (
        keep-left owner kept cells (IsOwn-Picks owner picks own)
        ∙ keep-Picks owner picks own
        ∙ ap (keep (is_other owner)) (points_of-cells_of owner list))
