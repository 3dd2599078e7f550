-- ===== src/Breakpoints/Replace/Numbers.antt =====
-- The ids of a file's breakpoints while an editor's list replaces them.
use eyedebugger.Prelude.{
  ℕ, suc, ◌≤◌, ◌≡◌, inl, inr, refl, sym, append_assoc, ◌∙◌, ap, String, Bool, true, not, List, [],
  ◌∷◌, ◌++◌, map, keep, str_eq, arith, Bool-cases, Option-cases,
}
use eyedebugger.Api.{Breakpoint, BreakpointSpec}
use eyedebugger.Session.{Session}
use eyedebugger.Presence.Cleanup.{breakpoints}
use eyedebugger.Breakpoints.{insert, new_breakpoint, set_emulated, list_at}
use eyedebugger.Breakpoints.Numbered.{times, times-append, Numbered, insert-Numbered}
use eyedebugger.Breakpoints.Replace.{
  ReplaceItem, Cell, is_refused, update, match_items, put_list, add_items, match_locked, cells_of,
  is_gone,
}
use eyedebugger.Breakpoints.Replace.Picks.{
  Picked, here, there, Picks, done, next, match_items-Picks,
}

abbrev pub points_of : List Cell → List Breakpoint
points_of cells = map (λ (c : Cell). c.b) cells

id-update : (b : Breakpoint) (spec : BreakpointSpec) → (update b spec).0.id ≡ b.id
unfolding update set_emulated
id-update b spec = ground arith

times-Picked :
    (id : ℕ) {cs ds : List Cell} → Picked cs ds → times id (points_of ds) ≡ times id (points_of cs)
times-Picked id (here {c} {cs} spec w) = ground (arith, id-update c.b spec)
times-Picked id (there {c} {cs} {ds} p) = ground (arith, times-Picked id p)

times-Picks :
    (id : ℕ) {cs ds : List Cell} → Picks cs ds → times id (points_of ds) ≡ times id (points_of cs)
times-Picks id done = refl
times-Picks id (next p ps) = times-Picks id ps ∙ times-Picked id p

pub points_of-cells_of :
    (owner : String) (bs : List Breakpoint) → points_of (cells_of owner bs) ≡ bs
unfolding cells_of
points_of-cells_of owner [] = refl
points_of-cells_of owner (b ∷ bs) = ap (λ l. b ∷ l) (points_of-cells_of owner bs)

times-points_of-keep-le :
    (id : ℕ) (p : Cell → Bool) (cs : List Cell)
    → times id (points_of (keep p cs)) ≤ times id (points_of cs)
times-points_of-keep-le id p [] = omega arith
times-points_of-keep-le id p (c ∷ cs) = ground (arith, times-points_of-keep-le id p cs)

-- A file's list stands in the session's breakpoints as a whole, and so does the list put there.
pub put_list_split :
    (key : String) (list : List Breakpoint) (bps : List (String × List Breakpoint))
    → (before : List Breakpoint) × (after : List Breakpoint) × (breakpoints bps
        ≡ before ++ (list_at key bps ++ after))
      × (breakpoints (put_list key list bps) ≡ before ++ (list ++ after))
unfolding put_list list_at
put_list_split key [] [] = ([], [], refl, refl)
put_list_split key (b ∷ bs) [] = ([], [], refl, refl)
put_list_split key list ((k, old) ∷ bps) = elim (Bool-cases (str_eq k key)) [
  | inl same ↦ rw (same) ([], breakpoints bps, refl, put_first list)
  | inr other ↦
      let (before, after, e, e') = put_list_split key list bps in
      rw (other) (
        old ++ before,
        after,
        ap (λ l. old ++ l) e ∙ sym (append_assoc old before (list_at key bps ++ after)),
        ap (λ l. old ++ l) e' ∙ sym (append_assoc old before (list ++ after)),
      )
]
  where
    put_first :
        (list : List Breakpoint)
        → breakpoints (elim list [ [] ↦ bps | b ∷ bs ↦ (k, b ∷ bs) ∷ bps ])
          ≡ list ++ breakpoints bps
    put_first [] = refl
    put_first (b ∷ bs) = refl

times-put_list :
    (id : ℕ) (key : String) (list : List Breakpoint) (bps : List (String × List Breakpoint))
    → times id list ≤ times id (list_at key bps)
    → times id (breakpoints (put_list key list bps)) ≤ times id (breakpoints bps)
times-put_list id key list bps h =
    let (before, after, e, e') = put_list_split key list bps in
    rw (e, e')
      (omega (
        arith,
        times-append id before (list ++ after),
        times-append id before (list_at key bps ++ after),
        times-append id list after,
        times-append id (list_at key bps) after,
      ))

-- The file's own breakpoints, matched, without those that are gone.
abbrev pub left_of : List ℕ → List Cell → List Breakpoint
left_of kept cells = points_of (keep (λ c. not (is_gone kept c)) cells)

times-left :
    (id : ℕ) (s : Session) (owner key : String) (items : List ReplaceItem) (kept : List ℕ)
    → let cells = (match_items items (cells_of owner (list_at key s.bps))).1 in
      times id (breakpoints (put_list key (left_of kept cells) s.bps))
      ≤ times id (breakpoints s.bps)
times-left id s owner key items kept =
    let start = cells_of owner (list_at key s.bps) in
    let cells = (match_items items start).1 in
    times-put_list id key (left_of kept cells) s.bps (
      omega (
        arith,
        times-points_of-keep-le id (λ c. not (is_gone kept c)) cells,
        times-Picks id (match_items-Picks items start),
        ap (times id) (points_of-cells_of owner (list_at key s.bps)),
      ))

add_items-Numbered :
    (s : Session) (now : ℕ) (owner : String) (items : List ReplaceItem)
    → ((id : ℕ) → Numbered s id)
    → (id : ℕ) → Numbered (add_items s now owner items).0 id
unfolding add_items new_breakpoint set_emulated
add_items-Numbered s now owner [] v id = v id
add_items-Numbered s now owner (it ∷ items) v id = elim (Bool-cases (is_refused it)) [
  | inl refused ↦ rw (refused, add_items) (add_items-Numbered s now owner items v id)
  | inr accepted ↦ elim (Option-cases it.b) [
    | inr (j, e) ↦ rw (accepted, e, add_items) (add_items-Numbered s now owner items v id)
    | inl e ↦
        let b = record (new_breakpoint (suc s.next_bp) now owner it.spec) { editor = true } in
        rw (accepted, e, add_items)
          (add_items-Numbered (insert s it.spec.file b) now owner items
            (λ j. insert-Numbered s it.spec.file b refl j (v j) (v (suc s.next_bp))) id)
  ]
]

-- A replacement keeps ids numbered.
pub match_locked-Numbered :
    (s : Session) (now : ℕ) (owner key : String) (items : List ReplaceItem) (kept : List ℕ)
    → ((id : ℕ) → Numbered s id)
    → (id : ℕ) → Numbered (match_locked s now owner key items kept).0 id
unfolding match_locked
match_locked-Numbered s now owner key items kept v id =
    let (items', cells) = match_items items (cells_of owner (list_at key s.bps)) in
    let t = record s { bps = put_list key (left_of kept cells) s.bps } in
    add_items-Numbered t now owner items'
      (λ j. ground (arith, v j, times-left j s owner key items kept)) id
