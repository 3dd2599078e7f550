-- ===== src/Breakpoints/Replace/Exact.antt =====
-- How many editor breakpoints a client has after its editor set a file's list.
use eyedebugger.Prelude.{
  ℕ, suc, ◌+◌, ◌≡◌, inl, inr, refl, sym, subst, String, true, false, none, some, List, [], ◌∷◌,
  ◌++◌, All, str_eq, eq_iff, if◌then◌else◌, arith, Bool-cases, Option-cases,
}
use eyedebugger.Api.{Breakpoint, BreakpointSpec}
use eyedebugger.Session.{Session}
use eyedebugger.Presence.Cleanup.{breakpoints}
use eyedebugger.Breakpoints.{append_at, insert, new_breakpoint, set_emulated, list_at}
use eyedebugger.Breakpoints.Replace.{
  ReplaceItem, is_refused, match_items, put_list, add_items, match_locked, cells_of,
}
use eyedebugger.Breakpoints.Replace.Numbers.{put_list_split, left_of}
use eyedebugger.Breakpoints.Replace.Counts.{
  editors, accepted, served, IsProper, IsSettled, editors-append, match_items-Passed,
  Parted-cells_of, taken_out-cells_of, editors-left,
}
use eyedebugger.Breakpoints.Replace.Adding.{AreAnswered}
use eyedebugger.Breakpoints.Replace.Answered.{match_locked-AreAnswered}

module _ (owner : String) where
  editors-append_at :
      (key : String) (b : Breakpoint) (bps : List (String × List Breakpoint))
      → editors owner (breakpoints (append_at key b bps))
        ≡ editors owner (breakpoints bps) + editors owner (b ∷ [])
  unfolding append_at
  editors-append_at key b [] = ground arith
  editors-append_at key b ((k, list) ∷ bps) =
      let split = editors-append owner in
      elim (Bool-cases (str_eq k key)) [
        | inl same ↦ rw (same) (
            omega (
              arith,
              split list (b ∷ []),
              split (list ++ b ∷ []) (breakpoints bps),
              split list (breakpoints bps),
            ))
        | inr other ↦ rw (other) (
            omega (
              arith,
              editors-append_at key b bps,
              split list (breakpoints (append_at key b bps)),
              split list (breakpoints bps),
            ))
      ]

  editors-new :
      (id now : ℕ) (spec : BreakpointSpec)
      → editors owner (record (new_breakpoint id now owner spec) { editor = true } ∷ []) ≡ 1
  unfolding new_breakpoint set_emulated
  editors-new id now spec = ground (arith, eq_iff owner owner)

  -- What the last loop adds.
  record AddedAll (s t : Session) (items items' : List ReplaceItem) : Type 0 where
    settled : All IsSettled items'
    counts :
        editors owner (breakpoints t.bps) + served items
        ≡ editors owner (breakpoints s.bps) + accepted items

  passed_over :
      (s : Session) (now : ℕ) (it : ReplaceItem) (items : List ReplaceItem)
      → IsSettled it
      → add_items s now owner (it ∷ items)
        ≡ ((add_items s now owner items).0, it ∷ (add_items s now owner items).1)
  unfolding add_items
  passed_over s now it items h = elim (Bool-cases (is_refused it)) [
    | inl refused ↦ ground (arith, refused)
    | inr taken_on ↦ ground (arith, h, taken_on)
  ]

  given_new :
      (s : Session) (now : ℕ) (it : ReplaceItem) (items : List ReplaceItem)
      → it.b ≡ none
      → is_refused it ≡ false
      → let b = record (new_breakpoint (suc s.next_bp) now owner it.spec) { editor = true } in
        let rest = add_items (insert s it.spec.file b) now owner items in
        add_items s now owner (it ∷ items)
        ≡ (rest.0, record it { b = some b.id; is_new = true } ∷ rest.1)
  unfolding add_items
  given_new s now it items e taken_on = ground (arith, e, taken_on)

  add_items-AddedAll :
      (s : Session) (now : ℕ) (items : List ReplaceItem)
      → All IsProper items
      → AddedAll s (add_items s now owner items).0 items (add_items s now owner items).1
  unfolding add_items insert
  add_items-AddedAll s now [] v = record { settled = tt; counts = refl }
  add_items-AddedAll s now (it ∷ items) (v, vs) =
      let over = λ (h : IsSettled it) (same : (if is_refused it then 0 else 1) ≡ served (it ∷ [])).
        let rest = add_items-AddedAll s now items vs in
        subst (λ r. AddedAll s r.0 (it ∷ items) r.1) (sym (passed_over s now it items h))
          (record { settled = (h, rest.settled); counts = ground (arith, same, rest.counts) }) in
      elim (Bool-cases (is_refused it)) [
        | inl refused ↦ over (ground (arith, refused)) (ground (arith, refused))
        | inr taken_on ↦ elim (Option-cases it.b) [
          | inr (id, e) ↦ over (ground (arith, e)) (ground (arith, e, taken_on))
          | inl e ↦
              let b = record (new_breakpoint (suc s.next_bp) now owner it.spec) { editor = true } in
              let rest = add_items-AddedAll (insert s it.spec.file b) now items vs in
              subst (λ r. AddedAll s r.0 (it ∷ items) r.1)
                (sym (given_new s now it items e taken_on))
                (record {
                  settled = (ground (arith, taken_on), rest.settled);
                  counts = ground (
                    arith,
                    e,
                    taken_on,
                    rest.counts,
                    editors-append_at it.spec.file b s.bps,
                    editors-new (suc s.next_bp) now it.spec,
                  );
                })
        ]
      ]

served_fresh :
    (items : List ReplaceItem)
    → All (λ (it : ReplaceItem). it.b ≡ none) items
    → All IsProper items × (served items ≡ 0)
served_fresh [] h = (tt, refl)
served_fresh (it ∷ items) (h, hs) =
    let (proper, none_served) = served_fresh items hs in
    ((ground (arith, h), proper), ground (arith, h, none_served))

editors-put_list :
    (owner key : String) (list : List Breakpoint) (bps : List (String × List Breakpoint))
    → editors owner (breakpoints (put_list key list bps)) + editors owner (list_at key bps)
      ≡ editors owner (breakpoints bps) + editors owner list
editors-put_list owner key list bps =
    let (before, after, e, e') = put_list_split key list bps in
    rw (e, e')
      (omega (
        arith,
        editors-append owner before (list ++ after),
        editors-append owner before (list_at key bps ++ after),
        editors-append owner list after,
        editors-append owner (list_at key bps) after,
      ))

-- Where a client's editor sets a file's list and keeps nothing from another path, the items come back
-- in their order, and each that is not refused names a lasting editor breakpoint of the client in the
-- session with its condition, hit condition and log message, asked for at its line or function or
-- placed on its line. Of the client's editor breakpoints in the session those of the file are
-- replaced by as many as there are items that are not refused.
pub match_locked-exact :
    (s : Session) (now : ℕ) (owner key : String) (items : List ReplaceItem)
    → All (λ (it : ReplaceItem). it.b ≡ none) items
    → let r = match_locked s now owner key items [] in
      AreAnswered owner items r.1 (breakpoints r.0.bps)
      × (editors owner (breakpoints r.0.bps) + editors owner (list_at key s.bps)
          ≡ editors owner (breakpoints s.bps) + accepted items)
unfolding match_locked
match_locked-exact s now owner key items fresh =
    let list = list_at key s.bps in
    let start = cells_of owner list in
    let (proper, none_served) = served_fresh items fresh in
    let passed = match_items-Passed owner items start proper (Parted-cells_of owner list) in
    let (items', cells) = match_items items start in
    let t = record s { bps = put_list key (left_of [] cells) s.bps } in
    let added = add_items-AddedAll owner t now items' passed.proper in
    (
      match_locked-AreAnswered owner s now key items [] fresh,
      omega (
        arith,
        none_served,
        passed.counts,
        passed.same_accepted,
        added.counts,
        taken_out-cells_of owner list,
        editors-left owner cells passed.parted,
        editors-put_list owner key (left_of [] cells) s.bps,
      ),
    )
