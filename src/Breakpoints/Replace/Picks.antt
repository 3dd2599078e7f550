-- ===== src/Breakpoints/Replace/Picks.antt =====
-- What a request's matching does to the breakpoints of a file, as a relation.
use eyedebugger.Prelude.{
  ℕ, ◌≡◌, inl, inr, Bool, true, ◌&&◌, some, List, [], ◌∷◌, subst, arith, Bool-cases, Option-cases,
}
use eyedebugger.Api.{Breakpoint, BreakpointSpec}
use eyedebugger.Breakpoints.Replace.{
  ReplaceItem, Cell, matched, is_waiting, is_refused, update, pick, offer, match_pass, match_items,
  by_requested, by_placed,
}

abbrev pub taken : Cell → BreakpointSpec → Cell
taken c spec = record { b = record (update c.b spec).0 { editor = true }; part = matched }

-- One breakpoint that waits is taken for a spec.
pub data Picked : List Cell → List Cell → Type 0 where
  here :
      {c : Cell} {cs : List Cell} (spec : BreakpointSpec)
      → is_waiting c ≡ true
      → Picked (c ∷ cs) (taken c spec ∷ cs)
  there : {c : Cell} {cs ds : List Cell} → Picked cs ds → Picked (c ∷ cs) (c ∷ ds)

pub data Picks : List Cell → List Cell → Type 0 where
  done : {cs : List Cell} → Picks cs cs
  next : {cs ds es : List Cell} → Picked cs ds → Picks ds es → Picks cs es

Picks-trans : {cs ds es : List Cell} → Picks cs ds → Picks ds es → Picks cs es
Picks-trans done q = q
Picks-trans (next p ps) q = next p (Picks-trans ps q)

pub pick-Picked :
    (same : Breakpoint → BreakpointSpec → Bool) (spec : BreakpointSpec) (cs ds : List Cell) (id : ℕ)
    (changed : Bool)
    → pick same spec cs ≡ some (ds, id, changed)
    → Picked cs ds
unfolding pick
pick-Picked same spec [] ds id changed e = absurd (ground (arith, e))
pick-Picked same spec (c ∷ cs) ds id changed e = elim (Bool-cases (is_waiting c && same c.b spec)) [
  | inl found ↦
      let first : taken c spec ∷ cs ≡ ds = ground (arith, e, found) in
      subst (λ l. Picked (c ∷ cs) l) first (here spec (ground (arith, found)))
  | inr other ↦ elim (Option-cases (pick same spec cs)) [
    | inl none_here ↦ absurd (ground (arith, e, other, none_here))
    | inr ((ds', id', changed'), found) ↦
        let rest : c ∷ ds' ≡ ds = ground (arith, e, other, found) in
        subst (λ l. Picked (c ∷ cs) l) rest
          (there (pick-Picked same spec cs ds' id' changed' found))
  ]
]

pub offer-Picks :
    (same : Breakpoint → BreakpointSpec → Bool) (it : ReplaceItem) (cs : List Cell)
    → Picks cs (offer same it cs).1
unfolding offer
offer-Picks same it cs = elim (Option-cases it.b) [
  | inr (id, e) ↦ rw (e) done
  | inl e ↦ elim (Bool-cases (is_refused it)) [
    | inl refused ↦ rw (e, refused) done
    | inr accepted ↦ elim (Option-cases (pick same it.spec cs)) [
      | inl none_here ↦ rw (e, accepted, none_here) done
      | inr ((ds, id, changed), found) ↦
          rw (e, accepted, found) (next (pick-Picked same it.spec cs ds id changed found) done)
    ]
  ]
]

pub match_pass-Picks :
    (same : Breakpoint → BreakpointSpec → Bool) (items : List ReplaceItem) (cs : List Cell)
    → Picks cs (match_pass same items cs).1
unfolding match_pass
match_pass-Picks same [] cs = done
match_pass-Picks same (it ∷ items) cs =
    Picks-trans (offer-Picks same it cs) (match_pass-Picks same items (offer same it cs).1)

pub match_items-Picks :
    (items : List ReplaceItem) (cs : List Cell) → Picks cs (match_items items cs).1
unfolding match_items
match_items-Picks items cs = Picks-trans (match_pass-Picks by_requested items cs) (
    match_pass-Picks by_placed (match_pass by_requested items cs).0
      (match_pass by_requested items cs).1)
