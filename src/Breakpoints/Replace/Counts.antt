-- ===== src/Breakpoints/Replace/Counts.antt =====
-- The counts of editor breakpoints and of the items they serve, through a request's matching.
use eyedebugger.Prelude.{
  ℕ, suc, ◌+◌, ◌≡◌, inl, inr, refl, sym, ◌∙◌, subst, String, Bool, true, false, not, ◌&&◌, ◌||◌,
  none, some, List, [], ◌∷◌, ◌++◌, All, str_eq, if◌then◌else◌, arith, Bool-cases, Option-cases,
}
use eyedebugger.Api.{Breakpoint, BreakpointSpec}
use eyedebugger.Breakpoints.{set_emulated}
use eyedebugger.Breakpoints.Replace.{
  ReplaceItem, Cell, waiting, outside, matched, is_waiting, is_refused, update, pick, offer,
  match_pass, match_items, cells_of, is_gone, by_requested, by_placed,
}
use eyedebugger.Breakpoints.Replace.Numbers.{left_of}
use eyedebugger.Breakpoints.Replace.Picks.{Picked, here, there, pick-Picked}

abbrev pub editors : String → List Breakpoint → ℕ
editors owner [] = 0
editors owner (b ∷ bs) =
    let rest = editors owner bs in
    if str_eq b.owner owner && not b.temporary && b.editor then suc rest else rest

abbrev pub accepted : List ReplaceItem → ℕ
accepted [] = 0
accepted (it ∷ items) = let rest = accepted items in if is_refused it then rest else suc rest

abbrev pub has_breakpoint : ReplaceItem → Bool
has_breakpoint it = elim it.b [ none ↦ false | some id ↦ true ]

-- Accepted items that a breakpoint serves.
abbrev pub served : List ReplaceItem → ℕ
served [] = 0
served (it ∷ items) =
    let rest = served items in if has_breakpoint it && not (is_refused it) then suc rest else rest

-- An item that is refused has no breakpoint.
abbrev pub IsProper : ReplaceItem → Type 0
IsProper it = (is_refused it && has_breakpoint it) ≡ false

abbrev pub IsSettled : ReplaceItem → Type 0
IsSettled it = (is_refused it || has_breakpoint it) ≡ true

pub editors-append :
    (owner : String) (bs cs : List Breakpoint)
    → editors owner (bs ++ cs) ≡ editors owner bs + editors owner cs
editors-append owner [] cs = omega arith
editors-append owner (b ∷ bs) cs = ground (arith, editors-append owner bs cs)

module _ (owner : String) where
  -- What waits is the client's, what is matched is an editor breakpoint of the client, the rest is not.
  abbrev pub Parted : Cell → Type 0
  Parted c = elim c.part [
    | outside ↦ (str_eq c.b.owner owner && not c.b.temporary) ≡ false
    | waiting ↦ (str_eq c.b.owner owner && not c.b.temporary) ≡ true
    | matched ↦ (str_eq c.b.owner owner && not c.b.temporary && c.b.editor) ≡ true
  ]

  abbrev pub taken_out : List Cell → ℕ
  taken_out [] = 0
  taken_out (c ∷ cs) =
      let rest = taken_out cs in
      elim c.part [ matched ↦ suc rest | outside ↦ rest | waiting ↦ rest ]

  own-update :
      (b : Breakpoint) (spec : BreakpointSpec)
      → (str_eq b.owner owner && not b.temporary) ≡ true
      → (str_eq (update b spec).0.owner owner && not (update b spec).0.temporary && true) ≡ true
  unfolding update set_emulated
  own-update b spec h = ground (arith, h)

  waiting-own :
      (c : Cell)
      → is_waiting c ≡ true
      → Parted c
      → (str_eq c.b.owner owner && not c.b.temporary) ≡ true
  unfolding is_waiting
  waiting-own c w h = ground (arith, w, h)

  pub Parted-Picked : {cs ds : List Cell} → Picked cs ds → All Parted cs → All Parted ds
  Parted-Picked (here {c} spec w) (h, hs) = (own-update c.b spec (waiting-own c w h), hs)
  Parted-Picked (there p) (h, hs) = (h, Parted-Picked p hs)

  taken_out-Picked : {cs ds : List Cell} → Picked cs ds → taken_out ds ≡ suc (taken_out cs)
  unfolding is_waiting
  taken_out-Picked (here {c} {cs} spec w) = ground (arith, w)
  taken_out-Picked (there {c} p) = ground (arith, taken_out-Picked p)

  -- What an offer keeps of the counts.
  record Offered (it it' : ReplaceItem) (cs ds : List Cell) : Type 0 where
    parted : All Parted ds
    same_refused : is_refused it' ≡ is_refused it
    proper : IsProper it'
    counts : taken_out ds + served (it ∷ []) ≡ taken_out cs + served (it' ∷ [])

  refused_matched :
      (it : ReplaceItem) (id : ℕ) (changed : Bool)
      → is_refused (record it { b = some id; changed = changed }) ≡ is_refused it
  unfolding is_refused
  refused_matched it id changed = refl

  offer-Offered :
      (same : Breakpoint → BreakpointSpec → Bool) (it : ReplaceItem) (cs : List Cell)
      → IsProper it
      → All Parted cs
      → Offered it (offer same it cs).0 cs (offer same it cs).1
  unfolding offer
  offer-Offered same it cs v h =
      let as_before = λ (e : offer same it cs ≡ (it, cs)).
        subst (λ r. Offered it r.0 cs r.1) (sym e)
          (record { parted = h; same_refused = refl; proper = v; counts = refl }) in
      elim (Option-cases it.b) [
        | inr (id, e) ↦ as_before (ground (arith, e))
        | inl e ↦ elim (Bool-cases (is_refused it)) [
          | inl refused ↦ as_before (ground (arith, e, refused))
          | inr taken_on ↦ elim (Option-cases (pick same it.spec cs)) [
            | inl none_here ↦ as_before (ground (arith, e, taken_on, none_here))
            | inr ((ds, id, changed), found) ↦
                let p = pick-Picked same it.spec cs ds id changed found in
                let it' = record it { b = some id; changed = changed } in
                let result : offer same it cs ≡ (it', ds) = ground (arith, e, taken_on, found) in
                subst (λ r. Offered it r.0 cs r.1) (sym result)
                  (record {
                    parted = Parted-Picked p h;
                    same_refused = refused_matched it id changed;
                    proper = ground (arith, taken_on, refused_matched it id changed);
                    counts =
                        ground
                          (arith, e, taken_on, refused_matched it id changed, taken_out-Picked p);
                  })
          ]
        ]
      ]

  -- What a pass keeps of the counts.
  pub record Passed (items items' : List ReplaceItem) (cs ds : List Cell) : Type 0 where
    pub parted : All Parted ds
    pub proper : All IsProper items'
    pub same_accepted : accepted items' ≡ accepted items
    pub counts : taken_out ds + served items ≡ taken_out cs + served items'

  match_pass-Passed :
      (same : Breakpoint → BreakpointSpec → Bool) (items : List ReplaceItem) (cs : List Cell)
      → All IsProper items
      → All Parted cs
      → Passed items (match_pass same items cs).0 cs (match_pass same items cs).1
  unfolding match_pass
  match_pass-Passed same [] cs v h = record {
    parted = h;
    proper = v;
    same_accepted = refl;
    counts = refl;
  }
  match_pass-Passed same (it ∷ items) cs (v, vs) h =
      let first = offer-Offered same it cs v h in
      let rest = match_pass-Passed same items (offer same it cs).1 vs first.parted in
      record {
        parted = rest.parted;
        proper = (first.proper, rest.proper);
        same_accepted = ground (arith, first.same_refused, rest.same_accepted);
        counts = ground (arith, first.counts, rest.counts);
      }

  pub match_items-Passed :
      (items : List ReplaceItem) (cs : List Cell)
      → All IsProper items
      → All Parted cs
      → Passed items (match_items items cs).0 cs (match_items items cs).1
  unfolding match_items
  match_items-Passed items cs v h =
      let first = match_pass-Passed by_requested items cs v h in
      let (items', ds) = match_pass by_requested items cs in
      let rest = match_pass-Passed by_placed items' ds first.proper first.parted in
      record {
        parted = rest.parted;
        proper = rest.proper;
        same_accepted = rest.same_accepted ∙ first.same_accepted;
        counts = omega (arith, first.counts, rest.counts);
      }

  pub Parted-cells_of : (bs : List Breakpoint) → All Parted (cells_of owner bs)
  unfolding cells_of
  Parted-cells_of [] = tt
  Parted-cells_of (b ∷ bs) = (ground arith, Parted-cells_of bs)

  pub taken_out-cells_of : (bs : List Breakpoint) → taken_out (cells_of owner bs) ≡ 0
  unfolding cells_of
  taken_out-cells_of [] = refl
  taken_out-cells_of (b ∷ bs) = ground (arith, taken_out-cells_of bs)

  pub editors-left : (cs : List Cell) → All Parted cs → editors owner (left_of [] cs) ≡ taken_out cs
  unfolding is_gone is_waiting
  editors-left [] h = refl
  editors-left (c ∷ cs) (h, hs) = ground (arith, h, editors-left cs hs)
