-- ===== src/Breakpoints/Replace.antt =====
-- internal/session/replace.go: an editor's list of breakpoints made a file's. What the code reaches
-- by pointers from its list `old` is the file's list, each breakpoint with its part in the request.
pub mod Picks
pub mod Numbers
pub mod Others
pub mod Counts
pub mod Served
pub mod Adding
pub mod Answered
pub mod Exact
mod Tests
use eyedebugger.Prelude.{
  ℕ, zero, suc, String, Bool, true, false, not, ◌&&◌, ◌||◌, Option, none, some, List, [], ◌∷◌, ◌++◌,
  ◌==◌, map, any, keep, str_eq, if◌then◌else◌,
}
use eyedebugger.Api.{Breakpoint, BreakpointSpec}
use eyedebugger.Slots.{SlotKey, same_key, key_of}
use eyedebugger.Session.{Session, Error, invalid_request}
use eyedebugger.Breakpoints.{list_at, set_emulated, spec_key, new_breakpoint, insert}

-- `replaceItem`, with the id of its breakpoint.
pub record ReplaceItem : Type 0 where
  pub spec : BreakpointSpec
  pub refused : Option Error
  pub b : Option ℕ
  pub is_new : Bool
  pub changed : Bool

pub is_refused : ReplaceItem → Bool
is_refused it = elim it.refused [ none ↦ false | some e ↦ true ]

-- `refuseLocked`; `check` stands for the checks of the adapter's capabilities and of the path map.
pub refuse : (BreakpointSpec → Option Error) → List SlotKey → List ReplaceItem → List ReplaceItem
unfolding is_refused spec_key same_key
refuse check seen [] = []
refuse check seen (it ∷ items) = elim (is_refused it) [
  | true ↦ it ∷ refuse check seen items
  | false ↦ elim (check it.spec) [
    | some e ↦ record it { refused = some e } ∷ refuse check seen items
    | none ↦ elim (any (λ k. same_key k (spec_key it.spec)) seen) [
      | true ↦ record it { refused = some invalid_request } ∷ refuse check seen items
      | false ↦ it ∷ refuse check (spec_key it.spec ∷ seen) items
    ]
  ]
]

-- A breakpoint of the file: not of the request's, in `old`, or taken out of it by an item.
pub data Part : Type 0 where
  outside : Part
  waiting : Part
  matched : Part

pub record Cell : Type 0 where
  pub b : Breakpoint
  pub part : Part

-- The list `old` of `matchLocked`.
pub cells_of : String → List Breakpoint → List Cell
cells_of owner [] = []
cells_of owner (b ∷ bs) =
    record { b = b; part = if str_eq b.owner owner && not b.temporary then waiting else outside }
    ∷ cells_of owner bs

pub is_waiting : Cell → Bool
is_waiting c = elim c.part [ waiting ↦ true | outside ↦ false | matched ↦ false ]

-- `update`.
pub update : Breakpoint → BreakpointSpec → Breakpoint × Bool
unfolding set_emulated
update b spec =
    if str_eq b.condition spec.condition
      && str_eq b.hit_condition spec.hit_condition
      && str_eq b.log_message spec.log_message
      && str_eq b.anchor ""
    then (b, false)
    else (set_emulated (record b { condition = spec.condition; anchor = "" }) spec, true)

-- `byRequested` and `byPlaced`.
pub by_requested : Breakpoint → BreakpointSpec → Bool
unfolding same_key key_of spec_key
by_requested b spec = same_key (key_of b) (spec_key spec)

pub by_placed : Breakpoint → BreakpointSpec → Bool
by_placed b spec = str_eq spec.function "" && b.line == spec.line

-- The first breakpoint in `old` that an item matches leaves it, updated: its id and whether it
-- changed. It becomes an editor breakpoint at once, where `matchLocked` does it in a last loop.
pub pick :
    (Breakpoint → BreakpointSpec → Bool)
    → BreakpointSpec
    → List Cell
    → Option (List Cell × ℕ × Bool)
unfolding is_waiting update
pick same spec [] = none
pick same spec (c ∷ cs) =
    let rest = pick same spec cs in
    if is_waiting c && same c.b spec
    then some (
      record { b = record (update c.b spec).0 { editor = true }; part = matched } ∷ cs,
      c.b.id,
      (update c.b spec).1 || not c.b.editor,
    )
    else elim rest [ none ↦ none | some (ds, id, changed) ↦ some (c ∷ ds, id, changed) ]

-- One turn of the inner loop of `matchItems`.
pub offer : (Breakpoint → BreakpointSpec → Bool) → ReplaceItem → List Cell → ReplaceItem × List Cell
unfolding is_refused pick
offer same it cells = elim it.b [
  | some id ↦ (it, cells)
  | none ↦ if is_refused it then (it, cells) else elim (pick same it.spec cells) [
    | none ↦ (it, cells)
    | some (ds, id, changed) ↦ (record it { b = some id; changed = changed }, ds)
  ]
]

pub match_pass :
    (Breakpoint → BreakpointSpec → Bool)
    → List ReplaceItem
    → List Cell
    → List ReplaceItem × List Cell
unfolding offer
match_pass same [] cells = ([], cells)
match_pass same (it ∷ items) cells =
    let (it', cells') = offer same it cells in
    let (items', cells'') = match_pass same items cells' in (it' ∷ items', cells'')

-- `matchItems`.
pub match_items : List ReplaceItem → List Cell → List ReplaceItem × List Cell
unfolding match_pass by_requested by_placed
match_items items cells =
    let (items', cells') = match_pass by_requested items cells in match_pass by_placed items' cells'

-- Whether `matchLocked` removes a breakpoint: it is unmatched, an editor's, and not in `keep`.
pub is_gone : List ℕ → Cell → Bool
unfolding is_waiting
is_gone kept c = is_waiting c && c.b.editor && not (any (λ id. id == c.b.id) kept)

-- A file's list in the map; the file leaves the map with its last breakpoint.
pub put_list :
    String → List Breakpoint → List (String × List Breakpoint) → List (String × List Breakpoint)
put_list key [] [] = []
put_list key (b ∷ bs) [] = (key, b ∷ bs) ∷ []
put_list key list ((k, old) ∷ bps) =
    let rest = put_list key list bps in
    if str_eq k key then elim list [ [] ↦ bps | b ∷ bs ↦ (k, b ∷ bs) ∷ bps ] else (k, old) ∷ rest

-- The last loop of `matchLocked`: the accepted items without a breakpoint get a new one,
-- an editor breakpoint.
pub add_items : Session → ℕ → String → List ReplaceItem → Session × List ReplaceItem
unfolding is_refused new_breakpoint insert
add_items s now owner [] = (s, [])
add_items s now owner (it ∷ items) = elim (is_refused it) [
  | true ↦ let (t, items') = add_items s now owner items in (t, it ∷ items')
  | false ↦ elim it.b [
    | some id ↦ let (t, items') = add_items s now owner items in (t, it ∷ items')
    | none ↦
        let b = record (new_breakpoint (suc s.next_bp) now owner it.spec) { editor = true } in
        let (t, items') = add_items (insert s it.spec.file b) now owner items in
        (t, record it { b = some b.id; is_new = true } ∷ items')
  ]
]

-- `matchLocked`: the session, the items, and the breakpoints that are removed, in the order of the
-- file's list, which is that of their ids.
pub match_locked :
    Session
    → ℕ
    → String
    → String
    → List ReplaceItem
    → List ℕ
    → Session × List ReplaceItem × List Breakpoint
unfolding cells_of match_items is_gone put_list add_items list_at
match_locked s now owner key items kept =
    let (items', cells) = match_items items (cells_of owner (list_at key s.bps)) in
    let left = map (λ (c : Cell). c.b) (keep (λ c. not (is_gone kept c)) cells) in
    let gone = map (λ (c : Cell). c.b) (keep (is_gone kept) cells) in
    let (t, items'') = add_items (record s { bps = put_list key left s.bps }) now owner items' in
    (t, items'', gone)
