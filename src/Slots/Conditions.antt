-- ===== src/Slots/Conditions.antt =====
-- The condition the adapter checks at a slot (`slotsFor`).
use eyedebugger.Prelude.{
  ◌≡◌, refl, subst, sym, ap, String, Bool, true, false, not, ◌&&◌, ◌||◌, List, [], ◌∷◌, ◌++◌, map,
  any, str_eq, eq_iff, if◌then◌else◌, arith, Bool-cases, inl, inr, All,
}
use eyedebugger.Api.{Breakpoint}
use eyedebugger.Slots.{SlotKey, same_key, key_of, Slot, place, place_all, settle, slots_for}

abbrev pub conditional : Breakpoint → String → Bool
conditional b c = str_eq b.condition c

-- Whether the breakpoints all have the first one's condition.
abbrev pub agree : List Breakpoint → Bool
agree [] = true
agree (b ∷ bs) = not (any (λ c. not (conditional c b.condition)) bs)

-- The condition that breakpoints share, none where they differ.
abbrev pub common : List Breakpoint → String
common [] = ""
common (b ∷ bs) = if agree (b ∷ bs) then b.condition else ""

-- Whether a condition is met, by what its text evaluates to; none is.
abbrev pub is_met : (String → Bool) → String → Bool
is_met f c = str_eq c "" || f c

-- A slot's condition is the one its breakpoints share, and there is none where they differ; the
-- slot is marked where they differ though each is conditional.
pub record IsSettled (s : Slot) : Type 0 where
  pub shared : s.condition ≡ common s.bps
  pub marked : s.note ≡ (not (agree s.bps) && not (any (λ b. conditional b "") s.bps))

abbrev fresh : SlotKey → Breakpoint → List Breakpoint → Slot
fresh key b bs = record { key = key; condition = b.condition; note = false; bps = b ∷ bs }

-- A slot as the first loop leaves it.
abbrev Fresh : Slot → Type 0
Fresh s = (b : Breakpoint) × (bs : List Breakpoint) × (s ≡ fresh s.key b bs)

place-Fresh : (slots : List Slot) (b : Breakpoint) → All Fresh slots → All Fresh (place slots b)
unfolding place
place-Fresh [] b h = ((b, [], refl), tt)
place-Fresh (s ∷ slots) b ((c, bs, e), hs) = elim (Bool-cases (same_key s.key (key_of b))) [
  | inl same ↦
      rw (same) ((c, bs ++ b ∷ [], ap (λ (t : Slot). record t { bps = t.bps ++ b ∷ [] }) e), hs)
  | inr other ↦ rw (other) ((c, bs, e), place-Fresh slots b hs)
]

place_all-Fresh :
    (slots : List Slot) (list : List Breakpoint)
    → All Fresh slots
    → All Fresh (place_all slots list)
unfolding place_all
place_all-Fresh slots [] h = h
place_all-Fresh slots (b ∷ list) h = place_all-Fresh (place slots b) list (place-Fresh slots b h)

agree-empty :
    (c : String) (bs : List Breakpoint)
    → any (λ b. conditional b "") bs ≡ true
    → any (λ b. not (conditional b c)) bs ≡ false
    → c ≡ ""
agree-empty c [] h k = absurd (ground (arith, h))
agree-empty c (b ∷ bs) h k =
    ground (arith, h, k, eq_iff b.condition c, eq_iff b.condition "", agree-empty c bs)

settle-IsSettled : (s : Slot) → Fresh s → IsSettled (settle s)
settle-IsSettled s (b, bs, e) =
    subst (λ t. IsSettled (settle t)) (sym e) (record { shared = shared_lem; marked = marked_lem })
  where
    shared_lem : (settle (fresh s.key b bs)).condition ≡ common (settle (fresh s.key b bs)).bps
    shared_lem =
        unfold settle in
        ground
          (arith, eq_iff b.condition b.condition, eq_iff b.condition "", agree-empty b.condition bs)

    marked_lem : (settle (fresh s.key b bs)).note ≡ (
        not (agree (settle (fresh s.key b bs)).bps)
        && not (any (λ c. conditional c "") (settle (fresh s.key b bs)).bps))
    marked_lem = unfold settle in ground (arith, eq_iff b.condition b.condition)

map-IsSettled : (slots : List Slot) → All Fresh slots → All IsSettled (map settle slots)
map-IsSettled [] h = tt
map-IsSettled (s ∷ slots) (h, hs) = (settle-IsSettled s h, map-IsSettled slots hs)

-- The condition of every slot is the one its breakpoints share, and none where they differ; a slot is
-- marked exactly where its breakpoints differ though each is conditional.
pub slots_for-IsSettled : (list : List Breakpoint) → All IsSettled (slots_for list)
unfolding slots_for
slots_for-IsSettled list = map-IsSettled (place_all [] list) (place_all-Fresh [] list tt)
