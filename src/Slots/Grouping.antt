-- ===== src/Slots/Grouping.antt =====
-- Which breakpoints share a slot (`slotsFor`).
use eyedebugger.Prelude.{
  ℕ, ◌+◌, ◌≤◌, ◌≡◌, refl, sym, ◌∙◌, ap, true, ◌&&◌, List, [], ◌∷◌, ◌++◌, map, ◌==◌, keep, eq_iff,
  if◌then◌else◌, arith, append-nil, append_assoc, Bool-cases, inl, inr,
}
use eyedebugger.Api.{Breakpoint}
use eyedebugger.Slots.{SlotKey, same_key, key_of, Slot, place, place_all, settle, slots_for}

-- The breakpoints of the slots with a key, and the number of those slots.
abbrev pub sharing : SlotKey → List Slot → List Breakpoint
sharing k [] = []
sharing k (s ∷ slots) = (if same_key s.key k then s.bps else []) ++ sharing k slots

abbrev pub slots_at : SlotKey → List Slot → ℕ
slots_at k [] = 0
slots_at k (s ∷ slots) = (if same_key s.key k then 1 else 0) + slots_at k slots

same_key_trans : (i j k : SlotKey) → same_key i j ≡ true → same_key i k ≡ same_key j k
unfolding same_key
same_key_trans i j k h = ground (
  arith,
  h,
  eq_iff i.function j.function,
  eq_iff i.function k.function,
  eq_iff j.function k.function,
)

same_key_meet : (i j k : SlotKey) → same_key i k ≡ true → same_key j k ≡ true → same_key i j ≡ true
unfolding same_key
same_key_meet i j k h g = ground (
  arith,
  h,
  g,
  eq_iff i.function j.function,
  eq_iff i.function k.function,
  eq_iff j.function k.function,
)

sharing-empty : (k : SlotKey) (slots : List Slot) → slots_at k slots ≡ 0 → sharing k slots ≡ []
sharing-empty k [] h = refl
sharing-empty k (s ∷ slots) h = ground (arith, h, sharing-empty k slots)

place-sharing :
    (k : SlotKey) (slots : List Slot) (b : Breakpoint)
    → slots_at k slots ≤ 1
    → sharing k (place slots b) ≡ sharing k slots ++ (if same_key (key_of b) k then b ∷ [] else [])
unfolding place
place-sharing k [] b h = ground arith
place-sharing k (s ∷ slots) b h = elim (Bool-cases (same_key s.key (key_of b))) [
  | inl same ↦ rw (same) (joins (same_key_trans s.key (key_of b) k same))
  | inr other ↦ rw (other) (apart (place-sharing k slots b))
]
  where
    joins :
        same_key s.key k ≡ same_key (key_of b) k
        → sharing k (record s { bps = s.bps ++ b ∷ [] } ∷ slots)
          ≡ sharing k (s ∷ slots) ++ (if same_key (key_of b) k then b ∷ [] else [])
    joins e = elim (Bool-cases (same_key (key_of b) k)) [
      | inl here ↦
          ground (
            arith,
            e,
            here,
            h,
            sharing-empty k slots,
            append-nil s.bps,
            append-nil (s.bps ++ b ∷ []),
          )
      | inr away ↦ ground (arith, e, away, append-nil (sharing k slots))
    ]

    apart :
        (slots_at k slots ≤ 1
          → sharing k (place slots b)
            ≡ sharing k slots ++ (if same_key (key_of b) k then b ∷ [] else []))
        → sharing k (s ∷ place slots b)
          ≡ sharing k (s ∷ slots) ++ (if same_key (key_of b) k then b ∷ [] else [])
    apart rest =
        ap (λ bs. (if same_key s.key k then s.bps else []) ++ bs) (rest (ground (arith, h)))
        ∙ sym (append_assoc (if same_key s.key k then s.bps else []) (sharing k slots) _)

place-slots_at :
    (k : SlotKey) (slots : List Slot) (b : Breakpoint)
    → slots_at k (place slots b)
      ≡ (if same_key (key_of b) k && slots_at k slots == 0 then 1 else slots_at k slots)
unfolding place
place-slots_at k [] b = ground arith
place-slots_at k (s ∷ slots) b = ground (
  arith,
  same_key_trans s.key (key_of b) k,
  same_key_meet s.key (key_of b) k,
  place-slots_at k slots b,
)

place_all-slots_at :
    (k : SlotKey) (slots : List Slot) (list : List Breakpoint)
    → slots_at k slots ≤ 1
    → slots_at k (place_all slots list) ≤ 1
unfolding place_all
place_all-slots_at k slots [] h = h
place_all-slots_at k slots (b ∷ list) h =
    place_all-slots_at k (place slots b) list (ground (arith, h, place-slots_at k slots b))

place_all-sharing :
    (k : SlotKey) (slots : List Slot) (list : List Breakpoint)
    → slots_at k slots ≤ 1
    → sharing k (place_all slots list) ≡ sharing k slots ++ keep (λ b. same_key (key_of b) k) list
unfolding place_all
place_all-sharing k slots [] h = sym (append-nil (sharing k slots))
place_all-sharing k slots (b ∷ list) h =
    place_all-sharing k (place slots b) list (ground (arith, h, place-slots_at k slots b))
    ∙ ap (λ bs. bs ++ keep (λ c. same_key (key_of c) k) list) (place-sharing k slots b h)
    ∙ append_assoc (sharing k slots) (if same_key (key_of b) k then b ∷ [] else [])
        (keep (λ c. same_key (key_of c) k) list)
    ∙ ap (λ bs. sharing k slots ++ bs) (ground arith)

settle-whole : (s : Slot) → ((settle s).key ≡ s.key) × ((settle s).bps ≡ s.bps)
unfolding settle
settle-whole s = ground arith

settled-sharing :
    (k : SlotKey) (slots : List Slot)
    → (sharing k (map settle slots) ≡ sharing k slots)
      × (slots_at k (map settle slots) ≡ slots_at k slots)
settled-sharing k [] = (refl, refl)
settled-sharing k (s ∷ slots) = ground (arith, settle-whole s, settled-sharing k slots)

-- Every line or function has at most one slot, and its slot holds the breakpoints that ask for it,
-- all of them and in their order.
pub slots_for-sharing :
    (k : SlotKey) (list : List Breakpoint)
    → (slots_at k (slots_for list) ≤ 1)
      × (sharing k (slots_for list) ≡ keep (λ b. same_key (key_of b) k) list)
unfolding slots_for
slots_for-sharing k list =
    let (same_bps, same_count) = settled-sharing k (place_all [] list) in
    (
      omega (arith, same_count, place_all-slots_at k [] list (omega arith)),
      same_bps ∙ place_all-sharing k [] list (omega arith),
    )
