-- ===== src/Present/Largest.antt =====
-- `fit` keeps as many items as the limit takes, and one at least.
use Prim.Native.String.append as Append
use Prim.Native.String.count as Count
use Prim.Native.String.{count, ◌++◌ as concat}
use eyedebugger.Prelude.{
  String, zero, ap, ℕ, suc, ◌+◌, ◌-◌, ◌≤◌, ◌<◌, ◌≡◌, ◌⊎◌, refl, sym, ◌∙◌, subst, Bool, true, false,
  ◌&&◌, List, [], ◌∷◌, ◌++◌, map, ltb, length, take, drop, reverse, length-reverse, length-drop,
  length-take, take-append-drop, if◌then◌else◌, arith, Bool-cases, inl, inr, min, ◌*◌,
}
use eyedebugger.Api.{Event}
use eyedebugger.Present.{
  fit, fit_from, keep_fit, shape_events, cut_event, take_chars, event_text_limit,
}

module _ {T : Type 0} (size : T → ℕ) where
  abbrev pub sum : List T → ℕ
  sum [] = 0
  sum (x ∷ xs) = size x + sum xs

  -- The first `k` of the items: within the limit or one item, and one more would pass the limit.
  pub record IsLargest (limit : ℕ) (items : List T) (k : ℕ) : Type 0 where
    pub some_of : k ≤ length items
    pub within : (k ≤ 1) ⊎ (sum (take k items) ≤ limit)
    pub at_least : (items ≡ []) ⊎ (0 < k)
    pub no_more : (k ≡ length items) ⊎ (limit < sum (take (suc k) items))

  record Takes (limit total n m : ℕ) (xs : List T) (k : ℕ) : Type 0 where
    result : m ≡ n + k
    some_of : k ≤ length xs
    within : (m ≤ 1) ⊎ (total + sum (take k xs) ≤ limit)
    at_least : (xs ≡ []) ⊎ (0 < m)
    no_more : (k ≡ length xs) ⊎ (limit < total + sum (take (suc k) xs))

  fit_from-Takes :
      (limit total n : ℕ) (xs : List T)
      → (n ≤ 1) ⊎ (total ≤ limit)
      → (k : ℕ) × Takes limit total n (fit_from size limit total n xs) xs k
  unfolding fit_from
  fit_from-Takes limit total n [] h = (
    0,
    record {
      result = omega arith;
      some_of = omega arith;
      within = ground arith;
      at_least = inl refl;
      no_more = inl refl;
    },
  )
  fit_from-Takes limit total n (x ∷ xs) h =
      elim (Bool-cases (ltb limit (total + size x) && ltb 0 n)) [
        | inl stop ↦ (
          0,
          record {
            result = ground (arith, stop);
            some_of = omega arith;
            within = ground (arith, stop, h);
            at_least = inr (ground (arith, stop));
            no_more = inr (ground (arith, stop));
          },
        )
        | inr go ↦
            let (k, r) = fit_from-Takes limit (total + size x) (suc n) xs (ground (arith, go, h)) in
            (
              suc k,
              rw (go) (record {
                result = omega (arith, r.result);
                some_of = omega (arith, r.some_of);
                within = elim r.within [ inl a ↦ inl a | inr b ↦ inr (omega (arith, b)) ];
                at_least = inr (omega (arith, r.result));
                no_more = elim r.no_more [
                  | inl a ↦ inl (omega (arith, a))
                  | inr b ↦ inr (omega (arith, b))
                ];
              }),
            )
      ]

  pub fit-IsLargest :
      (items : List T) (limit : ℕ) (from_end : Bool)
      → IsLargest limit (if from_end then reverse items else items) (fit items limit from_end size)
  unfolding fit
  fit-IsLargest items limit from_end =
      let ordered = if from_end then reverse items else items in
      let (k, r) = fit_from-Takes limit 0 0 ordered (inl (omega arith)) in
      let n = fit_from size limit 0 0 ordered in
      let e : k ≡ n = omega (arith, r.result) in
      subst (IsLargest limit ordered) e (record {
        some_of = r.some_of;
        within = elim r.within [
          | inl a ↦ inl (omega (arith, a, e))
          | inr b ↦ inr (omega (arith, b))
        ];
        at_least = elim r.at_least [ inl a ↦ inl a | inr b ↦ inr (omega (arith, b, e)) ];
        no_more = elim r.no_more [ inl a ↦ inl a | inr b ↦ inr (omega (arith, b)) ];
      })

-- What is kept of a list, from one of its ends, and how many are left out.
abbrev pub Kept : {T : Type 0} → List T → Bool → List T → ℕ → Type 0
Kept {T} items newest kept omitted =
    (rest : List T) × (length rest ≡ omitted)
    × (items ≡ (if newest then rest ++ kept else kept ++ rest))

keep_fit-Kept :
    {T : Type 0} (items : List T) (k : ℕ) (newest : Bool)
    → k ≤ length items
    → Kept items newest (keep_fit items k newest).0 (keep_fit items k newest).1
unfolding keep_fit
keep_fit-Kept items k true h = (
  take (length items - k) items,
  omega (arith, length-take (length items - k) items),
  sym (take-append-drop (length items - k) items),
)
keep_fit-Kept items k false h = (drop k items, length-drop k items, sym (take-append-drop k items))

-- The bytes of a result: 512 KiB, and 4 for each token of a budget.
pub limit_of : ℕ → ℕ
limit_of budget = if ltb 0 budget then min 524288 (budget * 4) else 524288

-- What an event's text of more than 1000 characters becomes: its first 1000, and the event says so.
abbrev pub IsCut : Event → Event → Type 0
IsCut e cut =
    ((count e.text ≤ 1000) × (cut ≡ e))
    ⊎ ((1000 < count e.text)
        × (start : String) × (rest : String) × (e.text ≡ concat start rest)
        × (count start ≡ 1000)
        × (cut ≡ record e { text = start; truncated = true }))

take_chars-Begins :
    (n : ℕ) (s : String)
    → n ≤ count s
    → (rest : String) × (s ≡ concat (take_chars n s) rest) × (count (take_chars n s) ≡ n)
unfolding take_chars
take_chars-Begins zero s h = (s, sym (Append.nil s), Count.nil)
take_chars-Begins (suc n) String.[] h = absurd (omega (arith, h, Count.nil))
take_chars-Begins (suc n) (String.◌∷◌ c s) h =
    let (rest, same, long) = take_chars-Begins n s (omega (arith, h, Count.cons c s)) in
    (
      rest,
      ap (λ t. String.◌∷◌ c t) same ∙ sym (Append.cons c (take_chars n s) rest),
      Count.cons c (take_chars n s) ∙ ap suc long,
    )

cut_event-IsCut : (e : Event) → IsCut e (cut_event e)
unfolding cut_event
cut_event-IsCut e = elim (Bool-cases (ltb event_text_limit (count e.text))) [
  | inl long ↦
      let (rest, same, first) = take_chars-Begins event_text_limit e.text (ground (arith, long)) in
      inr (
        ground (arith, long),
        take_chars event_text_limit e.text,
        rest,
        same,
        first,
        rw (long, cut_event) refl,
      )
  | inr short ↦ inl (ground (arith, short), rw (short, cut_event) refl)
]

-- The events of a result are those of the query at the end that was asked for, each with its text cut
-- to 1000 characters, the others counted; their size is within 512 KiB and 4 bytes for each token of
-- the budget, or they are one event; and one event more would not be.
pub shape_events-IsLargest :
    (json_size : Event → ℕ) (events : List Event) (budget : ℕ) (newest : Bool)
    → let r = shape_events json_size events budget newest in
      let out = map cut_event events in
      let ordered = if newest then reverse out else out in
      Kept out newest r.0 r.1
      × IsLargest json_size (limit_of budget) ordered (length out - r.1)
      × ((e : Event) → IsCut e (cut_event e))
unfolding shape_events limit_of keep_fit
shape_events-IsLargest json_size events budget newest =
    let out = map cut_event events in
    let largest = fit-IsLargest json_size out (limit_of budget) newest in
    let few : fit out (limit_of budget) newest json_size ≤ length out =
      fewer out newest largest.some_of in
    (
      keep_fit-Kept out (fit out (limit_of budget) newest json_size) newest few,
      subst (IsLargest json_size (limit_of budget) (if newest then reverse out else out))
          (omega (arith, few)) largest,
      cut_event-IsCut,
    )
  where
    fewer :
        {k : ℕ} (out : List Event) (newest : Bool)
        → k ≤ length (if newest then reverse out else out)
        → k ≤ length out
    fewer out true h = omega (arith, h, length-reverse out)
    fewer out false h = h
