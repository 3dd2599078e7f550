-- ===== src/Breakpoints/Removal.antt =====
-- Removing a breakpoint by its id, or all of a client's.
use eyedebugger.Prelude.{
  ℕ, zero, suc, ◌+◌, ◌≡◌, inl, inr, refl, sym, ◌∙◌, ap, subst, ◌≢◌, String, Bool, true, false, not,
  ◌&&◌, ◌||◌, none, some, List, [], ◌∷◌, ◌==◌, keep, length, str_eq, arith, Bool-cases,
  Option-cases,
}
use eyedebugger.Api.{Breakpoint}
use eyedebugger.Session.{Session, invalid_request, not_owner, Result, ok, err}
use eyedebugger.Presence.{take_out}
use eyedebugger.Presence.Cleanup.{breakpoints, take_out-splits}
use eyedebugger.Breakpoints.{find_id, remove_breakpoint}
use eyedebugger.Breakpoints.Numbered.{times}
use eyedebugger.Breakpoints.Steps.{IsNumbered}

find_id-none : (id : ℕ) (bs : List Breakpoint) → find_id id bs ≡ none → times id bs ≡ 0
unfolding find_id
find_id-none id [] e = refl
find_id-none id (b ∷ bs) e = elim (Bool-cases (b.id == id)) [
  | inl same ↦ absurd (ground (arith, e, same))
  | inr other ↦ ground (arith, other, find_id-none id bs (ground (arith, e, other)))
]

keep_absent :
    (id : ℕ) (bs : List Breakpoint) → times id bs ≡ 0 → keep (λ b. not (b.id == id)) bs ≡ bs
keep_absent id [] h = refl
keep_absent id (b ∷ bs) h = ground (arith, h, keep_absent id bs (ground (arith, h)))

select_absent : (id : ℕ) (bs : List Breakpoint) → times id bs ≡ 0 → keep (λ b. b.id == id) bs ≡ []
select_absent id [] h = refl
select_absent id (b ∷ bs) h = ground (arith, h, select_absent id bs (ground (arith, h)))

find_id-times :
    (id : ℕ) (bs : List Breakpoint) (b : Breakpoint) → find_id id bs ≡ some b → times id bs ≢ 0
unfolding find_id
find_id-times id [] b e h = ground (arith, e)
find_id-times id (c ∷ cs) b e h = elim (Bool-cases (c.id == id)) [
  | inl same ↦ ground (arith, h, same)
  | inr other ↦ find_id-times id cs b (ground (arith, e, other)) (ground (arith, h, other))
]

-- The breakpoint found is the only one of its id.
record Found (id : ℕ) (bs : List Breakpoint) (b : Breakpoint) : Type 0 where
  same : b.id ≡ id
  selected : keep (λ c. c.id == id) bs ≡ b ∷ []
  others :
      (other : Breakpoint → Bool)
      → other b ≡ false
      → keep other (keep (λ c. not (c.id == id)) bs) ≡ keep other bs

find_id-Found :
    (id : ℕ) (bs : List Breakpoint) (b : Breakpoint)
    → find_id id bs ≡ some b
    → times id bs ≡ 1
    → Found id bs b
unfolding find_id
find_id-Found id [] b e u = absurd (ground (arith, e))
find_id-Found id (c ∷ cs) b e u = elim (Bool-cases (c.id == id)) [
  | inl same ↦
      let first : c ≡ b = ground (arith, e, same) in
      let rest : times id cs ≡ 0 = ground (arith, u, same) in
      subst (λ d. Found id (c ∷ cs) d) first
        (record {
          same = ground (arith, same);
          selected = ground (arith, same, select_absent id cs rest);
          others = λ other h. ground (arith, same, h, keep_absent id cs rest);
        })
  | inr different ↦
      let rest =
        find_id-Found id cs b (ground (arith, e, different)) (ground (arith, u, different)) in
      record {
        same = rest.same;
        selected = ground (arith, different, rest.selected);
        others = λ other h. ground (arith, different, rest.others other h);
      }
]

found_once :
    (s : Session) (id : ℕ) (b : Breakpoint)
    → find_id (suc id) (breakpoints s.bps) ≡ some b
    → IsNumbered s
    → times (suc id) (breakpoints s.bps) ≡ 1
found_once s id b e v = elim (v (suc id)) [
  | inl gone ↦ absurd (find_id-times (suc id) (breakpoints s.bps) b e gone)
  | inr (one, low, high) ↦ one
]

-- What a removal by id comes to: the id is no breakpoint's, or it is another client's and the removal
-- is not forced, or that breakpoint alone is removed.
pub data Outcome (s : Session) (client : String) (id : ℕ) (force : Bool)
    : Session × Result (ℕ × ℕ) → Type 0 where
  absent : times id (breakpoints s.bps) ≡ 0 → Outcome s client id force (s, err invalid_request)
  refused :
      (b : Breakpoint)
      → b.id ≡ id
      → str_eq b.owner client ≡ false
      → force ≡ false
      → Outcome s client id force (s, err (not_owner b.owner))
  removed :
      (t : Session) (b : Breakpoint)
      → b.id ≡ id
      → (str_eq b.owner client || force) ≡ true
      → breakpoints t.bps ≡ keep (λ c. not (c.id == id)) (breakpoints s.bps)
      → length (breakpoints s.bps) ≡ suc (length (breakpoints t.bps))
      → Outcome s client id force (t, ok (1, 0))

length_split :
    (p : Breakpoint → Bool) (bs : List Breakpoint)
    → length bs ≡ length (keep p bs) + length (keep (λ b. not (p b)) bs)
length_split p [] = omega arith
length_split p (b ∷ bs) = ground (arith, length_split p bs)

module _ (s : Session) (client : String) (id : ℕ) (force : Bool) where
  unknown :
      find_id (suc id) (breakpoints s.bps) ≡ none
      → remove_breakpoint s client (suc id) force ≡ (s, err invalid_request)
  unfolding remove_breakpoint
  unknown e = ground (arith, e)

  not_allowed :
      (b : Breakpoint)
      → find_id (suc id) (breakpoints s.bps) ≡ some b
      → (str_eq b.owner client || force) ≡ false
      → remove_breakpoint s client (suc id) force ≡ (s, err (not_owner b.owner))
  unfolding remove_breakpoint
  not_allowed b e h = ground (arith, e, h)

  allowed :
      (b : Breakpoint)
      → find_id (suc id) (breakpoints s.bps) ≡ some b
      → (str_eq b.owner client || force) ≡ true
      → let r = take_out s (λ (c : Breakpoint). c.id == b.id) in
        remove_breakpoint s client (suc id) force ≡ (r.0, ok (length r.1, 0))
  unfolding remove_breakpoint
  allowed b e h = ground (arith, e, h)

-- Removing a breakpoint by its id fails and changes nothing if no breakpoint has the id, or if it is
-- another client's and the removal is not forced; else exactly that breakpoint goes, and one is
-- counted. The session's ids are numbered.
pub remove_breakpoint-Outcome :
    (s : Session) (client : String) (id : ℕ) (force : Bool)
    → IsNumbered s
    → Outcome s client (suc id) force (remove_breakpoint s client (suc id) force)
remove_breakpoint-Outcome s client id force v =
    let bs = breakpoints s.bps in
    elim (Option-cases (find_id (suc id) bs)) [
      | inl e ↦
          subst (Outcome s client (suc id) force) (sym (unknown s client id force e))
            (absent (find_id-none (suc id) bs e))
      | inr (b, e) ↦
          let one = found_once s id b e v in
          let found = find_id-Found (suc id) bs b e one in
          elim (Bool-cases (str_eq b.owner client || force)) [
            | inr other ↦
                subst (Outcome s client (suc id) force)
                  (sym (not_allowed s client id force b e other))
                  (refused b found.same (ground (arith, other)) (ground (arith, other)))
            | inl own ↦
                let r = take_out s (λ (c : Breakpoint). c.id == suc id) in
                let (gone, left) = take_out-splits s (λ (c : Breakpoint). c.id == suc id) in
                let result : remove_breakpoint s client (suc id) force ≡ (r.0, ok (length r.1, 0)) =
                  subst
                    (λ j. remove_breakpoint s client (suc id) force ≡ (
                      (take_out s (λ (c : Breakpoint). c.id == j)).0,
                      ok (length (take_out s (λ (c : Breakpoint). c.id == j)).1, 0),
                    ))
                    found.same (allowed s client id force b e own) in
                let one_gone : length r.1 ≡ 1 = ap length gone ∙ ap length found.selected in
                subst (Outcome s client (suc id) force)
                  (sym (result ∙ ap (λ n. (r.0, ok (n, 0))) one_gone))
                  (removed r.0 b found.same own left (
                    omega (
                      arith,
                      length_split (λ c. c.id == suc id) bs,
                      ap length found.selected,
                      ap length left,
                    )))
          ]
    ]

keep_twice :
    (p q : Breakpoint → Bool)
    → ((b : Breakpoint) → (p b && not (q b)) ≡ false)
    → (bs : List Breakpoint) → keep p (keep q bs) ≡ keep p bs
keep_twice p q h [] = refl
keep_twice p q h (b ∷ bs) = ground (arith, h b, keep_twice p q h bs)

-- A removal that is not forced, by id or of all, leaves every other client's breakpoints as they are,
-- in order. The session's ids are numbered.
pub remove_breakpoint-others :
    (s : Session) (client : String) (id : ℕ)
    → IsNumbered s
    → let other = λ (b : Breakpoint). not (str_eq b.owner client) in
      keep other (breakpoints (remove_breakpoint s client id false).0.bps)
      ≡ keep other (breakpoints s.bps)
unfolding remove_breakpoint
remove_breakpoint-others s client zero v =
    let other = λ (b : Breakpoint). not (str_eq b.owner client) in
    let mine = λ (b : Breakpoint). false || str_eq b.owner client in
    ap (keep other) (take_out-splits s mine).1
    ∙ keep_twice other (λ b. not (mine b)) (λ b. ground arith) (breakpoints s.bps)
remove_breakpoint-others s client (suc id) v =
    let bs = breakpoints s.bps in
    let other = λ (b : Breakpoint). not (str_eq b.owner client) in
    elim (Option-cases (find_id (suc id) bs)) [
      | inl e ↦ rw (unknown s client id false e) refl
      | inr (b, e) ↦ elim (Bool-cases (str_eq b.owner client || false)) [
        | inr theirs ↦ rw (not_allowed s client id false b e theirs) refl
        | inl own ↦
            let found = find_id-Found (suc id) bs b e (found_once s id b e v) in
            let left = (take_out-splits s (λ (c : Breakpoint). c.id == b.id)).1 in
            rw (allowed s client id false b e own) (
              ap (keep other) left
              ∙ ap (λ j. keep other (keep (λ (c : Breakpoint). not (c.id == j)) bs)) found.same
              ∙ found.others other (ground (arith, own)))
      ]
    ]
