-- ===== src/EventLog/Asked.antt =====
-- What a query asks for: the kinds, the limit, and the seq that it starts at.
use eyedebugger.Prelude.{
  ℕ, zero, suc, ◌≤◌, ◌<◌, ◌≡◌, ◌⊎◌, ◌↔◌, refl, sym, true, inl, inr, List, [], ◌∷◌, arith,
  Bool-cases, str_eq, any, eq_iff,
}
use eyedebugger.Api.{ℤ, pos, negsuc, Event, EventKind}
use eyedebugger.EventLog.{EventLog, event_limit, since_of, matches}

abbrev Named : EventKind → List EventKind → Type 0
Named k [] = ⊥
Named k (j ∷ ks) = (k ≡ j) ⊎ Named k ks

any-Named : (k : EventKind) (ks : List EventKind) → (any (λ j. str_eq j k) ks ≡ true) ↔ Named k ks
any-Named k [] = ((λ h. ground (arith, h)), λ h. absurd h)
any-Named k (j ∷ ks) = (
  (λ h. elim (Bool-cases (str_eq j k)) [
    | inl same ↦ inl (sym ((eq_iff j k).0 same))
    | inr other ↦ inr ((any-Named k ks).0 (ground (arith, h, other)))
  ]),
  λ h. elim h [
    | inl same ↦ ground (arith, (eq_iff j k).1 (sym same))
    | inr later ↦ ground (arith, (any-Named k ks).1 later)
  ],
)

-- The kind is one of those asked for, where any is.
abbrev pub IsOfKind : EventKind → List EventKind → Type 0
IsOfKind k kinds = (kinds ≡ []) ⊎ Named k kinds

pub matches-IsOfKind :
    (kinds : List EventKind) (e : Event) → (matches kinds e ≡ true) ↔ IsOfKind e.kind kinds
unfolding matches
matches-IsOfKind [] e = ((λ h. inl refl), λ h. refl)
matches-IsOfKind (k ∷ ks) e = (
  (λ h. inr ((any-Named e.kind (k ∷ ks)).0 h)),
  λ h. elim h [
    | inl nothing ↦ absurd (ground (arith, nothing))
    | inr named ↦ (any-Named e.kind (k ∷ ks)).1 named
  ],
)

-- How many events are returned at most: as many as asked for, 1000 at most, and 100 where nothing is asked.
abbrev pub IsLimit : ℤ → ℕ → Type 0
IsLimit (negsuc n) m = m ≡ 100
IsLimit (pos zero) m = m ≡ 100
IsLimit (pos (suc n)) m = ((suc n ≤ 1000) × (m ≡ suc n)) ⊎ ((1000 < suc n) × (m ≡ 1000))

pub event_limit-IsLimit : (n : ℤ) → IsLimit n (event_limit n)
unfolding event_limit
event_limit-IsLimit (negsuc n) = refl
event_limit-IsLimit (pos zero) = refl
event_limit-IsLimit (pos (suc n)) = ground arith

-- Where a query starts: at the seq asked for, and below 0 at the newest.
abbrev pub IsSince : EventLog → ℤ → ℕ → Type 0
IsSince l (negsuc n) c = c ≡ l.seq
IsSince l (pos n) c = c ≡ n

pub since_of-IsSince : (l : EventLog) (n : ℤ) → IsSince l n (since_of l n)
unfolding since_of
since_of-IsSince l (negsuc n) = refl
since_of-IsSince l (pos n) = refl
