-- ===== src/StopFilter/Messages/Hits/Held.antt =====
-- The hit conditions that the parser returns can hold.
use native.Mathlib.Nat.{mod_self}
use eyedebugger.Prelude.{
  ℕ, zero, suc, subst, ◌≤◌, ◌≡◌, true, some, List, [], ◌∷◌, ◌==◌, arith, Bool-cases, Option-cases,
  inl, inr,
}
use eyedebugger.StopFilter.{HitOp, only, from, every, HitCondition, holds}
use eyedebugger.StopFilter.Messages.{trim_space}
use eyedebugger.StopFilter.Messages.Hits.{max_int, digits, atoi, parse_hit, cut_op, digits_from}

digits-max_int : (cs : List ℕ) (n : ℕ) → digits cs ≡ some n → n ≤ max_int
unfolding digits
digits-max_int [] n h = absurd (ground (arith, h))
digits-max_int (c ∷ cs) n h = elim (Option-cases (digits_from 0 (c ∷ cs))) [
  | inl none_here ↦ ground (arith, h, none_here)
  | inr (m, found) ↦ ground (arith, h, found)
]

atoi-max_int : (cs : List ℕ) (n : ℕ) → atoi cs ≡ some n → n ≤ max_int
unfolding atoi
atoi-max_int [] n h = absurd (ground (arith, h))
atoi-max_int (c ∷ cs) n h = elim (Bool-cases (c == 43)) [
  | inl plus ↦ digits-max_int cs n (ground (arith, h, plus))
  | inr other ↦ digits-max_int (c ∷ cs) n (ground (arith, h, other))
]

holds-own : (op : HitOp) (n : ℕ) → holds (record { op = op; n = suc n }) (suc n) ≡ true
unfolding holds
holds-own only n = ground arith
holds-own from n = ground arith
holds-own every n = ground (arith, mod_self (suc n))

-- A hit condition that the parser returns has a count from 1 to the greatest int, and holds at the
-- hit of that count.
pub parse_hit-holds :
    (s : List ℕ) (h : HitCondition)
    → parse_hit s ≡ some h
    → (1 ≤ h.n) × (h.n ≤ max_int) × (holds h h.n ≡ true)
unfolding parse_hit
parse_hit-holds s h e = elim (Option-cases (atoi (cut_op (trim_space s)).1)) [
  | inl none_here ↦ absurd (ground (arith, e, none_here))
  | inr (zero, found) ↦ absurd (ground (arith, e, found))
  | inr (suc n, found) ↦
      let built : record { op = (cut_op (trim_space s)).0; n = suc n } ≡ h =
        ground (arith, e, found) in
      subst (λ h. (1 ≤ h.n) × (h.n ≤ max_int) × (holds h h.n ≡ true)) built
        (
          omega arith,
          atoi-max_int (cut_op (trim_space s)).1 (suc n) found,
          holds-own (cut_op (trim_space s)).0 n,
        )
]
