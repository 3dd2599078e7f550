-- ===== src/Breakpoints/Numbered.antt =====
-- The ids of a session's breakpoints, over any steps of breakpoints.go and replace.go.
use eyedebugger.Prelude.{
  ℕ, suc, ◌+◌, ◌≤◌, ◌≡◌, ◌⊎◌, inl, inr, refl, String, Bool, List, [], ◌∷◌, ◌++◌, ◌==◌, keep, str_eq,
  if◌then◌else◌, arith, Bool-cases,
}
use eyedebugger.Api.{Breakpoint}
use eyedebugger.Session.{Session}
use eyedebugger.Presence.Cleanup.{breakpoints}
use eyedebugger.Breakpoints.{append_at, write, write_all, insert}

-- How many of a list's breakpoints have an id.
abbrev pub times : ℕ → List Breakpoint → ℕ
times id [] = 0
times id (b ∷ bs) = let rest = times id bs in if b.id == id then suc rest else rest

-- An id is that of no breakpoint, or of one, and numbered from 1 so far.
abbrev pub Numbered : Session → ℕ → Type 0
Numbered s id =
    (times id (breakpoints s.bps) ≡ 0)
    ⊎ ((times id (breakpoints s.bps) ≡ 1) × (1 ≤ id) × (id ≤ s.next_bp))

pub times-append :
    (id : ℕ) (bs cs : List Breakpoint) → times id (bs ++ cs) ≡ times id bs + times id cs
times-append id [] cs = omega arith
times-append id (b ∷ bs) cs = ground (arith, times-append id bs cs)

pub times-keep-le :
    (id : ℕ) (p : Breakpoint → Bool) (bs : List Breakpoint) → times id (keep p bs) ≤ times id bs
times-keep-le id p [] = omega arith
times-keep-le id p (b ∷ bs) = ground (arith, times-keep-le id p bs)

times-append_at :
    (id : ℕ) (key : String) (b : Breakpoint) (bps : List (String × List Breakpoint))
    → times id (breakpoints (append_at key b bps)) ≡ times id (breakpoints bps) + times id (b ∷ [])
unfolding append_at
times-append_at id key b [] = ground arith
times-append_at id key b ((k, list) ∷ bps) = elim (Bool-cases (str_eq k key)) [
  | inl here ↦ rw (here) (
      omega (
        arith,
        times-append id list (b ∷ []),
        times-append id (list ++ b ∷ []) (breakpoints bps),
        times-append id list (breakpoints bps),
      ))
  | inr other ↦ rw (other) (
      omega (
        arith,
        times-append_at id key b bps,
        times-append id list (breakpoints (append_at key b bps)),
        times-append id list (breakpoints bps),
      ))
]

times-write : (id : ℕ) (b : Breakpoint) (bs : List Breakpoint) → times id (write b bs) ≡ times id bs
unfolding write
times-write id b [] = refl
times-write id b (c ∷ cs) = ground (arith, times-write id b cs)

pub times-write_all :
    (id : ℕ) (b : Breakpoint) (bps : List (String × List Breakpoint))
    → times id (breakpoints (write_all b bps)) ≡ times id (breakpoints bps)
unfolding write_all
times-write_all id b [] = refl
times-write_all id b ((k, list) ∷ bps) = omega (
  arith,
  times-append id (write b list) (breakpoints (write_all b bps)),
  times-append id list (breakpoints bps),
  times-write id b list,
  times-write_all id b bps,
)

pub insert-Numbered :
    (s : Session) (key : String) (b : Breakpoint)
    → b.id ≡ suc s.next_bp
    → (id : ℕ) → Numbered s id
    → Numbered s (suc s.next_bp)
    → Numbered (insert s key b) id
unfolding insert
insert-Numbered s key b h id v w = ground (arith, times-append_at id key b s.bps)
