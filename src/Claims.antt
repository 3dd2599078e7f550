-- ===== src/Claims.antt =====
-- internal/session/claims.go: which live session debugs which process of which container. A key's
-- text, "ID/PID" or "ID/launch", is its two parts: a container id has no slash.
pub mod Exclusive
mod Tests
use eyedebugger.Prelude.{
  ℕ, String, Bool, true, false, not, ◌&&◌, ◌||◌, Option, none, some, List, [], ◌∷◌, ◌++◌, ◌==◌, any,
  keep, str_eq, if◌then◌else◌,
}

-- `claimKey` and `launchClaimKey`: a process of a container, or the whole container.
pub data Target : Type 0 where
  process : ℕ → Target
  launch : Target

pub record ClaimKey : Type 0 where
  pub container : String
  pub target : Target

pub same_target : Target → Target → Bool
same_target (process p) (process q) = p == q
same_target (process p) launch = false
same_target launch (process q) = false
same_target launch launch = true

pub same_claim : ClaimKey → ClaimKey → Bool
unfolding same_target
same_claim j k = str_eq j.container k.container && same_target j.target k.target

-- The map `claims`: each key's session.
pub record Claim : Type 0 where
  pub key : ClaimKey
  pub holder : String

-- `m.claims[key] = s`.
pub insert : ClaimKey → String → List Claim → List Claim
unfolding same_claim
insert key s [] = record { key = key; holder = s } ∷ []
insert key s (c ∷ cs) =
    if same_claim c.key key then record { key = key; holder = s } ∷ cs else c ∷ insert key s cs

-- The matcher that `claim` gives to `take` for a process, and `claimLaunch` for a launch.
pub conflicts : Target → Target → Bool
unfolding same_target
conflicts (process p) t = same_target t (process p) || same_target t launch
conflicts launch t = true

-- The claims that `take` finds in its way.
pub found : ClaimKey → List Claim → List Claim
unfolding conflicts
found key cs =
    keep (λ (c : Claim). str_eq c.key.container key.container && conflicts key.target c.key.target)
      cs

-- The deletion of the claims that were found, where they still have their holders.
pub drop_found : List Claim → List Claim → List Claim
unfolding same_claim
drop_found gone cs =
    keep
      (λ (c : Claim).
        not (any (λ (g : Claim). same_claim c.key g.key && str_eq c.holder g.holder) gone))
      cs

-- What one turn of the loop of `take` ends with.
pub data Taken : Type 0 where
  taken : List Claim → Taken
  refused : Claim → Taken
  again : List Claim → Taken

-- The first claim whose holder is live.
pub first_live : (String → Bool) → List Claim → Option Claim
first_live exited [] = none
first_live exited (c ∷ cs) =
    let rest = first_live exited cs in if not (exited c.holder) then some c else rest

-- One turn of `take`, by `now`, what has ended when the holders are looked at, and `later`, the
-- claims there when the lock is taken again.
pub take_turn : (String → Bool) → String → ClaimKey → List Claim → (List Claim → List Claim) → Taken
unfolding insert found drop_found first_live
take_turn exited s key cs later = elim (found key cs) [
  | [] ↦ taken (insert key s cs)
  | g ∷ gs ↦ elim (first_live exited (g ∷ gs)) [
    | some c ↦ refused c
    | none ↦ again (drop_found (g ∷ gs) (later cs))
  ]
]

-- `release`.
pub release : String → Option ClaimKey → List Claim → List Claim
unfolding same_claim
release s none cs = cs
release s (some key) cs = keep (λ (c : Claim). not (same_claim c.key key && str_eq c.holder s)) cs
