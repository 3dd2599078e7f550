-- ===== src/Claims/Exclusive.antt =====
-- No two sessions debug one process, or a launched container and a process in it (`take`, `release`).
use eyedebugger.Prelude.{
  ◌≡◌, refl, String, Bool, true, false, ◌&&◌, Option, none, some, List, [], ◌∷◌, ◌++◌, keep, str_eq,
  eq_iff, arith, Bool-cases, List-cases, Option-cases, inl, inr, All, All-keep, All-append, ◌≢◌,
  ◌⊎◌,
}
use eyedebugger.Claims.{
  Target, process, launch, ClaimKey, Claim, same_target, same_claim, insert, conflicts, found,
  drop_found, first_live, release, taken, refused, again, take_turn,
}

-- Whether two claims exclude each other: one container, and one process or a launch.
abbrev clash : ClaimKey → ClaimKey → Bool
clash j k = str_eq j.container k.container && conflicts j.target k.target

-- No two claims exclude each other.
abbrev IsClear : List Claim → Type 0
IsClear [] = Unit
IsClear (c ∷ cs) = All (λ (d : Claim). clash c.key d.key ≡ false) cs × IsClear cs

-- What the sessions of a manager do to the claims under its lock, in any order: `take`'s check and
-- insertion, its taking over of ended claims, and `release`.
pub data ClaimStep : Type 0 where
  takes : (String → Bool) → String → ClaimKey → ClaimStep
  takes_over : List Claim → ClaimStep
  releases : String → Option ClaimKey → ClaimStep

unfoldable pub claim_step : List Claim → ClaimStep → List Claim
claim_step cs (takes exited s key) = elim (take_turn exited s key cs (λ later. later)) [
  | taken ds ↦ ds
  | refused c ↦ cs
  | again ds ↦ cs
]
claim_step cs (takes_over gone) = drop_found gone cs
claim_step cs (releases s key) = release s key cs

unfoldable pub claim_steps : List Claim → List ClaimStep → List Claim
unfolding claim_step
claim_steps cs [] = cs
claim_steps cs (step ∷ steps) = claim_steps (claim_step cs step) steps

keep-IsClear : (p : Claim → Bool) (cs : List Claim) → IsClear cs → IsClear (keep p cs)
keep-IsClear p [] h = tt
keep-IsClear p (c ∷ cs) (h, hs) = elim (Bool-cases (p c)) [
  | inl stays ↦
      rw (stays) (All-keep (λ (d : Claim). clash c.key d.key ≡ false) p cs h, keep-IsClear p cs hs)
  | inr goes ↦ rw (goes) (keep-IsClear p cs hs)
]

conflicts-sym : (t u : Target) → conflicts t u ≡ conflicts u t
unfolding conflicts same_target
conflicts-sym (process p) (process q) = ground arith
conflicts-sym (process p) launch = refl
conflicts-sym launch (process q) = refl
conflicts-sym launch launch = refl

same_target-conflicts : (t u : Target) → same_target t u ≡ true → conflicts u t ≡ true
unfolding conflicts same_target
same_target-conflicts (process p) (process q) h = ground (arith, h)
same_target-conflicts (process p) launch h = absurd (ground (arith, h))
same_target-conflicts launch (process q) h = absurd (ground (arith, h))
same_target-conflicts launch launch h = refl

clash-sym : (j k : ClaimKey) → clash j k ≡ clash k j
clash-sym j k = ground (
  arith,
  conflicts-sym j.target k.target,
  eq_iff j.container k.container,
  eq_iff k.container j.container,
)

same_claim-clash : (j k : ClaimKey) → same_claim j k ≡ true → clash j k ≡ true
unfolding same_claim
same_claim-clash j k h =
    ground (arith, h, same_target-conflicts j.target k.target, conflicts-sym j.target k.target)

-- Where nothing is in its way, a new claim is inserted at the end, and excludes none.
found-clear :
    (key : ClaimKey) (cs : List Claim)
    → found key cs ≡ []
    → All (λ (c : Claim). clash c.key key ≡ false) cs
unfolding found
found-clear key [] h = tt
found-clear key (c ∷ cs) h =
    elim (Bool-cases (str_eq c.key.container key.container && conflicts key.target c.key.target)) [
      | inl way ↦ absurd (blocked way h)
      | inr clear ↦ (
        ground (arith, clear, conflicts-sym c.key.target key.target),
        found-clear key cs (passed clear h),
      )
    ]
  where
    blocked :
        (str_eq c.key.container key.container && conflicts key.target c.key.target) ≡ true
        → found key (c ∷ cs) ≢ []
    blocked way = unfold found in rw (way) (λ e. ground (arith, e))

    passed :
        (str_eq c.key.container key.container && conflicts key.target c.key.target) ≡ false
        → found key (c ∷ cs) ≡ []
        → found key cs ≡ []
    passed clear = unfold found in rw (clear) (λ e. e)

insert-end :
    (key : ClaimKey) (s : String) (cs : List Claim)
    → All (λ (c : Claim). clash c.key key ≡ false) cs
    → insert key s cs ≡ cs ++ record { key = key; holder = s } ∷ []
unfolding insert
insert-end key s [] h = refl
insert-end key s (c ∷ cs) (h, hs) =
    ground (arith, h, same_claim-clash c.key key, insert-end key s cs hs)

append-IsClear :
    (key : ClaimKey) (s : String) (cs : List Claim)
    → IsClear cs
    → All (λ (c : Claim). clash c.key key ≡ false) cs
    → IsClear (cs ++ record { key = key; holder = s } ∷ [])
append-IsClear key s [] v h = (tt, tt)
append-IsClear key s (c ∷ cs) (v, vs) (h, hs) = (
  All-append (λ (d : Claim). clash c.key d.key ≡ false) cs (record { key = key; holder = s } ∷ []) v
      (h, tt),
  append-IsClear key s cs vs hs,
)

take_turn-clear :
    (exited : String → Bool) (s : String) (key : ClaimKey) (cs : List Claim)
    (later : List Claim → List Claim)
    → found key cs ≡ []
    → take_turn exited s key cs later ≡ taken (insert key s cs)
unfolding take_turn
take_turn-clear exited s key cs later h = rw (h, take_turn)

take_turn-blocked :
    (exited : String → Bool) (s : String) (key : ClaimKey) (cs : List Claim)
    (later : List Claim → List Claim) (g : Claim) (gs : List Claim)
    → found key cs ≡ g ∷ gs
    → take_turn exited s key cs later ≡ elim (first_live exited (g ∷ gs)) [
      | some c ↦ refused c
      | none ↦ again (drop_found (g ∷ gs) (later cs))
    ]
unfolding take_turn
take_turn-blocked exited s key cs later g gs h = rw (h, take_turn)

claim_step-IsClear :
    (cs : List Claim) (step : ClaimStep) → IsClear cs → IsClear (claim_step cs step)
unfolding claim_step
claim_step-IsClear cs (takes_over gone) v = unfold drop_found in keep-IsClear _ cs v
claim_step-IsClear cs (releases s none) v = unfold release in v
claim_step-IsClear cs (releases s (some key)) v = unfold release in keep-IsClear _ cs v
claim_step-IsClear cs (takes exited s key) v = elim (List-cases (found key cs)) [
  | inl clear ↦
      let free = found-clear key cs clear in
      rw
        (
          take_turn-clear exited s key cs (λ later. later) clear,
          insert-end key s cs free,
          claim_step,
        )
        (append-IsClear key s cs v free)
  | inr (g, gs, way) ↦
      rw (take_turn-blocked exited s key cs (λ later. later) g gs way, claim_step)
        (elim (Option-cases (first_live exited (g ∷ gs))) [
          | inl ended ↦ rw (ended) v
          | inr (c, live) ↦ rw (live) v
        ])
]

claim_steps-IsClear :
    (cs : List Claim) (steps : List ClaimStep) → IsClear cs → IsClear (claim_steps cs steps)
unfolding claim_steps
claim_steps-IsClear cs [] v = v
claim_steps-IsClear cs (step ∷ steps) v =
    claim_steps-IsClear (claim_step cs step) steps (claim_step-IsClear cs step v)

-- Two processes, not one.
abbrev pub AreDistinct : Target → Target → Type 0
AreDistinct (process p) (process q) = p ≢ q
AreDistinct (process p) launch = ⊥
AreDistinct launch t = ⊥

-- Claims of different containers, or of distinct processes.
abbrev pub Apart : ClaimKey → ClaimKey → Type 0
Apart j k = (j.container ≢ k.container) ⊎ AreDistinct j.target k.target

-- Every two claims are of different containers, or of distinct processes.
abbrev pub IsExclusive : List Claim → Type 0
IsExclusive [] = Unit
IsExclusive (c ∷ cs) = All (λ (d : Claim). Apart c.key d.key) cs × IsExclusive cs

distinct-conflicts : (t u : Target) → AreDistinct t u → conflicts t u ≡ false
unfolding conflicts same_target
distinct-conflicts (process p) (process q) h = ground (arith, h)
distinct-conflicts (process p) launch h = absurd h
distinct-conflicts launch u h = absurd h

conflicts-distinct : (t u : Target) → conflicts t u ≡ false → AreDistinct t u
unfolding conflicts same_target
conflicts-distinct (process p) (process q) h = ground (arith, h)
conflicts-distinct (process p) launch h = absurd (ground (arith, h))
conflicts-distinct launch (process q) h = absurd (ground (arith, h))
conflicts-distinct launch launch h = absurd (ground (arith, h))

Apart-clash : (j k : ClaimKey) → Apart j k → clash j k ≡ false
Apart-clash j k (inl h) = ground (arith, h, eq_iff j.container k.container)
Apart-clash j k (inr h) = ground (arith, distinct-conflicts j.target k.target h)

clash-Apart : (j k : ClaimKey) → clash j k ≡ false → Apart j k
clash-Apart j k h = elim (Bool-cases (str_eq j.container k.container)) [
  | inl same ↦ inr (conflicts-distinct j.target k.target (ground (arith, h, same)))
  | inr other ↦ inl (ground (arith, other, eq_iff j.container k.container))
]

IsExclusive-IsClear : (cs : List Claim) → IsExclusive cs → IsClear cs
IsExclusive-IsClear [] v = tt
IsExclusive-IsClear (c ∷ cs) (h, v) = (every cs h, IsExclusive-IsClear cs v)
  where
    every :
        (ds : List Claim)
        → All (λ (d : Claim). Apart c.key d.key) ds
        → All (λ (d : Claim). clash c.key d.key ≡ false) ds
    every [] a = tt
    every (d ∷ ds) (a, b) = (Apart-clash c.key d.key a, every ds b)

IsClear-IsExclusive : (cs : List Claim) → IsClear cs → IsExclusive cs
IsClear-IsExclusive [] v = tt
IsClear-IsExclusive (c ∷ cs) (h, v) = (every cs h, IsClear-IsExclusive cs v)
  where
    every :
        (ds : List Claim)
        → All (λ (d : Claim). clash c.key d.key ≡ false) ds
        → All (λ (d : Claim). Apart c.key d.key) ds
    every [] a = tt
    every (d ∷ ds) (a, b) = (clash-Apart c.key d.key a, every ds b)

-- Whatever claims are taken, taken over and released, in any order, a container keeps either one
-- launch claim or claims of distinct processes, if it had such.
pub claim_steps-IsExclusive :
    (cs : List Claim) (steps : List ClaimStep) → IsExclusive cs → IsExclusive (claim_steps cs steps)
claim_steps-IsExclusive cs steps v =
    IsClear-IsExclusive (claim_steps cs steps)
      (claim_steps-IsClear cs steps (IsExclusive-IsClear cs v))
