-- ===== src/Claims/Tests.antt =====
-- Claims taken and refused, and the theorem on claims there.
use eyedebugger.Prelude.{◌≡◌, refl, String, Bool, false, some, List, [], ◌∷◌, length}
use eyedebugger.Claims.{
  Target, process, launch, ClaimKey, same_target, same_claim, insert, conflicts, found, first_live,
  release, take_turn,
}
use eyedebugger.Claims.Exclusive.{
  ClaimStep, takes, releases, claim_step, claim_steps, IsExclusive, claim_steps-IsExclusive,
}

abbrev key_of : Target → ClaimKey
key_of t = record { container = "c1"; target = t }

abbrev nobody_ended : String → Bool
nobody_ended s = false

abbrev history : List ClaimStep
history =
    takes nobody_ended "s-1" (key_of (process 7))
    ∷ takes nobody_ended "s-2" (key_of (process 8))
    ∷ takes nobody_ended "s-3" (key_of launch)
    ∷ releases "s-1" (some (key_of (process 7)))
    ∷ []

left : length (claim_steps [] history) ≡ 1
unfolding claim_steps claim_step take_turn found conflicts same_target first_live insert same_claim
    release
left = refl

claim_steps-IsExclusive_example : IsExclusive (claim_steps [] history)
claim_steps-IsExclusive_example = claim_steps-IsExclusive [] history tt
