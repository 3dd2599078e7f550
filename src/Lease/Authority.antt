-- ===== src/Lease/Authority.antt =====
-- Who can move the lease, and what is logged of it.
use eyedebugger.Prelude.{
  ℕ, ◌≡◌, ◌∙◌, ◌≢◌, refl, String, Bool, true, false, ◌⊎◌, inl, inr, List, [], ◌∷◌, arith, eq_iff,
  All,
}
use eyedebugger.Api.{Client, nobody, is_human, lease_free, lease_handoff, lease_human_priority}
use eyedebugger.Session.{Session, Lease}
use eyedebugger.Lease.{
  LeaseCall, takes, releases, grants, sets_policy, acquires, requests, drops, call, calls,
  take_lease, release_lease, grant_to, set_policy, acquire, request_lease, requested, drop_request,
  set_holder, moved, allows, policy_allows,
}
use eyedebugger.Lease.Cases.{grant_cases, policy_cases}

-- The client that makes a call; `dropRequestLocked` has none.
abbrev pub caller : LeaseCall → Client
caller (takes c force) = c
caller (releases c) = c
caller (grants c to force) = c
caller (sets_policy c policy force) = c
caller (acquires c) = c
caller (requests c message) = c
caller (drops id) = nobody

-- Whether the call says `--force`.
abbrev pub is_forced : LeaseCall → Bool
is_forced (takes c force) = force
is_forced (grants c to force) = force
is_forced (sets_policy c policy force) = force
is_forced _ = false

-- Whether the call asks for the lease for its caller.
abbrev pub is_for_self : LeaseCall → Bool
is_for_self (takes c force) = true
is_for_self (acquires c) = true
is_for_self _ = false

-- What entitles a call to move the lease.
abbrev pub Entitled : Session → LeaseCall → Type 0
Entitled s c =
    (s.lease.holder.id ≡ "")
    ⊎ (s.lease.holder.id ≡ (caller c).id)
    ⊎ (is_forced c ≡ true)
    ⊎ ((is_for_self c ≡ true) × (s.lease.policy ≡ lease_free))
    ⊎ ((is_for_self c ≡ true)
        × (s.lease.policy ≡ lease_human_priority)
        × (is_human (caller c) ≡ true)
        × (is_human s.lease.holder ≡ false))

-- What `allows` grants without force to a call for oneself.
policy_allows-Entitled :
    (l : Lease) (c : Client)
    → policy_allows l c ≡ true
    → (l.policy ≡ lease_free)
      ⊎ ((l.policy ≡ lease_human_priority) × (is_human c ≡ true) × (is_human l.holder ≡ false))
unfolding policy_allows
policy_allows-Entitled l c h = ground (
  arith,
  eq_iff l.policy lease_free,
  eq_iff l.policy lease_handoff,
  eq_iff l.policy lease_human_priority,
)

-- Of the calls to the lease, one moves it to another holder only if it is a call of the holder, comes
-- while nobody holds the lease, is by force, or is a call for oneself under the free policy, or of a
-- human against an agent under human-priority. That the holder's last connection closes is no call.
pub call-Entitled :
    (s : Session) (now : ℕ) (c : LeaseCall)
    → (call s now c).lease.holder.id ≢ s.lease.holder.id
    → Entitled s c
unfolding call
call-Entitled s now (takes c force) = λ h.
    unfold take_lease allows in
    ground (
      arith,
      h,
      policy_allows-Entitled s.lease c,
      eq_iff s.lease.holder.id c.id,
      eq_iff s.lease.holder.id "",
    )
call-Entitled s now (releases c) =
    λ h. unfold release_lease in ground (arith, eq_iff s.lease.holder.id c.id)
call-Entitled s now (grants c to force) =
    grant_cases (λ r. r.0.lease.holder.id ≢ s.lease.holder.id → Entitled s (grants c to force)) s
      now c to force (λ h. absurd (h refl))
      (λ target _ h.
        unfold grant_to allows in
        ground (arith, h, eq_iff s.lease.holder.id c.id, eq_iff s.lease.holder.id ""))
call-Entitled s now (sets_policy c policy force) =
    policy_cases
      (λ r. r.0.lease.holder.id ≢ s.lease.holder.id → Entitled s (sets_policy c policy force)) s now
      c policy force (λ h. absurd (h refl)) (λ p _ h. unfold set_policy in ground (arith, h))
call-Entitled s now (acquires c) = λ h.
    unfold acquire allows in
    ground (
      arith,
      policy_allows-Entitled s.lease c,
      eq_iff s.lease.holder.id c.id,
      eq_iff s.lease.holder.id "",
    )
call-Entitled s now (requests c message) = λ h. unfold request_lease requested in ground arith
call-Entitled s now (drops id) = λ h. unfold drop_request in absurd (h refl)

-- The policy changes only by a call of the holder, while nobody holds the lease, or by force.
pub call-policy :
    (s : Session) (now : ℕ) (c : LeaseCall)
    → (call s now c).lease.policy ≢ s.lease.policy
    → (s.lease.holder.id ≡ "") ⊎ (s.lease.holder.id ≡ (caller c).id) ⊎ (is_forced c ≡ true)
unfolding call set_holder moved
call-policy s now (takes c force) = λ h. unfold take_lease in ground (arith, h)
call-policy s now (releases c) = λ h. unfold release_lease in ground (arith, h)
call-policy s now (grants c to force) =
    grant_cases
      (λ r.
        r.0.lease.policy ≢ s.lease.policy
        → (s.lease.holder.id ≡ "") ⊎ (s.lease.holder.id ≡ c.id) ⊎ (force ≡ true))
      s now c to force (λ h. absurd (h refl)) (λ target _ h. unfold grant_to in ground (arith, h))
call-policy s now (sets_policy c policy force) =
    policy_cases
      (λ r.
        r.0.lease.policy ≢ s.lease.policy
        → (s.lease.holder.id ≡ "") ⊎ (s.lease.holder.id ≡ c.id) ⊎ (force ≡ true))
      s now c policy force (λ h. absurd (h refl))
      (λ p _ h.
        unfold set_policy allows in
        ground (arith, h, eq_iff s.lease.holder.id c.id, eq_iff s.lease.holder.id ""))
call-policy s now (acquires c) = λ h. unfold acquire in ground (arith, h)
call-policy s now (requests c message) = λ h. unfold request_lease requested in ground (arith, h)
call-policy s now (drops id) = λ h. unfold drop_request in absurd (h refl)

-- A call without force of a client other than `holder`.
abbrev pub Outside : String → ℕ × LeaseCall → Type 0
Outside holder c = (is_forced c.1 ≡ false) × ((caller c.1).id ≢ holder)

text_cases : (a b : String) → (a ≡ b) ⊎ (a ≢ b)
text_cases a b = ground (arith, eq_iff a b)

call_handoff :
    (s : Session) (holder : String) (now : ℕ) (c : LeaseCall)
    → holder ≢ ""
    → s.lease.policy ≡ lease_handoff
    → s.lease.holder.id ≡ holder
    → Outside holder (now, c)
    → ((call s now c).lease.policy ≡ lease_handoff) × ((call s now c).lease.holder.id ≡ holder)
call_handoff s holder now c held p h out = (same_policy, same_holder)
  where
    same_policy : (call s now c).lease.policy ≡ lease_handoff
    same_policy = elim (text_cases (call s now c).lease.policy s.lease.policy) [
      | inl e ↦ e ∙ p
      | inr ne ↦ ground (arith, call-policy s now c ne)
    ]

    same_holder : (call s now c).lease.holder.id ≡ holder
    same_holder = elim (text_cases (call s now c).lease.holder.id s.lease.holder.id) [
      | inl e ↦ e ∙ h
      | inr ne ↦ ground (
        arith,
        call-Entitled s now c ne,
        eq_iff lease_handoff lease_free,
        eq_iff lease_handoff lease_human_priority,
      )
    ]

-- Under the handoff policy the holder keeps the lease, and the policy stays, whatever the other
-- clients call in whatever order, as long as none of them uses force.
pub calls_handoff :
    (s : Session) (holder : String) (cs : List (ℕ × LeaseCall))
    → holder ≢ ""
    → s.lease.policy ≡ lease_handoff
    → s.lease.holder.id ≡ holder
    → All (Outside holder) cs
    → ((calls s cs).lease.policy ≡ lease_handoff) × ((calls s cs).lease.holder.id ≡ holder)
unfolding calls
calls_handoff s holder [] held p h out = (p, h)
calls_handoff s holder ((now, c) ∷ cs) held p h out =
    let step = call_handoff s holder now c held p h out.0 in
    calls_handoff (call s now c) holder cs held step.0 step.1 out.1
