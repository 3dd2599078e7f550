-- ===== src/Lease/Logged.antt =====
-- What a lease call answers, and what it leaves in the event log.
use eyedebugger.Prelude.{
  ℕ, ◌≡◌, ◌≢◌, refl, ap, subst, String, Bool, ◌⊎◌, true, false, inl, inr, arith, Bool-cases, str_eq,
  eq_iff, some,
}
use eyedebugger.Api.{
  Client, nobody, Event, blank, event_lease, lease_free, LeasePolicy, lease_handoff,
  lease_human_priority, is_human,
}
use eyedebugger.EventLog.{append}
use eyedebugger.Session.{Session, ok, err, lease_held}
use eyedebugger.Lease.{
  Lease, LeaseCall, takes, releases, grants, sets_policy, acquires, requests, drops, call, op_admin,
  take_lease, release_lease, grant_to, set_policy, acquire, request_lease, requested, drop_request,
  set_holder, moved, allows, policy_allows, info,
}
use eyedebugger.Lease.Cases.{grant_cases, policy_cases}
use eyedebugger.Lease.Authority.{caller}

-- Either nothing is logged and holder and policy stay, or one lease event by `actor` is, which
-- holds the lease as it is afterwards.
abbrev pub Logged : String → Session → ℕ → Session → Type 0
Logged actor s now s' =
    ((s'.log ≡ s.log) × (s'.lease.holder ≡ s.lease.holder) × (s'.lease.policy ≡ s.lease.policy))
    ⊎ ((e : Event) × (s'.log ≡ append s.log now e)
        × (e.kind ≡ event_lease)
        × (e.client ≡ actor)
        × (e.lease ≡ some (info s'.lease)))

same-Logged : (actor : String) (s : Session) (now : ℕ) → Logged actor s now s
same-Logged actor s now = inl (refl, refl, refl)

set_holder-Logged :
    (s : Session) (now : ℕ) (holder : Client) (actor action reason : String)
    → Logged actor s now (set_holder s now holder actor action reason)
unfolding set_holder
set_holder-Logged s now holder actor action reason = inr (
  record blank {
    kind = event_lease;
    client = actor;
    action = action;
    lease = some (info (moved s.lease now holder));
    previous = s.lease.holder.id;
    reason = reason;
  },
  refl,
  refl,
  refl,
  refl,
)

module _ {ℓ} (P : Session → Type ℓ) (s : Session) (now : ℕ) (c : Client) where
  take_cases :
      (force : Bool)
      → P s
      → P (set_holder s now c c.id "take" "")
      → P (set_holder s now c c.id "force" "")
      → P (take_lease s now c force).0
  unfolding take_lease
  take_cases force same taken forced = ground arith

  acquire_cases : P s → P (set_holder s now c c.id "auto" "") → P (acquire s now c).0
  unfolding acquire
  acquire_cases same taken = ground arith

  release_cases : P s → P (set_holder s now nobody c.id "release" "") → P (release_lease s now c).0
  unfolding release_lease
  release_cases same released = ground arith

  grant_to_cases :
      (target : Client) (force : Bool)
      → P s
      → P (set_holder s now target c.id "grant" "")
      → P (grant_to s now c target force).0
  unfolding grant_to
  grant_to_cases target force same granted = ground arith

  request_cases :
      (message : String) → P s → P (requested s now c message) → P (request_lease s now c message).0
  unfolding request_lease
  request_cases message same asked = ground arith

requested-Logged :
    (s : Session) (now : ℕ) (c : Client) (message : String)
    → Logged c.id s now (requested s now c message)
unfolding requested
requested-Logged s now c message = inr (
  record blank {
    kind = event_lease;
    client = c.id;
    action = "request";
    lease = some (info (requested s now c message).lease);
    text = message;
  },
  refl,
  refl,
  refl,
  refl,
)

set_policy-Logged :
    (s : Session) (now : ℕ) (c : Client) (policy : LeasePolicy) (force : Bool)
    → Logged c.id s now (set_policy s now c policy force).0
unfolding set_policy
set_policy-Logged s now c policy force = elim (Bool-cases (allows s.lease op_admin c force)) [
  | inl allowed ↦ elim (Bool-cases (str_eq s.lease.policy policy)) [
    | inl same ↦ rw (allowed, same) (same-Logged c.id s now)
    | inr new ↦
        rw (allowed, new)
          (inr (
            record blank {
              kind = event_lease;
              client = c.id;
              action = "policy";
              lease = some (info (record s.lease { policy = policy }));
              previous = s.lease.holder.id;
            },
            refl,
            refl,
            refl,
            refl,
          ))
  ]
  | inr refused ↦ rw refused (same-Logged c.id s now)
]

-- Every lease call either logs nothing and leaves holder and policy, or logs exactly one lease
-- event, by its caller, which holds the lease as the call left it.
pub call-Logged :
    (s : Session) (now : ℕ) (c : LeaseCall) → Logged (caller c).id s now (call s now c)
unfolding call
call-Logged s now (takes c force) =
    take_cases (Logged c.id s now) s now c force (same-Logged c.id s now)
      (set_holder-Logged s now c c.id "take" "") (set_holder-Logged s now c c.id "force" "")
call-Logged s now (releases c) =
    release_cases (Logged c.id s now) s now c (same-Logged c.id s now)
      (set_holder-Logged s now nobody c.id "release" "")
call-Logged s now (grants c to force) =
    grant_cases (λ r. Logged c.id s now r.0) s now c to force (same-Logged c.id s now)
      λ target _.
        grant_to_cases (Logged c.id s now) s now c target force (same-Logged c.id s now)
          (set_holder-Logged s now target c.id "grant" "")
call-Logged s now (sets_policy c policy force) =
    policy_cases (λ r. Logged c.id s now r.0) s now c policy force (same-Logged c.id s now)
      (λ p _. set_policy-Logged s now c p force)
call-Logged s now (acquires c) =
    acquire_cases (Logged c.id s now) s now c (same-Logged c.id s now)
      (set_holder-Logged s now c c.id "auto" "")
call-Logged s now (requests c message) =
    request_cases (Logged c.id s now) s now c message (same-Logged c.id s now)
      (requested-Logged s now c message)
call-Logged s now (drops id) = unfold drop_request in inl (refl, refl, refl)

-- Whether a client has the lease or may take it for itself: nobody holds it, or the policy is the free
-- one, or human-priority and the client is human and the holder is not.
abbrev pub MayHold : Lease → Client → Type 0
MayHold l c =
    (l.holder.id ≡ "")
    ⊎ (l.holder.id ≡ c.id)
    ⊎ (l.policy ≡ lease_free)
    ⊎ ((l.policy ≡ lease_human_priority) × (is_human c ≡ true) × (is_human l.holder ≡ false))

-- Someone else holds the lease, and the policy keeps the client from taking it.
abbrev pub KeptFrom : Lease → Client → Type 0
KeptFrom l c =
    (l.holder.id ≢ "")
    × (l.holder.id ≢ c.id)
    × (l.policy ≢ lease_free)
    × ((l.policy ≢ lease_human_priority) ⊎ (is_human c ≡ false) ⊎ (is_human l.holder ≡ true))

handoff_only : (p : String) → str_eq p lease_handoff ≡ true → str_eq p lease_human_priority ≡ false
handoff_only p h = ap (λ q. str_eq q lease_human_priority) ((eq_iff p lease_handoff).0 h)

-- Executing needs the lease: a client that may execute holds it afterwards; otherwise nothing
-- changed, and the error names the holder, who is someone else.
pub acquire_lem :
    (s : Session) (now : ℕ) (c : Client)
    → (((acquire s now c).1 ≡ ok tt)
        × ((acquire s now c).0.lease.holder.id ≡ c.id)
        × MayHold s.lease c)
      ⊎ ((acquire s now c ≡ (s, err (lease_held s.lease.holder.id s.lease.policy)))
          × KeptFrom s.lease c)
unfolding acquire allows policy_allows set_holder moved
acquire_lem s now c = ground (
  arith,
  eq_iff s.lease.holder.id c.id,
  eq_iff s.lease.holder.id "",
  eq_iff s.lease.policy lease_free,
  eq_iff s.lease.policy lease_handoff,
  eq_iff s.lease.policy lease_human_priority,
  handoff_only s.lease.policy,
)

set_holder-state :
    (s : Session) (now : ℕ) (holder : Client) (actor action reason : String)
    → (set_holder s now holder actor action reason).state ≡ s.state
unfolding set_holder
set_holder-state s now holder actor action reason = refl

set_policy-state :
    (s : Session) (now : ℕ) (c : Client) (policy : LeasePolicy) (force : Bool)
    → (set_policy s now c policy force).0.state ≡ s.state
unfolding set_policy
set_policy-state s now c policy force = ground arith

-- A lease call leaves the program's state.
pub call-state : (s : Session) (now : ℕ) (c : LeaseCall) → (call s now c).state ≡ s.state
unfolding call
call-state s now (takes c force) =
    take_cases (λ s'. s'.state ≡ s.state) s now c force refl
      (set_holder-state s now c c.id "take" "") (set_holder-state s now c c.id "force" "")
call-state s now (releases c) =
    release_cases (λ s'. s'.state ≡ s.state) s now c refl
      (set_holder-state s now nobody c.id "release" "")
call-state s now (grants c to force) =
    grant_cases (λ r. r.0.state ≡ s.state) s now c to force refl
      λ target _.
        grant_to_cases (λ s'. s'.state ≡ s.state) s now c target force refl
          (set_holder-state s now target c.id "grant" "")
call-state s now (sets_policy c policy force) =
    policy_cases (λ r. r.0.state ≡ s.state) s now c policy force refl
      (λ p _. set_policy-state s now c p force)
call-state s now (acquires c) =
    acquire_cases (λ s'. s'.state ≡ s.state) s now c refl (set_holder-state s now c c.id "auto" "")
call-state s now (requests c message) =
    request_cases (λ s'. s'.state ≡ s.state) s now c message refl (unfold requested in refl)
call-state s now (drops id) = unfold drop_request in refl

pub call-acquires :
    (s : Session) (now : ℕ) (c : Client) → call s now (acquires c) ≡ (acquire s now c).0
unfolding call
call-acquires s now c = refl

pub acquire-state : (s : Session) (now : ℕ) (c : Client) → (acquire s now c).0.state ≡ s.state
acquire-state s now c =
    subst (λ t. t.state ≡ s.state) (call-acquires s now c) (call-state s now (acquires c))
