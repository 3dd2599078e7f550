-- ===== src/Lease/Cases.antt =====
-- Case rules for the lease calls that parse an argument first.
use eyedebugger.Prelude.{ℕ, ◌≡◌, String, Bool, inl, inr, some, Bool-cases, Option-cases, str_eq}
use eyedebugger.Api.{Client}
use eyedebugger.Session.{Session, Result, err, invalid_request}
use eyedebugger.Api.{LeaseInfo}
use eyedebugger.Lease.{grant_lease, grant_to, set_lease_policy, set_policy, parse_lease_policy}
use eyedebugger.Lease.ClientName.{parse_client}

module _ {ℓ} (P : Session × Result LeaseInfo → Type ℓ) (s : Session) (now : ℕ) (c : Client) where
  pub grant_cases :
      (to : String) (force : Bool)
      → P (s, err invalid_request)
      → ((target : Client) → parse_client to ≡ some target → P (grant_to s now c target force))
      → P (grant_lease s now c to force)
  unfolding grant_lease
  grant_cases to force refused granted = elim (Bool-cases (str_eq to "")) [
    | inl empty ↦ rw empty refused
    | inr given ↦ elim (Option-cases (parse_client to)) [
      | inl bad ↦ rw (given, bad, grant_lease) refused
      | inr (target, good) ↦ rw (given, good, grant_lease) (granted target good)
    ]
  ]

  pub policy_cases :
      (policy : String) (force : Bool)
      → P (s, err invalid_request)
      → ((p : String) → parse_lease_policy policy ≡ some p → P (set_policy s now c p force))
      → P (set_lease_policy s now c policy force)
  unfolding set_lease_policy
  policy_cases policy force refused changed = elim (Option-cases (parse_lease_policy policy)) [
    | inl bad ↦ rw (bad, set_lease_policy) refused
    | inr (p, good) ↦ rw (good, set_lease_policy) (changed p good)
  ]
