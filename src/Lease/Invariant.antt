-- ===== src/Lease/Invariant.antt =====
-- The pending lease requests stay few, distinct, and no business of the holder.
use eyedebugger.Prelude.{
  ℕ, zero, suc, ◌+◌, ◌-◌, ◌≤◌, ◌<◌, ◌≡◌, refl, String, Bool, true, false, not, inl, inr, List, [],
  ◌∷◌, ◌++◌, arith, length, drop, keep, All, All-append, All-keep, All-drop, length-append,
  length-drop, length-keep-le, Bool-cases, str_eq, eq_iff,
}
use eyedebugger.Api.{Client, nobody, LeaseRequest}
use eyedebugger.Session.{Session, Lease}
use eyedebugger.Lease.{
  LeaseCall, takes, releases, grants, sets_policy, acquires, requests, drops, call, calls,
  take_lease, release_lease, grant_to, set_policy, acquire, request_lease, requested, drop_request,
  set_holder, moved, with_request, without, make_room, max_lease_requests,
}
use eyedebugger.Lease.Cases.{grant_cases, policy_cases}

-- The request is not by the client named `id`.
abbrev pub NotBy : String → LeaseRequest → Type 0
NotBy id r = str_eq r.client id ≡ false

-- At most one request for each client.
abbrev pub Distinct : List LeaseRequest → Type 0
Distinct [] = Unit
Distinct (r ∷ rs) = All (NotBy r.client) rs × Distinct rs

pub record IsLease (l : Lease) : Type 0 where
  pub bounded : length l.requests ≤ max_lease_requests
  pub distinct : Distinct l.requests
  pub others : All (NotBy l.holder.id) l.requests
  pub idle : str_eq l.holder.id "" ≡ true → l.requests ≡ []

str_eq_sym : (a b : String) → str_eq a b ≡ false → str_eq b a ≡ false
str_eq_sym a b h = ground (arith, eq_iff a b, eq_iff b a)

Distinct-keep :
    (p : LeaseRequest → Bool) (rs : List LeaseRequest) → Distinct rs → Distinct (keep p rs)
Distinct-keep p [] d = tt
Distinct-keep p (r ∷ rs) d =
    ground (arith, Distinct-keep p rs d.1, All-keep (NotBy r.client) p rs d.0)

Distinct-drop : (n : ℕ) (rs : List LeaseRequest) → Distinct rs → Distinct (drop n rs)
Distinct-drop zero rs d = d
Distinct-drop (suc n) [] d = tt
Distinct-drop (suc n) (r ∷ rs) d = Distinct-drop n rs d.1

Distinct-append :
    (rs : List LeaseRequest) (q : LeaseRequest)
    → All (NotBy q.client) rs
    → Distinct rs
    → Distinct (rs ++ q ∷ [])
Distinct-append [] q n d = (tt, tt)
Distinct-append (r ∷ rs) q n d = (
  All-append (NotBy r.client) rs (q ∷ []) d.0 (str_eq_sym r.client q.client n.0, tt),
  Distinct-append rs q n.1 d.1,
)

without-NotBy : (id : String) (rs : List LeaseRequest) → All (NotBy id) (without id rs)
unfolding without
without-NotBy id [] = tt
without-NotBy id (r ∷ rs) = elim (Bool-cases (str_eq r.client id)) [
  | inl own ↦ rw own (without-NotBy id rs)
  | inr other ↦ rw other (other, without-NotBy id rs)
]

make_room-length : (rs : List LeaseRequest) → length (make_room rs) < max_lease_requests
unfolding make_room
make_room-length rs = ground (arith, length-drop (length rs - max_lease_requests + 1) rs)

make_room-All :
    (P : LeaseRequest → Type 0) (rs : List LeaseRequest) → All P rs → All P (make_room rs)
unfolding make_room
make_room-All P rs h = ground (arith, All-drop P (length rs - max_lease_requests + 1) rs h)

make_room-Distinct : (rs : List LeaseRequest) → Distinct rs → Distinct (make_room rs)
unfolding make_room
make_room-Distinct rs d = ground (arith, Distinct-drop (length rs - max_lease_requests + 1) rs d)

moved-IsLease : (l : Lease) (now : ℕ) (holder : Client) → IsLease (moved l now holder)
unfolding moved
moved-IsLease l now holder = record {
  bounded = omega arith;
  distinct = tt;
  others = tt;
  idle = λ _. refl;
}

without-IsLease :
    (l : Lease) (id : String) → IsLease l → IsLease (record l { requests = without id l.requests })
unfolding without
without-IsLease l id v = record {
  bounded = omega (arith, length-keep-le (λ r. not (str_eq r.client id)) l.requests, v.bounded);
  distinct = Distinct-keep (λ r. not (str_eq r.client id)) l.requests v.distinct;
  others = All-keep (NotBy l.holder.id) (λ r. not (str_eq r.client id)) l.requests v.others;
  idle = λ h. rw (v.idle h);
}

with_request-IsLease :
    (l : Lease) (id message : String) (now : ℕ)
    → str_eq l.holder.id "" ≡ false
    → str_eq l.holder.id id ≡ false
    → IsLease l
    → IsLease (record l { requests = with_request l.requests id message now })
unfolding with_request
with_request-IsLease l id message now held other v = record {
  bounded = omega (
    arith,
    make_room-length old,
    length-append (make_room old) (record { client = id; message = message; at = now } ∷ []),
  );
  distinct =
      Distinct-append (make_room old) (record { client = id; message = message; at = now })
        (make_room-All (NotBy id) old (without-NotBy id l.requests))
        (make_room-Distinct old rest.distinct);
  others =
      All-append (NotBy l.holder.id) (make_room old)
        (record { client = id; message = message; at = now } ∷ [])
        (make_room-All (NotBy l.holder.id) old rest.others) (str_eq_sym l.holder.id id other, tt);
  idle = λ h. ground arith;
}
  where
    old : List LeaseRequest
    old = without id l.requests

    rest : IsLease (record l { requests = old })
    rest = without-IsLease l id v

set_holder-IsLease :
    (s : Session) (now : ℕ) (holder : Client) (actor action reason : String)
    → IsLease (set_holder s now holder actor action reason).lease
unfolding set_holder
set_holder-IsLease s now holder actor action reason = moved-IsLease s.lease now holder

requested-IsLease :
    (s : Session) (now : ℕ) (c : Client) (message : String)
    → str_eq s.lease.holder.id "" ≡ false
    → str_eq s.lease.holder.id c.id ≡ false
    → IsLease s.lease
    → IsLease (requested s now c message).lease
unfolding requested
requested-IsLease s now c message = with_request-IsLease s.lease c.id message now

grant_to-IsLease :
    (s : Session) (now : ℕ) (c target : Client) (force : Bool)
    → IsLease s.lease
    → IsLease (grant_to s now c target force).0.lease
unfolding grant_to
grant_to-IsLease s now c target force v =
    ground (arith, set_holder-IsLease s now target c.id "grant" "")

set_policy-IsLease :
    (s : Session) (now : ℕ) (c : Client) (policy : String) (force : Bool)
    → IsLease s.lease
    → IsLease (set_policy s now c policy force).0.lease
unfolding set_policy
set_policy-IsLease s now c policy force v = ground arith

-- Every call keeps the pending requests at most 16, one for each client, none by the holder, and
-- none at all while nobody holds the lease.
pub call-IsLease :
    (s : Session) (now : ℕ) (c : LeaseCall) → IsLease s.lease → IsLease (call s now c).lease
unfolding call
call-IsLease s now (takes c force) v =
    unfold take_lease in
    ground
      (arith, set_holder-IsLease s now c c.id "take" "", set_holder-IsLease s now c c.id "force" "")
call-IsLease s now (releases c) v =
    unfold release_lease in ground (arith, set_holder-IsLease s now nobody c.id "release" "")
call-IsLease s now (grants c to force) v =
    grant_cases (λ r. IsLease r.0.lease) s now c to force v
      (λ target _. grant_to-IsLease s now c target force v)
call-IsLease s now (sets_policy c policy force) v =
    policy_cases (λ r. IsLease r.0.lease) s now c policy force v
      (λ p _. set_policy-IsLease s now c p force v)
call-IsLease s now (acquires c) v =
    unfold acquire in ground (arith, set_holder-IsLease s now c c.id "auto" "")
call-IsLease s now (requests c message) v =
    unfold request_lease in ground (arith, requested-IsLease s now c message)
call-IsLease s now (drops id) v = unfold drop_request in without-IsLease s.lease id v

-- If a lease has at most 16 pending requests, one per client at most, none by the holder, and none
-- while nobody holds it, so it has after any calls in any order.
pub calls-IsLease :
    (s : Session) (cs : List (ℕ × LeaseCall)) → IsLease s.lease → IsLease (calls s cs).lease
unfolding calls
calls-IsLease s [] v = v
calls-IsLease s ((now, c) ∷ cs) v = calls-IsLease (call s now c) cs (call-IsLease s now c v)
