-- ===== src/Lease.antt =====
-- internal/session/lease.go, `ParseLeasePolicy` of internal/api/lease.go and the client names of
-- internal/api/client.go (the child `ClientName`): the control lease of a session, which says who
-- may change the program's execution.
pub mod ClientName
pub mod Cases
pub mod Invariant
pub mod Authority
pub mod Logged
pub mod Unchanged
mod Tests
use Prim.Native.String.{count}
use eyedebugger.Prelude.{
  ℕ, ◌+◌, ◌-◌, ◌≤◌, ◌<◌, String, Bool, true, false, not, ◌&&◌, ◌||◌, Option, none, some, List, [],
  ◌∷◌, ◌++◌, ltb, leb, length, drop, keep, str_eq, if◌then◌else◌,
}
use eyedebugger.Api.{
  Client, nobody, is_human, LeasePolicy, lease_free, lease_handoff, lease_human_priority,
  LeaseRequest, LeaseInfo, Event, blank, event_lease, is_exited,
}
use eyedebugger.EventLog.{EventLog, append}
use eyedebugger.Session.{
  Session, Lease, Error, invalid_request, lease_held, session_exited, Result, ok, err,
}
use ClientName.{parse_client}

-- `leaseOp`.
pub data LeaseOp : Type 0 where
  op_exec op_take op_admin : LeaseOp

abbrev is_admin : LeaseOp → Bool
is_admin op_admin = true
is_admin _ = false

abbrev pub max_lease_requests : ℕ
max_lease_requests = 16

abbrev pub max_lease_request_message : ℕ
max_lease_request_message = 200

-- The switch over the policies in `allows`, with its default.
pub policy_allows : Lease → Client → Bool
policy_allows l c =
    if str_eq l.policy lease_free
    then true
    else if str_eq l.policy lease_handoff
    then false
    else if str_eq l.policy lease_human_priority
    then is_human c && not (is_human l.holder)
    else false

-- `allows`.
pub allows : Lease → LeaseOp → Client → Bool → Bool
unfolding policy_allows
allows l op c force =
    if force || str_eq l.holder.id "" || str_eq l.holder.id c.id
    then true
    else if is_admin op
    then false
    else policy_allows l c

-- `info`.
pub info : Lease → LeaseInfo
info l = record {
  policy = l.policy;
  holder = l.holder.id;
  since = if str_eq l.holder.id "" then none else some l.since;
  requests = l.requests;
}

-- The lease after `setHolderLocked`.
pub moved : Lease → ℕ → Client → Lease
moved l now holder = record l { holder = holder; since = now; requests = [] }

-- `setHolderLocked`: moves the lease, clears the requests and logs it.
pub set_holder : Session → ℕ → Client → String → String → String → Session
unfolding moved
set_holder s now holder actor action reason =
    let lease' = moved s.lease now holder in
    record s {
      lease = lease';
      log = append s.log now (record blank {
        kind = event_lease;
        client = actor;
        action = action;
        lease = some (info lease');
        previous = s.lease.holder.id;
        reason = reason;
      });
    }

-- `leaseHeldLocked`.
held_error : Session → Error
held_error s = lease_held s.lease.holder.id s.lease.policy

-- `TakeLease`.
pub take_lease : Session → ℕ → Client → Bool → Session × Result LeaseInfo
unfolding held_error
take_lease s now c force =
    let taken = set_holder s now c c.id "take" "" in
    let forced = set_holder s now c c.id "force" "" in
    if str_eq s.lease.holder.id c.id
    then (s, ok (info s.lease))
    else if allows s.lease op_take c false
    then (taken, ok (info taken.lease))
    else if force
    then (forced, ok (info forced.lease))
    else (s, err (held_error s))

-- `ReleaseLease`.
pub release_lease : Session → ℕ → Client → Session × Result LeaseInfo
release_lease s now c =
    let released =
      if str_eq s.lease.holder.id c.id then set_holder s now nobody c.id "release" "" else s in
    (released, ok (info released.lease))

-- The part of `GrantLease` under the mutex.
pub grant_to : Session → ℕ → Client → Client → Bool → Session × Result LeaseInfo
unfolding held_error
grant_to s now c target force =
    let granted =
      if str_eq s.lease.holder.id target.id then s else set_holder s now target c.id "grant" "" in
    if allows s.lease op_admin c force
    then (granted, ok (info granted.lease))
    else (s, err (held_error s))

-- `GrantLease`.
pub grant_lease : Session → ℕ → Client → String → Bool → Session × Result LeaseInfo
unfolding grant_to
grant_lease s now c to force =
    if str_eq to "" then (s, err invalid_request) else elim (parse_client to) [
      | none ↦ (s, err invalid_request)
      | some target ↦ grant_to s now c target force
    ]

-- `ParseLeasePolicy`: none is the error.
pub parse_lease_policy : String → Option LeasePolicy
parse_lease_policy p =
    if str_eq p ""
    then some lease_free
    else if str_eq lease_free p
    then some lease_free
    else if str_eq lease_handoff p
    then some lease_handoff
    else if str_eq lease_human_priority p
    then some lease_human_priority
    else none

-- The part of `SetLeasePolicy` under the mutex.
pub set_policy : Session → ℕ → Client → LeasePolicy → Bool → Session × Result LeaseInfo
unfolding held_error
set_policy s now c policy force =
    let lease' = record s.lease { policy = policy } in
    let changed = record s {
      lease = lease';
      log = append s.log now (record blank {
        kind = event_lease;
        client = c.id;
        action = "policy";
        lease = some (info lease');
        previous = s.lease.holder.id;
      });
    } in
    if allows s.lease op_admin c force
    then (if str_eq s.lease.policy policy
        then (s, ok (info s.lease))
        else (changed, ok (info lease')))
    else (s, err (held_error s))

-- `SetLeasePolicy`.
pub set_lease_policy : Session → ℕ → Client → String → Bool → Session × Result LeaseInfo
unfolding set_policy
set_lease_policy s now c policy force = elim (parse_lease_policy policy) [
  | none ↦ (s, err invalid_request)
  | some p ↦ set_policy s now c p force
]

-- `acquireLocked`.
pub acquire : Session → ℕ → Client → Session × Result (Unit {0})
unfolding held_error
acquire s now c =
    if str_eq s.lease.holder.id c.id
    then (s, ok tt)
    else if allows s.lease op_exec c false
    then (set_holder s now c c.id "auto" "", ok tt)
    else (s, err (held_error s))

-- `slices.DeleteFunc` by a client's id.
without : String → List LeaseRequest → List LeaseRequest
without id rs = keep (λ r. not (str_eq r.client id)) rs

-- The oldest requests go until there is room for one more.
make_room : List LeaseRequest → List LeaseRequest
make_room rs =
    if leb max_lease_requests (length rs) then drop (length rs - max_lease_requests + 1) rs else rs

-- `dropRequestLocked`.
pub drop_request : Session → String → Session
unfolding without
drop_request s id = record s { lease = record s.lease { requests = without id s.lease.requests } }

-- The pending requests with one of `c`'s at the end.
pub with_request : List LeaseRequest → String → String → ℕ → List LeaseRequest
unfolding without make_room
with_request rs id message now =
    make_room (without id rs) ++ record { client = id; message = message; at = now } ∷ []

-- The session with `c`'s request recorded and logged.
pub requested : Session → ℕ → Client → String → Session
unfolding with_request
requested s now c message =
    let lease' = record s.lease { requests = with_request s.lease.requests c.id message now } in
    record s {
      lease = lease';
      log = append s.log now (record blank {
        kind = event_lease;
        client = c.id;
        action = "request";
        lease = some (info lease');
        text = message;
      });
    }

-- `RequestLease`.
pub request_lease : Session → ℕ → Client → String → Session × Result LeaseInfo
unfolding requested
request_lease s now c message =
    let asked = requested s now c message in
    if ltb max_lease_request_message (count message)
    then (s, err invalid_request)
    else if is_exited s.state
    then (s, err session_exited)
    else if str_eq s.lease.holder.id "" || str_eq s.lease.holder.id c.id
    then (s, ok (info s.lease))
    else (asked, ok (info asked.lease))

-- What clients ask of the lease, and `dropRequestLocked`, which a client's leaving makes.
pub data LeaseCall : Type 0 where
  takes : Client → Bool → LeaseCall
  releases : Client → LeaseCall
  grants : Client → String → Bool → LeaseCall
  sets_policy : Client → String → Bool → LeaseCall
  acquires : Client → LeaseCall
  requests : Client → String → LeaseCall
  drops : String → LeaseCall

-- One call, at a time.
pub call : Session → ℕ → LeaseCall → Session
call s now (takes c force) = (take_lease s now c force).0
call s now (releases c) = (release_lease s now c).0
call s now (grants c to force) = (grant_lease s now c to force).0
call s now (sets_policy c policy force) = (set_lease_policy s now c policy force).0
call s now (acquires c) = (acquire s now c).0
call s now (requests c message) = (request_lease s now c message).0
call s now (drops id) = drop_request s id

-- Any calls in any order, each under the mutex.
pub calls : Session → List (ℕ × LeaseCall) → Session
calls s [] = s
calls s ((now, c) ∷ rest) = calls (call s now c) rest
