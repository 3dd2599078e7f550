-- ===== src/Lease/Tests.antt =====
-- Runs of the lease, and its theorems at a concrete session.
use eyedebugger.Prelude.{ℕ, ◌≡◌, ◌≢◌, refl, false, List, [], ◌∷◌, arith, length, eq_iff, String}
use eyedebugger.Api.{Client, lease_free, lease_handoff, lease_human_priority, running}
use eyedebugger.EventLog.{new_event_log}
use eyedebugger.Session.{Session, err, lease_held}
use eyedebugger.Lease.{
  LeaseCall, takes, sets_policy, requests, call, calls, acquire, take_lease, request_lease,
  set_holder, allows, with_request, requested, parse_lease_policy, set_lease_policy, set_policy,
}
use eyedebugger.Lease.Invariant.{IsLease, call-IsLease, calls-IsLease}
use eyedebugger.Lease.Authority.{Entitled, call-Entitled, calls_handoff}
use eyedebugger.Lease.Logged.{Logged, call-Logged}

abbrev agent : Client
agent = record { id = "agent"; kind = "agent"; name = "" }

abbrev human : Client
human = record { id = "human:ann"; kind = "human"; name = "ann" }

abbrev bot : Client
bot = record { id = "agent:bot"; kind = "agent"; name = "bot" }

-- The agent holds the lease under a policy.
abbrev session_under : String → Session
session_under policy = record {
  state = running;
  lease = record { policy = policy; holder = agent; since = 0; requests = [] };
  log = new_event_log 100 100000;
  clients = [];
  presence = [];
  conn_gen = 0;
  bps = [];
  next_bp = 0;
  exc_modes = [];
}

abbrev asked : List (ℕ × LeaseCall)
asked =
    (1, requests human "my turn")
    ∷ (2, requests bot "")
    ∷ (3, requests human "please")
    ∷ (4, takes bot false)
    ∷ []

asked_twice : length (calls (session_under lease_handoff) asked).lease.requests ≡ 2
unfolding calls call request_lease take_lease requested with_request allows
asked_twice = refl

human_takes :
    (call (session_under lease_human_priority) 5 (takes human false)).lease.holder.id ≡ "human:ann"
unfolding call take_lease set_holder allows
human_takes = refl

bot_refused :
    (acquire (session_under lease_human_priority) 5 bot).1
    ≡ err (lease_held "agent" lease_human_priority)
unfolding acquire allows
bot_refused = refl

start-IsLease : IsLease (session_under lease_handoff).lease
start-IsLease = record { bounded = omega arith; distinct = tt; others = tt; idle = λ h. refl }

call-IsLease_example :
    IsLease (call (session_under lease_handoff) 1 (requests human "my turn")).lease
call-IsLease_example =
    call-IsLease (session_under lease_handoff) 1 (requests human "my turn") start-IsLease

calls-IsLease_example : IsLease (calls (session_under lease_handoff) asked).lease
calls-IsLease_example = calls-IsLease (session_under lease_handoff) asked start-IsLease

human-ne-agent :
    (call (session_under lease_human_priority) 5 (takes human false)).lease.holder.id ≢ "agent"
human-ne-agent e = ground (arith, human_takes, eq_iff "human:ann" "agent")

call-Entitled_example : Entitled (session_under lease_human_priority) (takes human false)
call-Entitled_example =
    call-Entitled (session_under lease_human_priority) 5 (takes human false) human-ne-agent

policy_changed :
    (call (session_under lease_free) 5 (sets_policy agent "handoff" false)).lease.policy
    ≢ lease_free
policy_changed e = ground (arith, after_change, eq_iff "handoff" "free")
  where
    after_change :
        (call (session_under lease_free) 5 (sets_policy agent "handoff" false)).lease.policy
        ≡ "handoff"
    after_change = unfold call set_lease_policy set_policy parse_lease_policy allows in refl

calls_handoff_example :
    ((calls (session_under lease_handoff) asked).lease.policy ≡ lease_handoff)
    × ((calls (session_under lease_handoff) asked).lease.holder.id ≡ "agent")
calls_handoff_example =
    calls_handoff (session_under lease_handoff) "agent" asked
      (λ e. ground (arith, eq_iff "agent" "")) refl refl
      ((refl, human-ne), ((refl, bot-ne), ((refl, human-ne), ((refl, bot-ne), tt))))
  where
    human-ne : ◌≢◌ {A = String} "human:ann" "agent"
    human-ne e = ground (arith, eq_iff "human:ann" "agent")

    bot-ne : ◌≢◌ {A = String} "agent:bot" "agent"
    bot-ne e = ground (arith, eq_iff "agent:bot" "agent")

call-Logged_example :
    Logged "human:ann"
      (session_under lease_handoff)
      1
      (call (session_under lease_handoff) 1 (requests human "my turn"))
call-Logged_example = call-Logged (session_under lease_handoff) 1 (requests human "my turn")
