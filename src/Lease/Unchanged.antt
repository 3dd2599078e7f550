-- ===== src/Lease/Unchanged.antt =====
-- What the lease operations leave alone: everything but the lease and the log.
use eyedebugger.Prelude.{ℕ, ◌≡◌, refl, String}
use eyedebugger.Api.{Client}
use eyedebugger.Session.{Session}
use eyedebugger.Lease.{set_holder, drop_request}

pub set_holder-unchanged :
    (s : Session) (now : ℕ) (holder : Client) (actor action reason : String)
    → set_holder s now holder actor action reason ≡ record s {
      lease = (set_holder s now holder actor action reason).lease;
      log = (set_holder s now holder actor action reason).log;
    }
unfolding set_holder
set_holder-unchanged s now holder actor action reason = refl

pub drop_request-unchanged :
    (s : Session) (id : String) → drop_request s id ≡ record s { lease = (drop_request s id).lease }
unfolding drop_request
drop_request-unchanged s id = refl

pub drop_request-holder :
    (s : Session) (id : String) → (drop_request s id).lease.holder ≡ s.lease.holder
unfolding drop_request
drop_request-holder s id = refl

pub set_holder-holder :
    (s : Session) (now : ℕ) (holder : Client) (actor action reason : String)
    → (set_holder s now holder actor action reason).lease.holder ≡ holder
unfolding set_holder
set_holder-holder s now holder actor action reason = refl
