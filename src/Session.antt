-- ===== src/Session.antt =====
-- The state of internal/session/session.go that the modelled operations read and change: the
-- fields of `Session` under its mutex. Each operation that holds the mutex is one step, a function
-- of the session; `now` stands for `time.Now()`. Messages of errors are not modelled, only what
-- kind of error it is and the values that decide it.
use eyedebugger.Prelude.{ℕ, String, Bool, List}
use eyedebugger.Api.{Client, ClientInfo, LeasePolicy, LeaseRequest, Breakpoint, SessionState}
use eyedebugger.EventLog.{EventLog}

-- `api.Error`, by its code and what it names.
pub data Error : Type 0 where
  invalid_request : Error
  lease_held : String → LeasePolicy → Error
  session_exited : Error
  not_owner : String → Error

pub data Result {ℓ} (A : Type ℓ) : Type ℓ where
  ok : A → Result A
  err : Error → Result A

-- `lease` of lease.go.
pub record Lease : Type 0 where
  pub policy : LeasePolicy
  pub holder : Client
  pub since : ℕ
  pub requests : List LeaseRequest

-- `presence` of presence.go, one client's editor connections.
pub record Presence : Type 0 where
  pub conns : ℕ
  pub gen : ℕ
  pub exc_set : Bool

-- `api.ClientExceptionMode`; a mode is a string type.
pub record ClientExceptionMode : Type 0 where
  pub client : String
  pub mode : String

-- `bps`, a map, is a list of its entries: the file (empty for function breakpoints) and the file's
-- breakpoints. `presence` is a map too.
pub record Session : Type 0 where
  pub state : SessionState
  pub lease : Lease
  pub log : EventLog
  pub clients : List ClientInfo
  pub presence : List (String × Presence)
  pub conn_gen : ℕ
  pub bps : List (String × List Breakpoint)
  pub next_bp : ℕ
  pub exc_modes : List ClientExceptionMode
