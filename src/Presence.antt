-- ===== src/Presence.antt =====
-- internal/session/presence.go, clients.go and the exception modes of exceptions.go: the editor
-- connections of a session's clients, and the cleanup after a client's last one closed. Each
-- function that the code runs under the session's mutex is one step; between the steps of a
-- cleanup any other step may come. Round trips to the adapter are outside: what they answer
-- decides only which step follows.
pub mod Counts
pub mod World
pub mod Stale
pub mod Cleanup
mod Tests
use eyedebugger.Prelude.{
  ℕ, zero, suc, ◌+◌, ◌-◌, String, Bool, true, false, not, ◌&&◌, ◌||◌, Option, none, some, List, [],
  ◌∷◌, ◌++◌, ◌==◌, ltb, leb, keep, any, str_eq, if◌then◌else◌,
}
use eyedebugger.Api.{
  Client, nobody, ClientInfo, Breakpoint, Event, blank, event_client, event_breakpoint,
  event_exceptions, is_exited,
}
use eyedebugger.EventLog.{append}
use eyedebugger.Session.{Session, Presence, ClientExceptionMode}
use eyedebugger.Lease.{set_holder, drop_request}

-- The loop of `touchLocked`: the first entry of the client is seen now; none if there is no entry.
seen : List ClientInfo → String → ℕ → Option (List ClientInfo)
seen [] id now = none
seen (i ∷ is) id now =
    let rest = seen is id now in
    if str_eq i.client.id id
    then some (record i { last_seen = now } ∷ is)
    else elim rest [ none ↦ none | some js ↦ some (i ∷ js) ]

-- `touchLocked`.
pub touch : Session → ℕ → Client → Session
unfolding seen
touch s now c = elim (seen s.clients c.id now) [
  | some clients ↦ record s { clients = clients }
  | none ↦ record s {
    clients =
        s.clients ++ record { client = c; first_seen = now; last_seen = now; connected = 0 } ∷ [];
    log = append s.log now (record blank { kind = event_client; client = c.id });
  }
]

-- The map `presence`.
pub find : String → List (String × Presence) → Option Presence
find id [] = none
find id ((k, p) ∷ ps) = if str_eq k id then some p else find id ps

pub put : String → Presence → List (String × Presence) → List (String × Presence)
put id p [] = (id, p) ∷ []
put id p ((k, q) ∷ ps) = if str_eq k id then (id, p) ∷ ps else (k, q) ∷ put id p ps

pub delete : String → List (String × Presence) → List (String × Presence)
delete id [] = []
delete id ((k, p) ∷ ps) = let rest = delete id ps in if str_eq k id then rest else (k, p) ∷ rest

-- `Presence`, one editor connection, as its caller holds it.
pub record Handle : Type 0 where
  pub client : Client
  pub left : Bool

-- The entry that `Connect` finds or makes.
pub entry : Option Presence → Presence
entry none = record { conns = 0; gen = 0; exc_set = false }
entry (some p) = p

-- A client event, while the session is live.
note : Session → ℕ → String → String → Session
note s now id action = if is_exited s.state then s else record s {
  log = append s.log now (record blank { kind = event_client; client = id; action = action });
}

-- `Connect`.
pub connect : Session → ℕ → Client → Session × Handle
unfolding entry note
connect s now c =
    let t = touch s now c in
    let p = entry (find c.id t.presence) in
    let gen = suc t.conn_gen in
    (
      note
          (record t {
            presence = put c.id (record p { conns = p.conns + 1; gen = gen }) t.presence;
            conn_gen = gen;
          })
          now c.id "connected",
      record { client = c; left = false },
    )

-- `ExceptionsSet`.
pub exceptions_set : Session → Handle → String → Session
exceptions_set s h mode = elim (find h.client.id s.presence) [
  | none ↦ s
  | some p ↦ if h.left then s else record s {
    presence = put h.client.id (record p { exc_set = not (str_eq mode "none") }) s.presence;
  }
]

-- `decrement`. `conns` is at least 1 for a handle that has not left. The generation is what the
-- cleanup that must follow is valid for; none if there is no cleanup.
pub decrement : Session → ℕ → Handle → Bool → Session × Handle × Option ℕ
unfolding note
decrement s now h ctx_done =
    let gone = record h { left = true } in
    let id = h.client.id in
    if h.left then (s, h, none) else elim (find id s.presence) [
      | none ↦ (s, gone, none)
      | some p ↦
          let fewer = record p { conns = p.conns - 1 } in
          let t = note (record s { presence = put id fewer s.presence }) now id "disconnected" in
          if ltb 0 fewer.conns
          then (t, gone, none)
          else if is_exited s.state || ctx_done
          then (record t { presence = delete id t.presence }, gone, none)
          else (t, gone, some p.gen)
    ]

-- `leftLocked`.
pub has_left : Session → String → ℕ → Bool
has_left s id gen = elim (find id s.presence) [
  | none ↦ false
  | some p ↦ not (is_exited s.state) && p.conns == 0 && p.gen == gen
]

-- The matcher of the first step of `leave`.
pub departed : Session → String → ℕ → Breakpoint → Bool
departed s id gen b = str_eq b.owner id && b.editor && not b.temporary && has_left s id gen

-- The breakpoints of one file, split by a matcher: those selected and those kept.
selected : (Breakpoint → Bool) → List (String × List Breakpoint) → List Breakpoint
selected match [] = []
selected match ((file, list) ∷ bps) = keep match list ++ selected match bps

-- A file whose breakpoints are all gone loses its entry.
kept : (Breakpoint → Bool) → List (String × List Breakpoint) → List (String × List Breakpoint)
kept match [] = []
kept match ((file, list) ∷ bps) = elim (keep (λ b. not (match b)) list) [
  | [] ↦ kept match bps
  | b ∷ bs ↦ (file, b ∷ bs) ∷ kept match bps
]

-- The first locked part of `removeBreakpoints`.
unfoldable pub take_out : Session → (Breakpoint → Bool) → Session × List Breakpoint
unfolding selected kept
take_out s match = (record s { bps = kept match s.bps }, selected match s.bps)

-- `sort.Slice` by id.
insert_by_id : Breakpoint → List Breakpoint → List Breakpoint
insert_by_id b [] = b ∷ []
insert_by_id b (c ∷ cs) = if leb b.id c.id then b ∷ c ∷ cs else c ∷ insert_by_id b cs

pub sort_by_id : List Breakpoint → List Breakpoint
unfolding insert_by_id
sort_by_id [] = []
sort_by_id (b ∷ bs) = insert_by_id b (sort_by_id bs)

-- `logBreakpointLocked`.
pub log_breakpoint : Session → ℕ → String → String → Breakpoint → Session
log_breakpoint s now action actor b = record s {
  log = append s.log now (record blank {
    kind = event_breakpoint;
    action = action;
    client = actor;
    breakpoint = some b;
  });
}

log_all : Session → ℕ → String → List Breakpoint → Session
log_all s now actor [] = s
log_all s now actor (b ∷ bs) = log_all (log_breakpoint s now "removed" actor b) now actor bs

-- The last locked part of `removeBreakpoints`.
pub log_removed : Session → ℕ → String → List Breakpoint → Session
unfolding log_all
log_removed s now actor gone = log_all s now actor (sort_by_id gone)

-- Whether `leave` resets the client's exception mode.
pub resets : Session → String → ℕ → Bool
resets s id gen =
    has_left s id gen
    && elim (find id s.presence) [ none ↦ false | some p ↦ p.exc_set ]
    && any (λ (m : ClientExceptionMode). str_eq m.client id) s.exc_modes

-- The loop of `withMode` over the modes of the others and the client's own.
replaced : List ClientExceptionMode → String → String → List ClientExceptionMode
replaced [] client mode = []
replaced (m ∷ ms) client mode =
    let rest = replaced ms client mode in
    if not (str_eq m.client client)
    then m ∷ rest
    else if str_eq mode "none"
    then rest
    else record { client = client; mode = mode } ∷ rest

-- `withMode`.
pub with_mode : List ClientExceptionMode → String → String → Bool → List ClientExceptionMode
unfolding replaced
with_mode modes client mode force =
    let own : List ClientExceptionMode = record { client = client; mode = mode } ∷ [] in
    let out = replaced modes client mode in
    if force
    then (if str_eq mode "none" then [] else own)
    else if any (λ (m : ClientExceptionMode). str_eq m.client client) modes || str_eq mode "none"
    then out
    else out ++ own

-- The last locked part of `setExceptionMode`, once the adapter took the filters of `modes`.
pub commit_mode : Session → ℕ → String → String → Bool → List ClientExceptionMode → Session
commit_mode s now client mode force modes = record s {
  exc_modes = modes;
  log = append s.log now (record blank {
    kind = event_exceptions;
    client = client;
    action = mode;
    reason = if force then "force" else "";
  });
}

-- The last step of `leave`.
pub finish_leave : Session → ℕ → String → ℕ → Session
finish_leave s now id gen =
    let dropped = drop_request s id in
    let released =
      if str_eq dropped.lease.holder.id id
      then set_holder dropped now nobody id "release" "disconnected"
      else dropped in
    if has_left s id gen then record released { presence = delete id released.presence } else s
