-- ===== src/Presence/Counts.antt =====
-- The connection counts against the handles that the editors hold, over any interleaving.
use eyedebugger.Prelude.{
  ℕ, suc, ◌+◌, ◌-◌, ◌≡◌, refl, ◌∙◌, ap, String, Bool, true, false, not, ◌&&◌, Option, none, some,
  inl, inr, List, [], ◌∷◌, arith, str_eq, eq_iff, if◌then◌else◌, Option-cases,
}
use eyedebugger.Api.{Client, Breakpoint, nobody}
use eyedebugger.Session.{Session, Presence}
use eyedebugger.Lease.{set_holder, drop_request}
use eyedebugger.Lease.Unchanged.{set_holder-unchanged, drop_request-unchanged}
use eyedebugger.Presence.{
  Handle, touch, find, put, delete, entry, note, connect, exceptions_set, decrement, has_left,
  log_removed, log_all, log_breakpoint, finish_leave, sort_by_id,
}

abbrev pub conns_of : Option Presence → ℕ
conns_of none = 0
conns_of (some p) = p.conns

-- The connections of a client that the session counts.
abbrev pub connected : Session → String → ℕ
connected s id = conns_of (find id s.presence)

pub find-put :
    (j id : String) (p : Presence) (ps : List (String × Presence))
    → find j (put id p ps) ≡ (if str_eq id j then some p else find j ps)
unfolding find put
find-put j id p [] = refl
find-put j id p ((k, q) ∷ ps) =
    ground (arith, eq_iff id j, eq_iff k id, eq_iff k j, find-put j id p ps)

pub find-delete :
    (j id : String) (ps : List (String × Presence))
    → find j (delete id ps) ≡ (if str_eq id j then none else find j ps)
unfolding find delete
find-delete j id [] = ground arith
find-delete j id ((k, q) ∷ ps) =
    ground (arith, eq_iff id j, eq_iff k id, eq_iff k j, find-delete j id ps)

pub touch-presence : (s : Session) (now : ℕ) (c : Client) → (touch s now c).presence ≡ s.presence
unfolding touch
touch-presence s now c = ground arith

pub touch-conn_gen : (s : Session) (now : ℕ) (c : Client) → (touch s now c).conn_gen ≡ s.conn_gen
unfolding touch
touch-conn_gen s now c = ground arith

note-presence :
    (s : Session) (now : ℕ) (id action : String) → (note s now id action).presence ≡ s.presence
unfolding note
note-presence s now id action = ground arith

entry-conns : (o : Option Presence) → (entry o).conns ≡ conns_of o
unfolding entry
entry-conns none = refl
entry-conns (some p) = refl

pub connect-presence :
    (s : Session) (now : ℕ) (c : Client)
    → (connect s now c).0.presence
      ≡ put c.id
          (record (entry (find c.id s.presence)) {
            conns = (entry (find c.id s.presence)).conns + 1;
            gen = suc s.conn_gen;
          })
          s.presence
unfolding connect
connect-presence s now c =
    unfold note in ground (arith, touch-presence s now c, touch-conn_gen s now c)

pub connect-connected :
    (s : Session) (now : ℕ) (c : Client) (j : String)
    → connected (connect s now c).0 j ≡ (if str_eq c.id j then connected s j + 1 else connected s j)
connect-connected s now c j =
    ap (λ ps. conns_of (find j ps)) (connect-presence s now c)
    ∙ ground (
      arith,
      find-put j c.id
          (record (entry (find c.id s.presence)) {
            conns = (entry (find c.id s.presence)).conns + 1;
            gen = suc s.conn_gen;
          })
          s.presence,
      entry-conns (find c.id s.presence),
      eq_iff c.id j,
    )

pub decrement-connected :
    (s : Session) (now : ℕ) (h : Handle) (done : Bool) (j : String)
    → connected (decrement s now h done).0 j
      ≡ (if not h.left && str_eq h.client.id j then connected s j - 1 else connected s j)
unfolding decrement note
decrement-connected s now h done j = elim (Option-cases (find h.client.id s.presence)) [
  | inl missing ↦ ground (arith, missing, eq_iff h.client.id j)
  | inr (p, here) ↦
      let fewer : Presence = record p { conns = p.conns - 1 } in
      ground (
        arith,
        here,
        find-put j h.client.id fewer s.presence,
        find-delete j h.client.id (put h.client.id fewer s.presence),
        eq_iff h.client.id j,
      )
]

-- The session as the last step of a cleanup releases the lease in it.
abbrev pub released : Session → ℕ → String → Session
released s now id =
    if str_eq (drop_request s id).lease.holder.id id
    then set_holder (drop_request s id) now nobody id "release" "disconnected"
    else drop_request s id

pub released-presence :
    (s : Session) (now : ℕ) (id : String) → (released s now id).presence ≡ s.presence
released-presence s now id = ground (
  arith,
  ap (λ (t : Session). t.presence) (drop_request-unchanged s id),
  ap (λ (t : Session). t.presence)
      (set_holder-unchanged (drop_request s id) now nobody id "release" "disconnected"),
)

pub finish_leave-connected :
    (s : Session) (now : ℕ) (id : String) (gen : ℕ) (j : String)
    → connected (finish_leave s now id gen) j ≡ connected s j
unfolding finish_leave has_left
finish_leave-connected s now id gen j = elim (Option-cases (find id s.presence)) [
  | inl missing ↦ ground (arith, missing)
  | inr (p, here) ↦
      ground (arith, here, released-presence s now id, find-delete j id s.presence, eq_iff id j)
]

pub exceptions_set-connected :
    (s : Session) (h : Handle) (mode j : String)
    → connected (exceptions_set s h mode) j ≡ connected s j
unfolding exceptions_set
exceptions_set-connected s h mode j = elim (Option-cases (find h.client.id s.presence)) [
  | inl missing ↦ rw (missing, exceptions_set)
  | inr (p, here) ↦ ground (
    arith,
    here,
    find-put j h.client.id (record p { exc_set = not (str_eq mode "none") }) s.presence,
    eq_iff h.client.id j,
  )
]

log_all-presence :
    (s : Session) (now : ℕ) (actor : String) (bs : List Breakpoint)
    → (log_all s now actor bs).presence ≡ s.presence
unfolding log_all log_breakpoint
log_all-presence s now actor [] = refl
log_all-presence s now actor (b ∷ bs) =
    log_all-presence (log_breakpoint s now "removed" actor b) now actor bs

pub log_removed-presence :
    (s : Session) (now : ℕ) (actor : String) (bs : List Breakpoint)
    → (log_removed s now actor bs).presence ≡ s.presence
unfolding log_removed
log_removed-presence s now actor bs = log_all-presence s now actor (sort_by_id bs)

-- A handle that is closed has left, and is still its client's.
pub decrement-left :
    (s : Session) (now : ℕ) (h : Handle) (done : Bool)
    → ((decrement s now h done).1.left ≡ true) × ((decrement s now h done).1.client ≡ h.client)
unfolding decrement
decrement-left s now h done = ground arith

pub connect-handle :
    (s : Session) (now : ℕ) (c : Client) → (connect s now c).1 ≡ record { client = c; left = false }
unfolding connect
connect-handle s now c = refl
