-- ===== src/Presence/Stale.antt =====
-- A cleanup that a new connection of its client overtook passes none of its later checks.
use eyedebugger.Prelude.{
  ℕ, zero, suc, ◌+◌, ◌-◌, ◌≤◌, ◌≡◌, refl, ◌∙◌, ap, String, Bool, false, not, Option, none, some,
  inl, inr, List, [], ◌∷◌, arith, ◌==◌, str_eq, eq_iff, Option-cases,
}
use eyedebugger.Api.{Client, nobody, Breakpoint}
use eyedebugger.Session.{Session, Presence}
use eyedebugger.Lease.{drop_request}
use eyedebugger.Lease.Unchanged.{set_holder-unchanged, drop_request-unchanged}
use eyedebugger.Presence.{
  Handle, touch, find, put, entry, note, connect, exceptions_set, decrement, has_left, departed,
  take_out, log_removed, log_all, log_breakpoint, resets, commit_mode, finish_leave, sort_by_id,
}
use eyedebugger.Presence.Counts.{
  find-put, find-delete, touch-presence, touch-conn_gen, connect-presence, released,
  released-presence, log_removed-presence,
}
use eyedebugger.Presence.World.{
  World, Move, connects, closes, sets_mode, takes_out, resets_mode, finishes, touches, exits, move,
  moves, close_at, set_mode_at,
}

abbrev is_gen : ℕ → Option Presence → Bool
is_gen g none = false
is_gen g (some p) = p.gen == g

-- The session has handed out generation `g`, and the client's entry, if any, is of another one.
record IsPast (g : ℕ) (id : String) (s : Session) : Type 0 where
  pub issued : g ≤ s.conn_gen
  pub other : is_gen g (find id s.presence) ≡ false

connect-conn_gen :
    (s : Session) (now : ℕ) (c : Client) → (connect s now c).0.conn_gen ≡ suc s.conn_gen
unfolding connect note
connect-conn_gen s now c = ground (arith, touch-conn_gen s now c)

connect-IsPast_self :
    (g : ℕ) (s : Session) (now : ℕ) (c : Client)
    → g ≤ s.conn_gen
    → IsPast g c.id (connect s now c).0
connect-IsPast_self g s now c h = record {
  issued = omega (arith, connect-conn_gen s now c);
  other =
      ap (λ ps. is_gen g (find c.id ps)) (connect-presence s now c)
      ∙ ground (
        arith,
        find-put c.id c.id
            (record (entry (find c.id s.presence)) {
              conns = (entry (find c.id s.presence)).conns + 1;
              gen = suc s.conn_gen;
            })
            s.presence,
        eq_iff c.id c.id,
      );
}

released-conn_gen :
    (s : Session) (now : ℕ) (id : String) → (released s now id).conn_gen ≡ s.conn_gen
released-conn_gen s now id = ground (
  arith,
  ap (λ (t : Session). t.conn_gen) (drop_request-unchanged s id),
  ap (λ (t : Session). t.conn_gen)
      (set_holder-unchanged (drop_request s id) now nobody id "release" "disconnected"),
)

log_all-conn_gen :
    (s : Session) (now : ℕ) (actor : String) (bs : List Breakpoint)
    → (log_all s now actor bs).conn_gen ≡ s.conn_gen
unfolding log_all log_breakpoint
log_all-conn_gen s now actor [] = refl
log_all-conn_gen s now actor (b ∷ bs) =
    log_all-conn_gen (log_breakpoint s now "removed" actor b) now actor bs

log_removed-conn_gen :
    (s : Session) (now : ℕ) (actor : String) (bs : List Breakpoint)
    → (log_removed s now actor bs).conn_gen ≡ s.conn_gen
unfolding log_removed
log_removed-conn_gen s now actor bs = log_all-conn_gen s now actor (sort_by_id bs)

module _ (g : ℕ) (id : String) where
  connect-IsPast :
      (s : Session) (now : ℕ) (c : Client) → IsPast g id s → IsPast g id (connect s now c).0
  connect-IsPast s now c v = record {
    issued = omega (arith, connect-conn_gen s now c, v.issued);
    other =
        ap (λ ps. is_gen g (find id ps)) (connect-presence s now c)
        ∙ ground (
          arith,
          v.issued,
          v.other,
          find-put id c.id
              (record (entry (find c.id s.presence)) {
                conns = (entry (find c.id s.presence)).conns + 1;
                gen = suc s.conn_gen;
              })
              s.presence,
          eq_iff c.id id,
        );
  }

  decrement-IsPast :
      (s : Session) (now : ℕ) (h : Handle) (done : Bool)
      → IsPast g id s
      → IsPast g id (decrement s now h done).0
  unfolding decrement note
  decrement-IsPast s now h done v = elim (Option-cases (find h.client.id s.presence)) [
    | inl missing ↦ ground (arith, missing, v.issued, v.other)
    | inr (p, here) ↦
        let fewer : Presence = record p { conns = p.conns - 1 } in
        ground (
          arith,
          here,
          v.issued,
          v.other,
          find-put id h.client.id fewer s.presence,
          find-delete id h.client.id (put h.client.id fewer s.presence),
          eq_iff h.client.id id,
        )
  ]

  exceptions_set-IsPast :
      (s : Session) (h : Handle) (mode : String)
      → IsPast g id s
      → IsPast g id (exceptions_set s h mode)
  unfolding exceptions_set
  exceptions_set-IsPast s h mode v = elim (Option-cases (find h.client.id s.presence)) [
    | inl missing ↦ rw (missing, exceptions_set) v
    | inr (p, here) ↦ ground (
      arith,
      here,
      v.issued,
      v.other,
      find-put id h.client.id (record p { exc_set = not (str_eq mode "none") }) s.presence,
      eq_iff h.client.id id,
    )
  ]

  finish_leave-IsPast :
      (s : Session) (now : ℕ) (j : String) (gen : ℕ)
      → IsPast g id s
      → IsPast g id (finish_leave s now j gen)
  unfolding finish_leave has_left
  finish_leave-IsPast s now j gen v = elim (Option-cases (find j s.presence)) [
    | inl missing ↦ ground (arith, missing, v.issued, v.other)
    | inr (p, here) ↦ ground (
      arith,
      here,
      v.issued,
      v.other,
      released-presence s now j,
      released-conn_gen s now j,
      find-delete id j s.presence,
      eq_iff j id,
    )
  ]

  -- What changes neither the entries nor the numbering.
  same-IsPast :
      (s t : Session)
      → t.presence ≡ s.presence
      → t.conn_gen ≡ s.conn_gen
      → IsPast g id s
      → IsPast g id t
  same-IsPast s t p c v = record {
    issued = omega (arith, v.issued);
    other = ap (λ ps. is_gen g (find id ps)) p ∙ v.other;
  }

  close_at-IsPast :
      (s : Session) (now : ℕ) (hs : List Handle) (i : ℕ) (done : Bool)
      → IsPast g id s
      → IsPast g id (close_at s now hs i done).0
  unfolding close_at
  close_at-IsPast s now [] i done v = v
  close_at-IsPast s now (h ∷ hs) zero done v = decrement-IsPast s now h done v
  close_at-IsPast s now (h ∷ hs) (suc i) done v = close_at-IsPast s now hs i done v

  set_mode_at-IsPast :
      (s : Session) (hs : List Handle) (i : ℕ) (mode : String)
      → IsPast g id s
      → IsPast g id (set_mode_at s hs i mode)
  unfolding set_mode_at
  set_mode_at-IsPast s [] i mode v = v
  set_mode_at-IsPast s (h ∷ hs) zero mode v = exceptions_set-IsPast s h mode v
  set_mode_at-IsPast s (h ∷ hs) (suc i) mode v = set_mode_at-IsPast s hs i mode v

  move-IsPast :
      (w : World) (now : ℕ) (m : Move) → IsPast g id w.session → IsPast g id (move w now m).session
  unfolding move
  move-IsPast w now (connects c) v = connect-IsPast w.session now c v
  move-IsPast w now (closes i done) v = close_at-IsPast w.session now w.handles i done v
  move-IsPast w now (sets_mode i mode) v = set_mode_at-IsPast w.session w.handles i mode v
  move-IsPast w now (takes_out j gen) v =
      same-IsPast w.session (move w now (takes_out j gen)).session
        (log_removed-presence t.0 now j t.1 ∙ unfold take_out in refl)
        (log_removed-conn_gen t.0 now j t.1 ∙ unfold take_out in refl) v
    where
      t : Session × List Breakpoint
      t = take_out w.session (departed w.session j gen)
  move-IsPast w now (resets_mode j) v = unfold commit_mode in same-IsPast w.session _ refl refl v
  move-IsPast w now (finishes j gen) v = finish_leave-IsPast w.session now j gen v
  move-IsPast w now (touches c) v =
      same-IsPast w.session (touch w.session now c) (touch-presence w.session now c)
        (touch-conn_gen w.session now c) v
  move-IsPast w now exits v = same-IsPast w.session _ refl refl v

  moves-IsPast :
      (w : World) (ms : List (ℕ × Move)) → IsPast g id w.session → IsPast g id (moves w ms).session
  unfolding moves
  moves-IsPast w [] v = v
  moves-IsPast w ((now, m) ∷ ms) v = moves-IsPast (move w now m) ms (move-IsPast w now m v)

  past-has_left : (s : Session) → IsPast g id s → has_left s id g ≡ false
  unfolding has_left
  past-has_left s v = elim (Option-cases (find id s.presence)) [
    | inl missing ↦ ground (arith, missing)
    | inr (p, here) ↦ ground (arith, here, v.other)
  ]

unmatched :
    (s : Session) (id : String) (gen : ℕ)
    → has_left s id gen ≡ false
    → (b : Breakpoint) → departed s id gen b ≡ false
unfolding departed
unmatched s id gen h b = ground (arith, h)

-- A client's cleanup of generation `g` that a new connection of the client overtook passes none of
-- its checks from then on, whatever happens: its last step leaves the session as it is, the check
-- before its mode reset fails, and its matcher takes no breakpoint. Nothing is said of a mode reset
-- whose check came before the connection. A generation is one that was handed out.
pub moves-overtaken :
    (w : World) (g now : ℕ) (c : Client) (ms : List (ℕ × Move)) (later : ℕ) (b : Breakpoint)
    → g ≤ w.session.conn_gen
    → let s = (moves (move w now (connects c)) ms).session in
      (finish_leave s later c.id g ≡ s) × (resets s c.id g ≡ false) × (departed s c.id g b ≡ false)
unfolding finish_leave resets
moves-overtaken w g now c ms later b h =
    let s = (moves (move w now (connects c)) ms).session in
    let gone : has_left s c.id g ≡ false = past-has_left g c.id s (
      moves-IsPast g c.id (move w now (connects c)) ms
        (unfold move in connect-IsPast_self g w.session now c h)) in
    (ground (arith, gone), ground (arith, gone), unmatched s c.id g gone b)
