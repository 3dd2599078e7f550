-- ===== src/Presence/World.antt =====
-- Any interleaving of what happens to a session's connections.
use eyedebugger.Prelude.{
  ℕ, zero, suc, ◌+◌, ◌≡◌, refl, ◌∙◌, ap, String, Bool, false, not, ◌&&◌, List, [], ◌∷◌, ◌++◌, arith,
  str_eq, if◌then◌else◌,
}
use eyedebugger.Api.{Client, exited}
use eyedebugger.Session.{Session}
use eyedebugger.Presence.{
  Handle, touch, connect, exceptions_set, decrement, departed, take_out, log_removed, with_mode,
  commit_mode, finish_leave, find,
}
use eyedebugger.Presence.Counts.{
  connected, conns_of, connect-connected, decrement-connected, finish_leave-connected,
  exceptions_set-connected, log_removed-presence, touch-presence, decrement-left, connect-handle,
}

-- What can happen to a session's connections: editors connect, close one of their connections and
-- set exception modes; cleanups take breakpoints out, reset modes and finish; the program exits;
-- and lease calls and other requests come in between.
pub data Move : Type 0 where
  connects : Client → Move
  closes : ℕ → Bool → Move
  sets_mode : ℕ → String → Move
  takes_out : String → ℕ → Move
  resets_mode : String → Move
  finishes : String → ℕ → Move
  touches : Client → Move
  exits : Move

pub record World : Type 0 where
  pub session : Session
  pub handles : List Handle

-- `Leave` on one of the handles: its first phase.
unfoldable pub close_at : Session → ℕ → List Handle → ℕ → Bool → Session × List Handle
close_at s now [] i done = (s, [])
close_at s now (h ∷ hs) zero done = let r = decrement s now h done in (r.0, r.1 ∷ hs)
close_at s now (h ∷ hs) (suc i) done = let r = close_at s now hs i done in (r.0, h ∷ r.1)

-- `ExceptionsSet` on one of the handles.
unfoldable pub set_mode_at : Session → List Handle → ℕ → String → Session
set_mode_at s [] i mode = s
set_mode_at s (h ∷ hs) zero mode = exceptions_set s h mode
set_mode_at s (h ∷ hs) (suc i) mode = set_mode_at s hs i mode

unfoldable pub move : World → ℕ → Move → World
unfolding close_at set_mode_at
move w now (connects c) =
    let r = connect w.session now c in record { session = r.0; handles = w.handles ++ r.1 ∷ [] }
move w now (closes i done) =
    let r = close_at w.session now w.handles i done in record { session = r.0; handles = r.1 }
move w now (sets_mode i mode) = record w { session = set_mode_at w.session w.handles i mode }
move w now (takes_out id gen) =
    let r = take_out w.session (departed w.session id gen) in
    record w { session = log_removed r.0 now id r.1 }
move w now (resets_mode id) = record w {
  session =
      commit_mode w.session now id "none" false (with_mode w.session.exc_modes id "none" false);
}
move w now (finishes id gen) = record w { session = finish_leave w.session now id gen }
move w now (touches c) = record w { session = touch w.session now c }
move w now exits = record w { session = record w.session { state = exited } }

unfoldable pub moves : World → List (ℕ × Move) → World
moves w [] = w
moves w ((now, m) ∷ ms) = moves (move w now m) ms

-- The handles of a client that have not left.
abbrev pub open_handles : String → List Handle → ℕ
open_handles id [] = 0
open_handles id (h ∷ hs) =
    (if not h.left && str_eq h.client.id id then 1 else 0) + open_handles id hs

-- The session counts, for every client, the handles that have not left.
abbrev pub IsCounted : World → Type 0
IsCounted w = (id : String) → connected w.session id ≡ open_handles id w.handles

open_handles-append :
    (id : String) (hs : List Handle) (h : Handle)
    → open_handles id (hs ++ h ∷ [])
      ≡ open_handles id hs + (if not h.left && str_eq h.client.id id then 1 else 0)
open_handles-append id [] h = omega arith
open_handles-append id (g ∷ hs) h = omega (arith, open_handles-append id hs h)

close_at-counted :
    (s : Session) (now : ℕ) (hs : List Handle) (i : ℕ) (done : Bool) (id : String) (more : ℕ)
    → connected s id ≡ open_handles id hs + more
    → connected (close_at s now hs i done).0 id
      ≡ open_handles id (close_at s now hs i done).1 + more
unfolding close_at
close_at-counted s now [] i done id more h = h
close_at-counted s now (g ∷ hs) zero done id more h =
    ground (arith, decrement-connected s now g done id, decrement-left s now g done)
close_at-counted s now (g ∷ hs) (suc i) done id more h = omega (
  arith,
  close_at-counted s now hs i done id
      (more + (if not g.left && str_eq g.client.id id then 1 else 0)),
)

set_mode_at-connected :
    (s : Session) (hs : List Handle) (i : ℕ) (mode id : String)
    → connected (set_mode_at s hs i mode) id ≡ connected s id
unfolding set_mode_at
set_mode_at-connected s [] i mode id = refl
set_mode_at-connected s (h ∷ hs) zero mode id = exceptions_set-connected s h mode id
set_mode_at-connected s (h ∷ hs) (suc i) mode id = set_mode_at-connected s hs i mode id

take_out-connected :
    (s : Session) (now : ℕ) (id : String) (gen : ℕ) (j : String)
    → connected
        (log_removed (take_out s (departed s id gen)).0 now id (take_out s (departed s id gen)).1)
        j
      ≡ connected s j
take_out-connected s now id gen j =
    ap (λ ps. conns_of (find j ps))
      (log_removed-presence (take_out s (departed s id gen)).0 now id
        (take_out s (departed s id gen)).1)
    ∙ unfold take_out in refl

move-IsCounted : (w : World) (now : ℕ) (m : Move) → IsCounted w → IsCounted (move w now m)
unfolding move
move-IsCounted w now (connects c) v id = ground (
  arith,
  v id,
  connect-connected w.session now c id,
  connect-handle w.session now c,
  open_handles-append id w.handles (connect w.session now c).1,
)
move-IsCounted w now (closes i done) v id =
    omega (arith, close_at-counted w.session now w.handles i done id 0 (omega (arith, v id)))
move-IsCounted w now (sets_mode i mode) v id =
    set_mode_at-connected w.session w.handles i mode id ∙ v id
move-IsCounted w now (takes_out j gen) v id = take_out-connected w.session now j gen id ∙ v id
move-IsCounted w now (resets_mode j) v id = unfold commit_mode in v id
move-IsCounted w now (finishes j gen) v id = finish_leave-connected w.session now j gen id ∙ v id
move-IsCounted w now (touches c) v id =
    ap (λ ps. conns_of (find id ps)) (touch-presence w.session now c) ∙ v id
move-IsCounted w now exits v id = v id

-- Over any interleaving of connections opening and closing, mode changes, the steps of cleanups
-- (those that came too late included) and the exit of the program, the session's connection count
-- of every client is the number of the client's handles that have not left.
pub moves-IsCounted : (w : World) (ms : List (ℕ × Move)) → IsCounted w → IsCounted (moves w ms)
unfolding moves
moves-IsCounted w [] v = v
moves-IsCounted w ((now, m) ∷ ms) v = moves-IsCounted (move w now m) ms (move-IsCounted w now m v)
