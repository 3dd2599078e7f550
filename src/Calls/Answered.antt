-- ===== src/Calls/Answered.antt =====
-- What the calls of a client get, in any order of steps.
use eyedebugger.Prelude.{
  ℕ, suc, ◌≡◌, inl, inr, refl, sym, subst, Bool, true, false, not, ◌&&◌, some, List, [], ◌∷◌, ◌++◌,
  ◌==◌, All, All-append, arith, Bool-cases,
}
use eyedebugger.Calls.{
  Response, Message, response, event, request, Box, empty, holds, closed, Channel, Client,
  new_client, start, unregister_in, unregister, send, close, deliver_in, deliver, dispatch,
  close_all, end_reading, respond, Move, starts, gives_up, arrives, ends, is_done, responds, move,
  moves,
}

abbrev pub is_empty : Box → Bool
is_empty empty = true
is_empty (holds r) = false
is_empty closed = false

-- A response is the one to the call's request.
abbrev pub IsOwn : ℕ → Box → Type 0
IsOwn call empty = Unit
IsOwn call (holds r) = r.request_seq ≡ call
IsOwn call closed = Unit

-- A channel that the client holds is empty, a call waits on an empty channel only while the client
-- holds it, and what it gets is the response to its request.
abbrev IsProper : Channel → Type 0
IsProper ch =
    ((ch.is_pending && not (is_empty ch.box)) ≡ false)
    × ((is_empty ch.box && ch.waits && not ch.is_pending) ≡ false)
    × IsOwn ch.call ch.box

-- After the end of the stream the client holds no channel.
abbrev IsReleased : Bool → Channel → Type 0
IsReleased ended ch = (ended && ch.is_pending) ≡ false

IsProper-unregister_in :
    (seq : ℕ) (chs : List Channel) → All IsProper chs → All IsProper (unregister_in seq chs)
unfolding unregister_in
IsProper-unregister_in seq [] h = tt
IsProper-unregister_in seq (ch ∷ chs) ((p, q, o), hs) = elim (Bool-cases (ch.call == seq)) [
  | inl same ↦ rw (same) ((refl, ground arith, o), hs)
  | inr other ↦ rw (other) ((p, q, o), IsProper-unregister_in seq chs hs)
]

IsReleased-unregister_in :
    (ended : Bool) (seq : ℕ) (chs : List Channel)
    → All (IsReleased ended) chs
    → All (IsReleased ended) (unregister_in seq chs)
unfolding unregister_in
IsReleased-unregister_in ended seq [] h = tt
IsReleased-unregister_in ended seq (ch ∷ chs) (h, hs) = elim (Bool-cases (ch.call == seq)) [
  | inl same ↦ rw (same) (ground arith, hs)
  | inr other ↦ rw (other) (h, IsReleased-unregister_in ended seq chs hs)
]

send_empty : (b : Box) (r : Response) → is_empty b ≡ true → send b r ≡ some (holds r)
unfolding send
send_empty empty r h = refl
send_empty (holds s) r h = absurd (ground (arith, h))
send_empty closed r h = absurd (ground (arith, h))

close_empty : (b : Box) → is_empty b ≡ true → close b ≡ some closed
unfolding close
close_empty empty h = refl
close_empty (holds s) h = absurd (ground (arith, h))
close_empty closed h = absurd (ground (arith, h))

-- A delivery meets an empty channel, or none.
deliver_in-IsProper :
    (r : Response) (chs : List Channel)
    → All IsProper chs
    → (new : List Channel) × (deliver_in r chs ≡ some new) × All IsProper new
unfolding deliver_in
deliver_in-IsProper r [] h = ([], refl, tt)
deliver_in-IsProper r (ch ∷ chs) ((p, q, o), hs) =
    elim (Bool-cases (ch.call == r.request_seq && ch.is_pending)) [
      | inl found ↦
          let sent = send_empty ch.box r (ground (arith, p, found)) in
          (
            record ch { box = holds r; is_pending = false } ∷ chs,
            ground (arith, found, sent),
            ((refl, refl, ground (arith, found)), hs),
          )
      | inr other ↦
          let (new, e, news) = deliver_in-IsProper r chs hs in
          (ch ∷ new, ground (arith, other, e), ((p, q, o), news))
    ]

close_all-IsProper :
    (chs : List Channel)
    → All IsProper chs
    → (new : List Channel) × (close_all chs ≡ some new)
      × All IsProper new
      × All (IsReleased true) new
unfolding close_all
close_all-IsProper [] h = ([], refl, tt, tt)
close_all-IsProper (ch ∷ chs) ((p, q, o), hs) =
    let (new, e, news, released) = close_all-IsProper chs hs in
    elim (Bool-cases ch.is_pending) [
      | inl held ↦
          let shut = close_empty ch.box (ground (arith, p, held)) in
          (
            record ch { box = closed; is_pending = false } ∷ new,
            ground (arith, e, held, shut),
            ((refl, refl, tt), news),
            (refl, released),
          )
      | inr free ↦
          (ch ∷ new, ground (arith, e, free), ((p, q, o), news), (ground (arith, free), released))
    ]

record IsSound (c : Client) : Type 0 where
  proper : All IsProper c.channels
  released : All (IsReleased c.ended) c.channels

IsReleased-live : (chs : List Channel) → All (IsReleased false) chs
IsReleased-live [] = tt
IsReleased-live (ch ∷ chs) = (refl, IsReleased-live chs)

-- A step that leaves the channels and the end as they are, or adds a channel before the end.
same_channels : (c d : Client) → d.channels ≡ c.channels → d.ended ≡ c.ended → IsSound c → IsSound d
same_channels c d e f v = record {
  proper = subst (All IsProper) (sym e) v.proper;
  released =
      subst (λ chs. All (IsReleased d.ended) chs) (sym e)
        (subst (λ ended. All (IsReleased ended) c.channels) (sym f) v.released);
}

more_channels :
    (c d : Client) (ch : Channel)
    → d.channels ≡ c.channels ++ ch ∷ []
    → d.ended ≡ false
    → IsProper ch
    → IsSound c
    → IsSound d
more_channels c d ch e f p v = record {
  proper = subst (All IsProper) (sym e) (All-append IsProper c.channels (ch ∷ []) v.proper (p, tt));
  released =
      subst (λ ended. All (IsReleased ended) d.channels) (sym f) (IsReleased-live d.channels);
}

module _ (c : Client) (v : IsSound c) where
  start-IsSound : IsSound (start c).0
  unfolding start
  start-IsSound = elim (Bool-cases c.ended) [
    | inl over ↦ same_channels c (start c).0 (ground (arith, over)) (ground (arith, over)) v
    | inr live ↦
        more_channels c (start c).0
          (record { call = suc c.seq; box = empty; is_pending = true; waits = true })
          (ground (arith, live)) (ground (arith, live)) (refl, refl, tt) v
  ]

  unregister-IsSound : (seq : ℕ) → IsSound (unregister c seq)
  unfolding unregister
  unregister-IsSound seq = record {
    proper = IsProper-unregister_in seq c.channels v.proper;
    released = IsReleased-unregister_in c.ended seq c.channels v.released;
  }

  deliver-IsSound :
      (r : Response) → c.ended ≡ false → (d : Client) × (deliver c r ≡ some d) × IsSound d
  unfolding deliver
  deliver-IsSound r live =
      let (new, e, news) = deliver_in-IsProper r c.channels v.proper in
      (
        record c { channels = new },
        ground (arith, e),
        record {
          proper = news;
          released = subst (λ ended. All (IsReleased ended) new) (sym live) (IsReleased-live new);
        },
      )

  end_reading-IsSound : (d : Client) × (end_reading c ≡ some d) × IsSound d
  unfolding end_reading
  end_reading-IsSound =
      let (new, e, news, released) = close_all-IsProper c.channels v.proper in
      (
        record c { channels = new; ended = true },
        ground (arith, e),
        record { proper = news; released = released },
      )

  respond-IsSound : (seq : ℕ) → IsSound (respond c seq)
  unfolding respond
  respond-IsSound seq = same_channels c (respond c seq) (ground arith) (ground arith) v

  move-IsSound : (m : Move) → (d : Client) × (move c m ≡ some d) × IsSound d
  unfolding move dispatch
  move-IsSound starts = ((start c).0, refl, start-IsSound)
  move-IsSound (gives_up seq) = (unregister c seq, refl, unregister-IsSound seq)
  move-IsSound (arrives m) = elim (Bool-cases c.ended) [
    | inl over ↦ (c, ground (arith, over), v)
    | inr live ↦ arrival m live
  ]
    where
      arrival :
          (m : Message) → c.ended ≡ false → (d : Client) × (move c (arrives m) ≡ some d) × IsSound d
      arrival (response r) live =
          let (d, e, w) = deliver-IsSound r live in (d, ground (arith, live, e), w)
      arrival event live = (c, ground (arith, live), v)
      arrival (request seq) live = (c, ground (arith, live), v)
  move-IsSound ends = elim (Bool-cases c.ended) [
    | inl over ↦ (c, ground (arith, over), v)
    | inr live ↦ let (d, e, w) = end_reading-IsSound in (d, ground (arith, live, e), w)
  ]
  move-IsSound is_done =
      (record c { done = c.ended }, refl, record { proper = v.proper; released = v.released })
  move-IsSound (responds seq) = (respond c seq, refl, respond-IsSound seq)

moves-IsSound :
    (c : Client) (ms : List Move) → IsSound c → (d : Client) × (moves c ms ≡ some d) × IsSound d
unfolding moves
moves-IsSound c [] v = (c, refl, v)
moves-IsSound c (m ∷ ms) v =
    let (d, e, w) = move-IsSound c v m in
    let (f, g, u) = moves-IsSound d ms w in (f, ground (arith, e, g), u)

-- What a call that still waits finds: nothing yet, or the end, or the response to its own request; and
-- after the end of the stream it never finds nothing.
abbrev pub Answers : Bool → Channel → Type 0
Answers ended ch = IsOwn ch.call ch.box × ((ended && ch.waits && is_empty ch.box) ≡ false)

Answers-all :
    (ended : Bool) (chs : List Channel)
    → All IsProper chs
    → All (IsReleased ended) chs
    → All (Answers ended) chs
Answers-all ended [] h k = tt
Answers-all ended (ch ∷ chs) ((p, q, o), hs) (k, ks) =
    ((o, ground (arith, q, k)), Answers-all ended chs hs ks)

-- Whatever happens at a client, in any order, no step blocks on a channel or panics, the response that
-- a call gets is the one to its request, and once the stream has ended every call that still waits has
-- a response or the end of its channel.
pub moves-Answers :
    (ms : List Move)
    → (c : Client) × (moves new_client ms ≡ some c) × All (Answers c.ended) c.channels
unfolding new_client
moves-Answers ms =
    let (c, e, v) = moves-IsSound new_client ms (record { proper = tt; released = tt }) in
    (c, e, Answers-all c.ended c.channels v.proper v.released)
