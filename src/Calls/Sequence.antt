-- ===== src/Calls/Sequence.antt =====
-- The numbers of the messages that a client writes, requests and responses, in any order of steps.
use eyedebugger.Prelude.{
  ℕ, suc, ◌≤◌, ◌<◌, ◌≡◌, inl, inr, refl, sym, subst, true, none, some, List, [], ◌∷◌, ◌++◌, arith,
  Bool-cases, Option-cases,
}
use eyedebugger.Calls.{
  Response, response, event, request, Written, Client, new_client, start, unregister, deliver,
  deliver_in, dispatch, close_all, end_reading, respond, Move, starts, gives_up, arrives, ends,
  is_done, responds, move, moves,
}

-- Numbers above `low` that ascend, to `high` at most.
abbrev pub Ascends : ℕ → List Written → ℕ → Type 0
Ascends low [] high = low ≤ high
Ascends low (w ∷ ws) high = (low < w.seq) × Ascends w.seq ws high

Ascends-append :
    (low : ℕ) (ws : List Written) (high : ℕ) (w : Written)
    → Ascends low ws high
    → w.seq ≡ suc high
    → Ascends low (ws ++ w ∷ []) (suc high)
Ascends-append low [] high w h e = (omega (arith, h, e), omega (arith, e))
Ascends-append low (v ∷ ws) high w (h, hs) e = (h, Ascends-append v.seq ws high w hs e)

Ascends-later :
    (low : ℕ) (ws : List Written) (high : ℕ) → Ascends low ws high → Ascends low ws (suc high)
Ascends-later low [] high h = omega (arith, h)
Ascends-later low (w ∷ ws) high (h, hs) = (h, Ascends-later w.seq ws high hs)

abbrev IsOrdered : Client → Type 0
IsOrdered c = Ascends 0 c.written c.seq

same_written : (c d : Client) → d.written ≡ c.written → d.seq ≡ c.seq → IsOrdered c → IsOrdered d
same_written c d e f v =
    subst (λ ws. Ascends 0 ws d.seq) (sym e) (subst (λ n. Ascends 0 c.written n) (sym f) v)

one_more :
    (c d : Client) (w : Written)
    → d.written ≡ c.written ++ w ∷ []
    → d.seq ≡ suc c.seq
    → w.seq ≡ suc c.seq
    → IsOrdered c
    → IsOrdered d
one_more c d w e f g v =
    subst (λ ws. Ascends 0 ws d.seq) (sym e)
      (subst (λ n. Ascends 0 (c.written ++ w ∷ []) n) (sym f)
        (Ascends-append 0 c.written c.seq w v g))

start-IsOrdered : (c : Client) → IsOrdered c → IsOrdered (start c).0
unfolding start
start-IsOrdered c v = elim (Bool-cases c.ended) [
  | inl over ↦
      let e : (start c).0 ≡ record c { seq = suc c.seq } = ground (arith, over) in
      subst IsOrdered (sym e) (Ascends-later 0 c.written c.seq v)
  | inr live ↦
      one_more c (start c).0 (record { seq = suc c.seq; answers = none }) (ground (arith, live))
        (ground (arith, live)) refl v
]

respond-IsOrdered : (c : Client) (seq : ℕ) → IsOrdered c → IsOrdered (respond c seq)
unfolding respond
respond-IsOrdered c seq v = elim (Bool-cases c.done) [
  | inl over ↦ same_written c (respond c seq) (ground (arith, over)) (ground (arith, over)) v
  | inr live ↦
      one_more c (respond c seq) (record { seq = suc c.seq; answers = some seq })
        (ground (arith, live)) (ground (arith, live)) refl v
]

deliver-written : (c d : Client) (r : Response) → deliver c r ≡ some d → IsOrdered c → IsOrdered d
unfolding deliver
deliver-written c d r e v = elim (Option-cases (deliver_in r c.channels)) [
  | inl stuck ↦ absurd (ground (arith, e, stuck))
  | inr (chs, sent) ↦
      let same : record c { channels = chs } ≡ d = ground (arith, e, sent) in subst IsOrdered same v
]

end_reading-written : (c d : Client) → end_reading c ≡ some d → IsOrdered c → IsOrdered d
unfolding end_reading
end_reading-written c d e v = elim (Option-cases (close_all c.channels)) [
  | inl stuck ↦ absurd (ground (arith, e, stuck))
  | inr (chs, shut) ↦
      let same : record c { channels = chs; ended = true } ≡ d = ground (arith, e, shut) in
      subst IsOrdered same v
]

some_same : (c d : Client) → some c ≡ some d → c ≡ d
some_same c d e = ground (arith, e)

move-IsOrdered : (c d : Client) (m : Move) → move c m ≡ some d → IsOrdered c → IsOrdered d
unfolding move dispatch unregister
move-IsOrdered c d starts e v = subst IsOrdered (some_same (start c).0 d e) (start-IsOrdered c v)
move-IsOrdered c d (gives_up seq) e v = subst IsOrdered (some_same (unregister c seq) d e) v
move-IsOrdered c d (arrives (response r)) e v = elim (Bool-cases c.ended) [
  | inl over ↦ subst IsOrdered (some_same c d (ground (arith, e, over))) v
  | inr live ↦ deliver-written c d r (ground (arith, e, live)) v
]
move-IsOrdered c d (arrives event) e v = subst IsOrdered (some_same c d (ground (arith, e))) v
move-IsOrdered c d (arrives (request seq)) e v =
    subst IsOrdered (some_same c d (ground (arith, e))) v
move-IsOrdered c d ends e v = elim (Bool-cases c.ended) [
  | inl over ↦ subst IsOrdered (some_same c d (ground (arith, e, over))) v
  | inr live ↦ end_reading-written c d (ground (arith, e, live)) v
]
move-IsOrdered c d is_done e v = subst IsOrdered (some_same (record c { done = c.ended }) d e) v
move-IsOrdered c d (responds seq) e v =
    subst IsOrdered (some_same (respond c seq) d e) (respond-IsOrdered c seq v)

moves-IsOrdered : (c d : Client) (ms : List Move) → moves c ms ≡ some d → IsOrdered c → IsOrdered d
unfolding moves
moves-IsOrdered c d [] e v = subst IsOrdered (some_same c d e) v
moves-IsOrdered c d (m ∷ ms) e v = elim (Option-cases (move c m)) [
  | inl stuck ↦ absurd (ground (arith, e, stuck))
  | inr (b, made) ↦ moves-IsOrdered b d ms (ground (arith, e, made)) (move-IsOrdered c b m made v)
]

-- The requests and responses that a client writes are numbered in the order of their writing, above
-- 0 and each above the one before, whatever happens between them.
pub moves-Ascends :
    (ms : List Move) (c : Client) → moves new_client ms ≡ some c → Ascends 0 c.written c.seq
unfolding new_client
moves-Ascends ms c e = moves-IsOrdered new_client c ms e (omega arith)
