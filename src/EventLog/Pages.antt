-- ===== src/EventLog/Pages.antt =====
-- The log against the whole history of the session, and reading it page by page.
use eyedebugger.Prelude.{
  ℕ, suc, ◌+◌, ◌-◌, ◌≤◌, ◌<◌, ◌≡◌, refl, sym, subst, ◌∙◌, ap, Bool, true, false, inl, inr, List, [],
  ◌∷◌, ◌++◌, arith, length, take, drop, keep, take-append-drop, append_assoc, Bool-cases,
}
use eyedebugger.Api.{pos, Event, EventKind, EventsParams}
use eyedebugger.EventLog.{EventLog, event_limit, matches, query, since_of}
use eyedebugger.EventLog.Invariant.{IsValid, Numbered}
use eyedebugger.EventLog.Query.{after, wanted, query-Answers}

-- The seqs grow, from `n` on.
abbrev Rising : ℕ → List Event → Type 0
Rising n [] = Unit
Rising n (e ∷ es) = (n ≤ e.seq) × Rising (suc e.seq) es

Rising-mono : (m n : ℕ) (es : List Event) → m ≤ n → Rising n es → Rising m es
Rising-mono m n [] h r = tt
Rising-mono m n (e ∷ es) h r = (omega arith, r.1)

Numbered-Rising : (n : ℕ) (es : List Event) → Numbered n es → Rising n es
Numbered-Rising n [] num = tt
Numbered-Rising n (e ∷ es) num = (
  omega arith,
  Rising-mono (suc e.seq) (suc n) es (omega arith) (Numbered-Rising (suc n) es num.1),
)

Rising-keep : (p : Event → Bool) (n : ℕ) (es : List Event) → Rising n es → Rising n (keep p es)
Rising-keep p n [] r = tt
Rising-keep p n (e ∷ es) r = elim (Bool-cases (p e)) [
  | inl here ↦ rw here (r.0, Rising-keep p (suc e.seq) es r.1)
  | inr gone ↦
      rw gone
        (Rising-mono n (suc e.seq) (keep p es) (omega arith) (Rising-keep p (suc e.seq) es r.1))
]

Rising-after : (n c : ℕ) (es : List Event) → c < n → Rising n es → keep (after c) es ≡ es
Rising-after n c [] h r = refl
Rising-after n c (e ∷ es) h r =
    let here : after c e ≡ true = ground arith in
    rw (here, Rising-after (suc e.seq) c es (omega arith) r.1)

Rising-bound :
    (n : ℕ) (xs : List Event) (e : Event) (ys : List Event) → Rising n (xs ++ e ∷ ys) → n ≤ e.seq
Rising-bound n [] e ys r = r.0
Rising-bound n (x ∷ xs) e ys r = omega (arith, Rising-bound (suc x.seq) xs e ys r.1)

Rising-after_self : (n c : ℕ) (es : List Event) → Rising n es → Rising (suc c) (keep (after c) es)
Rising-after_self n c [] r = tt
Rising-after_self n c (e ∷ es) r = elim (Bool-cases (after c e)) [
  | inl later ↦ rw later (ground arith, Rising-keep (after c) (suc e.seq) es r.1)
  | inr gone ↦ rw gone (Rising-after_self (suc e.seq) c es r.1)
]

-- What follows an event in a rising list is what comes after its seq.
Rising-cut :
    (n : ℕ) (xs : List Event) (e : Event) (ys : List Event)
    → Rising n (xs ++ e ∷ ys)
    → keep (after e.seq) (xs ++ e ∷ ys) ≡ ys
Rising-cut n [] e ys r =
    let self : after e.seq e ≡ false = ground arith in
    rw self (Rising-after (suc e.seq) e.seq ys (omega arith) r.1)
Rising-cut n (x ∷ xs) e ys r =
    let before : x.seq < e.seq = Rising-bound (suc x.seq) xs e ys r.1 in
    let gone : after e.seq x ≡ false = ground arith in rw gone (Rising-cut (suc x.seq) xs e ys r.1)

-- Filtering by a later seq and by kind: the order of the filters does not matter.
keep_swap : (p q : Event → Bool) (es : List Event) → keep p (keep q es) ≡ keep q (keep p es)
keep_swap p q [] = refl
keep_swap p q (e ∷ es) = ground (arith, keep_swap p q es)

keep_narrow :
    (c d : ℕ) (es : List Event) → c ≤ d → keep (after d) (keep (after c) es) ≡ keep (after d) es
keep_narrow c d [] h = refl
keep_narrow c d (e ∷ es) h = ground (arith, keep_narrow c d es)

wanted_later :
    (l : EventLog) (c d : ℕ) (kinds : List EventKind)
    → c ≤ d
    → wanted l d kinds ≡ keep (after d) (wanted l c kinds)
wanted_later l c d kinds h =
    ap (keep (matches kinds)) (sym (keep_narrow c d l.events h))
    ∙ keep_swap (matches kinds) (after d) (keep (after c) l.events)

-- Reading on: after a page that holds the oldest events past seq `c` and ends in event `e`, the
-- events wanted past `c` are those of the page followed by those wanted past the seq of `e`. So a
-- reader that passes on the last seq it got misses nothing and reads nothing twice.
pub query-resume :
    (l : EventLog) (q : EventsParams) (c : ℕ) (xs : List Event) (e : Event)
    → IsValid l
    → q.newest ≡ false
    → q.since ≡ pos c
    → (query l q).events ≡ xs ++ e ∷ []
    → wanted l c q.kinds ≡ (query l q).events ++ wanted l e.seq q.kinds
query-resume l q c xs e v old at page = rw page (split ∙ ap (λ ys. (xs ++ e ∷ []) ++ ys) (sym tail))
  where
    limit : ℕ
    limit = event_limit q.limit

    rest : List Event
    rest = drop limit (wanted l c q.kinds)

    start : since_of l q.since ≡ c
    start = rw at (unfold since_of in refl)

    front : take limit (wanted l c q.kinds) ≡ xs ++ e ∷ []
    front =
        ap (λ s. take limit (wanted l s q.kinds)) (sym start)
        ∙ sym ((query-Answers l q v).oldest old)
        ∙ page

    split : wanted l c q.kinds ≡ (xs ++ e ∷ []) ++ rest
    split = sym (take-append-drop limit (wanted l c q.kinds)) ∙ ap (λ ys. ys ++ rest) front

    whole : wanted l c q.kinds ≡ xs ++ e ∷ rest
    whole = split ∙ append_assoc xs (e ∷ []) rest

    rising : Rising (suc c) (wanted l c q.kinds)
    rising = Rising-keep (matches q.kinds) (suc c) (keep (after c) l.events) (
        Rising-after_self (l.seq + 1 - length l.events) c l.events
          (Numbered-Rising (l.seq + 1 - length l.events) l.events v.numbered))

    rising' : Rising (suc c) (xs ++ e ∷ rest)
    rising' = subst (Rising (suc c)) whole rising

    later : c ≤ e.seq
    later = omega (arith, Rising-bound (suc c) xs e rest rising')

    tail : wanted l e.seq q.kinds ≡ rest
    tail =
        wanted_later l c e.seq q.kinds later
        ∙ ap (keep (after e.seq)) whole
        ∙ Rising-cut (suc c) xs e rest rising'
