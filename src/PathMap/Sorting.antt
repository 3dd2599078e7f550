-- ===== src/PathMap/Sorting.antt =====
-- Pairs sorted by the length of their roots, longest first.
use eyedebugger.Prelude.{
  ◌≤◌, ◌≡◌, inl, inr, subst, true, false, List, [], ◌∷◌, leb, leb→le, All, arith, Bool-cases,
}
use eyedebugger.PathMap.{Segment, PathPair, path_len, insert_longest, sort_longest}

pub data Among (p : PathPair) : List PathPair → Type 0 where
  at_head : {ps : List PathPair} → Among p (p ∷ ps)
  further : {q : PathPair} {ps : List PathPair} → Among p ps → Among p (q ∷ ps)

abbrev pub Sorted : List PathPair → Type 0
Sorted [] = Unit
Sorted (p ∷ ps) = All (λ q. path_len q.remote ≤ path_len p.remote) ps × Sorted ps

pub All-weaken :
    {P Q : PathPair → Type 0} (ps : List PathPair)
    → ((q : PathPair) → P q → Q q)
    → All P ps
    → All Q ps
All-weaken [] f h = tt
All-weaken (p ∷ ps) f (h, hs) = (f p h, All-weaken ps f hs)

abbrev remote_side : PathPair → List Segment
remote_side q = q.remote

insert_longest-front :
    (p q : PathPair) (qs : List PathPair)
    → leb (path_len q.remote) (path_len p.remote) ≡ true
    → insert_longest remote_side p (q ∷ qs) ≡ p ∷ q ∷ qs
unfolding insert_longest
insert_longest-front p q qs long = ground (arith, long)

insert_longest-past :
    (p q : PathPair) (qs : List PathPair)
    → leb (path_len q.remote) (path_len p.remote) ≡ false
    → insert_longest remote_side p (q ∷ qs) ≡ q ∷ insert_longest remote_side p qs
unfolding insert_longest
insert_longest-past p q qs short = ground (arith, short)

module _ (P : PathPair → Type 0) where
  All-insert_longest :
      (p : PathPair) (qs : List PathPair) → P p → All P qs → All P (insert_longest remote_side p qs)
  unfolding insert_longest
  All-insert_longest p [] h hs = (h, tt)
  All-insert_longest p (q ∷ qs) h (k, ks) =
      elim (Bool-cases (leb (path_len q.remote) (path_len p.remote))) [
        | inl long ↦ rw (long) (h, (k, ks))
        | inr short ↦ rw (short) (k, All-insert_longest p qs h ks)
      ]

  insert_longest-All :
      (p : PathPair) (qs : List PathPair) → All P (insert_longest remote_side p qs) → P p × All P qs
  unfolding insert_longest
  insert_longest-All p [] h = h
  insert_longest-All p (q ∷ qs) h =
      elim (Bool-cases (leb (path_len q.remote) (path_len p.remote))) [
        | inl long ↦ subst (All P) (insert_longest-front p q qs long) h
        | inr short ↦
            let (k, ks) = subst (All P) (insert_longest-past p q qs short) h in
            let (here, rest) = insert_longest-All p qs ks in (here, (k, rest))
      ]

  pub sort_longest-All : (ps : List PathPair) → All P (sort_longest (λ q. q.remote) ps) → All P ps
  unfolding sort_longest
  sort_longest-All [] h = tt
  sort_longest-All (p ∷ ps) h =
      let (k, ks) = insert_longest-All p (sort_longest remote_side ps) h in
      (k, sort_longest-All ps ks)

Sorted-insert_longest :
    (p : PathPair) (qs : List PathPair) → Sorted qs → Sorted (insert_longest remote_side p qs)
unfolding insert_longest
Sorted-insert_longest p [] v = (tt, tt)
Sorted-insert_longest p (q ∷ qs) (below, v) =
    elim (Bool-cases (leb (path_len q.remote) (path_len p.remote))) [
      | inl long ↦
          let le = leb→le (path_len q.remote) (path_len p.remote) long in
          rw (long) ((le, All-weaken qs (λ r k. omega (arith, le, k)) below), (below, v))
      | inr short ↦ rw (short) (
        All-insert_longest (λ r. path_len r.remote ≤ path_len q.remote) p qs (ground (arith, short))
            below,
        Sorted-insert_longest p qs v,
      )
    ]

pub Sorted-sort_longest : (ps : List PathPair) → Sorted (sort_longest (λ q. q.remote) ps)
unfolding sort_longest
Sorted-sort_longest [] = tt
Sorted-sort_longest (p ∷ ps) =
    Sorted-insert_longest p (sort_longest remote_side ps) (Sorted-sort_longest ps)

past_second : {r p q : PathPair} {qs : List PathPair} → Among r (p ∷ qs) → Among r (p ∷ q ∷ qs)
past_second at_head = at_head
past_second (further m) = further (further m)

swapped :
    {r p q : PathPair} {qs xs : List PathPair}
    → Among r (q ∷ xs)
    → (Among r xs → Among r (p ∷ qs))
    → Among r (p ∷ q ∷ qs)
swapped at_head f = further at_head
swapped (further m) f = past_second (f m)

Among-insert_longest :
    (r p : PathPair) (qs : List PathPair)
    → Among r (insert_longest remote_side p qs)
    → Among r (p ∷ qs)
unfolding insert_longest
Among-insert_longest r p [] m = m
Among-insert_longest r p (q ∷ qs) m =
    elim (Bool-cases (leb (path_len q.remote) (path_len p.remote))) [
      | inl long ↦ subst (Among r) (insert_longest-front p q qs long) m
      | inr short ↦
          swapped (subst (Among r) (insert_longest-past p q qs short) m)
            (Among-insert_longest r p qs)
    ]

past_head :
    {r p : PathPair} {xs ps : List PathPair}
    → Among r (p ∷ xs)
    → (Among r xs → Among r ps)
    → Among r (p ∷ ps)
past_head at_head f = at_head
past_head (further m) f = further (f m)

pub Among-sort_longest :
    (r : PathPair) (ps : List PathPair) → Among r (sort_longest (λ q. q.remote) ps) → Among r ps
unfolding sort_longest
Among-sort_longest r [] m = m
Among-sort_longest r (p ∷ ps) m =
    past_head (Among-insert_longest r p (sort_longest remote_side ps) m) (Among-sort_longest r ps)
