-- ===== src/EventLog/Kinds.antt =====
-- How many events of a kind an append adds to the recording.
use eyedebugger.Prelude.{
  ℕ, ◌+◌, ◌≡◌, refl, true, false, subst, List, [], ◌∷◌, ◌++◌, arith, str_eq, if◌then◌else◌,
}
use eyedebugger.Api.{Event, EventKind}
use eyedebugger.EventLog.{EventLog, stamp, append}

abbrev pub one_if : EventKind → EventKind → ℕ
one_if kind k = if str_eq k kind then 1 else 0

abbrev pub count_kind : EventKind → List Event → ℕ
count_kind kind [] = 0
count_kind kind (e ∷ es) = one_if kind e.kind + count_kind kind es

count_kind-append :
    (kind : EventKind) (es : List Event) (e : Event)
    → count_kind kind (es ++ e ∷ []) ≡ count_kind kind es + one_if kind e.kind
count_kind-append kind [] e = omega arith
count_kind-append kind (f ∷ es) e = omega (arith, count_kind-append kind es e)

-- The log is recorded as before, and the recording got `n` more events of the kind.
abbrev pub Grew : EventKind → ℕ → EventLog → EventLog → Type 0
Grew kind n l l' =
    (l'.sink ≡ l.sink)
    × (l.sink ≡ true → count_kind kind l'.recorded ≡ count_kind kind l.recorded + n)

pub same-Grew : (kind : EventKind) (l : EventLog) → Grew kind 0 l l
same-Grew kind l = (refl, λ on. omega arith)

pub Grew-trans :
    (kind : EventKind) (m n : ℕ) (l l' l'' : EventLog)
    → Grew kind m l l'
    → Grew kind n l' l''
    → Grew kind (m + n) l l''
Grew-trans kind m n l l' l'' f g = (cc (f.0, g.0), λ on. omega (arith, f.1 on, g.1 (cc (f.0, on))))

pub append-Grew :
    (kind : EventKind) (l : EventLog) (now : ℕ) (e : Event)
    → Grew kind (one_if kind e.kind) l (append l now e)
unfolding append stamp
append-Grew kind l now e = (refl, λ on. rw on (count_kind-append kind l.recorded (stamp l now e)))

pub append-silent :
    (kind : EventKind) (l : EventLog) (now : ℕ) (e : Event)
    → str_eq e.kind kind ≡ false
    → Grew kind 0 l (append l now e)
append-silent kind l now e h =
    subst (λ n. Grew kind n l (append l now e)) (ground (arith, h)) (append-Grew kind l now e)
