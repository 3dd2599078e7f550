-- ===== src/Manager.antt =====
-- internal/session/manager.go: the registry of a daemon's sessions. A session is its pointer, a number,
-- and `now` stands for what `Info` says of the session when it is asked: it locks the session, not the
-- manager. Each function that holds the manager's mutex is one step.
pub mod Default
mod Tests
use eyedebugger.Prelude.{
  ℕ, zero, suc, ◌+◌, String, Bool, true, false, not, ◌&&◌, ◌||◌, Option, none, some, List, [], ◌∷◌,
  ◌++◌, ◌==◌, map, keep, length, leb, any, str_eq, if◌then◌else◌,
}

-- What the manager reads of a session's `Info`.
pub record Info : Type 0 where
  pub id : String
  pub exited : Bool
  pub group : String
  pub created_at : ℕ

-- `Manager`, its maps `sessions` and `lost`.
pub record Manager : Type 0 where
  pub sessions : List (String × ℕ)
  pub lost : List Info

-- What `Get` answers: a session, or why none; the ids of several sessions are in no order here.
pub data Got : Type 0 where
  found : ℕ → Got
  was_lost : Got
  unknown : Got
  no_sessions : Got
  several : List String → String → Got

pub lookup : String → List (String × ℕ) → Option ℕ
lookup id [] = none
lookup id ((k, s) ∷ sessions) = if str_eq k id then some s else lookup id sessions

pub lookup_lost : String → List Info → Option Info
lookup_lost id [] = none
lookup_lost id (i ∷ lost) = if str_eq i.id id then some i else lookup_lost id lost

pub all_of : Manager → List ℕ
all_of m = map (λ (e : String × ℕ). e.1) m.sessions

-- The rest of the loop of `sharedGroup`, past the first session.
pub shared_rest : String → List Info → String
shared_rest group [] = group
shared_rest group (i ∷ is) =
    let rest = shared_rest group is in
    if str_eq i.group "" || not (str_eq i.group group) then "" else rest

-- `sharedGroup`.
pub shared_group : List Info → String
unfolding shared_rest
shared_group [] = ""
shared_group (i ∷ is) = if str_eq i.group "" then "" else shared_rest i.group is

pub live_of : (ℕ → Info) → List ℕ → List ℕ
live_of now all = keep (λ (s : ℕ). not (now s).exited) all

-- The error of `only`, over the sessions to choose from.
pub choice : (ℕ → Info) → List ℕ → Got
unfolding shared_group
choice now list = several (map (λ (s : ℕ). (now s).id) list) (shared_group (map now list))

-- `only`.
pub only : (ℕ → Info) → Manager → Got
unfolding all_of live_of choice
only now m = elim (all_of m) [
  | [] ↦ no_sessions
  | s ∷ others ↦ elim (live_of now (s ∷ others)) [
    | [] ↦ elim others [ [] ↦ found s | t ∷ ts ↦ choice now (s ∷ t ∷ ts) ]
    | l ∷ ls ↦ elim ls [
      | [] ↦ found l
      | k ∷ ks ↦ elim others [ [] ↦ found s | t ∷ ts ↦ choice now (l ∷ k ∷ ks) ]
    ]
  ]
]

-- `Get`.
pub get : (ℕ → Info) → Manager → String → Got
unfolding only lookup lookup_lost
get now m id = if str_eq id "" then only now m else elim (lookup id m.sessions) [
  | some s ↦ found s
  | none ↦ elim (lookup_lost id m.lost) [ some i ↦ was_lost | none ↦ unknown ]
]

-- `delete` of a map.
pub unmap : String → List (String × ℕ) → List (String × ℕ)
unmap id [] = []
unmap id ((k, s) ∷ sessions) =
    let rest = unmap id sessions in if str_eq k id then rest else (k, s) ∷ rest

-- `add`, under the id that the session has.
pub add : (ℕ → Info) → Manager → ℕ → Manager
unfolding unmap
add now m s = record m { sessions = ((now s).id, s) ∷ unmap (now s).id m.sessions }

-- `remove`.
pub remove : Manager → String → Manager
unfolding unmap
remove m id = record m { sessions = unmap id m.sessions }

-- Whether a session's id still names it.
pub is_held : (ℕ → Info) → Manager → ℕ → Bool
unfolding lookup
is_held now m s = elim (lookup (now s).id m.sessions) [ none ↦ false | some t ↦ t == s ]

-- `removeSession`.
pub remove_session : (ℕ → Info) → Manager → ℕ → Manager × Bool
unfolding is_held remove
remove_session now m s = if is_held now m s then (remove m (now s).id, true) else (m, false)

-- The first locked part of `Stop`: a lost session is forgotten.
pub forget_lost : Manager → String → Manager × Bool
unfolding lookup_lost
forget_lost m id = elim (lookup_lost id m.lost) [
  | none ↦ (m, false)
  | some i ↦ (record m { lost = keep (λ (i : Info). not (str_eq i.id id)) m.lost }, true)
]

-- The locked part of `StopAll`, and the sessions that it then ends.
pub stop_all : Manager → Manager × List ℕ
unfolding all_of
stop_all m = (record m { sessions = [] }, all_of m)

-- `Live`.
pub live : (ℕ → Info) → Manager → ℕ
unfolding live_of all_of
live now m = length (live_of now (all_of m))

-- The loop of `newID` over the ids that are drawn.
pub new_id : Manager → List String → Option String
unfolding lookup lookup_lost
new_id m [] = none
new_id m (id ∷ ids) =
    let rest = new_id m ids in
    elim (lookup id m.sessions) [
      | some s ↦ rest
      | none ↦ elim (lookup_lost id m.lost) [ some i ↦ rest | none ↦ some id ]
    ]

-- One turn of the sort of `List`, by the time that a session was made.
insert_oldest : Info → List Info → List Info
insert_oldest i [] = i ∷ []
insert_oldest i (j ∷ js) =
    let rest = insert_oldest i js in if leb i.created_at j.created_at then i ∷ j ∷ js else j ∷ rest

sort_oldest : List Info → List Info
unfolding insert_oldest
sort_oldest [] = []
sort_oldest (i ∷ is) = insert_oldest i (sort_oldest is)

-- `List`.
pub list : (ℕ → Info) → Manager → List Info
unfolding sort_oldest all_of
list now m = sort_oldest (m.lost ++ map now (all_of m))
