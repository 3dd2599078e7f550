-- ===== src/Present/Difference.antt =====
-- internal/present/diff.go: what changed between two lists of variables. The map by name is looked
-- up in the list itself, the last of a name first.
pub mod Complete
mod Tests
use eyedebugger.Prelude.{
  ℕ, String, Bool, true, false, not, ◌&&◌, ◌||◌, Option, none, some, str_eq, if◌then◌else◌,
}
use eyedebugger.Present.Budget.{VarText, Var, var, Vars, nil, cons}

abbrev pub change_new : String
change_new = "new"

abbrev pub change_changed : String
change_changed = "changed"

-- `before`, by a name.
pub lookup : Vars → String → Option VarText
lookup nil n = none
lookup (cons (var t kids more) vs) n =
    let later = lookup vs n in
    elim later [ some u ↦ some u | none ↦ if str_eq t.name n then some t else none ]

pub differs : VarText → VarText → Bool
differs old t = not (str_eq old.value t.value) || not (str_eq old.type_name t.type_name)

-- `Diff`.
pub diff : Vars → Vars → Vars
unfolding lookup differs
diff prev nil = nil
diff prev (cons (var t kids more) vs) =
    let rest = diff prev vs in
    elim (lookup prev t.name) [
      | none ↦ cons (var (record t { change = change_new }) nil 0) rest
      | some old ↦
          if differs old t
          then cons (var (record t { change = change_changed; previous = old.value }) nil 0) rest
          else rest
    ]
