-- ===== src/Present/Budget/Tests.antt =====
-- A tree of variables cut to budgets, and the theorem on it there.
use eyedebugger.Prelude.{◌≡◌, refl, String, true, false, length}
use eyedebugger.Present.Budget.{
  VarText, var, Vars, nil, cons, size_all, cost, place, add_more, add_at, fit_level, fit_queue,
  fit_vars,
}

abbrev named : String → VarText
named name = record {
  name = name;
  type_name = "int";
  value = "1";
  has_children = false;
  change = "";
  previous = "";
}

-- a, list with three members of eight, b.
abbrev tree : Vars
tree = cons (var (named "a") nil 0) (
    cons
      (var (named "l")
        (cons (var (named "0") nil 0)
          (cons (var (named "1") nil 0) (cons (var (named "2") nil 0) nil)))
        5)
      (cons (var (named "b") nil 0) nil))

members_cut : (fit_vars 54 tree).truncated ≡ true
unfolding fit_vars fit_queue fit_level cost place add_more add_at size_all
members_cut = refl

members_kept : length (fit_vars 54 tree).kept ≡ 4
unfolding fit_vars fit_queue fit_level cost place add_more add_at size_all
members_kept = refl
