-- ===== src/Present/Difference/Tests.antt =====
-- The difference of two lists of variables.
use eyedebugger.Prelude.{◌≡◌, refl, String, false}
use eyedebugger.Present.Budget.{VarText, var, nil, cons, Vars}
use eyedebugger.Present.Difference.{lookup, diff}
use eyedebugger.Present.Difference.Complete.{Shows, IsDistinct, lookup-diff-Tells}

abbrev plain : String → String → VarText
plain name value = record {
  name = name;
  type_name = "int";
  value = value;
  has_children = false;
  change = "";
  previous = "";
}

-- i went from 1 to 2, s stayed, and t came.
abbrev first_stop : Vars
first_stop = cons (var (plain "i" "1") nil 0) (cons (var (plain "s" "5") nil 0) nil)

abbrev second_stop : Vars
second_stop =
    cons (var (plain "i" "2") nil 0)
      (cons (var (plain "s" "5") nil 0) (cons (var (plain "t" "0") nil 3) nil))

second_stop-diff :
    diff first_stop second_stop
    ≡ cons
        (var (record (plain "i" "2") { change = "changed"; previous = "1" }) nil 0)
        (cons (var (record (plain "t" "0") { change = "new" }) nil 0) nil)
unfolding diff
second_stop-diff = refl

second_stop-IsDistinct : IsDistinct second_stop
unfolding lookup
second_stop-IsDistinct = (refl, (refl, (refl, tt)))

lookup-diff-Tells_example :
    Shows
      (lookup first_stop "i")
      (lookup (diff first_stop second_stop) "i")
      (lookup second_stop "i")
lookup-diff-Tells_example = lookup-diff-Tells first_stop second_stop "i" second_stop-IsDistinct
