-- ===== src/Manager/Tests.antt =====
-- A registry of concrete sessions: which of them a request is for, and the theorem there.
use eyedebugger.Prelude.{ℕ, zero, suc, ◌≡◌, ◌≢◌, ◌↔◌, ◌⊎◌, refl, String, true, false, some, [], ◌∷◌}
use eyedebugger.Manager.{
  Info, Manager, found, several, lookup, lookup_lost, all_of, live_of, only, get, choice,
  shared_group, shared_rest, add, remove, remove_session, is_held, unmap, new_id,
}
use eyedebugger.Manager.Default.{IsDefault, get-IsDefault}

-- Session 0 has exited; sessions 1 and 2 are of one group; session 3 has session 1's id.
abbrev told : ℕ → Info
told zero = record { id = "s-aaaa"; exited = true; group = ""; created_at = 1 }
told (suc zero) = record { id = "s-bbbb"; exited = false; group = "shop"; created_at = 2 }
told (suc (suc zero)) = record { id = "s-cccc"; exited = false; group = "shop"; created_at = 3 }
told (suc (suc (suc n))) = record { id = "s-bbbb"; exited = false; group = ""; created_at = 4 }

abbrev two : Manager
two = record { sessions = ("s-aaaa", 0) ∷ ("s-bbbb", 1) ∷ []; lost = [] }

abbrev three : Manager
three = record { sessions = ("s-aaaa", 0) ∷ ("s-bbbb", 1) ∷ ("s-cccc", 2) ∷ []; lost = [] }

one_live : get told two "" ≡ found 1
unfolding get only all_of live_of
one_live = refl

one_group : get told three "" ≡ several ("s-bbbb" ∷ "s-cccc" ∷ []) "shop"
unfolding get only all_of live_of choice shared_group shared_rest
one_group = refl

-- Where session 1 is stopped and its id names session 3, a late stop of session 1 leaves that one,
-- and a late detach of session 1 takes it out.
late_stop :
    (remove_session told (add told (remove two "s-bbbb") 3) 1).0.sessions
    ≡ ("s-bbbb", 3) ∷ ("s-aaaa", 0) ∷ []
unfolding remove_session is_held lookup add remove unmap
late_stop = refl

late_detach : (remove (add told (remove two "s-bbbb") 3) "s-bbbb").sessions ≡ ("s-aaaa", 0) ∷ []
unfolding add remove unmap
late_detach = refl

drawn : new_id two ("s-bbbb" ∷ "s-dddd" ∷ []) ≡ some "s-dddd"
unfolding new_id lookup lookup_lost
drawn = refl

abbrev no_id : String
no_id = ""

get-IsDefault_example : (get told two no_id ≡ found 1) ↔ (
    ((no_id ≢ "") × (lookup no_id two.sessions ≡ some 1))
    ⊎ ((no_id ≡ "") × IsDefault told (all_of two) 1))
get-IsDefault_example = get-IsDefault told two no_id 1
