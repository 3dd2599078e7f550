-- ===== src/Presence/Cleanup.antt =====
-- What the steps of a client's cleanup leave behind (`leave`, `removeBreakpoints`).
use eyedebugger.Prelude.{
  ℕ, ◌≡◌, ◌≢◌, refl, sym, ◌∙◌, ap, String, Bool, true, not, none, inl, inr, List, [], ◌∷◌, ◌++◌,
  arith, str_eq, eq_iff, if◌then◌else◌, List-cases, keep, keep-append,
}
use eyedebugger.Api.{nobody, Breakpoint}
use eyedebugger.Session.{Session}
use eyedebugger.Lease.{drop_request}
use eyedebugger.Lease.Unchanged.{drop_request-holder, set_holder-holder}
use eyedebugger.Presence.{find, delete, has_left, finish_leave, take_out, selected, kept}
use eyedebugger.Presence.Counts.{find-delete, released, released-presence}

-- The breakpoints of all files, file by file.
abbrev pub breakpoints : List (String × List Breakpoint) → List Breakpoint
breakpoints [] = []
breakpoints ((file, list) ∷ bps) = list ++ breakpoints bps

selected-keep :
    (m : Breakpoint → Bool) (bps : List (String × List Breakpoint))
    → selected m bps ≡ keep m (breakpoints bps)
unfolding selected
selected-keep m [] = refl
selected-keep m ((file, list) ∷ bps) =
    ap (λ bs. keep m list ++ bs) (selected-keep m bps) ∙ sym (keep-append m list (breakpoints bps))

kept-keep :
    (m : Breakpoint → Bool) (bps : List (String × List Breakpoint))
    → breakpoints (kept m bps) ≡ keep (λ b. not (m b)) (breakpoints bps)
unfolding kept
kept-keep m [] = refl
kept-keep m ((file, list) ∷ bps) = elim (List-cases (keep (λ b. not (m b)) list)) [
  | inl none_kept ↦
      ground
        (arith, none_kept, kept-keep m bps, keep-append (λ b. not (m b)) list (breakpoints bps))
  | inr (b, bs, some_kept) ↦
      ground
        (arith, some_kept, kept-keep m bps, keep-append (λ b. not (m b)) list (breakpoints bps))
]

-- Taking breakpoints out by a matcher splits those of the session, in their order: the ones taken
-- are those that match, the ones that stay are those that do not.
pub take_out-splits :
    (s : Session) (m : Breakpoint → Bool)
    → ((take_out s m).1 ≡ keep m (breakpoints s.bps))
      × (breakpoints (take_out s m).0.bps ≡ keep (λ b. not (m b)) (breakpoints s.bps))
unfolding take_out
take_out-splits s m = (selected-keep m s.bps, kept-keep m s.bps)

released-holder :
    (s : Session) (now : ℕ) (id : String) → id ≢ "" → (released s now id).lease.holder.id ≢ id
released-holder s now id named e = ground (
  arith,
  e,
  named,
  eq_iff (drop_request s id).lease.holder.id id,
  set_holder-holder (drop_request s id) now nobody id "release" "disconnected",
)

finish_due :
    (s : Session) (now : ℕ) (id : String) (gen : ℕ)
    → has_left s id gen ≡ true
    → finish_leave s now id gen
      ≡ record (released s now id) { presence = delete id (released s now id).presence }
unfolding finish_leave
finish_due s now id gen h = rw (h)

found_deleted :
    (s : Session) (now : ℕ) (id j : String)
    → find j (delete id (released s now id).presence)
      ≡ (if str_eq id j then none else find j s.presence)
found_deleted s now id j =
    ap (λ ps. find j (delete id ps)) (released-presence s now id) ∙ find-delete j id s.presence

released-kept :
    (s : Session) (now : ℕ) (id : String)
    → s.lease.holder.id ≢ id
    → (released s now id).lease.holder ≡ s.lease.holder
released-kept s now id other =
    ground (arith, other, eq_iff (drop_request s id).lease.holder.id id, drop_request-holder s id)

-- The last step of a cleanup that is still due: the client's entry is gone and it does not hold the
-- lease, while every other client keeps its entry, and the lease if it held it.
pub finish_leave-frees :
    (s : Session) (now : ℕ) (id : String) (gen : ℕ)
    → id ≢ ""
    → has_left s id gen ≡ true
    → let t = finish_leave s now id gen in
      (find id t.presence ≡ none)
      × (t.lease.holder.id ≢ id)
      × ((j : String) → id ≢ j → find j t.presence ≡ find j s.presence)
      × (s.lease.holder.id ≢ id → t.lease.holder ≡ s.lease.holder)
finish_leave-frees s now id gen named h = rw (finish_due s now id gen h) (
  found_deleted s now id id ∙ ground (arith, eq_iff id id),
  released-holder s now id named,
  (λ j ne. found_deleted s now id j ∙ ground (arith, ne, eq_iff id j)),
  released-kept s now id,
)
