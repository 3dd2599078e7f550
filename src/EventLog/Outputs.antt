-- ===== src/EventLog/Outputs.antt =====
-- The output lines that are read around a seq.
use eyedebugger.Prelude.{
  ℕ, suc, ◌+◌, ◌-◌, ◌<◌, ◌≡◌, refl, ◌∙◌, true, false, inl, inr, List, [], ◌∷◌, map, arith, ltb, leb,
  length, keep, keep_empty, All, Bool-cases, str_eq,
}
use eyedebugger.Api.{Event, event_output}
use eyedebugger.EventLog.{EventLog, output_line, outputs, output_since, outputs_until, output_until}
use eyedebugger.EventLog.Invariant.{IsValid, Numbered}
use eyedebugger.EventLog.Query.{after, held_after-eq-keep}

outputs-keep :
    (es : List Event) → outputs es ≡ map output_line (keep (λ e. str_eq e.kind event_output) es)
unfolding outputs
outputs-keep [] = refl
outputs-keep (e ∷ es) = ground (arith, outputs-keep es)

Numbered-past :
    (n seq : ℕ) (es : List Event) → seq < n → Numbered n es → All (λ e. leb e.seq seq ≡ false) es
Numbered-past n seq [] h num = tt
Numbered-past n seq (e ∷ es) h num =
    (ground arith, Numbered-past (suc n) seq es (omega arith) num.1)

outputs_until-keep :
    (n seq : ℕ) (es : List Event)
    → Numbered n es
    → outputs_until seq es ≡ outputs (keep (λ e. leb e.seq seq) es)
unfolding outputs_until outputs
outputs_until-keep n seq [] num = refl
outputs_until-keep n seq (e ∷ es) num = elim (Bool-cases (ltb seq e.seq)) [
  | inl past ↦ rw (
    past,
    keep_empty (λ x. leb x.seq seq) (e ∷ es) (Numbered-past n seq (e ∷ es) (ground arith) num),
  )
  | inr held ↦
      let kept : leb e.seq seq ≡ true = ground arith in
      rw (held, kept, outputs_until-keep (suc n) seq es num.1)
]

-- The output lines after `since`, and those up to it, are the log's output events by their seqs.
pub output_split :
    (l : EventLog) (since : ℕ)
    → IsValid l
    → (output_since l since
        ≡ map output_line (keep (λ e. str_eq e.kind event_output) (keep (after since) l.events)))
      × (output_until l since
          ≡ map output_line
              (keep (λ e. str_eq e.kind event_output) (keep (λ e. leb e.seq since) l.events)))
unfolding output_since output_until
output_split l since v = (
  rw (held_after-eq-keep l since v) (outputs-keep (keep (after since) l.events)),
  outputs_until-keep (l.seq + 1 - length l.events) since l.events v.numbered
      ∙ outputs-keep (keep (λ e. leb e.seq since) l.events),
)
