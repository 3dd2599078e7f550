-- ===== src/StopFilter/Messages/RoundTrip.antt =====
-- A log message that is written out from its parts parses into them.
use eyedebugger.Prelude.{
  ℕ, zero, suc, ◌+◌, ◌≤◌, ◌<◌, ◌≡◌, ◌≢◌, ◌⊎◌, refl, sym, ◌∙◌, ap, Bool, true, false, ◌||◌, some,
  List, [], ◌∷◌, ◌++◌, ◌==◌, length, length-append, append_assoc, append-nil, if◌then◌else◌, arith,
  Bool-cases, List-cases, inl, inr, All,
}
use eyedebugger.StopFilter.Messages.{
  Part, text, expr, parsed, trim_space, open_brace, close_brace, cut_close, flush, starts_with,
  parse_from, parse_log, max_log_exprs,
}

-- Literal text as a message spells it: braces doubled.
abbrev pub escape : List ℕ → List ℕ
escape [] = []
escape (c ∷ cs) = if c == open_brace || c == close_brace then c ∷ c ∷ escape cs else c ∷ escape cs

abbrev pub print : List Part → List ℕ
print [] = []
print (text t ∷ ps) = escape t ++ print ps
print (expr e ∷ ps) = open_brace ∷ e ++ close_brace ∷ print ps

-- An expression with no "}", no space round it and no "{" at its start.
abbrev pub IsExpression : List ℕ → Type 0
IsExpression e =
    (e ≢ [])
    × (starts_with open_brace e ≡ false)
    × (trim_space e ≡ e)
    × All (λ c. (c == close_brace) ≡ false) e

-- Parts that can be written out: text is not empty and no text follows text.
abbrev pub AreParts : Bool → List Part → Type 0
AreParts after_text [] = Unit
AreParts after_text (text t ∷ ps) = (after_text ≡ false) × (t ≢ []) × AreParts true ps
AreParts after_text (expr e ∷ ps) = IsExpression e × AreParts false ps

abbrev pub expressions : List Part → ℕ
expressions [] = 0
expressions (text t ∷ ps) = expressions ps
expressions (expr e ∷ ps) = suc (expressions ps)

-- Enough fuel for what is left of a message, and what the parser makes of it.
record Parses (msg rest : List ℕ) (fuel : ℕ) (parts : List Part) (lit lit' : List ℕ) (n : ℕ)
    : Type 0 where
  left : ℕ
  enough : length rest ≤ left
  same : parse_from fuel msg parts lit n ≡ parse_from left rest parts lit' n

plain_step :
    (fuel c : ℕ) (cs : List ℕ) (parts : List Part) (lit : List ℕ) (n : ℕ)
    → (c == open_brace || c == close_brace) ≡ false
    → parse_from (suc fuel) (c ∷ cs) parts lit n ≡ parse_from fuel cs parts (lit ++ c ∷ []) n
unfolding parse_from
plain_step fuel c cs parts lit n h = ground (arith, h)

doubled_step :
    (fuel c : ℕ) (cs : List ℕ) (parts : List Part) (lit : List ℕ) (n : ℕ)
    → (c == open_brace || c == close_brace) ≡ true
    → parse_from (suc fuel) (c ∷ c ∷ cs) parts lit n ≡ parse_from fuel cs parts (lit ++ c ∷ []) n
unfolding parse_from
doubled_step fuel c cs parts lit n h = ground (arith, h)

cut_close-found :
    (e rest : List ℕ)
    → All (λ c. (c == close_brace) ≡ false) e
    → cut_close (e ++ close_brace ∷ rest) ≡ some (e, rest)
unfolding cut_close
cut_close-found [] rest h = refl
cut_close-found (c ∷ e) rest (h, hs) = ground (arith, h, cut_close-found e rest hs)

expr_step :
    (fuel : ℕ) (e rest : List ℕ) (parts : List Part) (lit : List ℕ) (n : ℕ)
    → IsExpression e
    → n < max_log_exprs
    → parse_from (suc fuel) (open_brace ∷ e ++ close_brace ∷ rest) parts lit n
      ≡ parse_from fuel rest (flush parts lit ++ expr e ∷ []) [] (suc n)
unfolding parse_from
expr_step fuel [] rest parts lit n (some_text, first, trimmed, closed) h = absurd (some_text refl)
expr_step fuel (c ∷ e) rest parts lit n (some_text, first, trimmed, closed) h =
    ground (arith, h, first, trimmed, cut_close-found (c ∷ e) rest closed)

literal :
    (t rest : List ℕ) (fuel : ℕ) (parts : List Part) (lit : List ℕ) (n : ℕ)
    → length (escape t ++ rest) ≤ fuel
    → Parses (escape t ++ rest) rest fuel parts lit (lit ++ t) n
literal [] rest fuel parts lit n h = record {
  left = fuel;
  enough = h;
  same = ap (λ l. parse_from fuel rest parts l n) (sym (append-nil lit));
}
literal (c ∷ t) rest zero parts lit n h = absurd (ground (arith, h))
literal (c ∷ t) rest (suc fuel) parts lit n h =
    elim (Bool-cases (c == open_brace || c == close_brace)) [
      | inl brace ↦
          let after = literal t rest fuel parts (lit ++ c ∷ []) n (ground (arith, h, brace)) in
          record {
            left = after.left;
            enough = after.enough;
            same = rw (brace) (
                doubled_step fuel c (escape t ++ rest) parts lit n brace
                ∙ after.same
                ∙ ap (λ l. parse_from after.left rest parts l n) (append_assoc lit (c ∷ []) t));
          }
      | inr other ↦
          let after = literal t rest fuel parts (lit ++ c ∷ []) n (ground (arith, h, other)) in
          record {
            left = after.left;
            enough = after.enough;
            same = rw (other) (
                plain_step fuel c (escape t ++ rest) parts lit n other
                ∙ after.same
                ∙ ap (λ l. parse_from after.left rest parts l n) (append_assoc lit (c ∷ []) t));
          }
    ]

flush-some : (parts : List Part) (t : List ℕ) → t ≢ [] → flush parts t ≡ parts ++ text t ∷ []
unfolding flush
flush-some parts [] h = absurd (h refl)
flush-some parts (c ∷ cs) h = refl

flush-none : (parts : List Part) → flush parts [] ≡ parts
unfolding flush
flush-none parts = refl

parse_from-end :
    (fuel : ℕ) (parts : List Part) (lit : List ℕ) (n : ℕ)
    → parse_from fuel [] parts lit n ≡ parsed (flush parts lit)
unfolding parse_from
parse_from-end zero parts lit n = refl
parse_from-end (suc fuel) parts lit n = refl

-- The parts still to come are parsed after what the parser has so far.
parse_from-print :
    (fuel : ℕ) (ps parts : List Part) (lit : List ℕ) (n : ℕ) (after_text : Bool)
    → (after_text ≡ true) ⊎ (lit ≡ [])
    → AreParts after_text ps
    → expressions ps + n ≤ max_log_exprs
    → length (print ps) ≤ fuel
    → parse_from fuel (print ps) parts lit n ≡ parsed (flush parts lit ++ ps)
parse_from-print fuel [] parts lit n b s v m h =
    parse_from-end fuel parts lit n ∙ ap parsed (sym (append-nil (flush parts lit)))
parse_from-print fuel (text t ∷ ps) parts lit n b (inl yes_text) (first, some_text, v) m h =
    absurd (ground (arith, yes_text, first))
parse_from-print fuel (text t ∷ ps) parts lit n b (inr e) (first, some_text, v) m h =
    let after = literal t (print ps) fuel parts [] n h in
    ap (λ l. parse_from fuel (escape t ++ print ps) parts l n) e
    ∙ after.same
    ∙ parse_from-print after.left ps parts t n true (inl refl) v m after.enough
    ∙ ap parsed (
        ap (λ qs. qs ++ ps) (flush-some parts t some_text)
        ∙ append_assoc parts (text t ∷ []) ps
        ∙ ap (λ qs. qs ++ text t ∷ ps) (sym (flush-none parts) ∙ ap (flush parts) (sym e)))
parse_from-print zero (expr e ∷ ps) parts lit n b s (v, vs) m h = absurd (omega (arith, h))
parse_from-print (suc fuel) (expr e ∷ ps) parts lit n b s (v, vs) m h =
    expr_step fuel e (print ps) parts lit n v (omega (arith, m))
    ∙ parse_from-print fuel ps (flush parts lit ++ expr e ∷ []) [] (suc n) false (inr refl) vs
        (omega (arith, m)) (omega (arith, h, length-append e (close_brace ∷ print ps)))
    ∙ ap parsed (
        ap (λ qs. qs ++ ps) (flush-none (flush parts lit ++ expr e ∷ []))
        ∙ append_assoc (flush parts lit) (expr e ∷ []) ps)

-- A log message written out from parts, braces in the text doubled, parses into those parts, if no
-- text is empty or comes after a text, no expression is empty, begins with "{", holds a "}" or has
-- space around it, there are ten expressions at most, and the message is not all space.
pub parse_log-print :
    (ps : List Part)
    → AreParts false ps
    → expressions ps ≤ max_log_exprs
    → trim_space (print ps) ≢ []
    → parse_log (print ps) ≡ parsed ps
unfolding parse_log
parse_log-print ps v m some_text = elim (List-cases (trim_space (print ps))) [
  | inl blank ↦ absurd (some_text blank)
  | inr (c, cs, filled) ↦
      rw (filled, parse_log)
        (parse_from-print (length (print ps)) ps [] [] 0 false (inr refl) v (omega (arith, m))
            (omega arith)
          ∙ ap (λ qs. parsed (qs ++ ps)) (flush-none []))
]
