-- ===== src/Guard/Reading.antt =====
-- What a token leads the scan to.
use eyedebugger.Prelude.{
  ℕ, ◌≤◌, ◌<◌, ◌≡◌, inl, inr, refl, subst, sym, true, ◌||◌, none, some, List, [], ◌∷◌, ◌==◌, length,
  arith, Bool-cases, Option-cases,
}
use eyedebugger.StopFilter.Messages.{is_space}
use eyedebugger.Guard.{
  Rules, Scanner, Scan, goes, reports, tok_other, tok_name, tok_closer, unterminated, interpolated,
  assigns, last_of, open_paren, close_paren, close_bracket, dot, op_chars, has_rune, has_word,
  is_ident_start, is_ident_part, is_digit, span, skip_string, assignment, call, string_at,
  identifier, step,
}
use eyedebugger.Guard.Language.{
  Token, word, literal, number, paren, closer, operator, mark, IsString, InName, InNumber,
  IsOperator, StartsName, IsRun, IsHarmless, space, string, prefixed, name, digits, opens, close,
  run, other,
}
use eyedebugger.Guard.Classes.{
  Decides-yes, Decides-no, has_rune-decides, has_word-decides, is_ident_start-decides,
  is_digit-decides, is_ident_part-decides, number_part-decides, IsOperator-decides, span-IsRun,
  IsQuoted-not, assignment-none,
}
use eyedebugger.Guard.Strings.{
  skip_string-IsString, IsString-length, span-shorter, ident_part_start, number_part,
}
use eyedebugger.Guard.Tokens.{HasRead, HasRead-dot, HasRead-MayOpen, HasRead-rest}

-- What a token may lead to: the scan goes on behind it, where what is left is harmless only if all was.
abbrev pub Leads : Rules → (List ℕ → List ℕ) → List Token → List ℕ → Scan → Type 0
Leads g lower b text (reports f) = Unit
Leads g lower b text (goes s) =
    (b' : List Token) × HasRead b' s
    × (IsHarmless g lower b' s.rest → IsHarmless g lower b text)
    × (length s.rest < length text)

module _ (g : Rules) (lower : List ℕ → List ℕ) (b : List Token) (s : Scanner)
    (r : HasRead b s) where
  carried :
      (text : List ℕ) {t : Scan} (u : Scan)
      → t ≡ u
      → Leads g lower b text u
      → Leads g lower b text t
  carried text u e h = subst (Leads g lower b text) (sym e) h

  string_at-endless :
      (q : ℕ) (cs : List ℕ) → skip_string q cs ≡ none → string_at s q cs ≡ reports unterminated
  unfolding string_at
  string_at-endless q cs e = rw (e, string_at) refl

  string_at-whole :
      (q : ℕ) (cs rest : List ℕ)
      → skip_string q cs ≡ some rest
      → string_at s q cs ≡ goes (record s { rest = rest; prev = tok_other; last = q })
  unfolding string_at
  string_at-whole q cs rest e = rw (e, string_at) refl

  string_at-Leads :
      (text : List ℕ) (q : ℕ) (cs : List ℕ)
      → length cs < length text
      → ((rest : List ℕ)
          → IsString q cs rest
          → IsHarmless g lower (literal ∷ b) rest
          → IsHarmless g lower b text)
      → Leads g lower b text (string_at s q cs)
  string_at-Leads text q cs shorter build = elim (Option-cases (skip_string q cs)) [
    | inl endless ↦ carried text (reports unterminated) (string_at-endless q cs endless) tt
    | inr (rest, shut) ↦
        let whole = skip_string-IsString q cs rest shut in
        carried text (goes (record s { rest = rest; prev = tok_other; last = q }))
          (string_at-whole q cs rest shut)
          (
            literal ∷ b,
            refl,
            build rest whole,
            omega (arith, IsString-length q cs rest whole, shorter),
          )
  ]

  word-Leads :
      (c : ℕ) (cs w rest : List ℕ)
      → StartsName c
      → IsRun InName (c ∷ cs) w rest
      → length rest < length (c ∷ cs)
      → Leads g lower b (c ∷ cs) (identifier g lower s c w rest)
  unfolding identifier
  word-Leads c cs w [] start is shorter =
      (word w ∷ b, (refl, refl, HasRead-dot b s r), name start is (λ h. h), shorter)
  word-Leads c cs w (q ∷ qs) start is shorter = elim (Bool-cases (has_rune g.quotes q)) [
    | inr no_quote ↦
        carried (c ∷ cs)
          (goes (record {
            rest = q ∷ qs;
            prev = tok_name;
            name = w;
            dotted = s.last == dot;
            last = last_of c w;
          }))
          (rw no_quote refl)
          (
            word w ∷ b,
            (refl, refl, HasRead-dot b s r),
            name start is (IsQuoted-not g q qs no_quote),
            shorter,
          )
    | inl quote ↦ elim (Bool-cases (has_word g.prefixes (lower w))) [
      | inl runs ↦ carried (c ∷ cs) (reports interpolated) (rw (quote, runs) refl) tt
      | inr no_code ↦ carried (c ∷ cs) (string_at s q qs) (rw (quote, no_code) refl) (
          string_at-Leads (c ∷ cs) q qs (omega (arith, shorter)) (λ rest whole.
            prefixed w start is (Decides-yes (has_rune-decides g.quotes) q quote)
              (Decides-no (has_word-decides g.prefixes) (lower w) no_code) whole))
    ]
  ]

  open-Leads :
      (c : ℕ) (cs : List ℕ)
      → (c == open_paren) ≡ true
      → Leads g lower b (c ∷ cs) (elim (call g s) as (λ _. Scan) [
        | some f ↦ reports f
        | none ↦ goes (record s { rest = cs; prev = tok_other; last = c })
      ])
  open-Leads c cs is = elim (Option-cases (call g s)) [
    | inr (f, found) ↦ carried (c ∷ cs) (reports f) (rw found refl) tt
    | inl nothing ↦
        carried (c ∷ cs) (goes (record s { rest = cs; prev = tok_other; last = c }))
          (rw nothing refl)
          (
            paren ∷ b,
            refl,
            opens (ground (arith, is)) (HasRead-MayOpen g b s r nothing),
            omega arith,
          )
  ]

  run-Leads :
      (c : ℕ) (cs op rest : List ℕ)
      → IsOperator c
      → IsRun IsOperator (c ∷ cs) op rest
      → length rest ≤ length cs
      → Leads g lower b (c ∷ cs) (elim (assignment g.assign op) as (λ _. Scan) [
        | some op' ↦ reports (assigns op')
        | none ↦ goes (record s { rest = rest; prev = tok_other; last = c })
      ])
  run-Leads c cs op rest is reads shorter = elim (Option-cases (assignment g.assign op)) [
    | inr (op', found) ↦ carried (c ∷ cs) (reports (assigns op')) (rw found refl) tt
    | inl nothing ↦
        carried (c ∷ cs) (goes (record s { rest = rest; prev = tok_other; last = c }))
          (rw nothing refl)
          (
            operator op ∷ b,
            refl,
            run is reads (assignment-none g.assign op nothing),
            omega (arith, shorter),
          )
  ]

  pub step-Leads : (c : ℕ) (cs : List ℕ) → Leads g lower b (c ∷ cs) (step g lower s c cs)
  unfolding step
  step-Leads c cs = elim (Bool-cases (is_space c)) [
    | inl is ↦
        carried (c ∷ cs) (goes (record s { rest = cs })) (rw is refl)
          (b, HasRead-rest b s cs r, space is, omega arith)
    | inr no_space ↦ elim (Bool-cases (has_rune g.quotes c)) [
      | inl is ↦ carried (c ∷ cs) (string_at s c cs) (rw (no_space, is) refl) (
          string_at-Leads (c ∷ cs) c cs (omega arith)
            (λ rest whole. string (Decides-yes (has_rune-decides g.quotes) c is) whole))
      | inr no_quote ↦ elim (Bool-cases (is_ident_start c)) [
        | inl is ↦
            carried (c ∷ cs)
              (identifier g lower s c (span is_ident_part (c ∷ cs)).0
                (span is_ident_part (c ∷ cs)).1)
              (rw (no_space, no_quote, is) refl)
              (word-Leads c cs _ _ (Decides-yes is_ident_start-decides c is)
                (span-IsRun is_ident_part InName is_ident_part-decides (c ∷ cs))
                (omega (arith, span-shorter is_ident_part c cs (ident_part_start c is))))
        | inr no_name ↦ elim (Bool-cases (is_digit c)) [
          | inl is ↦
              carried (c ∷ cs)
                (goes (record s {
                  rest = (span (λ d. is_ident_part d || d == dot) (c ∷ cs)).1;
                  prev = tok_other;
                  last = c;
                }))
                (rw (no_space, no_quote, no_name, is) refl)
                (
                  number ∷ b,
                  refl,
                  digits (span (λ d. is_ident_part d || d == dot) (c ∷ cs)).0
                      (Decides-yes is_digit-decides c is)
                      (span-IsRun (λ d. is_ident_part d || d == dot) InNumber number_part-decides
                        (c ∷ cs)),
                  omega (
                    arith,
                    span-shorter (λ d. is_ident_part d || d == dot) c cs (number_part c is),
                  ),
                )
          | inr no_number ↦ elim (Bool-cases (c == open_paren)) [
            | inl is ↦
                carried (c ∷ cs) _ (rw (no_space, no_quote, no_name, no_number, is) refl)
                  (open-Leads c cs is)
            | inr no_open ↦ elim (Bool-cases (c == close_paren || c == close_bracket)) [
              | inl is ↦
                  carried (c ∷ cs) (goes (record s { rest = cs; prev = tok_closer; last = c }))
                    (rw (no_space, no_quote, no_name, no_number, no_open, is) refl)
                    (closer ∷ b, refl, close (ground (arith, is)), omega arith)
              | inr no_close ↦ elim (Bool-cases (has_rune op_chars c)) [
                | inl is ↦
                    carried (c ∷ cs) _
                      (rw (no_space, no_quote, no_name, no_number, no_open, no_close, is) refl)
                      (run-Leads c cs _ _ (Decides-yes IsOperator-decides c is)
                        (span-IsRun (has_rune op_chars) IsOperator IsOperator-decides (c ∷ cs))
                        (span-shorter (has_rune op_chars) c cs is))
                | inr no_op ↦
                    carried (c ∷ cs) (goes (record s { rest = cs; prev = tok_other; last = c }))
                      (rw (no_space, no_quote, no_name, no_number, no_open, no_close, no_op) refl)
                      (
                        mark c ∷ b,
                        (refl, refl),
                        other (
                          no_space,
                          Decides-no (has_rune-decides g.quotes) c no_quote,
                          Decides-no is_ident_start-decides c no_name,
                          Decides-no is_digit-decides c no_number,
                          ground (arith, no_open),
                          ground (arith, no_close),
                          ground (arith, no_close),
                          Decides-no IsOperator-decides c no_op,
                        ),
                        omega arith,
                      )
              ]
            ]
          ]
        ]
      ]
    ]
  ]
