-- ===== src/StopFilter/Messages.antt =====
-- internal/session/emulate.go: the parsers of hit counts and of log messages, on code points.
pub mod RoundTrip
pub mod Hits
mod Tests
use eyedebugger.Prelude.{
  ℕ, zero, suc, ◌+◌, ◌-◌, ◌*◌, Bool, true, false, not, ◌&&◌, ◌||◌, Option, none, some, List, [],
  ◌∷◌, ◌++◌, ◌==◌, ltb, leb, length, reverse, if◌then◌else◌,
}
use eyedebugger.StopFilter.{HitOp, only, from, every, HitCondition}

-- `unicode.IsSpace`.
unfoldable pub is_space : ℕ → Bool
is_space c =
    (leb 9 c && leb c 13)
    || c == 32
    || c == 133
    || c == 160
    || c == 5760
    || (leb 8192 c && leb c 8202)
    || c == 8232
    || c == 8233
    || c == 8239
    || c == 8287
    || c == 12288

pub trim_left : List ℕ → List ℕ
unfolding is_space
trim_left [] = []
trim_left (c ∷ cs) = let rest = trim_left cs in if is_space c then rest else c ∷ cs

-- `strings.TrimSpace`.
pub trim_space : List ℕ → List ℕ
unfolding trim_left
trim_space cs = reverse (trim_left (reverse (trim_left cs)))

-- `logPart`: literal text, or an expression.
pub data Part : Type 0 where
  text : List ℕ → Part
  expr : List ℕ → Part

-- Why `parseLog` refuses a message.
pub data LogError : Type 0 where
  empty_message : LogError
  no_open : LogError
  not_closed : LogError
  no_expression : LogError
  too_many : LogError

pub data Parsed : Type 0 where
  parsed : List Part → Parsed
  refused : LogError → Parsed

abbrev pub max_log_exprs : ℕ
max_log_exprs = 10

abbrev pub open_brace : ℕ
open_brace = 123

abbrev pub close_brace : ℕ
close_brace = 125

-- `strings.IndexByte` of "}" and the cut there: what comes before it and after it.
pub cut_close : List ℕ → Option (List ℕ × List ℕ)
cut_close [] = none
cut_close (c ∷ cs) =
    let rest = cut_close cs in
    if c == close_brace
    then some ([], cs)
    else elim rest [ none ↦ none | some (a, b) ↦ some (c ∷ a, b) ]

-- The literal text so far becomes a part.
pub flush : List Part → List ℕ → List Part
flush parts [] = parts
flush parts (c ∷ cs) = parts ++ text (c ∷ cs) ∷ []

abbrev pub starts_with : ℕ → List ℕ → Bool
starts_with c [] = false
starts_with c (d ∷ ds) = d == c

-- The loop of `parseLog`, on fuel: each turn takes a code point at least.
pub parse_from : ℕ → List ℕ → List Part → List ℕ → ℕ → Parsed
unfolding cut_close flush trim_space
parse_from fuel [] parts lit exprs = parsed (flush parts lit)
parse_from zero (c ∷ cs) parts lit exprs = refused empty_message
parse_from (suc fuel) (c ∷ cs) parts lit exprs =
    let doubled = parse_from fuel (elim cs [ [] ↦ [] | d ∷ ds ↦ ds ]) parts (lit ++ c ∷ []) exprs in
    let plain = parse_from fuel cs parts (lit ++ c ∷ []) exprs in
    if (c == open_brace || c == close_brace) && starts_with c cs
    then doubled
    else if c == close_brace
    then refused no_open
    else if c == open_brace
    then elim (cut_close cs) [
      | none ↦ refused not_closed
      | some (inner, rest) ↦ elim (trim_space inner) [
        | [] ↦ refused no_expression
        | e ∷ es ↦
            if ltb max_log_exprs (suc exprs)
            then refused too_many
            else parse_from fuel rest (flush parts lit ++ expr (e ∷ es) ∷ []) [] (suc exprs)
      ]
    ]
    else plain

-- `parseLog`.
pub parse_log : List ℕ → Parsed
unfolding parse_from
parse_log msg = elim (trim_space msg) [
  | [] ↦ refused empty_message
  | c ∷ cs ↦ parse_from (length msg) msg [] [] 0
]
