-- ===== src/Guard.antt =====
-- drivers/generic/guard.go: the check of an expression for what can change the program (calls,
-- assignments, interpolated strings), on code points. The scanner's index is what is left to read.
-- `strings.ToLower` of a word is a parameter.
pub mod Language
pub mod Classes
pub mod Strings
pub mod Tokens
pub mod Reading
pub mod Harmless
mod Tests
use eyedebugger.Prelude.{
  ℕ, zero, suc, Bool, true, false, not, ◌&&◌, ◌||◌, Option, none, some, List, [], ◌∷◌, ◌++◌, ◌==◌,
  ltb, leb, length, drop, any, map, if◌then◌else◌,
}
use eyedebugger.StopFilter.Messages.{is_space}

abbrev pub backslash : ℕ
backslash = 92

abbrev pub open_paren : ℕ
open_paren = 40

abbrev pub close_paren : ℕ
close_paren = 41

abbrev pub close_bracket : ℕ
close_bracket = 93

abbrev pub equals : ℕ
equals = 61

abbrev pub dot : ℕ
dot = 46

-- `opChars`: = < > ! : + - * / % & | ^ ~ @
abbrev pub op_chars : List ℕ
op_chars = 61 ∷ 60 ∷ 62 ∷ 33 ∷ 58 ∷ 43 ∷ 45 ∷ 42 ∷ 47 ∷ 37 ∷ 38 ∷ 124 ∷ 94 ∷ 126 ∷ 64 ∷ []

-- `strings.ContainsRune`.
pub has_rune : List ℕ → ℕ → Bool
has_rune cs c = any (λ d. d == c) cs

pub same_text : List ℕ → List ℕ → Bool
same_text [] [] = true
same_text [] (d ∷ ds) = false
same_text (c ∷ cs) [] = false
same_text (c ∷ cs) (d ∷ ds) = c == d && same_text cs ds

-- A word in a set of words, a map in the code.
pub has_word : List (List ℕ) → List ℕ → Bool
unfolding same_text
has_word words w = any (λ v. same_text v w) words

-- `guard`; the prefixes are lower-case.
pub record Rules : Type 0 where
  pub quotes : List ℕ
  pub prefixes : List (List ℕ)
  pub non_call : List (List ℕ)
  pub safe : List (List ℕ)
  pub assign : List (List ℕ)

-- `tokenKind`.
pub data TokenKind : Type 0 where
  tok_other : TokenKind
  tok_name : TokenKind
  tok_closer : TokenKind

pub record Scanner : Type 0 where
  pub rest : List ℕ
  pub prev : TokenKind
  pub name : List ℕ
  pub dotted : Bool
  pub last : ℕ

-- What the check reports: `unterminated`, and the other messages by what they name.
pub data Finding : Type 0 where
  unterminated : Finding
  interpolated : Finding
  assigns : List ℕ → Finding
  calls_name : List ℕ → Finding
  calls_result : Finding

-- What a token leads to: the scan goes on, or it reports.
pub data Scan : Type 0 where
  goes : Scanner → Scan
  reports : Finding → Scan

is_letter : ℕ → Bool
is_letter c = (leb 65 c && leb c 90) || (leb 97 c && leb c 122)

pub is_digit : ℕ → Bool
is_digit c = leb 48 c && leb c 57

-- `isIdentStart` and `isIdentPart`: the letters and digits past ASCII count anyway.
pub is_ident_start : ℕ → Bool
unfolding is_letter
is_ident_start c = c == 95 || leb 128 c || is_letter c

pub is_ident_part : ℕ → Bool
unfolding is_ident_start is_digit
is_ident_part c = is_ident_start c || is_digit c

-- The longest start of a text that a test holds on, and what follows it.
pub span : (ℕ → Bool) → List ℕ → List ℕ × List ℕ
span p [] = ([], [])
span p (c ∷ cs) = let r = span p cs in if p c then (c ∷ r.0, r.1) else ([], c ∷ cs)

-- `closes`: whether a text starts with n times q.
pub closes : ℕ → ℕ → List ℕ → Bool
closes zero q cs = true
closes (suc n) q [] = false
closes (suc n) q (c ∷ cs) = c == q && closes n q cs

-- How many quotes open the string that starts with `q`, before `cs`.
pub opening : ℕ → List ℕ → ℕ
unfolding closes
opening q cs = if closes 2 q cs then 3 else 1

-- The loop of `skipString`: what follows the string, none if it does not end. A rune after a
-- backslash is passed over.
pub skip_to : ℕ → ℕ → Bool → List ℕ → Option (List ℕ)
unfolding closes
skip_to n q escaped [] = none
skip_to n q escaped (c ∷ cs) =
    let further = skip_to n q (not escaped && c == backslash) cs in
    if escaped || c == backslash
    then further
    else if closes n q (c ∷ cs)
    then some (drop n (c ∷ cs))
    else further

-- `skipString`, at the quote `q` before `cs`.
pub skip_string : ℕ → List ℕ → Option (List ℕ)
unfolding opening skip_to
skip_string q cs = skip_to (opening q cs) q false (drop (opening q cs) (q ∷ cs))

-- `strings.HasPrefix`, with what follows the prefix.
pub strip : List ℕ → List ℕ → Option (List ℕ)
strip [] run = some run
strip (c ∷ cs) [] = none
strip (c ∷ cs) (d ∷ ds) = let rest = strip cs ds in if c == d then rest else none

-- Whether a run is `op` and something other than "=" after it.
pub starts_op : List ℕ → List ℕ → Bool
unfolding strip
starts_op op run = elim (strip op run) [
  | none ↦ false
  | some [] ↦ false
  | some (c ∷ cs) ↦ not (c == equals)
]

-- `assignment`.
pub assignment : List (List ℕ) → List ℕ → Option (List ℕ)
unfolding same_text starts_op
assignment [] run = none
assignment (op ∷ ops) run =
    let others = assignment ops run in
    if same_text run op || starts_op op run then some op else others

-- `call`.
pub call : Rules → Scanner → Option Finding
unfolding has_word
call g s = elim s.prev [
  | tok_name ↦
      if has_word g.non_call s.name || (has_word g.safe s.name && not s.dotted)
      then none
      else some (calls_name s.name)
  | tok_closer ↦ some calls_result
  | tok_other ↦ none
]

last_of : ℕ → List ℕ → ℕ
last_of c [] = c
last_of c (d ∷ ds) = last_of d ds

-- `skipString` as a step.
pub string_at : Scanner → ℕ → List ℕ → Scan
unfolding skip_string
string_at s q cs = elim (skip_string q cs) [
  | none ↦ reports unterminated
  | some rest ↦ goes (record s { rest = rest; prev = tok_other; last = q })
]

-- `identifier`: the word `w`, which begins with `c`, before `rest`.
pub identifier : Rules → (List ℕ → List ℕ) → Scanner → ℕ → List ℕ → List ℕ → Scan
unfolding has_rune has_word string_at last_of
identifier g lower s c w [] =
    goes record { rest = []; prev = tok_name; name = w; dotted = s.last == dot; last = last_of c w }
identifier g lower s c w (q ∷ qs) =
    if has_rune g.quotes q
    then (if has_word g.prefixes (lower w) then reports interpolated else string_at s q qs)
    else goes record {
      rest = q ∷ qs;
      prev = tok_name;
      name = w;
      dotted = s.last == dot;
      last = last_of c w;
    }

-- `step`, at the rune `c` before `cs`.
pub step : Rules → (List ℕ → List ℕ) → Scanner → ℕ → List ℕ → Scan
unfolding has_rune string_at is_ident_start is_ident_part is_digit span identifier call assignment
    is_space
step g lower s c cs =
    let word = span is_ident_part (c ∷ cs) in
    let number = span (λ d. is_ident_part d || d == dot) (c ∷ cs) in
    let operator = span (has_rune op_chars) (c ∷ cs) in
    let other = record s { rest = cs; prev = tok_other; last = c } in
    if is_space c
    then goes (record s { rest = cs })
    else if has_rune g.quotes c
    then string_at s c cs
    else if is_ident_start c
    then identifier g lower s c word.0 word.1
    else if is_digit c
    then goes (record s { rest = number.1; prev = tok_other; last = c })
    else if c == open_paren
    then elim (call g s) [ some f ↦ reports f | none ↦ goes other ]
    else if c == close_paren || c == close_bracket
    then goes (record s { rest = cs; prev = tok_closer; last = c })
    else if has_rune op_chars c
    then elim (assignment g.assign operator.0) [
      | some op ↦ reports (assigns op)
      | none ↦ goes (record s { rest = operator.1; prev = tok_other; last = c })
    ]
    else goes other

-- What the check answers; it ran out only without fuel.
pub data Verdict : Type 0 where
  passes : Verdict
  finds : Finding → Verdict
  ran_out : Verdict

-- The loop of `check`: each turn takes a rune at least.
pub scan : Rules → (List ℕ → List ℕ) → ℕ → Scanner → Verdict
unfolding step
scan g lower zero s = elim s.rest [ [] ↦ passes | c ∷ cs ↦ ran_out ]
scan g lower (suc fuel) s = elim s.rest [
  | [] ↦ passes
  | c ∷ cs ↦ elim (step g lower s c cs) [ reports f ↦ finds f | goes s' ↦ scan g lower fuel s' ]
]

abbrev pub start_of : List ℕ → Scanner
start_of expr = record { rest = expr; prev = tok_other; name = []; dotted = false; last = 0 }

-- `check`.
pub check : Rules → (List ℕ → List ℕ) → List ℕ → Verdict
unfolding scan
check g lower expr = scan g lower (length expr) (start_of expr)

-- `set`.
pub set_of : List (List ℕ) → (List ℕ → List ℕ) → List (List ℕ)
set_of words norm = map norm words
