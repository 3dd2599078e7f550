-- ===== src/Guard/Language.antt =====
-- What reads as harmless to the guard, said without the scanner: by texts, sets and ranges.
use eyedebugger.Prelude.{ℕ, zero, suc, ◌≤◌, ◌≡◌, ◌≢◌, ◌⊎◌, true, false, List, [], ◌∷◌, ◌++◌, All}
use eyedebugger.StopFilter.Messages.{is_space}
use eyedebugger.Guard.{Rules}

-- The tokens that were read, the newest first; spaces are none.
pub data Token : Type 0 where
  word : List ℕ → Token
  literal : Token
  number : Token
  paren : Token
  closer : Token
  operator : List ℕ → Token
  mark : ℕ → Token

abbrev pub Among : {A : Type 0} → A → List A → Type 0
Among x [] = ⊥
Among x (y ∷ ys) = (x ≡ y) ⊎ Among x ys

-- A name's first code point and its others, and a digit.
abbrev pub StartsName : ℕ → Type 0
StartsName c = (c ≡ 95) ⊎ (128 ≤ c) ⊎ ((65 ≤ c) × (c ≤ 90)) ⊎ ((97 ≤ c) × (c ≤ 122))

abbrev pub IsDigit : ℕ → Type 0
IsDigit c = (48 ≤ c) × (c ≤ 57)

abbrev pub InName : ℕ → Type 0
InName c = StartsName c ⊎ IsDigit c

abbrev pub InNumber : ℕ → Type 0
InNumber c = InName c ⊎ (c ≡ 46)

-- = < > ! : + - * / % & | ^ ~ @
abbrev pub IsOperator : ℕ → Type 0
IsOperator c =
    Among c (61 ∷ 60 ∷ 62 ∷ 33 ∷ 58 ∷ 43 ∷ 45 ∷ 42 ∷ 47 ∷ 37 ∷ 38 ∷ 124 ∷ 94 ∷ 126 ∷ 64 ∷ [])

abbrev pub Stops : (ℕ → Type 0) → List ℕ → Type 0
Stops P [] = Unit
Stops P (c ∷ cs) = ¬ P c

-- The text begins with the run `w` of code points that `P` holds of, which `rest` does not go on.
abbrev pub IsRun : (ℕ → Type 0) → List ℕ → List ℕ → List ℕ → Type 0
IsRun P text w rest = (text ≡ w ++ rest) × All P w × Stops P rest

abbrev pub AfterDot : List Token → Type 0
AfterDot [] = ⊥
AfterDot (mark c ∷ before) = c ≡ 46
AfterDot (t ∷ before) = ⊥

-- Whether a "(" after these tokens calls nothing that may change the program.
abbrev pub MayOpen : Rules → List Token → Type 0
MayOpen g [] = Unit
MayOpen g (word w ∷ before) = Among w g.non_call ⊎ (Among w g.safe × ¬ AfterDot before)
MayOpen g (closer ∷ before) = ⊥
MayOpen g (t ∷ before) = Unit

abbrev pub times : ℕ → ℕ → List ℕ
times zero q = []
times (suc n) q = q ∷ times n q

-- A string's text after its quotes opened it, and what follows it: it ends at the first `n` quotes
-- that are not after a backslash.
pub data IsClosed (n q : ℕ) : List ℕ → List ℕ → Type 0 where
  ends :
      {c : ℕ} {cs rest : List ℕ} → c ≢ 92 → c ∷ cs ≡ times n q ++ rest → IsClosed n q (c ∷ cs) rest
  escape :
      {c d : ℕ} {cs rest : List ℕ} → c ≡ 92 → IsClosed n q cs rest → IsClosed n q (c ∷ d ∷ cs) rest
  plain :
      {c : ℕ} {cs rest : List ℕ}
      → c ≢ 92
      → ((later : List ℕ) → c ∷ cs ≢ times n q ++ later)
      → IsClosed n q cs rest
      → IsClosed n q (c ∷ cs) rest

-- A whole string at the quote `q`, before `cs`: three quotes open it, or one.
abbrev pub IsString : ℕ → List ℕ → List ℕ → Type 0
IsString q cs rest =
    ((inside : List ℕ) × (cs ≡ q ∷ q ∷ inside) × IsClosed 3 q inside rest)
    ⊎ (((inside : List ℕ) → cs ≢ q ∷ q ∷ inside) × IsClosed 1 q cs rest)

-- A text that starts with a quote.
abbrev pub IsQuoted : Rules → List ℕ → Type 0
IsQuoted g [] = ⊥
IsQuoted g (q ∷ qs) = Among q g.quotes

-- The run of operators is `a`, or is `a` before something other than "=".
abbrev pub Assigns : List ℕ → List ℕ → Type 0
Assigns op a = (op ≡ a) ⊎ ((c : ℕ) × (cs : List ℕ) × (op ≡ a ++ c ∷ cs) × (c ≢ 61))

-- None of the tokens that the grammar names begins with the code point.
abbrev pub IsMark : Rules → ℕ → Type 0
IsMark g c =
    (is_space c ≡ false)
    × ¬ Among c g.quotes
    × ¬ StartsName c
    × ¬ IsDigit c
    × (c ≢ 40)
    × (c ≢ 41)
    × (c ≢ 93)
    × ¬ IsOperator c

-- A text that reads as tokens that change nothing: strings that end and have no prefix that makes
-- them run code, runs of operators that are no assignment, and no call but by the words allowed.
pub data IsHarmless (g : Rules) (lower : List ℕ → List ℕ) : List Token → List ℕ → Type 0 where
  finish : {b : List Token} → IsHarmless g lower b []
  space :
      {b : List Token} {c : ℕ} {cs : List ℕ}
      → is_space c ≡ true
      → IsHarmless g lower b cs
      → IsHarmless g lower b (c ∷ cs)
  string :
      {b : List Token} {c : ℕ} {cs rest : List ℕ}
      → Among c g.quotes
      → IsString c cs rest
      → IsHarmless g lower (literal ∷ b) rest
      → IsHarmless g lower b (c ∷ cs)
  prefixed :
      {b : List Token} {c q : ℕ} {cs qs rest : List ℕ} (w : List ℕ)
      → StartsName c
      → IsRun InName (c ∷ cs) w (q ∷ qs)
      → Among q g.quotes
      → ¬ Among (lower w) g.prefixes
      → IsString q qs rest
      → IsHarmless g lower (literal ∷ b) rest
      → IsHarmless g lower b (c ∷ cs)
  name :
      {b : List Token} {c : ℕ} {cs w rest : List ℕ}
      → StartsName c
      → IsRun InName (c ∷ cs) w rest
      → ¬ IsQuoted g rest
      → IsHarmless g lower (word w ∷ b) rest
      → IsHarmless g lower b (c ∷ cs)
  digits :
      {b : List Token} {c : ℕ} {cs rest : List ℕ} (w : List ℕ)
      → IsDigit c
      → IsRun InNumber (c ∷ cs) w rest
      → IsHarmless g lower (number ∷ b) rest
      → IsHarmless g lower b (c ∷ cs)
  opens :
      {b : List Token} {c : ℕ} {cs : List ℕ}
      → c ≡ 40
      → MayOpen g b
      → IsHarmless g lower (paren ∷ b) cs
      → IsHarmless g lower b (c ∷ cs)
  close :
      {b : List Token} {c : ℕ} {cs : List ℕ}
      → (c ≡ 41) ⊎ (c ≡ 93)
      → IsHarmless g lower (closer ∷ b) cs
      → IsHarmless g lower b (c ∷ cs)
  run :
      {b : List Token} {c : ℕ} {cs op rest : List ℕ}
      → IsOperator c
      → IsRun IsOperator (c ∷ cs) op rest
      → All (λ a. ¬ Assigns op a) g.assign
      → IsHarmless g lower (operator op ∷ b) rest
      → IsHarmless g lower b (c ∷ cs)
  other :
      {b : List Token} {c : ℕ} {cs : List ℕ}
      → IsMark g c
      → IsHarmless g lower (mark c ∷ b) cs
      → IsHarmless g lower b (c ∷ cs)
