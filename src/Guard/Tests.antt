-- ===== src/Guard/Tests.antt =====
-- Expressions and the check of them.
use eyedebugger.Prelude.{◌≡◌, refl, [], ◌∷◌}
use eyedebugger.Guard.{Rules, check, passes, finds, calls_name, assigns, unterminated, interpolated}
use eyedebugger.Guard.Harmless.{Answers, check-Answers}

-- Quotes " and ', the prefix f, the word if, the safe call len, and the operators = and :=
abbrev rules : Rules
rules = record {
  quotes = 34 ∷ 39 ∷ [];
  prefixes = (102 ∷ []) ∷ [];
  non_call = (105 ∷ 102 ∷ []) ∷ [];
  safe = (108 ∷ 101 ∷ 110 ∷ []) ∷ [];
  assign = (61 ∷ []) ∷ (58 ∷ 61 ∷ []) ∷ [];
}

-- len (x) == "a\""
check-call :
    check rules
      (λ w. w)
      (108 ∷ 101 ∷ 110 ∷ 32 ∷ 40 ∷ 120 ∷ 41 ∷ 61 ∷ 61 ∷ 34 ∷ 97 ∷ 92 ∷ 34 ∷ 34 ∷ [])
    ≡ passes
unfolding check
check-call = refl

-- x.len(1)
check-method :
    check rules (λ w. w) (120 ∷ 46 ∷ 108 ∷ 101 ∷ 110 ∷ 40 ∷ 49 ∷ 41 ∷ [])
    ≡ finds (calls_name (108 ∷ 101 ∷ 110 ∷ []))
unfolding check
check-method = refl

-- x =-1
check-assign : check rules (λ w. w) (120 ∷ 32 ∷ 61 ∷ 45 ∷ 49 ∷ []) ≡ finds (assigns (61 ∷ []))
unfolding check
check-assign = refl

-- f"a"
check-prefix : check rules (λ w. w) (102 ∷ 34 ∷ 97 ∷ 34 ∷ []) ≡ finds interpolated
unfolding check
check-prefix = refl

-- "a\" is not over.
check-endless : check rules (λ w. w) (34 ∷ 97 ∷ 92 ∷ 34 ∷ []) ≡ finds unterminated
unfolding check
check-endless = refl

-- 1. len(x): the dot belongs to the number, whose first digit is the scanner's last rune.
check-number_dot :
    check rules (λ w. w) (49 ∷ 46 ∷ 32 ∷ 108 ∷ 101 ∷ 110 ∷ 40 ∷ 120 ∷ 41 ∷ []) ≡ passes
unfolding check
check-number_dot = refl

-- if (x).y
check-Answers_example :
    Answers rules
      (λ w. w)
      []
      (105 ∷ 102 ∷ 32 ∷ 40 ∷ 120 ∷ 41 ∷ 46 ∷ 121 ∷ [])
      (check rules (λ w. w) (105 ∷ 102 ∷ 32 ∷ 40 ∷ 120 ∷ 41 ∷ 46 ∷ 121 ∷ []))
check-Answers_example =
    check-Answers rules (λ w. w) (105 ∷ 102 ∷ 32 ∷ 40 ∷ 120 ∷ 41 ∷ 46 ∷ 121 ∷ [])
