-- ===== src/Guard/Harmless.antt =====
-- What the guard lets through.
use eyedebugger.Prelude.{
  ℕ, zero, suc, ◌≤◌, ◌<◌, ◌≡◌, ◌⊎◌, inl, inr, refl, subst, sym, List, [], ◌∷◌, length, arith,
}
use eyedebugger.Guard.{
  Rules, Scanner, Scan, goes, reports, Finding, Verdict, passes, finds, step, scan, start_of, check,
}
use eyedebugger.Guard.Language.{Token, IsHarmless, finish}
use eyedebugger.Guard.Tokens.{HasRead}
use eyedebugger.Guard.Reading.{Leads, step-Leads}

-- The scan that is not over: it passes a harmless text, or reports.
abbrev pub Answers : Rules → (List ℕ → List ℕ) → List Token → List ℕ → Verdict → Type 0
Answers g lower b text v =
    ((v ≡ passes) × IsHarmless g lower b text) ⊎ ((f : Finding) × (v ≡ finds f))

module _ (g : Rules) (lower : List ℕ → List ℕ) where
  -- What the scan answers once a token led to `sc`.
  onward : ℕ → Scan → Verdict
  onward fuel (reports f) = finds f
  onward fuel (goes s) = scan g lower fuel s

  scan-end : (fuel : ℕ) (s : Scanner) → s.rest ≡ [] → scan g lower fuel s ≡ passes
  unfolding scan
  scan-end zero s is = rw is refl
  scan-end (suc fuel) s is = rw is refl

  scan-onward :
      (fuel : ℕ) (s : Scanner) (c : ℕ) (cs : List ℕ)
      → s.rest ≡ c ∷ cs
      → scan g lower (suc fuel) s ≡ onward fuel (step g lower s c cs)
  unfolding scan onward
  scan-onward fuel s c cs is =
      rw is (elim (step g lower s c cs) [ reports f ↦ refl | goes s' ↦ refl ])

  onward-Answers :
      (fuel : ℕ) (b : List Token) (text : List ℕ) (sc : Scan)
      → Leads g lower b text sc
      → ((b' : List Token) (s : Scanner)
          → HasRead b' s
          → length s.rest < length text
          → Answers g lower b' s.rest (scan g lower fuel s))
      → Answers g lower b text (onward fuel sc)
  unfolding onward
  onward-Answers fuel b text (reports f) leads further = inr (f, refl)
  onward-Answers fuel b text (goes s) (b', r, back, shorter) further =
      elim (further b' s r shorter) [
        | inl (passed, harmless) ↦ inl (passed, back harmless)
        | inr (f, found) ↦ inr (f, found)
      ]

  scan-Answers :
      (fuel : ℕ) (b : List Token) (s : Scanner) (text : List ℕ)
      → s.rest ≡ text
      → HasRead b s
      → length text ≤ fuel
      → Answers g lower b text (scan g lower fuel s)
  scan-Answers fuel b s [] is r enough = inl (scan-end fuel s is, finish)
  scan-Answers zero b s (c ∷ cs) is r enough = absurd (omega (arith, enough))
  scan-Answers (suc fuel) b s (c ∷ cs) is r enough =
      subst (Answers g lower b (c ∷ cs)) (sym (scan-onward fuel s c cs is)) (
        onward-Answers fuel b (c ∷ cs) (step g lower s c cs) (step-Leads g lower b s r c cs)
          (λ b' s' r' shorter.
            scan-Answers fuel b' s' s'.rest refl r' (omega (arith, shorter, enough))))

-- The check of an expression returns, whatever the rules; what it passes is harmless: it reads as
-- tokens where every string ends and no prefix makes it run code, no run of operators is an
-- assignment, alone or before something other than "=", and a "(" follows neither a ")" or "]" nor a
-- name, but for the words that are no calls and for the calls that are safe, where those do not
-- follow a dot (one that ends a number is the number's, and counts as none).
pub check-Answers :
    (g : Rules) (lower : List ℕ → List ℕ) (expr : List ℕ)
    → Answers g lower [] expr (check g lower expr)
unfolding check
check-Answers g lower expr =
    scan-Answers g lower (length expr) [] (start_of expr) expr refl refl (omega arith)
