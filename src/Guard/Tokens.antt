-- ===== src/Guard/Tokens.antt =====
-- What the scanner keeps of the tokens that it read.
use eyedebugger.Prelude.{
  ℕ, ◌≡◌, inl, inr, subst, true, false, none, List, [], ◌∷◌, ◌==◌, arith, Bool-cases,
}
use eyedebugger.Guard.{Rules, Scanner, tok_other, tok_name, tok_closer, dot, has_word, call}
use eyedebugger.Guard.Language.{
  Token, word, literal, number, paren, closer, operator, mark, AfterDot, MayOpen,
}
use eyedebugger.Guard.Classes.{Decides-yes, has_word-decides}

-- A scanner that read these tokens.
abbrev pub HasRead : List Token → Scanner → Type 0
HasRead [] s = s.prev ≡ tok_other
HasRead (word w ∷ b) s = (s.prev ≡ tok_name) × (s.name ≡ w) × (AfterDot b → s.dotted ≡ true)
HasRead (closer ∷ b) s = s.prev ≡ tok_closer
HasRead (mark c ∷ b) s = (s.prev ≡ tok_other) × (s.last ≡ c)
HasRead (t ∷ b) s = s.prev ≡ tok_other

pub HasRead-dot : (b : List Token) (s : Scanner) → HasRead b s → AfterDot b → (s.last == dot) ≡ true
HasRead-dot [] s r h = absurd h
HasRead-dot (word w ∷ b) s r h = absurd h
HasRead-dot (literal ∷ b) s r h = absurd h
HasRead-dot (number ∷ b) s r h = absurd h
HasRead-dot (paren ∷ b) s r h = absurd h
HasRead-dot (closer ∷ b) s r h = absurd h
HasRead-dot (operator op ∷ b) s r h = absurd h
HasRead-dot (mark c ∷ b) s r h = ground (arith, r, h)

named-MayOpen :
    (g : Rules) (w : List ℕ) (b : List Token) (s : Scanner)
    → HasRead (word w ∷ b) s
    → call g s ≡ none
    → MayOpen g (word w ∷ b)
unfolding call
named-MayOpen g w b s (is_name, named, dotted) h = elim (Bool-cases (has_word g.non_call w)) [
  | inl no_call ↦ inl (Decides-yes (has_word-decides g.non_call) w no_call)
  | inr calls ↦
      let free : (has_word g.safe s.name ≡ true) × (s.dotted ≡ false) =
        ground (arith, is_name, named, h, calls) in
      let harmless = subst (λ v. has_word g.safe v ≡ true) named free.0 in
      inr (
        Decides-yes (has_word-decides g.safe) w harmless,
        λ after. ground (arith, dotted after, free.1),
      )
]

pub HasRead-MayOpen :
    (g : Rules) (b : List Token) (s : Scanner) → HasRead b s → call g s ≡ none → MayOpen g b
HasRead-MayOpen g [] s r h = tt
HasRead-MayOpen g (word w ∷ b) s r h = named-MayOpen g w b s r h
HasRead-MayOpen g (literal ∷ b) s r h = tt
HasRead-MayOpen g (number ∷ b) s r h = tt
HasRead-MayOpen g (paren ∷ b) s r h = tt
HasRead-MayOpen g (closer ∷ b) s r h = absurd (unfold call in ground (arith, r, h))
HasRead-MayOpen g (operator op ∷ b) s r h = tt
HasRead-MayOpen g (mark c ∷ b) s r h = tt

pub HasRead-rest :
    (b : List Token) (s : Scanner) (rest : List ℕ)
    → HasRead b s
    → HasRead b (record s { rest = rest })
HasRead-rest [] s rest r = r
HasRead-rest (word w ∷ b) s rest r = r
HasRead-rest (literal ∷ b) s rest r = r
HasRead-rest (number ∷ b) s rest r = r
HasRead-rest (paren ∷ b) s rest r = r
HasRead-rest (closer ∷ b) s rest r = r
HasRead-rest (operator op ∷ b) s rest r = r
HasRead-rest (mark c ∷ b) s rest r = r
