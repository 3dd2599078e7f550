-- ===== src/Anchor/Subsequence.antt =====
-- Subsequences, forwards and backwards.
use eyedebugger.Prelude.{
  ◌≤◌, ◌≡◌, refl, sym, ◌∙◌, ap, subst, List, [], ◌∷◌, ◌++◌, length, length-append, arith, reverse,
}
use mathlib.Core.List.{reverse-cons}

-- `Within s xs`: `s` is `xs` less some of its elements.
pub data Within {A : Type 0} : List A → List A → Type 0 where
  done : Within [] []
  skip : {x : A} {s xs : List A} → Within s xs → Within s (x ∷ xs)
  keep : {x : A} {s xs : List A} → Within s xs → Within (x ∷ s) (x ∷ xs)

module _ {A : Type 0} where
  pub Within-nil : (xs : List A) → Within [] xs
  Within-nil [] = done
  Within-nil (x ∷ xs) = skip (Within-nil xs)

  Within-skip_end : {s xs : List A} (x : A) → Within s xs → Within s (xs ++ x ∷ [])
  Within-skip_end x done = skip done
  Within-skip_end x (skip w) = skip (Within-skip_end x w)
  Within-skip_end x (keep w) = keep (Within-skip_end x w)

  Within-keep_end : {s xs : List A} (x : A) → Within s xs → Within (s ++ x ∷ []) (xs ++ x ∷ [])
  Within-keep_end x done = keep done
  Within-keep_end x (skip w) = skip (Within-keep_end x w)
  Within-keep_end x (keep w) = keep (Within-keep_end x w)

  pub Within-reverse : {s xs : List A} → Within s xs → Within (reverse s) (reverse xs)
  Within-reverse done = done
  Within-reverse (skip {x} {s} {xs} w) =
      subst (λ l. Within (reverse s) l) (sym (reverse-cons x xs))
        (Within-skip_end x (Within-reverse w))
  Within-reverse (keep {x} {s} {xs} w) =
      subst (λ l. Within l (reverse (x ∷ xs))) (sym (reverse-cons x s))
        (subst (λ l. Within (reverse s ++ x ∷ []) l) (sym (reverse-cons x xs))
          (Within-keep_end x (Within-reverse w)))

  Within-drop : {s xs : List A} {z : A} → Within (z ∷ s) xs → Within s xs
  Within-drop (skip w) = skip (Within-drop w)
  Within-drop (keep w) = skip w

  -- What is within a list with a head, less its own head, is within the tail.
  pub Within-tail : {s xs : List A} {z x : A} → Within (z ∷ s) (x ∷ xs) → Within s xs
  Within-tail (skip w) = Within-drop w
  Within-tail (keep w) = w

  pub Within-length : {s xs : List A} → Within s xs → length s ≤ length xs
  Within-length done = omega arith
  Within-length (skip w) = omega (arith, Within-length w)
  Within-length (keep w) = omega (arith, Within-length w)

  pub length-reverse : (xs : List A) → length (reverse xs) ≡ length xs
  length-reverse [] = refl
  length-reverse (x ∷ xs) =
      ap length (reverse-cons x xs)
      ∙ length-append (reverse xs) (x ∷ [])
      ∙ omega (arith, length-reverse xs)
