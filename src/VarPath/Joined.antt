-- ===== src/VarPath/Joined.antt =====
-- Segments joined to a path split into the same segments.
use eyedebugger.Prelude.{
  ℕ, zero, suc, ◌≤◌, ◌≡◌, inl, inr, refl, sym, ap, subst, ◌∙◌, Bool, true, false, List, [], ◌∷◌,
  ◌++◌, ◌==◌, length, length-append, arith,
}
use eyedebugger.VarPath.{open_bracket, dot, is_stop, segments, prepend, split_from, join_from}
use eyedebugger.VarPath.Cutting.{
  IsName, IsShut, AllSegments, Stops, cut_name-append, cut_bracket-append, split_from-index,
  split_from-dot, split_from-name,
}

module _ (c : ℕ) (cs : List ℕ) (segs : List (List ℕ)) where
  join_from-index :
      (f : Bool)
      → (c == open_bracket) ≡ true
      → join_from f ((c ∷ cs) ∷ segs) ≡ (c ∷ cs) ++ join_from false segs
  unfolding join_from
  join_from-index f e = ground (arith, e)

  pub join_from-first : join_from true ((c ∷ cs) ∷ segs) ≡ (c ∷ cs) ++ join_from false segs
  unfolding join_from
  join_from-first = refl

  join_from-name :
      is_stop c ≡ false → join_from false ((c ∷ cs) ∷ segs) ≡ dot ∷ (c ∷ cs) ++ join_from false segs
  unfolding join_from
  join_from-name e = ground (arith, e)

join_from-Stops : (segs : List (List ℕ)) → AllSegments segs → Stops (join_from false segs)
join_from-Stops [] h = unfold join_from in tt
join_from-Stops ([] ∷ segs) h = absurd h.0
join_from-Stops ((c ∷ cs) ∷ segs) (inl (is, shut), h) =
    subst Stops (sym (join_from-index c cs segs false is)) (ground (arith, is))
join_from-Stops ((c ∷ cs) ∷ segs) (inr (more, named), h) =
    subst Stops (sym (join_from-name c cs segs more)) refl

-- What the loop makes of a text.
abbrev pub Splits : ℕ → Bool → List ℕ → List (List ℕ) → Type 0
Splits fuel f s segs = split_from fuel f s ≡ segments segs

prepend-segments :
    (seg : List ℕ) (segs : List (List ℕ)) → prepend seg (segments segs) ≡ segments (seg ∷ segs)
unfolding prepend
prepend-segments seg segs = refl

index-Splits :
    (fuel : ℕ) (f : Bool) (c : ℕ) (cs rest : List ℕ) (segs : List (List ℕ))
    → (c == open_bracket) ≡ true
    → IsShut (c ∷ cs)
    → Splits fuel false rest segs
    → Splits (suc fuel) f ((c ∷ cs) ++ rest) ((c ∷ cs) ∷ segs)
index-Splits fuel f c cs rest segs is shut later =
    split_from-index fuel c (cs ++ rest) f (c ∷ cs) rest is (cut_bracket-append (c ∷ cs) rest shut)
    ∙ ap (prepend (c ∷ cs)) later
    ∙ prepend-segments (c ∷ cs) segs

name-Splits :
    (fuel : ℕ) (f : Bool) (c : ℕ) (cs rest : List ℕ) (segs : List (List ℕ))
    → is_stop c ≡ false
    → IsName cs
    → Stops rest
    → Splits fuel false rest segs
    → Splits (suc fuel) f ((c ∷ cs) ++ rest) ((c ∷ cs) ∷ segs)
name-Splits fuel f c cs rest segs more named stop later =
    let cut = cut_name-append (c ∷ cs) rest (more, named) stop in
    split_from-name fuel c (cs ++ rest) f more
    ∙ ap (λ r. prepend r.0 (split_from fuel false r.1)) cut
    ∙ ap (prepend (c ∷ cs)) later
    ∙ prepend-segments (c ∷ cs) segs

dot-Splits :
    (fuel : ℕ) (s : List ℕ) (segs : List (List ℕ))
    → Splits fuel false s segs
    → Splits (suc fuel) false (dot ∷ s) segs
dot-Splits fuel s segs later = split_from-dot fuel dot s refl ∙ later

-- One of the fuel is spent.
spend : (fuel n : ℕ) (P : ℕ → Type 0) → suc n ≤ fuel → ((m : ℕ) → n ≤ m → P (suc m)) → P fuel
spend zero n P le h = absurd (omega (arith, le))
spend (suc m) n P le h = h m (omega (arith, le))

pub join_from-Splits :
    (fuel : ℕ) (segs : List (List ℕ)) (f : Bool)
    → AllSegments segs
    → length (join_from f segs) ≤ fuel
    → Splits fuel f (join_from f segs) segs
join_from-Splits fuel [] f h enough = unfold join_from split_from in refl
join_from-Splits fuel ([] ∷ segs) f h enough = absurd h.0
join_from-Splits fuel ((c ∷ cs) ∷ segs) f (inl (is, shut), h) enough =
    subst (λ t. Splits fuel f t ((c ∷ cs) ∷ segs)) (sym (join_from-index c cs segs f is))
      (spend fuel (length (cs ++ join_from false segs))
        (λ n. Splits n f ((c ∷ cs) ++ join_from false segs) ((c ∷ cs) ∷ segs))
        (omega (arith, enough, ap length (join_from-index c cs segs f is)))
        λ n le. index-Splits n f c cs (join_from false segs) segs is shut (
          join_from-Splits n segs false h
            (omega (arith, le, length-append cs (join_from false segs)))))
join_from-Splits fuel ((c ∷ cs) ∷ segs) true (inr (more, named), h) enough =
    subst (λ t. Splits fuel true t ((c ∷ cs) ∷ segs)) (sym (join_from-first c cs segs))
      (spend fuel (length (cs ++ join_from false segs))
        (λ n. Splits n true ((c ∷ cs) ++ join_from false segs) ((c ∷ cs) ∷ segs))
        (omega (arith, enough, ap length (join_from-first c cs segs)))
        λ n le.
          name-Splits n true c cs (join_from false segs) segs more named (join_from-Stops segs h) (
            join_from-Splits n segs false h
              (omega (arith, le, length-append cs (join_from false segs)))))
join_from-Splits fuel ((c ∷ cs) ∷ segs) false (inr (more, named), h) enough =
    subst (λ t. Splits fuel false t ((c ∷ cs) ∷ segs)) (sym (join_from-name c cs segs more))
      (spend fuel (suc (length (cs ++ join_from false segs)))
        (λ n. Splits n false (dot ∷ (c ∷ cs) ++ join_from false segs) ((c ∷ cs) ∷ segs))
        (omega (arith, enough, ap length (join_from-name c cs segs more)))
        λ n le. dot-Splits n ((c ∷ cs) ++ join_from false segs) ((c ∷ cs) ∷ segs) (
          spend n ((length (cs ++ join_from false segs)))
            (λ m. Splits m false ((c ∷ cs) ++ join_from false segs) ((c ∷ cs) ∷ segs)) le
            λ m less.
              name-Splits m false c cs (join_from false segs) segs more named
                (join_from-Stops segs h)
                (join_from-Splits m segs false h
                  (omega (arith, less, length-append cs (join_from false segs))))))
