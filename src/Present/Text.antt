-- ===== src/Present/Text.antt =====
-- `CutText` cuts at the start of a rune, and no earlier than it must.
use eyedebugger.Prelude.{
  ℕ, zero, suc, ◌+◌, ◌-◌, ◌≤◌, ◌<◌, ◌≡◌, ◌⊎◌, refl, sym, ◌∙◌, ap, subst, true, false, List, [], ◌∷◌,
  leb, ◌==◌, length, take, drop, drop-drop, length-drop, arith, Bool-cases, inl, inr,
}
use eyedebugger.Present.{rune_start, skip_to_rune, byte_at, back_to_rune, cut_text}

-- A text's beginning, or a byte that starts a rune.
abbrev pub IsBoundary : List ℕ → ℕ → Type 0
IsBoundary s i = (i ≡ 0) ⊎ (rune_start (byte_at s i) ≡ true)

abbrev Starts : List ℕ → ℕ → Type 0
Starts s i = (i ≡ length s) ⊎ (rune_start (byte_at s i) ≡ true)

-- The longest beginning of at most `n` bytes that ends at a boundary.
pub record IsBeginning (s : List ℕ) (n : ℕ) (r : List ℕ) : Type 0 where
  pub cut : ℕ
  pub taken : r ≡ take cut s
  pub within : cut ≤ n
  pub boundary : IsBoundary s cut
  pub longest : (j : ℕ) → j ≤ n → IsBoundary s j → j ≤ cut

-- The longest end of at most `n` bytes that begins at a rune's start, or nothing.
pub record IsEnd (s : List ℕ) (n : ℕ) (r : List ℕ) : Type 0 where
  pub cut : ℕ
  pub left : r ≡ drop cut s
  pub within : length s ≤ cut + n
  pub boundary : Starts s cut
  pub longest : (j : ℕ) → length s ≤ j + n → rune_start (byte_at s j) ≡ true → cut ≤ j

earlier :
    (s : List ℕ) (n j : ℕ) {k : ℕ}
    → rune_start (byte_at s (suc n)) ≡ false
    → j ≤ suc n
    → IsBoundary s j
    → (j ≤ n → IsBoundary s j → j ≤ k)
    → j ≤ k
earlier s n j inside h b rest = elim (Bool-cases (j == suc n)) [
  | inr before ↦ rest (ground (arith, before, h)) b
  | inl last ↦ absurd (not_there (subst (IsBoundary s) (ground (arith, last)) b))
]
  where
    not_there : IsBoundary s (suc n) → ⊥
    not_there (inl e) = omega (arith, e)
    not_there (inr e) = ground (arith, e, inside)

back_to_rune-IsBeginning : (s : List ℕ) (n : ℕ) → IsBeginning s n (take (back_to_rune s n) s)
unfolding back_to_rune
back_to_rune-IsBeginning s zero = record {
  cut = 0;
  taken = refl;
  within = omega arith;
  boundary = inl refl;
  longest = λ j h b. h;
}
back_to_rune-IsBeginning s (suc n) = elim (Bool-cases (rune_start (byte_at s (suc n)))) [
  | inl start ↦ rw (start) (record {
    cut = suc n;
    taken = refl;
    within = omega arith;
    boundary = inr start;
    longest = λ j h b. h;
  })
  | inr inside ↦
      let shorter = back_to_rune-IsBeginning s n in
      rw (inside) (record {
        cut = shorter.cut;
        taken = shorter.taken;
        within = omega (arith, shorter.within);
        boundary = shorter.boundary;
        longest = λ j h b. earlier s n j inside h b (shorter.longest j);
      })
]

record Skipped (bs r : List ℕ) : Type 0 where
  cut : ℕ
  left : r ≡ drop cut bs
  some_of : cut ≤ length bs
  boundary : Starts bs cut
  inside : (j : ℕ) → j < cut → rune_start (byte_at bs j) ≡ false

skip_to_rune-Skipped : (bs : List ℕ) → Skipped bs (skip_to_rune bs)
unfolding skip_to_rune
skip_to_rune-Skipped [] = record {
  cut = 0;
  left = refl;
  some_of = omega arith;
  boundary = inl refl;
  inside = λ j h. absurd (omega (arith, h));
}
skip_to_rune-Skipped (b ∷ bs) = elim (Bool-cases (rune_start b)) [
  | inl start ↦ rw (start) (record {
    cut = 0;
    left = refl;
    some_of = omega arith;
    boundary = inr start;
    inside = λ j h. absurd (omega (arith, h));
  })
  | inr inside ↦
      let rest = skip_to_rune-Skipped bs in
      rw (inside) (record {
        cut = suc rest.cut;
        left = rest.left;
        some_of = omega (arith, rest.some_of);
        boundary = elim rest.boundary [ inl e ↦ inl (omega (arith, e)) | inr e ↦ inr e ];
        inside = before b bs inside rest;
      })
]
  where
    before :
        (b : ℕ) (bs : List ℕ)
        → rune_start b ≡ false
        → (rest : Skipped bs (skip_to_rune bs)) → (j : ℕ) → j < suc rest.cut
        → rune_start (byte_at (b ∷ bs) j) ≡ false
    before b bs inside rest zero h = inside
    before b bs inside rest (suc j) h = rest.inside j (omega (arith, h))

byte_at-drop : (m j : ℕ) (s : List ℕ) → byte_at (drop m s) j ≡ byte_at s (m + j)
byte_at-drop zero j s = ap (byte_at s) {x = j} {y = 0 + j} (omega arith)
byte_at-drop (suc m) j [] = refl
byte_at-drop (suc m) j (b ∷ s) =
    byte_at-drop m j s ∙ ap (byte_at (b ∷ s)) {x = suc (m + j)} {y = suc m + j} (omega arith)

IsEnd-of :
    (s : List ℕ) (n : ℕ) (r : List ℕ)
    → n < length s
    → Skipped (drop (length s - n) s) r
    → IsEnd s n r
IsEnd-of s n r long k = record {
  cut = (length s - n) + k.cut;
  left = k.left ∙ drop-drop k.cut (length s - n) s;
  within = omega (arith, long);
  boundary = elim k.boundary [
    | inl e ↦ inl (omega (arith, e, long, length-drop (length s - n) s))
    | inr e ↦ inr (sym (ap rune_start (byte_at-drop (length s - n) k.cut s)) ∙ e)
  ];
  longest = λ j h b. elim (Bool-cases (leb ((length s - n) + k.cut) j)) [
    | inl after ↦ ground (arith, after)
    | inr before ↦ absurd (inside j h b (ground (arith, before)))
  ];
}
  where
    inside :
        (j : ℕ)
        → length s ≤ j + n
        → rune_start (byte_at s j) ≡ true
        → j < (length s - n) + k.cut
        → ⊥
    inside j h b lt =
        let i = j - (length s - n) in
        let at : byte_at (drop (length s - n) s) i ≡ byte_at s j =
          byte_at-drop (length s - n) i s
          ∙ ap (byte_at s) {x = (length s - n) + i} {y = j} (omega (arith, h, long)) in
        ground (arith, b, ap rune_start at, k.inside i (omega (arith, h, long, lt)))

-- Cutting a text keeps its longest beginning, or its longest end, of at most `n` bytes that falls
-- between two runes; a text of at most `n` bytes is kept whole.
pub cut_text-IsCut :
    (s : List ℕ) (n : ℕ)
    → (IsBeginning s n (cut_text s n false) × IsEnd s n (cut_text s n true))
      ⊎ ((length s ≤ n) × (cut_text s n false ≡ s) × (cut_text s n true ≡ s))
unfolding cut_text
cut_text-IsCut s n = elim (Bool-cases (leb (length s) n)) [
  | inl short ↦ rw (short) (inr (ground (arith, short), refl, refl))
  | inr long ↦ rw (long) (
      inl (
        back_to_rune-IsBeginning s n,
        IsEnd-of s n (skip_to_rune (drop (length s - n) s)) (ground (arith, long))
            (skip_to_rune-Skipped (drop (length s - n) s)),
      ))
]
