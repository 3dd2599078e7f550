-- ===== src/Names/Arguments.antt =====
-- The names of a spec that passes are safe as arguments of a command.
use eyedebugger.Prelude.{
  ℕ, ◌≤◌, ◌<◌, ◌≡◌, ◌≢◌, inl, inr, refl, Bool, true, false, ◌&&◌, ◌||◌, none, List, [], ◌∷◌, ◌==◌,
  leb, length, arith, Bool-cases,
}
use eyedebugger.Names.{
  minus, max_ref_len, max_context_len, max_host_len, max_service_len, max_group_len, is_alnum,
  is_name_char, is_hex, every_byte, is_hex_id, grammar, valid_ref, valid_context, valid_service,
  valid_host, valid_group, has_scheme, starts_minus, is_lower_alnum, is_group_char, is_graphic,
  ContainerSpec, is_given, is_negative, validate_spec,
}

-- No space, no control character.
abbrev pub IsVisible : List ℕ → Type 0
IsVisible [] = Unit
IsVisible (b ∷ bs) = (32 < b) × (b ≢ 127) × IsVisible bs

-- An argument of at most `n` bytes that is no option.
abbrev pub IsArgument : ℕ → List ℕ → Type 0
IsArgument n s = (length s ≤ n) × (starts_minus s ≡ false) × (is_given s ≡ true) × IsVisible s

every_byte-IsVisible :
    (p : ℕ → Bool) (s : List ℕ)
    → ((b : ℕ) → p b ≡ true → (32 < b) × (b ≢ 127))
    → every_byte p s ≡ true
    → IsVisible s
unfolding every_byte
every_byte-IsVisible p [] tells h = tt
every_byte-IsVisible p (b ∷ bs) tells h = elim (Bool-cases (p b)) [
  | inl holds ↦ (
    (tells b holds).0,
    (tells b holds).1,
    every_byte-IsVisible p bs tells (ground (arith, h, holds)),
  )
  | inr fails ↦ absurd (ground (arith, h, fails))
]

alnum-visible : (b : ℕ) → is_alnum b ≡ true → (32 < b) × (b ≢ 127) × (b ≢ minus)
unfolding is_alnum
alnum-visible b h = ground (arith, h)

name_char-visible : (b : ℕ) → is_name_char b ≡ true → (32 < b) × (b ≢ 127)
unfolding is_name_char is_alnum
name_char-visible b h = ground (arith, h)

hex-visible : (b : ℕ) → is_hex b ≡ true → (32 < b) × (b ≢ 127) × (b ≢ minus)
unfolding is_hex
hex-visible b h = ground (arith, h)

grammar-IsArgument :
    (n : ℕ) (s : List ℕ) (rest : ℕ → Bool)
    → ((b : ℕ) → rest b ≡ true → (32 < b) × (b ≢ 127))
    → (leb (length s) n && grammar s is_alnum rest) ≡ true
    → IsArgument n s
unfolding grammar starts_minus is_given
grammar-IsArgument n [] rest tells h = ground (arith, h)
grammar-IsArgument n (b ∷ bs) rest tells h = elim (Bool-cases (is_alnum b)) [
  | inl holds ↦ elim (Bool-cases (every_byte rest bs)) [
    | inl all ↦ (
      ground (arith, h),
      ground (arith, alnum-visible b holds),
      refl,
      (
        (alnum-visible b holds).0,
        (alnum-visible b holds).1,
        every_byte-IsVisible rest bs tells all,
      ),
    )
    | inr some_not ↦ absurd (ground (arith, h, some_not))
  ]
  | inr fails ↦ absurd (ground (arith, h, fails))
]

every_byte-first : (p : ℕ → Bool) (b : ℕ) (bs : List ℕ) → every_byte p (b ∷ bs) ≡ true → p b ≢ false
unfolding every_byte
every_byte-first p b bs h e = ground (arith, h, e)

every_byte-fails :
    (p : ℕ → Bool) (b : ℕ) (bs : List ℕ) → every_byte p (b ∷ bs) ≡ true → every_byte p bs ≢ false
unfolding every_byte
every_byte-fails p b bs h e = ground (arith, h, e)

plus_or_name : (b : ℕ) → (is_name_char b || b == 43) ≡ true → (32 < b) × (b ≢ 127)
plus_or_name b h = elim (Bool-cases (is_name_char b)) [
  | inl named ↦ name_char-visible b named
  | inr other ↦ ground (arith, h, other)
]

hex_id-IsArgument : (s : List ℕ) → is_hex_id s ≡ true → IsArgument max_ref_len s
unfolding is_hex_id starts_minus is_given
hex_id-IsArgument [] h = ground (arith, h)
hex_id-IsArgument (b ∷ bs) h = elim (Bool-cases (is_hex b)) [
  | inl holds ↦ elim (Bool-cases (every_byte is_hex bs)) [
    | inl all ↦ (
      ground (arith, h),
      ground (arith, hex-visible b holds),
      refl,
      (
        (hex-visible b holds).0,
        (hex-visible b holds).1,
        every_byte-IsVisible is_hex bs (λ c hex. ((hex-visible c hex).0, (hex-visible c hex).1))
            all,
      ),
    )
    | inr some_not ↦ absurd (every_byte-fails is_hex b bs (ground (arith, h)) some_not)
  ]
  | inr fails ↦ absurd (every_byte-first is_hex b bs (ground (arith, h)) fails)
]

ref-IsArgument : (s : List ℕ) → valid_ref s ≡ true → IsArgument max_ref_len s
unfolding valid_ref
ref-IsArgument s h = elim (Bool-cases (is_hex_id s)) [
  | inl hex ↦ hex_id-IsArgument s hex
  | inr no_id ↦
      grammar-IsArgument max_ref_len s is_name_char name_char-visible (ground (arith, h, no_id))
]

context-IsArgument : (s : List ℕ) → valid_context s ≡ true → IsArgument max_context_len s
unfolding valid_context
context-IsArgument s h =
    grammar-IsArgument max_context_len s (λ b. is_name_char b || b == 43) plus_or_name h

service-IsArgument : (s : List ℕ) → valid_service s ≡ true → IsArgument max_service_len s
unfolding valid_service
service-IsArgument s h = grammar-IsArgument max_service_len s is_name_char name_char-visible h

group_char-visible : (b : ℕ) → is_group_char b ≡ true → (32 < b) × (b ≢ 127)
unfolding is_group_char is_lower_alnum
group_char-visible b h = ground (arith, h)

group-IsArgument : (s : List ℕ) → valid_group s ≡ true → IsArgument max_group_len s
group-IsArgument [] h = unfold valid_group in ground (arith, h)
group-IsArgument (b ∷ bs) h = elim (Bool-cases (every_byte is_group_char (b ∷ bs))) [
  | inl all ↦ (
    unfold valid_group in ground (arith, h),
    unfold valid_group is_lower_alnum starts_minus in ground (arith, h),
    unfold is_given in refl,
    every_byte-IsVisible is_group_char (b ∷ bs) group_char-visible all,
  )
  | inr some_not ↦ absurd (unfold valid_group in ground (arith, h, some_not))
]

graphic-visible : (b : ℕ) → is_graphic b ≡ true → (32 < b) × (b ≢ 127)
unfolding is_graphic
graphic-visible b h = ground (arith, h)

host-IsArgument :
    (s : List ℕ) → valid_host s ≡ true → IsArgument max_host_len s × (has_scheme s ≡ true)
unfolding valid_host
host-IsArgument [] h = absurd (unfold has_scheme in ground (arith, h))
host-IsArgument (b ∷ bs) h = elim (Bool-cases (every_byte is_graphic (b ∷ bs))) [
  | inl all ↦ (
    (
      ground (arith, h),
      ground (arith, h),
      unfold is_given in refl,
      every_byte-IsVisible is_graphic (b ∷ bs) graphic-visible all,
    ),
    ground (arith, h),
  )
  | inr some_not ↦ absurd (ground (arith, h, some_not))
]

-- A name that may be left out.
abbrev pub IsOptional : ℕ → List ℕ → Type 0
IsOptional n s = is_given s ≡ true → IsArgument n s

-- Every name of a container's spec that is let through is safe as an argument: it has a first byte
-- that is no "-", no spaces and no control characters, and at most as many bytes as its kind may
-- have; and the process id is not negative. The reference is always there, the others where given.
pub validate_spec-IsSafe :
    (s : ContainerSpec)
    → validate_spec s ≡ none
    → IsArgument max_ref_len s.ref
      × IsOptional max_host_len s.host
      × IsOptional max_context_len s.context
      × IsOptional max_service_len s.service
      × IsOptional max_group_len s.project
      × (is_negative s.pid ≡ false)
unfolding validate_spec
validate_spec-IsSafe s h = (
  ref-IsArgument s.ref (ground (arith, h)),
  (λ given. (host-IsArgument s.host (ground (arith, h, given))).0),
  (λ given. context-IsArgument s.context (ground (arith, h, given))),
  (λ given. service-IsArgument s.service (ground (arith, h, given))),
  (λ given. group-IsArgument s.project (ground (arith, h, given))),
  ground (arith, h),
)
