-- ===== src/Frame/Language.antt =====
-- The byte strings that the reader accepts.
use eyedebugger.Prelude.{
  ℕ, suc, ◌+◌, ◌-◌, ◌*◌, ◌≤◌, ◌≡◌, ◌≢◌, refl, sym, ◌∙◌, ap, subst, List, [], ◌∷◌, ◌++◌, ltb, leb,
  take, drop, length, ◌&&◌, arith, Bool-cases, inl, inr, ◌⊎◌, All, take-append-drop, length-take,
}
use eyedebugger.Frame.{
  FrameError, Read, got, failed, unexpected, expect, read_length, read_header, read_message,
  content_length_prefix,
}

abbrev pub IsDigit : ℕ → Type 0
IsDigit b = (48 ≤ b) × (b ≤ 57)

-- The number that digits name after those read so far.
abbrev pub value : ℕ → List ℕ → ℕ
value n [] = n
value n (d ∷ ds) = value (n * 10 + (d - 48)) ds

-- "Content-Length: N\r\n\r\n" with N of 1 to 10 digits and at most `max`, then N bytes.
pub record IsMessage (max : ℕ) (bs content rest : List ℕ) : Type 0 where
  pub digits : List ℕ
  pub form : bs ≡ content_length_prefix ++ digits ++ 13 ∷ 10 ∷ 13 ∷ 10 ∷ (content ++ rest)
  pub decimal_digits : All IsDigit digits
  pub some_digit : 1 ≤ length digits
  pub few_digits : length digits ≤ 10
  pub announced : value 0 digits ≡ length content
  pub bounded : length content ≤ max

expect-got :
    (err later : FrameError) (ws bs rest : List ℕ)
    → expect err later ws bs ≡ got tt rest
    → bs ≡ ws ++ rest
unfolding expect
expect-got err later [] bs rest h = ground (arith, h)
expect-got err later (w ∷ ws) [] rest h = ground (arith, h)
expect-got err later (w ∷ ws) (b ∷ bs) rest h = ground (arith, h, expect-got later later ws bs rest)

-- What `readLength` accepts after `d` digits.
record IsLength (n d m : ℕ) (bs rest : List ℕ) : Type 0 where
  digits : List ℕ
  form : bs ≡ digits ++ 13 ∷ rest
  decimal_digits : All IsDigit digits
  some_digit : 1 ≤ length digits + d
  few_digits : length digits + d ≤ 10
  read : value n digits ≡ m

one_more :
    (n d m b : ℕ) (bs rest : List ℕ)
    → IsDigit b
    → IsLength (n * 10 + (b - 48)) (suc d) m bs rest
    → IsLength n d m (b ∷ bs) rest
one_more n d m b bs rest i r = record {
  digits = b ∷ r.digits;
  form = ap (λ xs. b ∷ xs) r.form;
  decimal_digits = (i, r.decimal_digits);
  some_digit = omega arith;
  few_digits = omega (arith, r.few_digits);
  read = r.read;
}

read_length-got :
    (last : FrameError) (n d m : ℕ) (bs rest : List ℕ)
    → d ≤ 10
    → read_length last n d bs ≡ got m rest
    → IsLength n d m bs rest
unfolding read_length
read_length-got last n d m [] rest few h = absurd (ground (arith, h))
read_length-got last n d m (b ∷ bs) rest few h =
    elim (Bool-cases (leb 48 b && leb b 57 && ltb d 10)) [
      | inl digit ↦ one_more n d m b bs rest (ground (arith, digit)) (
          read_length-got last (n * 10 + (b - 48)) (suc d) m bs rest (ground (arith, digit))
            (ground (arith, h, digit)))
      | inr other ↦ record {
        digits = [];
        form = ground (arith, h, other);
        decimal_digits = tt;
        some_digit = ground (arith, h, other);
        few_digits = omega (arith, few);
        read = ground (arith, h, other);
      }
    ]

Read-cases :
    {A : Type 0} (r : Read A)
    → ((a : A) × (bs : List ℕ) × (r ≡ got a bs))
      ⊎ ((e : FrameError) × (bs : List ℕ) × (r ≡ failed e bs))
Read-cases (got a bs) = inl (a, bs, refl)
Read-cases (failed e bs) = inr (e, bs, refl)

-- What `readHeader` accepts.
record IsHeader (n : ℕ) (bs rest : List ℕ) : Type 0 where
  after_prefix : List ℕ
  prefix_form : bs ≡ content_length_prefix ++ after_prefix
  length_form : IsLength 0 0 n after_prefix (10 ∷ 13 ∷ 10 ∷ rest)

expect_failed :
    (last : FrameError) (n : ℕ) (bs rest : List ℕ) (e : FrameError) (left : List ℕ)
    → expect last (unexpected last) content_length_prefix bs ≡ failed e left
    → read_header last bs ≢ got n rest
unfolding read_header
expect_failed last n bs rest e left h k = ground (arith, h, k)

length_failed :
    (last : FrameError) (n : ℕ) (bs after rest : List ℕ) (e : FrameError) (left : List ℕ)
    → expect last (unexpected last) content_length_prefix bs ≡ got tt after
    → read_length last 0 0 after ≡ failed e left
    → read_header last bs ≢ got n rest
unfolding read_header
length_failed last n bs after rest e left h g k = ground (arith, h, g, k)

header_end :
    (last : FrameError) (n m : ℕ) (bs after left rest : List ℕ)
    → expect last (unexpected last) content_length_prefix bs ≡ got tt after
    → read_length last 0 0 after ≡ got m left
    → read_header last bs ≡ got n rest
    → (m ≡ n) × (expect (unexpected last) (unexpected last) (10 ∷ 13 ∷ 10 ∷ []) left ≡ got tt rest)
unfolding read_header
header_end last n m bs after left rest h g k = ground (arith, h, g, k)

read_header-got :
    (last : FrameError) (n : ℕ) (bs rest : List ℕ)
    → read_header last bs ≡ got n rest
    → IsHeader n bs rest
read_header-got last n bs rest h =
    elim (Read-cases (expect last (unexpected last) content_length_prefix bs)) [
      | inr (e, left, bad) ↦ absurd (expect_failed last n bs rest e left bad h)
      | inl (u, after, good) ↦ elim (Read-cases (read_length last 0 0 after)) [
        | inr (e, left, bad) ↦ absurd (length_failed last n bs after rest e left good bad h)
        | inl (m, left, counted) ↦
            let ends = header_end last n m bs after left rest good counted h in
            record {
              after_prefix = after;
              prefix_form = expect-got last (unexpected last) content_length_prefix bs after good;
              length_form =
                  subst (λ l. IsLength 0 0 n after l)
                    (expect-got (unexpected last) (unexpected last) (10 ∷ 13 ∷ 10 ∷ []) left rest
                      ends.1)
                    (subst (λ k. IsLength 0 0 k after left) ends.0
                      (read_length-got last 0 0 m after left (omega arith) counted));
            }
      ]
    ]

read_message-parts :
    (last : FrameError) (max n : ℕ) (bs content rest left : List ℕ)
    → read_header last bs ≡ got n left
    → read_message last max bs ≡ got content rest
    → (n ≤ max) × (n ≤ length left) × (content ≡ take n left) × (rest ≡ drop n left)
unfolding read_message read_header
read_message-parts last max n bs content rest left h k = ground (arith, h, k)

header_failed :
    (last : FrameError) (max : ℕ) (bs content rest : List ℕ) (e : FrameError) (left : List ℕ)
    → read_header last bs ≡ failed e left
    → read_message last max bs ≢ got content rest
unfolding read_message read_header
header_failed last max bs content rest e left h k = ground (arith, h, k)

-- What the reader accepts is a message of DAP's base protocol, the content it returns is that
-- message's, of the announced length and within the bound, and it reads no further.
pub read_message-got :
    (last : FrameError) (max : ℕ) (bs content rest : List ℕ)
    → read_message last max bs ≡ got content rest
    → IsMessage max bs content rest
read_message-got last max bs content rest h = elim (Read-cases (read_header last bs)) [
  | inr (e, left, bad) ↦ absurd (header_failed last max bs content rest e left bad h)
  | inl (n, left, good) ↦
      let head = read_header-got last n bs left good in
      let (fits, enough, first, second) =
        read_message-parts last max n bs content rest left good h in
      let whole : left ≡ content ++ rest =
        sym (take-append-drop n left) ∙ ground (arith, first, second) in
      let size : length content ≡ n =
        ap length first ∙ length-take n left ∙ omega (arith, enough) in
      record {
        digits = head.length_form.digits;
        form =
            head.prefix_form
            ∙ ap (λ xs. content_length_prefix ++ xs) head.length_form.form
            ∙ ap (λ xs. content_length_prefix ++ head.length_form.digits ++ 13 ∷ 10 ∷ 13 ∷ 10 ∷ xs)
                whole;
        decimal_digits = head.length_form.decimal_digits;
        some_digit = omega (arith, head.length_form.some_digit);
        few_digits = omega (arith, head.length_form.few_digits);
        announced = head.length_form.read ∙ sym size;
        bounded = omega (arith, size, fits);
      }
]
