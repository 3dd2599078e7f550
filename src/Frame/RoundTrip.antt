-- ===== src/Frame/RoundTrip.antt =====
-- What a written message reads as.
use eyedebugger.Prelude.{
  ℕ, zero, suc, ◌+◌, ◌*◌, ◌/◌, ◌%◌, ◌≤◌, ◌<◌, ◌≡◌, refl, sym, ◌∙◌, ap, List, [], ◌∷◌, ◌++◌, ltb,
  leb, take, drop, length, length-append, take-append_exact, drop-append_exact, if◌then◌else◌,
  false, arith, append_assoc, Bool-cases, inl, inr,
}
use eyedebugger.Frame.{
  FrameError, too_large, got, failed, unexpected, expect, read_length, read_header, read_message,
  decimal, write_message, content_length_prefix,
}

abbrev pow10 : ℕ → ℕ
pow10 zero = 1
pow10 (suc k) = 10 * pow10 k

length-decimal : (fuel k n : ℕ) → n < pow10 (suc k) → length (decimal fuel n) ≤ suc k
unfolding decimal
length-decimal zero k n h = omega arith
length-decimal (suc fuel) zero n h =
    ground (arith, length-append (decimal fuel (n / 10)) ((48 + n % 10) ∷ []))
length-decimal (suc fuel) (suc k) n h = ground (
  arith,
  length-append (decimal fuel (n / 10)) ((48 + n % 10) ∷ []),
  length-decimal fuel k (n / 10) (omega (arith, h)),
)

digit-read_length :
    (last : FrameError) (n digits d : ℕ) (bs : List ℕ)
    → d < 10
    → digits < 10
    → read_length last n digits ((48 + d) ∷ bs) ≡ read_length last (n * 10 + d) (suc digits) bs
unfolding read_length
digit-read_length last n digits d bs h k = ground (arith, h, k)

decimal-nonempty : (fuel n : ℕ) → 0 < length (decimal (suc fuel) n)
unfolding decimal
decimal-nonempty fuel n = ground (arith, length-append (decimal fuel (n / 10)) ((48 + n % 10) ∷ []))

decimal-large :
    (fuel n : ℕ)
    → ltb n 10 ≡ false
    → decimal (suc fuel) n ≡ decimal fuel (n / 10) ++ (48 + n % 10) ∷ []
unfolding decimal
decimal-large fuel n h = rw (h)

decimal-read_length :
    (last : FrameError) (fuel n : ℕ) (bs : List ℕ)
    → n < fuel
    → length (decimal fuel n) ≤ 10
    → read_length last 0 0 (decimal fuel n ++ bs) ≡ read_length last n (length (decimal fuel n)) bs
unfolding decimal
decimal-read_length last zero n bs h k = absurd (omega (arith, h))
decimal-read_length last (suc fuel) n bs h k = elim (Bool-cases (ltb n 10)) [
  | inl small ↦ ground (arith, small, digit-read_length last 0 0 n bs)
  | inr large ↦
      let front = decimal fuel (n / 10) in
      let c = 48 + n % 10 in
      let whole = decimal-large fuel n large in
      let one_more : length (decimal (suc fuel) n) ≡ suc (length front) =
        ap length whole ∙ length-append front (c ∷ []) ∙ omega arith in
      ap (λ ds. read_length last 0 0 (ds ++ bs)) whole
      ∙ ap (read_length last 0 0) (append_assoc front (c ∷ []) bs)
      ∙ decimal-read_length last fuel (n / 10) (c ∷ bs) (ground (arith, large, h))
          (omega (arith, one_more, k))
      ∙ digit-read_length last (n / 10) (length front) (n % 10) bs (omega arith)
          (omega (arith, one_more, k))
      ∙ ap (λ m. read_length last m (suc (length front)) bs) (omega arith)
      ∙ ap (λ m. read_length last n m bs) (sym one_more)
]

-- A byte string that is expected and comes is read.
expect-append :
    (err later : FrameError) (ws bs : List ℕ) → expect err later ws (ws ++ bs) ≡ got tt bs
unfolding expect
expect-append err later [] bs = refl
expect-append err later (w ∷ ws) bs = ground (arith, expect-append later later ws bs)

end-read_length :
    (last : FrameError) (n digits : ℕ) (bs : List ℕ)
    → 0 < digits
    → read_length last n digits (13 ∷ bs) ≡ got n bs
unfolding read_length
end-read_length last n digits bs h = ground (arith, h)

steps-read_header :
    (last : FrameError) (n : ℕ) (bs digits rest left : List ℕ)
    → expect last (unexpected last) content_length_prefix bs ≡ got tt digits
    → read_length last 0 0 digits ≡ got n rest
    → expect (unexpected last) (unexpected last) (10 ∷ 13 ∷ 10 ∷ []) rest ≡ got tt left
    → read_header last bs ≡ got n left
unfolding read_header
steps-read_header last n bs digits rest left h k e = rw (h, k, e)

written-read_header :
    (last : FrameError) (n : ℕ) (bs : List ℕ)
    → n < 10000000000
    → read_header last (content_length_prefix ++ decimal (suc n) n ++ 13 ∷ 10 ∷ 13 ∷ 10 ∷ bs)
      ≡ got n bs
written-read_header last n bs h =
    steps-read_header last n _ (decimal (suc n) n ++ 13 ∷ 10 ∷ 13 ∷ 10 ∷ bs) (10 ∷ 13 ∷ 10 ∷ bs) bs
      (expect-append last (unexpected last) content_length_prefix _)
      (decimal-read_length last (suc n) n _ (omega arith) (length-decimal (suc n) 9 n h)
        ∙ end-read_length last n (length (decimal (suc n) n)) _ (decimal-nonempty n n))
      (expect-append (unexpected last) (unexpected last) (10 ∷ 13 ∷ 10 ∷ []) bs)

header_then :
    (last : FrameError) (max n : ℕ) (bs rest : List ℕ)
    → read_header last bs ≡ got n rest
    → read_message last max bs ≡ (
        if ltb max n
        then failed (too_large n max) rest
        else if leb n (length rest)
        then got (take n rest) (drop n rest)
        else failed (unexpected last) [])
unfolding read_message read_header
header_then last max n bs rest h = rw (h)

-- A message of fewer than 10^10 bytes that was written and is followed by any bytes is read back as
-- it is, and what follows stays unread, if it is within the reader's bound; over the bound, the
-- read fails with the size announced, and the content and what follows stay unread, so that a
-- reader that skips the size is in step with the stream.
pub read_message-write_message :
    (last : FrameError) (max : ℕ) (content rest : List ℕ)
    → length content < 10000000000
    → read_message last max (write_message content ++ rest) ≡ (
        if leb (length content) max
        then got content rest
        else failed (too_large (length content) max) (content ++ rest))
unfolding write_message
read_message-write_message last max content rest h =
    ap (read_message last max) assoc
    ∙ header_then last max (length content) _ (content ++ rest)
        (written-read_header last (length content) (content ++ rest) h)
    ∙ ground (
      arith,
      length-append content rest,
      take-append_exact content rest,
      drop-append_exact content rest,
    )
  where
    digits : List ℕ
    digits = decimal (suc (length content)) (length content)

    assoc :
        write_message content ++ rest
        ≡ content_length_prefix ++ digits ++ 13 ∷ 10 ∷ 13 ∷ 10 ∷ (content ++ rest)
    assoc =
        unfold write_message in
        append_assoc content_length_prefix (digits ++ 13 ∷ 10 ∷ 13 ∷ 10 ∷ content) rest
        ∙ ap (λ bs. content_length_prefix ++ bs)
            (append_assoc digits (13 ∷ 10 ∷ 13 ∷ 10 ∷ content) rest)
