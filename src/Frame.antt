-- ===== src/Frame.antt =====
-- internal/dap/frame.go: the framing of DAP messages. A byte is a number below 256; a reader is the
-- bytes that still come and what it reports after the last of them.
pub mod RoundTrip
pub mod Language
mod Tests
use eyedebugger.Prelude.{
  ℕ, zero, suc, ◌+◌, ◌-◌, ◌*◌, ◌/◌, ◌%◌, List, [], ◌∷◌, ◌++◌, ◌==◌, ltb, leb, take, drop, length,
  if◌then◌else◌, ◌&&◌, Bool, true, false,
}

-- What a read reports: `io.EOF`, `io.ErrUnexpectedEOF`, another error of the stream, `ErrFraming`
-- and `TooLargeError`.
pub data FrameError : Type 0 where
  eof : FrameError
  unexpected_eof : FrameError
  io_error : FrameError
  framing : FrameError
  too_large : ℕ → ℕ → FrameError

-- What a read gives, with the bytes it left unread.
pub data Read (A : Type 0) : Type 0 where
  got : A → List ℕ → Read A
  failed : FrameError → List ℕ → Read A

abbrev pub max_adapter_message : ℕ
max_adapter_message = 4194304

abbrev pub max_length_digits : ℕ
max_length_digits = 10

-- "Content-Length: ".
abbrev pub content_length_prefix : List ℕ
content_length_prefix =
    67 ∷ 111 ∷ 110 ∷ 116 ∷ 101 ∷ 110 ∷ 116 ∷ 45 ∷ 76 ∷ 101 ∷ 110 ∷ 103 ∷ 116 ∷ 104 ∷ 58 ∷ 32 ∷ []

-- `unexpectedEOF`.
pub unexpected : FrameError → FrameError
unexpected eof = unexpected_eof
unexpected unexpected_eof = unexpected_eof
unexpected io_error = io_error
unexpected framing = framing
unexpected (too_large n m) = too_large n m

-- The loops that want given bytes: an end of the stream is `err` at the first byte and `later`
-- after it.
pub expect : FrameError → FrameError → List ℕ → List ℕ → Read Unit
expect err later [] bs = got tt bs
expect err later (want ∷ wants) [] = failed err []
expect err later (want ∷ wants) (b ∷ bs) =
    let more = expect later later wants bs in if b == want then more else failed framing bs

-- `readLength`, `n` and `digits` so far. Ten digits stay below 2^34, so an int64 holds them.
pub read_length : FrameError → ℕ → ℕ → List ℕ → Read ℕ
unfolding unexpected
read_length last n digits [] = failed (unexpected last) []
read_length last n digits (b ∷ bs) =
    let more = read_length last (n * 10 + (b - 48)) (suc digits) bs in
    if leb 48 b && leb b 57 && ltb digits max_length_digits
    then more
    else if b == 13 && ltb 0 digits
    then got n bs
    else failed framing bs

-- `readHeader`.
pub read_header : FrameError → List ℕ → Read ℕ
unfolding expect unexpected
read_header last bs = elim (expect last (unexpected last) content_length_prefix bs) [
  | failed e rest ↦ failed e rest
  | got u rest ↦ elim (read_length last 0 0 rest) [
    | failed e rest' ↦ failed e rest'
    | got n rest' ↦ elim (expect (unexpected last) (unexpected last) (10 ∷ 13 ∷ 10 ∷ []) rest') [
      | failed e left ↦ failed e left
      | got u' left ↦ got n left
    ]
  ]
]

-- `ReadMessage`. `io.ReadFull` of no bytes succeeds.
pub read_message : FrameError → ℕ → List ℕ → Read (List ℕ)
unfolding unexpected
read_message last max_content bs = elim (read_header last bs) [
  | failed e rest ↦ failed e rest
  | got n rest ↦
      if ltb max_content n
      then failed (too_large n max_content) rest
      else if leb n (length rest)
      then got (take n rest) (drop n rest)
      else failed (unexpected last) []
]

-- `strconv.AppendInt` in base 10, on fuel: a number has fewer digits than `suc` of it.
pub decimal : ℕ → ℕ → List ℕ
decimal zero n = []
decimal (suc fuel) n =
    let front = decimal fuel (n / 10) in
    if ltb n 10 then (48 + n) ∷ [] else front ++ (48 + n % 10) ∷ []

-- `writeMessage`: the bytes of its one write.
pub write_message : List ℕ → List ℕ
unfolding decimal
write_message content =
    content_length_prefix
    ++ decimal (suc (length content)) (length content)
    ++ 13 ∷ 10 ∷ 13 ∷ 10 ∷ content
