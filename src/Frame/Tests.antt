-- ===== src/Frame/Tests.antt =====
-- Messages written and read, and the theorems of framing at concrete bytes.
use eyedebugger.Prelude.{ℕ, ◌≡◌, refl, List, [], ◌∷◌, ◌++◌, arith, leb, length, if◌then◌else◌}
use eyedebugger.Frame.{
  eof, unexpected_eof, framing, too_large, got, failed, unexpected, expect, read_length,
  read_header, read_message, decimal, write_message, content_length_prefix,
}
use eyedebugger.Frame.RoundTrip.{read_message-write_message}
use eyedebugger.Frame.Language.{IsMessage, read_message-got}

abbrev content : List ℕ
content = 123 ∷ 34 ∷ 97 ∷ 34 ∷ 58 ∷ 49 ∷ 48 ∷ 48 ∷ 48 ∷ 48 ∷ 48 ∷ 125 ∷ []

abbrev twelve : List ℕ
twelve = content_length_prefix ++ 49 ∷ 50 ∷ 13 ∷ 10 ∷ 13 ∷ 10 ∷ content

written : write_message content ≡ twelve
unfolding write_message decimal
written = refl

read_back : read_message eof 100 (twelve ++ 1 ∷ 2 ∷ []) ≡ got content (1 ∷ 2 ∷ [])
unfolding read_message read_header read_length expect
read_back = refl

cut_off : read_message eof 100 (content_length_prefix ++ 49 ∷ []) ≡ failed unexpected_eof []
unfolding read_message read_header read_length expect unexpected
cut_off = refl

nothing_comes : read_message eof 100 [] ≡ failed eof []
unfolding read_message read_header expect unexpected
nothing_comes = refl

wrong_header : read_message eof 100 (67 ∷ 99 ∷ []) ≡ failed framing []
unfolding read_message read_header expect unexpected
wrong_header = refl

read_message-write_message_example : read_message eof 5 (write_message content ++ 7 ∷ []) ≡ (
    if leb (length content) 5
    then got content (7 ∷ [])
    else failed (too_large (length content) 5) (content ++ 7 ∷ []))
read_message-write_message_example = read_message-write_message eof 5 content (7 ∷ []) (omega arith)

read_message-got_example : IsMessage 100 (twelve ++ 1 ∷ 2 ∷ []) content (1 ∷ 2 ∷ [])
read_message-got_example =
    read_message-got eof 100 (twelve ++ 1 ∷ 2 ∷ []) content (1 ∷ 2 ∷ []) read_back
