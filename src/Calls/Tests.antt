-- ===== src/Calls/Tests.antt =====
-- A client's steps at concrete messages, and the theorems there.
use eyedebugger.Prelude.{ℕ, ◌≡◌, refl, Bool, true, false, none, some, List, [], ◌∷◌, All}
use eyedebugger.Calls.{
  Response, response, request, Box, empty, holds, closed, Channel, Client, new_client, Move, starts,
  gives_up, arrives, ends, is_done, responds, moves, move, start, unregister, unregister_in,
  dispatch, deliver, deliver_in, send, end_reading, close_all, close, respond, outcome, rejected,
  response_error,
}
use eyedebugger.Calls.Answered.{Answers, moves-Answers}
use eyedebugger.Calls.Sequence.{Ascends, moves-Ascends}

abbrev rejection : Response
rejection = record {
  request_seq = 2;
  success = false;
  is_error = false;
  message = "no frame";
  format = none;
}

-- Three calls; the second is answered, the first gives up, a request is answered, and the stream ends.
abbrev run : List Move
run =
    starts
    ∷ starts
    ∷ arrives (response rejection)
    ∷ starts
    ∷ gives_up 1
    ∷ arrives (request 7)
    ∷ responds 7
    ∷ ends
    ∷ is_done
    ∷ starts
    ∷ responds 8
    ∷ []

abbrev channel : ℕ → Box → Bool → Channel
channel call box waits = record { call = call; box = box; is_pending = false; waits = waits }

abbrev after : Client
after = record {
  seq = 5;
  channels = channel 1 empty false ∷ channel 2 (holds rejection) true ∷ channel 3 closed true ∷ [];
  ended = true;
  done = true;
  written =
      record { seq = 1; answers = none }
      ∷ record { seq = 2; answers = none }
      ∷ record { seq = 3; answers = none }
      ∷ record { seq = 4; answers = some 7 }
      ∷ [];
}

ran : moves new_client run ≡ some after
unfolding moves move new_client start unregister unregister_in dispatch deliver deliver_in send
    end_reading close_all close respond
ran = refl

told : outcome (holds rejection) ≡ some (rejected "no frame")
unfolding outcome response_error
told = refl

moves-Answers_example :
    (c : Client) × (moves new_client run ≡ some c) × All (Answers c.ended) c.channels
moves-Answers_example = moves-Answers run

moves-Ascends_example : Ascends 0 after.written after.seq
moves-Ascends_example = moves-Ascends run after ran
