-- ===== src/Async/Send/Tests.antt =====
-- asio/Async/CSession.cpp: two messages sent one after the other.
use c_study.Prelude.{◌+◌, ◌<◌, ◌^◌, ◌≡◌, refl, [], ◌∷◌, length, false, arith}
use c_study.Prelude.Run.{ok, ◌>>=◌, Returns}
use c_study.Async.Host.{little_endian}
use c_study.Async.Node.{Message, frame, send_node-frame}
use c_study.Async.Send.{Sender, new_sender, write_front, send, handle_write}
use c_study.Async.Send.Order.{
  Reaches, start, sending, accepted, IsInOrder, Reaches-IsInOrder, Reaches-Returns,
}

abbrev hi : Message
hi = record { id = 1001; body = 104 ∷ 105 ∷ [] }

-- One message is being written.
abbrev one_sent : Sender
one_sent = record { send_que = frame hi ∷ []; writes = frame hi ∷ []; pending = 1; b_close = false }

send-hi : send little_endian hi.body (length hi.body) hi.id new_sender ≡ ok one_sent
unfolding send write_front
send-hi = rw (send_node-frame little_endian hi (omega arith) (omega arith), ◌>>=◌) refl

one_sent-Reaches : Reaches little_endian (hi ∷ []) one_sent
unfolding accepted
one_sent-Reaches = sending hi start (omega arith) (omega arith) send-hi

Reaches-IsInOrder_example : IsInOrder (hi ∷ []) one_sent
Reaches-IsInOrder_example = Reaches-IsInOrder little_endian (hi ∷ []) one_sent one_sent-Reaches

Reaches-Returns_example :
    ((m : Message)
      → m.id < 2 ^ 16
      → length m.body + 4 < 2 ^ 15
      → Returns
          (send little_endian m.body (length m.body) m.id one_sent)
          (Reaches little_endian (accepted (length one_sent.send_que) (hi ∷ []) m)))
    × (0 < one_sent.pending
        → Returns (handle_write false one_sent) (Reaches little_endian (hi ∷ [])))
Reaches-Returns_example = Reaches-Returns little_endian (hi ∷ []) one_sent one_sent-Reaches
