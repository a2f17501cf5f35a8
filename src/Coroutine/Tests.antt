-- ===== src/Coroutine/Tests.antt =====
-- asio/Coroutine/CSession.h: a peer that sends one message, and a queue that takes one.
use c_study.Prelude.{◌≡◌, refl, [], ◌∷◌, ◌++◌, length, some, false, arith}
use c_study.Prelude.Run.{ok, null_access, ◌>>=◌}
use c_study.Async.Host.{little_endian}
use c_study.Async.Node.{Message, frame, send_node-frame}
use c_study.Async.Read.Step.{Accepted, header}
use c_study.Async.Send.Order
use c_study.Async.Send.Order.{accepted}
use c_study.Coroutine.{start, CoSender, new_co_sender, take_front, send_locked}
use c_study.Coroutine.Start.{start-header}
use c_study.Coroutine.Refine.{view, Reaches, sending, Reaches-refines}

abbrev hi : Message
hi = record { id = 1001; body = 104 ∷ 105 ∷ [] }

hi-Accepted : Accepted hi
hi-Accepted = omega arith

start-header_example : start little_endian (header hi ++ hi.body) ≡ some ([], some null_access)
start-header_example = start-header little_endian hi hi.body hi-Accepted

-- The node is taken from the front, and not written yet.
abbrev one_taken : CoSender
one_taken = record {
  send_que = frame hi ∷ [];
  unwritten = frame hi ∷ [];
  writes = [];
  pending = 0;
  b_close = false;
}

send_locked-hi :
    send_locked little_endian hi.body (length hi.body) hi.id new_co_sender ≡ ok one_taken
unfolding send_locked take_front
send_locked-hi = rw (send_node-frame little_endian hi (omega arith) (omega arith), ◌>>=◌) refl

one_taken-Reaches : Reaches little_endian (hi ∷ []) one_taken
unfolding accepted
one_taken-Reaches = sending hi Reaches.start (omega arith) (omega arith) send_locked-hi

Reaches-refines_example : Order.Reaches little_endian (hi ∷ []) (view one_taken)
Reaches-refines_example = Reaches-refines little_endian (hi ∷ []) one_taken one_taken-Reaches
