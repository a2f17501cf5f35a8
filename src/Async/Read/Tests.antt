-- ===== src/Async/Read/Tests.antt =====
-- Runs of `HandleRead` on concrete bytes, and its theorems at concrete messages.
use c_study.Prelude.{◌≡◌, refl, false, [], ◌∷◌, ◌++◌, none, some, arith}
use c_study.Prelude.Run.{ok, Returns}
use c_study.Async.Host.{little_endian}
use c_study.Async.Node.{Message, frame, send_node, short_bytes, new_msg_node, new_recv_node, append}
use c_study.Async.Read.{
  reading, handle_read, new_session, read_loop, read_round, read_head, parse_head, short_at,
  start_body, more_body, finish,
}
use c_study.Async.Read.Step.{Accepted, post, waiting, made}
use c_study.Async.Read.Stream.{send_all, handle_read-frames, handle_read-send_all}

program : Unit {0}
unfolding send_node short_bytes new_msg_node new_recv_node append handle_read read_loop read_round
    read_head parse_head short_at start_body more_body finish
program = tt

abbrev hi : Message
hi = record { id = 1001; body = b'h' ∷ b'i' ∷ [] }

abbrev yes_ : Message
yes_ = record { id = 7; body = b'y' ∷ b'e' ∷ b's' ∷ [] }

hi-Accepted : Accepted hi
hi-Accepted = omega arith

yes-Accepted : Accepted yes_
yes-Accepted = omega arith

hi_bytes : send_node little_endian hi.body 2 1001 ≡ ok (3 ∷ 233 ∷ 0 ∷ 2 ∷ b'h' ∷ b'i' ∷ [])
unfolding program
hi_bytes = refl

two_messages :
    handle_read little_endian false new_session (frame hi ++ frame yes_)
    ≡ some (post hi ∷ post yes_ ∷ [], reading (waiting [] (some (made yes_ yes_.body))))
unfolding program
two_messages = refl

handle_read-frames_example :
    handle_read little_endian false (waiting (3 ∷ 233 ∷ []) none) (0 ∷ 2 ∷ b'h' ∷ b'i' ∷ 0 ∷ 7 ∷ [])
    ≡ some (post hi ∷ [], reading (waiting (0 ∷ 7 ∷ []) (some (made hi hi.body))))
handle_read-frames_example =
    handle_read-frames little_endian (hi ∷ []) none (3 ∷ 233 ∷ [])
      (0 ∷ 2 ∷ b'h' ∷ b'i' ∷ 0 ∷ 7 ∷ []) (0 ∷ 7 ∷ []) (hi-Accepted, tt) (omega arith) (omega arith)
      refl (omega arith)

handle_read-send_all_example : Returns (send_all little_endian (hi ∷ yes_ ∷ [])) λ wire.
    handle_read little_endian false new_session wire
    ≡ some (post hi ∷ post yes_ ∷ [], reading (waiting [] (some (made yes_ yes_.body))))
handle_read-send_all_example =
    handle_read-send_all little_endian hi (yes_ ∷ []) (hi-Accepted, (yes-Accepted, tt))
