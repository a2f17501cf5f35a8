-- ===== src/Websocket/Tests.antt =====
-- asio/http/Connection.h: two messages, of which the second waits.
use c_study.Prelude.{ℕ, refl, List, [], ◌∷◌, none, true, false}
use c_study.Websocket.{
  Connection, begin_write, return_from, send_call_back, push_and_send, async_send, on_read, Reaches,
  accept, read_message, send,
}
use c_study.Websocket.Lifetime.{IsDangling, Reaches-IsDangling}

abbrev hi : List ℕ
hi = 104 ∷ 105 ∷ []

abbrev two : List ℕ
two = 50 ∷ []

-- The first is pending, from a buffer that is gone.
abbrev one_pending : Connection
one_pending = record {
  send_que = hi ∷ two ∷ [];
  buffers = none ∷ [];
  writes = hi ∷ [];
  pending = 1;
  received = hi ∷ [];
  reading = false;
  managed = true;
}

one_pending-Reaches : Reaches (hi ∷ two ∷ []) one_pending
unfolding on_read async_send push_and_send send_call_back begin_write return_from
one_pending-Reaches = send two (read_message hi accept refl)

Reaches-IsDangling_example : IsDangling one_pending
Reaches-IsDangling_example = Reaches-IsDangling (hi ∷ two ∷ []) one_pending one_pending-Reaches
