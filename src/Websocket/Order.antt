-- ===== src/Websocket/Order.antt =====
-- asio/http/Connection.h: messages are written one at a time and in order.
use c_study.Prelude.{ℕ, ◌<◌, ◌≤◌, ◌≡◌, List, [], ◌∷◌, ◌++◌, length}
use c_study.Websocket.{Connection}

-- The messages behind the front of the queue, which was given to `async_write`.
abbrev pub waiting : List (List ℕ) → List (List ℕ)
waiting [] = []
waiting (_ ∷ ms) = ms

pub record IsQueued (ms : List (List ℕ)) (c : Connection) : Type 0 where
  pub order : c.writes ++ waiting c.send_que ≡ ms
  pub one_write : c.pending ≤ 1
  pub due : 0 < c.pending → 0 < length c.send_que
