-- ===== src/Websocket.antt =====
-- asio/http/Connection.h and ConnectionMgr.cpp: a websocket connection that echoes. A message is a list of
-- bytes.
pub mod Order
pub mod Lifetime
pub mod Tests
use c_study.Prelude.{
  ℕ, ◌+◌, ◌-◌, ◌<◌, ◌≡◌, List, [], ◌∷◌, ◌++◌, length, set, Option, none, some, Bool, true, false,
  ltb, if◌then◌else◌,
}
use c_study.Prelude.Run.{Run, ok, fault, bad_access}

-- `buffers` has the parameter `msg` of each call of `SendCallBack`, `none` once it is destroyed; `writes` what
-- was given to `async_write`, and `pending` how many of those have not called back. `managed` says
-- whether `ConnectionMgr` holds the connection, and `reading` whether an `async_read` is due.
pub record Connection : Type 0 where
  pub send_que : List (List ℕ)
  pub buffers : List (Option (List ℕ))
  pub writes : List (List ℕ)
  pub pending : ℕ
  pub received : List (List ℕ)
  pub reading : Bool
  pub managed : Bool

-- The call back of `AsyncAccept`, on a new connection: `AddConnection` and `Start`.
abbrev pub accepted : Connection
accepted = record {
  send_que = [];
  buffers = [];
  writes = [];
  pending = 0;
  received = [];
  reading = true;
  managed = true;
}

-- `RmvConnection`
unfoldable pub rmv_connection : Connection → Connection
rmv_connection c = record c { managed = false }

-- `async_write` of the parameter `msg`.
unfoldable pub begin_write : List ℕ → Connection → Connection
begin_write msg c = record c {
  buffers = c.buffers ++ some msg ∷ [];
  writes = c.writes ++ msg ∷ [];
  pending = c.pending + 1;
}

-- The call of `SendCallBack` with buffer number `n` returns, and its parameter is destroyed.
unfoldable pub return_from : ℕ → Connection → Connection
return_from n c = record c { buffers = set c.buffers n none }

unfoldable pub send_call_back : List ℕ → Connection → Connection
send_call_back msg c = return_from (length c.buffers) (begin_write msg c)

-- `AsyncSend` with the queue's content, whose length it reads before the push.
unfoldable pub push_and_send : List ℕ → Connection → List (List ℕ) → Connection
push_and_send msg c que =
    let c' : Connection = record c { send_que = que ++ msg ∷ [] } in
    if ltb 0 (length que) then c' else send_call_back msg c'

unfoldable pub async_send : List ℕ → Connection → Connection
async_send msg c = push_and_send msg c c.send_que

-- The call back of `Start`.
unfoldable pub on_read : Bool → List ℕ → Connection → Connection
on_read true recv_data c = rmv_connection (record c { reading = false })
on_read false recv_data c =
    async_send recv_data (record c { reading = false; received = c.received ++ recv_data ∷ [] })

-- What the call back of a write does with the queue.
unfoldable pub pop_and_send : Connection → List (List ℕ) → Run Connection
pop_and_send c [] = fault bad_access
pop_and_send c (_ ∷ []) = ok (record c { send_que = [] })
pop_and_send c (_ ∷ msg ∷ rest) = ok (send_call_back msg (record c { send_que = msg ∷ rest }))

-- The call back of `SendCallBack`.
unfoldable pub on_write : Bool → Connection → Run Connection
on_write true c = ok (rmv_connection (record c { pending = c.pending - 1 }))
on_write false c = pop_and_send (record c { pending = c.pending - 1 }) c.send_que

-- What a connection reaches, with the messages given to `AsyncSend` so far.
pub data Reaches : List (List ℕ) → Connection → Type 0 where
  accept : Reaches [] accepted
  read_message :
      {ms : List (List ℕ)} {c : Connection} (recv_data : List ℕ)
      → Reaches ms c
      → c.reading ≡ true
      → Reaches (ms ++ recv_data ∷ []) (on_read false recv_data c)
  read_error :
      {ms : List (List ℕ)} {c : Connection}
      → Reaches ms c
      → c.reading ≡ true
      → Reaches ms (on_read true [] c)
  send :
      {ms : List (List ℕ)} {c : Connection} (msg : List ℕ)
      → Reaches ms c
      → Reaches (ms ++ msg ∷ []) (async_send msg c)
  written :
      {ms : List (List ℕ)} {c d : Connection} (error : Bool)
      → Reaches ms c
      → 0 < c.pending
      → on_write error c ≡ ok d
      → Reaches ms d
