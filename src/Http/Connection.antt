-- ===== src/Http/Connection.antt =====
-- asio/http/beasthttp.cpp: the call backs of `http_connection`.
use c_study.Prelude.{ℕ, ◌≡◌, List, [], ◌∷◌, ◌++◌, Option, none, some, Bool, true, false}
use c_study.Http.{Request, Response, new_response, Outside, process_request}

-- The response, those given to `async_write`, whether the socket is open, and which call backs are due.
pub record HttpConnection : Type 0 where
  pub response : Response
  pub writes : List Response
  pub is_open : Bool
  pub reading : Bool
  pub deadline : Bool

-- `http_connection(socket)` and `start`
unfoldable pub start : HttpConnection
start = record {
  response = new_response;
  writes = [];
  is_open = true;
  reading = true;
  deadline = true;
}

unfoldable pub answered : HttpConnection → Option (Response × ℕ) → Option (HttpConnection × ℕ)
answered c none = none
answered c (some (r, n)) = some (record c { response = r; reading = false }, n)

-- The call back of `read_request`: the connection and `request_count` after it.
unfoldable pub on_read : Outside → Bool → Request → ℕ → HttpConnection → Option (HttpConnection × ℕ)
on_read o true q count c = some (record c { reading = false }, count)
on_read o false q count c = answered c (process_request o q count c.response)

-- The call back of `check_deadline`.
unfoldable pub on_deadline : Bool → HttpConnection → HttpConnection
on_deadline true c = record c { deadline = false }
on_deadline false c = record c { deadline = false; is_open = false }

-- `write_response`, of which there is no call.
unfoldable pub write_response : HttpConnection → HttpConnection
write_response c = record c { writes = c.writes ++ c.response ∷ [] }

-- What a connection reaches. The timer is cancelled only by the call back of `write_response`.
pub data Reaches (o : Outside) : HttpConnection → Type 1 where
  begin : Reaches o start
  read :
      {c d : HttpConnection} (error : Bool) (q : Request) (count n : ℕ)
      → Reaches o c
      → c.reading ≡ true
      → on_read o error q count c ≡ some (d, n)
      → Reaches o d
  expire : {c : HttpConnection} → Reaches o c → c.deadline ≡ true → Reaches o (on_deadline false c)
