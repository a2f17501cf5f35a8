-- ===== src/Async/Read.antt =====
-- asio/Async/CSession.cpp: `HandleRead`, which cuts the byte stream into messages.
pub mod Step
pub mod Stream
pub mod Split
pub mod Total
pub mod Negative
pub mod Tests
use c_study.Prelude.{
  ℕ, zero, suc, ◌+◌, ◌-◌, ◌%◌, ◌^◌, Bool, true, false, not, ◌&&◌, ◌||◌, List, [], ◌∷◌, ◌++◌, Option,
  none, some, length, take, drop, get_or, ltb, leb, if◌then◌else◌,
}
use c_study.Prelude.Run.{Run, ok, fault, bad_access, bad_alloc, Fault}
use c_study.Async.Host.{Host, is_negative}
use c_study.Async.Node.{
  MsgNode, RecvNode, append, clear, new_recv_node, max_length, head_total_len, head_id_len,
}

-- The fields that reading uses. `recv` holds the last message node that was made, if any.
pub record Session : Type 0 where
  pub b_head_parse : Bool
  pub recv_head_node : MsgNode
  pub recv_msg_node : Option RecvNode

-- The state after the constructor.
abbrev pub new_session : Session
new_session = record {
  b_head_parse = false;
  recv_head_node = record { total_len = head_total_len; data_ = [] };
  recv_msg_node = none;
}

-- A `LogicNode` as `LogicSystem` reads it: the id, and the first `_cur_len` bytes.
pub record Post : Type 0 where
  pub msg_id : ℕ
  pub bytes : List ℕ

abbrev pub post_of : RecvNode → Post
post_of r = record { msg_id = r.msg_id; bytes = r.node.data_ }

-- How a call of `HandleRead` ends: with `async_read_some` called again; with the session taken out
-- of the server's map; with neither; or in undefined behaviour.
pub data After : Type 0 where
  reading : Session → After
  cleared : After
  idle : After
  crashed : After

-- One round of the loop: it returns, or it posts a message and goes on with the bytes that are left.
pub data Round : Type 0 where
  stop : List Post → After → Round
  next : Post → Session → List ℕ → Round

-- A `std::exception` is caught round the loop; a bad access is not an exception.
abbrev on_fault : Fault → Round
on_fault bad_alloc = stop [] idle
on_fault _ = stop [] crashed

abbrev try_node {ℓ} : {A : Type ℓ} → Run A → (A → Round) → Round
try_node (ok a) f = f a
try_node (fault e) f = on_fault e

-- `LogicSystem::PostMsgToQue`, `_b_head_parse = false`, `_recv_head_node->Clear()`, and the test
-- `bytes_transferred <= 0`.
unfoldable pub finish : Session → RecvNode → List ℕ → Round
finish s r rest =
    let s' : Session = record s {
      b_head_parse = false;
      recv_head_node = clear s.recv_head_node;
      recv_msg_node = some r;
    } in
    if leb (length rest) 0 then stop (post_of r ∷ []) (reading s') else next (post_of r) s' rest

-- `bytes_transferred < n` for a `short` or an `int` `n`, which is converted to `size_t`.
abbrev pub lt_size : ℕ → ℕ → Bool
lt_size bytes_transferred n = is_negative n || ltb bytes_transferred n

-- `n > MAX_LENGTH` on a `short`.
abbrev pub exceeds_max : ℕ → Bool
exceeds_max n = not (is_negative n) && ltb max_length n

-- The body of an announced length from the bytes after its header.
unfoldable pub start_body : Session → RecvNode → ℕ → List ℕ → Round
start_body s r msg_len rest =
    if lt_size (length rest) msg_len
    then try_node (append rest r.node) (λ n.
      stop []
        (reading (record s { b_head_parse = true; recv_msg_node = some (record r { node = n }) })))
    else try_node (append (take msg_len rest) r.node)
        (λ n. finish s (record r { node = n }) (drop msg_len rest))

-- The bytes of a body whose first part came in an earlier call. A negative remainder is
-- converted to `size_t` by the comparison.
unfoldable pub more_body : Session → RecvNode → List ℕ → Round
more_body s r bytes =
    let cur_len = length r.node.data_ in
    let remain_msg = r.node.total_len - cur_len in
    if ltb r.node.total_len cur_len || ltb (length bytes) remain_msg
    then try_node (append bytes r.node)
        (λ n. stop [] (reading (record s { recv_msg_node = some (record r { node = n }) })))
    else try_node (append (take remain_msg bytes) r.node)
        (λ n. finish s (record r { node = n }) (drop remain_msg bytes))

module _ (host : Host) where
  open host use {value, network_to_host_short}

  -- The two bytes at `i`, by `memcpy` into a `short` and `network_to_host_short`.
  unfoldable pub short_at : ℕ → List ℕ → ℕ
  short_at i xs = network_to_host_short (value (get_or xs i 0) (get_or xs (i + 1) 0))

  -- The two checks on a whole header, and the node for its body.
  unfoldable pub parse_head : Session → List ℕ → Round
  parse_head s rest =
      let msg_id = short_at 0 s.recv_head_node.data_ in
      let msg_len = short_at head_id_len s.recv_head_node.data_ in
      if exceeds_max msg_id
      then stop [] cleared
      else if exceeds_max msg_len
      then stop [] cleared
      else try_node (new_recv_node msg_len msg_id) (λ r. start_body s r msg_len rest)

  -- The part of a round that completes the header.
  unfoldable pub read_head : Session → List ℕ → Round
  read_head s bytes =
      let head = s.recv_head_node in
      let head_remain = head_total_len - length head.data_ in
      if ltb (length bytes + length head.data_) head_total_len
      then try_node (append bytes head) (λ n. stop [] (reading (record s { recv_head_node = n })))
      else try_node (append (take head_remain bytes) head)
          (λ n. parse_head (record s { recv_head_node = n }) (drop head_remain bytes))

  -- One round of the loop, with `bytes_transferred > 0`.
  unfoldable pub read_round : Session → List ℕ → Round
  read_round s bytes =
      if s.b_head_parse
      then elim s.recv_msg_node [ none ↦ stop [] crashed | some r ↦ more_body s r bytes ]
      else read_head s bytes

  -- The loop, with fuel; `none` means that the fuel ran out.
  unfoldable pub read_loop : ℕ → Session → List ℕ → Option (List Post × After)
  read_loop zero s bytes = none
  read_loop (suc fuel) s [] = some ([], idle)
  read_loop (suc fuel) s (b ∷ bytes) = elim (read_round s (b ∷ bytes)) [
    | stop posts after ↦ some (posts, after)
    | next p s' rest ↦ elim (read_loop fuel s' rest) [
      | none ↦ none
      | some (posts, after) ↦ some (p ∷ posts, after)
    ]
  ]

  -- `HandleRead(error, bytes_transferred)` over the bytes that lie in `_data`. On an error the
  -- session is closed and cleared.
  unfoldable pub handle_read : Bool → Session → List ℕ → Option (List Post × After)
  handle_read error s bytes =
      if error then some ([], cleared) else read_loop (suc (suc (length bytes))) s bytes
