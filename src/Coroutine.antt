-- ===== src/Coroutine.antt =====
-- asio/Coroutine/CSession.h and Msg.h: the session of the coroutine server. Nodes and the wire format
-- are those of asio/Async, but for the length of a `RecvNode`.
pub mod Start
pub mod Server
pub mod Refine
pub mod Tests
use c_study.Prelude.{
  ℕ, zero, suc, ◌+◌, ◌-◌, ◌%◌, ◌^◌, List, [], ◌∷◌, ◌++◌, length, take, drop, Option, none, some,
  Bool, true, false, ltb, ◌==◌, if◌then◌else◌,
}
use c_study.Prelude.Run.{Run, ok, fault, Fault, bad_access, null_access, bad_alloc, ◌>>=◌}
use c_study.Async.Host.{Host}
use c_study.Async.Node.{
  MsgNode, RecvNode, new_msg_node, head_total_len, head_id_len, max_sendque, send_node,
}
use c_study.Async.Read.{Post, short_at, exceeds_max}

-- `RecvNode(short max_len, short msg_id) : MsgNode(max_len)`
unfoldable pub new_recv_node : ℕ → ℕ → Run RecvNode
new_recv_node max_len msg_id = do
  node ← new_msg_node max_len
  ok (record { node = node; msg_id = msg_id })

-- The fields that the coroutine of `Start` uses.
pub record CoSession : Type 0 where
  pub recv_msg_node : Option RecvNode
  pub recv_head_node : MsgNode

abbrev pub new_co_session : CoSession
new_co_session = record {
  recv_msg_node = none;
  recv_head_node = record { total_len = head_total_len; data_ = [] };
}

-- How a round ends: the session is closed, the program is in undefined behaviour, or the loop goes on after
-- a message was posted.
pub data Round : Type 0 where
  close : Round
  crash : Fault → Round
  again : Post → CoSession → List ℕ → Round

-- The body into `_recv_msg_node`, from the bytes after the header. `async_read` throws where the
-- peer closes early, and a length of 0 counts as closed.
unfoldable pub read_body : CoSession → Option RecvNode → List ℕ → Round
read_body s none rest = crash null_access
read_body s (some r) rest =
    let n = r.node.total_len in
    if ltb (length rest) n
    then close
    else if n == 0
    then close
    else again (record { msg_id = r.msg_id; bytes = take n rest }) s (drop n rest)

-- An exception closes the session; anything else is undefined behaviour.
unfoldable pub on_fault : Fault → Round
on_fault bad_alloc = close
on_fault reason = crash reason

-- `_recv_head_node = make_shared<RecvNode>(msg_len, msg_id)`, and the body.
unfoldable pub set_head : CoSession → Run RecvNode → List ℕ → Round
set_head s (ok r) rest = read_body (record s { recv_head_node = r.node }) s.recv_msg_node rest
set_head s (fault reason) rest = on_fault reason

module _ (host : Host) where
  -- A round of the loop of `Start`, on the bytes that the peer is still to send.
  unfoldable pub start_round : CoSession → List ℕ → Round
  start_round s bytes =
      let msg_id = short_at host 0 bytes in
      let msg_len = short_at host head_id_len bytes in
      if ltb (length bytes) head_total_len
      then close
      else if ltb (s.recv_head_node.total_len + 1) head_total_len
      then crash bad_access
      else if exceeds_max msg_id
      then close
      else if exceeds_max msg_len
      then close
      else set_head s (new_recv_node msg_len msg_id) (drop head_total_len bytes)

  -- The loop, with fuel: the messages that are posted, and the fault, if there is one. `none` means that the
  -- fuel ran out.
  unfoldable pub start_loop : ℕ → CoSession → List ℕ → Option (List Post × Option Fault)
  start_loop zero s bytes = none
  start_loop (suc fuel) s bytes = elim (start_round s bytes) [
    | close ↦ some ([], none)
    | crash f ↦ some ([], some f)
    | again p s' rest ↦ elim (start_loop fuel s' rest) [
      | none ↦ none
      | some (posts, end) ↦ some (p ∷ posts, end)
    ]
  ]

  -- `Start`, for a peer that sends these bytes and closes.
  unfoldable pub start : List ℕ → Option (List Post × Option Fault)
  start bytes = start_loop (suc (length bytes)) new_co_session bytes

-- `unwritten` has the nodes that were taken from the front under the lock and not yet given to
-- `async_write`, which happens after the unlock.
pub record CoSender : Type 0 where
  pub send_que : List (List ℕ)
  pub unwritten : List (List ℕ)
  pub writes : List (List ℕ)
  pub pending : ℕ
  pub b_close : Bool

abbrev pub new_co_sender : CoSender
new_co_sender = record { send_que = []; unwritten = []; writes = []; pending = 0; b_close = false }

-- `auto msgnode = _send_que.front()`
unfoldable pub take_front : CoSender → Run CoSender
take_front s = elim s.send_que [
  | [] ↦ fault bad_access
  | node ∷ _ ↦ ok (record s { unwritten = s.unwritten ++ node ∷ [] })
]

-- `Send` up to the unlock.
unfoldable pub send_locked : Host → List ℕ → ℕ → ℕ → CoSender → Run CoSender
send_locked host msg max_length msgid s =
    let queued = (do
      node ← send_node host msg max_length msgid
      ok (record s { send_que = s.send_que ++ node ∷ [] })) in
    if ltb max_sendque (length s.send_que)
    then ok s
    else if ltb 0 (length s.send_que)
    then queued
    else queued >>= take_front

-- `async_write` after the unlock, of both `Send` and `HandleWrite`.
unfoldable pub write_unlocked : CoSender → Run CoSender
write_unlocked s = elim s.unwritten [
  | [] ↦ fault bad_access
  | node ∷ rest ↦
      ok (record s { unwritten = rest; writes = s.writes ++ node ∷ []; pending = s.pending + 1 })
]

-- `HandleWrite` with no error up to the unlock.
unfoldable pub next_locked : CoSender → Run CoSender
next_locked s = elim s.send_que [
  | [] ↦ fault bad_access
  | _ ∷ rest ↦
      let s' : CoSender = record s { send_que = rest } in
      if ltb 0 (length rest) then take_front s' else ok s'
]

-- `HandleWrite(ec)` up to the unlock.
unfoldable pub handle_write_locked : Bool → CoSender → Run CoSender
handle_write_locked error s =
    let s' : CoSender = record s { pending = s.pending - 1 } in
    if error then ok (record s' { b_close = true }) else next_locked s'
