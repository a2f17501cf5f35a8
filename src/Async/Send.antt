-- ===== src/Async/Send.antt =====
-- asio/Async/CSession.cpp: `Send` and `HandleWrite`. Both hold `_send_lock`, so that each is one step.
pub mod Order
pub mod Tests
use c_study.Prelude.{
  ℕ, zero, suc, ◌+◌, List, [], ◌∷◌, ◌++◌, length, ◌-◌, Bool, true, false, ltb, leb, if◌then◌else◌,
}
use c_study.Prelude.Run.{Run, ok, fault, bad_access, ◌>>=◌}
use c_study.Async.Host.{Host}
use c_study.Async.Node.{max_sendque, send_node}

-- `_send_que`, the buffers given to `async_write` so far, how many of them have not called back, and
-- `_b_close`.
pub record Sender : Type 0 where
  pub send_que : List (List ℕ)
  pub writes : List (List ℕ)
  pub pending : ℕ
  pub b_close : Bool

abbrev pub new_sender : Sender
new_sender = record { send_que = []; writes = []; pending = 0; b_close = false }

-- `async_write` of the front of the queue.
unfoldable pub write_front : Sender → Run Sender
write_front s = elim s.send_que [
  | [] ↦ fault bad_access
  | node ∷ _ ↦ ok (record s { writes = s.writes ++ node ∷ []; pending = s.pending + 1 })
]

module _ (host : Host) where
  -- `Send(msg, msgid)`, and `Send(msg, max_length, msgid)`.
  unfoldable pub send : List ℕ → ℕ → ℕ → Sender → Run Sender
  send msg len msg_id s =
      let queued = (do
        node ← send_node host msg len msg_id
        ok (record s { send_que = s.send_que ++ node ∷ [] })) in
      if ltb max_sendque (length s.send_que)
      then ok s
      else if ltb 0 (length s.send_que)
      then queued
      else queued >>= write_front

-- `_send_que.pop()`, and the next write.
unfoldable pub next_write : Sender → Run Sender
next_write s = elim s.send_que [
  | [] ↦ fault bad_access
  | _ ∷ rest ↦
      let s' : Sender = record s { send_que = rest } in
      if ltb 0 (length rest) then write_front s' else ok s'
]

-- `HandleWrite(error)`, the call back of one write.
unfoldable pub handle_write : Bool → Sender → Run Sender
handle_write error s =
    let s' : Sender = record s { pending = s.pending - 1 } in
    if error then ok (record s' { b_close = true }) else next_write s'
