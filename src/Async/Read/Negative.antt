-- ===== src/Async/Read/Negative.antt =====
-- `HandleRead` on headers whose length field is negative as a `short`.
use c_study.Prelude.{
  ℕ, ◌+◌, ◌-◌, ◌*◌, ◌/◌, ◌%◌, ◌^◌, ◌≤◌, ◌<◌, ◌≡◌, true, false, List, [], ◌++◌, Option, some, length,
  ltb, if◌then◌else◌, arith, Bool-cases, ◌==◌, inl, inr,
}
use c_study.Prelude.Run.{ok, fault, bad_access, bad_alloc}
use c_study.Async.Host.{Host}
use c_study.Async.Node.{
  RecvNode, high_first, append_lem, append_over, new_recv_node, new_msg_node, max_length,
}
use c_study.Async.Read.{
  Session, stop, idle, crashed, read_round, read_loop, handle_read, start_body, lt_size, parse_head,
  short_at, exceeds_max, read_head, try_node,
}
use c_study.Async.Read.Step.{waiting}

new_recv_node-negative :
    (id len : ℕ)
    → 2 ^ 15 ≤ len
    → len < 2 ^ 16 - 4
    → new_recv_node len id ≡ fault (if len == 2 ^ 16 - 5 then bad_access else bad_alloc)
unfolding new_recv_node new_msg_node
new_recv_node-negative id len neg short = ground arith

new_recv_node-tiny :
    (id len : ℕ)
    → 2 ^ 16 - 4 ≤ len
    → len < 2 ^ 16
    → new_recv_node len id
      ≡ ok (record { node = record { total_len = len + 4 - 2 ^ 16; data_ = [] }; msg_id = id })
unfolding new_recv_node new_msg_node
new_recv_node-tiny id len neg short = ground arith

start_body-tiny :
    (s : Session) (id len : ℕ) (rest : List ℕ)
    → 2 ^ 16 - 4 ≤ len
    → len < 2 ^ 16
    → len + 5 - 2 ^ 16 < length rest
    → start_body s
        (record { node = record { total_len = len + 4 - 2 ^ 16; data_ = [] }; msg_id = id })
        len
        rest
      ≡ stop [] crashed
unfolding start_body
start_body-tiny s id len rest neg short over =
    let huge : lt_size (length rest) len ≡ true = ground arith in
    rw (huge, append_over (len + 4 - 2 ^ 16) [] rest (omega arith))

module _ (host : Host) where
  -- A header whose length field is negative as a `short`.
  abbrev pub head_bytes : ℕ → ℕ → List ℕ
  head_bytes id len = high_first id ++ high_first len

  negative-start :
      (id len : ℕ) (recv : Option RecvNode) (rest : List ℕ)
      → id ≤ max_length
      → 2 ^ 15 ≤ len
      → len < 2 ^ 16
      → read_round host (waiting [] recv) (head_bytes id len ++ rest)
        ≡ try_node
            (new_recv_node len id)
            (λ r. start_body (waiting (head_bytes id len) recv) r len rest)
  unfolding read_round read_head parse_head short_at
  negative-start id len recv rest small neg short =
      let a : id / 256 * 256 + id % 256 ≡ id = omega arith in
      let b : len / 256 * 256 + len % 256 ≡ len = omega arith in
      let enough : ltb (length (head_bytes id len ++ rest) + 0) 4 ≡ false = ground arith in
      let fine : exceeds_max id ≡ false = ground arith in
      let fine' : exceeds_max len ≡ false = ground arith in
      rw (
        enough,
        append_lem 4 [] (head_bytes id len) (omega arith),
        host.reads_high_first (id / 256) (id % 256) (omega arith) (omega arith),
        host.reads_high_first (len / 256) (len % 256) (omega arith) (omega arith),
        a,
        b,
        fine,
        fine',
      )

  -- The check `msg_len > MAX_LENGTH` lets a negative length through. From -5 down the node's
  -- storage cannot be made as the code asks: below -5 the exception is caught, and the session is
  -- left with no read pending and still in the server's map; at -5 the terminator is written
  -- outside the storage.
  negative_length-idle :
      (id len : ℕ) (recv : Option RecvNode) (rest : List ℕ)
      → id ≤ max_length
      → 2 ^ 15 ≤ len
      → len < 2 ^ 16 - 4
      → handle_read host false (waiting [] recv) (head_bytes id len ++ rest)
        ≡ some ([], if len == 2 ^ 16 - 5 then crashed else idle)
  unfolding handle_read read_loop
  negative_length-idle id len recv rest small neg short =
      rw (negative-start id len recv rest small neg (omega arith), read_loop)
        (rw (new_recv_node-negative id len neg short, read_loop)
          (elim (Bool-cases (len == 2 ^ 16 - 5)) [ inl e ↦ rw e | inr e ↦ rw e ]))

  -- A header with a length from -4 to -1 and an id of at most `MAX_LENGTH` passes the check, and the node has one to
  -- four bytes: if more bytes than length + 5 follow the header, they overrun the storage.
  negative_length-crash :
      (id len : ℕ) (recv : Option RecvNode) (rest : List ℕ)
      → id ≤ max_length
      → 2 ^ 16 - 4 ≤ len
      → len < 2 ^ 16
      → len + 5 - 2 ^ 16 < length rest
      → handle_read host false (waiting [] recv) (head_bytes id len ++ rest) ≡ some ([], crashed)
  unfolding handle_read read_loop
  negative_length-crash id len recv rest small neg short over =
      rw (negative-start id len recv rest small (omega arith) short, read_loop)
        (rw (new_recv_node-tiny id len neg short, read_loop)
          (rw (
            start_body-tiny (waiting (head_bytes id len) recv) id len rest neg short over,
            read_loop,
          )))
