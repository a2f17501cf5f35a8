-- ===== src/Async/Node.antt =====
-- asio/Async/Node.h and Const.h: the message nodes, and the bytes that `SendNode` puts on the wire.
use c_study.Prelude.{
  ℕ, ◌+◌, ◌-◌, ◌%◌, ◌/◌, ◌*◌, ◌^◌, ◌≤◌, ◌<◌, ◌≡◌, refl, List, [], ◌∷◌, ◌++◌, ◌||◌, length, take,
  leb, ltb, ◌==◌, if◌then◌else◌, arith, false, ◌⊎◌, inl, inr, Bool-cases,
}
use c_study.Prelude.Run.{Run, ok, fault, bad_alloc, bad_access, ◌>>=◌}
use c_study.Async.Host.{Host, is_negative}

abbrev pub max_length : ℕ
max_length = 1024 * 2

abbrev pub head_total_len : ℕ
head_total_len = 4

abbrev pub head_id_len : ℕ
head_id_len = 2

abbrev pub max_sendque : ℕ
max_sendque = 1000

abbrev pub msg_hello_word : ℕ
msg_hello_word = 1001

-- `MsgNode`: the length that the storage was made for, less its last byte, and the first
-- `_cur_len` bytes of `_data`.
pub record MsgNode : Type 0 where
  pub total_len : ℕ
  pub data_ : List ℕ

-- `_data = new char[_total_len + 1](); _data[_total_len] = '\0';`
unfoldable pub new_msg_node : ℕ → Run MsgNode
new_msg_node max_len =
    if is_negative max_len
    then (if max_len == 2 ^ 16 - 1 then fault bad_access else fault bad_alloc)
    else ok (record { total_len = max_len; data_ = [] })

-- `memcpy(_data + _cur_len, bytes, n); _cur_len += n;` over `_total_len + 1` bytes of storage.
unfoldable pub append : List ℕ → MsgNode → Run MsgNode
append bytes node =
    if leb (length node.data_ + length bytes) (node.total_len + 1)
    then ok (record node { data_ = node.data_ ++ bytes })
    else fault bad_access

-- `Clear()`
abbrev pub clear : MsgNode → MsgNode
clear node = record node { data_ = [] }

-- `RecvNode` and its id.
pub record RecvNode : Type 0 where
  pub node : MsgNode
  pub msg_id : ℕ

-- `RecvNode(short max_len, short msg_id) : MsgNode(max_len + HEAD_TOTAL_LEN)`
unfoldable pub new_recv_node : ℕ → ℕ → Run RecvNode
new_recv_node max_len msg_id = do
  node ← new_msg_node ((max_len + head_total_len) % 2 ^ 16)
  ok (record { node = node; msg_id = msg_id })

module _ (host : Host) where
  open host use {memory, host_to_network_short}

  -- The two bytes that `memcpy` takes from a `short` in network order.
  unfoldable pub short_bytes : ℕ → List ℕ
  short_bytes x = let (a, b) = memory (host_to_network_short x) in a ∷ b ∷ []

  -- `SendNode(const char *msg, short max_len, short msg_id)`: the content of `_data`.
  -- A negative length reaches `memcpy` as a `size_t` beyond any storage.
  unfoldable pub send_node : List ℕ → ℕ → ℕ → Run (List ℕ)
  send_node msg max_len msg_id = do
    node ← new_msg_node ((max_len + head_total_len) % 2 ^ 16)
    node' ← append (short_bytes msg_id ++ short_bytes max_len) node
    if is_negative max_len || ltb (length msg) max_len
        then fault bad_access
        else (do full ← append (take max_len msg) node'; ok full.data_)

-- A message as the peer sees it: id and bytes.
pub record Message : Type 0 where
  pub id : ℕ
  pub body : List ℕ

-- Two bytes, the more significant first.
abbrev pub high_first : ℕ → List ℕ
high_first x = x / 256 ∷ x % 256 ∷ []

-- The wire format: id, length and body.
abbrev pub frame : Message → List ℕ
frame m = high_first m.id ++ high_first (length m.body) ++ m.body

pub take-length {ℓ} : {A : Type ℓ} (xs : List A) → take (length xs) xs ≡ xs
take-length [] = refl
take-length (x ∷ xs) = λ i. x ∷ take-length xs i

pub new_msg_node_lem :
    (n : ℕ) → n < 2 ^ 15 → new_msg_node n ≡ ok (record { total_len = n; data_ = [] })
unfolding new_msg_node
new_msg_node_lem n h = ground arith

pub append_lem :
    (total : ℕ) (old bytes : List ℕ)
    → length old + length bytes ≤ total + 1
    → append bytes (record { total_len = total; data_ = old })
      ≡ ok (record { total_len = total; data_ = old ++ bytes })
unfolding append
append_lem total old bytes h = ground arith

pub append-cases :
    (bytes : List ℕ) (node : MsgNode)
    → (append bytes node ≡ ok (record node { data_ = node.data_ ++ bytes }))
      ⊎ (append bytes node ≡ fault bad_access)
unfolding append
append-cases bytes node =
    elim (Bool-cases (leb (length node.data_ + length bytes) (node.total_len + 1))) [
      | inl fits ↦ inl (rw fits)
      | inr over ↦ inr (rw over)
    ]

pub append_over :
    (total : ℕ) (old bytes : List ℕ)
    → total + 1 < length old + length bytes
    → append bytes (record { total_len = total; data_ = old }) ≡ fault bad_access
unfolding append
append_over total old bytes h = ground arith

-- A `SendNode` made of a whole message below 32 KB holds the message's frame: the id and the length
-- in network order, then the bytes.
pub send_node-frame :
    (host : Host) (m : Message)
    → m.id < 2 ^ 16
    → length m.body + 4 < 2 ^ 15
    → send_node host m.body (length m.body) m.id ≡ ok (frame m)
unfolding send_node short_bytes
send_node-frame host m small fits =
    let n = length m.body in
    let four : (n + head_total_len) % 2 ^ 16 ≡ n + 4 = omega arith in
    let plain : (is_negative n || ltb n n) ≡ false = ground arith in
    rw (
      host.stores_high_first m.id small,
      host.stores_high_first n (omega arith),
      four,
      new_msg_node_lem (n + 4) fits,
      ◌>>=◌,
      append_lem (n + 4) [] (high_first m.id ++ high_first n) (omega arith),
      plain,
      take-length m.body,
      append_lem (n + 4) (high_first m.id ++ high_first n) m.body (omega arith),
    )
