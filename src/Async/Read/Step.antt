-- ===== src/Async/Read/Step.antt =====
-- `HandleRead`: one round of the loop on a whole message.
use c_study.Prelude.{
  ℕ, ◌+◌, ◌-◌, ◌*◌, ◌/◌, ◌%◌, ◌^◌, ◌≤◌, ◌<◌, ◌≡◌, refl, ap, ◌∙◌, true, false, List, [], ◌∷◌, ◌++◌,
  Option, some, length, take, drop, ltb, leb, if◌then◌else◌, arith, length-append,
}
use c_study.Prelude.Run.{◌>>=◌}
use c_study.Async.Host.{Host}
use c_study.Async.Node.{
  RecvNode, new_recv_node, max_length, head_total_len, Message, frame, high_first, new_msg_node_lem,
  append_lem,
}
use c_study.Async.Read.{
  Session, Post, stop, next, reading, read_round, read_head, parse_head, start_body, finish,
  short_at, exceeds_max, lt_size,
}

-- A session that has the bytes `head` of a header, and made `recv` for an earlier message.
abbrev pub waiting : List ℕ → Option RecvNode → Session
waiting head recv = record {
  b_head_parse = false;
  recv_head_node = record { total_len = head_total_len; data_ = head };
  recv_msg_node = recv;
}

-- What the code accepts: both fields of the header at most `MAX_LENGTH`.
pub record Accepted (m : Message) : Type 0 where
  pub id_le : m.id ≤ max_length
  pub len_le : length m.body ≤ max_length

abbrev pub header : Message → List ℕ
header m = high_first m.id ++ high_first (length m.body)

-- The node for `m`, with the bytes that have come.
abbrev pub made : Message → List ℕ → RecvNode
made m bytes = record {
  node = record { total_len = length m.body + 4; data_ = bytes };
  msg_id = m.id;
}

abbrev pub post : Message → Post
post m = record { msg_id = m.id; bytes = m.body }

module _ {ℓ} {A : Type ℓ} where
  tail_of : List A → List A
  tail_of [] = []
  tail_of (x ∷ xs) = xs

  pub take-append : (h r : List A) → take (length h) (h ++ r) ≡ h
  take-append [] r = refl
  take-append (x ∷ h) r = λ i. x ∷ take-append h r i

  pub drop-append : (h r : List A) → drop (length h) (h ++ r) ≡ r
  drop-append [] r = refl
  drop-append (x ∷ h) r = drop-append h r

  -- Cutting `h ++ r` where a first part `a` of `h` has been taken off.
  pub cut :
      (a b h r : List A) (n : ℕ)
      → a ++ b ≡ h ++ r
      → length a + n ≡ length h
      → (a ++ take n b ≡ h) × (drop n b ≡ r)
  unfolding tail_of
  cut [] b h r n e le =
      let q : n ≡ length h = omega arith in rw (q, e) (take-append h r, drop-append h r)
  cut (x ∷ a) b [] r n e le = absurd (omega arith)
  cut (x ∷ a) b (y ∷ h) r n e le =
      let (p, q) = cut a b h r n (ap tail_of e) (omega arith) in (cc, q)

module _ (host : Host) where
  -- A header in order, read in full.
  parse_head-frame :
      (m : Message) (s : Session) (rest : List ℕ)
      → Accepted m
      → s.recv_head_node.data_ ≡ header m
      → parse_head host s rest ≡ start_body s (made m []) (length m.body) rest
  unfolding parse_head new_recv_node short_at
  parse_head-frame m s rest acc e =
      let n = length m.body in
      let id_ok = acc.id_le in
      let len_ok = acc.len_le in
      let a : m.id / 256 * 256 + m.id % 256 ≡ m.id = omega arith in
      let b : n / 256 * 256 + n % 256 ≡ n = omega arith in
      let four : (n + head_total_len) % 2 ^ 16 ≡ n + 4 = omega arith in
      let fine : exceeds_max m.id ≡ false = ground arith in
      let fine' : exceeds_max n ≡ false = ground arith in
      rw (
        e,
        host.reads_high_first (m.id / 256) (m.id % 256) (omega arith) (omega arith),
        host.reads_high_first (n / 256) (n % 256) (omega arith) (omega arith),
        a,
        b,
        fine,
        fine',
        four,
        new_msg_node_lem (n + 4) (omega arith),
        ◌>>=◌,
      )

  -- The bytes after the header of `m` hold its whole body.
  start_body-whole :
      (m : Message) (s : Session) (rest : List ℕ)
      → Accepted m
      → start_body s (made m []) (length m.body) (m.body ++ rest) ≡ finish s (made m m.body) rest
  unfolding start_body
  start_body-whole m s rest acc =
      let n = length m.body in
      let len_ok = acc.len_le in
      let whole : lt_size (length (m.body ++ rest)) n ≡ false =
        ground (arith, length-append m.body rest) in
      rw (
        whole,
        take-append m.body rest,
        drop-append m.body rest,
        append_lem (n + 4) [] m.body (omega arith),
      )

  -- A round that completes the header of `m`, from a session that has a first part of it.
  pub read_round-header :
      (m : Message) (recv : Option RecvNode) (head bytes after : List ℕ)
      → Accepted m
      → length head < 4
      → head ++ bytes ≡ header m ++ after
      → read_round host (waiting head recv) bytes
        ≡ start_body (waiting (header m) recv) (made m []) (length m.body) after
  unfolding read_head read_round
  read_round-header m recv head bytes after acc short e =
      let n = length m.body in
      let (whole, left) = cut head bytes (header m) after (4 - length head) e (omega arith) in
      let enough : ltb (length bytes + length head) 4 ≡ false =
        ground (arith, ap length e, length-append head bytes) in
      let fits : length head + length (take (4 - length head) bytes) ≤ 4 + 1 =
        omega (arith, ap length whole, length-append head (take (4 - length head) bytes)) in
      rw (enough, append_lem 4 head (take (4 - length head) bytes) fits, whole, left)
        (parse_head-frame m _ after acc refl)

  -- A round on the whole of `m`: it is posted, and the session waits for the next header.
  pub read_round-message :
      (m : Message) (recv : Option RecvNode) (head bytes after : List ℕ)
      → Accepted m
      → length head < 4
      → head ++ bytes ≡ frame m ++ after
      → read_round host (waiting head recv) bytes ≡ (
          if leb (length after) 0
          then stop (post m ∷ []) (reading (waiting [] (some (made m m.body))))
          else next (post m) (waiting [] (some (made m m.body))) after)
  unfolding finish
  read_round-message m recv head bytes after acc short e =
      read_round-header m recv head bytes (m.body ++ after) acc short e
      ∙ start_body-whole m (waiting (header m) recv) after acc

  -- A round on less than a header.
  pub read_round-short :
      (recv : Option RecvNode) (head bytes : List ℕ)
      → length head + length bytes < 4
      → read_round host (waiting head recv) bytes ≡ stop [] (reading (waiting (head ++ bytes) recv))
  unfolding read_round read_head
  read_round-short recv head bytes few =
      let less : ltb (length bytes + length head) 4 ≡ true = ground arith in
      rw (less, append_lem 4 head bytes (omega arith))
