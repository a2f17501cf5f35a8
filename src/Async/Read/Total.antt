-- ===== src/Async/Read/Total.antt =====
-- The rounds of `HandleRead` come to an end, from any state that the session can be in.
use c_study.Prelude.{
  ℕ, zero, suc, ◌+◌, ◌-◌, ◌≤◌, ◌<◌, ◌≡◌, refl, ◌⊎◌, Bool, true, false, List, [], ◌∷◌, Option, none,
  some, length, ltb, leb, arith, length-append, Bool-cases, inl, inr, take, drop, length-drop,
  Option-cases, ◌||◌,
}
use c_study.Prelude.Run.{Run, ok, fault, Fault, bad_alloc}
use c_study.Async.Host.{Host}
use c_study.Async.Node.{append-cases, RecvNode, append, new_recv_node, head_total_len, head_id_len}
use c_study.Async.Read.{
  Session, Post, Round, stop, next, After, reading, cleared, idle, crashed, read_round, read_loop,
  handle_read, start_body, lt_size, more_body, finish, parse_head, short_at, exceeds_max, read_head,
  on_fault, try_node,
}

-- Between messages the session has less than a header.
pub record IsValid (s : Session) : Type 0 where
  pub partial : s.b_head_parse ≡ false → length s.recv_head_node.data_ < head_total_len

-- A round leaves a valid session, and goes on only with a cleared header and with at least one and
-- at most `n` bytes.
abbrev Progress : ℕ → Round → Type 0
Progress n (stop posts (reading s)) = IsValid s
Progress n (stop posts cleared) = Unit
Progress n (stop posts idle) = Unit
Progress n (stop posts crashed) = Unit
Progress n (next p s rest) =
    IsValid s × (s.b_head_parse ≡ false) × (0 < length rest) × (length rest ≤ n)

on_fault-Progress : (n : ℕ) (e : Fault) → Progress n (on_fault e)
on_fault-Progress n bad_alloc = tt
on_fault-Progress n _ = tt

-- The rule for a step that may fault.
try_node-Progress :
    {A : Type 0} (n : ℕ) (r : Run A) (f : A → Round)
    → ((a : A) → Progress n (f a))
    → Progress n (try_node r f)
try_node-Progress n (ok a) f h = h a
try_node-Progress n (fault e) f h = on_fault-Progress n e

finish-Progress :
    (s : Session) (r : RecvNode) (rest : List ℕ) → Progress (length rest) (finish s r rest)
unfolding finish
finish-Progress s r rest = elim (Bool-cases (leb (length rest) 0)) [
  | inl done ↦ rw done (record { partial = λ _. omega arith })
  | inr more ↦ rw more (record { partial = λ _. omega arith }, refl, ground arith, omega arith)
]

-- A bound on the bytes may be weakened.
Progress-mono : (n k : ℕ) (r : Round) → n ≤ k → Progress n r → Progress k r
Progress-mono n k (stop posts (reading s)) le p = p
Progress-mono n k (stop posts cleared) le p = p
Progress-mono n k (stop posts idle) le p = p
Progress-mono n k (stop posts crashed) le p = p
Progress-mono n k (next q s rest) le p = (p.0, p.1, p.2, omega arith)

start_body-Progress :
    (s : Session) (r : RecvNode) (msg_len : ℕ) (rest : List ℕ)
    → Progress (length rest) (start_body s r msg_len rest)
unfolding start_body
start_body-Progress s r msg_len rest = elim (Bool-cases (lt_size (length rest) msg_len)) [
  | inl part ↦
      rw part (try_node-Progress _ (append rest r.node) _ (λ n. record { partial = λ e. cc }))
  | inr whole ↦ rw whole (
      try_node-Progress _ (append (take msg_len rest) r.node) _ (λ n.
        Progress-mono _ _ _ (omega (arith, length-drop msg_len rest))
          (finish-Progress s (record r { node = n }) (drop msg_len rest))))
]

more_body-Progress :
    (s : Session) (r : RecvNode) (bytes : List ℕ)
    → s.b_head_parse ≡ true
    → Progress (length bytes) (more_body s r bytes)
unfolding more_body
more_body-Progress s r bytes e =
    let n = r.node.total_len - length r.node.data_ in
    elim (Bool-cases (ltb r.node.total_len (length r.node.data_) || ltb (length bytes) n)) [
      | inl part ↦
          rw part (try_node-Progress _ (append bytes r.node) _ (λ a. record { partial = λ q. cc }))
      | inr whole ↦ rw whole (
          try_node-Progress _ (append (take n bytes) r.node) _ (λ a.
            Progress-mono _ _ _ (omega (arith, length-drop n bytes))
              (finish-Progress s (record r { node = a }) (drop n bytes))))
    ]

-- The loop returned, and if it reads on, in a valid session.
abbrev pub Ended : Option (List Post × After) → Type 0
Ended none = ⊥
Ended (some (posts, reading s)) = IsValid s
Ended (some (posts, cleared)) = Unit
Ended (some (posts, idle)) = Unit
Ended (some (posts, crashed)) = Unit

Ended-cons :
    (p : Post) (r : Option (List Post × After))
    → Ended r
    → Ended (elim r [ none ↦ none | some (posts, after) ↦ some (p ∷ posts, after) ])
Ended-cons p none h = h
Ended-cons p (some (posts, reading s)) h = h
Ended-cons p (some (posts, cleared)) h = h
Ended-cons p (some (posts, idle)) h = h
Ended-cons p (some (posts, crashed)) h = h

Round-cases :
    (r : Round)
    → ((posts : List Post) × (after : After) × (r ≡ stop posts after))
      ⊎ ((p : Post) × (s : Session) × (rest : List ℕ) × (r ≡ next p s rest))
Round-cases (stop posts after) = inl (posts, after, refl)
Round-cases (next p s rest) = inr (p, s, rest, refl)

stop-Ended :
    (n : ℕ) (posts : List Post) (after : After)
    → Progress n (stop posts after)
    → Ended (some (posts, after))
stop-Ended n posts (reading s) p = p
stop-Ended n posts cleared p = tt
stop-Ended n posts idle p = tt
stop-Ended n posts crashed p = tt

module _ (host : Host) where
  parse_head-Progress :
      (s : Session) (rest : List ℕ) → Progress (length rest) (parse_head host s rest)
  unfolding parse_head
  parse_head-Progress s rest =
      let id = short_at host 0 s.recv_head_node.data_ in
      let len = short_at host head_id_len s.recv_head_node.data_ in
      elim (Bool-cases (exceeds_max id)) [
        | inl bad ↦ rw bad tt
        | inr fine ↦ elim (Bool-cases (exceeds_max len)) [
          | inl bad ↦ rw (fine, bad) tt
          | inr fine' ↦
              rw (fine, fine')
                (try_node-Progress _ (new_recv_node len id) _
                  (λ r. start_body-Progress s r len rest))
        ]
      ]

  read_head-Progress :
      (s : Session) (bytes : List ℕ)
      → s.b_head_parse ≡ false
      → length s.recv_head_node.data_ < 4
      → 0 < length bytes
      → Progress (length bytes - 1) (read_head host s bytes)
  unfolding read_head
  read_head-Progress s bytes e short pos =
      let head = s.recv_head_node in
      let n = head_total_len - length head.data_ in
      elim (Bool-cases (ltb (length bytes + length head.data_) head_total_len)) [
        | inl part ↦ elim (append-cases bytes head) [
          | inl fits ↦
              rw (part, fits)
                (record { partial = λ _. ground (arith, length-append head.data_ bytes) })
          | inr over ↦ rw (part, over) tt
        ]
        | inr whole ↦ rw whole (
            try_node-Progress _ (append (take n bytes) head) _ (λ a.
              Progress-mono _ _ _ (omega (arith, length-drop n bytes))
                (parse_head-Progress (record s { recv_head_node = a }) (drop n bytes))))
      ]

  round_head :
      (s : Session) (bytes : List ℕ)
      → s.b_head_parse ≡ false
      → read_round host s bytes ≡ read_head host s bytes
  unfolding read_round
  round_head s bytes e = ground arith

  round_body :
      (s : Session) (bytes : List ℕ)
      → s.b_head_parse ≡ true
      → (read_round host s bytes ≡ stop [] crashed)
        ⊎ ((r : RecvNode) × (read_round host s bytes ≡ more_body s r bytes))
  unfolding read_round
  round_body s bytes e = elim (Option-cases s.recv_msg_node) [
    | inl nothing ↦ inl (ground arith)
    | inr (r, made) ↦ inr (r, ground arith)
  ]

  read_round-Progress :
      (s : Session) (bytes : List ℕ)
      → IsValid s
      → s.b_head_parse ≡ false
      → 0 < length bytes
      → Progress (length bytes - 1) (read_round host s bytes)
  read_round-Progress s bytes v e pos =
      rw (round_head s bytes e) (read_head-Progress s bytes e (v.partial e) pos)

  read_round-Progress_body :
      (s : Session) (bytes : List ℕ)
      → s.b_head_parse ≡ true
      → Progress (length bytes) (read_round host s bytes)
  read_round-Progress_body s bytes e = elim (round_body s bytes e) [
    | inl nothing ↦ rw nothing tt
    | inr (r, made) ↦ rw made (more_body-Progress s r bytes e)
  ]

  pub read_loop-Ended :
      (fuel : ℕ) (s : Session) (bytes : List ℕ)
      → IsValid s
      → s.b_head_parse ≡ false
      → length bytes < fuel
      → Ended (read_loop host fuel s bytes)
  unfolding read_loop
  read_loop-Ended zero s bytes v e fit = absurd (omega arith)
  read_loop-Ended (suc fuel) s [] v e fit = tt
  read_loop-Ended (suc fuel) s (b ∷ bytes) v e fit =
      let p = read_round-Progress s (b ∷ bytes) v e (omega arith) in
      elim (Round-cases (read_round host s (b ∷ bytes))) [
        | inl (posts, after, r) ↦
            rw (r, read_loop) (stop-Ended (suc (length bytes) - 1) posts after (rw r at p))
        | inr (q, s', rest, r) ↦
            let p' = rw r at p in
            rw (r, read_loop)
              (Ended-cons q _ (read_loop-Ended fuel s' rest p'.0 p'.1 (omega (arith, p'.3))))
      ]

  -- The rounds of `HandleRead` come to an end, with a crash at worst, from every valid state and every read, and where it asks for another
  -- read it leaves the session in a valid state: with less than a header between messages.
  handle_read-Ended :
      (error : Bool) (s : Session) (bytes : List ℕ)
      → IsValid s
      → Ended (handle_read host error s bytes)
  unfolding handle_read read_loop
  handle_read-Ended true s bytes v = tt
  handle_read-Ended false s [] v = tt
  handle_read-Ended false s (b ∷ bytes) v = elim (Bool-cases s.b_head_parse) [
    | inr head ↦ read_loop-Ended (suc (suc (suc (length bytes)))) s (b ∷ bytes) v head (omega arith)
    | inl body ↦
        let p = read_round-Progress_body s (b ∷ bytes) body in
        elim (Round-cases (read_round host s (b ∷ bytes))) [
          | inl (posts, after, r) ↦
              rw (r, read_loop) (stop-Ended (suc (length bytes)) posts after (rw r at p))
          | inr (q, s', rest, r) ↦
              let p' = rw r at p in
              rw (r, read_loop)
                (Ended-cons q _ (
                  read_loop-Ended (suc (suc (length bytes))) s' rest p'.0 p'.1
                    (omega (arith, p'.3))))
        ]
  ]
