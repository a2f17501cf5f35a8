-- ===== src/Async/Read/Split.antt =====
-- `HandleRead` on a message whose body comes in two reads, and on headers with a negative length.
use c_study.Prelude.{
  ℕ, suc, ◌+◌, ◌-◌, ◌≤◌, ◌<◌, ◌≡◌, refl, sym, ap, ◌∙◌, true, false, ◌||◌, List, [], ◌∷◌, ◌++◌,
  Option, none, some, length, ltb, leb, if◌then◌else◌, arith, length-append, Bool-cases, inl, inr,
  take, drop, length-take, length-drop,
}
use c_study.Async.Host.{Host}
use c_study.Async.Node.{RecvNode, Message, append_lem, head_total_len}
use c_study.Async.Read.{
  Session, Post, stop, next, After, reading, read_round, read_loop, handle_read, start_body,
  lt_size, more_body, finish,
}
use c_study.Async.Read.Total.{Ended, read_loop-Ended}
use c_study.Async.Read.Step.{Accepted, waiting, header, made, read_round-header}

-- The first post of a call.
abbrev pub PostsFirst : Post → Option (List Post × After) → Type 0
PostsFirst p none = ⊥
PostsFirst p (some ([], after)) = ⊥
PostsFirst p (some (q ∷ posts, after)) = q ≡ p

PostsFirst-next :
    (p : Post) (r : Option (List Post × After))
    → Ended r
    → PostsFirst p (elim r [ none ↦ none | some (posts, after) ↦ some (p ∷ posts, after) ])
PostsFirst-next p none h = absurd h
PostsFirst-next p (some (posts, after)) h = refl

module _ (host : Host) where
  -- A session in the middle of the body of `m`: it holds `got`.
  abbrev pub in_body : Message → List ℕ → Session
  in_body m got = record {
    b_head_parse = true;
    recv_head_node = record { total_len = head_total_len; data_ = header m };
    recv_msg_node = some (made m got);
  }

  -- A read that ends inside a body.
  handle_read-first :
      (m : Message) (recv : Option RecvNode) (got rest : List ℕ)
      → Accepted m
      → m.body ≡ got ++ rest
      → 0 < length rest
      → handle_read host false (waiting [] recv) (header m ++ got)
        ≡ some ([], reading (in_body m got))
  unfolding handle_read read_loop start_body
  handle_read-first m recv got rest acc e pos =
      let len_ok = acc.len_le in
      let sizes : length m.body ≡ length got + length rest = ap length e ∙ length-append got rest in
      let less : lt_size (length got) (length m.body) ≡ true = ground arith in
      rw (
        read_round-header host m recv [] (header m ++ got) got acc (omega arith) refl,
        read_loop,
        less,
        append_lem (length m.body + 4) [] got (omega arith),
      )

  -- A round inside a body that still leaves less than the node's storage filled.
  read_round-more :
      (m : Message) (got bytes : List ℕ)
      → length got + length bytes < length m.body + 4
      → read_round host (in_body m got) bytes ≡ stop [] (reading (in_body m (got ++ bytes)))
  unfolding read_round more_body
  read_round-more m got bytes few =
      let less : (ltb (length m.body + 4) (length got)
            || ltb (length bytes) (length m.body + 4 - length got))
          ≡ true =
        ground arith in
      rw (less, append_lem (length m.body + 4) got bytes (omega arith))

  handle_read-more :
      (m : Message) (got bytes : List ℕ)
      → length got + length bytes < length m.body + 4
      → 0 < length bytes
      → handle_read host false (in_body m got) bytes ≡ some ([], reading (in_body m (got ++ bytes)))
  unfolding handle_read read_loop
  handle_read-more m got [] few pos = absurd (omega arith)
  handle_read-more m got (b ∷ bytes) few pos = rw (read_round-more m got (b ∷ bytes) few, read_loop)

  -- A round in the body that has the four bytes past it as well.
  read_round-fill :
      (m : Message) (got bytes : List ℕ)
      → length got ≤ length m.body
      → length m.body + 4 ≤ length got + length bytes
      → let n = length m.body + 4 - length got in
        let p : Post = record { msg_id = m.id; bytes = got ++ take n bytes } in
        let s' = waiting [] (some (made m (got ++ take n bytes))) in
        read_round host (in_body m got) bytes ≡ (
          if leb (length (drop n bytes)) 0
          then stop (p ∷ []) (reading s')
          else next p s' (drop n bytes))
  unfolding read_round more_body finish
  read_round-fill m got bytes part enough =
      let n = length m.body + 4 - length got in
      let full : (ltb (length m.body + 4) (length got) || ltb (length bytes) n) ≡ false =
        ground arith in
      rw (
        full,
        append_lem (length m.body + 4) got (take n bytes) (omega (arith, length-take n bytes)),
      )

  -- A message of which one read ends inside the body is not posted when its last byte has come:
  -- the node was made four bytes too long, so the session goes on waiting.
  split_body-waits :
      (m : Message) (recv : Option RecvNode) (got rest : List ℕ)
      → Accepted m
      → m.body ≡ got ++ rest
      → 0 < length rest
      → (handle_read host false (waiting [] recv) (header m ++ got)
          ≡ some ([], reading (in_body m got)))
        × (handle_read host false (in_body m got) rest ≡ some ([], reading (in_body m m.body)))
  split_body-waits m recv got rest acc e pos =
      let sizes : length m.body ≡ length got + length rest = ap length e ∙ length-append got rest in
      (
        handle_read-first m recv got rest acc e pos,
        handle_read-more m got rest (omega arith) pos
            ∙ ap (λ t. some ([], reading (in_body m t))) (sym e),
      )

  -- In a session that has all bytes of a body of which one read ended inside, the next read, of four bytes or more, gives
  -- its first four bytes to that message: what is posted first is the body with them behind it.
  split_body-takes_header :
      (m : Message) (bytes : List ℕ)
      → 4 ≤ length bytes
      → PostsFirst
          (record { msg_id = m.id; bytes = m.body ++ take 4 bytes })
          (handle_read host false (in_body m m.body) bytes)
  unfolding handle_read read_loop
  split_body-takes_header m [] four = absurd (omega arith)
  split_body-takes_header m (b ∷ bytes) four =
      let n : length m.body + 4 - length m.body ≡ 4 = omega arith in
      let round = rw n at (read_round-fill m m.body (b ∷ bytes) (omega arith) (omega arith)) in
      elim (Bool-cases (leb (length (drop 4 (b ∷ bytes))) 0)) [
        | inl done ↦ rw (round, read_loop, done) refl
        | inr more ↦
            rw (round, read_loop, more)
              (PostsFirst-next _ _ (
                read_loop-Ended host (suc (suc (length bytes))) _ (drop 4 (b ∷ bytes))
                  (record { partial = λ _. omega arith }) refl
                  (omega (arith, length-drop 4 (b ∷ bytes)))))
      ]
