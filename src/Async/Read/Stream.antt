-- ===== src/Async/Read/Stream.antt =====
-- `HandleRead` on any number of messages in one read, and across reads that are cut at a header.
use c_study.Prelude.{
  ℕ, zero, suc, ◌+◌, ◌≤◌, ◌<◌, ◌≡◌, refl, sym, ap, ◌∙◌, false, List, [], ◌∷◌, ◌++◌, append_assoc,
  Option, none, some, length, leb, arith, length-append, map, Bool-cases, leb→le, inl, inr,
  append-nil,
}
use c_study.Prelude.Run.{Run, ok, ◌>>=◌, Returns}
use c_study.Async.Host.{Host}
use c_study.Async.Node.{RecvNode, Message, frame, send_node, send_node-frame}
use c_study.Async.Read.{Post, After, reading, read_loop, handle_read, new_session}
use c_study.Async.Read.Step.{Accepted, post, waiting, read_round-message, read_round-short, made}

-- Every message is accepted.
abbrev pub AllAccepted : List Message → Type 0
AllAccepted [] = Unit
AllAccepted (m ∷ ms) = Accepted m × AllAccepted ms

-- The frames of the messages, one after the other.
abbrev pub frames : List Message → List ℕ
frames [] = []
frames (m ∷ ms) = frame m ++ frames ms

-- The last node that was made for a list of messages.
abbrev pub last_made : Option RecvNode → List Message → Option RecvNode
last_made recv [] = recv
last_made recv (m ∷ ms) = last_made (some (made m m.body)) ms

nothing_left :
    (m : Message) (ms : List Message) (recv : Option RecvNode) (tail : List ℕ)
    → length (frames ms ++ tail) ≤ 0
    → ◌≡◌ {A = Option (List Post × After)}
        (some (post m ∷ [], reading (waiting [] recv)))
        (some (post m ∷ map post ms, reading (waiting tail (last_made recv ms))))
nothing_left m [] recv [] h = refl
nothing_left m [] recv (b ∷ tail) h = absurd (omega arith)
nothing_left m (k ∷ ms) recv tail h = absurd (omega arith)

module _ (host : Host) where
  read_loop-frames :
      (ms : List Message) (fuel : ℕ) (recv : Option RecvNode) (head bytes tail : List ℕ)
      → AllAccepted ms
      → length head < 4
      → length tail < 4
      → head ++ bytes ≡ frames ms ++ tail
      → 0 < length bytes
      → length bytes < fuel
      → read_loop host fuel (waiting head recv) bytes
        ≡ some (map post ms, reading (waiting tail (last_made recv ms)))
  unfolding read_loop
  read_loop-frames ms zero recv head bytes tail acc hs ts e pos fit = absurd (omega arith)
  read_loop-frames ms (suc fuel) recv head [] tail acc hs ts e pos fit = absurd (omega arith)
  read_loop-frames [] (suc fuel) recv head (b ∷ bytes) tail acc hs ts e pos fit =
      let few : length head + suc (length bytes) < 4 =
        omega (arith, ap length e, length-append head (b ∷ bytes)) in
      rw (read_round-short host recv head (b ∷ bytes) few, read_loop, e)
  read_loop-frames (m ∷ ms) (suc fuel) recv head (b ∷ bytes) tail acc hs ts e pos fit =
      let after = frames ms ++ tail in
      let e' = e ∙ append_assoc (frame m) (frames ms) tail in
      let round = read_round-message host m recv head (b ∷ bytes) after acc.0 hs e' in
      let fits : length after < fuel =
        omega
          (arith, ap length e', length-append head (b ∷ bytes), length-append (frame m) after) in
      elim (Bool-cases (leb (length after) 0)) [
        | inl done ↦
            rw (round, read_loop, done)
              (nothing_left m ms (some (made m m.body)) tail (leb→le _ _ done))
        | inr more ↦
            rw (round, read_loop, more)
              (rw (
                read_loop-frames ms fuel (some (made m m.body)) [] after tail acc.1 (omega arith) ts
                  refl (ground arith) fits))
      ]

  -- A session that has a first part `head` of a header reads the rest of the frames of `ms` and a
  -- first part `tail` of one more header: it posts exactly those messages, in order, keeps `tail`
  -- and reads on. `bytes` is not empty, and every field of every header is at most `MAX_LENGTH`.
  pub handle_read-frames :
      (ms : List Message) (recv : Option RecvNode) (head bytes tail : List ℕ)
      → AllAccepted ms
      → length head < 4
      → length tail < 4
      → head ++ bytes ≡ frames ms ++ tail
      → 0 < length bytes
      → handle_read host false (waiting head recv) bytes
        ≡ some (map post ms, reading (waiting tail (last_made recv ms)))
  unfolding handle_read
  handle_read-frames ms recv head bytes tail acc hs ts e pos =
      read_loop-frames ms (suc (suc (length bytes))) recv head bytes tail acc hs ts e pos
        (omega arith)

  -- The wire bytes of the messages, each made by `SendNode`.
  pub send_all : List Message → Run (List ℕ)
  send_all [] = ok []
  send_all (m ∷ ms) = do
    w ← send_node host m.body (length m.body) m.id
    ws ← send_all ms
    ok (w ++ ws)

  send_all-frames : (ms : List Message) → AllAccepted ms → send_all ms ≡ ok (frames ms)
  unfolding send_all
  send_all-frames [] acc = refl
  send_all-frames (m ∷ ms) acc =
      let id_ok = acc.0.id_le in
      let len_ok = acc.0.len_le in
      rw (send_node-frame host m (omega arith) (omega arith), ◌>>=◌, send_all-frames ms acc.1)

  -- What `SendNode` puts on the wire for some messages, read in one call by a new session, is
  -- posted as those messages in that order, and the session reads on at a fresh header. There is
  -- at least one message, and ids and lengths are at most `MAX_LENGTH`.
  pub handle_read-send_all :
      (m : Message) (ms : List Message)
      → AllAccepted (m ∷ ms)
      → Returns (send_all (m ∷ ms)) λ wire.
        handle_read host false new_session wire
        ≡ some (map post (m ∷ ms), reading (waiting [] (last_made none (m ∷ ms))))
  handle_read-send_all m ms acc = (
    frames (m ∷ ms),
    send_all-frames (m ∷ ms) acc,
    handle_read-frames (m ∷ ms) none [] (frames (m ∷ ms)) [] acc (omega arith) (omega arith)
        (sym (append-nil (frames (m ∷ ms)))) (omega arith),
  )
