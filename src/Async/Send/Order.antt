-- ===== src/Async/Send/Order.antt =====
-- asio/Async/CSession.cpp: the send queue hands whole messages to the socket one at a time, in order.
use c_study.Prelude.{
  ℕ, suc, ◌+◌, ◌-◌, ◌^◌, ◌≤◌, ◌<◌, ◌≡◌, refl, sym, ap, ◌∙◌, List, [], ◌∷◌, ◌++◌, length, map, take,
  Bool, true, false, ltb, if◌then◌else◌, arith, append_assoc, append-nil, length-append, Bool-cases,
  inl, inr, lt→ltb, subst, ltb-false→le,
}
use c_study.Prelude.Run.{ok, ◌>>=◌, Returns}
use c_study.Async.Host.{Host}
use c_study.Async.Node.{max_sendque, Message, frame, send_node-frame}
use c_study.Async.Send.{Sender, new_sender, write_front, send, next_write, handle_write}

-- The messages that are in the queue after `m` was sent to a queue with `n` in it.
unfoldable pub accepted : ℕ → List Message → Message → List Message
accepted n ms m = if ltb max_sendque n then ms else ms ++ m ∷ []

-- The wire bytes of the accepted messages are those whose write is over, then the queue. The writes that
-- were started are those and the front of the queue, whose write is the only one that is not over.
pub record IsInOrder (ms : List Message) (s : Sender) : Type 0 where
  pub over : List (List ℕ)
  pub all : map frame ms ≡ over ++ s.send_que
  pub started : s.writes ≡ over ++ take 1 s.send_que
  pub one : s.pending ≡ length (take 1 s.send_que)
  pub bound : length s.send_que ≤ max_sendque + 1

-- The states of a session whose writes succeed, with the messages that it accepted.
pub data Reaches (host : Host) : List Message → Sender → Type 0 where
  start : Reaches host [] new_sender
  sending :
      {ms : List Message} {s s' : Sender} (m : Message)
      → Reaches host ms s
      → m.id < 2 ^ 16
      → length m.body + 4 < 2 ^ 15
      → send host m.body (length m.body) m.id s ≡ ok s'
      → Reaches host (accepted (length s.send_que) ms m) s'
  written :
      {ms : List Message} {s s' : Sender}
      → Reaches host ms s
      → 0 < s.pending
      → handle_write false s ≡ ok s'
      → Reaches host ms s'

map-append : (xs ys : List Message) → map frame (xs ++ ys) ≡ map frame xs ++ map frame ys
map-append [] ys = refl
map-append (x ∷ xs) ys = ap (λ zs. frame x ∷ zs) (map-append xs ys)

queued_all :
    (ms : List Message) (m : Message) (over q : List (List ℕ))
    → map frame ms ≡ over ++ q
    → map frame (ms ++ m ∷ []) ≡ over ++ (q ++ frame m ∷ [])
queued_all ms m over q e =
    map-append ms (m ∷ []) ∙ ap (λ l. l ++ frame m ∷ []) e ∙ append_assoc over q (frame m ∷ [])

abbrev state : List (List ℕ) → List (List ℕ) → ℕ → Bool → Sender
state q writes pending closed = record {
  send_que = q;
  writes = writes;
  pending = pending;
  b_close = closed;
}

module _ (host : Host) where
  -- What `send` does while there is room.
  queue_send :
      (ms : List Message) (m : Message) (q writes : List (List ℕ)) (pending : ℕ) (closed : Bool)
      → length m.body + 4 < 2 ^ 15
      → m.id < 2 ^ 16
      → ltb max_sendque (length q) ≡ false
      → IsInOrder ms (state q writes pending closed)
      → Returns
          (send host m.body (length m.body) m.id (state q writes pending closed))
          (IsInOrder (ms ++ m ∷ []))
  unfolding send write_front
  queue_send ms m [] writes pending closed fits small room p = (
    state (frame m ∷ []) (writes ++ frame m ∷ []) (pending + 1) closed,
    rw (send_node-frame host m small fits, ◌>>=◌) refl,
    record {
      over = p.over;
      all = queued_all ms m p.over [] p.all;
      started = ap (λ l. l ++ frame m ∷ []) (p.started ∙ append-nil p.over);
      one = let z : pending ≡ 0 = p.one in let r : pending + 1 ≡ 1 = omega arith in r;
      bound = omega arith;
    },
  )
  queue_send ms m (x ∷ q) writes pending closed fits small room p = (
    state (x ∷ (q ++ frame m ∷ [])) writes pending closed,
    (let busy : ltb 0 (suc (length q)) ≡ true = lt→ltb 0 (suc (length q)) (omega arith) in
        rw (room, send_node-frame host m small fits, ◌>>=◌, busy, if◌then◌else◌) refl),
    record {
      over = p.over;
      all = queued_all ms m p.over (x ∷ q) p.all;
      started = p.started;
      one = p.one;
      bound =
          let len : length (x ∷ q ++ frame m ∷ []) ≡ length (x ∷ q) + 1 =
            length-append (x ∷ q) (frame m ∷ []) in
          let small : length (x ∷ q) ≤ max_sendque =
            ltb-false→le max_sendque (length (x ∷ q)) room in
          omega arith;
    },
  )

  -- `Send` returns, and keeps the order.
  send-IsInOrder :
      (ms : List Message) (m : Message) (s : Sender)
      → length m.body + 4 < 2 ^ 15
      → m.id < 2 ^ 16
      → IsInOrder ms s
      → Returns
          (send host m.body (length m.body) m.id s)
          (IsInOrder (accepted (length s.send_que) ms m))
  unfolding accepted send
  send-IsInOrder ms m s fits small p = elim (Bool-cases (ltb max_sendque (length s.send_que))) [
    | inl full ↦ rw (full, if◌then◌else◌) (s, refl, p)
    | inr room ↦
        subst (λ ms'. Returns (send host m.body (length m.body) m.id s) (IsInOrder ms'))
          (sym (ap (λ b. if b then ms else ms ++ m ∷ []) room))
          (queue_send ms m s.send_que s.writes s.pending s.b_close fits small room p)
  ]

written-step :
    (ms : List Message) (q writes : List (List ℕ)) (pending : ℕ) (closed : Bool)
    → 0 < pending
    → IsInOrder ms (state q writes pending closed)
    → Returns (handle_write false (state q writes pending closed)) (IsInOrder ms)
unfolding handle_write next_write write_front
written-step ms [] writes pending closed h p = let z : pending ≡ 0 = p.one in absurd (omega arith)
written-step ms (x ∷ []) writes pending closed h p = (
  state [] writes (pending - 1) closed,
  refl,
  record {
    over = p.over ++ x ∷ [];
    all = p.all ∙ sym (append-nil (p.over ++ x ∷ []));
    started = p.started ∙ sym (append-nil (p.over ++ x ∷ []));
    one = let z : pending ≡ 1 = p.one in let r : pending - 1 ≡ 0 = omega arith in r;
    bound = omega arith;
  },
)
written-step ms (x ∷ y ∷ q) writes pending closed h p = (
  state (y ∷ q) (writes ++ y ∷ []) (pending - 1 + 1) closed,
  (let busy : ltb 0 (suc (length q)) ≡ true = lt→ltb 0 (suc (length q)) (omega arith) in
      rw (busy, if◌then◌else◌) refl),
  record {
    over = p.over ++ x ∷ [];
    all = p.all ∙ sym (append_assoc p.over (x ∷ []) (y ∷ q));
    started = ap (λ l. l ++ y ∷ []) p.started;
    one = let z : pending ≡ 1 = p.one in let r : pending - 1 + 1 ≡ 1 = omega arith in r;
    bound = let b : suc (suc (length q)) ≤ max_sendque + 1 = p.bound in omega arith;
  },
)

private_ok : {A : Type 0} {x y : A} → ok x ≡ ok y → x ≡ y
private_ok e = cc

-- In every state that a session reaches while its writes succeed, by any sequence of `Send` and of
-- ends of writes: the accepted messages are on the wire or in the queue, whole, once each and in the
-- order of the calls; only the front of the queue is being written, one write at a time; and the
-- queue has at most `MAX_SENDQUE` + 1 messages. Bodies are below 32 KB and ids below 2 ^ 16.
pub Reaches-IsInOrder :
    (host : Host) (ms : List Message) (s : Sender) → Reaches host ms s → IsInOrder ms s
Reaches-IsInOrder host _ _ start = record {
  over = [];
  all = refl;
  started = refl;
  one = refl;
  bound = omega arith;
}
Reaches-IsInOrder host _ _ (sending {ms} {s} m r small fits e) =
    let (t, run, p) = send-IsInOrder host ms m s fits small (Reaches-IsInOrder host ms s r) in
    subst (IsInOrder (accepted (length s.send_que) ms m)) (private_ok (sym run ∙ e)) p
Reaches-IsInOrder host _ _ (written {ms} {s} r h e) =
    let (t, run, p) =
      written-step ms s.send_que s.writes s.pending s.b_close h (Reaches-IsInOrder host ms s r) in
    subst (IsInOrder ms) (private_ok (sym run ∙ e)) p

-- In every state that a session reaches while its writes succeed, the next `Send` of a body below 32 KB with an id
-- below 2 ^ 16 returns, and so does the call back of a write that is pending; such a state is reached again.
pub Reaches-Returns :
    (host : Host) (ms : List Message) (s : Sender)
    → Reaches host ms s
    → ((m : Message)
        → m.id < 2 ^ 16
        → length m.body + 4 < 2 ^ 15
        → Returns
            (send host m.body (length m.body) m.id s)
            (Reaches host (accepted (length s.send_que) ms m)))
      × (0 < s.pending → Returns (handle_write false s) (Reaches host ms))
Reaches-Returns host ms s r =
    let p = Reaches-IsInOrder host ms s r in
    (
      λ m small fits.
          let (t, run, _) = send-IsInOrder host ms m s fits small p in
          (t, run, sending m r small fits run),
      λ h.
          let (t, run, _) = written-step ms s.send_que s.writes s.pending s.b_close h p in
          (t, run, written r h run),
    )
