-- ===== src/Coroutine/Refine.antt =====
-- asio/Coroutine/CSession.h: giving a node to the socket after the unlock does not change the order.
use c_study.Prelude.{
  ℕ, suc, ◌+◌, ◌-◌, ◌^◌, ◌<◌, ◌≡◌, refl, sym, ap, ap₂, ◌∙◌, subst, List, [], ◌∷◌, ◌++◌, length,
  Bool, false, ltb, if◌then◌else◌, arith, append_assoc, length-append, Bool-cases, inl, inr,
}
use c_study.Prelude.Run.{Run, ok, fault, ◌>>=◌}
use c_study.Async.Host.{Host}
use c_study.Async.Node.{max_sendque, send_node, Message}
use c_study.Async.Send.{Sender, write_front, send, next_write, handle_write}
use c_study.Async.Send.Order
use c_study.Async.Send.Order.{accepted, IsInOrder, Reaches-IsInOrder}
use c_study.Coroutine.{
  CoSender, new_co_sender, take_front, send_locked, write_unlocked, next_locked,
  handle_write_locked,
}

-- A node that waits for its `async_write` counts as written.
unfoldable pub view : CoSender → Sender
view s = record {
  send_que = s.send_que;
  writes = s.writes ++ s.unwritten;
  pending = s.pending + length s.unwritten;
  b_close = s.b_close;
}

-- The view of what a step makes.
abbrev view_run : Run CoSender → Run Sender
view_run (ok s) = ok (view s)
view_run (fault reason) = fault reason

abbrev co : List (List ℕ) → List (List ℕ) → List (List ℕ) → ℕ → Bool → CoSender
co q u w p b = record { send_que = q; unwritten = u; writes = w; pending = p; b_close = b }

abbrev plain : List (List ℕ) → List (List ℕ) → ℕ → Bool → Sender
plain q w p b = record { send_que = q; writes = w; pending = p; b_close = b }

one_more : (u : List (List ℕ)) (n : List ℕ) (p : ℕ) → p + length (u ++ n ∷ []) ≡ p + length u + 1
one_more u n p = omega (arith, length-append u (n ∷ []))

take_front-view :
    (q u w : List (List ℕ)) (p : ℕ) (b : Bool)
    → view_run (take_front (co q u w p b)) ≡ write_front (plain q (w ++ u) (p + length u) b)
unfolding take_front write_front view
take_front-view [] u w p b = refl
take_front-view (n ∷ q) u w p b =
    ap₂ (λ ws k. ok (plain (n ∷ q) ws k b)) (sym (append_assoc w u (n ∷ []))) (one_more u n p)

module _ where
  queue-view :
      (r : Run (List ℕ)) (q u w : List (List ℕ)) (p : ℕ) (b : Bool)
      → view_run (r >>= λ n. ok (co (q ++ n ∷ []) u w p b))
        ≡ (r >>= λ n. ok (plain (q ++ n ∷ []) (w ++ u) (p + length u) b))
  unfolding view
  queue-view (ok n) q u w p b = refl
  queue-view (fault reason) q u w p b = refl

  front-view :
      (r : Run (List ℕ)) (q u w : List (List ℕ)) (p : ℕ) (b : Bool)
      → view_run ((r >>= λ n. ok (co (q ++ n ∷ []) u w p b)) >>= take_front)
        ≡ ((r >>= λ n. ok (plain (q ++ n ∷ []) (w ++ u) (p + length u) b)) >>= write_front)
  front-view (ok n) q u w p b = take_front-view (q ++ n ∷ []) u w p b
  front-view (fault reason) q u w p b = refl

module _ (host : Host) (msg : List ℕ) (len id : ℕ) where
  send-view :
      (q u w : List (List ℕ)) (p : ℕ) (b : Bool)
      → view_run (send_locked host msg len id (co q u w p b))
        ≡ send host msg len id (plain q (w ++ u) (p + length u) b)
  unfolding send_locked send view
  send-view q u w p b = elim (Bool-cases (ltb max_sendque (length q))) [
    | inl full ↦ rw (full, if◌then◌else◌) refl
    | inr room ↦ elim (Bool-cases (ltb 0 (length q))) [
      | inl busy ↦ rw (room, busy, if◌then◌else◌) (queue-view (send_node host msg len id) q u w p b)
      | inr free ↦ rw (room, free, if◌then◌else◌) (front-view (send_node host msg len id) q u w p b)
    ]
  ]

next_locked-view :
    (q u w : List (List ℕ)) (p : ℕ) (b : Bool)
    → view_run (next_locked (co q u w p b)) ≡ next_write (plain q (w ++ u) (p + length u) b)
unfolding next_locked next_write view
next_locked-view [] u w p b = refl
next_locked-view (n ∷ q) u w p b = elim (Bool-cases (ltb 0 (length q))) [
  | inl more ↦ rw (more, if◌then◌else◌) (take_front-view q u w p b)
  | inr last ↦ rw (last, if◌then◌else◌) refl
]

handle_write-view :
    (s : CoSender)
    → 0 < s.pending
    → view_run (handle_write_locked false s) ≡ handle_write false (view s)
unfolding handle_write_locked handle_write view
handle_write-view s h =
    let k : s.pending - 1 + length s.unwritten ≡ s.pending + length s.unwritten - 1 = omega arith in
    next_locked-view s.send_que s.unwritten s.writes (s.pending - 1) s.b_close
    ∙ ap (λ k. next_write (plain s.send_que (s.writes ++ s.unwritten) k s.b_close)) k

ok-injective : {A : Type 0} {x y : A} → ok x ≡ ok y → x ≡ y
ok-injective e = cc

write_unlocked-view :
    (u q w : List (List ℕ)) (p : ℕ) (b : Bool) (t : CoSender)
    → write_unlocked (co q u w p b) ≡ ok t
    → view t ≡ view (co q u w p b)
unfolding write_unlocked view
write_unlocked-view [] q w p b t e = cc
write_unlocked-view (n ∷ u) q w p b t e =
    let same : co q u (w ++ n ∷ []) (p + 1) b ≡ t = ok-injective e in
    let k : p + 1 + length u ≡ p + suc (length u) = omega arith in
    sym (ap view same) ∙ ap₂ (λ ws k. plain q ws k b) (append_assoc w (n ∷ []) u) k

-- The states of a session whose writes succeed, with the messages that it accepted. Between an unlock and its
-- `async_write`, other calls may come.
pub data Reaches (host : Host) : List Message → CoSender → Type 0 where
  start : Reaches host [] new_co_sender
  sending :
      {ms : List Message} {s s' : CoSender} (m : Message)
      → Reaches host ms s
      → m.id < 2 ^ 16
      → length m.body + 4 < 2 ^ 15
      → send_locked host m.body (length m.body) m.id s ≡ ok s'
      → Reaches host (accepted (length s.send_que) ms m) s'
  writing :
      {ms : List Message} {s s' : CoSender}
      → Reaches host ms s
      → write_unlocked s ≡ ok s'
      → Reaches host ms s'
  written :
      {ms : List Message} {s s' : CoSender}
      → Reaches host ms s
      → 0 < s.pending
      → handle_write_locked false s ≡ ok s'
      → Reaches host ms s'

-- Every state that the coroutine session's queue reaches is, when a node that waits for its `async_write`
-- counts as written, one that the queue of the session of asio/Async reaches with the same
-- accepted messages.
pub Reaches-refines :
    (host : Host) (ms : List Message) (s : CoSender)
    → Reaches host ms s
    → Order.Reaches host ms (view s)
unfolding view
Reaches-refines host _ _ start = Order.Reaches.start
Reaches-refines host _ _ (sending {ms} {s} {s'} m r small fits e) =
    Order.Reaches.sending {s = view s} {s' = view s'} m (Reaches-refines host ms s r) small fits (
      sym (
        send-view host m.body (length m.body) m.id s.send_que s.unwritten s.writes s.pending
          s.b_close)
      ∙ ap view_run e)
Reaches-refines host _ _ (writing {ms} {s} {s'} r e) =
    subst (Order.Reaches host ms)
      (sym (write_unlocked-view s.unwritten s.send_que s.writes s.pending s.b_close s' e))
      (Reaches-refines host ms s r)
Reaches-refines host _ _ (written {ms} {s} {s'} r h e) =
    Order.Reaches.written {s = view s} {s' = view s'} (Reaches-refines host ms s r) (omega arith)
      (sym (handle_write-view s h) ∙ ap view_run e)
