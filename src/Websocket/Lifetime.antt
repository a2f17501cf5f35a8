-- ===== src/Websocket/Lifetime.antt =====
-- asio/http/Connection.h: how long buffers and the reading last.
use c_study.Prelude.{
  ℕ, ◌-◌, ◌≡◌, refl, ◌∙◌, subst, List, [], ◌∷◌, ◌++◌, length, set, length-set, length-append,
  Option, none, some, Bool, true, false, ltb, if◌then◌else◌, arith,
}
use c_study.Prelude.Run.{ok}
use c_study.Websocket.{
  Connection, rmv_connection, begin_write, return_from, send_call_back, push_and_send, async_send,
  on_read, pop_and_send, on_write, Reaches, accept, read_message, read_error, send, written,
}

abbrev pub AllDestroyed : List (Option (List ℕ)) → Type 0
AllDestroyed [] = Unit
AllDestroyed (none ∷ bs) = AllDestroyed bs
AllDestroyed (some b ∷ bs) = ⊥

-- Each write has its own buffer, and all of them are destroyed.
pub record IsDangling (c : Connection) : Type 0 where
  pub one_each : length c.buffers ≡ length c.writes
  pub destroyed : AllDestroyed c.buffers

returned :
    (bs : List (Option (List ℕ))) (msg : List ℕ)
    → AllDestroyed bs
    → AllDestroyed (set (bs ++ some msg ∷ []) (length bs) none)
returned [] msg h = tt
returned (none ∷ bs) msg h = returned bs msg h
returned (some b ∷ bs) msg h = absurd h

send_call_back-IsDangling :
    (msg : List ℕ) (c : Connection) → IsDangling c → IsDangling (send_call_back msg c)
unfolding send_call_back return_from begin_write
send_call_back-IsDangling msg c v = record {
  one_each =
      length-set (c.buffers ++ some msg ∷ []) (length c.buffers) none
      ∙ omega (
        arith,
        length-append c.buffers (some msg ∷ []),
        length-append c.writes (msg ∷ []),
        v.one_each,
      );
  destroyed = returned c.buffers msg v.destroyed;
}

push-IsDangling :
    (msg : List ℕ) (c : Connection) (que : List (List ℕ))
    → IsDangling c
    → IsDangling (push_and_send msg c que)
unfolding push_and_send
push-IsDangling msg c [] v =
    send_call_back-IsDangling msg (record c { send_que = msg ∷ [] })
      (record { one_each = v.one_each; destroyed = v.destroyed })
push-IsDangling msg c (m ∷ que) v =
    let more : ltb 0 (length (m ∷ que)) ≡ true = ground arith in
    let w : IsDangling (record c { send_que = m ∷ que ++ msg ∷ [] }) = record {
      one_each = v.one_each;
      destroyed = v.destroyed;
    } in
    rw (more, if◌then◌else◌) w

ok-injective : {A : Type 0} {x y : A} → ok x ≡ ok y → x ≡ y
ok-injective e = cc

pop_and_send-IsDangling :
    (c d : Connection) (que : List (List ℕ))
    → IsDangling c
    → pop_and_send c que ≡ ok d
    → IsDangling d
unfolding pop_and_send
pop_and_send-IsDangling c d [] v run = cc
pop_and_send-IsDangling c d (m ∷ []) v run =
    subst IsDangling (ok-injective run) (record { one_each = v.one_each; destroyed = v.destroyed })
pop_and_send-IsDangling c d (m ∷ n ∷ que) v run = subst IsDangling (ok-injective run) (
    send_call_back-IsDangling n (record c { send_que = n ∷ que })
      (record { one_each = v.one_each; destroyed = v.destroyed }))

on_write-IsDangling :
    (error : Bool) (c d : Connection) → IsDangling c → on_write error c ≡ ok d → IsDangling d
unfolding on_write rmv_connection
on_write-IsDangling true c d v run =
    subst IsDangling (ok-injective run) (record { one_each = v.one_each; destroyed = v.destroyed })
on_write-IsDangling false c d v run =
    pop_and_send-IsDangling (record c { pending = c.pending - 1 }) d c.send_que
      (record { one_each = v.one_each; destroyed = v.destroyed }) run

-- `SendCallBack` gives `async_write` a pointer into its own parameter: in every state that a connection reaches
-- between two call backs, each message that was given to `async_write` has its own buffer, and all these
-- buffers are destroyed, those of the writes that are still pending included.
pub Reaches-IsDangling : (ms : List (List ℕ)) (c : Connection) → Reaches ms c → IsDangling c
unfolding on_read async_send rmv_connection
Reaches-IsDangling _ _ accept = record { one_each = refl; destroyed = tt }
Reaches-IsDangling _ _ (read_message {ms} {c} recv_data r due) =
    let v = Reaches-IsDangling ms c r in
    push-IsDangling recv_data _ c.send_que
      (record { one_each = v.one_each; destroyed = v.destroyed })
Reaches-IsDangling ms _ (read_error {c} r due) =
    let v = Reaches-IsDangling ms c r in record { one_each = v.one_each; destroyed = v.destroyed }
Reaches-IsDangling _ _ (send {ms} {c} msg r) =
    push-IsDangling msg c c.send_que (Reaches-IsDangling ms c r)
Reaches-IsDangling ms d (written {c} error r some_due run) =
    on_write-IsDangling error c d (Reaches-IsDangling ms c r) run
