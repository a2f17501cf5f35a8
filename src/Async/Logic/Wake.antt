-- ===== src/Async/Logic/Wake.antt =====
-- asio/Async/LogicSystem.cpp: which wake-ups can be lost.
use c_study.Prelude.{
  ◌≡◌, refl, sym, ap, List, [], ◌∷◌, ◌++◌, true, false, length, ◌==◌, if◌then◌else◌, Bool-cases,
  inl, inr, subst,
}
use c_study.Async.Read.{Post}
use c_study.Async.Logic.{
  Phase, at_top, tested, waiting, ended, LogicSystem, deal_round, notify_one, post_msg_to_que,
  set_stop, Reaches, start, round, sleep, wake_up, post, stop,
}

-- The worker sleeps, or is about to, only on an empty queue.
abbrev Asleep : Phase → List Post → Type 0
Asleep at_top ms = Unit
Asleep tested ms = ms ≡ []
Asleep waiting ms = ms ≡ []
Asleep ended ms = Unit

round-Asleep :
    (s : LogicSystem) (ms : List Post)
    → s.phase ≡ at_top
    → s.msg_que ≡ ms
    → Asleep (deal_round s ms).phase (deal_round s ms).msg_que
unfolding deal_round
round-Asleep s [] e q = elim (Bool-cases s.b_stop) [
  | inl b ↦ rw (b, if◌then◌else◌) tt
  | inr b ↦ rw (b, if◌then◌else◌) q
]
round-Asleep s (m ∷ ms) e q = elim (Bool-cases s.b_stop) [
  | inl b ↦ rw (b, if◌then◌else◌) tt
  | inr b ↦ rw (b, if◌then◌else◌) (subst (λ p. Asleep p ms) (sym e) tt)
]

post-Asleep :
    (p : Phase) (ms : List Post) (m : Post)
    → ¬ (p ≡ tested)
    → Asleep p ms
    → Asleep (if length (ms ++ m ∷ []) == 1 then notify_one p else p) (ms ++ m ∷ [])
unfolding notify_one
post-Asleep at_top ms m h a = elim (Bool-cases (length (ms ++ m ∷ []) == 1)) [
  | inl b ↦ rw (b, if◌then◌else◌) tt
  | inr b ↦ rw (b, if◌then◌else◌) tt
]
post-Asleep tested ms m h a = absurd (h refl)
post-Asleep waiting ms m h a =
    let one : (length (ms ++ m ∷ []) == 1) ≡ true = ap (λ ms. length (ms ++ m ∷ []) == 1) a in
    rw (one, if◌then◌else◌) tt
post-Asleep ended ms m h a = elim (Bool-cases (length (ms ++ m ∷ []) == 1)) [
  | inl b ↦ rw (b, if◌then◌else◌) tt
  | inr b ↦ rw (b, if◌then◌else◌) tt
]

stop-Asleep : (p : Phase) (ms : List Post) → Asleep p ms → Asleep (notify_one p) ms
unfolding notify_one
stop-Asleep at_top ms a = a
stop-Asleep tested ms a = a
stop-Asleep waiting ms a = tt
stop-Asleep ended ms a = a

Reaches-Asleep : (ps : List Post) (s : LogicSystem) → Reaches ps s → Asleep s.phase s.msg_que
unfolding post_msg_to_que set_stop
Reaches-Asleep _ _ start = tt
Reaches-Asleep ps _ (round {s} r e) = round-Asleep s s.msg_que e refl
Reaches-Asleep ps _ (sleep {s} r e) = subst (λ p. Asleep p s.msg_que) e (Reaches-Asleep ps s r)
Reaches-Asleep ps _ (wake_up {s} r e) = tt
Reaches-Asleep _ _ (post {ps} {s} m r h) = post-Asleep s.phase s.msg_que m h (Reaches-Asleep ps s r)
Reaches-Asleep ps _ (stop {s} r) = stop-Asleep s.phase s.msg_que (Reaches-Asleep ps s r)

-- No message is left behind by a sleeping worker: in every state that the system reaches with the worker in
-- `wait`, the queue is empty.
pub waiting-empty :
    (ps : List Post) (s : LogicSystem) → Reaches ps s → s.phase ≡ waiting → s.msg_que ≡ []
waiting-empty ps s r e = subst (λ p. Asleep p s.msg_que) e (Reaches-Asleep ps s r)

deal_round-empty :
    (s : LogicSystem) (ms : List Post)
    → ms ≡ []
    → s.b_stop ≡ false
    → deal_round s ms ≡ record s { phase = tested }
unfolding deal_round
deal_round-empty s [] e b = rw (b, if◌then◌else◌) refl
deal_round-empty s (m ∷ ms) e b = cc

-- The stop can be lost: from every state with an empty queue, no stop yet and the worker at the top of its loop,
-- the destructor can come between the worker's test and its wait, and the system reaches the state
-- in which the worker is in `wait` although `_b_stop` is set.
pub stop-lost :
    (ps : List Post) (s : LogicSystem)
    → Reaches ps s
    → s.phase ≡ at_top
    → s.msg_que ≡ []
    → s.b_stop ≡ false
    → Reaches ps (record s { phase = waiting; b_stop = true })
unfolding set_stop notify_one
stop-lost ps s r top empty running =
    sleep (stop (subst (Reaches ps) (deal_round-empty s s.msg_que empty running) (round r top)))
      refl
