-- ===== src/Async/Logic/Order.antt =====
-- asio/Async/LogicSystem.cpp: messages are handled in the order in which they were posted.
use c_study.Prelude.{
  ◌≡◌, refl, sym, ap, ◌∙◌, List, [], ◌∷◌, ◌++◌, if◌then◌else◌, append_assoc, append-nil, Bool-cases,
  inl, inr,
}
use c_study.Async.Read.{Post}
use c_study.Async.Logic.{
  LogicSystem, has_callback, dispatch, drain, deal_round, post_msg_to_que, set_stop, Reaches, start,
  round, sleep, wake_up, post, stop,
}

-- The messages that have a call back.
unfoldable pub handled : List Post → List Post
handled [] = []
handled (m ∷ ms) = let rest = handled ms in if has_callback m then m ∷ rest else rest

handled-append : (xs ys : List Post) → handled (xs ++ ys) ≡ handled xs ++ handled ys
unfolding handled
handled-append [] ys = refl
handled-append (m ∷ xs) ys = elim (Bool-cases (has_callback m)) [
  | inl e ↦ rw (e, if◌then◌else◌, handled-append xs ys) refl
  | inr e ↦ rw (e, if◌then◌else◌, handled-append xs ys) refl
]

dispatch-handled :
    (called : List Post) (m : Post) (ms : List Post)
    → dispatch called m ++ handled ms ≡ called ++ handled (m ∷ ms)
unfolding dispatch handled
dispatch-handled called m ms = elim (Bool-cases (has_callback m)) [
  | inl e ↦ rw (e, if◌then◌else◌) (append_assoc called (m ∷ []) (handled ms))
  | inr e ↦ rw (e, if◌then◌else◌) refl
]

drain-handled : (called ms : List Post) → drain called ms ≡ called ++ handled ms
unfolding drain handled
drain-handled called [] = sym (append-nil called)
drain-handled called (m ∷ ms) = drain-handled (dispatch called m) ms ∙ dispatch-handled called m ms

-- What has been given to call backs, and will be of the queue, is what was posted.
abbrev pub InOrder : List Post → LogicSystem → Type 0
InOrder ps s = s.called ++ handled s.msg_que ≡ handled ps

deal_round-InOrder :
    (ps : List Post) (s : LogicSystem) (ms : List Post)
    → s.called ++ handled ms ≡ handled ps
    → s.msg_que ≡ ms
    → InOrder ps (deal_round s ms)
unfolding deal_round handled
deal_round-InOrder ps s [] p e = elim (Bool-cases s.b_stop) [
  | inl b ↦ rw (b, if◌then◌else◌) (ap (λ ms. s.called ++ handled ms) e ∙ p)
  | inr b ↦ rw (b, if◌then◌else◌) (ap (λ ms. s.called ++ handled ms) e ∙ p)
]
deal_round-InOrder ps s (m ∷ ms) p e = elim (Bool-cases s.b_stop) [
  | inl b ↦
      rw (b, if◌then◌else◌)
        (append-nil (drain s.called (m ∷ ms)) ∙ drain-handled s.called (m ∷ ms) ∙ p)
  | inr b ↦ rw (b, if◌then◌else◌) (dispatch-handled s.called m ms ∙ p)
]

post-InOrder :
    (ps : List Post) (s : LogicSystem) (m : Post)
    → InOrder ps s
    → s.called ++ handled (s.msg_que ++ m ∷ []) ≡ handled (ps ++ m ∷ [])
post-InOrder ps s m p =
    ap (λ xs. s.called ++ xs) (handled-append s.msg_que (m ∷ []))
    ∙ sym (append_assoc s.called (handled s.msg_que) (handled (m ∷ [])))
    ∙ ap (λ xs. xs ++ handled (m ∷ [])) p
    ∙ sym (handled-append ps (m ∷ []))

-- In every state that the system reaches, whatever the interleaving of posts, rounds, wake-ups and the
-- stop: the messages that were given to their call back, followed by those of the queue that
-- have one, are the posted messages that have one, each once and in the order of the posts.
pub Reaches-InOrder : (ps : List Post) (s : LogicSystem) → Reaches ps s → InOrder ps s
unfolding post_msg_to_que set_stop
Reaches-InOrder _ _ start = (unfold handled in refl)
Reaches-InOrder ps _ (round {s} r e) =
    deal_round-InOrder ps s s.msg_que (Reaches-InOrder ps s r) refl
Reaches-InOrder ps _ (sleep {s} r e) = Reaches-InOrder ps s r
Reaches-InOrder ps _ (wake_up {s} r e) = Reaches-InOrder ps s r
Reaches-InOrder _ _ (post {ps} {s} m r e) = post-InOrder ps s m (Reaches-InOrder ps s r)
Reaches-InOrder ps _ (stop {s} r) = Reaches-InOrder ps s r
