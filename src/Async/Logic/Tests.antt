-- ===== src/Async/Logic/Tests.antt =====
-- asio/Async/LogicSystem.cpp and IOServicePool.cpp: two messages, of which one has a call back.
use c_study.Prelude.{◌≡◌, refl, [], ◌∷◌, true, false}
use c_study.Async.Read.{Post}
use c_study.Async.Logic.{
  at_top, waiting, LogicSystem, new_logic, has_callback, dispatch, deal_round, notify_one,
  post_msg_to_que, Reaches, start, round, post, sleep,
}
use c_study.Async.Logic.Order.{InOrder, Reaches-InOrder}
use c_study.Async.Logic.Wake.{waiting-empty, stop-lost}

abbrev hello : Post
hello = record { msg_id = 1001; bytes = 1 ∷ [] }

abbrev other : Post
other = record { msg_id = 7; bytes = [] }

abbrev two_posted : LogicSystem
two_posted = post_msg_to_que other (post_msg_to_que hello new_logic)

two_posted-Reaches : Reaches (hello ∷ other ∷ []) two_posted
unfolding post_msg_to_que notify_one
two_posted-Reaches = post other (post hello start (λ e. cc)) (λ e. cc)

-- The first is given to its call back.
abbrev one_dealt : LogicSystem
one_dealt = record { msg_que = other ∷ []; b_stop = false; called = hello ∷ []; phase = at_top }

one_dealt-Reaches : Reaches (hello ∷ other ∷ []) one_dealt
unfolding post_msg_to_que notify_one deal_round dispatch has_callback
one_dealt-Reaches = round two_posted-Reaches refl

Reaches-InOrder_example : InOrder (hello ∷ other ∷ []) one_dealt
Reaches-InOrder_example = Reaches-InOrder (hello ∷ other ∷ []) one_dealt one_dealt-Reaches

abbrev asleep : LogicSystem
asleep = record { msg_que = []; b_stop = false; called = []; phase = waiting }

asleep-Reaches : Reaches [] asleep
unfolding deal_round
asleep-Reaches = sleep (round start refl) refl

waiting-empty_example : asleep.msg_que ≡ []
waiting-empty_example = waiting-empty [] asleep asleep-Reaches refl

stop-lost_example :
    Reaches [] (record { msg_que = []; b_stop = true; called = []; phase = waiting })
stop-lost_example = stop-lost [] new_logic start refl refl refl
