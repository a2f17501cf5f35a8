-- ===== src/Async/Logic.antt =====
-- asio/Async/LogicSystem.cpp and IOServicePool.cpp: the queue between the sessions and the worker
-- thread, step by step, and the choice of an io_context.
pub mod Order
pub mod Wake
pub mod Pool
pub mod Tests
use c_study.Prelude.{
  ℕ, ◌+◌, ◌<◌, ◌≡◌, List, [], ◌∷◌, ◌++◌, length, Bool, true, false, not, ◌==◌, ◌&&◌, ltb,
  if◌then◌else◌,
}
use c_study.Prelude.Run.{Run, ok, fault, bad_access}
use c_study.Async.Node.{msg_hello_word}
use c_study.Async.Read.{Post}

-- Where the worker is in `DealMsg`: at the top of its loop; holding the mutex, the test of the inner loop
-- having been true; in `_consume.wait`; or behind the loop.
pub data Phase : Type 0 where
  at_top : Phase
  tested : Phase
  waiting : Phase
  ended : Phase

-- `called` has the messages given to a call back so far.
pub record LogicSystem : Type 0 where
  pub msg_que : List Post
  pub b_stop : Bool
  pub called : List Post
  pub phase : Phase

abbrev pub new_logic : LogicSystem
new_logic = record { msg_que = []; b_stop = false; called = []; phase = at_top }

-- `_fun_callback.find(msg_id) != _fun_callback.end()`, with what `RegisterCallBacks` enters.
unfoldable pub has_callback : Post → Bool
has_callback m = m.msg_id == msg_hello_word

-- One message given to its call back, if there is one.
unfoldable pub dispatch : List Post → Post → List Post
dispatch called m = if has_callback m then called ++ m ∷ [] else called

-- The loop that empties the queue once `_b_stop` is set.
unfoldable pub drain : List Post → List Post → List Post
drain called [] = called
drain called (m ∷ ms) = drain (dispatch called m) ms

-- The worker's round from the top of the loop, under the mutex, with the queue's content.
unfoldable pub deal_round : LogicSystem → List Post → LogicSystem
deal_round s [] = if s.b_stop then record s { phase = ended } else record s { phase = tested }
deal_round s (m ∷ ms) =
    if s.b_stop
    then record s { msg_que = []; called = drain s.called (m ∷ ms); phase = ended }
    else record s { msg_que = ms; called = dispatch s.called m }

-- `notify_one`: a waiting worker goes back to its test.
unfoldable pub notify_one : Phase → Phase
notify_one at_top = at_top
notify_one tested = tested
notify_one waiting = at_top
notify_one ended = ended

-- `PostMsgToQue`
unfoldable pub post_msg_to_que : Post → LogicSystem → LogicSystem
post_msg_to_que m s =
    let que = s.msg_que ++ m ∷ [] in
    record s { msg_que = que; phase = if length que == 1 then notify_one s.phase else s.phase }

-- The destructor up to the join: it takes no mutex.
unfoldable pub set_stop : LogicSystem → LogicSystem
set_stop s = record s { b_stop = true; phase = notify_one s.phase }

-- The states that the system reaches, with the messages posted so far. `PostMsgToQue` needs the
-- mutex, which the worker holds between its test and its wait.
pub data Reaches : List Post → LogicSystem → Type 0 where
  start : Reaches [] new_logic
  round :
      {ps : List Post} {s : LogicSystem}
      → Reaches ps s
      → s.phase ≡ at_top
      → Reaches ps (deal_round s s.msg_que)
  sleep :
      {ps : List Post} {s : LogicSystem}
      → Reaches ps s
      → s.phase ≡ tested
      → Reaches ps (record s { phase = waiting })
  wake_up :
      {ps : List Post} {s : LogicSystem}
      → Reaches ps s
      → s.phase ≡ waiting
      → Reaches ps (record s { phase = at_top })
  post :
      {ps : List Post} {s : LogicSystem} (m : Post)
      → Reaches ps s
      → ¬ (s.phase ≡ tested)
      → Reaches (ps ++ m ∷ []) (post_msg_to_que m s)
  stop : {ps : List Post} {s : LogicSystem} → Reaches ps s → Reaches ps (set_stop s)

-- `GetIOService`: the index of the context that it returns, and `_nextIOService` after it.
unfoldable pub get_io_service : ℕ → ℕ → Run (ℕ × ℕ)
get_io_service size next =
    if ltb next size then ok (next, if next + 1 == size then 0 else next + 1) else fault bad_access
