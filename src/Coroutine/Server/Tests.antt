-- ===== src/Coroutine/Server/Tests.antt =====
-- asio/Coroutine/Cserver.h: one connection, which ends.
use c_study.Prelude.{◌≡◌, refl, [], ◌∷◌, false}
use c_study.Async.Server.{has, erase_session}
use c_study.Coroutine.Server.{
  CoServer, start_accept, new_server, handle_accept, clear_session, Follows, here, clear,
}
use c_study.Coroutine.Server.Sessions.{served, accept-last}

-- `Start` was called, and the session ended before the map has it.
abbrev one_ended : CoServer
one_ended = record {
  session = [];
  accepting = [];
  inserting = 1 ∷ [];
  started = 1 ∷ [];
  cleared = 1 ∷ [];
}

one_ended-Follows :
    Follows (handle_accept false 1 (record (new_server 1) { accepting = [] })) one_ended
unfolding new_server start_accept handle_accept clear_session has erase_session
one_ended-Follows = clear 1 here refl

new_server-accepting : (new_server 1).accepting ≡ 1 ∷ []
unfolding new_server start_accept
new_server-accepting = refl

accept-last_example : (one_ended.accepting ≡ []) × (one_ended.started ≡ served false 1)
accept-last_example =
    accept-last 1 1 false [] (new_server 1) one_ended here new_server-accepting one_ended-Follows
