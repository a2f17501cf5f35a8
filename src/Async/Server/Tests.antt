-- ===== src/Async/Server/Tests.antt =====
-- asio/Async/CServer.cpp: a session that is accepted after an accept that failed, and ends before it is inserted.
use c_study.Prelude.{[], ◌∷◌}
use c_study.Async.Server.{Server}

abbrev left_over : Server
left_over = record {
  session = 2 ∷ [];
  accepting = 3 ∷ [];
  inserting = [];
  started = 2 ∷ [];
  cleared = 2 ∷ [];
}
