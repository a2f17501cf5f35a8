-- ===== src/Async/Server.antt =====
-- asio/Async/CServer.cpp: the server's map of sessions. A uuid is a number, and a session is its uuid. The call backs
-- run on several threads, so that `ClearSession` may come between `Start` and the insert of `HandleAccept`. One
-- insert or erase is one step; the source has no lock that makes it so.
pub mod Sessions
pub mod Tests
use c_study.Prelude.{ℕ, ◌≡◌, List, [], ◌∷◌, ◌++◌, Bool, true, false, ◌==◌, ◌||◌, if◌then◌else◌}

unfoldable pub has : ℕ → List ℕ → Bool
has u [] = false
has u (v ∷ vs) = (u == v) || has u vs

-- `_session`; the sessions that wait in an `async_accept`; those between `Start` and the insert; and those
-- whose `Start` and whose `ClearSession` were called so far.
pub record Server : Type 0 where
  pub session : List ℕ
  pub accepting : List ℕ
  pub inserting : List ℕ
  pub started : List ℕ
  pub cleared : List ℕ

-- `_session.insert`
unfoldable pub add_session : ℕ → List ℕ → List ℕ
add_session u us = if has u us then us else us ++ u ∷ []

-- `_session.erase`
unfoldable pub erase_session : ℕ → List ℕ → List ℕ
erase_session u [] = []
erase_session u (v ∷ vs) = if u == v then erase_session u vs else v ∷ erase_session u vs

-- `StartAccept`, which makes a session with a new uuid.
unfoldable pub start_accept : ℕ → Server → Server
start_accept uuid s = record s { accepting = s.accepting ++ uuid ∷ [] }

-- `CServer::CServer`
unfoldable pub new_server : ℕ → Server
new_server uuid =
    start_accept uuid
      (record { session = []; accepting = []; inserting = []; started = []; cleared = [] })

-- `HandleAccept` for the session `u`: after an error the whole of it, with the uuid of the session that it
-- makes, and otherwise `Start`.
unfoldable pub handle_accept : Bool → ℕ → ℕ → Server → Server
handle_accept error u uuid s =
    if error
    then start_accept uuid s
    else record s { started = s.started ++ u ∷ []; inserting = s.inserting ++ u ∷ [] }

-- The rest of `HandleAccept` without an error.
unfoldable pub insert_session : ℕ → ℕ → Server → Server
insert_session u uuid s = start_accept uuid (record s { session = add_session u s.session })

unfoldable pub clear_session : ℕ → Server → Server
clear_session u s = record s { session = erase_session u s.session; cleared = s.cleared ++ u ∷ [] }

-- The states that the server reaches. A uuid is not given twice, and a session clears itself only
-- after it was started.
pub data Reaches : Server → Type 0 where
  construct : (uuid : ℕ) → Reaches (new_server uuid)
  accept :
      {s : Server} (error : Bool) (u uuid : ℕ) (rest : List ℕ)
      → Reaches s
      → s.accepting ≡ u ∷ rest
      → has uuid (u ∷ s.started) ≡ false
      → Reaches (handle_accept error u uuid (record s { accepting = rest }))
  inserted :
      {s : Server} (u uuid : ℕ) (rest : List ℕ)
      → Reaches s
      → s.inserting ≡ u ∷ rest
      → has uuid s.started ≡ false
      → Reaches (insert_session u uuid (record s { inserting = rest }))
  clear : {s : Server} (u : ℕ) → Reaches s → has u s.started ≡ true → Reaches (clear_session u s)
