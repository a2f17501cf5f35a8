-- ===== src/Coroutine/Server.antt =====
-- asio/Coroutine/Cserver.h: the server of the coroutine version. Its sessions run on another thread than
-- the accepts, so that calls come between `Start` and the lock of `HandleAccept`.
pub mod Sessions
pub mod Tests
use c_study.Prelude.{ℕ, ◌≡◌, List, [], ◌∷◌, ◌++◌, Bool, true, false}
use c_study.Async.Server.{has, add_session, erase_session}

-- `inserting` has the sessions between the two halves of `HandleAccept`; the others are as in
-- asio/Async.
pub record CoServer : Type 0 where
  pub session : List ℕ
  pub accepting : List ℕ
  pub inserting : List ℕ
  pub started : List ℕ
  pub cleared : List ℕ

-- `StartAccept`
unfoldable pub start_accept : ℕ → CoServer → CoServer
start_accept uuid s = record s { accepting = s.accepting ++ uuid ∷ [] }

-- `CServer::CServer`
unfoldable pub new_server : ℕ → CoServer
new_server uuid =
    start_accept uuid
      (record { session = []; accepting = []; inserting = []; started = []; cleared = [] })

-- `HandleAccept` up to the lock, which calls `Start` unless there is an error.
unfoldable pub handle_accept : Bool → ℕ → CoServer → CoServer
handle_accept true u s = s
handle_accept false u s = record s {
  started = s.started ++ u ∷ [];
  inserting = s.inserting ++ u ∷ [];
}

-- The rest of it, under the lock.
unfoldable pub insert_session : ℕ → CoServer → CoServer
insert_session u s = record s { session = add_session u s.session }

unfoldable pub clear_session : ℕ → CoServer → CoServer
clear_session u s = record s { session = erase_session u s.session; cleared = s.cleared ++ u ∷ [] }

-- The states that may follow a state, in any number of steps. A session clears itself only after it was
-- started.
pub data Follows (s : CoServer) : CoServer → Type 0 where
  here : Follows s s
  accept :
      {t : CoServer} (error : Bool) (u : ℕ) (rest : List ℕ)
      → Follows s t
      → t.accepting ≡ u ∷ rest
      → Follows s (handle_accept error u (record t { accepting = rest }))
  inserted :
      {t : CoServer} (u : ℕ) (rest : List ℕ)
      → Follows s t
      → t.inserting ≡ u ∷ rest
      → Follows s (insert_session u (record t { inserting = rest }))
  clear :
      {t : CoServer} (u : ℕ) → Follows s t → has u t.started ≡ true → Follows s (clear_session u t)
