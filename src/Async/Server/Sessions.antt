-- ===== src/Async/Server/Sessions.antt =====
-- asio/Async/CServer.cpp: which sessions the map holds.
use c_study.Prelude.{
  ℕ, ◌≡◌, refl, ap, List, [], ◌∷◌, ◌++◌, true, false, not, ◌==◌, ◌||◌, ◌&&◌, arith, ◌⊎◌,
}
use c_study.Async.Server.{has, Server, add_session, erase_session}

-- One accept is pending, for a session that was not started, or `HandleAccept` is between `Start` and the insert.
abbrev pub Turn : Server → Type 0
Turn s =
    ((next : ℕ) × (s.accepting ≡ next ∷ []) × (s.inserting ≡ []) × (has next s.started ≡ false))
    ⊎ ((u : ℕ) × (s.accepting ≡ []) × (s.inserting ≡ u ∷ []) × (has u s.started ≡ true))

-- Only started sessions are in the map or were cleared; and a session that was started is in the map, unless it was
-- cleared or `HandleAccept` has not come to its insert.
pub record IsServing (s : Server) : Type 0 where
  pub turn : Turn s
  pub was_started : (u : ℕ) → has u s.cleared ≡ true → has u s.started ≡ true
  pub in_map : (u : ℕ) → has u s.session ≡ true → has u s.started ≡ true
  pub held :
      (u : ℕ)
      → has u s.started ≡ true
      → has u s.cleared ≡ false
      → has u s.inserting ≡ false
      → has u s.session ≡ true

pub has-append : (u : ℕ) (xs ys : List ℕ) → has u (xs ++ ys) ≡ (has u xs || has u ys)
unfolding has
has-append u [] ys = refl
has-append u (x ∷ xs) ys = ground (arith, has-append u xs ys)

pub has-add_session : (u v : ℕ) (us : List ℕ) → has u (add_session v us) ≡ (has u us || (u == v))
unfolding has add_session
has-add_session u v us = ground (arith, has-append u us (v ∷ []), has-eq u v us)
  where
    has-eq : (u v : ℕ) (us : List ℕ) → u ≡ v → has u us ≡ has v us
    has-eq u v us e = ap (λ u. has u us) e

pub has-erase_session :
    (u v : ℕ) (us : List ℕ) → has u (erase_session v us) ≡ (has u us && not (u == v))
unfolding has erase_session
has-erase_session u v [] = refl
has-erase_session u v (w ∷ us) = ground (arith, has-erase_session u v us)
