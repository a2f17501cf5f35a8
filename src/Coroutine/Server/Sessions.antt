-- ===== src/Coroutine/Server/Sessions.antt =====
-- asio/Coroutine/Cserver.h: one accept, and a session that stays in the map.
use c_study.Prelude.{ℕ, ◌≡◌, refl, ◌∙◌, ◌⊎◌, inl, inr, List, [], ◌∷◌, Bool, true, false, arith}
use c_study.Async.Server.{has, erase_session}
use c_study.Async.Server.Sessions.{has-append, has-add_session}
use c_study.Coroutine.Server.{
  CoServer, start_accept, new_server, handle_accept, insert_session, clear_session, Follows, here,
  accept, inserted, clear,
}

-- The constructor's accept is pending and nothing was started, or no accept is pending.
abbrev Once : ℕ → CoServer → Type 0
Once uuid s = ((s.accepting ≡ uuid ∷ []) × (s.started ≡ [])) ⊎ (s.accepting ≡ [])

accept-done :
    (error : Bool) (u : ℕ) (s : CoServer) → (handle_accept error u s).accepting ≡ s.accepting
unfolding handle_accept
accept-done true u s = refl
accept-done false u s = refl

-- The last of a list of one.
one_left : (uuid u : ℕ) (xs rest : List ℕ) → xs ≡ uuid ∷ [] → xs ≡ u ∷ rest → rest ≡ []
one_left uuid u xs rest e f = cc

none_left : {A : Type 0} (u : ℕ) (xs rest : List ℕ) → xs ≡ [] → xs ≡ u ∷ rest → A
none_left u xs rest e f = cc

Follows-Once : (uuid : ℕ) (s : CoServer) → Follows (new_server uuid) s → Once uuid s
unfolding new_server start_accept insert_session clear_session
Follows-Once uuid _ here = inl (refl, refl)
Follows-Once uuid _ (accept {t} error u rest f e) = elim (Follows-Once uuid t f) [
  | inl (one, _) ↦
      inr (
        accept-done error u (record t { accepting = rest })
        ∙ one_left uuid u t.accepting rest one e)
  | inr none_pending ↦ none_left u t.accepting rest none_pending e
]
Follows-Once uuid _ (inserted {t} u rest f e) = Follows-Once uuid t f
Follows-Once uuid _ (clear {t} u f started) = Follows-Once uuid t f

-- Where no accept is pending, none is pending later, and no session is started.
Follows-idle :
    (s t : CoServer) → s.accepting ≡ [] → Follows s t → (t.accepting ≡ []) × (t.started ≡ s.started)
unfolding insert_session clear_session
Follows-idle s _ idle here = (idle, refl)
Follows-idle s _ idle (accept {t} error u rest f e) =
    none_left u t.accepting rest (Follows-idle s t idle f).0 e
Follows-idle s _ idle (inserted {t} u rest f e) = Follows-idle s t idle f
Follows-idle s _ idle (clear {t} u f started) = Follows-idle s t idle f

-- The sessions that the one accept starts.
unfoldable pub served : Bool → ℕ → List ℕ
served true u = []
served false u = u ∷ []

accept-served :
    (error : Bool) (u : ℕ) (s : CoServer)
    → s.started ≡ []
    → (handle_accept error u s).started ≡ served error u
unfolding handle_accept served
accept-served true u s e = e
accept-served false u s e = rw (e) refl

-- From a new server, in any state that is reached and for any accept that ends there, with an error or without:
-- in every state that follows, no accept is pending, and the sessions that were ever started are the one
-- of this accept, or none after an error.
pub accept-last :
    (uuid u : ℕ) (error : Bool) (rest : List ℕ) (s t : CoServer)
    → Follows (new_server uuid) s
    → s.accepting ≡ u ∷ rest
    → Follows (handle_accept error u (record s { accepting = rest })) t
    → (t.accepting ≡ []) × (t.started ≡ served error u)
accept-last uuid u error rest s t f e g = elim (Follows-Once uuid s f) [
  | inl (one, unstarted) ↦
      let idle =
        accept-done error u (record s { accepting = rest })
        ∙ one_left uuid u s.accepting rest one e in
      let (pending, same) =
        Follows-idle (handle_accept error u (record s { accepting = rest })) t idle g in
      (pending, same ∙ accept-served error u (record s { accepting = rest }) unstarted)
  | inr none_pending ↦ none_left u s.accepting rest none_pending e
]

-- A session that ends before `HandleAccept` has put it into the map stays there: from every state with a
-- started session between the two halves of `HandleAccept`, `ClearSession` and then the insert lead
-- to a state that holds the session although it was cleared.
insert-cleared :
    (r s : CoServer) (u : ℕ) (rest : List ℕ)
    → Follows r s
    → s.inserting ≡ u ∷ rest
    → has u s.started ≡ true
    → (t : CoServer) × Follows r t
      × (has u t.session ≡ true)
      × (has u t.cleared ≡ true)
      × (t.inserting ≡ rest)
unfolding clear_session insert_session has
insert-cleared r s u rest f e started = (
  _,
  inserted u rest (clear u f started) e,
  ground (arith, has-add_session u u (erase_session u s.session)),
  ground (arith, has-append u s.cleared (u ∷ [])),
  refl,
)
