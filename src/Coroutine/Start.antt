-- ===== src/Coroutine/Start.antt =====
-- asio/Coroutine/CSession.h: the coroutine of `Start` never posts a message.
use c_study.Prelude.{
  ℕ, suc, ◌+◌, ◌*◌, ◌/◌, ◌%◌, ◌≡◌, refl, List, [], ◌++◌, length, drop, Option, none, some, Bool,
  false, true, ltb, if◌then◌else◌, arith,
}
use c_study.Prelude.Run.{Run, ok, fault, Fault, null_access, ◌>>=◌}
use c_study.Async.Host.{Host}
use c_study.Async.Node.{RecvNode, head_total_len, head_id_len, Message, new_msg_node_lem}
use c_study.Async.Read.{short_at, exceeds_max}
use c_study.Async.Read.Step.{Accepted, header}
use c_study.Coroutine.{
  CoSession, new_co_session, Round, close, crash, again, read_body, on_fault, set_head,
  new_recv_node, start_round, start_loop, start,
}

-- The round posts nothing.
abbrev Stops : Round → Type 0
Stops close = Unit
Stops (crash f) = Unit
Stops (again p s rest) = ⊥

on_fault-Stops : (reason : Fault) → Stops (on_fault reason)
unfolding on_fault
on_fault-Stops Fault.out_of_range = tt
on_fault-Stops Fault.bad_access = tt
on_fault-Stops Fault.null_access = tt
on_fault-Stops Fault.division_by_zero = tt
on_fault-Stops Fault.bad_alloc = tt
on_fault-Stops Fault.no_return = tt
on_fault-Stops Fault.assertion = tt
on_fault-Stops Fault.overflow = tt

if-Stops : (b : Bool) (x y : Round) → Stops x → Stops y → Stops (if b then x else y)
if-Stops true x y hx hy = hx
if-Stops false x y hx hy = hy

set_head-Stops :
    (s : CoSession) (r : Run RecvNode) (rest : List ℕ)
    → s.recv_msg_node ≡ none
    → Stops (set_head s r rest)
unfolding set_head read_body
set_head-Stops s (ok r) rest e = rw (e, read_body) tt
set_head-Stops s (fault reason) rest e = on_fault-Stops reason

module _ (host : Host) where
  start_round-Stops :
      (s : CoSession) (bytes : List ℕ) → s.recv_msg_node ≡ none → Stops (start_round host s bytes)
  unfolding start_round
  start_round-Stops s bytes e =
      let body =
        set_head-Stops s (new_recv_node (short_at host head_id_len bytes) (short_at host 0 bytes))
          (drop head_total_len bytes) e in
      if-Stops (ltb (length bytes) head_total_len) _ _ tt (
        if-Stops (ltb (s.recv_head_node.total_len + 1) head_total_len) _ _ tt (
          if-Stops (exceeds_max (short_at host 0 bytes)) _ _ tt
            (if-Stops (exceeds_max (short_at host head_id_len bytes)) _ _ tt body)))

  stops :
      (fuel : ℕ) (s : CoSession) (bytes : List ℕ) (r : Round)
      → start_round host s bytes ≡ r
      → Stops r
      → (end : Option Fault) × (start_loop host (suc fuel) s bytes ≡ some ([], end))
  unfolding start_loop
  stops fuel s bytes close e h = (none, rw (start_loop, e) refl)
  stops fuel s bytes (crash f) e h = (some f, rw (start_loop, e) refl)
  stops fuel s bytes (again p s' rest) e h = absurd h

  -- Whatever the peer sends, the coroutine ends in its first round, and no message is posted to the
  -- logic system: the session closes, or the program is in undefined behaviour.
  start-posts_nothing :
      (bytes : List ℕ) → (end : Option Fault) × (start host bytes ≡ some ([], end))
  unfolding start
  start-posts_nothing bytes =
      stops (length bytes) new_co_session bytes _ refl (start_round-Stops new_co_session bytes refl)

  start_round-header :
      (m : Message) (rest : List ℕ)
      → Accepted m
      → start_round host new_co_session (header m ++ rest) ≡ crash null_access
  unfolding start_round set_head read_body new_recv_node short_at
  start_round-header m rest acc =
      let n = length m.body in
      let id_ok = acc.id_le in
      let len_ok = acc.len_le in
      let a : m.id / 256 * 256 + m.id % 256 ≡ m.id = omega arith in
      let b : n / 256 * 256 + n % 256 ≡ n = omega arith in
      let fine : exceeds_max m.id ≡ false = ground arith in
      let fine' : exceeds_max n ≡ false = ground arith in
      let whole : ltb (length (header m ++ rest)) head_total_len ≡ false = ground arith in
      rw
        (
          whole,
          host.reads_high_first (m.id / 256) (m.id % 256) (omega arith) (omega arith),
          host.reads_high_first (n / 256) (n % 256) (omega arith) (omega arith),
          a,
          b,
          fine,
          fine',
          if◌then◌else◌,
          new_msg_node_lem n (omega arith),
          ◌>>=◌,
        )
        refl

  -- Every header with an id and a length of at most `MAX_LENGTH` leads to a read through the null
  -- `_recv_msg_node`: the new node was stored in `_recv_head_node` instead.
  pub start-header :
      (m : Message) (rest : List ℕ)
      → Accepted m
      → start host (header m ++ rest) ≡ some ([], some null_access)
  unfolding start start_loop
  start-header m rest acc = rw (start_loop, start_round-header m rest acc) refl
