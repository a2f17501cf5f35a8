-- ===== src/Async/Logic/Pool.antt =====
-- asio/Async/IOServicePool.cpp: the contexts are handed out in turn.
use native.Mathlib.Nat.{mod-lt, mod-eq_of_lt, mod-add-mod}
use c_study.Prelude.{
  ℕ, zero, suc, ◌+◌, ◌%◌, ◌<◌, ◌≡◌, refl, ap, ◌∙◌, ◌==◌, if◌then◌else◌, arith, lt→ltb, ==_iff,
  Bool-cases, inl, inr,
}
use c_study.Prelude.Run.{Run, ok, ◌>>=◌}
use c_study.Async.Logic.{get_io_service}

-- The index that the last of `n + 1` calls returns, and `_nextIOService` after it.
unfoldable pub calls : ℕ → ℕ → ℕ → Run (ℕ × ℕ)
calls size next zero = get_io_service size next
calls size next (suc n) = do (i, next') ← calls size next n; get_io_service size next'

mod_self : (n : ℕ) → 0 < n → n % n ≡ 0
mod_self n h = grind arith

get_io_service_lem :
    (size next : ℕ) → next < size → get_io_service size next ≡ ok (next, (next + 1) % size)
unfolding get_io_service
get_io_service_lem size next h = elim (Bool-cases (next + 1 == size)) [
  | inl e ↦
      let last : next + 1 ≡ size = (==_iff (next + 1) size).0 e in
      let wrap : (next + 1) % size ≡ 0 = ap (λ k. k % size) last ∙ mod_self size (omega arith) in
      rw (lt→ltb next size h, e, if◌then◌else◌, wrap) refl
  | inr e ↦
      let plain : next + 1 < size = ground arith in
      rw (lt→ltb next size h, e, if◌then◌else◌, mod-eq_of_lt plain) refl
]

-- On a pool of at least one context, the call of number `n` from the construction on, counted from 0,
-- returns the context of index `n % size`: each in turn, and never one that does not exist.
calls-mod :
    (size n : ℕ) → 0 < size → (calls size 0 n ≡ ok (n % size, (n + 1) % size)) × (n % size < size)
unfolding calls
calls-mod size zero h =
    let zero_mod : 0 % size ≡ 0 = mod-eq_of_lt h in
    (get_io_service_lem size 0 h ∙ rw zero_mod refl, mod-lt 0 h)
calls-mod size (suc n) h =
    let (run, _) = calls-mod size n h in
    let one : suc n ≡ n + 1 = omega arith in
    let step : ((n + 1) % size + 1) % size ≡ (n + 1 + 1) % size = mod-add-mod (n + 1) size 1 in
    (
      rw (run, ◌>>=◌)
          (get_io_service_lem size ((n + 1) % size) (mod-lt (n + 1) h) ∙ rw (step, one) refl),
      mod-lt (suc n) h,
    )
