-- ===== src/Hash/Iter.antt =====
-- basic/STL/hashmap.h: `Iterator`, `begin` and `end`.
use c_study.Prelude.{ℕ, zero, suc, ◌+◌, ◌-◌, [], ◌∷◌, Bool, true, false, ◌==◌, ◌&&◌, if◌then◌else◌}
use c_study.Prelude.Run.{Run, ok, fault, out_of_range, ◌>>=◌}
use c_study.Hash.{Chain, HashMap, at}

-- `bucket_index_`, and the nodes from `curr` on: null is the empty chain.
pub record Iterator {ℓ} (K V : Type ℓ) : Type ℓ where
  pub bucket_index : ℕ
  pub curr : Chain K V

module _ {ℓ} {K V : Type ℓ} where
  abbrev pub iterator : ℕ → Chain K V → Iterator K V
  iterator i c = record { bucket_index = i; curr = c }

  unfoldable pub end : HashMap K V → Iterator K V
  end m = iterator m.bucket_count []

  -- The loop of `begin`, with the rounds that are left.
  unfoldable pub begin_loop : HashMap K V → ℕ → ℕ → Run (Iterator K V)
  begin_loop m zero i = ok (end m)
  begin_loop m (suc rounds) i = do
    c ← at m.bucket i
    elim c [ [] ↦ begin_loop m rounds (i + 1) | e ∷ t ↦ ok (iterator i (e ∷ t)) ]

  unfoldable pub begin : HashMap K V → Run (Iterator K V)
  begin m = begin_loop m m.bucket_count 0

  -- `bucket_index_ == bucket_count_ ? nullptr : bucket_[bucket_index_]`
  unfoldable pub bucket_at : HashMap K V → ℕ → Run (Chain K V)
  bucket_at m i = if i == m.bucket_count then ok [] else at m.bucket i

  -- The loop of `advance`, with the rounds until `bucket_index_` is `bucket_count_`.
  unfoldable pub next_bucket : HashMap K V → ℕ → ℕ → Chain K V → Run (Iterator K V)
  next_bucket m rounds i (e ∷ t) = ok (iterator i (e ∷ t))
  next_bucket m zero i [] = ok (iterator i [])
  next_bucket m (suc rounds) i [] = do c ← bucket_at m (i + 1); next_bucket m rounds (i + 1) c

  -- `curr->next`, where `curr` is not null.
  unfoldable pub next_node : Chain K V → Chain K V
  next_node [] = []
  next_node (e ∷ t) = t

  -- `advance`, and so both `operator++`.
  unfoldable pub advance : HashMap K V → Iterator K V → Run (Iterator K V)
  advance m it =
      next_bucket m (m.bucket_count - it.bucket_index) it.bucket_index (next_node it.curr)

  unfoldable pub deref_chain : Chain K V → Run (K × V)
  deref_chain [] = fault out_of_range
  deref_chain (e ∷ t) = ok e

  -- `operator*` and `operator->`
  unfoldable pub deref : Iterator K V → Run (K × V)
  deref it = deref_chain it.curr

  unfoldable pub is_null : Chain K V → Bool
  is_null [] = true
  is_null (e ∷ t) = false

  -- `it == m.end()`
  unfoldable pub at_end : HashMap K V → Iterator K V → Bool
  at_end m it = it.bucket_index == m.bucket_count && is_null it.curr
