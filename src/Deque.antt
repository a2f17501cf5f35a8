-- ===== src/Deque.antt =====
-- basic/STL/mydeque.h: `Deque<T>`, a ring buffer that doubles when it is full.
pub mod Inv
pub mod Script
pub mod Ops
pub mod Ends
pub mod Tests
use c_study.Prelude.{
  ℕ, zero, suc, ◌+◌, ◌-◌, ◌*◌, ◌%◌, ◌^◌, Bool, true, false, List, Option, none, some, ◌==◌, ltb,
  if◌then◌else◌, length, get_elem?, set, replicate,
}
use c_study.Prelude.Run.{Fault, out_of_range, bad_access, division_by_zero, Run, ok, fault, ◌>>=◌}

-- The fields; `buffer` is the array `new T[capacity]`.
pub record Deque {ℓ} (T : Type ℓ) : Type ℓ where
  pub buffer : List T
  pub capacity : ℕ
  pub count : ℕ
  pub front_idx : ℕ
  pub back_idx : ℕ

-- `size_t` arithmetic, which wraps.
abbrev pub word : ℕ
word = 2 ^ 64

abbrev pub add_size : ℕ → ℕ → ℕ
add_size a b = (a + b) % word

abbrev pub sub_size : ℕ → ℕ → ℕ
sub_size a b = (a + word - b) % word

abbrev pub mul_size : ℕ → ℕ → ℕ
mul_size a b = (a * b) % word

-- `a % b` on `size_t`.
pub rem_size : ℕ → ℕ → Run ℕ
rem_size a b = if b == 0 then fault division_by_zero else ok (a % b)

module _ {ℓ} {T : Type ℓ} where
  -- `buffer[i]` as a value, and as the target of an assignment.
  pub read : List T → ℕ → Run T
  read xs i = elim (get_elem? xs i) [ none ↦ fault bad_access | some x ↦ ok x ]

  pub write : List T → ℕ → T → Run (List T)
  write xs i v = if ltb i (length xs) then ok (set xs i v) else fault bad_access

  -- The part of `push_front` after the test.
  pub put_front : T → Deque T → Run (Deque T)
  put_front val d = do
    f ← rem_size (add_size (sub_size d.front_idx 1) d.capacity) d.capacity
    b ← write d.buffer f val
    ok (record d { buffer = b; front_idx = f; count = add_size d.count 1 })

  -- The part of `push_back` after the test.
  pub put_back : T → Deque T → Run (Deque T)
  put_back val d = do
    b ← write d.buffer d.back_idx val
    j ← rem_size (add_size d.back_idx 1) d.capacity
    ok (record d { buffer = b; back_idx = j; count = add_size d.count 1 })

-- `T()` fills the storage that `new T[n]` gives.
module _ {ℓ} {T : Type ℓ} (blank : T) where
  unfoldable pub new_deque : ℕ → Deque T
  new_deque initial_capacity = record {
    buffer = replicate initial_capacity blank;
    capacity = initial_capacity;
    count = 0;
    front_idx = 0;
    back_idx = 0;
  }

  -- The loop of `resize`, with `n` rounds left.
  pub copy : Deque T → ℕ → ℕ → List T → Run (List T)
  copy d zero i n_buffer = ok n_buffer
  copy d (suc n) i n_buffer = do
    j ← rem_size (add_size d.front_idx i) d.capacity
    x ← read d.buffer j
    n_buffer' ← write n_buffer i x
    copy d n (i + 1) n_buffer'

  pub resize : ℕ → Deque T → Run (Deque T)
  resize new_cap d = do
    n_buffer ← copy d d.count 0 (replicate new_cap blank)
    ok (record {
      buffer = n_buffer;
      capacity = new_cap;
      count = d.count;
      front_idx = 0;
      back_idx = d.count;
    })

  -- The test that opens both pushes.
  pub grow : Deque T → Run (Deque T)
  grow d = if d.count == d.capacity then resize (mul_size d.capacity 2) d else ok d

  pub push_front : T → Deque T → Run (Deque T)
  push_front val d = grow d >>= put_front val

  pub push_back : T → Deque T → Run (Deque T)
  push_back val d = grow d >>= put_back val

module _ {ℓ} {T : Type ℓ} where
  pub is_empty : Deque T → Bool
  is_empty d = d.count == 0

  pub size : Deque T → ℕ
  size d = d.count

  pub pop_front : Deque T → Run (Deque T)
  pop_front d = if d.count == 0 then fault out_of_range else (do
    f ← rem_size (add_size d.front_idx 1) d.capacity
    ok (record d { front_idx = f; count = d.count - 1 }))

  -- `back_idx == 0 ? capacity - 1 : back_idx - 1`
  abbrev pub last_idx : Deque T → ℕ
  last_idx d = if d.back_idx == 0 then sub_size d.capacity 1 else d.back_idx - 1

  pub pop_back : Deque T → Run (Deque T)
  pop_back d =
      if d.count == 0
      then fault out_of_range
      else ok (record d { back_idx = last_idx d; count = d.count - 1 })

  pub front : Deque T → Run T
  front d = if is_empty d then fault out_of_range else read d.buffer d.front_idx

  pub back : Deque T → Run T
  back d = if is_empty d then fault out_of_range else read d.buffer (last_idx d)

  -- `*Iterator(this, pos)`.
  pub deref : Deque T → ℕ → Run T
  deref d pos = do t ← rem_size (add_size d.front_idx pos) d.capacity; read d.buffer t

  -- The positions of `begin()` and `end()`, and `++`.
  pub begin : Deque T → ℕ
  begin d = 0

  pub end : Deque T → ℕ
  end d = d.count
