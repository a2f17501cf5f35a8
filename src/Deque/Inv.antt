-- ===== src/Deque/Inv.antt =====
-- basic/STL/mydeque.h: the representation invariant of `Deque`, and the list that one holds.
use c_study.Prelude.{
  ℕ, zero, suc, ◌+◌, ◌-◌, ◌%◌, ◌^◌, ◌≤◌, ◌<◌, ◌≡◌, ◌≢◌, refl, List, [], ◌∷◌, ◌++◌, some, ltb,
  if◌then◌else◌, length, get_elem?, set, length-replicate, arith, dec_lt, get_elem?-set_self,
}
use c_study.Prelude.Run.{ok}
use native.Mathlib.Nat.{mod-eq_of_lt, mod-eq-sub-mod}
use c_study.Deque.{Deque, rem_size, read, write, new_deque}

-- An index below twice the capacity, brought round.
abbrev pub wrap : ℕ → ℕ → ℕ
wrap c a = if ltb a c then a else a - c

pub mod-wrap : (a c : ℕ) → a < c + c → a % c ≡ wrap c a
mod-wrap a c h = elim (dec_lt a c) [
  | yes p ↦ ground (arith, mod-eq_of_lt p)
  | no p ↦ ground (
    arith,
    mod-eq-sub-mod {n = a} {m = c} (omega arith),
    mod-eq_of_lt {n = a - c} {m = c} (omega arith),
  )
]

pub rem_size_lem : (a c : ℕ) → a < c + c → rem_size a c ≡ ok (wrap c a)
unfolding rem_size
rem_size_lem a c h = ground (arith, mod-wrap a c h)

-- Fewer than `c` steps apart, two slots differ.
pub wrap-ne : (c h i j : ℕ) → h < c → i < j → j < c → wrap c (h + j) ≢ wrap c (h + i)
wrap-ne c h i j a b d = ground arith

pub wrap-lt : (c a : ℕ) → a < c + c → wrap c a < c
wrap-lt c a h = ground arith

-- Half of the address space bounds the capacity, so that no index computation wraps.
pub record IsValid {ℓ} {T : Type ℓ} (d : Deque T) : Type 0 where
  pub width : length d.buffer ≡ d.capacity
  pub pos : 0 < d.capacity
  pub small : d.capacity ≤ 2 ^ 62
  pub front_in : d.front_idx < d.capacity
  pub count_le : d.count ≤ d.capacity
  pub back_at : d.back_idx ≡ wrap d.capacity (d.front_idx + d.count)

-- The deque is valid, and its slots from `front_idx` on hold `xs`.
pub record Holds {ℓ} {T : Type ℓ} (d : Deque T) (xs : List T) : Type ℓ where
  pub valid : IsValid d
  pub len : length xs ≡ d.count
  pub at :
      (i : ℕ)
      → i < d.count
      → get_elem? d.buffer (wrap d.capacity (d.front_idx + i)) ≡ get_elem? xs i

module _ {ℓ} {T : Type ℓ} where
  pub get_elem?-some : (xs : List T) (i : ℕ) → i < length xs → (x : T) × (get_elem? xs i ≡ some x)
  get_elem?-some [] i h = elim h [ ]
  get_elem?-some (x ∷ xs) zero h = (x, refl)
  get_elem?-some (x ∷ xs) (suc i) h = get_elem?-some xs i (omega arith)

  pub get_elem?-append_left :
      (xs ys : List T) (i : ℕ) → i < length xs → get_elem? (xs ++ ys) i ≡ get_elem? xs i
  get_elem?-append_left [] ys i h = elim h [ ]
  get_elem?-append_left (x ∷ xs) ys zero h = refl
  get_elem?-append_left (x ∷ xs) ys (suc i) h = get_elem?-append_left xs ys i (omega arith)

  pub get_elem?-append_last :
      (xs : List T) (v : T) (i : ℕ) → i ≡ length xs → get_elem? (xs ++ v ∷ []) i ≡ some v
  get_elem?-append_last [] v zero h = refl
  get_elem?-append_last [] v (suc i) h = absurd (omega arith)
  get_elem?-append_last (x ∷ xs) v zero h = absurd (omega arith)
  get_elem?-append_last (x ∷ xs) v (suc i) h = get_elem?-append_last xs v i (omega arith)

  pub get_elem?-set_at :
      (xs : List T) (i j : ℕ) (v : T) → i < length xs → j ≡ i → get_elem? (set xs i v) j ≡ some v
  get_elem?-set_at xs i j v h e = rw e (get_elem?-set_self xs i v h)

  pub write_lem : (xs : List T) (i : ℕ) (v : T) → i < length xs → write xs i v ≡ ok (set xs i v)
  unfolding write
  write_lem xs i v h = ground arith

  pub read_lem : (xs : List T) (i : ℕ) (x : T) → get_elem? xs i ≡ some x → read xs i ≡ ok x
  unfolding read
  read_lem xs i x h = ground arith

  -- A new deque is valid and holds nothing.
  pub new_deque-Holds : (blank : T) (n : ℕ) → 0 < n → n ≤ 2 ^ 62 → Holds (new_deque blank n) []
  unfolding new_deque
  new_deque-Holds blank n pos small = record {
    valid = record {
      width = length-replicate n blank;
      pos = pos;
      small = small;
      front_in = pos;
      count_le = omega arith;
      back_at = ground arith;
    };
    len = refl;
    at = λ i h. elim h [ ];
  }
