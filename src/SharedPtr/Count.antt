-- ===== src/SharedPtr/Count.antt =====
-- basic/type_ptr/simpleSharedPtr.h: how many pointers refer to a block, and how writes change that.
use c_study.Prelude.{
  ℕ, zero, suc, ◌+◌, ◌≤◌, ◌<◌, ◌≡◌, refl, ap, List, [], ◌∷◌, ◌++◌, length, set, get_or, Option,
  none, some, ◌==◌, if◌then◌else◌, arith,
}
use c_study.Prelude.Run.{ok}
use c_study.SharedPtr.{Handle, null_handle, count_at}

-- 1 where the pointer is that block, else 0.
abbrev pub one : ℕ → Option ℕ → ℕ
one b none = 0
one b (some c) = if c == b then 1 else 0

-- The number of pointers that share block `b`.
unfoldable pub refs : ℕ → List Handle → ℕ
refs b [] = 0
refs b (h ∷ hs) = one b h.control + refs b hs

pub refs-set :
    (b : ℕ) (hs : List Handle) (i : ℕ) (h : Handle)
    → i < length hs
    → refs b (set hs i h) + one b (get_or hs i null_handle).control ≡ refs b hs + one b h.control
unfolding refs
refs-set b [] i h lt = absurd (omega arith)
refs-set b (g ∷ hs) zero h lt = omega arith
refs-set b (g ∷ hs) (suc i) h lt = omega (arith, refs-set b hs i h (omega arith))

pub refs-append :
    (b : ℕ) (hs : List Handle) (h : Handle) → refs b (hs ++ h ∷ []) ≡ refs b hs + one b h.control
unfolding refs
refs-append b [] h = omega arith
refs-append b (g ∷ hs) h = omega (arith, refs-append b hs h)

pub one-le-refs :
    (b : ℕ) (hs : List Handle) (i : ℕ) → one b (get_or hs i null_handle).control ≤ refs b hs
unfolding refs
one-le-refs b [] i = omega arith
one-le-refs b (g ∷ hs) zero = omega arith
one-le-refs b (g ∷ hs) (suc i) = omega (arith, one-le-refs b hs i)

pub one_self : (b : ℕ) → one b (some b) ≡ 1
one_self b = ground arith

module _ {ℓ} {A : Type ℓ} where
  pub get_or-set_ne :
      (xs : List A) (i j : ℕ) (v d : A) → ¬ (j ≡ i) → get_or (set xs i v) j d ≡ get_or xs j d
  get_or-set_ne [] i j v d ne = refl
  get_or-set_ne (x ∷ xs) zero zero v d ne = absurd (ne refl)
  get_or-set_ne (x ∷ xs) zero (suc j) v d ne = refl
  get_or-set_ne (x ∷ xs) (suc i) zero v d ne = refl
  get_or-set_ne (x ∷ xs) (suc i) (suc j) v d ne = get_or-set_ne xs i j v d (λ e. ne (ap suc e))

  pub get_or-set_eq : (xs : List A) (i : ℕ) (v d : A) → i < length xs → get_or (set xs i v) i d ≡ v
  get_or-set_eq [] i v d h = absurd (omega arith)
  get_or-set_eq (x ∷ xs) zero v d h = refl
  get_or-set_eq (x ∷ xs) (suc i) v d h = get_or-set_eq xs i v d (omega arith)

  pub set-set : (xs : List A) (i : ℕ) (v w : A) → set (set xs i v) i w ≡ set xs i w
  set-set [] i v w = refl
  set-set (x ∷ xs) zero v w = refl
  set-set (x ∷ xs) (suc i) v w = ap (λ ys. x ∷ ys) (set-set xs i v w)

  pub get_or-append :
      (xs : List A) (i : ℕ) (y d : A) → i < length xs → get_or (xs ++ y ∷ []) i d ≡ get_or xs i d
  get_or-append [] i y d h = absurd (omega arith)
  get_or-append (x ∷ xs) zero y d h = refl
  get_or-append (x ∷ xs) (suc i) y d h = get_or-append xs i y d (omega arith)

-- A block with a count above 0 is there.
pub count_at_lem : (cs : List ℕ) (b : ℕ) → 0 < get_or cs b 0 → count_at cs b ≡ ok (get_or cs b 0)
unfolding count_at
count_at_lem [] b h = absurd (omega arith)
count_at_lem (zero ∷ cs) zero h = absurd (omega arith)
count_at_lem (suc c ∷ cs) zero h = refl
count_at_lem (zero ∷ cs) (suc b) h = count_at_lem cs b h
count_at_lem (suc c ∷ cs) (suc b) h = count_at_lem cs b h

pub counts-set :
    (cs : List ℕ) (b c : ℕ) (v : ℕ)
    → 0 < get_or cs b 0
    → get_or (set cs b v) c 0 + (if b == c then get_or cs b 0 else 0)
      ≡ get_or cs c 0 + (if b == c then v else 0)
counts-set [] b c v h = absurd (omega arith)
counts-set (x ∷ cs) zero zero v h = ground arith
counts-set (x ∷ cs) zero (suc c) v h = ground arith
counts-set (x ∷ cs) (suc b) zero v h = ground arith
counts-set (x ∷ cs) (suc b) (suc c) v h = ground (arith, counts-set cs b c v h)

pub counts-append :
    (cs : List ℕ) (b : ℕ) → get_or (cs ++ 1 ∷ []) b 0 ≡ get_or cs b 0 + one b (some (length cs))
counts-append [] zero = refl
counts-append [] (suc b) = ground arith
counts-append (x ∷ cs) zero = ground arith
counts-append (x ∷ cs) (suc b) = ground (arith, counts-append cs b)
