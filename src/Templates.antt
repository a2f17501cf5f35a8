-- ===== src/Templates.antt =====
-- basic/model/Template_Meta/template.h: the metaprograms, as the constants and types that an instantiation
-- gives; `none` is a program that does not compile. `depth` is the compiler's limit on nested instantiations.
pub mod Limits
pub mod Select
pub mod Tests
use c_study.Prelude.{ℕ, zero, suc, ◌^◌, List, [], ◌∷◌, Option, none, some, Bool, ltb, if◌then◌else◌}
use c_study.Prelude.Int.{ℤ, pos, negsuc, ◌+ℤ◌, ◌*ℤ◌}
use c_study.Prelude.Options.{◌>>=◌}

-- Whether an `int` can have the value.
abbrev pub fits_int : ℤ → Bool
fits_int (pos n) = ltb n (2 ^ 31)
fits_int (negsuc n) = ltb n (2 ^ 31)

-- A constant expression of type `int`: an overflow does not compile.
abbrev pub int_constant : ℤ → Option ℤ
int_constant z = if fits_int z then some z else none

-- `Factorial<N>::value`
unfoldable pub factorial : ℕ → ℤ → Option ℤ
factorial zero n = none
factorial (suc depth) (pos zero) = some (pos 1)
factorial (suc depth) (pos (suc n)) = do
  v ← factorial depth (pos n)
  int_constant (pos (suc n) *ℤ v)
factorial (suc depth) (negsuc n) = do
  v ← factorial depth (negsuc (suc n))
  int_constant (negsuc n *ℤ v)

-- `Fibonacci<N>::value`
unfoldable pub fibonacci : ℕ → ℤ → Option ℤ
fibonacci zero n = none
fibonacci (suc depth) (pos zero) = some (pos 0)
fibonacci (suc depth) (pos (suc zero)) = some (pos 1)
fibonacci (suc depth) (pos (suc (suc n))) = do
  u ← fibonacci depth (pos (suc n))
  v ← fibonacci depth (pos n)
  int_constant (u +ℤ v)
fibonacci (suc depth) (negsuc n) = do
  u ← fibonacci depth (negsuc (suc n))
  v ← fibonacci depth (negsuc (suc (suc n)))
  int_constant (u +ℤ v)

-- `sum<NS...>::value`
unfoldable pub sum : List ℤ → Option ℤ
sum [] = some (pos 0)
sum (n ∷ ns) = do v ← sum ns; int_constant (n +ℤ v)

-- `TypeAt<typelist<Ts...>, N>::type`
unfoldable pub type_at {ℓ} : {T : Type ℓ} → ℕ → List T → ℕ → Option T
type_at zero ts n = none
type_at (suc depth) [] n = none
type_at (suc depth) (head ∷ tail) zero = some head
type_at (suc depth) (head ∷ tail) (suc n) = type_at depth tail n

-- The types of the list in `main`.
pub data CxxType : Type 0 where
  int_type : CxxType
  double_type : CxxType
  char_type : CxxType

-- What `main` prints: the sum, the Fibonacci number, and the type whose name follows.
unfoldable pub main_output : Option (ℤ × ℤ × CxxType)
main_output = do
  ans ← sum (pos 1 ∷ pos 2 ∷ pos 3 ∷ pos 4 ∷ pos 5 ∷ [])
  f ← fibonacci 900 (pos 5)
  third ← type_at 900 (int_type ∷ double_type ∷ char_type ∷ []) 1
  some (ans, f, third)
