-- ===== src/Prelude/Run.antt =====
-- Fallible code: a value, a C++ exception that the source throws, or undefined behaviour.
use c_study.Prelude.{◌≡◌}

pub data Fault : Type 0 where
  -- `throw std::out_of_range`
  out_of_range : Fault
  -- a read or write outside an allocation, or through a dangling pointer
  bad_access : Fault
  -- a member access through a null pointer
  null_access : Fault
  -- `% 0`
  division_by_zero : Fault
  -- `new T[n]` with a length that cannot be met
  bad_alloc : Fault
  -- a call into code that does not exist, or a function that ends with no `return`
  no_return : Fault
  -- `assert(…)` is false
  assertion : Fault
  -- a result of signed arithmetic that does not fit
  overflow : Fault

pub data Run {ℓ} (T : Type ℓ) : Type ℓ where
  fault : (reason : Fault) → Run T
  ok : (value : T) → Run T

-- Sequencing: the first fault ends the run.
infixl 5 ◌>>=◌
abbrev pub ◌>>=◌ {ℓ μ} : {T : Type ℓ} {U : Type μ} → Run T → (T → Run U) → Run U
fault reason >>= next = fault reason
ok value >>= next = next value

-- Total correctness: the run ends normally, and its value has the property.
abbrev pub Returns {ℓ μ} : {T : Type ℓ} (run : Run T) (Q : T → Type μ) → Type (ℓ ⊔ μ)
Returns {T} run Q = (value : T) × (run ≡ ok value) × Q value
