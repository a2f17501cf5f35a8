-- ===== src/Templates/Select.antt =====
-- Which type `TypeAt` of template.h selects.
use c_study.Templates.{type_at}
use c_study.Prelude.{
  ℕ, zero, suc, ◌≤◌, ◌<◌, ◌⊎◌, inl, inr, ◌≡◌, refl, ap, List, [], ◌∷◌, ◌++◌, Option, none, some,
  length, arith,
}

module _ {T : Type 0} where
  -- What an instantiation at `n` may give, where the compiler nests `depth` instantiations: a type that
  -- stands behind exactly `n` others, which is reached within the depth; or a program that does not compile,
  -- where the list has `n` types at most or the depth is not above `n`.
  unfoldable pub Selects : ℕ → List T → ℕ → Option T → Type 0
  Selects depth ts n none = (length ts ≤ n) ⊎ (depth ≤ n)
  Selects depth ts n (some t) =
      (n < depth)
      × ((before : List T) × (after : List T) × (ts ≡ before ++ t ∷ after) × (length before ≡ n))

  -- One more type in front moves the selection by one, and needs one more instantiation.
  Selects-cons :
      (depth : ℕ) (t : T) (ts : List T) (n : ℕ) (o : Option T)
      → Selects depth ts n o
      → Selects (suc depth) (t ∷ ts) (suc n) o
  unfolding Selects
  Selects-cons depth t ts n none (inl h) = inl (omega arith)
  Selects-cons depth t ts n none (inr h) = inr (omega arith)
  Selects-cons depth t ts n (some u) (lt, (before, after, split, at_n)) =
      (omega arith, (t ∷ before, after, ap (λ us. t ∷ us) split, ap suc at_n))

  -- `TypeAt` compiles exactly for the indices below the length of the list and below the compiler's depth, and
  -- then selects the type that has as many types before it as the index says.
  pub type_at-Selects : (depth : ℕ) (ts : List T) (n : ℕ) → Selects depth ts n (type_at depth ts n)
  unfolding type_at Selects
  type_at-Selects zero ts n = inr (omega arith)
  type_at-Selects (suc depth) [] n = inl (omega arith)
  type_at-Selects (suc depth) (t ∷ ts) zero = (omega arith, ([], ts, refl, refl))
  type_at-Selects (suc depth) (t ∷ ts) (suc n) =
      Selects-cons depth t ts n (type_at depth ts n) (type_at-Selects depth ts n)
