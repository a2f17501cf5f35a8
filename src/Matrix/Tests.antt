-- ===== src/Matrix/Tests.antt =====
-- tsoding/mechine_learning/Matrix.h: a run of `forward`, with numbers for floats.
use c_study.Prelude.{ℕ, zero, suc, ◌+◌, ◌-◌, ◌*◌, ◌≤◌, ◌≡◌, refl, subst, [], ◌∷◌, arith}
use c_study.Prelude.Run.{Returns}
use c_study.Matrix.{Floats, at, new_matrix, mat_mul}
use c_study.Matrix.Shape.{new_matrix-IsShaped}
use c_study.Matrix.Tables.{IsTable, new_matrix-at₂, mat_mul-IsTable, sum}
use c_study.Matrix.Network.{NetWork, forward}
use c_study.Matrix.Forward.{IsNetWork, activation, forward-activation}

abbrev numbers : Floats
numbers = record {
  F = ℕ;
  0f = 0;
  add = λ x y. x + y;
  sub = λ x y. x - y;
  mul = λ x y. x * y;
  sigmoidf = λ x. x + 1;
  div = λ x y. x;
  1f = 1;
  2f = 2;
  of_size = λ n. n;
}

constant : (r c x : ℕ) → IsTable r c (λ _ _. x) (new_matrix r c x)
constant r c x = record {
  shape = new_matrix-IsShaped r c x;
  element = λ i j hi hj. new_matrix-at₂ numbers r c i j x hi hj;
}

mat_mul-IsTable_example :
    Returns
      (mat_mul numbers (new_matrix 2 3 5) (new_matrix 3 1 7))
      (IsTable 2 1 (λ _ _. sum numbers 3 (λ _. 35)))
mat_mul-IsTable_example =
    mat_mul-IsTable numbers 2 3 1 (λ _ _. 5) (λ _ _. 7) (new_matrix 2 3 5) (new_matrix 3 1 7)
      (constant 2 3 5) (constant 3 1 7)

-- Two inputs and one output.
abbrev sizes : ℕ → ℕ
sizes zero = 2
sizes (suc i) = 1

abbrev small : NetWork ℕ
small = record {
  count = 1;
  ws = new_matrix 2 1 3 ∷ [];
  bs = new_matrix 1 1 4 ∷ [];
  acts = new_matrix 1 2 5 ∷ new_matrix 1 1 0 ∷ [];
}

small-IsNetWork : IsNetWork numbers sizes (λ _ _ _. 3) (λ _ _. 4) small
unfolding at
small-IsNetWork = record {
  weights = λ i h.
      let z : 0 ≡ i = omega arith in
      let s : suc i ≡ i + 1 = omega arith in
      subst (λ n. Returns (at small.ws i) (IsTable (sizes i) (sizes n) (λ _ _. 3))) s
        (subst (λ i. Returns (at small.ws i) (IsTable (sizes i) (sizes (suc i)) (λ _ _. 3))) z
          (new_matrix 2 1 3, refl, constant 2 1 3));
  biases = λ i h.
      let z : 0 ≡ i = omega arith in
      let s : suc i ≡ i + 1 = omega arith in
      subst (λ n. Returns (at small.bs i) (IsTable 1 (sizes n) (λ _ _. 4))) s
        (subst (λ i. Returns (at small.bs i) (IsTable 1 (sizes (suc i)) (λ _ _. 4))) z
          (new_matrix 1 1 4, refl, constant 1 1 4));
  layers = refl;
}

small-input : Returns (at small.acts 0) (IsTable 1 (sizes 0) (λ _ j. 5))
unfolding at
small-input = (new_matrix 1 2 5, refl, constant 1 2 5)

forward-activation_example : Returns (forward numbers small) λ m.
    IsNetWork numbers sizes (λ _ _ _. 3) (λ _ _. 4) m
    × (m.count ≡ small.count)
    × ((i : ℕ)
        → i ≤ small.count
        → Returns (at m.acts i) (
            IsTable 1
              (sizes i)
              (λ _ j. activation numbers sizes (λ _ _ _. 3) (λ _ _. 4) (λ _. 5) i j)))
forward-activation_example =
    forward-activation numbers sizes (λ _ _ _. 3) (λ _ _. 4) (λ _. 5) small small-IsNetWork
      small-input

-- 5 * 3 + 5 * 3 + 4, and 1 for the sigmoid
output-test : activation numbers sizes (λ _ _ _. 3) (λ _ _. 4) (λ _. 5) 1 0 ≡ 35
unfolding activation sum
output-test = refl
