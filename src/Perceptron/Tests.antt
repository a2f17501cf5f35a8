-- ===== src/Perceptron/Tests.antt =====
-- tsoding/neural_network.cpp: rectangles and circles partly outside the layer.
use c_study.Prelude.{ℕ, ◌+◌, ◌-◌, ◌*◌, ltb, refl, arith}
use c_study.Prelude.Int.{pos, negsuc}
use c_study.Prelude.Run.{Returns}
use c_study.Matrix.{Floats, Matrix, new_matrix}
use c_study.Matrix.Shape.{IsShaped, new_matrix-IsShaped}
use c_study.Perceptron.{width, height, layer_fill_rect}
use c_study.Perceptron.Fill.{layer_fill_rect-IsShaped}
use c_study.Perceptron.Train.{Params, State, train_pass}
use c_study.Perceptron.Pass.{IsValid, train_pass-IsValid}

abbrev blank : Matrix ℕ
blank = new_matrix height width 0

layer_fill_rect-IsShaped_example :
    Returns (layer_fill_rect (negsuc 4) (pos 45) (pos 10) (pos 20) 1 blank) (IsShaped height width)
layer_fill_rect-IsShaped_example =
    layer_fill_rect-IsShaped (negsuc 4) (pos 45) (pos 10) (pos 20) 1 blank refl refl (omega arith)
      (omega arith) (new_matrix-IsShaped height width 0)

abbrev numbers : Floats
numbers = record {
  F = ℕ;
  0f = 0;
  add = λ x y. x + y;
  sub = λ x y. x - y;
  mul = λ x y. x * y;
  sigmoidf = λ x. x;
  div = λ x y. x;
  1f = 1;
  2f = 2;
  of_size = λ n. n;
}

abbrev quiet : Params ℕ
quiet = record { rand = λ n. n * 37; above_bias = λ x. ltb 10 x; below_bias = λ x. ltb x 10 }

abbrev first : State ℕ
first = record { adjust = 0; inputs = blank; weights = blank; calls = 0 }

train_pass-IsValid_example : Returns (train_pass numbers quiet first) (IsValid numbers quiet)
train_pass-IsValid_example = train_pass-IsValid numbers quiet first (record {
  inputs = new_matrix-IsShaped height width 0;
  weights = new_matrix-IsShaped height width 0;
})
