-- ===== src/Perceptron/Train.antt =====
-- tsoding/neural_network.cpp: the random layers and the two passes. `rand()` is a parameter that gives
-- its results in order, and the comparisons with `BIAS` are parameters.
use c_study.Prelude.{ℕ, ◌+◌, ◌-◌, ◌%◌, Bool, ltb, min, if◌then◌else◌}
use c_study.Prelude.Int.{pos}
use c_study.Prelude.Run.{Run, ok, fault, assertion, ◌>>=◌}
use c_study.Matrix.{Floats, Matrix, for_up}
use c_study.Perceptron.{
  width, height, sample_size, layer_fill_rect, layer_fill_circle, feed_forward,
  add_inputs_to_weights, sub_inputs_from_weights,
}

-- The results of `rand()`, and `x > BIAS` and `x < BIAS`.
pub record Params (F : Type 0) : Type 0 where
  pub rand : ℕ → ℕ
  pub above_bias : F → Bool
  pub below_bias : F → Bool

-- `adjust`, the two layers, and the number of calls of `rand()`.
pub record State (F : Type 0) : Type 0 where
  pub adjust : ℕ
  pub inputs : Matrix F
  pub weights : Matrix F
  pub calls : ℕ

-- `if (v < 2) v = 2;`
unfoldable pub at_least_two : ℕ → ℕ
at_least_two v = if ltb v 2 then 2 else v

module _ (fl : Floats) (params : Params (Floats.F fl)) where
  open fl use {F, 0f, 1f}
  open params use {rand, above_bias, below_bias}

  -- `rand_range`, for call `n` of `rand()`.
  unfoldable pub rand_range : ℕ → ℕ → ℕ → Run ℕ
  rand_range n low high = if ltb low high then ok (rand n % (high - low) + low) else fault assertion

  -- `layer_random_rect(inputs)`, from call `n` of `rand()` on.
  unfoldable pub layer_random_rect : ℕ → Matrix F → Run (Matrix F)
  layer_random_rect n layer = do
    layer ← layer_fill_rect (pos 0) (pos 0) (pos width) (pos height) 0f layer
    x ← rand_range n 0 width
    y ← rand_range (n + 1) 0 height
    w ← rand_range (n + 2) 1 (at_least_two (width - x))
    h ← rand_range (n + 3) 1 (at_least_two (height - y))
    layer_fill_rect (pos x) (pos y) (pos w) (pos h) 1f layer

  -- `layer_random_circle(inputs)`
  unfoldable pub layer_random_circle : ℕ → Matrix F → Run (Matrix F)
  layer_random_circle n layer = do
    layer ← layer_fill_rect (pos 0) (pos 0) (pos width) (pos height) 0f layer
    cx ← rand_range n 0 width
    cy ← rand_range (n + 1) 0 height
    r ← rand_range (n + 2) 1 (at_least_two (min (min (min cx cy) (width - cx)) (height - cy)))
    layer_fill_circle (pos cx) (pos cy) (pos r) 1f layer

  -- `if (out > BIAS)` in `train_pass`.
  unfoldable pub adjust_down : Matrix F → F → State F → Run (State F)
  adjust_down layer out s =
      if above_bias out
      then (do
        weights ← sub_inputs_from_weights fl layer s.weights
        ok (record s { weights = weights; adjust = s.adjust + 1 }))
      else ok s

  -- `if (out < BIAS)` in `train_pass`.
  unfoldable pub adjust_up : Matrix F → F → State F → Run (State F)
  adjust_up layer out s =
      if below_bias out
      then (do
        weights ← add_inputs_to_weights fl layer s.weights
        ok (record s { weights = weights; adjust = s.adjust + 1 }))
      else ok s

  -- A round of `train_pass`.
  unfoldable pub train_round : ℕ → State F → Run (State F)
  train_round _ s = do
    rect ← layer_random_rect s.calls s.inputs
    out ← feed_forward fl rect s.weights
    s₁ ← adjust_down rect out s
    circle ← layer_random_circle (s.calls + 4) rect
    out' ← feed_forward fl circle s₁.weights
    s₂ ← adjust_up circle out' s₁
    ok (record s₂ { inputs = circle; calls = s.calls + 7 })

  unfoldable pub train_pass : State F → Run (State F)
  train_pass s = for_up sample_size 0 train_round (record s { adjust = 0 })

  -- A round of `check_pass`.
  unfoldable pub check_round : ℕ → State F → Run (State F)
  check_round _ s = do
    rect ← layer_random_rect s.calls s.inputs
    out ← feed_forward fl rect s.weights
    let adjust = if above_bias out then s.adjust + 1 else s.adjust
    circle ← layer_random_circle (s.calls + 4) rect
    out ← feed_forward fl circle s.weights
    ok (record s {
      adjust = if below_bias out then adjust + 1 else adjust;
      inputs = circle;
      calls = s.calls + 7;
    })

  unfoldable pub check_pass : State F → Run (State F)
  check_pass s = for_up sample_size 0 check_round (record s { adjust = 0 })
