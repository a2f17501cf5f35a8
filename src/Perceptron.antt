-- ===== src/Perceptron.antt =====
-- tsoding/neural_network.cpp: layers, their filling, and the training pass. A `Layer` is a matrix of
-- `HEIGHT` rows and `WIDTH` columns. Saving to files is left out.
pub mod Fill
pub mod Train
pub mod Pass
pub mod Tests
use c_study.Prelude.{ℕ, zero, suc, ◌+◌, ◌-◌, ◌%◌, Bool, true, false, ltb, leb, if◌then◌else◌}
use c_study.Prelude.Int.{ℤ, pos, negsuc, pos_part, neg_part, ◌+ℤ◌, ◌-ℤ◌, ◌*ℤ◌}
use c_study.Prelude.Run.{Run, ok, fault, assertion, overflow, ◌>>=◌}
use c_study.Matrix.{Floats, Matrix, at₂, for_up, modify₂}

abbrev pub width : ℕ
width = 50

abbrev pub height : ℕ
height = 50

abbrev pub sample_size : ℕ
sample_size = 500

-- `INT_MAX`
abbrev pub int_max : ℕ
int_max = 2147483647

-- `a < b` on `int`.
abbrev pub less : ℤ → ℤ → Bool
less a b = ltb (pos_part a + neg_part b) (pos_part b + neg_part a)

-- `clampi`
unfoldable pub clampi : ℤ → ℤ → ℤ → ℤ
clampi x low high =
    let raised = if less x low then low else x in if less high raised then high else raised

-- `clampi(x, 0, n - 1)` as an index.
unfoldable pub clamp_index : ℤ → ℕ → ℕ
clamp_index x n = pos_part (clampi x (pos 0) (pos (n - 1)))

-- `clampi(from + size - 1, 0, n - 1)`, where `size` is positive and the sum may overflow.
unfoldable pub last_index : ℕ → ℤ → ℕ → Run ℕ
last_index from size n =
    if less (pos int_max) (pos from +ℤ size)
    then fault overflow
    else ok (clamp_index (pos from +ℤ size -ℤ pos 1) n)

-- `dx * dx + dy * dy <= r * r`
unfoldable pub in_circle : ℤ → ℤ → ℤ → ℕ → ℕ → Bool
in_circle cx cy r x y =
    let dx = pos x -ℤ cx in
    let dy = pos y -ℤ cy in if less (r *ℤ r) (dx *ℤ dx +ℤ dy *ℤ dy) then false else true

module _ {F : Type 0} where
  -- `for (y = y0; y <= y1; ++y) for (x = x0; x <= x1; ++x) if (test(x, y)) layer[y][x] = value;`
  unfoldable pub fill : ℕ → ℕ → ℕ → ℕ → (ℕ → ℕ → Bool) → F → Matrix F → Run (Matrix F)
  fill x0 y0 x1 y1 test value layer =
      for_up (y1 + 1 - y0) y0
        (λ y l.
          for_up (x1 + 1 - x0) x0 (λ x l. if test x y then modify₂ y x (λ _. value) l else ok l) l)
        layer

  unfoldable pub layer_fill_rect : ℤ → ℤ → ℤ → ℤ → F → Matrix F → Run (Matrix F)
  layer_fill_rect x y w h value layer =
      let x0 = clamp_index x width in
      let y0 = clamp_index y height in
      if less (pos 0) w
      then (if less (pos 0) h
          then (do
            x1 ← last_index x0 w width
            y1 ← last_index y0 h height
            fill x0 y0 x1 y1 (λ _ _. true) value layer)
          else fault assertion)
      else fault assertion

  unfoldable pub layer_fill_circle : ℤ → ℤ → ℤ → F → Matrix F → Run (Matrix F)
  layer_fill_circle cx cy r value layer =
      if less (pos 0) r
      then fill (clamp_index (cx -ℤ r) width) (clamp_index (cy -ℤ r) height)
          (clamp_index (cx +ℤ r) width) (clamp_index (cy +ℤ r) height) (in_circle cx cy r) value
          layer
      else fault assertion

module _ (fl : Floats) where
  open fl use {F, 0f, add, sub, mul}

  unfoldable pub feed_forward : Matrix F → Matrix F → Run F
  feed_forward inputs weights =
      for_up height 0
        (λ i out.
          for_up width 0
            (λ j out. (do a ← at₂ inputs i j; b ← at₂ weights i j; ok (add out (mul a b)))) out)
        0f

  unfoldable pub add_inputs_to_weights : Matrix F → Matrix F → Run (Matrix F)
  add_inputs_to_weights inputs weights =
      for_up height 0
        (λ i w. for_up width 0 (λ j w. (do a ← at₂ inputs i j; modify₂ i j (λ x. add x a) w)) w)
        weights

  unfoldable pub sub_inputs_from_weights : Matrix F → Matrix F → Run (Matrix F)
  sub_inputs_from_weights inputs weights =
      for_up height 0
        (λ i w. for_up width 0 (λ j w. (do a ← at₂ inputs i j; modify₂ i j (λ x. sub x a) w)) w)
        weights
