-- ===== src/Perceptron/Pass.antt =====
-- tsoding/neural_network.cpp: the training pass ends, whatever `rand()` gives.
use c_study.Prelude.{
  ℕ, ◌+◌, ◌-◌, ◌≤◌, ◌<◌, ◌≡◌, refl, true, min, if◌then◌else◌, arith, lt→ltb, Bool-cases, inl, inr,
}
use c_study.Prelude.Int.{pos}
use c_study.Prelude.Run.{◌>>=◌, Returns}
use c_study.Matrix.{Floats, Matrix}
use c_study.Matrix.Shape.{IsShaped, at₂-IsShaped}
use c_study.Matrix.Forward.{for_up_lem}
use c_study.Perceptron.{
  width, height, sample_size, less, feed_forward, add_inputs_to_weights, sub_inputs_from_weights,
}
use c_study.Perceptron.Fill.{layer_fill_rect-IsShaped, layer_fill_circle-IsShaped, modify₂-IsShaped}
use c_study.Perceptron.Train.{
  Params, State, rand_range, at_least_two, layer_random_rect, layer_random_circle, adjust_down,
  adjust_up, train_round, train_pass,
}

abbrev IsLayer : {F : Type 0} → Matrix F → Type 0
IsLayer m = IsShaped height width m

less-pos : (n : ℕ) → 1 ≤ n → less (pos 0) (pos n) ≡ true
less-pos n h = lt→ltb (0 + 0) (n + 0) (omega arith)

at_least_two-lt : (v : ℕ) → 1 < at_least_two v
unfolding at_least_two
at_least_two-lt v = ground arith

at_least_two-le : (v : ℕ) → at_least_two v ≤ v + 2
unfolding at_least_two
at_least_two-le v = ground arith

module _ (fl : Floats) where
  open fl use {F, 0f, 1f, add, sub, mul}

  feed_forward-Returns :
      (a b : Matrix F) → IsLayer a → IsLayer b → Returns (feed_forward fl a b) (λ _. Unit {0})
  unfolding feed_forward
  feed_forward-Returns a b sa sb =
      for_up_lem (λ _ _. Unit {0}) _ height 0 0f tt
        (λ i out hi _.
          for_up_lem (λ _ _. Unit {0}) _ width 0 out tt
            (λ j out hj _.
              let (x, ex, _) = at₂-IsShaped i j sa (omega arith) (omega arith) in
              let (y, ey, _) = at₂-IsShaped i j sb (omega arith) (omega arith) in
              (add out (mul x y), rw (ex, ey, ◌>>=◌), tt)))

  add_inputs-Returns :
      (a b : Matrix F) → IsLayer a → IsLayer b → Returns (add_inputs_to_weights fl a b) IsLayer
  unfolding add_inputs_to_weights
  add_inputs-Returns a b sa sb =
      for_up_lem (λ _. IsLayer) _ height 0 b sb
        (λ i w hi s.
          for_up_lem (λ _. IsLayer) _ width 0 w s
            (λ j w hj s.
              let (x, ex, _) = at₂-IsShaped i j sa (omega arith) (omega arith) in
              rw (ex, ◌>>=◌)
                (modify₂-IsShaped i j height width (λ y. add y x) w (omega arith) (omega arith) s)))

  sub_inputs-Returns :
      (a b : Matrix F) → IsLayer a → IsLayer b → Returns (sub_inputs_from_weights fl a b) IsLayer
  unfolding sub_inputs_from_weights
  sub_inputs-Returns a b sa sb =
      for_up_lem (λ _. IsLayer) _ height 0 b sb
        (λ i w hi s.
          for_up_lem (λ _. IsLayer) _ width 0 w s
            (λ j w hj s.
              let (x, ex, _) = at₂-IsShaped i j sa (omega arith) (omega arith) in
              rw (ex, ◌>>=◌)
                (modify₂-IsShaped i j height width (λ y. sub y x) w (omega arith) (omega arith) s)))

  module _ (params : Params F) where
    rand_range-Returns :
        (n low high : ℕ)
        → low < high
        → Returns (rand_range fl params n low high) (λ v. (low ≤ v) × (v < high))
    unfolding rand_range
    rand_range-Returns n low high h =
        rw (lt→ltb low high h, if◌then◌else◌) (_, refl, (omega arith, grind arith))

    layer_random_rect-Returns :
        (n : ℕ) (m : Matrix F) → IsLayer m → Returns (layer_random_rect fl params n m) IsLayer
    unfolding layer_random_rect
    layer_random_rect-Returns n m s =
        let (l, el, sl) =
          layer_fill_rect-IsShaped (pos 0) (pos 0) (pos width) (pos height) 0f m refl refl
            (omega arith) (omega arith) s in
        let (x, ex, _) = rand_range-Returns n 0 width (omega arith) in
        let (y, ey, _) = rand_range-Returns (n + 1) 0 height (omega arith) in
        let (w, ew, (pw, fw)) =
          rand_range-Returns (n + 2) 1 (at_least_two (width - x)) (at_least_two-lt (width - x)) in
        let (h, eh, (ph, fh)) =
          rand_range-Returns (n + 3) 1 (at_least_two (height - y)) (at_least_two-lt (height - y)) in
        rw (el, ex, ey, ew, eh, ◌>>=◌)
          (layer_fill_rect-IsShaped (pos x) (pos y) (pos w) (pos h) 1f l (less-pos w pw)
            (less-pos h ph) (omega (arith, at_least_two-le (width - x)))
            (omega (arith, at_least_two-le (height - y))) sl)

    layer_random_circle-Returns :
        (n : ℕ) (m : Matrix F) → IsLayer m → Returns (layer_random_circle fl params n m) IsLayer
    unfolding layer_random_circle
    layer_random_circle-Returns n m s =
        let (l, el, sl) =
          layer_fill_rect-IsShaped (pos 0) (pos 0) (pos width) (pos height) 0f m refl refl
            (omega arith) (omega arith) s in
        let (cx, ex, _) = rand_range-Returns n 0 width (omega arith) in
        let (cy, ey, _) = rand_range-Returns (n + 1) 0 height (omega arith) in
        let most = min (min (min cx cy) (width - cx)) (height - cy) in
        let (r, er, (pr, _)) =
          rand_range-Returns (n + 2) 1 (at_least_two most) (at_least_two-lt most) in
        rw (el, ex, ey, er, ◌>>=◌)
          (layer_fill_circle-IsShaped (pos cx) (pos cy) (pos r) 1f l (less-pos r pr) sl)

    -- Both layers have 50 rows of 50.
    pub record IsValid (s : State F) : Type 0 where
      pub inputs : IsLayer s.inputs
      pub weights : IsLayer s.weights

    adjust_down-Returns :
        (m : Matrix F) (out : F) (s : State F)
        → IsLayer m
        → IsLayer s.weights
        → Returns (adjust_down fl params m out s) (λ t. IsLayer t.weights)
    unfolding adjust_down
    adjust_down-Returns m out s sm sw = elim (Bool-cases (params.above_bias out)) [
      | inl e ↦
          let (w, ew, p) = sub_inputs-Returns m s.weights sm sw in
          (
            record s { weights = w; adjust = s.adjust + 1 },
            rw (e, if◌then◌else◌, ew, ◌>>=◌) refl,
            p,
          )
      | inr e ↦ (s, rw (e, if◌then◌else◌) refl, sw)
    ]

    adjust_up-Returns :
        (m : Matrix F) (out : F) (s : State F)
        → IsLayer m
        → IsLayer s.weights
        → Returns (adjust_up fl params m out s) (λ t. IsLayer t.weights)
    unfolding adjust_up
    adjust_up-Returns m out s sm sw = elim (Bool-cases (params.below_bias out)) [
      | inl e ↦
          let (w, ew, p) = add_inputs-Returns m s.weights sm sw in
          (
            record s { weights = w; adjust = s.adjust + 1 },
            rw (e, if◌then◌else◌, ew, ◌>>=◌) refl,
            p,
          )
      | inr e ↦ (s, rw (e, if◌then◌else◌) refl, sw)
    ]

    train_round-IsValid :
        (i : ℕ) (s : State F) → IsValid s → Returns (train_round fl params i s) IsValid
    unfolding train_round
    train_round-IsValid i s v =
        let (rect, er, sr) = layer_random_rect-Returns s.calls s.inputs v.inputs in
        let (out, eo, _) = feed_forward-Returns rect s.weights sr v.weights in
        let (s₁, e₁, w₁) = adjust_down-Returns rect out s sr v.weights in
        let (circle, ec, sc) = layer_random_circle-Returns (s.calls + 4) rect sr in
        let (out', eo', _) = feed_forward-Returns circle s₁.weights sc w₁ in
        let (s₂, e₂, w₂) = adjust_up-Returns circle out' s₁ sc w₁ in
        (
          record s₂ { inputs = circle; calls = s.calls + 7 },
          rw (er, eo, e₁, ec, eo', e₂, ◌>>=◌) refl,
          record { inputs = sc; weights = w₂ },
        )

    -- `train_pass` returns on layers of 50 rows of 50, whatever `rand()` and the sums are: no assertion
    -- of `rand_range` or of the filling fails, nothing outside a layer is read or written, and
    -- both layers keep their size.
    pub train_pass-IsValid : (s : State F) → IsValid s → Returns (train_pass fl params s) IsValid
    unfolding train_pass
    train_pass-IsValid s v =
        for_up_lem (λ _. IsValid) (train_round fl params) sample_size 0 (record s { adjust = 0 })
          (record { inputs = v.inputs; weights = v.weights }) (λ i s _ v. train_round-IsValid i s v)
