-- ===== src/Perceptron/Fill.antt =====
-- tsoding/neural_network.cpp: filling stays inside the layer.
use c_study.Prelude.{
  ℕ, zero, suc, ◌+◌, ◌-◌, ◌<◌, ◌≡◌, refl, sym, ap, ◌∙◌, subst, List, [], ◌∷◌, length, Bool, true,
  if◌then◌else◌, arith, Bool-cases, inl, inr, ℕ_discrete, false, ltb-false,
}
use c_study.Prelude.Int.{ℤ, pos, negsuc, ◌+ℤ◌, ◌-ℤ◌, ◌≤ℤ◌, +ℤ_parts}
use c_study.Prelude.Run.{Run, ok, ◌>>=◌, Returns}
use c_study.Matrix.{Matrix, at, modify, modify₂}
use c_study.Matrix.Shape.{IsShaped}
use c_study.Matrix.Forward.{for_up_lem}
use c_study.Perceptron.{
  width, height, less, clampi, clamp_index, last_index, int_max, fill, layer_fill_rect,
  layer_fill_circle,
}

module _ {A : Type 0} where
  modify-at :
      (i : ℕ) (g : A → Run A) (P : A → Type 0) (xs : List A)
      → i < length xs
      → ((x : A) → at xs i ≡ ok x → Returns (g x) P)
      → Returns (modify i g xs) λ ys.
        (length ys ≡ length xs) × Returns (at ys i) P × ((j : ℕ) → ¬ (j ≡ i) → at ys j ≡ at xs j)
  unfolding modify at
  modify-at i g P [] h step = absurd (omega arith)
  modify-at zero g P (x ∷ xs) h step =
      let (y, run, p) = step x refl in
      (
        y ∷ xs,
        rw (run, ◌>>=◌),
        (refl, (y, refl, p), elim [ zero ↦ λ ne. absurd (ne refl) | suc j ↦ λ ne. refl ]),
      )
  modify-at (suc i) g P (x ∷ xs) h step =
      let (ys, run, (len, here, other)) = modify-at i g P xs (omega arith) step in
      (
        x ∷ ys,
        rw (run, ◌>>=◌),
        (ap suc len, here, elim [ zero ↦ λ ne. refl | suc j ↦ λ ne. other j (λ e. ne (ap suc e)) ]),
      )

  ok-same : {x y : List A} → ok x ≡ ok y → x ≡ y
  ok-same e = cc

module _ {A : Type 0} where
  pub modify₂-IsShaped :
      (i j r c : ℕ) (f : A → A) (m : Matrix A)
      → i < r
      → j < c
      → IsShaped r c m
      → Returns (modify₂ i j f m) (IsShaped r c)
  unfolding modify₂
  modify₂-IsShaped i j r c f m hi hj s =
      let height : length m.matrix ≡ r = s.height in
      let (ys, run, (len, here, other)) =
        modify-at i (modify j (λ x. ok (f x))) (λ row. length row ≡ c) m.matrix (omega arith)
          (λ row e.
            let (row', e', w) = s.width i hi in
            let w' : length row ≡ c = ap length (ok-same (sym e ∙ e')) ∙ w in
            let (zs, run, (len, _, _)) =
              modify-at j (λ x. ok (f x)) (λ _. Unit {0}) row (omega arith)
                (λ x _. (f x, refl, tt)) in
            (zs, run, len ∙ w')) in
      (
        record m { matrix = ys },
        rw (run, ◌>>=◌),
        record {
          rows = s.rows;
          cols = s.cols;
          height = len ∙ s.height;
          width = λ k hk. elim (ℕ_discrete k i) [
            | yes e ↦ subst (λ k. Returns (at ys k) (λ row. length row ≡ c)) (sym e) here
            | no ne ↦ let (row, e, w) = s.width k hk in (row, other k ne ∙ e, w)
          ];
        },
      )

  fill-IsShaped :
      (x0 y0 x1 y1 : ℕ) (test : ℕ → ℕ → Bool) (value : A) (m : Matrix A)
      → x0 < width
      → y0 < height
      → x1 < width
      → y1 < height
      → IsShaped height width m
      → Returns (fill x0 y0 x1 y1 test value m) (IsShaped height width)
  unfolding fill
  fill-IsShaped x0 y0 x1 y1 test value m a b c d s =
      for_up_lem (λ _. IsShaped height width) _ (y1 + 1 - y0) y0 m s
        (λ y l hy s.
          for_up_lem (λ _. IsShaped height width) _ (x1 + 1 - x0) x0 l s
            (λ x l hx s. elim (Bool-cases (test x y)) [
              | inl e ↦
                  rw (e, if◌then◌else◌)
                    (modify₂-IsShaped y x height width (λ _. value) l (omega arith) (omega arith) s)
              | inr e ↦ rw (e, if◌then◌else◌) (l, refl, s)
            ]))

clamp_index-lt : (x : ℤ) (n : ℕ) → 0 < n → clamp_index x n < n
unfolding clamp_index clampi
clamp_index-lt (pos x) n h = ground arith
clamp_index-lt (negsuc x) n h = ground arith

in_range :
    (from : ℕ) (size : ℤ)
    → from < 50
    → size ≤ℤ pos (int_max - 49)
    → less (pos int_max) (pos from +ℤ size) ≡ false
in_range from size near fits = let sum = +ℤ_parts (pos from) size in ltb-false _ _ (omega arith)

-- From a place in the layer, a size that leaves the sum in an `int` gives a place in the layer.
last_index-Returns :
    (from n : ℕ) (size : ℤ)
    → from < 50
    → 0 < n
    → size ≤ℤ pos (int_max - 49)
    → Returns (last_index from size n) (λ v. v < n)
unfolding last_index
last_index-Returns from n size near positive fits =
    let sum = +ℤ_parts (pos from) size in
    rw (in_range from size near fits, if◌then◌else◌)
      (_, refl, clamp_index-lt (pos from +ℤ size -ℤ pos 1) n positive)

module _ {A : Type 0} where
  -- For a rectangle of positive width and height that are at most `INT_MAX - 49`, wherever it lies,
  -- `layer_fill_rect` returns: no sum overflows, it writes nothing outside the layer, and the layer keeps its
  -- 50 rows of 50.
  pub layer_fill_rect-IsShaped :
      (x y w h : ℤ) (value : A) (m : Matrix A)
      → less (pos 0) w ≡ true
      → less (pos 0) h ≡ true
      → w ≤ℤ pos (int_max - 49)
      → h ≤ℤ pos (int_max - 49)
      → IsShaped height width m
      → Returns (layer_fill_rect x y w h value m) (IsShaped height width)
  unfolding layer_fill_rect
  layer_fill_rect-IsShaped x y w h value m hw hh fw fh s =
      let x_in = clamp_index-lt x 50 (omega arith) in
      let y_in = clamp_index-lt y 50 (omega arith) in
      let (x1, ex, lx) = last_index-Returns (clamp_index x width) width w x_in (omega arith) fw in
      let (y1, ey, ly) = last_index-Returns (clamp_index y height) height h y_in (omega arith) fh in
      rw (hw, hh, if◌then◌else◌, ex, ey, ◌>>=◌) (fill-IsShaped _ _ _ _ _ value m x_in y_in lx ly s)

  -- The same for `layer_fill_circle`, for a positive radius.
  pub layer_fill_circle-IsShaped :
      (cx cy r : ℤ) (value : A) (m : Matrix A)
      → less (pos 0) r ≡ true
      → IsShaped height width m
      → Returns (layer_fill_circle cx cy r value m) (IsShaped height width)
  unfolding layer_fill_circle
  layer_fill_circle-IsShaped cx cy r value m hr s =
      rw (hr, if◌then◌else◌)
        (fill-IsShaped _ _ _ _ _ value m (clamp_index-lt _ 50 (omega arith))
          (clamp_index-lt _ 50 (omega arith)) (clamp_index-lt _ 50 (omega arith))
          (clamp_index-lt _ 50 (omega arith)) s)
