-- ===== src/Matrix/Shape.antt =====
-- tsoding/mechine_learning/Matrix.h: the loops over a matrix, and the shape that they keep.
use c_study.Prelude.{
  ℕ, zero, suc, ◌+◌, ◌<◌, ◌≡◌, refl, sym, ap, ◌∙◌, subst, List, [], ◌∷◌, length, replicate, arith,
  length-replicate,
}
use c_study.Prelude.Run.{Run, ok, ◌>>=◌, Returns}
use c_study.Matrix.{Matrix, at, at₂, touch, touch₂, new_matrix}

module _ {A : Type 0} where
  at-Returns : (xs : List A) (i : ℕ) → i < length xs → Returns (at xs i) (λ _. Unit {0})
  unfolding at
  at-Returns [] i h = absurd (omega arith)
  at-Returns (x ∷ xs) zero h = (x, refl, tt)
  at-Returns (x ∷ xs) (suc i) h = at-Returns xs i (omega arith)

  pub at-replicate : (n i : ℕ) (x : A) → i < n → at (replicate n x) i ≡ ok x
  unfolding at
  at-replicate zero i x h = absurd (omega arith)
  at-replicate (suc n) zero x h = refl
  at-replicate (suc n) (suc i) x h = at-replicate n i x (omega arith)

  -- The parts of a rule for `suc n` rounds from those for the first and for the others.
  Rounds-suc :
      (R : ℕ → A → Type 0) (n from : ℕ) (y : A) (ys : List A)
      → R from y
      → ((i : ℕ) → i < n → Returns (at ys i) (R (from + 1 + i)))
      → (i : ℕ) → i < suc n
      → Returns (at (y ∷ ys) i) (R (from + i))
  unfolding at
  Rounds-suc R n from y ys r all zero h =
      let z : from ≡ from + 0 = omega arith in (y, refl, subst (λ k. R k y) z r)
  Rounds-suc R n from y ys r all (suc i) h =
      let z : from + 1 + i ≡ from + suc i = omega arith in
      subst (λ k. Returns (at ys i) (R k)) z (all i (omega arith))

  -- The rule for a loop that assigns each element of a vector of length `n`.
  touch_lem :
      (R : ℕ → A → Type 0) (f : ℕ → A → Run A) (n from : ℕ) (xs : List A)
      → length xs ≡ n
      → ((i : ℕ) (x : A) → i < n → at xs i ≡ ok x → Returns (f (from + i) x) (R (from + i)))
      → Returns
          (touch n from f xs)
          λ ys. (length ys ≡ n) × ((i : ℕ) → i < n → Returns (at ys i) (R (from + i)))
  unfolding touch at
  touch_lem R f zero from [] e step = ([], refl, (refl, λ i h. elim h [ ]))
  touch_lem R f zero from (x ∷ xs) e step = absurd (omega arith)
  touch_lem R f (suc n) from [] e step = absurd (omega arith)
  touch_lem R f (suc n) from (x ∷ xs) e step =
      let z : from + 0 ≡ from = omega arith in
      let (y, run, r) = subst (λ k. Returns (f k x) (R k)) z (step 0 x (omega arith) refl) in
      let (ys, run', (len, all)) = touch_lem R f n (from + 1) xs (omega arith) (λ i w h q.
        let p : from + suc i ≡ from + 1 + i = omega arith in
        subst (λ k. Returns (f k w) (R k)) p (step (suc i) w (omega arith) q)) in
      (y ∷ ys, rw (run, ◌>>=◌, run'), (ap suc len, Rounds-suc R n from y ys r all))

  -- The rule for a loop that assigns every element of a vector.
  pub touch_all :
      (R : ℕ → A → Type 0) (f : ℕ → A → Run A) (n : ℕ) (xs : List A)
      → length xs ≡ n
      → ((i : ℕ) (x : A) → i < n → at xs i ≡ ok x → Returns (f i x) (R i))
      → Returns (touch n 0 f xs) λ ys. (length ys ≡ n) × ((i : ℕ) → i < n → Returns (at ys i) (R i))
  touch_all R f n xs e step =
      let (ys, run, (len, all)) = touch_lem R f n 0 xs e (λ i x h q.
        let z : i ≡ 0 + i = omega arith in subst (λ k. Returns (f k x) (R k)) z (step i x h q)) in
      (
        ys,
        run,
        (
          len,
          λ i h.
              let z : 0 + i ≡ i = omega arith in subst (λ k. Returns (at ys i) (R k)) z (all i h),
        ),
      )

  pub ok-injective : {x y : A} → ok x ≡ ok y → x ≡ y
  ok-injective e = cc

  -- A row whose elements satisfy `R`.
  Row : ℕ → (ℕ → A → Type 0) → List A → Type 0
  Row c R row = (length row ≡ c) × ((j : ℕ) → j < c → Returns (at row j) (R j))

-- `r` rows of `c` elements.
pub record IsShaped {A : Type 0} (r c : ℕ) (m : Matrix A) : Type 0 where
  pub rows : m.rows ≡ r
  pub cols : m.cols ≡ c
  pub height : length m.matrix ≡ r
  pub width : (i : ℕ) → i < r → Returns (at m.matrix i) (λ row. length row ≡ c)

module _ {A : Type 0} where
  pub new_matrix-IsShaped : (r c : ℕ) (x : A) → IsShaped r c (new_matrix r c x)
  new_matrix-IsShaped r c x = record {
    rows = refl;
    cols = refl;
    height = length-replicate r (replicate c x);
    width = λ i h. (replicate c x, at-replicate r i (replicate c x) h, length-replicate c x);
  }

  -- Every element of a shaped matrix can be read.
  pub at₂-IsShaped :
      {m : Matrix A} {r c : ℕ} (i j : ℕ)
      → IsShaped r c m
      → i < r
      → j < c
      → Returns (at₂ m i j) (λ _. Unit {0})
  unfolding at₂
  at₂-IsShaped {m} i j s hi hj =
      let (row, e, w) = s.width i hi in
      let (x, e', _) = at-Returns row j (omega arith) in (x, rw (e, ◌>>=◌) e', tt)

  -- The rule for the nested loops over a whole matrix.
  pub touch₂_lem :
      (R : ℕ → ℕ → A → Type 0) (f : ℕ → ℕ → A → Run A) {m : Matrix A} (r c : ℕ)
      → IsShaped r c m
      → ((i j : ℕ) (x : A) → i < r → j < c → at₂ m i j ≡ ok x → Returns (f i j x) (R i j))
      → Returns
          (touch₂ r c f m)
          λ t. IsShaped r c t × ((i j : ℕ) → i < r → j < c → Returns (at₂ t i j) (R i j))
  unfolding touch₂ at₂ Row
  touch₂_lem R f {m} r c s step =
      let (rs, run, (len, all)) =
        touch_all (λ i. Row c (R i)) (λ i row. touch c 0 (f i) row) r m.matrix s.height
          (λ i row hi e.
            let (row', e', w) = s.width i hi in
            let same : row ≡ row' = ok-injective (sym e ∙ e') in
            touch_all (R i) (f i) c row (ap length same ∙ w)
              (λ j x hj q. step i j x hi hj (rw (e, ◌>>=◌) q))) in
      (
        record m { matrix = rs },
        rw (run, ◌>>=◌),
        (
          record {
            rows = s.rows;
            cols = s.cols;
            height = len;
            width = λ i hi. let (row, e, (w, _)) = all i hi in (row, e, w);
          },
          λ i j hi hj.
              let (row, e, (_, every)) = all i hi in
              let (x, q, z) = every j hj in (x, rw (e, ◌>>=◌) q, z),
        ),
      )
