-- ===== src/Matrix/Tables.antt =====
-- tsoding/mechine_learning/Matrix.h: what the operations on `Matrix` compute, element by element.
use c_study.Prelude.{
  ℕ, zero, suc, ◌+◌, ◌≤◌, ◌<◌, ◌≡◌, refl, sym, ap, ◌∙◌, subst, replicate, [], ◌∷◌, length, ◌==◌,
  true, if◌then◌else◌, arith, ==_iff,
}
use c_study.Prelude.Run.{Run, ok, ◌>>=◌, Returns}
use c_study.Matrix.{
  Floats, Matrix, at, at₂, touch₂, new_matrix, mat_add, mat_mul, mat_sig, mat_row, mat_copy,
  mat_sub, dot,
}
use c_study.Matrix.Shape.{IsShaped, new_matrix-IsShaped, touch₂_lem, ok-injective, at-replicate}

-- The matrix with `r` rows and `c` columns whose elements `f` gives.
pub record IsTable {A : Type 0} (r c : ℕ) (f : ℕ → ℕ → A) (m : Matrix A) : Type 0 where
  pub shape : IsShaped r c m
  pub element : (i j : ℕ) → i < r → j < c → at₂ m i j ≡ ok (f i j)

same : {a b : ℕ} → a ≡ b → (a == b) ≡ true
same {a} {b} e = (==_iff a b).1 e

module _ {A : Type 0} where
  -- The loops may take their bounds from another matrix of the same size.
  touch₂-IsTable :
      (h : ℕ → ℕ → A) (f : ℕ → ℕ → A → Run A) {m : Matrix A} {r c r' c' : ℕ}
      → r' ≡ r
      → c' ≡ c
      → IsShaped r c m
      → ((i j : ℕ) (x : A) → i < r → j < c → at₂ m i j ≡ ok x → f i j x ≡ ok (h i j))
      → Returns (touch₂ r' c' f m) (IsTable r c h)
  touch₂-IsTable h f {m} {r} {c} {r'} {c'} er ec s step =
      let (t, run, (shape, all)) =
        touch₂_lem (λ i j y. y ≡ h i j) f r c s
          (λ i j x hi hj q. (h i j, step i j x hi hj q, refl)) in
      (
        t,
        ap (λ r. touch₂ r c' f m) er ∙ ap (λ c. touch₂ r c f m) ec ∙ run,
        record {
          shape = shape;
          element = λ i j hi hj. let (y, e, p) = all i j hi hj in e ∙ ap ok p;
        },
      )

  new_matrix-sized : {r c r' c' : ℕ} (x : A) → r' ≡ r → c' ≡ c → IsShaped r c (new_matrix r' c' x)
  new_matrix-sized {r} {c} {r'} {c'} x er ec =
      subst (λ r. IsShaped r c (new_matrix r' c' x)) er
        (subst (λ c. IsShaped r' c (new_matrix r' c' x)) ec (new_matrix-IsShaped r' c' x))

module _ (fl : Floats) where
  open fl use {F, 0f, add, mul, sigmoidf}

  -- `0 + g(0) + ... + g(n - 1)`, added from the left
  unfoldable pub sum : ℕ → (ℕ → F) → F
  sum zero g = 0f
  sum (suc n) g = add (sum n g) (g n)

  pub mat_add-IsTable :
      (r c : ℕ) (f g : ℕ → ℕ → F) (a b : Matrix F)
      → IsTable r c f a
      → IsTable r c g b
      → Returns (mat_add fl a b) (IsTable r c (λ i j. add (f i j) (g i j)))
  unfolding mat_add
  mat_add-IsTable r c f g a b ta tb =
      let rows : (b.rows == a.rows) ≡ true = same (tb.shape.rows ∙ sym ta.shape.rows) in
      let cols : (b.cols == a.cols) ≡ true = same (tb.shape.cols ∙ sym ta.shape.cols) in
      rw (rows, cols, if◌then◌else◌)
        (touch₂-IsTable (λ i j. add (f i j) (g i j))
          (λ i j _. (do x ← at₂ a i j; y ← at₂ b i j; ok (add x y))) ta.shape.rows ta.shape.cols
          (new_matrix-sized 0f ta.shape.rows ta.shape.cols)
          (λ i j _ hi hj _. rw (ta.element i j hi hj, tb.element i j hi hj, ◌>>=◌)))

  pub new_matrix-at₂ : (r c i j : ℕ) (x : F) → i < r → j < c → at₂ (new_matrix r c x) i j ≡ ok x
  unfolding at₂
  new_matrix-at₂ r c i j x hi hj =
      rw (at-replicate r i (replicate c x) hi, ◌>>=◌) (at-replicate c j x hj)

  dot_lem :
      (f g : ℕ → ℕ → F) (a b : Matrix F) (i j n k : ℕ) (t : F)
      → ((l : ℕ) → l < k + n → at₂ a i l ≡ ok (f i l))
      → ((l : ℕ) → l < k + n → at₂ b l j ≡ ok (g l j))
      → t ≡ sum k (λ l. mul (f i l) (g l j))
      → dot fl a b i j n k t ≡ ok (sum (k + n) (λ l. mul (f i l) (g l j)))
  unfolding dot sum
  dot_lem f g a b i j zero k t ea eb e =
      let z : k ≡ k + 0 = omega arith in ap ok (e ∙ ap (λ l. sum l (λ l. mul (f i l) (g l j))) z)
  dot_lem f g a b i j (suc n) k t ea eb e =
      let z : k + 1 + n ≡ k + suc n = omega arith in
      let s : k + 1 ≡ suc k = omega arith in
      let next : add t (mul (f i k) (g k j)) ≡ sum (k + 1) (λ l. mul (f i l) (g l j)) =
        ap (λ x. add x (mul (f i k) (g k j))) e
        ∙ ap (λ l. sum l (λ l. mul (f i l) (g l j))) (sym s) in
      rw (ea k (omega arith), eb k (omega arith), ◌>>=◌)
        (dot_lem f g a b i j n (k + 1) (add t (mul (f i k) (g k j))) (λ l h. ea l (omega arith))
            (λ l h. eb l (omega arith)) next
          ∙ ap (λ l. ok (sum l (λ l. mul (f i l) (g l j)))) z)

  -- The product of two matrices whose inner sizes agree is returned, with no assertion and no access
  -- out of range, and has the sums of products as its elements, added from the left onto 0.
  pub mat_mul-IsTable :
      (r n c : ℕ) (f g : ℕ → ℕ → F) (a b : Matrix F)
      → IsTable r n f a
      → IsTable n c g b
      → Returns (mat_mul fl a b) (IsTable r c (λ i j. sum n (λ k. mul (f i k) (g k j))))
  unfolding mat_mul sum
  mat_mul-IsTable r n c f g a b ta tb =
      let inner : (a.cols == b.rows) ≡ true = same (ta.shape.cols ∙ sym tb.shape.rows) in
      rw (inner, if◌then◌else◌)
        (touch₂-IsTable (λ i j. sum n (λ k. mul (f i k) (g k j)))
          (λ i j t. dot fl a b i j a.cols 0 t) ta.shape.rows tb.shape.cols
          (new_matrix-sized 0f ta.shape.rows tb.shape.cols)
          (λ i j x hi hj q.
            let zero_x : x ≡ 0f =
              ok-injective
                (sym q ∙ new_matrix-at₂ a.rows b.cols i j 0f (omega arith) (omega arith)) in
            let run =
              dot_lem f g a b i j n 0 x (λ l h. ta.element i l hi (omega arith))
                (λ l h. tb.element l j (omega arith) hj) zero_x in
            let z : 0 + n ≡ n = omega arith in
            ap (λ m. dot fl a b i j m 0 x) ta.shape.cols
            ∙ run
            ∙ ap (λ n. ok (sum n (λ k. mul (f i k) (g k j)))) z))

  pub mat_sig-IsTable :
      (r c : ℕ) (f : ℕ → ℕ → F) (m : Matrix F)
      → IsTable r c f m
      → Returns (mat_sig fl m) (IsTable r c (λ i j. sigmoidf (f i j)))
  unfolding mat_sig
  mat_sig-IsTable r c f m t =
      touch₂-IsTable (λ i j. sigmoidf (f i j)) (λ i j x. ok (sigmoidf x)) t.shape.rows t.shape.cols
        t.shape
        (λ i j x hi hj q. ap (λ x. ok (sigmoidf x)) (ok-injective (sym q ∙ t.element i j hi hj)))

  pub mat_sub-IsTable :
      (r c x y xt yt : ℕ) (f : ℕ → ℕ → F) (m : Matrix F)
      → IsTable r c f m
      → x + xt ≤ r
      → y + yt ≤ c
      → Returns (mat_sub fl m x y xt yt) (IsTable x y (λ i j. f (i + xt) (j + yt)))
  unfolding mat_sub
  mat_sub-IsTable r c x y xt yt f m t hx hy =
      touch₂-IsTable (λ i j. f (i + xt) (j + yt)) (λ i j _. at₂ m (i + xt) (j + yt)) refl refl
        (new_matrix-IsShaped x y 0f)
        (λ i j _ hi hj _. t.element (i + xt) (j + yt) (omega arith) (omega arith))

  pub mat_copy-IsTable :
      (r c : ℕ) (f : ℕ → ℕ → F) (dst src : Matrix F)
      → IsShaped r c dst
      → IsTable r c f src
      → Returns (mat_copy fl dst src) (IsTable r c f)
  unfolding mat_copy
  mat_copy-IsTable r c f dst src d t =
      let rows : (dst.rows == src.rows) ≡ true = same (d.rows ∙ sym t.shape.rows) in
      let cols : (dst.cols == src.cols) ≡ true = same (d.cols ∙ sym t.shape.cols) in
      rw (rows, cols, if◌then◌else◌)
        (touch₂-IsTable f (λ i j _. at₂ src i j) d.rows t.shape.cols d
          (λ i j _ hi hj _. t.element i j hi hj))

  pub mat_row-IsTable :
      (r c row : ℕ) (f : ℕ → ℕ → F) (m : Matrix F)
      → IsTable r c f m
      → row < r
      → Returns (mat_row fl m row) (IsTable 1 c (λ _ j. f row j))
  unfolding mat_row at₂ at
  mat_row-IsTable r c row f m t h =
      let (v, e, w) = t.shape.width row h in
      (
        record { rows = 1; cols = m.cols; matrix = v ∷ [] },
        rw (e, ◌>>=◌),
        record {
          shape = record {
            rows = refl;
            cols = t.shape.cols;
            height = refl;
            width = λ i h.
                let z : 0 ≡ i = omega arith in
                subst (λ i. Returns (at (v ∷ []) i) (λ row. length row ≡ c)) z (v, refl, w);
          };
          element = λ i j hi hj.
              let z : 0 ≡ i = omega arith in
              subst
                (λ i. at₂ (record { rows = 1; cols = m.cols; matrix = v ∷ [] }) i j ≡ ok (f row j))
                z (rw (e, ◌>>=◌) at (t.element row j h hj));
        },
      )
