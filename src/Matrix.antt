-- ===== src/Matrix.antt =====
-- tsoding/mechine_learning/Matrix.h: `Matrix`, over an abstract type of floats.
pub mod Shape
pub mod Tables
pub mod Network
pub mod Forward
pub mod Tests
use c_study.Prelude.{ℕ, zero, suc, ◌+◌, ◌&&◌, List, [], ◌∷◌, replicate, ◌==◌, if◌then◌else◌, map}
use c_study.Prelude.Run.{Run, ok, fault, bad_access, assertion, ◌>>=◌}

-- `float` with the operations that the code uses. No law is asked of them.
pub record Floats : Type 1 where
  pub F : Type 0
  pub 0f : F
  pub add : F → F → F
  pub sub : F → F → F
  pub mul : F → F → F
  pub sigmoidf : F → F
  pub div : F → F → F
  pub 1f : F
  pub 2f : F
  -- the conversion of a `size_t`
  pub of_size : ℕ → F

pub record Matrix (F : Type 0) : Type 0 where
  pub rows : ℕ
  pub cols : ℕ
  pub matrix : List (List F)

module _ {A : Type 0} where
  -- `v[i]`
  unfoldable pub at : List A → ℕ → Run A
  at [] i = fault bad_access
  at (x ∷ xs) zero = ok x
  at (x ∷ xs) (suc i) = at xs i

  -- `for (j = from; j < from + n; ++j) v[j] = f(j, v[j]);` over the elements from `from` on.
  unfoldable pub touch : ℕ → ℕ → (ℕ → A → Run A) → List A → Run (List A)
  touch zero from f xs = ok xs
  touch (suc n) from f [] = fault bad_access
  touch (suc n) from f (x ∷ xs) = do y ← f from x; ys ← touch n (from + 1) f xs; ok (y ∷ ys)

  -- `for (i = from; i < from + n; ++i) s = f(i, s);`
  unfoldable pub for_up : ℕ → ℕ → (ℕ → A → Run A) → A → Run A
  for_up zero i f s = ok s
  for_up (suc n) i f s = do s' ← f i s; for_up n (i + 1) f s'

  -- `v[i] = f(v[i])`
  unfoldable pub modify : ℕ → (A → Run A) → List A → Run (List A)
  modify i f [] = fault bad_access
  modify zero f (x ∷ xs) = do y ← f x; ok (y ∷ xs)
  modify (suc i) f (x ∷ xs) = do ys ← modify i f xs; ok (x ∷ ys)

module _ {A : Type 0} where
  -- `m.matrix[i][j]`
  unfoldable pub at₂ : Matrix A → ℕ → ℕ → Run A
  at₂ m i j = do row ← at m.matrix i; at row j

  -- The two nested loops that assign `m[i][j]` for `i < rows` and `j < cols`.
  unfoldable pub touch₂ : ℕ → ℕ → (ℕ → ℕ → A → Run A) → Matrix A → Run (Matrix A)
  touch₂ rows cols f m = do
    rs ← touch rows 0 (λ i row. touch cols 0 (f i) row) m.matrix
    ok (record m { matrix = rs })

  -- `m[i][j] = f(m[i][j])`
  unfoldable pub modify₂ : ℕ → ℕ → (A → A) → Matrix A → Run (Matrix A)
  modify₂ i j f m = do
    rs ← modify i (modify j (λ x. ok (f x))) m.matrix
    ok (record m { matrix = rs })

  -- `Matrix(rows, cols, value)`
  abbrev pub new_matrix : ℕ → ℕ → A → Matrix A
  new_matrix rows cols value = record {
    rows = rows;
    cols = cols;
    matrix = replicate rows (replicate cols value);
  }

module _ (fl : Floats) where
  open fl use {F, 0f, add, sub, mul, sigmoidf}

  -- `mat_size` gives `m` this value.
  abbrev pub mat_size : ℕ → ℕ → Matrix F
  mat_size rows cols = new_matrix rows cols 0f

  -- `operator+`
  unfoldable pub mat_add : Matrix F → Matrix F → Run (Matrix F)
  mat_add a b =
      if b.cols == a.cols && b.rows == a.rows
      then touch₂ a.rows a.cols (λ i j _. (do x ← at₂ a i j; y ← at₂ b i j; ok (add x y)))
          (new_matrix a.rows a.cols 0f)
      else fault assertion

  -- The innermost loop of `operator*`, with `n` rounds left.
  unfoldable pub dot : Matrix F → Matrix F → ℕ → ℕ → ℕ → ℕ → F → Run F
  dot a b i j zero k t = ok t
  dot a b i j (suc n) k t = do x ← at₂ a i k; y ← at₂ b k j; dot a b i j n (k + 1) (add t (mul x y))

  -- `operator*`
  unfoldable pub mat_mul : Matrix F → Matrix F → Run (Matrix F)
  mat_mul a b =
      if a.cols == b.rows
      then touch₂ a.rows b.cols (λ i j t. dot a b i j a.cols 0 t) (new_matrix a.rows b.cols 0f)
      else fault assertion

  unfoldable pub mat_sig : Matrix F → Run (Matrix F)
  mat_sig m = touch₂ m.rows m.cols (λ i j x. ok (sigmoidf x)) m

  -- `t[0] = m[row]` on a fresh `1` by `m._cols` matrix.
  unfoldable pub mat_row : Matrix F → ℕ → Run (Matrix F)
  mat_row m row = do r ← at m.matrix row; ok (record { rows = 1; cols = m.cols; matrix = r ∷ [] })

  -- `mat_copy(dst, src)` gives `dst` this value.
  unfoldable pub mat_copy : Matrix F → Matrix F → Run (Matrix F)
  mat_copy dst src =
      if dst.rows == src.rows && dst.cols == src.cols
      then touch₂ dst.rows src.cols (λ i j _. at₂ src i j) dst
      else fault assertion

  -- `mat_sub(m, x, y, xt, yt)`
  unfoldable pub mat_sub : Matrix F → ℕ → ℕ → ℕ → ℕ → Run (Matrix F)
  mat_sub m x y xt yt = touch₂ x y (λ i j _. at₂ m (i + xt) (j + yt)) (new_matrix x y 0f)

  -- `setMatValue`
  unfoldable pub set_mat_value : Matrix F → Matrix F
  set_mat_value t = record t { matrix = map (map (λ _. 0f)) t.matrix }
