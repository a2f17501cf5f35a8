-- ===== src/Matrix/Network.antt =====
-- tsoding/mechine_learning/Matrix.h: `NetWork` and the functions on it.
-- `print_network` and the other output is left out.
use c_study.Prelude.{
  ℕ, zero, suc, ◌+◌, ◌-◌, ◌&&◌, List, [], ◌∷◌, replicate, ◌==◌, if◌then◌else◌, map,
}
use c_study.Prelude.Run.{Run, ok, fault, bad_alloc, assertion, ◌>>=◌}
use c_study.Matrix.{
  Floats, Matrix, at, at₂, for_up, modify, modify₂, mat_add, mat_mul, mat_sig, mat_row, mat_copy,
  mat_size, set_mat_value,
}

-- The field `acts` is `as` in the code.
pub record NetWork (F : Type 0) : Type 0 where
  pub count : ℕ
  pub ws : List (Matrix F)
  pub bs : List (Matrix F)
  pub acts : List (Matrix F)

module _ (fl : Floats) where
  open fl use {F, 0f, 1f, 2f, add, sub, mul, div, of_size}

  -- `setValue`
  unfoldable pub set_value : NetWork F → NetWork F
  set_value m = record {
    count = m.count;
    ws = map (set_mat_value fl) m.ws;
    bs = map (set_mat_value fl) m.bs;
    acts = map (set_mat_value fl) m.acts;
  }

  -- `Matrix()`
  abbrev pub empty_matrix : Matrix F
  empty_matrix = record { rows = 0; cols = 0; matrix = [] }

  -- A round of the loop of `create`.
  unfoldable pub create_round : List ℕ → ℕ → NetWork F → Run (NetWork F)
  create_round arch i m = do
    a ← at m.acts (i - 1)
    size ← at arch i
    ws ← modify (i - 1) (λ _. ok (mat_size fl a.cols size)) m.ws
    bs ← modify (i - 1) (λ _. ok (mat_size fl 1 size)) m.bs
    acts ← modify i (λ _. ok (mat_size fl 1 size)) m.acts
    ok (record { count = m.count; ws = ws; bs = bs; acts = acts })

  -- With `arch_count` 0 the `resize` to `SIZE_MAX` throws.
  unfoldable pub create : List ℕ → ℕ → Run (NetWork F)
  create arch zero = fault bad_alloc
  create arch (suc count) = do
    size ← at arch 0
    for_up count 1 (create_round arch) (record {
      count = count;
      ws = replicate count empty_matrix;
      bs = replicate count empty_matrix;
      acts = mat_size fl 1 size ∷ replicate count empty_matrix;
    })

  -- A round of the loop of `forward`.
  unfoldable pub forward_round : ℕ → NetWork F → Run (NetWork F)
  forward_round i m = do
    a ← at m.acts i
    w ← at m.ws i
    b ← at m.bs i
    p ← mat_mul fl a w
    q ← mat_add fl p b
    t ← mat_sig fl q
    acts ← modify (i + 1) (λ _. ok t) m.acts
    ok (record m { acts = acts })

  unfoldable pub forward : NetWork F → Run (NetWork F)
  forward m = for_up m.count 0 forward_round m

  -- The outputs of `forward` for row `i` of the inputs: `mat_copy(INPUT(m), mat_row(ti, i)); forward(m);`
  unfoldable pub run_row : Matrix F → ℕ → NetWork F → Run (NetWork F)
  run_row ti i m = do
    x ← mat_row fl ti i
    acts ← modify 0 (λ dst. mat_copy fl dst x) m.acts
    forward (record m { acts = acts })

  -- The inner loop of `cost`, over the outputs of one row.
  unfoldable pub cost_row : Matrix F → Matrix F → ℕ → F → Run F
  cost_row out y q c =
      for_up q 0 (λ j c. (do o ← at₂ out 0 j; e ← at₂ y 0 j; ok (add c (mul (sub o e) (sub o e)))))
        c

  -- The body of the loop over the rows in `cost`.
  unfoldable pub cost_round : Matrix F → Matrix F → ℕ → F × NetWork F → Run (F × NetWork F)
  cost_round ti to i (c, m) = do
    y ← mat_row fl to i
    m ← run_row ti i m
    o ← at m.acts m.count
    c ← cost_row o y to.cols c
    ok (c, m)

  -- `cost` also changes the network that it is given.
  unfoldable pub cost : NetWork F → Matrix F → Matrix F → Run (F × NetWork F)
  cost m ti to = do
    out ← at m.acts m.count
    rows ← if ti.rows == to.rows && to.cols == out.cols then ok ti.rows else fault assertion
    (c, m) ← for_up rows 0 (cost_round ti to) (0f, m)
    ok (div c (of_size rows), m)

  -- `for (j = 0; j < v[i].getrow(); ++j) for (k = 0; k < v[i].getcol(); ++k) s = f(j, k, s);`
  unfoldable pub over : {S : Type 0} → List (Matrix F) → ℕ → (ℕ → ℕ → S → Run S) → S → Run S
  over v i f s = do t ← at v i; for_up t.rows 0 (λ j s. for_up t.cols 0 (f j) s) s

  -- `v[i][j][k]`
  unfoldable pub at₃ : List (Matrix F) → ℕ → ℕ → ℕ → Run F
  at₃ v i j k = do t ← at v i; at₂ t j k

  -- `v[i][j][k] = f(v[i][j][k])`
  unfoldable pub modify₃ : ℕ → ℕ → ℕ → (F → F) → List (Matrix F) → Run (List (Matrix F))
  modify₃ i j k f v = modify i (modify₂ j k f) v

  -- The body of the loops of `finite_diff` over `ws[i]`.
  unfoldable pub diff_ws :
      F → F → Matrix F → Matrix F → ℕ → ℕ → ℕ → NetWork F × NetWork F → Run (NetWork F × NetWork F)
  diff_ws eps c ti to i j k (m, g) = do
    saved ← at₃ m.ws i j k
    ws ← modify₃ i j k (λ x. add x eps) m.ws
    (d, m) ← cost (record m { ws = ws }) ti to
    gs ← modify₃ i j k (λ _. div (sub d c) eps) g.ws
    ws ← modify₃ i j k (λ _. saved) m.ws
    ok (record m { ws = ws }, record g { ws = gs })

  -- The body of the loops of `finite_diff` over `bs[i]`.
  unfoldable pub diff_bs :
      F → F → Matrix F → Matrix F → ℕ → ℕ → ℕ → NetWork F × NetWork F → Run (NetWork F × NetWork F)
  diff_bs eps c ti to i j k (m, g) = do
    saved ← at₃ m.bs i j k
    bs ← modify₃ i j k (λ x. add x eps) m.bs
    (d, m) ← cost (record m { bs = bs }) ti to
    gs ← modify₃ i j k (λ _. div (sub d c) eps) g.bs
    bs ← modify₃ i j k (λ _. saved) m.bs
    ok (record m { bs = bs }, record g { bs = gs })

  unfoldable pub finite_diff :
      NetWork F → NetWork F → F → Matrix F → Matrix F → Run (NetWork F × NetWork F)
  finite_diff m g eps ti to = do
    (c, m) ← cost m ti to
    for_up m.count 0
        (λ i (m, g). (do
          (m, g) ← over m.ws i (diff_ws eps c ti to i) (m, g)
          over m.bs i (diff_bs eps c ti to i) (m, g)))
        (m, g)

  -- The body of the loop over `k` in `back_prop`, with `d` for `2 * da * a * (1 - a)`.
  unfoldable pub prop_k : NetWork F → F → ℕ → ℕ → ℕ → NetWork F → Run (NetWork F)
  prop_k m d l j k g = do
    pa ← at₃ m.acts (l - 1) 0 k
    w ← at₃ m.ws (l - 1) k j
    ws ← modify₃ (l - 1) k j (λ x. add x (mul d pa)) g.ws
    acts ← modify₃ (l - 1) 0 k (λ x. add x (mul d w)) g.acts
    ok (record g { ws = ws; acts = acts })

  -- The body of the loop over `j` in `back_prop`.
  unfoldable pub prop_j : NetWork F → ℕ → ℕ → NetWork F → Run (NetWork F)
  prop_j m l j g = do
    a ← at₃ m.acts l 0 j
    da ← at₃ g.acts l 0 j
    let d = mul (mul (mul 2f da) a) (sub 1f a)
    bs ← modify₃ (l - 1) 0 j (λ x. add x d) g.bs
    below ← at m.acts (l - 1)
    for_up below.cols 0 (prop_k m d l j) (record g { bs = bs })

  -- The loop of `back_prop` over the layers, from `l` down to 1.
  unfoldable pub prop_layers : NetWork F → ℕ → NetWork F → Run (NetWork F)
  prop_layers m zero g = ok g
  prop_layers m (suc l) g = do
    layer ← at m.acts (suc l)
    g' ← for_up layer.cols 0 (prop_j m (suc l)) g
    prop_layers m l g'

  -- The body of the loop of `back_prop` over the rows.
  unfoldable pub prop_row :
      Matrix F → Matrix F → ℕ → NetWork F × NetWork F → Run (NetWork F × NetWork F)
  prop_row ti to i (m, g) = do
    m ← run_row ti i m
    cleared ← for_up (g.count + 1) 0 (λ j v. modify j (λ t. ok (set_mat_value fl t)) v) g.acts
    acts ←
        for_up to.cols 0
          (λ j v. (do
            o ← at₃ m.acts m.count 0 j
            e ← at₂ to i j
            modify₃ g.count 0 j (λ _. sub o e) v))
          cleared
    g ← prop_layers m m.count (record g { acts = acts })
    ok (m, g)

  -- `v[i][j][k] /= n` over the whole of `v[i]`
  unfoldable pub divide_at : F → ℕ → List (Matrix F) → Run (List (Matrix F))
  divide_at n i v = over v i (λ j k v. modify₃ i j k (λ x. div x n) v) v

  -- The body of the last loop of `back_prop`.
  unfoldable pub divide_round : F → ℕ → NetWork F → Run (NetWork F)
  divide_round n i g = do
    ws ← divide_at n i g.ws
    bs ← divide_at n i g.bs
    ok (record g { ws = ws; bs = bs })

  unfoldable pub back_prop :
      NetWork F → NetWork F → Matrix F → Matrix F → Run (NetWork F × NetWork F)
  back_prop m g ti to = do
    out ← at m.acts m.count
    rows ← if ti.rows == to.rows && out.cols == to.cols then ok ti.rows else fault assertion
    (m, g) ← for_up rows 0 (prop_row ti to) (m, set_value g)
    g ← for_up g.count 0 (divide_round (of_size rows)) g
    ok (m, g)

  -- `v[i][j][k] -= rate * g[i][j][k]` over the whole of `v[i]`
  unfoldable pub learn_at : F → List (Matrix F) → ℕ → List (Matrix F) → Run (List (Matrix F))
  learn_at rate g i v =
      over v i (λ j k v. (do d ← at₃ g i j k; modify₃ i j k (λ x. sub x (mul rate d)) v)) v

  unfoldable pub learn : NetWork F → NetWork F → F → Run (NetWork F)
  learn m g rate =
      for_up m.count 0
        (λ i m. (do
          ws ← learn_at rate g.ws i m.ws
          bs ← learn_at rate g.bs i m.bs
          ok (record m { ws = ws; bs = bs })))
        m
