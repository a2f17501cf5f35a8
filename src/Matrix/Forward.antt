-- ===== src/Matrix/Forward.antt =====
-- tsoding/mechine_learning/Matrix.h: what `forward` computes.
use c_study.Prelude.{
  ℕ, zero, suc, ◌+◌, ◌≤◌, ◌<◌, ◌≡◌, refl, ap, ◌∙◌, subst, List, [], ◌∷◌, length, arith, ◌⊎◌, inl,
  inr,
}
use c_study.Prelude.Run.{Run, ok, ◌>>=◌, Returns}
use c_study.Matrix.{Floats, at, for_up, modify}
use c_study.Matrix.Tables.{IsTable, sum, mat_add-IsTable, mat_mul-IsTable, mat_sig-IsTable}
use c_study.Matrix.Network.{NetWork, forward, forward_round}

module _ {A : Type 0} where
  -- Writing one element.
  pub modify_lem :
      (i : ℕ) (x : A) (xs : List A)
      → i < length xs
      → Returns (modify i (λ _. ok x) xs) λ ys.
        (length ys ≡ length xs) × (at ys i ≡ ok x) × ((j : ℕ) → ¬ (j ≡ i) → at ys j ≡ at xs j)
  unfolding modify at
  modify_lem i x [] h = absurd (omega arith)
  modify_lem zero x (y ∷ ys) h =
      (x ∷ ys, refl, (refl, refl, elim [ zero ↦ λ ne. absurd (ne refl) | suc j ↦ λ ne. refl ]))
  modify_lem (suc i) x (y ∷ ys) h =
      let (zs, run, (len, here, other)) = modify_lem i x ys (omega arith) in
      (
        y ∷ zs,
        rw (run, ◌>>=◌),
        (ap suc len, here, elim [ zero ↦ λ ne. refl | suc j ↦ λ ne. other j (λ e. ne (ap suc e)) ]),
      )

module _ {A : Type 0} where
  -- The rule for a counting loop: `P i` holds at the start of round `i`.
  pub for_up_lem :
      (P : ℕ → A → Type 0) (f : ℕ → A → Run A) (n i : ℕ) (s : A)
      → P i s
      → ((j : ℕ) (s : A) → j < i + n → P j s → Returns (f j s) (P (j + 1)))
      → Returns (for_up n i f s) (P (i + n))
  unfolding for_up
  for_up_lem P f zero i s p step =
      let z : i ≡ i + 0 = omega arith in (s, refl, subst (λ k. P k s) z p)
  for_up_lem P f (suc n) i s p step =
      let z : i + 1 + n ≡ i + suc n = omega arith in
      let (s', run, p') = step i s (omega arith) p in
      let (t, run', q) = for_up_lem P f n (i + 1) s' p' (λ j s h. step j s (omega arith)) in
      (t, rw (run, ◌>>=◌) run', subst (λ k. P k t) z q)

le-cases : (j n : ℕ) → j ≤ n + 1 → (j ≤ n) ⊎ (j ≡ n + 1)
le-cases j n h = ground arith

module _ (fl : Floats) where
  open fl use {F, add, mul, sigmoidf}

  -- The outputs of layer `i`, for the inputs `x`, the weights `w` and the biases `b`.
  unfoldable pub activation : (ℕ → ℕ) → (ℕ → ℕ → ℕ → F) → (ℕ → ℕ → F) → (ℕ → F) → ℕ → ℕ → F
  activation arch w b x zero j = x j
  activation arch w b x (suc i) j =
      sigmoidf (add (sum fl (arch i) (λ k. mul (activation arch w b x i k) (w i k j))) (b i j))

  -- A network with `arch i` units in layer `i`, the weights `w`, the biases `b`, and room for the
  -- outputs of each layer.
  pub record IsNetWork (arch : ℕ → ℕ) (w : ℕ → ℕ → ℕ → F) (b : ℕ → ℕ → F) (m : NetWork F)
      : Type 0 where
    pub weights :
        (i : ℕ) → i < m.count → Returns (at m.ws i) (IsTable (arch i) (arch (i + 1)) (w i))
    pub biases :
        (i : ℕ) → i < m.count → Returns (at m.bs i) (IsTable 1 (arch (i + 1)) (λ _ j. b i j))
    pub layers : length m.acts ≡ m.count + 1

  -- The layers up to `n` hold their outputs.
  Holds : (ℕ → ℕ) → (ℕ → ℕ → ℕ → F) → (ℕ → ℕ → F) → (ℕ → F) → ℕ → NetWork F → Type 0
  Holds arch w b x n m =
      (i : ℕ)
      → i ≤ n
      → Returns (at m.acts i) (IsTable 1 (arch i) (λ _ j. activation arch w b x i j))

  forward_round-Holds :
      (arch : ℕ → ℕ) (w : ℕ → ℕ → ℕ → F) (b : ℕ → ℕ → F) (x : ℕ → F) (i : ℕ) (m : NetWork F)
      → IsNetWork arch w b m
      → i < m.count
      → Holds arch w b x i m
      → Returns
          (forward_round fl i m)
          λ m'. IsNetWork arch w b m' × (m'.count ≡ m.count) × Holds arch w b x (i + 1) m'
  unfolding forward_round activation Holds
  forward_round-Holds arch w b x i m net h holds =
      let (a, ra, ta) = holds i (omega arith) in
      let (ww, rw_, tw) = net.weights i h in
      let (bb, rb, tb) = net.biases i h in
      let (p, rp, tp) = mat_mul-IsTable fl 1 (arch i) (arch (i + 1)) _ (w i) a ww ta tw in
      let (q, rq, tq) = mat_add-IsTable fl 1 (arch (i + 1)) _ _ p bb tp tb in
      let (t, rt, tt') = mat_sig-IsTable fl 1 (arch (i + 1)) _ q tq in
      let (acts, racts, (len, here, other)) = modify_lem (i + 1) t m.acts (omega arith) in
      (
        record m { acts = acts },
        rw (ra, rw_, rb, rp, rq, rt, racts, ◌>>=◌),
        (
          record { weights = net.weights; biases = net.biases; layers = len ∙ net.layers },
          refl,
          λ j hj. elim (le-cases j i hj) [
            | inl le ↦
                let ne : ¬ (j ≡ i + 1) = λ e. absurd (omega arith) in
                let (v, e, tv) = holds j le in (v, other j ne ∙ e, tv)
            | inr eq ↦
                let s : i + 1 ≡ suc i = omega arith in
                let z : suc i ≡ j = omega arith in
                subst
                  (λ k. Returns (at acts k) (IsTable 1 (arch k) (λ _ n. activation arch w b x k n)))
                  z
                  (
                    t,
                    subst (λ k. at acts k ≡ ok t) s here,
                    subst (λ k. IsTable 1 (arch k) (λ _ n. activation arch w b x (suc i) n) t) s
                        tt',
                  )
          ],
        ),
      )

  -- For a network with weights `w` and biases `b` whose input layer holds `x`, `forward` ends without
  -- an assertion or an access out of range. Then every layer up to the last holds `activation`:
  -- the sigmoid of the weighted sum of the layer before plus the bias, and the weights and biases
  -- are as they were.
  pub forward-activation :
      (arch : ℕ → ℕ) (w : ℕ → ℕ → ℕ → F) (b : ℕ → ℕ → F) (x : ℕ → F) (m : NetWork F)
      → IsNetWork arch w b m
      → Returns (at m.acts 0) (IsTable 1 (arch 0) (λ _ j. x j))
      → Returns (forward fl m) λ m'.
        IsNetWork arch w b m'
        × (m'.count ≡ m.count)
        × ((i : ℕ)
            → i ≤ m.count
            → Returns (at m'.acts i) (IsTable 1 (arch i) (λ _ j. activation arch w b x i j)))
  unfolding forward activation Holds
  forward-activation arch w b x m net input =
      let z : 0 + m.count ≡ m.count = omega arith in
      let (m', run, (net', same, holds)) =
        for_up_lem (λ i m'. IsNetWork arch w b m' × (m'.count ≡ m.count) × Holds arch w b x i m')
          (forward_round fl) m.count 0 m
          (
            net,
            refl,
            λ i h.
                let z : 0 ≡ i = omega arith in
                subst
                  (λ k.
                    Returns (at m.acts k) (IsTable 1 (arch k) (λ _ n. activation arch w b x k n)))
                  z input,
          )
          (λ j s h (net, same, holds).
            let (s', run, (net', same', holds')) =
              forward_round-Holds arch w b x j s net (omega arith) holds in
            (s', run, (net', same' ∙ same, holds'))) in
      (m', run, (net', same, λ i h. holds i (omega arith)))
