-- ===== src/Avl/Shape.antt =====
-- basic/STL/AVLmap.h: the shape of an `AVLmap` that is filled in ascending or descending order.
use c_study.Prelude.{
  ℕ, ◌+◌, ◌≤◌, ◌<◌, ◌≡◌, refl, sym, ap, ◌∙◌, List, [], ◌∷◌, ◌++◌, append_assoc, arith, max, ltb,
  true, false, Bool-cases, inl, inr, ltb→lt, lt→ltb, ltb-false, ltb-false→le, subst,
}
use c_study.Prelude.Run.{Run, ok, fault, ◌>>=◌, Returns}
use c_study.Prelude.Sorted.{Above, Below, All-append_right}
use c_study.Avl.{
  Tree, leaf, node, get_height, left_rotate, right_heavy, rebalance, insert, inorder, fresh,
}
use c_study.Avl.Order.{keys}

module _ {ℓ} {V : Type ℓ} where
  -- Stored heights are the heights, and no two siblings' differ by more than one.
  abbrev pub IsAvl : Tree V → Type 0
  IsAvl leaf = Unit
  IsAvl (node l k v h r) =
      IsAvl l
      × IsAvl r
      × (h ≡ max (get_height l) (get_height r) + 1)
      × (get_height l ≤ get_height r + 1)
      × (get_height r ≤ get_height l + 1)

  -- What the insertion of a largest key makes of a tree of height `n` that is not empty: the root
  -- stays below `k`, and where the height grows the right side is the higher.
  abbrev Grown : ℕ → ℕ → Tree V → Type 0
  Grown k n leaf = ⊥
  Grown k n (node l key v h r) =
      IsAvl (node l key v h r)
      × (key < k)
      × (n ≤ h)
      × (h ≤ n + 1)
      × (h ≡ n + 1 → get_height r ≡ get_height l + 1)

  -- The result of a left rotation.
  abbrev rotated : Tree V → ℕ → V → Tree V → ℕ → V → Tree V → Tree V
  rotated l key v a ka va d = fresh (fresh l key v a) ka va d

  right_heavy_lem :
      (k : ℕ) (l : Tree V) (key : ℕ) (v : V) (h : ℕ) (a : Tree V) (ka : ℕ) (va : V) (ha : ℕ)
      (d : Tree V)
      → ltb ka k ≡ true
      → right_heavy k l key v h (node a ka va ha d) ≡ ok (rotated l key v a ka va d)
  unfolding right_heavy left_rotate
  right_heavy_lem k l key v h a ka va ha d up = rw up

  rotated-Grown :
      (k : ℕ) (l : Tree V) (key : ℕ) (v : V) (n : ℕ) (a : Tree V) (ka : ℕ) (va : V) (ha : ℕ)
      (d : Tree V)
      → IsAvl l
      → key < k
      → get_height l ≤ n + 1
      → n ≤ get_height l + 1
      → Grown k n (node a ka va ha d)
      → ltb (get_height l + 1) ha ≡ true
      → Grown k (max (get_height l) n + 1) (rotated l key v a ka va d)
  rotated-Grown k l key v n a ka va ha d al lt b c (((ia, id, eh, ba, bd), kk, low, high, grow))
        heavy =
      let tall = ltb→lt _ _ heavy in
      let top : get_height d ≡ get_height a + 1 = grow (omega arith) in
      (
        ((al, ia, refl, omega arith, omega arith), id, refl, omega arith, omega arith),
        kk,
        omega arith,
        omega arith,
        λ e. omega arith,
      )

  level-Grown :
      (k : ℕ) (l : Tree V) (key : ℕ) (v : V) (n : ℕ) (a : Tree V) (ka : ℕ) (va : V) (ha : ℕ)
      (d : Tree V)
      → IsAvl l
      → key < k
      → get_height l ≤ n + 1
      → n ≤ get_height l + 1
      → Grown k n (node a ka va ha d)
      → ltb (get_height l + 1) ha ≡ false
      → Grown k
          (max (get_height l) n + 1)
          (node l key v (max (get_height l) ha + 1) (node a ka va ha d))
  level-Grown k l key v n a ka va ha d al lt b c (avl, kk, low, high, grow) level =
      let flat = ltb-false→le _ _ level in
      ((al, avl, refl, omega arith, omega arith), lt, omega arith, omega arith, λ e. omega arith)

  rebalance-Grown :
      (k : ℕ) (l : Tree V) (key : ℕ) (v : V) (n : ℕ) (r' : Tree V)
      → IsAvl l
      → key < k
      → get_height l ≤ n + 1
      → n ≤ get_height l + 1
      → Grown k n r'
      → Returns (rebalance k l key v r') (λ t.
        (Grown k (max (get_height l) n + 1) t) × (inorder t ≡ inorder l ++ (key, v) ∷ inorder r'))
  unfolding rebalance
  rebalance-Grown k l key v n leaf al lt b c g = absurd g
  rebalance-Grown k l key v n (node a ka va ha d) al lt b c g =
      elim (Bool-cases (ltb (get_height l + 1) ha)) [
        | inr level ↦
            let not_left : ltb (ha + 1) (get_height l) ≡ false =
              ltb-false _ _ (omega (arith, g.2)) in
            (
              node l key v (max (get_height l) ha + 1) (node a ka va ha d),
              rw (not_left, level),
              (level-Grown k l key v n a ka va ha d al lt b c g level, (unfold inorder in refl)),
            )
        | inl heavy ↦
            let not_left : ltb (ha + 1) (get_height l) ≡ false =
              ltb-false _ _ (omega (arith, g.2)) in
            let up : ltb ka k ≡ true = lt→ltb ka k g.1 in
            (
              rotated l key v a ka va d,
              rw (not_left, heavy)
                  (right_heavy_lem k l key v (max (get_height l) ha + 1) a ka va ha d up),
              (
                rotated-Grown k l key v n a ka va ha d al lt b c g heavy,
                (unfold inorder in
                    append_assoc (inorder l) ((key, v) ∷ inorder a) ((ka, va) ∷ inorder d)),
              ),
            )
      ]

  insert-Grown :
      (l : Tree V) (key : ℕ) (w : V) (h : ℕ) (r : Tree V) (k : ℕ) (v : V)
      → IsAvl (node l key w h r)
      → key < k
      → Below k (keys r)
      → Returns
          (insert (node l key w h r) k v)
          λ t. Grown k h t × (inorder t ≡ inorder (node l key w h r) ++ (k, v) ∷ [])
  unfolding insert keys inorder
  insert-Grown l key w h leaf k v (al, ar, eh, bl, br) lt below =
      let a : ltb k key ≡ false = ltb-false _ _ (omega arith) in
      let b : ltb key k ≡ true = lt→ltb _ _ lt in
      let c : ltb (1 + 1) (get_height l) ≡ false = ltb-false _ _ (omega arith) in
      let d : ltb (get_height l + 1) 1 ≡ false = ltb-false _ _ (omega arith) in
      (
        node l key w (max (get_height l) 1 + 1) (node leaf k v 1 leaf),
        (unfold rebalance in rw (a, b, c, d)),
        (
          (
            (al, (tt, tt, refl, omega arith, omega arith), refl, omega arith, omega arith),
            lt,
            omega arith,
            omega arith,
            λ e. omega arith,
          ),
          sym (append_assoc (inorder l) ((key, w) ∷ []) ((k, v) ∷ [])),
        ),
      )
  insert-Grown l key w h (node rl rk rv rh rr) k v (al, ar, eh, bl, br) lt below =
      let a : ltb k key ≡ false = ltb-false _ _ (omega arith) in
      let b : ltb key k ≡ true = lt→ltb _ _ lt in
      let right = All-append_right (λ x. x < k) (keys rl) (rk ∷ keys rr) below in
      let (r', run, (grown, ord)) = insert-Grown rl rk rv rh rr k v ar right.0 right.1 in
      let (t, run', (grown', ord')) = rebalance-Grown k l key w rh r' al lt bl br grown in
      (
        t,
        rw (a, b, run) run',
        (
          subst (λ n. Grown k n t) (sym eh) grown',
          ord'
              ∙ ap (λ xs. inorder l ++ (key, w) ∷ xs) ord
              ∙ sym (
                  append_assoc (inorder l) ((key, w) ∷ inorder (node rl rk rv rh rr))
                    ((k, v) ∷ [])),
        ),
      )

  Grown-IsAvl : (k n : ℕ) (t : Tree V) → Grown k n t → IsAvl t
  Grown-IsAvl k n leaf g = absurd g
  Grown-IsAvl k n (node l key v h r) g = g.0

  -- `put` of a key above all others into a balanced tree with true heights returns, balances the
  -- tree again, and adds the entry at the end.
  pub insert_max-IsAvl :
      (t : Tree V) (k : ℕ) (v : V)
      → IsAvl t
      → Below k (keys t)
      → Returns (insert t k v) λ t'. IsAvl t' × (inorder t' ≡ inorder t ++ (k, v) ∷ [])
  insert_max-IsAvl leaf k v avl below = (
    node leaf k v 1 leaf,
    (unfold insert in refl),
    ((tt, tt, refl, omega arith, omega arith), (unfold inorder in refl)),
  )
  insert_max-IsAvl (node l key w h r) k v avl below =
      let right : Below k (key ∷ keys r) =
        All-append_right (λ x. x < k) (keys l) (key ∷ keys r) (unfold keys in below) in
      let (t, run, (grown, ord)) = insert-Grown l key w h r k v avl right.0 right.1 in
      (t, run, (Grown-IsAvl k h t grown, ord))

  -- `put` for each entry in turn.
  unfoldable pub put_all : List (ℕ × V) → Tree V → Run (Tree V)
  put_all [] t = ok t
  put_all (e ∷ es) t = insert t e.0 e.1 >>= put_all es

  -- The nodes that go left from the root, each with height 1.
  abbrev pub left_spine : List ℕ → V → Tree V
  left_spine [] v = leaf
  left_spine (k ∷ ks) v = node (left_spine ks v) k v 1 leaf

  -- `put` of a key below all others into a tree that only goes left hangs it under the last node,
  -- stores the new value at every key of the tree, and leaves every height at 1: no rotation is
  -- ever made, and the depth is the number of keys.
  insert_min-left_spine :
      (ks : List ℕ) (k : ℕ) (v w : V)
      → Above k ks
      → insert (left_spine ks v) k w ≡ ok (left_spine (ks ++ k ∷ []) w)
  unfolding insert
  insert_min-left_spine [] k v w above = refl
  insert_min-left_spine (x ∷ ks) k v w above =
      rw (lt→ltb k x above.0, insert_min-left_spine ks k v w above.1)

  -- Going left at a node, `put` replaces that node's value.
  insert_left-value :
      (l : Tree V) (key : ℕ) (v : V) (h : ℕ) (r : Tree V) (k : ℕ) (w : V) {t : Tree V}
      → k < key
      → insert (node l key v h r) k w ≡ ok t
      → (l' : Tree V) × (insert l k w ≡ ok l') × (t ≡ node l' key w h r)
  unfolding insert
  insert_left-value l key v h r k w {t} lt e = go (insert l k w) (rw (lt→ltb k key lt) at e)
    where
      go :
          (m : Run (Tree V))
          → (do l' ← m; ok (node l' key w h r)) ≡ ok t
          → (l' : Tree V) × (m ≡ ok l') × (t ≡ node l' key w h r)
      go (ok l') e = (l', refl, cc)
      go (fault f) e = cc
