-- ===== src/Bst/Order.antt =====
-- basic/STL/mymap.h: `insert` and `find` on a search tree.
use c_study.Prelude.{
  ℕ, ◌≤◌, ◌<◌, ◌≡◌, refl, sym, ap, ◌∙◌, List, [], ◌∷◌, ◌++◌, Bool, true, false, ltb, if◌then◌else◌,
  arith, Bool-cases, ◌⊎◌, ltb-false, ◌==◌, ◌||◌, ◌≢◌, inl, inr, subst, ltb→lt, ltb-false→le, lt→ltb,
}
use c_study.Prelude.Run.{Run, ok, fault, no_return, Returns}
use c_study.Prelude.Sorted.{All}
use c_study.Bst.{
  TreeNode, leaf, node, Around, top, left_of, right_of, Place, preorder, insert, find_from, find,
  plug,
}

Order-cases : (a b : ℕ) → (a < b) ⊎ ((b < a) ⊎ (b ≡ a))
Order-cases a b = ground arith

module _ {V : Type 0} where
  -- The entry put before the first entry with a greater key: behind those with the same key.
  unfoldable pub place : ℕ → V → List (ℕ × V) → List (ℕ × V)
  place k val [] = (k, val) ∷ []
  place k val ((j, w) ∷ es) = if ltb k j then (k, val) ∷ (j, w) ∷ es else (j, w) ∷ place k val es

  place-before :
      (k : ℕ) (val : V) (xs : List (ℕ × V)) (j : ℕ) (w : V) (ys : List (ℕ × V))
      → ltb k j ≡ true
      → place k val (xs ++ (j, w) ∷ ys) ≡ place k val xs ++ (j, w) ∷ ys
  unfolding place
  place-before k val [] j w ys h = rw (h, if◌then◌else◌) refl
  place-before k val ((i, u) ∷ xs) j w ys h = elim (Bool-cases (ltb k i)) [
    | inl e ↦ rw (e, if◌then◌else◌) refl
    | inr e ↦ rw (e, if◌then◌else◌, place-before k val xs j w ys h) refl
  ]

  place-behind :
      (k : ℕ) (val : V) (xs ys : List (ℕ × V))
      → All (λ e. e.0 ≤ k) xs
      → place k val (xs ++ ys) ≡ xs ++ place k val ys
  unfolding place
  place-behind k val [] ys h = refl
  place-behind k val ((i, u) ∷ xs) ys (hi, h) =
      let e : ltb k i ≡ false = ground arith in
      rw (e, if◌then◌else◌, place-behind k val xs ys h) refl

  place-skip :
      (k : ℕ) (val : V) (j : ℕ) (w : V) (es : List (ℕ × V))
      → ltb k j ≡ false
      → place k val ((j, w) ∷ es) ≡ (j, w) ∷ place k val es
  unfolding place
  place-skip k val j w es e = rw (e, if◌then◌else◌) refl

  -- Keys on the left of a node are smaller, and those on the right at least as great.
  abbrev pub IsBst : TreeNode V → Type 0
  IsBst leaf = Unit
  IsBst (node l k v r) =
      All (λ e. e.0 < k) (preorder l) × All (λ e. k ≤ e.0) (preorder r) × IsBst l × IsBst r

  All-weaken :
      {P Q : ℕ × V → Type 0} → ((e : ℕ × V) → P e → Q e) → (xs : List (ℕ × V)) → All P xs → All Q xs
  All-weaken f [] h = tt
  All-weaken f (x ∷ xs) (p, h) = (f x p, All-weaken f xs h)

  All-place :
      (P : ℕ × V → Type 0) (k : ℕ) (val : V) (xs : List (ℕ × V))
      → P (k, val)
      → All P xs
      → All P (place k val xs)
  unfolding place
  All-place P k val [] p h = (p, tt)
  All-place P k val ((j, w) ∷ xs) p (q, h) = elim (Bool-cases (ltb k j)) [
    | inl e ↦ rw (e, if◌then◌else◌) (p, (q, h))
    | inr e ↦ rw (e, if◌then◌else◌) (q, All-place P k val xs p h)
  ]

  -- `insert` on a search tree gives a search tree with the entry added behind the entries that have
  -- the same key; no entry is lost or changed.
  pub insert-place :
      (t : TreeNode V) (k : ℕ) (val : V)
      → IsBst t
      → IsBst (insert t k val) × (preorder (insert t k val) ≡ place k val (preorder t))
  unfolding insert preorder place
  insert-place leaf k val s = ((tt, tt, tt, tt), refl)
  insert-place (node l key v r) k val (below, above, sl, sr) = elim (Bool-cases (ltb k key)) [
    | inl e ↦
        let (sl', el) = insert-place l k val sl in
        let lt : k < key = ltb→lt k key e in
        rw (e, if◌then◌else◌)
          (
            (
              subst (All (λ e. e.0 < key)) (sym el)
                  (All-place (λ e. e.0 < key) k val (preorder l) lt below),
              above,
              sl',
              sr,
            ),
            ap (λ xs. xs ++ (key, v) ∷ preorder r) el
                ∙ sym (place-before k val (preorder l) key v (preorder r) e),
          )
    | inr e ↦
        let (sr', er) = insert-place r k val sr in
        let le : key ≤ k = ltb-false→le k key e in
        rw (e, if◌then◌else◌)
          (
            (
              below,
              subst (All (λ e. key ≤ e.0)) (sym er)
                  (All-place (λ e. key ≤ e.0) k val (preorder r) le above),
              sl,
              sr',
            ),
            ap (λ xs. preorder l ++ xs)
                  (ap (λ xs. (key, v) ∷ xs) er ∙ sym (place-skip k val key v (preorder r) e))
                ∙ sym (
                    place-behind k val (preorder l) ((key, v) ∷ preorder r)
                      (All-weaken (λ e p. omega arith) (preorder l) below)),
          )
  ]

  -- Whether an entry has the key.
  unfoldable pub has : ℕ → List (ℕ × V) → Bool
  has k [] = false
  has k ((j, w) ∷ es) = (j == k) || has k es

  has-append : (k : ℕ) (xs ys : List (ℕ × V)) → has k (xs ++ ys) ≡ (has k xs || has k ys)
  unfolding has
  has-append k [] ys = refl
  has-append k ((j, w) ∷ xs) ys = rw (has-append k xs ys) (ground arith)

  has-none : (k : ℕ) (xs : List (ℕ × V)) → All (λ e. e.0 ≢ k) xs → has k xs ≡ false
  unfolding has
  has-none k [] h = refl
  has-none k ((j, w) ∷ xs) (p, h) = rw (has-none k xs h) (ground arith)

  -- What `find` promises in a tree, for a key that is there, or not.
  abbrev pub Finds : TreeNode V → ℕ → Run (Place V) → Bool → Type 0
  Finds whole k run true =
      Returns run λ p. (p.key ≡ k) × (plug p.around (node p.left p.key p.value p.right) ≡ whole)
  Finds whole k run false = run ≡ fault no_return

  has-node :
      (k : ℕ) (l : TreeNode V) (key : ℕ) (v : V) (r : TreeNode V)
      → has k (preorder (node l key v r))
        ≡ (has k (preorder l) || ((key == k) || has k (preorder r)))
  unfolding preorder has
  has-node k l key v r = has-append k (preorder l) ((key, v) ∷ preorder r)

  find_from-left :
      (c : Around V) (l : TreeNode V) (key : ℕ) (v : V) (r : TreeNode V) (k : ℕ)
      → k < key
      → find_from c (node l key v r) k ≡ find_from (left_of c key v r) l k
  unfolding find_from
  find_from-left c l key v r k h = rw (lt→ltb k key h, if◌then◌else◌) refl

  find_from-right :
      (c : Around V) (l : TreeNode V) (key : ℕ) (v : V) (r : TreeNode V) (k : ℕ)
      → key < k
      → find_from c (node l key v r) k ≡ find_from (right_of c l key v) r k
  unfolding find_from
  find_from-right c l key v r k h =
      let e : ltb k key ≡ false = ltb-false k key (omega arith) in
      rw (e, lt→ltb key k h, if◌then◌else◌) refl

  find_from-here :
      (c : Around V) (l : TreeNode V) (key : ℕ) (v : V) (r : TreeNode V) (k : ℕ)
      → key ≡ k
      → find_from c (node l key v r) k
        ≡ ok (record { around = c; left = l; key = key; value = v; right = r })
  unfolding find_from
  find_from-here c l key v r k h =
      let e : ltb k key ≡ false = ltb-false k key (omega arith) in
      let e' : ltb key k ≡ false = ltb-false key k (omega arith) in rw (e, e', if◌then◌else◌) refl

  find_from-Finds :
      (c : Around V) (t : TreeNode V) (k : ℕ)
      → IsBst t
      → Finds (plug c t) k (find_from c t k) (has k (preorder t))
  unfolding plug
  find_from-Finds c leaf k s = (unfold find_from preorder has in refl)
  find_from-Finds c (node l key v r) k (below, above, sl, sr) = elim (Order-cases k key) [
    | inl lt ↦
        let no_right : has k (preorder r) ≡ false =
          has-none k (preorder r) (All-weaken (λ e p. omega arith) (preorder r) above) in
        let no_here : (key == k) ≡ false = ground arith in
        let same : has k (preorder (node l key v r)) ≡ has k (preorder l) =
          has-node k l key v r ∙ rw (no_right, no_here) (ground arith) in
        subst (Finds (plug c (node l key v r)) k (find_from c (node l key v r) k)) (sym same) (
          subst (λ run. Finds (plug c (node l key v r)) k run (has k (preorder l)))
            (sym (find_from-left c l key v r k lt)) (find_from-Finds (left_of c key v r) l k sl))
    | inr (inl gt) ↦
        let no_left : has k (preorder l) ≡ false =
          has-none k (preorder l) (All-weaken (λ e p. omega arith) (preorder l) below) in
        let no_here : (key == k) ≡ false = ground arith in
        let same : has k (preorder (node l key v r)) ≡ has k (preorder r) =
          has-node k l key v r ∙ rw (no_left, no_here) refl in
        subst (Finds (plug c (node l key v r)) k (find_from c (node l key v r) k)) (sym same) (
          subst (λ run. Finds (plug c (node l key v r)) k run (has k (preorder r)))
            (sym (find_from-right c l key v r k gt)) (find_from-Finds (right_of c l key v) r k sr))
    | inr (inr here) ↦
        let yes_here : (key == k) ≡ true = ground arith in
        let same : has k (preorder (node l key v r)) ≡ true =
          has-node k l key v r ∙ rw yes_here (ground arith) in
        subst (Finds (plug c (node l key v r)) k (find_from c (node l key v r) k)) (sym same)
          (_, find_from-here c l key v r k here, (here, refl))
  ]

  -- On a search tree, `find` returns a node of the tree with the key exactly when an entry has the key. Else
  -- it runs off its end with no `return`.
  find-Finds : (t : TreeNode V) (k : ℕ) → IsBst t → Finds t k (find t k) (has k (preorder t))
  unfolding find plug
  find-Finds t k s = find_from-Finds top t k s
