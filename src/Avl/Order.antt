-- ===== src/Avl/Order.antt =====
-- basic/STL/AVLmap.h: the keys of an `AVLmap` in order, under rotations, `put` and `remove`.
use c_study.Prelude.{
  ℕ, ◌+◌, ◌<◌, ◌≡◌, refl, sym, ap, List, [], ◌∷◌, ◌++◌, append_assoc, append-nil, arith, max, ltb,
  Bool, true, false, if◌then◌else◌, Bool-cases, inl, inr, ltb→lt, subst,
}
use c_study.Prelude.Run.{Run, ok, fault, null_access, ◌>>=◌}
use c_study.Prelude.Sorted.{
  All-map, IsSorted, insert_key, remove_key, IsSorted-parts, insert_key-left, insert_key-right,
  insert_key-mid, remove_key-left, remove_key-right, remove_key-mid,
}
use c_study.Avl.{
  Tree, leaf, node, get_height, right_rotate, left_rotate, right_heavy, left_heavy, rebalance,
  insert, get_minn, delete_here, after_delete, delete_node, key_of,
}

module _ {ℓ} {V : Type ℓ} where
  -- The keys from left to right.
  unfoldable pub keys : Tree V → List ℕ
  keys leaf = []
  keys (node l k v h r) = keys l ++ k ∷ keys r

  -- A run that ends in a value ends in one that has these keys.
  abbrev pub Keeps : List ℕ → Run (Tree V) → Type 0
  Keeps xs (ok t) = keys t ≡ xs
  Keeps xs (fault e) = Unit

  -- The two rotations keep the keys in order.
  rotate-Keeps : (t : Tree V) → Keeps (keys t) (right_rotate t) × Keeps (keys t) (left_rotate t)
  unfolding right_rotate left_rotate keys
  rotate-Keeps leaf = (tt, tt)
  rotate-Keeps (node leaf k v h leaf) = (tt, tt)
  rotate-Keeps (node leaf k v h (node b kb vb hb c)) = (tt, refl)
  rotate-Keeps (node (node a ka va ha b) k v h leaf) =
      (sym (append_assoc (keys a) (ka ∷ keys b) (k ∷ [])), tt)
  rotate-Keeps (node (node a ka va ha b) k v h (node c kc vc hc d)) = (
    sym (append_assoc (keys a) (ka ∷ keys b) (k ∷ keys (node c kc vc hc d))),
    append_assoc (keys (node a ka va ha b)) (k ∷ keys c) (kc ∷ keys d),
  )

  Keeps-bind :
      (ys xs : List ℕ) (m : Run (Tree V)) (f : Tree V → Run (Tree V))
      → Keeps ys m
      → ((t : Tree V) → keys t ≡ ys → Keeps xs (f t))
      → Keeps xs (m >>= f)
  Keeps-bind ys xs (ok t) f h g = g t h
  Keeps-bind ys xs (fault e) f h g = tt

  key_of-Keeps :
      (t : Tree V) (xs : List ℕ) (f : ℕ → Run (Tree V))
      → ((k : ℕ) → Keeps xs (f k))
      → Keeps xs (key_of t >>= f)
  key_of-Keeps leaf xs f h = tt
  key_of-Keeps (node l k v c r) xs f h = h k

  left_heavy-Keeps :
      (k : ℕ) (l : Tree V) (key : ℕ) (v : V) (h : ℕ) (r : Tree V)
      → Keeps (keys l ++ key ∷ keys r) (left_heavy k l key v h r)
  unfolding left_heavy
  left_heavy-Keeps k l key v h r =
      let goal = keys l ++ key ∷ keys r in
      key_of-Keeps l goal _ λ lk. elim (Bool-cases (ltb k lk)) [
        | inl a ↦ rw a (unfold keys in (rotate-Keeps (node l key v h r)).0)
        | inr a ↦ elim (Bool-cases (ltb lk k)) [
          | inl b ↦
              rw (a, b)
                (Keeps-bind (keys l) goal (left_rotate l) _ (rotate-Keeps l).1 λ l' e.
                  subst (λ xs. Keeps (xs ++ key ∷ keys r) (right_rotate (node l' key v h r))) e
                    (unfold keys in (rotate-Keeps (node l' key v h r)).0))
          | inr b ↦ rw (a, b) (unfold keys in refl)
        ]
      ]

  right_heavy-Keeps :
      (k : ℕ) (l : Tree V) (key : ℕ) (v : V) (h : ℕ) (r : Tree V)
      → Keeps (keys l ++ key ∷ keys r) (right_heavy k l key v h r)
  unfolding right_heavy
  right_heavy-Keeps k l key v h r =
      let goal = keys l ++ key ∷ keys r in
      key_of-Keeps r goal _ λ rk. elim (Bool-cases (ltb rk k)) [
        | inl a ↦ rw a (unfold keys in (rotate-Keeps (node l key v h r)).1)
        | inr a ↦ elim (Bool-cases (ltb k rk)) [
          | inl b ↦
              rw (a, b)
                (Keeps-bind (keys r) goal (right_rotate r) _ (rotate-Keeps r).0 λ r' e.
                  subst (λ xs. Keeps (keys l ++ key ∷ xs) (left_rotate (node l key v h r'))) e
                    (unfold keys in (rotate-Keeps (node l key v h r')).1))
          | inr b ↦ rw (a, b) (unfold keys in refl)
        ]
      ]

  -- The height, the balance and the rotations leave the keys as they are.
  pub rebalance-Keeps :
      (k : ℕ) (l : Tree V) (key : ℕ) (v : V) (r : Tree V)
      → Keeps (keys l ++ key ∷ keys r) (rebalance k l key v r)
  unfolding rebalance
  rebalance-Keeps k l key v r =
      let h = max (get_height l) (get_height r) + 1 in
      elim (Bool-cases (ltb (get_height r + 1) (get_height l))) [
        | inl a ↦ rw a (left_heavy-Keeps k l key v h r)
        | inr a ↦ elim (Bool-cases (ltb (get_height l + 1) (get_height r))) [
          | inl b ↦ rw (a, b) (right_heavy-Keeps k l key v h r)
          | inr b ↦ rw (a, b) (unfold keys in refl)
        ]
      ]

  -- Where `put` on a search tree does not fault, its keys stay in order, with the new key in its place, once.
  insert-keys :
      (t : Tree V) (k : ℕ) (val : V)
      → IsSorted (keys t)
      → Keeps (insert_key k (keys t)) (insert t k val)
  unfolding insert keys
  insert-keys leaf k val s = unfold insert_key in refl
  insert-keys (node l key v h r) k val s =
      let (sl, below, sr, above) = IsSorted-parts (keys l) key (keys r) s in
      elim (Bool-cases (ltb k key)) [
        | inl a ↦
            rw (a, insert_key-left k key (keys l) (keys r) (ltb→lt k key a))
              (Keeps-bind _ _ (insert l k val) _ (insert-keys l k val sl)
                (λ l' e. ap (λ xs. xs ++ key ∷ keys r) e))
        | inr a ↦ elim (Bool-cases (ltb key k)) [
          | inl b ↦
              let lt = ltb→lt key k b in
              rw
                (
                  a,
                  b,
                  insert_key-right k key (keys l) (keys r) lt
                      (All-map (λ x (p : x < key). omega arith) (keys l) below),
                )
                (Keeps-bind _ _ (insert r k val) _ (insert-keys r k val sr) λ r' e.
                  subst (λ xs. Keeps (keys l ++ key ∷ xs) (rebalance k l key v r')) e
                    (rebalance-Keeps k l key v r'))
          | inr b ↦
              let same : k ≡ key = ground arith in
              rw (a, b, same) (sym (insert_key-mid key (keys l) (keys r) below))
        ]
      ]

  get_minn-leaf : (t : Tree V) → get_minn t ≡ leaf
  unfolding get_minn
  get_minn-leaf leaf = refl
  get_minn-leaf (node l k v h r) = get_minn-leaf l

  after_delete-Keeps : (k : ℕ) (t : Tree V) → Keeps (keys t) (after_delete k t)
  unfolding after_delete
  after_delete-Keeps k leaf = refl
  after_delete-Keeps k (node l key v h r) = unfold keys in rebalance-Keeps k l key v r

  delete_here-Keeps :
      (del : ℕ → Run (Tree V)) (k : ℕ) (l r : Tree V)
      → Keeps (keys l ++ keys r) (delete_here del k l r)
  unfolding delete_here keys
  delete_here-Keeps del k leaf r = after_delete-Keeps k r
  delete_here-Keeps del k (node a i u h b) leaf =
      let e : keys (node a i u h b) ≡ keys (node a i u h b) ++ [] =
        sym (append-nil (keys (node a i u h b))) in
      subst (λ xs. Keeps xs (after_delete k (node a i u h b))) e
        (after_delete-Keeps k (node a i u h b))
  delete_here-Keeps del k (node a i u h b) (node c j w g d) =
      rw (get_minn-leaf (node c j w g d), delete_here) tt

  -- `remove` on a search tree takes the key out and leaves the others in order, where it returns.
  delete_node-keys :
      (t : Tree V) (k : ℕ) → IsSorted (keys t) → Keeps (remove_key k (keys t)) (delete_node t k)
  unfolding delete_node keys
  delete_node-keys leaf k s = unfold remove_key in refl
  delete_node-keys (node l key v h r) k s =
      let (sl, below, sr, above) = IsSorted-parts (keys l) key (keys r) s in
      elim (Bool-cases (ltb k key)) [
        | inl a ↦
            rw (a, remove_key-left k key (keys l) (keys r) (ltb→lt k key a) above)
              (Keeps-bind _ _ (delete_node l k) _ (delete_node-keys l k sl) λ l' e.
                subst (λ xs. Keeps (xs ++ key ∷ keys r) (rebalance k l' key v r)) e
                  (rebalance-Keeps k l' key v r))
        | inr a ↦ elim (Bool-cases (ltb key k)) [
          | inl b ↦
              let lt = ltb→lt key k b in
              rw
                (
                  a,
                  b,
                  remove_key-right k key (keys l) (keys r) lt
                      (All-map (λ x (p : x < key). omega arith) (keys l) below),
                )
                (Keeps-bind _ _ (delete_node r k) _ (delete_node-keys r k sr) λ r' e.
                  subst (λ xs. Keeps (keys l ++ key ∷ xs) (rebalance k l key v r')) e
                    (rebalance-Keeps k l key v r'))
          | inr b ↦
              let same : k ≡ key = ground arith in
              rw (a, b, same, remove_key-mid key (keys l) (keys r) below)
                (delete_here-Keeps (delete_node r) key l r)
        ]
      ]

  unfoldable pub both : Tree V → Tree V → Bool
  both leaf r = false
  both (node _ _ _ _ _) leaf = false
  both (node _ _ _ _ _) (node _ _ _ _ _) = true

  -- The search for `k` ends at a node with two children.
  unfoldable pub has_two_children : Tree V → ℕ → Bool
  has_two_children leaf k = false
  has_two_children (node l key v h r) k =
      let at_left = has_two_children l k in
      let at_right = has_two_children r k in
      if ltb k key then at_left else if ltb key k then at_right else both l r

  delete_here-both :
      (del : ℕ → Run (Tree V)) (k : ℕ) (l r : Tree V)
      → both l r ≡ true
      → delete_here del k l r ≡ fault null_access
  unfolding both delete_here
  delete_here-both del k leaf r e = cc
  delete_here-both del k (node a i u h b) leaf e = cc
  delete_here-both del k (node a i u h b) (node c j w g d) e =
      rw (get_minn-leaf (node c j w g d), delete_here) refl

  -- Removing a key whose node has two children reads through the null pointer that `getMinn`
  -- returns.
  delete_node-two_children :
      (t : Tree V) (k : ℕ) → has_two_children t k ≡ true → delete_node t k ≡ fault null_access
  unfolding delete_node has_two_children
  delete_node-two_children leaf k e = cc
  delete_node-two_children (node l key v h r) k e = elim (Bool-cases (ltb k key)) [
    | inl a ↦ rw a (rw (delete_node-two_children l k (rw a at e)))
    | inr a ↦ elim (Bool-cases (ltb key k)) [
      | inl b ↦ rw (a, b) (rw (delete_node-two_children r k (rw (a, b) at e)))
      | inr b ↦ rw (a, b) (delete_here-both (delete_node r) k l r (rw (a, b) at e))
    ]
  ]
