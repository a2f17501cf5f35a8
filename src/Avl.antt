-- ===== src/Avl.antt =====
-- basic/STL/AVLmap.h: `AVLmap`, with keys that are numbers.
pub mod Order
pub mod Shape
pub mod Tests
use c_study.Prelude.{ℕ, ◌+◌, max, Bool, true, false, ◌&&◌, List, [], ◌∷◌, ◌++◌, ltb, if◌then◌else◌}
use c_study.Prelude.Run.{Run, ok, fault, null_access, ◌>>=◌}

-- `AVLNode`; `leaf` is the null pointer.
pub data Tree {ℓ} (V : Type ℓ) : Type ℓ where
  leaf : Tree V
  node : Tree V → ℕ → V → ℕ → Tree V → Tree V

module _ {ℓ} {V : Type ℓ} where
  abbrev pub get_height : Tree V → ℕ
  get_height leaf = 0
  get_height (node l k v h r) = h

  -- `1 + max(getheight(left), getheight(right))` stored in the node.
  abbrev pub fresh : Tree V → ℕ → V → Tree V → Tree V
  fresh l k v r = node l k v (max (get_height l) (get_height r) + 1) r

  unfoldable pub right_rotate : Tree V → Run (Tree V)
  right_rotate leaf = fault null_access
  right_rotate (node leaf k v h r) = fault null_access
  right_rotate (node (node a kx vx hx t₂) k v h r) = ok (fresh a kx vx (fresh t₂ k v r))

  unfoldable pub left_rotate : Tree V → Run (Tree V)
  left_rotate leaf = fault null_access
  left_rotate (node l k v h leaf) = fault null_access
  left_rotate (node l k v h (node t₂ ky vy hy c)) = ok (fresh (fresh l k v t₂) ky vy c)

  -- `node->key` through a pointer that may be null, compared with `k`.
  abbrev pub key_of : Tree V → Run ℕ
  key_of leaf = fault null_access
  key_of (node l k v h r) = ok k

  -- The second and third of the four tests, which share `balance < -1`.
  unfoldable pub right_heavy : ℕ → Tree V → ℕ → V → ℕ → Tree V → Run (Tree V)
  right_heavy k l key v h r = do
    rk ← key_of r
    if ltb rk k
        then left_rotate (node l key v h r)
        else if ltb k rk
        then right_rotate r >>= (λ r'. left_rotate (node l key v h r'))
        else ok (node l key v h r)

  -- The first and fourth, which share `balance > 1`.
  unfoldable pub left_heavy : ℕ → Tree V → ℕ → V → ℕ → Tree V → Run (Tree V)
  left_heavy k l key v h r = do
    lk ← key_of l
    if ltb k lk
        then right_rotate (node l key v h r)
        else if ltb lk k
        then left_rotate l >>= (λ l'. right_rotate (node l' key v h r))
        else ok (node l key v h r)

  -- The end of `insert` and of `deleteNode`: the height, the balance and the rotations. The
  -- balance is `getheight(left) - getheight(right)`.
  unfoldable pub rebalance : ℕ → Tree V → ℕ → V → Tree V → Run (Tree V)
  rebalance k l key v r =
      let h = max (get_height l) (get_height r) + 1 in
      if ltb (get_height r + 1) (get_height l)
      then left_heavy k l key v h r
      else if ltb (get_height l + 1) (get_height r)
      then right_heavy k l key v h r
      else ok (node l key v h r)

  -- `insert`. The second `if` is not an `else if`: a smaller key is inserted on the left, and then
  -- takes the last branch too.
  unfoldable pub insert : Tree V → ℕ → V → Run (Tree V)
  insert leaf k val = ok (node leaf k val 1 leaf)
  insert (node l key v h r) k val =
      let left = (do l' ← insert l k val; ok (node l' key val h r)) in
      let right = (do r' ← insert r k val; rebalance k l key v r') in
      if ltb k key then left else if ltb key k then right else ok (node l key val h r)

  -- `getMinn`, which goes left until it is at null, and returns that.
  unfoldable pub get_minn : Tree V → Tree V
  get_minn leaf = leaf
  get_minn (node l k v h r) = get_minn l

  -- The end of `deleteNode`.
  unfoldable pub after_delete : ℕ → Tree V → Run (Tree V)
  after_delete k leaf = ok leaf
  after_delete k (node l key v h r) = rebalance k l key v r

  -- The branch of `deleteNode` at the key. With at most one child the node takes that child's
  -- place; else it takes the key and value of `getMinn(root->right)`, and `del` deletes that key
  -- on the right.
  unfoldable pub delete_here : (ℕ → Run (Tree V)) → ℕ → Tree V → Tree V → Run (Tree V)
  delete_here del k leaf r = after_delete k r
  delete_here del k (node a i u h b) leaf = after_delete k (node a i u h b)
  delete_here del k (node a i u h b) (node c j w g d) = elim (get_minn (node c j w g d)) [
    | leaf ↦ fault null_access
    | node _ key v _ _ ↦ do r' ← del key; rebalance k (node a i u h b) key v r'
  ]

  unfoldable pub delete_node : Tree V → ℕ → Run (Tree V)
  delete_node leaf k = ok leaf
  delete_node (node l key v h r) k =
      let left = (do l' ← delete_node l k; rebalance k l' key v r) in
      let right = (do r' ← delete_node r k; rebalance k l key v r') in
      if ltb k key then left else if ltb key k then right else delete_here (delete_node r) k l r

  -- `inorderh`.
  unfoldable pub inorder : Tree V → List (ℕ × V)
  inorder leaf = []
  inorder (node l k v h r) = inorder l ++ (k, v) ∷ inorder r
