-- ===== src/Bst.antt =====
-- basic/STL/mymap.h: `mymap`, a search tree with parent pointers, with numbers as keys. A pointer to a
-- node is the node with its surroundings, from which the parent is read; the null pointer is `none`.
pub mod Order
pub mod Traverse
pub mod Erase
pub mod Tests
use c_study.Prelude.{
  ℕ, zero, suc, List, [], ◌∷◌, ◌++◌, Option, none, some, Bool, true, false, ltb, if◌then◌else◌,
}
use c_study.Prelude.Run.{Run, ok, fault, null_access, no_return, ◌>>=◌}

-- `leaf` is the null child.
pub data TreeNode {ℓ} (V : Type ℓ) : Type ℓ where
  leaf : TreeNode V
  node : TreeNode V → ℕ → V → TreeNode V → TreeNode V

-- What stands around a node: nothing at the root; else its parent with the other child.
pub data Around {ℓ} (V : Type ℓ) : Type ℓ where
  top : Around V
  left_of : Around V → ℕ → V → TreeNode V → Around V
  right_of : Around V → TreeNode V → ℕ → V → Around V

-- A pointer that is not null.
pub record Place {ℓ} (V : Type ℓ) : Type ℓ where
  pub around : Around V
  pub left : TreeNode V
  pub key : ℕ
  pub value : V
  pub right : TreeNode V

module _ {ℓ} {V : Type ℓ} where
  -- `del`: the tree is freed.
  unfoldable pub clear : TreeNode V → TreeNode V
  clear t = leaf

  -- What `print` writes, in its order.
  unfoldable pub preorder : TreeNode V → List (ℕ × V)
  preorder leaf = []
  preorder (node l k v r) = preorder l ++ (k, v) ∷ preorder r

  -- `helper1`
  unfoldable pub insert : TreeNode V → ℕ → V → TreeNode V
  insert leaf k val = node leaf k val leaf
  insert (node l key v r) k val =
      let left = node (insert l k val) key v r in
      let right = node l key v (insert r k val) in if ltb k key then left else right

  -- `minn` on the node with these parts.
  unfoldable pub minn_from : Around V → TreeNode V → ℕ → V → TreeNode V → Place V
  minn_from c leaf k v r = record { around = c; left = leaf; key = k; value = v; right = r }
  minn_from c (node a j w b) k v r = minn_from (left_of c k v r) a j w b

  -- `minn` on a pointer, which it reads through.
  unfoldable pub minn : Around V → TreeNode V → Run (Place V)
  minn c leaf = fault null_access
  minn c (node l k v r) = ok (minn_from c l k v r)

  -- The loop of `successor`, with the tree at `node`.
  unfoldable pub climb : Around V → TreeNode V → Option (Place V)
  climb top t = none
  climb (left_of c k v r) t = some (record { around = c; left = t; key = k; value = v; right = r })
  climb (right_of c l k v) t = climb c (node l k v t)

  unfoldable pub successor_of : Around V → TreeNode V → ℕ → V → TreeNode V → Option (Place V)
  successor_of c l k v leaf = climb c (node l k v leaf)
  successor_of c l k v (node a j w b) = some (minn_from (right_of c l k v) a j w b)

  unfoldable pub successor : Place V → Option (Place V)
  successor p = successor_of p.around p.left p.key p.value p.right

  -- `begin`; `end` is `none`.
  unfoldable pub begin : TreeNode V → Run (Option (Place V))
  begin t = do p ← minn top t; ok (some p)

  -- `Iterator::operator++`
  unfoldable pub increment : Option (Place V) → Option (Place V)
  increment none = none
  increment (some p) = successor p

  -- `find`: where the key is missing the function ends with no `return`.
  unfoldable pub find_from : Around V → TreeNode V → ℕ → Run (Place V)
  find_from c leaf k = fault no_return
  find_from c (node l key v r) k =
      let left = find_from (left_of c key v r) l k in
      let right = find_from (right_of c l key v) r k in
      if ltb k key
      then left
      else if ltb key k
      then right
      else ok (record { around = c; left = l; key = key; value = v; right = r })

  unfoldable pub find : TreeNode V → ℕ → Run (Place V)
  find t k = find_from top t k

  -- The whole tree, with `t` as the child that stands in the surroundings.
  unfoldable pub plug : Around V → TreeNode V → TreeNode V
  plug top t = t
  plug (left_of c k v r) t = plug c (node t k v r)
  plug (right_of c l k v) t = plug c (node l k v t)

  -- `(node->right) ? node->left : node->right`
  unfoldable pub chile : TreeNode V → TreeNode V → TreeNode V
  chile l leaf = leaf
  chile l (node a j w b) = l

  -- The least entry of a node's tree, and that tree once the least node has given its place to `chile`.
  unfoldable pub take_minn : TreeNode V → ℕ → V → TreeNode V → (ℕ × V) × TreeNode V
  take_minn leaf k v r = ((k, v), chile leaf r)
  take_minn (node a j w b) k v r = let (least, rest) = take_minn a j w b in (least, node rest k v r)

  -- What `erase` puts in the place of the node that it found.
  unfoldable pub erase_here : TreeNode V → ℕ → V → TreeNode V → TreeNode V
  erase_here leaf k v r = chile leaf r
  erase_here (node a j w b) k v leaf = chile (node a j w b) leaf
  erase_here (node a j w b) k v (node a' j' w' b') =
      let (least, rest) = take_minn a' j' w' b' in node (node a j w b) least.0 least.1 rest

  unfoldable pub erase : TreeNode V → ℕ → Run (TreeNode V)
  erase t k = do p ← find t k; ok (plug p.around (erase_here p.left p.key p.value p.right))
