-- ===== src/Bst/Erase.antt =====
-- basic/STL/mymap.h: `erase` loses the subtree of the node that it unlinks.
use c_study.Prelude.{ℕ, ◌≡◌, refl, sym, ap, ◌∙◌, List, [], ◌∷◌, ◌++◌, append_assoc, append-nil}
use c_study.Prelude.Run.{ok, ◌>>=◌}
use c_study.Bst.{
  TreeNode, leaf, node, Around, top, left_of, right_of, Place, preorder, find, plug, chile,
  take_minn, erase_here, erase,
}
use c_study.Bst.Traverse.{earlier, later}

module _ {ℓ} {V : Type ℓ} where
  plug-preorder :
      (c : Around V) (t : TreeNode V) → preorder (plug c t) ≡ earlier c ++ (preorder t ++ later c)
  unfolding plug preorder earlier later
  plug-preorder top t = sym (append-nil (preorder t))
  plug-preorder (left_of c k v r) t =
      plug-preorder c (node t k v r)
      ∙ ap (λ xs. earlier c ++ xs) (append_assoc (preorder t) ((k, v) ∷ preorder r) (later c))
  plug-preorder (right_of c l k v) t =
      plug-preorder c (node l k v t)
      ∙ ap (λ xs. earlier c ++ xs) (append_assoc (preorder l) ((k, v) ∷ preorder t) (later c))
      ∙ ap (λ xs. earlier c ++ xs)
          (sym (append_assoc (preorder l) ((k, v) ∷ []) (preorder t ++ later c)))
      ∙ sym (append_assoc (earlier c) (preorder l ++ (k, v) ∷ []) (preorder t ++ later c))

  chile-leaf : (r : TreeNode V) → chile leaf r ≡ leaf
  unfolding chile
  chile-leaf leaf = refl
  chile-leaf (node a j w b) = refl

  -- Nothing stands in the place of a node with at most one child.
  erase_here-left : (l : TreeNode V) (k : ℕ) (v : V) → erase_here l k v leaf ≡ leaf
  unfolding erase_here chile
  erase_here-left leaf k v = refl
  erase_here-left (node a j w b) k v = refl

  unlink :
      (t s : TreeNode V) (k : ℕ) (p : Place V)
      → find t k ≡ ok p
      → erase_here p.left p.key p.value p.right ≡ s
      → (erase t k ≡ ok (plug p.around s))
        × (preorder (plug p.around s) ≡ earlier p.around ++ (preorder s ++ later p.around))
  unfolding erase
  unlink t s k p found e =
      (rw (found, ◌>>=◌) (ap (λ s. ok (plug p.around s)) e), plug-preorder p.around s)

  -- `erase` of a key whose node has no right child removes the whole left subtree with it: of the entries
  -- of the map, those before and after the node's subtree are left.
  erase-loses_left :
      (t l : TreeNode V) (k key : ℕ) (v : V) (c : Around V)
      → find t k ≡ ok (record { around = c; left = l; key = key; value = v; right = leaf })
      → (erase t k ≡ ok (plug c leaf))
        × (preorder (plug c leaf) ≡ earlier c ++ later c)
        × (preorder (plug c (node l key v leaf))
            ≡ earlier c ++ (preorder (node l key v leaf) ++ later c))
  unfolding preorder
  erase-loses_left t l k key v c found =
      let (run, rest) = unlink t leaf k _ found (erase_here-left l key v) in
      (run, rest, plug-preorder c (node l key v leaf))

  -- Likewise the right subtree of a node with no left child is lost.
  erase-loses_right :
      (t r : TreeNode V) (k key : ℕ) (v : V) (c : Around V)
      → find t k ≡ ok (record { around = c; left = leaf; key = key; value = v; right = r })
      → (erase t k ≡ ok (plug c leaf))
        × (preorder (plug c leaf) ≡ earlier c ++ later c)
        × (preorder (plug c (node leaf key v r))
            ≡ earlier c ++ (preorder (node leaf key v r) ++ later c))
  unfolding preorder erase_here
  erase-loses_right t r k key v c found =
      let (run, rest) = unlink t leaf k _ found (chile-leaf r) in
      (run, rest, plug-preorder c (node leaf key v r))

  -- The right subtree of the first node in order.
  unfoldable pub behind_first : TreeNode V → TreeNode V → TreeNode V
  behind_first leaf r = r
  behind_first (node a j w b) r = behind_first a b

  -- In order: the entry that is taken, the subtree behind it, and the others; the others are what is left.
  Splits : TreeNode V → ℕ → V → TreeNode V → List (ℕ × V) → Type ℓ
  Splits l k v r others =
      (preorder (node l k v r) ≡ (take_minn l k v r).0 ∷ (preorder (behind_first l r) ++ others))
      × (preorder (take_minn l k v r).1 ≡ others)

  take_minn-Splits :
      (l : TreeNode V) (k : ℕ) (v : V) (r : TreeNode V)
      → (others : List (ℕ × V)) × Splits l k v r others
  unfolding take_minn behind_first preorder Splits
  take_minn-Splits leaf k v r =
      ([], (ap (λ xs. (k, v) ∷ xs) (sym (append-nil (preorder r))), ap preorder (chile-leaf r)))
  take_minn-Splits (node a j w b) k v r =
      let (others, (first, left)) = take_minn-Splits a j w b in
      (
        others ++ (k, v) ∷ preorder r,
        (
          ap (λ xs. xs ++ (k, v) ∷ preorder r) first
              ∙ ap (λ xs. (take_minn a j w b).0 ∷ xs)
                  (append_assoc (preorder (behind_first a b)) others ((k, v) ∷ preorder r)),
          ap (λ xs. xs ++ (k, v) ∷ preorder r) left,
        ),
      )

  -- `erase` of a key whose node has two children: of the right subtree, in order, the first entry takes the
  -- node's place, the entries of the right subtree of the first node are lost, and the others stay. What is in
  -- front of the node, its left subtree and what is behind it stay.
  pub erase-two_children :
      (t a b a' b' : TreeNode V) (k key j j' : ℕ) (v w w' : V) (c : Around V)
      → find t k
        ≡ ok (record {
          around = c;
          left = node a j w b;
          key = key;
          value = v;
          right = node a' j' w' b';
        })
      → (s : TreeNode V) × (first : ℕ × V) × (others : List (ℕ × V)) × (erase t k ≡ ok s)
        × (preorder (node a' j' w' b') ≡ first ∷ (preorder (behind_first a' b') ++ others))
        × (preorder s ≡ earlier c ++ ((preorder (node a j w b) ++ first ∷ others) ++ later c))
  unfolding preorder erase_here Splits
  erase-two_children t a b a' b' k key j j' v w w' c found =
      let (run, rest) = unlink t _ k _ found refl in
      let (others, (first, left)) = take_minn-Splits a' j' w' b' in
      (
        _,
        (take_minn a' j' w' b').0,
        others,
        run,
        first,
        rest
            ∙ ap
                (λ xs.
                  earlier c
                  ++ ((preorder (node a j w b) ++ (take_minn a' j' w' b').0 ∷ xs) ++ later c))
                left,
      )
