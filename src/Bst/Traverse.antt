-- ===== src/Bst/Traverse.antt =====
-- basic/STL/mymap.h: a loop from `begin()` to `end()` visits every entry, in order.
use c_study.Prelude.{
  ℕ, zero, suc, ◌<◌, ◌≡◌, refl, sym, ap, ◌∙◌, List, [], ◌∷◌, ◌++◌, Option, none, some, length,
  arith, append_assoc, append-nil,
}
use c_study.Prelude.Run.{ok, ◌>>=◌}
use c_study.Bst.{
  TreeNode, leaf, node, Around, top, left_of, right_of, Place, preorder, minn_from, minn, climb,
  successor_of, successor, begin, increment,
}

module _ {ℓ} {V : Type ℓ} where
  -- The entries that come after a subtree with these surroundings, and before it.
  unfoldable pub later : Around V → List (ℕ × V)
  later top = []
  later (left_of c k v r) = (k, v) ∷ (preorder r ++ later c)
  later (right_of c l k v) = later c

  unfoldable pub earlier : Around V → List (ℕ × V)
  earlier top = []
  earlier (left_of c k v r) = earlier c
  earlier (right_of c l k v) = earlier c ++ (preorder l ++ (k, v) ∷ [])

  -- The entries from a place on.
  abbrev pub remaining : Option (Place V) → List (ℕ × V)
  remaining none = []
  remaining (some p) = (p.key, p.value) ∷ (preorder p.right ++ later p.around)

  minn_from-remaining :
      (c : Around V) (l : TreeNode V) (k : ℕ) (v : V) (r : TreeNode V)
      → remaining (some (minn_from c l k v r)) ≡ preorder (node l k v r) ++ later c
  unfolding minn_from preorder later
  minn_from-remaining c leaf k v r = refl
  minn_from-remaining c (node a j w b) k v r =
      minn_from-remaining (left_of c k v r) a j w b
      ∙ sym (append_assoc (preorder (node a j w b)) ((k, v) ∷ preorder r) (later c))

  climb-remaining : (c : Around V) (t : TreeNode V) → remaining (climb c t) ≡ later c
  unfolding climb later
  climb-remaining top t = refl
  climb-remaining (left_of c k v r) t = refl
  climb-remaining (right_of c l k v) t = climb-remaining c (node l k v t)

  successor-remaining :
      (c : Around V) (l : TreeNode V) (k : ℕ) (v : V) (r : TreeNode V)
      → remaining (successor_of c l k v r) ≡ preorder r ++ later c
  unfolding successor_of preorder later
  successor-remaining c l k v leaf = climb-remaining c (node l k v leaf)
  successor-remaining c l k v (node a j w b) = minn_from-remaining (right_of c l k v) a j w b

  -- `for (; it != end(); ++it)` with fuel: the entries `*it`. `none` means that the fuel ran out.
  unfoldable pub visit : ℕ → Option (Place V) → Option (List (ℕ × V))
  visit zero it = none
  visit (suc fuel) none = some []
  visit (suc fuel) (some p) = elim (visit fuel (increment (some p))) [
    | none ↦ none
    | some es ↦ some ((p.key, p.value) ∷ es)
  ]

  visit-remaining :
      (fuel : ℕ) (it : Option (Place V))
      → length (remaining it) < fuel
      → visit fuel it ≡ some (remaining it)
  unfolding visit increment successor
  visit-remaining zero it h = elim h [ ]
  visit-remaining (suc fuel) none h = refl
  visit-remaining (suc fuel) (some p) h =
      let next = successor-remaining p.around p.left p.key p.value p.right in
      let shorter = ap length next in
      let rest =
        visit-remaining fuel (successor_of p.around p.left p.key p.value p.right) (omega arith) in
      rw (rest, next) refl

  -- A loop from `begin()` to `end()` over a map that is not empty ends, and visits every entry
  -- once, in the order in which `print` writes them. A round for each entry and one more is
  -- enough fuel.
  pub visit-preorder :
      (l : TreeNode V) (k : ℕ) (v : V) (r : TreeNode V)
      → (begin (node l k v r) >>= λ it. ok (visit (suc (length (preorder (node l k v r)))) it))
        ≡ ok (some (preorder (node l k v r)))
  unfolding begin minn later
  visit-preorder l k v r =
      let all = minn_from-remaining top l k v r ∙ append-nil (preorder (node l k v r)) in
      let size = ap length all in
      ap ok (visit-remaining _ (some (minn_from top l k v r)) (omega arith) ∙ ap some all)
