-- ===== src/Hash/Find.antt =====
-- basic/STL/hashmap.h: what the loops of `insert` and `erase` do to one chain.
use c_study.Prelude.{
  suc, ◌≡◌, refl, Bool, true, false, ◌||◌, [], ◌∷◌, ◌++◌, none, some, length, if◌then◌else◌, arith,
  Bool-cases, inl, inr,
}
use c_study.Prelude.Run.{ok, fault, null_access}
use c_study.Hash.{Params, Chain, find_in, walk, erase_rest}

module _ {K V : Type 0} (p : Params K) where
  -- `k` is the key of a node that is not the last.
  unfoldable pub in_front : K → K × V → Chain K V → Bool
  in_front k e [] = false
  in_front k e (f ∷ t) = p.equal e.0 k || in_front k f t

  -- What `find` makes of the chain that `insert` leaves, at the inserted key: the new value if the
  -- key was found before the last node or nowhere, and the old value if only the last node had it.
  pub find_in-walk_self :
      (k : K) (val : V) (e : K × V) (t : Chain K V)
      → find_in p k (walk p k val e t).1 ≡ (
          if in_front k e t
          then some val
          else elim (find_in p k (e ∷ t)) [ none ↦ some val | some old ↦ some old ])
  unfolding find_in walk in_front
  find_in-walk_self k val (j, v) [] = ground (arith, p.equal_iff j k, p.equal_iff k k)
  find_in-walk_self k val (j, v) (f ∷ t) =
      ground (arith, p.equal_iff j k, find_in-walk_self k val f t)

  -- After `insert` of a key into a chain, `find` gives at every other key what it gave before.
  find_in-walk_ne :
      (k q : K) (val : V) (e : K × V) (t : Chain K V)
      → p.equal k q ≡ false
      → find_in p q (walk p k val e t).1 ≡ find_in p q (e ∷ t)
  unfolding find_in walk
  find_in-walk_ne k q val (j, v) [] ne = ground arith
  find_in-walk_ne k q val (j, v) (f ∷ t) ne = elim (Bool-cases (p.equal j k)) [
    | inl e ↦ let other : p.equal j q ≡ false = rw ((p.equal_iff j k).0 e) ne in rw (e, other)
    | inr e ↦ rw e (ground (arith, find_in-walk_ne k q val f t ne))
  ]

  -- A node is added exactly when the key is at no node before the last, and then the chain is one
  -- longer; else its length stays.
  pub walk-length :
      (k : K) (val : V) (e : K × V) (t : Chain K V)
      → ((walk p k val e t).0 ≡ (if in_front k e t then false else true))
        × (length (walk p k val e t).1
            ≡ (if in_front k e t then suc (length t) else suc (suc (length t))))
  unfolding walk in_front
  walk-length k val (j, v) [] = (refl, refl)
  walk-length k val (j, v) (f ∷ t) =
      let (a, b) = walk-length k val f t in (ground (arith, a), ground (arith, b))

  -- No node has the key.
  abbrev pub IsAbsent : K → Chain K V → Type 0
  IsAbsent k [] = Unit
  IsAbsent k (e ∷ t) = (p.equal e.0 k ≡ false) × IsAbsent k t

  -- The loop of `erase` reads through null when the key is that of the last node behind the first.
  erase_rest-last :
      (k : K) (v : V) (t : Chain K V)
      → IsAbsent k t
      → erase_rest p k (t ++ (k, v) ∷ []) ≡ fault null_access
  unfolding erase_rest
  erase_rest-last k v [] a = rw ((p.equal_iff k k).1 refl)
  erase_rest-last k v (e ∷ []) a = rw (a.0, (p.equal_iff k k).1 refl)
  erase_rest-last k v (e ∷ f ∷ t) a = rw (a.0, erase_rest-last k v (f ∷ t) a.1)

  -- Between the first and the last node it takes the node out.
  erase_rest-middle :
      (k : K) (v : V) (t : Chain K V) (f : K × V) (u : Chain K V)
      → IsAbsent k t
      → IsAbsent k u
      → erase_rest p k (t ++ (k, v) ∷ f ∷ u) ≡ ok (1, t ++ f ∷ u)
  unfolding erase_rest
  erase_rest-middle k v [] f u a b = rw ((p.equal_iff k k).1 refl, erase_rest-absent k u b)
    where
      erase_rest-absent : (k : K) (u : Chain K V) → IsAbsent k u → erase_rest p k u ≡ ok (0, u)
      erase_rest-absent k [] b = refl
      erase_rest-absent k (e ∷ []) b = rw b.0
      erase_rest-absent k (e ∷ f ∷ u) b = rw (b.0, erase_rest-absent k (f ∷ u) b.1)
  erase_rest-middle k v (e ∷ []) f u a b = rw (a.0, erase_rest-middle k v [] f u tt b)
  erase_rest-middle k v (e ∷ g ∷ t) f u a b = rw (a.0, erase_rest-middle k v (g ∷ t) f u a.1 b)
