-- ===== src/LinkedList/Writes.antt =====
-- basic/STL/myList.h: the heaps that `insert` and `erase` leave, write by write.
use c_study.Prelude.{ℕ, ◌+◌, ◌≡◌, refl, ◌∙◌, Option, none, some, false, ◌==◌, arith, if◌then◌else◌}
use c_study.Prelude.Run.{ok}
use c_study.LinkedList.{
  Node, Heap, LinkedList, update, cell, at, write, set_next, set_prev, free, same, new_node, insert,
  erase,
}
use c_study.LinkedList.Chain.{node, DiffersAt}

module _ {ℓ} {T : Type ℓ} where
  pub at-some : (h : Heap T) (a : ℕ) (n : Node T) → h a ≡ some n → at h (some a) ≡ ok n
  unfolding at cell
  at-some h a n e = rw (e, cell) refl

  pub set_next-ok :
      (h : Heap T) (a : ℕ) (n : Node T) (q : Option ℕ)
      → h a ≡ some n
      → set_next h (some a) q ≡ ok (update h a (some (record n { next = q })))
  unfolding set_next write
  set_next-ok h a n q e = rw (at-some h a n e) refl

  pub set_prev-ok :
      (h : Heap T) (a : ℕ) (n : Node T) (q : Option ℕ)
      → h a ≡ some n
      → set_prev h (some a) q ≡ ok (update h a (some (record n { prev = q })))
  unfolding set_prev write
  set_prev-ok h a n q e = rw (at-some h a n e) refl

  pub update-at : (h : Heap T) (a : ℕ) (c : Option (Node T)) → update h a c a ≡ c
  unfolding update
  update-at h a c = ground arith

  pub update-off :
      (h : Heap T) (a x : ℕ) (c : Option (Node T)) → (x == a) ≡ false → update h a c x ≡ h x
  unfolding update
  update-off h a x c e = rw (e, if◌then◌else◌) refl

  -- The heap after `insert` of `c` between `b` and `a`.
  module _ (h : Heap T) (a b c : ℕ) (v w val : T) (na pb : Option ℕ) where
    h₀ : Heap T
    h₀ = update h c (some (new_node val))

    h₁ : Heap T
    h₁ = update h₀ b (node w (some c) pb)

    h₂ : Heap T
    h₂ = update h₁ c (node val none (some b))

    h₃ : Heap T
    h₃ = update h₂ c (node val (some a) (some b))

    pub inserted : Heap T
    inserted = update h₃ a (node v na (some c))

    module _ (ab : (a == b) ≡ false) (ca : (c == a) ≡ false) (cb : (c == b) ≡ false) where
      pub inserted-at :
          (inserted b ≡ node w (some c) pb)
          × (inserted c ≡ node val (some a) (some b))
          × (inserted a ≡ node v na (some c))
      unfolding inserted h₃ h₂ h₁ h₀ update
      inserted-at = (ground arith, ground arith, ground arith)

      pub inserted-DiffersAt : DiffersAt h inserted a b c
      unfolding inserted h₃ h₂ h₁ h₀ update
      inserted-DiffersAt x xa xb xc = ground arith

      set₁ : h b ≡ node w (some a) pb → set_next h₀ (some b) (some c) ≡ ok h₁
      unfolding h₁ h₀
      set₁ hb =
          set_next-ok h₀ b (record { data_ = w; next = some a; prev = pb }) (some c)
            (update-off h c b (some (new_node val)) (ground arith) ∙ hb)

      set₂ : set_prev h₁ (some c) (some b) ≡ ok h₂
      unfolding h₂ h₁ h₀ new_node
      set₂ =
          set_prev-ok h₁ c (new_node val) (some b)
            (update-off h₀ b c (node w (some c) pb) cb ∙ update-at h c (some (new_node val)))

      set₃ : set_next h₂ (some c) (some a) ≡ ok h₃
      unfolding h₃ h₂
      set₃ =
          set_next-ok h₂ c (record { data_ = val; next = none; prev = some b }) (some a)
            (update-at h₁ c (node val none (some b)))

      set₄ : h a ≡ node v na (some b) → set_prev h₃ (some a) (some c) ≡ ok inserted
      unfolding inserted h₃ h₂ h₁ h₀
      set₄ ha =
          set_prev-ok h₃ a (record { data_ = v; next = na; prev = some b }) (some c)
            (update-off h₂ c a _ (ground arith)
              ∙ update-off h₁ c a _ (ground arith)
              ∙ update-off h₀ b a _ ab
              ∙ update-off h c a _ (ground arith)
              ∙ ha)

  pub insert-ok :
      (l : LinkedList T) (a b : ℕ) (v w val : T) (na pb : Option ℕ)
      → l.heap a ≡ node v na (some b)
      → l.heap b ≡ node w (some a) pb
      → (a == b) ≡ false
      → (l.fresh == a) ≡ false
      → (l.fresh == b) ≡ false
      → insert (some a) val l
        ≡ ok (
          some l.fresh,
          record l { heap = inserted l.heap a b l.fresh v w val na pb; fresh = l.fresh + 1 },
        )
  unfolding insert h₀
  insert-ok l a b v w val na pb ha hb ab ca cb =
      rw
        (
          at-some l.heap a _ ha,
          set₁ l.heap a b l.fresh v w val na pb ab ca cb hb,
          set₂ l.heap a b l.fresh v w val na pb ab ca cb,
          set₃ l.heap a b l.fresh v w val na pb ab ca cb,
          set₄ l.heap a b l.fresh v w val na pb ab ca cb ha,
        )
        refl

  -- The heap after `erase` of `a` between `b` and `e`.
  module _ (h : Heap T) (a b e : ℕ) (w u : T) (pb ne : Option ℕ) where
    k₁ : Heap T
    k₁ = update h b (node w (some e) pb)

    k₂ : Heap T
    k₂ = update k₁ e (node u ne (some b))

    pub erased : Heap T
    erased = update k₂ a none

    module _ (ba : (b == a) ≡ false) (be : (b == e) ≡ false) (ae : (a == e) ≡ false) where
      pub erased-at :
          (erased b ≡ node w (some e) pb) × (erased e ≡ node u ne (some b)) × (erased a ≡ none)
      unfolding erased k₂ k₁ update
      erased-at = (ground arith, ground arith, ground arith)

      pub erased-DiffersAt : DiffersAt h erased a b e
      unfolding erased k₂ k₁ update
      erased-DiffersAt x xa xb xe = ground arith

      cut₁ : h b ≡ node w (some a) pb → set_next h (some b) (some e) ≡ ok k₁
      unfolding k₁
      cut₁ hb = set_next-ok h b (record { data_ = w; next = some a; prev = pb }) (some e) hb

      cut₂ : h e ≡ node u ne (some a) → set_prev k₁ (some e) (some b) ≡ ok k₂
      unfolding k₂ k₁
      cut₂ he =
          set_prev-ok k₁ e (record { data_ = u; next = ne; prev = some a }) (some b)
            (update-off h b e (node w (some e) pb) (ground arith) ∙ he)

  pub erase-ok :
      (l : LinkedList T) (a b e : ℕ) (v w u : T) (pb ne : Option ℕ)
      → l.heap a ≡ node v (some e) (some b)
      → l.heap b ≡ node w (some a) pb
      → l.heap e ≡ node u ne (some a)
      → (b == a) ≡ false
      → (b == e) ≡ false
      → (a == e) ≡ false
      → (a == l.head) ≡ false
      → (a == l.tail) ≡ false
      → erase (some a) l ≡ ok (some e, record l { heap = erased l.heap a b e w u pb ne })
  unfolding erase free same erased
  erase-ok l a b e v w u pb ne ha hb he ba be ae ah not_tail =
      rw
        (
          ah,
          not_tail,
          at-some l.heap a _ ha,
          cut₁ l.heap a b e w u pb ne ba be ae hb,
          cut₂ l.heap a b e w u pb ne ba be ae he,
        )
        refl
