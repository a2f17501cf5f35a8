-- ===== src/LinkedList/Edit.antt =====
-- basic/STL/myList.h: `insert` and `erase` at an iterator.
use c_study.Prelude.{
  ℕ, ◌+◌, ◌≡◌, refl, sym, ap, ◌∙◌, [], ◌∷◌, ◌++◌, Option, none, some, false, ◌==◌, arith, subst,
  append_assoc,
}
use c_study.Prelude.Run.{ok}
use c_study.LinkedList.{Heap, LinkedList, same, insert, erase}
use c_study.LinkedList.Writes.{
  inserted, inserted-at, inserted-DiffersAt, insert-ok, erased, erased-at, erased-DiffersAt,
  erase-ok,
}
use c_study.LinkedList.Chain.{
  Cells, Below, first, last, Seg, NotIn-fresh, Below-suc, Seg-middle, NotIn-middle, NotIn-append,
  Seg-insert, Seg-erase,
}

module _ {ℓ} {T : Type ℓ} where
  -- The last node before a place, with those in front of it.
  pub snoc :
      (x : ℕ × T) (pre : Cells T)
      → (xs : Cells T) × (b : ℕ) × (w : T) × (x ∷ pre ≡ xs ++ (b, w) ∷ [])
  snoc (b, w) [] = ([], b, w, refl)
  snoc x (y ∷ pre) = let (xs, b, w, e) = snoc y pre in (x ∷ xs, b, w, ap (λ ys. x ∷ ys) e)

  snoc_append :
      (x : ℕ × T) (pre : Cells T)
      → (xs : Cells T) × (b : ℕ) × (w : T) × ((rest : Cells T)
          → x ∷ (pre ++ rest) ≡ xs ++ (b, w) ∷ rest)
  snoc_append x pre =
      let (xs, b, w, e) = snoc x pre in
      (xs, b, w, λ rest. ap (λ ys. ys ++ rest) e ∙ append_assoc xs ((b, w) ∷ []) rest)

  pub Below-append : (n : ℕ) (xs ys : Cells T) → Below n (xs ++ ys) → Below n xs × Below n ys
  Below-append n [] ys h = (tt, h)
  Below-append n (x ∷ xs) ys h = let (a, b) = Below-append n xs ys h.1 in ((h.0, a), b)

  append-Below : (n : ℕ) (xs ys : Cells T) → Below n xs → Below n ys → Below n (xs ++ ys)
  append-Below n [] ys a b = b
  append-Below n (x ∷ xs) ys a b = (a.0, append-Below n xs ys a.1 b)

  -- The sentinel `head` and then these nodes are linked, at addresses that were given out.
  unfoldable pub Linked : LinkedList T → T → Cells T → Type ℓ
  Linked l blank cs =
      Seg l.heap none ((l.head, blank) ∷ cs) none × Below l.fresh ((l.head, blank) ∷ cs)

  insert-Linked :
      (l : LinkedList T) (blank : T) (pre : Cells T) (a : ℕ) (v val : T) (ys : Cells T)
      → Linked l blank (pre ++ (a, v) ∷ ys)
      → (g : Heap T) × (insert (some a) val l
          ≡ ok (some l.fresh, record l { heap = g; fresh = l.fresh + 1 }))
        × Linked
            (record l { heap = g; fresh = l.fresh + 1 })
            blank
            (pre ++ (l.fresh, val) ∷ (a, v) ∷ ys)
  unfolding Linked
  insert-Linked l blank pre a v val ys (seg, below) =
      let (xs, b, w, e) = snoc_append (l.head, blank) pre in
      let seg' = subst (λ cs. Seg l.heap none cs none) (e ((a, v) ∷ ys)) seg in
      let below' = subst (Below l.fresh) (e ((a, v) ∷ ys)) below in
      let out = NotIn-fresh l.fresh (xs ++ (b, w) ∷ (a, v) ∷ ys) below' in
      let (hb, (ba, _), (ha, _, _)) = Seg-middle l.heap none xs b w ((a, v) ∷ ys) none seg' in
      let (cb, (ca, _)) = (NotIn-append l.fresh xs ((b, w) ∷ (a, v) ∷ ys) out).1 in
      let ab : (a == b) ≡ false = ground arith in
      let pb : Option ℕ = last none xs in
      let na : Option ℕ = first ys none in
      let (gb, gc, ga) = inserted-at l.heap a b l.fresh v w val na pb ab ca cb in
      let (early, late) =
        Below-append (l.fresh + 1) pre ((a, v) ∷ ys)
          (Below-suc l.fresh (pre ++ (a, v) ∷ ys) below.1) in
      (
        inserted l.heap a b l.fresh v w val na pb,
        insert-ok l a b v w val na pb ha hb ab ca cb,
        (
          subst (λ cs. Seg (inserted l.heap a b l.fresh v w val na pb) none cs none)
              (sym (e ((l.fresh, val) ∷ (a, v) ∷ ys)))
              (Seg-insert l.heap _ none xs b a l.fresh w v val ys none seg' out gb gc ga
                (inserted-DiffersAt l.heap a b l.fresh v w val na pb ab ca cb)),
          (
            omega arith,
            append-Below (l.fresh + 1) pre ((l.fresh, val) ∷ (a, v) ∷ ys) early (omega arith, late),
          ),
        ),
      )

  erase-Linked :
      (l : LinkedList T) (blank : T) (pre : Cells T) (a e : ℕ) (v u : T) (ys : Cells T)
      → (a == l.tail) ≡ false
      → Linked l blank (pre ++ (a, v) ∷ (e, u) ∷ ys)
      → (g : Heap T) × (erase (some a) l ≡ ok (some e, record l { heap = g }))
        × (g a ≡ none)
        × Linked (record l { heap = g }) blank (pre ++ (e, u) ∷ ys)
  unfolding Linked
  erase-Linked l blank pre a e v u ys not_tail (seg, below) =
      let (xs, b, w, same) = snoc_append (l.head, blank) pre in
      let seg' = subst (λ cs. Seg l.heap none cs none) (same ((a, v) ∷ (e, u) ∷ ys)) seg in
      let (hb, (ba, (be, _)), (ha, (ae, _), (he, _, _))) =
        Seg-middle l.heap none xs b w ((a, v) ∷ (e, u) ∷ ys) none seg' in
      let pb : Option ℕ = last none xs in
      let ne : Option ℕ = first ys none in
      let (gb, ge, ga) = erased-at l.heap a b e w u pb ne ba be ae in
      let (early, late) = Below-append l.fresh pre ((a, v) ∷ (e, u) ∷ ys) below.1 in
      let ah : (a == l.head) ≡ false =
        ground (arith, (NotIn-middle l.head pre a v ((e, u) ∷ ys) seg.1).0) in
      (
        erased l.heap a b e w u pb ne,
        erase-ok l a b e v w u pb ne ha hb he ba be ae ah not_tail,
        ga,
        (
          subst (λ cs. Seg (erased l.heap a b e w u pb ne) none cs none) (sym (same ((e, u) ∷ ys)))
              (Seg-erase l.heap _ none xs b a e w v u ys none seg' gb ge
                (erased-DiffersAt l.heap a b e w u pb ne ba be ae)),
          (below.0, append-Below l.fresh pre ((e, u) ∷ ys) early late.1),
        ),
      )

  -- `l` has these nodes, between sentinels that hold `blank`.
  unfoldable pub Holds : LinkedList T → T → Cells T → Type ℓ
  unfolding Linked
  Holds l blank cs = Linked l blank (cs ++ (l.tail, blank) ∷ [])

  -- `insert` at the iterator of the first node of `post`, or at `end()` if there is none, returns the
  -- iterator of a new node. The list then has that node between `pre` and `post`, and every other
  -- node stays at its address with its value, so that their iterators stay valid.
  pub insert-Holds :
      (l : LinkedList T) (blank val : T) (pre post : Cells T)
      → Holds l blank (pre ++ post)
      → (l' : LinkedList T) × (insert (first post (some l.tail)) val l ≡ ok (some l.fresh, l'))
        × Holds l' blank (pre ++ (l.fresh, val) ∷ post)
        × (l'.tail ≡ l.tail)
  unfolding Holds
  insert-Holds l blank val pre [] h =
      let (g, run, linked) =
        insert-Linked l blank pre l.tail blank val []
          (subst (Linked l blank) (append_assoc pre [] ((l.tail, blank) ∷ [])) h) in
      let l' : LinkedList T = record l { heap = g; fresh = l.fresh + 1 } in
      (
        l',
        run,
        subst (Linked l' blank)
            (sym (append_assoc pre ((l.fresh, val) ∷ []) ((l.tail, blank) ∷ []))) linked,
        refl,
      )
  insert-Holds l blank val pre ((a, v) ∷ post) h =
      let (g, run, linked) =
        insert-Linked l blank pre a v val (post ++ (l.tail, blank) ∷ [])
          (subst (Linked l blank) (append_assoc pre ((a, v) ∷ post) ((l.tail, blank) ∷ [])) h) in
      let l' : LinkedList T = record l { heap = g; fresh = l.fresh + 1 } in
      (
        l',
        run,
        subst (Linked l' blank)
            (sym (append_assoc pre ((l.fresh, val) ∷ (a, v) ∷ post) ((l.tail, blank) ∷ []))) linked,
        refl,
      )

  not_tail :
      (l : LinkedList T) (blank : T) (pre : Cells T) (a : ℕ) (v : T) (post : Cells T)
      → Linked l blank (pre ++ (a, v) ∷ (post ++ (l.tail, blank) ∷ []))
      → (a == l.tail) ≡ false
  unfolding Linked
  not_tail l blank pre a v post (seg, _) =
      let (_, out, _) =
        Seg-middle l.heap none ((l.head, blank) ∷ pre) a v (post ++ (l.tail, blank) ∷ []) none
          seg in
      (NotIn-middle a post l.tail blank [] out).0

  -- `erase` at the iterator of a node returns the iterator of the next one, or `end()`. The list then has the
  -- nodes before and behind it, at their addresses, and the node itself is freed.
  pub erase-Holds :
      (l : LinkedList T) (blank : T) (pre : Cells T) (a : ℕ) (v : T) (post : Cells T)
      → Holds l blank (pre ++ (a, v) ∷ post)
      → (l' : LinkedList T) × (erase (some a) l ≡ ok (first post (some l.tail), l'))
        × Holds l' blank (pre ++ post)
        × (l'.heap a ≡ none)
        × (l'.tail ≡ l.tail)
  unfolding Holds
  erase-Holds l blank pre a v [] h =
      let h' = subst (Linked l blank) (append_assoc pre ((a, v) ∷ []) ((l.tail, blank) ∷ [])) h in
      let (g, run, gone, linked) =
        erase-Linked l blank pre a l.tail v blank [] (not_tail l blank pre a v [] h') h' in
      let l' : LinkedList T = record l { heap = g } in
      (
        l',
        run,
        subst (Linked l' blank) (sym (append_assoc pre [] ((l.tail, blank) ∷ []))) linked,
        gone,
        refl,
      )
  erase-Holds l blank pre a v ((e, u) ∷ post) h =
      let h' =
        subst (Linked l blank) (append_assoc pre ((a, v) ∷ (e, u) ∷ post) ((l.tail, blank) ∷ []))
          h in
      let (g, run, gone, linked) =
        erase-Linked l blank pre a e v u (post ++ (l.tail, blank) ∷ [])
          (not_tail l blank pre a v ((e, u) ∷ post) h') h' in
      let l' : LinkedList T = record l { heap = g } in
      (
        l',
        run,
        subst (Linked l' blank) (sym (append_assoc pre ((e, u) ∷ post) ((l.tail, blank) ∷ [])))
            linked,
        gone,
        refl,
      )
