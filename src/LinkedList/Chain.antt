-- ===== src/LinkedList/Chain.antt =====
-- basic/STL/myList.h: the links of a list, node by node.
use c_study.Prelude.{
  ℕ, ◌+◌, ◌<◌, ◌≡◌, refl, ap, ◌∙◌, List, [], ◌∷◌, ◌++◌, Option, some, false, ◌==◌, arith,
}
use c_study.LinkedList.{Node, Heap}

-- Address and value of each node, in order.
abbrev pub Cells {ℓ} : Type ℓ → Type ℓ
Cells T = List (ℕ × T)

module _ {ℓ} {T : Type ℓ} where
  abbrev pub NotIn : ℕ → Cells T → Type 0
  NotIn a [] = Unit
  NotIn a ((b, _) ∷ cs) = (a == b ≡ false) × NotIn a cs

  abbrev pub Below : ℕ → Cells T → Type 0
  Below n [] = Unit
  Below n ((a, _) ∷ cs) = (a < n) × Below n cs

  -- The first address of the nodes, or what follows them; the last address, or what precedes them.
  abbrev pub first : Cells T → Option ℕ → Option ℕ
  first [] n = n
  first ((a, _) ∷ _) n = some a

  abbrev pub last : Option ℕ → Cells T → Option ℕ
  last p [] = p
  last p ((a, _) ∷ cs) = last (some a) cs

  abbrev pub node : T → Option ℕ → Option ℕ → Option (Node T)
  node v n p = some (record { data_ = v; next = n; prev = p })

  -- The nodes stand at distinct addresses, and both pointers of each lead to its neighbours; before the first
  -- is `p`, and behind the last is `n`.
  abbrev pub Seg : Heap T → Option ℕ → Cells T → Option ℕ → Type ℓ
  Seg h p [] n = Unit
  Seg h p ((a, v) ∷ cs) n = (h a ≡ node v (first cs n) p) × NotIn a cs × Seg h (some a) cs n

  pub NotIn-fresh : (n : ℕ) (cs : Cells T) → Below n cs → NotIn n cs
  NotIn-fresh n [] b = tt
  NotIn-fresh n ((a, v) ∷ cs) b = (ground arith, NotIn-fresh n cs b.1)

  pub Below-suc : (n : ℕ) (cs : Cells T) → Below n cs → Below (n + 1) cs
  Below-suc n [] b = tt
  Below-suc n ((a, v) ∷ cs) b = (omega arith, Below-suc n cs b.1)

  abbrev pub Same : Heap T → Heap T → Cells T → Type ℓ
  Same h g [] = Unit
  Same h g ((a, _) ∷ cs) = (g a ≡ h a) × Same h g cs

  -- A segment survives a change at other addresses.
  pub Seg-frame :
      (h g : Heap T) (p : Option ℕ) (cs : Cells T) (n : Option ℕ)
      → Same h g cs
      → Seg h p cs n
      → Seg g p cs n
  Seg-frame h g p [] n same s = tt
  Seg-frame h g p ((a, v) ∷ cs) n same s =
      (same.0 ∙ s.0, s.1, Seg-frame h g (some a) cs n same.1 s.2)

  -- `g` differs from `h` at three addresses at most.
  abbrev pub DiffersAt : Heap T → Heap T → ℕ → ℕ → ℕ → Type ℓ
  DiffersAt h g a b c = (x : ℕ) → (x == a) ≡ false → (x == b) ≡ false → (x == c) ≡ false → g x ≡ h x

  pub Same-DiffersAt :
      (h g : Heap T) (a b c : ℕ) (cs : Cells T)
      → DiffersAt h g a b c
      → NotIn a cs
      → NotIn b cs
      → NotIn c cs
      → Same h g cs
  Same-DiffersAt h g a b c [] d na nb nc = tt
  Same-DiffersAt h g a b c ((x, _) ∷ cs) d na nb nc = (
    d x (ground arith) (ground arith) (ground arith),
    Same-DiffersAt h g a b c cs d na.1 nb.1 nc.1,
  )

  pub first-append :
      (xs ys zs : Cells T) (b : ℕ) (w w' : T) (n : Option ℕ)
      → first (xs ++ (b, w) ∷ ys) n ≡ first (xs ++ (b, w') ∷ zs) n
  first-append [] ys zs b w w' n = refl
  first-append (x ∷ xs) ys zs b w w' n = refl

  pub NotIn-middle :
      (x : ℕ) (xs : Cells T) (b : ℕ) (w : T) (zs : Cells T)
      → NotIn x (xs ++ (b, w) ∷ zs)
      → (x == b ≡ false) × NotIn x zs
  NotIn-middle x [] b w zs h = h
  NotIn-middle x (y ∷ xs) b w zs h = NotIn-middle x xs b w zs h.1

  -- What stands at a node in the middle, and the segment behind it.
  pub Seg-middle :
      (h : Heap T) (p : Option ℕ) (xs : Cells T) (b : ℕ) (w : T) (zs : Cells T) (n : Option ℕ)
      → Seg h p (xs ++ (b, w) ∷ zs) n
      → (h b ≡ node w (first zs n) (last p xs)) × NotIn b zs × Seg h (some b) zs n
  Seg-middle h p [] b w zs n s = s
  Seg-middle h p ((a, v) ∷ xs) b w zs n s = Seg-middle h (some a) xs b w zs n s.2

  abbrev pub Apart : Cells T → Cells T → Type 0
  Apart [] zs = Unit
  Apart ((x, _) ∷ xs) zs = NotIn x zs × Apart xs zs

  pub Apart-tail :
      (xs : Cells T) (z : ℕ) (u : T) (zs : Cells T) → Apart xs ((z, u) ∷ zs) → Apart xs zs
  Apart-tail [] z u zs h = tt
  Apart-tail (x ∷ xs) z u zs h = (h.0.1, Apart-tail xs z u zs h.1)

  pub Apart-head :
      (xs : Cells T) (z : ℕ) (u : T) (zs : Cells T) → Apart xs ((z, u) ∷ zs) → NotIn z xs
  Apart-head [] z u zs h = tt
  Apart-head (x ∷ xs) z u zs h = (ground arith, Apart-head xs z u zs h.1)

  pub Apart-cons :
      (xs : Cells T) (z : ℕ) (u : T) (zs : Cells T)
      → NotIn z xs
      → Apart xs zs
      → Apart xs ((z, u) ∷ zs)
  Apart-cons [] z u zs a h = tt
  Apart-cons (x ∷ xs) z u zs a h = ((ground arith, h.0), Apart-cons xs z u zs a.1 h.1)

  pub NotIn-append : (x : ℕ) (xs zs : Cells T) → NotIn x (xs ++ zs) → NotIn x xs × NotIn x zs
  NotIn-append x [] zs h = (tt, h)
  NotIn-append x (y ∷ xs) zs h = let (a, b) = NotIn-append x xs zs h.1 in ((h.0, a), b)

  append-NotIn : (x : ℕ) (xs zs : Cells T) → NotIn x xs → NotIn x zs → NotIn x (xs ++ zs)
  append-NotIn x [] zs a b = b
  append-NotIn x (y ∷ xs) zs a b = (a.0, append-NotIn x xs zs a.1 b)

  pub Seg-Apart :
      (h : Heap T) (p : Option ℕ) (xs zs : Cells T) (n : Option ℕ)
      → Seg h p (xs ++ zs) n
      → Apart xs zs
  Seg-Apart h p [] zs n s = tt
  Seg-Apart h p ((x, v) ∷ xs) zs n s =
      ((NotIn-append x xs zs s.1).1, Seg-Apart h (some x) xs zs n s.2)

  -- What follows the node `b` changes from `ys` to `zs`.
  pub Seg-replace :
      (h g : Heap T) (p : Option ℕ) (xs : Cells T) (b : ℕ) (w : T) (ys zs : Cells T) (n : Option ℕ)
      → Seg h p (xs ++ (b, w) ∷ ys) n
      → Same h g xs
      → Apart xs zs
      → Seg g (last p xs) ((b, w) ∷ zs) n
      → Seg g p (xs ++ (b, w) ∷ zs) n
  Seg-replace h g p [] b w ys zs n s same apart new = new
  Seg-replace h g p ((x, v) ∷ xs) b w ys zs n s same apart new = (
    same.0 ∙ s.0 ∙ ap (λ f. node v f p) (first-append xs ys zs b w w n),
    append-NotIn x xs ((b, w) ∷ zs) (NotIn-append x xs ((b, w) ∷ ys) s.1).0
        ((NotIn-middle x xs b w ys s.1).0, apart.0),
    Seg-replace h g (some x) xs b w ys zs n s.2 same.1 apart.1 new,
  )

  -- A node `c` comes between the nodes `b` and `a`.
  pub Seg-insert :
      (h g : Heap T) (p : Option ℕ) (xs : Cells T) (b a c : ℕ) (w v val : T) (ys : Cells T)
      (n : Option ℕ)
      → Seg h p (xs ++ (b, w) ∷ (a, v) ∷ ys) n
      → NotIn c (xs ++ (b, w) ∷ (a, v) ∷ ys)
      → g b ≡ node w (some c) (last p xs)
      → g c ≡ node val (some a) (some b)
      → g a ≡ node v (first ys n) (some c)
      → DiffersAt h g a b c
      → Seg g p (xs ++ (b, w) ∷ (c, val) ∷ (a, v) ∷ ys) n
  Seg-insert h g p xs b a c w v val ys n s out gb gc ga d =
      let (_, (ba, nb), (_, na, rest)) = Seg-middle h p xs b w ((a, v) ∷ ys) n s in
      let (cx, (cb, (ca, cy))) = NotIn-append c xs ((b, w) ∷ (a, v) ∷ ys) out in
      let apart = Seg-Apart h p xs ((b, w) ∷ (a, v) ∷ ys) n s in
      let behind = Apart-tail xs b w ((a, v) ∷ ys) apart in
      Seg-replace h g p xs b w ((a, v) ∷ ys) ((c, val) ∷ (a, v) ∷ ys) n s
        (Same-DiffersAt h g a b c xs d (Apart-head xs a v ys behind)
          (Apart-head xs b w ((a, v) ∷ ys) apart) cx)
        (Apart-cons xs c val ((a, v) ∷ ys) cx behind)
        (
          gb,
          (ground arith, (ba, nb)),
          (
            gc,
            (ca, cy),
            (ga, na, Seg-frame h g (some a) ys n (Same-DiffersAt h g a b c ys d na nb cy) rest),
          ),
        )

  -- The node `a` between the nodes `b` and `e` is taken out.
  pub Seg-erase :
      (h g : Heap T) (p : Option ℕ) (xs : Cells T) (b a e : ℕ) (w v u : T) (ys : Cells T)
      (n : Option ℕ)
      → Seg h p (xs ++ (b, w) ∷ (a, v) ∷ (e, u) ∷ ys) n
      → g b ≡ node w (some e) (last p xs)
      → g e ≡ node u (first ys n) (some b)
      → DiffersAt h g a b e
      → Seg g p (xs ++ (b, w) ∷ (e, u) ∷ ys) n
  Seg-erase h g p xs b a e w v u ys n s gb ge d =
      let (_, (ba, (be, nb)), (_, (ae, na), (_, ne, rest))) =
        Seg-middle h p xs b w ((a, v) ∷ (e, u) ∷ ys) n s in
      let apart = Seg-Apart h p xs ((b, w) ∷ (a, v) ∷ (e, u) ∷ ys) n s in
      let after_b = Apart-tail xs b w ((a, v) ∷ (e, u) ∷ ys) apart in
      let after_a = Apart-tail xs a v ((e, u) ∷ ys) after_b in
      Seg-replace h g p xs b w ((a, v) ∷ (e, u) ∷ ys) ((e, u) ∷ ys) n s
        (Same-DiffersAt h g a b e xs d (Apart-head xs a v ((e, u) ∷ ys) after_b)
          (Apart-head xs b w ((a, v) ∷ (e, u) ∷ ys) apart) (Apart-head xs e u ys after_a))
        after_a
        (
          gb,
          (be, nb),
          (ge, ne, Seg-frame h g (some e) ys n (Same-DiffersAt h g a b e ys d na nb ne) rest),
        )
