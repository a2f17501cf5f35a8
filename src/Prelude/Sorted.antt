-- ===== src/Prelude/Sorted.antt =====
-- Strictly sorted lists of numbers, and insertion and removal in them.
use c_study.Prelude.{ℕ, ◌<◌, ◌≡◌, refl, List, [], ◌∷◌, ◌++◌, arith, ltb, ◌==◌, if◌then◌else◌}

abbrev pub All {ℓ κ} : {A : Type ℓ} → (A → Type κ) → List A → Type κ
All P [] = Unit
All P (x ∷ xs) = P x × All P xs

module _ {ℓ κ} {A : Type ℓ} (P : A → Type κ) where
  pub All-append : (xs ys : List A) → All P xs → All P ys → All P (xs ++ ys)
  All-append [] ys a b = b
  All-append (x ∷ xs) ys a b = (a.0, All-append xs ys a.1 b)

  pub All-append_left : (xs ys : List A) → All P (xs ++ ys) → All P xs
  All-append_left [] ys a = tt
  All-append_left (x ∷ xs) ys a = (a.0, All-append_left xs ys a.1)

  pub All-append_right : (xs ys : List A) → All P (xs ++ ys) → All P ys
  All-append_right [] ys a = a
  All-append_right (x ∷ xs) ys a = All-append_right xs ys a.1

pub All-map {ℓ κ μ} :
    {A : Type ℓ} {P : A → Type κ} {Q : A → Type μ}
    → ((x : A) → P x → Q x)
    → (xs : List A) → All P xs
    → All Q xs
All-map f [] a = tt
All-map f (x ∷ xs) a = (f x a.0, All-map f xs a.1)

abbrev pub Above : ℕ → List ℕ → Type 0
Above k xs = All (λ x. k < x) xs

abbrev pub Below : ℕ → List ℕ → Type 0
Below k xs = All (λ x. x < k) xs

abbrev pub IsSorted : List ℕ → Type 0
IsSorted [] = Unit
IsSorted (x ∷ xs) = Above x xs × IsSorted xs

-- The list with `k` in its place, once.
unfoldable pub insert_key : ℕ → List ℕ → List ℕ
insert_key k [] = k ∷ []
insert_key k (x ∷ xs) =
    if ltb k x then k ∷ x ∷ xs else if ltb x k then x ∷ insert_key k xs else x ∷ xs

-- The list without `k`.
unfoldable pub remove_key : ℕ → List ℕ → List ℕ
remove_key k [] = []
remove_key k (x ∷ xs) = if x == k then xs else x ∷ remove_key k xs

-- The parts of a sorted list round an element.
pub IsSorted-parts :
    (xs : List ℕ) (m : ℕ) (ys : List ℕ)
    → IsSorted (xs ++ m ∷ ys)
    → IsSorted xs × Below m xs × IsSorted ys × Above m ys
IsSorted-parts [] m ys s = (tt, tt, s.1, s.0)
IsSorted-parts (x ∷ xs) m ys s =
    let (a, b, c, d) = IsSorted-parts xs m ys s.1 in
    (
      (All-append_left (λ y. x < y) xs (m ∷ ys) s.0, a),
      ((All-append_right (λ y. x < y) xs (m ∷ ys) s.0).0, b),
      c,
      d,
    )

pub IsSorted-join :
    (xs : List ℕ) (m : ℕ) (ys : List ℕ)
    → IsSorted xs
    → Below m xs
    → IsSorted ys
    → Above m ys
    → IsSorted (xs ++ m ∷ ys)
IsSorted-join [] m ys a b c d = (d, c)
IsSorted-join (x ∷ xs) m ys a b c d = (
  All-append (λ y. x < y) xs (m ∷ ys) a.0 (b.0, All-map (λ y (h : m < y). omega (arith, b.0)) ys d),
  IsSorted-join xs m ys a.1 b.1 c d,
)

pub insert_key-left :
    (k m : ℕ) (xs ys : List ℕ) → k < m → insert_key k (xs ++ m ∷ ys) ≡ insert_key k xs ++ m ∷ ys
unfolding insert_key
insert_key-left k m [] ys h = ground arith
insert_key-left k m (x ∷ xs) ys h = ground (arith, insert_key-left k m xs ys h)

pub insert_key-right :
    (k m : ℕ) (xs ys : List ℕ)
    → m < k
    → Below m xs
    → insert_key k (xs ++ m ∷ ys) ≡ xs ++ m ∷ insert_key k ys
unfolding insert_key
insert_key-right k m [] ys h b = ground arith
insert_key-right k m (x ∷ xs) ys h b = ground (arith, insert_key-right k m xs ys h b.1)

pub insert_key-mid :
    (k : ℕ) (xs ys : List ℕ) → Below k xs → insert_key k (xs ++ k ∷ ys) ≡ xs ++ k ∷ ys
unfolding insert_key
insert_key-mid k [] ys b = ground arith
insert_key-mid k (x ∷ xs) ys b = ground (arith, insert_key-mid k xs ys b.1)

insert_key-Above : (x k : ℕ) (xs : List ℕ) → x < k → Above x xs → Above x (insert_key k xs)
unfolding insert_key
insert_key-Above x k [] h a = (h, tt)
insert_key-Above x k (y ∷ ys) h a = ground (arith, insert_key-Above x k ys h a.1)

pub insert_key-IsSorted : (k : ℕ) (xs : List ℕ) → IsSorted xs → IsSorted (insert_key k xs)
unfolding insert_key
insert_key-IsSorted k [] s = (tt, tt)
insert_key-IsSorted k (x ∷ xs) s =
    ground (arith, insert_key-IsSorted k xs s.1, insert_key-Above x k xs, above_trans k x xs s.0)
  where
    above_trans : (k x : ℕ) (xs : List ℕ) → Above x xs → k < x → Above k xs
    above_trans k x xs a h = All-map (λ y (p : x < y). omega (arith, h)) xs a

pub remove_key-left :
    (k m : ℕ) (xs ys : List ℕ)
    → k < m
    → Above m ys
    → remove_key k (xs ++ m ∷ ys) ≡ remove_key k xs ++ m ∷ ys
unfolding remove_key
remove_key-left k m [] ys h a = rest ys a
  where
    rest : (ys : List ℕ) → Above m ys → remove_key k (m ∷ ys) ≡ m ∷ ys
    rest ys a = ground (arith, absent ys a)
      where
        absent : (ys : List ℕ) → Above m ys → remove_key k ys ≡ ys
        absent [] a = refl
        absent (y ∷ ys) a = ground (arith, absent ys a.1)
remove_key-left k m (x ∷ xs) ys h a = ground (arith, remove_key-left k m xs ys h a)

pub remove_key-right :
    (k m : ℕ) (xs ys : List ℕ)
    → m < k
    → Below m xs
    → remove_key k (xs ++ m ∷ ys) ≡ xs ++ m ∷ remove_key k ys
unfolding remove_key
remove_key-right k m [] ys h b = ground arith
remove_key-right k m (x ∷ xs) ys h b = ground (arith, remove_key-right k m xs ys h b.1)

pub remove_key-mid : (k : ℕ) (xs ys : List ℕ) → Below k xs → remove_key k (xs ++ k ∷ ys) ≡ xs ++ ys
unfolding remove_key
remove_key-mid k [] ys b = ground arith
remove_key-mid k (x ∷ xs) ys b = ground (arith, remove_key-mid k xs ys b.1)
