-- ===== src/Hash/Table.antt =====
-- basic/STL/hashmap.h: `find` and `insert` on the table, and that `rehash` keeps the entries.
use c_study.Prelude.{
  ℕ, zero, suc, ◌+◌, ◌*◌, ◌%◌, ◌<◌, ◌≡◌, refl, ap, ◌∙◌, true, false, List, [], ◌∷◌, some, length,
  get_or, set, replicate, arith, Bool-cases, inl, inr, length-set, length-replicate, subst,
}
use c_study.Prelude.Run.{ok, ◌>>=◌, Returns}
use c_study.Hash.{
  Params, Chain, HashMap, rem, at, locate, find_in, find, walk, move_node, move_chain, move_all,
  rehash, check_load, insert,
}
use c_study.Hash.Find.{walk-length, in_front, find_in-walk_self}

-- The number of nodes in all chains.
unfoldable pub total : {A : Type 0} → List (List A) → ℕ
total [] = 0
total (c ∷ cs) = length c + total cs

-- The vector has `bucket_count_` chains, at least one, and `element_count_` counts their nodes.
pub record IsValid {K V : Type 0} (m : HashMap K V) : Type 0 where
  pub width : length m.bucket ≡ m.bucket_count
  pub pos : 0 < m.bucket_count
  pub counted : m.element_count ≡ total m.bucket

module _ {A : Type 0} where
  -- Inside the vector `bucket_[i]` is the default-free read.
  at-get_or : (blank : A) (i : ℕ) (v : List A) → i < length v → at v i ≡ ok (get_or v i blank)
  unfolding at
  at-get_or blank i [] out = absurd (omega arith)
  at-get_or blank (suc i) (_ ∷ v) inside = at-get_or blank i v (omega arith)
  at-get_or blank zero (c ∷ _) inside = refl

  get_or-set :
      (chains : List A) (i : ℕ) (new blank : A)
      → i < length chains
      → get_or (set chains i new) i blank ≡ new
  get_or-set [] i new blank out = absurd (omega arith)
  get_or-set (_ ∷ chains) (suc i) new blank inside = get_or-set chains i new blank (omega arith)
  get_or-set (_ ∷ _) zero new blank inside = refl

  total-set :
      (bs : List (List A)) (i : ℕ) (c : List A)
      → i < length bs
      → total (set bs i c) + length (get_or bs i []) ≡ total bs + length c
  unfolding total
  total-set [] i c h = absurd (omega arith)
  total-set (b ∷ bs) zero c h = omega arith
  total-set (b ∷ bs) (suc i) c h = omega (arith, total-set bs i c (omega arith))

total-replicate : (A : Type 0) (n : ℕ) → total (replicate {A = List A} n []) ≡ 0
unfolding total
total-replicate A zero = refl
total-replicate A (suc n) = omega (arith, total-replicate A n)

rem_lem : (a b : ℕ) → 0 < b → rem a b ≡ ok (a % b)
unfolding rem
rem_lem a b h = ground arith

module _ {K V : Type 0} (p : Params K) where
  abbrev pub home : HashMap K V → K → ℕ
  home m k = p.hash_func k % m.bucket_count

  home-lt : {m : HashMap K V} (k : K) → IsValid m → home m k < length m.bucket
  home-lt k v = omega arith

  abbrev pub chain_of : HashMap K V → K → Chain K V
  chain_of m k = get_or m.bucket (home m k) []

  locate-home : {m : HashMap K V} (k : K) → IsValid m → locate p m k ≡ ok (home m k, chain_of m k)
  unfolding locate
  locate-home {m} k v = rw (
    rem_lem (p.hash_func k) m.bucket_count v.pos,
    ◌>>=◌,
    at-get_or [] (p.hash_func k % m.bucket_count) m.bucket (omega arith),
  )

  abbrev Moved : List (Chain K V) → ℕ → List (Chain K V) → Type 0
  Moved nre n r = (length r ≡ length nre) × (total r ≡ total nre + n)

  move_node-Moved :
      (e : K × V) (nre : List (Chain K V))
      → 0 < length nre
      → Returns (move_node p (length nre) e nre) (Moved nre 1)
  unfolding move_node
  move_node-Moved e nre pos =
      let i = p.hash_func e.0 % length nre in
      let c = get_or nre i [] in
      (
        set nre i (e ∷ c),
        rw (rem_lem (p.hash_func e.0) (length nre) pos, ◌>>=◌, at-get_or [] i nre (omega arith)),
        (length-set nre i (e ∷ c), omega (arith, total-set nre i (e ∷ c) (omega arith))),
      )

  move_chain-Moved :
      (c : Chain K V) (nre : List (Chain K V)) (n : ℕ)
      → 0 < n
      → length nre ≡ n
      → Returns (move_chain p n c nre) (Moved nre (length c))
  unfolding move_chain
  move_chain-Moved [] nre n pos e = (nre, refl, (refl, omega arith))
  move_chain-Moved (x ∷ c) nre n pos e =
      let (r, run, (len, tot)) =
        subst (λ k. Returns (move_node p k x nre) (Moved nre 1)) e
          (move_node-Moved x nre (omega arith)) in
      let (r', run', (len', tot')) = move_chain-Moved c r n pos (len ∙ e) in
      (r', rw (run, ◌>>=◌) run', (len' ∙ len, omega arith))

  move_all-Moved :
      (cs nre : List (Chain K V)) (n : ℕ)
      → 0 < n
      → length nre ≡ n
      → Returns (move_all p n cs nre) (Moved nre (total cs))
  unfolding move_all total
  move_all-Moved [] nre n pos e = (nre, refl, (refl, omega arith))
  move_all-Moved (c ∷ cs) nre n pos e =
      let (r, run, (len, tot)) = move_chain-Moved c nre n pos e in
      let (r', run', (len', tot')) = move_all-Moved cs r n pos (len ∙ e) in
      (r', rw (run, ◌>>=◌) run', (len' ∙ len, omega arith))

  -- `rehash` returns, doubles the number of buckets, and loses or adds no node.
  rehash-IsValid :
      {m : HashMap K V}
      → IsValid m
      → Returns (rehash p m) λ m'.
        IsValid m' × (m'.bucket_count ≡ m.bucket_count * 2) × (m'.element_count ≡ m.element_count)
  unfolding rehash
  rehash-IsValid {m} v =
      let n = m.bucket_count * 2 in
      let (r, run, (len, tot)) =
        move_all-Moved m.bucket (replicate n []) n (omega (arith, v.pos)) (length-replicate n []) in
      (
        record m { bucket = r; bucket_count = n },
        rw run,
        (
          record {
            width = len ∙ length-replicate n [];
            pos = omega (arith, v.pos);
            counted = omega (arith, v.counted, total-replicate (K × V) n);
          },
          refl,
          refl,
        ),
      )

  check_load-IsValid : {m : HashMap K V} → IsValid m → Returns (check_load p m) IsValid
  unfolding check_load
  check_load-IsValid {m} v = elim (Bool-cases (p.overloaded m.element_count m.bucket_count)) [
    | inr light ↦ (m, rw light, v)
    | inl heavy ↦ let (m', run, (v', _, _)) = rehash-IsValid v in (m', rw heavy run, v')
  ]

  -- One bucket replaced, and the count adjusted to it.
  set-IsValid :
      {m : HashMap K V} (k : K) (c : Chain K V) (n : ℕ)
      → IsValid m
      → n + length (chain_of m k) ≡ m.element_count + length c
      → IsValid (record m { bucket = set m.bucket (home m k) c; element_count = n })
  set-IsValid {m} k c n v e = record {
    width = length-set m.bucket (home m k) c ∙ v.width;
    pos = v.pos;
    counted = omega (arith, v.counted, total-set m.bucket (home m k) c (home-lt k v));
  }

  -- `insert` returns on every valid table, and leaves a valid one: `element_count_` is the number
  -- of nodes, also across a `rehash`.
  pub insert-IsValid :
      {m : HashMap K V} (k : K) (val : V) → IsValid m → Returns (insert p m k val) IsValid
  unfolding insert
  insert-IsValid {m} k val v = go (chain_of m k) refl
    where
      go : (c : Chain K V) → chain_of m k ≡ c → Returns (insert p m k val) IsValid
      go [] e =
          let (m', run, v') =
            check_load-IsValid (
              set-IsValid k ((k, val) ∷ []) (m.element_count + 1) v (omega (arith, ap length e))) in
          (m', rw (locate-home k v, ◌>>=◌, e) run, v')
      go (f ∷ t) e =
          let (added, few) = walk-length p k val f t in
          let c = (walk p k val f t).1 in
          elim (Bool-cases (in_front p k f t)) [
            | inl old ↦
                let no : (walk p k val f t).0 ≡ false = rw old at added in
                let same : length c ≡ suc (length t) = rw old at few in
                (
                  record m { bucket = set m.bucket (home m k) c },
                  rw (locate-home k v, ◌>>=◌, e, no),
                  set-IsValid k c m.element_count v (omega (arith, ap length e)),
                )
            | inr new ↦
                let plus : (walk p k val f t).0 ≡ true = rw new at added in
                let more : length c ≡ suc (suc (length t)) = rw new at few in
                let (m', run, v') =
                  check_load-IsValid
                    (set-IsValid k c (m.element_count + 1) v (omega (arith, ap length e))) in
                (m', rw (locate-home k v, ◌>>=◌, e, plus) run, v')
          ]

  -- Where a key is the last of its chain, and no node before it has it, inserting it again adds a
  -- second node, and `find` still returns the old value. No `rehash` happens at the new load.
  find-insert_last :
      {m : HashMap K V} (k : K) (val old : V) (e : K × V) (t : Chain K V)
      → IsValid m
      → chain_of m k ≡ e ∷ t
      → in_front p k e t ≡ false
      → find_in p k (e ∷ t) ≡ some old
      → p.overloaded (m.element_count + 1) m.bucket_count ≡ false
      → Returns
          (insert p m k val)
          λ m'. (find p m' k ≡ ok (some old)) × (m'.element_count ≡ m.element_count + 1)
  unfolding insert check_load
  find-insert_last {m} k val old e t v at_k late found light =
      let c = (walk p k val e t).1 in
      let (added, few) = walk-length p k val e t in
      let plus : (walk p k val e t).0 ≡ true = rw late at added in
      let more : length c ≡ suc (suc (length t)) = rw late at few in
      let m' : HashMap K V = record m {
        bucket = set m.bucket (home m k) c;
        element_count = m.element_count + 1;
      } in
      let v' : IsValid m' =
        set-IsValid k c (m.element_count + 1) v (omega (arith, ap length at_k)) in
      let stale : find_in p k c ≡ some old = rw (late, found) at (find_in-walk_self p k val e t) in
      (
        m',
        rw (locate-home k v, ◌>>=◌, at_k, plus, light),
        (
          (unfold find in
              rw (
                locate-home {m = m'} k v',
                ◌>>=◌,
                get_or-set m.bucket (home m k) c [] (home-lt k v),
                stale,
              )),
          refl,
        ),
      )
