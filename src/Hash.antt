-- ===== src/Hash.antt =====
-- basic/STL/hashmap.h: `hashmap`, separate chaining with a table that doubles.
pub mod Find
pub mod Table
pub mod Iter
pub mod Visit
pub mod Tests
use c_study.Prelude.{
  ℕ, zero, suc, ◌+◌, ◌-◌, ◌*◌, ◌%◌, Bool, true, false, List, [], ◌∷◌, ◌++◌, Option, none, some,
  length, get_elem?, set, replicate, ltb, ◌==◌, if◌then◌else◌, ◌≡◌, ◌↔◌,
}
use c_study.Prelude.Run.{Run, ok, fault, bad_access, null_access, division_by_zero, ◌>>=◌}

-- `Keytype` with its `==` and `Hash`, and the test `element_count_ / bucket_count_ >
-- max_load_factor_` on doubles. `hashnode`s behind one another are a list.
pub record Params {ℓ} (K : Type ℓ) : Type ℓ where
  pub equal : K → K → Bool
  pub equal_iff : (a b : K) → (equal a b ≡ true) ↔ (a ≡ b)
  pub hash_func : K → ℕ
  pub overloaded : ℕ → ℕ → Bool

abbrev pub Chain {ℓ} : Type ℓ → Type ℓ → Type ℓ
Chain K V = List (K × V)

pub record HashMap {ℓ} (K V : Type ℓ) : Type ℓ where
  pub bucket_count : ℕ
  pub element_count : ℕ
  pub bucket : List (Chain K V)

-- `a % b`
unfoldable pub rem : ℕ → ℕ → Run ℕ
rem a b = if b == 0 then fault division_by_zero else ok (a % b)

-- `bucket_[i]`
unfoldable pub at {ℓ} : {A : Type ℓ} → List A → ℕ → Run A
at [] i = fault bad_access
at (x ∷ xs) zero = ok x
at (x ∷ xs) (suc i) = at xs i

module _ {ℓ} {K V : Type ℓ} where
  -- The constructor, with `bucket_.resize(bucket_count_, nullptr)`.
  unfoldable pub new_map : ℕ → HashMap K V
  new_map n = record { bucket_count = n; element_count = 0; bucket = replicate n [] }

  unfoldable pub size : HashMap K V → ℕ
  size m = m.element_count

  -- `clear`, which goes by `bucket_.size()`.
  unfoldable pub clear : HashMap K V → HashMap K V
  clear m = record m { element_count = 0; bucket = replicate (length m.bucket) [] }

module _ {ℓ} {K V : Type ℓ} (p : Params K) where
  -- `hash_func_(k) % bucket_count_`, and the chain there.
  unfoldable pub locate : HashMap K V → K → Run (ℕ × Chain K V)
  locate m k = do
    location ← rem (p.hash_func k) m.bucket_count
    cur ← at m.bucket location
    ok (location, cur)

  -- The loop of `find`.
  unfoldable pub find_in : K → Chain K V → Option V
  find_in k [] = none
  find_in k ((j, v) ∷ t) = if p.equal j k then some v else find_in k t

  unfoldable pub find : HashMap K V → K → Run (Option V)
  find m k = do (_, t) ← locate m k; ok (find_in k t)

  -- The loop of `insert` from `cur` on, where `cur` is not null: it ends at the last node, whose
  -- key it does not look at, and appends. The result says whether a node was added.
  unfoldable pub walk : K → V → K × V → Chain K V → Bool × Chain K V
  walk k val e [] = (true, e ∷ (k, val) ∷ [])
  walk k val (j, v) (e ∷ t) =
      let (added, rest) = walk k val e t in
      if p.equal j k then (false, (j, val) ∷ e ∷ t) else (added, (j, v) ∷ rest)

  -- One node of `rehash`, pushed on the front of its new chain.
  unfoldable pub move_node : ℕ → K × V → List (Chain K V) → Run (List (Chain K V))
  move_node new_buck e nre = do
    new_l ← rem (p.hash_func e.0) new_buck
    c ← at nre new_l
    ok (set nre new_l (e ∷ c))

  unfoldable pub move_chain : ℕ → Chain K V → List (Chain K V) → Run (List (Chain K V))
  move_chain new_buck [] nre = ok nre
  move_chain new_buck (e ∷ t) nre = move_node new_buck e nre >>= move_chain new_buck t

  unfoldable pub move_all : ℕ → List (Chain K V) → List (Chain K V) → Run (List (Chain K V))
  move_all new_buck [] nre = ok nre
  move_all new_buck (c ∷ cs) nre = move_chain new_buck c nre >>= move_all new_buck cs

  unfoldable pub rehash : HashMap K V → Run (HashMap K V)
  rehash m = do
    let new_buck = m.bucket_count * 2
    nre ← move_all new_buck m.bucket (replicate new_buck [])
    ok (record m { bucket = nre; bucket_count = new_buck })

  -- The test at the end of both ways to add a node.
  unfoldable pub check_load : HashMap K V → Run (HashMap K V)
  check_load m = if p.overloaded m.element_count m.bucket_count then rehash m else ok m

  unfoldable pub insert : HashMap K V → K → V → Run (HashMap K V)
  insert m k val = do
    (location, cur) ← locate m k
    elim cur [
      | [] ↦ check_load (record m {
        bucket = set m.bucket location ((k, val) ∷ []);
        element_count = m.element_count + 1;
      })
      | e ∷ t ↦
          let (added, c) = walk k val e t in
          let m' : HashMap K V = record m { bucket = set m.bucket location c } in
          if added then check_load (record m' { element_count = m.element_count + 1 }) else ok m'
    ]

  -- The loop of `erase` behind the first node, at a `t` that is not null. After it has unlinked
  -- `t->next` it goes on from the node behind, which may be null: `t->next` is then read through
  -- null. The result counts the nodes that are left out.
  unfoldable pub erase_rest : K → Chain K V → Run (ℕ × Chain K V)
  erase_rest k [] = ok (0, [])
  erase_rest k (e ∷ []) = if p.equal e.0 k then fault null_access else ok (0, e ∷ [])
  erase_rest k (e ∷ f ∷ t) =
      let hit = (do (n, rest) ← erase_rest k t; ok (n + 1, f ∷ rest)) in
      let miss = (do (n, rest) ← erase_rest k (f ∷ t); ok (n, e ∷ rest)) in
      if p.equal e.0 k then hit else miss

  -- `erase`: an empty bucket is read through null.
  unfoldable pub erase : HashMap K V → K → Run (Bool × HashMap K V)
  erase m k = do
    (location, t) ← locate m k
    elim t [
      | [] ↦ fault null_access
      | e ∷ rest ↦
          let tail = (do
            (n, rest') ← erase_rest k rest
            ok (
              false,
              record m {
                bucket = set m.bucket location (e ∷ rest');
                element_count = m.element_count - n;
              },
            )) in
          if p.equal e.0 k
          then ok (
            true,
            record m { bucket = set m.bucket location rest; element_count = m.element_count - 1 },
          )
          else tail
    ]
