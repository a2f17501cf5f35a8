-- ===== src/Hash/Tests.antt =====
-- Runs of `hashmap` on concrete keys, and its theorems at them.
use c_study.Prelude.{
  length, ℕ, ◌*◌, ◌≡◌, refl, false, List, [], ◌∷◌, some, arith, ltb, ◌==◌, ==_iff,
}
use c_study.Prelude.Run.{ok, fault, null_access, ◌>>=◌, Returns}
use c_study.Hash.{
  size, Params, HashMap, new_map, rem, at, locate, find_in, find, walk, move_node, move_chain,
  move_all, rehash, check_load, insert, erase_rest, erase,
}
use c_study.Hash.Find.{in_front}
use c_study.Hash.Iter.{begin}
use c_study.Hash.Visit.{visit, entries, visit-entries}
use c_study.Hash.Table.{IsValid, total, insert-IsValid}

-- Numbers that are their own hash, with the default load factor 0.75.
abbrev numbers : Params ℕ
numbers = record {
  equal = ◌==◌;
  equal_iff = ==_iff;
  hash_func = λ k. k;
  overloaded = λ e b. ltb (3 * b) (4 * e);
}

program : Unit {0}
unfolding new_map rem at locate find_in find walk move_node move_chain move_all rehash check_load
    insert erase_rest erase in_front total
program = tt

abbrev empty : HashMap ℕ ℕ
empty = new_map 4

-- The second `insert` of the key 1 adds a node, and `find` returns the first value.
stale :
    ((insert numbers empty 1 10 >>= λ m. insert numbers m 1 11) >>= λ m. find numbers m 1)
    ≡ ok (some 10)
unfolding program
stale = refl

empty_bucket : erase numbers empty 1 ≡ fault null_access
unfolding program
empty_bucket = refl

abbrev ones : HashMap ℕ ℕ
ones = record { bucket_count = 2; element_count = 1; bucket = [] ∷ ((1, 10) ∷ []) ∷ [] }

ones-IsValid : IsValid ones
unfolding total
ones-IsValid = omega arith

insert-IsValid_example : Returns (insert numbers ones 1 11) IsValid
insert-IsValid_example = insert-IsValid numbers 1 11 ones-IsValid

abbrev loose : Params ℕ
loose = record numbers { overloaded = λ e b. false }

abbrev chain : List (ℕ × ℕ)
chain = (3, 30) ∷ (5, 50) ∷ []

visit-entries_example :
    (visit ones 2 (begin ones) [] ≡ some (ok (entries ones.bucket)))
    × (length (entries ones.bucket) ≡ size ones)
visit-entries_example = visit-entries ones 2 ones-IsValid (omega arith)

-- The one node is in the second bucket.
visited_once : visit ones 2 (begin ones) [] ≡ some (ok ((1, 10) ∷ []))
unfolding entries
visited_once = visit-entries_example.0
