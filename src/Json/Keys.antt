-- ===== src/Json/Keys.antt =====
-- A dictionary of Jsontask.cpp by its keys: assigning fields one after another keeps the last value of each key, where
-- the key stood first.
use mathlib.Core.List.{List-discrete}
use c_study.Json.{JsonObject, JsonDict, empty_dict, entry, same_text, insert_or_assign}
use c_study.Prelude.{
  ℕ, ◌≡◌, refl, sym, ap, ap₂, ◌∙◌, List, [], ◌∷◌, Bool, true, false, ◌==◌, ==_iff, ◌&&◌,
  if◌then◌else◌, Bool-cases, inl, inr, ℕ_discrete,
}

-- Whether two keys are the same text.
unfoldable pub is_key : List ℕ → List ℕ → Bool
is_key k key = elim (List-discrete ℕ_discrete k key) [ yes _ ↦ true | no _ ↦ false ]

is_key-eq : (k key : List ℕ) → is_key k key ≡ true → k ≡ key
unfolding is_key
is_key-eq k key h =
    elim (List-discrete ℕ_discrete k key)
        as (λ d. (elim d as (λ _. Bool) [ yes _ ↦ true | no _ ↦ false ]) ≡ true → k ≡ key) [
          | yes e ↦ λ h. e
          | no _ ↦ λ h. cc
        ]
      h

is_key-same : (k : List ℕ) → is_key k k ≡ true
unfolding is_key
is_key-same k =
    elim (List-discrete ℕ_discrete k k)
      as (λ d. (elim d as (λ _. Bool) [ yes _ ↦ true | no _ ↦ false ]) ≡ true) [
        | yes e ↦ refl
        | no ne ↦ absurd (ne refl)
      ]

same_text-eq : (k key : List ℕ) → same_text k key ≡ true → k ≡ key
unfolding same_text
same_text-eq [] [] h = refl
same_text-eq [] (b ∷ q) h = cc
same_text-eq (a ∷ p) [] h = cc
same_text-eq (a ∷ p) (b ∷ q) h = elim (Bool-cases (a == b)) [
  | inl e ↦
      let rest : same_text p q ≡ true = ap (λ x. x && same_text p q) (sym e) ∙ h in
      ap₂ (λ x xs. x ∷ xs) ((==_iff a b).0 e) (same_text-eq p q rest)
  | inr e ↦ let no : false ≡ true = ap (λ x. x && same_text p q) (sym e) ∙ h in cc
]

same_text-same : (k : List ℕ) → same_text k k ≡ true
unfolding same_text
same_text-same [] = refl
same_text-same (a ∷ p) = rw ((==_iff a a).1 refl, same_text-same p) refl

same_text-is_key : (k key : List ℕ) → same_text k key ≡ is_key k key
same_text-is_key k key = elim (Bool-cases (is_key k key)) [
  | inl e ↦ ap (same_text k) (sym (is_key-eq k key e)) ∙ same_text-same k ∙ sym e
  | inr e ↦ elim (Bool-cases (same_text k key)) [
    | inl f ↦
        let yes_key : is_key k key ≡ true =
          ap (is_key k) (sym (same_text-eq k key f)) ∙ is_key-same k in
        cc
    | inr f ↦ f ∙ sym e
  ]
]

-- The value of a key, or `x` where there is none.
unfoldable pub lookup_or : JsonObject → List ℕ → JsonDict → JsonObject
lookup_or x key empty_dict = x
lookup_or x key (entry k v dict) =
    let rest = lookup_or x key dict in if is_key k key then v else rest

unfoldable pub remove : List ℕ → JsonDict → JsonDict
remove key empty_dict = empty_dict
remove key (entry k v dict) =
    let rest = remove key dict in if is_key k key then rest else entry k v rest

-- The entries of both, where a value of the second replaces one of the first.
unfoldable pub merge : JsonDict → JsonDict → JsonDict
merge empty_dict dict = dict
merge (entry k v old) dict = entry k (lookup_or v k dict) (merge old (remove k dict))

-- What holds of different keys.
apart : (a b c : List ℕ) → is_key a b ≡ true → is_key b c ≡ false → is_key a c ≡ false
apart a b c e ne = ap (λ k. is_key k c) (is_key-eq a b e) ∙ ne

remove-remove : (key : List ℕ) (dict : JsonDict) → remove key (remove key dict) ≡ remove key dict
unfolding remove
remove-remove key empty_dict = refl
remove-remove key (entry k v dict) = elim (Bool-cases (is_key k key)) [
  | inl e ↦ rw (e) (remove-remove key dict)
  | inr e ↦ rw (e) (rw (remove, e) (ap (entry k v) (remove-remove key dict)))
]

remove_comm : (a b : List ℕ) (dict : JsonDict) → remove a (remove b dict) ≡ remove b (remove a dict)
unfolding remove
remove_comm a b empty_dict = refl
remove_comm a b (entry k v dict) = elim (Bool-cases (is_key k a)) [
  | inl e ↦ elim (Bool-cases (is_key k b)) [
    | inl f ↦ rw (e, f) (remove_comm a b dict)
    | inr f ↦ rw (f, e) (remove_comm a b dict)
  ]
  | inr e ↦ elim (Bool-cases (is_key k b)) [
    | inl f ↦ rw (e, f) (remove_comm a b dict)
    | inr f ↦ rw (e, f) (rw (e) (ap (entry k v) (remove_comm a b dict)))
  ]
]

lookup_or-remove :
    (x : JsonObject) (a b : List ℕ) (dict : JsonDict)
    → is_key b a ≡ false
    → lookup_or x a (remove b dict) ≡ lookup_or x a dict
unfolding lookup_or remove
lookup_or-remove x a b empty_dict ne = refl
lookup_or-remove x a b (entry k v dict) ne = elim (Bool-cases (is_key k b)) [
  | inl f ↦ rw (f, apart k b a f ne) (lookup_or-remove x a b dict ne)
  | inr f ↦ elim (Bool-cases (is_key k a)) [
    | inl e ↦ rw (f) (rw (lookup_or, e) refl)
    | inr e ↦ rw (f) (rw (lookup_or, e) (lookup_or-remove x a b dict ne))
  ]
]

is_key_comm : (a b : List ℕ) → is_key a b ≡ false → is_key b a ≡ false
is_key_comm a b ne = elim (Bool-cases (is_key b a)) [
  | inl e ↦
      let same : is_key a b ≡ true = ap (λ k. is_key k b) (sym (is_key-eq b a e)) ∙ is_key-same b in
      cc
  | inr e ↦ e
]

-- Assigning to the old dictionary is putting the entry in front of the newer ones.
pub merge-insert :
    (key : List ℕ) (x : JsonObject) (old dict : JsonDict)
    → merge (insert_or_assign key x old) dict
      ≡ merge old (entry key (lookup_or x key dict) (remove key dict))
unfolding insert_or_assign merge lookup_or remove
merge-insert key x empty_dict dict = refl
merge-insert key x (entry k v old) dict = elim (Bool-cases (is_key k key)) [
  | inl e ↦
      let same = is_key-eq k key e in
      let back : is_key key k ≡ true = ap (is_key key) same ∙ is_key-same key in
      rw (same_text-is_key k key, e, back)
        (ap₂ (λ a b. entry k a (merge old b)) (ap (λ j. lookup_or x j dict) same)
          (sym (remove-remove k dict) ∙ ap (λ j. remove k (remove j dict)) same))
  | inr e ↦
      let back = is_key_comm k key e in
      rw (same_text-is_key k key, e, back)
        (ap₂ (λ a b. entry k a b) (sym (lookup_or-remove v k key dict back))
          (merge-insert key x old (remove k dict)
            ∙ ap₂ (λ a b. merge old (entry key a b)) (lookup_or-remove x key k dict e)
                (remove_comm key k dict)))
]

pub merge-empty : (old : JsonDict) → merge old empty_dict ≡ old
unfolding merge lookup_or remove
merge-empty empty_dict = refl
merge-empty (entry k v old) = ap (entry k v) (merge-empty old)
