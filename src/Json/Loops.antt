-- ===== src/Json/Loops.antt =====
-- The loops of `parse` of Jsontask.cpp end, for a parser of what stands inside that ends.
use c_study.Json.{
  JsonObject, JsonList, JsonDict, Parsed, no_fuel, past_end, done, ◌>>=◌, skip_blanks, Phase, raw,
  escaped, string_loop, skip_char, list_loop, dict_loop, push_back, insert_or_assign, is_blank,
  unescaped_char, int_object, double_object, null_object, bool_object, string_object, list_object,
  dict_object,
}
use c_study.Prelude.{
  ℕ, zero, suc, ◌+◌, ◌≡◌, refl, ◌≤◌, ◌<◌, Bool, true, false, List, [], ◌∷◌, ◌++◌, length, drop,
  length-drop, ◌==◌, arith, Bool-cases, inl, inr,
}

-- The run ends, and a value comes with at most `m` characters eaten.
abbrev pub Ended : {A : Type 0} → ℕ → Parsed (A × ℕ) → Type 0
Ended m no_fuel = ⊥
Ended m past_end = Unit
Ended m (done (value, eaten)) = eaten ≤ m

-- The rules for the steps of a `do` block.
pub Ended-bind :
    {A B : Type 0} (m n : ℕ) (run : Parsed (A × ℕ)) (next : A × ℕ → Parsed (B × ℕ))
    → Ended n run
    → ((value : A) (eaten : ℕ) → eaten ≤ n → Ended m (next (value, eaten)))
    → Ended m (run >>= next)
Ended-bind m n no_fuel next h k = elim h [ ]
Ended-bind m n past_end next h k = tt
Ended-bind m n (done (value, eaten)) next h k = k value eaten h

Ended-skip_char :
    {B : Type 0} (m c : ℕ) (text : List ℕ) (i : ℕ) (next : List ℕ × ℕ → Parsed (B × ℕ))
    → ((rest : List ℕ) (j : ℕ)
        → length rest ≤ length text
        → length rest + j ≡ length text + i
        → Ended m (next (rest, j)))
    → Ended m (skip_char c text i >>= next)
unfolding skip_char
Ended-skip_char m c [] i next k = tt
Ended-skip_char m c (d ∷ text) i next k = elim (Bool-cases (d == c)) [
  | inl e ↦ rw (e) (k text (i + 1) (omega arith) (omega arith))
  | inr e ↦ rw (e) (k (d ∷ text) i (omega arith) refl)
]

-- A test, with its result at hand in each branch.
pub Ended-test :
    {A : Type 0} (m : ℕ) (b : Bool) (x y : Parsed (A × ℕ))
    → ((b ≡ true) → Ended m x)
    → ((b ≡ false) → Ended m y)
    → Ended m (elim b [ true ↦ x | false ↦ y ])
Ended-test m true x y h k = h refl
Ended-test m false x y h k = k refl

pub skip_blanks-length :
    (text : List ℕ) → (skip_blanks text).0 + length (skip_blanks text).1 ≡ length text
unfolding skip_blanks
skip_blanks-length [] = refl
skip_blanks-length (c ∷ text) =
    let rest = skip_blanks-length text in
    elim (Bool-cases (is_blank c)) [ inl e ↦ rw (e) (omega arith) | inr e ↦ rw (e) (omega arith) ]

pub string_loop-le :
    (phase : Phase) (text : List ℕ) (i : ℕ) (str : List ℕ)
    → (string_loop phase text i str).1 ≤ i + length text
unfolding string_loop
string_loop-le raw [] i str = omega arith
string_loop-le escaped [] i str = omega arith
string_loop-le raw (ch ∷ text) i str =
    let left = string_loop-le escaped text (i + 1) str in
    let more = string_loop-le raw text (i + 1) (str ++ ch ∷ []) in
    elim (Bool-cases (ch == 92)) [
      | inl e ↦ rw (string_loop, e) (omega arith)
      | inr e ↦ elim (Bool-cases (ch == 34)) [
        | inl f ↦ rw (string_loop, e, f) (omega arith)
        | inr f ↦ rw (string_loop, e, f) (omega arith)
      ]
    ]
string_loop-le escaped (ch ∷ text) i str =
    let more = string_loop-le raw text (i + 1) (str ++ unescaped_char ch ∷ []) in omega arith

-- The parser of what stands inside, on the texts that are shorter than `n`.
abbrev pub EndsBelow : ℕ → (List ℕ → Parsed (JsonObject × ℕ)) → Type 0
EndsBelow n p = (text : List ℕ) → length text < n → Ended (length text) (p text)

positive : (n : ℕ) → (n == 0) ≡ false → 0 < n
positive n h = ground arith

pub list_loop-Ended :
    (p : List ℕ → Parsed (JsonObject × ℕ)) (n m rounds : ℕ) (json : List ℕ) (i : ℕ) (res : JsonList)
    → EndsBelow n p
    → length json < n
    → length json < rounds
    → i + length json ≤ m
    → Ended m (list_loop p rounds json i res)
unfolding list_loop
list_loop-Ended p n m zero json i res inside lt enough le = omega arith
list_loop-Ended p n m (suc rounds) [] i res inside lt enough le = omega arith
list_loop-Ended p n m (suc rounds) (c ∷ text) i res inside lt enough le =
    Ended-test m (c == 93) _ _ (λ e. omega arith)
      λ e.
        Ended-bind m (suc (length text)) (p (c ∷ text)) _ (inside (c ∷ text) lt) λ obj eaten fits.
          Ended-test m (eaten == 0) _ _ (λ z. omega arith)
            λ z. Ended-skip_char m 44 (drop eaten (c ∷ text)) (i + eaten) _ λ rest j less sum.
              let cut = length-drop eaten (c ∷ text) in
              let some_eaten = positive eaten z in
              list_loop-Ended p n m rounds rest j (push_back res obj) inside (omega arith)
                (omega arith) (omega arith)

Ended-key :
    {A : Type 0} (m : ℕ) (obj : JsonObject) (x : List ℕ → Parsed (A × ℕ)) (y : Parsed (A × ℕ))
    → ((key : List ℕ) → Ended m (x key))
    → Ended m y
    → Ended m (elim obj [ string_object key ↦ x key | _ ↦ y ])
Ended-key m (string_object key) x y h k = h key
Ended-key m null_object x y h k = k
Ended-key m (bool_object b) x y h k = k
Ended-key m (int_object n) x y h k = k
Ended-key m (double_object d) x y h k = k
Ended-key m (list_object xs) x y h k = k
Ended-key m (dict_object d) x y h k = k

pub dict_loop-Ended :
    (p : List ℕ → Parsed (JsonObject × ℕ)) (n m rounds : ℕ) (json : List ℕ) (i : ℕ) (res : JsonDict)
    → EndsBelow n p
    → length json < n
    → length json < rounds
    → i + length json ≤ m
    → Ended m (dict_loop p rounds json i res)
unfolding dict_loop
dict_loop-Ended p n m zero json i res inside lt enough le = omega arith
dict_loop-Ended p n m (suc rounds) [] i res inside lt enough le = omega arith
dict_loop-Ended p n m (suc rounds) (c ∷ text) i res inside lt enough le =
    Ended-test m (c == 125) _ _ (λ e. omega arith)
      λ e.
        Ended-bind m (suc (length text)) (p (c ∷ text)) _ (inside (c ∷ text) lt)
          λ keyobj keyeaten fits.
            Ended-test m (keyeaten == 0) _ _ (λ z. omega arith)
              λ z.
                Ended-key m keyobj _ _
                  (λ key.
                    Ended-skip_char m 58 (drop keyeaten (c ∷ text)) (i + keyeaten) _
                      λ behind j less sum.
                        let cut = length-drop keyeaten (c ∷ text) in
                        let key_eaten = positive keyeaten z in
                        Ended-bind m (length behind) (p behind) _ (inside behind (omega arith))
                          λ valobj valeaten fits_too.
                            Ended-test m (valeaten == 0) _ _ (λ w. omega arith)
                              λ w.
                                Ended-skip_char m 44 (drop valeaten behind) (j + valeaten) _
                                  λ rest k less_too sum_too.
                                    let cut_too = length-drop valeaten behind in
                                    dict_loop-Ended p n m rounds rest k
                                      (insert_or_assign key valobj res) inside (omega arith)
                                      (omega arith) (omega arith))
                  (omega arith)
