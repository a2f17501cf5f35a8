-- ===== src/Json/Fields.antt =====
-- The fields of a dictionary, as `parse` of Jsontask.cpp reads them.
use c_study.Json.{
  JsonObject, JsonDict, Parsed, done, ◌>>=◌, skip_char, dict_loop, insert_or_assign, string_object,
}
use c_study.Json.Doc.{
  Doc, text, items, entries, Fields, no_fields, field, quote, comma_fields, write, write_fields,
  object,
}
use c_study.Prelude.{
  ℕ, suc, ◌+◌, ◌≡◌, refl, ap, ◌<◌, true, false, List, [], ◌∷◌, ◌++◌, length, length-append, drop,
  ◌==◌, arith, append_assoc,
}

pub drop-length : (xs ys : List ℕ) → drop (length xs) (xs ++ ys) ≡ ys
drop-length [] ys = refl
drop-length (x ∷ xs) ys = drop-length xs ys

pub write-some : (d : Doc) → (length (write d) == 0) ≡ false
unfolding write quote
write-some (text s) = ground arith
write-some (items ds) = ground arith
write-some (entries fs) = ground arith

pub write-positive : (d : Doc) → 0 < length (write d)
unfolding write quote
write-positive (text s) = omega arith
write-positive (items ds) = omega arith
write-positive (entries fs) = omega arith

pub quote-some : (s : List ℕ) → (length (quote s) == 0) ≡ false
unfolding quote
quote-some s = ground arith

pub skip_char-colon : (t : List ℕ) (i : ℕ) → skip_char 58 (58 ∷ t) i ≡ done (t, i + 1)
unfolding skip_char
skip_char-colon t i = refl

pub skip_char-comma_fields :
    (fs : Fields) (rest : List ℕ) (i : ℕ)
    → skip_char 44 (comma_fields fs ++ write_fields fs ++ rest) i
      ≡ done (write_fields fs ++ rest, i + length (comma_fields fs))
unfolding skip_char comma_fields write_fields quote
skip_char-comma_fields no_fields rest i = ap (λ j. done (125 ∷ rest, j)) (omega arith)
skip_char-comma_fields (field key d fs) rest i = refl

-- What is done with a value that was read.
after_value :
    (p : List ℕ → Parsed (JsonObject × ℕ)) (rounds : ℕ) (d : Doc) (fs : Fields) (rest : List ℕ)
    (j : ℕ) (res dict : JsonDict)
    → (elim (length (write d) == 0) [
      | true ↦ done (res, 0)
      | false ↦ do
        (after, k) ←
            skip_char 44
              (drop (length (write d)) (write d ++ (comma_fields fs ++ write_fields fs ++ rest)))
              (j + length (write d))
        dict_loop p rounds after k dict
    ])
      ≡ dict_loop p rounds
          (write_fields fs ++ rest)
          (j + length (write d) + length (comma_fields fs))
          dict
after_value p rounds d fs rest j res dict =
    rw
      (
        write-some d,
        drop-length (write d) (comma_fields fs ++ write_fields fs ++ rest),
        skip_char-comma_fields fs rest (j + length (write d)),
      )
      refl

-- What is done behind the colon, where the parser `p` reads the value.
after_colon :
    (p : List ℕ → Parsed (JsonObject × ℕ)) (rounds : ℕ) (key : List ℕ) (d : Doc) (fs : Fields)
    (rest : List ℕ) (j : ℕ) (res : JsonDict)
    → p (write d ++ (comma_fields fs ++ write_fields fs ++ rest))
      ≡ done (object d, length (write d))
    → (do
      (valobj, valeaten) ← p (write d ++ (comma_fields fs ++ write_fields fs ++ rest))
      elim (valeaten == 0) [
        | true ↦ done (res, 0)
        | false ↦ do
          (after, k) ←
              skip_char 44
                (drop valeaten (write d ++ (comma_fields fs ++ write_fields fs ++ rest)))
                (j + valeaten)
          dict_loop p rounds after k (insert_or_assign key valobj res)
      ])
      ≡ dict_loop p rounds
          (write_fields fs ++ rest)
          (j + length (write d) + length (comma_fields fs))
          (insert_or_assign key (object d) res)
after_colon p rounds key d fs rest j res h =
    rw (h) (after_value p rounds d fs rest j res (insert_or_assign key (object d) res))

-- What is done with a key that was read, where the parser `p` reads the value.
after_key :
    (p : List ℕ → Parsed (JsonObject × ℕ)) (rounds : ℕ) (key : List ℕ) (d : Doc) (fs : Fields)
    (rest : List ℕ) (i : ℕ) (res : JsonDict)
    → p (write d ++ (comma_fields fs ++ write_fields fs ++ rest))
      ≡ done (object d, length (write d))
    → (elim (length (quote key) == 0) [
      | true ↦ done (res, 0)
      | false ↦ do
        (behind, j) ←
            skip_char 58
              (drop
                (length (quote key))
                (quote key ++ (58 ∷ (write d ++ (comma_fields fs ++ write_fields fs ++ rest)))))
              (i + length (quote key))
        (valobj, valeaten) ← p behind
        elim (valeaten == 0) [
          | true ↦ done (res, 0)
          | false ↦ do
            (after, k) ← skip_char 44 (drop valeaten behind) (j + valeaten)
            dict_loop p rounds after k (insert_or_assign key valobj res)
        ]
    ])
      ≡ dict_loop p rounds
          (write_fields fs ++ rest)
          (i + length (quote key) + 1 + length (write d) + length (comma_fields fs))
          (insert_or_assign key (object d) res)
after_key p rounds key d fs rest i res h =
    let more = comma_fields fs ++ write_fields fs ++ rest in
    rw
      (
        quote-some key,
        drop-length (quote key) (58 ∷ (write d ++ more)),
        skip_char-colon (write d ++ more) (i + length (quote key)),
      )
      (after_colon p rounds key d fs rest (i + length (quote key) + 1) res h)

-- One field, where the parser `p` reads the key and the value.
pub dict_loop-field :
    (p : List ℕ → Parsed (JsonObject × ℕ)) (rounds : ℕ) (key : List ℕ) (d : Doc) (fs : Fields)
    (rest : List ℕ) (i : ℕ) (res : JsonDict)
    → p (quote key ++ (58 ∷ (write d ++ (comma_fields fs ++ write_fields fs ++ rest))))
      ≡ done (string_object key, length (quote key))
    → p (write d ++ (comma_fields fs ++ write_fields fs ++ rest))
      ≡ done (object d, length (write d))
    → dict_loop p
        (suc rounds)
        (quote key ++ (58 ∷ (write d ++ (comma_fields fs ++ write_fields fs ++ rest))))
        i
        res
      ≡ dict_loop p rounds
          (write_fields fs ++ rest)
          (i + length (quote key) + 1 + length (write d) + length (comma_fields fs))
          (insert_or_assign key (object d) res)
unfolding dict_loop quote
dict_loop-field p rounds key d fs rest i res k h =
    rw (dict_loop, k) (after_key p rounds key d fs rest i res h)

pub write_fields-field :
    (key : List ℕ) (d : Doc) (fs : Fields) (rest : List ℕ)
    → write_fields (field key d fs) ++ rest
      ≡ quote key ++ (58 ∷ (write d ++ (comma_fields fs ++ write_fields fs ++ rest)))
unfolding write_fields
write_fields-field key d fs rest =
    rw (append_assoc (quote key) (58 ∷ (write d ++ (comma_fields fs ++ write_fields fs))) rest)
      (rw (append_assoc (write d) (comma_fields fs ++ write_fields fs) rest) refl)

pub length-write_field :
    (key : List ℕ) (d : Doc) (fs : Fields)
    → length (write_fields (field key d fs))
      ≡ length (quote key)
        + 1
        + length (write d)
        + length (comma_fields fs)
        + length (write_fields fs)
unfolding write_fields
length-write_field key d fs =
    let a = length-append (quote key) (58 ∷ (write d ++ (comma_fields fs ++ write_fields fs))) in
    let b = length-append (write d) (comma_fields fs ++ write_fields fs) in
    let c = length-append (comma_fields fs) (write_fields fs) in omega arith
