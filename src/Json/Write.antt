-- ===== src/Json/Write.antt =====
-- What `parse` of Jsontask.cpp reads back: documents of strings, lists and dictionaries.
use c_study.Json.{
  JsonDict, dict_loop, dict_object, empty_dict, insert_or_assign, Outside, JsonObject, JsonList,
  Parsed, done, ◌>>=◌, skip_blanks, blanks_first, skip_char, list_loop, parse_token, parse,
  push_back, string_object, list_object, empty_list,
}
use c_study.Prelude.{
  ℕ, zero, suc, ◌+◌, ◌≡◌, refl, ap, ap₂, ◌∙◌, ◌≤◌, ◌<◌, true, false, List, [], ◌∷◌, ◌++◌, length,
  length-append, drop, ◌==◌, arith, append_assoc,
}
use c_study.Json.Doc.{
  Doc, text, items, Docs, nil, cons, escape, comma, write, write_items, object, objects,
  string_loop-escape, entries, Fields, no_fields, field, quote, comma_fields, write_fields,
  assigned, assigned-dictionary,
}
use c_study.Json.Fields.{
  drop-length, write-some, write-positive, dict_loop-field, write_fields-field, length-write_field,
}

skip_char-comma :
    (ds : Docs) (rest : List ℕ) (i : ℕ)
    → skip_char 44 (comma ds ++ write_items ds ++ rest) i
      ≡ done (write_items ds ++ rest, i + length (comma ds))
unfolding skip_char comma write_items write quote
skip_char-comma nil rest i = ap (λ j. done (93 ∷ rest, j)) (omega arith)
skip_char-comma (cons d ds) rest i = refl

-- What is done with an item that was read.
after_item :
    (p : List ℕ → Parsed (JsonObject × ℕ)) (rounds : ℕ) (d : Doc) (ds : Docs) (rest : List ℕ)
    (i : ℕ) (res : JsonList)
    → (elim (length (write d) == 0) [
      | true ↦ done (res, i)
      | false ↦ do
        (behind, j) ←
            skip_char 44
              (drop (length (write d)) (write d ++ (comma ds ++ write_items ds ++ rest)))
              (i + length (write d))
        list_loop p rounds behind j (push_back res (object d))
    ])
      ≡ list_loop p rounds
          (write_items ds ++ rest)
          (i + length (write d) + length (comma ds))
          (push_back res (object d))
after_item p rounds d ds rest i res =
    rw
      (
        write-some d,
        drop-length (write d) (comma ds ++ write_items ds ++ rest),
        skip_char-comma ds rest (i + length (write d)),
      )
      refl

-- One item, which the parser `p` reads.
list_loop-item :
    (p : List ℕ → Parsed (JsonObject × ℕ)) (rounds : ℕ) (d : Doc) (ds : Docs) (rest : List ℕ)
    (i : ℕ) (res : JsonList)
    → p (write d ++ (comma ds ++ write_items ds ++ rest)) ≡ done (object d, length (write d))
    → list_loop p (suc rounds) (write d ++ (comma ds ++ write_items ds ++ rest)) i res
      ≡ list_loop p rounds
          (write_items ds ++ rest)
          (i + length (write d) + length (comma ds))
          (push_back res (object d))
unfolding list_loop write quote
list_loop-item p rounds (text s) ds rest i res h =
    rw (list_loop, h) (after_item p rounds (text s) ds rest i res)
list_loop-item p rounds (items es) ds rest i res h =
    rw (list_loop, h) (after_item p rounds (items es) ds rest i res)
list_loop-item p rounds (entries fs) ds rest i res h =
    rw (list_loop, h) (after_item p rounds (entries fs) ds rest i res)

write_items-cons :
    (d : Doc) (ds : Docs) (rest : List ℕ)
    → write_items (cons d ds) ++ rest ≡ write d ++ (comma ds ++ write_items ds ++ rest)
unfolding write_items
write_items-cons d ds rest =
    rw
      (
        append_assoc (write d) (comma ds) (write_items ds),
        append_assoc (write d) (comma ds ++ write_items ds) rest,
      )
      refl

length-write_items_cons :
    (d : Doc) (ds : Docs)
    → length (write_items (cons d ds))
      ≡ length (write d) + length (comma ds) + length (write_items ds)
unfolding write_items
length-write_items_cons d ds =
    rw (length-append (write d ++ comma ds) (write_items ds), length-append (write d) (comma ds))
      refl

parse-quote :
    (o : Outside) (fuel : ℕ) (s rest : List ℕ)
    → parse o (suc fuel) (quote s ++ rest) ≡ done (string_object s, length (quote s))
unfolding parse skip_blanks blanks_first parse_token quote
parse-quote o fuel s rest =
    rw (append_assoc (escape s) (34 ∷ []) rest, string_loop-escape s rest 1 [])
      (ap (λ n. done (string_object s, n))
        (let sum = length-append (escape s) (34 ∷ []) in omega arith))

parse-quote_fuel :
    (o : Outside) (fuel : ℕ) (s rest : List ℕ)
    → 0 < fuel
    → parse o fuel (quote s ++ rest) ≡ done (string_object s, length (quote s))
parse-quote_fuel o zero s rest lt = ground arith
parse-quote_fuel o (suc fuel) s rest lt = parse-quote o fuel s rest

mutual
  unfolding write object assigned parse skip_blanks blanks_first parse_token list_loop dict_loop
      quote

  parse_doc :
      (o : Outside) (d : Doc) (fuel : ℕ) (rest : List ℕ)
      → length (write d) ≤ fuel
      → parse o fuel (write d ++ rest) ≡ done (object d, length (write d))
  parse_doc o (text s) zero rest enough = ground arith
  parse_doc o (items ds) zero rest enough = ground arith
  parse_doc o (entries fs) zero rest enough = ground arith
  parse_doc o (text s) (suc fuel) rest enough = parse-quote o fuel s rest
  parse_doc o (items ds) (suc fuel) rest enough =
      let sum = length-append (write_items ds) rest in
      let reads =
        list_loop-write o ds fuel (suc (length (write_items ds ++ rest))) rest 1 empty_list
          (omega arith) (omega arith) in
      rw (reads) (ap (λ n. done (list_object (objects empty_list ds), n)) (omega arith))
  parse_doc o (entries fs) (suc fuel) rest enough =
      let sum = length-append (write_fields fs) rest in
      let reads =
        dict_loop-write o fs fuel (suc (length (write_fields fs ++ rest))) rest 1 empty_dict
          (omega arith) (omega arith) in
      rw (reads) (ap₂ (λ dict n. done (dict_object dict, n)) (assigned-dictionary fs) (omega arith))

  list_loop-write :
      (o : Outside) (ds : Docs) (fuel rounds : ℕ) (rest : List ℕ) (i : ℕ) (res : JsonList)
      → length (write_items ds) ≤ fuel
      → length (write_items ds) ≤ rounds
      → list_loop (parse o fuel) rounds (write_items ds ++ rest) i res
        ≡ done (objects res ds, i + length (write_items ds))
  list_loop-write o nil fuel zero rest i res enough more = ground arith
  list_loop-write o nil fuel (suc rounds) rest i res enough more = refl
  list_loop-write o (cons d ds) fuel zero rest i res enough more =
      let sum = length-write_items_cons d ds in let some = write-positive d in ground arith
  list_loop-write o (cons d ds) fuel (suc rounds) rest i res enough more =
      let sum = length-write_items_cons d ds in
      let some = write-positive d in
      let reads = parse_doc o d fuel (comma ds ++ write_items ds ++ rest) (omega arith) in
      ap (λ t. list_loop (parse o fuel) (suc rounds) t i res) (write_items-cons d ds rest)
      ∙ list_loop-item (parse o fuel) rounds d ds rest i res reads
      ∙ list_loop-write o ds fuel rounds rest (i + length (write d) + length (comma ds))
          (push_back res (object d)) (omega arith) (omega arith)
      ∙ ap (λ n. done (objects (push_back res (object d)) ds, n)) (omega arith)

  dict_loop-write :
      (o : Outside) (fs : Fields) (fuel rounds : ℕ) (rest : List ℕ) (i : ℕ) (res : JsonDict)
      → length (write_fields fs) ≤ fuel
      → length (write_fields fs) ≤ rounds
      → dict_loop (parse o fuel) rounds (write_fields fs ++ rest) i res
        ≡ done (assigned res fs, i + length (write_fields fs))
  dict_loop-write o no_fields fuel zero rest i res enough more = ground arith
  dict_loop-write o no_fields fuel (suc rounds) rest i res enough more = refl
  dict_loop-write o (field key d fs) fuel zero rest i res enough more =
      let sum = length-write_field key d fs in ground arith
  dict_loop-write o (field key d fs) fuel (suc rounds) rest i res enough more =
      let sum = length-write_field key d fs in
      let reads_key =
        parse-quote_fuel o fuel key (58 ∷ (write d ++ (comma_fields fs ++ write_fields fs ++ rest)))
          (omega arith) in
      let reads = parse_doc o d fuel (comma_fields fs ++ write_fields fs ++ rest) (omega arith) in
      ap (λ t. dict_loop (parse o fuel) (suc rounds) t i res) (write_fields-field key d fs rest)
      ∙ dict_loop-field (parse o fuel) rounds key d fs rest i res reads_key reads
      ∙ dict_loop-write o fs fuel rounds rest
          (i + length (quote key) + 1 + length (write d) + length (comma_fields fs))
          (insert_or_assign key (object d) res) (omega arith) (omega arith)
      ∙ ap (λ n. done (assigned (insert_or_assign key (object d) res) fs, n)) (omega arith)

-- A document of strings, lists and dictionaries, written with `\"`, `\\` and the letters for control characters, is
-- read back, whatever text follows it, and exactly what was written is eaten. A list holds the items in order;
-- a dictionary holds each key once, with the value that stood last. The fuel is at least the length of what was
-- written.
pub parse-write :
    (o : Outside) (d : Doc) (fuel : ℕ) (rest : List ℕ)
    → length (write d) ≤ fuel
    → parse o fuel (write d ++ rest) ≡ done (object d, length (write d))
parse-write o d fuel rest enough = parse_doc o d fuel rest enough
