-- ===== src/Json.antt =====
-- basic/jsontest/Jsontask.cpp: the JSON objects, the parser and the visit. Characters are numbers. A
-- `string_view` and an index into it are the text from the index on, with the index.
pub mod Loops
pub mod Ended
pub mod Keys
pub mod Doc
pub mod Fields
pub mod Write
pub mod Tests
use c_study.Prelude.{
  ℕ, zero, suc, ◌+◌, ◌≡◌, ◌≤◌, Bool, true, false, ◌||◌, ◌&&◌, not, List, [], ◌∷◌, ◌++◌, Option,
  none, some, length, drop, ◌==◌, leb, if◌then◌else◌,
}
use c_study.Prelude.Int.{ℤ}

-- `JSONObject`; a `double` stands as its bits. `push_back` is the one of `JSONList`.
mutual
  pub data JsonObject : Type 0 where
    null_object : JsonObject
    bool_object : Bool → JsonObject
    int_object : ℤ → JsonObject
    double_object : ℕ → JsonObject
    string_object : List ℕ → JsonObject
    list_object : JsonList → JsonObject
    dict_object : JsonDict → JsonObject

  pub data JsonList : Type 0 where
    empty_list : JsonList
    push_back : JsonList → JsonObject → JsonList

  pub data JsonDict : Type 0 where
    empty_dict : JsonDict
    entry : List ℕ → JsonObject → JsonDict → JsonDict

-- The library's regular expressions and number readers: the first match of the pattern, and the value with the
-- text behind it.
pub record Outside : Type 0 where
  pub regex_search : List ℕ → Option (List ℕ)
  pub int_from_chars : List ℕ → Option (ℤ × List ℕ)
  pub double_from_chars : List ℕ → Option (ℕ × List ℕ)

-- What a parse does: it needs more fuel, reads behind the end of the text, or gives a value.
pub data Parsed (A : Type 0) : Type 0 where
  no_fuel : Parsed A
  past_end : Parsed A
  done : (value : A) → Parsed A

infixl 5 ◌>>=◌
abbrev pub ◌>>=◌ : {A B : Type 0} → Parsed A → (A → Parsed B) → Parsed B
no_fuel >>= next = no_fuel
past_end >>= next = past_end
done value >>= next = next value

-- `try_parse_num`, on what `from_chars` gave.
unfoldable pub try_parse_num : {T : Type 0} → Option (T × List ℕ) → Option T
try_parse_num none = none
try_parse_num (some (value, [])) = some value
try_parse_num (some (value, _ ∷ _)) = none

unfoldable pub unescaped_char : ℕ → ℕ
unescaped_char c =
    if c == 110
    then 10
    else if c == 114
    then 13
    else if c == 48
    then 0
    else if c == 116
    then 9
    else if c == 118
    then 11
    else if c == 102
    then 12
    else if c == 98
    then 8
    else if c == 97
    then 7
    else c

-- A character of `" \n\r\t\v\f"`; the literal ends at `\0`.
abbrev pub is_blank : ℕ → Bool
is_blank c = (c == 32) || (c == 10) || (c == 13) || (c == 9) || (c == 11) || (c == 12)

-- `find_first_not_of`: the blanks in front are counted, and the rest follows; nothing follows for `npos`.
unfoldable pub skip_blanks : List ℕ → ℕ × List ℕ
skip_blanks [] = (0, [])
skip_blanks (c ∷ text) =
    let (off, rest) = skip_blanks text in if is_blank c then (suc off, rest) else (0, c ∷ text)

-- `off != 0 && off != json.npos`
unfoldable pub blanks_first : ℕ → List ℕ → Bool
blanks_first off [] = false
blanks_first off (_ ∷ _) = not (off == 0)

abbrev pub starts_number : ℕ → Bool
starts_number c = (leb 48 c && leb c 57) || (c == 43) || (c == 45)

-- The branch of a number.
unfoldable pub parse_number : Outside → List ℕ → JsonObject × ℕ
parse_number o json = elim (o.regex_search json) [
  | none ↦ (null_object, 0)
  | some str ↦ elim (try_parse_num (o.int_from_chars str)) [
    | some num ↦ (int_object num, length str)
    | none ↦ elim (try_parse_num (o.double_from_chars str)) [
      | some num ↦ (double_object num, length str)
      | none ↦ (null_object, 0)
    ]
  ]
]

pub data Phase : Type 0 where
  raw : Phase
  escaped : Phase

-- The branch of a string, from the index `i` on.
unfoldable pub string_loop : Phase → List ℕ → ℕ → List ℕ → List ℕ × ℕ
string_loop phase [] i str = (str, i)
string_loop raw (ch ∷ text) i str = elim (ch == 92) [
  | true ↦ string_loop escaped text (i + 1) str
  | false ↦ elim (ch == 34) [
    | true ↦ (str, i + 1)
    | false ↦ string_loop raw text (i + 1) (str ++ ch ∷ [])
  ]
]
string_loop escaped (ch ∷ text) i str = string_loop raw text (i + 1) (str ++ unescaped_char ch ∷ [])

-- `if (json[i] == c) i += 1;`, which reads behind the end where nothing is left.
unfoldable pub skip_char : ℕ → List ℕ → ℕ → Parsed (List ℕ × ℕ)
skip_char c [] i = past_end
skip_char c (d ∷ text) i = done (if d == c then (text, i + 1) else (d ∷ text, i))

-- `insert_or_assign`
unfoldable pub same_text : List ℕ → List ℕ → Bool
same_text [] [] = true
same_text [] (_ ∷ _) = false
same_text (_ ∷ _) [] = false
same_text (a ∷ p) (b ∷ q) = (a == b) && same_text p q

unfoldable pub insert_or_assign : List ℕ → JsonObject → JsonDict → JsonDict
insert_or_assign key val empty_dict = entry key val empty_dict
insert_or_assign key val (entry k v dict) =
    let rest = insert_or_assign key val dict in
    if same_text k key then entry k val dict else entry k v rest

-- The loops of the branches `[` and `{`, for the parser `p` of what stands inside, with fuel.
unfoldable pub list_loop :
    (List ℕ → Parsed (JsonObject × ℕ)) → ℕ → List ℕ → ℕ → JsonList → Parsed (JsonList × ℕ)
list_loop p zero json i res = no_fuel
list_loop p (suc rounds) [] i res = done (res, i)
list_loop p (suc rounds) (c ∷ text) i res = elim (c == 93) [
  | true ↦ done (res, i + 1)
  | false ↦ do
    (obj, eaten) ← p (c ∷ text)
    elim (eaten == 0) [
      | true ↦ done (res, i)
      | false ↦ do
        (rest, j) ← skip_char 44 (drop eaten (c ∷ text)) (i + eaten)
        list_loop p rounds rest j (push_back res obj)
    ]
]

-- The index behind the value, and the dictionary with it; 0 where no value was read.
unfoldable pub dict_loop :
    (List ℕ → Parsed (JsonObject × ℕ)) → ℕ → List ℕ → ℕ → JsonDict → Parsed (JsonDict × ℕ)
dict_loop p zero json i res = no_fuel
dict_loop p (suc rounds) [] i res = done (res, i)
dict_loop p (suc rounds) (c ∷ text) i res = elim (c == 125) [
  | true ↦ done (res, i + 1)
  | false ↦ do
    (keyobj, keyeaten) ← p (c ∷ text)
    elim (keyeaten == 0) [
      | true ↦ done (res, 0)
      | false ↦ elim keyobj [
        | string_object key ↦ do
          (behind, j) ← skip_char 58 (drop keyeaten (c ∷ text)) (i + keyeaten)
          (valobj, valeaten) ← p behind
          elim (valeaten == 0) [
            | true ↦ done (res, 0)
            | false ↦ do
              (rest, k) ← skip_char 44 (drop valeaten behind) (j + valeaten)
              dict_loop p rounds rest k (insert_or_assign key valobj res)
          ]
        | _ ↦ done (res, 0)
      ]
    ]
]

-- The branches that look at the first character.
unfoldable pub parse_token :
    Outside → (List ℕ → Parsed (JsonObject × ℕ)) → ℕ → List ℕ → Parsed (JsonObject × ℕ)
parse_token o p c text = elim (starts_number c) [
  | true ↦ done (parse_number o (c ∷ text))
  | false ↦ elim (c == 34) [
    | true ↦ let (str, i) = string_loop raw text 1 [] in done (string_object str, i)
    | false ↦ elim (c == 91) [
      | true ↦ do
        (res, i) ← list_loop p (suc (length text)) text 1 empty_list
        done (list_object res, i)
      | false ↦ elim (c == 123) [
        | true ↦ do
          (res, i) ← dict_loop p (suc (length text)) text 1 empty_dict
          done (dict_object res, i)
        | false ↦ done (null_object, 0)
      ]
    ]
  ]
]

-- `parse`, with fuel for the nesting: the object, and how many characters were eaten.
unfoldable pub parse : Outside → ℕ → List ℕ → Parsed (JsonObject × ℕ)
parse o zero json = no_fuel
parse o (suc fuel) [] = done (null_object, 0)
parse o (suc fuel) (c ∷ text) =
    let (off, rest) = skip_blanks (c ∷ text) in
    elim (blanks_first off rest) [
      | true ↦ do (obj, eaten) ← parse o fuel rest; done (obj, eaten + off)
      | false ↦ parse_token o (parse o fuel) c text
    ]

-- `dovisit`: the objects that it prints.
unfoldable mutual
  pub dovisit : JsonObject → List JsonObject
  dovisit (list_object xs) = visit_items xs
  dovisit obj = obj ∷ []

  visit_items : JsonList → List JsonObject
  visit_items empty_list = []
  visit_items (push_back xs x) = visit_items xs ++ dovisit x
