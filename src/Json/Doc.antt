-- ===== src/Json/Doc.antt =====
-- Documents as they are written for `parse` of Jsontask.cpp, and the strings in them.
use c_study.Json.{
  JsonObject, JsonList, JsonDict, dict_object, entry, empty_dict, insert_or_assign, raw,
  string_loop, push_back, unescaped_char, string_object, list_object, empty_list,
}
use c_study.Json.Keys.{lookup_or, remove, merge, merge-empty, merge-insert}
use c_study.Prelude.{
  Option, none, some, Option-cases, ℕ, ◌+◌, ◌≡◌, refl, sym, ap₂, ◌∙◌, false, List, [], ◌∷◌, ◌++◌,
  length, ◌==◌, if◌then◌else◌, arith, inl, inr, append_assoc, append-nil,
}

mutual
  pub data Doc : Type 0 where
    text : List ℕ → Doc
    items : Docs → Doc
    entries : Fields → Doc

  pub data Docs : Type 0 where
    nil : Docs
    cons : Doc → Docs → Docs

  pub data Fields : Type 0 where
    no_fields : Fields
    field : List ℕ → Doc → Fields → Fields

-- The letter behind a backslash: a quote and a backslash stand for themselves, and the control characters have
-- letters.
unfoldable pub escape_code : ℕ → Option ℕ
escape_code c =
    if c == 34
    then some 34
    else if c == 92
    then some 92
    else if c == 10
    then some 110
    else if c == 13
    then some 114
    else if c == 0
    then some 48
    else if c == 9
    then some 116
    else if c == 11
    then some 118
    else if c == 12
    then some 102
    else if c == 8
    then some 98
    else if c == 7
    then some 97
    else none

unfoldable pub escape_char : Option ℕ → ℕ → List ℕ → List ℕ
escape_char none c rest = c ∷ rest
escape_char (some d) c rest = 92 ∷ d ∷ rest

unfoldable pub escape : List ℕ → List ℕ
escape [] = []
escape (c ∷ s) = escape_char (escape_code c) c (escape s)

unfoldable pub quote : List ℕ → List ℕ
quote s = 34 ∷ escape s ++ 34 ∷ []

-- A comma, where something follows.
unfoldable pub comma : Docs → List ℕ
comma nil = []
comma (cons _ _) = 44 ∷ []

unfoldable pub comma_fields : Fields → List ℕ
comma_fields no_fields = []
comma_fields (field _ _ _) = 44 ∷ []

unfoldable mutual
  pub write : Doc → List ℕ
  write (text s) = quote s
  write (items ds) = 91 ∷ write_items ds
  write (entries fs) = 123 ∷ write_fields fs

  pub write_items : Docs → List ℕ
  write_items nil = 93 ∷ []
  write_items (cons d ds) = write d ++ comma ds ++ write_items ds

  pub write_fields : Fields → List ℕ
  write_fields no_fields = 125 ∷ []
  write_fields (field key d fs) =
      quote key ++ (58 ∷ (write d ++ (comma_fields fs ++ write_fields fs)))

unfoldable mutual
  pub object : Doc → JsonObject
  object (text s) = string_object s
  object (items ds) = list_object (objects empty_list ds)
  object (entries fs) = dict_object (dictionary fs)

  pub objects : JsonList → Docs → JsonList
  objects res nil = res
  objects res (cons d ds) = objects (push_back res (object d)) ds

  -- Each key once, where it stands first, with the value that it has last.
  pub dictionary : Fields → JsonDict
  dictionary no_fields = empty_dict
  dictionary (field key d fs) =
      entry key (lookup_or (object d) key (dictionary fs)) (remove key (dictionary fs))

-- The fields assigned one after another.
unfoldable pub assigned : JsonDict → Fields → JsonDict
assigned res no_fields = res
assigned res (field key d fs) = assigned (insert_or_assign key (object d) res) fs

assigned-merge : (res : JsonDict) (fs : Fields) → assigned res fs ≡ merge res (dictionary fs)
unfolding assigned object
assigned-merge res no_fields = sym (merge-empty res)
assigned-merge res (field key d fs) =
    assigned-merge (insert_or_assign key (object d) res) fs
    ∙ merge-insert key (object d) res (dictionary fs)

pub assigned-dictionary : (fs : Fields) → assigned empty_dict fs ≡ dictionary fs
unfolding merge
assigned-dictionary fs = assigned-merge empty_dict fs

unescaped_char-code : (c d : ℕ) → escape_code c ≡ some d → unescaped_char d ≡ c
unfolding escape_code unescaped_char
unescaped_char-code c d h = ground arith

plain : (c : ℕ) → escape_code c ≡ none → ((c == 34) ≡ false) × ((c == 92) ≡ false)
unfolding escape_code
plain c h = ground arith

escape-special :
    (c d : ℕ) (s : List ℕ) → escape_code c ≡ some d → escape (c ∷ s) ≡ 92 ∷ d ∷ escape s
unfolding escape escape_char
escape-special c d s e = rw (e) refl

escape-plain : (c : ℕ) (s : List ℕ) → escape_code c ≡ none → escape (c ∷ s) ≡ c ∷ escape s
unfolding escape escape_char
escape-plain c s e = rw (e) refl

string_loop-end :
    (rest : List ℕ) (i : ℕ) (str : List ℕ)
    → string_loop raw (escape [] ++ 34 ∷ rest) i str ≡ (str, i + 1)
unfolding string_loop escape
string_loop-end rest i str = refl

string_loop-special :
    (c : ℕ) (t : List ℕ) (i : ℕ) (str : List ℕ)
    → string_loop raw (92 ∷ c ∷ t) i str
      ≡ string_loop raw t (i + 1 + 1) (str ++ unescaped_char c ∷ [])
unfolding string_loop
string_loop-special c t i str = refl

string_loop-plain :
    (c : ℕ) (t : List ℕ) (i : ℕ) (str : List ℕ)
    → (c == 34) ≡ false
    → (c == 92) ≡ false
    → string_loop raw (c ∷ t) i str ≡ string_loop raw t (i + 1) (str ++ c ∷ [])
unfolding string_loop
string_loop-plain c t i str quote slash = rw (string_loop, slash, quote) refl

length-escape_nil : length (escape []) ≡ 0
unfolding escape
length-escape_nil = refl

pub string_loop-escape :
    (s rest : List ℕ) (i : ℕ) (str : List ℕ)
    → string_loop raw (escape s ++ 34 ∷ rest) i str ≡ (str ++ s, i + length (escape s) + 1)
string_loop-escape [] rest i str =
    string_loop-end rest i str
    ∙ ap₂ (λ a b. (a, b)) (sym (append-nil str)) (let no_more = length-escape_nil in omega arith)
string_loop-escape (c ∷ s) rest i str = elim (Option-cases (escape_code c)) [
  | inr (d, e) ↦
      rw
        (
          escape-special c d s e,
          string_loop-special d (escape s ++ 34 ∷ rest) i str,
          unescaped_char-code c d e,
          string_loop-escape s rest (i + 1 + 1) (str ++ c ∷ []),
        )
        (ap₂ (λ a b. (a, b)) (append_assoc str (c ∷ []) s) (omega arith))
  | inl e ↦
      let (quote, slash) = plain c e in
      rw
        (
          escape-plain c s e,
          string_loop-plain c (escape s ++ 34 ∷ rest) i str quote slash,
          string_loop-escape s rest (i + 1) (str ++ c ∷ []),
        )
        (ap₂ (λ a b. (a, b)) (append_assoc str (c ∷ []) s) (omega arith))
]
