-- ===== src/Json/Tests.antt =====
-- Concrete runs of Jsontask.cpp, on texts without numbers.
use c_study.Json.{
  Outside, parse, skip_blanks, blanks_first, parse_token, string_loop, list_loop, dict_loop,
  skip_char, insert_or_assign, done, past_end, list_object, string_object, dict_object, null_object,
  entry, empty_dict, empty_list, push_back,
}
use c_study.Json.Loops.{Ended}
use c_study.Json.Ended.{FindsInside, parse-Ended}
use c_study.Json.Doc.{
  entries, field, no_fields, quote, comma_fields, Doc, escape, escape_char, escape_code, comma,
  text, items, nil, cons, write, object,
}
use c_study.Json.Write.{parse-write}
use c_study.Prelude.{length, ◌++◌, arith, ◌≤◌, List, ℕ, none, ◌≡◌, refl, [], ◌∷◌}

-- A library that finds no number.
abbrev no_numbers : Outside
no_numbers = record {
  regex_search = λ _. none;
  int_from_chars = λ _. none;
  double_from_chars = λ _. none;
}

-- `["a","b"]`
list_of_two :
    parse no_numbers 3 (91 ∷ 34 ∷ 97 ∷ 34 ∷ 44 ∷ 34 ∷ 98 ∷ 34 ∷ 93 ∷ [])
    ≡ done (
      list_object
          (push_back (push_back empty_list (string_object (97 ∷ []))) (string_object (98 ∷ []))),
      9,
    )
unfolding parse skip_blanks blanks_first parse_token string_loop list_loop skip_char
list_of_two = refl

-- `["a"` reads behind the end.
cut_off : parse no_numbers 3 (91 ∷ 34 ∷ 97 ∷ 34 ∷ []) ≡ past_end
unfolding parse skip_blanks blanks_first parse_token string_loop list_loop skip_char
cut_off = refl

-- `[[] ]`: a blank in front of a bracket gives a null object.
blank_item :
    parse no_numbers 3 (91 ∷ 91 ∷ 93 ∷ 32 ∷ 93 ∷ [])
    ≡ done (list_object (push_back (push_back empty_list (list_object empty_list)) null_object), 5)
unfolding parse skip_blanks blanks_first parse_token string_loop list_loop skip_char
blank_item = refl

-- `{"a":[]}`
dict_of_one :
    parse no_numbers 3 (123 ∷ 34 ∷ 97 ∷ 34 ∷ 58 ∷ 91 ∷ 93 ∷ 125 ∷ [])
    ≡ done (dict_object (entry (97 ∷ []) (list_object empty_list) empty_dict), 8)
unfolding parse skip_blanks blanks_first parse_token string_loop list_loop dict_loop skip_char
    insert_or_assign
dict_of_one = refl

no_numbers-FindsInside : FindsInside no_numbers
no_numbers-FindsInside json str e = ground arith

-- `["a"`
abbrev cut_text : List ℕ
cut_text = 91 ∷ 34 ∷ 97 ∷ 34 ∷ []

parse-Ended_example : Ended 4 (parse no_numbers 5 cut_text)
parse-Ended_example = parse-Ended no_numbers 5 cut_text no_numbers-FindsInside (omega arith)

-- `{"k":["\"",[]]}`, with a comma behind it.
abbrev quote_doc : Doc
quote_doc =
    entries (field (107 ∷ []) (items (cons (text (34 ∷ [])) (cons (items nil) nil))) no_fields)

quote_doc-length : length (write quote_doc) ≤ 15
unfolding write escape escape_char escape_code comma quote comma_fields
quote_doc-length = omega arith

parse-write_example :
    parse no_numbers 15 (write quote_doc ++ 44 ∷ [])
    ≡ done (object quote_doc, length (write quote_doc))
parse-write_example = parse-write no_numbers quote_doc 15 (44 ∷ []) quote_doc-length
