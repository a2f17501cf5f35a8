-- ===== src/Json/Ended.antt =====
-- `parse` of Jsontask.cpp ends on every text, and eats no more than there is.
use c_study.Json.{
  Outside, JsonObject, Parsed, skip_blanks, blanks_first, parse_number, try_parse_num, raw,
  list_loop, dict_loop, parse_token, parse, starts_number, empty_list, empty_dict,
}
use c_study.Prelude.{
  ℕ, zero, suc, ◌≡◌, ◌≤◌, ◌<◌, true, List, [], ◌∷◌, some, length, ◌==◌, arith, Option-cases, inl,
  inr,
}
use c_study.Json.Loops.{
  Ended, Ended-bind, Ended-test, skip_blanks-length, string_loop-le, EndsBelow, list_loop-Ended,
  dict_loop-Ended,
}

-- The first match of the pattern is a part of the text.
abbrev pub FindsInside : Outside → Type 0
FindsInside o = (text str : List ℕ) → o.regex_search text ≡ some str → length str ≤ length text

parse_number-le :
    (o : Outside) → FindsInside o → (json : List ℕ) → (parse_number o json).1 ≤ length json
unfolding parse_number
parse_number-le o finds json = elim (Option-cases (o.regex_search json)) [
  | inl e ↦ rw (parse_number, e) (omega arith)
  | inr (str, e) ↦
      let fits = finds json str e in
      elim (Option-cases (try_parse_num (o.int_from_chars str))) [
        | inr (num, f) ↦ rw (parse_number, e, f) (omega arith)
        | inl f ↦ elim (Option-cases (try_parse_num (o.double_from_chars str))) [
          | inr (num, g) ↦ rw (parse_number, e, f, g) (omega arith)
          | inl g ↦ rw (parse_number, e, f, g) (omega arith)
        ]
      ]
]

parse_token-Ended :
    (o : Outside) (p : List ℕ → Parsed (JsonObject × ℕ)) (c : ℕ) (text : List ℕ)
    → FindsInside o
    → EndsBelow (suc (length text)) p
    → Ended (suc (length text)) (parse_token o p c text)
unfolding parse_token
parse_token-Ended o p c text finds inside =
    let m = suc (length text) in
    Ended-test m (starts_number c) _ _ (λ e. parse_number-le o finds (c ∷ text))
      λ e.
        Ended-test m (c == 34) _ _ (λ f. let fits = string_loop-le raw text 1 [] in omega arith)
          λ f.
            Ended-test m (c == 91) _ _
              (λ g.
                Ended-bind m m (list_loop p m text 1 empty_list) _
                  (list_loop-Ended p m m m text 1 empty_list inside (omega arith) (omega arith)
                    (omega arith))
                  λ res i fits. fits)
              λ g.
                Ended-test m (c == 123) _ _
                  (λ h.
                    Ended-bind m m (dict_loop p m text 1 empty_dict) _
                      (dict_loop-Ended p m m m text 1 empty_dict inside (omega arith) (omega arith)
                        (omega arith))
                      λ res i fits. fits)
                  λ h. omega arith

blanks_first-positive : (off : ℕ) (rest : List ℕ) → blanks_first off rest ≡ true → 0 < off
unfolding blanks_first
blanks_first-positive off [] h = ground arith
blanks_first-positive off (d ∷ rest) h = ground arith

-- With more fuel than the text has characters, `parse` does not run out of fuel: it gives an object and eats no
-- more characters than there are, or it reads behind the end. What the regular expression finds is part of the
-- text that it searches.
pub parse-Ended :
    (o : Outside) (fuel : ℕ) (json : List ℕ)
    → FindsInside o
    → length json < fuel
    → Ended (length json) (parse o fuel json)
unfolding parse
parse-Ended o zero json finds enough = omega arith
parse-Ended o (suc fuel) [] finds enough = omega arith
parse-Ended o (suc fuel) (c ∷ text) finds enough =
    let off = (skip_blanks (c ∷ text)).0 in
    let rest = (skip_blanks (c ∷ text)).1 in
    let sum = skip_blanks-length (c ∷ text) in
    Ended-test (suc (length text)) (blanks_first off rest) _ _
      (λ e.
        let some_off = blanks_first-positive off rest e in
        Ended-bind (suc (length text)) (length rest) (parse o fuel rest) _
          (parse-Ended o fuel rest finds (omega arith)) λ obj eaten fits. omega arith)
      λ e.
        parse_token-Ended o (parse o fuel) c text finds
          λ t shorter. parse-Ended o fuel t finds (omega arith)
