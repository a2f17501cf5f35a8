-- ===== src/Log/Format.antt =====
-- basic/final1/log.h: what `formatMessage` puts where.
use c_study.Prelude.{
  ℕ, zero, suc, ◌<◌, ◌≡◌, refl, ap, ◌∙◌, List, [], ◌∷◌, ◌++◌, length, length-append, append_assoc,
  none, some, false, ◌&&◌, ◌==◌, if◌then◌else◌, Bool-cases, inl, inr, ◌⊎◌, subst, sym, Bool, true,
  arith,
}
use mathlib.Core.List.{flatten}
use c_study.Log.{
  after_char, find_placeholder, put_rest, next_arg, in_front, format_loop, format_message,
}

-- No `{}` in the text.
abbrev pub IsPlain : List ℕ → Type 0
IsPlain [] = Unit
IsPlain (a ∷ []) = Unit
IsPlain (a ∷ b ∷ text) = ((a == 123) && (b == 125) ≡ false) × IsPlain (b ∷ text)

abbrev pub ArePlain : List (List ℕ) → Type 0
ArePlain [] = Unit
ArePlain (p ∷ ps) = IsPlain p × ArePlain ps

-- The texts with `{}` between them.
unfoldable pub join : List ℕ → List (List ℕ) → List ℕ
join p [] = p
join p (q ∷ qs) = p ++ 123 ∷ 125 ∷ join q qs

-- The texts with the arguments between them: `{}` where there are too few, and the surplus at the end.
unfoldable pub interleave : List ℕ → List (List ℕ) → List (List ℕ) → List ℕ
interleave p [] args = p ++ flatten args
interleave p (q ∷ qs) [] = p ++ 123 ∷ 125 ∷ interleave q qs []
interleave p (q ∷ qs) (arg ∷ args) = p ++ (arg ++ interleave q qs args)

put_rest-flatten : (args : List (List ℕ)) → put_rest args ≡ flatten args
unfolding put_rest flatten
put_rest-flatten [] = refl
put_rest-flatten (arg ∷ args) = ap (λ text. arg ++ text) (put_rest-flatten args)

find-plain : (p : List ℕ) → IsPlain p → find_placeholder p ≡ none
unfolding find_placeholder after_char
find-plain [] h = refl
find-plain (a ∷ []) h = refl
find-plain (a ∷ b ∷ p) h = rw (h.0, if◌then◌else◌, find-plain (b ∷ p) h.1) refl

find-join :
    (p text : List ℕ) → IsPlain p → find_placeholder (p ++ 123 ∷ 125 ∷ text) ≡ some (p, text)
unfolding find_placeholder after_char
find-join [] text h = refl
find-join (a ∷ []) text h = elim (Bool-cases (a == 123)) [
  | inl e ↦ rw (e) refl
  | inr e ↦ rw (e) refl
]
find-join (a ∷ b ∷ p) text h = rw (h.0, if◌then◌else◌, find-join (b ∷ p) text h.1) refl

format_loop-found :
    (fuel : ℕ) (text before after : List ℕ) (args : List (List ℕ))
    → find_placeholder text ≡ some (before, after)
    → format_loop (suc fuel) text args
      ≡ in_front (before ++ (next_arg args).0) (format_loop fuel after (next_arg args).1)
unfolding format_loop
format_loop-found fuel text before after args e = rw (format_loop, e) refl

join-shorter :
    (fuel : ℕ) (p q : List ℕ) (qs : List (List ℕ))
    → length (join p (q ∷ qs)) < suc fuel
    → length (join q qs) < fuel
unfolding join
join-shorter fuel p q qs few = omega (arith, length-append p (123 ∷ 125 ∷ join q qs))

next_arg-interleave :
    (p q : List ℕ) (qs args : List (List ℕ))
    → (p ++ (next_arg args).0) ++ interleave q qs (next_arg args).1 ≡ interleave p (q ∷ qs) args
unfolding next_arg interleave
next_arg-interleave p q qs [] = append_assoc p (123 ∷ 125 ∷ []) (interleave q qs [])
next_arg-interleave p q qs (arg ∷ args) = append_assoc p arg (interleave q qs args)

in_front-interleave :
    (p q : List ℕ) (qs args : List (List ℕ))
    → in_front (p ++ (next_arg args).0) (some (interleave q qs (next_arg args).1))
      ≡ some (interleave p (q ∷ qs) args)
unfolding in_front
in_front-interleave p q qs args = ap some (next_arg-interleave p q qs args)

format_loop-plain :
    (fuel : ℕ) (p : List ℕ) (args : List (List ℕ))
    → find_placeholder p ≡ none
    → format_loop (suc fuel) p args ≡ some (interleave p [] args)
unfolding format_loop interleave
format_loop-plain fuel p args e =
    rw (format_loop, e) (ap (λ text. some (p ++ text)) (put_rest-flatten args))

format_loop-interleave :
    (fuel : ℕ) (p : List ℕ) (qs args : List (List ℕ))
    → IsPlain p
    → ArePlain qs
    → length (join p qs) < fuel
    → format_loop fuel (join p qs) args ≡ some (interleave p qs args)
unfolding join
format_loop-interleave zero p qs args h hs few = absurd (omega arith)
format_loop-interleave (suc fuel) p [] args h hs few =
    format_loop-plain fuel p args (find-plain p h)
format_loop-interleave (suc fuel) p (q ∷ qs) args h hs few =
    format_loop-found fuel (join p (q ∷ qs)) p (join q qs) args (find-join p (join q qs) h)
    ∙ ap (in_front (p ++ (next_arg args).0)) (
        format_loop-interleave fuel q qs (next_arg args).1 hs.0 hs.1 (join-shorter fuel p q qs few))
    ∙ in_front-interleave p q qs args

-- For a format that consists of texts with `{}` between them, where no text contains `{}`, `formatMessage`
-- ends, and its result is the time in brackets followed by the texts with the arguments between them
-- in order. A placeholder with no argument stays, and surplus arguments come at the end.
format_message-interleave :
    (now p : List ℕ) (qs args : List (List ℕ))
    → IsPlain p
    → ArePlain qs
    → format_message now (join p qs) args
      ≡ some ((32 ∷ 91 ∷ now ++ 93 ∷ 32 ∷ []) ++ interleave p qs args)
unfolding format_message in_front
format_message-interleave now p qs args h hs =
    rw (format_loop-interleave (suc (length (join p qs))) p qs args h hs (omega arith)) refl

unfoldable add_char :
    Bool → ℕ → List ℕ × List (List ℕ) → List ℕ × List (List ℕ) → List ℕ × List (List ℕ)
add_char true a later behind = ([], behind.0 ∷ behind.1)
add_char false a later behind = (a ∷ later.0, later.1)

-- The texts between the placeholders of a format: the first one, and the others.
unfoldable texts : List ℕ → List ℕ × List (List ℕ)
texts [] = ([], [])
texts (a ∷ []) = (a ∷ [], [])
texts (a ∷ b ∷ format) = add_char ((a == 123) && (b == 125)) a (texts (b ∷ format)) (texts format)

join-cons : (a : ℕ) (p : List ℕ) (ps : List (List ℕ)) → join (a ∷ p) ps ≡ a ∷ join p ps
unfolding join
join-cons a p [] = refl
join-cons a p (q ∷ qs) = refl

placeholder-chars : (a b : ℕ) → (a == 123) && (b == 125) ≡ true → (a ≡ 123) × (b ≡ 125)
placeholder-chars a b e = ground arith

join-texts : (format : List ℕ) → join (texts format).0 (texts format).1 ≡ format
unfolding texts add_char join
join-texts [] = refl
join-texts (a ∷ []) = refl
join-texts (a ∷ b ∷ format) = elim (Bool-cases ((a == 123) && (b == 125))) [
  | inl e ↦ let (ea, eb) = placeholder-chars a b e in rw (e, join-texts format, ea, eb) refl
  | inr e ↦ rw (e) (rw (join-cons, join-texts (b ∷ format)) refl)
]

-- The first text is empty or starts as the format does.
texts-head :
    (b : ℕ) (format : List ℕ)
    → ((texts (b ∷ format)).0 ≡ []) ⊎ ((p : List ℕ) × ((texts (b ∷ format)).0 ≡ b ∷ p))
unfolding texts add_char
texts-head b [] = inr ([], refl)
texts-head b (c ∷ format) = elim (Bool-cases ((b == 123) && (c == 125))) [
  | inl e ↦ inl (rw (e) refl)
  | inr e ↦ inr ((texts (c ∷ format)).0, rw (e) refl)
]

IsPlain-cons :
    (a b : ℕ) (p : List ℕ)
    → (p ≡ []) ⊎ ((q : List ℕ) × (p ≡ b ∷ q))
    → (a == 123) && (b == 125) ≡ false
    → IsPlain p
    → IsPlain (a ∷ p)
IsPlain-cons a b p (inl e) apart h = subst (λ p. IsPlain (a ∷ p)) (sym e) tt
IsPlain-cons a b p (inr (q, e)) apart h =
    subst (λ p. IsPlain (a ∷ p)) (sym e) (apart, subst IsPlain e h)

texts-ArePlain : (format : List ℕ) → IsPlain (texts format).0 × ArePlain (texts format).1
unfolding texts add_char
texts-ArePlain [] = (tt, tt)
texts-ArePlain (a ∷ []) = (tt, tt)
texts-ArePlain (a ∷ b ∷ format) = elim (Bool-cases ((a == 123) && (b == 125))) [
  | inl e ↦ rw (e) (tt, texts-ArePlain format)
  | inr e ↦ rw (e) (
    IsPlain-cons a b (texts (b ∷ format)).0 (texts-head b format) e (texts-ArePlain (b ∷ format)).0,
    (texts-ArePlain (b ∷ format)).1,
  )
]

-- For every format and all arguments `formatMessage` ends. The format consists of texts without `{}`, with
-- `{}` between them, and the result is the time in brackets followed by those texts with the
-- arguments between them in order. A placeholder with no argument stays, and arguments with no
-- placeholder come at the end.
pub format_message-texts :
    (now format : List ℕ) (args : List (List ℕ))
    → (p : List ℕ) × (qs : List (List ℕ)) × ArePlain (p ∷ qs)
      × (join p qs ≡ format)
      × (format_message now format args
          ≡ some ((32 ∷ 91 ∷ now ++ 93 ∷ 32 ∷ []) ++ interleave p qs args))
format_message-texts now format args =
    let (plain, plains) = texts-ArePlain format in
    (
      (texts format).0,
      (texts format).1,
      (plain, plains),
      join-texts format,
      ap (λ f. format_message now f args) (sym (join-texts format))
          ∙ format_message-interleave now _ _ args plain plains,
    )
