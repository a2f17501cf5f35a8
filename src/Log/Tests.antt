-- ===== src/Log/Tests.antt =====
-- basic/final1/log.h: a format with one placeholder, and a logger that shuts down after one message.
use c_study.Prelude.{ℕ, ◌≡◌, refl, List, [], ◌∷◌, ◌++◌, some, true}
use mathlib.Core.List.{flatten}
use c_study.Log.{
  format_message, LogQueue, push, pop, shutdown, Reaches, start, pushed, popped, closed,
}
use c_study.Log.Format.{join, interleave, format_message-texts, ArePlain}
use c_study.Log.Order.{Complete, Reaches-Complete}

-- `a{}b` with two arguments, at time 7.
format_message-texts_example :
    (p : List ℕ) × (qs : List (List ℕ)) × ArePlain (p ∷ qs)
    × (join p qs ≡ 97 ∷ 123 ∷ 125 ∷ 98 ∷ [])
    × (format_message (55 ∷ []) (97 ∷ 123 ∷ 125 ∷ 98 ∷ []) ((49 ∷ []) ∷ (50 ∷ []) ∷ [])
        ≡ some ((32 ∷ 91 ∷ 55 ∷ 93 ∷ 32 ∷ []) ++ interleave p qs ((49 ∷ []) ∷ (50 ∷ []) ∷ [])))
format_message-texts_example =
    format_message-texts (55 ∷ []) (97 ∷ 123 ∷ 125 ∷ 98 ∷ []) ((49 ∷ []) ∷ (50 ∷ []) ∷ [])

-- The second argument is put at the end: `a1b2`.
one_too_many :
    interleave (97 ∷ []) ((98 ∷ []) ∷ []) ((49 ∷ []) ∷ (50 ∷ []) ∷ []) ≡ 97 ∷ 49 ∷ 98 ∷ 50 ∷ []
unfolding interleave flatten
one_too_many = refl

abbrev all_written : LogQueue
all_written = record { queue = []; is_shutdown = true; written = (1 ∷ []) ∷ []; ended = true }

all_written-Reaches : Reaches ((1 ∷ []) ∷ []) all_written
unfolding push pop shutdown
all_written-Reaches = popped (popped (closed (pushed (1 ∷ []) start refl)) refl refl) refl refl

Reaches-Complete_example : Complete ((1 ∷ []) ∷ []) all_written
Reaches-Complete_example = Reaches-Complete ((1 ∷ []) ∷ []) all_written all_written-Reaches
