-- ===== src/Templates/Tests.antt =====
-- Concrete runs of template.h.
use c_study.Templates.{
  factorial, fibonacci, sum, CxxType, type_at, main_output, int_type, double_type, char_type,
}
use c_study.Templates.Select.{Selects, type_at-Selects}
use c_study.Prelude.{List, ◌≡◌, refl, some, none, ◌∷◌, []}
use c_study.Prelude.Int.{pos, negsuc, ◌+ℤ◌, ◌*ℤ◌}

prints : main_output ≡ some (pos 15, pos 5, double_type)
unfolding main_output sum fibonacci type_at ◌+ℤ◌
prints = refl

factorial_12 : factorial 900 (pos 12) ≡ some (pos 479001600)
unfolding factorial ◌*ℤ◌
factorial_12 = refl

factorial_13 : factorial 900 (pos 13) ≡ none
unfolding factorial ◌*ℤ◌
factorial_13 = refl

-- The whole sum fits an `int`, the sum of its last two does not.
sum_overflow : sum (negsuc 9 ∷ pos 2147483647 ∷ pos 1 ∷ []) ≡ none
unfolding sum ◌+ℤ◌
sum_overflow = refl

abbrev three_types : List CxxType
three_types = int_type ∷ double_type ∷ char_type ∷ []

type_at-Selects_example : Selects 900 three_types 1 (type_at 900 three_types 1)
type_at-Selects_example = type_at-Selects 900 three_types 1
