-- ===== src/Prelude/Options.antt =====
-- Sequencing of results that may be missing, for `do` blocks.
use c_study.Prelude.{Option, none, some}

infixl 5 ◌>>=◌
abbrev pub ◌>>=◌ {ℓ κ} : {A : Type ℓ} {B : Type κ} → Option A → (A → Option B) → Option B
none >>= f = none
some a >>= f = f a
