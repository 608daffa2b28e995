-- ===== src/Prelude/Options.antt =====
-- `do` blocks over options, where `none` is a panic or a missing value.
use mathlib.Core.Option.{Option, none, some}

infixl 5 ◌>>=◌
abbrev pub ◌>>=◌ {ℓ κ} : {A : Type ℓ} {B : Type κ} → Option A → (A → Option B) → Option B
none >>= k = none
some a >>= k = k a
