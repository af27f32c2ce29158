-- ===== src/Prelude/Partial.antt =====
-- `do` blocks for computations that may find nothing.
use mathlib.Core.Option.{Option, none, some}

module _ {ℓ κ} {A : Type ℓ} {B : Type κ} where
  infixl 5 ◌>>=◌
  abbrev pub ◌>>=◌ : Option A → (A → Option B) → Option B
  none >>= f = none
  some a >>= f = f a
