-- ===== src/Sort.antt =====
-- Python's `sorted` and `max` over a key's order. `sorted` is stable: an element is put before the
-- equal ones that stood behind it.
pub mod Laws
pub mod Max
pub mod Sums
use g_halo.Prelude.{Bool, List, [], ◌∷◌, if◌then◌else◌}

module _ {ℓ} {A : Type ℓ} (le : A → A → Bool) where
  unfoldable pub insert_by : A → List A → List A
  insert_by x [] = x ∷ []
  insert_by x (y ∷ ys) = if le x y then x ∷ y ∷ ys else y ∷ insert_by x ys

  unfoldable pub sort_by : List A → List A
  unfolding insert_by
  sort_by [] = []
  sort_by (x ∷ xs) = insert_by x (sort_by xs)
