-- ===== src/Statistics.antt =====
-- `statistics.median` and `statistics.fmean`, over the float interface.
use g_halo.Prelude.{ℕ, ◌-◌, ◌/◌, ◌%◌, List, [], ◌∷◌, pos, length, nat_eq, ◌==◌, if◌then◌else◌}
use g_halo.Float.{Float}
use g_halo.Sort.{sort_by}

unfoldable pub nth {ℓ} : {A : Type ℓ} → A → List A → ℕ → A
nth default [] i = default
nth default (x ∷ xs) i = let rest = nth default xs (i - 1) in if i == 0 then x else rest

module _ {F : Type 0} ⦃f : Float F⦄ where
  -- of a nonempty list; the default of `nth` is not reached
  unfoldable pub median_of_sorted : List F → F
  unfolding nth
  median_of_sorted values =
      let n = length values in
      let high = nth (f.literal 0 1) values (n / 2) in
      let low = nth (f.literal 0 1) values (n / 2 - 1) in
      if n % 2 == 1 then high else f.fdiv (f.fadd low high) (f.literal 2 1)

  unfoldable pub median : List F → F
  unfolding median_of_sorted
  median values = median_of_sorted (sort_by f.fle values)

  unfoldable pub fmean : List F → F
  fmean values = f.fdiv (f.fsum values) (f.of_int (pos (length values)))
