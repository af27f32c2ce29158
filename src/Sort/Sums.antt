-- ===== src/Sort/Sums.antt =====
-- Sums over the elements of a list, which sorting keeps.
use g_halo.Dict.{append_to, adjust, Dict}
use g_halo.Sort.{insert_by, sort_by}
use g_halo.Prelude.{
  ℕ, List, Eq, ◌++◌, ◌+◌, ◌≡◌, Bool, ◌∷◌, arith, ap₂, ◌∙◌, [], ap, refl, Bool-cases, ◌==◌, inl, inr,
}

module _ {ℓ} {A : Type ℓ} where
  abbrev pub sum_over : (A → ℕ) → List A → ℕ
  sum_over g [] = 0
  sum_over g (x ∷ xs) = g x + sum_over g xs

  pub sum_over-append :
      (g : A → ℕ) (xs ys : List A) → sum_over g (xs ++ ys) ≡ sum_over g xs + sum_over g ys
  sum_over-append g [] ys = omega arith
  sum_over-append g (x ∷ xs) ys = omega (arith, sum_over-append g xs ys)

  pub sum_over_add :
      (g h : A → ℕ) (xs : List A) → sum_over (λ x. g x + h x) xs ≡ sum_over g xs + sum_over h xs
  sum_over_add g h [] = omega arith
  sum_over_add g h (x ∷ xs) = omega (arith, sum_over_add g h xs)

  pub sum_over_same :
      (g h : A → ℕ) (xs : List A) → ((x : A) → g x ≡ h x) → sum_over g xs ≡ sum_over h xs
  sum_over_same g h [] same = refl
  sum_over_same g h (x ∷ xs) same = ap₂ ◌+◌ (same x) (sum_over_same g h xs same)

  sum_over-insert_by :
      (le : A → A → Bool) (g : A → ℕ) (x : A) (xs : List A)
      → sum_over g (insert_by le x xs) ≡ g x + sum_over g xs
  unfolding insert_by
  sum_over-insert_by le g x [] = refl
  sum_over-insert_by le g x (y ∷ ys) = ground (arith, sum_over-insert_by le g x ys)

  pub sum_over-sort_by :
      (le : A → A → Bool) (g : A → ℕ) (xs : List A) → sum_over g (sort_by le xs) ≡ sum_over g xs
  unfolding sort_by
  sum_over-sort_by le g [] = refl
  sum_over-sort_by le g (x ∷ xs) =
      sum_over-insert_by le g x (sort_by le xs) ∙ ap (λ n. g x + n) (sum_over-sort_by le g xs)

module _ {ℓ κ} {K : Type ℓ} {V : Type κ} ⦃e : Eq K⦄ where
  -- What a value that is appended to a group adds.
  pub sum_over-append_to :
      (g : V → ℕ) (k : K) (v : V) (d : Dict K (List V))
      → sum_over (λ entry. sum_over g entry.1) (append_to k v d)
        ≡ g v + sum_over (λ entry. sum_over g entry.1) d
  unfolding append_to adjust
  sum_over-append_to g k v [] = omega arith
  sum_over-append_to g k v ((j, l) ∷ d) =
      let longer = sum_over-append g l (v ∷ []) in
      let ih = sum_over-append_to g k v d in
      elim (Bool-cases (j == k)) [
        | inl h ↦ rw h (omega (arith, longer))
        | inr h ↦ rw h (omega (arith, ih))
      ]
