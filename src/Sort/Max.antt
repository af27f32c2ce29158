-- ===== src/Sort/Max.antt =====
-- Python's `max` and `min` of a nonempty sequence: the first of the greatest, or least, elements.
-- The order is a section's parameter, as a key function gives it.
use g_halo.Prelude.{
  Bool, true, false, List, [], ◌∷◌, ◌≡◌, refl, Occurs, sym, subst, ◌⊎◌, inl, inr, Bool-cases,
  if◌then◌else◌,
}

module _ {ℓ} {A : Type ℓ} (le : A → A → Bool) where
  -- a later element takes the place of the best one only if it is strictly greater
  unfoldable pub max_by : A → List A → A
  max_by best [] = best
  max_by best (x ∷ xs) = max_by (if le x best then best else x) xs

  -- every element of the list is at most `a`
  abbrev pub IsAbove : A → List A → Type 0
  IsAbove a [] = Unit
  IsAbove a (x ∷ xs) = (le x a ≡ true) × IsAbove a xs

  pub max_by-Occurs : (best : A) (xs : List A) → Occurs (max_by best xs) (best ∷ xs)
  unfolding max_by
  max_by-Occurs best [] = inl refl
  max_by-Occurs best (x ∷ xs) = elim (Bool-cases (le x best)) [
    | inl h ↦
        let e : max_by best (x ∷ xs) ≡ max_by best xs = rw h in
        subst (λ m. Occurs m (best ∷ x ∷ xs)) (sym e)
          (elim (max_by-Occurs best xs) [ inl e ↦ inl e | inr o ↦ inr (inr o) ])
    | inr h ↦
        let e : max_by best (x ∷ xs) ≡ max_by x xs = rw h in
        subst (λ m. Occurs m (best ∷ x ∷ xs)) (sym e) (inr (max_by-Occurs x xs))
  ]

module _ {ℓ} {A : Type ℓ} (le : A → A → Bool)
    (total : (a b : A) → (le a b ≡ true) ⊎ (le b a ≡ true))
    (trans : (a b c : A) → le a b ≡ true → le b c ≡ true → le a c ≡ true) where
  pub le_self : (a : A) → le a a ≡ true
  le_self a = elim (total a a) [ inl h ↦ h | inr h ↦ h ]

  le_max_by : (best : A) (xs : List A) → le best (max_by le best xs) ≡ true
  unfolding max_by
  le_max_by best [] = le_self best
  le_max_by best (x ∷ xs) = elim (Bool-cases (le x best)) [
    | inl h ↦ rw h (le_max_by best xs)
    | inr h ↦
        let k : le best x ≡ true = elim (total best x) [ inl q ↦ q | inr q ↦ cc ] in
        rw h (trans best x _ k (le_max_by x xs))
  ]

  max_by_stay :
      (best x : A) (xs : List A) → le x best ≡ true → max_by le best (x ∷ xs) ≡ max_by le best xs
  unfolding max_by
  max_by_stay best x xs h = rw h

  max_by_move :
      (best x : A) (xs : List A) → le x best ≡ false → max_by le best (x ∷ xs) ≡ max_by le x xs
  unfolding max_by
  max_by_move best x xs h = rw h

  -- `max` is at least its starting element and every other one.
  pub max_by-IsAbove : (best : A) (xs : List A) → IsAbove le (max_by le best xs) (best ∷ xs)
  max_by-IsAbove best [] = (le_max_by best [], tt)
  max_by-IsAbove best (x ∷ xs) = elim (Bool-cases (le x best)) [
    | inl h ↦
        let ih = max_by-IsAbove best xs in
        subst (λ m. IsAbove le m (best ∷ x ∷ xs)) (sym (max_by_stay best x xs h))
          (ih.0, (trans x best _ h ih.0, ih.1))
    | inr h ↦
        let ih = max_by-IsAbove x xs in
        let k : le best x ≡ true = elim (total best x) [ inl q ↦ q | inr q ↦ cc ] in
        subst (λ m. IsAbove le m (best ∷ x ∷ xs)) (sym (max_by_move best x xs h))
          (trans best x _ k ih.0, (ih.0, ih.1))
  ]
