-- ===== src/Sort/Laws.antt =====
-- `sorted` returns an ascending permutation of its argument.
use mathlib.Core.List.{Perm}
use mathlib.Core.List.Perm
use g_halo.Prelude.{
  suc, Bool, true, List, [], ◌∷◌, ◌≡◌, refl, ◌⊎◌, inl, inr, arith, Bool-cases, length, Occurs,
  false, subst,
}
use g_halo.Sort.{insert_by, sort_by}

-- `a` is not above any element of the list.
abbrev pub IsBelow {ℓ} : {A : Type ℓ} → (A → A → Bool) → A → List A → Type 0
IsBelow le a [] = Unit
IsBelow le a (x ∷ xs) = (le a x ≡ true) × IsBelow le a xs

abbrev pub IsSorted {ℓ} : {A : Type ℓ} → (A → A → Bool) → List A → Type 0
IsSorted le [] = Unit
IsSorted le (x ∷ xs) = IsBelow le x xs × IsSorted le xs

module _ {ℓ} {A : Type ℓ} (le : A → A → Bool) where
  pub insert_by-perm : (x : A) (l : List A) → Perm (insert_by le x l) (x ∷ l)
  unfolding insert_by
  insert_by-perm x [] = Perm.rfl
  insert_by-perm x (y ∷ ys) = elim (Bool-cases (le x y)) [
    | inl h ↦ rw h Perm.rfl
    | inr h ↦ rw h (Perm.trans (Perm.cons y (insert_by-perm x ys)) (Perm.swap x y ys))
  ]

  pub sort_by-perm : (l : List A) → Perm (sort_by le l) l
  unfolding sort_by
  sort_by-perm [] = Perm.rfl
  sort_by-perm (x ∷ xs) =
      Perm.trans (insert_by-perm x (sort_by le xs)) (Perm.cons x (sort_by-perm xs))

  length-insert_by : (x : A) (l : List A) → length (insert_by le x l) ≡ suc (length l)
  unfolding insert_by
  length-insert_by x [] = refl
  length-insert_by x (y ∷ ys) = ground (arith, length-insert_by x ys)

  pub length-sort_by : (l : List A) → length (sort_by le l) ≡ length l
  unfolding sort_by
  length-sort_by [] = refl
  length-sort_by (x ∷ xs) = cc (length-insert_by x (sort_by le xs), length-sort_by xs)

module _ {ℓ} {A : Type ℓ} (le : A → A → Bool) where
  Occurs-insert_by : (a x : A) (l : List A) → Occurs a (insert_by le x l) → Occurs a (x ∷ l)
  unfolding insert_by
  Occurs-insert_by a x [] o = o
  Occurs-insert_by a x (y ∷ ys) o = elim (Bool-cases (le x y)) [
    | inl h ↦ subst (Occurs a) (insert_front h) o
    | inr h ↦
        let o' : Occurs a (y ∷ insert_by le x ys) = subst (Occurs a) (insert_later h) o in
        elim o' [
          | inl e ↦ inr (inl e)
          | inr p ↦ elim (Occurs-insert_by a x ys p) [ inl e ↦ inl e | inr q ↦ inr (inr q) ]
        ]
  ]
    where
      insert_front : le x y ≡ true → insert_by le x (y ∷ ys) ≡ x ∷ y ∷ ys
      insert_front h = rw h

      insert_later : le x y ≡ false → insert_by le x (y ∷ ys) ≡ y ∷ insert_by le x ys
      insert_later h = rw h

  -- An element of the sorted list is one of the list.
  pub Occurs-sort_by : (a : A) (l : List A) → Occurs a (sort_by le l) → Occurs a l
  unfolding sort_by
  Occurs-sort_by a [] o = o
  Occurs-sort_by a (x ∷ xs) o = elim (Occurs-insert_by a x (sort_by le xs) o) [
    | inl e ↦ inl e
    | inr p ↦ inr (Occurs-sort_by a xs p)
  ]

module _ {ℓ} {A : Type ℓ} (le : A → A → Bool) where
  insert_by-Occurs : (a x : A) (l : List A) → Occurs a (x ∷ l) → Occurs a (insert_by le x l)
  unfolding insert_by
  insert_by-Occurs a x [] o = o
  insert_by-Occurs a x (y ∷ ys) o = elim (Bool-cases (le x y)) [
    | inl h ↦
        subst (Occurs a) {x = x ∷ y ∷ ys} {y = insert_by le x (y ∷ ys)} (rw (h, insert_by) refl) o
    | inr h ↦
        let later : Occurs a (y ∷ insert_by le x ys) = elim o [
          | inl e ↦ inr (insert_by-Occurs a x ys (inl e))
          | inr q ↦ elim q [ inl e ↦ inl e | inr r ↦ inr (insert_by-Occurs a x ys (inr r)) ]
        ] in
        subst (Occurs a) {x = y ∷ insert_by le x ys} {y = insert_by le x (y ∷ ys)}
          (rw (h, insert_by) refl) later
  ]

  -- An element of the list is one of the sorted list.
  pub sort_by-Occurs : (a : A) (l : List A) → Occurs a l → Occurs a (sort_by le l)
  unfolding sort_by
  sort_by-Occurs a [] o = o
  sort_by-Occurs a (x ∷ xs) o =
      insert_by-Occurs a x (sort_by le xs)
        (elim o [ inl e ↦ inl e | inr q ↦ inr (sort_by-Occurs a xs q) ])

module _ {ℓ} {A : Type ℓ} (le : A → A → Bool)
    (total : (a b : A) → (le a b ≡ true) ⊎ (le b a ≡ true))
    (trans : (a b c : A) → le a b ≡ true → le b c ≡ true → le a c ≡ true) where
  IsBelow-trans : (a b : A) (l : List A) → le a b ≡ true → IsBelow le b l → IsBelow le a l
  IsBelow-trans a b [] h k = tt
  IsBelow-trans a b (x ∷ xs) h k = (trans a b x h k.0, IsBelow-trans a b xs h k.1)

  IsBelow-insert_by :
      (a x : A) (l : List A) → le a x ≡ true → IsBelow le a l → IsBelow le a (insert_by le x l)
  unfolding insert_by
  IsBelow-insert_by a x [] h k = (h, tt)
  IsBelow-insert_by a x (y ∷ ys) h k = elim (Bool-cases (le x y)) [
    | inl p ↦ rw p (h, k)
    | inr p ↦ rw p (k.0, IsBelow-insert_by a x ys h k.1)
  ]

  insert_by-IsSorted : (x : A) (l : List A) → IsSorted le l → IsSorted le (insert_by le x l)
  unfolding insert_by
  insert_by-IsSorted x [] s = (tt, tt)
  insert_by-IsSorted x (y ∷ ys) s = elim (Bool-cases (le x y)) [
    | inl p ↦ rw p ((p, IsBelow-trans x y ys p s.0), s)
    | inr p ↦
        let q : le y x ≡ true = elim (total x y) [ inl q ↦ cc | inr q ↦ q ] in
        rw p (IsBelow-insert_by y x ys q s.0, insert_by-IsSorted x ys s.1)
  ]

  pub sort_by-IsSorted : (l : List A) → IsSorted le (sort_by le l)
  unfolding sort_by
  sort_by-IsSorted [] = tt
  sort_by-IsSorted (x ∷ xs) = insert_by-IsSorted x (sort_by le xs) (sort_by-IsSorted xs)
