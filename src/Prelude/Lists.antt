-- ===== src/Prelude/Lists.antt =====
-- Lists measured and indexed by native numbers, under the library's names.
use Prim.Native.Nat.{ℕ, zero, suc, ◌+◌, ◌-◌}
use mathlib.Core.Path.{◌≡◌, refl, ap, sym, subst}
use mathlib.Core.Logic.{◌⊎◌, inl, inr}
use mathlib.Core.List.{List, [], ◌∷◌, ◌++◌, map}
use mathlib.Core.Option.{Option, none, some}
use native.Mathlib.Omega.{arith}

module _ {ℓ} {A : Type ℓ} where
  abbrev pub length : List A → ℕ
  length [] = 0
  length (x ∷ xs) = suc (length xs)

  abbrev pub get_elem? : List A → ℕ → Option A
  get_elem? [] i = none
  get_elem? (x ∷ xs) zero = some x
  get_elem? (x ∷ xs) (suc i) = get_elem? xs i

  pub length-append : (xs ys : List A) → length (xs ++ ys) ≡ length xs + length ys
  length-append [] ys = omega arith
  length-append (x ∷ xs) ys = omega (arith, length-append xs ys)

module _ {ℓ} {A : Type ℓ} where
  abbrev pub take : ℕ → List A → List A
  take zero xs = []
  take (suc n) [] = []
  take (suc n) (x ∷ xs) = x ∷ take n xs

  abbrev pub drop : ℕ → List A → List A
  drop zero xs = xs
  drop (suc n) [] = []
  drop (suc n) (x ∷ xs) = drop n xs

  pub take-append-drop : (n : ℕ) (xs : List A) → take n xs ++ drop n xs ≡ xs
  take-append-drop zero xs = refl
  take-append-drop (suc n) [] = refl
  take-append-drop (suc n) (x ∷ xs) = rw (take-append-drop n xs)

  pub length-drop : (n : ℕ) (xs : List A) → length (drop n xs) ≡ length xs - n
  length-drop zero xs = omega arith
  length-drop (suc n) [] = omega arith
  length-drop (suc n) (x ∷ xs) = omega (arith, length-drop n xs)

  pub length-map {κ} : {B : Type κ} (xs : List A) (f : A → B) → length (map f xs) ≡ length xs
  length-map [] f = refl
  length-map (x ∷ xs) f = ap suc (length-map xs f)

-- `a` stands somewhere in the list.
abbrev pub Occurs {ℓ} : {A : Type ℓ} → A → List A → Type ℓ
Occurs a [] = (a ≡ a) × ⊥
Occurs a (x ∷ xs) = (a ≡ x) ⊎ Occurs a xs

-- Every element has the property.
abbrev pub All {ℓ κ} : {T : Type ℓ} (property : T → Type κ) (list : List T) → Type κ
All property [] = Unit
All property (first ∷ others) = property first × All property others

module _ {ℓ} {A : Type ℓ} where
  pub Occurs-append_left : (a : A) (xs ys : List A) → Occurs a xs → Occurs a (xs ++ ys)
  Occurs-append_left a [] ys o = absurd o.1
  Occurs-append_left a (x ∷ xs) ys (inl e) = inl e
  Occurs-append_left a (x ∷ xs) ys (inr o) = inr (Occurs-append_left a xs ys o)

  pub Occurs-append_right : (a : A) (xs ys : List A) → Occurs a ys → Occurs a (xs ++ ys)
  Occurs-append_right a [] ys o = o
  Occurs-append_right a (x ∷ xs) ys o = inr (Occurs-append_right a xs ys o)

  pub Occurs-append_cases :
      (a : A) (xs ys : List A) → Occurs a (xs ++ ys) → Occurs a xs ⊎ Occurs a ys
  Occurs-append_cases a [] ys o = inr o
  Occurs-append_cases a (x ∷ xs) ys (inl e) = inl (inl e)
  Occurs-append_cases a (x ∷ xs) ys (inr o) = elim (Occurs-append_cases a xs ys o) [
    | inl p ↦ inl (inr p)
    | inr p ↦ inr p
  ]

  pub All-of_Occurs {κ} : {P : A → Type κ} (xs : List A) → ((a : A) → Occurs a xs → P a) → All P xs
  All-of_Occurs [] h = tt
  All-of_Occurs (x ∷ xs) h = (h x (inl refl), All-of_Occurs xs (λ a o. h a (inr o)))

  pub All-Occurs {κ} : (P : A → Type κ) (a : A) (xs : List A) → All P xs → Occurs a xs → P a
  All-Occurs P a [] h o = absurd o.1
  All-Occurs P a (x ∷ xs) h (inl e) = subst P (sym e) h.0
  All-Occurs P a (x ∷ xs) h (inr o) = All-Occurs P a xs h.1 o
