-- ===== src/Prelude/Orders.antt =====
-- The order of pairs, by which Python sorts tuples.
use g_halo.Prelude.Classes.{Eq, Ord, pair_le, eq_of_==, ne_of_==, ==_false_sym, ◌==◌}
use g_halo.Prelude.Tests.{Bool-cases}
use mathlib.Core.Path.{◌≡◌, refl, ap₂, sym, subst, ◌∙◌}
use mathlib.Core.Logic.{◌≢◌, ◌⊎◌, inl, inr}
use mathlib.Core.Bool.{true, false}

-- The first is the less, or they are equal and what follows decides.
abbrev pub Less {ℓ} : {A : Type ℓ} ⦃o : Ord A⦄ → A → A → Type 0 → Type ℓ
Less ⦃o = o⦄ a b later = ((o.le a b ≡ true) × (a ≢ b)) ⊎ ((a ≡ b) × later)

module _ {ℓ κ} {A : Type ℓ} {B : Type κ} ⦃e : Eq A⦄ ⦃o : Ord A⦄ ⦃p : Ord B⦄ where
  pair_le_same : (a c : A) (b d : B) → a ≡ c → pair_le (a, b) (c, d) ≡ p.le b d
  pair_le_same a c b d h = rw ((e.beq_iff a c).1 h) refl

  pair_le_other : (a c : A) (b d : B) → (a == c) ≡ false → pair_le (a, b) (c, d) ≡ o.le a c
  pair_le_other a c b d h = rw h refl

  pub pair_le_total : (x y : A × B) → (pair_le x y ≡ true) ⊎ (pair_le y x ≡ true)
  pair_le_total (a, b) (c, d) = elim (Bool-cases (a == c)) [
    | inl h ↦
        let same = eq_of_== a c h in
        rw (pair_le_same a c b d same, pair_le_same c a d b (sym same)) (p.le_total b d)
    | inr h ↦
        rw (pair_le_other a c b d h, pair_le_other c a d b (==_false_sym a c h)) (o.le_total a c)
  ]

  pub pair_le_antisym : (x y : A × B) → pair_le x y ≡ true → pair_le y x ≡ true → x ≡ y
  pair_le_antisym (a, b) (c, d) h k = elim (Bool-cases (a == c)) [
    | inl t ↦
        let same = eq_of_== a c t in
        ap₂ (λ x y. (x, y)) same
          (p.le_antisym b d (sym (pair_le_same a c b d same) ∙ h)
            (sym (pair_le_same c a d b (sym same)) ∙ k))
    | inr t ↦ absurd (
        ne_of_== a c t (
          o.le_antisym a c (sym (pair_le_other a c b d t) ∙ h)
            (sym (pair_le_other c a d b (==_false_sym a c t)) ∙ k)))
  ]

  -- Two first components in order, and the second ones in order where the first are equal.
  pair_le_intro :
      (a c : A) (b d : B)
      → o.le a c ≡ true
      → (a ≡ c → p.le b d ≡ true)
      → pair_le (a, b) (c, d) ≡ true
  pair_le_intro a c b d h k = elim (Bool-cases (a == c)) [
    | inl t ↦ pair_le_same a c b d (eq_of_== a c t) ∙ k (eq_of_== a c t)
    | inr t ↦ pair_le_other a c b d t ∙ h
  ]

  pair_le_first : (a c : A) (b d : B) → pair_le (a, b) (c, d) ≡ true → o.le a c ≡ true
  pair_le_first a c b d h = elim (Bool-cases (a == c)) [
    | inl t ↦
        subst (λ x. o.le a x ≡ true) (eq_of_== a c t)
          (elim (o.le_total a a) [ inl k ↦ k | inr k ↦ k ])
    | inr t ↦ sym (pair_le_other a c b d t) ∙ h
  ]

  pub pair_le-Less :
      {later : Type 0} (x y : A × B)
      → pair_le x y ≡ true
      → (p.le x.1 y.1 ≡ true → later)
      → Less x.0 y.0 later
  pair_le-Less (a, b) (c, d) h k = elim (Bool-cases (a == c)) [
    | inl t ↦ let same = eq_of_== a c t in inr (same, k (sym (pair_le_same a c b d same) ∙ h))
    | inr t ↦ inl (sym (pair_le_other a c b d t) ∙ h, ne_of_== a c t)
  ]

  pub pair_le_trans : (x y z : A × B) → pair_le x y ≡ true → pair_le y z ≡ true → pair_le x z ≡ true
  pair_le_trans (a, b) (c, d) (x, y) h k =
      let ac = pair_le_first a c b d h in
      let cx = pair_le_first c x d y k in
      pair_le_intro a x b y (o.le_trans a c x ac cx) (λ ax.
        let same : a ≡ c = o.le_antisym a c ac (subst (λ v. o.le c v ≡ true) (sym ax) cx) in
        p.le_trans b d y (sym (pair_le_same a c b d same) ∙ h)
          (sym (pair_le_same c x d y (sym same ∙ ax)) ∙ k))

  instance abbrev pub pair_ord : Ord (A × B)
  pair_ord = record {
    le = pair_le;
    le_total = pair_le_total;
    le_trans = pair_le_trans;
    le_antisym = pair_le_antisym;
  }
