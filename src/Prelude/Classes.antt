-- ===== src/Prelude/Classes.antt =====
-- The interfaces that the components share: Python's `==` and the order behind `sorted`.
use g_halo.Prelude.Tests.{leb, ◌==◌ as nat_beq, ==_iff, if◌then◌else◌}
use g_halo.Prelude.Int.{ℤ, beq_ℤ, beq_ℤ_iff, leb_ℤ, eq_of_parts}
use Prim.Native.Nat.{ℕ}
use mathlib.Core.Option.{Option, none, some}
use mathlib.Core.Path.{◌≡◌, refl, ap, ap₂}
use mathlib.Core.Logic.{◌↔◌, ◌⊎◌, inl, inr}
use mathlib.Core.Bool.{Bool, true, false, ◌&&◌}
use mathlib.Core.List.{List, [], ◌∷◌}
use native.Mathlib.Omega.{arith}

pub record Eq {ℓ} (T : Type ℓ) : Type ℓ where
  pub beq : (x y : T) → Bool
  pub beq_iff : (x y : T) → (beq x y ≡ true) ↔ (x ≡ y)

infix 50 ◌==◌
abbrev pub ◌==◌ {ℓ} : {T : Type ℓ} ⦃instance_of : Eq T⦄ (x y : T) → Bool
◌==◌ ⦃instance_of⦄ x y = instance_of.beq x y

module _ {ℓ} {A : Type ℓ} ⦃e : Eq A⦄ where
  pub ==_refl : (a : A) → (a == a) ≡ true
  ==_refl a = (e.beq_iff a a).1 refl

  pub eq_of_== : (a b : A) → (a == b) ≡ true → a ≡ b
  eq_of_== a b h = (e.beq_iff a b).0 h

  pub ne_of_== : (a b : A) → (a == b) ≡ false → ¬ (a ≡ b)
  ne_of_== a b h p = let q = (e.beq_iff a b).1 p in cc

  pub ==_false_sym : (a b : A) → (a == b) ≡ false → (b == a) ≡ false
  ==_false_sym a b h = ground (arith, e.beq_iff a b, e.beq_iff b a)

instance abbrev pub nat_eq : Eq ℕ
nat_eq = record { beq = nat_beq; beq_iff = ==_iff }

instance abbrev pub int_eq : Eq ℤ
int_eq = record { beq = beq_ℤ; beq_iff = beq_ℤ_iff }

module _ {ℓ κ} {A : Type ℓ} {B : Type κ} ⦃e : Eq A⦄ ⦃g : Eq B⦄ where
  abbrev pub pair_beq : A × B → A × B → Bool
  pair_beq (a, b) (c, d) = e.beq a c && g.beq b d

  pub pair_beq_iff : (p q : A × B) → (pair_beq p q ≡ true) ↔ (p ≡ q)
  pair_beq_iff (a, b) (c, d) = (to, from)
    where
      to : (e.beq a c && g.beq b d) ≡ true → ◌≡◌ {A = A × B} (a, b) (c, d)
      to h =
          ap₂ (λ x y. (x, y)) ((e.beq_iff a c).0 (ground arith)) ((g.beq_iff b d).0 (ground arith))

      from : ◌≡◌ {A = A × B} (a, b) (c, d) → (e.beq a c && g.beq b d) ≡ true
      from h = rw ((e.beq_iff a c).1 (cc), (g.beq_iff b d).1 (cc))

  instance abbrev pub pair_eq : Eq (A × B)
  pair_eq = record { beq = pair_beq; beq_iff = pair_beq_iff }

module _ {ℓ} {A : Type ℓ} ⦃e : Eq A⦄ where
  abbrev pub list_beq : List A → List A → Bool
  list_beq [] [] = true
  list_beq (x ∷ xs) (y ∷ ys) = e.beq x y && list_beq xs ys
  list_beq _ _ = false

  pub list_beq_iff : (xs ys : List A) → (list_beq xs ys ≡ true) ↔ (xs ≡ ys)
  list_beq_iff [] [] = (λ h. refl, λ h. refl)
  list_beq_iff [] (y ∷ ys) = (λ h. cc, λ h. cc)
  list_beq_iff (x ∷ xs) [] = (λ h. cc, λ h. cc)
  list_beq_iff (x ∷ xs) (y ∷ ys) = (
    λ h. ap₂ ◌∷◌ ((e.beq_iff x y).0 (ground arith)) ((list_beq_iff xs ys).0 (ground arith)),
    λ h. rw ((e.beq_iff x y).1 (cc), (list_beq_iff xs ys).1 (cc)),
  )

  instance abbrev pub list_eq : Eq (List A)
  list_eq = record { beq = list_beq; beq_iff = list_beq_iff }

abbrev pub bool_beq : Bool → Bool → Bool
bool_beq true b = b
bool_beq false true = false
bool_beq false false = true

pub bool_beq_iff : (a b : Bool) → (bool_beq a b ≡ true) ↔ (a ≡ b)
bool_beq_iff true true = (λ h. refl, λ h. refl)
bool_beq_iff true false = (λ h. cc, λ h. cc)
bool_beq_iff false true = (λ h. cc, λ h. cc)
bool_beq_iff false false = (λ h. refl, λ h. refl)

instance abbrev pub bool_eq : Eq Bool
bool_eq = record { beq = bool_beq; beq_iff = bool_beq_iff }

module _ {ℓ} {A : Type ℓ} ⦃e : Eq A⦄ where
  abbrev pub option_beq : Option A → Option A → Bool
  option_beq none none = true
  option_beq (some a) (some b) = e.beq a b
  option_beq _ _ = false

  pub option_beq_iff : (a b : Option A) → (option_beq a b ≡ true) ↔ (a ≡ b)
  option_beq_iff none none = (λ h. refl, λ h. refl)
  option_beq_iff none (some b) = (λ h. cc, λ h. cc)
  option_beq_iff (some a) none = (λ h. cc, λ h. cc)
  option_beq_iff (some a) (some b) =
      (λ h. ap some ((e.beq_iff a b).0 h), λ h. (e.beq_iff a b).1 (cc))

  instance abbrev pub option_eq : Eq (Option A)
  option_eq = record { beq = option_beq; beq_iff = option_beq_iff }

-- A total order: what `sorted` and `max` need of their keys, alone or in a tuple.
pub record Ord {ℓ} (A : Type ℓ) : Type ℓ where
  pub le : A → A → Bool
  pub le_total : (a b : A) → (le a b ≡ true) ⊎ (le b a ≡ true)
  pub le_trans : (a b c : A) → le a b ≡ true → le b c ≡ true → le a c ≡ true
  pub le_antisym : (a b : A) → le a b ≡ true → le b a ≡ true → a ≡ b

pub leb_total : (a b : ℕ) → (leb a b ≡ true) ⊎ (leb b a ≡ true)
leb_total a b = ground arith

pub leb_trans : (a b c : ℕ) → leb a b ≡ true → leb b c ≡ true → leb a c ≡ true
leb_trans a b c h k = ground arith

pub leb_ℤ_total : (a b : ℤ) → (leb_ℤ a b ≡ true) ⊎ (leb_ℤ b a ≡ true)
leb_ℤ_total a b = ground arith

pub leb_ℤ_trans : (a b c : ℤ) → leb_ℤ a b ≡ true → leb_ℤ b c ≡ true → leb_ℤ a c ≡ true
leb_ℤ_trans a b c h k = ground arith

pub leb_antisym : (a b : ℕ) → leb a b ≡ true → leb b a ≡ true → a ≡ b
leb_antisym a b h k = ground arith

pub leb_ℤ_antisym : (a b : ℤ) → leb_ℤ a b ≡ true → leb_ℤ b a ≡ true → a ≡ b
leb_ℤ_antisym a b h k = eq_of_parts a b (ground arith)

instance abbrev pub nat_ord : Ord ℕ
nat_ord = record { le = leb; le_total = leb_total; le_trans = leb_trans; le_antisym = leb_antisym }

instance abbrev pub int_ord : Ord ℤ
int_ord = record {
  le = leb_ℤ;
  le_total = leb_ℤ_total;
  le_trans = leb_ℤ_trans;
  le_antisym = leb_ℤ_antisym;
}

module _ {ℓ} {A : Type ℓ} ⦃o : Ord A⦄ where
  pub le_refl : (a : A) → o.le a a ≡ true
  le_refl a = elim (o.le_total a a) [ inl h ↦ h | inr h ↦ h ]

  pub le_of_not : (a b : A) → o.le a b ≡ false → o.le b a ≡ true
  le_of_not a b h = elim (o.le_total a b) [ inl k ↦ cc | inr k ↦ k ]

-- Tuples compare by their first component, and by the second where the first are equal.
module _ {ℓ κ} {A : Type ℓ} {B : Type κ} ⦃e : Eq A⦄ ⦃o : Ord A⦄ ⦃p : Ord B⦄ where
  abbrev pub pair_le : A × B → A × B → Bool
  pair_le (a, b) (c, d) = if a == c then p.le b d else o.le a c

-- Texts and lists compare by their first difference, a prefix before what it begins.
module _ {ℓ} {A : Type ℓ} ⦃e : Eq A⦄ ⦃o : Ord A⦄ where
  abbrev pub list_le : List A → List A → Bool
  list_le [] ys = true
  list_le (x ∷ xs) [] = false
  list_le (x ∷ xs) (y ∷ ys) = if x == y then list_le xs ys else o.le x y

pub text_le_total : (s t : List ℕ) → (list_le s t ≡ true) ⊎ (list_le t s ≡ true)
text_le_total [] t = inl refl
text_le_total (c ∷ s) [] = inr refl
text_le_total (c ∷ s) (d ∷ t) = ground (arith, text_le_total s t)

pub text_le_trans : (s t u : List ℕ) → list_le s t ≡ true → list_le t u ≡ true → list_le s u ≡ true
text_le_trans [] t u h k = refl
text_le_trans (c ∷ s) [] u h k = cc
text_le_trans (c ∷ s) (d ∷ t) [] h k = cc
text_le_trans (c ∷ s) (d ∷ t) (b ∷ u) h k = ground (arith, text_le_trans s t u)

pub text_le_antisym : (s t : List ℕ) → list_le s t ≡ true → list_le t s ≡ true → s ≡ t
text_le_antisym [] [] h k = refl
text_le_antisym [] (d ∷ t) h k = cc
text_le_antisym (c ∷ s) [] h k = cc
text_le_antisym (c ∷ s) (d ∷ t) h k =
    let same : c ≡ d = ground arith in
    let rest : s ≡ t = text_le_antisym s t (ground arith) (ground arith) in ap₂ ◌∷◌ same rest

instance abbrev pub text_ord : Ord (List ℕ)
text_ord = record {
  le = list_le;
  le_total = text_le_total;
  le_trans = text_le_trans;
  le_antisym = text_le_antisym;
}
