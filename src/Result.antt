-- ===== src/Result.antt =====
-- A computation that returns a value or raises one of the exceptions `E`.
use g_halo.Prelude.{Bool, true, false, List, [], ◌∷◌, ◌≡◌, refl, ◌≢◌}

pub data Result {ℓ κ} (E : Type ℓ) (A : Type κ) : Type (ℓ ⊔ κ) where
  ok : A → Result E A
  err : E → Result E A

module _ {ℓ κ μ} {E : Type ℓ} {A : Type κ} {B : Type μ} where
  infixl 5 ◌>>=◌
  abbrev pub ◌>>=◌ : Result E A → (A → Result E B) → Result E B
  ok a >>= f = f a
  err e >>= f = err e

  -- If the whole returns a value, then so did the first step, and the rest from there.
  pub >>=-eq-ok :
      (first : Result E A) (next : A → Result E B) {returned : B}
      → first >>= next ≡ ok returned
      → (between : A) × (first ≡ ok between) × (next between ≡ ok returned)
  >>=-eq-ok (err e) next impossible = cc
  >>=-eq-ok (ok between) next same = (between, refl, same)

module _ {ℓ κ μ} {E : Type ℓ} {A : Type κ} {B : Type μ} where
  -- If the first step raises, so does the whole.
  pub >>=-err :
      (first : Result E A) (next : A → Result E B) (e : E) → first ≡ err e → first >>= next ≡ err e
  >>=-err (err d) next e same = cc
  >>=-err (ok a) next e same = cc

-- `if test: raise e`
abbrev pub raise_if {ℓ} : {E : Type ℓ} → Bool → E → Result E (Unit {0})
raise_if true e = err e
raise_if false e = ok tt

module _ {ℓ κ} {E : Type ℓ} {B : Type κ} where
  infixl 5 ◌>>◌
  abbrev pub ◌>>◌ : Result E (Unit {0}) → Result E B → Result E B
  ok u >> k = k
  err e >> k = err e

module _ {ℓ κ μ} {E : Type ℓ} {A : Type κ} {B : Type μ} where
  -- a list comprehension whose element may raise
  unfoldable pub map_m : (A → Result E B) → List A → Result E (List B)
  map_m f [] = ok []
  map_m f (x ∷ xs) = f x >>= λ y. map_m f xs >>= λ ys. ok (y ∷ ys)

module _ {ℓ κ} {E : Type ℓ} {A : Type κ} where
  pub ok_inj : (a b : A) → ◌≡◌ {A = Result E A} (ok a) (ok b) → a ≡ b
  ok_inj a b h = cc

  -- What follows a check that passed.
  pub raise_if-eq-ok :
      (test : Bool) (e : E) (k : Result E A) {b : A}
      → (raise_if test e >> k) ≡ ok b
      → (test ≡ false) × (k ≡ ok b)
  raise_if-eq-ok true e k h = cc
  raise_if-eq-ok false e k h = (refl, h)

module _ {ℓ κ} {E : Type ℓ} {A : Type κ} where
  pub not_ok : {e : E} {a : A} → ◌≢◌ {A = Result E A} (err e) (ok a)
  not_ok h = cc

module _ {ℓ κ} {E : Type ℓ} {B : Type κ} where
  pub >>-eq-ok : (m : Result E (Unit {0})) (k : Result E B) {b : B} → (m >> k) ≡ ok b → k ≡ ok b
  >>-eq-ok (ok u) k h = h
  >>-eq-ok (err e) k h = cc

  pub >>-first-ok : (m : Result E (Unit {0})) (k : Result E B) {b : B} → (m >> k) ≡ ok b → m ≡ ok tt
  >>-first-ok (ok u) k h = refl
  >>-first-ok (err e) k h = cc
