-- ===== src/Float.antt =====
-- Python's `float`, which the program does not implement: the operations that the tools use are an
-- interface, and what the theorems rely on are its laws. NaN is not a value of the type.
pub mod Micro
use g_halo.Prelude.{ℕ, Bool, true, not, ◌&&◌, ◌≡◌, ◌⊎◌, List, Option, ℤ}
use g_halo.Text.{Text}

pub record Float (F : Type 0) : Type 0 where
  pub fle : F → F → Bool
  pub flt : F → F → Bool
  pub feq : F → F → Bool
  pub fadd : F → F → F
  pub fsub : F → F → F
  pub fmul : F → F → F
  pub fdiv : F → F → F
  -- float(n) for an int, and the literal n / d of the source
  pub of_int : ℤ → F
  pub literal : ℕ → ℕ → F
  -- int(x), which raises on an infinity
  pub trunc : F → Option ℤ
  -- float(text); `none` is a ValueError
  pub of_text : Text → Option F
  -- abs(x), and math.floor(x) and math.ceil(x) of a finite x
  pub fabs : F → F
  pub floor : F → ℤ
  pub ceil : F → ℤ
  -- str(x), f"{x:.12g}", f"{x:g}", and f"{x:.nf}" for a number n of digits
  pub show : F → Text
  pub show12 : F → Text
  pub show_general : F → Text
  pub show_fixed : ℕ → F → Text
  -- the built-in sum, and math.fsum, statistics.pstdev and statistics.stdev
  pub sum : List F → F
  pub fsum : List F → F
  pub pstdev : List F → F
  pub stdev : List F → F

-- IEEE comparison away from NaN: a total preorder, with `<` and `==` in its terms.
pub record FloatOrder (F : Type 0) ⦃f : Float F⦄ : Type 0 where
  pub fle_total : (a b : F) → (f.fle a b ≡ true) ⊎ (f.fle b a ≡ true)
  pub fle_trans : (a b c : F) → f.fle a b ≡ true → f.fle b c ≡ true → f.fle a c ≡ true
  pub flt-not_fle : (a b : F) → f.flt a b ≡ not (f.fle b a)
  pub feq-fle : (a b : F) → f.feq a b ≡ (f.fle a b && f.fle b a)
