-- ===== src/Float/Micro.antt =====
-- Durations in whole millionths: an instance of the interface, for tests.
use g_halo.Text.{Text}
use g_halo.Prelude.{
  ℕ, ◌+◌, ◌-◌, ◌*◌, ◌/◌, ◌≡◌, not, ◌&&◌, none, some, pos, pos_part, arith, leb, ltb, leb_total,
  leb_trans, nat_eq, ◌==◌, List, ◌∷◌, [],
}
use g_halo.Text.Number.{int_of_text, show_nat}
use g_halo.Float.{Float, FloatOrder}

abbrev pub unit : ℕ
unit = 1000000

abbrev pub add_all : List ℕ → ℕ
add_all [] = 0
add_all (x ∷ xs) = x + add_all xs

-- whole numbers only: the fraction is left out
abbrev pub show_micro : ℕ → Text
show_micro a = show_nat (a / unit)

instance abbrev pub micro : Float ℕ
micro = record {
  fle = leb;
  flt = ltb;
  feq = λ a b. a == b;
  fadd = λ a b. a + b;
  fsub = λ a b. a - b;
  fmul = λ a b. a * b / unit;
  fdiv = λ a b. a * unit / b;
  of_int = λ z. pos_part z * unit;
  literal = λ n d. n * unit / d;
  trunc = λ a. some (pos (a / unit));
  of_text = λ t. elim (int_of_text t) [ none ↦ none | some z ↦ some (pos_part z * unit) ];
  fabs = λ a. a;
  floor = λ a. pos (a / unit);
  ceil = λ a. pos ((a + unit - 1) / unit);
  show = show_micro;
  show12 = show_micro;
  show_general = show_micro;
  show_fixed = λ n a. show_micro a;
  sum = add_all;
  fsum = add_all;
  pstdev = λ xs. 0;
  stdev = λ xs. 0;
}

pub ltb-not-leb : (a b : ℕ) → ltb a b ≡ not (leb b a)
ltb-not-leb a b = ground arith

pub ==-leb : (a b : ℕ) → (a == b) ≡ (leb a b && leb b a)
==-leb a b = ground arith

abbrev pub micro_order : FloatOrder ℕ
micro_order = record {
  fle_total = leb_total;
  fle_trans = leb_trans;
  flt-not_fle = ltb-not-leb;
  feq-fle = ==-leb;
}
