-- ===== src/Text/Number/RoundTrip.antt =====
-- The decimal digits of a number read back as the number.
use g_halo.Text.{Text}
use g_halo.Text.Number.{digits_from, show_fuel, parse_nat, show_nat, is_digit}
use g_halo.Prelude.{
  zero, suc, ◌<◌, ◌≡◌, Bool, true, some, Option, ◌+◌, arith, sym, ◌++◌, ◌∷◌, Bool-cases, ◌∙◌, [],
  ltb, ap, ◌*◌, inl, false, ltb→lt, ◌-◌, inr, ◌/◌, ◌%◌,
}
use g_halo.Prelude.{ℕ}

-- a digit at the end: ten times the number before, and the digit
digits_from-snoc :
    (underscore : Bool) (n : ℕ) (s : Text) (m d : ℕ)
    → digits_from underscore n s ≡ some m
    → d < 10
    → digits_from underscore n (s ++ (b'0' + d) ∷ []) ≡ some (m * 10 + d)
unfolding digits_from is_digit
digits_from-snoc underscore n [] m d h small = ground arith
digits_from-snoc underscore n (c ∷ s) m d h small =
    let a = digits_from-snoc false (n * 10 + (c - b'0')) s m d in
    let b = digits_from-snoc true n s m d in ground (arith, a, b)

-- the first digit
digits_from-one : (d : ℕ) → d < 10 → digits_from true 0 ((b'0' + d) ∷ []) ≡ some d
unfolding digits_from is_digit
digits_from-one d small = ground arith

pub show_fuel-digits : (fuel n : ℕ) → n < fuel → digits_from true 0 (show_fuel fuel n) ≡ some n
unfolding show_fuel
show_fuel-digits zero n h = absurd (omega arith)
show_fuel-digits (suc fuel) n h = elim (Bool-cases (ltb n 10)) [
  | inl small ↦ rw small (digits_from-one n (ltb→lt n 10 small))
  | inr big ↦
      let ih = show_fuel-digits fuel (n / 10) (ground (arith, big, h)) in
      let less : n % 10 < 10 = omega arith in
      let whole : n / 10 * 10 + n % 10 ≡ n = omega arith in
      rw big (
        digits_from-snoc true 0 (show_fuel fuel (n / 10)) (n / 10) (n % 10) ih less ∙ ap some whole)
]

-- The digits that `show_nat` writes read back: its fuel is enough.
pub parse_nat-show_nat : (n : ℕ) → parse_nat (show_nat n) ≡ some n
unfolding parse_nat show_nat
parse_nat-show_nat n = show_fuel-digits (suc n) n (omega arith)

-- Two numbers with the same digits are the same.
pub show_nat_inj : (m n : ℕ) → show_nat m ≡ show_nat n → m ≡ n
show_nat_inj m n h = some_inj (sym (parse_nat-show_nat m) ∙ ap parse_nat h ∙ parse_nat-show_nat n)
  where
    some_inj : {a b : ℕ} → ◌≡◌ {A = Option ℕ} (some a) (some b) → a ≡ b
    some_inj e = cc
