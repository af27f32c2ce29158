-- ===== src/Text/Number.antt =====
-- Python's `int(text)` and `str(number)`.
pub mod RoundTrip
use g_halo.Prelude.{
  ℕ, zero, suc, ◌+◌, ◌-◌, ◌*◌, ◌/◌, ◌%◌, Bool, true, false, not, ◌&&◌, [], ◌∷◌, ◌++◌, Option, none,
  some, ℤ, pos, negsuc, negate, ltb, leb, nat_eq, ◌==◌, if◌then◌else◌,
}
use g_halo.Text.{Text, strip}

unfoldable pub is_digit : ℕ → Bool
is_digit c = leb b'0' c && leb c b'9'

-- digits with single underscores between them; `open` holds that an underscore came last
unfoldable pub digits_from : Bool → ℕ → Text → Option ℕ
unfolding is_digit
digits_from underscore n [] = if underscore then none else some n
digits_from underscore n (c ∷ s) =
    let more = digits_from false (n * 10 + (c - b'0')) s in
    let after = digits_from true n s in
    if is_digit c then more else if c == b'_' && not underscore then after else none

unfoldable pub parse_nat : Text → Option ℕ
unfolding digits_from
parse_nat s = digits_from true 0 s

-- the optional sign
unfoldable pub parse_signed : Text → Option ℤ
unfolding parse_nat
parse_signed [] = none
parse_signed (c ∷ s) =
    if c == b'-'
    then elim (parse_nat s) [ none ↦ none | some n ↦ some (negate (pos n)) ]
    else if c == b'+'
    then elim (parse_nat s) [ none ↦ none | some n ↦ some (pos n) ]
    else elim (parse_nat (c ∷ s)) [ none ↦ none | some n ↦ some (pos n) ]

-- int(text); `none` is a ValueError
unfoldable pub int_of_text : Text → Option ℤ
unfolding parse_signed
int_of_text s = parse_signed (strip s)

-- the decimal digits of n, with fuel
unfoldable pub show_fuel : ℕ → ℕ → Text
show_fuel zero n = []
show_fuel (suc f) n =
    let rest = show_fuel f (n / 10) in
    if ltb n 10 then (b'0' + n) ∷ [] else rest ++ (b'0' + n % 10) ∷ []

-- str(n)
unfoldable pub show_nat : ℕ → Text
unfolding show_fuel
show_nat n = show_fuel (suc n) n

unfoldable pub show_int : ℤ → Text
unfolding show_nat
show_int (pos n) = show_nat n
show_int (negsuc n) = b'-' ∷ show_nat (suc n)
