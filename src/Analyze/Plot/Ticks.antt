-- ===== src/Analyze/Plot/Ticks.antt =====
-- `power_of_two_ticks` of tools/ghalo_analyze.py.
pub mod Powers
use g_halo.Sort.{sort_by}
use g_halo.Stalls.Load.{member, is_nil}
use Prim.Native.Nat.{bit_and}
use g_halo.Prelude.{
  pos, negsuc, ℕ, zero, suc, int_eq, leb_ℤ, ℤ, List, Bool, if◌then◌else◌, ◌∷◌, not, true, [], ◌==◌,
  ◌&&◌, ◌-◌, false, nat_eq,
}

-- value > 0 and value & (value - 1) == 0
unfoldable pub is_power_of_two : ℤ → Bool
is_power_of_two (pos n) = not (n == 0) && bit_and n (n - 1) == 0
is_power_of_two (negsuc n) = false

-- set(values)
unfoldable pub value_set : List ℤ → List ℤ
unfolding member
value_set [] = []
value_set (value ∷ values) =
    let rest = value_set values in if member value rest then rest else value ∷ rest

unfoldable pub all_powers : List ℤ → Bool
unfolding is_power_of_two
all_powers [] = true
all_powers (value ∷ values) = is_power_of_two value && all_powers values

unfoldable pub power_of_two_ticks : List ℤ → List ℤ
unfolding value_set all_powers sort_by
power_of_two_ticks values =
    let unique = sort_by leb_ℤ (value_set values) in
    if not (is_nil unique) && all_powers unique then unique else []
