-- ===== src/Stalls/Samples.antt =====
-- `longest_stall_free_sequence` and `classify_sample` of tools/analyze_iteration_stalls.py.
pub mod Longest
pub mod Classes
use Prim.Native.Nat.{max}
use g_halo.Prelude.{
  ℕ, ◌+◌, ◌*◌, ◌/◌, Bool, ◌&&◌, List, [], ◌∷◌, ℤ, pos, pos_part, ltb_ℤ, leb, nat_eq, ◌==◌,
  if◌then◌else◌,
}
use g_halo.Text.{Text}

-- the loop, over the markers that are left
unfoldable pub longest_from : ℕ → ℕ → Text → ℕ
longest_from longest current [] = longest
longest_from longest current (marker ∷ sequence) =
    let free = longest_from (max longest (current + 1)) (current + 1) sequence in
    let stalled = longest_from longest 0 sequence in if marker == b'F' then free else stalled

unfoldable pub longest_stall_free_sequence : Text → ℕ
unfolding longest_from
longest_stall_free_sequence sequence = longest_from 0 0 sequence

pub data SampleClass : Type 0 where
  clean isolated nearly_all multiple : SampleClass

-- math.ceil(0.9 * iterations) for 0 < iterations < 2 ^ 50: the rounding of the product does not
-- reach the next integer, and where 10 divides it the product is exact.
unfoldable pub nine_tenths : ℕ → ℕ
nine_tenths n = (9 * n + 9) / 10

unfoldable pub classify_sample : ℕ → ℤ → SampleClass
unfolding nine_tenths
classify_sample stalls iterations =
    if stalls == 0
    then clean
    else if stalls == 1
    then isolated
    else if ltb_ℤ (pos 0) iterations && leb (nine_tenths (pos_part iterations)) stalls
    then nearly_all
    else multiple
