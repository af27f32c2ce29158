-- ===== src/Stalls/Ranks/Classify.antt =====
-- What the class of a stalled iteration says of its slow ranks.
use g_halo.Stalls.Ranks.{
  four_fifths, classify_ranks, collective_wide, rank_localized, node_localized, row_localized,
  column_localized, mixed_ranks,
}
use g_halo.Prelude.{ℕ, ◌*◌, ◌≤◌, leb, ◌<◌, ◌≡◌, true, ◌↔◌, arith, ◌≢◌}

-- At least 80 per cent of the ranks are slow.
abbrev pub IsWide : ℕ → ℕ → Type 0
IsWide world_size affected = 4 * world_size ≤ 5 * affected

IsWide-iff :
    (world_size affected : ℕ)
    → (leb (four_fifths world_size) affected ≡ true) ↔ IsWide world_size affected
unfolding four_fifths
IsWide-iff world_size affected = ground arith

-- The class is collective-wide exactly if at least 80 per cent of the ranks are slow; rank-localized
-- exactly if they are fewer and at most two; and otherwise node-, row- or column-localized exactly
-- if the slow ranks share one node, else one row, else one column; mixed exactly if none of these.
pub classify_ranks_iff :
    (world_size affected hosts rows columns : ℕ)
    → let class = classify_ranks world_size affected hosts rows columns in
      let scattered = (¬ IsWide world_size affected) × (2 < affected) in
      ((class ≡ collective_wide) ↔ IsWide world_size affected)
      × ((class ≡ rank_localized) ↔ ((¬ IsWide world_size affected) × (affected ≤ 2)))
      × ((class ≡ node_localized) ↔ (scattered × (hosts ≡ 1)))
      × ((class ≡ row_localized) ↔ (scattered × (hosts ≢ 1) × (rows ≡ 1)))
      × ((class ≡ column_localized) ↔ (scattered × (hosts ≢ 1) × (rows ≢ 1) × (columns ≡ 1)))
      × ((class ≡ mixed_ranks) ↔ (scattered × (hosts ≢ 1) × (rows ≢ 1) × (columns ≢ 1)))
unfolding classify_ranks four_fifths
classify_ranks_iff world_size affected hosts rows columns = ground arith
