-- ===== src/Stalls/Ranks/Event.antt =====
-- One row of the breakdown of `analyze_rank_records`: how the ranks of a stalled iteration stand.
use g_halo.Stalls.Ranks.{phase_aliases, LocalPhase, distinct, classify_ranks, RankEvent}
use g_halo.Sort.Max.{max_by}
use g_halo.Text.Number.{show_int}
use g_halo.Statistics.{fmean, median}
use g_halo.Sort.{sort_by}
use g_halo.Float.{Float}
use g_halo.Stalls.Phases.{PhaseEvent}
use g_halo.Stalls.Load.{is_nil}
use g_halo.Text.{Text, lit, or_else}
use g_halo.Stalls.{
  iteration_eq, IterationKey, RankRecord, key_eq, local_total_us, million, global_max_us,
}
use g_halo.Dict.{Dict, insert, get_or}
use g_halo.Prelude.{
  pair_eq, int_eq, ℕ, Bool, if◌then◌else◌, ℤ, List, [], ◌==◌, leb_ℤ, map, Option, ◌∷◌, nat_eq,
  false, ◌++◌, some, not, pos, list_le, none, nat_ord, list_eq, length,
}

-- {(row["halo_words"], …): row for row in phase_breakdown}
unfoldable pub index_phases :
    {F : Type 0}
    → Dict IterationKey (PhaseEvent F)
    → List (PhaseEvent F)
    → Dict IterationKey (PhaseEvent F)
unfolding insert
index_phases index [] = index
index_phases index (row ∷ rows) = index_phases (insert row.key row index) rows

unfoldable pub keep_if {ℓ} : {A : Type ℓ} → (A → Bool) → List A → List A
keep_if test [] = []
keep_if test (x ∷ xs) = let rest = keep_if test xs in if test x then x ∷ rest else rest

abbrev pub phase_rank : {F : Type 0} → Option (PhaseEvent F) → Option ℤ
phase_rank none = none
phase_rank (some row) = some row.dominant_phase_max_rank

abbrev pub phase_text : {F : Type 0} → Option (PhaseEvent F) → Text
phase_text none = []
phase_text (some row) = row.dominant_phase

-- dominant_phase_rank is not None and it is the rank of the iteration's maximum
abbrev pub ranks_match : Option ℤ → ℤ → Bool
ranks_match none total_rank = false
ranks_match (some rank) total_rank = rank == total_rank

abbrev pub ranks_differ : Option ℤ → ℤ → Bool
ranks_differ none total_rank = false
ranks_differ (some rank) total_rank = not (rank == total_rank)

abbrev pub one_if : Bool → ℕ
one_if test = if test then 1 else 0

module _ {F : Type 0} ⦃f : Float F⦄ where
  unfoldable pub percent : ℤ → ℤ → F
  percent numerator denominator =
      if denominator == pos 0
      then f.literal 0 1
      else f.fdiv (f.fmul (f.literal 100 1) (f.of_int numerator)) (f.of_int denominator)

  -- record.phases.get(aliases.get(phase_name, phase_name), 0.0)
  unfoldable pub local_phase_value : RankRecord F → Text → F
  unfolding get_or
  local_phase_value r phase_name =
      get_or (f.literal 0 1) (get_or phase_name phase_name phase_aliases) r.phases

  unfoldable pub local_phase : Text → RankRecord F → LocalPhase F
  unfolding local_phase_value local_total_us
  local_phase phase r = record {
    world_rank = r.world_rank;
    hostname = r.hostname;
    selected_hip_device = r.selected_hip_device;
    cart_row = r.cart_row;
    cart_col = r.cart_col;
    phase_us = f.fmul (local_phase_value r phase) million;
    local_total_us = local_total_us r;
  }

  -- the rows whose time is at least a share of the iteration's maximum
  unfoldable pub affected_by : F → F → List (RankRecord F) → List (RankRecord F)
  unfolding keep_if local_total_us
  affected_by global_max share rows =
      keep_if (λ (r : RankRecord F). f.fle (f.fmul global_max share) (local_total_us r)) rows

  unfoldable pub variation : List F → F
  unfolding fmean
  variation values =
      if f.flt (f.literal 0 1) (fmean values)
      then f.fdiv (f.pstdev values) (fmean values)
      else f.literal 0 1

  abbrev pub host_or_unknown : RankRecord F → Text
  host_or_unknown r = or_else r.hostname (lit "unknown")

  -- f"{row.hostname or 'unknown'}:{row.selected_hip_device}"
  abbrev pub gpu_name : RankRecord F → Text
  gpu_name r = host_or_unknown r ++ b':' ∷ show_int r.selected_hip_device

  -- one row of the breakdown, for the sorted records r ∷ rows of an iteration
  unfoldable pub rank_event :
      Option (PhaseEvent F) → IterationKey → RankRecord F → List (RankRecord F) → RankEvent F
  unfolding affected_by distinct classify_ranks percent variation local_phase
  rank_event phase key r rows =
      let all = r ∷ rows in
      let global_max = max_by f.fle (global_max_us r) (map global_max_us rows) in
      let local_totals = map local_total_us all in
      let affected80 = affected_by global_max (f.literal 4 5) all in
      let affected50 = affected_by global_max (f.literal 1 2) all in
      let affected95 = affected_by global_max (f.literal 19 20) all in
      let hosts80 = distinct (map (λ (x : RankRecord F). x.hostname) affected80) in
      let rows80 = distinct (map (λ (x : RankRecord F). x.cart_row) affected80) in
      let cols80 = distinct (map (λ (x : RankRecord F). x.cart_col) affected80) in
      record {
        key = key;
        classification =
            classify_ranks (length all) (length affected80) (length hosts80) (length rows80)
              (length cols80);
        world_size = length all;
        global_max_us = global_max;
        global_max_rank = r.global_max_iteration_rank;
        min_local_us = max_by (λ a b. f.fle b a) (local_total_us r) (map local_total_us rows);
        median_local_us = median local_totals;
        mean_local_us = fmean local_totals;
        max_local_us = max_by f.fle (local_total_us r) (map local_total_us rows);
        coefficient_of_variation = variation local_totals;
        ranks_ge_50pct = length affected50;
        ranks_ge_80pct = length affected80;
        ranks_ge_95pct = length affected95;
        pct_ranks_ge_80pct = percent (pos (length affected80)) (pos (length all));
        nodes_ge_80pct = sort_by list_le hosts80;
        rows_ge_80pct = sort_by leb_ℤ rows80;
        columns_ge_80pct = sort_by leb_ℤ cols80;
        dominant_phase = phase_text phase;
        dominant_phase_max_rank = phase_rank phase;
        dominant_phase_rank_matches_total =
            ranks_match (phase_rank phase) r.global_max_iteration_rank;
        local_dominant_phase_distribution =
            if is_nil (phase_text phase) then [] else map (local_phase (phase_text phase)) all;
      }
