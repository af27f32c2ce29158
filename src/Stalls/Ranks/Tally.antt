-- ===== src/Stalls/Ranks/Tally.antt =====
-- The loop of `analyze_rank_records` over the iterations, and the function.
use g_halo.Stalls.Ranks.{
  class_eq, collective_wide, rank_localized, node_localized, row_localized, column_localized,
  mixed_ranks, RankTally, RankClass, group_ranks, RankGroups, world_le, no_ranks,
}
use g_halo.Stalls.Ranks.Event.{
  affected_by, rank_event, phase_rank, index_phases, host_or_unknown, gpu_name, one_if, ranks_match,
  ranks_differ,
}
use g_halo.Sort.Max.{max_by}
use g_halo.Sort.{sort_by}
use g_halo.Float.{Float}
use g_halo.Stalls.Phases.{PhaseEvent}
use g_halo.Result.{Result, ok, ◌>>=◌}
use g_halo.Stalls.{
  iteration_eq, IterationKey, RankRecord, SampleKey, Warning, SampleInfo, Fault, key_eq,
  global_max_us, iteration_le,
}
use g_halo.Dict.{Dict, count_all, bump, lookup}
use g_halo.Prelude.{
  pair_eq, int_eq, ℕ, Bool, List, [], ◌+◌, leb, leb_ℤ, map, ◌∷◌, nat_eq, ◌++◌, list_le, nat_ord,
  list_eq,
}

module _ {F : Type 0} ⦃f : Float F⦄ where
  abbrev pub slow_rows_of : List (RankRecord F) → List (RankRecord F)
  slow_rows_of [] = []
  slow_rows_of (r ∷ rows) =
      affected_by (max_by f.fle (global_max_us r) (map global_max_us rows)) (f.literal 4 5)
        (r ∷ rows)

  -- one round of the second loop, for the sorted records of an iteration
  unfoldable pub tally_ranks :
      Dict IterationKey (PhaseEvent F)
      → RankTally F
      → IterationKey
      → List (RankRecord F)
      → RankTally F
  unfolding rank_event count_all bump lookup
  tally_ranks phases t key [] = t
  tally_ranks phases t key (r ∷ rows) =
      let event = rank_event (lookup key phases) key r rows in
      let slow = slow_rows_of (r ∷ rows) in
      let rank = phase_rank (lookup key phases) in
      record {
        breakdown = t.breakdown ++ event ∷ [];
        classes = bump event.classification t.classes;
        slow_ranks = count_all t.slow_ranks (map (λ (x : RankRecord F). x.world_rank) slow);
        slow_nodes = count_all t.slow_nodes (map host_or_unknown slow);
        slow_gpus = count_all t.slow_gpus (map gpu_name slow);
        slow_rows = count_all t.slow_rows (map (λ (x : RankRecord F). x.cart_row) slow);
        slow_columns = count_all t.slow_columns (map (λ (x : RankRecord F). x.cart_col) slow);
        dominant_matches =
            t.dominant_matches + one_if (ranks_match rank r.global_max_iteration_rank);
        dominant_mismatches =
            t.dominant_mismatches + one_if (ranks_differ rank r.global_max_iteration_rank);
      }

  unfoldable pub tally_all_ranks :
      Dict IterationKey (PhaseEvent F) → RankTally F → RankGroups F → RankTally F
  unfolding tally_ranks
  tally_all_ranks phases t [] = t
  tally_all_ranks phases t ((key, rows) ∷ groups) =
      tally_all_ranks phases (tally_ranks phases t key (sort_by world_le rows)) groups

abbrev pub entry_le {ℓ κ} : {K : Type ℓ} {V : Type κ} → (K → K → Bool) → K × V → K × V → Bool
entry_le le (j, v) (k, w) = le j k

-- `dict(sorted(classification_counter.items()))` sorts by the classes' names
abbrev pub class_rank : RankClass → ℕ
class_rank collective_wide = 0
class_rank column_localized = 1
class_rank mixed_ranks = 2
class_rank node_localized = 3
class_rank rank_localized = 4
class_rank row_localized = 5

abbrev pub class_le : RankClass → RankClass → Bool
class_le a b = leb (class_rank a) (class_rank b)

abbrev pub sorted_tally : {F : Type 0} → RankTally F → RankTally F
sorted_tally t = record t {
  classes = sort_by (entry_le class_le) t.classes;
  slow_ranks = sort_by (entry_le leb_ℤ) t.slow_ranks;
  slow_nodes = sort_by (entry_le list_le) t.slow_nodes;
  slow_gpus = sort_by (entry_le list_le) t.slow_gpus;
  slow_rows = sort_by (entry_le leb_ℤ) t.slow_rows;
  slow_columns = sort_by (entry_le leb_ℤ) t.slow_columns;
}

module _ {F : Type 0} ⦃f : Float F⦄ where
  unfoldable pub analyze_rank_records :
      List (RankRecord F)
      → Dict SampleKey SampleInfo
      → List (PhaseEvent F)
      → Result Fault (RankTally F × List Warning)
  unfolding group_ranks tally_all_ranks index_phases
  analyze_rank_records records samples phase_breakdown = do
    grouped ← group_ranks samples [] [] [] records
    ok (
      sorted_tally (
          tally_all_ranks (index_phases [] phase_breakdown) no_ranks
            (sort_by (entry_le iteration_le) grouped.0)),
      grouped.1,
    )
