-- ===== src/Examples/Stalls.antt =====
-- The theorems on tools/analyze_iteration_stalls.py at a small case, and runs of its functions.
use g_halo.Sort.{sort_by}
use g_halo.Stalls.Load.Keys.{sample_lt, load_samples-IsSorted}
use g_halo.Sort.Laws.{IsSorted}
use g_halo.Examples.{payload}
use g_halo.Stalls.Samples.{longest_stall_free_sequence}
use g_halo.Stalls.Samples.Classes.{classify_sample_iff}
use g_halo.Stalls.Phases.Majority.{analyze_phase_records_majority}
use g_halo.Stalls.Phases.Totals.{event_category}
use g_halo.Stalls.Summary.Stalled.{analyze_case_stalls}
use g_halo.Stalls.Ranks.Totals.{world_sizes, analyze_rank_records_balance}
use g_halo.Stalls.Summary.Counts.{analyze_case_counts}
use g_halo.Stalls.Ranks.Event.{keep_if}
use g_halo.Stalls.Ranks.Classify.{IsWide, classify_ranks_iff}
use g_halo.Dict.Groups.{selected}
use g_halo.Dict.Counts.{occurrences}
use g_halo.Stalls.Case.{affected_row, is_stall}
use g_halo.Dict.Laws.{total}
use g_halo.Stalls.Ranks.Tally.{analyze_rank_records}
use g_halo.Stalls.{
  RankRecord, IterationRecord, SampleInfo, SampleKey, PhaseRecord, Warning, iteration_eq,
}
use g_halo.Stalls.Ranks.{
  classify_ranks, RankTally, collective_wide, rank_localized, node_localized, row_localized,
  column_localized, mixed_ranks,
}
use g_halo.Stalls.Phases.Dominant.{Dominates, kept, analyze_phase_records_dominant}
use g_halo.Dict.{Dict, lookup}
use g_halo.Stalls.Samples.{classify_sample, clean, isolated, nearly_all, multiple}
use g_halo.Stalls.Samples.Longest.{HasRun, longest_stall_free_sequence-IsLongest}
use g_halo.Json
use g_halo.Json.{as_list, to_int, Json}
use g_halo.Result.{map_m}
use g_halo.Stalls.Load.{
  sample_key, int_field, int_cell, float_cell, parse_int, parse_float, load_samples, JsonFile,
  result_list,
}
use g_halo.Stalls.Readers.{iteration_record, phase_record, rank_record, load_iteration_records}
use g_halo.Text.Number.{int_of_text}
use g_halo.Text.{is_space, contains, strip}
use g_halo.Stalls.Phases.{
  synchronization, analyze_phase_records, PhaseAnalysis, PhaseEvent, phase_event, phase_key,
  category_eq, mixed,
}
use g_halo.Result.{ok}
use g_halo.Text.{lit}
use g_halo.Float.Micro.{micro, micro_order}
use g_halo.Examples.{IsOk, case_files, three_seconds, value_of, eq_value_of, iteration_csv}
use g_halo.Stalls.Summary.{analyze_case, CaseSummary}
use g_halo.Prelude.{
  ℕ, ◌≡◌, refl, List, map, length, String, pos, none, ◌↔◌, ◌∷◌, [], ◌+◌, ◌≤◌, ◌<◌, ◌*◌, nat_eq, ◌⊎◌,
  ◌≢◌, Occurs, inl,
}

analyzed : IsOk (analyze_case case_files three_seconds)
unfolding analyze_case lit Json.get as_list sample_key int_field Json.get_or to_int map_m
    iteration_record int_cell int_of_text is_space float_cell parse_int phase_record rank_record
    parse_float
analyzed = tt

abbrev summary : CaseSummary ℕ
summary = value_of (analyze_case case_files three_seconds) analyzed

summary_ok : analyze_case case_files three_seconds ≡ ok summary
summary_ok = eq_value_of (analyze_case case_files three_seconds) analyzed

two_stalls : summary.stall_count ≡ 2
unfolding analyze_case lit Json.get as_list sample_key int_field Json.get_or to_int map_m
    iteration_record int_cell int_of_text is_space float_cell parse_int phase_record rank_record
    parse_float
two_stalls = refl

sequence : summary.sample_sequence ≡ lit "SF"
unfolding analyze_case lit Json.get as_list sample_key int_field Json.get_or to_int map_m
    iteration_record int_cell int_of_text is_space float_cell parse_int phase_record rank_record
    parse_float
sequence = refl

class : summary.phases.classification ≡ synchronization
unfolding analyze_case lit Json.get as_list sample_key int_field Json.get_or to_int map_m
    iteration_record int_cell int_of_text is_space float_cell parse_int phase_record rank_record
    parse_float contains
class = refl

iterations_read : IsOk (load_iteration_records {F = ℕ} iteration_csv)
unfolding load_iteration_records lit Json.get as_list sample_key int_field Json.get_or to_int map_m
    iteration_record int_cell int_of_text is_space float_cell parse_int phase_record rank_record
    parse_float lookup strip
iterations_read = tt

abbrev iterations_loaded : List (IterationRecord ℕ) × List Warning
iterations_loaded = value_of (load_iteration_records iteration_csv) iterations_read

analyze_case_stalls_example :
    (summary.affected_indices
      ≡ map affected_row (keep_if (is_stall summary.threshold_us) iterations_loaded.0))
    × (summary.stall_count ≡ length summary.affected_indices)
    × (total summary.rank_frequency ≡ summary.stall_count)
    × (summary.emitted_iteration_records ≡ length iterations_loaded.0)
analyze_case_stalls_example =
    analyze_case_stalls case_files three_seconds summary iterations_loaded.0 iterations_loaded.1
      (eq_value_of (load_iteration_records iteration_csv) iterations_read) summary_ok

analyze_case_counts_example :
    (length summary.sample_sequence ≡ summary.samples_found)
    × (occurrences b'S' summary.sample_sequence ≡ summary.samples_with_stalls)
    × (summary.isolated_bad_samples + summary.multiple_bad_samples + summary.nearly_all_slow_samples
        ≡ summary.samples_with_stalls)
    × (summary.max_stalls_in_one_sample ≤ summary.stall_count)
analyze_case_counts_example = analyze_case_counts case_files three_seconds summary summary_ok

longest_stall_free_sequence_example :
    HasRun (longest_stall_free_sequence (lit "FSFFS")) (lit "FSFFS")
    × ((n : ℕ) → HasRun n (lit "FSFFS") → n ≤ longest_stall_free_sequence (lit "FSFFS"))
longest_stall_free_sequence_example = longest_stall_free_sequence-IsLongest (lit "FSFFS")

abbrev IsNumber : ℕ → ℕ → Type 0
IsNumber m n = m ≡ n

classify_sample_example :
    ((classify_sample 9 (pos 10) ≡ clean) ↔ (IsNumber 9 0))
    × ((classify_sample 9 (pos 10) ≡ isolated) ↔ (IsNumber 9 1))
    × ((classify_sample 9 (pos 10) ≡ nearly_all) ↔ ((2 ≤ 9) × (0 < 10) × (9 * 10 ≤ 10 * 9)))
    × ((classify_sample 9 (pos 10) ≡ multiple) ↔ ((2 ≤ 9) × ((IsNumber 10 0) ⊎ (10 * 9 < 9 * 10))))
classify_sample_example = classify_sample_iff 9 (pos 10)

samples_read : IsOk (load_samples (JsonFile.parsed payload))
unfolding load_samples lit Json.get as_list sample_key int_field Json.get_or to_int map_m
    iteration_record int_cell int_of_text is_space float_cell parse_int phase_record rank_record
    parse_float lookup strip
samples_read = tt

abbrev samples_loaded : List SampleInfo × Json ℕ
samples_loaded = value_of (load_samples (JsonFile.parsed payload)) samples_read

load_samples_example :
    (samples_loaded.1 ≡ payload)
    × IsSorted sample_lt samples_loaded.0
    × ((results : List (Json ℕ)) × (result_list payload ≡ ok results)
        × (length samples_loaded.0 ≡ length results))
load_samples_example =
    load_samples-IsSorted payload samples_loaded.0 samples_loaded.1
      (eq_value_of (load_samples (JsonFile.parsed payload)) samples_read)

abbrev known : Dict SampleKey SampleInfo
known =
    (
      record { halo_words = pos 64; sample_index = pos 1 },
      record {
        key = record { halo_words = pos 64; sample_index = pos 1 };
        iterations = pos 3;
        sample_count = pos 1;
      },
    )
    ∷ []

abbrev phase_of : ℕ → String → ℕ → PhaseRecord ℕ
phase_of iteration name seconds = record {
  halo_words = pos 64;
  sample_index = pos 1;
  iteration_index = pos iteration;
  phase_name = lit name;
  phase_seconds = seconds;
  phase_max_rank = pos 0;
  total_iteration_seconds = 9;
  total_iteration_max_rank = pos 0;
  backend_schema = [];
}

abbrev phases : List (PhaseRecord ℕ)
phases =
    phase_of 0 "east_west_sync" 4
    ∷ phase_of 0 "transpose_copy" 1
    ∷ phase_of 1 "east_west_sync" 5
    ∷ []

phases_analyzed : IsOk (analyze_phase_records phases known none)
unfolding analyze_phase_records lit contains
phases_analyzed = tt

abbrev phase_result : PhaseAnalysis ℕ
phase_result = value_of (analyze_phase_records phases known none) phases_analyzed

phase_result_ok : analyze_phase_records phases known none ≡ ok phase_result
phase_result_ok = eq_value_of (analyze_phase_records phases known none) phases_analyzed

sync_ne_mixed : synchronization ≢ mixed
sync_ne_mixed h = cc

analyze_phase_records_majority_example :
    (length phase_result.breakdown ≡ phase_result.iterations)
    × ((phase_result.classification ≡ synchronization) ↔ (
        phase_result.iterations
        < 2 * occurrences synchronization (map event_category phase_result.breakdown)))
analyze_phase_records_majority_example =
    analyze_phase_records_majority phases known none phase_result synchronization sync_ne_mixed
      phase_result_ok

abbrev first_event : PhaseEvent ℕ
first_event =
    phase_event (record { halo_words = pos 64; sample_index = pos 1; iteration_index = pos 0 })
      (phase_of 0 "east_west_sync" 4)

first-Occurs : Occurs first_event phase_result.breakdown
unfolding analyze_phase_records lit contains sort_by
first-Occurs = inl refl

analyze_phase_records_dominant_example :
    Dominates micro_order (selected phase_key first_event.key (kept none phases)) first_event
analyze_phase_records_dominant_example =
    analyze_phase_records_dominant micro_order phases known none phase_result first_event
      phase_result_ok first-Occurs

classify_ranks_example :
    let class = classify_ranks 10 4 1 2 3 in
    let scattered = (¬ IsWide 10 4) × (2 < 4) in
    ((class ≡ collective_wide) ↔ IsWide 10 4)
    × ((class ≡ rank_localized) ↔ ((¬ IsWide 10 4) × (4 ≤ 2)))
    × ((class ≡ node_localized) ↔ (scattered × (IsNumber 1 1)))
    × ((class ≡ row_localized) ↔ (scattered × (¬ IsNumber 1 1) × (IsNumber 2 1)))
    × ((class ≡ column_localized)
        ↔ (scattered × (¬ IsNumber 1 1) × (¬ IsNumber 2 1) × (IsNumber 3 1)))
    × ((class ≡ mixed_ranks) ↔ (scattered × (¬ IsNumber 1 1) × (¬ IsNumber 2 1) × (¬ IsNumber 3 1)))
classify_ranks_example = classify_ranks_iff 10 4 1 2 3

abbrev rank_of : ℕ → ℕ → RankRecord ℕ
rank_of rank seconds = record {
  halo_words = pos 64;
  sample_index = pos 1;
  iteration_index = pos 0;
  world_rank = pos rank;
  local_rank = pos rank;
  hostname = lit "node1";
  selected_hip_device = pos rank;
  cart_row = pos 0;
  cart_col = pos rank;
  local_total_iteration_seconds = seconds;
  global_max_iteration_seconds = 9;
  global_max_iteration_rank = pos 0;
  backend_schema = [];
  phases = [];
}

abbrev ranks : List (RankRecord ℕ)
ranks = rank_of 1 3 ∷ rank_of 0 9 ∷ []

ranks_analyzed : IsOk (analyze_rank_records ranks known [])
unfolding analyze_rank_records lit contains
ranks_analyzed = tt

abbrev rank_result : RankTally ℕ × List Warning
rank_result = value_of (analyze_rank_records ranks known []) ranks_analyzed

analyze_rank_records_example :
    (total rank_result.0.classes ≡ length rank_result.0.breakdown)
    × (rank_result.0.dominant_matches + rank_result.0.dominant_mismatches
        ≤ length rank_result.0.breakdown)
    × (world_sizes rank_result.0.breakdown ≡ length ranks)
analyze_rank_records_example =
    analyze_rank_records_balance ranks known [] rank_result.0 rank_result.1
      (eq_value_of (analyze_rank_records ranks known []) ranks_analyzed)
