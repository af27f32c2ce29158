-- ===== src/Examples/Runs.antt =====
-- The theorems on the runs of tools/ghalo_analyze.py at a small result directory.
use g_halo.Analyze.Scaling.Baseline.{at_most, choose_baseline-smallest}
use g_halo.Analyze.Keys.Sorted.{IsInOrder, sorted_runs_for_output-IsInOrder}
use mathlib.Core.List.{Perm}
use g_halo.Analyze.Run.Derived.{nodes_iff, ranks_per_node_iff}
use g_halo.Analyze.Aggregate.Unmixed.{aggregate_group_metadata-value_error}
use g_halo.Analyze.Compare.Missing.{compare_rows-different_sizes}
use g_halo.Analyze.Aggregate.Balance.{aggregate_rows-total}
use g_halo.Stalls.Ranks.Event.{keep_if}
use g_halo.Analyze.Scaling.{BaselineOptions, choose_baseline, known_nodes}
use g_halo.Analyze.Run.Counts.{
  stated_nodes, ranks, ranks_per_node, nodes, stated_ranks_per_node, nodes_without_derivation,
}
use g_halo.Text.Number.{int_of_text}
use g_halo.Examples.{text, fields, array, IsOk, eq_value_of}
use g_halo.Analyze.Compare.Halos.{halos_of, in_either_or_both, compare_rows-halos}
use g_halo.Analyze.Load.Checked.{IsChecked, load_runs-IsChecked}
use g_halo.Text.{lit, split_lines, strip, is_space}
use g_halo.Examples.{fields, value_of}
use g_halo.Analyze.Aggregate.Group.{aggregate_group_metadata}
use g_halo.Analyze.Run.Texts.{backend}
use g_halo.Analyze.Keys.{compatibility_key, sorted_runs_for_output, run_output_sort_key}
use g_halo.Analyze.Aggregate.Totals.{row_total, result_total}
use g_halo.Analyze.Aggregate.{aggregate_rows, AggregateRow}
use g_halo.Stalls.Load.{member, JsonFile}
use g_halo.Sort.Laws.{IsSorted, IsBelow}
use g_halo.Analyze.Compare.{compare_rows, CompareRow, halo_of_row}
use g_halo.Analyze.Results.Valid.{
  validate_run, HasDifferentHalos, HasPositiveTime, HasRanks, world_size_of, validate_run_iff,
}
use g_halo.Analyze.Run.{Run, SourceFormat}
use g_halo.Analyze.Results.{RunResult, AnalyzeFault, AnalysisError}
use g_halo.Analyze.Load.{load_runs, RunFiles}
use g_halo.Stalls.Paths.{FilePath}
use g_halo.Float.Micro.{micro, unit}
use g_halo.Json.{int, arr, obj, Json, Builtin}
use g_halo.Result.{ok, err}
use g_halo.Prelude.{
  ℕ, pos, some, none, int_eq, ltb_ℤ, list_eq, nat_eq, List, All, map, [], ◌∷◌, false, ◌≡◌, ◌*◌,
  ◌==◌, ◌↔◌, true, ◌≢◌, Occurs, ◌++◌, ℤ, ◌<◌, refl, sym, ◌∙◌,
}

abbrev entry : ℕ → ℕ → Json ℕ
entry halo seconds = obj (
    fields (
      ("backend", text "rccl")
      ∷ ("algorithm", text "halo")
      ∷ ("halo_words", int (pos halo))
      ∷ ("total_exchange_bytes_per_rank", int (pos (halo * 8)))
      ∷ ("iterations", int (pos 10))
      ∷ ("max_average_seconds", int (pos seconds))
      ∷ ("topology", obj (fields (("world_size", int (pos 8)) ∷ [])))
      ∷ ("metadata", obj (fields (("node_count", text "2") ∷ [])))
      ∷ []))

abbrev result_file : Json ℕ
result_file =
    obj (
      fields (("version", text "1") ∷ ("results", arr (array (entry 64 3 ∷ entry 32 2 ∷ []))) ∷ []))

abbrev pub run_dir : FilePath
run_dir = map lit ("results" ∷ "borg" ∷ "run" ∷ [])

abbrev files_of : Json ℕ → RunFiles ℕ
files_of content = record {
  exists = λ path. path == run_dir ++ lit "ghalo.json" ∷ [];
  is_dir = λ path. path == run_dir;
  read_text = λ path. [];
  read_json = λ path. JsonFile.parsed content;
  read_csv = λ path. none;
  found = λ path name. [];
}

loaded : IsOk (load_runs (files_of result_file) (run_dir ∷ []))
unfolding load_runs lit
loaded = tt

abbrev runs : List (Run ℕ)
runs = value_of (load_runs (files_of result_file) (run_dir ∷ [])) loaded

load_runs_example : All IsChecked runs
load_runs_example =
    load_runs-IsChecked (files_of result_file) (run_dir ∷ []) runs
      (eq_value_of (load_runs (files_of result_file) (run_dir ∷ [])) loaded)

abbrev pub result : ℕ → ℕ → RunResult ℕ
result halo seconds = record {
  halo_words = pos halo;
  backend = lit "rccl";
  algorithm = lit "halo";
  iterations = pos 10;
  max_average_seconds = seconds * unit;
  max_total_seconds = 0;
  total_exchange_bytes_per_rank = pos (halo * 8);
  word_bytes = none;
  n_message_bytes = none;
  two_n_message_bytes = none;
  topology = fields (("world_size", int (pos 8)) ∷ []);
  metadata = fields (("node_count", text "2") ∷ []);
  phase_timing = none;
}

abbrev pub run_of : List (RunResult ℕ) → Run ℕ
run_of results = record {
  input_path = run_dir;
  result_path = run_dir;
  version = [];
  results = results;
  metadata_files = [];
  warnings = [];
  source_format = SourceFormat.json;
}

abbrev two : Run ℕ
two = run_of (result 64 3 ∷ result 32 2 ∷ [])

abbrev pub one : Run ℕ
one = run_of (result 64 6 ∷ [])

validate_run_example : (validate_run (result 64 3 ∷ result 32 2 ∷ []) ≡ ok tt) ↔ (
    HasDifferentHalos (result 64 3 ∷ result 32 2 ∷ [])
    × All HasPositiveTime (result 64 3 ∷ result 32 2 ∷ [])
    × All (HasRanks (world_size_of (result 64 3))) (result 64 3 ∷ result 32 2 ∷ []))
validate_run_example = validate_run_iff (result 64 3) (result 32 2 ∷ [])

compared : IsOk (compare_rows two one true)
unfolding compare_rows lit
compared = tt

abbrev compare_result : List (CompareRow ℕ)
compare_result = value_of (compare_rows two one true) compared

compare_rows_example :
    IsSorted ltb_ℤ (map halo_of_row compare_result)
    × ((h : ℤ)
        → member h (map halo_of_row compare_result)
          ≡ in_either_or_both true (member h (halos_of two)) (member h (halos_of one)))
compare_rows_example =
    compare_rows-halos two one true compare_result
      (eq_value_of (compare_rows two one true) compared)

apart : member (pos 32) (halos_of two) ≢ member (pos 32) (halos_of one)
unfolding member
apart h = cc

different_sizes_example :
    compare_rows two one false ≡ err (AnalyzeFault.analysis AnalysisError.different_sizes)
different_sizes_example = compare_rows-different_sizes two one (pos 32) apart

aggregated : IsOk (aggregate_rows (one ∷ two ∷ []) true (lit "system" ∷ []))
unfolding aggregate_rows lit run_output_sort_key split_lines strip
aggregated = tt

abbrev aggregate_result : List (AggregateRow ℕ)
aggregate_result = value_of (aggregate_rows (one ∷ two ∷ []) true (lit "system" ∷ [])) aggregated

aggregate_rows_example : row_total aggregate_result ≡ result_total (one ∷ two ∷ [])
aggregate_rows_example =
    aggregate_rows-total (one ∷ two ∷ []) true (lit "system" ∷ []) aggregate_result
      ((tt, tt), ((((λ h. cc), tt), (tt, tt)), tt))
      (eq_value_of (aggregate_rows (one ∷ two ∷ []) true (lit "system" ∷ [])) aggregated)

keyed : IsOk (compatibility_key two)
unfolding compatibility_key lit
keyed = tt

some_backend : backend two ≢ []
unfolding backend lit
some_backend h = cc

no_number : int_of_text (backend two) ≡ none
unfolding backend lit int_of_text strip is_space
no_number = refl

unmixed_example :
    aggregate_group_metadata two (value_of (compatibility_key two) keyed) (lit "nodes" ∷ [])
    ≡ err (AnalyzeFault.python Builtin.value_error)
unmixed_example =
    aggregate_group_metadata-value_error two (value_of (compatibility_key two) keyed) []
      (eq_value_of (compatibility_key two) keyed) some_backend no_number

-- eight ranks, four of them on each node
abbrev by_ranks : Run ℕ
by_ranks =
    run_of (record (result 64 3) { metadata = fields (("ranks_per_node", text "4") ∷ []) } ∷ [])

no_stated_nodes : stated_nodes by_ranks ≡ none
unfolding stated_nodes lit split_lines
no_stated_nodes = refl

eight_ranks : ranks by_ranks ≡ some (pos 8)
unfolding ranks lit strip is_space
eight_ranks = refl

four_each : ranks_per_node by_ranks ≡ some (pos 4)
unfolding ranks_per_node lit strip
four_each = refl

nodes_example : (nodes by_ranks ≡ some (pos 2)) ↔ ((2 * 4 ≡ 8) × (0 < 8))
nodes_example = nodes_iff by_ranks 8 3 2 no_stated_nodes eight_ranks four_each

-- eight ranks on two nodes
no_stated_share : stated_ranks_per_node two ≡ none
unfolding stated_ranks_per_node lit split_lines
no_stated_share = refl

eight_in_all : ranks two ≡ some (pos 8)
unfolding ranks lit strip is_space
eight_in_all = refl

two_nodes : nodes_without_derivation two ≡ some (pos 2)
unfolding nodes_without_derivation lit strip
two_nodes = refl

ranks_per_node_example : (ranks_per_node two ≡ some (pos 4)) ↔ ((4 * 2 ≡ 8) × (0 < 8))
ranks_per_node_example = ranks_per_node_iff two 8 1 4 no_stated_share eight_in_all two_nodes

runs_for_output_example :
    IsInOrder (sorted_runs_for_output (two ∷ one ∷ []))
    × Perm (sorted_runs_for_output (two ∷ one ∷ [])) (two ∷ one ∷ [])
    × (sorted_runs_for_output (sorted_runs_for_output (two ∷ one ∷ []))
        ≡ sorted_runs_for_output (two ∷ one ∷ []))
runs_for_output_example = sorted_runs_for_output-IsInOrder (two ∷ one ∷ [])

abbrev smallest_nodes : BaselineOptions
smallest_nodes = record {
  baseline_path = [];
  baseline = lit "smallest-nodes";
  baseline_as_path = [];
  baseline_nodes = none;
}

all_known : keep_if known_nodes (two ∷ one ∷ []) ≡ two ∷ one ∷ []
unfolding keep_if known_nodes lit split_lines strip
all_known = refl

not_empty : (run : Run ℕ) (others : List (Run ℕ)) → run ∷ others ≢ []
not_empty run others h = cc

some_known : keep_if known_nodes (two ∷ one ∷ []) ≢ []
some_known h = not_empty two (one ∷ []) (sym all_known ∙ h)

chosen : IsOk (choose_baseline (files_of result_file) smallest_nodes (two ∷ one ∷ []))
unfolding choose_baseline lit split_lines
chosen = tt

abbrev baseline_run : Run ℕ
baseline_run =
    value_of (choose_baseline (files_of result_file) smallest_nodes (two ∷ one ∷ [])) chosen

choose_baseline_example :
    Occurs baseline_run (keep_if known_nodes (two ∷ one ∷ []))
    × IsBelow at_most baseline_run (keep_if known_nodes (two ∷ one ∷ []))
choose_baseline_example =
    choose_baseline-smallest (files_of result_file) smallest_nodes (two ∷ one ∷ []) baseline_run
      refl refl refl some_known
      (eq_value_of (choose_baseline (files_of result_file) smallest_nodes (two ∷ one ∷ [])) chosen)
