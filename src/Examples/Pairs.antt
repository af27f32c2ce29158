-- ===== src/Examples/Pairs.antt =====
-- Two runs that the report command of tools/ghalo_analyze.py compares.
use g_halo.Float.Micro.{micro}
use g_halo.Analyze.Keys.{sorted_runs_for_output, run_output_sort_key}
use g_halo.Analyze.Pairs.Plotted.{Precedes, IsPlotted, percent_difference_pairs-IsPlotted}
use g_halo.Examples.{IsOk, value_of, eq_value_of}
use g_halo.Examples.Runs.{one, result, run_dir}
use g_halo.Text.{lit, split_lines, strip}
use g_halo.Prelude.{List, Occurs, ℕ, ◌∷◌, [], length, ◌↔◌, ◌≡◌, refl, ◌++◌}
use g_halo.Analyze.Pairs.{percent_difference_pairs}
use g_halo.Analyze.Run.{Run, SourceFormat}
use g_halo.Stalls.Paths.{FilePath}

abbrev other_dir : FilePath
other_dir = run_dir ++ lit "later" ∷ []

-- the same configuration, measured later
abbrev later : Run ℕ
later = record {
  input_path = other_dir;
  result_path = other_dir;
  version = [];
  results = result 64 9 ∷ [];
  metadata_files = [];
  warnings = [];
  source_format = SourceFormat.json;
}

paired : IsOk (percent_difference_pairs (later ∷ one ∷ []))
unfolding percent_difference_pairs lit run_output_sort_key split_lines strip
paired = tt

abbrev found : List (Run ℕ × Run ℕ)
found = value_of (percent_difference_pairs (later ∷ one ∷ [])) paired

one_pair : length found ≡ 1
unfolding percent_difference_pairs lit run_output_sort_key split_lines strip
one_pair = refl

percent_difference_pairs_example :
    Occurs (one, later) found
    ↔ (Precedes one later (sorted_runs_for_output (later ∷ one ∷ [])) × IsPlotted one later)
percent_difference_pairs_example =
    percent_difference_pairs-IsPlotted (later ∷ one ∷ []) found
      (eq_value_of (percent_difference_pairs (later ∷ one ∷ [])) paired) one later
