-- ===== src/Examples/Versions.antt =====
-- The theorems on tools/compare_rccl_versions.py at small inputs.
use g_halo.Json
use g_halo.Json.{as_list, to_int, to_float}
use g_halo.Result.{map_m}
use g_halo.Dict.{lookup}
use g_halo.Stalls.Load.{sample_key, int_field, int_cell, float_cell, parse_int, parse_float}
use g_halo.Stalls.Readers.{iteration_record, phase_record, rank_record}
use g_halo.Text.Number.{int_of_text}
use g_halo.Text.{is_space, strip, contains}
use g_halo.Prelude.{◌+ℤ◌}
use g_halo.Result.{ok}
use g_halo.Text.{lit}
use g_halo.Examples.{IsOk, value_of, case_files, three_seconds, eq_value_of}
use g_halo.Stalls.Summary.{CaseSummary, analyze_case}
use g_halo.Versions.Matrix.{
  validate_complete_matrix, NoRepeat, versions, validate_complete_matrix-versions,
}
use g_halo.Versions.Report.{summarize_result, Reports, summarize_result-Reports}
use g_halo.Versions.Events.{sum_ℕ, Runs, event_lengths_sum, run_loop-Runs}
use g_halo.Versions.{event_lengths, VersionSummary, run_loop, version_order}
use g_halo.Stalls.Case.{Affected}
use g_halo.Float.Micro.{micro}
use g_halo.Prelude.{ℕ, List, String, pos, ◌∷◌, ◌≡◌, ℤ, [], length, none, Occurs, refl, ◌++◌}

abbrev affected_at : ℕ → ℕ → Affected ℕ
affected_at sample iteration = record {
  key = record { halo_words = pos 64; sample_index = pos sample; iteration_index = pos iteration };
  duration = 5;
  max_rank = pos 0;
}

abbrev affected : List (Affected ℕ)
affected =
    affected_at 1 4 ∷ affected_at 2 7 ∷ affected_at 1 5 ∷ affected_at 1 9 ∷ affected_at 2 8 ∷ []

lengths : event_lengths affected ≡ 2 ∷ 1 ∷ 2 ∷ []
unfolding event_lengths ◌+ℤ◌
lengths = refl

event_lengths_sum_example : sum_ℕ (event_lengths affected) ≡ length affected
event_lengths_sum_example = event_lengths_sum affected

abbrev later : List ℤ
later = pos 5 ∷ pos 9 ∷ []

run_loop_example :
    (runs : List ℕ) × Runs (pos 4 ∷ later) runs × (run_loop 0 none [] (pos 4 ∷ later) ≡ [] ++ runs)
run_loop_example = run_loop-Runs [] (pos 4) later

summarized : IsOk (summarize_result case_files three_seconds)
unfolding summarize_result to_float lit Json.get as_list sample_key int_field Json.get_or to_int
    map_m iteration_record int_cell int_of_text is_space float_cell parse_int phase_record
    rank_record parse_float lookup strip contains
summarized = tt

abbrev summary : VersionSummary ℕ
summary = value_of (summarize_result case_files three_seconds) summarized

abbrev of_version : String → VersionSummary ℕ
of_version version = record summary { rocm_version = lit version }

abbrev three : List (VersionSummary ℕ)
three = of_version "7.2.0" ∷ of_version "6.4.2" ∷ of_version "7.0.2" ∷ []

complete : IsOk (validate_complete_matrix three)
unfolding validate_complete_matrix lit
complete = tt

abbrev matrix : List (VersionSummary ℕ)
matrix = value_of (validate_complete_matrix three) complete

validate_complete_matrix_example :
    NoRepeat three
    × (versions matrix ≡ version_order)
    × ((s : VersionSummary ℕ) → Occurs s matrix → Occurs s three)
validate_complete_matrix_example =
    validate_complete_matrix-versions three matrix
      (eq_value_of (validate_complete_matrix three) complete)

summarize_result_example :
    (case : CaseSummary ℕ) × (analyze_case case_files three_seconds ≡ ok case)
    × Reports summary case
summarize_result_example =
    summarize_result-Reports case_files three_seconds summary
      (eq_value_of (summarize_result case_files three_seconds) summarized)
