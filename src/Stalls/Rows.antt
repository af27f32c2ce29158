-- ===== src/Stalls/Rows.antt =====
-- The lines of the tables in the report of tools/analyze_iteration_stalls.py.
use g_halo.Json.{Json}
use g_halo.Json.Show.{str_of}
use g_halo.Stalls.Case.{Affected}
use g_halo.Stalls.Summary.{truthy, CaseSummary}
use g_halo.Stalls.Paths.{FilePath}
use g_halo.Stalls.{SampleKey, IterationKey, Warning}
use g_halo.Prelude.{
  if◌then◌else◌, List, ℤ, Option, ◌==◌, ◌++◌, ◌∷◌, [], ℕ, some, none, list_eq, nat_eq,
}
use g_halo.Float.{Float}
use g_halo.Analyze.Output.{markdown_line}
use g_halo.Analyze.Keys.{path_text}
use g_halo.Text.Number.{show_int, show_nat}
use g_halo.Text.{Text, lit, or_else, join}
use g_halo.Stalls.Ranks.{RankClass, RankEvent}
use g_halo.Stalls.Phases.{PhaseCategory, PhaseEvent, PhaseSummary}

unfoldable pub category_text : PhaseCategory → Text
category_text PhaseCategory.synchronization = lit "synchronization/final sync"
category_text PhaseCategory.copy_transpose = lit "copy/transpose"
category_text PhaseCategory.communication = lit "communication/enqueue"
category_text PhaseCategory.mixed = lit "mixed/unattributed"

unfoldable pub class_text : RankClass → Text
class_text RankClass.collective_wide = lit "collective-wide"
class_text RankClass.rank_localized = lit "rank-localized"
class_text RankClass.node_localized = lit "node-localized"
class_text RankClass.row_localized = lit "row-localized"
class_text RankClass.column_localized = lit "column-localized"
class_text RankClass.mixed_ranks = lit "mixed"

-- the file that a reader names in its warnings
unfoldable pub csv_name : Text → Text
csv_name name =
    if name == lit "iteration timing file"
    then lit "iteration-times.csv"
    else if name == lit "iteration phase timing file"
    then lit "iteration-phase-times.csv"
    else lit "stalled-rank-times.csv"

unfoldable pub sample_text : SampleKey → Text
unfolding show_int
sample_text key =
    lit "halo=" ++ show_int key.halo_words ++ lit " sample=" ++ show_int key.sample_index

unfoldable pub warning_text : FilePath → Warning → Text
unfolding csv_name sample_text path_text
warning_text dir (Warning.missing_file name) =
    lit "missing " ++ name ++ lit ": " ++ path_text (dir ++ csv_name name ∷ [])
warning_text dir (Warning.empty_file name) =
    lit "empty " ++ name ++ lit ": " ++ path_text (dir ++ csv_name name ∷ [])
warning_text dir (Warning.iteration_without_sample key) =
    lit "iteration record references missing sample metadata: " ++ sample_text key
warning_text dir (Warning.rank_without_sample key) =
    lit "stalled rank record references missing sample metadata: " ++ sample_text key

-- a table under two header lines, or the line that stands where it has no rows
unfoldable pub table_or : Text → Text → Text → List Text → List Text
table_or header rule nothing [] = nothing ∷ []
table_or header rule nothing (row ∷ rows) = header ∷ rule ∷ row ∷ rows

unfoldable pub titled : Text → List Text
titled title = [] ∷ title ∷ [] ∷ []

-- the three cells that a row starts with
unfoldable pub key_cells : IterationKey → List Text
unfolding show_int
key_cells key =
    show_int key.halo_words ∷ show_int key.sample_index ∷ show_int key.iteration_index ∷ []

unfoldable pub count_row : Text × ℕ → Text
unfolding markdown_line show_nat
count_row (name, count) = markdown_line (name ∷ show_nat count ∷ [])

unfoldable pub rank_count_row : ℤ × ℕ → Text
unfolding count_row show_int
rank_count_row (rank, count) = count_row (show_int rank, count)

module _ {F : Type 0} ⦃f : Float F⦄ where
  unfoldable pub format_optional : Option F → Text
  format_optional none = lit "n/a"
  format_optional (some x) = f.show_fixed 3 x

  unfoldable pub case_row : CaseSummary F → Text
  unfolding markdown_line show_nat show_int format_optional
  case_row s = markdown_line (
      s.label
      ∷ show_nat s.samples_found
      ∷ show_int s.total_measured_iterations
      ∷ show_nat s.stall_count
      ∷ f.show_fixed 3 s.stalled_iteration_percent
      ∷ (show_nat s.samples_with_stalls
          ++ lit " ("
          ++ f.show_fixed 3 s.samples_with_stalls_percent
          ++ lit "%)")
      ∷ show_nat s.max_stalls_in_one_sample
      ∷ show_nat s.longest_stall_free_sequence
      ∷ format_optional s.min_stall_duration_us
      ∷ format_optional s.median_stall_duration_us
      ∷ format_optional s.mean_stall_duration_us
      ∷ format_optional s.max_stall_duration_us
      ∷ [])

  -- f"{value or other}"
  unfoldable pub text_or : Json F → Text → Text
  unfolding truthy str_of
  text_or value other = if truthy value then str_of value else other

  unfoldable pub identity_lines : CaseSummary F → List Text
  unfolding path_text or_else str_of text_or show_nat category_text
  identity_lines s =
      (lit "## " ++ s.label)
      ∷ []
      ∷ (lit "- Result directory: `" ++ path_text s.result_dir ++ lit "`")
      ∷ (lit "- System: " ++ or_else s.system (lit "unknown"))
      ∷ (lit "- ROCm version: " ++ or_else s.rocm_version (lit "unknown"))
      ∷ (lit "- Backend: " ++ str_of s.backend)
      ∷ (lit "- RCCL sync mode: " ++ text_or s.rccl_sync_mode (lit "n/a"))
      ∷ (lit "- Threshold: " ++ f.show_general s.threshold_us ++ lit " us")
      ∷ (lit "- Sample sequence: `" ++ s.sample_sequence ++ lit "`")
      ∷ (lit "- Isolated bad samples: " ++ show_nat s.isolated_bad_samples)
      ∷ (lit "- Multiple-bad-iteration samples: " ++ show_nat s.multiple_bad_samples)
      ∷ (lit "- Nearly-all-slow samples: " ++ show_nat s.nearly_all_slow_samples)
      ∷ (lit "- Stalled iterations with phase data: " ++ show_nat s.phases.iterations)
      ∷ (lit "- Primary stall classification: " ++ category_text s.phases.classification)
      ∷ []

  unfoldable pub stall_row : Affected F → Text
  unfolding markdown_line key_cells show_int
  stall_row a =
      markdown_line (key_cells a.key ++ f.show_fixed 3 a.duration ∷ show_int a.max_rank ∷ [])

  unfoldable pub phase_row : PhaseSummary F → Text
  unfolding markdown_line show_nat
  phase_row p = markdown_line (
      p.phase_name
      ∷ show_nat p.dominant_iterations
      ∷ f.show_fixed 3 p.cumulative_ms
      ∷ f.show_fixed 3 p.median_us
      ∷ f.show_fixed 3 p.max_us
      ∷ [])

  unfoldable pub phase_event_row : PhaseEvent F → Text
  unfolding markdown_line key_cells show_int
  phase_event_row e = markdown_line (
      key_cells e.key
      ++ e.dominant_phase
        ∷ f.show_fixed 3 e.dominant_phase_us
        ∷ show_int e.dominant_phase_max_rank
        ∷ f.show_fixed 3 e.total_iteration_us
        ∷ show_int e.total_iteration_max_rank
        ∷ [])

  unfoldable pub rank_event_row : RankEvent F → Text
  unfolding markdown_line key_cells class_text show_nat show_int or_else join
  rank_event_row e = markdown_line (
      key_cells e.key
      ++ class_text e.classification
        ∷ show_nat e.ranks_ge_80pct
        ∷ or_else (join (lit ", ") e.nodes_ge_80pct) (lit "n/a")
        ∷ f.show_fixed 3 e.global_max_us
        ∷ show_int e.global_max_rank
        ∷ f.show_fixed 3 e.coefficient_of_variation
        ∷ [])
