-- ===== src/Stalls/Report.antt =====
-- The report that tools/analyze_iteration_stalls.py writes, and the cases that its `main` reports.
-- The time that the report shows is an argument.
use g_halo.Stalls.Ranks.Event.{keep_if}
use g_halo.Stalls.Discover.{discover_result_dirs}
use g_halo.Stalls.Discover.{result_dirs_from_inputs}
use g_halo.Stalls.Load.{is_nil}
use g_halo.Text.Number.{show_nat}
use g_halo.Stalls.Phases.{PhaseAnalysis}
use g_halo.Stalls.Ranks.{RankTally}
use g_halo.Stalls.Discover.{Tree}
use g_halo.Text.{join, Text, lit, contains}
use g_halo.Stalls.Summary.{CaseSummary, analyze_case, CaseFiles}
use g_halo.Stalls.{Warning, Fault, StallError}
use g_halo.Result.{map_m, Result, ◌>>=◌, ok, ◌>>◌, raise_if}
use g_halo.Prelude.{List, ◌++◌, ◌∷◌, [], map, Option, if◌then◌else◌, not, ◌&&◌}
use g_halo.Stalls.Paths.{FilePath, path_name}
use g_halo.Float.{Float}
use g_halo.Stalls.Rows.{
  warning_text, titled, identity_lines, case_row, table_or, rank_count_row, phase_row,
  rank_event_row, phase_event_row, count_row, stall_row,
}

-- the directories that `main` reads
unfoldable pub analyzed_dirs :
    Tree → FilePath → List FilePath → Text → Text → Text → Text → Result Fault (List FilePath)
unfolding result_dirs_from_inputs discover_result_dirs keep_if contains path_name
analyzed_dirs tree root inputs system version category label_filter = do
  dirs ←
      if is_nil inputs
      then ok (discover_result_dirs tree root system version category label_filter)
      else result_dirs_from_inputs tree inputs
  let kept =
      if not (is_nil label_filter) && not (is_nil inputs)
      then keep_if (λ p. contains label_filter (path_name p)) dirs
      else dirs
  raise_if (is_nil kept) (Fault.stall StallError.no_directories)
  ok kept

unfoldable pub warning_lines : FilePath → List Warning → List Text
unfolding warning_text
warning_lines dir [] = []
warning_lines dir (warning ∷ warnings) =
    [] ∷ lit "Warnings:" ∷ map (λ w. lit "- " ++ warning_text dir w) (warning ∷ warnings)

module _ {F : Type 0} ⦃f : Float F⦄ where
  unfoldable pub stall_lines : CaseSummary F → List Text
  unfolding titled table_or rank_count_row stall_row
  stall_lines s =
      [] ∷ lit "Rank frequency:" ∷ [] ∷ []
      ++ table_or (lit "| Rank | Stalls |") (lit "| ---: | ---: |")
          (lit "No stalls above threshold.") (map rank_count_row s.rank_frequency)
      ++ titled (lit "Affected sample/iteration indices:")
      ++ table_or (lit "| Halo | Sample | Iteration | Duration us | Max rank |")
          (lit "| ---: | ---: | ---: | ---: | ---: |") (lit "None.")
          (map stall_row s.affected_indices)

  unfoldable pub phase_lines : PhaseAnalysis F → List Text
  unfolding titled table_or phase_row phase_event_row
  phase_lines phases =
      titled (lit "Phase dominance:")
      ++ table_or (lit "| Phase | Dominant iterations | Cumulative ms | Median us | Max us |")
          (lit "| --- | ---: | ---: | ---: | ---: |") (lit "No phase data available.")
          (map phase_row phases.summaries)
      ++ titled (lit "Per-stalled-iteration phase breakdown:")
      ++ table_or
          (lit
            "| Halo | Sample | Iteration | Dominant phase | Phase us | Phase rank | Total us | Total rank |")
          (lit "| ---: | ---: | ---: | --- | ---: | ---: | ---: | ---: |") (lit "None.")
          (map phase_event_row phases.breakdown)

  -- what follows the rows of the ranks
  unfoldable pub slow_lines : RankTally F → List Text
  unfolding titled table_or rank_count_row count_row show_nat
  slow_lines ranks =
      titled (lit "Slow-rank frequency (>=80% of global max):")
      ++ table_or (lit "| Rank | Events |") (lit "| ---: | ---: |") (lit "None.")
          (map rank_count_row ranks.slow_ranks)
      ++ titled (lit "Slow-node frequency (>=80% of global max):")
      ++ table_or (lit "| Node | Events |") (lit "| --- | ---: |") (lit "None.")
          (map count_row ranks.slow_nodes)
      ++ (lit "\nDominant phase rank matches total max rank: "
          ++ show_nat ranks.dominant_matches
          ++ lit "; mismatches: "
          ++ show_nat ranks.dominant_mismatches)
        ∷ []

  unfoldable pub rank_lines : RankTally F → List Text
  unfolding titled table_or rank_event_row slow_lines
  rank_lines ranks =
      titled (lit "Per-rank stalled iteration classification:")
      ++ table_or
          (lit
            "| Halo | Sample | Iteration | Classification | Ranks >=80% | Nodes >=80% | Global max us | Max rank | CV |")
          (lit "| ---: | ---: | ---: | --- | ---: | --- | ---: | ---: | ---: |")
          (lit "No stalled-rank data available.") (map rank_event_row ranks.breakdown)
      ++ (if is_nil ranks.breakdown then [] else slow_lines ranks)

  unfoldable pub case_lines : CaseSummary F → List Text
  unfolding identity_lines stall_lines phase_lines rank_lines warning_lines
  case_lines s =
      identity_lines s
      ++ stall_lines s
      ++ phase_lines s.phases
      ++ rank_lines s.ranks
      ++ warning_lines s.result_dir s.warnings
      ++ [] ∷ []

  unfoldable pub all_case_lines : List (CaseSummary F) → List Text
  unfolding case_lines
  all_case_lines [] = []
  all_case_lines (s ∷ summaries) = case_lines s ++ all_case_lines summaries

  unfoldable pub markdown_report : Text → List (CaseSummary F) → Text
  unfolding case_row all_case_lines join
  markdown_report generated summaries = join (lit "\n") (
      lit "# gHALO Iteration Stall Analysis"
        ∷ []
        ∷ (lit "Generated: " ++ generated)
        ∷ []
        ∷ lit
            "| Case | Samples | Iterations | Stalls | Stall % | Samples with stalls | Max/sample | Longest F run | Min us | Median us | Mean us | Max us |"
        ∷ lit "| --- | ---: | ---: | ---: | ---: | ---: | ---: | ---: | ---: | ---: | ---: | ---: |"
        ∷ map case_row summaries
      ++ [] ∷ all_case_lines summaries)

  -- the cases that `main` reports; `read` gives the files of a directory
  unfoldable pub analyze_cases :
      Tree
      → (FilePath → CaseFiles F)
      → FilePath
      → List FilePath
      → Text
      → Text
      → Text
      → Text
      → Option F
      → Result Fault (List (CaseSummary F))
  unfolding analyzed_dirs map_m analyze_case
  analyze_cases tree read root inputs system version category label_filter threshold = do
    dirs ← analyzed_dirs tree root inputs system version category label_filter
    map_m (λ path. analyze_case (read path) threshold) dirs
