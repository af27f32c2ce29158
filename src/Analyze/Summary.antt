-- ===== src/Analyze/Summary.antt =====
-- `phase_categories` and `summary_rows` of tools/ghalo_analyze.py.
use g_halo.Stalls.Paths.{FilePath}
use g_halo.Analyze.Run.Title.{label}
use g_halo.Analyze.Run.Counts.{ranks_per_node, nodes}
use g_halo.Analyze.Output.{Cells}
use g_halo.Analyze.Load.{load_runs, RunFiles}
use g_halo.Analyze.Keys.{sorted_results, sorted_runs_for_output, path_text}
use g_halo.Analyze.Run.Texts.{
  system, build_system, has_phases, git_commit, slurm_job_id, rocm_version, rccl_sync_mode, suite,
  timestamp,
}
use g_halo.Json.Show.{str_of}
use g_halo.Analyze.Results.{
  RunResult, effective_bytes_per_second, effective_gib_per_second, phase_fields, AnalyzeFault,
}
use g_halo.Dict.{get_or, Dict, insert}
use g_halo.Text.{Text, lit}
use g_halo.Float.{Float}
use g_halo.Result.{ok, ◌>>=◌, Result}
use g_halo.Json.{int, num, str, find, Json, Fields}
use g_halo.Analyze.Run.{json, csv, SourceFormat, Run, or_text, path_value}
use g_halo.Prelude.{
  some, none, List, Option, ℤ, map, if◌then◌else◌, Bool, [], list_eq, nat_eq, ◌∷◌, false, ◌++◌,
  ◌||◌, ◌&&◌,
}

abbrev pub generic_fields : List Text
generic_fields = map lit (
    "north_south_communication_seconds" ∷ "transpose_copy_seconds" ∷ "transpose_sync_seconds"
    ∷ "east_west_communication_seconds" ∷ "north_south_communication_enqueue_seconds"
    ∷ "transpose_copy_enqueue_seconds" ∷ "east_west_communication_enqueue_seconds"
    ∷ "final_stream_sync_seconds" ∷ "total_exchange_seconds" ∷ [])

-- "" where there is no count
unfoldable pub count_cell : {F : Type 0} → Option ℤ → Json F
count_cell none = str []
count_cell (some n) = int n

abbrev pub format_text : SourceFormat → Text
format_text json = lit "json"
format_text csv = lit "csv"

module _ {F : Type 0} ⦃f : Float F⦄ where
  -- phase.get(name, 0.0)
  unfoldable pub phase_value : Dict Text F → Text → F
  unfolding get_or
  phase_value phase name = get_or (f.literal 0 1) name phase

  -- phase.get(name, 0.0) or phase.get(other, 0.0)
  unfoldable pub value_or : Dict Text F → Text → Text → F
  unfolding phase_value
  value_or phase name other =
      if f.feq (phase_value phase name) (f.literal 0 1)
      then phase_value phase other
      else phase_value phase name

  unfoldable pub has_generic_phase : Dict Text F → List Text → Bool
  unfolding phase_value
  has_generic_phase phase [] = false
  has_generic_phase phase (name ∷ names) =
      f.flt (f.literal 0 1) (f.fabs (phase_value phase name)) || has_generic_phase phase names

  unfoldable pub phases_or_empty : RunResult F → Dict Text F
  phases_or_empty result = elim result.phase_timing [ none ↦ [] | some phase ↦ phase ]

  -- the time that the phases do not account for
  unfoldable pub unaccounted : RunResult F → F
  unfolding has_generic_phase get_or phase_value phases_or_empty
  unaccounted result =
      let phase = phases_or_empty result in
      let rest = f.fsub result.max_average_seconds (phase_value phase (lit "phase_sum_seconds")) in
      if has_generic_phase phase generic_fields
      then get_or rest (lit "total_minus_sum_of_phase_maxima_seconds") phase
      else get_or rest (lit "unattributed_seconds") phase

  unfoldable pub phase_categories : RunResult F → Dict Text F
  unfolding value_or phase_value unaccounted phases_or_empty
  phase_categories result =
      let phase = phases_or_empty result in
      let north_south =
        value_or phase (lit "north_south_communication_seconds") (lit "north_south_mpi_seconds") in
      let transpose_copy =
        value_or phase (lit "transpose_copy_seconds") (lit "transpose_device_copy_seconds") in
      let transpose_sync =
        value_or phase (lit "transpose_sync_seconds") (lit "transpose_copy_sync_seconds") in
      let east_west =
        value_or phase (lit "east_west_communication_seconds") (lit "east_west_mpi_seconds") in
      (
        lit "device_copy_total_seconds",
        f.fadd (phase_value phase (lit "input_device_copy_seconds")) transpose_copy,
      )
      ∷ (lit "communication_total_seconds", f.fadd north_south east_west)
      ∷ (
        lit "mpi_total_seconds",
        f.fadd (phase_value phase (lit "north_south_mpi_seconds"))
            (phase_value phase (lit "east_west_mpi_seconds")),
      )
      ∷ (
        lit "synchronization_total_seconds",
        f.fadd
            (f.fadd (f.fadd (phase_value phase (lit "north_south_sync_seconds")) transpose_sync)
              (phase_value phase (lit "east_west_sync_seconds")))
            (phase_value phase (lit "final_stream_sync_seconds")),
      )
      ∷ (lit "total_minus_sum_of_phase_maxima_seconds", unaccounted result)
      ∷ []

  -- row.update(other), of values that are floats
  unfoldable pub update_floats : Cells F → Dict Text F → Cells F
  unfolding insert
  update_floats row [] = row
  update_floats row ((name, x) ∷ values) = update_floats (insert name (num x) row) values

  unfoldable pub phase_cells : Cells F → List Text → Dict Text F → Cells F
  unfolding insert phase_value
  phase_cells row [] phase = row
  phase_cells row (name ∷ names) phase =
      phase_cells (insert (lit "phase_" ++ name) (num (phase_value phase name)) row) names phase

  -- fields.get(name, "")
  unfoldable pub value_in_fields : Text → Fields F → Json F
  unfolding find
  value_in_fields name fields = elim (find name fields) [ none ↦ str [] | some value ↦ value ]

  -- f"{rows}x{cols}"
  unfoldable pub dimensions_text : RunResult F → Text
  unfolding value_in_fields str_of
  dimensions_text result =
      str_of (value_in_fields (lit "rows") result.topology)
      ++ lit "x"
      ++ str_of (value_in_fields (lit "cols") result.topology)

  -- the columns of a result, in their order
  unfoldable pub result_cells : Run F → Text → RunResult F → Cells F
  unfolding system ranks_per_node nodes count_cell effective_bytes_per_second
      effective_gib_per_second value_in_fields dimensions_text
  result_cells run shown_label result =
      (lit "label", str shown_label)
      ∷ (lit "system", str (system run))
      ∷ (lit "backend", str result.backend)
      ∷ (lit "algorithm", str result.algorithm)
      ∷ (lit "memory_type", value_in_fields (lit "memory_location") result.metadata)
      ∷ (lit "ranks", value_in_fields (lit "world_size") result.topology)
      ∷ (lit "cartesian_dimensions", str (dimensions_text result))
      ∷ (lit "nodes", count_cell (nodes run))
      ∷ (lit "ranks_per_node", count_cell (ranks_per_node run))
      ∷ (lit "halo_words", int result.halo_words)
      ∷ (lit "iterations", int result.iterations)
      ∷ (lit "max_average_seconds", num result.max_average_seconds)
      ∷ (lit "microseconds", num (f.fmul result.max_average_seconds (f.literal 1000000 1)))
      ∷ (lit "bytes_per_rank", int result.total_exchange_bytes_per_rank)
      ∷ (
        lit "per_rank_effective_transferred_byte_rate_Bps",
        num (effective_bytes_per_second result),
      )
      ∷ (
        lit "per_rank_effective_transferred_byte_rate_GiBps",
        num (effective_gib_per_second result),
      )
      ∷ []

  -- the columns of --include-metadata, which are new to the row
  unfoldable pub metadata_cells : Run F → Cells F
  unfolding build_system git_commit slurm_job_id rocm_version rccl_sync_mode suite timestamp
      path_value path_text
  metadata_cells run =
      (lit "build_system", str (build_system run))
      ∷ (lit "git_commit", str (git_commit run))
      ∷ (lit "slurm_job_id", str (slurm_job_id run))
      ∷ (lit "rocm_version", str (rocm_version run))
      ∷ (lit "rccl_sync_mode", str (rccl_sync_mode run))
      ∷ (lit "suite", str (suite run))
      ∷ (lit "timestamp", str (timestamp run))
      ∷ (lit "path_backend", str (path_value (lit "backend") run))
      ∷ (lit "path_label", str (path_value (lit "label") run))
      ∷ (lit "source_format", str (format_text run.source_format))
      ∷ (lit "input_path", str (path_text run.input_path))
      ∷ []

  unfoldable pub summary_row : Run F → Bool → Bool → Text → RunResult F → Cells F
  unfolding result_cells metadata_cells phase_cells update_floats phase_categories has_phases
      phases_or_empty
  summary_row run include_metadata phase_timing shown_label result =
      let row =
        result_cells run shown_label result
        ++ (if include_metadata then metadata_cells run else []) in
      if phase_timing && has_phases result
      then update_floats (phase_cells row phase_fields (phases_or_empty result))
          (phase_categories result)
      else row

  unfoldable pub summary_rows : Run F → Bool → Bool → Option Text → List (Cells F)
  unfolding summary_row sorted_results or_text label
  summary_rows run include_metadata phase_timing label_override =
      map (summary_row run include_metadata phase_timing (or_text label_override (label run)))
        (sorted_results run.results)

  unfoldable pub summaries : List (Run F) → Bool → Bool → Option Text → List (Cells F)
  unfolding summary_rows
  summaries [] include_metadata phase_timing label_override = []
  summaries (run ∷ runs) include_metadata phase_timing label_override =
      summary_rows run include_metadata phase_timing label_override
      ++ summaries runs include_metadata phase_timing label_override

  -- the rows that `command_summarize` writes
  unfoldable pub command_summarize :
      RunFiles F → List FilePath → Bool → Bool → Option Text → Result AnalyzeFault (List (Cells F))
  unfolding load_runs sorted_runs_for_output summaries
  command_summarize files inputs include_metadata phase_timing label_override =
      load_runs files inputs >>= λ runs.
      ok (summaries (sorted_runs_for_output runs) include_metadata phase_timing label_override)
