-- ===== src/Analyze/Run/Texts.antt =====
-- The texts that a `Run` of tools/ghalo_analyze.py gives of itself.
use g_halo.Stalls.Load.{is_nil}
use g_halo.Stalls.Paths.{infer_system_from_path}
use g_halo.Json.{find}
use g_halo.Text.{or_else, Text, lit}
use g_halo.Json.Show.{str_of}
use g_halo.Analyze.Run.{Run, path_value, or_text, meta_value, meta_value_from}
use g_halo.Analyze.Results.{RunResult}
use g_halo.Float.{Float}
use g_halo.Prelude.{List, Bool, false, [], none, ◌∷◌, some, not, ◌||◌}

module _ {F : Type 0} ⦃f : Float F⦄ where
  -- str(metadata.get(key, ""))
  unfoldable pub metadata_text : Text → RunResult F → Text
  unfolding str_of find
  metadata_text key result = elim (find key result.metadata) [
    | none ↦ []
    | some value ↦ str_of value
  ]

  -- the first result's metadata, or the metadata files, or the path
  unfoldable pub result_text : Text → Run F → Text
  unfolding metadata_text or_else or_text meta_value path_value
  result_text key run = elim run.results [
    | [] ↦ path_value key run
    | result ∷ results ↦
        or_else (metadata_text key result)
          (or_text (meta_value (key ∷ []) run) (path_value key run))
  ]

  unfoldable pub backend : Run F → Text
  unfolding path_value
  backend run = elim run.results [
    | [] ↦ path_value (lit "backend") run
    | result ∷ results ↦ result.backend
  ]

  unfoldable pub algorithm : Run F → Text
  algorithm run = elim run.results [ [] ↦ [] | result ∷ results ↦ result.algorithm ]

  unfoldable pub memory_location : Run F → Text
  unfolding metadata_text
  memory_location run = elim run.results [
    | [] ↦ []
    | result ∷ results ↦ metadata_text (lit "memory_location") result
  ]

  unfoldable pub rccl_sync_mode : Run F → Text
  unfolding result_text
  rccl_sync_mode run = result_text (lit "rccl_sync_mode") run

  unfoldable pub rocm_version : Run F → Text
  unfolding result_text
  rocm_version run = result_text (lit "rocm_version") run

  unfoldable pub suite : Run F → Text
  unfolding or_text meta_value path_value
  suite run =
      or_text (meta_value (lit "suite" ∷ []) run)
        (or_text (meta_value (lit "result_category" ∷ []) run) (path_value (lit "suite") run))

  unfoldable pub timestamp : Run F → Text
  unfolding or_text meta_value path_value
  timestamp run = or_text (meta_value (lit "timestamp" ∷ []) run) (path_value (lit "timestamp") run)

  unfoldable pub system : Run F → Text
  unfolding or_text meta_value path_value or_else infer_system_from_path
  system run =
      or_text (meta_value (lit "active_system" ∷ []) run)
        (or_else (path_value (lit "system") run) (infer_system_from_path run.result_path))

  unfoldable pub build_system : Run F → Text
  unfolding or_text meta_value
  build_system run = or_text (meta_value (lit "build_system" ∷ []) run) []

  unfoldable pub git_commit : Run F → Text
  unfolding or_text meta_value meta_value_from
  git_commit run =
      or_text (meta_value_from (lit "git.txt") (lit "commit" ∷ []) run)
        (or_text (meta_value (lit "git_commit" ∷ []) run) [])

  unfoldable pub slurm_job_id : Run F → Text
  unfolding or_text meta_value_from
  slurm_job_id run =
      or_text (meta_value_from (lit "submission.txt") (lit "slurm_job_id" ∷ []) run) []

-- a phase timing that is there and not empty
unfoldable pub has_phases : {F : Type 0} → RunResult F → Bool
has_phases result = elim result.phase_timing [ none ↦ false | some phases ↦ not (is_nil phases) ]

unfoldable pub any_phases : {F : Type 0} → List (RunResult F) → Bool
unfolding has_phases
any_phases [] = false
any_phases (result ∷ results) = has_phases result || any_phases results

unfoldable pub phase_timing_enabled : {F : Type 0} → Run F → Bool
unfolding any_phases
phase_timing_enabled run = any_phases run.results
