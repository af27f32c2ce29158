-- ===== src/Analyze/Results.antt =====
-- The results of a run: `result_from_json`, `result_from_csv`, `load_json_run`, `load_csv_run` and
-- `validate_run` of tools/ghalo_analyze.py.
pub mod Read
pub mod Required
pub mod Valid
pub mod Quoted
use g_halo.Dict.{Dict}
use g_halo.Float.{Float}
use g_halo.Result.{Result, ok, err}
use g_halo.Json.{Builtin, Fields}
use g_halo.Text.{Text, lit}
use g_halo.Prelude.{ℕ, List, ℤ, map, Option, ◌∷◌, if◌then◌else◌, [], ◌==◌, ◌&&◌, nat_eq}

-- REQUIRED_FIELDS and PHASE_FIELDS
abbrev pub required_fields : List Text
required_fields = map lit (
    "backend" ∷ "algorithm" ∷ "halo_words" ∷ "total_exchange_bytes_per_rank" ∷ "iterations"
    ∷ "max_average_seconds" ∷ [])

abbrev pub phase_fields : List Text
phase_fields = map lit (
    "input_device_copy_seconds" ∷ "north_south_mpi_seconds" ∷ "north_south_communication_seconds"
    ∷ "north_south_sync_seconds" ∷ "transpose_device_copy_seconds" ∷ "transpose_copy_seconds"
    ∷ "transpose_copy_sync_seconds" ∷ "transpose_sync_seconds" ∷ "east_west_mpi_seconds"
    ∷ "east_west_communication_seconds" ∷ "east_west_sync_seconds"
    ∷ "north_south_communication_enqueue_seconds" ∷ "transpose_copy_enqueue_seconds"
    ∷ "east_west_communication_enqueue_seconds" ∷ "final_stream_sync_seconds" ∷ "phase_sum_seconds"
    ∷ "unattributed_seconds" ∷ "total_exchange_seconds" ∷ "total_minus_sum_of_phase_maxima_seconds"
    ∷ [])

-- The messages of `AnalysisError`, with the values that they show but for the path of the file.
pub data AnalysisError : Type 0 where
  not_an_object malformed missing_results empty_csv : AnalysisError
  missing_field : Text → AnalysisError
  empty_results nonpositive_seconds inconsistent_ranks : AnalysisError
  duplicate_halo : ℤ → AnalysisError
  not_a_result no_result_file no_input : AnalysisError
  different_sizes incompatible bytes_differ : AnalysisError
  no_values two_runs : AnalysisError
  unsupported_group unsupported_axis unsupported_baseline unsupported_format : Text → AnalysisError
  unknown_nodes unknown_ranks : AnalysisError
  no_baseline : ℤ → AnalysisError
  label_count : ℕ → ℕ → AnalysisError
  not_rows : AnalysisError

pub data AnalyzeFault : Type 0 where
  analysis : AnalysisError → AnalyzeFault
  python : Builtin → AnalyzeFault

abbrev pub python_err {ℓ} : {A : Type ℓ} → Result Builtin A → Result AnalyzeFault A
python_err (ok a) = ok a
python_err (err e) = err (AnalyzeFault.python e)

pub record RunResult (F : Type 0) : Type 0 where
  pub halo_words : ℤ
  pub backend : Text
  pub algorithm : Text
  pub iterations : ℤ
  pub max_average_seconds : F
  pub max_total_seconds : F
  pub total_exchange_bytes_per_rank : ℤ
  pub word_bytes : Option ℤ
  pub n_message_bytes : Option ℤ
  pub two_n_message_bytes : Option ℤ
  pub topology : Fields F
  pub metadata : Fields F
  pub phase_timing : Option (Dict Text F)

-- s.replace(a, b) for a text a of two characters and b of one
unfoldable pub replace_pair : ℕ → ℕ → ℕ → Text → Text
replace_pair a b new [] = []
replace_pair a b new (c ∷ []) = c ∷ []
replace_pair a b new (c ∷ d ∷ s) =
    let both = new ∷ replace_pair a b new s in
    let next = c ∷ replace_pair a b new (d ∷ s) in if c == a && d == b then both else next

-- the text without its last character
unfoldable pub init : Text → Text
init [] = []
init (c ∷ []) = []
init (c ∷ d ∷ s) = c ∷ init (d ∷ s)

unfoldable pub last_char : ℕ → Text → ℕ
last_char c [] = c
last_char c (d ∷ s) = last_char d s

unfoldable pub unquote_csv_string : Text → Text
unfolding replace_pair init last_char
unquote_csv_string [] = []
unquote_csv_string (c ∷ []) = c ∷ []
unquote_csv_string (c ∷ d ∷ s) =
    if c == b'"' && last_char d s == b'"'
    then replace_pair b'\\' b'\\' b'\\' (replace_pair b'\\' b'"' b'"' (init (d ∷ s)))
    else c ∷ d ∷ s

module _ {F : Type 0} ⦃f : Float F⦄ where
  unfoldable pub effective_bytes_per_second : RunResult F → F
  effective_bytes_per_second r =
      f.fdiv (f.of_int r.total_exchange_bytes_per_rank) r.max_average_seconds

  unfoldable pub effective_gib_per_second : RunResult F → F
  unfolding effective_bytes_per_second
  effective_gib_per_second r = f.fdiv (effective_bytes_per_second r) (f.literal 1073741824 1)
