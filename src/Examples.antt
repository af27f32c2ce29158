-- ===== src/Examples.antt =====
-- A small result directory, for the tests and the examples of the theorems.
pub mod Stalls
pub mod Versions
pub mod Migrate
pub mod Discover
pub mod Analyze
pub mod Runs
pub mod Pairs
pub mod Report
pub mod Tables
use g_halo.Float.Micro.{unit}
use g_halo.Text.{lit}
use g_halo.Stalls.Summary.{CaseFiles}
use g_halo.Stalls.Paths.{FilePath}
use g_halo.Stalls.Load.{CsvFile, Row, JsonFile}
use g_halo.Json.{Json, Fields, Items, str, obj, end, nil, int, arr, field, cons, boolean}
use g_halo.Result.{Result, ok, err}
use g_halo.Prelude.{ℕ, List, String, Option, ◌≡◌, map, ◌∷◌, some, [], none, ◌*◌, pos, refl, true}

-- the value of a computation that returns one
abbrev pub IsOk : {E A : Type 0} → Result E A → Type 0
IsOk (ok a) = Unit
IsOk (err e) = ⊥

abbrev pub value_of : {E A : Type 0} (r : Result E A) → IsOk r → A
value_of (ok a) p = a
value_of (err e) p = absurd p

pub eq_value_of : {E A : Type 0} (r : Result E A) (p : IsOk r) → r ≡ ok (value_of r p)
eq_value_of (ok a) p = refl
eq_value_of (err e) p = absurd p

abbrev pub fields : List (String × Json ℕ) → Fields ℕ
fields [] = end
fields ((key, value) ∷ rest) = field (lit key) value (fields rest)

abbrev pub array : List (Json ℕ) → Items ℕ
array [] = nil
array (value ∷ values) = cons value (array values)

abbrev pub text : String → Json ℕ
text s = str (lit s)

abbrev pub result_json : ℕ → Json ℕ
result_json sample = obj (
    fields (
      ("halo_words", int (pos 64))
      ∷ ("sample_index", int (pos sample))
      ∷ ("iterations", int (pos 3))
      ∷ ("backend", text "RCCL")
      ∷ ("max_average_seconds", int (pos 1))
      ∷ (
        "metadata",
        obj (
            fields (
              ("rocm_version", text "6.4.2")
              ∷ ("rccl_sync_mode", text "conservative")
              ∷ ("validation_passed", boolean true)
              ∷ [])),
      )
      ∷ []))

abbrev pub payload : Json ℕ
payload = obj (fields (("results", arr (array (result_json 2 ∷ result_json 1 ∷ []))) ∷ []))

abbrev pub row : List String → List String → Row
row [] cells = []
row (column ∷ columns) [] = []
row (column ∷ columns) (cell ∷ cells) = (lit column, lit cell) ∷ row columns cells

abbrev pub csv : List String → List (List String) → CsvFile
csv columns rows = CsvFile.table (map lit columns) (map (row columns) rows)

abbrev pub iteration_csv : CsvFile
iteration_csv =
    csv
      ("halo_words" ∷ "sample_index" ∷ "iteration_index" ∷ "global_max_iteration_seconds"
        ∷ "max_rank" ∷ "backend" ∷ "rccl_sync_mode" ∷ "world_size" ∷ [])
      (("64" ∷ "1" ∷ "0" ∷ "5" ∷ "1" ∷ "RCCL" ∷ "conservative" ∷ "2" ∷ [])
        ∷ ("64" ∷ "1" ∷ "1" ∷ "6" ∷ "0" ∷ "RCCL" ∷ "conservative" ∷ "2" ∷ [])
        ∷ ("64" ∷ "2" ∷ "0" ∷ "1" ∷ "1" ∷ "RCCL" ∷ "conservative" ∷ "2" ∷ [])
        ∷ [])

abbrev pub phase_csv : CsvFile
phase_csv =
    csv
      ("halo_words" ∷ "sample_index" ∷ "iteration_index" ∷ "total_iteration_seconds"
        ∷ "total_iteration_max_rank" ∷ "backend_schema" ∷ "phase_name" ∷ "phase_seconds"
        ∷ "phase_max_rank" ∷ [])
      (("64" ∷ "1" ∷ "0" ∷ "5" ∷ "1" ∷ "rccl" ∷ "east_west_sync" ∷ "4" ∷ "1" ∷ [])
        ∷ ("64" ∷ "1" ∷ "0" ∷ "5" ∷ "1" ∷ "rccl" ∷ "transpose_copy" ∷ "1" ∷ "0" ∷ [])
        ∷ ("64" ∷ "1" ∷ "1" ∷ "6" ∷ "0" ∷ "rccl" ∷ "east_west_sync" ∷ "5" ∷ "0" ∷ [])
        ∷ [])

abbrev pub rank_csv : CsvFile
rank_csv =
    csv
      ("halo_words" ∷ "sample_index" ∷ "iteration_index" ∷ "world_rank" ∷ "local_rank" ∷ "hostname"
        ∷ "selected_hip_device" ∷ "cart_row" ∷ "cart_col" ∷ "local_total_iteration_seconds"
        ∷ "global_max_iteration_seconds" ∷ "global_max_iteration_rank" ∷ "backend_schema" ∷ [])
      (("64" ∷ "1" ∷ "0" ∷ "1" ∷ "1" ∷ "node1" ∷ "1" ∷ "0" ∷ "1" ∷ "5" ∷ "5" ∷ "1" ∷ "rccl" ∷ [])
        ∷ ("64" ∷ "1" ∷ "0" ∷ "0" ∷ "0" ∷ "node1" ∷ "0" ∷ "0" ∷ "0" ∷ "2" ∷ "5" ∷ "1" ∷ "rccl" ∷ [])
        ∷ [])

abbrev pub case_path : FilePath
case_path = map lit ("results" ∷ "borg" ∷ "rocm-6.4.2" ∷ "repeatability" ∷ "run" ∷ [])

abbrev pub case_files : CaseFiles ℕ
case_files = record {
  path = case_path;
  ghalo_json = JsonFile.parsed payload;
  result_metadata = none;
  system_resolution = none;
  iteration_times = iteration_csv;
  iteration_phase_times = phase_csv;
  stalled_rank_times = rank_csv;
}

-- three seconds, in microseconds
abbrev pub three_seconds : Option ℕ
three_seconds = some (3000000 * unit)
