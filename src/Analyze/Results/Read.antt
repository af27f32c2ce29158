-- ===== src/Analyze/Results/Read.antt =====
-- One result of a run, from an entry of ghalo.json and from a row of ghalo.csv.
use g_halo.Json.Show.{str_of}
use g_halo.Analyze.Results.{
  unquote_csv_string, AnalyzeFault, RunResult, phase_fields, required_fields, python_err,
  AnalysisError,
}
use g_halo.Text.Number.{int_of_text}
use g_halo.Text.{Text, lit}
use g_halo.Float.{Float}
use g_halo.Dict.{get_or, Dict}
use g_halo.Result.{◌>>=◌, map_m, Result, ok, err, ◌>>◌}
use g_halo.Json.{get, to_int, find, Json, as_list, Builtin, Fields, to_float}
use g_halo.Stalls.Load.{JsonFile, absent, parsed, Row, is_nil}
use g_halo.Json.{null, int, str, arr, obj, nil, cons, end, field}
use g_halo.Prelude.{
  List, Option, map, Bool, [], String, false, ℤ, ◌∷◌, ◌++◌, if◌then◌else◌, some, none, list_eq,
  nat_eq, true, not, ◌||◌,
}

module _ {F : Type 0} ⦃f : Float F⦄ where
  -- optional_int(value): no value for None and ""
  unfoldable pub optional_int : Option (Json F) → Result Builtin (Option ℤ)
  unfolding to_int
  optional_int none = ok none
  optional_int (some null) = ok none
  optional_int (some (str [])) = ok none
  optional_int (some value) = to_int value >>= λ n. ok (some n)

  -- item[key]
  unfoldable pub require : Text → Fields F → Result Builtin (Json F)
  unfolding find
  require key fields = elim (find key fields) [
    | none ↦ err Builtin.key_error
    | some value ↦ ok value
  ]

  -- the first of the fields that the entry lacks
  unfoldable pub check_fields : List Text → Fields F → Result AnalyzeFault (Unit {0})
  unfolding find
  check_fields [] item = ok tt
  check_fields (name ∷ names) item = elim (find name item) [
    | none ↦ err (AnalyzeFault.analysis (AnalysisError.missing_field name))
    | some value ↦ check_fields names item
  ]

  -- dict(value), for an object or an empty text or list; a pair list is not taken
  unfoldable pub to_dict : Option (Json F) → Result Builtin (Fields F)
  to_dict none = ok end
  to_dict (some (obj fields)) = ok fields
  to_dict (some (str [])) = ok end
  to_dict (some (str (c ∷ s))) = err Builtin.value_error
  to_dict (some (arr nil)) = ok end
  to_dict (some (arr (cons v vs))) = err Builtin.value_error
  to_dict (some _) = err Builtin.type_error

  -- {name: float(phase.get(name, 0.0)) for name in PHASE_FIELDS}
  unfoldable pub read_phases : List Text → Fields F → Result Builtin (Dict Text F)
  unfolding find to_float
  read_phases [] phase = ok []
  read_phases (name ∷ names) phase = do
    value ← elim (find name phase) [ none ↦ ok (f.literal 0 1) | some value ↦ to_float value ]
    rest ← read_phases names phase
    ok ((name, value) ∷ rest)

  unfoldable pub phases_of : Option (Json F) → Result Builtin (Option (Dict Text F))
  unfolding read_phases
  phases_of (some (obj phase)) = read_phases phase_fields phase >>= λ values. ok (some values)
  phases_of _ = ok none

  -- the constructor's arguments, in their order
  unfoldable pub build_result : Fields F → Result Builtin (RunResult F)
  unfolding require to_int to_float str_of optional_int to_dict phases_of find
  build_result item = do
    halo ← require (lit "halo_words") item >>= λ value. to_int value
    backend ← require (lit "backend") item
    algorithm ← require (lit "algorithm") item
    iterations ← require (lit "iterations") item >>= λ value. to_int value
    seconds ← require (lit "max_average_seconds") item >>= λ value. to_float value
    total ← elim (find (lit "max_total_seconds") item) [
      | none ↦ ok (f.literal 0 1)
      | some value ↦ to_float value
    ]
    bytes ← require (lit "total_exchange_bytes_per_rank") item >>= λ value. to_int value
    word ← optional_int (find (lit "word_bytes") item)
    message ← optional_int (find (lit "n_message_bytes") item)
    two_message ← optional_int (find (lit "two_n_message_bytes") item)
    topology ← to_dict (find (lit "topology") item)
    metadata ← to_dict (find (lit "metadata") item)
    phases ← phases_of (find (lit "phase_timing") item)
    ok (record {
      halo_words = halo;
      backend = str_of backend;
      algorithm = str_of algorithm;
      iterations = iterations;
      max_average_seconds = seconds;
      max_total_seconds = total;
      total_exchange_bytes_per_rank = bytes;
      word_bytes = word;
      n_message_bytes = message;
      two_n_message_bytes = two_message;
      topology = topology;
      metadata = metadata;
      phase_timing = phases;
    })

  unfoldable pub result_from_json : Json F → Result AnalyzeFault (RunResult F)
  unfolding check_fields build_result
  result_from_json (obj item) = check_fields required_fields item >> python_err (build_result item)
  result_from_json _ = err (AnalyzeFault.analysis AnalysisError.not_an_object)

  unfoldable pub results_from_json : List (Json F) → Result AnalyzeFault (List (RunResult F))
  unfolding map_m result_from_json
  results_from_json items = map_m result_from_json items

  -- the results of load_json_run: `payload.get("results")` must be a list
  unfoldable pub load_json_results : JsonFile F → Result AnalyzeFault (List (RunResult F))
  unfolding results_from_json get as_list
  load_json_results (parsed payload) = python_err (get (lit "results") payload) >>= λ found.
      elim found [
        | none ↦ err (AnalyzeFault.analysis AnalysisError.missing_results)
        | some value ↦ elim (as_list value) [
          | none ↦ err (AnalyzeFault.analysis AnalysisError.missing_results)
          | some items ↦ results_from_json items
        ]
      ]
  load_json_results absent = err (AnalyzeFault.python Builtin.os_error)
  load_json_results _ = err (AnalyzeFault.analysis AnalysisError.malformed)

-- a cell's text, "" where the column is missing
unfoldable pub text_cell : Text → Row → Text
unfolding get_or
text_cell column row = get_or [] column row

unfoldable pub check_cells : List Text → Row → Result AnalyzeFault (Unit {0})
unfolding text_cell
check_cells [] row = ok tt
check_cells (name ∷ names) row =
    let rest = check_cells names row in
    if is_nil (text_cell name row)
    then err (AnalyzeFault.analysis (AnalysisError.missing_field name))
    else rest

-- int(row[column]) of a cell that is there
unfoldable pub cell_int : Text → Row → Result Builtin ℤ
unfolding int_of_text text_cell
cell_int column row = elim (int_of_text (text_cell column row)) [
  | none ↦ err Builtin.value_error
  | some n ↦ ok n
]

-- optional_int(row.get(column))
unfoldable pub optional_cell : Text → Row → Result Builtin (Option ℤ)
unfolding text_cell cell_int
optional_cell column row =
    if is_nil (text_cell column row) then ok none else cell_int column row >>= λ n. ok (some n)

-- the columns of the topology, with the names that they get
abbrev pub topology_columns : Dict Text Text
topology_columns =
    map (λ (p : String × String). (lit p.0, lit p.1))
      (("world_size", "world_size")
        ∷ ("world_rank", "root_world_rank")
        ∷ ("cart_rank", "root_cart_rank")
        ∷ ("rows", "rows")
        ∷ ("cols", "cols")
        ∷ ("row", "root_row")
        ∷ ("col", "root_col")
        ∷ ("north", "root_north")
        ∷ ("south", "root_south")
        ∷ ("east", "root_east")
        ∷ ("west", "root_west")
        ∷ [])

-- the columns of the metadata, and whether their texts are unquoted
abbrev pub metadata_columns : Dict Text Bool
metadata_columns =
    map (λ (p : String × Bool). (lit p.0, p.1))
      (("memory_location", false)
        ∷ ("mpi_library_version", true)
        ∷ ("hip_runtime_version", true)
        ∷ ("rocm_version", true)
        ∷ ("rccl_sync_mode", true)
        ∷ ("synchronization_model", true)
        ∷ ("validation_enabled", false)
        ∷ ("validation_passed", false)
        ∷ ("nodes", false)
        ∷ ("ranks_per_node", false)
        ∷ [])

unfoldable pub phase_cell : Text → Row → Text
unfolding text_cell
phase_cell name row = text_cell (lit "phase_" ++ name) row

unfoldable pub any_phase : List Text → Row → Bool
unfolding phase_cell
any_phase [] row = false
any_phase (name ∷ names) row = not (is_nil (phase_cell name row)) || any_phase names row

module _ {F : Type 0} ⦃f : Float F⦄ where
  unfoldable pub read_topology : Dict Text Text → Row → Result Builtin (Fields F)
  unfolding optional_cell
  read_topology [] row = ok end
  read_topology ((name, column) ∷ columns) row = do
    value ← optional_cell column row
    rest ← read_topology columns row
    ok (field name (elim value [ none ↦ null | some n ↦ int n ]) rest)

  unfoldable pub read_metadata : Dict Text Bool → Row → Fields F
  unfolding text_cell unquote_csv_string
  read_metadata [] row = end
  read_metadata ((name, quoted) ∷ columns) row =
      let value = text_cell name row in
      field name (str (if quoted then unquote_csv_string value else value))
        (read_metadata columns row)

  -- float(text or 0.0)
  unfoldable pub float_or_zero : Text → Result Builtin F
  float_or_zero [] = ok (f.literal 0 1)
  float_or_zero (c ∷ s) = elim (f.of_text (c ∷ s)) [
    | none ↦ err Builtin.value_error
    | some x ↦ ok x
  ]

  unfoldable pub read_phase_cells : List Text → Row → Result Builtin (Dict Text F)
  unfolding phase_cell float_or_zero
  read_phase_cells [] row = ok []
  read_phase_cells (name ∷ names) row = do
    value ← float_or_zero (phase_cell name row)
    rest ← read_phase_cells names row
    ok ((name, value) ∷ rest)

  unfoldable pub phase_cells : Row → Result Builtin (Option (Dict Text F))
  unfolding any_phase read_phase_cells
  phase_cells row =
      if any_phase phase_fields row
      then (read_phase_cells phase_fields row >>= λ values. ok (some values))
      else ok none

  unfoldable pub build_csv_result : Row → Result Builtin (RunResult F)
  unfolding read_topology read_metadata phase_cells cell_int text_cell float_or_zero optional_cell
  build_csv_result row = do
    topology ← read_topology topology_columns row
    phases ← phase_cells row
    halo ← cell_int (lit "halo_words") row
    iterations ← cell_int (lit "iterations") row
    seconds ← float_or_zero (text_cell (lit "max_average_seconds") row)
    total ← float_or_zero (text_cell (lit "max_total_seconds") row)
    bytes ← cell_int (lit "total_exchange_bytes_per_rank") row
    word ← optional_cell (lit "word_bytes") row
    message ← optional_cell (lit "n_message_bytes") row
    two_message ← optional_cell (lit "two_n_message_bytes") row
    ok (record {
      halo_words = halo;
      backend = text_cell (lit "backend") row;
      algorithm = text_cell (lit "algorithm") row;
      iterations = iterations;
      max_average_seconds = seconds;
      max_total_seconds = total;
      total_exchange_bytes_per_rank = bytes;
      word_bytes = word;
      n_message_bytes = message;
      two_n_message_bytes = two_message;
      topology = topology;
      metadata = read_metadata metadata_columns row;
      phase_timing = phases;
    })

  unfoldable pub result_from_csv : Row → Result AnalyzeFault (RunResult F)
  unfolding check_cells build_csv_result
  result_from_csv row = check_cells required_fields row >> python_err (build_csv_result row)

  -- the results of load_csv_run
  unfoldable pub load_csv_results : List Row → Result AnalyzeFault (List (RunResult F))
  unfolding map_m result_from_csv
  load_csv_results [] = err (AnalyzeFault.analysis AnalysisError.empty_csv)
  load_csv_results (row ∷ rows) = map_m result_from_csv (row ∷ rows)
