-- ===== src/Stalls/Readers.antt =====
-- `load_iteration_records`, `load_phase_records` and `load_rank_records`.
use g_halo.Prelude.{List, [], ◌∷◌, map, pos, negsuc}
use g_halo.Result.{Result, ok, ◌>>=◌}
use g_halo.Text.{Text, lit}
use g_halo.Dict.{Dict}
use g_halo.Float.{Float}
use g_halo.Stalls.{IterationRecord, PhaseRecord, RankRecord, Fault, Warning}
use g_halo.Stalls.Load.{
  Row, CsvFile, cell, cell_or_blank, int_cell, parse_int, float_cell, parse_float, read_table,
}

abbrev pub iteration_columns : List Text
iteration_columns = map lit (
    "halo_words" ∷ "sample_index" ∷ "iteration_index" ∷ "global_max_iteration_seconds" ∷ "max_rank"
    ∷ "backend" ∷ "rccl_sync_mode" ∷ "world_size" ∷ [])

abbrev pub phase_record_columns : List Text
phase_record_columns = map lit (
    "halo_words" ∷ "sample_index" ∷ "iteration_index" ∷ "total_iteration_seconds"
    ∷ "total_iteration_max_rank" ∷ "backend_schema" ∷ "phase_name" ∷ "phase_seconds"
    ∷ "phase_max_rank" ∷ [])

abbrev pub rank_columns : List Text
rank_columns = map lit (
    "halo_words" ∷ "sample_index" ∷ "iteration_index" ∷ "world_rank" ∷ "local_rank" ∷ "hostname"
    ∷ "selected_hip_device" ∷ "cart_row" ∷ "cart_col" ∷ "local_total_iteration_seconds"
    ∷ "global_max_iteration_seconds" ∷ "global_max_iteration_rank" ∷ "backend_schema" ∷ [])

-- the columns of a rank record's `phases`
abbrev pub phase_columns : List Text
phase_columns = map lit (
    "north_south_communication_seconds" ∷ "north_south_sync_seconds" ∷ "transpose_copy_seconds"
    ∷ "transpose_sync_seconds" ∷ "east_west_communication_seconds" ∷ "east_west_sync_seconds"
    ∷ "north_south_enqueue_seconds" ∷ "transpose_enqueue_seconds" ∷ "east_west_enqueue_seconds"
    ∷ "final_stream_sync_seconds" ∷ "input_device_copy_seconds" ∷ "north_south_mpi_seconds"
    ∷ "transpose_device_copy_seconds" ∷ "transpose_copy_sync_seconds" ∷ "east_west_mpi_seconds"
    ∷ [])

module _ {F : Type 0} ⦃f : Float F⦄ where
  unfoldable pub iteration_record : Row → Result Fault (IterationRecord F)
  iteration_record row = do
    halo ← int_cell (lit "halo_words") row
    sample ← int_cell (lit "sample_index") row
    iteration ← int_cell (lit "iteration_index") row
    duration ← float_cell (lit "global_max_iteration_seconds") row
    rank ← int_cell (lit "max_rank") row
    world ← parse_int (lit "world_size") (pos 0) row
    ok (record {
      halo_words = halo;
      sample_index = sample;
      iteration_index = iteration;
      duration_seconds = duration;
      max_rank = rank;
      backend = cell_or_blank (lit "backend") row;
      rccl_sync_mode = cell_or_blank (lit "rccl_sync_mode") row;
      world_size = world;
    })

  unfoldable pub load_iteration_records :
      CsvFile → Result Fault (List (IterationRecord F) × List Warning)
  unfolding read_table
  load_iteration_records =
      read_table (lit "iteration timing file") iteration_columns iteration_record

  unfoldable pub phase_record : Row → Result Fault (PhaseRecord F)
  phase_record row = do
    halo ← int_cell (lit "halo_words") row
    sample ← int_cell (lit "sample_index") row
    iteration ← int_cell (lit "iteration_index") row
    name ← cell (lit "phase_name") row
    seconds ← float_cell (lit "phase_seconds") row
    rank ← int_cell (lit "phase_max_rank") row
    total ← float_cell (lit "total_iteration_seconds") row
    total_rank ← int_cell (lit "total_iteration_max_rank") row
    schema ← cell (lit "backend_schema") row
    ok (record {
      halo_words = halo;
      sample_index = sample;
      iteration_index = iteration;
      phase_name = name;
      phase_seconds = seconds;
      phase_max_rank = rank;
      total_iteration_seconds = total;
      total_iteration_max_rank = total_rank;
      backend_schema = schema;
    })

  unfoldable pub load_phase_records : CsvFile → Result Fault (List (PhaseRecord F) × List Warning)
  unfolding read_table
  load_phase_records =
      read_table (lit "iteration phase timing file") phase_record_columns phase_record

  -- {column: parse_float(row, column) for column in columns}
  unfoldable pub phase_values : List Text → Row → Result Fault (Dict Text F)
  phase_values [] row = ok []
  phase_values (column ∷ columns) row = do
    value ← parse_float column row
    rest ← phase_values columns row
    ok ((column, value) ∷ rest)

  unfoldable pub rank_record : Row → Result Fault (RankRecord F)
  unfolding phase_values
  rank_record row = do
    halo ← int_cell (lit "halo_words") row
    sample ← int_cell (lit "sample_index") row
    iteration ← int_cell (lit "iteration_index") row
    world_rank ← int_cell (lit "world_rank") row
    local_rank ← parse_int (lit "local_rank") (negsuc 0) row
    device ← parse_int (lit "selected_hip_device") (negsuc 0) row
    cart_row ← parse_int (lit "cart_row") (negsuc 0) row
    cart_col ← parse_int (lit "cart_col") (negsuc 0) row
    local_total ← parse_float (lit "local_total_iteration_seconds") row
    global_max ← parse_float (lit "global_max_iteration_seconds") row
    global_rank ← parse_int (lit "global_max_iteration_rank") (negsuc 0) row
    phases ← phase_values phase_columns row
    ok (record {
      halo_words = halo;
      sample_index = sample;
      iteration_index = iteration;
      world_rank = world_rank;
      local_rank = local_rank;
      hostname = cell_or_blank (lit "hostname") row;
      selected_hip_device = device;
      cart_row = cart_row;
      cart_col = cart_col;
      local_total_iteration_seconds = local_total;
      global_max_iteration_seconds = global_max;
      global_max_iteration_rank = global_rank;
      backend_schema = cell_or_blank (lit "backend_schema") row;
      phases = phases;
    })

  unfoldable pub load_rank_records : CsvFile → Result Fault (List (RankRecord F) × List Warning)
  unfolding read_table
  load_rank_records = read_table (lit "stalled rank timing file") rank_columns rank_record
