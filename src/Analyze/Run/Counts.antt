-- ===== src/Analyze/Run/Counts.antt =====
-- The rank and node counts of a `Run` of tools/ghalo_analyze.py.
use g_halo.Dict.{lookup}
use g_halo.Json.Show.{str_of}
use g_halo.Analyze.Numbers.{parse_int, parse_first_int}
use g_halo.Prelude.{pos, negsuc, ◌/◌, negate, ◌++◌, list_eq, nat_eq, suc}
use g_halo.Json.{null, Json}
use g_halo.Result.{Result, ok, ◌>>=◌}
use g_halo.Text.Number.{show_int}
use g_halo.Analyze.Results.Read.{optional_int}
use g_halo.Analyze.Run.{Run, meta_value_from, path_metadata, meta_value}
use g_halo.Json.{find, Fields, Builtin}
use g_halo.Text.{Text, lit}
use g_halo.Float.{Float}
use g_halo.Prelude.{
  ℕ, ℤ, Option, List, some, ◌+◌, if◌then◌else◌, map, none, [], not, ◌∷◌, ◌==◌, ◌&&◌, ◌%◌, nat_eq,
}

abbrev pub magnitude : ℤ → ℕ
magnitude (pos n) = n
magnitude (negsuc n) = suc n

-- a // b, for b other than 0
unfoldable pub floor_div : ℤ → ℤ → ℤ
floor_div (pos a) (pos b) = pos (a / b)
floor_div (pos a) (negsuc b) = negate (pos ((a + b) / (b + 1)))
floor_div (negsuc a) (pos b) = negate (pos ((a + b) / b))
floor_div (negsuc a) (negsuc b) = pos ((a + 1) / (b + 1))

-- a and b and a % b == 0, then a // b
unfoldable pub exact_quotient : Option ℤ → Option ℤ → Option ℤ
unfolding floor_div
exact_quotient (some a) (some b) =
    if not (magnitude a == 0) && (not (magnitude b == 0) && magnitude a % magnitude b == 0)
    then some (floor_div a b)
    else none
exact_quotient _ _ = none

-- the first of two values that is there
abbrev pub or_count : Option ℤ → Option ℤ → Option ℤ
or_count none other = other
or_count (some n) other = some n

abbrev pub natural : Option ℕ → Option ℤ
natural none = none
natural (some n) = some (pos n)

abbrev pub node_keys : List Text
node_keys = map lit ("nodes" ∷ "node_count" ∷ "num_nodes" ∷ "slurm_job_num_nodes" ∷ [])

abbrev pub file_node_keys : List Text
file_node_keys =
    map lit
      ("nodes" ∷ "node_count" ∷ "num_nodes" ∷ "SLURM_JOB_NUM_NODES" ∷ "NodeCnt" ∷ "NumNodes" ∷ [])

abbrev pub node_files : List Text
node_files = map lit ("submission.txt" ∷ "slurm-job.txt" ∷ "environment.txt" ∷ [])

abbrev pub rank_keys : List Text
rank_keys = map lit ("ranks_per_node" ∷ "tasks_per_node" ∷ "gpus_per_node" ∷ [])

module _ {F : Type 0} ⦃f : Float F⦄ where
  -- parse_int of a value of a result, or of None
  unfoldable pub parse_value : Option (Json F) → Option ℤ
  unfolding parse_int str_of
  parse_value none = none
  parse_value (some null) = none
  parse_value (some value) = parse_int (some (str_of value))

  unfoldable pub first_int : List Text → Fields F → Option ℤ
  unfolding parse_value find
  first_int [] metadata = none
  first_int (key ∷ keys) metadata =
      or_count (parse_value (find key metadata)) (first_int keys metadata)

  unfoldable pub first_result_metadata_int : List Text → Run F → Option ℤ
  unfolding first_int
  first_result_metadata_int keys run = elim run.results [
    | [] ↦ none
    | result ∷ results ↦ first_int keys result.metadata
  ]

  -- the loop over the files that may give the node count
  unfoldable pub nodes_in_files : List Text → Run F → Option ℤ
  unfolding parse_int meta_value_from
  nodes_in_files [] run = none
  nodes_in_files (name ∷ names) run =
      or_count (parse_int (meta_value_from name file_node_keys run)) (nodes_in_files names run)

  unfoldable pub nodes_without_derivation : Run F → Option ℤ
  unfolding first_result_metadata_int nodes_in_files
  nodes_without_derivation run =
      or_count (first_result_metadata_int node_keys run) (nodes_in_files node_files run)

  unfoldable pub ranks : Run F → Option ℤ
  unfolding parse_value parse_int path_metadata lookup find
  ranks run =
      let from_path = parse_int (lookup (lit "ranks") (path_metadata run)) in
      elim run.results [
        | [] ↦ from_path
        | result ∷ results ↦
            or_count (parse_value (find (lit "world_size") result.topology)) from_path
      ]

  -- the count that is written down, in the order in which the places are read
  unfoldable pub stated_ranks_per_node : Run F → Option ℤ
  unfolding first_result_metadata_int parse_int parse_first_int meta_value meta_value_from
  stated_ranks_per_node run = or_count (first_result_metadata_int rank_keys run) (
      or_count
        (parse_int
          (meta_value_from (lit "result-metadata.txt") (lit "requested_ranks_per_node" ∷ []) run))
        (natural
          (parse_first_int (meta_value (rank_keys ++ lit "SLURM_NTASKS_PER_NODE" ∷ []) run))))

  unfoldable pub ranks_per_node : Run F → Option ℤ
  unfolding stated_ranks_per_node exact_quotient nodes_without_derivation ranks
  ranks_per_node run =
      or_count (stated_ranks_per_node run)
        (exact_quotient (ranks run) (nodes_without_derivation run))

  unfoldable pub stated_nodes : Run F → Option ℤ
  unfolding parse_int meta_value_from nodes_without_derivation lookup path_metadata
  stated_nodes run =
      or_count
        (parse_int (meta_value_from (lit "result-metadata.txt") (lit "requested_nodes" ∷ []) run))
        (or_count (nodes_without_derivation run)
          (parse_int (lookup (lit "nodes") (path_metadata run))))

  unfoldable pub nodes : Run F → Option ℤ
  unfolding stated_nodes exact_quotient ranks ranks_per_node
  nodes run = or_count (stated_nodes run) (exact_quotient (ranks run) (ranks_per_node run))

  -- int(value) of a value of the topology, or None
  unfoldable pub dimension : Text → Run F → Result Builtin (Option ℤ)
  unfolding optional_int find
  dimension key run = elim run.results [
    | [] ↦ ok none
    | result ∷ results ↦ optional_int (find key result.topology)
  ]

  unfoldable pub rows : Run F → Result Builtin (Option ℤ)
  unfolding dimension
  rows run = dimension (lit "rows") run

  unfoldable pub cols : Run F → Result Builtin (Option ℤ)
  unfolding dimension
  cols run = dimension (lit "cols") run

  unfoldable pub cartesian : Run F → Result Builtin Text
  unfolding rows cols show_int
  cartesian run = rows run >>= λ height. elim height [
    | none ↦ ok []
    | some m ↦ cols run >>= λ width. elim width [
      | none ↦ ok []
      | some n ↦ ok (show_int m ++ lit "x" ++ show_int n)
    ]
  ]
