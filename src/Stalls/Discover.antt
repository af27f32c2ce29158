-- ===== src/Stalls/Discover.antt =====
-- `result_dirs_from_inputs` and `discover_result_dirs` of tools/analyze_iteration_stalls.py. The file
-- system is what they ask of it.
pub mod Unique
use g_halo.Result.{◌>>=◌}
use g_halo.Stalls.Load.{is_nil}
use g_halo.Stalls.{Fault, StallError}
use g_halo.Text.{Text, contains, lit}
use g_halo.Result.{Result, ok, err}
use g_halo.Stalls.Ranks.Event.{keep_if}
use g_halo.Sort.{sort_by}
use g_halo.Prelude.{text_ord, List, Bool, list_le, ◌++◌, if◌then◌else◌, list_eq, nat_eq, ◌∷◌, []}
use g_halo.Stalls.Paths.{normalize_rocm, unique_paths, FilePath, path_name}
use g_halo.Prelude.{ℕ}

-- `found` gives the parents of `path.rglob("ghalo.json")`.
pub record Tree : Type 0 where
  pub exists : FilePath → Bool
  pub is_dir : FilePath → Bool
  pub found : FilePath → List FilePath
  pub resolve : FilePath → FilePath

-- the order of paths: by their parts
abbrev pub path_le : FilePath → FilePath → Bool
path_le a b = list_le a b

unfoldable pub has_json : Tree → FilePath → Bool
has_json tree path = tree.exists (path ++ lit "ghalo.json" ∷ [])

-- what one input adds
unfoldable pub input_dirs : Tree → FilePath → Result Fault (List FilePath)
unfolding has_json sort_by
input_dirs tree path =
    if has_json tree path
    then ok (path ∷ [])
    else if tree.is_dir path
    then ok (sort_by path_le (tree.found path))
    else err (Fault.stall (StallError.missing_path path))

unfoldable pub all_dirs : Tree → List FilePath → Result Fault (List FilePath)
unfolding input_dirs
all_dirs tree [] = ok []
all_dirs tree (path ∷ paths) = do
  dirs ← input_dirs tree path
  rest ← all_dirs tree paths
  ok (dirs ++ rest)

unfoldable pub result_dirs_from_inputs : Tree → List FilePath → Result Fault (List FilePath)
unfolding all_dirs unique_paths
result_dirs_from_inputs tree inputs =
    all_dirs tree inputs >>= λ discovered. ok (unique_paths tree.resolve discovered)

-- path / part: an empty part adds nothing
unfoldable pub add_part : FilePath → Text → FilePath
add_part path part = if is_nil part then path else path ++ part ∷ []

unfoldable pub discover_result_dirs : Tree → FilePath → Text → Text → Text → Text → List FilePath
unfolding add_part normalize_rocm keep_if contains path_name unique_paths sort_by
discover_result_dirs tree root system rocm_version category label_filter =
    let versioned =
      add_part (add_part (root ++ lit "results" ∷ []) system) (normalize_rocm rocm_version) in
    let base = add_part versioned category in
    let dirs = sort_by path_le (tree.found base) in
    let kept =
      if is_nil label_filter
      then dirs
      else keep_if (λ p. contains label_filter (path_name p)) dirs in
    if tree.exists base then unique_paths tree.resolve kept else []
