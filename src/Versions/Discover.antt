-- ===== src/Versions/Discover.antt =====
-- The directories that tools/compare_rccl_versions.py compares, and the summaries that its `main`
-- writes. The file system is what they ask of it.
use g_halo.Stalls.Discover.{path_le}
use g_halo.Stalls.Load.{is_nil}
use g_halo.Stalls.Summary.{CaseFiles}
use g_halo.Versions.Matrix.{validate_complete_matrix}
use g_halo.Versions.{CompareFault, version_order, VersionSummary, CompareError}
use g_halo.Versions.Report.{summarize_result}
use g_halo.Text.{Text, contains, lit}
use g_halo.Stalls.Ranks.Event.{keep_if}
use g_halo.Result.{map_m, Result, ok, ◌>>=◌, err}
use g_halo.Prelude.{List, ◌++◌, ◌∷◌, if◌then◌else◌, [], Option}
use g_halo.Sort.{sort_by}
use g_halo.Float.{Float}
use g_halo.Stalls.Paths.{unique_paths, FilePath, path_name}
use g_halo.Stalls.Discover.{has_json, Tree, add_part}

-- what one input adds
unfoldable pub input_dirs : Tree → FilePath → Result CompareFault (List FilePath)
unfolding has_json sort_by
input_dirs tree path =
    if has_json tree path
    then ok (path ∷ [])
    else if tree.is_dir path
    then ok (sort_by path_le (tree.found path))
    else err (CompareFault.compare (CompareError.missing_path path))

unfoldable pub all_dirs : Tree → List FilePath → Result CompareFault (List FilePath)
unfolding input_dirs
all_dirs tree [] = ok []
all_dirs tree (path ∷ paths) = do
  dirs ← input_dirs tree path
  rest ← all_dirs tree paths
  ok (dirs ++ rest)

unfoldable pub result_dirs_from_inputs : Tree → List FilePath → Result CompareFault (List FilePath)
unfolding all_dirs unique_paths
result_dirs_from_inputs tree inputs =
    all_dirs tree inputs >>= λ discovered. ok (unique_paths tree.resolve discovered)

-- the bundles of one version
unfoldable pub version_dirs : Tree → FilePath → Text → Text → List FilePath
unfolding add_part sort_by keep_if contains path_name
version_dirs tree base category version =
    let pattern_base = add_part (base ++ (lit "rocm-" ++ version) ∷ []) category in
    let wanted = lit "borg-rccl-version-rocm-" ++ version in
    if tree.exists pattern_base
    then sort_by path_le (keep_if (λ p. contains wanted (path_name p)) (tree.found pattern_base))
    else []

unfoldable pub dirs_of_versions : Tree → FilePath → Text → List Text → List FilePath
unfolding version_dirs
dirs_of_versions tree base category [] = []
dirs_of_versions tree base category (version ∷ versions) =
    version_dirs tree base category version ++ dirs_of_versions tree base category versions

unfoldable pub discover_result_dirs : Tree → FilePath → Text → Text → List FilePath
unfolding add_part dirs_of_versions unique_paths
discover_result_dirs tree root system category =
    let base = add_part (root ++ lit "results" ∷ []) system in
    if tree.exists base
    then unique_paths tree.resolve (dirs_of_versions tree base category version_order)
    else []

-- the directories that `main` reads
unfoldable pub compared_dirs :
    Tree → FilePath → List FilePath → Text → Text → Result CompareFault (List FilePath)
unfolding result_dirs_from_inputs discover_result_dirs
compared_dirs tree root inputs system category =
    if is_nil inputs
    then ok (discover_result_dirs tree root system category)
    else result_dirs_from_inputs tree inputs

module _ {F : Type 0} ⦃f : Float F⦄ where
  -- the summaries that `main` writes and prints; `read` gives the files of a directory
  unfoldable pub compare_versions :
      Tree
      → (FilePath → CaseFiles F)
      → FilePath
      → List FilePath
      → Text
      → Text
      → Option F
      → Result CompareFault (List (VersionSummary F))
  unfolding compared_dirs map_m summarize_result validate_complete_matrix
  compare_versions tree read root inputs system category threshold = do
    dirs ← compared_dirs tree root inputs system category
    summaries ← map_m (λ path. summarize_result (read path) threshold) dirs
    validate_complete_matrix summaries
