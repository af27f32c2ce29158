-- ===== src/Analyze/Load.antt =====
-- `load_run`, `load_runs` and what they call in tools/ghalo_analyze.py.
pub mod Checked
use g_halo.Analyze.Results.{AnalyzeFault, AnalysisError}
use g_halo.Sort.{sort_by}
use g_halo.Analyze.Results.Valid.{validate_run}
use g_halo.Analyze.Run.Counts.{nodes}
use g_halo.Json.Show.{str_of}
use g_halo.Result.{Result, map_m, ok, ◌>>=◌, err, ◌>>◌}
use g_halo.Float.{Float}
use g_halo.Analyze.Results.Read.{text_cell, load_json_results, load_csv_results}
use g_halo.Text.{lower, Text, strip, lit}
use g_halo.Dict.{lookup, Dict}
use g_halo.Stalls.Paths.{FilePath, path_name}
use g_halo.Json.{null, boolean, int, num, str, arr, obj, find, Builtin}
use g_halo.Stalls.Discover.{path_le}
use g_halo.Stalls.Load.{absent, blank, malformed, parsed, Row, JsonFile, is_nil}
use g_halo.Analyze.Run.{json, csv, SourceFormat, RunWarning, Run}
use g_halo.Prelude.{
  ℕ, zero, suc, Bool, List, ◌∷◌, if◌then◌else◌, true, map, Option, ◌++◌, [], ◌==◌, none, false,
  ◌&&◌, some, not, list_eq, nat_eq,
}

-- What the tool asks of the file system; `found path name` gives the parents of the files called
-- `name` below the path, and no rows are a file that does not exist.
pub record RunFiles (F : Type 0) : Type 0 where
  pub exists : FilePath → Bool
  pub is_dir : FilePath → Bool
  pub read_text : FilePath → Text
  pub read_json : FilePath → JsonFile F
  pub read_csv : FilePath → Option (List Row)
  pub found : FilePath → Text → List FilePath

-- name[name.rfind("."):], for a point that is neither the first nor the last character; `best` is
-- the suffix found so far, and `first` says that the name's first character is next
unfoldable pub suffix_from : Bool → Text → Text → Text
suffix_from first best [] = best
suffix_from first best (c ∷ []) = if c == b'.' then [] else best
suffix_from first best (c ∷ d ∷ s) =
    suffix_from false (if c == b'.' && not first then c ∷ d ∷ s else best) (d ∷ s)

-- path.suffix
unfoldable pub path_suffix : FilePath → Text
unfolding suffix_from path_name
path_suffix path = suffix_from true [] (path_name path)

-- path.parent
unfoldable pub path_parent : FilePath → FilePath
path_parent [] = []
path_parent (part ∷ []) = []
path_parent (part ∷ next ∷ parts) = part ∷ path_parent (next ∷ parts)

pub record Source : Type 0 where
  pub file : FilePath
  pub result_path : FilePath
  pub format : SourceFormat

abbrev pub metadata_names : List Text
metadata_names = map lit (
    "system-resolution.txt" ∷ "submission.txt" ∷ "environment.txt" ∷ "git.txt" ∷ "slurm-job.txt"
    ∷ "command.txt" ∷ "exit-status.txt" ∷ "result-metadata.txt" ∷ [])

-- the warning about an exit status other than 0
unfoldable pub exit_warnings : Option Text → List RunWarning
unfolding strip
exit_warnings none = []
exit_warnings (some text) =
    if not (is_nil (strip text)) && not (strip text == lit "0")
    then RunWarning.nonzero_exit (strip text) ∷ []
    else []

module _ {F : Type 0} where
  unfoldable pub source_of : RunFiles F → FilePath → Result AnalyzeFault Source
  unfolding path_suffix path_parent lower
  source_of files path =
      let json_path = path ++ lit "ghalo.json" ∷ [] in
      let csv_path = path ++ lit "ghalo.csv" ∷ [] in
      if files.is_dir path
      then (if files.exists json_path
          then ok (record { file = json_path; result_path = path; format = json })
          else if files.exists csv_path
          then ok (record { file = csv_path; result_path = path; format = csv })
          else err (AnalyzeFault.analysis AnalysisError.no_result_file))
      else if lower (path_suffix path) == lit ".json"
      then ok (record { file = path; result_path = path_parent path; format = json })
      else if lower (path_suffix path) == lit ".csv"
      then ok (record { file = path; result_path = path_parent path; format = csv })
      else err (AnalyzeFault.analysis AnalysisError.not_a_result)

  unfoldable pub read_files : RunFiles F → FilePath → List Text → Dict Text Text
  read_files files folder [] = []
  read_files files folder (name ∷ names) =
      let rest = read_files files folder names in
      if files.exists (folder ++ name ∷ [])
      then (name, files.read_text (folder ++ name ∷ [])) ∷ rest
      else rest

  unfoldable pub read_metadata_files : RunFiles F → FilePath → Dict Text Text
  unfolding read_files
  read_metadata_files files folder =
      if files.is_dir folder then read_files files folder metadata_names else []

-- str(row.get("version", "")) of the first row
unfoldable pub csv_version : List Row → Text
unfolding text_cell
csv_version [] = []
csv_version (row ∷ rows) = text_cell (lit "version") row

module _ {F : Type 0} ⦃f : Float F⦄ where
  -- str(payload.get("version", ""))
  unfoldable pub json_version : JsonFile F → Text
  unfolding find str_of
  json_version (parsed (obj fields)) = elim (find (lit "version") fields) [
    | none ↦ []
    | some value ↦ str_of value
  ]
  json_version _ = []

  unfoldable pub load_json_run :
      JsonFile F
      → FilePath
      → FilePath
      → Dict Text Text
      → List RunWarning
      → Result AnalyzeFault (Run F)
  unfolding load_json_results json_version
  load_json_run content source result_path metadata_files warnings =
      load_json_results content >>= λ results. ok (record {
        input_path = source;
        result_path = result_path;
        version = json_version content;
        results = results;
        metadata_files = metadata_files;
        warnings = warnings;
        source_format = json;
      })

  unfoldable pub load_csv_run :
      Option (List Row)
      → FilePath
      → FilePath
      → Dict Text Text
      → List RunWarning
      → Result AnalyzeFault (Run F)
  unfolding load_csv_results csv_version
  load_csv_run none source result_path metadata_files warnings =
      err (AnalyzeFault.python Builtin.os_error)
  load_csv_run (some rows) source result_path metadata_files warnings =
      load_csv_results rows >>= λ results. ok (record {
        input_path = source;
        result_path = result_path;
        version = csv_version rows;
        results = results;
        metadata_files = metadata_files;
        warnings = warnings;
        source_format = csv;
      })

  -- the run that the file gives, before it is checked
  unfoldable pub read_format :
      SourceFormat → RunFiles F → FilePath → FilePath → Dict Text Text → Result AnalyzeFault (Run F)
  unfolding load_json_run load_csv_run exit_warnings lookup
  read_format json files source result_path metadata_files =
      load_json_run (files.read_json source) source result_path metadata_files
        (exit_warnings (lookup (lit "exit-status.txt") metadata_files))
  read_format csv files source result_path metadata_files =
      load_csv_run (files.read_csv source) source result_path metadata_files
        (exit_warnings (lookup (lit "exit-status.txt") metadata_files))

  unfoldable pub read_run : RunFiles F → Source → Result AnalyzeFault (Run F)
  unfolding read_format read_metadata_files
  read_run files source =
      read_format source.format files source.file source.result_path
        (read_metadata_files files source.result_path)

  -- the warning about the node count
  unfoldable pub add_node_warning : Run F → Run F
  unfolding nodes
  add_node_warning run = record {
    input_path = run.input_path;
    result_path = run.result_path;
    version = run.version;
    results = run.results;
    metadata_files = run.metadata_files;
    warnings =
        run.warnings
        ++ (elim (nodes run) [ none ↦ RunWarning.unknown_node_count ∷ [] | some n ↦ [] ]);
    source_format = run.source_format;
  }

  unfoldable pub load_run : RunFiles F → FilePath → Result AnalyzeFault (Run F)
  unfolding source_of read_run validate_run add_node_warning
  load_run files path = do
    source ← source_of files path
    run ← read_run files source
    validate_run run.results
    ok (add_node_warning run)

  -- the paths that one input stands for
  unfoldable pub expand_input : RunFiles F → FilePath → List FilePath
  unfolding sort_by
  expand_input files path =
      let json_bundles = sort_by path_le (files.found path (lit "ghalo.json")) in
      let csv_bundles = sort_by path_le (files.found path (lit "ghalo.csv")) in
      let bundles = if is_nil json_bundles then csv_bundles else json_bundles in
      if files.is_dir path
        && (not (files.exists (path ++ lit "ghalo.json" ∷ []))
            && (not (files.exists (path ++ lit "ghalo.csv" ∷ [])) && not (is_nil bundles)))
      then bundles
      else path ∷ []

  unfoldable pub expand_inputs : RunFiles F → List FilePath → List FilePath
  unfolding expand_input
  expand_inputs files [] = []
  expand_inputs files (path ∷ paths) = expand_input files path ++ expand_inputs files paths

  unfoldable pub load_runs : RunFiles F → List FilePath → Result AnalyzeFault (List (Run F))
  unfolding map_m load_run expand_inputs
  load_runs files [] = err (AnalyzeFault.analysis AnalysisError.no_input)
  load_runs files (path ∷ paths) = map_m (load_run files) (expand_inputs files (path ∷ paths))
