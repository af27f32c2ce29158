-- ===== src/Analyze/Run.antt =====
-- The class `Run` of tools/ghalo_analyze.py: its fields, and what it reads in its metadata files.
pub mod Texts
pub mod Counts
pub mod Derived
pub mod Title
use g_halo.Stalls.Load.{is_nil}
use g_halo.Analyze.Numbers.{parse_slurm_text}
use g_halo.Analyze.Results.{RunResult}
use g_halo.Analyze.PathMetadata.{infer_path_metadata}
use g_halo.KeyValue.{parse_metadata_text, Metadata}
use g_halo.Dict.{lookup, Dict, get_or}
use g_halo.Stalls.Paths.{FilePath}
use g_halo.Text.{Text, or_else, lit}
use g_halo.Prelude.{ℕ, List, Option, none, map, ◌∷◌, some, if◌then◌else◌, [], ◌==◌, list_eq, nat_eq}

-- The warnings that `load_run` adds, but for the path that they begin with.
pub data RunWarning : Type 0 where
  nonzero_exit : Text → RunWarning
  unknown_node_count : RunWarning

pub data SourceFormat : Type 0 where
  json csv : SourceFormat

pub record Run (F : Type 0) : Type 0 where
  pub input_path : FilePath
  pub result_path : FilePath
  pub version : Text
  pub results : List (RunResult F)
  pub metadata_files : Dict Text Text
  pub warnings : List RunWarning
  pub source_format : SourceFormat

-- the first of the keys that the values have
unfoldable pub first_value : List Text → Metadata → Option Text
unfolding lookup
first_value [] values = none
first_value (key ∷ keys) values = elim (lookup key values) [
  | none ↦ first_value keys values
  | some value ↦ some value
]

-- what one file says; "slurm-job.txt" is read in two ways
unfoldable pub value_in : List Text → Text → Text → Option Text
unfolding first_value parse_metadata_text parse_slurm_text
value_in keys name text = elim (first_value keys (parse_metadata_text text)) [
  | none ↦ if name == lit "slurm-job.txt" then first_value keys (parse_slurm_text text) else none
  | some value ↦ some value
]

unfoldable pub value_among : List Text → List Text → Dict Text Text → Option Text
unfolding value_in get_or
value_among keys [] files = none
value_among keys (name ∷ names) files =
    let rest = value_among keys names files in
    if is_nil name
    then rest
    else elim (value_in keys name (get_or [] name files)) [ none ↦ rest | some value ↦ some value ]

abbrev pub file_name : Text × Text → Text
file_name (name, text) = name

-- `or` after an optional text
unfoldable pub or_text : Option Text → Text → Text
unfolding or_else
or_text none other = other
or_text (some text) other = or_else text other

module _ {F : Type 0} where
  -- meta_value(*keys), over all the files in their order
  unfoldable pub meta_value : List Text → Run F → Option Text
  unfolding value_among
  meta_value keys run = value_among keys (map file_name run.metadata_files) run.metadata_files

  -- meta_value(*keys, from_file=name)
  unfoldable pub meta_value_from : Text → List Text → Run F → Option Text
  unfolding value_among
  meta_value_from name keys run = value_among keys (name ∷ []) run.metadata_files

  unfoldable pub path_metadata : Run F → Metadata
  unfolding infer_path_metadata
  path_metadata run = infer_path_metadata run.result_path

  -- self.path_metadata.get(key, "")
  unfoldable pub path_value : Text → Run F → Text
  unfolding path_metadata get_or
  path_value key run = get_or [] key (path_metadata run)
