-- ===== src/Examples/Migrate.antt =====
-- The theorems on tools/migrate_results.py at small inputs, and runs of its functions.
use g_halo.Migrate.Copy.DryRun.{IsFirst, migrate-dry_run}
use g_halo.Migrate.Copy.Traces.{destinations}
use g_halo.Float.Micro.{micro}
use g_halo.Prelude.{none, some, if◌then◌else◌, Option}
use g_halo.Migrate.Copy.{CopyTools, migrate, Move, Trace, bundle_of}
use g_halo.Stalls.Load.{member, absent}
use g_halo.Migrate.Found.{exists_in, unique_destination-found}
use g_halo.Migrate.Place.{FirstFree}
use g_halo.Migrate.{normalize_rocm}
use g_halo.Migrate.Label.{StripsTo, normalize_label-StripsTo}
use g_halo.Migrate.Place.{
  candidate, Folders, candidate_bundles, parent_of, unique_destination, stem_of, IsBundleOf,
  candidate_bundles-IsBundleOf,
}
use g_halo.Text.{Text, lit, or_else, is_space}
use g_halo.Migrate.{normalize_label, sanitize}
use g_halo.Stalls.Paths.{FilePath, path_name}
use g_halo.Migrate.Bundle.{Placement, split_flat_name}
use g_halo.Prelude.{
  List, true, Occurs, ◌∷◌, ◌≡◌, [], ◌==◌, inl, some, ◌++◌, refl, list_eq, nat_eq, map, ℕ, false,
  not, All, none,
}

abbrev placement : Placement
placement = record {
  system = lit "borg";
  rocm = lit "6.4.2";
  category = lit "scaling";
  backend = lit "rccl";
  label = lit "run";
}

abbrev flat : FilePath
flat = lit "results" ∷ lit "20240131T010203Z_rccl_rccl-run" ∷ []

split : split_flat_name (path_name flat) ≡ (lit "20240131T010203Z", lit "rccl", lit "rccl-run")
unfolding split_flat_name lit path_name
split = refl

label : normalize_label (lit "rccl_rccl-my run") (lit "rccl") ≡ lit "my_run"
unfolding normalize_label lit is_space
label = refl

version : normalize_rocm (lit "rocm/rocm-6.4.2/x") ≡ lit "6.4.2"
unfolding normalize_rocm lit is_space
version = refl

normalize_label_example :
    (rest : Text) × StripsTo (lit "rccl") (sanitize (lit "rccl_rccl-run") (lit "run")) rest
    × (normalize_label (lit "rccl_rccl-run") (lit "rccl") ≡ or_else rest (lit "run"))
normalize_label_example = normalize_label-StripsTo (lit "rccl_rccl-run") (lit "rccl")

-- the first candidate is taken
abbrev existing : List FilePath
existing =
    candidate (parent_of [] placement) (stem_of (path_name flat) (lit "rccl") (lit "run")) 0 ∷ []

unique_destination_example :
    (path : FilePath) × (unique_destination (exists_in existing) 2 [] placement flat ≡ some path)
    × FirstFree
        (exists_in existing)
        (parent_of [] placement)
        (stem_of (path_name flat) (lit "rccl") (lit "run"))
        path
unique_destination_example = unique_destination-found existing [] placement flat

second :
    unique_destination (exists_in existing) 2 [] placement flat
    ≡ some (
        map lit
          ("results" ∷ "borg" ∷ "rocm-6.4.2" ∷ "scaling" ∷ "20240131T010203Z_rccl_run_2" ∷ []))
unfolding unique_destination lit member path_name
second = refl

abbrev folders : Folders
folders = record {
  is_dir = λ path. true;
  exists = λ path. path == flat ++ lit "ghalo.json" ∷ [];
  entries = λ path. flat ∷ [];
}

abbrev results : List FilePath
results = (lit "results" ∷ []) ∷ []

yielded : Occurs flat (candidate_bundles folders results)
unfolding candidate_bundles lit
yielded = inl refl

candidate_bundles_example : (path : FilePath) × Occurs path results × IsBundleOf folders path flat
candidate_bundles_example = candidate_bundles-IsBundleOf folders results flat yielded

-- a bundle that is given twice
abbrev tools : CopyTools ℕ
tools = record {
  folders = λ paths. record {
    is_dir = λ path. not (exists_in paths (path ++ lit "x" ∷ []));
    exists = exists_in paths;
    entries = λ path. [];
  };
  bundle_files = λ bundle. record {
    path = bundle;
    system_resolution = none;
    result_metadata = none;
    ghalo_json = absent;
  };
  make_parents = λ paths destination. record { created = []; error = none };
  copy_files = λ paths bundle destination. record {
    created = (destination ++ lit "ghalo.csv" ∷ []) ∷ [];
    error = none;
  };
}

abbrev flat_files : List FilePath
flat_files = flat ∷ (flat ++ lit "ghalo.json" ∷ []) ∷ []

-- the second copy raises
abbrev full_disk : CopyTools ℕ
full_disk = record tools {
  copy_files = λ paths bundle destination.
      if path_name destination == lit "20240131T010203Z_rccl_run"
      then record { created = []; error = none }
      else record { created = []; error = some (lit "no space") };
}

abbrev names_of : Option Trace → List Text
names_of none = []
names_of (some trace) = map (λ path. path_name path) (destinations trace)

abbrev error_of : Option Trace → Text
error_of none = []
error_of (some trace) = elim trace.failure [ none ↦ [] | some failure ↦ failure.error ]

copied_names :
    names_of (migrate tools [] true false flat_files (flat ∷ flat ∷ []))
    ≡ lit "20240131T010203Z_rccl_run" ∷ lit "20240131T010203Z_rccl_run_2" ∷ []
unfolding migrate lit is_space
copied_names = refl

raised_error :
    error_of (migrate full_disk [] true false flat_files (flat ∷ flat ∷ flat ∷ [])) ≡ lit "no space"
unfolding migrate lit is_space
raised_error = refl

raised_names :
    names_of (migrate full_disk [] true false flat_files (flat ∷ flat ∷ flat ∷ []))
    ≡ lit "20240131T010203Z_rccl_run" ∷ lit "20240131T010203Z_rccl_run_2" ∷ []
unfolding migrate lit is_space
raised_names = refl

migrate-dry_run_example :
    (moves : List Move) × (migrate tools [] true true flat_files (flat ∷ flat ∷ [])
      ≡ some (record { moves = moves; after = flat_files; failure = none }))
    × (map bundle_of moves ≡ candidate_bundles (tools.folders flat_files) (flat ∷ flat ∷ []))
    × All (IsFirst tools [] flat_files) moves
migrate-dry_run_example = migrate-dry_run tools [] true true flat_files (flat ∷ flat ∷ []) refl
