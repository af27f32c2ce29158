-- ===== src/Examples/Analyze.antt =====
-- The theorems on tools/ghalo_analyze.py at small inputs, and runs of its functions.
use g_halo.Dict.Counts.{occurrences}
use g_halo.Migrate.Names.{sanitize-IsPlainText}
use g_halo.Dict.{lookup}
use g_halo.Text.Plain.{is_plain, IsPlainText}
use g_halo.Analyze.Numbers.{parse_slurm_text}
use g_halo.Analyze.PathMetadata.{infer_path_metadata}
use g_halo.Stalls.Paths.{FilePath}
use g_halo.Analyze.RunName.{ReadsBack, known_backends, name_backend, name_backend-ReadsBack}
use g_halo.Analyze.Labels.{
  run_labels, filename_slug, filename_slug-IsPlainText, repeat_label, run_labels-repeat_label,
}
use g_halo.Text.{Text, lit, is_space}
use g_halo.Migrate.{sanitize}
use g_halo.Prelude.{get_elem?, ◌∷◌, ◌≢◌, ◌≡◌, map, [], some, refl, ◌++◌, list_eq, nat_eq}

abbrev x : Text
x = lit "x"

run_labels_example :
    get_elem? (run_labels ((x ∷ lit "y" ∷ []) ++ x ∷ [])) 2
    ≡ some (repeat_label x (occurrences x (x ∷ lit "y" ∷ [])))
run_labels_example = run_labels-repeat_label (x ∷ lit "y" ∷ []) x []

-- a given label can be the one that a repetition gets
labels_clash :
    run_labels (x ∷ x ∷ lit "x | repeat 2" ∷ []) ≡ x ∷ lit "x | repeat 2" ∷ lit "x | repeat 2" ∷ []
unfolding run_labels lit
labels_clash = refl

run_plain : IsPlainText (lit "run")
unfolding lit is_plain
run_plain = (refl, (refl, (refl, tt)))

run_nonempty : lit "run" ≢ []
unfolding lit
run_nonempty h = cc

filename_slug_example :
    (filename_slug (lit "MPI-HIP / 4 nodes") (lit "run") ≢ [])
    × IsPlainText (filename_slug (lit "MPI-HIP / 4 nodes") (lit "run"))
filename_slug_example =
    filename_slug-IsPlainText (lit "MPI-HIP / 4 nodes") (lit "run") run_nonempty run_plain

slug : filename_slug (lit "MPI-HIP / 4 nodes") (lit "run") ≡ lit "mpi-hip-4-nodes"
unfolding filename_slug lit is_space
slug = refl

sanitize_example :
    (sanitize (lit "my run!") (lit "run") ≢ []) × IsPlainText (sanitize (lit "my run!") (lit "run"))
sanitize_example = sanitize-IsPlainText (lit "my run!") (lit "run") run_nonempty run_plain

name_backend_example :
    ReadsBack known_backends (lit "rccl-2nodes") (name_backend known_backends (lit "rccl-2nodes"))
name_backend_example = name_backend-ReadsBack known_backends (lit "rccl-2nodes")

abbrev run_path : FilePath
run_path = map lit (
    "results" ∷ "borg" ∷ "rocm-6.4.2" ∷ "scaling"
    ∷ "20240131T010203Z_rccl_stream-ordered-4nodes-32ranks" ∷ [])

nodes : lookup (lit "nodes") (infer_path_metadata run_path) ≡ some (lit "4")
unfolding infer_path_metadata lit
nodes = refl

mode : lookup (lit "rccl_sync_mode") (infer_path_metadata run_path) ≡ some (lit "stream-ordered")
unfolding infer_path_metadata lit
mode = refl

version : lookup (lit "rocm_version") (infer_path_metadata run_path) ≡ some (lit "rocm-6.4.2")
unfolding infer_path_metadata lit
version = refl

job : lookup (lit "NumNodes") (parse_slurm_text (lit "JobId=7 NumNodes=2")) ≡ some (lit "2")
unfolding parse_slurm_text lit lookup
job = refl
