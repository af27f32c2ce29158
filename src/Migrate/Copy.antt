-- ===== src/Migrate/Copy.antt =====
-- The loop of `main` in tools/migrate_results.py. Its state is the list of the paths that exist.
pub mod Within
pub mod Traces
pub mod Distinct
pub mod DryRun
use g_halo.Text.{Text}
use g_halo.Migrate.Found.{exists_in}
use g_halo.Json.Show.{str_of}
use g_halo.Migrate.Bundle.{Placement, BundleFiles, infer_bundle}
use g_halo.Migrate.Place.{Folders, unique_destination, bundles_in}
use g_halo.Float.{Float}
use g_halo.Stalls.Paths.{FilePath}
use g_halo.Prelude.Partial.{◌>>=◌}
use g_halo.Prelude.{
  ℕ, suc, some, none, List, Bool, if◌then◌else◌, Option, ◌∷◌, ◌&&◌, ◌++◌, not, length, [], false,
  true,
}

-- What an operation that changes the file system comes to: the paths that it creates, and the error
-- that it raises if it does.
pub record Reply : Type 0 where
  pub created : List FilePath
  pub error : Option Text

-- What the loop asks of the file system, where the paths of a list exist: the folders; the files of a
-- bundle; `destination.parent.mkdir`, for the destination; and `shutil.copytree`, for the bundle and
-- the destination. Each of the last two may raise. What an input holds is read when the loop reaches it.
pub record CopyTools (F : Type 0) : Type 0 where
  pub folders : List FilePath → Folders
  pub bundle_files : FilePath → BundleFiles F
  pub make_parents : List FilePath → FilePath → Reply
  pub copy_files : List FilePath → FilePath → FilePath → Reply

-- A line that the loop prints: the bundle, its destination, and where they come from.
pub record Move : Type 0 where
  pub bundle : FilePath
  pub destination : FilePath
  pub placement : Placement

-- The move that raised, and its error.
pub record Failure : Type 0 where
  pub move : Move
  pub error : Text

-- What a run comes to: the moves that were done, the paths that exist then, and the failure that ended
-- it if one did. The lines printed are those of the moves and of the failure.
pub record Trace : Type 0 where
  pub moves : List Move
  pub after : List FilePath
  pub failure : Option Failure

abbrev pub bundle_of : Move → FilePath
bundle_of move = move.bundle

abbrev pub destination_of : Move → FilePath
destination_of move = move.destination

-- the copy itself, once the parents exist: the paths that exist then, and the error
unfoldable pub copied : FilePath → List FilePath → Reply → List FilePath × Option Text
copied destination existing reply = elim reply.error [
  | none ↦ (destination ∷ reply.created ++ existing, none)
  | some error ↦ (reply.created ++ existing, some error)
]

module _ {F : Type 0} ⦃f : Float F⦄ where
  -- the body of `if apply`
  unfoldable pub copy_tree :
      CopyTools F → Bool → FilePath → FilePath → List FilePath → List FilePath × Option Text
  unfolding copied
  copy_tree tools false bundle destination existing = (existing, none)
  copy_tree tools true bundle destination existing =
      let parents = tools.make_parents existing destination in
      let ready = parents.created ++ existing in
      elim parents.error [
        | none ↦ copied destination ready (tools.copy_files ready bundle destination)
        | some error ↦ (ready, some error)
      ]

  unfoldable pub move_of : CopyTools F → FilePath → FilePath → Move
  unfolding infer_bundle str_of
  move_of tools bundle destination = record {
    bundle = bundle;
    destination = destination;
    placement = infer_bundle str_of (tools.bundle_files bundle);
  }

  -- The round of the loop for each bundle of one input. The tail is not run where the copy raised.
  unfoldable pub copy_bundles :
      CopyTools F → FilePath → Bool → List FilePath → List FilePath → Option Trace
  unfolding unique_destination infer_bundle copy_tree str_of move_of
  copy_bundles tools root applied existing [] =
      some (record { moves = []; after = existing; failure = none })
  copy_bundles tools root applied existing (bundle ∷ bundles) =
      unique_destination (exists_in existing) (suc (length existing)) root
        (infer_bundle str_of (tools.bundle_files bundle)) bundle
      >>= λ destination.
          let move = move_of tools bundle destination in
          let done = copy_tree tools applied bundle destination existing in
          elim done.1 [
            | some error ↦ some (record {
              moves = [];
              after = done.0;
              failure = some (record { move = move; error = error });
            })
            | none ↦ copy_bundles tools root applied done.0 bundles >>= λ later.
                some (record later { moves = move ∷ later.moves })
          ]

  unfoldable pub copy_paths :
      CopyTools F → FilePath → Bool → List FilePath → List FilePath → Option Trace
  unfolding copy_bundles bundles_in
  copy_paths tools root applied existing [] =
      some (record { moves = []; after = existing; failure = none })
  copy_paths tools root applied existing (path ∷ paths) =
      copy_bundles tools root applied existing (bundles_in (tools.folders existing) path)
      >>= λ first. elim first.failure [
        | some failure ↦ some first
        | none ↦ copy_paths tools root applied first.after paths >>= λ later.
            some (record later { moves = first.moves ++ later.moves })
      ]

  -- --dry-run wins over --apply
  unfoldable pub migrate :
      CopyTools F → FilePath → Bool → Bool → List FilePath → List FilePath → Option Trace
  unfolding copy_paths
  migrate tools root applied dry_run existing paths =
      copy_paths tools root (applied && not dry_run) existing paths
