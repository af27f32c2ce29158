-- ===== src/Migrate/Copy/DryRun.antt =====
-- The loop of `main` in tools/migrate_results.py without --apply, or with --dry-run.
use mathlib.Core.List.{map-append}
use g_halo.Migrate.Copy.Traces.{All-join}
use g_halo.Migrate.Copy.Within.{bind_some}
use g_halo.Migrate.Place.{FirstFree, unique_destination}
use g_halo.Migrate.Place.{FirstFree}
use g_halo.Migrate.Place.{FirstFree, parent_of, stem_of}
use g_halo.Migrate.Found.{unique_destination-found, exists_in}
use g_halo.Json.Show.{str_of}
use g_halo.Migrate.Bundle.{infer_bundle}
use g_halo.Migrate.Place.{candidate_bundles, bundles_in}
use g_halo.Stalls.Paths.{FilePath, path_name}
use g_halo.Prelude.{
  List, ◌≡◌, map, false, Bool, some, ◌&&◌, none, ◌++◌, not, All, ◌∷◌, ap, [], refl, ◌∙◌, suc, ap₂,
  length,
}
use g_halo.Migrate.Copy.{
  CopyTools, copy_bundles, copy_paths, migrate, copy_tree, Move, move_of, bundle_of,
}
use g_halo.Float.{Float}

module _ {F : Type 0} ⦃f : Float F⦄ where
  -- The placement is what the files of the bundle say, and the destination is the first candidate for
  -- it that does not exist.
  abbrev pub IsFirst : CopyTools F → FilePath → List FilePath → Move → Type 0
  IsFirst tools root existing move =
      (move.placement ≡ infer_bundle str_of (tools.bundle_files move.bundle))
      × FirstFree (exists_in existing) (parent_of root move.placement)
          (stem_of (path_name move.bundle) move.placement.backend move.placement.label)
          move.destination

  copy_bundles_dry :
      (tools : CopyTools F) (root : FilePath) (existing bundles : List FilePath)
      → (moves : List Move) × (copy_bundles tools root false existing bundles
          ≡ some (record { moves = moves; after = existing; failure = none }))
        × (map bundle_of moves ≡ bundles)
        × All (IsFirst tools root existing) moves
  unfolding copy_bundles copy_tree move_of
  copy_bundles_dry tools root existing [] = ([], refl, refl, tt)
  copy_bundles_dry tools root existing (bundle ∷ bundles) =
      let placement = infer_bundle str_of (tools.bundle_files bundle) in
      let (destination, found, free) = unique_destination-found existing root placement bundle in
      let (moves, rest, same, first) = copy_bundles_dry tools root existing bundles in
      (
        record { bundle = bundle; destination = destination; placement = placement } ∷ moves,
        bind_some
              (unique_destination (exists_in existing) (suc (length existing)) root placement
                bundle)
              _ destination found
            ∙ rw rest refl,
        ap (λ l. bundle ∷ l) same,
        ((refl, free), first),
      )

  copy_paths_dry :
      (tools : CopyTools F) (root : FilePath) (existing paths : List FilePath)
      → (moves : List Move) × (copy_paths tools root false existing paths
          ≡ some (record { moves = moves; after = existing; failure = none }))
        × (map bundle_of moves ≡ candidate_bundles (tools.folders existing) paths)
        × All (IsFirst tools root existing) moves
  unfolding copy_paths candidate_bundles
  copy_paths_dry tools root existing [] = ([], refl, refl, tt)
  copy_paths_dry tools root existing (path ∷ paths) =
      let bundles = bundles_in (tools.folders existing) path in
      let (first, found, same, firsts) = copy_bundles_dry tools root existing bundles in
      let (later, rest, same', laters) = copy_paths_dry tools root existing paths in
      (
        first ++ later,
        bind_some (copy_bundles tools root false existing bundles) _
              (record { moves = first; after = existing; failure = none }) found
            ∙ rw rest refl,
        map-append bundle_of first later ∙ ap₂ (λ l m. l ++ m) same same',
        All-join (IsFirst tools root existing) first later firsts laters,
      )

  -- Without --apply, or with --dry-run, a migration raises nothing and changes nothing. It prints one
  -- line for each candidate bundle of the inputs, in their order, and each destination is the first
  -- candidate, for what the files of the bundle say, that does not exist.
  pub migrate-dry_run :
      (tools : CopyTools F) (root : FilePath) (applied dry_run : Bool)
      (existing paths : List FilePath)
      → (applied && not dry_run) ≡ false
      → (moves : List Move) × (migrate tools root applied dry_run existing paths
          ≡ some (record { moves = moves; after = existing; failure = none }))
        × (map bundle_of moves ≡ candidate_bundles (tools.folders existing) paths)
        × All (IsFirst tools root existing) moves
  unfolding migrate
  migrate-dry_run tools root applied dry_run existing paths off =
      let (moves, found, same, first) = copy_paths_dry tools root existing paths in
      (moves, rw off found, same, first)
