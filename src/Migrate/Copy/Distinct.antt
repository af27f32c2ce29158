-- ===== src/Migrate/Copy/Distinct.antt =====
-- The copies of all inputs in the loop of `main` in tools/migrate_results.py.
use g_halo.Migrate.Place.{bundles_in}
use g_halo.Migrate.Copy.Traces.{Reached}
use g_halo.Migrate.Copy.Within.{IsIn}
use g_halo.Stalls.Paths.{FilePath}
use g_halo.Prelude.{List, Option, ◌≡◌, none, some, All, ◌∷◌, map, ◌⊎◌, ◌++◌, []}
use g_halo.Migrate.Copy.{CopyTools, Move, Failure, destination_of}
use g_halo.Float.{Float}

module _ {F : Type 0} ⦃f : Float F⦄ where
  -- The moves are those of the bundles that the inputs hold when the loop reaches them, input by input.
  -- For each input that is done with, what exists then holds what existed before and its destinations.
  abbrev pub Meets :
      CopyTools F
      → List FilePath
      → List FilePath
      → List FilePath
      → List Move
      → Option Failure
      → Type 0
  Meets tools after existing [] moves failure = (moves ≡ []) × (failure ≡ none)
  Meets tools after existing (path ∷ paths) moves failure =
      ((stop : Failure) × (failure ≡ some stop)
        × Reached (bundles_in (tools.folders existing) path) moves (some stop))
      ⊎ ((first later : List Move) × (between : List FilePath) × (moves ≡ first ++ later)
          × Reached (bundles_in (tools.folders existing) path) first none
          × All (IsIn between) existing
          × All (IsIn between) (map destination_of first)
          × All (IsIn after) between
          × Meets tools after between paths later failure)
