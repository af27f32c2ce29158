-- ===== src/Examples/Discover.antt =====
-- The theorem on `result_dirs_from_inputs` of tools/analyze_iteration_stalls.py at a small tree.
use g_halo.Prelude.{list_eq, nat_eq}
use g_halo.Result.{ok}
use g_halo.Text.{lit}
use g_halo.Stalls.Discover.Unique.{NoTwo, IsListed, Reached, result_dirs_from_inputs-NoTwo}
use g_halo.Stalls.Discover.{Tree, result_dirs_from_inputs}
use g_halo.Stalls.Paths.{FilePath}
use g_halo.Prelude.{List, ◌==◌, ◌∷◌, [], ◌++◌, ◌≡◌, ◌||◌, Occurs, refl}

abbrev run_a : FilePath
run_a = lit "runs" ∷ lit "a" ∷ []

abbrev run_b : FilePath
run_b = lit "runs" ∷ lit "b" ∷ []

-- two result directories below "runs"
abbrev runs : Tree
runs = record {
  exists = λ path. path == run_a ++ lit "ghalo.json" ∷ [] || path == run_b ++ lit "ghalo.json" ∷ [];
  is_dir = λ path. path == lit "runs" ∷ [];
  found = λ path. run_b ∷ run_a ∷ [];
  resolve = λ path. path;
}

abbrev inputs : List FilePath
inputs = run_b ∷ (lit "runs" ∷ []) ∷ []

returned : result_dirs_from_inputs runs inputs ≡ ok (run_b ∷ run_a ∷ [])
unfolding result_dirs_from_inputs lit
returned = refl

result_dirs_from_inputs_example :
    NoTwo runs.resolve (run_b ∷ run_a ∷ [])
    × ((p : FilePath)
        → Occurs p (run_b ∷ run_a ∷ [])
        → (input : FilePath) × Occurs input inputs × IsListed runs input p)
    × ((input p : FilePath)
        → Occurs input inputs
        → IsListed runs input p
        → Reached runs.resolve (run_b ∷ run_a ∷ []) p)
result_dirs_from_inputs_example =
    result_dirs_from_inputs-NoTwo runs inputs (run_b ∷ run_a ∷ []) returned
