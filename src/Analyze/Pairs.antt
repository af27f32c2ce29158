-- ===== src/Analyze/Pairs.antt =====
-- `percent_difference_pairs` of tools/ghalo_analyze.py: the runs that the report command compares.
pub mod Plotted
use g_halo.Analyze.Keys.{value_eq}
use g_halo.Analyze.Compare.{percent_difference_rows_for_plot, CompareRow}
use g_halo.Analyze.Results.{AnalyzeFault, python_err}
use g_halo.Prelude.{
  List, Bool, ◌==◌, true, ◌∷◌, ◌&&◌, if◌then◌else◌, ◌++◌, false, not, [], list_eq, nat_eq,
}
use g_halo.Analyze.Run.{Run}
use g_halo.Analyze.Keys.{percent_difference_pair_key, sorted_runs_for_output}
use g_halo.Result.{Result, ok, ◌>>=◌, err}
use g_halo.Analyze.Run.Texts.{backend, rccl_sync_mode}
use g_halo.Float.{Float}

module _ {F : Type 0} ⦃f : Float F⦄ where
  -- the same backend, mode and path
  unfoldable pub same_series : Run F → Run F → Bool
  unfolding backend rccl_sync_mode
  same_series left right =
      backend left == backend right
      && (rccl_sync_mode left == rccl_sync_mode right && left.result_path == right.result_path)

  -- whether the rows are returned; an AnalysisError is caught
  unfoldable pub caught : Result AnalyzeFault (List (CompareRow F)) → Result AnalyzeFault Bool
  caught (ok rows) = ok true
  caught (err (AnalyzeFault.analysis e)) = ok false
  caught (err (AnalyzeFault.python e)) = err (AnalyzeFault.python e)

  -- the body of the inner loop: whether it appends the pair
  unfoldable pub is_pair : Run F → Run F → Result AnalyzeFault Bool
  unfolding percent_difference_pair_key same_series caught percent_difference_rows_for_plot
  is_pair left right = do
    left_key ← python_err (percent_difference_pair_key left)
    right_key ← python_err (percent_difference_pair_key right)
    (if not (left_key == right_key)
        then ok false
        else if same_series left right
        then ok false
        else caught (percent_difference_rows_for_plot (left ∷ right ∷ [])))

  unfoldable pub pairs_with : Run F → List (Run F) → Result AnalyzeFault (List (Run F × Run F))
  unfolding is_pair
  pairs_with left [] = ok []
  pairs_with left (right ∷ others) = do
    paired ← is_pair left right
    rest ← pairs_with left others
    ok (if paired then (left, right) ∷ rest else rest)

  unfoldable pub pairs_of : List (Run F) → Result AnalyzeFault (List (Run F × Run F))
  unfolding pairs_with
  pairs_of [] = ok []
  pairs_of (left ∷ others) = do
    first ← pairs_with left others
    rest ← pairs_of others
    ok (first ++ rest)

  unfoldable pub percent_difference_pairs :
      List (Run F) → Result AnalyzeFault (List (Run F × Run F))
  unfolding sorted_runs_for_output pairs_of
  percent_difference_pairs runs = pairs_of (sorted_runs_for_output runs)
