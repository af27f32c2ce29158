-- ===== src/Analyze/Compare.antt =====
-- `compare_rows` of tools/ghalo_analyze.py, and the rows of the percent-difference plot.
pub mod Sets
pub mod Entries
pub mod Halos
pub mod Missing
use g_halo.Json.{Builtin}
use g_halo.Stalls.Paths.{FilePath}
use g_halo.Analyze.Load.{load_runs, RunFiles}
use g_halo.Result.{Result, ok, ◌>>◌, ◌>>=◌, raise_if, err}
use g_halo.Analyze.Keys.{configuration_differences}
use g_halo.Analyze.Results.{RunResult, AnalyzeFault, AnalysisError, python_err}
use g_halo.Stalls.Ranks.Event.{keep_if}
use g_halo.Float.{Float}
use g_halo.Sort.{sort_by}
use g_halo.Analyze.Run.{Run}
use g_halo.Dict.{insert, Dict, lookup}
use g_halo.Stalls.Load.{member, is_nil}
use g_halo.Prelude.{
  int_eq, leb_ℤ, ◌==◌, ℤ, List, Bool, map, ◌++◌, true, ◌&&◌, [], Option, false, ◌∷◌, not, ◌||◌,
  if◌then◌else◌,
}
use g_halo.Prelude.{pos, negsuc, ℕ, zero, suc, some, none}

pub data Side : Type 0 where
  side_a side_b : Side

-- The row of a halo size that both runs have.
pub record Comparison (F : Type 0) : Type 0 where
  pub halo_words : ℤ
  pub time_a : F
  pub time_b : F
  pub absolute_difference : F
  pub percent_difference : F
  pub ratio_b_over_a : F
  pub bytes_a : ℤ
  pub bytes_b : ℤ
  pub iterations_a : ℤ
  pub iterations_b : ℤ
  pub configuration_differs : Bool

-- The row of a halo size, which names the side that lacks it if one does.
pub data CompareRow (F : Type 0) : Type 0 where
  missing_in : ℤ → Side → CompareRow F
  compared : Comparison F → CompareRow F

abbrev pub halo_of_row : {F : Type 0} → CompareRow F → ℤ
halo_of_row (missing_in halo side) = halo
halo_of_row (compared row) = row.halo_words

-- the halo sizes of either run, and those of both, each once
unfoldable pub union : List ℤ → List ℤ → List ℤ
unfolding member keep_if
union a b = a ++ keep_if (λ h. not (member h a)) b

unfoldable pub intersection : List ℤ → List ℤ → List ℤ
unfolding member keep_if
intersection a b = keep_if (λ h. member h b) a

unfoldable pub all_in : List ℤ → List ℤ → Bool
unfolding member
all_in [] b = true
all_in (h ∷ a) b = member h b && all_in a b

unfoldable pub same_set : List ℤ → List ℤ → Bool
unfolding all_in
same_set a b = all_in a b && all_in b a

abbrev pub halo_key : {V : Type 0} → ℤ × V → ℤ
halo_key (halo, v) = halo

module _ {F : Type 0} where
  -- the results that a dictionary gets, one after the other
  unfoldable pub index_results : Dict ℤ (RunResult F) → List (RunResult F) → Dict ℤ (RunResult F)
  unfolding insert
  index_results d [] = d
  index_results d (r ∷ results) = index_results (insert r.halo_words r d) results

  unfoldable pub results_by_halo : Run F → Dict ℤ (RunResult F)
  unfolding index_results
  results_by_halo run = index_results [] run.results

  unfoldable pub halo_sizes : Run F → List ℤ
  unfolding results_by_halo
  halo_sizes run = map halo_key (results_by_halo run)

  -- the sorted set whose rows are returned
  unfoldable pub compared_halos : Bool → Run F → Run F → List ℤ
  unfolding sort_by union intersection halo_sizes
  compared_halos true a b = sort_by leb_ℤ (union (halo_sizes a) (halo_sizes b))
  compared_halos false a b = sort_by leb_ℤ (intersection (halo_sizes a) (halo_sizes b))

module _ {F : Type 0} ⦃f : Float F⦄ where
  unfoldable pub compare_results : Bool → ℤ → RunResult F → RunResult F → Comparison F
  compare_results differs halo ra rb =
      let diff = f.fsub rb.max_average_seconds ra.max_average_seconds in
      record {
        halo_words = halo;
        time_a = ra.max_average_seconds;
        time_b = rb.max_average_seconds;
        absolute_difference = diff;
        percent_difference = f.fmul (f.fdiv diff ra.max_average_seconds) (f.literal 100 1);
        ratio_b_over_a = f.fdiv rb.max_average_seconds ra.max_average_seconds;
        bytes_a = ra.total_exchange_bytes_per_rank;
        bytes_b = rb.total_exchange_bytes_per_rank;
        iterations_a = ra.iterations;
        iterations_b = rb.iterations;
        configuration_differs = differs;
      }

  -- the row of a halo size, from what the two runs have of it
  unfoldable pub compare_row : Bool → ℤ → Option (RunResult F) → Option (RunResult F) → CompareRow F
  unfolding compare_results
  compare_row differs halo none rb = missing_in halo side_a
  compare_row differs halo (some ra) none = missing_in halo side_b
  compare_row differs halo (some ra) (some rb) = compared (compare_results differs halo ra rb)

  unfoldable pub rows_of : Bool → Run F → Run F → List ℤ → List (CompareRow F)
  unfolding compare_row lookup results_by_halo
  rows_of differs a b [] = []
  rows_of differs a b (halo ∷ halos) =
      compare_row differs halo (lookup halo (results_by_halo a)) (lookup halo (results_by_halo b))
      ∷ rows_of differs a b halos

  unfoldable pub compare_rows : Run F → Run F → Bool → Result AnalyzeFault (List (CompareRow F))
  unfolding same_set halo_sizes configuration_differences rows_of compared_halos
  compare_rows a b allow_missing = do
    raise_if (not allow_missing && not (same_set (halo_sizes a) (halo_sizes b)))
        (AnalyzeFault.analysis AnalysisError.different_sizes)
    differences ← python_err (configuration_differences a b)
    ok (rows_of (not (is_nil differences)) a b (compared_halos allow_missing a b))

  -- row.get("bytes_per_rank_A") == row.get("bytes_per_rank_B")
  unfoldable pub same_bytes : CompareRow F → Bool
  same_bytes (missing_in halo side) = true
  same_bytes (compared row) = row.bytes_a == row.bytes_b

  unfoldable pub check_bytes : List (CompareRow F) → Result AnalyzeFault (Unit {0})
  unfolding same_bytes
  check_bytes [] = ok tt
  check_bytes (row ∷ rows) = do
    raise_if (not (same_bytes row)) (AnalyzeFault.analysis AnalysisError.bytes_differ)
    check_bytes rows

  unfoldable pub percent_difference_rows_for_plot :
      List (Run F) → Result AnalyzeFault (List (CompareRow F))
  unfolding compare_rows check_bytes
  percent_difference_rows_for_plot (a ∷ b ∷ []) = do
    rows ← compare_rows a b false
    check_bytes rows
    ok rows
  percent_difference_rows_for_plot _ = err (AnalyzeFault.analysis AnalysisError.two_runs)

  -- a row.get("observed_percent_difference", 0.0) above the threshold: the exit status 1
  unfoldable pub has_regression : F → List (CompareRow F) → Bool
  has_regression threshold [] = false
  has_regression threshold (missing_in halo side ∷ rows) =
      f.flt threshold (f.literal 0 1) || has_regression threshold rows
  has_regression threshold (compared row ∷ rows) =
      f.flt threshold row.percent_difference || has_regression threshold rows

  -- the rows that `command_compare` writes, and its exit status
  unfoldable pub command_compare :
      RunFiles F
      → FilePath
      → FilePath
      → Bool
      → Bool
      → F
      → Result AnalyzeFault (List (CompareRow F) × ℕ)
  unfolding load_runs compare_rows has_regression
  command_compare files run_a run_b allow_missing fail_on_regression threshold =
      load_runs files (run_a ∷ run_b ∷ []) >>= λ runs. elim runs [
        | [] ↦ err (AnalyzeFault.python Builtin.value_error)
        | a ∷ others ↦ elim others [
          | [] ↦ err (AnalyzeFault.python Builtin.value_error)
          | b ∷ more ↦ elim more [
            | [] ↦ compare_rows a b allow_missing >>= λ rows.
                ok (rows, (if fail_on_regression && has_regression threshold rows then 1 else 0))
            | c ∷ rest ↦ err (AnalyzeFault.python Builtin.value_error)
          ]
        ]
      ]
