-- ===== src/Analyze/Scaling.antt =====
-- `choose_baseline` and `scaling_rows` of tools/ghalo_analyze.py.
pub mod Baseline
use g_halo.Prelude.{option_eq}
use g_halo.Json.{Builtin}
use g_halo.Analyze.Run.Title.{label}
use g_halo.Stalls.Load.{is_nil}
use g_halo.Analyze.Results.{
  AnalyzeFault, effective_bytes_per_second, RunResult, effective_gib_per_second, python_err,
  AnalysisError,
}
use g_halo.Analyze.Compare.{results_by_halo}
use g_halo.Stalls.Ranks.Event.{keep_if}
use g_halo.Analyze.Keys.{sorted_results, sorted_runs_for_output}
use g_halo.Dict.{lookup}
use g_halo.Analyze.Run.Texts.{system}
use g_halo.Analyze.Load.{load_run, load_runs, RunFiles}
use g_halo.Analyze.Run.{Run}
use g_halo.Analyze.Run.Counts.{nodes, ranks, ranks_per_node, cartesian}
use g_halo.Float.{Float}
use g_halo.Text.{Text, lit}
use g_halo.Stalls.Paths.{FilePath}
use g_halo.Result.{ok, err, ◌>>=◌, ◌>>◌, Result}
use g_halo.Prelude.{
  pos, negsuc, ℕ, zero, suc, some, none, int_eq, leb_ℤ, ltb_ℤ, pair_le, int_ord, Option, ℤ, List,
  Bool, ◌∷◌, if◌then◌else◌, false, ◌==◌, true, not, ◌++◌, [], ◌&&◌, list_eq, nat_eq,
}

-- the arguments that choose the baseline; "" for an option that is not given
pub record BaselineOptions : Type 0 where
  pub baseline_path : FilePath
  pub baseline : Text
  pub baseline_as_path : FilePath
  pub baseline_nodes : Option ℤ

pub record ScalingRow (F : Type 0) : Type 0 where
  pub system : Text
  pub nodes : Option ℤ
  pub ranks : Option ℤ
  pub ranks_per_node : Option ℤ
  pub cartesian_dimensions : Text
  pub halo_words : ℤ
  pub time_microseconds : F
  pub ratio_to_baseline : F
  pub percent_increase : F
  pub bytes_per_second : F
  pub gib_per_second : F
  pub baseline_label : Text

-- count or 0
unfoldable pub count_or_zero : Option ℤ → ℤ
count_or_zero none = pos 0
count_or_zero (some n) = n

-- min(items, key=…): the first item of the least key
unfoldable pub first_least {ℓ} : {A : Type ℓ} → (A → ℤ × ℤ) → A → List A → A
first_least key best [] = best
first_least key best (x ∷ xs) =
    first_least key (if pair_le {A = ℤ} {B = ℤ} (key best) (key x) then best else x) xs

module _ {F : Type 0} ⦃f : Float F⦄ where
  unfoldable pub known_nodes : Run F → Bool
  unfolding nodes
  known_nodes run = elim (nodes run) [ none ↦ false | some n ↦ true ]

  unfoldable pub has_nodes : ℤ → Run F → Bool
  unfolding nodes
  has_nodes wanted run = nodes run == some wanted

  abbrev pub size_key : Run F → ℤ × ℤ
  size_key run = (count_or_zero (nodes run), count_or_zero (ranks run))

  abbrev pub rank_key : Run F → ℤ × ℤ
  rank_key run = (count_or_zero (ranks run), pos 0)

  -- the run of the fewest nodes, or of the fewest ranks if no node count is known
  unfoldable pub smallest_run : List (Run F) → List (Run F) → Result AnalyzeFault (Run F)
  unfolding first_least count_or_zero nodes ranks
  smallest_run (run ∷ known) runs = ok (first_least size_key run known)
  smallest_run [] (run ∷ runs) = ok (first_least rank_key run runs)
  smallest_run [] [] = err (AnalyzeFault.python Builtin.value_error)

  unfoldable pub choose_baseline :
      RunFiles F → BaselineOptions → List (Run F) → Result AnalyzeFault (Run F)
  unfolding load_run keep_if has_nodes known_nodes smallest_run
  choose_baseline files options runs =
      if not (is_nil options.baseline_path)
      then load_run files options.baseline_path
      else if not (is_nil options.baseline) && not (options.baseline == lit "smallest-nodes")
      then load_run files options.baseline_as_path
      else elim options.baseline_nodes [
        | some wanted ↦ elim (keep_if (has_nodes wanted) runs) [
          | [] ↦ err (AnalyzeFault.analysis (AnalysisError.no_baseline wanted))
          | run ∷ others ↦ ok run
        ]
        | none ↦
            if options.baseline == lit "smallest-nodes"
            then smallest_run (keep_if known_nodes runs) runs
            else err (AnalyzeFault.analysis (AnalysisError.unsupported_baseline options.baseline))
      ]

  unfoldable pub scaling_row : Run F → Run F → Text → RunResult F → RunResult F → ScalingRow F
  unfolding system nodes ranks ranks_per_node effective_bytes_per_second effective_gib_per_second
      label
  scaling_row baseline run dimensions result base =
      let ratio = f.fdiv result.max_average_seconds base.max_average_seconds in
      record {
        system = system run;
        nodes = nodes run;
        ranks = ranks run;
        ranks_per_node = ranks_per_node run;
        cartesian_dimensions = dimensions;
        halo_words = result.halo_words;
        time_microseconds = f.fmul result.max_average_seconds (f.literal 1000000 1);
        ratio_to_baseline = ratio;
        percent_increase = f.fmul (f.fsub ratio (f.literal 1 1)) (f.literal 100 1);
        bytes_per_second = effective_bytes_per_second result;
        gib_per_second = effective_gib_per_second result;
        baseline_label = label baseline;
      }

  -- the rows of one run's sorted results, for the halo sizes that the baseline has
  unfoldable pub scaling_results :
      Run F → Run F → List (RunResult F) → Result AnalyzeFault (List (ScalingRow F))
  unfolding lookup results_by_halo cartesian scaling_row
  scaling_results baseline run [] = ok []
  scaling_results baseline run (result ∷ results) =
      let rest = scaling_results baseline run results in
      elim (lookup result.halo_words (results_by_halo baseline)) [
        | none ↦ rest
        | some base ↦ python_err (cartesian run) >>= λ dimensions.
            rest >>= λ rows. ok (scaling_row baseline run dimensions result base ∷ rows)
      ]

  unfoldable pub scaling_runs : Run F → List (Run F) → Result AnalyzeFault (List (ScalingRow F))
  unfolding scaling_results sorted_results
  scaling_runs baseline [] = ok []
  scaling_runs baseline (run ∷ runs) = do
    rows ← scaling_results baseline run (sorted_results run.results)
    rest ← scaling_runs baseline runs
    ok (rows ++ rest)

  unfoldable pub scaling_rows : List (Run F) → Run F → Result AnalyzeFault (List (ScalingRow F))
  unfolding scaling_runs sorted_runs_for_output
  scaling_rows runs baseline = scaling_runs baseline (sorted_runs_for_output runs)

  -- the rows that `command_scaling` writes
  unfoldable pub command_scaling :
      RunFiles F → List FilePath → BaselineOptions → Result AnalyzeFault (List (ScalingRow F))
  unfolding load_runs choose_baseline scaling_rows sorted_runs_for_output
  command_scaling files inputs options = do
    loaded ← load_runs files inputs
    let runs = sorted_runs_for_output loaded
    baseline ← choose_baseline files options runs
    scaling_rows runs baseline
