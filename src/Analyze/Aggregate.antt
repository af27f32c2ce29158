-- ===== src/Analyze/Aggregate.antt =====
-- `percentile` and `aggregate_rows` of tools/ghalo_analyze.py, with what the groups are called.
pub mod Group
pub mod Halos
pub mod Totals
pub mod Balance
pub mod Unmixed
use g_halo.Prelude.{list_eq, leb, ◌+◌}
use g_halo.Analyze.Keys.{value_eq}
use g_halo.Json.{Builtin}
use g_halo.Stalls.Load.{is_nil}
use g_halo.Stalls.Paths.{FilePath}
use g_halo.Analyze.Run.{Run}
use g_halo.Analyze.Results.{RunResult, AnalyzeFault, AnalysisError, python_err}
use g_halo.Result.{ok, err, ◌>>=◌, ◌>>◌, Result, raise_if}
use g_halo.Analyze.Load.{load_runs, RunFiles}
use g_halo.Analyze.Aggregate.Group.{aggregate_group_metadata}
use g_halo.Statistics.{fmean, median}
use g_halo.Sort.{sort_by}
use g_halo.Analyze.Compare.{results_by_halo}
use g_halo.Text.{Text}
use g_halo.Float.{Float}
use g_halo.Dict.{Dict, adjust, lookup, append_to}
use g_halo.Analyze.Keys.{
  text, count, flag, sizes, grouping_key, sorted_runs_for_output, Value, compatibility_key, run_le,
}
use g_halo.Prelude.{
  pos, negsuc, ℕ, zero, suc, some, none, int_eq, leb_ℤ, ltb_ℤ, pair_le, int_ord, ℤ, Option, List,
  Bool, if◌then◌else◌, ◌∷◌, [], get_elem?, beq_ℤ, length, ◌++◌, ◌&&◌, true, ◌-◌, not, ltb,
}

-- The statistics of the results of one halo size in a group.
pub record AggregateRow (F : Type 0) : Type 0 where
  pub group : Dict Text Value
  pub halo_words : ℤ
  pub number : ℕ
  pub minimum : F
  pub maximum : F
  pub mean : F
  pub median_seconds : F
  pub population_stddev : F
  pub sample_stddev : Option F
  pub coefficient_of_variation : Option F
  pub first_quartile : F
  pub third_quartile : F

-- min(previous, value), or the value if there is no previous one
abbrev pub min_with : ℤ → Option ℤ → ℤ
min_with value none = value
min_with value (some previous) = if ltb_ℤ value previous then value else previous

-- sorted(halo_sizes, key=lambda item: (halo_sizes[item], item))
abbrev pub size_le : ℤ × ℤ → ℤ × ℤ → Bool
size_le (h, n) (k, m) = pair_le {A = ℤ} {B = ℤ} (n, h) (m, k)

module _ {F : Type 0} where
  -- halo_sizes, as the loops over the runs and their results fill it
  unfoldable pub add_sizes : Dict ℤ ℤ → List (RunResult F) → Dict ℤ ℤ
  unfolding adjust
  add_sizes d [] = d
  add_sizes d (r ∷ results) =
      add_sizes (adjust r.halo_words (min_with r.total_exchange_bytes_per_rank) d) results

  unfoldable pub smallest_sizes : Dict ℤ ℤ → List (Run F) → Dict ℤ ℤ
  unfolding add_sizes
  smallest_sizes d [] = d
  smallest_sizes d (run ∷ runs) = smallest_sizes (add_sizes d run.results) runs

  abbrev pub add_time : Option (RunResult F) → List F → List F
  add_time none times = times
  add_time (some r) times = r.max_average_seconds ∷ times

  -- the times that the runs have for a halo size
  unfoldable pub values_at : ℤ → List (Run F) → List F
  unfolding lookup results_by_halo
  values_at halo [] = []
  values_at halo (run ∷ runs) = add_time (lookup halo (results_by_halo run)) (values_at halo runs)

-- ordered[index]; a negative index counts from the end
unfoldable pub element_at {ℓ} : {A : Type ℓ} → ℤ → List A → Result AnalyzeFault A
element_at (pos n) l = elim (get_elem? l n) [
  | none ↦ err (AnalyzeFault.python Builtin.index_error)
  | some a ↦ ok a
]
element_at (negsuc n) l =
    if leb (n + 1) (length l)
    then (elim (get_elem? l (length l - (n + 1))) [
      | none ↦ err (AnalyzeFault.python Builtin.index_error)
      | some a ↦ ok a
    ])
    else err (AnalyzeFault.python Builtin.index_error)

module _ {F : Type 0} ⦃f : Float F⦄ where
  -- the percentile of at least two sorted values
  unfoldable pub interpolate : List F → F → Result AnalyzeFault F
  unfolding element_at
  interpolate ordered position =
      if beq_ℤ (f.floor position) (f.ceil position)
      then (elim (f.trunc position) [
        | none ↦ err (AnalyzeFault.python Builtin.overflow_error)
        | some n ↦ element_at n ordered
      ])
      else (do
        low ← element_at (f.floor position) ordered
        high ← element_at (f.ceil position) ordered
        let weight = f.fsub position (f.of_int (f.floor position))
        ok (f.fadd (f.fmul low (f.fsub (f.literal 1 1) weight)) (f.fmul high weight)))

  unfoldable pub percentile_of : List F → F → Result AnalyzeFault F
  unfolding interpolate
  percentile_of [] fraction = err (AnalyzeFault.analysis AnalysisError.no_values)
  percentile_of (x ∷ []) fraction = ok x
  percentile_of (x ∷ y ∷ values) fraction =
      interpolate (x ∷ y ∷ values) (f.fmul (f.of_int (pos (length (x ∷ y ∷ values) - 1))) fraction)

  unfoldable pub percentile : List F → F → Result AnalyzeFault F
  unfolding percentile_of sort_by
  percentile values fraction = percentile_of (sort_by f.fle values) fraction

  -- min(values) and max(values), from the first value on
  unfoldable pub min_from : F → List F → F
  min_from best [] = best
  min_from best (x ∷ xs) = min_from (if f.flt x best then x else best) xs

  unfoldable pub max_from : F → List F → F
  max_from best [] = best
  max_from best (x ∷ xs) = max_from (if f.flt best x then x else best) xs

  -- the row of a halo size that has a value
  unfoldable pub aggregate_row :
      Dict Text Value → ℤ → F → List F → Result AnalyzeFault (AggregateRow F)
  unfolding fmean median percentile min_from max_from
  aggregate_row group halo first others = do
    let values = first ∷ others
    let average = fmean values
    quarter ← percentile values (f.literal 25 100)
    three_quarters ← percentile values (f.literal 75 100)
    ok (record {
      group = group;
      halo_words = halo;
      number = length values;
      minimum = min_from first others;
      maximum = max_from first others;
      mean = average;
      median_seconds = median values;
      population_stddev = f.pstdev values;
      sample_stddev = if is_nil others then none else some (f.stdev values);
      coefficient_of_variation =
          if f.feq average (f.literal 0 1) then none else some (f.fdiv (f.pstdev values) average);
      first_quartile = quarter;
      third_quartile = three_quarters;
    })

  unfoldable pub aggregate_halos :
      Dict Text Value → List (Run F) → List (ℤ × ℤ) → Result AnalyzeFault (List (AggregateRow F))
  unfolding values_at aggregate_row
  aggregate_halos group runs [] = ok []
  aggregate_halos group runs ((halo, size) ∷ halos) =
      let rest = aggregate_halos group runs halos in
      elim (values_at halo runs) [
        | [] ↦ rest
        | first ∷ others ↦
            aggregate_row group halo first others >>= λ row. rest >>= λ rows. ok (row ∷ rows)
      ]

  unfoldable pub aggregate_group :
      List Text → List Value × List (Run F) → Result AnalyzeFault (List (AggregateRow F))
  unfolding aggregate_group_metadata aggregate_halos sort_by smallest_sizes
  aggregate_group group_by (key, []) = err (AnalyzeFault.python Builtin.index_error)
  aggregate_group group_by (key, run ∷ runs) = do
    group ← aggregate_group_metadata run key group_by
    aggregate_halos group (run ∷ runs) (sort_by size_le (smallest_sizes [] (run ∷ runs)))

  unfoldable pub aggregate_groups :
      List Text → Dict (List Value) (List (Run F)) → Result AnalyzeFault (List (AggregateRow F))
  unfolding aggregate_group
  aggregate_groups group_by [] = ok []
  aggregate_groups group_by (group ∷ groups) = do
    rows ← aggregate_group group_by group
    rest ← aggregate_groups group_by groups
    ok (rows ++ rest)

  -- the key of a run's group
  unfoldable pub group_key : Bool → List Text → Run F → Result AnalyzeFault (List Value)
  unfolding grouping_key compatibility_key
  group_key allow_mixed group_by run =
      if allow_mixed && not (is_nil group_by)
      then grouping_key run group_by
      else python_err (compatibility_key run)

  unfoldable pub group_all :
      Bool
      → List Text
      → Dict (List Value) (List (Run F))
      → List (Run F)
      → Result AnalyzeFault (Dict (List Value) (List (Run F)))
  unfolding group_key append_to
  group_all allow_mixed group_by groups [] = ok groups
  group_all allow_mixed group_by groups (run ∷ runs) = do
    key ← group_key allow_mixed group_by run
    group_all allow_mixed group_by (append_to key run groups) runs

  -- run_output_sort_key(item[1][0]); no group is empty
  abbrev pub group_order_le : List Value × List (Run F) → List Value × List (Run F) → Bool
  group_order_le (k, run ∷ runs) (j, other ∷ others) = run_le run other
  group_order_le (k, []) group = true
  group_order_le (k, run ∷ runs) (j, []) = true

  unfoldable pub aggregate_rows :
      List (Run F) → Bool → List Text → Result AnalyzeFault (List (AggregateRow F))
  unfolding group_all sorted_runs_for_output aggregate_groups sort_by
  aggregate_rows runs allow_mixed group_by = do
    groups ← group_all allow_mixed group_by [] (sorted_runs_for_output runs)
    raise_if (not allow_mixed && ltb 1 (length groups))
        (AnalyzeFault.analysis AnalysisError.incompatible)
    aggregate_groups group_by (sort_by group_order_le groups)

  -- the rows that `command_aggregate` writes
  unfoldable pub command_aggregate :
      RunFiles F → List FilePath → Bool → List Text → Result AnalyzeFault (List (AggregateRow F))
  unfolding load_runs sorted_runs_for_output aggregate_rows
  command_aggregate files inputs allow_mixed group_by = do
    runs ← load_runs files inputs
    aggregate_rows (sorted_runs_for_output runs) allow_mixed group_by
