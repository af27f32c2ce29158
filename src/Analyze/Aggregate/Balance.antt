-- ===== src/Analyze/Aggregate/Balance.antt =====
-- The groups of `aggregate_rows` in tools/ghalo_analyze.py hold every run once.
use g_halo.Analyze.Results.{AnalyzeFault, AnalysisError}
use g_halo.Sort.Laws.{Occurs-sort_by}
use g_halo.Result.{ok, ok_inj, >>=-eq-ok, raise_if-eq-ok}
use g_halo.Sort.Sums.{sum_over, sum_over-sort_by, sum_over-append, sum_over-append_to}
use g_halo.Sort.{sort_by}
use g_halo.Text.{Text}
use g_halo.Analyze.Aggregate.Totals.{IsDistinct, result_total, row_total, aggregate_group-total}
use g_halo.Analyze.Aggregate.{
  group_all, aggregate_groups, aggregate_rows, AggregateRow, aggregate_group, group_key,
  group_order_le,
}
use g_halo.Analyze.Run.{Run}
use g_halo.Dict.{Dict, append_to, adjust}
use g_halo.Float.{Float}
use g_halo.Analyze.Keys.{value_eq, sorted_runs_for_output, Value, run_le}
use g_halo.Prelude.{
  ℕ, int_eq, list_eq, List, All, length, Bool, ◌++◌, ◌≡◌, All-of_Occurs, [], ◌∷◌, Bool-cases, ◌+◌,
  All-Occurs, ◌==◌, ap, sym, inl, ◌∙◌, inr, arith, ap₂, subst, not, ◌&&◌, ltb,
}

abbrev Groups : Type 0 → Type 0
Groups F = Dict (List Value) (List (Run F))

module _ {F : Type 0} ⦃f : Float F⦄ where
  abbrev run_size : Run F → ℕ
  run_size run = length run.results

  abbrev group_size : List Value × List (Run F) → ℕ
  group_size group = sum_over run_size group.1

  abbrev HasDistinctRuns : List Value × List (Run F) → Type 0
  HasDistinctRuns group = All IsDistinct group.1

  append-All :
      (runs others : List (Run F))
      → All IsDistinct runs
      → All IsDistinct others
      → All IsDistinct (runs ++ others)
  append-All [] others h k = k
  append-All (run ∷ runs) others h k = (h.0, append-All runs others h.1 k)

  append_to-All :
      (key : List Value) (run : Run F) (groups : Groups F)
      → IsDistinct run
      → All HasDistinctRuns groups
      → All HasDistinctRuns (append_to key run groups)
  unfolding append_to adjust
  append_to-All key run [] h k = ((h, tt), tt)
  append_to-All key run ((j, runs) ∷ groups) h k = elim (Bool-cases (j == key)) [
    | inl e ↦ rw e (append-All runs (run ∷ []) k.0 (h, tt), k.1)
    | inr e ↦ rw e (k.0, append_to-All key run groups h k.1)
  ]

  group_all-total :
      (allow : Bool) (group_by : List Text) (start : Groups F) (runs : List (Run F))
      (groups : Groups F)
      → All IsDistinct runs
      → All HasDistinctRuns start
      → group_all allow group_by start runs ≡ ok groups
      → (sum_over group_size groups ≡ sum_over group_size start + result_total runs)
        × All HasDistinctRuns groups
  unfolding group_all
  group_all-total allow group_by start [] groups distinct all h =
      let same = ok_inj start groups h in
      (sym (ap (sum_over group_size) same) ∙ omega arith, subst (All HasDistinctRuns) same all)
  group_all-total allow group_by start (run ∷ runs) groups distinct all h =
      let (key, found, h1) = >>=-eq-ok (group_key allow group_by run) _ h in
      let (total, kept) =
        group_all-total allow group_by (append_to key run start) runs groups distinct.1
          (append_to-All key run start distinct.0 all) h1 in
      let more = sum_over-append_to run_size key run start in (omega (arith, total, more), kept)

  row_total-append :
      (rows others : List (AggregateRow F))
      → row_total (rows ++ others) ≡ row_total rows + row_total others
  row_total-append rows others = sum_over-append (λ (row : AggregateRow F). row.number) rows others

  aggregate_groups-total :
      (group_by : List Text) (groups : Groups F) (rows : List (AggregateRow F))
      → All HasDistinctRuns groups
      → aggregate_groups group_by groups ≡ ok rows
      → row_total rows ≡ sum_over group_size groups
  unfolding aggregate_groups
  aggregate_groups-total group_by [] rows all h = ap row_total (sym (ok_inj _ rows h))
  aggregate_groups-total group_by ((key, runs) ∷ groups) rows all h =
      let (first, made, h1) = >>=-eq-ok (aggregate_group group_by (key, runs)) _ h in
      let (later, found, h2) = >>=-eq-ok (aggregate_groups group_by groups) _ h1 in
      sym (ap row_total (ok_inj _ rows h2))
      ∙ row_total-append first later
      ∙ ap₂ ◌+◌ (aggregate_group-total group_by key runs first all.0 made)
          (aggregate_groups-total group_by groups later all.1 found)

  sort_by-All :
      (groups : Groups F)
      → All HasDistinctRuns groups
      → All HasDistinctRuns (sort_by group_order_le groups)
  sort_by-All groups all = All-of_Occurs (sort_by group_order_le groups) (λ group o.
      All-Occurs HasDistinctRuns group groups all (Occurs-sort_by group_order_le group groups o))

  sorted_runs-All :
      (runs : List (Run F)) → All IsDistinct runs → All IsDistinct (sorted_runs_for_output runs)
  unfolding sorted_runs_for_output
  sorted_runs-All runs all =
      All-of_Occurs (sort_by run_le runs)
        (λ run o. All-Occurs IsDistinct run runs all (Occurs-sort_by run_le run runs o))

  sorted_runs-total :
      (runs : List (Run F)) → result_total (sorted_runs_for_output runs) ≡ result_total runs
  unfolding sorted_runs_for_output
  sorted_runs-total runs = sum_over-sort_by run_le run_size runs

  -- If no run has a halo size twice, which `load_runs` checks, then the counts of the rows that are
  -- returned add up to the number of the results of the runs.
  pub aggregate_rows-total :
      (runs : List (Run F)) (allow_mixed : Bool) (group_by : List Text)
      (rows : List (AggregateRow F))
      → All IsDistinct runs
      → aggregate_rows runs allow_mixed group_by ≡ ok rows
      → row_total rows ≡ result_total runs
  unfolding aggregate_rows
  aggregate_rows-total runs allow_mixed group_by rows distinct h =
      let sorted = sorted_runs_for_output runs in
      let (groups, found, h1) = >>=-eq-ok (group_all allow_mixed group_by [] sorted) _ h in
      let (passed, h2) =
        raise_if-eq-ok (not allow_mixed && ltb 1 (length groups))
          (AnalyzeFault.analysis AnalysisError.incompatible)
          (aggregate_groups group_by (sort_by group_order_le groups)) h1 in
      let (total, all) =
        group_all-total allow_mixed group_by [] sorted groups (sorted_runs-All runs distinct) tt
          found in
      aggregate_groups-total group_by (sort_by group_order_le groups) rows (sort_by-All groups all)
        h2
      ∙ sum_over-sort_by group_order_le group_size groups
      ∙ (let same = sorted_runs-total runs in omega (arith, total, same))
