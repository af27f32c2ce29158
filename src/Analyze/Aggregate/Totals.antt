-- ===== src/Analyze/Aggregate/Totals.antt =====
-- The rows of `aggregate_rows` in tools/ghalo_analyze.py count every result once.
use g_halo.Sort.{sort_by}
use g_halo.Analyze.Aggregate.Group.{aggregate_group_metadata}
use g_halo.Analyze.Compare.Entries.{keys-HasNoRepeat}
use g_halo.Analyze.Compare.Sets.{HasNoRepeat}
use g_halo.Dict.Laws.{UniqueKeys}
use g_halo.Analyze.Results.Valid.{HasDifferentHalos}
use g_halo.Stalls.Load.{member}
use g_halo.Analyze.Compare.{results_by_halo, halo_key}
use g_halo.Analyze.Compare.Halos.{halos_of, member-results_by_halo, halo_of}
use g_halo.Analyze.Results.{AnalyzeFault, RunResult}
use g_halo.Analyze.Aggregate.Halos.{
  among, indicator, sum_over-among, smallest_sizes-UniqueKeys, member-smallest_sizes,
}
use g_halo.Result.{ok, >>=-eq-ok, ok_inj, ◌>>=◌, Result, not_ok}
use g_halo.Text.{Text}
use g_halo.Dict.{Dict, lookup}
use g_halo.Analyze.Run.{Run}
use g_halo.Sort.Sums.{sum_over, sum_over_same, sum_over_add, sum_over-sort_by}
use g_halo.Analyze.Aggregate.{
  AggregateRow, aggregate_row, aggregate_halos, values_at, percentile, add_time, aggregate_group,
  smallest_sizes, size_le,
}
use g_halo.Float.{Float}
use g_halo.Analyze.Keys.{value_eq, Value}
use g_halo.Prelude.{
  ℕ, some, none, int_eq, list_eq, List, length, ℤ, ◌≡◌, ◌∷◌, ap, sym, [], ◌+◌, arith, ◌∙◌, ap₂, inl,
  false, inr, true, refl, Option, map, Occurs, All, ◌≢◌, length-map, Bool-cases, ◌==◌, eq_of_==,
}

module _ {F : Type 0} ⦃f : Float F⦄ where
  -- the results that the rows count, and those of the runs
  abbrev pub row_total : List (AggregateRow F) → ℕ
  row_total rows = sum_over (λ (row : AggregateRow F). row.number) rows

  abbrev pub result_total : List (Run F) → ℕ
  result_total runs = sum_over (λ (run : Run F). length run.results) runs

  aggregate_row-number :
      (group : Dict Text Value) (halo : ℤ) (first : F) (others : List F) (row : AggregateRow F)
      → aggregate_row group halo first others ≡ ok row
      → row.number ≡ length (first ∷ others)
  unfolding aggregate_row
  aggregate_row-number group halo first others row h =
      let (quarter, found, h1) = >>=-eq-ok (percentile (first ∷ others) (f.literal 25 100)) _ h in
      let (three, found', h2) = >>=-eq-ok (percentile (first ∷ others) (f.literal 75 100)) _ h1 in
      ap (λ (r : AggregateRow F). r.number) (sym (ok_inj _ row h2))

  abbrev values_number : List (Run F) → ℤ × ℤ → ℕ
  values_number runs (halo, size) = length (values_at halo runs)

  halos_step :
      (group : Dict Text Value) (halo : ℤ) (values : List F)
      (rest : Result AnalyzeFault (List (AggregateRow F))) (n : ℕ) (rows : List (AggregateRow F))
      → ((others : List (AggregateRow F)) → rest ≡ ok others → row_total others ≡ n)
      → (elim values as (λ v. Result AnalyzeFault (List (AggregateRow F))) [
        | [] ↦ rest
        | first ∷ others ↦
            aggregate_row group halo first others >>= λ row. rest >>= λ rows. ok (row ∷ rows)
      ])
        ≡ ok rows
      → row_total rows ≡ length values + n
  halos_step group halo [] rest n rows ih h = omega (arith, ih rows h)
  halos_step group halo (first ∷ others) rest n rows ih h =
      let (row, made, h1) = >>=-eq-ok (aggregate_row group halo first others) _ h in
      let (later, found, h2) = >>=-eq-ok rest _ h1 in
      let number = aggregate_row-number group halo first others row made in
      sym (ap row_total (ok_inj _ rows h2)) ∙ ap₂ ◌+◌ number (ih later found)

  aggregate_halos-total :
      (group : Dict Text Value) (runs : List (Run F)) (halos : List (ℤ × ℤ))
      (rows : List (AggregateRow F))
      → aggregate_halos group runs halos ≡ ok rows
      → row_total rows ≡ sum_over (values_number runs) halos
  unfolding aggregate_halos
  aggregate_halos-total group runs [] rows h = ap row_total (sym (ok_inj _ rows h))
  aggregate_halos-total group runs ((halo, size) ∷ halos) rows h =
      halos_step group halo (values_at halo runs) (aggregate_halos group runs halos)
        (sum_over (values_number runs) halos) rows
        (λ others k. aggregate_halos-total group runs halos others k) h

  length-add_time :
      (found : Option (RunResult F)) (times : List F)
      → length (add_time found times)
        ≡ indicator (elim found [ none ↦ false | some r ↦ true ]) + length times
  length-add_time none times = omega arith
  length-add_time (some r) times = omega arith

  values_at-among :
      (halo : ℤ) (run : Run F) (runs : List (Run F))
      → length (values_at halo (run ∷ runs))
        ≡ among (halos_of run) halo + length (values_at halo runs)
  unfolding values_at
  values_at-among halo run runs =
      length-add_time (lookup halo (results_by_halo run)) (values_at halo runs)
      ∙ ap (λ b. indicator b + length (values_at halo runs)) (sym (member-results_by_halo halo run))

  abbrev key_among : Run F → ℤ × ℤ → ℕ
  key_among run (halo, size) = among (halos_of run) halo

  -- Counted by halo size or by run, the values are as many.
  values_total :
      (runs : List (Run F)) (halos : List (ℤ × ℤ))
      → sum_over (values_number runs) halos ≡ sum_over (λ run. sum_over (key_among run) halos) runs
  unfolding values_at
  values_total [] [] = refl
  values_total [] ((halo, size) ∷ halos) = omega (arith, values_total [] halos)
  values_total (run ∷ runs) halos =
      sum_over_same (values_number (run ∷ runs))
        (λ entry. key_among run entry + values_number runs entry) halos
        (λ entry. let (halo, size) = entry in values_at-among halo run runs)
      ∙ sum_over_add (key_among run) (values_number runs) halos
      ∙ ap (λ n. sum_over (key_among run) halos + n) (values_total runs halos)

  absent_halo :
      (h : ℤ) (results : List (RunResult F))
      → All (λ (q : RunResult F). q.halo_words ≢ h) results
      → member h (map halo_of results) ≡ false
  unfolding member
  absent_halo h [] a = refl
  absent_halo h (q ∷ results) a = elim (Bool-cases (q.halo_words == h)) [
    | inl e ↦ absurd (a.0 (eq_of_== q.halo_words h e))
    | inr e ↦ rw e (absent_halo h results a.1)
  ]

  -- The halo sizes of a checked run are different.
  halos-HasNoRepeat :
      (results : List (RunResult F)) → HasDifferentHalos results → HasNoRepeat (map halo_of results)
  halos-HasNoRepeat [] d = tt
  halos-HasNoRepeat (r ∷ results) d =
      (absent_halo r.halo_words results d.0, halos-HasNoRepeat results d.1)

  keys_total :
      (d : Dict ℤ ℤ) (run : Run F)
      → sum_over (key_among run) d ≡ sum_over (among (halos_of run)) (map halo_key d)
  keys_total [] run = refl
  keys_total ((halo, size) ∷ d) run = ap (λ n. among (halos_of run) halo + n) (keys_total d run)

  abbrev pub IsDistinct : Run F → Type 0
  IsDistinct run = HasDifferentHalos run.results

  -- The values of a group are its results.
  group_values :
      (d : Dict ℤ ℤ) (runs : List (Run F))
      → UniqueKeys d
      → ((run : Run F)
          → Occurs run runs
          → (h : ℤ) → member h (halos_of run) ≡ true
          → member h (map halo_key d) ≡ true)
      → All IsDistinct runs
      → sum_over (λ run. sum_over (key_among run) d) runs ≡ result_total runs
  group_values d [] u inside distinct = refl
  group_values d (run ∷ runs) u inside distinct =
      let one : sum_over (key_among run) d ≡ length run.results =
        keys_total d run
        ∙ sum_over-among (map halo_key d) (halos_of run) (keys-HasNoRepeat d u)
            (halos-HasNoRepeat run.results distinct.0) (inside run (inl refl))
        ∙ length-map run.results halo_of in
      ap₂ ◌+◌ one (group_values d runs u (λ other o. inside other (inr o)) distinct.1)

  -- The rows of a group count the results of its runs.
  pub aggregate_group-total :
      (group_by : List Text) (key : List Value) (runs : List (Run F)) (rows : List (AggregateRow F))
      → All IsDistinct runs
      → aggregate_group group_by (key, runs) ≡ ok rows
      → row_total rows ≡ result_total runs
  unfolding aggregate_group
  aggregate_group-total group_by key [] rows distinct h = absurd (not_ok h)
  aggregate_group-total group_by key (run ∷ runs) rows distinct h =
      let all = run ∷ runs in
      let sizes = smallest_sizes [] all in
      let (group, found, h1) = >>=-eq-ok (aggregate_group_metadata run key group_by) _ h in
      aggregate_halos-total group all (sort_by size_le sizes) rows h1
      ∙ sum_over-sort_by size_le (values_number all) sizes
      ∙ values_total all sizes
      ∙ group_values sizes all (smallest_sizes-UniqueKeys [] all tt)
          (λ other o halo m. member-smallest_sizes halo [] all other o m) distinct
