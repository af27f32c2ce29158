-- ===== src/Analyze/Load/Checked.antt =====
-- What every run that `load_run` and `load_runs` of tools/ghalo_analyze.py return has been checked for.
use g_halo.Result.{ok, map_m}
use g_halo.Analyze.Run.Counts.{nodes}
use g_halo.Analyze.Results.Read.{load_json_results, load_csv_results}
use g_halo.Result.{ok, >>=-eq-ok, not_ok, >>-first-ok, ok_inj, >>-eq-ok}
use g_halo.Stalls.Paths.{FilePath}
use g_halo.Text.{Text, lit, strip}
use g_halo.Stalls.Load.{JsonFile, Row, is_nil}
use g_halo.Dict.{Dict, lookup}
use g_halo.Analyze.Results.{RunResult}
use g_halo.Analyze.Results.Valid.{
  validate_run, HasDifferentHalos, HasPositiveTime, HasRanks, world_size_of, validate_run_iff,
}
use g_halo.Analyze.Load.{
  exit_warnings, load_json_run, load_csv_run, read_run, load_run, RunFiles, add_node_warning,
  read_metadata_files, source_of, read_format, load_runs, expand_inputs,
}
use g_halo.Float.{Float}
use g_halo.Analyze.Run.{json, csv, Run, RunWarning, SourceFormat}
use g_halo.Prelude.{
  Option, List, ℤ, ◌≡◌, ◌∷◌, Occurs, ◌++◌, All, subst, some, [], none, ap, ◌↔◌, refl, list_eq,
  nat_eq, sym, Occurs-append_right, inl, Occurs-append_cases, inr, Bool, if◌then◌else◌, not, ◌&&◌,
  ◌==◌, ◌≢◌, true, false,
}

exit_warnings-quiet :
    (status : Option Text) → ¬ Occurs RunWarning.unknown_node_count (exit_warnings status)
unfolding exit_warnings
exit_warnings-quiet none o = absurd o.1
exit_warnings-quiet (some text) o =
    quiet (not (is_nil (strip text)) && not (strip text == lit "0")) o
  where
    different : RunWarning.unknown_node_count ≢ RunWarning.nonzero_exit (strip text)
    different e = cc

    quiet :
        (test : Bool)
        → ¬ Occurs RunWarning.unknown_node_count
            (if test then RunWarning.nonzero_exit (strip text) ∷ [] else [])
    quiet true o = elim o [ inl e ↦ absurd (different e) | inr p ↦ absurd p.1 ]
    quiet false o = absurd o.1

node_warning_iff :
    (count : Option ℤ) (warnings : List RunWarning)
    → ¬ Occurs RunWarning.unknown_node_count warnings
    → Occurs RunWarning.unknown_node_count
        (warnings ++ (elim count [ none ↦ RunWarning.unknown_node_count ∷ [] | some n ↦ [] ]))
      ↔ (count ≡ none)
node_warning_iff none warnings quiet = (λ h. refl, λ h. Occurs-append_right _ warnings _ (inl refl))
node_warning_iff (some n) warnings quiet = (
  λ h. elim (Occurs-append_cases _ warnings [] h) [ inl o ↦ absurd (quiet o) | inr o ↦ absurd o.1 ],
  λ h. cc,
)

module _ {F : Type 0} ⦃f : Float F⦄ where
  -- The run has results, no halo size stands twice among them, and each has a positive time and the
  -- rank count of the first; the warning about the node count is there exactly if the count is not.
  abbrev pub IsChecked : Run F → Type 0
  IsChecked run =
      (first : RunResult F) × (rest : List (RunResult F)) × (run.results ≡ first ∷ rest)
      × HasDifferentHalos run.results
      × All HasPositiveTime run.results
      × All (HasRanks (world_size_of first)) run.results
      × (Occurs RunWarning.unknown_node_count run.warnings ↔ (nodes run ≡ none))

  load_json_run-warnings :
      (content : JsonFile F) (source result_path : FilePath) (metadata_files : Dict Text Text)
      (warnings : List RunWarning) (run : Run F)
      → load_json_run content source result_path metadata_files warnings ≡ ok run
      → run.warnings ≡ warnings
  unfolding load_json_run
  load_json_run-warnings content source result_path metadata_files warnings run h =
      let (results, found, same) = >>=-eq-ok (load_json_results content) _ h in
      ap (λ r. r.warnings) (sym (ok_inj _ run same))

  load_csv_run-warnings :
      (content : Option (List Row)) (source result_path : FilePath)
      (metadata_files : Dict Text Text) (warnings : List RunWarning) (run : Run F)
      → load_csv_run content source result_path metadata_files warnings ≡ ok run
      → run.warnings ≡ warnings
  unfolding load_csv_run
  load_csv_run-warnings none source result_path metadata_files warnings run h = absurd (not_ok h)
  load_csv_run-warnings (some rows) source result_path metadata_files warnings run h =
      let (results, found, same) = >>=-eq-ok (load_csv_results rows) _ h in
      ap (λ r. r.warnings) (sym (ok_inj _ run same))

  read_format-quiet :
      (format : SourceFormat) (files : RunFiles F) (source result_path : FilePath)
      (metadata_files : Dict Text Text) (run : Run F)
      → read_format format files source result_path metadata_files ≡ ok run
      → ¬ Occurs RunWarning.unknown_node_count run.warnings
  unfolding read_format
  read_format-quiet json files source result_path metadata_files run h o =
      exit_warnings-quiet (lookup (lit "exit-status.txt") metadata_files) (
        subst (Occurs RunWarning.unknown_node_count)
          (load_json_run-warnings (files.read_json source) source result_path metadata_files
            (exit_warnings (lookup (lit "exit-status.txt") metadata_files)) run h)
          o)
  read_format-quiet csv files source result_path metadata_files run h o =
      exit_warnings-quiet (lookup (lit "exit-status.txt") metadata_files) (
        subst (Occurs RunWarning.unknown_node_count)
          (load_csv_run-warnings (files.read_csv source) source result_path metadata_files
            (exit_warnings (lookup (lit "exit-status.txt") metadata_files)) run h)
          o)

  validated :
      (results : List (RunResult F))
      → validate_run results ≡ ok tt
      → (first : RunResult F) × (rest : List (RunResult F)) × (results ≡ first ∷ rest)
  unfolding validate_run
  validated [] h = absurd (not_ok h)
  validated (first ∷ rest) h = (first, rest, refl)

  checked :
      (run : Run F)
      → validate_run run.results ≡ ok tt
      → ¬ Occurs RunWarning.unknown_node_count run.warnings
      → IsChecked (add_node_warning run)
  unfolding add_node_warning
  checked run passed quiet =
      let (first, rest, split) = validated run.results passed in
      let (different, positive, same) =
        (validate_run_iff first rest).0 (subst (λ l. validate_run l ≡ ok tt) split passed) in
      (
        first,
        rest,
        split,
        subst HasDifferentHalos (sym split) different,
        subst (All HasPositiveTime) (sym split) positive,
        subst (All (HasRanks (world_size_of first))) (sym split) same,
        node_warning_iff (nodes run) run.warnings quiet,
      )

  pub load_run-IsChecked :
      (files : RunFiles F) (path : FilePath) (run : Run F)
      → load_run files path ≡ ok run
      → IsChecked run
  unfolding load_run read_run
  load_run-IsChecked files path run h =
      let (source, at, h1) = >>=-eq-ok (source_of files path) _ h in
      let (unchecked, read, h2) = >>=-eq-ok (read_run files source) _ h1 in
      let passed = >>-first-ok (validate_run unchecked.results) _ h2 in
      let same = ok_inj _ run (>>-eq-ok (validate_run unchecked.results) _ h2) in
      subst IsChecked same (
        checked unchecked passed (
          read_format-quiet source.format files source.file source.result_path
            (read_metadata_files files source.result_path) unchecked read))

  map_m-IsChecked :
      (files : RunFiles F) (paths : List FilePath) (runs : List (Run F))
      → map_m (load_run files) paths ≡ ok runs
      → All IsChecked runs
  unfolding map_m
  map_m-IsChecked files [] runs h = subst (All IsChecked) (ok_inj _ runs h) tt
  map_m-IsChecked files (path ∷ paths) runs h =
      let (run, loaded, h1) = >>=-eq-ok (load_run files path) _ h in
      let (others, rest, h2) = >>=-eq-ok (map_m (load_run files) paths) _ h1 in
      subst (All IsChecked) (ok_inj _ runs h2)
        (load_run-IsChecked files path run loaded, map_m-IsChecked files paths others rest)

  -- Every run that `load_runs` returns is checked: it has results, no halo size stands twice among
  -- them, each has a positive time and the rank count of the first, and the run warns of an unknown
  -- node count exactly if its node count is unknown.
  pub load_runs-IsChecked :
      (files : RunFiles F) (paths : List FilePath) (runs : List (Run F))
      → load_runs files paths ≡ ok runs
      → All IsChecked runs
  unfolding load_runs
  load_runs-IsChecked files [] runs h = absurd (not_ok h)
  load_runs-IsChecked files (path ∷ paths) runs h =
      map_m-IsChecked files (expand_inputs files (path ∷ paths)) runs h
