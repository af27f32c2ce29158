-- ===== src/Stalls/Summary.antt =====
-- The result of `analyze_case` of tools/analyze_iteration_stalls.py, and the function itself.
pub mod Inversion
pub mod Stalled
pub mod Counts
use g_halo.Sort.{sort_by}
use g_halo.Sort.Max.{max_by}
use g_halo.Stalls.Ranks.Tally.{analyze_rank_records, entry_le}
use g_halo.Statistics.{median, fmean}
use g_halo.Stalls.Ranks.Event.{percent}
use g_halo.Stalls.Samples.{longest_stall_free_sequence}
use g_halo.Stalls.Ranks.{RankTally}
use g_halo.Stalls.Phases.{PhaseAnalysis, analyze_phase_records}
use g_halo.Stalls.{
  Fault, Warning, StallError, SampleInfo, IterationRecord, SampleKey, PhaseRecord, RankRecord,
}
use g_halo.Stalls.Readers.{load_iteration_records, load_phase_records, load_rank_records}
use g_halo.KeyValue.{Metadata, parse_key_value_file}
use g_halo.Result.{Result, ok, ◌>>=◌, err, ◌>>◌, raise_if}
use g_halo.Stalls.Case.{
  sample_sequence, Affected, count_samples, max_stalls, sum_iterations, tally_stalls, index_samples,
  no_stalls, StallTally,
}
use g_halo.Dict.{get_or, Dict}
use g_halo.Json.{Json, boolean, str, int, Builtin, num, arr, cons, obj, end, field}
use g_halo.Stalls.Load.{JsonFile, result_list, load_samples, CsvFile, lift_builtin, is_nil}
use g_halo.Text.{Text, lit, or_else}
use g_halo.Float.{Float}
use g_halo.Stalls.Paths.{
  FilePath, infer_rocm_from_path, infer_system_from_path, infer_category_from_path, path_name,
  normalize_rocm,
}
use g_halo.Json.{Json, null, boolean, int, num, str, arr, obj, nil, cons, end, field, Builtin}
use g_halo.Json
use g_halo.Prelude.{
  ℕ, Option, List, ℤ, Bool, none, false, map, some, ◌∷◌, [], if◌then◌else◌, list_eq, nat_eq, not,
  ◌==◌, pos, true, ◌++◌, length, leb_ℤ, int_eq,
}

pub record CaseSummary (F : Type 0) : Type 0 where
  pub result_dir : FilePath
  pub label : Text
  pub backend : Json F
  pub rccl_sync_mode : Json F
  pub system : Text
  pub rocm_version : Text
  pub category : Text
  pub threshold_us : F
  pub samples_found : ℕ
  pub total_measured_iterations : ℤ
  pub emitted_iteration_records : ℕ
  pub stall_count : ℕ
  pub stalled_iteration_percent : F
  pub samples_with_stalls : ℕ
  pub samples_with_stalls_percent : F
  pub max_stalls_in_one_sample : ℕ
  pub longest_stall_free_sequence : ℕ
  pub min_stall_duration_us : Option F
  pub median_stall_duration_us : Option F
  pub mean_stall_duration_us : Option F
  pub max_stall_duration_us : Option F
  pub rank_frequency : Dict ℤ ℕ
  pub sample_sequence : Text
  pub affected_indices : List (Affected F)
  pub isolated_bad_samples : ℕ
  pub multiple_bad_samples : ℕ
  pub nearly_all_slow_samples : ℕ
  pub phases : PhaseAnalysis F
  pub ranks : RankTally F
  pub warnings : List Warning

-- What `analyze_case` reads of a result directory: its path and its files. `none` is a file that is
-- not there.
pub record CaseFiles (F : Type 0) : Type 0 where
  pub path : FilePath
  pub ghalo_json : JsonFile F
  pub result_metadata : Option Text
  pub system_resolution : Option Text
  pub iteration_times : CsvFile
  pub iteration_phase_times : CsvFile
  pub stalled_rank_times : CsvFile

unfoldable pub index_of : List SampleInfo → Dict SampleKey SampleInfo
unfolding index_samples
index_of samples = index_samples [] samples

-- What the loops find.
pub record Findings (F : Type 0) : Type 0 where
  pub stalls : StallTally F
  pub phases : PhaseAnalysis F
  pub ranks : RankTally F
  pub rank_warnings : List Warning

-- What the first result says of the run.
pub record Identity (F : Type 0) : Type 0 where
  pub backend : Json F
  pub rccl_sync_mode : Json F
  pub rocm : Text

module _ {F : Type 0} ⦃f : Float F⦄ where
  -- bool(value)
  unfoldable pub truthy : Json F → Bool
  truthy null = false
  truthy (boolean b) = b
  truthy (int n) = not (n == pos 0)
  truthy (num x) = not (f.feq x (f.literal 0 1))
  truthy (str t) = not (is_nil t)
  truthy (arr nil) = false
  truthy (arr (cons v vs)) = true
  truthy (obj end) = false
  truthy (obj (field k v fs)) = true

  -- a value that must be a text, as its method `strip` is called
  unfoldable pub as_text : Json F → Result Fault Text
  as_text (str t) = ok t
  as_text _ = err (Fault.builtin Builtin.attribute_error)

  -- metadata.get("rocm_version") or a text
  unfoldable pub rocm_or : Option (Json F) → Text → Result Fault Text
  unfolding truthy as_text
  rocm_or none other = ok other
  rocm_or (some value) other = if truthy value then as_text value else ok other

  -- payload["results"][0]
  unfoldable pub first_result : Json F → Result Fault (Json F)
  unfolding result_list
  first_result payload = result_list payload >>= λ results. elim results [
    | [] ↦ err (Fault.stall StallError.no_results)
    | r ∷ rs ↦ ok r
  ]

  -- the threshold: the given one, else the metadata's, else 0.0
  unfoldable pub threshold_of : Option F → Metadata → F
  unfolding get_or
  threshold_of (some given) metadata = given
  threshold_of none metadata =
      elim (f.of_text (get_or (lit "0") (lit "iteration_stall_threshold_us") metadata)) [
        | none ↦ f.literal 0 1
        | some x ↦ x
      ]

  -- a statistic of the stall durations, or None if there are none
  unfoldable pub when_any : (F → List F → F) → List F → Option F
  when_any statistic [] = none
  when_any statistic (x ∷ xs) = some (statistic x xs)

  abbrev pub durations : List (Affected F) → List F
  durations affected = map (λ (a : Affected F). a.duration) affected

  -- the loops over the phase and rank records, for the iterations that stalled
  unfoldable pub scan_records :
      List SampleInfo
      → StallTally F
      → List (PhaseRecord F)
      → List (RankRecord F)
      → Result Fault (Findings F)
  unfolding analyze_phase_records analyze_rank_records index_of
  scan_records samples t phase_records rank_records = do
    phases ←
        analyze_phase_records phase_records (index_of samples)
          (some (map (λ (a : Affected F). a.key) t.affected))
    ranks ← analyze_rank_records rank_records (index_of samples) phases.breakdown
    ok (record { stalls = t; phases = phases; ranks = ranks.0; rank_warnings = ranks.1 })

  -- the threshold check and the loops
  unfoldable pub find_stalls :
      List SampleInfo
      → F
      → List (IterationRecord F)
      → List (PhaseRecord F)
      → List (RankRecord F)
      → Result Fault (Findings F)
  unfolding tally_stalls scan_records index_of
  find_stalls samples threshold records phase_records rank_records = do
    raise_if (f.flt threshold (f.literal 0 1)) (Fault.stall StallError.negative_threshold)
    scan_records samples (tally_stalls (index_of samples) threshold no_stalls records) phase_records
        rank_records

  -- the backend, the mode and the ROCm version of the first result
  unfoldable pub identify : Json F → Text → Result Fault (Identity F)
  unfolding first_result rocm_or lift_builtin
  identify payload other_rocm = do
    result ← first_result payload
    metadata ← lift_builtin (Json.get_or (obj end) (lit "metadata") result)
    backend ← lift_builtin (Json.get_or (str []) (lit "backend") result)
    sync_mode ← lift_builtin (Json.get_or (str []) (lit "rccl_sync_mode") metadata)
    version ← lift_builtin (Json.get (lit "rocm_version") metadata)
    rocm ← rocm_or version other_rocm
    ok (record { backend = backend; rccl_sync_mode = sync_mode; rocm = rocm })

  -- the summary of what the loops have found
  unfoldable pub summarize :
      CaseFiles F
      → List SampleInfo
      → Identity F
      → F
      → List (IterationRecord F)
      → Findings F
      → List Warning
      → CaseSummary F
  unfolding sample_sequence count_samples max_stalls sum_iterations longest_stall_free_sequence
      when_any percent median fmean max_by infer_system_from_path infer_category_from_path path_name
      normalize_rocm parse_key_value_file get_or sort_by
  summarize files samples identity threshold records found warnings =
      let result_metadata = parse_key_value_file files.result_metadata in
      let system_metadata = parse_key_value_file files.system_resolution in
      let t = found.stalls in
      let sequence = sample_sequence t.by_sample samples in
      let counts = count_samples t.by_sample samples in
      let total = sum_iterations samples in
      let stalls = length t.affected in
      let spans = durations t.affected in
      record {
        result_dir = files.path;
        label = path_name files.path;
        backend = identity.backend;
        rccl_sync_mode = identity.rccl_sync_mode;
        system = or_else (get_or [] (lit "active_system") system_metadata) (
            or_else (get_or [] (lit "system") result_metadata) (infer_system_from_path files.path));
        rocm_version = normalize_rocm identity.rocm;
        category =
            or_else (get_or [] (lit "result_category") result_metadata)
              (infer_category_from_path files.path);
        threshold_us = threshold;
        samples_found = length samples;
        total_measured_iterations = total;
        emitted_iteration_records = length records;
        stall_count = stalls;
        stalled_iteration_percent = percent (pos stalls) total;
        samples_with_stalls = counts.stalled;
        samples_with_stalls_percent = percent (pos counts.stalled) (pos (length samples));
        max_stalls_in_one_sample = max_stalls t.by_sample;
        longest_stall_free_sequence = longest_stall_free_sequence sequence;
        min_stall_duration_us = when_any (max_by (λ a b. f.fle b a)) spans;
        median_stall_duration_us = when_any (λ x xs. median (x ∷ xs)) spans;
        mean_stall_duration_us = when_any (λ x xs. fmean (x ∷ xs)) spans;
        max_stall_duration_us = when_any (max_by f.fle) spans;
        rank_frequency = sort_by (entry_le leb_ℤ) t.ranks;
        sample_sequence = sequence;
        affected_indices = t.affected;
        isolated_bad_samples = counts.isolated_bad;
        multiple_bad_samples = counts.multiple_bad;
        nearly_all_slow_samples = counts.nearly_all_slow;
        phases = found.phases;
        ranks = found.ranks;
        warnings = warnings ++ t.warnings ++ found.rank_warnings;
      }

  unfoldable pub analyze_case : CaseFiles F → Option F → Result Fault (CaseSummary F)
  unfolding load_samples load_iteration_records load_phase_records load_rank_records threshold_of
      find_stalls identify get_or infer_rocm_from_path parse_key_value_file summarize
  analyze_case files override =
      let result_metadata = parse_key_value_file files.result_metadata in
      let threshold = threshold_of override result_metadata in
      let other_rocm =
        or_else (get_or [] (lit "rocm_version") result_metadata)
          (infer_rocm_from_path files.path) in
      do
        loaded ← load_samples files.ghalo_json
        iterations ← load_iteration_records files.iteration_times
        phase_file ← load_phase_records files.iteration_phase_times
        rank_file ← load_rank_records files.stalled_rank_times
        found ← find_stalls loaded.0 threshold iterations.0 phase_file.0 rank_file.0
        identity ← identify loaded.1 other_rocm
        ok (
            summarize files loaded.0 identity threshold iterations.0 found
              (iterations.1 ++ phase_file.1 ++ rank_file.1))
