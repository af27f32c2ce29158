-- ===== src/Versions/Report.antt =====
-- `summarize_result` of tools/compare_rccl_versions.py.
use native.Mathlib.Nat.{zero-add}
use g_halo.Dict.Counts.{total-count_all}
use g_halo.Stalls.Summary.Stalled.{analyze_case_stall_count}
use g_halo.Dict.Laws.{total, total-sort_by}
use g_halo.Versions.Events.{sum_ℕ, event_lengths_count, event_lengths_sum}
use g_halo.Stalls.Ranks.Tally.{entry_le}
use g_halo.Sort.{sort_by}
use g_halo.Stalls.Paths.{path_name}
use g_halo.Stalls.{Fault}
use Prim.Native.Nat.{max}
use g_halo.Stalls.Load.{lift_builtin, is_nil}
use g_halo.KeyValue.{Metadata, parse_key_value_file}
use g_halo.Json.{Json, Builtin, str, obj, end, boolean}
use g_halo.Stalls.Phases.{PhaseEvent}
use g_halo.Versions.{
  lift_fault, CompareFault, expected_codes, event_lengths, CompareError, VersionSummary,
  affected_sample,
}
use g_halo.Versions.Checks.{
  load_results, infer_version, validate_payload, sample_fast_median_us, lift,
}
use g_halo.Text.{or_else, Text, lit}
use g_halo.Statistics.{median}
use g_halo.Stalls.Summary.{truthy, analyze_case, CaseFiles, CaseSummary}
use g_halo.Float.{Float}
use g_halo.Result.{◌>>=◌, Result, err, ok, ◌>>◌, not_ok, ok_inj, >>=-eq-ok, >>-eq-ok}
use g_halo.Dict.{get_or, count_all, lookup, Dict}
use g_halo.Json
use g_halo.Prelude.{
  text_ord, List, Option, ◌∷◌, none, [], map, some, Bool, pos, if◌then◌else◌, list_eq, nat_eq, not,
  true, false, length, list_le, nat_ord, ◌≤◌, ◌≡◌, Option-cases, arith, inl, inr, ◌∙◌, ap, subst,
  length-map, refl,
}
use g_halo.Prelude.{ℕ}

unfoldable pub max_length : List ℕ → ℕ
max_length [] = 0
max_length (n ∷ ns) = max n (max_length ns)

-- EXPECTED_CODES[version]
unfoldable pub expected_code : Text → Result CompareFault Text
unfolding lookup
expected_code version = elim (lookup version expected_codes) [
  | none ↦ err (CompareFault.case_fault (Fault.builtin Builtin.key_error))
  | some code ↦ ok code
]

-- what the results say beside the case's summary
pub record Details (F : Type 0) : Type 0 where
  pub passed : Bool
  pub expected : Text
  pub rccl : Json F
  pub fast : Option F
  pub hip : Json F
  pub root : Json F

module _ {F : Type 0} ⦃f : Float F⦄ where
  -- all(bool(result.get("metadata", {}).get("validation_passed", False)) for …)
  unfoldable pub all_passed : List (Json F) → Result CompareFault Bool
  unfolding truthy lift_fault lift_builtin
  all_passed [] = ok true
  all_passed (result ∷ results) = do
    metadata ← lift (Json.get_or (obj end) (lit "metadata") result)
    passed ← lift (Json.get_or (boolean false) (lit "validation_passed") metadata)
    (if truthy passed then all_passed results else ok false)

  unfoldable pub phase_counts : List (PhaseEvent F) → Dict Text ℕ
  unfolding count_all
  phase_counts breakdown = count_all [] (map (λ (e : PhaseEvent F). e.dominant_phase) breakdown)

  unfoldable pub median_length : List ℕ → Option F
  unfolding median
  median_length [] = none
  median_length (n ∷ ns) = some (median (map (λ m. f.of_int (pos m)) (n ∷ ns)))

  -- the first result; `load_json` has checked that there is one
  unfoldable pub first_json : List (Json F) → Result CompareFault (Json F)
  first_json [] = err (CompareFault.compare CompareError.no_results)
  first_json (r ∷ rs) = ok r

  -- the observed code: the metadata's, else the expected one if the result names an RCCL version
  unfoldable pub observed_code : Metadata → Text → Json F → Text
  unfolding get_or truthy
  observed_code metadata expected rccl =
      let observed = get_or [] (lit "observed_rccl_version_code") metadata in
      if not (is_nil observed) then observed else if truthy rccl then expected else []

  unfoldable pub plugin_of : Metadata → Json F → Json F
  unfolding get_or or_else
  plugin_of metadata root =
      let named =
        or_else (get_or [] (lit "libnccl_net_realpath") metadata)
          (get_or [] (lit "olcf_ofi_nccl_root") metadata) in
      if is_nil named then root else str named

  unfoldable pub details_of :
      List (Json F) → Json F → Text → CaseSummary F → Result CompareFault (Details F)
  unfolding all_passed expected_code sample_fast_median_us lift_fault lift_builtin
  details_of results first version summary = do
    first_metadata ← lift (Json.get_or (obj end) (lit "metadata") first)
    passed ← all_passed results
    expected ← expected_code version
    rccl ← lift (Json.get_or (str []) (lit "rccl_version") first_metadata)
    fast ← lift_fault (sample_fast_median_us results (map affected_sample summary.affected_indices))
    hip ← lift (Json.get_or (str []) (lit "hip_runtime_version") first_metadata)
    root ← lift (Json.get_or (str []) (lit "rccl_plugin_root") first_metadata)
    ok (record {
      passed = passed;
      expected = expected;
      rccl = rccl;
      fast = fast;
      hip = hip;
      root = root;
    })

  unfoldable pub version_summary : CaseFiles F → Text → CaseSummary F → Details F → VersionSummary F
  unfolding observed_code event_lengths phase_counts median_length max_length plugin_of path_name
      parse_key_value_file sort_by
  version_summary files version summary details =
      let metadata = parse_key_value_file files.result_metadata in
      let lengths = event_lengths summary.affected_indices in
      record {
        rocm_version = version;
        expected_rccl_code = details.expected;
        observed_rccl_code = observed_code metadata details.expected details.rccl;
        result_dir = files.path;
        label = path_name files.path;
        total_samples = summary.samples_found;
        total_iterations = summary.total_measured_iterations;
        stalled_iterations = summary.stall_count;
        stall_percentage = summary.stalled_iteration_percent;
        samples_containing_stalls = summary.samples_with_stalls;
        stall_events = length lengths;
        median_stall_us = summary.median_stall_duration_us;
        max_stall_us = summary.max_stall_duration_us;
        median_event_length = median_length lengths;
        max_event_length = max_length lengths;
        dominant_phase_counts = sort_by (entry_le list_le) (phase_counts summary.phases.breakdown);
        rank_event_classifications = summary.ranks.classes;
        fast_path_median_us = details.fast;
        validation_passed = details.passed;
        hip_runtime_version = details.hip;
        rccl_version = details.rccl;
        plugin_path = plugin_of metadata details.root;
        warnings = summary.warnings;
      }

  unfoldable pub summarize_result : CaseFiles F → Option F → Result CompareFault (VersionSummary F)
  unfolding load_results first_json infer_version validate_payload analyze_case details_of
      version_summary lift_fault parse_key_value_file
  summarize_result files override = do
    results ← load_results files.ghalo_json
    first ← first_json results
    version ← infer_version files.path first (parse_key_value_file files.result_metadata)
    validate_payload results (parse_key_value_file files.result_metadata) version
    summary ← lift_fault (analyze_case files override)
    details ← details_of results first version summary
    ok (version_summary files version summary details)

-- the number of events, and the longest of them
max_length-le-sum : (ns : List ℕ) → max_length ns ≤ sum_ℕ ns
unfolding max_length
max_length-le-sum [] = omega arith
max_length-le-sum (n ∷ ns) = omega (arith, max_length-le-sum ns)

expected_code-lookup :
    (version code : Text)
    → expected_code version ≡ ok code
    → lookup version expected_codes ≡ some code
unfolding expected_code
expected_code-lookup version code h = elim (Option-cases (lookup version expected_codes)) [
  | inl e ↦ absurd (not_ok (rw (e, expected_code) at h))
  | inr (c, e) ↦ e ∙ ap some (ok_inj c code (rw (e, expected_code) at h))
]

module _ {A : Type 0} where
  lift_fault-ok : (m : Result Fault A) (a : A) → lift_fault m ≡ ok a → m ≡ ok a
  unfolding lift_fault
  lift_fault-ok (ok b) a h = cc
  lift_fault-ok (err e) a h = cc

module _ {F : Type 0} ⦃f : Float F⦄ where
  -- What the report of a version says of the case that it summarises.
  pub record Reports (s : VersionSummary F) (case : CaseSummary F) : Type 0 where
    code : lookup s.rocm_version expected_codes ≡ some s.expected_rccl_code
    stalls : s.stalled_iterations ≡ case.stall_count
    events : s.stall_events ≤ s.stalled_iterations
    longest : s.max_event_length ≤ s.stalled_iterations
    phases : total s.dominant_phase_counts ≡ length case.phases.breakdown

  details_of-expected :
      (results : List (Json F)) (first : Json F) (version : Text) (summary : CaseSummary F)
      (details : Details F)
      → details_of results first version summary ≡ ok details
      → lookup version expected_codes ≡ some details.expected
  unfolding details_of
  details_of-expected results first version summary details h =
      let (metadata, m, h1) = >>=-eq-ok (lift (Json.get_or (obj end) (lit "metadata") first)) _ h in
      let (passed, p, h2) = >>=-eq-ok (all_passed results) _ h1 in
      let (expected, e, h3) = >>=-eq-ok (expected_code version) _ h2 in
      let (rccl, x, h4) =
        >>=-eq-ok (lift (Json.get_or (str []) (lit "rccl_version") metadata)) _ h3 in
      let (fast, y, h5) =
        >>=-eq-ok
          (lift_fault
            (sample_fast_median_us results (map affected_sample summary.affected_indices)))
          _ h4 in
      let (hip, z, h6) =
        >>=-eq-ok (lift (Json.get_or (str []) (lit "hip_runtime_version") metadata)) _ h5 in
      let (root, w, h7) =
        >>=-eq-ok (lift (Json.get_or (str []) (lit "rccl_plugin_root") metadata)) _ h6 in
      expected_code-lookup version expected e
      ∙ ap (λ (d : Details F). some d.expected) (ok_inj _ details h7)

  version_summary-Reports :
      (files : CaseFiles F) (version : Text) (case : CaseSummary F) (details : Details F)
      → lookup version expected_codes ≡ some details.expected
      → case.stall_count ≡ length case.affected_indices
      → Reports (version_summary files version case details) case
  unfolding version_summary phase_counts
  version_summary-Reports files version case details expected stalls =
      let count = event_lengths_count case.affected_indices in
      let longest = max_length-le-sum (event_lengths case.affected_indices) in
      let sum = event_lengths_sum case.affected_indices in
      let names = map (λ (e : PhaseEvent F). e.dominant_phase) case.phases.breakdown in
      record {
        code = expected;
        stalls = refl;
        events = omega (arith, stalls, count);
        longest = omega (arith, stalls, longest, sum);
        phases =
            total-sort_by (entry_le list_le) (count_all [] names)
            ∙ total-count_all [] names
            ∙ zero-add (length names)
            ∙ length-map case.phases.breakdown (λ (e : PhaseEvent F). e.dominant_phase);
      }

  -- A result that is summarised reports the expected code of its version, the stalls of its case, no
  -- more events than stalls and none longer than their number, and counts the dominant phase of every
  -- iteration of the case's phase breakdown.
  pub summarize_result-Reports :
      (files : CaseFiles F) (override : Option F) (s : VersionSummary F)
      → summarize_result files override ≡ ok s
      → (case : CaseSummary F) × (analyze_case files override ≡ ok case) × Reports s case
  unfolding summarize_result
  summarize_result-Reports files override s h =
      let metadata = parse_key_value_file files.result_metadata in
      let (results, r, h1) = >>=-eq-ok (load_results files.ghalo_json) _ h in
      let (first, p, h2) = >>=-eq-ok (first_json results) _ h1 in
      let (version, v, h3) = >>=-eq-ok (infer_version files.path first metadata) _ h2 in
      let h4 = >>-eq-ok (validate_payload results metadata version) _ h3 in
      let (case, c, h5) = >>=-eq-ok (lift_fault (analyze_case files override)) _ h4 in
      let (details, d, h6) = >>=-eq-ok (details_of results first version case) _ h5 in
      let case_ok = lift_fault-ok (analyze_case files override) case c in
      (
        case,
        case_ok,
        subst (λ t. Reports t case) (ok_inj (version_summary files version case details) s h6)
            (version_summary-Reports files version case details
              (details_of-expected results first version case details d)
              (analyze_case_stall_count files override case case_ok)),
      )
