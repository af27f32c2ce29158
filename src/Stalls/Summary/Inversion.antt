-- ===== src/Stalls/Summary/Inversion.antt =====
-- What a successful `analyze_case` has read and computed.
use g_halo.Stalls.Ranks.Tally.{analyze_rank_records}
use g_halo.Stalls.Readers.{load_iteration_records, load_phase_records, load_rank_records}
use g_halo.Stalls.Load.{load_samples}
use g_halo.Stalls.Phases.{analyze_phase_records}
use g_halo.KeyValue.{parse_key_value_file}
use g_halo.Result.{ok, >>=-eq-ok, raise_if-eq-ok, ok_inj}
use g_halo.Json.{Json}
use g_halo.Stalls.Case.{StallTally, tally_stalls, no_stalls, Affected}
use g_halo.Stalls.{SampleInfo, IterationRecord, PhaseRecord, Warning, RankRecord}
use g_halo.Stalls.Summary.{
  scan_records, CaseFiles, find_stalls, analyze_case, CaseSummary, Findings, Identity, threshold_of,
  index_of, summarize, identify,
}
use g_halo.Float.{Float}
use g_halo.Prelude.{List, Option, ◌≡◌, some, map, ◌++◌, sym, subst, ap, ◌∙◌}

module _ {F : Type 0} ⦃f : Float F⦄ where
  pub scan_records-stalls :
      (samples : List SampleInfo) (t : StallTally F) (phase_records : List (PhaseRecord F))
      (rank_records : List (RankRecord F)) {found : Findings F}
      → scan_records samples t phase_records rank_records ≡ ok found
      → (found.stalls ≡ t)
        × (analyze_phase_records phase_records
              (index_of samples)
              (some (map (λ (a : Affected F). a.key) t.affected))
            ≡ ok found.phases)
  unfolding scan_records
  scan_records-stalls samples t phase_records rank_records {found} h =
      let (phases, e, h1) =
        >>=-eq-ok
          (analyze_phase_records phase_records (index_of samples)
            (some (map (λ (a : Affected F). a.key) t.affected)))
          _ h in
      let (ranks, e1, h2) =
        >>=-eq-ok (analyze_rank_records rank_records (index_of samples) phases.breakdown) _ h1 in
      let same = ok_inj _ found h2 in
      (sym (ap (λ (x : Findings F). x.stalls) same), e ∙ ap (λ (x : Findings F). ok x.phases) same)

  -- the steps behind a summary s, with the threshold that was chosen
  pub record Analyzed (files : CaseFiles F) (override : Option F) (s : CaseSummary F) : Type 0 where
    pub samples : List SampleInfo
    pub payload : Json F
    pub iterations : List (IterationRecord F) × List Warning
    pub phase_file : List (PhaseRecord F) × List Warning
    pub found : Findings F
    pub identity : Identity F
    pub warned : List Warning
    pub loaded : load_samples files.ghalo_json ≡ ok (samples, payload)
    pub read : load_iteration_records files.iteration_times ≡ ok iterations
    pub read_phases : load_phase_records files.iteration_phase_times ≡ ok phase_file
    pub stalls :
        found.stalls
        ≡ tally_stalls
            (index_of samples)
            (threshold_of override (parse_key_value_file files.result_metadata))
            no_stalls
            iterations.0
    pub phases :
        analyze_phase_records phase_file.0
          (index_of samples)
          (some (map (λ (a : Affected F). a.key) found.stalls.affected))
        ≡ ok found.phases
    pub summary :
        summarize files samples identity
          (threshold_of override (parse_key_value_file files.result_metadata))
          iterations.0
          found
          warned
        ≡ s

  find_stalls-scan :
      (samples : List SampleInfo) (threshold : F) (records : List (IterationRecord F))
      (phase_records : List (PhaseRecord F)) (rank_records : List (RankRecord F))
      {found : Findings F}
      → find_stalls samples threshold records phase_records rank_records ≡ ok found
      → scan_records samples
          (tally_stalls (index_of samples) threshold no_stalls records)
          phase_records
          rank_records
        ≡ ok found
  unfolding find_stalls
  find_stalls-scan samples threshold records phase_records rank_records h =
      (raise_if-eq-ok _ _ _ h).1

  pub analyze_case-Analyzed :
      (files : CaseFiles F) (override : Option F) (s : CaseSummary F)
      → analyze_case files override ≡ ok s
      → Analyzed files override s
  unfolding analyze_case
  analyze_case-Analyzed files override s h =
      let result_metadata = parse_key_value_file files.result_metadata in
      let threshold = threshold_of override result_metadata in
      let (loaded, e1, h1) = >>=-eq-ok (load_samples files.ghalo_json) _ h in
      let (iterations, e2, h2) = >>=-eq-ok (load_iteration_records files.iteration_times) _ h1 in
      let (phase_file, e3, h3) = >>=-eq-ok (load_phase_records files.iteration_phase_times) _ h2 in
      let (rank_file, e4, h4) = >>=-eq-ok (load_rank_records files.stalled_rank_times) _ h3 in
      let (found, e5, h5) =
        >>=-eq-ok (find_stalls loaded.0 threshold iterations.0 phase_file.0 rank_file.0) _ h4 in
      let (identity, e6, h6) = >>=-eq-ok (identify loaded.1 _) _ h5 in
      let (same, phases) =
        scan_records-stalls loaded.0 _ phase_file.0 rank_file.0
          (find_stalls-scan loaded.0 threshold iterations.0 phase_file.0 rank_file.0 e5) in
      record {
        samples = loaded.0;
        payload = loaded.1;
        iterations = iterations;
        phase_file = phase_file;
        found = found;
        identity = identity;
        warned = iterations.1 ++ phase_file.1 ++ rank_file.1;
        loaded = e1;
        read = e2;
        read_phases = e3;
        stalls = same;
        phases =
            subst
              (λ (t : StallTally F).
                analyze_phase_records phase_file.0 (index_of loaded.0)
                  (some (map (λ (a : Affected F). a.key) t.affected))
                ≡ ok found.phases)
              (sym same) phases;
        summary = ok_inj _ s h6;
      }
