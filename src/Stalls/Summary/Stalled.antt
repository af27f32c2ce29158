-- ===== src/Stalls/Summary/Stalled.antt =====
-- Which records a case counts as stalls.
use g_halo.Stalls.Ranks.Tally.{entry_le}
use native.Mathlib.Nat.{zero-add}
use g_halo.KeyValue.{parse_key_value_file}
use mathlib.Core.List.{append-nil, append_assoc}
use g_halo.Stalls.Summary.Inversion.{analyze_case-Analyzed}
use g_halo.Result.{ok, ok_inj}
use g_halo.Stalls.Readers.{load_iteration_records}
use g_halo.Dict.Laws.{total, total-bump, total-sort_by}
use g_halo.Stalls.{SampleKey, SampleInfo, IterationRecord, Warning}
use g_halo.Dict.{Dict}
use g_halo.Stalls.Ranks.Event.{keep_if}
use g_halo.Stalls.Summary.{summarize, CaseFiles, CaseSummary, analyze_case, threshold_of, index_of}
use g_halo.Stalls.Case.{tally_stalls, StallTally, affected_row, is_stall, tally_stall, no_stalls}
use g_halo.Float.{Float}
use g_halo.Prelude.{
  Option, List, ◌≡◌, ◌++◌, ◌+◌, map, length, sym, arith, ◌∷◌, Bool-cases, ap, inl, ◌∙◌, suc, inr,
  [], refl, int_eq, subst, length-map, leb_ℤ,
}

module _ {F : Type 0} ⦃f : Float F⦄ where
  affected_tally :
      (samples : Dict SampleKey SampleInfo) (threshold : F) (t : StallTally F)
      (records : List (IterationRecord F))
      → (tally_stalls samples threshold t records).affected
        ≡ t.affected ++ map affected_row (keep_if (is_stall threshold) records)
  unfolding tally_stalls keep_if
  affected_tally samples threshold t [] = sym (append-nil t.affected)
  affected_tally samples threshold t (r ∷ records) = elim (Bool-cases (is_stall threshold r)) [
    | inl h ↦ rw h (
        affected_tally samples threshold (tally_stall samples threshold t r) records
        ∙ rw (h, tally_stall)
            (append_assoc t.affected _ (map affected_row (keep_if (is_stall threshold) records))))
    | inr h ↦ rw h (
        affected_tally samples threshold (tally_stall samples threshold t r) records
        ∙ rw (h, tally_stall) refl)
  ]

  ranks_tally :
      (samples : Dict SampleKey SampleInfo) (threshold : F) (t : StallTally F)
      (records : List (IterationRecord F))
      → total (tally_stalls samples threshold t records).ranks
        ≡ total t.ranks + length (keep_if (is_stall threshold) records)
  unfolding tally_stalls keep_if
  ranks_tally samples threshold t [] = omega arith
  ranks_tally samples threshold t (r ∷ records) =
      let ih = ranks_tally samples threshold (tally_stall samples threshold t r) records in
      elim (Bool-cases (is_stall threshold r)) [
        | inl h ↦
            let step : total (tally_stall samples threshold t r).ranks ≡ suc (total t.ranks) =
              rw (h, tally_stall) (total-bump r.max_rank t.ranks) in
            rw h (omega (arith, ih, step))
        | inr h ↦
            let step : total (tally_stall samples threshold t r).ranks ≡ total t.ranks =
              rw (h, tally_stall) refl in
            rw h (omega (arith, ih, step))
      ]

  -- Of a case that is summarised: the affected indices are those of the records whose duration is at
  -- least the threshold, in the order of the file; their number is the stall count, and the rank
  -- frequencies add up to it; and every record of the file is counted as emitted.
  pub analyze_case_stalls :
      (files : CaseFiles F) (override : Option F) (s : CaseSummary F)
      (records : List (IterationRecord F)) (warned : List Warning)
      → load_iteration_records files.iteration_times ≡ ok (records, warned)
      → analyze_case files override ≡ ok s
      → (s.affected_indices ≡ map affected_row (keep_if (is_stall s.threshold_us) records))
        × (s.stall_count ≡ length s.affected_indices)
        × (total s.rank_frequency ≡ s.stall_count)
        × (s.emitted_iteration_records ≡ length records)
  unfolding summarize
  analyze_case_stalls files override s records warned e h =
      let a = analyze_case-Analyzed files override s h in
      let threshold = threshold_of override (parse_key_value_file files.result_metadata) in
      let same : a.iterations.0 ≡ records =
        ap (λ (p : List (IterationRecord F) × List Warning). p.0) (ok_inj _ _ (sym a.read ∙ e)) in
      let affected : a.found.stalls.affected
          ≡ map affected_row (keep_if (is_stall threshold) a.iterations.0) =
        ap (λ (t : StallTally F). t.affected) a.stalls
        ∙ affected_tally (index_of a.samples) threshold no_stalls a.iterations.0 in
      let ranks : total a.found.stalls.ranks
          ≡ length (keep_if (is_stall threshold) a.iterations.0) =
        ap (λ (t : StallTally F). total t.ranks) a.stalls
        ∙ ranks_tally (index_of a.samples) threshold no_stalls a.iterations.0
        ∙ zero-add _ in
      subst
        (λ (x : CaseSummary F).
          (x.affected_indices ≡ map affected_row (keep_if (is_stall x.threshold_us) records))
          × (x.stall_count ≡ length x.affected_indices)
          × (total x.rank_frequency ≡ x.stall_count)
          × (x.emitted_iteration_records ≡ length records))
        a.summary
        (
          affected ∙ ap (λ l. map affected_row (keep_if (is_stall threshold) l)) same,
          refl,
          total-sort_by (entry_le leb_ℤ) a.found.stalls.ranks
              ∙ ranks
              ∙ sym (length-map (keep_if (is_stall threshold) a.iterations.0) affected_row)
              ∙ ap length (sym affected),
          ap length same,
        )

  pub analyze_case_stall_count :
      (files : CaseFiles F) (override : Option F) (s : CaseSummary F)
      → analyze_case files override ≡ ok s
      → s.stall_count ≡ length s.affected_indices
  unfolding summarize
  analyze_case_stall_count files override s h =
      let a = analyze_case-Analyzed files override s h in
      subst (λ (x : CaseSummary F). x.stall_count ≡ length x.affected_indices) a.summary refl
