-- ===== src/Stalls/Summary/Counts.antt =====
-- The numbers of samples that a case reports.
use g_halo.KeyValue.{parse_key_value_file}
use g_halo.Stalls.Summary.Inversion.{analyze_case-Analyzed}
use g_halo.Result.{ok}
use g_halo.Stalls.Summary.{summarize, CaseFiles, CaseSummary, analyze_case, threshold_of, index_of}
use g_halo.Float.{Float}
use g_halo.Dict.Counts.{occurrences}
use g_halo.Dict.Laws.{grouped, lookup-adjust, grouped-append_to}
use g_halo.Stalls.Samples.{classify_sample, SampleClass, clean, isolated, multiple, nearly_all}
use g_halo.Stalls.{SampleKey, SampleInfo, key_eq, IterationRecord}
use g_halo.Stalls.Case.{
  sample_sequence, sample_class, add_class, count_samples, max_stalls, SampleCounts, tally_stalls,
  StallTally, is_stall, tally_stall, record_sample, affected_row, no_stalls, marker,
}
use g_halo.Dict.{get_or, Dict, append_to, lookup, snoc, has_key}
use g_halo.Prelude.{
  List, Option, ◌≤◌, ◌≢◌, ◌+◌, some, ◌≡◌, arith, [], ◌∷◌, if◌then◌else◌, ◌==◌, sym, ◌∙◌, Bool-cases,
  inl, inr, none, nat_eq, refl, length, length-append, subst, suc, ap, length-map,
}

-- A group that is there is not empty.
abbrev NonEmptyGroups : {V : Type 0} → Dict SampleKey (List V) → Type 0
NonEmptyGroups {V} d = (k : SampleKey) → lookup k d ≢ some []

stalled-add_class : (k : SampleClass) (c : SampleCounts) → (add_class k c).stalled ≡ c.stalled
unfolding add_class
stalled-add_class clean c = refl
stalled-add_class isolated c = refl
stalled-add_class multiple c = refl
stalled-add_class nearly_all c = refl

no_groups-NonEmptyGroups : {V : Type 0} (k : SampleKey) → lookup {V = List V} k [] ≢ some []
unfolding lookup
no_groups-NonEmptyGroups k e = cc

module _ {V : Type 0} where
  append_to-NonEmptyGroups :
      (j : SampleKey) (v : V) (d : Dict SampleKey (List V))
      → NonEmptyGroups d
      → NonEmptyGroups (append_to j v d)
  unfolding append_to
  append_to-NonEmptyGroups j v d h k e =
      let e' : (if j == k then some (snoc v (lookup j d)) else lookup k d) ≡ some [] =
        sym (lookup-adjust j k (snoc v) d) ∙ e in
      elim (Bool-cases (j == k)) [
        | inl p ↦ not_empty (lookup j d) (rw p at e')
        | inr p ↦ h k (rw p at e')
      ]
    where
      not_empty : (o : Option (List V)) → ◌≢◌ {A = Option (List V)} (some (snoc v o)) (some [])
      not_empty none q = cc
      not_empty (some []) q = cc
      not_empty (some (x ∷ l)) q = cc

  -- one sample: it is in a bad class exactly if it has a group
  class_counts :
      (d : Dict SampleKey (List V)) (sample : SampleInfo) (c : SampleCounts)
      → NonEmptyGroups d
      → (add_class (sample_class d sample) c).isolated_bad
          + (add_class (sample_class d sample) c).multiple_bad
          + (add_class (sample_class d sample) c).nearly_all_slow
        ≡ (if has_key sample.key d then 1 else 0)
          + c.isolated_bad
          + c.multiple_bad
          + c.nearly_all_slow
  unfolding add_class classify_sample get_or has_key
  class_counts d sample c h = let k = h sample.key in ground (arith, k)

  counts_agree :
      (d : Dict SampleKey (List V)) (samples : List SampleInfo)
      → NonEmptyGroups d
      → (count_samples d samples).isolated_bad
          + (count_samples d samples).multiple_bad
          + (count_samples d samples).nearly_all_slow
        ≡ (count_samples d samples).stalled
  unfolding count_samples
  counts_agree d [] h = omega arith
  counts_agree d (sample ∷ samples) h = omega (
    arith,
    class_counts d sample (count_samples d samples) h,
    counts_agree d samples h,
    stalled-add_class (sample_class d sample) (count_samples d samples),
  )

  length-sample_sequence :
      (d : Dict SampleKey (List V)) (samples : List SampleInfo)
      → length (sample_sequence d samples) ≡ length samples
  unfolding sample_sequence
  length-sample_sequence d samples = length-map samples (marker d)

  stalled_markers :
      (d : Dict SampleKey (List V)) (samples : List SampleInfo)
      → occurrences b'S' (sample_sequence d samples) ≡ (count_samples d samples).stalled
  unfolding count_samples sample_sequence
  stalled_markers d [] = refl
  stalled_markers d (sample ∷ samples) =
      let ih = stalled_markers d samples in
      let rest = stalled-add_class (sample_class d sample) (count_samples d samples) in
      elim (Bool-cases (has_key sample.key d)) [
        | inl h ↦ rw h (omega (arith, ih, rest))
        | inr h ↦ rw h (omega (arith, ih, rest))
      ]

  max_stalls-le-grouped : (d : Dict SampleKey (List V)) → max_stalls d ≤ grouped d
  unfolding max_stalls
  max_stalls-le-grouped [] = omega arith
  max_stalls-le-grouped ((k, l) ∷ d) = omega (arith, max_stalls-le-grouped d)

module _ {F : Type 0} ⦃f : Float F⦄ where
  by_sample_tally :
      (samples : Dict SampleKey SampleInfo) (threshold : F) (t : StallTally F)
      (records : List (IterationRecord F))
      → NonEmptyGroups t.by_sample
      → (NonEmptyGroups (tally_stalls samples threshold t records).by_sample)
        × (grouped (tally_stalls samples threshold t records).by_sample + length t.affected
            ≡ grouped t.by_sample + length (tally_stalls samples threshold t records).affected)
  unfolding tally_stalls
  by_sample_tally samples threshold t [] h = (h, refl)
  by_sample_tally samples threshold t (r ∷ records) h = elim (Bool-cases (is_stall threshold r)) [
    | inl p ↦
        let e : (tally_stall samples threshold t r).by_sample
            ≡ append_to (record_sample r) r t.by_sample =
          rw (p, tally_stall) refl in
        let size : length (tally_stall samples threshold t r).affected ≡ length t.affected + 1 =
          rw (p, tally_stall) (length-append t.affected (affected_row r ∷ [])) in
        let held =
          subst NonEmptyGroups (sym e)
            (append_to-NonEmptyGroups (record_sample r) r t.by_sample h) in
        let ih =
          by_sample_tally samples threshold (tally_stall samples threshold t r) records held in
        let more : grouped (tally_stall samples threshold t r).by_sample
            ≡ suc (grouped t.by_sample) =
          ap grouped e ∙ grouped-append_to (record_sample r) r t.by_sample in
        (ih.0, omega (arith, ih.1, more, size))
    | inr p ↦
        let e : (tally_stall samples threshold t r).by_sample ≡ t.by_sample =
          rw (p, tally_stall) refl in
        let size : length (tally_stall samples threshold t r).affected ≡ length t.affected =
          rw (p, tally_stall) refl in
        let ih =
          by_sample_tally samples threshold (tally_stall samples threshold t r) records
            (subst NonEmptyGroups (sym e) h) in
        let more : grouped (tally_stall samples threshold t r).by_sample ≡ grouped t.by_sample =
          ap grouped e in
        (ih.0, omega (arith, ih.1, more, size))
  ]

  -- Of a case that is summarised: the sample sequence has one marker for each sample that was found,
  -- and as many "S" as samples with stalls; each sample with stalls is counted in exactly one of the
  -- three bad classes; no sample has more stalls than there are.
  pub analyze_case_counts :
      (files : CaseFiles F) (override : Option F) (s : CaseSummary F)
      → analyze_case files override ≡ ok s
      → (length s.sample_sequence ≡ s.samples_found)
        × (occurrences b'S' s.sample_sequence ≡ s.samples_with_stalls)
        × (s.isolated_bad_samples + s.multiple_bad_samples + s.nearly_all_slow_samples
            ≡ s.samples_with_stalls)
        × (s.max_stalls_in_one_sample ≤ s.stall_count)
  unfolding summarize
  analyze_case_counts files override s h =
      let a = analyze_case-Analyzed files override s h in
      let threshold = threshold_of override (parse_key_value_file files.result_metadata) in
      let d = a.found.stalls.by_sample in
      let (held, size) =
        by_sample_tally (index_of a.samples) threshold no_stalls a.iterations.0
          no_groups-NonEmptyGroups in
      let held' = subst (λ (t : StallTally F). NonEmptyGroups t.by_sample) (sym a.stalls) held in
      let size' : grouped d ≡ length a.found.stalls.affected = omega (
        arith,
        size,
        ap (λ (t : StallTally F). grouped t.by_sample) a.stalls,
        ap (λ (t : StallTally F). length t.affected) a.stalls,
      ) in
      subst
        (λ (x : CaseSummary F).
          (length x.sample_sequence ≡ x.samples_found)
          × (occurrences b'S' x.sample_sequence ≡ x.samples_with_stalls)
          × (x.isolated_bad_samples + x.multiple_bad_samples + x.nearly_all_slow_samples
              ≡ x.samples_with_stalls)
          × (x.max_stalls_in_one_sample ≤ x.stall_count))
        a.summary
        (
          length-sample_sequence d a.samples,
          stalled_markers d a.samples,
          counts_agree d a.samples held',
          omega (arith, max_stalls-le-grouped d, size'),
        )
