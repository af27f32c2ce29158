-- ===== src/Stalls/Phases/Majority.antt =====
-- The counts of a phase analysis agree with its breakdown, and the classification is the category of
-- a strict majority.
use g_halo.Sort.Laws.{Occurs-sort_by, length-sort_by}
use g_halo.Result.{ok, >>=-eq-ok, ok_inj}
use g_halo.Stalls.{PhaseRecord, SampleKey, SampleInfo, IterationKey}
use g_halo.Sort.{sort_by}
use g_halo.Stalls.Phases.Totals.{
  IsGrouped, event_category, group_phases-IsGrouped, breakdown_tally, length-events_of,
  categories_tally,
}
use g_halo.Dict.Laws.{total, UniqueKeys}
use g_halo.Dict.Counts.{
  count_of, occurrences, total-count_all, count_of-count_all, count_of-nil, most_common-none,
  count_all-UniqueKeys, most_common_counts, count_of-le-total, two_counts-le-total,
}
use g_halo.Dict.{Dict, count_all, most_common}
use g_halo.Stalls.Phases.{
  analyze_groups, PhaseCategory, PhaseGroups, classification_of, mixed, category_eq, group_le,
  analyze_phase_records, PhaseAnalysis, group_phases, no_phases,
}
use g_halo.Float.{Float}
use g_halo.Prelude.{
  ℕ, List, All, ◌≡◌, length, [], ◌≢◌, ◌<◌, map, ◌*◌, ◌∙◌, Option-cases, ◌∷◌, arith, inl, refl, inr,
  All-of_Occurs, All-Occurs, some, none, sym, if◌then◌else◌, ltb, Bool-cases, subst, ◌==◌, ltb→lt,
  true, Option, lt→ltb, eq_of_==, ◌↔◌, length-map, ap,
}

module _ {F : Type 0} ⦃f : Float F⦄ where
  analyzed_tally :
      (groups : PhaseGroups F)
      → All IsGrouped groups
      → (length (analyze_groups groups).breakdown ≡ (analyze_groups groups).iterations)
        × ((analyze_groups groups).iterations ≡ length groups)
        × ((analyze_groups groups).classification
            ≡ classification_of
                (count_all [] (map event_category (analyze_groups groups).breakdown))
                (analyze_groups groups).iterations)
  unfolding analyze_groups
  analyzed_tally [] h = (refl, refl, unfold classification_of count_all in refl)
  analyzed_tally (g ∷ groups) h =
      let sorted = sort_by group_le (g ∷ groups) in
      let grouped_sorted =
        All-of_Occurs sorted (λ a o.
          All-Occurs IsGrouped a (g ∷ groups) h (Occurs-sort_by group_le a (g ∷ groups) o)) in
      (
        ap length (breakdown_tally no_phases sorted)
            ∙ length-events_of sorted grouped_sorted
            ∙ length-sort_by group_le (g ∷ groups),
        refl,
        rw (categories_tally no_phases sorted, breakdown_tally no_phases sorted) refl,
      )

module _ (cs : List PhaseCategory) where
  abbrev counted : Dict PhaseCategory ℕ
  counted = count_all [] cs

  count_counted : (c : PhaseCategory) → count_of c counted ≡ occurrences c cs
  count_counted c = omega (arith, count_of-count_all c [] cs, count_of-nil c)

  total-counted : total counted ≡ length cs
  total-counted = omega (arith, total-count_all [] cs)

  counted_unique : UniqueKeys counted
  counted_unique = count_all-UniqueKeys [] cs tt

  classification_found :
      (c : PhaseCategory) (n : ℕ)
      → most_common counted ≡ some (c, n)
      → classification_of counted (length cs) ≡ (if ltb (length cs) (2 * n) then c else mixed)
  unfolding classification_of
  classification_found c n e = rw (e, classification_of)

  classification_none : most_common counted ≡ none → classification_of counted (length cs) ≡ mixed
  unfolding classification_of
  classification_none e = rw (e, classification_of)

  -- a category that is found is counted in more than half of the cases
  majority_of_classification :
      (c : PhaseCategory)
      → classification_of counted (length cs) ≡ c
      → c ≢ mixed
      → length cs < 2 * occurrences c cs
  majority_of_classification c h ne = elim (Option-cases (most_common counted)) [
    | inl e ↦ absurd (ne (sym h ∙ classification_none e))
    | inr ((d, n), e) ↦
        let counts = (most_common_counts counted d n counted_unique e).0 in
        let found = sym (classification_found d n e) ∙ h in
        let agree = count_counted d in
        elim (Bool-cases (ltb (length cs) (2 * n))) [
          | inl big ↦
              let same : d ≡ c = rw big at found in
              subst (λ (x : PhaseCategory). length cs < 2 * occurrences x cs) same
                (omega (arith, ltb→lt _ _ big))
          | inr small ↦
              let none_found : mixed ≡ c = rw small at found in absurd (ne (sym none_found))
        ]
  ]

  -- and a category with more than half of the cases is found
  classification_of_majority :
      (c : PhaseCategory)
      → length cs < 2 * occurrences c cs
      → classification_of counted (length cs) ≡ c
  classification_of_majority c h = elim (Option-cases (most_common counted)) [
    | inl e ↦ absurd (
        omega (
          arith,
          most_common-none counted e,
          total-counted,
          count_counted c,
          count_of-le-total c counted,
        ))
    | inr ((d, n), e) ↦
        let (counts, above) = most_common_counts counted d n counted_unique e in
        elim (Bool-cases (d == c)) [
          | inl same ↦
              let big : ltb (length cs) (2 * n) ≡ true =
                lt→ltb _ _ (omega (arith, above c, count_counted c)) in
              classification_found d n e ∙ rw big (eq_of_== d c same)
          | inr other ↦ absurd (
              omega (
                arith,
                above c,
                counts,
                count_counted c,
                total-counted,
                two_counts-le-total d c counted other,
              ))
        ]
  ]

module _ {F : Type 0} ⦃f : Float F⦄ where
  -- The result of `analyze_phase_records` on any records: it has one breakdown row for each iteration
  -- that it counts; a category other than "mixed/unattributed" is the classification exactly if the
  -- dominant phases of more than half of these iterations are of it.
  pub analyze_phase_records_majority :
      (records : List (PhaseRecord F)) (samples : Dict SampleKey SampleInfo)
      (affected : Option (List IterationKey)) (result : PhaseAnalysis F) (c : PhaseCategory)
      → c ≢ mixed
      → analyze_phase_records records samples affected ≡ ok result
      → (length result.breakdown ≡ result.iterations)
        × ((result.classification ≡ c)
            ↔ (result.iterations < 2 * occurrences c (map event_category result.breakdown)))
  unfolding analyze_phase_records
  analyze_phase_records_majority records samples affected result c ne e =
      let (groups, grouped, e') = >>=-eq-ok (group_phases samples affected [] records) _ e in
      let is_grouped = group_phases-IsGrouped samples affected [] records tt grouped in
      subst
        (λ (r : PhaseAnalysis F).
          (length r.breakdown ≡ r.iterations)
          × ((r.classification ≡ c)
              ↔ (r.iterations < 2 * occurrences c (map event_category r.breakdown))))
        (ok_inj _ result e') (groups_majority groups is_grouped)
    where
      groups_majority :
          (groups : PhaseGroups F)
          → All IsGrouped groups
          → (length (analyze_groups groups).breakdown ≡ (analyze_groups groups).iterations)
            × (((analyze_groups groups).classification ≡ c) ↔ (
                (analyze_groups groups).iterations
                < 2 * occurrences c (map event_category (analyze_groups groups).breakdown)))
      groups_majority groups h =
          let (rows, all, class) = analyzed_tally groups h in
          let cs = map event_category (analyze_groups groups).breakdown in
          let size : length cs ≡ (analyze_groups groups).iterations =
            length-map (analyze_groups groups).breakdown event_category ∙ rows in
          (
            rows,
            (
              λ k. rw size at (majority_of_classification cs c (rw size (sym class ∙ k)) ne),
              λ k. class ∙ rw size at (classification_of_majority cs c (rw size k)),
            ),
          )
