-- ===== src/Stalls/Ranks/Totals.antt =====
-- The totals of `analyze_rank_records`: every stalled iteration is classified once.
use g_halo.Stalls.Load.{member}
use g_halo.Sort.Laws.{length-sort_by}
use g_halo.Result.{ok, >>=-eq-ok, ok_inj, raise_if-eq-ok}
use g_halo.Sort.{sort_by}
use g_halo.Stalls.Phases.{PhaseEvent}
use g_halo.Stalls.{
  RankRecord, IterationKey, SampleKey, SampleInfo, Warning, iteration_eq, iteration_le, Fault,
  StallError, key_eq,
}
use g_halo.Dict.{Dict, lookup, append_to, has_key}
use g_halo.Stalls.Ranks.Event.{
  one_if, rank_event, ranks_match, ranks_differ, phase_rank, index_phases,
}
use g_halo.Stalls.Ranks.Tally.{
  tally_ranks, tally_all_ranks, analyze_rank_records, entry_le, class_le,
}
use g_halo.Dict.Laws.{total, grouped, total-bump, grouped-sort_by, grouped-append_to, total-sort_by}
use g_halo.Float.{Float}
use g_halo.Stalls.Ranks.{
  RankTally, RankEvent, group_ranks, RankGroups, world_le, rank_key, no_ranks, sample_warning,
  rank_sample,
}
use g_halo.Stalls.{iteration_eq}
use g_halo.Prelude.{pair_eq, int_eq}
use g_halo.Prelude.{
  ℕ, List, ◌+◌, Option, ◌≡◌, ℤ, length, ◌++◌, arith, ◌∷◌, ◌≤◌, [], some, ◌∙◌, none, length-append,
  ap, suc, subst, refl,
}

module _ {F : Type 0} where
  -- what the second loop keeps: the number of events, of classified events, of comparisons
  record Balance (t : RankTally F) : Type 0 where
    classified : total t.classes ≡ length t.breakdown
    compared : t.dominant_matches + t.dominant_mismatches ≤ length t.breakdown

abbrev pub world_sizes : {F : Type 0} → List (RankEvent F) → ℕ
world_sizes [] = 0
world_sizes (event ∷ events) = event.world_size + world_sizes events

world_sizes_append :
    {F : Type 0} (xs ys : List (RankEvent F))
    → world_sizes (xs ++ ys) ≡ world_sizes xs + world_sizes ys
world_sizes_append [] ys = omega arith
world_sizes_append (x ∷ xs) ys = omega (arith, world_sizes_append xs ys)

plus_zero : (n : ℕ) → n + 0 ≡ n
plus_zero n = omega arith

one_of_two :
    (rank : Option ℤ) (n : ℤ) → one_if (ranks_match rank n) + one_if (ranks_differ rank n) ≤ 1
one_of_two none n = omega arith
one_of_two (some k) n = ground arith

module _ {F : Type 0} ⦃f : Float F⦄ where
  tally_ranks-Balance :
      (phases : Dict IterationKey (PhaseEvent F)) (t : RankTally F) (key : IterationKey)
      (rows : List (RankRecord F))
      → Balance t
      → Balance (tally_ranks phases t key rows)
  unfolding tally_ranks
  tally_ranks-Balance phases t key [] b = b
  tally_ranks-Balance phases t key (r ∷ rows) b =
      let event = rank_event (lookup key phases) key r rows in
      let rank = phase_rank (lookup key phases) in
      let size = length-append t.breakdown (event ∷ []) in
      record {
        classified = omega (arith, total-bump event.classification t.classes, size, b.classified);
        compared = omega (arith, one_of_two rank r.global_max_iteration_rank, size, b.compared);
      }

  tally_all_ranks-Balance :
      (phases : Dict IterationKey (PhaseEvent F)) (t : RankTally F) (groups : RankGroups F)
      → Balance t
      → Balance (tally_all_ranks phases t groups)
  unfolding tally_all_ranks
  tally_all_ranks-Balance phases t [] b = b
  tally_all_ranks-Balance phases t ((key, rows) ∷ groups) b =
      tally_all_ranks-Balance phases (tally_ranks phases t key (sort_by world_le rows)) groups
        (tally_ranks-Balance phases t key (sort_by world_le rows) b)

  tally_ranks_sizes :
      (phases : Dict IterationKey (PhaseEvent F)) (t : RankTally F) (key : IterationKey)
      (rows : List (RankRecord F))
      → world_sizes (tally_ranks phases t key rows).breakdown
        ≡ world_sizes t.breakdown + length rows
  unfolding tally_ranks rank_event
  tally_ranks_sizes phases t key [] = omega arith
  tally_ranks_sizes phases t key (r ∷ rows) =
      world_sizes_append t.breakdown (rank_event (lookup key phases) key r rows ∷ [])
      ∙ ap (λ n. world_sizes t.breakdown + n) (plus_zero (suc (length rows)))

  tally_all_ranks_sizes :
      (phases : Dict IterationKey (PhaseEvent F)) (t : RankTally F) (groups : RankGroups F)
      → world_sizes (tally_all_ranks phases t groups).breakdown
        ≡ world_sizes t.breakdown + grouped groups
  unfolding tally_all_ranks
  tally_all_ranks_sizes phases t [] = omega arith
  tally_all_ranks_sizes phases t ((key, rows) ∷ groups) =
      let next = tally_ranks phases t key (sort_by world_le rows) in
      omega (
        arith,
        tally_all_ranks_sizes phases next groups,
        tally_ranks_sizes phases t key (sort_by world_le rows),
        length-sort_by world_le rows,
      )

  group_ranks_size :
      (samples : Dict SampleKey SampleInfo) (seen : List (IterationKey × ℤ)) (groups : RankGroups F)
      (warnings : List Warning) (records : List (RankRecord F))
      {found : RankGroups F × List Warning}
      → group_ranks samples seen groups warnings records ≡ ok found
      → grouped found.0 ≡ grouped groups + length records
  unfolding group_ranks
  group_ranks_size samples seen groups warnings [] h =
      let e = ap (λ (p : RankGroups F × List Warning). grouped p.0) (ok_inj _ _ h) in
      omega (arith, e)
  group_ranks_size samples seen groups warnings (r ∷ records) h =
      let (new, h') =
        raise_if-eq-ok (member (rank_key r, r.world_rank) seen)
          (Fault.stall (StallError.duplicate_rank (rank_key r) r.world_rank)) _ h in
      let ih =
        group_ranks_size samples ((rank_key r, r.world_rank) ∷ seen)
          (append_to (rank_key r) r groups)
          (warnings ++ sample_warning (has_key (rank_sample r) samples) (rank_sample r)) records
          h' in
      omega (arith, ih, grouped-append_to (rank_key r) r groups)

  -- If the records are analyzed, every event of the breakdown is counted in exactly one class; the
  -- events whose dominant phase has the rank of the maximum and those where it differs are together
  -- at most as many as the events; and the world sizes of the events add up to the number of
  -- records, so that each record is in one event.
  pub analyze_rank_records_balance :
      (records : List (RankRecord F)) (samples : Dict SampleKey SampleInfo)
      (phase_breakdown : List (PhaseEvent F)) (t : RankTally F) (warned : List Warning)
      → analyze_rank_records records samples phase_breakdown ≡ ok (t, warned)
      → (total t.classes ≡ length t.breakdown)
        × (t.dominant_matches + t.dominant_mismatches ≤ length t.breakdown)
        × (world_sizes t.breakdown ≡ length records)
  unfolding analyze_rank_records
  analyze_rank_records_balance records samples phase_breakdown t warned h =
      let (found, g, h') = >>=-eq-ok (group_ranks samples [] [] [] records) _ h in
      let phases = index_phases [] phase_breakdown in
      let groups = sort_by (entry_le iteration_le) found.0 in
      let tally = tally_all_ranks phases no_ranks groups in
      let b =
        tally_all_ranks-Balance phases no_ranks groups
          (record { classified = refl; compared = omega arith }) in
      let size = tally_all_ranks_sizes phases no_ranks groups in
      let n = group_ranks_size samples [] [] [] records g in
      let m = grouped-sort_by (entry_le iteration_le) found.0 in
      subst
        (λ (x : RankTally F).
          (total x.classes ≡ length x.breakdown)
          × (x.dominant_matches + x.dominant_mismatches ≤ length x.breakdown)
          × (world_sizes x.breakdown ≡ length records))
        (ap (λ (p : RankTally F × List Warning). p.0) (ok_inj _ _ h'))
        (
          total-sort_by (entry_le class_le) tally.classes ∙ b.classified,
          b.compared,
          omega (arith, size, n, m),
        )
