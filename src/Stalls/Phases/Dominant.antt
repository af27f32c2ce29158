-- ===== src/Stalls/Phases/Dominant.antt =====
-- The dominant phase of an iteration takes the most time of all its records.
use g_halo.Sort.Laws.{Occurs-sort_by}
use g_halo.Sort.{sort_by}
use g_halo.Sort.Max.{IsAbove, max_by, max_by-Occurs, max_by-IsAbove}
use g_halo.Float.{Float, FloatOrder}
use g_halo.Stalls.Phases.Totals.{group_phases-cons, events_of, breakdown_tally}
use mathlib.Core.List.{append-nil, append_assoc}
use g_halo.Dict.Groups.{
  group_of, selected, append_to-UniqueKeys, group_of-append_to, group_of-Occurs,
}
use g_halo.Result.{ok, ok_inj, >>=-eq-ok}
use g_halo.Dict.Laws.{UniqueKeys}
use g_halo.Stalls.{IterationKey, SampleKey, PhaseRecord, SampleInfo, iteration_eq}
use g_halo.Dict.{Dict, append_to}
use g_halo.Stalls.Phases.{
  group_phases, PhaseGroups, is_excluded, phase_key, dominance_le, PhaseEvent, phase_event,
  analyze_groups, analyze_phase_records, PhaseAnalysis, group_le, no_phases,
}
use g_halo.Prelude.{
  Option, List, ◌∷◌, if◌then◌else◌, ◌≡◌, [], ◌++◌, subst, ap, sym, ◌∙◌, Bool-cases, inl, inr, true,
  ◌⊎◌, arith, text_le_total, text_le_trans, All, Occurs, refl,
}

-- The records that the first loop keeps.
abbrev pub kept :
    {F : Type 0} → Option (List IterationKey) → List (PhaseRecord F) → List (PhaseRecord F)
kept affected [] = []
kept affected (r ∷ records) =
    (if is_excluded affected (phase_key r) then [] else r ∷ []) ++ kept affected records

module _ {F : Type 0} where
  group_of-group_phases :
      (samples : Dict SampleKey SampleInfo) (affected : Option (List IterationKey))
      (k : IterationKey) (groups : PhaseGroups F) (records : List (PhaseRecord F))
      {result : PhaseGroups F}
      → UniqueKeys groups
      → group_phases samples affected groups records ≡ ok result
      → (UniqueKeys result)
        × (group_of k result ≡ group_of k groups ++ selected phase_key k (kept affected records))
  unfolding group_phases
  group_of-group_phases samples affected k groups [] {result} u e =
      let same = ok_inj groups result e in
      (subst UniqueKeys same u, ap (group_of k) (sym same) ∙ sym (append-nil (group_of k groups)))
  group_of-group_phases samples affected k groups (r ∷ records) {result} u e =
      let rest = group_phases-cons samples affected groups r records e in
      elim (Bool-cases (is_excluded affected (phase_key r))) [
        | inl out ↦
            let rest' : group_phases samples affected groups records ≡ ok result = rw out at rest in
            let ih = group_of-group_phases samples affected k groups records u rest' in
            (ih.0, rw out ih.1)
        | inr kept_in ↦
            let next = append_to (phase_key r) r groups in
            let rest' : group_phases samples affected next records ≡ ok result =
              rw kept_in at rest in
            let unique = append_to-UniqueKeys (phase_key r) r groups u in
            let ih = group_of-group_phases samples affected k next records unique rest' in
            (
              ih.0,
              rw kept_in (
                  ih.1
                  ∙ rw (group_of-append_to (phase_key r) k r groups) (
                      append_assoc (group_of k groups) _
                        (selected phase_key k (kept affected records)))),
            )
      ]

module _ {F : Type 0} ⦃f : Float F⦄ (order : FloatOrder F) where
  open order use {fle_total, fle_trans, feq-fle}

  pub dominance_le_total :
      (a b : PhaseRecord F) → (dominance_le a b ≡ true) ⊎ (dominance_le b a ≡ true)
  unfolding dominance_le
  dominance_le_total a b = ground (
    arith,
    fle_total a.phase_seconds b.phase_seconds,
    feq-fle a.phase_seconds b.phase_seconds,
    feq-fle b.phase_seconds a.phase_seconds,
    text_le_total a.phase_name b.phase_name,
  )

  pub dominance_le_trans :
      (a b c : PhaseRecord F)
      → dominance_le a b ≡ true
      → dominance_le b c ≡ true
      → dominance_le a c ≡ true
  unfolding dominance_le
  dominance_le_trans a b c h k = ground (
    arith,
    fle_trans a.phase_seconds b.phase_seconds c.phase_seconds,
    fle_trans c.phase_seconds b.phase_seconds a.phase_seconds,
    fle_trans b.phase_seconds c.phase_seconds a.phase_seconds,
    fle_trans c.phase_seconds a.phase_seconds b.phase_seconds,
    fle_trans b.phase_seconds a.phase_seconds c.phase_seconds,
    fle_trans a.phase_seconds c.phase_seconds b.phase_seconds,
    feq-fle a.phase_seconds b.phase_seconds,
    feq-fle b.phase_seconds c.phase_seconds,
    feq-fle a.phase_seconds c.phase_seconds,
    text_le_trans a.phase_name b.phase_name c.phase_name,
  )

  pub fle_of_dominance :
      (a b : PhaseRecord F) → dominance_le a b ≡ true → f.fle a.phase_seconds b.phase_seconds ≡ true
  unfolding dominance_le
  fle_of_dominance a b h = ground (arith, feq-fle a.phase_seconds b.phase_seconds)

  All-le :
      (best : PhaseRecord F) (l : List (PhaseRecord F))
      → IsAbove dominance_le best l
      → All (λ (x : PhaseRecord F). f.fle x.phase_seconds best.phase_seconds ≡ true) l
  All-le best [] a = tt
  All-le best (x ∷ l) a = (fle_of_dominance x best a.0, All-le best l a.1)

  -- what one row of the breakdown says of the records of its iteration
  abbrev pub Dominates : List (PhaseRecord F) → PhaseEvent F → Type 0
  Dominates records e =
      (r : PhaseRecord F) × (Occurs r records)
      × (e ≡ phase_event e.key r)
      × All (λ (x : PhaseRecord F). f.fle x.phase_seconds r.phase_seconds ≡ true) records

  event_of_group :
      (groups : PhaseGroups F) (e : PhaseEvent F)
      → Occurs e (events_of groups)
      → (g : IterationKey × List (PhaseRecord F)) × (Occurs g groups)
        × (e.key ≡ g.0)
        × Dominates g.1 e
  unfolding phase_event
  event_of_group [] e o = absurd o.1
  event_of_group ((key, []) ∷ groups) e o =
      let (g, p, q, d) = event_of_group groups e o in (g, inr p, q, d)
  event_of_group ((key, r ∷ records) ∷ groups) e (inl p) = (
    (key, r ∷ records),
    inl refl,
    ap (λ (x : PhaseEvent F). x.key) p,
    (
      max_by dominance_le r records,
      max_by-Occurs dominance_le r records,
      subst (λ (x : PhaseEvent F). x ≡ phase_event x.key (max_by dominance_le r records)) (sym p)
          refl,
      All-le _ (r ∷ records)
          (max_by-IsAbove dominance_le dominance_le_total dominance_le_trans r records),
    ),
  )
  event_of_group ((key, r ∷ records) ∷ groups) e (inr o) =
      let (g, p, q, d) = event_of_group groups e o in (g, inr p, q, d)

  groups_dominant :
      (groups : PhaseGroups F) (e : PhaseEvent F)
      → UniqueKeys groups
      → Occurs e (analyze_groups groups).breakdown
      → Dominates (group_of e.key groups) e
  unfolding analyze_groups
  groups_dominant [] e u o = absurd o.1
  groups_dominant (g ∷ groups) e u o =
      let sorted = sort_by group_le (g ∷ groups) in
      let o' = subst (Occurs e) (breakdown_tally no_phases sorted) o in
      let (h, p, q, d) = event_of_group sorted e o' in
      let there = Occurs-sort_by group_le h (g ∷ groups) p in
      subst (λ l. Dominates l e)
        (sym (ap (λ k. group_of k (g ∷ groups)) q ∙ group_of-Occurs h.0 h.1 (g ∷ groups) u there)) d

  -- Each breakdown row of a result stands for one of the records that were kept for its iteration,
  -- and no record that was kept for the iteration has a longer phase.
  pub analyze_phase_records_dominant :
      (records : List (PhaseRecord F)) (samples : Dict SampleKey SampleInfo)
      (affected : Option (List IterationKey)) (result : PhaseAnalysis F) (e : PhaseEvent F)
      → analyze_phase_records records samples affected ≡ ok result
      → Occurs e result.breakdown
      → Dominates (selected phase_key e.key (kept affected records)) e
  unfolding analyze_phase_records group_of
  analyze_phase_records_dominant records samples affected result e h o =
      let (groups, grouped, h') = >>=-eq-ok (group_phases samples affected [] records) _ h in
      let (unique, content) = group_of-group_phases samples affected e.key [] records tt grouped in
      let o' = subst (λ (x : PhaseAnalysis F). Occurs e x.breakdown) (sym (ok_inj _ result h')) o in
      subst (λ l. Dominates l e) content (groups_dominant groups e unique o')
