-- ===== src/Stalls/Phases/Totals.antt =====
-- What the second loop of `analyze_phase_records` counts.
use g_halo.Result.{ok, ok_inj, raise_if-eq-ok}
use mathlib.Core.List.{append-nil, append_assoc}
use g_halo.Sort.Max.{max_by}
use g_halo.Text.{Text}
use g_halo.Dict.{append_to, Dict, count_all}
use g_halo.Stalls.{IterationKey, PhaseRecord, SampleKey, SampleInfo, iteration_eq}
use g_halo.Stalls.Phases.{
  PhaseEvent, group_phases, PhaseGroups, PhaseCategory, tally_iterations, phase_category,
  PhaseTally, phase_event, dominance_le, tally_iteration, category_eq, phase_key, is_excluded,
}
use g_halo.Float.{Float}
use g_halo.Prelude.{
  List, All, ◌∷◌, [], ◌≡◌, length, ◌++◌, map, sym, ap, Bool-cases, Option, suc, ◌==◌, ◌∙◌, inl,
  list_eq, nat_eq, inr, subst, refl, Bool, if◌then◌else◌, true, false,
}

-- The rows that the loop adds, one for each group.
abbrev pub events_of : {F : Type 0} ⦃f : Float F⦄ → PhaseGroups F → List (PhaseEvent F)
events_of [] = []
events_of ((key, []) ∷ groups) = events_of groups
events_of ((key, r ∷ records) ∷ groups) =
    phase_event key (max_by dominance_le r records) ∷ events_of groups

abbrev pub event_phase : {F : Type 0} → PhaseEvent F → Text
event_phase e = e.dominant_phase

abbrev pub event_category : {F : Type 0} → PhaseEvent F → PhaseCategory
event_category e = phase_category e.dominant_phase

abbrev pub IsGrouped : {F : Type 0} → IterationKey × List (PhaseRecord F) → Type 0
IsGrouped (key, []) = ⊥
IsGrouped (key, r ∷ records) = Unit

module _ {F : Type 0} ⦃f : Float F⦄ where
  pub categories_tally :
      (t : PhaseTally F) (groups : PhaseGroups F)
      → (tally_iterations t groups).categories
        ≡ count_all t.categories (map event_category (events_of groups))
  unfolding tally_iterations count_all
  categories_tally t [] = refl
  categories_tally t ((key, []) ∷ groups) = categories_tally t groups
  categories_tally t ((key, r ∷ records) ∷ groups) =
      categories_tally (tally_iteration t key (r ∷ records)) groups

  pub dominant_tally :
      (t : PhaseTally F) (groups : PhaseGroups F)
      → (tally_iterations t groups).dominant
        ≡ count_all t.dominant (map event_phase (events_of groups))
  unfolding tally_iterations count_all
  dominant_tally t [] = refl
  dominant_tally t ((key, []) ∷ groups) = dominant_tally t groups
  dominant_tally t ((key, r ∷ records) ∷ groups) =
      dominant_tally (tally_iteration t key (r ∷ records)) groups

  pub breakdown_tally :
      (t : PhaseTally F) (groups : PhaseGroups F)
      → (tally_iterations t groups).breakdown ≡ t.breakdown ++ events_of groups
  unfolding tally_iterations
  breakdown_tally t [] = sym (append-nil t.breakdown)
  breakdown_tally t ((key, []) ∷ groups) = breakdown_tally t groups
  breakdown_tally t ((key, r ∷ records) ∷ groups) =
      breakdown_tally (tally_iteration t key (r ∷ records)) groups
      ∙ append_assoc t.breakdown _ (events_of groups)

  pub length-events_of :
      (groups : PhaseGroups F) → All IsGrouped groups → length (events_of groups) ≡ length groups
  length-events_of [] h = refl
  length-events_of ((key, []) ∷ groups) h = absurd h.0
  length-events_of ((key, r ∷ records) ∷ groups) h = ap suc (length-events_of groups h.1)

module _ {F : Type 0} where
  append_to-IsGrouped :
      (k : IterationKey) (r : PhaseRecord F) (groups : PhaseGroups F)
      → All IsGrouped groups
      → All IsGrouped (append_to k r groups)
  unfolding append_to
  append_to-IsGrouped k r [] h = (tt, tt)
  append_to-IsGrouped k r ((j, records) ∷ groups) h = elim (Bool-cases (j == k)) [
    | inl e ↦ rw e (snoc-IsGrouped j r records, h.1)
    | inr e ↦ rw e (h.0, append_to-IsGrouped k r groups h.1)
  ]
    where
      snoc-IsGrouped :
          (j : IterationKey) (r : PhaseRecord F) (l : List (PhaseRecord F))
          → IsGrouped (j, l ++ r ∷ [])
      snoc-IsGrouped j r [] = tt
      snoc-IsGrouped j r (x ∷ l) = tt

  -- One round of the first loop that does not raise.
  pub group_phases-cons :
      (samples : Dict SampleKey SampleInfo) (affected : Option (List IterationKey))
      (groups : PhaseGroups F) (r : PhaseRecord F) (records : List (PhaseRecord F))
      {result : PhaseGroups F}
      → group_phases samples affected groups (r ∷ records) ≡ ok result
      → group_phases samples affected
          (if is_excluded affected (phase_key r) then groups else append_to (phase_key r) r groups)
          records
        ≡ ok result
  unfolding group_phases
  group_phases-cons samples affected groups r records e = (raise_if-eq-ok _ _ _ e).1

  -- The first loop makes no empty group.
  pub group_phases-IsGrouped :
      (samples : Dict SampleKey SampleInfo) (affected : Option (List IterationKey))
      (groups : PhaseGroups F) (records : List (PhaseRecord F)) {result : PhaseGroups F}
      → All IsGrouped groups
      → group_phases samples affected groups records ≡ ok result
      → All IsGrouped result
  unfolding group_phases
  group_phases-IsGrouped samples affected groups [] {result} h e =
      subst (All IsGrouped) (ok_inj groups result e) h
  group_phases-IsGrouped samples affected groups (r ∷ records) h e =
      let (known, rest) = raise_if-eq-ok _ _ _ e in
      group_phases-IsGrouped samples affected
        (if is_excluded affected (phase_key r) then groups else append_to (phase_key r) r groups)
        records (keep (is_excluded affected (phase_key r))) rest
    where
      keep : (b : Bool) → All IsGrouped (if b then groups else append_to (phase_key r) r groups)
      keep true = h
      keep false = append_to-IsGrouped (phase_key r) r groups h
