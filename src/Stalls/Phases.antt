-- ===== src/Stalls/Phases.antt =====
-- `phase_category` and `analyze_phase_records` of tools/analyze_iteration_stalls.py.
pub mod Totals
pub mod Dominant
pub mod Majority
use g_halo.Statistics.{median}
use g_halo.Result.{Result, ok, ◌>>◌, ◌>>=◌, raise_if}
use g_halo.Sort.{sort_by}
use g_halo.Sort.Max.{max_by}
use g_halo.Stalls.Load.{member}
use g_halo.Float.{Float}
use g_halo.Dict.{Dict, has_key, append_to, most_common, bump, get_or, count_all}
use g_halo.Stalls.{
  IterationKey, PhaseRecord, SampleKey, phase_us, iteration_le, SampleInfo, million, Fault,
  StallError, iteration_eq, key_eq,
}
use g_halo.Text.{Text, contains, lit}
use g_halo.Prelude.{
  ℕ, Bool, ◌≡◌, Eq, List, Option, [], true, if◌then◌else◌, ℤ, false, list_le, map, ◌∷◌, ◌↔◌, beq_ℤ,
  leb_ℤ, some, arith, not, negate, ◌++◌, length, list_eq, nat_eq, ◌||◌, int_eq, none, nat_ord, ltb,
  ◌*◌,
}

pub data PhaseCategory : Type 0 where
  synchronization copy_transpose communication mixed : PhaseCategory

abbrev pub category_beq : PhaseCategory → PhaseCategory → Bool
category_beq synchronization synchronization = true
category_beq copy_transpose copy_transpose = true
category_beq communication communication = true
category_beq mixed mixed = true
category_beq _ _ = false

pub category_beq_iff : (a b : PhaseCategory) → (category_beq a b ≡ true) ↔ (a ≡ b)
category_beq_iff a b = ground arith

instance abbrev pub category_eq : Eq PhaseCategory
category_eq = record { beq = category_beq; beq_iff = category_beq_iff }

unfoldable pub phase_category : Text → PhaseCategory
phase_category name =
    if contains (lit "sync") name
    then synchronization
    else if contains (lit "copy") name || contains (lit "transpose") name
    then copy_transpose
    else if contains (lit "communication") name
        || contains (lit "enqueue") name
        || contains (lit "mpi") name
    then communication
    else mixed

-- One row of the breakdown: the phase that dominates an iteration.
pub record PhaseEvent (F : Type 0) : Type 0 where
  pub key : IterationKey
  pub dominant_phase : Text
  pub dominant_phase_us : F
  pub dominant_phase_max_rank : ℤ
  pub total_iteration_us : F
  pub total_iteration_max_rank : ℤ

pub record PhaseSummary (F : Type 0) : Type 0 where
  pub phase_name : Text
  pub dominant_iterations : ℕ
  pub cumulative_ms : F
  pub median_us : F
  pub max_us : F
  pub max_rank_frequency : Dict ℤ ℕ

pub record PhaseAnalysis (F : Type 0) : Type 0 where
  pub iterations : ℕ
  pub summaries : List (PhaseSummary F)
  pub breakdown : List (PhaseEvent F)
  pub classification : PhaseCategory

abbrev pub PhaseGroups : Type 0 → Type 0
PhaseGroups F = Dict IterationKey (List (PhaseRecord F))

-- affected_iterations is not None and key not in affected_iterations
abbrev pub is_excluded : Option (List IterationKey) → IterationKey → Bool
is_excluded none key = false
is_excluded (some affected) key = not (member key affected)

module _ {F : Type 0} where
  abbrev pub phase_key : PhaseRecord F → IterationKey
  phase_key r = record {
    halo_words = r.halo_words;
    sample_index = r.sample_index;
    iteration_index = r.iteration_index;
  }

  abbrev pub phase_sample : PhaseRecord F → SampleKey
  phase_sample r = record { halo_words = r.halo_words; sample_index = r.sample_index }

  -- the first loop, which groups the records by iteration
  unfoldable pub group_phases :
      Dict SampleKey SampleInfo
      → Option (List IterationKey)
      → PhaseGroups F
      → List (PhaseRecord F)
      → Result Fault (PhaseGroups F)
  unfolding has_key member append_to
  group_phases samples affected groups [] = ok groups
  group_phases samples affected groups (r ∷ records) = do
    raise_if (not (has_key (phase_sample r) samples))
        (Fault.stall (StallError.unknown_sample (phase_sample r)))
    group_phases samples affected
        (if is_excluded affected (phase_key r) then groups else append_to (phase_key r) r groups)
        records

-- The state of the second loop.
pub record PhaseTally (F : Type 0) : Type 0 where
  pub values : Dict Text (List (PhaseRecord F))
  pub dominant : Dict Text ℕ
  pub categories : Dict PhaseCategory ℕ
  pub breakdown : List (PhaseEvent F)

abbrev pub no_phases : {F : Type 0} → PhaseTally F
no_phases = record { values = []; dominant = []; categories = []; breakdown = [] }

module _ {F : Type 0} where
  -- for record in records: phase_values[record.phase_name].append(record)
  unfoldable pub add_values :
      Dict Text (List (PhaseRecord F)) → List (PhaseRecord F) → Dict Text (List (PhaseRecord F))
  unfolding append_to
  add_values values [] = values
  add_values values (r ∷ records) = add_values (append_to r.phase_name r values) records

abbrev pub group_le : {A : Type 0} → IterationKey × A → IterationKey × A → Bool
group_le (j, a) (k, b) = iteration_le j k

abbrev pub name_le : {A : Type 0} → Text × A → Text × A → Bool
name_le (j, a) (k, b) = list_le j k

abbrev pub rank_le : {A : Type 0} → ℤ × A → ℤ × A → Bool
rank_le (j, a) (k, b) = leb_ℤ j k

module _ {F : Type 0} ⦃f : Float F⦄ where
  -- the key (phase_seconds, -phase_max_rank, phase_name) of `max`
  unfoldable pub dominance_le : PhaseRecord F → PhaseRecord F → Bool
  dominance_le a b =
      if f.feq a.phase_seconds b.phase_seconds
      then (if beq_ℤ (negate a.phase_max_rank) (negate b.phase_max_rank)
          then list_le a.phase_name b.phase_name
          else leb_ℤ (negate a.phase_max_rank) (negate b.phase_max_rank))
      else f.fle a.phase_seconds b.phase_seconds

  unfoldable pub phase_event : IterationKey → PhaseRecord F → PhaseEvent F
  unfolding phase_us
  phase_event key dominant = record {
    key = key;
    dominant_phase = dominant.phase_name;
    dominant_phase_us = phase_us dominant;
    dominant_phase_max_rank = dominant.phase_max_rank;
    total_iteration_us = f.fmul dominant.total_iteration_seconds million;
    total_iteration_max_rank = dominant.total_iteration_max_rank;
  }

  -- one iteration; `defaultdict` holds no empty group
  unfoldable pub tally_iteration : PhaseTally F → IterationKey → List (PhaseRecord F) → PhaseTally F
  unfolding add_values bump max_by dominance_le phase_event phase_category
  tally_iteration t key [] = t
  tally_iteration t key (r ∷ records) =
      let dominant = max_by dominance_le r records in
      record {
        values = add_values t.values (r ∷ records);
        dominant = bump dominant.phase_name t.dominant;
        categories = bump (phase_category dominant.phase_name) t.categories;
        breakdown = t.breakdown ++ phase_event key dominant ∷ [];
      }

  unfoldable pub tally_iterations : PhaseTally F → PhaseGroups F → PhaseTally F
  unfolding tally_iteration
  tally_iterations t [] = t
  tally_iterations t ((key, records) ∷ groups) =
      tally_iterations (tally_iteration t key records) groups

  -- max(values) if values else 0.0
  unfoldable pub max_or_zero : List F → F
  max_or_zero [] = f.literal 0 1
  max_or_zero (x ∷ xs) = max_by f.fle x xs

  unfoldable pub phase_summary : Dict Text ℕ → Text → List (PhaseRecord F) → PhaseSummary F
  unfolding max_or_zero
  phase_summary dominant name records =
      let phase_us_values = map phase_us records in
      record {
        phase_name = name;
        dominant_iterations = get_or 0 name dominant;
        cumulative_ms = f.fdiv (f.sum phase_us_values) (f.literal 1000 1);
        median_us = median phase_us_values;
        max_us = max_or_zero phase_us_values;
        max_rank_frequency =
            sort_by rank_le (count_all [] (map (λ (r : PhaseRecord F). r.phase_max_rank) records));
      }

-- `count > len(by_iteration) / 2.0` decides whether the most common category is the answer
unfoldable pub classification_of : Dict PhaseCategory ℕ → ℕ → PhaseCategory
unfolding most_common
classification_of categories iterations = elim (most_common categories) [
  | none ↦ mixed
  | some (category, count) ↦ if ltb iterations (2 * count) then category else mixed
]

module _ {F : Type 0} ⦃f : Float F⦄ where
  unfoldable pub analyze_groups : PhaseGroups F → PhaseAnalysis F
  unfolding tally_iterations phase_summary classification_of
  analyze_groups [] = record {
    iterations = 0;
    summaries = [];
    breakdown = [];
    classification = mixed;
  }
  analyze_groups (g ∷ groups) =
      let t = tally_iterations no_phases (sort_by group_le (g ∷ groups)) in
      record {
        iterations = length (g ∷ groups);
        summaries =
            map (λ (p : Text × List (PhaseRecord F)). phase_summary t.dominant p.0 p.1)
              (sort_by name_le t.values);
        breakdown = t.breakdown;
        classification = classification_of t.categories (length (g ∷ groups));
      }

  -- the list of warnings that the function returns is always empty
  unfoldable pub analyze_phase_records :
      List (PhaseRecord F)
      → Dict SampleKey SampleInfo
      → Option (List IterationKey)
      → Result Fault (PhaseAnalysis F)
  unfolding group_phases analyze_groups
  analyze_phase_records records samples affected = do
    groups ← group_phases samples affected [] records
    ok (analyze_groups groups)
