-- ===== src/Stalls/Ranks.antt =====
-- `local_phase_value` and `analyze_rank_records` of tools/analyze_iteration_stalls.py.
pub mod Event
pub mod Tally
pub mod Classify
pub mod Totals
use g_halo.Sort.Max.{max_by}
use g_halo.Text.Number.{show_int}
use g_halo.Statistics.{fmean, median}
use g_halo.Sort.{sort_by}
use g_halo.Float.{Float}
use g_halo.Stalls.Phases.{PhaseEvent}
use g_halo.Result.{Result, ok, ◌>>◌, raise_if, ◌>>=◌}
use g_halo.Stalls.Load.{member, is_nil}
use g_halo.Text.{Text, lit, or_else}
use g_halo.Stalls.{
  iteration_eq, IterationKey, RankRecord, SampleKey, Warning, SampleInfo, Fault, StallError, key_eq,
  local_total_us, million, global_max_us, iteration_le,
}
use g_halo.Dict.{Dict, has_key, append_to, insert, get_or, count_all, bump, lookup}
use g_halo.Prelude.{
  pair_eq, int_eq, ℕ, Bool, ◌≡◌, Eq, ◌*◌, if◌then◌else◌, ℤ, List, [], ◌==◌, true, ◌+◌, leb, leb_ℤ,
  ◌↔◌, map, ◌/◌, Option, ◌∷◌, nat_eq, arith, String, false, ◌++◌, some, not, pos, list_le, none,
  nat_ord, list_eq, length,
}

-- how the slow ranks of one stalled iteration lie
pub data RankClass : Type 0 where
  collective_wide rank_localized node_localized row_localized column_localized mixed_ranks :
      RankClass

abbrev pub class_code : RankClass → ℕ
class_code collective_wide = 0
class_code rank_localized = 1
class_code node_localized = 2
class_code row_localized = 3
class_code column_localized = 4
class_code mixed_ranks = 5

abbrev pub class_beq : RankClass → RankClass → Bool
class_beq a b = class_code a == class_code b

pub class_beq_iff : (a b : RankClass) → (class_beq a b ≡ true) ↔ (a ≡ b)
class_beq_iff a b = ground arith

instance abbrev pub class_eq : Eq RankClass
class_eq = record { beq = class_beq; beq_iff = class_beq_iff }

-- the `aliases` of `local_phase_value`
abbrev pub phase_aliases : Dict Text Text
phase_aliases =
    map (λ (name : String). (lit name, lit name ++ lit "_seconds"))
      ("north_south_communication" ∷ "north_south_sync" ∷ "transpose_copy" ∷ "transpose_sync"
        ∷ "east_west_communication" ∷ "east_west_sync" ∷ "north_south_enqueue" ∷ "transpose_enqueue"
        ∷ "east_west_enqueue" ∷ "final_stream_sync" ∷ "input_device_copy" ∷ "north_south_mpi"
        ∷ "transpose_device_copy" ∷ "transpose_copy_sync" ∷ "east_west_mpi" ∷ [])

-- set(values), in the order of first occurrence
module _ {ℓ} {A : Type ℓ} ⦃e : Eq A⦄ where
  unfoldable pub distinct : List A → List A
  unfolding member
  distinct [] = []
  distinct (x ∷ xs) = let rest = distinct xs in if member x rest then rest else x ∷ rest

-- math.ceil(0.8 * n), for n < 2 ^ 50: where 5 divides n the product is exact
unfoldable pub four_fifths : ℕ → ℕ
four_fifths n = (4 * n + 4) / 5

-- the ladder of tests on the ranks at 80 per cent or more
unfoldable pub classify_ranks : ℕ → ℕ → ℕ → ℕ → ℕ → RankClass
unfolding four_fifths
classify_ranks world_size affected hosts rows columns =
    if leb (four_fifths world_size) affected
    then collective_wide
    else if leb affected 2
    then rank_localized
    else if hosts == 1
    then node_localized
    else if rows == 1
    then row_localized
    else if columns == 1
    then column_localized
    else mixed_ranks

pub record LocalPhase (F : Type 0) : Type 0 where
  pub world_rank : ℤ
  pub hostname : Text
  pub selected_hip_device : ℤ
  pub cart_row : ℤ
  pub cart_col : ℤ
  pub phase_us : F
  pub local_total_us : F

pub record RankEvent (F : Type 0) : Type 0 where
  pub key : IterationKey
  pub classification : RankClass
  pub world_size : ℕ
  pub global_max_us : F
  pub global_max_rank : ℤ
  pub min_local_us : F
  pub median_local_us : F
  pub mean_local_us : F
  pub max_local_us : F
  pub coefficient_of_variation : F
  pub ranks_ge_50pct : ℕ
  pub ranks_ge_80pct : ℕ
  pub ranks_ge_95pct : ℕ
  pub pct_ranks_ge_80pct : F
  pub nodes_ge_80pct : List Text
  pub rows_ge_80pct : List ℤ
  pub columns_ge_80pct : List ℤ
  pub dominant_phase : Text
  pub dominant_phase_max_rank : Option ℤ
  pub dominant_phase_rank_matches_total : Bool
  pub local_dominant_phase_distribution : List (LocalPhase F)

-- The state of the loop over the iterations.
pub record RankTally (F : Type 0) : Type 0 where
  pub breakdown : List (RankEvent F)
  pub classes : Dict RankClass ℕ
  pub slow_ranks : Dict ℤ ℕ
  pub slow_nodes : Dict Text ℕ
  pub slow_gpus : Dict Text ℕ
  pub slow_rows : Dict ℤ ℕ
  pub slow_columns : Dict ℤ ℕ
  pub dominant_matches : ℕ
  pub dominant_mismatches : ℕ

abbrev pub no_ranks : {F : Type 0} → RankTally F
no_ranks = record {
  breakdown = [];
  classes = [];
  slow_ranks = [];
  slow_nodes = [];
  slow_gpus = [];
  slow_rows = [];
  slow_columns = [];
  dominant_matches = 0;
  dominant_mismatches = 0;
}

abbrev pub RankGroups : Type 0 → Type 0
RankGroups F = Dict IterationKey (List (RankRecord F))

-- the warning for a record whose sample is not known
abbrev pub sample_warning : Bool → SampleKey → List Warning
sample_warning true key = []
sample_warning false key = Warning.rank_without_sample key ∷ []

module _ {F : Type 0} where
  abbrev pub rank_key : RankRecord F → IterationKey
  rank_key r = record {
    halo_words = r.halo_words;
    sample_index = r.sample_index;
    iteration_index = r.iteration_index;
  }

  abbrev pub rank_sample : RankRecord F → SampleKey
  rank_sample r = record { halo_words = r.halo_words; sample_index = r.sample_index }

  abbrev pub world_le : RankRecord F → RankRecord F → Bool
  world_le a b = leb_ℤ a.world_rank b.world_rank

  -- the first loop; `seen` are the keys (halo, sample, iteration, rank) so far
  unfoldable pub group_ranks :
      Dict SampleKey SampleInfo
      → List (IterationKey × ℤ)
      → RankGroups F
      → List Warning
      → List (RankRecord F)
      → Result Fault (RankGroups F × List Warning)
  unfolding has_key member append_to
  group_ranks samples seen groups warnings [] = ok (groups, warnings)
  group_ranks samples seen groups warnings (r ∷ records) = do
    raise_if (member (rank_key r, r.world_rank) seen)
        (Fault.stall (StallError.duplicate_rank (rank_key r) r.world_rank))
    group_ranks samples ((rank_key r, r.world_rank) ∷ seen) (append_to (rank_key r) r groups)
        (warnings ++ sample_warning (has_key (rank_sample r) samples) (rank_sample r)) records
