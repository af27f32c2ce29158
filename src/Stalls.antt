-- ===== src/Stalls.antt =====
-- tools/analyze_iteration_stalls.py: the data that its steps pass on, and its exceptions. The steps
-- stand in the modules below.
pub mod Load
pub mod Readers
pub mod Samples
pub mod Phases
pub mod Ranks
pub mod Paths
pub mod Summary
pub mod Rows
pub mod Report
pub mod Case
pub mod Discover
use g_halo.Prelude.{
  ℕ, Bool, true, false, ◌&&◌, ◌≡◌, ◌↔◌, List, Option, ℤ, Eq, Ord, beq_ℤ, beq_ℤ_iff, leb_ℤ, arith,
  ◌⊎◌, if◌then◌else◌,
}
use g_halo.Text.{Text}
use g_halo.Dict.{Dict}
use g_halo.Float.{Float}
use g_halo.Json.{Builtin}

-- `dataclass(frozen=True, order=True)`
pub record SampleKey : Type 0 where
  pub halo_words : ℤ
  pub sample_index : ℤ

abbrev pub key_beq : SampleKey → SampleKey → Bool
key_beq a b = beq_ℤ a.halo_words b.halo_words && beq_ℤ a.sample_index b.sample_index

abbrev pub key_le : SampleKey → SampleKey → Bool
key_le a b =
    if beq_ℤ a.halo_words b.halo_words
    then leb_ℤ a.sample_index b.sample_index
    else leb_ℤ a.halo_words b.halo_words

pub key_beq_iff : (a b : SampleKey) → (key_beq a b ≡ true) ↔ (a ≡ b)
key_beq_iff a b = ground arith

pub key_le_total : (a b : SampleKey) → (key_le a b ≡ true) ⊎ (key_le b a ≡ true)
key_le_total a b = ground arith

pub key_le_trans : (a b c : SampleKey) → key_le a b ≡ true → key_le b c ≡ true → key_le a c ≡ true
key_le_trans a b c h k = ground arith

instance abbrev pub key_eq : Eq SampleKey
key_eq = record { beq = key_beq; beq_iff = key_beq_iff }

pub record SampleInfo : Type 0 where
  pub key : SampleKey
  pub iterations : ℤ
  pub sample_count : ℤ

-- halo, sample and iteration
pub record IterationKey : Type 0 where
  pub halo_words : ℤ
  pub sample_index : ℤ
  pub iteration_index : ℤ

abbrev pub iteration_beq : IterationKey → IterationKey → Bool
iteration_beq a b =
    beq_ℤ a.halo_words b.halo_words
    && beq_ℤ a.sample_index b.sample_index
    && beq_ℤ a.iteration_index b.iteration_index

abbrev pub iteration_le : IterationKey → IterationKey → Bool
iteration_le a b =
    if beq_ℤ a.halo_words b.halo_words
    then (if beq_ℤ a.sample_index b.sample_index
        then leb_ℤ a.iteration_index b.iteration_index
        else leb_ℤ a.sample_index b.sample_index)
    else leb_ℤ a.halo_words b.halo_words

pub iteration_beq_iff : (a b : IterationKey) → (iteration_beq a b ≡ true) ↔ (a ≡ b)
iteration_beq_iff a b = ground arith

instance abbrev pub iteration_eq : Eq IterationKey
iteration_eq = record { beq = iteration_beq; beq_iff = iteration_beq_iff }

pub record IterationRecord (F : Type 0) : Type 0 where
  pub halo_words : ℤ
  pub sample_index : ℤ
  pub iteration_index : ℤ
  pub duration_seconds : F
  pub max_rank : ℤ
  pub backend : Text
  pub rccl_sync_mode : Text
  pub world_size : ℤ

pub record PhaseRecord (F : Type 0) : Type 0 where
  pub halo_words : ℤ
  pub sample_index : ℤ
  pub iteration_index : ℤ
  pub phase_name : Text
  pub phase_seconds : F
  pub phase_max_rank : ℤ
  pub total_iteration_seconds : F
  pub total_iteration_max_rank : ℤ
  pub backend_schema : Text

pub record RankRecord (F : Type 0) : Type 0 where
  pub halo_words : ℤ
  pub sample_index : ℤ
  pub iteration_index : ℤ
  pub world_rank : ℤ
  pub local_rank : ℤ
  pub hostname : Text
  pub selected_hip_device : ℤ
  pub cart_row : ℤ
  pub cart_col : ℤ
  pub local_total_iteration_seconds : F
  pub global_max_iteration_seconds : F
  pub global_max_iteration_rank : ℤ
  pub backend_schema : Text
  pub phases : Dict Text F

-- `1.0e6`, from seconds to microseconds
abbrev pub million : {F : Type 0} ⦃f : Float F⦄ → F
million ⦃f⦄ = f.literal 1000000 1

module _ {F : Type 0} ⦃f : Float F⦄ where
  unfoldable pub duration_us : IterationRecord F → F
  duration_us r = f.fmul r.duration_seconds million

  unfoldable pub phase_us : PhaseRecord F → F
  phase_us r = f.fmul r.phase_seconds million

  unfoldable pub local_total_us : RankRecord F → F
  local_total_us r = f.fmul r.local_total_iteration_seconds million

  unfoldable pub global_max_us : RankRecord F → F
  global_max_us r = f.fmul r.global_max_iteration_seconds million

-- The messages of `StallAnalysisError`, with the values that they show.
pub data StallError : Type 0 where
  missing_path : List Text → StallError
  missing_json no_results : StallError
  duplicate_sample : SampleKey → StallError
  missing_columns : Text → StallError
  unknown_sample : SampleKey → StallError
  duplicate_rank : IterationKey → ℤ → StallError
  negative_threshold no_directories : StallError

pub data Fault : Type 0 where
  stall : StallError → Fault
  builtin : Builtin → Fault
  -- json.JSONDecodeError
  malformed_json : Fault

-- The texts that a case's `warnings` holds.
pub data Warning : Type 0 where
  missing_file empty_file : Text → Warning
  iteration_without_sample rank_without_sample : SampleKey → Warning
