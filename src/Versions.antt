-- ===== src/Versions.antt =====
-- tools/compare_rccl_versions.py: the stall events of a case, and the checks on the compared cases.
-- The functions on one result and on the whole matrix stand in the modules below.
pub mod Events
pub mod Checks
pub mod Matrix
pub mod Report
pub mod Discover
pub mod Print
use g_halo.Json.{Json}
use g_halo.Stalls.Ranks.{RankClass}
use g_halo.Stalls.Paths.{FilePath}
use g_halo.Stalls.Case.{Affected}
use g_halo.Sort.{sort_by}
use g_halo.Result.{Result, ok, err}
use g_halo.Stalls.{Fault, SampleKey, key_eq, Warning}
use g_halo.Text.{Text, remove_prefix, lit, strip}
use g_halo.Dict.{Dict, append_to}
use g_halo.Prelude.{
  ℕ, List, Option, ℤ, [], ◌∷◌, Bool, if◌then◌else◌, none, true, ◌==◌, leb_ℤ, ◌++◌, some, ◌+ℤ◌, ◌+◌,
  pos, nat_eq, int_eq,
}

-- EXPECTED_CODES and VERSION_ORDER
abbrev pub expected_codes : Dict Text Text
expected_codes =
    (lit "6.4.2", lit "22203") ∷ (lit "7.0.2", lit "22606") ∷ (lit "7.2.0", lit "22707") ∷ []

abbrev pub version_order : List Text
version_order = lit "6.4.2" ∷ lit "7.0.2" ∷ lit "7.2.0" ∷ []

-- The messages of `RCCLVersionCompareError`, with the values that they show.
pub data CompareError : Type 0 where
  missing_json no_results : CompareError
  missing_path : FilePath → CompareError
  unexpected_version : Text → CompareError
  wrong_code : Text → Text → CompareError
  not_rccl not_conservative : CompareError
  mixed_versions : Text → Text → CompareError
  duplicate_version : Text → CompareError
  missing_versions : List Text → CompareError

pub data CompareFault : Type 0 where
  compare : CompareError → CompareFault
  case_fault : Fault → CompareFault

unfoldable pub lift_fault {ℓ} : {A : Type ℓ} → Result Fault A → Result CompareFault A
lift_fault (ok a) = ok a
lift_fault (err e) = err (CompareFault.case_fault e)

pub record VersionSummary (F : Type 0) : Type 0 where
  pub rocm_version : Text
  pub expected_rccl_code : Text
  pub observed_rccl_code : Text
  pub result_dir : FilePath
  pub label : Text
  pub total_samples : ℕ
  pub total_iterations : ℤ
  pub stalled_iterations : ℕ
  pub stall_percentage : F
  pub samples_containing_stalls : ℕ
  pub stall_events : ℕ
  pub median_stall_us : Option F
  pub max_stall_us : Option F
  pub median_event_length : Option F
  pub max_event_length : ℕ
  pub dominant_phase_counts : Dict Text ℕ
  pub rank_event_classifications : Dict RankClass ℕ
  pub fast_path_median_us : Option F
  pub validation_passed : Bool
  pub hip_runtime_version : Json F
  pub rccl_version : Json F
  pub plugin_path : Json F
  pub warnings : List Warning

unfoldable pub normalize_rocm : Text → Text
unfolding remove_prefix strip
normalize_rocm value = remove_prefix (lit "rocm/") (remove_prefix (lit "rocm-") (strip value))

-- previous is None or iteration == previous + 1
unfoldable pub continues : Option ℤ → ℤ → Bool
continues none iteration = true
continues (some previous) iteration = iteration == previous +ℤ pos 1

-- the loop over the sorted iterations of a sample
unfoldable pub run_loop : ℕ → Option ℤ → List ℕ → List ℤ → List ℕ
unfolding continues
run_loop current previous lengths [] = if current == 0 then lengths else lengths ++ current ∷ []
run_loop current previous lengths (iteration ∷ iterations) =
    let longer = run_loop (current + 1) (some iteration) lengths iterations in
    let next = run_loop 1 (some iteration) (lengths ++ current ∷ []) iterations in
    if continues previous iteration then longer else next

abbrev pub Iterations : Type 0
Iterations = Dict SampleKey (List ℤ)

-- the loop over the samples
unfoldable pub sample_runs : List ℕ → Iterations → List ℕ
unfolding run_loop sort_by
sample_runs lengths [] = lengths
sample_runs lengths ((key, iterations) ∷ samples) =
    sample_runs (run_loop 0 none lengths (sort_by leb_ℤ iterations)) samples

module _ {F : Type 0} where
  abbrev pub affected_sample : Affected F → SampleKey
  affected_sample a = record { halo_words = a.key.halo_words; sample_index = a.key.sample_index }

  unfoldable pub iterations_by_sample : Iterations → List (Affected F) → Iterations
  unfolding append_to
  iterations_by_sample samples [] = samples
  iterations_by_sample samples (a ∷ affected) =
      iterations_by_sample (append_to (affected_sample a) a.key.iteration_index samples) affected

  unfoldable pub event_lengths : List (Affected F) → List ℕ
  unfolding sample_runs iterations_by_sample
  event_lengths affected = sample_runs [] (iterations_by_sample [] affected)
