-- ===== src/Analyze/Keys.antt =====
-- The keys by which tools/ghalo_analyze.py sorts, groups and pairs runs, and their configurations.
pub mod Sorted
use g_halo.Prelude.{pair_eq, pair_ord, nat_ord, int_ord, text_ord, bool_eq, option_eq, int_eq}
use g_halo.Analyze.Labels.{filename_slug}
use g_halo.Analyze.Order.{backend_sort_key, rccl_sync_sort_key, optional_count_sort_key}
use g_halo.Json.{Builtin}
use g_halo.Analyze.Run.Counts.{ranks, nodes, cartesian, ranks_per_node}
use g_halo.Analyze.Numbers.{display_backend}
use g_halo.Text.Number.{show_int}
use g_halo.Result.{map_m, Result, ok, ◌>>=◌, err}
use g_halo.Analyze.Run.Title.{text_part}
use g_halo.Analyze.Run.Texts.{
  backend, system, rocm_version, rccl_sync_mode, build_system, phase_timing_enabled, git_commit,
  timestamp,
}
use g_halo.Stalls.Paths.{FilePath}
use g_halo.Float.{Float}
use g_halo.Analyze.Run.{Run}
use g_halo.Sort.{sort_by}
use g_halo.Analyze.Results.{RunResult, AnalyzeFault, AnalysisError}
use g_halo.Dict.{lookup, Dict, get_or}
use g_halo.Text.{join, Text, split_words, lower, lit}
use g_halo.Prelude.{
  pos, negsuc, ℕ, zero, suc, some, none, Bool, ◌≡◌, Eq, List, Option, ◌==◌, true, ℤ, pair_le, ◌∷◌,
  false, ◌↔◌, if◌then◌else◌, map, [], ◌++◌, ap, list_eq, nat_eq, int_eq, eq_of_==, option_eq,
  bool_eq,
}

-- str(path)
unfoldable pub path_text : FilePath → Text
unfolding join
path_text [] = lit "."
path_text (part ∷ parts) =
    if part == lit "/" then part ++ join (lit "/") parts else join (lit "/") (part ∷ parts)

-- An entry of a key: a text, an optional count, a truth value, or the pairs of halo and byte sizes.
pub data Value : Type 0 where
  text : Text → Value
  count : Option ℤ → Value
  flag : Bool → Value
  sizes : List (ℤ × ℤ) → Value

abbrev pub value_beq : Value → Value → Bool
value_beq (text s) (text t) = s == t
value_beq (count m) (count n) = m == n
value_beq (flag a) (flag b) = a == b
value_beq (sizes l) (sizes m) = l == m
value_beq _ _ = false

pub value_beq_iff : (a b : Value) → (value_beq a b ≡ true) ↔ (a ≡ b)
value_beq_iff (text s) (text t) = (λ h. ap text (eq_of_== s t h), λ h. (list_eq.beq_iff s t).1 (cc))
value_beq_iff (count m) (count n) =
    (λ h. ap count (eq_of_== m n h), λ h. (option_eq.beq_iff m n).1 (cc))
value_beq_iff (flag a) (flag b) = (λ h. ap flag (eq_of_== a b h), λ h. (bool_eq.beq_iff a b).1 (cc))
value_beq_iff (sizes l) (sizes m) =
    (λ h. ap sizes (eq_of_== l m h), λ h. (list_eq.beq_iff l m).1 (cc))
value_beq_iff (text s) (count n) = (λ h. cc, λ h. cc)
value_beq_iff (text s) (flag b) = (λ h. cc, λ h. cc)
value_beq_iff (text s) (sizes m) = (λ h. cc, λ h. cc)
value_beq_iff (count m) (text t) = (λ h. cc, λ h. cc)
value_beq_iff (count m) (flag b) = (λ h. cc, λ h. cc)
value_beq_iff (count m) (sizes l) = (λ h. cc, λ h. cc)
value_beq_iff (flag a) (text t) = (λ h. cc, λ h. cc)
value_beq_iff (flag a) (count n) = (λ h. cc, λ h. cc)
value_beq_iff (flag a) (sizes l) = (λ h. cc, λ h. cc)
value_beq_iff (sizes l) (text t) = (λ h. cc, λ h. cc)
value_beq_iff (sizes l) (count n) = (λ h. cc, λ h. cc)
value_beq_iff (sizes l) (flag b) = (λ h. cc, λ h. cc)

instance abbrev pub value_eq : Eq Value
value_eq = record { beq = value_beq; beq_iff = value_beq_iff }

-- the tuple of `run_output_sort_key`, which Python compares entry by entry
abbrev pub RunKey : Type 0
RunKey = Text × (Text × ((ℕ × Text) × ((ℕ × Text) × ((ℕ × ℤ) × ((ℕ × ℤ) × (Text × Text))))))

-- parts[index + 1] of the first part that is "--target-seconds" and not the last
unfoldable pub after_option : List Text → Text
after_option [] = []
after_option (part ∷ []) = []
after_option (part ∷ next ∷ parts) =
    let rest = after_option (next ∷ parts) in if part == lit "--target-seconds" then next else rest

-- the keys whose values differ, of two signatures with the same keys
unfoldable pub differing : Dict Text Value → Dict Text Value → List Text
unfolding lookup
differing [] right = []
differing ((key, value) ∷ left) right =
    let rest = differing left right in if some value == lookup key right then rest else key ∷ rest

unfoldable pub slug_count : Text → Option ℤ → List Text
unfolding show_int
slug_count unit none = []
slug_count unit (some n) = (show_int n ++ unit) ∷ []

module _ {F : Type 0} where
  unfoldable pub result_output_sort_key : RunResult F → ℤ × ℤ
  result_output_sort_key r = (r.total_exchange_bytes_per_rank, r.halo_words)

  abbrev pub result_le : RunResult F → RunResult F → Bool
  result_le a b = pair_le (result_output_sort_key a) (result_output_sort_key b)

  -- sorted(run.results, key=result_output_sort_key)
  unfoldable pub sorted_results : List (RunResult F) → List (RunResult F)
  unfolding sort_by result_output_sort_key
  sorted_results results = sort_by result_le results

  abbrev pub size_pair : RunResult F → ℤ × ℤ
  size_pair r = (r.halo_words, r.total_exchange_bytes_per_rank)

  -- the pairs of halo and byte sizes of a run, in the order of the results
  unfoldable pub message_sizes : Run F → List (ℤ × ℤ)
  unfolding sorted_results
  message_sizes run = map size_pair (sorted_results run.results)

  unfoldable pub extract_target_seconds : Run F → Text
  unfolding after_option split_words get_or
  extract_target_seconds run =
      after_option (split_words (get_or [] (lit "command.txt") run.metadata_files))

module _ {F : Type 0} ⦃f : Float F⦄ where
  unfoldable pub run_output_sort_key : Run F → RunKey
  unfolding lower system rocm_version backend_sort_key backend rccl_sync_sort_key rccl_sync_mode
      optional_count_sort_key nodes ranks timestamp path_text
  run_output_sort_key run = (
    lower (system run),
    (
      lower (rocm_version run),
      (
        backend_sort_key (backend run),
        (
          rccl_sync_sort_key (rccl_sync_mode run),
          (
            optional_count_sort_key (nodes run),
            (optional_count_sort_key (ranks run), (timestamp run, path_text run.result_path)),
          ),
        ),
      ),
    ),
  )

  abbrev pub run_le : Run F → Run F → Bool
  run_le a b = pair_le (run_output_sort_key a) (run_output_sort_key b)

  unfoldable pub sorted_runs_for_output : List (Run F) → List (Run F)
  unfolding sort_by
  sorted_runs_for_output runs = sort_by run_le runs

  unfoldable pub compatibility_key : Run F → Result Builtin (List Value)
  unfolding backend ranks nodes cartesian rocm_version rccl_sync_mode message_sizes
      phase_timing_enabled
  compatibility_key run = cartesian run >>= λ dimensions. ok (
      text (backend run)
      ∷ count (ranks run)
      ∷ count (nodes run)
      ∷ text dimensions
      ∷ text (rocm_version run)
      ∷ text (rccl_sync_mode run)
      ∷ sizes (message_sizes run)
      ∷ flag (phase_timing_enabled run)
      ∷ [])

  unfoldable pub percent_difference_pair_key : Run F → Result Builtin (List Value)
  unfolding system rocm_version nodes ranks cartesian message_sizes
  percent_difference_pair_key run = cartesian run >>= λ dimensions. ok (
      text (system run)
      ∷ text (rocm_version run)
      ∷ count (nodes run)
      ∷ count (ranks run)
      ∷ text dimensions
      ∷ sizes (message_sizes run)
      ∷ [])

  -- the value of one field of `grouping_key`
  unfoldable pub group_value : Run F → Text → Result AnalyzeFault Value
  unfolding system backend nodes ranks
  group_value run name =
      if name == lit "system"
      then ok (text (system run))
      else if name == lit "backend"
      then ok (text (backend run))
      else if name == lit "nodes"
      then ok (count (nodes run))
      else if name == lit "ranks"
      then ok (count (ranks run))
      else err (AnalyzeFault.analysis (AnalysisError.unsupported_group name))

  -- the two values that a key ends in, if they are not empty
  unfoldable pub extra_values : Run F → List Value
  unfolding text_part rccl_sync_mode rocm_version
  extra_values run = map text (text_part (rccl_sync_mode run) ++ text_part (rocm_version run))

  unfoldable pub grouping_key : Run F → List Text → Result AnalyzeFault (List Value)
  unfolding map_m group_value extra_values
  grouping_key run group_by =
      map_m (group_value run) group_by >>= λ values. ok (values ++ extra_values run)

  unfoldable pub run_comparison_slug : Run F → Text
  unfolding display_backend backend text_part rccl_sync_mode slug_count nodes ranks filename_slug
      join
  run_comparison_slug run =
      filename_slug
        (join (lit "-") (
          display_backend (backend run)
          ∷ (text_part (rccl_sync_mode run)
              ++ slug_count (lit "node") (nodes run)
              ++ slug_count (lit "rank") (ranks run))))
        (lit "run")

  unfoldable pub configuration_signature : Run F → Result Builtin (Dict Text Value)
  unfolding system build_system backend ranks nodes ranks_per_node cartesian git_commit
      phase_timing_enabled extract_target_seconds
  configuration_signature run = cartesian run >>= λ dimensions. ok (
      (lit "active_system", text (system run))
      ∷ (lit "build_system", text (build_system run))
      ∷ (lit "backend", text (backend run))
      ∷ (lit "ranks", count (ranks run))
      ∷ (lit "nodes", count (nodes run))
      ∷ (lit "ranks_per_node", count (ranks_per_node run))
      ∷ (lit "cartesian_dimensions", text dimensions)
      ∷ (lit "git_commit", text (git_commit run))
      ∷ (lit "phase_timing_enabled", flag (phase_timing_enabled run))
      ∷ (lit "target_seconds", text (extract_target_seconds run))
      ∷ [])

  -- the keys of the differences, whose values the callers only ask to be some
  unfoldable pub configuration_differences : Run F → Run F → Result Builtin (List Text)
  unfolding differing configuration_signature
  configuration_differences a b = configuration_signature a >>= λ left.
      configuration_signature b >>= λ right. ok (differing left right)
