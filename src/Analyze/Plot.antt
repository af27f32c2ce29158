-- ===== src/Analyze/Plot.antt =====
-- The labels, axes, ticks and titles of the plots of tools/ghalo_analyze.py.
pub mod Ticks
pub mod Overrides
use g_halo.Json.{Builtin}
use g_halo.Stalls.Paths.{FilePath}
use g_halo.Stalls.Load.{member, is_nil}
use g_halo.Analyze.Results.{AnalyzeFault, AnalysisError}
use g_halo.Analyze.Labels.{run_labels}
use g_halo.Analyze.Numbers.{display_backend, plural, display_system}
use g_halo.Analyze.Run.Title.{label, text_part, rank_kind, count_part}
use g_halo.Text.Number.{show_nat}
use g_halo.Analyze.Run.Texts.{memory_location, backend, system}
use g_halo.Analyze.Scaling.{known_nodes}
use g_halo.Analyze.Run.Counts.{ranks_per_node, nodes, ranks}
use g_halo.Analyze.Run.{Run, or_text}
use g_halo.Analyze.Load.{path_suffix}
use g_halo.Text.{strip, Text, lower, lit, lstrip}
use g_halo.Float.{Float}
use g_halo.Result.{ok, err, ◌>>=◌, ◌>>◌, Result}
use g_halo.Prelude.{
  pos, negsuc, ℕ, zero, suc, some, none, int_eq, option_eq, List, Option, ◌∷◌, Bool, ℤ,
  if◌then◌else◌, [], ◌==◌, true, false, not, ◌++◌, ◌&&◌, ◌||◌, list_eq, nat_eq, ltb, length, map,
}

module _ {F : Type 0} ⦃f : Float F⦄ where
  abbrev pub same_scale : Run F → Run F → Bool
  same_scale run first =
      nodes run == nodes first
      && (ranks run == ranks first && ranks_per_node run == ranks_per_node first)

  unfoldable pub all_scaled : Run F → List (Run F) → Bool
  all_scaled first [] = true
  all_scaled first (run ∷ runs) = same_scale run first && all_scaled first runs

  unfoldable pub same_scale_configuration : List (Run F) → Bool
  unfolding all_scaled
  same_scale_configuration [] = false
  same_scale_configuration (first ∷ runs) = all_scaled first (first ∷ runs)

  unfoldable pub all_equal_count : Option ℤ → List (Run F) → Bool
  unfolding ranks_per_node
  all_equal_count first [] = true
  all_equal_count first (run ∷ runs) = ranks_per_node run == first && all_equal_count first runs

  -- a count that every run has; `none` where one does not know it
  unfoldable pub constant_ranks_per_node : List (Run F) → Option ℤ
  unfolding all_equal_count ranks_per_node
  constant_ranks_per_node [] = none
  constant_ranks_per_node (run ∷ runs) =
      if all_equal_count (ranks_per_node run) (run ∷ runs) then ranks_per_node run else none

  unfoldable pub all_nodes_known : List (Run F) → Bool
  unfolding known_nodes
  all_nodes_known [] = true
  all_nodes_known (run ∷ runs) = known_nodes run && all_nodes_known runs

  unfoldable pub choose_scaling_x_axis : List (Run F) → Text → Result AnalyzeFault Text
  unfolding all_nodes_known
  choose_scaling_x_axis runs requested =
      if not (requested == lit "auto")
        && (not (requested == lit "nodes") && not (requested == lit "ranks"))
      then err (AnalyzeFault.analysis (AnalysisError.unsupported_axis requested))
      else if requested == lit "nodes"
      then (if all_nodes_known runs
          then ok (lit "nodes")
          else err (AnalyzeFault.analysis AnalysisError.unknown_nodes))
      else if requested == lit "ranks"
      then ok (lit "ranks")
      else if all_nodes_known runs
      then ok (lit "nodes")
      else ok (lit "ranks")

  unfoldable pub scaling_x_value : Run F → Text → Result AnalyzeFault ℤ
  unfolding nodes ranks
  scaling_x_value run axis =
      let by_nodes : Result AnalyzeFault ℤ = elim (nodes run) [
        | none ↦ err (AnalyzeFault.analysis AnalysisError.unknown_nodes)
        | some n ↦ ok n
      ] in
      let by_ranks : Result AnalyzeFault ℤ = elim (ranks run) [
        | none ↦ err (AnalyzeFault.analysis AnalysisError.unknown_ranks)
        | some n ↦ ok n
      ] in
      if axis == lit "nodes" then by_nodes else by_ranks

  unfoldable pub any_device : List (Run F) → Bool
  unfolding memory_location
  any_device [] = false
  any_device (run ∷ runs) = memory_location run == lit "device" || any_device runs

  unfoldable pub scaling_axis_label : List (Run F) → Text → Text
  unfolding any_device
  scaling_axis_label runs axis =
      if axis == lit "nodes"
      then lit "Node Count"
      else if any_device runs
      then lit "GPU Rank Count"
      else lit "Rank Count"

  -- " (8 GPU ranks)"
  unfoldable pub rank_note : Bool → Run F → Text
  unfolding ranks plural rank_kind
  rank_note include_ranks run = elim (ranks run) [
    | none ↦ []
    | some n ↦ if include_ranks then lit " (" ++ plural n (rank_kind run) ++ lit ")" else []
  ]

  unfoldable pub rank_label : Run F → Text
  unfolding ranks plural rank_kind label
  rank_label run = elim (ranks run) [ none ↦ label run | some n ↦ plural n (rank_kind run) ]

  unfoldable pub scaling_run_label : Run F → Text → Bool → Text
  unfolding nodes plural rank_note rank_label
  scaling_run_label run axis include_ranks =
      let by_nodes : Text = elim (nodes run) [
        | none ↦ rank_label run
        | some n ↦ plural n (lit "node") ++ rank_note include_ranks run
      ] in
      if axis == lit "nodes" then by_nodes else rank_label run

  -- the labels that `run_labels` makes unique: an override that is not empty, or the run's label
  unfoldable pub given_labels : List (Run F) → List (Option Text) → List Text
  unfolding or_text label
  given_labels [] overrides = []
  given_labels (run ∷ runs) [] = []
  given_labels (run ∷ runs) (override ∷ overrides) =
      or_text override (label run) ∷ given_labels runs overrides

  unfoldable pub numbered_runs : ℕ → List (Run F) → List Text
  unfolding show_nat
  numbered_runs n [] = []
  numbered_runs n (run ∷ runs) = (lit "Run " ++ show_nat n) ∷ numbered_runs (suc n) runs

  unfoldable pub plain_labels : List (Run F) → List Text
  unfolding numbered_runs label
  plain_labels [] = []
  plain_labels (run ∷ []) = label run ∷ []
  plain_labels (run ∷ other ∷ runs) = numbered_runs 1 (run ∷ other ∷ runs)

  -- headline, which stands before the details
  unfoldable pub plot_headline : Text → Run F → Bool → Bool → Text
  unfolding display_backend backend
  plot_headline kind first scaling several =
      let start = lit "gHALO " ++ display_backend (backend first) in
      if kind == lit "percent-difference"
      then start ++ lit " Repeatability Difference"
      else if kind == lit "effective-rate"
      then start ++ lit " Effective Transferred-Byte Rate"
      else if scaling
      then start ++ lit " Scaling"
      else if several
      then start ++ lit " Repeatability"
      else start

  unfoldable pub rank_title : Run F → Text
  unfolding memory_location
  rank_title run = if memory_location run == lit "device" then lit "GPU Rank" else lit "Rank"

  unfoldable pub plot_details : List (Run F) → Run F → Bool → List Text
  unfolding text_part display_system system constant_ranks_per_node plural rank_title count_part
      nodes ranks
  plot_details runs first scaling =
      let scale = count_part (lit "Node") (nodes first) in
      let shared : List Text = elim (constant_ranks_per_node runs) [
        | none ↦ scale
        | some n ↦ (plural n (rank_title first) ++ lit " per Node") ∷ []
      ] in
      text_part (display_system (system first))
      ++ (if scaling then shared else scale)
      ++ (if scaling then [] else count_part (rank_title first) (ranks first))

  unfoldable pub is_scaling : Text → List (Run F) → Bool
  unfolding same_scale_configuration
  is_scaling kind runs =
      kind == lit "scaling"
      || (kind == lit "effective-rate"
          || (kind == lit "latency"
              && (ltb 1 (length runs) && not (same_scale_configuration runs))))

  -- the headline, and the details that a dash joins below it
  unfoldable pub default_plot_title : Text → List (Run F) → Result AnalyzeFault (Text × List Text)
  unfolding plot_headline plot_details is_scaling
  default_plot_title kind [] = err (AnalyzeFault.python Builtin.index_error)
  default_plot_title kind (first ∷ runs) = ok (
    plot_headline kind first (is_scaling kind (first ∷ runs)) (not (is_nil runs)),
    plot_details (first ∷ runs) first (is_scaling kind (first ∷ runs)),
  )

unfoldable pub any_override : List (Option Text) → Bool
any_override [] = false
any_override (none ∷ overrides) = any_override overrides
any_override (some text ∷ overrides) = not (is_nil text) || any_override overrides

-- text.split(","): the first word and the others
unfoldable pub split_commas : Text → Text × List Text
split_commas [] = ([], [])
split_commas (c ∷ s) =
    let (word, words) = split_commas s in
    if c == b',' then ([], word ∷ words) else (c ∷ word, words)

-- label.strip() for label in text.split(",")
unfoldable pub split_labels : Text → List Text
unfolding split_commas strip
split_labels text = let (word, words) = split_commas text in map strip (word ∷ words)

unfoldable pub no_labels : ℕ → List (Option Text)
no_labels zero = []
no_labels (suc n) = none ∷ no_labels n

-- the labels of --label and --labels, one for each run, or none
unfoldable pub label_overrides : List Text → Text → ℕ → Result AnalyzeFault (List (Option Text))
unfolding split_labels no_labels
label_overrides given comma_labels number =
    let labels = given ++ (if is_nil comma_labels then [] else split_labels comma_labels) in
    if is_nil labels
    then ok (no_labels number)
    else if length labels == number
    then ok (map (λ text. some text) labels)
    else err (AnalyzeFault.analysis (AnalysisError.label_count (length labels) number))

module _ {F : Type 0} ⦃f : Float F⦄ where
  unfoldable pub plot_series_labels :
      Text → List (Run F) → List (Option Text) → Text → Result AnalyzeFault (List Text)
  unfolding any_override run_labels given_labels same_scale_configuration choose_scaling_x_axis
      scaling_run_label plain_labels
  plot_series_labels kind runs overrides x_axis =
      if any_override overrides
      then ok (run_labels (given_labels runs overrides))
      else if kind == lit "scaling"
      then ok []
      else if (kind == lit "latency" || kind == lit "effective-rate")
          && not (same_scale_configuration runs)
      then (choose_scaling_x_axis runs x_axis >>= λ axis.
          ok (map (λ run. scaling_run_label run axis true) runs))
      else ok (plain_labels runs)

-- the suffixes of the formats
unfoldable pub output_format_for : FilePath → Text → Text
unfolding path_suffix lower lstrip member
output_format_for path requested =
    let suffix = lstrip (λ c. c == b'.') (lower (path_suffix path)) in
    if not (is_nil requested)
    then requested
    else if member suffix (map lit ("png" ∷ "pdf" ∷ "svg" ∷ []))
    then suffix
    else lit "png"

unfoldable pub output_dpi : Text → Text → Option ℤ → Option ℤ
output_dpi style output_format dpi =
    let default = if style == lit "publication" then pos 600 else pos 120 in
    let given : Option ℤ = elim dpi [ none ↦ some default | some n ↦ some n ] in
    if output_format == lit "pdf" || output_format == lit "svg" then none else given
