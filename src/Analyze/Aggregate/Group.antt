-- ===== src/Analyze/Aggregate/Group.antt =====
-- `aggregate_group_metadata` of tools/ghalo_analyze.py.
use g_halo.Stalls.Load.{is_nil}
use g_halo.Analyze.Run.Counts.{ranks, nodes, ranks_per_node, cartesian}
use g_halo.Json.Show.{bool_text}
use g_halo.Analyze.Results.{AnalyzeFault, python_err}
use g_halo.Json.{Builtin}
use g_halo.Analyze.Run.{Run}
use g_halo.Analyze.Run.Title.{text_part, count_part, label}
use g_halo.Analyze.Run.Texts.{
  rccl_sync_mode, backend, rocm_version, system, build_system, phase_timing_enabled,
}
use g_halo.Text.{Text, join, lit}
use g_halo.Float.{Float}
use g_halo.Analyze.Numbers.{display_system, plural, display_backend}
use g_halo.Dict.{insert, Dict}
use g_halo.Text.Number.{show_int, int_of_text}
use g_halo.Result.{ok, err, ◌>>=◌, Result}
use g_halo.Analyze.Keys.{text, count, flag, sizes, Value, message_sizes}
use g_halo.Prelude.{
  pos, some, none, int_eq, List, Option, ℤ, Bool, ◌∷◌, true, [], ◌++◌, false, if◌then◌else◌,
  list_eq, nat_eq, ◌==◌, drop, length,
}

-- the items of a tuple of pairs, each with the comma that follows it if another one does
unfoldable pub pair_texts : List (ℤ × ℤ) → List Text
unfolding show_int
pair_texts [] = []
pair_texts ((m, n) ∷ pairs) =
    (lit "(" ++ show_int m ++ lit ", " ++ show_int n ++ lit ")") ∷ pair_texts pairs

abbrev pub closing : List Text → Text
closing (one ∷ []) = lit ",)"
closing _ = lit ")"

-- str(value)
unfoldable pub value_text : Value → Text
unfolding show_int pair_texts join
value_text (text s) = s
value_text (count none) = lit "None"
value_text (count (some n)) = show_int n
value_text (flag b) = bool_text b
value_text (sizes pairs) =
    lit "(" ++ join (lit ", ") (pair_texts pairs) ++ closing (pair_texts pairs)

-- int(value)
unfoldable pub value_int : Value → Result Builtin ℤ
unfolding int_of_text
value_int (text s) = elim (int_of_text s) [ none ↦ err Builtin.value_error | some n ↦ ok n ]
value_int (count none) = err Builtin.type_error
value_int (count (some n)) = ok n
value_int (flag true) = ok (pos 1)
value_int (flag false) = ok (pos 0)
value_int (sizes pairs) = err Builtin.type_error

-- value in (None, "")
unfoldable pub is_empty_value : Value → Bool
is_empty_value (text []) = true
is_empty_value (count none) = true
is_empty_value _ = false

-- zip(names, values)
unfoldable pub zip {ℓ κ} : {A : Type ℓ} {B : Type κ} → List A → List B → List (A × B)
zip [] right = []
zip (a ∷ left) [] = []
zip (a ∷ left) (b ∷ right) = (a, b) ∷ zip left right

unfoldable pub group_fields : Dict Text Value → List (Text × Value) → Dict Text Value
unfolding insert
group_fields metadata [] = metadata
group_fields metadata ((name, value) ∷ pairs) =
    group_fields (insert (lit "group_" ++ name) value metadata) pairs

-- plural(int(value), unit)
abbrev pub count_label : Text → Result Builtin ℤ → Result Builtin Text
count_label unit (ok n) = ok (plural n unit)
count_label unit (err e) = err e

-- what one field adds to the label
unfoldable pub field_label : Text → Value → Result Builtin Text
unfolding display_system value_text plural value_int
field_label name value =
    if name == lit "system"
    then ok (display_system (value_text value))
    else if name == lit "nodes"
    then count_label (lit "node") (value_int value)
    else if name == lit "ranks"
    then count_label (lit "rank") (value_int value)
    else ok (value_text value)

unfoldable pub field_labels : List (Text × Value) → Result Builtin (List Text)
unfolding field_label is_empty_value
field_labels [] = ok []
field_labels ((name, value) ∷ pairs) =
    let rest = field_labels pairs in
    if is_empty_value value
    then rest
    else field_label name value >>= λ label. rest >>= λ labels. ok (label ∷ labels)

abbrev pub joined_or : List Text → Text → Text
joined_or [] other = other
joined_or (label ∷ labels) other = join (lit " | ") (label ∷ labels)

-- `n if n is not None else ""`
unfoldable pub count_value : Option ℤ → Value
count_value none = text []
count_value (some n) = count (some n)

-- f"N={result.halo_words}:{result.total_exchange_bytes_per_rank}B/rank"
unfoldable pub size_texts : List (ℤ × ℤ) → List Text
unfolding show_int
size_texts [] = []
size_texts ((halo, bytes) ∷ pairs) =
    (lit "N=" ++ show_int halo ++ lit ":" ++ show_int bytes ++ lit "B/rank") ∷ size_texts pairs

module _ {F : Type 0} ⦃f : Float F⦄ where
  -- the two fields that stand for a key's further values
  unfoldable pub extra_fields : List Value → Run F → Dict Text Value → Dict Text Value
  unfolding insert rccl_sync_mode rocm_version
  extra_fields [] run metadata = metadata
  extra_fields (value ∷ values) run metadata =
      insert (lit "group_rocm_version") (text (rocm_version run))
        (insert (lit "group_rccl_sync_mode") (text (rccl_sync_mode run)) metadata)

  -- the metadata of a group of `--group-by`
  unfoldable pub named_metadata : Run F → List Value → List Text → Result Builtin (Dict Text Value)
  unfolding group_fields extra_fields field_labels text_part rccl_sync_mode rocm_version insert join
      zip
  named_metadata run key group_by = do
    labels ← field_labels (zip group_by key)
    let further = text_part (rccl_sync_mode run) ++ text_part (rocm_version run)
    let metadata =
        extra_fields (drop (length group_by) key) run (group_fields [] (zip group_by key))
    ok (insert (lit "group") (text (joined_or (labels ++ further) (lit "all runs"))) metadata)

  unfoldable pub configuration_label : Run F → Text → Text
  unfolding text_part display_system system display_backend backend count_part nodes ranks
      rccl_sync_mode label join
  configuration_label run dimensions =
      joined_or
        (text_part (display_system (system run))
          ++ text_part (display_backend (backend run))
          ++ count_part (lit "node") (nodes run)
          ++ count_part (lit "rank") (ranks run)
          ++ text_part dimensions
          ++ text_part (rccl_sync_mode run))
        (label run)

  -- the metadata of a group of equal configurations
  unfoldable pub configuration_metadata : Run F → Result Builtin (Dict Text Value)
  unfolding configuration_label backend system build_system count_value ranks nodes ranks_per_node
      cartesian phase_timing_enabled rccl_sync_mode rocm_version size_texts message_sizes join
  configuration_metadata run = cartesian run >>= λ dimensions. ok (
      (lit "group", text (configuration_label run dimensions))
      ∷ (lit "group_backend", text (backend run))
      ∷ (lit "group_active_system", text (system run))
      ∷ (lit "group_build_system", text (build_system run))
      ∷ (lit "group_ranks", count_value (ranks run))
      ∷ (lit "group_nodes", count_value (nodes run))
      ∷ (lit "group_ranks_per_node", count_value (ranks_per_node run))
      ∷ (lit "group_cartesian_dimensions", text dimensions)
      ∷ (lit "group_phase_timing_enabled", flag (phase_timing_enabled run))
      ∷ (lit "group_rccl_sync_mode", text (rccl_sync_mode run))
      ∷ (lit "group_rocm_version", text (rocm_version run))
      ∷ (lit "group_bytes_per_rank_by_halo", text (join (lit ";") (size_texts (message_sizes run))))
      ∷ [])

  unfoldable pub aggregate_group_metadata :
      Run F → List Value → List Text → Result AnalyzeFault (Dict Text Value)
  unfolding named_metadata configuration_metadata
  aggregate_group_metadata run key group_by =
      python_err
        (if is_nil group_by then configuration_metadata run else named_metadata run key group_by)
