-- ===== src/Analyze/PathMetadata.antt =====
-- `infer_path_metadata` of tools/ghalo_analyze.py, and what it calls.
use g_halo.Stalls.Load.{is_nil}
use g_halo.Analyze.RunName.{split_run_name, set_some}
use g_halo.KeyValue.{Metadata}
use g_halo.Stalls.Paths.{FilePath, path_name}
use g_halo.Text.Plain.{is_plain}
use g_halo.Text.Number.{is_digit}
use g_halo.Text.{lower, Text, remove_prefix, contains, starts_with, lit, drop_prefix}
use g_halo.Dict.{get_or, insert}
use g_halo.Prelude.{
  ℕ, Bool, Option, leb, true, none, [], false, if◌then◌else◌, ◌∷◌, some, ◌&&◌, not, ◌++◌, ◌||◌,
  ◌==◌, list_eq, nat_eq, get_elem?, drop,
}

unfoldable pub infer_rccl_sync_mode : Text → Text
unfolding lower contains
infer_rccl_sync_mode label =
    if contains (lit "stream-ordered") (lower label)
    then lit "stream-ordered"
    else if contains (lit "conservative") (lower label)
    then lit "conservative"
    else []

-- \w of ASCII
unfoldable pub is_word : ℕ → Bool
unfolding is_digit
is_word c = (leb b'A' c && leb c b'Z') || (leb b'a' c && leb c b'z') || is_digit c || c == b'_'

-- \b after a word character
unfoldable pub at_boundary : Text → Bool
unfolding is_word
at_boundary [] = true
at_boundary (c ∷ s) = not (is_word c)

-- the optional character that passes the test
unfoldable pub skip_one : (ℕ → Bool) → Text → Text
skip_one test [] = []
skip_one test (c ∷ s) = if test c then s else c ∷ s

-- [-_]?{unit}s?\b at the start, with the case ignored
unfoldable pub has_unit : Text → Text → Bool
unfolding skip_one lower starts_with drop_prefix at_boundary
has_unit unit s =
    let t = skip_one (λ c. c == b'-' || c == b'_') (lower s) in
    starts_with unit t && at_boundary (skip_one (λ c. c == b's') (drop_prefix unit t))

-- re.search(rf"(\d+)[-_]?{unit}s?\b", label): the first run of digits that the unit follows;
-- `digits` is the run that is being read
unfoldable pub count_from : Text → Text → Text → Option Text
unfolding has_unit is_digit
count_from unit digits [] = none
count_from unit digits (c ∷ s) =
    let longer = count_from unit (digits ++ c ∷ []) s in
    let next = count_from unit [] s in
    if is_digit c
    then longer
    else if not (is_nil digits) && has_unit unit (c ∷ s)
    then some digits
    else next

unfoldable pub parse_count_from_label : Text → Text → Option Text
unfolding count_from
parse_count_from_label label unit = count_from unit [] label

-- \d+ at the start: the text after it
unfoldable pub skip_digits : Text → Text
unfolding is_digit
skip_digits [] = []
skip_digits (c ∷ s) = let rest = skip_digits s in if is_digit c then rest else c ∷ s

-- every character is in [-._A-Za-z0-9], but for a last line break
unfoldable pub is_version_tail : Text → Bool
unfolding is_plain
is_version_tail [] = true
is_version_tail (c ∷ []) = is_plain c || c == 10
is_version_tail (c ∷ d ∷ s) = is_plain c && is_version_tail (d ∷ s)

unfoldable pub starts_with_digit : Text → Bool
unfolding is_digit
starts_with_digit [] = false
starts_with_digit (c ∷ s) = is_digit c

-- \.\d and a tail
unfoldable pub has_minor : Text → Bool
unfolding starts_with_digit is_version_tail
has_minor [] = false
has_minor (c ∷ s) = c == b'.' && (starts_with_digit s && is_version_tail s)

-- VERSION_RE.match(text)
unfoldable pub is_version : Text → Bool
unfolding remove_prefix starts_with_digit skip_digits has_minor
is_version text =
    let version = remove_prefix (lit "rocm-") text in
    starts_with_digit version && has_minor (skip_digits version)

-- the parts from index + 2 on, and the system
pub record Placed : Type 0 where
  pub system : Option Text
  pub relative : FilePath

unfoldable pub place_from : FilePath → Option Placed
place_from [] = none
place_from (part ∷ parts) =
    let rest = place_from parts in
    if part == lit "results"
    then some (record { system = get_elem? parts 0; relative = drop 1 parts })
    else rest

unfoldable pub place_of : FilePath → Placed
unfolding place_from path_name
place_of path = elim (place_from path) [
  | some placed ↦ placed
  | none ↦ record { system = none; relative = path_name path ∷ [] }
]

-- the ROCm version and the suite, if the path has them, and the run's name
pub record Located : Type 0 where
  pub found : Metadata
  pub run_name : Text

unfoldable pub locate : FilePath → FilePath → Metadata → Located
unfolding is_version insert path_name
locate path [] metadata = record { found = metadata; run_name = path_name path }
locate path (first ∷ suite ∷ name ∷ others) metadata =
    if is_version first
    then record {
      found = insert (lit "suite") suite (insert (lit "rocm_version") first metadata);
      run_name = name;
    }
    else record { found = metadata; run_name = first }
locate path (first ∷ others) metadata = record { found = metadata; run_name = first }

-- metadata.update(other)
unfoldable pub update : Metadata → Metadata → Metadata
unfolding insert
update metadata [] = metadata
update metadata ((key, value) ∷ other) = update (insert key value metadata) other

-- a key that is set only to a text that is not empty
unfoldable pub set_text : Text → Text → Metadata → Metadata
unfolding insert
set_text key value metadata = if is_nil value then metadata else insert key value metadata

unfoldable pub infer_path_metadata : FilePath → Metadata
unfolding place_of locate split_run_name update set_text set_some infer_rccl_sync_mode
    parse_count_from_label get_or
infer_path_metadata path =
    let placed = place_of path in
    let located = locate path placed.relative (set_some (lit "system") placed.system []) in
    let run = split_run_name located.run_name in
    let label = get_or [] (lit "label") run in
    let backend = get_or [] (lit "backend") run in
    let mode = if backend == lit "rccl" then infer_rccl_sync_mode label else [] in
    set_some (lit "ranks") (parse_count_from_label label (lit "rank")) (
      set_some (lit "nodes") (parse_count_from_label label (lit "node")) (
        set_text (lit "rccl_sync_mode") mode
          (set_text (lit "backend") backend (update located.found run))))
